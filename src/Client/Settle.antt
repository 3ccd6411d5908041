-- ===== src/Client/Settle.antt =====
-- What the loops of src/client/client_handler.rs do while the event channel accepts events: which
-- events they send, and how often each request is settled.
use bevy_simplenet.Common.{
  ℕ, ◌+◌, ◌≡◌, refl, sym, ap, ◌∙◌, Bool, true, false, List, [], ◌∷◌, ◌++◌, map, Option, none, some,
  if◌then◌else◌, ◌==◌, arith, append-nil, append_assoc, count,
}
use bevy_simplenet.Client.Signal.{
  Cells, MessageStatus, RequestSignal, RequestStatus, Snapshot, message_status, set_lost, write,
}
use bevy_simplenet.Client.Signal
use bevy_simplenet.Client.State.{ClientReport, ClientEvent, ClientState, Outside, send_event}
use bevy_simplenet.Client.Handler.{
  failure_event, abort_unless, try_send, clean_loop, final_loop, fail_aborted,
}

abbrev pub ids : List RequestSignal → List ℕ
ids [] = []
ids (r ∷ rs) = r.request_id ∷ ids rs

-- Each pending request stands under its own id.
abbrev pub Keyed : List (ℕ × RequestSignal) → Type 0
Keyed [] = Unit
Keyed ((k, r) ∷ m) = (r.request_id ≡ k) × Keyed m

-- The statuses that have a failure event.
abbrev pub is_failure : RequestStatus → Bool
is_failure RequestStatus.send_failed = true
is_failure RequestStatus.response_lost = true
is_failure _ = false

-- The ids without a failure event.
abbrev pub unfailed : Snapshot → Cells → List RequestSignal → List ℕ
unfailed later cells [] = []
unfailed later cells (r ∷ rs) =
    let rest = unfailed later cells rs in
    if is_failure (Signal.status later cells r) then rest else r.request_id ∷ rest

module _ {ServerMsg ServerResponse : Type 0} where
  -- How often an event settles a request.
  abbrev pub settles : ℕ → ClientEvent ServerMsg ServerResponse → ℕ
  settles k (ClientEvent.report (ClientReport.is_dead dead)) = count k dead
  settles k (ClientEvent.report _) = 0
  settles k (ClientEvent.msg m) = 0
  settles k (ClientEvent.response r id) = if id == k then 1 else 0
  settles k (ClientEvent.ack id) = if id == k then 1 else 0
  settles k (ClientEvent.reject id) = if id == k then 1 else 0
  settles k (ClientEvent.send_failed id) = if id == k then 1 else 0
  settles k (ClientEvent.response_lost id) = if id == k then 1 else 0

  abbrev pub results : ℕ → List (ClientEvent ServerMsg ServerResponse) → ℕ
  results k [] = 0
  results k (e ∷ es) = settles k e + results k es

  pub results-append :
      (k : ℕ) (xs ys : List (ClientEvent ServerMsg ServerResponse))
      → results k (xs ++ ys) ≡ results k xs + results k ys
  results-append k [] ys = omega arith
  results-append k (x ∷ xs) ys = omega (arith, results-append k xs ys)

  -- The event channel accepts everything, as it does while the client lives.
  abbrev pub Accepts : Outside ServerMsg ServerResponse → Type 0
  Accepts o = (e : ClientEvent ServerMsg ServerResponse) → o.accepts e ≡ true

  abbrev pub logged :
      ClientState ServerMsg ServerResponse
      → List (ClientEvent ServerMsg ServerResponse)
      → ClientState ServerMsg ServerResponse
  logged s es = record s { sent = s.sent ++ es }

  abbrev pub with_event :
      Option (ClientEvent ServerMsg ServerResponse)
      → List (ClientEvent ServerMsg ServerResponse)
      → List (ClientEvent ServerMsg ServerResponse)
  with_event none es = es
  with_event (some e) es = e ∷ es

  -- The failure events of drained requests, in order.
  abbrev pub failures :
      Snapshot → Cells → List RequestSignal → List (ClientEvent ServerMsg ServerResponse)
  failures later cells [] = []
  failures later cells (r ∷ rs) =
      with_event (failure_event (Signal.status later cells r) r.request_id)
        (failures later cells rs)

  pub send_event-Accepts :
      (o : Outside ServerMsg ServerResponse) (e : ClientEvent ServerMsg ServerResponse)
      (s : ClientState ServerMsg ServerResponse)
      → Accepts o
      → send_event o e s ≡ (logged s (e ∷ []), true)
  unfolding send_event
  send_event-Accepts o e s h = rw (h e, send_event)

  append-logged :
      (s : ClientState ServerMsg ServerResponse) (e : ClientEvent ServerMsg ServerResponse)
      (es : List (ClientEvent ServerMsg ServerResponse))
      → logged (logged s (e ∷ [])) es ≡ logged s (e ∷ es)
  append-logged s e es =
      ap (λ (l : List (ClientEvent ServerMsg ServerResponse)). record s { sent = l })
        (append_assoc s.sent (e ∷ []) es)

  logged-nil : (s : ClientState ServerMsg ServerResponse) → s ≡ logged s []
  logged-nil s =
      ap (λ (l : List (ClientEvent ServerMsg ServerResponse)). record s { sent = l })
        (sym (append-nil s.sent))

  try_send-Accepts :
      (o : Outside ServerMsg ServerResponse) (event : Option (ClientEvent ServerMsg ServerResponse))
      (s : ClientState ServerMsg ServerResponse)
      → Accepts o
      → try_send o event s ≡ logged s (with_event event [])
  unfolding try_send
  try_send-Accepts o none s h = logged-nil s
  try_send-Accepts o (some e) s h = rw (send_event-Accepts o e s h, try_send)

  logged-with_event :
      (event : Option (ClientEvent ServerMsg ServerResponse))
      (es : List (ClientEvent ServerMsg ServerResponse)) (s : ClientState ServerMsg ServerResponse)
      → logged (logged s (with_event event [])) es ≡ logged s (with_event event es)
  logged-with_event none es s =
      ap (λ (l : List (ClientEvent ServerMsg ServerResponse)). record s { sent = l ++ es })
        (append-nil s.sent)
  logged-with_event (some e) es s = append-logged s e es

  pub clean_loop-Accepts :
      (o : Outside ServerMsg ServerResponse) (rs : List RequestSignal)
      (s : ClientState ServerMsg ServerResponse)
      → Accepts o
      → clean_loop o rs s ≡ logged s (failures o.statuses_later s.cells rs)
  unfolding clean_loop
  clean_loop-Accepts o [] s h = logged-nil s
  clean_loop-Accepts o (r ∷ rs) s h =
      let event = failure_event (Signal.status o.statuses_later s.cells r) r.request_id in
      rw (try_send-Accepts o event s h) (
        clean_loop-Accepts o rs (logged s (with_event event [])) h
        ∙ logged-with_event event (failures o.statuses_later s.cells rs) s)

  unfailed_step :
      (st : RequestStatus) (id : ℕ) (rest : List ℕ)
      (event : Option (ClientEvent ServerMsg ServerResponse))
      → event ≡ failure_event st id
      → abort_unless event id rest ≡ (if is_failure st then rest else id ∷ rest)
  unfolding failure_event
  unfailed_step RequestStatus.send_failed id rest event e = rw e
  unfailed_step _ id rest event e = rw e

  pub final_loop-Accepts :
      (o : Outside ServerMsg ServerResponse) (rs : List RequestSignal)
      (s : ClientState ServerMsg ServerResponse)
      → Accepts o
      → final_loop o rs s
        ≡ (logged s (failures o.statuses_later s.cells rs), unfailed o.statuses_later s.cells rs)
  unfolding final_loop
  final_loop-Accepts o [] s h =
      ap (λ (t : ClientState ServerMsg ServerResponse). (t, [])) (logged-nil s)
  final_loop-Accepts o (r ∷ rs) s h =
      let st = Signal.status o.statuses_later s.cells r in
      let event =
        failure_event {ServerMsg = ServerMsg} {ServerResponse = ServerResponse} st r.request_id in
      rw (try_send-Accepts o event s h, final_loop-Accepts o rs (logged s (with_event event [])) h)
        (λ i. (
          logged-with_event event (failures o.statuses_later s.cells rs) s i,
          unfailed_step st r.request_id (unfailed o.statuses_later s.cells rs) event refl i,
        ))

  pub fail_aborted-Accepts :
      (o : Outside ServerMsg ServerResponse) (dead : List ℕ)
      (s : ClientState ServerMsg ServerResponse)
      → Accepts o
      → fail_aborted o dead s ≡ (logged s (map ClientEvent.send_failed dead), true)
  unfolding fail_aborted
  fail_aborted-Accepts o [] s h =
      ap (λ (t : ClientState ServerMsg ServerResponse). (t, true)) (logged-nil s)
  fail_aborted-Accepts o (id ∷ dead) s h =
      rw
        (
          send_event-Accepts o (ClientEvent.send_failed id) s h,
          fail_aborted-Accepts o dead (logged s (ClientEvent.send_failed id ∷ [])) h,
        )
        (ap (λ (t : ClientState ServerMsg ServerResponse). (t, true)) (append-logged s _ _))
