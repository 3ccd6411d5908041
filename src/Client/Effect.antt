-- ===== src/Client/Effect.antt =====
-- The effect of each callback of src/client/client_handler.rs on the event log, the count of
-- disconnects and the pending requests, while the event channel accepts events.
use bevy_simplenet.Common.{
  ℕ, ◌+◌, ◌%◌, ◌^◌, ◌≤◌, ◌≡◌, refl, ap, ◌∙◌, List, [], ◌∷◌, ◌++◌, if◌then◌else◌, ltb, arith, count,
  append_assoc,
}
use bevy_simplenet.Common.Map.{keys}
use bevy_simplenet.Client.Signal.{RequestSignal, RequestStatus}
use bevy_simplenet.Client.Signal
use bevy_simplenet.Client.Tracker.{drain_loop, abort_loop, drain_failed_requests, abort_all}
use bevy_simplenet.Client.State.{ClientReport, ClientEvent, ClientState, Outside}
use bevy_simplenet.Client.Handler.{
  clean_pending_requests, final_request_cleanup, clean_loop, failure_event,
}
use bevy_simplenet.Client.Settle.{
  with_event, Keyed, failures, unfailed, settles, results, results-append, Accepts, logged,
  clean_loop-Accepts, final_loop-Accepts,
}
use bevy_simplenet.Client.Drain.{
  Terminal, drain_loop-count, drain_loop-Keyed, drain_loop-IsLost, unfailed_drained,
  failures-unfailed,
}

module _ {ServerMsg ServerResponse : Type 0} where
  -- How many `Connected` reports are among events.
  abbrev pub connects : List (ClientEvent ServerMsg ServerResponse) → ℕ
  connects [] = 0
  connects (ClientEvent.report ClientReport.connected ∷ es) = 1 + connects es
  connects (_ ∷ es) = connects es

  pub connects-append :
      (xs ys : List (ClientEvent ServerMsg ServerResponse))
      → connects (xs ++ ys) ≡ connects xs + connects ys
  connects-append [] ys = omega arith
  connects-append (ClientEvent.report ClientReport.connected ∷ xs) ys =
      omega (arith, connects-append xs ys)
  connects-append (ClientEvent.report ClientReport.disconnected ∷ xs) ys = connects-append xs ys
  connects-append (ClientEvent.report (ClientReport.closed_by_server f) ∷ xs) ys =
      connects-append xs ys
  connects-append (ClientEvent.report ClientReport.closed_by_self ∷ xs) ys = connects-append xs ys
  connects-append (ClientEvent.report (ClientReport.is_dead l) ∷ xs) ys = connects-append xs ys
  connects-append (ClientEvent.msg m ∷ xs) ys = connects-append xs ys
  connects-append (ClientEvent.response r i ∷ xs) ys = connects-append xs ys
  connects-append (ClientEvent.ack i ∷ xs) ys = connects-append xs ys
  connects-append (ClientEvent.reject i ∷ xs) ys = connects-append xs ys
  connects-append (ClientEvent.send_failed i ∷ xs) ys = connects-append xs ys
  connects-append (ClientEvent.response_lost i ∷ xs) ys = connects-append xs ys

  -- 1 for an id that is reserved.
  abbrev pub reserved : ClientState ServerMsg ServerResponse → ℕ → ℕ
  reserved s k = if ltb k s.tracker.request_counter then 1 else 0

  abbrev pub pending : ClientState ServerMsg ServerResponse → ℕ → ℕ
  pending s k = count k (keys s.tracker.pending_requests)

  -- `s'` comes from `s` by logging `es`, among them `c` connection reports, and counting `d`
  -- disconnects; each request that leaves the tracker is settled by an event among `es`.
  pub record Effect (s s' : ClientState ServerMsg ServerResponse)
      (es : List (ClientEvent ServerMsg ServerResponse)) (c d : ℕ) : Type 0 where
    pub poison_same : s'.poisoned ≡ s.poisoned
    pub log : s'.sent ≡ s.sent ++ es
    pub connected : connects es ≡ c
    pub counted : s'.client_disconnected_count % 2 ^ 16 ≡ (s.client_disconnected_count + d) % 2 ^ 16
    pub keyed : Keyed s'.tracker.pending_requests
    pub grown : s.tracker.request_counter ≤ s'.tracker.request_counter
    pub settled : (k : ℕ) → pending s' k + results k es + reserved s k ≡ pending s k + reserved s' k

  pub Effect-trans :
      (s t u : ClientState ServerMsg ServerResponse)
      (es fs : List (ClientEvent ServerMsg ServerResponse)) (c d c' d' : ℕ)
      → Effect s t es c d
      → Effect t u fs c' d'
      → Effect s u (es ++ fs) (c + c') (d + d')
  Effect-trans s t u es fs c d c' d' p q = record {
    poison_same = q.poison_same ∙ p.poison_same;
    log =
        q.log
        ∙ ap (λ (l : List (ClientEvent ServerMsg ServerResponse)). l ++ fs) p.log
        ∙ append_assoc s.sent es fs;
    connected = omega (arith, connects-append es fs, p.connected, q.connected);
    counted = omega (arith, p.counted, q.counted);
    keyed = q.keyed;
    grown = omega (arith, p.grown, q.grown);
    settled = λ k. omega (arith, results-append k es fs, p.settled k, q.settled k);
  }

  -- One event that settles nothing and reports no connection.
  pub logged-Effect :
      (s : ClientState ServerMsg ServerResponse) (e : ClientEvent ServerMsg ServerResponse) (c : ℕ)
      → Keyed s.tracker.pending_requests
      → connects (e ∷ []) ≡ c
      → ((k : ℕ) → settles k e ≡ 0)
      → Effect s (logged s (e ∷ [])) (e ∷ []) c 0
  logged-Effect s e c h n z = record {
    poison_same = refl;
    log = refl;
    connected = n;
    counted = omega arith;
    keyed = h;
    grown = omega arith;
    settled = λ k. omega (arith, z k);
  }

  with_event-connects :
      (st : RequestStatus) (id : ℕ) (es : List (ClientEvent ServerMsg ServerResponse))
      → connects es ≡ 0
      → connects (with_event (failure_event st id) es) ≡ 0
  unfolding failure_event
  with_event-connects RequestStatus.send_failed id es h = h
  with_event-connects _ id es h = h

pub failures-connects :
    (ServerMsg ServerResponse : Type 0) (later : Signal.Snapshot) (cells : Signal.Cells)
    (rs : List RequestSignal)
    → connects (failures {ServerMsg = ServerMsg} {ServerResponse = ServerResponse} later cells rs)
      ≡ 0
failures-connects ServerMsg ServerResponse later cells [] = refl
failures-connects ServerMsg ServerResponse later cells (r ∷ rs) =
    with_event-connects (Signal.status later cells r) r.request_id (failures later cells rs)
      (failures-connects ServerMsg ServerResponse later cells rs)

module _ {ServerMsg ServerResponse : Type 0} where
  -- `clean_pending_requests` settles each request that it drains.
  pub clean-Effect :
      (o : Outside ServerMsg ServerResponse) (s : ClientState ServerMsg ServerResponse)
      → Accepts o
      → Terminal o.statuses o.statuses_later
      → Keyed s.tracker.pending_requests
      → (es : List (ClientEvent ServerMsg ServerResponse)) × Effect s
          (clean_pending_requests o s)
          es
          0
          0
  unfolding clean_pending_requests drain_failed_requests
  clean-Effect o s h t keyed = (
    es,
    record {
      poison_same = ap (λ (x : ClientState ServerMsg ServerResponse). x.poisoned) whole;
      log = ap (λ (x : ClientState ServerMsg ServerResponse). x.sent) whole;
      connected = failures-connects ServerMsg ServerResponse o.statuses_later drained.0 drained.2;
      counted = omega (
        arith,
        ap (λ (x : ClientState ServerMsg ServerResponse). x.client_disconnected_count) whole,
      );
      keyed = rw whole (drain_loop-Keyed o.statuses s.cells s.tracker.pending_requests keyed);
      grown = rw whole (omega arith);
      settled = λ k. rw whole (
          omega (
            arith,
            drain_loop-count o.statuses s.cells s.tracker.pending_requests k keyed,
            failures-unfailed ServerMsg ServerResponse k o.statuses_later drained.0 drained.2,
            ap (count k) none_left,
          ));
    },
  )
    where
      drained : Signal.Cells × List (ℕ × RequestSignal) × List RequestSignal
      drained = drain_loop o.statuses s.cells s.tracker.pending_requests

      es : List (ClientEvent ServerMsg ServerResponse)
      es = failures o.statuses_later drained.0 drained.2

      cleaned : ClientState ServerMsg ServerResponse
      cleaned = record s {
        tracker = record (s.tracker) { pending_requests = drained.1 };
        cells = drained.0;
      }

      whole : clean_loop o drained.2 cleaned ≡ logged cleaned es
      whole = clean_loop-Accepts o drained.2 cleaned h

      none_left : unfailed o.statuses_later drained.0 drained.2 ≡ []
      none_left =
          unfailed_drained o.statuses o.statuses_later drained.0 drained.2 t
            (drain_loop-IsLost o.statuses s.cells s.tracker.pending_requests)

  -- `final_request_cleanup` empties the tracker; the ids that it returns are not settled yet.
  pub final-eq :
      (o : Outside ServerMsg ServerResponse) (s : ClientState ServerMsg ServerResponse)
      → Accepts o
      → let drained = abort_loop s.cells s.tracker.pending_requests in
        final_request_cleanup o s ≡ (
          logged
              (record s {
                tracker = record (s.tracker) { pending_requests = [] };
                cells = drained.0;
              })
              (failures o.statuses_later drained.0 drained.1),
          unfailed o.statuses_later drained.0 drained.1,
        )
  unfolding final_request_cleanup abort_all
  final-eq o s h = final_loop-Accepts o _ _ h
