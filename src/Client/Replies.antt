-- ===== src/Client/Replies.antt =====
-- The replies and the requests of a client keep the cells in agreement with the events.
use bevy_simplenet.Common.{
  ℕ, ◌+◌, ◌^◌, ◌<◌, ◌≡◌, refl, ap, ◌∙◌, false, List, [], ◌∷◌, Option, none, some, if◌then◌else◌,
  ◌==◌, arith, All-append, All-weaken, inl, inr, Bool-cases, Option-cases,
}
use bevy_simplenet.Common.Bytes.{Bytes}
use bevy_simplenet.Common.Map.{remove, insert, lookup, count-keys-remove}
use bevy_simplenet.Protocol.{ClientMetaEvent}
use bevy_simplenet.Client.Signal.{
  Cells, RequestSignal, MessageSignal, RequestStatus, write, inner_code,
}
use bevy_simplenet.Client.Signal
use bevy_simplenet.Client.Tracker.{set_status_and_remove}
use bevy_simplenet.Client.State.{ClientEvent, ClientState, Outside, Result}
use bevy_simplenet.Client.Handler.{send_or_fail, settle, on_binary}
use bevy_simplenet.Client.Settle.{Accepts, logged, settles, send_event-Accepts}
use bevy_simplenet.Client.Effect.{pending}
use bevy_simplenet.Client.Calls.{requested}
use bevy_simplenet.Client.Cells.{Waiting, Keeps, Waiting-write, Waiting-remove, Waiting-lookup}
use bevy_simplenet.Client.Told.{Tells, Keeps-Tells, code}
use bevy_simplenet.Client.Agreement.{Agrees, Agrees-logged}

-- A cell that is untouched may be written.
write-Keeps : (c : Cells) (a v : ℕ) → c.cell a ≡ 0 → Keeps c (write c a v)
unfolding write
write-Keeps c a v zero = record {
  next = omega arith;
  set = λ b small set. elim (Bool-cases (a == b)) [
    | inl same ↦ absurd (set (ground arith))
    | inr other ↦ ground arith
  ];
}

new-Keeps : (c : Cells) (id : ℕ) (m : MessageSignal) → Keeps c (Signal.new c id m).0
unfolding Signal.new write
new-Keeps c id m = record { next = omega arith; set = λ a small set. ground arith }

new-Waiting :
    (c : Cells) (id : ℕ) (message : MessageSignal) (m : List (ℕ × RequestSignal))
    → Waiting c m
    → Waiting (Signal.new c id message).0 m
unfolding Signal.new write
new-Waiting c id message [] w = tt
new-Waiting c id message ((k, r) ∷ m) ((own, small, zero, once), w) =
    ((own, omega arith, ground arith, once), new-Waiting c id message m w)

module _ {ServerMsg ServerResponse : Type 0} where
  removed-Agrees :
      (s : ClientState ServerMsg ServerResponse) (id v : ℕ) (signal : RequestSignal)
      (event : ClientEvent ServerMsg ServerResponse)
      → lookup id s.tracker.pending_requests ≡ some signal
      → ((k : ℕ) → settles k event ≡ (if id == k then 1 else 0))
      → code event ≡ v
      → Agrees s
      → Agrees (
          logged
            (record s {
              tracker = record (s.tracker) {
                pending_requests = remove id s.tracker.pending_requests;
              };
              cells = write s.cells signal.request_signal v;
            })
            (event ∷ []))
  unfolding write
  removed-Agrees s id v signal event there only codes a =
      let m = s.tracker.pending_requests in
      let (own, small, zero) = Waiting-lookup s.cells m id signal a.waiting there in
      let keeps = write-Keeps s.cells signal.request_signal v (ap s.cells.cell own ∙ zero) in
      record {
        next = a.next;
        waiting =
            Waiting-write s.cells (remove id m) signal.request_signal v
              (rw own (ground (arith, count-keys-remove id id m)))
              (Waiting-remove s.cells m id a.waiting);
        blank = λ i h. let before = a.blank i h in ground arith;
        told =
            All-append _ s.sent (event ∷ [])
              (All-weaken (Tells s.cells) _ s.sent (λ e. Keeps-Tells s.cells _ e keeps) a.told)
              (λ k told. let one = only k in ground arith, tt);
      }

  -- The code of a status that a reply sets is that of its event.
  settle-Agrees :
      (o : Outside ServerMsg ServerResponse) (id v : ℕ) (st : RequestStatus)
      (event : ClientEvent ServerMsg ServerResponse) (s s' : ClientState ServerMsg ServerResponse)
      (r : Result (Unit {0}))
      → s.poisoned ≡ false
      → Accepts o
      → ((k : ℕ) → settles k event ≡ (if id == k then 1 else 0))
      → code event ≡ v
      → inner_code st ≡ some v
      → settle o id st event s ≡ some (s', r)
      → Agrees s
      → Agrees s'
  unfolding settle set_status_and_remove send_or_fail Signal.set
  settle-Agrees o id v st event s s' r p h only codes inner e a =
      elim (Option-cases (lookup id s.tracker.pending_requests)) [
        | inl gone ↦ let same : s' ≡ s = ground arith in rw same a
        | inr (signal, there) ↦
            let taken : ClientState ServerMsg ServerResponse = record s {
              tracker = record (s.tracker) {
                pending_requests = remove id s.tracker.pending_requests;
              };
              cells = write s.cells signal.request_signal v;
            } in
            let accepted = send_event-Accepts o event taken h in
            let same : s' ≡ logged taken (event ∷ []) = ground arith in
            rw same (removed-Agrees s id v signal event there only codes a)
      ]

  pub on_binary-Agrees :
      (o : Outside ServerMsg ServerResponse) (m : Option (ClientMetaEvent ServerMsg ServerResponse))
      (s s' : ClientState ServerMsg ServerResponse) (r : Result (Unit {0}))
      → s.poisoned ≡ false
      → Accepts o
      → on_binary o m s ≡ some (s', r)
      → Agrees s
      → Agrees s'
  unfolding on_binary send_or_fail
  on_binary-Agrees o none s s' r p h e a = let same : s' ≡ s = ground arith in rw same a
  on_binary-Agrees o (some (ClientMetaEvent.msg m)) s s' r p h e a =
      let accepted = send_event-Accepts o (ClientEvent.msg m) s h in
      let same : s' ≡ logged s (ClientEvent.msg m ∷ []) = ground arith in
      rw same (Agrees-logged s (ClientEvent.msg m) (λ k. refl) a)
  on_binary-Agrees o (some (ClientMetaEvent.response x id)) s s' r p h e a =
      settle-Agrees o id 1 RequestStatus.responded (ClientEvent.response x id) s s' r p h
        (λ k. refl) refl refl e a
  on_binary-Agrees o (some (ClientMetaEvent.ack id)) s s' r p h e a =
      settle-Agrees o id 2 RequestStatus.acknowledged (ClientEvent.ack id) s s' r p h (λ k. refl)
        refl refl e a
  on_binary-Agrees o (some (ClientMetaEvent.reject id)) s s' r p h e a =
      settle-Agrees o id 3 RequestStatus.rejected (ClientEvent.reject id) s s' r p h (λ k. refl)
        refl refl e a

  pub requested-Agrees :
      (s : ClientState ServerMsg ServerResponse) (out : List Bytes) (m : MessageSignal)
      → s.tracker.request_counter + 1 < 2 ^ 64
      → pending s s.tracker.request_counter ≡ 0
      → Agrees s
      → Agrees (requested s out m)
  unfolding insert Signal.new write
  requested-Agrees s out m small fresh a =
      let id = s.tracker.request_counter in
      let c = (Signal.new s.cells id m).0 in
      record {
        next = omega (arith, a.next);
        waiting = (
          (
            a.next,
            omega (arith, a.next),
            ground (arith, a.next),
            ground (arith, count-keys-remove id id s.tracker.pending_requests),
          ),
          new-Waiting s.cells id m (remove id s.tracker.pending_requests)
              (Waiting-remove s.cells s.tracker.pending_requests id a.waiting),
        );
        blank = λ i h. let before = a.blank i (omega arith) in ground arith;
        told =
            All-weaken (Tells s.cells) (Tells c) s.sent
              (λ e. Keeps-Tells s.cells c e (new-Keeps s.cells id m)) a.told;
      }
