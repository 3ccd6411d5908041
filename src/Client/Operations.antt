-- ===== src/Client/Operations.antt =====
-- The effect of the replies, of dropping the handler, and of the operations of
-- src/client/client.rs, while the event channel accepts events and the mutex is not poisoned.
use bevy_simplenet.Common.{
  ℕ, ◌+◌, ◌%◌, ◌^◌, ◌≡◌, refl, true, false, List, [], ◌∷◌, ◌++◌, Option, none, some, if◌then◌else◌,
  ◌==◌, arith, append_assoc, Option-cases, inl, inr,
}
use bevy_simplenet.Common.Map.{lookup, remove, count-keys-remove, lookup-count, IsMap}
use bevy_simplenet.Protocol.{ClientMetaEvent}
use bevy_simplenet.Client.Signal.{Cells, RequestSignal, RequestStatus, MessageSignal}
use bevy_simplenet.Client.Signal
use bevy_simplenet.Client.Tracker.{set_status_and_remove, abort_loop}
use bevy_simplenet.Client.State.{
  ClientReport, ClientEvent, ClientState, Outside, Result, count_disconnect,
}
use bevy_simplenet.Client.Handler.{send_or_fail, settle, on_binary, try_send, final_request_cleanup}
use bevy_simplenet.Client.Handler
use bevy_simplenet.Client.Settle.{
  Keyed, failures, unfailed, settles, results-append, Accepts, logged, send_event-Accepts,
}
use bevy_simplenet.Client.Drain.{abort_loop-count, failures-unfailed}
use bevy_simplenet.Client.Effect.{
  connects, connects-append, Effect, logged-Effect, failures-connects, final-eq,
}
use bevy_simplenet.Client.Callbacks.{same-Effect}

pub remove-Keyed : (k : ℕ) (m : List (ℕ × RequestSignal)) → Keyed m → Keyed (remove k m)
unfolding remove
remove-Keyed k [] h = tt
remove-Keyed k ((j, r) ∷ m) h = ground (arith, remove-Keyed k m h.1)

module _ {ServerMsg ServerResponse : Type 0} where
  -- A known request is taken out and settled by one event.
  removed-Effect :
      (s : ClientState ServerMsg ServerResponse) (cells : Cells) (id : ℕ) (signal : RequestSignal)
      (event : ClientEvent ServerMsg ServerResponse)
      → Keyed s.tracker.pending_requests
      → IsMap s.tracker.pending_requests
      → lookup id s.tracker.pending_requests ≡ some signal
      → connects (event ∷ []) ≡ 0
      → ((k : ℕ) → settles k event ≡ (if id == k then 1 else 0))
      → Effect s
          (logged
            (record s {
              tracker = record (s.tracker) {
                pending_requests = remove id s.tracker.pending_requests;
              };
              cells = cells;
            })
            (event ∷ []))
          (event ∷ [])
          0
          0
  removed-Effect s cells id signal event keyed once there n z = record {
    poison_same = refl;
    log = refl;
    connected = n;
    counted = omega arith;
    grown = omega arith;
    keyed = remove-Keyed id s.tracker.pending_requests keyed;
    settled = λ k.
        let one = once id in
        let in_map = lookup-count id s.tracker.pending_requests in
        let left = count-keys-remove id k s.tracker.pending_requests in
        let told = z k in ground arith;
  }

  -- A reply to a known request removes it from the tracker and tells the owner once; any other
  -- reply changes nothing.
  settle-Effect :
      (o : Outside ServerMsg ServerResponse) (id : ℕ) (st : RequestStatus)
      (event : ClientEvent ServerMsg ServerResponse) (s s' : ClientState ServerMsg ServerResponse)
      (r : Result (Unit {0}))
      → s.poisoned ≡ false
      → Accepts o
      → Keyed s.tracker.pending_requests
      → IsMap s.tracker.pending_requests
      → connects (event ∷ []) ≡ 0
      → ((k : ℕ) → settles k event ≡ (if id == k then 1 else 0))
      → settle o id st event s ≡ some (s', r)
      → (es : List (ClientEvent ServerMsg ServerResponse)) × Effect s s' es 0 0
  unfolding settle set_status_and_remove send_or_fail
  settle-Effect o id st event s s' r p h keyed once n z e =
      elim (Option-cases (lookup id s.tracker.pending_requests)) [
        | inl gone ↦
            let same : s' ≡ s = ground arith in ([], rw same (same-Effect s s.outbox keyed))
        | inr (signal, there) ↦ elim (Option-cases (Signal.set s.cells signal.request_signal st)) [
          | inl panic ↦ absurd (ground arith)
          | inr (cells, stored) ↦
              let taken : ClientState ServerMsg ServerResponse = record s {
                tracker = record (s.tracker) {
                  pending_requests = remove id s.tracker.pending_requests;
                };
                cells = cells;
              } in
              let accepted = send_event-Accepts o event taken h in
              let same : s' ≡ logged taken (event ∷ []) = ground arith in
              (event ∷ [], rw same (removed-Effect s cells id signal event keyed once there n z))
        ]
      ]

  pub on_binary-Effect :
      (o : Outside ServerMsg ServerResponse) (m : Option (ClientMetaEvent ServerMsg ServerResponse))
      (s s' : ClientState ServerMsg ServerResponse) (r : Result (Unit {0}))
      → s.poisoned ≡ false
      → Accepts o
      → Keyed s.tracker.pending_requests
      → IsMap s.tracker.pending_requests
      → on_binary o m s ≡ some (s', r)
      → (es : List (ClientEvent ServerMsg ServerResponse)) × Effect s s' es 0 0
  unfolding on_binary send_or_fail
  on_binary-Effect o none s s' r p h keyed once e =
      let same : s' ≡ s = ground arith in ([], rw same (same-Effect s s.outbox keyed))
  on_binary-Effect o (some (ClientMetaEvent.msg m)) s s' r p h keyed once e =
      let accepted = send_event-Accepts o (ClientEvent.msg m) s h in
      let same : s' ≡ logged s (ClientEvent.msg m ∷ []) = ground arith in
      (
        ClientEvent.msg m ∷ [],
        rw same (logged-Effect s (ClientEvent.msg m) 0 keyed refl (λ k. refl)),
      )
  on_binary-Effect o (some (ClientMetaEvent.response x id)) s s' r p h keyed once e =
      settle-Effect o id RequestStatus.responded (ClientEvent.response x id) s s' r p h keyed once
        refl (λ k. refl) e
  on_binary-Effect o (some (ClientMetaEvent.ack id)) s s' r p h keyed once e =
      settle-Effect o id RequestStatus.acknowledged (ClientEvent.ack id) s s' r p h keyed once refl
        (λ k. refl) e
  on_binary-Effect o (some (ClientMetaEvent.reject id)) s s' r p h keyed once e =
      settle-Effect o id RequestStatus.rejected (ClientEvent.reject id) s s' r p h keyed once refl
        (λ k. refl) e

  -- The state that dropping the handler leaves.
  abbrev pub dropped :
      Outside ServerMsg ServerResponse
      → ClientState ServerMsg ServerResponse
      → ClientState ServerMsg ServerResponse
  dropped o s =
      let drained = abort_loop s.cells s.tracker.pending_requests in
      record s {
        tracker = record (s.tracker) { pending_requests = [] };
        cells = drained.0;
        client_disconnected_count = (s.client_disconnected_count + 1) % 2 ^ 16;
        client_closed_signal = true;
        sent =
            (s.sent ++ failures o.statuses_later drained.0 drained.1)
            ++ ClientEvent.report
                (ClientReport.is_dead (unfailed o.statuses_later drained.0 drained.1))
              ∷ [];
      }

  pub drop-eq :
      (o : Outside ServerMsg ServerResponse) (s : ClientState ServerMsg ServerResponse)
      → s.poisoned ≡ false
      → Accepts o
      → Handler.drop o s ≡ dropped o s
  unfolding Handler.drop try_send count_disconnect
  drop-eq o s p h =
      let drained = abort_loop s.cells s.tracker.pending_requests in
      let first = final-eq o s h in
      let second =
        send_event-Accepts o
          (ClientEvent.report
            (ClientReport.is_dead (unfailed o.statuses_later drained.0 drained.1)))
          (final_request_cleanup o s).0 h in
      ground arith

  -- Dropping the handler settles every pending request, the last by its death report.
  pub drop-Effect :
      (o : Outside ServerMsg ServerResponse) (s : ClientState ServerMsg ServerResponse)
      → s.poisoned ≡ false
      → Accepts o
      → Keyed s.tracker.pending_requests
      → (es : List (ClientEvent ServerMsg ServerResponse)) × Effect s (Handler.drop o s) es 0 1
  drop-Effect o s p h keyed =
      let drained = abort_loop s.cells s.tracker.pending_requests in
      let lost = unfailed o.statuses_later drained.0 drained.1 in
      let told =
        failures {ServerMsg = ServerMsg} {ServerResponse = ServerResponse} o.statuses_later
          drained.0 drained.1 in
      let last = ClientEvent.report (ClientReport.is_dead lost) ∷ [] in
      (
        told ++ last,
        rw (drop-eq o s p h) (record {
          poison_same = refl;
          log = append_assoc s.sent told last;
          connected = omega (
            arith,
            connects-append told last,
            failures-connects ServerMsg ServerResponse o.statuses_later drained.0 drained.1,
          );
          counted = omega arith;
          grown = omega arith;
          keyed = tt;
          settled = λ k. omega (
            arith,
            results-append k told last,
            failures-unfailed ServerMsg ServerResponse k o.statuses_later drained.0 drained.1,
            abort_loop-count s.cells s.tracker.pending_requests k keyed,
          );
        }),
      )
