-- ===== src/Client/Calls.antt =====
-- The effect of the operations of src/client/client.rs, while the event channel accepts events
-- and the mutex is not poisoned.
use bevy_simplenet.Common.{
  ℕ, ◌+◌, ◌%◌, ◌^◌, ◌<◌, ◌≡◌, refl, sym, Bool, false, List, [], ◌∷◌, ◌++◌, Option, none, some,
  arith, append-nil, Option-cases, Bool-cases, inl, inr,
}
use bevy_simplenet.Common.Bytes.{Bytes}
use bevy_simplenet.Common.Map.{insert, count-keys-insert}
use bevy_simplenet.Client.Signal.{Cells, RequestSignal, MessageSignal}
use bevy_simplenet.Client.Signal
use bevy_simplenet.Client.Tracker.{add_request, reserve_id}
use bevy_simplenet.Client.State.{ClientReport, ClientEvent, ClientState, Outside, send_binary}
use bevy_simplenet.Client.Api.{add_pending, forward, request, is_connected, report_close}
use bevy_simplenet.Client.Api
use bevy_simplenet.Client.Settle.{Keyed, Accepts, logged, send_event-Accepts}
use bevy_simplenet.Client.Effect.{pending, Effect}
use bevy_simplenet.Client.Operations.{remove-Keyed}

module _ {ServerMsg ServerResponse : Type 0} where
  -- Forwarding a message changes the outbox alone.
  pub forward-outbox :
      (o : Outside ServerMsg ServerResponse) (b : Option Bytes)
      (s : ClientState ServerMsg ServerResponse)
      → (out : List Bytes) × ((forward o b s).0 ≡ record s { outbox = out })
  unfolding forward send_binary
  forward-outbox o none s = (s.outbox, refl)
  forward-outbox o (some b) s = elim (Option-cases (o.binary b)) [
    | inl e ↦ (s.outbox, rw (e, send_binary))
    | inr (n, e) ↦ (s.outbox ++ b ∷ [], rw (e, send_binary))
  ]

  -- `send` changes the outbox alone, and only while the client is connected.
  pub send-outbox :
      (o : Outside ServerMsg ServerResponse) (b : Option Bytes)
      (s : ClientState ServerMsg ServerResponse)
      → (out : List Bytes) × ((Api.send o b s).0 ≡ record s { outbox = out })
  unfolding Api.send
  send-outbox o b s =
      let (out, e) = forward-outbox o b s in
      elim (Bool-cases s.poisoned) [
        | inl p ↦ (s.outbox, ground arith)
        | inr p ↦ elim (Bool-cases (is_connected s)) [
          | inl c ↦ (out, ground arith)
          | inr c ↦ (s.outbox, ground arith)
        ]
      ]

  pub same-Effect' :
      (s : ClientState ServerMsg ServerResponse) (out : List Bytes) (closed : Bool)
      → Keyed s.tracker.pending_requests
      → Effect s (record s { outbox = out; closed_by_self = closed }) [] 0 0
  same-Effect' s out closed h = record {
    poison_same = refl;
    log = sym (append-nil s.sent);
    connected = refl;
    counted = omega arith;
    grown = omega arith;
    keyed = h;
    settled = λ k. omega arith;
  }

  -- The state after a request: the id is reserved, and the request stands under it.
  abbrev pub requested :
      ClientState ServerMsg ServerResponse
      → List Bytes
      → MessageSignal
      → ClientState ServerMsg ServerResponse
  requested s out message_signal =
      let (cells, signal) = Signal.new s.cells s.tracker.request_counter message_signal in
      record s {
        tracker = record {
          request_counter = (s.tracker.request_counter + 1) % 2 ^ 64;
          pending_requests = insert s.tracker.request_counter signal s.tracker.pending_requests;
        };
        cells = cells;
        outbox = out;
      }

  pub request-eq :
      (o : Outside ServerMsg ServerResponse) (serialize : ℕ → Option Bytes)
      (s : ClientState ServerMsg ServerResponse)
      → s.poisoned ≡ false
      → (out : List Bytes) × (m : MessageSignal) × ((request o serialize s).0 ≡ requested s out m)
  unfolding request add_pending reserve_id add_request
  request-eq o serialize s p =
      let id = s.tracker.request_counter in
      let s' : ClientState ServerMsg ServerResponse = record s {
        tracker = record (s.tracker) { request_counter = (s.tracker.request_counter + 1) % 2 ^ 64 };
      } in
      let (out, e) = forward-outbox o (serialize id) s' in
      elim (Bool-cases (is_connected s')) [
        | inl c ↦ (out, (forward o (serialize id) s').1, ground arith)
        | inr c ↦ (s.outbox, Signal.fresh Signal.failed, ground arith)
      ]

  -- A request takes the next id and stands in the tracker under it.
  pub requested-Effect :
      (s : ClientState ServerMsg ServerResponse) (out : List Bytes) (m : MessageSignal)
      → s.tracker.request_counter + 1 < 2 ^ 64
      → pending s s.tracker.request_counter ≡ 0
      → Keyed s.tracker.pending_requests
      → Effect s (requested s out m) [] 0 0
  unfolding Signal.new insert
  requested-Effect s out m small fresh_id h = record {
    poison_same = refl;
    log = sym (append-nil s.sent);
    connected = refl;
    counted = omega arith;
    grown = omega arith;
    keyed = (refl, remove-Keyed s.tracker.request_counter s.tracker.pending_requests h);
    settled = λ k.
        let signal = (Signal.new s.cells s.tracker.request_counter m).1 in
        let added =
          count-keys-insert s.tracker.request_counter k signal s.tracker.pending_requests in
        ground arith;
  }

  -- The report of a close is one event.
  pub report_close-eq :
      (o : Outside ServerMsg ServerResponse) (s : ClientState ServerMsg ServerResponse)
      → Accepts o
      → report_close o s ≡ logged s (ClientEvent.report ClientReport.closed_by_self ∷ [])
  unfolding report_close
  report_close-eq o s h =
      let told = send_event-Accepts o (ClientEvent.report ClientReport.closed_by_self) s h in
      ground arith
