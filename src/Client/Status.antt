-- ===== src/Client/Status.antt =====
-- The status of a request signal in runs of a client.
use bevy_simplenet.Common.{
  ℕ, ◌+◌, ◌%◌, ◌^◌, ◌<◌, ◌≡◌, refl, sym, ap, subst, ◌∙◌, false, List, Option, some, ltb, arith, inl,
  inr, Bool-cases,
}
use bevy_simplenet.Common.Bytes.{Bytes}
use bevy_simplenet.Client.Signal.{
  Cells, RequestSignal, MessageSignal, RequestStatus, MessageStatus, Snapshot, message_status,
  inner_status,
}
use bevy_simplenet.Client.Signal
use bevy_simplenet.Client.Tracker.{add_request, reserve_id}
use bevy_simplenet.Client.Tracker
use bevy_simplenet.Client.State.{ClientReport, ClientEvent, ClientState, Outside, initial}
use bevy_simplenet.Client.Handler.{on_disconnect, on_close}
use bevy_simplenet.Client.Api.{request, next, add_pending, is_connected, mark_closed}
use bevy_simplenet.Client.Calls.{send-outbox, forward-outbox, request-eq, report_close-eq}
use bevy_simplenet.Client.Run.{World, Step, Runs, Reach, here, more}
use bevy_simplenet.Client.Invariant.{Inv, Reach-Inv}
use bevy_simplenet.Client.Cells.{Waiting-pending}
use bevy_simplenet.Client.Told.{verdict, verdict-cell}
use bevy_simplenet.Client.Agreement.{
  Agrees, Agrees-same, Agrees-logged, on_connect-Agrees, on_connect_fail-Agrees,
  lose_connection-Agrees, drop-Agrees,
}
use bevy_simplenet.Client.Replies.{on_binary-Agrees, requested-Agrees}

module _ {ServerMsg ServerResponse : Type 0} where
  start-Agrees : Agrees {ServerMsg = ServerMsg} {ServerResponse = ServerResponse} initial
  unfolding initial Tracker.default
  start-Agrees = record { next = refl; waiting = tt; blank = λ a h. refl; told = tt }

  next-Agrees :
      (e : ClientEvent ServerMsg ServerResponse) (s : ClientState ServerMsg ServerResponse)
      → Agrees s
      → Agrees (next (some e) s).0
  unfolding next
  next-Agrees (ClientEvent.report ClientReport.connected) s a = Agrees-same s _ refl refl refl a
  next-Agrees e s a = a

  Step-Agrees :
      {w u : World ServerMsg ServerResponse} → Step w u → Inv w → Agrees w.state → Agrees u.state
  unfolding on_disconnect on_close mark_closed
  Step-Agrees (Step.connects w o auth p h) v a = on_connect-Agrees o auth w.state v.live h v.keyed a
  Step-Agrees (Step.fails_connecting w config auth o p h t) v a =
      on_connect_fail-Agrees config auth o w.state v.live h v.keyed a
  Step-Agrees (Step.disconnects w config auth o p h t) v a =
      lose_connection-Agrees ClientReport.disconnected config.reconnect_on_disconnect auth o w.state
        (λ k. refl) v.live h v.keyed a
  Step-Agrees (Step.server_closes w config auth frame o p h t) v a =
      lose_connection-Agrees (ClientReport.closed_by_server frame) config.reconnect_on_server_close
        auth o w.state (λ k. refl) v.live h v.keyed a
  Step-Agrees (Step.receives w o m s r p h e) v a = on_binary-Agrees o m w.state s r v.live h e a
  Step-Agrees (Step.dies w o p h) v a = drop-Agrees o w.state v.live h v.keyed a
  Step-Agrees (Step.sends w o b) v a =
      let (out, e) = send-outbox o b w.state in
      rw e (Agrees-same w.state (record (w.state) { outbox = out }) refl refl refl a)
  Step-Agrees (Step.requests w o serialize small) v a =
      let (out, m, e) = request-eq o serialize w.state v.live in
      let fresh = v.settled w.state.tracker.request_counter in
      rw e (requested-Agrees w.state out m small (ground arith) a)
  Step-Agrees (Step.begins_closing w c) v a = a
  Step-Agrees (Step.asks_to_close w o n c t) v a = a
  Step-Agrees (Step.fails_to_close w o n c t) v a = a
  Step-Agrees (Step.reports_close w o n c h) v a =
      rw (report_close-eq o w.state h)
        (Agrees-logged w.state (ClientEvent.report ClientReport.closed_by_self) (λ k. refl) a)
  Step-Agrees (Step.marks_closed w n c) v a =
      Agrees-same w.state (mark_closed w.state) refl refl refl a
  Step-Agrees (Step.takes w e rest q) v a = next-Agrees e w.state a

  pub Reach-Agrees : {w : World ServerMsg ServerResponse} → Reach w → Agrees w.state
  Reach-Agrees here = start-Agrees
  Reach-Agrees (more r st) = Step-Agrees st (Reach-Inv r) (Reach-Agrees r)

  -- What a signal says, by the status of its message and the events.
  abbrev pub told_status :
      MessageStatus → ℕ → List (ClientEvent ServerMsg ServerResponse) → RequestStatus
  told_status MessageStatus.sending id events = RequestStatus.sending
  told_status MessageStatus.sent id events = verdict id events
  told_status MessageStatus.failed id events = RequestStatus.send_failed

  -- The signal of a request carries its id, and its cell has the same number.
  pub request-signal :
      (o : Outside ServerMsg ServerResponse) (serialize : ℕ → Option Bytes)
      (s : ClientState ServerMsg ServerResponse)
      → s.poisoned ≡ false
      → Agrees s
      → let signal = (request o serialize s).1 in
        (signal.request_id ≡ s.tracker.request_counter)
        × (signal.request_signal ≡ s.tracker.request_counter)
  unfolding request add_pending reserve_id add_request Signal.new
  request-signal o serialize s p a =
      let id = s.tracker.request_counter in
      let s' : ClientState ServerMsg ServerResponse = record s {
        tracker = record (s.tracker) { request_counter = (s.tracker.request_counter + 1) % 2 ^ 64 };
      } in
      let (out, e) = forward-outbox o (serialize id) s' in
      let next = a.next in
      elim (Bool-cases (is_connected s')) [ inl c ↦ ground arith | inr c ↦ ground arith ]

  Reach-cell :
      {u : World ServerMsg ServerResponse} (r : Reach u) (id : ℕ)
      → inner_status (u.state.cells.cell id) ≡ verdict id u.state.sent
  Reach-cell {u} r id =
      let a = Reach-Agrees r in
      let one = (Reach-Inv r).settled id in
      verdict-cell u.state.cells id u.state.sent a.told (λ unsettled.
        elim (Bool-cases (ltb id u.state.tracker.request_counter)) [
          | inl given ↦
              Waiting-pending u.state.cells u.state.tracker.pending_requests id a.waiting
                (ground arith)
          | inr blank ↦ a.blank id (let next = a.next in ground arith)
        ])

  Runs-trans : {w v u : World ServerMsg ServerResponse} → Runs w v → Runs v u → Runs w u
  Runs-trans r here = r
  Runs-trans r (more t st) = more (Runs-trans r t) st

  status-told :
      (st : MessageStatus) (now : Snapshot) (c : Cells) (signal : RequestSignal)
      (es : List (ClientEvent ServerMsg ServerResponse))
      → message_status now signal.message_signal ≡ st
      → inner_status (c.cell signal.request_signal) ≡ verdict signal.request_id es
      → Signal.status now c signal ≡ told_status st signal.request_id es
  unfolding Signal.status
  status-told MessageStatus.sending now c signal es e says = rw (e, Signal.status) refl
  status-told MessageStatus.sent now c signal es e says = rw (e, Signal.status) says
  status-told MessageStatus.failed now c signal es e says = rw (e, Signal.status) refl

  -- A request of a reached client, and any run after it: at every moment, its signal says what the
  -- message's own status says while that is sending or failed, and once the message is sent what
  -- the events sent to the owner say of the request's id: waiting without one, and else responded,
  -- acknowledged, rejected, or lost, by the first event that settles it.
  pub Reach-status :
      {w u : World ServerMsg ServerResponse} (r : Reach w) (o : Outside ServerMsg ServerResponse)
      (serialize : ℕ → Option Bytes) (s : ClientState ServerMsg ServerResponse)
      (signal : RequestSignal) (now : Snapshot)
      → w.state.tracker.request_counter + 1 < 2 ^ 64
      → request o serialize w.state ≡ (s, signal)
      → Runs (record w { state = s }) u
      → Signal.status now u.state.cells signal
        ≡ told_status (message_status now signal.message_signal) signal.request_id u.state.sent
  Reach-status {w} {u} r o serialize s signal now small made run =
      let (id, cell) = request-signal o serialize w.state (Reach-Inv r).live (Reach-Agrees r) in
      let first : (request o serialize w.state).0 ≡ s =
        ap (λ (p : ClientState ServerMsg ServerResponse × RequestSignal). p.0) made in
      let second : (request o serialize w.state).1 ≡ signal =
        ap (λ (p : ClientState ServerMsg ServerResponse × RequestSignal). p.1) made in
      let reached : Reach (record w { state = s }) =
        subst (λ (t : ClientState ServerMsg ServerResponse). Reach (record w { state = t })) first
          (more r (Step.requests w o serialize small)) in
      let says = Reach-cell (Runs-trans reached run) signal.request_id in
      let same : signal.request_signal ≡ signal.request_id = rw second at (cell ∙ sym id) in
      status-told (message_status now signal.message_signal) now u.state.cells signal u.state.sent
        refl (ap (λ (k : ℕ). inner_status (u.state.cells.cell k)) same ∙ says)
