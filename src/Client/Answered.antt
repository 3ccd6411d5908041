-- ===== src/Client/Answered.antt =====
-- A client that asks, and is answered.
use bevy_simplenet.Common.{ℕ, ◌≡◌, refl, [], ◌∷◌, ◌++◌, some, arith}
use bevy_simplenet.Protocol.{ClientMetaEvent}
use bevy_simplenet.Client.Signal.{MessageStatus, RequestSignal, message_status}
use bevy_simplenet.Client.Signal
use bevy_simplenet.Client.Tracker
use bevy_simplenet.Client.State.{ClientEvent, ClientState, ok, initial}
use bevy_simplenet.Client.State
use bevy_simplenet.Client.Handler.{on_connect, on_binary}
use bevy_simplenet.Client.Handler
use bevy_simplenet.Client.Api.{request, next, is_connected}
use bevy_simplenet.Common.Map.{insert, lookup, remove}
use bevy_simplenet.Client.Run.{World, Step, Runs, here, more}
use bevy_simplenet.Client.Status.{told_status, Reach-status}
use bevy_simplenet.Client.Examples.{fine, aware_world, aware_Reach, asking}

abbrev pub asked : ClientState ℕ ℕ × RequestSignal
asked = request fine asking aware_world.state

abbrev pub asked_aware : World ℕ ℕ
asked_aware = record aware_world { state = asked.0 }

abbrev acked : ClientState ℕ ℕ
acked = record (asked.0) {
  tracker = record (asked.0.tracker) { pending_requests = [] };
  cells = Signal.write asked.0.cells 0 2;
  sent = asked.0.sent ++ ClientEvent.ack 0 ∷ [];
}

acknowledges : on_binary fine (some (ClientMetaEvent.ack 0)) asked.0 ≡ some (acked, ok tt)
unfolding on_binary request next on_connect initial Handler.fail_aborted
    Handler.final_request_cleanup Handler.final_loop Tracker.abort_all Tracker.abort_loop
    Tracker.default Handler.send_or_fail State.send_event State.send_binary is_connected
    Tracker.set_status_and_remove lookup insert remove Tracker.reserve_id Tracker.add_request
    Signal.new Signal.set
acknowledges = refl

abbrev acked_world : World ℕ ℕ
acked_world = record asked_aware { state = acked }

ack_Runs : Runs asked_aware acked_world
unfolding on_connect initial Handler.fail_aborted Handler.final_request_cleanup Handler.final_loop
    Tracker.abort_all Tracker.abort_loop Tracker.default Handler.send_or_fail State.send_event
ack_Runs = more here (
    Step.receives asked_aware fine (some (ClientMetaEvent.ack 0)) acked (ok tt) refl (λ _. refl)
      acknowledges)

-- The signal says that the request is acknowledged.
acked_verdict : told_status MessageStatus.sent 0 acked.sent ≡ Signal.RequestStatus.acknowledged
unfolding request next on_connect initial Handler.fail_aborted Handler.final_request_cleanup
    Handler.final_loop Tracker.abort_all Tracker.abort_loop Tracker.default Handler.send_or_fail
    State.send_event State.send_binary is_connected
acked_verdict = refl

Reach-status_example :
    Signal.status (λ _. MessageStatus.sent) acked_world.state.cells asked.1
    ≡ told_status
        (message_status (λ _. MessageStatus.sent) asked.1.message_signal)
        asked.1.request_id
        acked_world.state.sent
unfolding next on_connect initial Handler.fail_aborted Handler.final_request_cleanup
    Handler.final_loop Tracker.abort_all Tracker.abort_loop Tracker.default Handler.send_or_fail
    State.send_event State.send_binary
Reach-status_example =
    Reach-status aware_Reach fine asking asked.0 asked.1 (λ _. MessageStatus.sent) (omega arith)
      refl ack_Runs
