-- ===== src/Client/Examples.antt =====
-- Tests and instances for src/client.
use bevy_simplenet.Common.{
  ℕ, ◌+◌, ◌^◌, ◌<◌, ◌≢◌, ◌-◌, ◌≡◌, refl, true, false, ◌≤◌, List, [], ◌∷◌, ◌++◌, Option, some, arith,
  if◌then◌else◌, ltb,
}
use bevy_simplenet.Client.Signal.{MessageStatus, MessageSignal}
use bevy_simplenet.Client.Signal
use bevy_simplenet.Client.Tracker
use bevy_simplenet.Client.State.{ClientReport, ClientEvent, ClientState, Outside, ok, initial}
use bevy_simplenet.Client.State
use bevy_simplenet.Client.Handler.{on_connect, on_binary}
use bevy_simplenet.Client.Handler
use bevy_simplenet.Client.Api.{request, next, is_connected, is_closed, report_close}
use bevy_simplenet.Client.Settle.{results}
use bevy_simplenet.Common.Map.{insert}
use bevy_simplenet.Client.Effect.{connects, pending}
use bevy_simplenet.Client.Run.{World, Step, Runs, phase_of, Reach, here, more, start, dead, online}
use bevy_simplenet.Client.Invariant.{Reach-settled, Reach-is_connected}
use bevy_simplenet.Client.Death.{Runs-dead-pending, Reach-dead-last, late_close, closures, died}

-- Everything outside works; the socket hands out signal 0, which is sent.
abbrev pub fine : Outside ℕ ℕ
fine = record {
  accepts = λ _. true;
  binary = λ _. some 0;
  close = λ _. true;
  statuses = λ _. MessageStatus.sent;
  statuses_later = λ _. MessageStatus.sent;
  now = 0;
}

-- A client that connects, sees its connection, and sends a request.
abbrev connected_world : World ℕ ℕ
connected_world = record start {
  state = (on_connect fine (some (1 ∷ [])) start.state).0;
  phase = phase_of (on_connect fine (some (1 ∷ [])) start.state).1;
}

connected_sent : connected_world.state.sent ≡ ClientEvent.report ClientReport.connected ∷ []
unfolding initial Tracker.default on_connect Handler.final_request_cleanup Tracker.abort_all
    Tracker.abort_loop Handler.final_loop Handler.fail_aborted Handler.send_or_fail
    State.send_binary State.send_event
connected_sent = refl

abbrev pub aware_world : World ℕ ℕ
aware_world = record connected_world {
  state = (next (some (ClientEvent.report ClientReport.connected)) connected_world.state).0;
  received = ClientEvent.report ClientReport.connected ∷ [];
}

pub aware_Reach : Reach aware_world
unfolding initial Tracker.default
aware_Reach =
    more (more here (Step.connects start fine (some (1 ∷ [])) refl (λ _. refl)))
      (Step.takes connected_world (ClientEvent.report ClientReport.connected) [] connected_sent)

pub aware_connected : is_connected aware_world.state ≡ true
unfolding initial Tracker.default on_connect Handler.final_request_cleanup Tracker.abort_all
    Tracker.abort_loop Handler.final_loop Handler.fail_aborted Handler.send_or_fail
    State.send_binary State.send_event next is_connected
aware_connected = refl

aware_open : is_closed aware_world.state ≡ false
unfolding is_closed next on_connect initial Handler.fail_aborted Handler.final_request_cleanup
    Handler.final_loop Tracker.abort_all Tracker.abort_loop Tracker.default Handler.send_or_fail
    State.send_event State.send_binary
aware_open = refl

aware_phase : aware_world.phase ≢ dead
unfolding on_connect initial Handler.fail_aborted Handler.final_request_cleanup Handler.final_loop
    Tracker.abort_all Tracker.abort_loop Tracker.default Handler.send_or_fail State.send_event
    State.send_binary
aware_phase e = cc

aware_sent : aware_world.state.sent ≡ ClientEvent.report ClientReport.connected ∷ []
unfolding next
aware_sent = connected_sent

few_waiting : connects aware_world.state.sent < connects aware_world.received + (2 ^ 16 - 1)
few_waiting = rw aware_sent (omega arith)

Reach-is_connected_example :
    (aware_world.phase ≡ online) × (connects aware_world.state.sent ≡ connects aware_world.received)
Reach-is_connected_example = Reach-is_connected aware_Reach few_waiting aware_connected

-- A client whose handler is dropped at once, and that sends two requests then.
abbrev dead_world : World ℕ ℕ
dead_world = record start { state = Handler.drop fine start.state; phase = dead; drops = 1 }

abbrev pub asking : ℕ → Option (List ℕ)
asking id = some (id ∷ [])

abbrev asked_world : World ℕ ℕ
asked_world = record dead_world { state = (request fine asking dead_world.state).0 }

abbrev asked_twice : World ℕ ℕ
asked_twice = record asked_world { state = (request fine asking asked_world.state).0 }

dead_Reach : Reach dead_world
dead_Reach = more here (Step.dies start fine (λ e. cc) (λ _. refl))

asked_Reach : Reach asked_world
unfolding initial Tracker.default Handler.drop Handler.final_request_cleanup Tracker.abort_all
    Tracker.abort_loop Handler.final_loop Handler.try_send State.count_disconnect State.send_event
asked_Reach = more dead_Reach (Step.requests dead_world fine asking (omega arith))

asked_pending : pending asked_world.state 0 ≡ 1
unfolding initial Tracker.default Handler.drop Handler.final_request_cleanup Tracker.abort_all
    Tracker.abort_loop Handler.final_loop Handler.try_send State.count_disconnect State.send_event
    request Tracker.reserve_id is_connected Tracker.add_request insert
asked_pending = refl

Reach-settled_example :
    pending asked_world.state 0 + results 0 asked_world.state.sent
    ≡ (if ltb 0 asked_world.state.tracker.request_counter then 1 else 0)
Reach-settled_example = Reach-settled asked_Reach 0

asked_again : Step asked_world asked_twice
unfolding initial Tracker.default Handler.drop Handler.final_request_cleanup Tracker.abort_all
    Tracker.abort_loop Handler.final_loop Handler.try_send State.count_disconnect State.send_event
    request Tracker.reserve_id is_connected Tracker.add_request insert
asked_again = Step.requests asked_world fine asking (omega arith)

Runs-dead-pending_example :
    (pending asked_twice.state 0 ≡ 1) × (results 0 asked_twice.state.sent ≡ 0)
Runs-dead-pending_example =
    Runs-dead-pending 0 asked_Reach refl asked_pending (more here asked_again)

-- A client whose handler is dropped after a close has passed its test, which then goes on.
abbrev closing_world : World ℕ ℕ
closing_world = record start { checked = 1 }

abbrev closed_late : World ℕ ℕ
closed_late = record (died fine closing_world) {
  state = report_close fine (died fine closing_world).state;
  checked = 0;
  reported = 1;
}

closing_Reach : Reach closing_world
unfolding initial is_closed
closing_Reach = more here (Step.begins_closing start refl)

closes_late : Runs (died fine closing_world) closed_late
closes_late = more (more here (Step.asks_to_close (died fine closing_world) fine 0 refl refl)) (
    Step.reports_close (record (died fine closing_world) { checked = 0; asked = 1 }) fine 0 refl
      (λ _. refl))

Reach-dead-last_example :
    (es : List (ClientEvent ℕ ℕ)) × (ids : List ℕ) × (n : ℕ) × (closed_late.state.sent
      ≡ (es ++ ClientEvent.report (ClientReport.is_dead ids) ∷ []) ++ closures n)
    × (n + 0 ≤ 1)
Reach-dead-last_example = Reach-dead-last fine closing_Reach (λ e. cc) (λ _. refl) closes_late

late_close_example :
    (u : World ℕ ℕ) × Runs aware_world u
    × (u.phase ≡ dead)
    × (es : List (ClientEvent ℕ ℕ)) × (ids : List ℕ) × (u.state.sent
        ≡ (es ++ ClientEvent.report (ClientReport.is_dead ids) ∷ [])
          ++ ClientEvent.report ClientReport.closed_by_self ∷ [])
late_close_example = late_close fine aware_Reach aware_phase (λ _. refl) aware_open refl

-- A sent request that is answered.
abbrev one_cell : Signal.Cells
one_cell = (Signal.new (record { cell = λ _. 9; next = 0 }) 0 (MessageSignal.socket 0)).0

abbrev first_signal : Signal.RequestSignal
first_signal = (Signal.new (record { cell = λ _. 9; next = 0 }) 0 (MessageSignal.socket 0)).1

set-status_example :
    Signal.status (λ _. MessageStatus.sent) (Signal.write one_cell 0 1) first_signal
    ≡ Signal.RequestStatus.responded
unfolding Signal.new Signal.set
set-status_example =
    Signal.set-status (λ _. MessageStatus.sent) one_cell first_signal Signal.RequestStatus.responded
      refl refl
