-- ===== src/Demo/Pressing.antt =====
-- The button of the demo client is pressed, and the server answers.
use bevy_simplenet.Common.{
  ℕ, ◌≡◌, refl, true, List, [], ◌∷◌, Option, none, some, is_some, if◌then◌else◌,
}
use bevy_simplenet.Common.Bytes.{Bytes}
use bevy_simplenet.Client.Signal.{MessageStatus, RequestSignal}
use bevy_simplenet.Client.Api.{request}
use bevy_simplenet.Client.State.{ClientReport, ClientEvent, Outside, initial}
use bevy_simplenet.Client.Settle.{results}
use bevy_simplenet.Demo.{DemoServerMsg, current}
use bevy_simplenet.Demo.Client.{
  Event, DemoClient, display_id, handle_button_select, handle_client_events,
}
use bevy_simplenet.Demo.Select.{
  unless_settled, start, Runs, handle_client_events-pending_select, Runs-display_id, stale_owner,
}

abbrev fine : Outside DemoServerMsg (Unit {0})
fine = record {
  accepts = λ _. true;
  binary = λ _. some 0;
  close = λ _. true;
  statuses = λ _. MessageStatus.sent;
  statuses_later = λ _. MessageStatus.sent;
  now = 0;
}

abbrev asking : ℕ → Option Bytes
asking id = some (id ∷ [])

abbrev aware : DemoClient
aware = handle_client_events (ClientEvent.report ClientReport.connected ∷ []) (start 5 initial)

abbrev pressed : DemoClient
pressed = handle_button_select fine asking aware

pressed-Runs : Runs (start 5 initial) pressed
pressed-Runs =
    Runs.presses aware fine asking
      (Runs.handles (start 5 initial) (ClientEvent.report ClientReport.connected ∷ []) Runs.here)

Runs-display_id_example : display_id pressed.owner ≡ (
    if is_some pressed.pending_select
    then some pressed.id
    else pressed.owner.server_authoritative_id)
Runs-display_id_example = Runs-display_id 5 initial pressed pressed-Runs

abbrev answers : List Event
answers = ClientEvent.msg (current (some 3)) ∷ ClientEvent.ack 0 ∷ []

handle_client_events-pending_select_example :
    (handle_client_events answers pressed).pending_select
    ≡ unless_settled (λ s. results s.request_id answers) pressed.pending_select
handle_client_events-pending_select_example = handle_client_events-pending_select answers pressed

selected : is_some pressed.pending_select ≡ true
unfolding handle_button_select handle_client_events
selected = refl

-- The selection with which the press begins.
abbrev begun : RequestSignal
begun = (request fine asking aware.client).1

began : pressed.pending_select ≡ some begun
unfolding handle_button_select handle_client_events
began = refl

stale_owner_example :
    (display_id
        (handle_client_events
          (ClientEvent.msg (current (some 3)) ∷ ClientEvent.ack begun.request_id ∷ [])
          pressed).owner
      ≡ some 3)
    × ((handle_client_events
          (ClientEvent.msg (current (some 3)) ∷ ClientEvent.ack begun.request_id ∷ [])
          pressed).pending_select
        ≡ none)
stale_owner_example = stale_owner pressed begun (some 3) began
