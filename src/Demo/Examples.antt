-- ===== src/Demo/Examples.antt =====
-- Tests and instances for examples/.
use bevy_simplenet.Common.{ℕ, ◌≡◌, ◌≢◌, refl, true, false, List, [], ◌∷◌, none, some, arith}
use bevy_simplenet.Server.Counter.{default}
use bevy_simplenet.Server.Token.{Rejection, ServerReport, ServerEvent}
use bevy_simplenet.Server.Token
use bevy_simplenet.Server.Api.{Outside, is_dead}
use bevy_simplenet.Demo.{select}
use bevy_simplenet.Demo.Server.{Event, App, contains, handle_server_events}
use bevy_simplenet.Demo.Owner.{or_else, last_report, handle_server_events-owner}
use bevy_simplenet.Demo.Told.{told, handle_server_events-told, departures}

abbrev working : Outside
working = record { worker_done = false; runner_done = false; accepts = true; deaths = λ _. false }

-- Clients 1 and 2 are connected, and 1 owns the button.
abbrev app : App
app = record {
  server = record { consumed_connection_events = 2; connection_counter = default; calls = [] };
  clients = 1 ∷ 2 ∷ [];
  button = some 1;
}

abbrev selects : Event
selects = record { id = 2; msg = ServerEvent.request (Token.new 2 7 5 5) select }

abbrev leaves : ℕ → Event
leaves c = record { id = c; msg = ServerEvent.report ServerReport.disconnected }

handle_server_events-owner_example :
    (app' : App) × (rejections : List Rejection) × (handle_server_events working (selects ∷ []) app
      ≡ some (app', rejections))
    × (app'.button ≡ some 2)
    × ((c : ℕ)
        → contains c app'.clients ≡ or_else (contains c app.clients) (last_report c (selects ∷ [])))
handle_server_events-owner_example =
    handle_server_events-owner working (selects ∷ []) app ((2, 7, 5, refl), tt)

abbrev handled :
    (app' : App) × (rejections : List Rejection) × (handle_server_events working (selects ∷ []) app
      ≡ some (app', rejections))
    × (app'.button ≡ some 2)
    × ((c : ℕ)
        → contains c app'.clients ≡ or_else (contains c app.clients) (last_report c (selects ∷ [])))
handled = handle_server_events-owner working (selects ∷ []) app ((2, 7, 5, refl), tt)

owner_changed : handled.0.button ≢ app.button
owner_changed same = let owner = handled.3 in absurd (ground (arith, owner, same))

handle_server_events-told_example : told 1 handled.0.server.calls ≡ some handled.0.button
unfolding contains is_dead
handle_server_events-told_example =
    handle_server_events-told working (selects ∷ []) app handled.0 handled.1 1 refl refl handled.2
      owner_changed (handled.4 1)

departures_example :
    ((app' : App) × (rejections : List Rejection) × (handle_server_events working
          (selects ∷ leaves 2 ∷ [])
          app
        ≡ some (app', rejections))
      × (app'.button ≡ some 2)
      × (contains 2 app'.clients ≡ false))
    × ((app' : App) × (rejections : List Rejection) × (handle_server_events working
            (selects ∷ leaves 1 ∷ [])
            app
          ≡ some (app', rejections))
        × (app'.button ≡ none)
        × (contains 2 app'.clients ≡ true))
unfolding contains
departures_example = departures working app 1 2 7 5 (λ e. absurd (omega (arith, e))) refl refl
