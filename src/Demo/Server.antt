-- ===== src/Demo/Server.antt =====
-- examples/server/src/main.rs: the system `handle_server_events` and the reactor
-- `send_new_button_state`. The events are those that `next` yields until it yields none.
use bevy_simplenet.Common.{
  ℕ, Bool, true, false, ◌||◌, List, [], ◌∷◌, ◌++◌, Option, none, some, if◌then◌else◌, ◌==◌,
}
use bevy_simplenet.Server.Token.{Rejection, ServerReport, ServerEvent, ClientSourceMsg}
use bevy_simplenet.Server.Api.{Server, Outside, send, ack, next}
use bevy_simplenet.Demo.{DemoServerMsg, DemoClientRequest, current, select}

abbrev pub Event : Type 0
Event = ClientSourceMsg (Unit {0}) (Unit {0}) DemoClientRequest

abbrev pub DemoServer : Type 0
DemoServer = Server (Unit {0}) DemoServerMsg (Unit {0})

-- `ClientConnections`, a set.
unfoldable pub contains : ℕ → List ℕ → Bool
contains c [] = false
contains c (x ∷ xs) = x == c || contains c xs

unfoldable pub insert : ℕ → List ℕ → List ℕ
unfolding contains
insert c xs = if contains c xs then xs else c ∷ xs

unfoldable pub remove : ℕ → List ℕ → List ℕ
remove c [] = []
remove c (x ∷ xs) = let rest = remove c xs in if x == c then rest else x ∷ rest

-- `==` on the owners.
unfoldable pub owner_eq : Option ℕ → Option ℕ → Bool
owner_eq none none = true
owner_eq (some a) (some b) = a == b
owner_eq _ _ = false

-- The resources and `new_button_state` within the loop, with the rejections that tokens send.
pub record Handling : Type 0 where
  pub server : DemoServer
  pub clients : List ℕ
  pub new_button_state : Option ℕ
  pub rejections : List Rejection

-- The body of the loop, for the button state that it began with. `none` is a panic.
unfoldable pub handle_event :
    Outside
    → Option ℕ
    → ℕ
    → ServerEvent (Unit {0}) (Unit {0}) DemoClientRequest
    → Handling
    → Option Handling
unfolding insert remove owner_eq
handle_event o state client_id (ServerEvent.report (ServerReport.connected _ _)) h =
    some (record h {
      clients = insert client_id h.clients;
      server = send o client_id (current h.new_button_state) h.server;
    })
handle_event o state client_id (ServerEvent.report ServerReport.disconnected) h = some (record h {
  clients = remove client_id h.clients;
  new_button_state = if owner_eq state (some client_id) then none else h.new_button_state;
})
handle_event o state client_id (ServerEvent.msg _) h = some h
handle_event o state client_id (ServerEvent.request token select) h = elim (ack o token h.server) [
  | none ↦ none
  | some (server, rejections) ↦ some (record h {
    server = server;
    new_button_state = some client_id;
    rejections = h.rejections ++ rejections;
  })
]

-- The loop.
unfoldable pub handle_events : Outside → Option ℕ → List Event → Handling → Option Handling
unfolding handle_event
handle_events o state [] h = some h
handle_events o state (e ∷ es) h =
    elim (handle_event o state e.id e.msg (record h { server = (next (some e) h.server).0 })) [
      | none ↦ none
      | some h' ↦ handle_events o state es h'
    ]

-- The resources of the app.
pub record App : Type 0 where
  pub server : DemoServer
  pub clients : List ℕ
  pub button : Option ℕ

-- `send_new_button_state`.
unfoldable pub send_new_button_state : Outside → Option ℕ → List ℕ → DemoServer → DemoServer
send_new_button_state o state [] server = server
send_new_button_state o state (client_id ∷ clients) server =
    send_new_button_state o state clients (send o client_id (current state) server)

-- `handle_server_events`, and the reactor where the button state changes.
unfoldable pub handle_server_events : Outside → List Event → App → Option (App × List Rejection)
unfolding handle_events send_new_button_state owner_eq
handle_server_events o events app =
    elim (handle_events o app.button events (record {
      server = app.server;
      clients = app.clients;
      new_button_state = app.button;
      rejections = [];
    })) [
      | none ↦ none
      | some h ↦ some (
        if owner_eq h.new_button_state app.button
            then record { server = h.server; clients = h.clients; button = app.button }
            else record {
              server = send_new_button_state o h.new_button_state h.clients h.server;
              clients = h.clients;
              button = h.new_button_state;
            },
        h.rejections,
      )
    ]
