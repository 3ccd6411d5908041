-- ===== src/Demo/Client.antt =====
-- examples/client/src/main.rs: the systems of the demo client. What a system queues, the system
-- `set_new_server_state` and the reactor to `DeselectButton`, runs after it, in order. The button's
-- own look is left out.
use bevy_simplenet.Common.{
  ℕ, Bool, false, List, [], ◌∷◌, ◌++◌, Option, none, some, is_some, if◌then◌else◌, ◌==◌, not,
}
use bevy_simplenet.Common.Bytes.{Bytes}
use bevy_simplenet.Client.Signal.{RequestSignal}
use bevy_simplenet.Client.State.{ClientReport, ClientEvent, ClientState, Outside}
use bevy_simplenet.Client.Api.{request, next}
use bevy_simplenet.Demo.{DemoServerMsg, current}
use bevy_simplenet.Demo.Server.{owner_eq}

abbrev pub Event : Type 0
Event = ClientEvent DemoServerMsg (Unit {0})

pub data ConnectionStatus : Type 0 where
  connecting connected dead : ConnectionStatus

pub record ButtonOwner : Type 0 where
  pub server_authoritative_id : Option ℕ
  pub predicted_id : Option ℕ

unfoldable pub display_id : ButtonOwner → Option ℕ
display_id owner =
    if is_some owner.predicted_id then owner.predicted_id else owner.server_authoritative_id

-- `PendingSelect`.
unfoldable pub equals_request : Option RequestSignal → ℕ → Bool
equals_request none request_id = false
equals_request (some signal) request_id = signal.request_id == request_id

unfoldable pub is_predicted : Option RequestSignal → Bool
is_predicted pending = is_some pending

-- What a system queues.
pub data Queued : Type 0 where
  deselect_button : Queued
  new_server_state : Option ℕ → Queued

-- The client, its id, and the resources.
pub record DemoClient : Type 0 where
  pub client : ClientState DemoServerMsg (Unit {0})
  pub id : ℕ
  pub status : ConnectionStatus
  pub pending_select : Option RequestSignal
  pub owner : ButtonOwner

unfoldable pub handle_button_deselect : DemoClient → DemoClient
handle_button_deselect d = record d {
  pending_select = none;
  owner = record (d.owner) { predicted_id = none };
}

-- `handle_button_select`, with the deselection that it may queue.
unfoldable pub handle_button_select :
    Outside DemoServerMsg (Unit {0}) → (ℕ → Option Bytes) → DemoClient → DemoClient
unfolding handle_button_deselect
handle_button_select o serialize d =
    let (client, signal) = request o serialize d.client in
    elim d.status [
      | connecting ↦ handle_button_deselect d
      | dead ↦ handle_button_deselect d
      | connected ↦ record d {
        client = client;
        pending_select = some signal;
        owner = record (d.owner) { predicted_id = some d.id };
      }
    ]

-- `set_new_server_state`, with the deselection that it may queue.
unfoldable pub set_new_server_state : Option ℕ → DemoClient → DemoClient
unfolding handle_button_deselect is_predicted owner_eq
set_new_server_state server_state d =
    let d' = record d { owner = record (d.owner) { server_authoritative_id = server_state } } in
    if is_predicted d.pending_select
    then d'
    else if not (owner_eq server_state (some d.id))
    then handle_button_deselect d'
    else d'

unfoldable pub run_queue : List Queued → DemoClient → DemoClient
unfolding handle_button_deselect set_new_server_state
run_queue [] d = d
run_queue (deselect_button ∷ queue) d = run_queue queue (handle_button_deselect d)
run_queue (new_server_state state ∷ queue) d = run_queue queue (set_new_server_state state d)

-- The loop over aborted requests.
unfoldable pub roll_back : Option RequestSignal → List ℕ → List Queued
unfolding equals_request
roll_back pending [] = []
roll_back pending (id ∷ ids) =
    let rest = roll_back pending ids in
    if equals_request pending id then deselect_button ∷ rest else rest

-- The state within the loop.
pub record Handling : Type 0 where
  pub demo : DemoClient
  pub next_status : ConnectionStatus
  pub queue : List Queued

-- The body of the loop.
unfoldable pub handle_event : Event → Handling → Handling
unfolding roll_back
handle_event (ClientEvent.report ClientReport.connected) h = record h { next_status = connected }
handle_event (ClientEvent.report (ClientReport.is_dead aborted_reqs)) h = record h {
  next_status = dead;
  queue = h.queue ++ roll_back h.demo.pending_select aborted_reqs;
}
handle_event (ClientEvent.report _) h = record h { next_status = connecting }
handle_event (ClientEvent.msg (current new_id)) h = record h {
  queue = h.queue ++ new_server_state new_id ∷ [];
}
handle_event (ClientEvent.ack request_id) h =
    if equals_request h.demo.pending_select request_id
    then record h {
      demo = record (h.demo) {
        pending_select = none;
        owner = record { server_authoritative_id = h.demo.owner.predicted_id; predicted_id = none };
      };
    }
    else h
handle_event (ClientEvent.reject request_id) h = record h {
  queue = h.queue ++ roll_back h.demo.pending_select (request_id ∷ []);
}
handle_event (ClientEvent.response _ request_id) h = record h {
  queue = h.queue ++ roll_back h.demo.pending_select (request_id ∷ []);
}
handle_event (ClientEvent.send_failed request_id) h = record h {
  queue = h.queue ++ roll_back h.demo.pending_select (request_id ∷ []);
}
handle_event (ClientEvent.response_lost request_id) h = record h {
  queue = h.queue ++ roll_back h.demo.pending_select (request_id ∷ []);
}

unfoldable pub handle_events : List Event → Handling → Handling
unfolding handle_event
handle_events [] h = h
handle_events (e ∷ es) h = handle_events es (
    handle_event e
      (record h { demo = record (h.demo) { client = (next (some e) h.demo.client).0 } }))

-- `handle_client_events`, for the events that `next` yields, and what it queues.
unfoldable pub handle_client_events : List Event → DemoClient → DemoClient
unfolding handle_events run_queue
handle_client_events es d =
    let h = handle_events es (record { demo = d; next_status = d.status; queue = [] }) in
    run_queue h.queue (record (h.demo) { status = h.next_status })
