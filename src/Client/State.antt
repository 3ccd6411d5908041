-- ===== src/Client/State.antt =====
-- What src/client/client.rs and src/client/client_handler.rs share, and the events of
-- src/client/client_event.rs. The event channel and the socket are outside: whether they accept a
-- value is an argument of each operation, and the state logs what was accepted, in order.
use bevy_simplenet.Common.{
  ℕ, ◌+◌, ◌%◌, ◌^◌, Bool, true, false, List, [], ◌∷◌, ◌++◌, Option, none, some,
}
use bevy_simplenet.Common.Bytes.{Bytes}
use bevy_simplenet.Common.Frames.{CloseFrame}
use bevy_simplenet.Client.Signal.{Cells, Snapshot}
use bevy_simplenet.Client.Tracker.{PendingRequestTracker}
use bevy_simplenet.Client.Tracker

-- `ClientReport`.
pub data ClientReport : Type 0 where
  connected disconnected : ClientReport
  closed_by_server : Option CloseFrame → ClientReport
  closed_by_self : ClientReport
  is_dead : List ℕ → ClientReport

-- `ClientEvent`.
pub data ClientEvent (ServerMsg ServerResponse : Type 0) : Type 0 where
  report : ClientReport → ClientEvent ServerMsg ServerResponse
  msg : ServerMsg → ClientEvent ServerMsg ServerResponse
  response : ServerResponse → ℕ → ClientEvent ServerMsg ServerResponse
  ack reject send_failed response_lost : ℕ → ClientEvent ServerMsg ServerResponse

pub data ClientError : Type 0 where
  connect_error send_error : ClientError

-- `Result<A, ezsockets::Error>`.
pub data Result {ℓ} (A : Type ℓ) : Type ℓ where
  ok : A → Result A
  err : ClientError → Result A

-- `ezsockets::client::ClientCloseMode`.
pub data ClientCloseMode : Type 0 where
  reconnect close : ClientCloseMode

-- `ClientConfig`; the intervals and attempt limits are handed to the socket library.
pub record ClientConfig : Type 0 where
  pub reconnect_on_disconnect : Bool
  pub reconnect_on_server_close : Bool
  pub reconnect_interval : ℕ
  pub max_initial_connect_attempts : ℕ
  pub max_reconnect_attempts : ℕ
  pub heartbeat_interval : ℕ
  pub keepalive_timeout : ℕ

unfoldable pub default_config : ClientConfig
default_config = record {
  reconnect_on_disconnect = true;
  reconnect_on_server_close = false;
  reconnect_interval = 2000000000;
  max_initial_connect_attempts = 18446744073709551615;
  max_reconnect_attempts = 18446744073709551615;
  heartbeat_interval = 5000000000;
  keepalive_timeout = 10000000000;
}

-- The state that client and handler share. `poisoned` says that the mutex round the tracker is.
pub record ClientState (ServerMsg ServerResponse : Type 0) : Type 0 where
  pub tracker : PendingRequestTracker
  pub cells : Cells
  pub poisoned : Bool
  pub client_disconnected_count : ℕ  -- u16
  pub client_closed_signal : Bool
  pub closed_by_self : Bool
  pub sent : List (ClientEvent ServerMsg ServerResponse)
  pub outbox : List Bytes

-- What is outside during one operation: whether the event channel accepts an event, what the
-- socket answers to a message (`none` is an error) and to a close, two snapshots of the message
-- statuses, the earlier first, and the time.
pub record Outside (ServerMsg ServerResponse : Type 0) : Type 0 where
  pub accepts : ClientEvent ServerMsg ServerResponse → Bool
  pub binary : Bytes → Option ℕ
  pub close : Option CloseFrame → Bool
  pub statuses : Snapshot
  pub statuses_later : Snapshot
  pub now : ℕ

-- The state that `ClientFactory::new_client` sets up: it starts disconnected.
unfoldable pub initial : {ServerMsg ServerResponse : Type 0} → ClientState ServerMsg ServerResponse
initial = record {
  tracker = Tracker.default;
  cells = record { cell = λ _. 0; next = 0 };
  poisoned = false;
  client_disconnected_count = 1;
  client_closed_signal = false;
  closed_by_self = false;
  sent = [];
  outbox = [];
}

module _ {ServerMsg ServerResponse : Type 0} where
  -- `client_event_sender.send(event)`, with whether it succeeds.
  unfoldable pub send_event :
      Outside ServerMsg ServerResponse
      → ClientEvent ServerMsg ServerResponse
      → ClientState ServerMsg ServerResponse
      → ClientState ServerMsg ServerResponse × Bool
  send_event o event s = elim (o.accepts event) [
    | true ↦ (record s { sent = s.sent ++ event ∷ [] }, true)
    | false ↦ (s, false)
  ]

  -- `client_disconnected_count.fetch_add(1)`.
  unfoldable pub count_disconnect :
      ClientState ServerMsg ServerResponse → ClientState ServerMsg ServerResponse
  count_disconnect s = record s {
    client_disconnected_count = (s.client_disconnected_count + 1) % 2 ^ 16;
  }

  -- `client.binary(message)`, which logs what the socket takes.
  unfoldable pub send_binary :
      Outside ServerMsg ServerResponse
      → Bytes
      → ClientState ServerMsg ServerResponse
      → ClientState ServerMsg ServerResponse × Option ℕ
  send_binary o message s = elim (o.binary message) [
    | none ↦ (s, none)
    | some signal ↦ (record s { outbox = s.outbox ++ message ∷ [] }, some signal)
  ]
