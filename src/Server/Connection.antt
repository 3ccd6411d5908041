-- ===== src/Server/Connection.antt =====
-- src/server/connection_handler.rs. A session of ezsockets is its id; what is handed to it is
-- logged. The serializer, the event channel and the query's parser are arguments.
use bevy_simplenet.Common.{
  ℕ, ◌+◌, ◌-◌, ◌%◌, ◌^◌, Bool, true, String, List, [], ◌∷◌, ◌++◌, Option, none, some, leb, ◌==◌,
  if◌then◌else◌, length, ◌&&◌, not,
}
use bevy_simplenet.Common.Bytes.{Bytes}
use bevy_simplenet.Common.Frames.{CloseFrame, CloseCode}
use bevy_simplenet.Common.Map.{lookup, remove, insert, contains_key}
use bevy_simplenet.Common.Result.{Result, ok, err}
use bevy_simplenet.Authentication.{Authenticator}
use bevy_simplenet.Protocol.{EnvType, ClientMetaEvent}
use bevy_simplenet.RateLimiter.{RateLimitConfig}
use bevy_simplenet.RateLimiter
use bevy_simplenet.Server.Counter.{Counter, increment, decrement}
use bevy_simplenet.Server.Validation.{Element, extract_connection_info}
use bevy_simplenet.Server.Token.{
  Deaths, Rejection, SessionCommand, ClientTargetMsg, ServerReport, ServerEvent, ClientSourceMsg,
  is_dead,
}
use bevy_simplenet.Server.Session.{SessionHandler}

-- `ServerConfig`.
pub record ServerConfig : Type 0 where
  pub max_pending : ℕ  -- u32
  pub max_connections : ℕ  -- u32
  pub max_msg_size : ℕ  -- u32
  pub auth_timeout : ℕ
  pub rate_limit_config : RateLimitConfig
  pub heartbeat_interval : ℕ
  pub keepalive_timeout : ℕ

unfoldable pub default_config : ServerConfig
default_config = record {
  max_pending = 10000;
  max_connections = 100000;
  max_msg_size = 1000000;
  auth_timeout = 3000000000;
  rate_limit_config = RateLimiter.default_config;
  heartbeat_interval = 5000000000;
  keepalive_timeout = 10000000000;
}

-- What is handed to sessions, with the session's id.
pub data Action : Type 0 where
  binary : ℕ → Bytes → Action
  close : ℕ → Option CloseFrame → Action

-- The handler, with the logs of the events to the server and of what is handed to sessions.
pub record ConnectionHandler (ConnectMsg ClientMsg ClientRequest : Type 0) : Type 0 where
  pub authenticator : Authenticator
  pub config : ServerConfig
  pub pending_counter : Counter
  pub connection_counter : Counter
  pub session_counter : ℕ  -- u64
  pub total_connections_count : ℕ  -- u64
  pub session_registry : List (ℕ × ℕ)
  pub client_to_session : List (ℕ × (ℕ × ℕ))
  pub session_to_client : List (ℕ × ℕ)
  pub events : List (ClientSourceMsg ConnectMsg ClientMsg ClientRequest)
  pub actions : List Action

-- The close frames that the handler sends.
abbrev pub max_connections_frame : CloseFrame
max_connections_frame = record { code = CloseCode.protocol; reason = "max connections" }

abbrev pub no_auth_frame : CloseFrame
no_auth_frame = record { code = CloseCode.policy; reason = "no auth received" }

abbrev pub already_connected_frame : CloseFrame
already_connected_frame = record { code = CloseCode.policy; reason = "client already connected" }

abbrev pub away_frame : CloseFrame
away_frame = record { code = CloseCode.away; reason = "" }

-- The timer that `on_connect` spawns: a session whose authentication does not come is closed.
unfoldable pub auth_timer : ℕ → Bool → List Action
auth_timer session_id received =
    if received then [] else Action.close session_id (some no_auth_frame) ∷ []

module _ {ServerMsg ServerResponse : Type 0} where
  -- `reject_client_request`: what a rejection hands to its session.
  unfoldable pub reject_client_request :
      (ClientMetaEvent ServerMsg ServerResponse → Option Bytes) → Rejection → List Action
  reject_client_request serialize r = elim (serialize (ClientMetaEvent.reject r.request)) [
    | none ↦ []
    | some ser_msg ↦ Action.binary r.session ser_msg ∷ []
  ]

module _ {ConnectMsg ClientMsg ClientRequest ServerMsg ServerResponse : Type 0} where
  -- The handler of a new session.
  unfoldable pub new_session :
      ConnectionHandler ConnectMsg ClientMsg ClientRequest
      → ℕ
      → EnvType
      → SessionHandler ConnectMsg ClientMsg ClientRequest ServerMsg ServerResponse
  new_session h session_id env = record {
    authenticator = h.authenticator;
    id = session_id;
    client = none;
    max_msg_size = h.config.max_msg_size;
    env_type = env;
    rate_limit_tracker = RateLimiter.new h.config.rate_limit_config;
    closes = [];
    commands = [];
    events = [];
  }

  -- The part of `on_connect` behind the checks. `none` is the panic without session ids.
  unfoldable pub register :
      ConnectionHandler ConnectMsg ClientMsg ClientRequest
      → EnvType
      → Option (
          ConnectionHandler ConnectMsg ClientMsg ClientRequest
          × Result
              (Option CloseFrame)
              (SessionHandler ConnectMsg ClientMsg ClientRequest ServerMsg ServerResponse))
  unfolding new_session
  register h env =
      let session_id = h.session_counter + 1 in
      if h.session_counter == 2 ^ 64 - 1
      then none
      else some (
        record h {
          pending_counter = increment h.pending_counter;
          session_counter = session_id;
          session_registry = insert session_id session_id h.session_registry;
        },
        ok (new_session h session_id env),
      )

  -- `on_connect`, with the query of the request. The sum of the limits is a `u32`.
  unfoldable pub on_connect :
      (String → List Element)
      → Option String
      → ConnectionHandler ConnectMsg ClientMsg ClientRequest
      → Option (
          ConnectionHandler ConnectMsg ClientMsg ClientRequest
          × Result
              (Option CloseFrame)
              (SessionHandler ConnectMsg ClientMsg ClientRequest ServerMsg ServerResponse))
  unfolding register
  on_connect parse query h =
      if leb ((h.config.max_connections + h.config.max_pending) % 2 ^ 32)
        (length h.session_registry)
      then some (h, err (some max_connections_frame))
      else elim (extract_connection_info parse query) [
        | err e ↦ some (h, err e)
        | ok info ↦ register h info.client_env_type
      ]

module _ {ConnectMsg ClientMsg ClientRequest : Type 0} where
  -- `on_disconnect`, with whether the event channel accepts. The result is `false` for an error.
  unfoldable pub on_disconnect :
      Bool
      → ℕ
      → ConnectionHandler ConnectMsg ClientMsg ClientRequest
      → ConnectionHandler ConnectMsg ClientMsg ClientRequest × Bool
  on_disconnect accepts id h =
      let unregistered = remove id h.session_registry in
      elim (lookup id h.session_to_client) [
        | none ↦ (
          record h {
            session_registry = unregistered;
            pending_counter = decrement h.pending_counter;
          },
          true,
        )
        | some client_id ↦ (
          record h {
            session_registry = unregistered;
            session_to_client = remove id h.session_to_client;
            connection_counter = decrement h.connection_counter;
            client_to_session = remove client_id h.client_to_session;
            events =
                if accepts
                then h.events
                  ++ record { id = client_id; msg = ServerEvent.report ServerReport.disconnected }
                    ∷ []
                else h.events;
          },
          accepts,
        )
      ]

  -- An authenticated client, for a session in the registry.
  unfoldable pub add_client :
      Bool
      → ℕ
      → ℕ
      → ConnectMsg
      → EnvType
      → ConnectionHandler ConnectMsg ClientMsg ClientRequest
      → ConnectionHandler ConnectMsg ClientMsg ClientRequest
  add_client accepts client_id session_id msg env h =
      if contains_key client_id h.client_to_session
      then record h {
        actions = h.actions ++ Action.close session_id (some already_connected_frame) ∷ [];
      }
      else (let total = (h.total_connections_count + 1) % 2 ^ 64 in
          let connected : ConnectionHandler ConnectMsg ClientMsg ClientRequest = record h {
            pending_counter = decrement h.pending_counter;
            connection_counter = increment h.connection_counter;
            total_connections_count = total;
            client_to_session = insert client_id (session_id, total) h.client_to_session;
            session_to_client = insert session_id client_id h.session_to_client;
          } in
          if accepts
          then record connected {
            events =
                h.events
                ++ record {
                  id = client_id;
                  msg = ServerEvent.report (ServerReport.connected env msg);
                }
                  ∷ [];
          }
          else record connected {
            actions = h.actions ++ Action.close session_id (some away_frame) ∷ [];
          })

-- Whether a message may go out: its sender had seen the connection, and the session that it
-- answers lives.
unfoldable pub may_send : Deaths → Option ℕ → Option ℕ → ℕ → Bool
may_send deaths consumed_count death_signal connection_idx =
    (elim consumed_count [ none ↦ true | some n ↦ leb connection_idx n ])
    && (elim death_signal [ none ↦ true | some signal ↦ not (is_dead deaths signal) ])

module _ {ConnectMsg ClientMsg ClientRequest ServerMsg ServerResponse : Type 0} where
  -- `on_call` for a client with a session in the registry.
  unfoldable pub command :
      (ClientMetaEvent ServerMsg ServerResponse → Option Bytes)
      → Deaths
      → ℕ
      → ℕ
      → SessionCommand ConnectMsg ServerMsg ServerResponse
      → ConnectionHandler ConnectMsg ClientMsg ClientRequest
      → Option (ConnectionHandler ConnectMsg ClientMsg ClientRequest)
  unfolding may_send
  command serialize deaths session_id connection_idx (SessionCommand.send event consumed death) h =
      if may_send deaths consumed death connection_idx
      then elim (serialize event) [
        | none ↦ some h
        | some ser_msg ↦
            some (record h { actions = h.actions ++ Action.binary session_id ser_msg ∷ [] })
      ]
      else some h
  command serialize deaths session_id connection_idx (SessionCommand.close frame) h =
      some (record h { actions = h.actions ++ Action.close session_id frame ∷ [] })
  command serialize deaths session_id connection_idx (SessionCommand.add _ _ _) h = none

  -- A command for the client's session, if there is one.
  unfoldable pub command_for :
      (ClientMetaEvent ServerMsg ServerResponse → Option Bytes)
      → Deaths
      → ℕ
      → SessionCommand ConnectMsg ServerMsg ServerResponse
      → ConnectionHandler ConnectMsg ClientMsg ClientRequest
      → Option (ConnectionHandler ConnectMsg ClientMsg ClientRequest)
  unfolding command
  command_for serialize deaths client_id msg h = elim (lookup client_id h.client_to_session) [
    | none ↦ some h
    | some (session_id, connection_idx) ↦
        if contains_key session_id h.session_registry
        then command serialize deaths session_id connection_idx msg h
        else some h
  ]

  -- `on_call`, with whether the event channel accepts. `none` is `unreachable!()`.
  unfoldable pub on_call :
      (ClientMetaEvent ServerMsg ServerResponse → Option Bytes)
      → Deaths
      → Bool
      → ClientTargetMsg ConnectMsg ServerMsg ServerResponse
      → ConnectionHandler ConnectMsg ClientMsg ClientRequest
      → Option (ConnectionHandler ConnectMsg ClientMsg ClientRequest)
  unfolding add_client command_for
  on_call serialize deaths accepts client_msg h = elim client_msg.msg [
    | SessionCommand.add session_id msg env ↦
        if contains_key session_id h.session_registry
        then some (add_client accepts client_msg.id session_id msg env h)
        else some h
    | other ↦ command_for serialize deaths client_msg.id other h
  ]
