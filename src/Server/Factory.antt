-- ===== src/Server/Factory.antt =====
-- src/server/server.rs: `ServerFactory`, the sockets of the sessions and the handler of requests for
-- `/ws`. The runtime, the listener and the router are outside, and so is the default of
-- `ezsockets::SocketConfig`.
use bevy_simplenet.Common.{String, List, [], Option}
use bevy_simplenet.Common.Result.{Result, ok, err}
use bevy_simplenet.Authentication.{Authenticator}
use bevy_simplenet.Protocol.{EnvType, native, wasm}
use bevy_simplenet.Server.Counter
use bevy_simplenet.Server.Validation.{
  Element, StatusCode, ConnectionPrevalidator, prevalidate_connection_request,
}
use bevy_simplenet.Server.Connection.{ServerConfig, ConnectionHandler}
use bevy_simplenet.Server.Runs.{initial}
use bevy_simplenet.Server.Api.{Server}
use bevy_simplenet.TextPingPong.{SocketConfig, text_ping_fn}

-- `socket_config`, from the library's default.
unfoldable pub socket_config : SocketConfig → ConnectionPrevalidator → EnvType → SocketConfig
socket_config default prevalidator native = record default {
  heartbeat = prevalidator.heartbeat_interval;
  timeout = prevalidator.keepalive_timeout;
}
socket_config default prevalidator wasm = record {
  heartbeat = prevalidator.heartbeat_interval;
  timeout = prevalidator.keepalive_timeout;
  heartbeat_ping_msg_fn = text_ping_fn;
}

-- What `new_server_with_router` assembles: the server that it returns, the handler that it gives to
-- ezsockets, and the layers of the router. The counters of the layers are those of the handler.
pub record Assembly (ConnectMsg ClientMsg ClientRequest ServerMsg ServerResponse : Type 0)
    : Type 0 where
  pub server : Server ConnectMsg ServerMsg ServerResponse
  pub handler : ConnectionHandler ConnectMsg ClientMsg ClientRequest
  pub prevalidator : ConnectionPrevalidator

module _ {ConnectMsg ClientMsg ClientRequest ServerMsg ServerResponse : Type 0} where
  -- `new_server_with_router` of a factory with this protocol version.
  unfoldable pub new_server :
      String
      → Authenticator
      → ServerConfig
      → Assembly ConnectMsg ClientMsg ClientRequest ServerMsg ServerResponse
  unfolding initial
  new_server protocol_version authenticator config = record {
    server = record {
      consumed_connection_events = 0;
      connection_counter = Counter.default;
      calls = [];
    };
    handler = initial ConnectMsg ClientMsg ClientRequest authenticator config;
    prevalidator = record {
      protocol_version = protocol_version;
      max_pending = config.max_pending;
      max_connections = config.max_connections;
      heartbeat_interval = config.heartbeat_interval;
      keepalive_timeout = config.keepalive_timeout;
    };
  }

  -- `websocket_handler`: the upgrade of the request, or the response to it.
  unfoldable pub websocket_handler :
      SocketConfig
      → (String → List Element)
      → Option String
      → Assembly ConnectMsg ClientMsg ClientRequest ServerMsg ServerResponse
      → Result (StatusCode × String) SocketConfig
  unfolding socket_config
  websocket_handler default parse query a =
      elim (prevalidate_connection_request parse query a.handler.pending_counter
        a.handler.connection_counter a.prevalidator) [
          | ok env ↦ ok (socket_config default a.prevalidator env)
          | err e ↦ err e
        ]
