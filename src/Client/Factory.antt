-- ===== src/Client/Factory.antt =====
-- src/client/client.rs: `ClientFactory`. The default of `ezsockets::SocketConfig` is an argument.
use bevy_simplenet.Common.{ℕ, String, List, ◌++◌}
use bevy_simplenet.Authentication.{AuthRequest, client_id}
use bevy_simplenet.Protocol.{EnvType, native, wasm, ClientAuthMsg}
use bevy_simplenet.Server.Validation.{Element, client_elements}
use bevy_simplenet.Client.State.{ClientConfig, ClientState, initial}
use bevy_simplenet.TextPingPong.{SocketConfig, text_ping_fn}

-- What `new_client` asks of `ezsockets::ClientConfig`. A URL is its part before the query and the
-- elements of its query, behind which `query_parameter` adds others.
pub record ConnectConfig : Type 0 where
  pub base : String
  pub query : List Element
  pub reconnect_interval : ℕ
  pub max_initial_connect_attempts : ℕ
  pub max_reconnect_attempts : ℕ
  pub socket : SocketConfig

-- The socket configuration of a client in this environment.
unfoldable pub socket_config : SocketConfig → ClientConfig → EnvType → SocketConfig
socket_config default config native = record default {
  heartbeat = config.heartbeat_interval;
  timeout = config.keepalive_timeout;
}
socket_config default config wasm = record {
  heartbeat = config.heartbeat_interval;
  timeout = config.keepalive_timeout;
  heartbeat_ping_msg_fn = text_ping_fn;
}

-- The client that `new_client` returns, the message that its handler authenticates with, and what
-- it connects with.
pub record Assembly (ConnectMsg ServerMsg ServerResponse : Type 0) : Type 0 where
  pub client_id : ℕ
  pub auth : ClientAuthMsg ConnectMsg
  pub config : ClientConfig
  pub state : ClientState ServerMsg ServerResponse
  pub connect : ConnectConfig

-- `new_client` of a factory with this protocol version, in this environment.
unfoldable pub new_client :
    {ConnectMsg ServerMsg ServerResponse : Type 0}
    → SocketConfig
    → EnvType
    → String
    → String × List Element
    → AuthRequest
    → ClientConfig
    → ConnectMsg
    → Assembly ConnectMsg ServerMsg ServerResponse
unfolding initial socket_config
new_client default env protocol_version (base, query) auth config connect_msg = record {
  client_id = client_id auth;
  auth = record { auth = auth; msg = connect_msg };
  config = config;
  state = initial;
  connect = record {
    base = base;
    query = query ++ client_elements protocol_version env;
    reconnect_interval = config.reconnect_interval;
    max_initial_connect_attempts = config.max_initial_connect_attempts;
    max_reconnect_attempts = config.max_reconnect_attempts;
    socket = socket_config default config env;
  };
}
