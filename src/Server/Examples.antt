-- ===== src/Server/Examples.antt =====
-- Tests and instances for src/server.
use bevy_simplenet.Common.{
  ℕ, zero, suc, ◌<◌, ◌≤◌, ◌≡◌, ◌↔◌, refl, true, false, String, List, [], ◌∷◌, ◌++◌, Option, none,
  some,
}
use bevy_simplenet.Common.Bytes.{Bytes, to_le_bytes, bytes_eq, bytes_eq_refl}
use bevy_simplenet.Common.Map.{insert}
use bevy_simplenet.Common.Result.{ok}
use bevy_simplenet.Authentication.{AuthRequest, Authenticator, SignatureScheme, authenticate}
use bevy_simplenet.Protocol.{EnvType, native, wasm, ServerMetaEvent, ClientAuthMsg}
use bevy_simplenet.RateLimiter
use bevy_simplenet.Server.Counter.{Counter, default, load}
use bevy_simplenet.Server.Validation.{
  Element, ConnectionPrevalidator, prevalidate_connection_request, extract_connection_info,
  client_elements,
}
use bevy_simplenet.Server.Admission.{Admits, prevalidate_iff, prevalidate-extract}
use bevy_simplenet.Server.Token
use bevy_simplenet.Server.Session.{SessionHandler, on_binary}
use bevy_simplenet.Server.Session
use bevy_simplenet.Server.Api.{Server, respond, ack, reject}
use bevy_simplenet.Server.Api
use bevy_simplenet.Server.Connection.{ConnectionHandler, default_config, on_connect, new_session}
use bevy_simplenet.Server.Replies.{total, replies, replied_once}
use bevy_simplenet.Server.Runs.{initial, Step, here, more, Reach-IsRegistered}
use bevy_simplenet.Server.Upkeep.{IsRegistered}
use bevy_simplenet.Server.Factory.{Assembly, new_server, websocket_handler, socket_config}
use bevy_simplenet.Server.Handshake.{handshake_iff}
use bevy_simplenet.Client.State
use bevy_simplenet.TextPingPong.{RawMessage, SocketConfig}
use Prim.Native.String.{len}
use bevy_simplenet.Server.Sessions.{IsAttested, Run, Run-IsAttested}

-- A parser that reads every query as that of a native client of version "1".
abbrev pub parse : String → List Element
parse _ = client_elements "1" native

abbrev prevalidator : ConnectionPrevalidator
prevalidator = record {
  protocol_version = "1";
  max_pending = 1;
  max_connections = 1;
  heartbeat_interval = 5;
  keepalive_timeout = 10;
}

prevalidated :
    prevalidate_connection_request parse (some "v=1&t=0") default default prevalidator ≡ ok native
unfolding prevalidate_connection_request bevy_simplenet.Server.Counter.load default
    bevy_simplenet.Server.Validation.check_protocol_version client_elements
    bevy_simplenet.Server.Validation.try_extract_client_env
    bevy_simplenet.Protocol.env_type_from_str bevy_simplenet.Protocol.env_type_as_str
prevalidated = refl

prevalidate_iff_example :
    (prevalidate_connection_request parse (some "v=1&t=0") default default prevalidator ≡ ok native)
    ↔ Admits parse (some "v=1&t=0") default default prevalidator native
prevalidate_iff_example = prevalidate_iff parse (some "v=1&t=0") default default prevalidator native

prevalidate-extract_example :
    extract_connection_info parse (some "v=1&t=0") ≡ ok (record { client_env_type = native })
prevalidate-extract_example =
    prevalidate-extract parse (some "v=1&t=0") default default prevalidator native prevalidated

-- A server that lives.
abbrev server : Server ℕ ℕ ℕ
server = record { consumed_connection_events = 0; connection_counter = default; calls = [] }

abbrev pub alive : Api.Outside
alive = record { worker_done = false; runner_done = false; accepts = true; deaths = λ _. false }

replied_once_example :
    (total ℕ ℕ ℕ 7 (respond alive (Token.new 3 7 1 1) 5 server) ≡ some 1)
    × (total ℕ ℕ ℕ 7 (ack alive (Token.new 3 7 1 1) server) ≡ some 1)
    × (total ℕ ℕ ℕ 7 (reject alive (Token.new 3 7 1 1) server) ≡ some 1)
unfolding replies Token.is_dead Api.is_dead
replied_once_example = replied_once ℕ ℕ ℕ alive 3 7 1 5 server

-- A server with one pending session.
abbrev pub begun : ConnectionHandler ℕ ℕ ℕ
begun = initial ℕ ℕ ℕ Authenticator.none default_config

abbrev pub one_pending : ConnectionHandler ℕ ℕ ℕ
one_pending = record begun {
  pending_counter = record { counter = 1 };
  session_counter = 1;
  session_registry = (1, 1) ∷ [];
}

connected_once :
    on_connect {ServerMsg = ℕ} {ServerResponse = ℕ} parse (some "v=1&t=0") begun
    ≡ some (one_pending, ok (new_session begun 1 native))
unfolding on_connect initial default_config extract_connection_info
    bevy_simplenet.Server.Validation.try_extract_client_env client_elements
    bevy_simplenet.Protocol.env_type_from_str bevy_simplenet.Protocol.env_type_as_str
    bevy_simplenet.Server.Counter.increment insert
connected_once = refl

Reach-IsRegistered_example : IsRegistered one_pending
Reach-IsRegistered_example =
    Reach-IsRegistered ℕ ℕ ℕ ℕ ℕ Authenticator.none default_config one_pending (
      more here (
        Step.connects begun one_pending parse (some "v=1&t=0") (ok (new_session begun 1 native))
          connected_once))

-- A session that accepts client 3 and then a request of it.
abbrev pub toy : SignatureScheme
toy = record {
  VerifyingKey = Bytes;
  from_bytes = some;
  verify = λ k m s. bytes_eq s (k ++ m);
  sign = λ k m. k ++ m;
  verifying_key = λ k. k;
  verify_of_sign = λ k m. (k, refl, bytes_eq_refl (k ++ m));
}

abbrev pub deserialize : Bytes → Option (ServerMetaEvent ℕ ℕ ℕ)
deserialize [] = none
deserialize (zero ∷ _) =
    some (ServerMetaEvent.authenticate (record { auth = AuthRequest.none 3; msg = 8 }))
deserialize (suc _ ∷ _) = some (ServerMetaEvent.request 9 7)

abbrev pub during : Session.Outside
during = record {
  elapsed = 0;
  now = 0;
  timer_waits = true;
  accepts_command = true;
  accepts_event = true;
}

abbrev pub session : SessionHandler ℕ ℕ ℕ ℕ ℕ
session = new_session begun 1 native

abbrev pub authenticated : SessionHandler ℕ ℕ ℕ ℕ ℕ
authenticated = record session {
  client = some 3;
  rate_limit_tracker = (RateLimiter.try_count_msg session.rate_limit_tracker 0).0;
  commands = record { id = 3; msg = Token.SessionCommand.add 1 8 native } ∷ [];
}

abbrev pub requested : SessionHandler ℕ ℕ ℕ ℕ ℕ
requested = record authenticated {
  rate_limit_tracker = (RateLimiter.try_count_msg authenticated.rate_limit_tracker 0).0;
  events = record { id = 3; msg = Token.ServerEvent.request (Token.new 3 7 1 1) 9 } ∷ [];
}

pub authenticates : on_binary toy deserialize during (0 ∷ []) session ≡ some authenticated
unfolding on_binary RateLimiter.try_count_msg new_session RateLimiter.new initial default_config
    RateLimiter.default_config authenticate bevy_simplenet.Authentication.client_id
authenticates = refl

pub requests : on_binary toy deserialize during (1 ∷ []) authenticated ≡ some requested
unfolding on_binary RateLimiter.try_count_msg new_session RateLimiter.new initial default_config
    RateLimiter.default_config
requests = refl

Run-IsAttested_example : IsAttested ℕ ℕ ℕ ℕ ℕ toy requested
unfolding new_session
Run-IsAttested_example =
    Run-IsAttested ℕ ℕ ℕ ℕ ℕ toy session requested (refl, refl, refl)
      (Run.receives deserialize during (1 ∷ []) authenticated requested
        (Run.receives deserialize during (0 ∷ []) session authenticated Run.here authenticates)
        requests)

-- A client of version "1" in a browser asks a server of version "1", which has room.
abbrev library_default : SocketConfig
library_default = record {
  heartbeat = 5;
  timeout = 10;
  heartbeat_ping_msg_fn = λ timestamp. RawMessage.other (to_le_bytes 16 timestamp);
}

abbrev lobby : Assembly ℕ ℕ ℕ ℕ ℕ
lobby = new_server "1" Authenticator.none default_config

handshake_iff_example :
    (((socket : SocketConfig) × (websocket_handler library_default
            (λ _. client_elements "1" wasm)
            (some "v=1&t=1")
            lobby
          ≡ ok socket))
      ↔ ((load default < default_config.max_pending)
          × (load default < default_config.max_connections)
          × ◌≡◌ {A = List Element} [] []
          × (◌≡◌ {A = String} "1" "1")
          × (len "1" ≤ 20)))
    × ((socket : SocketConfig)
        → websocket_handler library_default (λ _. client_elements "1" wasm) (some "v=1&t=1") lobby
          ≡ ok socket
        → socket ≡ socket_config library_default lobby.prevalidator wasm)
unfolding new_server initial
handshake_iff_example =
    handshake_iff ℕ ℕ ℕ ℕ ℕ (λ _. "v=1&t=1") (λ _. client_elements "1" wasm) library_default wasm
      "1" "1" "ws://[::1]:48888/ws" [] (AuthRequest.none 3) State.default_config 8
      Authenticator.none default_config (initial ℕ ℕ ℕ Authenticator.none default_config) refl
