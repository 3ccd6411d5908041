-- ===== src/Server/Runs.antt =====
-- The runs of the handler of src/server/connection_handler.rs: ezsockets calls it for one message
-- after the other. A session sends its `Add` once, which src/server/session_handler.rs sees to.
use bevy_simplenet.Common.{ℕ, ◌≡◌, refl, Bool, true, String, List, [], Option, none, some, arith}
use bevy_simplenet.Common.Bytes.{Bytes}
use bevy_simplenet.Common.Frames.{CloseFrame}
use bevy_simplenet.Common.Result.{Result}
use bevy_simplenet.Common.Map.{lookup, contains_key}
use bevy_simplenet.Authentication.{Authenticator}
use bevy_simplenet.Protocol.{EnvType, ClientMetaEvent}
use bevy_simplenet.Server.Counter.{default}
use bevy_simplenet.Server.Validation.{Element}
use bevy_simplenet.Server.Token.{Deaths, SessionCommand}
use bevy_simplenet.Server.Session.{SessionHandler}
use bevy_simplenet.Server.Connection.{
  ServerConfig, ConnectionHandler, on_connect, on_disconnect, on_call,
}
use bevy_simplenet.Server.Inverse.{session_of}
use bevy_simplenet.Server.Upkeep.{
  IsRegistered, on_connect-IsRegistered, on_disconnect-IsRegistered, on_call_add-IsRegistered,
  command_for-IsRegistered,
}

-- The handler that a server starts with.
unfoldable pub initial :
    (ConnectMsg ClientMsg ClientRequest : Type 0)
    → Authenticator
    → ServerConfig
    → ConnectionHandler ConnectMsg ClientMsg ClientRequest
unfolding default
initial ConnectMsg ClientMsg ClientRequest authenticator config = record {
  authenticator = authenticator;
  config = config;
  pending_counter = default;
  connection_counter = default;
  session_counter = 0;
  total_connections_count = 0;
  session_registry = [];
  client_to_session = [];
  session_to_client = [];
  events = [];
  actions = [];
}

module _ (ConnectMsg ClientMsg ClientRequest ServerMsg ServerResponse : Type 0) where
  -- A call of the handler. A session that ends is one of the registry; `Add` is of a session that
  -- no client has.
  pub data Step
      : ConnectionHandler ConnectMsg ClientMsg ClientRequest
        → ConnectionHandler ConnectMsg ClientMsg ClientRequest
        → Type 0 where
    connects :
        (h h' : ConnectionHandler ConnectMsg ClientMsg ClientRequest)
        (parse : String → List Element) (query : Option String)
        (r : Result
          (Option CloseFrame)
          (SessionHandler ConnectMsg ClientMsg ClientRequest ServerMsg ServerResponse))
        → on_connect parse query h ≡ some (h', r)
        → Step h h'
    disconnects :
        (h : ConnectionHandler ConnectMsg ClientMsg ClientRequest) (accepts : Bool) (id : ℕ)
        → contains_key id h.session_registry ≡ true
        → Step h (on_disconnect accepts id h).0
    adds :
        (h h' : ConnectionHandler ConnectMsg ClientMsg ClientRequest)
        (serialize : ClientMetaEvent ServerMsg ServerResponse → Option Bytes) (deaths : Deaths)
        (accepts : Bool) (id session : ℕ) (msg : ConnectMsg) (env : EnvType)
        → lookup session h.session_to_client ≡ none
        → on_call serialize deaths accepts
            (record { id = id; msg = SessionCommand.add session msg env })
            h
          ≡ some h'
        → Step h h'
    sends :
        (h h' : ConnectionHandler ConnectMsg ClientMsg ClientRequest)
        (serialize : ClientMetaEvent ServerMsg ServerResponse → Option Bytes) (deaths : Deaths)
        (accepts : Bool) (id : ℕ) (event : ClientMetaEvent ServerMsg ServerResponse)
        (consumed death : Option ℕ)
        → on_call serialize deaths accepts
            (record { id = id; msg = SessionCommand.send event consumed death })
            h
          ≡ some h'
        → Step h h'
    closes :
        (h h' : ConnectionHandler ConnectMsg ClientMsg ClientRequest)
        (serialize : ClientMetaEvent ServerMsg ServerResponse → Option Bytes) (deaths : Deaths)
        (accepts : Bool) (id : ℕ) (frame : Option CloseFrame)
        → on_call serialize deaths accepts (record { id = id; msg = SessionCommand.close frame }) h
          ≡ some h'
        → Step h h'

  pub data Reach (first : ConnectionHandler ConnectMsg ClientMsg ClientRequest)
      : ConnectionHandler ConnectMsg ClientMsg ClientRequest → Type 0 where
    here : Reach first first
    more :
        {h h' : ConnectionHandler ConnectMsg ClientMsg ClientRequest}
        → Reach first h
        → Step h h'
        → Reach first h'

  Step-IsRegistered :
      (h h' : ConnectionHandler ConnectMsg ClientMsg ClientRequest)
      → Step h h'
      → IsRegistered h
      → IsRegistered h'
  unfolding on_call
  Step-IsRegistered h h' (Step.connects _ _ parse query r e) reg =
      on_connect-IsRegistered ConnectMsg ClientMsg ClientRequest ServerMsg ServerResponse h h' parse
        query r e reg
  Step-IsRegistered h h' (Step.disconnects _ accepts id k) reg =
      on_disconnect-IsRegistered ConnectMsg ClientMsg ClientRequest ServerMsg ServerResponse h
        accepts id k reg
  Step-IsRegistered h h' (Step.adds _ _ serialize deaths accepts id session msg env k e) reg =
      on_call_add-IsRegistered ConnectMsg ClientMsg ClientRequest ServerMsg ServerResponse h h'
        serialize deaths accepts id session msg env k e reg
  Step-IsRegistered h h' (Step.sends _ _ serialize deaths accepts id event consumed death e) reg =
      command_for-IsRegistered ConnectMsg ClientMsg ClientRequest ServerMsg ServerResponse h h'
        serialize deaths id (SessionCommand.send event consumed death) e reg
  Step-IsRegistered h h' (Step.closes _ _ serialize deaths accepts id frame e) reg =
      command_for-IsRegistered ConnectMsg ClientMsg ClientRequest ServerMsg ServerResponse h h'
        serialize deaths id (SessionCommand.close frame) e reg

  pub initial-IsRegistered :
      (authenticator : Authenticator) (config : ServerConfig)
      → IsRegistered (initial ConnectMsg ClientMsg ClientRequest authenticator config)
  unfolding initial session_of lookup default
  initial-IsRegistered authenticator config = record {
    registry_map = λ k. ground arith;
    to_client_map = λ k. ground arith;
    inverse = λ c s. (λ e. ground arith, λ e. ground arith);
    inside = λ k. ground arith;
    all_sessions = refl;
    all_clients = refl;
    room = ground arith;
    fresh = λ k e. refl;
  }

  -- In every run of the handler of connections, with sessions that are added once and that end
  -- once: the registry and the map of sessions to clients have no key twice; clients and sessions
  -- are mapped to each other one to one; every session of a client is in the registry; the
  -- connection counter is the number of the clients, the two counters add up to the number of
  -- sessions, and this is at most the sum of the limits.
  pub Reach-IsRegistered :
      (authenticator : Authenticator) (config : ServerConfig)
      (h : ConnectionHandler ConnectMsg ClientMsg ClientRequest)
      → Reach (initial ConnectMsg ClientMsg ClientRequest authenticator config) h
      → IsRegistered h
  Reach-IsRegistered authenticator config h here = initial-IsRegistered authenticator config
  Reach-IsRegistered authenticator config h (more r step) =
      Step-IsRegistered _ h step (Reach-IsRegistered authenticator config _ r)
