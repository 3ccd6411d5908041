-- ===== src/Server/System.antt =====
-- The server with its sessions: src/server/session_handler.rs, src/server/connection_handler.rs and
-- src/server/server.rs together. ezsockets runs each handler for one message after the other, drops
-- the handler of a session before it reports the session's end, and reports the end once.
use bevy_simplenet.Common.{
  ℕ, ◌≡◌, Bool, true, false, String, List, [], ◌∷◌, ◌++◌, Option, none, some, ◌==◌, if◌then◌else◌,
  ◌&&◌, not,
}
use bevy_simplenet.Common.Bytes.{Bytes}
use bevy_simplenet.Common.Frames.{CloseFrame}
use bevy_simplenet.Common.Map.{lookup, insert, contains_key}
use bevy_simplenet.Common.Result.{ok, err}
use bevy_simplenet.Authentication.{Authenticator, SignatureScheme}
use bevy_simplenet.Protocol.{EnvType, ClientMetaEvent, ServerMetaEvent}
use bevy_simplenet.Server.Counter.{default}
use bevy_simplenet.Server.Validation.{Element}
use bevy_simplenet.Server.Token.{
  Deaths, RequestToken, Rejection, SessionCommand, ClientTargetMsg, ServerEvent, ClientSourceMsg,
}
use bevy_simplenet.Server.Session.{SessionHandler, on_binary}
use bevy_simplenet.Server.Session
use bevy_simplenet.TextPingPong.{TextAction}
use bevy_simplenet.Server.Text.{on_text}
use bevy_simplenet.Server.Connection.{
  ServerConfig, ConnectionHandler, on_connect, on_disconnect, on_call,
}
use bevy_simplenet.Server.Api.{Server, Outside, respond, ack, send, disconnect_client, next}
use bevy_simplenet.Server.Runs.{initial}

module _ (scheme : SignatureScheme)
    (ConnectMsg ClientMsg ClientRequest ServerMsg ServerResponse : Type 0) where
  -- The handler, the public side, and the sessions by their ids, those that have ended included.
  -- `added` logs the sessions that the handler has admitted, with their clients.
  pub record System : Type 0 where
    pub handler : ConnectionHandler ConnectMsg ClientMsg ClientRequest
    pub server : Server ConnectMsg ServerMsg ServerResponse
    pub sessions :
        List (ℕ × SessionHandler ConnectMsg ClientMsg ClientRequest ServerMsg ServerResponse)
    pub deaths : Deaths
    pub added : List (ℕ × ℕ)

  -- Whether the handler admits a session for a client.
  abbrev pub admits : ConnectionHandler ConnectMsg ClientMsg ClientRequest → ℕ → ℕ → Bool
  admits h client session =
      contains_key session h.session_registry && not (contains_key client h.client_to_session)

  unfoldable pub start : Authenticator → ServerConfig → System
  unfolding initial default
  start authenticator config = record {
    handler = initial ConnectMsg ClientMsg ClientRequest authenticator config;
    server = record { consumed_connection_events = 0; connection_counter = default; calls = [] };
    sessions = [];
    deaths = λ _. false;
    added = [];
  }

  pub data Step : System → System → Type 0 where
    -- A session begins, with a death signal of its own.
    connects :
        (w : System) (h' : ConnectionHandler ConnectMsg ClientMsg ClientRequest)
        (parse : String → List Element) (query : Option String)
        (s : SessionHandler ConnectMsg ClientMsg ClientRequest ServerMsg ServerResponse)
        → on_connect parse query w.handler ≡ some (h', ok s)
        → Step w (record w {
          handler = h';
          sessions = insert s.id s w.sessions;
          deaths = λ b. if b == s.id then false else w.deaths b;
        })
    refuses :
        (w : System) (h' : ConnectionHandler ConnectMsg ClientMsg ClientRequest)
        (parse : String → List Element) (query : Option String) (frame : Option CloseFrame)
        → on_connect {ServerMsg = ServerMsg} {ServerResponse = ServerResponse} parse query w.handler
          ≡ some (h', err frame)
        → Step w (record w { handler = h' })
    receives :
        (w : System)
        (s s' : SessionHandler ConnectMsg ClientMsg ClientRequest ServerMsg ServerResponse) (id : ℕ)
        (deserialize : Bytes → Option (ServerMetaEvent ConnectMsg ClientMsg ClientRequest))
        (o : Session.Outside) (bytes : Bytes)
        → lookup id w.sessions ≡ some s
        → w.deaths id ≡ false
        → on_binary scheme deserialize o bytes s ≡ some s'
        → Step w (record w { sessions = insert id s' w.sessions })
    reads :
        (w : System)
        (s s' : SessionHandler ConnectMsg ClientMsg ClientRequest ServerMsg ServerResponse) (id : ℕ)
        (accepts : Bytes → Bool) (now : ℕ) (text : Bytes) (act : Option TextAction)
        → lookup id w.sessions ≡ some s
        → w.deaths id ≡ false
        → on_text accepts now text s ≡ ok (s', act)
        → Step w (record w { sessions = insert id s' w.sessions })
    told :
        (w : System)
        (s : SessionHandler ConnectMsg ClientMsg ClientRequest ServerMsg ServerResponse) (id : ℕ)
        → lookup id w.sessions ≡ some s
        → w.deaths id ≡ false
        → Step w (record w { sessions = insert id (Session.on_call s) w.sessions })
    drops : (w : System) (id : ℕ) → Step w (record w { deaths = Session.drop id w.deaths })
    disconnects :
        (w : System) (accepts : Bool) (id : ℕ)
        → contains_key id w.handler.session_registry ≡ true
        → w.deaths id ≡ true
        → Step w (record w { handler = (on_disconnect accepts id w.handler).0 })
    -- The `Add` that a session has sent is handled, once.
    adds :
        (w : System) (h' : ConnectionHandler ConnectMsg ClientMsg ClientRequest)
        (serialize : ClientMetaEvent ServerMsg ServerResponse → Option Bytes) (accepts : Bool)
        (s : SessionHandler ConnectMsg ClientMsg ClientRequest ServerMsg ServerResponse)
        (client session : ℕ) (msg : ConnectMsg) (env : EnvType)
        → lookup session w.sessions ≡ some s
        → s.commands ≡ record { id = client; msg = SessionCommand.add session msg env } ∷ []
        → lookup session w.added ≡ none
        → on_call serialize w.deaths accepts
            (record { id = client; msg = SessionCommand.add session msg env })
            w.handler
          ≡ some h'
        → Step w (record w {
          handler = h';
          added = if admits w.handler client session then (session, client) ∷ w.added else w.added;
        })
    -- A command of the server is handled.
    handles :
        (w : System) (h' : ConnectionHandler ConnectMsg ClientMsg ClientRequest)
        (serialize : ClientMetaEvent ServerMsg ServerResponse → Option Bytes) (accepts : Bool)
        (before after : List (ClientTargetMsg ConnectMsg ServerMsg ServerResponse))
        (m : ClientTargetMsg ConnectMsg ServerMsg ServerResponse)
        → w.server.calls ≡ before ++ m ∷ after
        → on_call serialize w.deaths accepts m w.handler ≡ some h'
        → Step w (record w { handler = h' })
    -- A request that a session has forwarded is answered.
    responds :
        (w : System) (s' : Server ConnectMsg ServerMsg ServerResponse) (o : Outside)
        (s : SessionHandler ConnectMsg ClientMsg ClientRequest ServerMsg ServerResponse) (id : ℕ)
        (before after : List (ClientSourceMsg ConnectMsg ClientMsg ClientRequest))
        (e : ClientSourceMsg ConnectMsg ClientMsg ClientRequest) (token : RequestToken)
        (request : ClientRequest) (response : ServerResponse) (rejections : List Rejection)
        → lookup id w.sessions ≡ some s
        → s.events ≡ before ++ e ∷ after
        → e.msg ≡ ServerEvent.request token request
        → respond o token response w.server ≡ some (s', rejections)
        → Step w (record w { server = s' })
    acknowledges :
        (w : System) (s' : Server ConnectMsg ServerMsg ServerResponse) (o : Outside)
        (s : SessionHandler ConnectMsg ClientMsg ClientRequest ServerMsg ServerResponse) (id : ℕ)
        (before after : List (ClientSourceMsg ConnectMsg ClientMsg ClientRequest))
        (e : ClientSourceMsg ConnectMsg ClientMsg ClientRequest) (token : RequestToken)
        (request : ClientRequest) (rejections : List Rejection)
        → lookup id w.sessions ≡ some s
        → s.events ≡ before ++ e ∷ after
        → e.msg ≡ ServerEvent.request token request
        → ack o token w.server ≡ some (s', rejections)
        → Step w (record w { server = s' })
    sends :
        (w : System) (o : Outside) (id : ℕ) (msg : ServerMsg)
        → Step w (record w { server = send o id msg w.server })
    closes :
        (w : System) (o : Outside) (id : ℕ) (frame : Option CloseFrame)
        → Step w (record w { server = disconnect_client o id frame w.server })
    takes :
        (w : System) (e : Option (ClientSourceMsg ConnectMsg ClientMsg ClientRequest))
        → Step w (record w { server = (next e w.server).0 })

  pub data Reach (first : System) : System → Type 0 where
    here : Reach first first
    more : {w w' : System} → Reach first w → Step w w' → Reach first w'
