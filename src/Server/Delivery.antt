-- ===== src/Server/Delivery.antt =====
-- The server as a whole: the handler of src/server/connection_handler.rs with the public operations
-- of src/server/server.rs. The event channel accepts events; the call channel may yield any command
-- that it has accepted.
use bevy_simplenet.Common.{
  ℕ, ◌+◌, ◌^◌, ◌<◌, ◌≡◌, Bool, true, String, List, [], ◌∷◌, ◌++◌, Option, some,
}
use bevy_simplenet.Common.Bytes.{Bytes}
use bevy_simplenet.Common.Frames.{CloseFrame}
use bevy_simplenet.Common.Result.{Result}
use bevy_simplenet.Authentication.{Authenticator}
use bevy_simplenet.Protocol.{EnvType, ClientMetaEvent}
use bevy_simplenet.Server.Counter.{default}
use bevy_simplenet.Server.Validation.{Element}
use bevy_simplenet.Server.Token.{Deaths, RequestToken, Rejection, SessionCommand, ClientSourceMsg}
use bevy_simplenet.Server.Session.{SessionHandler}
use bevy_simplenet.Server.Connection.{
  ServerConfig, ConnectionHandler, on_connect, on_disconnect, command_for, on_call,
}
use bevy_simplenet.Server.Api.{Server, Outside, respond, ack, send, disconnect_client, next}
use bevy_simplenet.Server.Runs.{initial}

module _ (ConnectMsg ClientMsg ClientRequest ServerMsg ServerResponse : Type 0) where
  -- The handler, the server, and the events that the server's owner has taken.
  pub record World : Type 0 where
    pub handler : ConnectionHandler ConnectMsg ClientMsg ClientRequest
    pub server : Server ConnectMsg ServerMsg ServerResponse
    pub received : List (ClientSourceMsg ConnectMsg ClientMsg ClientRequest)

  unfoldable pub start : Authenticator → ServerConfig → World
  unfolding initial default
  start authenticator config = record {
    handler = initial ConnectMsg ClientMsg ClientRequest authenticator config;
    server = record { consumed_connection_events = 0; connection_counter = default; calls = [] };
    received = [];
  }

  pub data Step : World → World → Type 0 where
    connects :
        (w : World) (h' : ConnectionHandler ConnectMsg ClientMsg ClientRequest)
        (parse : String → List Element) (query : Option String)
        (r : Result
          (Option CloseFrame)
          (SessionHandler ConnectMsg ClientMsg ClientRequest ServerMsg ServerResponse))
        → on_connect parse query w.handler ≡ some (h', r)
        → Step w (record w { handler = h' })
    disconnects :
        (w : World) (accepts : Bool) (id : ℕ)
        → Step w (record w { handler = (on_disconnect accepts id w.handler).0 })
    -- The counter of connections does not wrap.
    adds :
        (w : World) (h' : ConnectionHandler ConnectMsg ClientMsg ClientRequest)
        (serialize : ClientMetaEvent ServerMsg ServerResponse → Option Bytes) (deaths : Deaths)
        (id session : ℕ) (msg : ConnectMsg) (env : EnvType)
        → w.handler.total_connections_count + 1 < 2 ^ 64
        → on_call serialize deaths true
            (record { id = id; msg = SessionCommand.add session msg env })
            w.handler
          ≡ some h'
        → Step w (record w { handler = h' })
    commands :
        (w : World) (h' : ConnectionHandler ConnectMsg ClientMsg ClientRequest)
        (serialize : ClientMetaEvent ServerMsg ServerResponse → Option Bytes) (deaths : Deaths)
        (id : ℕ) (m : SessionCommand ConnectMsg ServerMsg ServerResponse)
        → command_for serialize deaths id m w.handler ≡ some h'
        → Step w (record w { handler = h' })
    sends :
        (w : World) (o : Outside) (id : ℕ) (msg : ServerMsg)
        → Step w (record w { server = send o id msg w.server })
    responds :
        (w : World) (s' : Server ConnectMsg ServerMsg ServerResponse) (o : Outside)
        (token : RequestToken) (response : ServerResponse) (rejections : List Rejection)
        → respond o token response w.server ≡ some (s', rejections)
        → Step w (record w { server = s' })
    acknowledges :
        (w : World) (s' : Server ConnectMsg ServerMsg ServerResponse) (o : Outside)
        (token : RequestToken) (rejections : List Rejection)
        → ack o token w.server ≡ some (s', rejections)
        → Step w (record w { server = s' })
    closes :
        (w : World) (o : Outside) (id : ℕ) (frame : Option CloseFrame)
        → Step w (record w { server = disconnect_client o id frame w.server })
    takes :
        (w : World) (e : ClientSourceMsg ConnectMsg ClientMsg ClientRequest)
        (rest : List (ClientSourceMsg ConnectMsg ClientMsg ClientRequest))
        → w.handler.events ≡ w.received ++ e ∷ rest
        → Step w (record w { server = (next (some e) w.server).0; received = w.received ++ e ∷ [] })

  pub data Reach (first : World) : World → Type 0 where
    here : Reach first first
    more : {w w' : World} → Reach first w → Step w w' → Reach first w'
