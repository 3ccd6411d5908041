-- ===== src/Conversation.antt =====
-- A request and its response, from src/client/client.rs through src/server/session_handler.rs,
-- src/server/server.rs and src/server/connection_handler.rs back to src/client/client_handler.rs.
mod Examples
use bevy_simplenet.Common.{
  ℕ, ◌+◌, ◌^◌, ◌<◌, ◌≤◌, ◌≡◌, ap, Bool, true, false, List, [], ◌∷◌, ◌++◌, some, arith, length,
}
use bevy_simplenet.Common.Bytes.{Bytes}
use bevy_simplenet.Common.Codec.{Codec}
use bevy_simplenet.Common.Map.{lookup}
use bevy_simplenet.Authentication.{Authenticator, SignatureScheme}
use bevy_simplenet.Protocol.{ServerMetaEvent, ClientMetaEvent}
use bevy_simplenet.RateLimiter.{try_count_msg}
use bevy_simplenet.Client.Signal.{RequestStatus, MessageStatus, Snapshot, message_status}
use bevy_simplenet.Client.Signal
use bevy_simplenet.Client.Tracker.{reserve_id, add_request}
use bevy_simplenet.Client.State.{ClientEvent, ClientState, ok, send_binary}
use bevy_simplenet.Client.State
use bevy_simplenet.Client.Api.{request, is_connected, forward, add_pending}
use bevy_simplenet.Client.Handler
use bevy_simplenet.Client.Settle.{Accepts, results}
use bevy_simplenet.Client.Run.{World, Runs, Reach, online}
use bevy_simplenet.Client.Invariant.{Reach-Inv}
use bevy_simplenet.Client.Responded.{Reach-responded}
use bevy_simplenet.Server.Session.{SessionHandler, on_binary}
use bevy_simplenet.Server.Session
use bevy_simplenet.Server.Api.{respond}
use bevy_simplenet.Server.Api
use bevy_simplenet.Server.Token
use bevy_simplenet.Server.Connection.{ServerConfig, on_call}
use bevy_simplenet.Server.System.{System, start}
use bevy_simplenet.Server.System
use bevy_simplenet.Server.Served.{forwarded, asked, reply, answered, delivered, Reach-served}

module _ {ConnectMsg ClientMsg ClientRequest ServerMsg ServerResponse : Type 0}
    (scheme : SignatureScheme)
    (to_server : Codec (ServerMetaEvent ConnectMsg ClientMsg ClientRequest))
    (to_client : Codec (ClientMetaEvent ServerMsg ServerResponse)) where
  -- `request` with the serialized requests of the protocol.
  abbrev pub ask :
      State.Outside ServerMsg ServerResponse
      → ClientRequest
      → ClientState ServerMsg ServerResponse
      → ClientState ServerMsg ServerResponse × Signal.RequestSignal
  ask o q s = request o (λ id. to_server.serialize (ServerMetaEvent.request q id)) s

  asks :
      (o : State.Outside ServerMsg ServerResponse) (s : ClientState ServerMsg ServerResponse)
      (q : ClientRequest) (bytes : Bytes) (n : ℕ)
      → s.poisoned ≡ false
      → is_connected s ≡ true
      → to_server.serialize (ServerMetaEvent.request q s.tracker.request_counter) ≡ some bytes
      → o.binary bytes ≡ some n
      → (ask o q s).0.outbox ≡ s.outbox ++ bytes ∷ []
  unfolding request forward add_pending send_binary reserve_id add_request is_connected
  asks o s q bytes n live connected good taken = ground arith

  -- A client in any state of its runs asks while it is connected, and its socket takes the message.
  -- A session that was admitted and lives, in any state of the runs of its server, gets the message
  -- within its limits, and the event channel accepts its event. Any run of the server later, the
  -- server lives, the session is alive to it, the call is accepted, and the request is answered; any
  -- run later, the call is handled, while the session lives. Any run of the client after the request
  -- in which no event has settled it, the client is online and gets the answer.
  --
  -- Then the request is in the outbox of the client; the server can take each of its steps: the
  -- session forwards the request, the server answers it by one call, and the handler hands the
  -- serialized answer to that session; and the client reports the answer as the response to that
  -- request, after which the signal that `request` returned says that it is responded, where its
  -- message is sent.
  pub request_answered :
      (authenticator : Authenticator) (config : ServerConfig) {w u : World ServerMsg ServerResponse}
      (v v₁ v₂ : System scheme ConnectMsg ClientMsg ClientRequest ServerMsg ServerResponse)
      (co co' : State.Outside ServerMsg ServerResponse) (n : ℕ) (now : Snapshot)
      (session : SessionHandler ConnectMsg ClientMsg ClientRequest ServerMsg ServerResponse)
      (so : Session.Outside) (o : Api.Outside) (accepts : Bool) (c b : ℕ) (q : ClientRequest)
      (x : ServerResponse) (sent received : Bytes)
      → Reach w
      → w.state.tracker.request_counter + 1 < 2 ^ 64
      → is_connected w.state ≡ true
      → to_server.serialize (ServerMetaEvent.request q w.state.tracker.request_counter) ≡ some sent
      → co.binary sent ≡ some n
      → System.Reach scheme ConnectMsg ClientMsg ClientRequest ServerMsg ServerResponse
          (start scheme ConnectMsg ClientMsg ClientRequest ServerMsg ServerResponse authenticator
            config)
          v
      → lookup b v.sessions ≡ some session
      → lookup b v.added ≡ some c
      → v.deaths b ≡ false
      → (try_count_msg session.rate_limit_tracker so.elapsed).1 ≡ true
      → length sent ≤ session.max_msg_size
      → so.accepts_event ≡ true
      → System.Reach scheme ConnectMsg ClientMsg ClientRequest ServerMsg ServerResponse
          (asked scheme to_server to_client so session c w.state.tracker.request_counter b q v)
          v₁
      → Api.is_dead o ≡ false
      → o.accepts ≡ true
      → o.deaths b ≡ false
      → System.Reach scheme ConnectMsg ClientMsg ClientRequest ServerMsg ServerResponse
          (answered scheme to_server to_client c w.state.tracker.request_counter b x v₁)
          v₂
      → v₂.deaths b ≡ false
      → to_client.serialize (ClientMetaEvent.response x w.state.tracker.request_counter)
        ≡ some received
      → Runs (record w { state = (ask co q w.state).0 }) u
      → u.phase ≡ online
      → results w.state.tracker.request_counter u.state.sent ≡ 0
      → Accepts co'
      → message_status now (ask co q w.state).1.message_signal ≡ MessageStatus.sent
      → let id = w.state.tracker.request_counter in
        let Steps =
          System.Step scheme ConnectMsg ClientMsg ClientRequest ServerMsg ServerResponse in
        ((ask co q w.state).0.outbox ≡ w.state.outbox ++ sent ∷ [])
        × (on_binary scheme to_server.deserialize so sent session
            ≡ some (forwarded scheme to_server to_client so session c id b q))
        × Steps v (asked scheme to_server to_client so session c id b q v)
        × (respond o (Token.new c id b b) x v₁.server
            ≡ some ((answered scheme to_server to_client c id b x v₁).server, []))
        × Steps v₁ (answered scheme to_server to_client c id b x v₁)
        × (on_call to_client.serialize v₂.deaths accepts
              (reply scheme to_server to_client c id b x)
              v₂.handler
            ≡ some (delivered scheme to_server to_client b received v₂).handler)
        × Steps v₂ (delivered scheme to_server to_client b received v₂)
        × ((t : ClientState ServerMsg ServerResponse) × (Handler.on_binary co'
                (to_client.deserialize received)
                u.state
              ≡ some (t, ok tt))
            × (t.sent ≡ u.state.sent ++ ClientEvent.response x id ∷ [])
            × (Signal.status now t.cells (ask co q w.state).1 ≡ RequestStatus.responded))
  request_answered authenticator config {w} {u} v v₁ v₂ co co' n now session so o accepts c b q x
        sent received r small connected good taken reached there admitted alive within fits events
        run₁ up works lives run₂ still good' run here unsettled h arrived =
      let id = w.state.tracker.request_counter in
      let read = to_client.same (ClientMetaEvent.response x id) received good' in
      let (taken_in, first, done, second, handed, third) =
        Reach-served scheme to_server to_client authenticator config v v₁ v₂ session so o accepts c
          id b q x sent received reached there admitted alive within fits events good run₁ up works
          lives run₂ still good' in
      (
        asks co w.state q sent n (Reach-Inv r).live connected good taken,
        taken_in,
        first,
        done,
        second,
        handed,
        third,
        rw read (
            Reach-responded co co' (λ i. to_server.serialize (ServerMetaEvent.request q i)) now x r
              small run here unsettled h arrived),
      )
