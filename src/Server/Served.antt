-- ===== src/Server/Served.antt =====
-- A request in the runs of the server with its sessions: src/server/session_handler.rs forwards it,
-- src/server/server.rs answers it, and src/server/connection_handler.rs hands the answer over.
use bevy_simplenet.Common.{
  ℕ, ◌≤◌, ◌≡◌, ◌∙◌, sym, refl, Bool, true, false, List, [], ◌∷◌, ◌++◌, none, some, arith, length,
  last-Has,
}
use bevy_simplenet.Common.Bytes.{Bytes}
use bevy_simplenet.Common.Codec.{Codec}
use bevy_simplenet.Common.Map.{lookup, insert, lookup-count, lookup-insert}
use bevy_simplenet.Authentication.{Authenticator, SignatureScheme}
use bevy_simplenet.Protocol.{ServerMetaEvent, ClientMetaEvent}
use bevy_simplenet.RateLimiter.{try_count_msg}
use bevy_simplenet.Server.Token.{
  SessionCommand, ClientTargetMsg, ServerEvent, ClientSourceMsg, destination_is_dead, take,
}
use bevy_simplenet.Server.Token
use bevy_simplenet.Server.Session.{SessionHandler, on_binary, on_message}
use bevy_simplenet.Server.Session
use bevy_simplenet.Server.Api.{Server, respond, answer, call}
use bevy_simplenet.Server.Api
use bevy_simplenet.Server.Connection.{Action, ServerConfig, on_call, command_for, command, may_send}
use bevy_simplenet.Server.Inverse.{session_of}
use bevy_simplenet.Server.Clients.{client_of-eq}
use bevy_simplenet.Server.System.{System, Step, Reach, start}
use bevy_simplenet.Server.Routing.{Inv}
use bevy_simplenet.Server.Answers.{Reach-Inv, Step-Inv}
use bevy_simplenet.Server.Persistence.{Reach-Persists}

module _ {ConnectMsg ClientMsg ClientRequest ServerMsg ServerResponse : Type 0}
    (scheme : SignatureScheme)
    (to_server : Codec (ServerMetaEvent ConnectMsg ClientMsg ClientRequest))
    (to_client : Codec (ClientMetaEvent ServerMsg ServerResponse)) where
  abbrev pub Network : Type 0
  Network = System scheme ConnectMsg ClientMsg ClientRequest ServerMsg ServerResponse

  abbrev pub IsSound : Network → Type 0
  IsSound = Inv scheme ConnectMsg ClientMsg ClientRequest ServerMsg ServerResponse

  abbrev pub Steps : Network → Network → Type 0
  Steps = Step scheme ConnectMsg ClientMsg ClientRequest ServerMsg ServerResponse

  abbrev pub Runs : Network → Network → Type 0
  Runs = Reach scheme ConnectMsg ClientMsg ClientRequest ServerMsg ServerResponse

  -- The event of a request of client `c` that session `b` has forwarded.
  abbrev pub asked_event :
      ℕ → ℕ → ℕ → ClientRequest → ClientSourceMsg ConnectMsg ClientMsg ClientRequest
  asked_event c id b q = record { id = c; msg = ServerEvent.request (Token.new c id b b) q }

  abbrev pub reply :
      ℕ → ℕ → ℕ → ServerResponse → ClientTargetMsg ConnectMsg ServerMsg ServerResponse
  reply c id b x = record {
    id = c;
    msg = SessionCommand.send (ClientMetaEvent.response x id) none (some b);
  }

  -- Session `b` once it has forwarded the request.
  abbrev pub forwarded :
      Session.Outside
      → SessionHandler ConnectMsg ClientMsg ClientRequest ServerMsg ServerResponse
      → ℕ
      → ℕ
      → ℕ
      → ClientRequest
      → SessionHandler ConnectMsg ClientMsg ClientRequest ServerMsg ServerResponse
  forwarded o session c id b q = record session {
    rate_limit_tracker = (try_count_msg session.rate_limit_tracker o.elapsed).0;
    events = session.events ++ asked_event c id b q ∷ [];
  }

  is_there :
      (b : ℕ) (s : SessionHandler ConnectMsg ClientMsg ClientRequest ServerMsg ServerResponse)
      (m : List (ℕ × SessionHandler ConnectMsg ClientMsg ClientRequest ServerMsg ServerResponse))
      → lookup b (insert b s m) ≡ some s
  is_there b s m = ground (arith, lookup-insert b b s m)

  -- The system once session `b` has forwarded the request.
  abbrev pub asked :
      Session.Outside
      → SessionHandler ConnectMsg ClientMsg ClientRequest ServerMsg ServerResponse
      → ℕ
      → ℕ
      → ℕ
      → ClientRequest
      → Network
      → Network
  asked o session c id b q v = record v {
    sessions = insert b (forwarded o session c id b q) v.sessions;
  }

  -- The system once the server has answered the request.
  abbrev pub answered : ℕ → ℕ → ℕ → ServerResponse → Network → Network
  answered c id b x v = record v {
    server = record (v.server) { calls = v.server.calls ++ reply c id b x ∷ [] };
  }

  -- The system once the handler has handed the answer to session `b`.
  abbrev pub delivered : ℕ → Bytes → Network → Network
  delivered b bytes v = record v {
    handler = record (v.handler) { actions = v.handler.actions ++ Action.binary b bytes ∷ [] };
  }

  forwards :
      (o : Session.Outside)
      (h : SessionHandler ConnectMsg ClientMsg ClientRequest ServerMsg ServerResponse) (c id b : ℕ)
      (q : ClientRequest) (bytes : Bytes)
      → h.client ≡ some c
      → h.id ≡ b
      → (try_count_msg h.rate_limit_tracker o.elapsed).1 ≡ true
      → length bytes ≤ h.max_msg_size
      → to_server.serialize (ServerMetaEvent.request q id) ≡ some bytes
      → o.accepts_event ≡ true
      → on_binary scheme to_server.deserialize o bytes h ≡ some (forwarded o h c id b q)
  unfolding on_binary on_message Session.forward
  forwards o h c id b q bytes known named within small good events =
      let read = to_server.same (ServerMetaEvent.request q id) bytes good in ground arith

  responds :
      (o : Api.Outside) (server : Server ConnectMsg ServerMsg ServerResponse) (c id b : ℕ)
      (x : ServerResponse)
      → Api.is_dead o ≡ false
      → o.accepts ≡ true
      → o.deaths b ≡ false
      → respond o (Token.new c id b b) x server
        ≡ some (record server { calls = server.calls ++ reply c id b x ∷ [] }, [])
  unfolding respond answer call Token.new Token.drop destination_is_dead take Token.is_dead
  responds o server c id b x alive works open_session = ground arith

  -- The answer goes to the session that was admitted for the client, while it lives.
  delivers :
      (v : Network) (accepts : Bool) (c id b : ℕ) (x : ServerResponse) (bytes : Bytes)
      → IsSound v
      → lookup b v.added ≡ some c
      → v.deaths b ≡ false
      → to_client.serialize (ClientMetaEvent.response x id) ≡ some bytes
      → on_call to_client.serialize v.deaths accepts (reply c id b x) v.handler
        ≡ some (delivered b bytes v).handler
  unfolding on_call command_for command may_send Token.is_dead session_of
  delivers v accepts c id b x bytes i admitted alive good =
      let held = i.kept b c admitted alive in
      let back = (i.registered.inverse c b).1 held in
      let inside = i.registered.inside b in
      let known = lookup-count b v.handler.session_to_client in
      let present = lookup-count b v.handler.session_registry in ground arith

  -- The session of a client forwards a request; any run of the server later, it is answered; any run
  -- later, the answer is handed to that session, while it lives.
  pub Reach-served :
      (authenticator : Authenticator) (config : ServerConfig) (v v₁ v₂ : Network)
      (session : SessionHandler ConnectMsg ClientMsg ClientRequest ServerMsg ServerResponse)
      (so : Session.Outside) (o : Api.Outside) (accepts : Bool) (c id b : ℕ) (q : ClientRequest)
      (x : ServerResponse) (sent received : Bytes)
      → Runs
          (start scheme ConnectMsg ClientMsg ClientRequest ServerMsg ServerResponse authenticator
            config)
          v
      → lookup b v.sessions ≡ some session
      → lookup b v.added ≡ some c
      → v.deaths b ≡ false
      → (try_count_msg session.rate_limit_tracker so.elapsed).1 ≡ true
      → length sent ≤ session.max_msg_size
      → so.accepts_event ≡ true
      → to_server.serialize (ServerMetaEvent.request q id) ≡ some sent
      → Runs (asked so session c id b q v) v₁
      → Api.is_dead o ≡ false
      → o.accepts ≡ true
      → o.deaths b ≡ false
      → Runs (answered c id b x v₁) v₂
      → v₂.deaths b ≡ false
      → to_client.serialize (ClientMetaEvent.response x id) ≡ some received
      → (on_binary scheme to_server.deserialize so sent session
          ≡ some (forwarded so session c id b q))
        × Steps v (asked so session c id b q v)
        × (respond o (Token.new c id b b) x v₁.server ≡ some ((answered c id b x v₁).server, []))
        × Steps v₁ (answered c id b x v₁)
        × (on_call to_client.serialize v₂.deaths accepts (reply c id b x) v₂.handler
            ≡ some (delivered b received v₂).handler)
        × Steps v₂ (delivered b received v₂)
  Reach-served authenticator config v v₁ v₂ session so o accepts c id b q x sent received r there
        admitted alive within small events good run₁ up works lives run₂ still good' =
      let i =
        Reach-Inv scheme ConnectMsg ClientMsg ClientRequest ServerMsg ServerResponse authenticator
          config r in
      let (a, named, le) = i.attested b session there in
      let known : session.client ≡ some c =
        sym (client_of-eq b session v.sessions there) ∙ i.known b c admitted in
      let taken = forwards so session c id b q sent known named within small good events in
      let first : Steps v (asked so session c id b q v) =
        Step.receives v session (forwarded so session c id b q) b to_server.deserialize so sent
          there alive taken in
      let (j, p₁) =
        Reach-Persists scheme ConnectMsg ClientMsg ClientRequest ServerMsg ServerResponse run₁
          (Step-Inv scheme ConnectMsg ClientMsg ClientRequest ServerMsg ServerResponse first i) in
      let (s₁, there₁, has) = p₁.forwards b (asked_event c id b q) (
        forwarded so session c id b q,
        is_there b (forwarded so session c id b q) v.sessions,
        last-Has (asked_event c id b q) session.events,
      ) in
      let (before, after, log) = has in
      let done = responds o v₁.server c id b x up works lives in
      let second : Steps v₁ (answered c id b x v₁) =
        Step.responds v₁ (answered c id b x v₁).server o s₁ b before after (asked_event c id b q)
          (Token.new c id b b) q x [] there₁ log refl done in
      let (k, p₂) =
        Reach-Persists scheme ConnectMsg ClientMsg ClientRequest ServerMsg ServerResponse run₂
          (Step-Inv scheme ConnectMsg ClientMsg ClientRequest ServerMsg ServerResponse second j) in
      let called = p₂.calls (reply c id b x) (last-Has (reply c id b x) v₁.server.calls) in
      let (before', after', calls) = called in
      let admitted₂ = p₂.added b c (p₁.added b c admitted) in
      let handed = delivers v₂ accepts c id b x received k admitted₂ still good' in
      (
        taken,
        first,
        done,
        second,
        handed,
        Step.handles v₂ (delivered b received v₂).handler to_client.serialize accepts before' after'
            (reply c id b x) calls handed,
      )
