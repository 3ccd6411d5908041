-- ===== src/Server/Answers.antt =====
-- To which session the answer to a request goes, in every run of the server with its sessions.
use bevy_simplenet.Common.{
  ℕ, ◌≡◌, refl, sym, ◌∙◌, subst, Bool, false, List, [], ◌∷◌, ◌++◌, Option, none, some, arith, All,
  inl, inr, ◌⊎◌, Option-cases, Bool-cases, some_inj,
}
use bevy_simplenet.Common.Bytes.{Bytes}
use bevy_simplenet.Common.Frames.{CloseFrame}
use bevy_simplenet.Common.Map.{lookup, insert, contains_key}
use bevy_simplenet.Authentication.{Authenticator, SignatureScheme}
use bevy_simplenet.Protocol.{ClientMetaEvent}
use bevy_simplenet.Server.Counter.{default}
use bevy_simplenet.Server.Token.{
  Deaths, RequestToken, Rejection, SessionCommand, ClientTargetMsg, ServerEvent, ClientSourceMsg,
}
use bevy_simplenet.Server.Token
use bevy_simplenet.Server.Session.{SessionHandler, on_binary}
use bevy_simplenet.Server.Session
use bevy_simplenet.Server.Connection.{ServerConfig, Action, command, command_for, on_call, may_send}
use bevy_simplenet.Server.Api.{
  Server, Outside, call, answer, respond, ack, send, disconnect_client, next,
}
use bevy_simplenet.Server.Runs.{initial, initial-IsRegistered}
use bevy_simplenet.Server.Sessions.{on_binary-IsAttested, on_text-IsAttested}
use bevy_simplenet.Server.Inverse.{session_of}
use bevy_simplenet.Server.System.{System, start, Step, Reach, here, more}
use bevy_simplenet.Server.Clients.{
  client_of, client_of-eq, Routed, Routed-middle, on_binary-Continues, on_text-Continues,
}
use bevy_simplenet.Server.Handled.{on_connect-err, call-Routed, answer-Routed, sent_token}
use bevy_simplenet.Server.Routing.{
  Inv, connects-Inv, onward-Inv, disconnects-Inv, adds-Inv, handles-Inv, server-Inv,
}

session_unique :
    (c session idx b : ℕ) (m : List (ℕ × (ℕ × ℕ)))
    → lookup c m ≡ some (session, idx)
    → session_of c m ≡ some b
    → session ≡ b
unfolding session_of
session_unique c session idx b m h k = ground arith

module _ (scheme : SignatureScheme)
    (ConnectMsg ClientMsg ClientRequest ServerMsg ServerResponse : Type 0) where
  abbrev IsSound :
      System scheme ConnectMsg ClientMsg ClientRequest ServerMsg ServerResponse → Type 0
  IsSound = Inv scheme ConnectMsg ClientMsg ClientRequest ServerMsg ServerResponse

  -- An answer to a request that a session has forwarded.
  answers-Inv :
      (w : System scheme ConnectMsg ClientMsg ClientRequest ServerMsg ServerResponse)
      (s' : Server ConnectMsg ServerMsg ServerResponse) (o : Outside)
      (s : SessionHandler ConnectMsg ClientMsg ClientRequest ServerMsg ServerResponse) (id : ℕ)
      (before after : List (ClientSourceMsg ConnectMsg ClientMsg ClientRequest))
      (e : ClientSourceMsg ConnectMsg ClientMsg ClientRequest) (token : RequestToken)
      (request : ClientRequest) (event : ℕ → ClientMetaEvent ServerMsg ServerResponse)
      (rejections : List Rejection)
      → lookup id w.sessions ≡ some s
      → s.events ≡ before ++ e ∷ after
      → e.msg ≡ ServerEvent.request token request
      → answer o token event w.server ≡ some (s', rejections)
      → IsSound w
      → IsSound (record w { server = s' })
  answers-Inv w s' o s id before after e token request event rejections there events is done i =
      let (a, same, le) = i.attested id s there in
      let (c, r, known, fresh) =
        sent_token scheme ConnectMsg ClientMsg ClientRequest ServerMsg ServerResponse s before after
          e token request a events is in
      let knows : client_of id w.sessions ≡ some c = client_of-eq id s w.sessions there ∙ known in
      let token' : token ≡ Token.new c r id id =
        subst (λ n. token ≡ Token.new c r n n) same fresh in
      server-Inv scheme ConnectMsg ClientMsg ClientRequest ServerMsg ServerResponse w s'
        (answer-Routed scheme ConnectMsg ClientMsg ClientRequest ServerMsg ServerResponse w.sessions
          o token event w.server s' rejections id r c token' knows done i.routed)
        i

  -- A command of the public side.
  called-Inv :
      (w : System scheme ConnectMsg ClientMsg ClientRequest ServerMsg ServerResponse)
      (s' : Server ConnectMsg ServerMsg ServerResponse) (o : Outside) (id : ℕ)
      (c : SessionCommand ConnectMsg ServerMsg ServerResponse)
      → (s' ≡ w.server) ⊎ (s' ≡ call o id c w.server)
      → Routed w.sessions (record { id = id; msg = c })
      → IsSound w
      → IsSound (record w { server = s' })
  called-Inv w s' o id c (inl same) r i = rw same i
  called-Inv w s' o id c (inr same) r i = rw same (
      server-Inv scheme ConnectMsg ClientMsg ClientRequest ServerMsg ServerResponse w
        (call o id c w.server)
        (call-Routed scheme ConnectMsg ClientMsg ClientRequest ServerMsg ServerResponse w.sessions o
          id c w.server r i.routed)
        i)

  send-calls :
      (o : Outside) (id : ℕ) (msg : ServerMsg) (s : Server ConnectMsg ServerMsg ServerResponse)
      → (send o id msg s ≡ s)
        ⊎ (send o id msg s
            ≡ call o id
                (SessionCommand.send
                  (ClientMetaEvent.msg msg)
                  (some s.consumed_connection_events)
                  none)
                s)
  unfolding send
  send-calls o id msg s = ground arith

  disconnect_client-calls :
      (o : Outside) (id : ℕ) (frame : Option CloseFrame)
      (s : Server ConnectMsg ServerMsg ServerResponse)
      → (disconnect_client o id frame s ≡ s)
        ⊎ (disconnect_client o id frame s ≡ call o id (SessionCommand.close frame) s)
  unfolding disconnect_client
  disconnect_client-calls o id frame s = ground arith

  pub next-calls :
      (e : Option (ClientSourceMsg ConnectMsg ClientMsg ClientRequest))
      (s : Server ConnectMsg ServerMsg ServerResponse)
      → (next e s).0.calls ≡ s.calls
  unfolding next
  next-calls none s = refl
  next-calls (some e) s = ground arith

  drops-Inv :
      (w : System scheme ConnectMsg ClientMsg ClientRequest ServerMsg ServerResponse) (id : ℕ)
      → IsSound w
      → IsSound (record w { deaths = Session.drop id w.deaths })
  unfolding Session.drop
  drops-Inv w id i = record {
    registered = i.registered;
    attested = i.attested;
    known = i.known;
    mapped = i.mapped;
    kept = λ b c k alive. i.kept b c k (ground arith);
    routed = i.routed;
  }

  told-Inv :
      (w : System scheme ConnectMsg ClientMsg ClientRequest ServerMsg ServerResponse)
      (s : SessionHandler ConnectMsg ClientMsg ClientRequest ServerMsg ServerResponse) (id : ℕ)
      → lookup id w.sessions ≡ some s
      → Inv scheme ConnectMsg ClientMsg ClientRequest ServerMsg ServerResponse w
      → Inv scheme ConnectMsg ClientMsg ClientRequest ServerMsg ServerResponse
          (record w { sessions = insert id (Session.on_call s) w.sessions })
  unfolding Session.on_call Session.close
  told-Inv w s id there i =
      onward-Inv scheme ConnectMsg ClientMsg ClientRequest ServerMsg ServerResponse w s
        (Session.on_call s) id there (refl, λ c k. k) (λ a. a) i

  pub Step-Inv :
      {w w' : System scheme ConnectMsg ClientMsg ClientRequest ServerMsg ServerResponse}
      → Step scheme ConnectMsg ClientMsg ClientRequest ServerMsg ServerResponse w w'
      → IsSound w
      → IsSound w'
  unfolding respond ack
  Step-Inv (Step.connects w h' parse query s e) i =
      connects-Inv scheme ConnectMsg ClientMsg ClientRequest ServerMsg ServerResponse w h' parse
        query s e i
  Step-Inv (Step.refuses w h' parse query frame e) i =
      rw
        (on_connect-err scheme ConnectMsg ClientMsg ClientRequest ServerMsg ServerResponse w.handler
          h' parse query frame e)
        i
  Step-Inv (Step.receives w s s' id deserialize o bytes there alive e) i =
      onward-Inv scheme ConnectMsg ClientMsg ClientRequest ServerMsg ServerResponse w s s' id there
        (on_binary-Continues scheme deserialize o bytes s s' e)
        (on_binary-IsAttested ConnectMsg ClientMsg ClientRequest ServerMsg ServerResponse scheme
          deserialize o bytes s s' e)
        i
  Step-Inv (Step.reads w s s' id accepts now text act there alive e) i =
      onward-Inv scheme ConnectMsg ClientMsg ClientRequest ServerMsg ServerResponse w s s' id there
        (on_text-Continues accepts now text s s' act e)
        (on_text-IsAttested ConnectMsg ClientMsg ClientRequest ServerMsg ServerResponse scheme
          accepts now text s s' act e)
        i
  Step-Inv (Step.told w s id there alive) i = told-Inv w s id there i
  Step-Inv (Step.drops w id) i = drops-Inv w id i
  Step-Inv (Step.disconnects w accepts id there dead) i =
      disconnects-Inv scheme ConnectMsg ClientMsg ClientRequest ServerMsg ServerResponse w accepts
        id there dead i
  Step-Inv (Step.adds w h' serialize accepts s client session msg env there sent new e) i =
      adds-Inv scheme ConnectMsg ClientMsg ClientRequest ServerMsg ServerResponse w h' serialize
        accepts s client session msg env there sent new e i
  Step-Inv (Step.handles w h' serialize accepts before after m calls e) i =
      handles-Inv scheme ConnectMsg ClientMsg ClientRequest ServerMsg ServerResponse w h' serialize
        accepts before after m calls e i
  Step-Inv
        (Step.responds w s' o s id before after e token request response rejections there events is
          done)
        i =
      answers-Inv w s' o s id before after e token request (ClientMetaEvent.response response)
        rejections there events is done i
  Step-Inv
        (Step.acknowledges w s' o s id before after e token request rejections there events is done)
        i =
      answers-Inv w s' o s id before after e token request ClientMetaEvent.ack rejections there
        events is done i
  Step-Inv (Step.sends w o id msg) i =
      called-Inv w (send o id msg w.server) o id
        (SessionCommand.send (ClientMetaEvent.msg msg) (some w.server.consumed_connection_events)
          none)
        (send-calls o id msg w.server) tt i
  Step-Inv (Step.closes w o id frame) i =
      called-Inv w (disconnect_client o id frame w.server) o id (SessionCommand.close frame)
        (disconnect_client-calls o id frame w.server) tt i
  Step-Inv (Step.takes w e) i =
      server-Inv scheme ConnectMsg ClientMsg ClientRequest ServerMsg ServerResponse w
        (next e w.server).0 (rw (next-calls e w.server) i.routed) i

  start-Inv :
      (authenticator : Authenticator) (config : ServerConfig)
      → IsSound (
          start scheme ConnectMsg ClientMsg ClientRequest ServerMsg ServerResponse authenticator
            config)
  unfolding start initial default lookup session_of
  start-Inv authenticator config = record {
    registered =
        initial-IsRegistered ConnectMsg ClientMsg ClientRequest ServerMsg ServerResponse
          authenticator config;
    attested = λ b s k. absurd (ground arith);
    known = λ b c k. absurd (ground arith);
    mapped = λ b c k. absurd (ground arith);
    kept = λ b c k alive. absurd (ground arith);
    routed = tt;
  }

  pub Reach-Inv :
      (authenticator : Authenticator) (config : ServerConfig)
      {w : System scheme ConnectMsg ClientMsg ClientRequest ServerMsg ServerResponse}
      → Reach scheme ConnectMsg ClientMsg ClientRequest ServerMsg ServerResponse
          (start scheme ConnectMsg ClientMsg ClientRequest ServerMsg ServerResponse authenticator
            config)
          w
      → IsSound w
  Reach-Inv authenticator config here = start-Inv authenticator config
  Reach-Inv authenticator config (more r step) = Step-Inv step (Reach-Inv authenticator config r)

  -- In every run of the server with its sessions, an answer to a request of a session that the
  -- handler has admitted changes nothing, or it is handed, serialized, to that very session, which
  -- lives and is still the session of its client.
  pub Reach-answer :
      (authenticator : Authenticator) (config : ServerConfig)
      (w : System scheme ConnectMsg ClientMsg ClientRequest ServerMsg ServerResponse)
      (before after : List (ClientTargetMsg ConnectMsg ServerMsg ServerResponse))
      (serialize : ClientMetaEvent ServerMsg ServerResponse → Option Bytes) (accepts : Bool)
      (c d b : ℕ) (event : ClientMetaEvent ServerMsg ServerResponse)
      → Reach scheme ConnectMsg ClientMsg ClientRequest ServerMsg ServerResponse
          (start scheme ConnectMsg ClientMsg ClientRequest ServerMsg ServerResponse authenticator
            config)
          w
      → w.server.calls
        ≡ before ++ record { id = c; msg = SessionCommand.send event none (some b) } ∷ after
      → lookup b w.added ≡ some d
      → (on_call serialize w.deaths accepts
            (record { id = c; msg = SessionCommand.send event none (some b) })
            w.handler
          ≡ some w.handler)
        ⊎ (bytes : Bytes) × (serialize event ≡ some bytes)
          × (w.deaths b ≡ false)
          × (lookup b w.handler.session_to_client ≡ some c)
          × (on_call serialize w.deaths accepts
                (record { id = c; msg = SessionCommand.send event none (some b) })
                w.handler
              ≡ some (record (w.handler) {
                actions = w.handler.actions ++ Action.binary b bytes ∷ [];
              }))
  unfolding on_call command_for command may_send Token.is_dead
  Reach-answer authenticator config w before after serialize accepts c d b event r calls admitted =
      let i = Reach-Inv authenticator config r in
      let asked : client_of b w.sessions ≡ some c =
        Routed-middle w.sessions before after
          (record { id = c; msg = SessionCommand.send event none (some b) })
          (subst (All (Routed w.sessions)) calls i.routed) in
      let same : d ≡ c = some_inj (sym (i.known b d admitted) ∙ asked) in
      elim (Bool-cases (w.deaths b)) [
        | inl dead ↦ inl (ground arith)
        | inr alive ↦
            let held : lookup b w.handler.session_to_client ≡ some c =
              subst (λ x. lookup b w.handler.session_to_client ≡ some x) same
                (i.kept b d admitted alive) in
            let back = (i.registered.inverse c b).1 held in
            elim (Option-cases (lookup c w.handler.client_to_session)) [
              | inl absent ↦ inl (ground arith)
              | inr ((session, idx), there) ↦
                  let this : session ≡ b =
                    session_unique c session idx b w.handler.client_to_session there back in
                  elim (Bool-cases (contains_key session w.handler.session_registry)) [
                    | inr gone ↦ inl (ground arith)
                    | inl present ↦ elim (Option-cases (serialize event)) [
                      | inl bad ↦ inl (ground arith)
                      | inr (bytes, good) ↦ inr (bytes, good, alive, held, ground arith)
                    ]
                  ]
            ]
      ]
