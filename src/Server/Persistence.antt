-- ===== src/Server/Persistence.antt =====
-- What a run of the server with its sessions keeps: the requests that a session has forwarded, the
-- commands that the server has sent, and the sessions that were admitted.
use bevy_simplenet.Common.{
  ℕ, ◌≡◌, refl, String, List, Option, some, ◌==◌, arith, inl, inr, Bool-cases, Has, Grown,
  Grown-Has,
}
use bevy_simplenet.Common.Map.{lookup, insert, lookup-insert}
use bevy_simplenet.Common.Result.{ok}
use bevy_simplenet.Authentication.{SignatureScheme}
use bevy_simplenet.Protocol.{ClientMetaEvent}
use bevy_simplenet.Server.Validation.{Element}
use bevy_simplenet.Server.Token.{SessionCommand, ClientSourceMsg, ClientTargetMsg}
use bevy_simplenet.Server.Session.{
  SessionHandler, on_binary, on_message, on_verdict, announce, forward, close,
}
use bevy_simplenet.Server.Session
use bevy_simplenet.Server.Connection.{ConnectionHandler, on_connect}
use bevy_simplenet.Server.Api.{Server, respond, ack, send, disconnect_client, next, is_dead}
use bevy_simplenet.Server.System.{System, Step, Reach, here, more}
use bevy_simplenet.Server.Handled.{on_connect-ok}
use bevy_simplenet.Server.Logs.{
  on_binary-Grown, on_text-Grown, call-Grown, answer-Grown, send-Grown,
}
use bevy_simplenet.Server.Routing.{Inv}
use bevy_simplenet.Server.Answers.{Step-Inv, next-calls}

module _ (scheme : SignatureScheme)
    (ConnectMsg ClientMsg ClientRequest ServerMsg ServerResponse : Type 0) where
  -- A session has forwarded an event.
  abbrev pub Forwards :
      ℕ
      → ClientSourceMsg ConnectMsg ClientMsg ClientRequest
      → List (ℕ × SessionHandler ConnectMsg ClientMsg ClientRequest ServerMsg ServerResponse)
      → Type 0
  Forwards b e m =
      (s : SessionHandler ConnectMsg ClientMsg ClientRequest ServerMsg ServerResponse) × (lookup b m
        ≡ some s)
      × Has e s.events

  -- A session that takes a step has forwarded what it had forwarded before.
  insert-Forwards :
      (b id : ℕ) (e : ClientSourceMsg ConnectMsg ClientMsg ClientRequest)
      (s s' : SessionHandler ConnectMsg ClientMsg ClientRequest ServerMsg ServerResponse)
      (m : List (ℕ × SessionHandler ConnectMsg ClientMsg ClientRequest ServerMsg ServerResponse))
      → lookup id m ≡ some s
      → Grown s.events s'.events
      → Forwards b e m
      → Forwards b e (insert id s' m)
  insert-Forwards b id e s s' m there grown (t, at_b, has) =
      let found = lookup-insert id b s' m in
      elim (Bool-cases (id == b)) [
        | inr other ↦ (t, ground arith, has)
        | inl same ↦
            let one : t ≡ s = ground arith in
            (s', ground arith, Grown-Has e s.events s'.events grown (rw one at has))
      ]

  -- A new session has an id of its own.
  begin-Forwards :
      (w : System scheme ConnectMsg ClientMsg ClientRequest ServerMsg ServerResponse)
      (h' : ConnectionHandler ConnectMsg ClientMsg ClientRequest) (parse : String → List Element)
      (query : Option String)
      (s : SessionHandler ConnectMsg ClientMsg ClientRequest ServerMsg ServerResponse) (b : ℕ)
      (e : ClientSourceMsg ConnectMsg ClientMsg ClientRequest)
      → on_connect parse query w.handler ≡ some (h', ok s)
      → Inv scheme ConnectMsg ClientMsg ClientRequest ServerMsg ServerResponse w
      → Forwards b e w.sessions
      → Forwards b e (insert s.id s w.sessions)
  begin-Forwards w h' parse query s b e made i (t, at_b, has) =
      let (id, client, commands, events, counter, maps) =
        on_connect-ok scheme ConnectMsg ClientMsg ClientRequest ServerMsg ServerResponse w.handler
          h' parse query s made in
      let (a, same, le) = i.attested b t at_b in
      let found = lookup-insert s.id b s w.sessions in (t, ground arith, has)

  -- What was forwarded, called and admitted remains so.
  pub record Persists
      (w w' : System scheme ConnectMsg ClientMsg ClientRequest ServerMsg ServerResponse)
      : Type 0 where
    pub forwards :
        (b : ℕ) (e : ClientSourceMsg ConnectMsg ClientMsg ClientRequest)
        → Forwards b e w.sessions
        → Forwards b e w'.sessions
    pub calls :
        (m : ClientTargetMsg ConnectMsg ServerMsg ServerResponse)
        → Has m w.server.calls
        → Has m w'.server.calls
    pub added : (b c : ℕ) → lookup b w.added ≡ some c → lookup b w'.added ≡ some c

  session-Persists :
      (w : System scheme ConnectMsg ClientMsg ClientRequest ServerMsg ServerResponse) (id : ℕ)
      (s s' : SessionHandler ConnectMsg ClientMsg ClientRequest ServerMsg ServerResponse)
      → lookup id w.sessions ≡ some s
      → Grown s.events s'.events
      → Persists w (record w { sessions = insert id s' w.sessions })
  session-Persists w id s s' there grown = record {
    forwards = λ b e. insert-Forwards b id e s s' w.sessions there grown;
    calls = λ m h. h;
    added = λ b c h. h;
  }

  server-Persists :
      (w : System scheme ConnectMsg ClientMsg ClientRequest ServerMsg ServerResponse)
      (s' : Server ConnectMsg ServerMsg ServerResponse)
      → Grown w.server.calls s'.calls
      → Persists w (record w { server = s' })
  server-Persists w s' grown = record {
    forwards = λ b e h. h;
    calls = λ m. Grown-Has m w.server.calls s'.calls grown;
    added = λ b c h. h;
  }

  Step-Persists :
      {w w' : System scheme ConnectMsg ClientMsg ClientRequest ServerMsg ServerResponse}
      → Step scheme ConnectMsg ClientMsg ClientRequest ServerMsg ServerResponse w w'
      → Inv scheme ConnectMsg ClientMsg ClientRequest ServerMsg ServerResponse w
      → Persists w w'
  unfolding respond ack Session.on_call close disconnect_client next
  Step-Persists (Step.connects w h' parse query s e) i = record {
    forwards = λ b m. begin-Forwards w h' parse query s b m e i;
    calls = λ m h. h;
    added = λ b c h. h;
  }
  Step-Persists (Step.refuses w h' parse query frame e) i = record {
    forwards = λ b m h. h;
    calls = λ m h. h;
    added = λ b c h. h;
  }
  Step-Persists (Step.receives w s s' id deserialize o bytes there alive e) i =
      session-Persists w id s s' there (on_binary-Grown scheme deserialize o bytes s s' e)
  Step-Persists (Step.reads w s s' id accepts now text act there alive e) i =
      session-Persists w id s s' there (on_text-Grown accepts now text s s' act e)
  Step-Persists (Step.told w s id there alive) i =
      session-Persists w id s (Session.on_call s) there (inl refl)
  Step-Persists (Step.drops w id) i = record {
    forwards = λ b m h. h;
    calls = λ m h. h;
    added = λ b c h. h;
  }
  Step-Persists (Step.disconnects w accepts id there dead) i = record {
    forwards = λ b m h. h;
    calls = λ m h. h;
    added = λ b c h. h;
  }
  Step-Persists (Step.adds w h' serialize accepts s client session msg env there sent new e) i =
      record {
        forwards = λ b m h. h;
        calls = λ m h. h;
        added = λ b c h. unfold lookup in ground arith;
      }
  Step-Persists (Step.handles w h' serialize accepts before after m calls e) i = record {
    forwards = λ b m h. h;
    calls = λ m h. h;
    added = λ b c h. h;
  }
  Step-Persists
        (Step.responds w s' o s id before after e token request response rejections there events is
          done)
        i =
      server-Persists w s'
        (answer-Grown o token (ClientMetaEvent.response response) w.server s' rejections done)
  Step-Persists
        (Step.acknowledges w s' o s id before after e token request rejections there events is done)
        i =
      server-Persists w s' (answer-Grown o token ClientMetaEvent.ack w.server s' rejections done)
  Step-Persists (Step.sends w o id msg) i =
      server-Persists w (send o id msg w.server) (send-Grown o id msg w.server)
  Step-Persists (Step.closes w o id frame) i =
      server-Persists w (disconnect_client o id frame w.server) (elim (Bool-cases (is_dead o)) [
        | inl dead ↦ inl (ground arith)
        | inr alive ↦ rw alive (call-Grown o id (SessionCommand.close frame) w.server)
      ])
  Step-Persists (Step.takes w e) i = server-Persists w (next e w.server).0 (
      inl
        (next-calls scheme ConnectMsg ClientMsg ClientRequest ServerMsg ServerResponse e w.server))

  pub Reach-Persists :
      {w w' : System scheme ConnectMsg ClientMsg ClientRequest ServerMsg ServerResponse}
      → Reach scheme ConnectMsg ClientMsg ClientRequest ServerMsg ServerResponse w w'
      → Inv scheme ConnectMsg ClientMsg ClientRequest ServerMsg ServerResponse w
      → Inv scheme ConnectMsg ClientMsg ClientRequest ServerMsg ServerResponse w' × Persists w w'
  Reach-Persists here i =
      (i, record { forwards = λ b m h. h; calls = λ m h. h; added = λ b c h. h })
  Reach-Persists (more r step) i =
      let (j, p) = Reach-Persists r i in
      let q = Step-Persists step j in
      (
        Step-Inv scheme ConnectMsg ClientMsg ClientRequest ServerMsg ServerResponse step j,
        record {
          forwards = λ b m h. q.forwards b m (p.forwards b m h);
          calls = λ m h. q.calls m (p.calls m h);
          added = λ b c h. q.added b c (p.added b c h);
        },
      )
