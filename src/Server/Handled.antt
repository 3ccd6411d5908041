-- ===== src/Server/Handled.antt =====
-- What one call of the handlers of src/server does that matters for answers to requests.
use bevy_simplenet.Common.{
  ℕ, ◌+◌, ◌≡◌, refl, subst, Bool, String, List, [], ◌∷◌, ◌++◌, Option, none, some, ◌==◌,
  if◌then◌else◌, arith, ap, length-append, length, All, All-middle, inl, inr, ◌⊎◌, Option-cases,
  Bool-cases,
}
use bevy_simplenet.Common.Bytes.{Bytes}
use bevy_simplenet.Common.Frames.{CloseFrame}
use bevy_simplenet.Common.Map.{lookup, insert, lookup-remove}
use bevy_simplenet.Common.Result.{ok, err}
use bevy_simplenet.Authentication.{SignatureScheme}
use bevy_simplenet.Protocol.{EnvType, ClientMetaEvent}
use bevy_simplenet.Server.Validation.{Element}
use bevy_simplenet.Server.Token.{
  Deaths, RequestToken, Rejection, SessionCommand, ClientTargetMsg, ServerEvent, ClientSourceMsg,
}
use bevy_simplenet.Server.Token
use bevy_simplenet.Server.Session.{SessionHandler}
use bevy_simplenet.Server.Connection.{
  ConnectionHandler, on_connect, register, new_session, on_disconnect, add_client, command_for,
  on_call,
}
use bevy_simplenet.Server.Api.{Server, Outside, call, answer}
use bevy_simplenet.Server.Sessions.{Forwarded, IsAttested}
use bevy_simplenet.Server.System.{admits}
use bevy_simplenet.Server.Clients.{client_of, Routed, Routed-snoc}

module _ (scheme : SignatureScheme)
    (ConnectMsg ClientMsg ClientRequest ServerMsg ServerResponse : Type 0) where
  -- What `on_connect` makes of the handler and of a new session.
  pub on_connect-ok :
      (h h' : ConnectionHandler ConnectMsg ClientMsg ClientRequest) (parse : String → List Element)
      (query : Option String)
      (s : SessionHandler ConnectMsg ClientMsg ClientRequest ServerMsg ServerResponse)
      → on_connect parse query h ≡ some (h', ok s)
      → (s.id ≡ h.session_counter + 1)
        × (s.client ≡ none)
        × (s.commands ≡ [])
        × (s.events ≡ [])
        × (h'.session_counter ≡ h.session_counter + 1)
        × (h'.session_to_client ≡ h.session_to_client)
  unfolding on_connect register new_session
  on_connect-ok h h' parse query s e =
      (ground arith, ground arith, ground arith, ground arith, ground arith, ground arith)

  pub on_connect-err :
      (h h' : ConnectionHandler ConnectMsg ClientMsg ClientRequest) (parse : String → List Element)
      (query : Option String) (frame : Option CloseFrame)
      → on_connect {ServerMsg = ServerMsg} {ServerResponse = ServerResponse} parse query h
        ≡ some (h', err frame)
      → h' ≡ h
  unfolding on_connect register
  on_connect-err h h' parse query frame e = ground arith

  pub on_disconnect-maps :
      (h : ConnectionHandler ConnectMsg ClientMsg ClientRequest) (accepts : Bool) (id b : ℕ)
      → ((on_disconnect accepts id h).0.session_counter ≡ h.session_counter)
        × (lookup b (on_disconnect accepts id h).0.session_to_client
            ≡ (if id == b then none else lookup b h.session_to_client))
  unfolding on_disconnect
  on_disconnect-maps h accepts id b =
      (ground arith, ground (arith, lookup-remove id b h.session_to_client))

  pub on_call_add-maps :
      (h h' : ConnectionHandler ConnectMsg ClientMsg ClientRequest)
      (serialize : ClientMetaEvent ServerMsg ServerResponse → Option Bytes) (deaths : Deaths)
      (accepts : Bool) (client session : ℕ) (msg : ConnectMsg) (env : EnvType)
      → on_call serialize deaths accepts
          (record { id = client; msg = SessionCommand.add session msg env })
          h
        ≡ some h'
      → (h'.session_counter ≡ h.session_counter)
        × (h'.session_to_client ≡ (
            if admits scheme ConnectMsg ClientMsg ClientRequest ServerMsg ServerResponse h client
              session
            then insert session client h.session_to_client
            else h.session_to_client))
  unfolding on_call add_client
  on_call_add-maps h h' serialize deaths accepts client session msg env e =
      (ground arith, ground arith)

  -- `on_call` on a command that is no `Add`.
  pub on_call-command_for :
      (m : List (ℕ × SessionHandler ConnectMsg ClientMsg ClientRequest ServerMsg ServerResponse))
      (h : ConnectionHandler ConnectMsg ClientMsg ClientRequest)
      (serialize : ClientMetaEvent ServerMsg ServerResponse → Option Bytes) (deaths : Deaths)
      (accepts : Bool) (id : ℕ) (c : SessionCommand ConnectMsg ServerMsg ServerResponse)
      → Routed m (record { id = id; msg = c })
      → on_call serialize deaths accepts (record { id = id; msg = c }) h
        ≡ command_for serialize deaths id c h
  unfolding on_call
  on_call-command_for m h serialize deaths accepts id (SessionCommand.add _ _ _) r = absurd (cc)
  on_call-command_for m h serialize deaths accepts id (SessionCommand.send _ _ _) r = refl
  on_call-command_for m h serialize deaths accepts id (SessionCommand.close _) r = refl

  pub new-IsAttested :
      (s : SessionHandler ConnectMsg ClientMsg ClientRequest ServerMsg ServerResponse)
      → (s.client ≡ none) × (s.commands ≡ []) × (s.events ≡ [])
      → IsAttested ConnectMsg ClientMsg ClientRequest ServerMsg ServerResponse scheme s
  new-IsAttested s (client, commands, events) = record {
    verified = λ c k. absurd (ground arith);
    no_commands = λ k. commands;
    no_events = λ k. events;
    added = λ c k. inl commands;
    forwarded = λ c k. absurd (ground arith);
  }

  -- The `Add` that a session has sent names its client.
  pub sent_client :
      (s : SessionHandler ConnectMsg ClientMsg ClientRequest ServerMsg ServerResponse)
      (client session : ℕ) (msg : ConnectMsg) (env : EnvType)
      → IsAttested ConnectMsg ClientMsg ClientRequest ServerMsg ServerResponse scheme s
      → s.commands ≡ record { id = client; msg = SessionCommand.add session msg env } ∷ []
      → s.client ≡ some client
  sent_client s client session msg env a sent = elim (Option-cases s.client) [
    | inl unknown ↦ let silent = a.no_commands unknown in absurd (ground arith)
    | inr (c, known) ↦ elim (a.added c known) [
      | inl silent ↦ absurd (ground arith)
      | inr (m, env', told) ↦ ground arith
    ]
  ]

  -- The token of a request that a session has forwarded is a fresh one, for its client.
  pub sent_token :
      (s : SessionHandler ConnectMsg ClientMsg ClientRequest ServerMsg ServerResponse)
      (before after : List (ClientSourceMsg ConnectMsg ClientMsg ClientRequest))
      (e : ClientSourceMsg ConnectMsg ClientMsg ClientRequest) (token : RequestToken)
      (request : ClientRequest)
      → IsAttested ConnectMsg ClientMsg ClientRequest ServerMsg ServerResponse scheme s
      → s.events ≡ before ++ e ∷ after
      → e.msg ≡ ServerEvent.request token request
      → (c : ℕ) × (r : ℕ) × (s.client ≡ some c) × (token ≡ Token.new c r s.id s.id)
  sent_token s before after e token request a events is = elim (Option-cases s.client) [
    | inl unknown ↦
        let silent = a.no_events unknown in
        absurd (omega (arith, length-append before (e ∷ after), ap length events, ap length silent))
    | inr (c, known) ↦
        let (id, kinds) =
          All-middle (Forwarded ConnectMsg ClientMsg ClientRequest ServerMsg ServerResponse s.id c)
            before after e
            (subst
              (All (Forwarded ConnectMsg ClientMsg ClientRequest ServerMsg ServerResponse s.id c))
              events (a.forwarded c known)) in
        elim kinds [
          | inl (m, e') ↦ absurd (ground arith)
          | inr (r, q, e') ↦ (c, r, known, ground arith)
        ]
  ]

  pub call-Routed :
      (m : List (ℕ × SessionHandler ConnectMsg ClientMsg ClientRequest ServerMsg ServerResponse))
      (o : Outside) (id : ℕ) (c : SessionCommand ConnectMsg ServerMsg ServerResponse)
      (s : Server ConnectMsg ServerMsg ServerResponse)
      → Routed m (record { id = id; msg = c })
      → All (Routed m) s.calls
      → All (Routed m) (call o id c s).calls
  unfolding call
  call-Routed m o id c s k r = elim (Bool-cases o.accepts) [
    | inr refused ↦ let same : (call o id c s).calls ≡ s.calls = ground arith in rw same r
    | inl accepted ↦
        let same : (call o id c s).calls ≡ s.calls ++ record { id = id; msg = c } ∷ [] =
          ground arith in
        rw same (Routed-snoc m s.calls (record { id = id; msg = c }) r k)
  ]

  pub answer-Routed :
      (m : List (ℕ × SessionHandler ConnectMsg ClientMsg ClientRequest ServerMsg ServerResponse))
      (o : Outside) (token : RequestToken) (event : ℕ → ClientMetaEvent ServerMsg ServerResponse)
      (s s' : Server ConnectMsg ServerMsg ServerResponse) (rejections : List Rejection) (b r c : ℕ)
      → token ≡ Token.new c r b b
      → client_of b m ≡ some c
      → answer o token event s ≡ some (s', rejections)
      → All (Routed m) s.calls
      → All (Routed m) s'.calls
  unfolding answer Token.take Token.new
  answer-Routed m o token event s s' rejections b r c is known e routed =
      let command : SessionCommand ConnectMsg ServerMsg ServerResponse =
        SessionCommand.send (event r) none (some b) in
      let outcomes : (s' ≡ s) ⊎ (s' ≡ call o c command s) = ground arith in
      elim outcomes [
        | inl same ↦ rw same routed
        | inr same ↦ rw same (call-Routed m o c command s known routed)
      ]
