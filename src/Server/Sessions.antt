-- ===== src/Server/Sessions.antt =====
-- What holds of the handler of src/server/session_handler.rs in every run of a session.
use bevy_simplenet.Common.{
  ℕ, ◌≡◌, refl, sym, ◌∙◌, subst, Bool, true, false, List, [], ◌∷◌, ◌++◌, Option, none, some,
  if◌then◌else◌, arith, length, ltb, All, All-append, inl, inr, ◌⊎◌, Option-cases, Bool-cases,
  some_inj,
}
use bevy_simplenet.Common.Bytes.{Bytes}
use bevy_simplenet.Common.Result.{ok}
use bevy_simplenet.Authentication.{
  AuthRequest, Authenticator, SignatureScheme, Log, client_id, authenticate,
}
use bevy_simplenet.Protocol.{EnvType, ServerMetaEvent, ClientAuthMsg}
use bevy_simplenet.RateLimiter.{try_count_msg}
use bevy_simplenet.TextPingPong.{TextAction}
use bevy_simplenet.Server.Text.{on_text}
use bevy_simplenet.Server.Texts.{on_text-outcome}
use bevy_simplenet.Server.Token.{
  RequestToken, SessionCommand, ClientTargetMsg, ServerEvent, ClientSourceMsg,
}
use bevy_simplenet.Server.Token
use bevy_simplenet.Server.Session.{
  SessionHandler, Outside, close, forward, announce, on_verdict, on_message, on_binary, on_call,
}

-- The authenticator accepts an authentication of the client, at some time.
pub record Verified (scheme : SignatureScheme) (authenticator : Authenticator) (client : ℕ)
    : Type 0 where
  pub auth : AuthRequest
  pub now : ℕ
  pub logs : List Log
  pub verdict : authenticate scheme now authenticator auth ≡ some (logs, true)
  pub names : client_id auth ≡ client

module _ (ConnectMsg ClientMsg ClientRequest ServerMsg ServerResponse : Type 0) where
  -- A forwarded event: a message, or a request with a fresh token for this session.
  abbrev pub Forwarded : ℕ → ℕ → ClientSourceMsg ConnectMsg ClientMsg ClientRequest → Type 0
  Forwarded session client e =
      (e.id ≡ client)
      × (((m : ClientMsg) × (e.msg ≡ ServerEvent.msg m))
          ⊎ (r : ℕ) × (q : ClientRequest) × (e.msg
              ≡ ServerEvent.request (Token.new client r session session) q))

  -- What a session has done: nothing before it knows its client; then at most one `Add`.
  pub record Attested (scheme : SignatureScheme) (authenticator : Authenticator) (session : ℕ)
      (client : Option ℕ) (commands : List (ClientTargetMsg ConnectMsg ServerMsg ServerResponse))
      (events : List (ClientSourceMsg ConnectMsg ClientMsg ClientRequest)) : Type 0 where
    pub verified : (c : ℕ) → client ≡ some c → Verified scheme authenticator c
    pub no_commands : client ≡ none → commands ≡ []
    pub no_events : client ≡ none → events ≡ []
    pub added :
        (c : ℕ)
        → client ≡ some c
        → (commands ≡ [])
          ⊎ (m : ConnectMsg) × (env : EnvType) × (commands
              ≡ record { id = c; msg = SessionCommand.add session m env } ∷ [])
    pub forwarded : (c : ℕ) → client ≡ some c → All (Forwarded session c) events

  module _ (scheme : SignatureScheme) where
    abbrev pub IsAttested :
        SessionHandler ConnectMsg ClientMsg ClientRequest ServerMsg ServerResponse → Type 0
    IsAttested h = Attested scheme h.authenticator h.id h.client h.commands h.events

    forward-IsAttested :
        (o : Outside) (e : ClientSourceMsg ConnectMsg ClientMsg ClientRequest)
        (h : SessionHandler ConnectMsg ClientMsg ClientRequest ServerMsg ServerResponse)
        (client : ℕ)
        → h.client ≡ some client
        → Forwarded h.id client e
        → IsAttested h
        → IsAttested (forward o e h)
    unfolding forward close
    forward-IsAttested o e h client known f a = elim (Bool-cases o.accepts_event) [
      | inr refused ↦
          let same : forward o e h ≡ record h { closes = (forward o e h).closes } = ground arith in
          rw same a
      | inl accepted ↦
          let same : forward o e h ≡ record h { events = h.events ++ e ∷ [] } = ground arith in
          rw same (record {
            verified = a.verified;
            no_commands = a.no_commands;
            no_events = λ none. absurd (ground arith);
            added = a.added;
            forwarded = λ c k.
                let is : client ≡ c = some_inj (sym known ∙ k) in
                subst (λ c. All (Forwarded h.id c) (h.events ++ e ∷ [])) is
                  (All-append (Forwarded h.id client) h.events (e ∷ []) (a.forwarded client known)
                    (f, tt));
          })
    ]

    on_verdict-IsAttested :
        (o : Outside) (logs : List Log) (verdict : Bool) (msg : ClientAuthMsg ConnectMsg)
        (h : SessionHandler ConnectMsg ClientMsg ClientRequest ServerMsg ServerResponse)
        → h.client ≡ none
        → authenticate scheme o.now h.authenticator msg.auth ≡ some (logs, verdict)
        → IsAttested h
        → IsAttested (on_verdict o verdict msg h)
    unfolding on_verdict announce close
    on_verdict-IsAttested o logs false msg h fresh e a = a
    on_verdict-IsAttested o logs true msg h fresh e a =
        let id = client_id msg.auth in
        let added =
          (if o.timer_waits
            then (if o.accepts_command
                then h.commands
                  ++ record { id = id; msg = SessionCommand.add h.id msg.msg h.env_type } ∷ []
                else h.commands)
            else h.commands) in
        let same : on_verdict o true msg h ≡ record h {
          client = some id;
          commands = added;
          closes = (on_verdict o true msg h).closes;
        } =
          ground arith in
        let no_commands = a.no_commands fresh in
        let outcomes : (added ≡ [])
            ⊎ (added ≡ record { id = id; msg = SessionCommand.add h.id msg.msg h.env_type } ∷ []) =
          ground arith in
        let no_events = a.no_events fresh in
        rw same (record {
          verified = λ c k. record {
            auth = msg.auth;
            now = o.now;
            logs = logs;
            verdict = e;
            names = some_inj k;
          };
          no_commands = λ k. absurd (ground arith);
          no_events = λ k. absurd (ground arith);
          added = λ c k. elim outcomes [
            | inl silent ↦ inl silent
            | inr told ↦ inr (
              msg.msg,
              h.env_type,
              subst
                  (λ c.
                    added
                    ≡ record { id = c; msg = SessionCommand.add h.id msg.msg h.env_type } ∷ [])
                  (some_inj k) told,
            )
          ];
          forwarded = λ c k. rw no_events tt;
        })

    pub on_message-IsAttested :
        (o : Outside) (m : ServerMetaEvent ConnectMsg ClientMsg ClientRequest)
        (h h' : SessionHandler ConnectMsg ClientMsg ClientRequest ServerMsg ServerResponse)
        → on_message scheme o m h ≡ some h'
        → IsAttested h
        → IsAttested h'
    unfolding on_message close
    on_message-IsAttested o (ServerMetaEvent.authenticate msg) h h' e a =
        elim (Option-cases h.client) [
          | inr (c, known) ↦
              let same : h' ≡ close "extra auth message" h = ground arith in rw same a
          | inl fresh ↦ elim (Option-cases (authenticate scheme o.now h.authenticator msg.auth)) [
            | inl panic ↦ absurd (ground arith)
            | inr ((logs, verdict), answer) ↦
                let same : h' ≡ on_verdict o verdict msg h = ground arith in
                rw same (on_verdict-IsAttested o logs verdict msg h fresh answer a)
          ]
        ]
    on_message-IsAttested o (ServerMetaEvent.msg m) h h' e a = elim (Option-cases h.client) [
      | inl fresh ↦ let same : h' ≡ close "message before auth" h = ground arith in rw same a
      | inr (c, known) ↦
          let event : ClientSourceMsg ConnectMsg ClientMsg ClientRequest = record {
            id = c;
            msg = ServerEvent.msg m;
          } in
          let same : h' ≡ forward o event h = ground arith in
          rw same (forward-IsAttested o event h c known (refl, inl (m, refl)) a)
    ]
    on_message-IsAttested o (ServerMetaEvent.request q r) h h' e a = elim (Option-cases h.client) [
      | inl fresh ↦ let same : h' ≡ close "request before auth" h = ground arith in rw same a
      | inr (c, known) ↦
          let event : ClientSourceMsg ConnectMsg ClientMsg ClientRequest = record {
            id = c;
            msg = ServerEvent.request (Token.new c r h.id h.id) q;
          } in
          let same : h' ≡ forward o event h = ground arith in
          rw same (forward-IsAttested o event h c known (refl, inr (r, q, refl)) a)
    ]

    pub on_binary-IsAttested :
        (deserialize : Bytes → Option (ServerMetaEvent ConnectMsg ClientMsg ClientRequest))
        (o : Outside) (bytes : Bytes)
        (h h' : SessionHandler ConnectMsg ClientMsg ClientRequest ServerMsg ServerResponse)
        → on_binary scheme deserialize o bytes h ≡ some h'
        → IsAttested h
        → IsAttested h'
    unfolding on_binary close
    on_binary-IsAttested deserialize o bytes h h' e a =
        let counted = record h {
          rate_limit_tracker = (try_count_msg h.rate_limit_tracker o.elapsed).0;
        } in
        let within = (try_count_msg h.rate_limit_tracker o.elapsed).1 in
        elim (Bool-cases within) [
          | inr over ↦
              let same : h' ≡ close "rate limit violation" counted = ground arith in rw same a
          | inl under ↦ elim (Bool-cases (ltb h.max_msg_size (length bytes))) [
            | inl big ↦
                let same : h' ≡ close "message size violation" counted = ground arith in rw same a
            | inr small ↦ elim (Option-cases (deserialize bytes)) [
              | inl bad ↦
                  let same : h' ≡ close "deserialization failure" counted = ground arith in
                  rw same a
              | inr (m, read) ↦
                  let same : on_message scheme o m counted ≡ some h' = ground arith in
                  on_message-IsAttested o m counted h' same a
            ]
          ]
        ]

    -- A text leaves the session, or closes it.
    pub on_text-IsAttested :
        (accepts : Bytes → Bool) (now : ℕ) (text : Bytes)
        (h h' : SessionHandler ConnectMsg ClientMsg ClientRequest ServerMsg ServerResponse)
        (act : Option TextAction)
        → on_text accepts now text h ≡ ok (h', act)
        → IsAttested h
        → IsAttested h'
    unfolding close
    on_text-IsAttested accepts now text h h' act e a =
        elim (on_text-outcome h.env_type accepts now text h h' act refl e) [
          | inl same ↦ rw same a
          | inr (reason, closed) ↦ rw closed a
        ]

    -- The calls of a session's handler by ezsockets.
    pub data Run
        (first : SessionHandler ConnectMsg ClientMsg ClientRequest ServerMsg ServerResponse)
        : SessionHandler ConnectMsg ClientMsg ClientRequest ServerMsg ServerResponse → Type 0 where
      here : Run first first
      receives :
          (deserialize : Bytes → Option (ServerMetaEvent ConnectMsg ClientMsg ClientRequest))
          (o : Outside) (bytes : Bytes)
          (h h' : SessionHandler ConnectMsg ClientMsg ClientRequest ServerMsg ServerResponse)
          → Run first h
          → on_binary scheme deserialize o bytes h ≡ some h'
          → Run first h'
      reads :
          (accepts : Bytes → Bool) (now : ℕ) (text : Bytes)
          (h h' : SessionHandler ConnectMsg ClientMsg ClientRequest ServerMsg ServerResponse)
          (act : Option TextAction)
          → Run first h
          → on_text accepts now text h ≡ ok (h', act)
          → Run first h'
      told :
          (h : SessionHandler ConnectMsg ClientMsg ClientRequest ServerMsg ServerResponse)
          → Run first h
          → Run first (on_call h)

    -- In every run of a session that begins without a client: until the authenticator has accepted
    -- an authentication nothing is handed to the connection handler or to the server; afterwards at
    -- most one `Add` was handed over, for this session and the accepted client, and every event to
    -- the server has the accepted client's id and is a message, or a request with a fresh token of
    -- this client and session.
    pub Run-IsAttested :
        (first h : SessionHandler ConnectMsg ClientMsg ClientRequest ServerMsg ServerResponse)
        → (first.client ≡ none) × (first.commands ≡ []) × (first.events ≡ [])
        → Run first h
        → IsAttested h
    unfolding on_call close
    Run-IsAttested first h (client, commands, events) here = record {
      verified = λ c k. absurd (ground arith);
      no_commands = λ k. commands;
      no_events = λ k. events;
      added = λ c k. inl commands;
      forwarded = λ c k. absurd (ground arith);
    }
    Run-IsAttested first h new (receives deserialize o bytes before _ r e) =
        on_binary-IsAttested deserialize o bytes before h e (Run-IsAttested first before new r)
    Run-IsAttested first h new (reads accepts now text before _ act r e) =
        on_text-IsAttested accepts now text before h act e (Run-IsAttested first before new r)
    Run-IsAttested first h new (told before r) = Run-IsAttested first before new r
