-- ===== src/Server/Logs.antt =====
-- The logs of src/server/session_handler.rs and src/server/server.rs take at most one value at a time
-- and give none back.
use bevy_simplenet.Common.{
  ℕ, ◌≡◌, refl, Bool, List, Option, none, some, ◌&&◌, not, arith, length, ltb, inl, inr,
  Option-cases, Bool-cases, Grown, ◌⊎◌,
}
use bevy_simplenet.Common.Bytes.{Bytes}
use bevy_simplenet.Common.Result.{ok}
use bevy_simplenet.RateLimiter.{try_count_msg}
use bevy_simplenet.Authentication.{SignatureScheme}
use bevy_simplenet.Protocol.{ServerMetaEvent, ClientMetaEvent}
use bevy_simplenet.TextPingPong.{TextAction}
use bevy_simplenet.Server.Token.{
  RequestToken, Rejection, SessionCommand, ServerEvent, ClientSourceMsg, ClientTargetMsg,
}
use bevy_simplenet.Server.Token
use bevy_simplenet.Server.Session.{
  SessionHandler, on_binary, on_message, on_verdict, announce, forward, close,
}
use bevy_simplenet.Server.Session
use bevy_simplenet.Server.Text.{on_text}
use bevy_simplenet.Server.Texts.{on_text-outcome}
use bevy_simplenet.Server.Api.{Server, Outside, call, answer, send, is_dead}

module _ {ConnectMsg ClientMsg ClientRequest ServerMsg ServerResponse : Type 0} where
  forward-Grown :
      (o : Session.Outside) (m : ClientSourceMsg ConnectMsg ClientMsg ClientRequest)
      (s s' : SessionHandler ConnectMsg ClientMsg ClientRequest ServerMsg ServerResponse)
      → forward o m s ≡ s'
      → Grown s.events s'.events
  unfolding forward close
  forward-Grown o m s s' e = elim (Bool-cases o.accepts_event) [
    | inl taken ↦ inr (m, ground arith)
    | inr refused ↦ inl (ground arith)
  ]

  -- A session forwards at most one event at a time, and takes none back.
  on_message-Grown :
      (scheme : SignatureScheme) (o : Session.Outside)
      (m : ServerMetaEvent ConnectMsg ClientMsg ClientRequest)
      (s s' : SessionHandler ConnectMsg ClientMsg ClientRequest ServerMsg ServerResponse)
      → on_message scheme o m s ≡ some s'
      → Grown s.events s'.events
  unfolding on_message on_verdict announce close
  on_message-Grown scheme o (ServerMetaEvent.authenticate msg) s s' e = inl (ground arith)
  on_message-Grown scheme o (ServerMetaEvent.msg m) s s' e = elim (Option-cases s.client) [
    | inl unknown ↦ inl (ground arith)
    | inr (c, known) ↦
        forward-Grown o (record { id = c; msg = ServerEvent.msg m }) s s' (ground arith)
  ]
  on_message-Grown scheme o (ServerMetaEvent.request q r) s s' e = elim (Option-cases s.client) [
    | inl unknown ↦ inl (ground arith)
    | inr (c, known) ↦
        forward-Grown o (record { id = c; msg = ServerEvent.request (Token.new c r s.id s.id) q }) s
          s' (ground arith)
  ]

  pub on_binary-Grown :
      (scheme : SignatureScheme)
      (deserialize : Bytes → Option (ServerMetaEvent ConnectMsg ClientMsg ClientRequest))
      (o : Session.Outside) (bytes : Bytes)
      (s s' : SessionHandler ConnectMsg ClientMsg ClientRequest ServerMsg ServerResponse)
      → on_binary scheme deserialize o bytes s ≡ some s'
      → Grown s.events s'.events
  unfolding on_binary close
  on_binary-Grown scheme deserialize o bytes s s' e =
      let counted = record s {
        rate_limit_tracker = (try_count_msg s.rate_limit_tracker o.elapsed).0;
      } in
      elim (Option-cases (deserialize bytes)) [
        | inl bad ↦ inl (ground arith)
        | inr (m, read) ↦
            elim (Bool-cases (
              (try_count_msg s.rate_limit_tracker o.elapsed).1
              && not (ltb s.max_msg_size (length bytes)))) [
                | inr refused ↦ inl (ground arith)
                | inl within ↦
                    let same : on_message scheme o m counted ≡ some s' = ground arith in
                    on_message-Grown scheme o m counted s' same
              ]
      ]

  pub on_text-Grown :
      (accepts : Bytes → Bool) (now : ℕ) (text : Bytes)
      (s s' : SessionHandler ConnectMsg ClientMsg ClientRequest ServerMsg ServerResponse)
      (act : Option TextAction)
      → on_text accepts now text s ≡ ok (s', act)
      → Grown s.events s'.events
  unfolding close
  on_text-Grown accepts now text s s' act e =
      elim (on_text-outcome s.env_type accepts now text s s' act refl e) [
        | inl same ↦ inl (rw same refl)
        | inr (reason, closed) ↦ inl (rw closed refl)
      ]

module _ {ConnectMsg ServerMsg ServerResponse : Type 0} where
  pub call-Grown :
      (o : Outside) (id : ℕ) (c : SessionCommand ConnectMsg ServerMsg ServerResponse)
      (s : Server ConnectMsg ServerMsg ServerResponse)
      → Grown s.calls (call o id c s).calls
  unfolding call
  call-Grown o id c s = elim (Bool-cases o.accepts) [
    | inl taken ↦ inr (record { id = id; msg = c }, ground arith)
    | inr refused ↦ inl (ground arith)
  ]

  pub answer-Grown :
      (o : Outside) (token : RequestToken) (event : ℕ → ClientMetaEvent ServerMsg ServerResponse)
      (s s' : Server ConnectMsg ServerMsg ServerResponse) (rejections : List Rejection)
      → answer o token event s ≡ some (s', rejections)
      → Grown s.calls s'.calls
  unfolding answer
  answer-Grown o token event s s' rejections e = elim (Option-cases (Token.take token)) [
    | inl spent ↦ inl (ground arith)
    | inr ((id, signal, spent), taken) ↦
        let command : SessionCommand ConnectMsg ServerMsg ServerResponse =
          SessionCommand.send (event id) none (some signal) in
        let outcomes : (s' ≡ s) ⊎ (s' ≡ call o token.client_id command s) = ground arith in
        elim outcomes [
          | inl same ↦ inl (rw same refl)
          | inr same ↦ rw same (call-Grown o token.client_id command s)
        ]
  ]

  pub send-Grown :
      (o : Outside) (id : ℕ) (msg : ServerMsg) (s : Server ConnectMsg ServerMsg ServerResponse)
      → Grown s.calls (send o id msg s).calls
  unfolding send
  send-Grown o id msg s = elim (Bool-cases (is_dead o)) [
    | inl dead ↦ inl (ground arith)
    | inr alive ↦ rw alive (call-Grown o id _ s)
  ]
