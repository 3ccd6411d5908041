-- ===== src/Server/Session.antt =====
-- src/server/session_handler.rs. The session, the channels and the serializer are outside: whether
-- they accept a value is an argument, and the state logs what is handed to them.
use bevy_simplenet.Common.{
  ℕ, String, Bool, true, List, [], ◌∷◌, ◌++◌, Option, none, some, is_some, ltb, ◌==◌, if◌then◌else◌,
  length,
}
use bevy_simplenet.Common.Bytes.{Bytes}
use bevy_simplenet.Common.Frames.{CloseFrame, CloseCode}
use bevy_simplenet.Authentication.{Authenticator, SignatureScheme, client_id, authenticate}
use bevy_simplenet.Protocol.{EnvType, ServerMetaEvent, ClientAuthMsg}
use bevy_simplenet.RateLimiter.{RateLimitTracker, try_count_msg}
use bevy_simplenet.Server.Token.{
  RequestToken, SessionCommand, ClientTargetMsg, ServerEvent, ClientSourceMsg,
}
use bevy_simplenet.Server.Token

-- The handler, with the logs of the three outlets: close frames handed to the session, commands
-- to the connection handler, and events to the server.
pub record SessionHandler (ConnectMsg ClientMsg ClientRequest ServerMsg ServerResponse : Type 0)
    : Type 0 where
  pub authenticator : Authenticator
  pub id : ℕ
  pub client : Option ℕ
  pub max_msg_size : ℕ  -- u32
  pub env_type : EnvType
  pub rate_limit_tracker : RateLimitTracker
  pub closes : List CloseFrame
  pub commands : List (ClientTargetMsg ConnectMsg ServerMsg ServerResponse)
  pub events : List (ClientSourceMsg ConnectMsg ClientMsg ClientRequest)

-- What is outside during one message: the time since the session began, the time since the epoch,
-- whether the timer of the authentication still waits, and whether the two channels accept.
pub record Outside : Type 0 where
  pub elapsed : ℕ
  pub now : ℕ
  pub timer_waits : Bool
  pub accepts_command : Bool
  pub accepts_event : Bool

module _ {ConnectMsg ClientMsg ClientRequest ServerMsg ServerResponse : Type 0} where
  -- `close(reason)`.
  unfoldable pub close :
      String
      → SessionHandler ConnectMsg ClientMsg ClientRequest ServerMsg ServerResponse
      → SessionHandler ConnectMsg ClientMsg ClientRequest ServerMsg ServerResponse
  close reason h = record h {
    closes = h.closes ++ record { code = CloseCode.error; reason = reason } ∷ [];
  }

  -- `server_event_sender.send`, with the close of the session where it fails.
  unfoldable pub forward :
      Outside
      → ClientSourceMsg ConnectMsg ClientMsg ClientRequest
      → SessionHandler ConnectMsg ClientMsg ClientRequest ServerMsg ServerResponse
      → SessionHandler ConnectMsg ClientMsg ClientRequest ServerMsg ServerResponse
  unfolding close
  forward o event h =
      if o.accepts_event
      then record h { events = h.events ++ event ∷ [] }
      else close "session error" h

  -- The connection handler is told of the authenticated client.
  unfoldable pub announce :
      Outside
      → ℕ
      → ConnectMsg
      → SessionHandler ConnectMsg ClientMsg ClientRequest ServerMsg ServerResponse
      → SessionHandler ConnectMsg ClientMsg ClientRequest ServerMsg ServerResponse
  unfolding close
  announce o id msg h =
      if o.accepts_command
      then record h {
        commands =
            h.commands ++ record { id = id; msg = SessionCommand.add h.id msg h.env_type } ∷ [];
      }
      else close "session error" h

  -- What follows a verdict of the authenticator. Where the timer is gone the session timed out.
  unfoldable pub on_verdict :
      Outside
      → Bool
      → ClientAuthMsg ConnectMsg
      → SessionHandler ConnectMsg ClientMsg ClientRequest ServerMsg ServerResponse
      → SessionHandler ConnectMsg ClientMsg ClientRequest ServerMsg ServerResponse
  unfolding close announce
  on_verdict o verdict msg h =
      if verdict
      then (let known = record h { client = some (client_id msg.auth) } in
          if o.timer_waits then announce o (client_id msg.auth) msg.msg known else known)
      else close "invalid auth" h

  -- A message that is deserialized. `none` is a panic of the authenticator.
  unfoldable pub on_message :
      SignatureScheme
      → Outside
      → ServerMetaEvent ConnectMsg ClientMsg ClientRequest
      → SessionHandler ConnectMsg ClientMsg ClientRequest ServerMsg ServerResponse
      → Option (SessionHandler ConnectMsg ClientMsg ClientRequest ServerMsg ServerResponse)
  unfolding close on_verdict forward
  on_message scheme o (ServerMetaEvent.authenticate msg) h =
      if is_some h.client
      then some (close "extra auth message" h)
      else elim (authenticate scheme o.now h.authenticator msg.auth) [
        | none ↦ none
        | some (_, verdict) ↦ some (on_verdict o verdict msg h)
      ]
  on_message scheme o (ServerMetaEvent.msg msg) h = elim h.client [
    | none ↦ some (close "message before auth" h)
    | some client ↦ some (forward o (record { id = client; msg = ServerEvent.msg msg }) h)
  ]
  on_message scheme o (ServerMetaEvent.request request request_id) h = elim h.client [
    | none ↦ some (close "request before auth" h)
    | some client ↦
        let token = Token.new client request_id h.id h.id in
        some (forward o (record { id = client; msg = ServerEvent.request token request }) h)
  ]

  -- `on_binary`: the rate limit, the size, the deserialization, and the message.
  unfoldable pub on_binary :
      SignatureScheme
      → (Bytes → Option (ServerMetaEvent ConnectMsg ClientMsg ClientRequest))
      → Outside
      → Bytes
      → SessionHandler ConnectMsg ClientMsg ClientRequest ServerMsg ServerResponse
      → Option (SessionHandler ConnectMsg ClientMsg ClientRequest ServerMsg ServerResponse)
  unfolding close on_message
  on_binary scheme deserialize o bytes h =
      let (tracker, within) = try_count_msg h.rate_limit_tracker o.elapsed in
      let counted = record h { rate_limit_tracker = tracker } in
      if within
      then (if ltb h.max_msg_size (length bytes)
          then some (close "message size violation" counted)
          else elim (deserialize bytes) [
            | none ↦ some (close "deserialization failure" counted)
            | some message ↦ on_message scheme o message counted
          ])
      else some (close "rate limit violation" counted)

  -- `on_call`.
  unfoldable pub on_call :
      SessionHandler ConnectMsg ClientMsg ClientRequest ServerMsg ServerResponse
      → SessionHandler ConnectMsg ClientMsg ClientRequest ServerMsg ServerResponse
  unfolding close
  on_call h = close "session error" h

-- `Drop`: the death signal of the session is set.
unfoldable pub drop : ℕ → Token.Deaths → Token.Deaths
drop id deaths = λ signal. if signal == id then true else deaths signal
