-- ===== src/Server/Token.antt =====
-- src/server/request_token.rs and src/server/session_utils.rs. A death signal is an atomic that a
-- session and its tokens share: its address is the session's id, and the signals that are set are
-- a function of the address. A rejector is the id of its session.
use bevy_simplenet.Common.{ℕ, Bool, true, false, List, [], ◌∷◌, Option, none, some}
use bevy_simplenet.Common.Frames.{CloseFrame}
use bevy_simplenet.Protocol.{EnvType, ClientMetaEvent}

-- Which death signals are set.
abbrev pub Deaths : Type 0
Deaths = ℕ → Bool

-- `SessionDeathSignal::is_dead`.
unfoldable pub is_dead : Deaths → ℕ → Bool
is_dead deaths signal = deaths signal

pub record RequestToken : Type 0 where
  pub client_id : ℕ
  pub request_id : ℕ
  pub rejector : Option ℕ
  pub death_signal : Option ℕ

unfoldable pub new : ℕ → ℕ → ℕ → ℕ → RequestToken
new client_id request_id rejector death_signal = record {
  client_id = client_id;
  request_id = request_id;
  rejector = some rejector;
  death_signal = some death_signal;
}

-- `destination_is_dead`; `none` is the panic of `unwrap`.
unfoldable pub destination_is_dead : Deaths → RequestToken → Option Bool
unfolding is_dead
destination_is_dead deaths t = elim t.death_signal [
  | none ↦ none
  | some signal ↦ some (is_dead deaths signal)
]

-- A rejection: the session that it goes out by, and the request.
pub record Rejection : Type 0 where
  pub session : ℕ
  pub request : ℕ

-- `Drop`: the rejections that it sends.
unfoldable pub drop : Deaths → RequestToken → Option (List Rejection)
unfolding destination_is_dead
drop deaths t = elim t.rejector [
  | none ↦ some []
  | some session ↦ elim (destination_is_dead deaths t) [
    | none ↦ none
    | some true ↦ some []
    | some false ↦ some (record { session = session; request = t.request_id } ∷ [])
  ]
]

-- `take`: the id and the signal, and the token that is dropped then.
unfoldable pub take : RequestToken → Option (ℕ × ℕ × RequestToken)
take t = elim t.death_signal [
  | none ↦ none
  | some signal ↦ some (t.request_id, signal, record t { rejector = none; death_signal = none })
]

-- `SessionCommand`.
pub data SessionCommand (ConnectMsg ServerMsg ServerResponse : Type 0) : Type 0 where
  add : ℕ → ConnectMsg → EnvType → SessionCommand ConnectMsg ServerMsg ServerResponse
  send :
      ClientMetaEvent ServerMsg ServerResponse
      → Option ℕ
      → Option ℕ
      → SessionCommand ConnectMsg ServerMsg ServerResponse
  close : Option CloseFrame → SessionCommand ConnectMsg ServerMsg ServerResponse

-- `ClientTargetMsg<ClientId, SessionCommand>`.
pub record ClientTargetMsg (ConnectMsg ServerMsg ServerResponse : Type 0) : Type 0 where
  pub id : ℕ
  pub msg : SessionCommand ConnectMsg ServerMsg ServerResponse

-- `ServerReport`.
pub data ServerReport (ConnectMsg : Type 0) : Type 0 where
  connected : EnvType → ConnectMsg → ServerReport ConnectMsg
  disconnected : ServerReport ConnectMsg

-- `ServerEvent`.
pub data ServerEvent (ConnectMsg ClientMsg ClientRequest : Type 0) : Type 0 where
  report : ServerReport ConnectMsg → ServerEvent ConnectMsg ClientMsg ClientRequest
  msg : ClientMsg → ServerEvent ConnectMsg ClientMsg ClientRequest
  request : RequestToken → ClientRequest → ServerEvent ConnectMsg ClientMsg ClientRequest

-- `ClientSourceMsg<ClientId, ServerEvent>`.
pub record ClientSourceMsg (ConnectMsg ClientMsg ClientRequest : Type 0) : Type 0 where
  pub id : ℕ
  pub msg : ServerEvent ConnectMsg ClientMsg ClientRequest
