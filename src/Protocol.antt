-- ===== src/Protocol.antt =====
-- src/common.rs and src/common_internal.rs: what goes over the wire. The five message types of a
-- `ChannelPack` are parameters of the types and functions that use them.
use bevy_simplenet.Common.{ℕ, String, Option, none, some, if◌then◌else◌}
use bevy_simplenet.Common.Text.{str_eq}
use bevy_simplenet.Authentication.{AuthRequest}

pub data EnvType : Type 0 where
  native wasm : EnvType

unfoldable pub env_type_as_str : EnvType → String
env_type_as_str native = "0"
env_type_as_str wasm = "1"

unfoldable pub env_type_from_str : String → Option EnvType
env_type_from_str s = if str_eq s "0" then some native else if str_eq s "1" then some wasm else none

-- The keys of the two query elements.
abbrev pub version_msg_key : String
version_msg_key = "v"

abbrev pub type_msg_key : String
type_msg_key = "t"

pub record ClientAuthMsg (ConnectMsg : Type 0) : Type 0 where
  pub auth : AuthRequest
  pub msg : ConnectMsg

-- What a client may receive.
pub data ClientMetaEvent (ServerMsg ServerResponse : Type 0) : Type 0 where
  msg : ServerMsg → ClientMetaEvent ServerMsg ServerResponse
  response : ServerResponse → ℕ → ClientMetaEvent ServerMsg ServerResponse
  ack : ℕ → ClientMetaEvent ServerMsg ServerResponse
  reject : ℕ → ClientMetaEvent ServerMsg ServerResponse

-- What a server may receive.
pub data ServerMetaEvent (ConnectMsg ClientMsg ClientRequest : Type 0) : Type 0 where
  authenticate : ClientAuthMsg ConnectMsg → ServerMetaEvent ConnectMsg ClientMsg ClientRequest
  msg : ClientMsg → ServerMetaEvent ConnectMsg ClientMsg ClientRequest
  request : ClientRequest → ℕ → ServerMetaEvent ConnectMsg ClientMsg ClientRequest
