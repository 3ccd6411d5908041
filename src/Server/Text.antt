-- ===== src/Server/Text.antt =====
-- src/server/session_handler.rs: `on_text`, the ping-pong of WASM clients.
use bevy_simplenet.Common.{ℕ, Bool, Option, none, some, if◌then◌else◌, ◌++◌}
use bevy_simplenet.Common.Bytes.{Bytes, bytes_eq, codes}
use bevy_simplenet.Common.Result.{Result, ok, err}
use bevy_simplenet.Protocol.{native, wasm}
use bevy_simplenet.Server.Session.{SessionHandler, close}
use bevy_simplenet.TextPingPong.{
  TextAction, split_once, from_str_radix, log_ping_pong_latency, SendError, send_error,
}

module _ {ConnectMsg ClientMsg ClientRequest ServerMsg ServerResponse : Type 0} where
  -- The `match var`, for a text that has a colon and a number.
  unfoldable pub on_prefix :
      (Bytes → Bool)
      → ℕ
      → Bytes
      → Bytes
      → ℕ
      → SessionHandler ConnectMsg ClientMsg ClientRequest ServerMsg ServerResponse
      → Result SendError (
          SessionHandler ConnectMsg ClientMsg ClientRequest ServerMsg ServerResponse
          × Option TextAction)
  unfolding close log_ping_pong_latency
  on_prefix accepts now var value timestamp h =
      let pong = codes "pong:" ++ value in
      if bytes_eq var (codes "ping")
      then (if accepts pong then ok (h, some (TextAction.text pong)) else err send_error)
      else if bytes_eq var (codes "pong")
      then ok (h, some (TextAction.latency (log_ping_pong_latency now timestamp)))
      else ok (close "only ping/pong prefixes allowed" h, none)

  -- `on_text`. Whether the session takes a text is an argument, and so is the time.
  unfoldable pub on_text :
      (Bytes → Bool)
      → ℕ
      → Bytes
      → SessionHandler ConnectMsg ClientMsg ClientRequest ServerMsg ServerResponse
      → Result SendError (
          SessionHandler ConnectMsg ClientMsg ClientRequest ServerMsg ServerResponse
          × Option TextAction)
  unfolding close on_prefix
  on_text accepts now text h = elim h.env_type [
    | native ↦ ok (close "text not allowed" h, none)
    | wasm ↦ elim (split_once text) [
      | none ↦ ok (close "only ping/pong text allowed" h, none)
      | some (var, value) ↦ elim (from_str_radix value) [
        | none ↦ ok (close "only timestamp ping/pong allowed" h, none)
        | some timestamp ↦ on_prefix accepts now var value timestamp h
      ]
    ]
  ]
