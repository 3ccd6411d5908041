-- ===== src/Client/Text.antt =====
-- src/client/client_handler.rs: `on_text`, the ping-pong of WASM clients.
use bevy_simplenet.Common.{ℕ, Bool, Option, none, some, if◌then◌else◌, ◌++◌}
use bevy_simplenet.Common.Bytes.{Bytes, bytes_eq, codes}
use bevy_simplenet.Common.Result.{Result, ok, err}
use bevy_simplenet.Protocol.{EnvType, native, wasm}
use bevy_simplenet.TextPingPong.{
  TextAction, split_once, from_str_radix, log_ping_pong_latency, SendError, send_error,
}

-- `on_text`. The environment of the client is an argument, with whether the socket takes a text
-- and the time. The state of the client stays as it is.
unfoldable pub on_text : EnvType → (Bytes → Bool) → ℕ → Bytes → Result SendError (Option TextAction)
unfolding log_ping_pong_latency
on_text native accepts now text = ok none
on_text wasm accepts now text = elim (split_once text) [
  | none ↦ ok none
  | some (var, value) ↦ elim (from_str_radix value) [
    | none ↦ ok none
    | some timestamp ↦
        let pong = codes "pong:" ++ value in
        if bytes_eq var (codes "ping")
        then (if accepts pong then ok (some (TextAction.text pong)) else err send_error)
        else if bytes_eq var (codes "pong")
        then ok (some (TextAction.latency (log_ping_pong_latency now timestamp)))
        else ok none
  ]
]
