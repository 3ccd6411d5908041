-- ===== src/TextPingPong.antt =====
-- src/text_ping_pong.rs, and what its users read a text with. A text is its bytes; a `Duration` is
-- its number of nanoseconds.
pub mod Decimal
pub mod Exchange
pub mod Volley
mod Examples
use bevy_simplenet.Common.{
  ℕ, zero, suc, ◌+◌, ◌-◌, ◌*◌, ◌/◌, ◌%◌, ◌^◌, List, [], ◌∷◌, ◌++◌, Option, none, some, Bool, ◌||◌,
  ltb, ◌==◌, if◌then◌else◌,
}
use bevy_simplenet.Common.Bytes.{Bytes, codes}

-- `str::split_once(':')`, at the first colon.
unfoldable pub split_once : Bytes → Option (Bytes × Bytes)
split_once [] = none
split_once (c ∷ text) =
    let rest = split_once text in
    if c == b':'
    then some ([], text)
    else elim rest [ none ↦ none | some (var, value) ↦ some (c ∷ var, value) ]

-- The loop of `u128::from_str_radix` in base 10, behind the digits that are read.
unfoldable pub scan : Bytes → ℕ → Option ℕ
scan [] n = some n
scan (c ∷ text) n =
    let next = n * 10 + (c - b'0') in
    let rest = scan text next in
    if ltb c b'0' || ltb b'9' c || ltb (2 ^ 128 - 1) next then none else rest

-- `u128::from_str_radix(text, 10)`: a plus sign may stand before the digits.
unfoldable pub from_str_radix : Bytes → Option ℕ
unfolding scan
from_str_radix [] = none
from_str_radix (c ∷ []) = scan (c ∷ []) 0
from_str_radix (c ∷ d ∷ text) = if c == b'+' then scan (d ∷ text) 0 else scan (c ∷ d ∷ text) 0

-- The decimal digits of a number, before those of `out`.
unfoldable pub digits : ℕ → ℕ → Bytes → Bytes
digits zero n out = out
digits (suc fuel) n out =
    let last = (b'0' + n % 10) ∷ out in
    let rest = digits fuel (n / 10) last in if n / 10 == 0 then last else rest

-- A `u128` as `format!` writes it; it has at most 39 digits.
unfoldable pub display : ℕ → Bytes
unfolding digits
display n = digits 39 n []

abbrev pub nanos_per_milli : ℕ
nanos_per_milli = 1_000_000

-- `ezsockets::RawMessage`; `other` is a message that is no text.
pub data RawMessage : Type 0 where
  text other : Bytes → RawMessage

unfoldable pub text_ping_fn : ℕ → RawMessage
unfolding display
text_ping_fn timestamp = RawMessage.text (codes "ping:" ++ display (timestamp / nanos_per_milli))

-- The latency in milliseconds that `log_ping_pong_latency` traces, from the time since the epoch.
unfoldable pub log_ping_pong_latency : ℕ → ℕ → ℕ
log_ping_pong_latency now timestamp = (now - timestamp % 2 ^ 64 * nanos_per_milli) / nanos_per_milli

-- What a ping or a pong leads to: a pong is sent, or the latency is traced.
pub data TextAction : Type 0 where
  text : Bytes → TextAction
  latency : ℕ → TextAction

-- A text that the socket does not take.
pub data SendError : Type 0 where
  send_error : SendError

-- `ezsockets::SocketConfig`.
pub record SocketConfig : Type 0 where
  pub heartbeat : ℕ
  pub timeout : ℕ
  pub heartbeat_ping_msg_fn : ℕ → RawMessage
