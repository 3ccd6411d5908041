-- ===== src/TextPingPong/Examples.antt =====
-- Tests and instances for src/text_ping_pong.rs.
use bevy_simplenet.Common.{ℕ, ◌≡◌, ◌↔◌, refl, [], ◌++◌, arith, none, some, String}
use bevy_simplenet.Common.Bytes.{codes}
use bevy_simplenet.Common.Result.{ok}
use bevy_simplenet.Protocol.{wasm}
use bevy_simplenet.Server.Session.{SessionHandler, close}
use bevy_simplenet.Server.Text.{on_text}
use bevy_simplenet.Authentication.{Authenticator}
use bevy_simplenet.RateLimiter
use bevy_simplenet.Client.Text
use bevy_simplenet.TextPingPong.{
  TextAction, RawMessage, text_ping_fn, split_once, from_str_radix, display, scan, digits,
}
use bevy_simplenet.TextPingPong.Exchange.{IsPingPong, on_text_iff, always}
use bevy_simplenet.TextPingPong.Volley.{Answers, Answers-end, ping_pong}

-- A ping of 1.5 milliseconds.
ping_text : text_ping_fn 1_500_000 ≡ RawMessage.text (codes "ping:1")
unfolding text_ping_fn display digits
ping_text = refl

reads_zero : from_str_radix (codes "00") ≡ some 0
unfolding from_str_radix scan
reads_zero = refl

reads_plus : from_str_radix (codes "+7") ≡ some 7
unfolding from_str_radix scan
reads_plus = refl

refuses_plus : from_str_radix (codes "+") ≡ none
unfolding from_str_radix scan
refuses_plus = refl

refuses_large : from_str_radix (codes "340282366920938463463374607431768211456") ≡ none
unfolding from_str_radix scan
refuses_large = refl

abbrev wasm_session : SessionHandler ℕ ℕ ℕ ℕ ℕ
wasm_session = record {
  authenticator = Authenticator.none;
  id = 1;
  client = none;
  max_msg_size = 100;
  env_type = wasm;
  rate_limit_tracker = RateLimiter.new RateLimiter.default_config;
  closes = [];
  commands = [];
  events = [];
}

on_text_iff_example :
    (IsPingPong (codes "ping:+5")
      ↔ (act : TextAction) × (on_text always 0 (codes "ping:+5") wasm_session
          ≡ ok (wasm_session, some act)))
    × ((¬ IsPingPong (codes "ping:+5"))
        ↔ (reason : String) × (on_text always 0 (codes "ping:+5") wasm_session
            ≡ ok (close reason wasm_session, none)))
on_text_iff_example = on_text_iff ℕ ℕ ℕ ℕ ℕ 0 (codes "ping:+5") wasm_session refl

answered :
    Text.on_text wasm always 0 (codes "ping:+5") ≡ ok (some (TextAction.text (codes "pong:+5")))
unfolding bevy_simplenet.Client.Text.on_text split_once from_str_radix scan
answered = refl

Answers-end_example : ¬ Answers ℕ ℕ ℕ ℕ ℕ (codes "pong:+5") (codes "pong:+5")
Answers-end_example =
    Answers-end ℕ ℕ ℕ ℕ ℕ (codes "ping:+5") (codes "pong:+5") (codes "pong:+5")
      (Answers.client wasm always 0 answered)

ping_pong_example :
    ((Text.on_text wasm always 0 (codes "ping:1")
        ≡ ok (some (TextAction.text (codes "pong:" ++ display 1))))
      × (on_text always 9_000_000 (codes "pong:" ++ display 1) wasm_session
          ≡ ok (wasm_session, some (TextAction.latency 8))))
    × ((on_text always 0 (codes "ping:1") wasm_session
          ≡ ok (wasm_session, some (TextAction.text (codes "pong:" ++ display 1))))
        × (Text.on_text wasm always 9_000_000 (codes "pong:" ++ display 1)
            ≡ ok (some (TextAction.latency 8))))
ping_pong_example =
    ping_pong ℕ ℕ ℕ ℕ ℕ 1_500_000 9_000_000 0 (codes "ping:1") wasm_session ping_text (omega arith)
      refl
