-- ===== src/TextPingPong/Volley.antt =====
-- The texts that a WASM client and its session send each other.
use bevy_simplenet.Common.{
  ℕ, ◌-◌, ◌/◌, ◌%◌, ◌^◌, ◌<◌, ◌≡◌, ap, ◌∙◌, Bool, ◌++◌, some, arith, Option-cases, inl, inr,
}
use bevy_simplenet.Common.Bytes.{Bytes, codes}
use bevy_simplenet.Common.Result.{ok}
use bevy_simplenet.Protocol.{EnvType, native, wasm}
use bevy_simplenet.Server.Session.{SessionHandler}
use bevy_simplenet.Server.Text.{on_text, on_prefix}
use bevy_simplenet.Client.Text
use bevy_simplenet.TextPingPong.{
  TextAction, RawMessage, split_once, from_str_radix, text_ping_fn, display, log_ping_pong_latency,
  nanos_per_milli,
}
use bevy_simplenet.TextPingPong.Decimal.{from_str_radix-display}
use bevy_simplenet.TextPingPong.Exchange.{split_ping, split_pong, always}

-- A pong with a number.
abbrev IsPong : Bytes → Type 0
IsPong text =
    (value : Bytes) × (n : ℕ) × (from_str_radix value ≡ some n) × (text ≡ codes "pong:" ++ value)

client_answer :
    (env : EnvType) (accepts : Bytes → Bool) (now : ℕ) (text answer : Bytes)
    → Text.on_text env accepts now text ≡ ok (some (TextAction.text answer))
    → IsPong answer
unfolding bevy_simplenet.Client.Text.on_text
client_answer native accepts now text answer h = absurd (ground (arith, h))
client_answer wasm accepts now text answer h = elim (Option-cases (split_once text)) [
  | inl nothing ↦ absurd (ground (arith, h, nothing))
  | inr ((var, value), found) ↦ elim (Option-cases (from_str_radix value)) [
    | inl nothing ↦ absurd (ground (arith, h, found, nothing))
    | inr (n, read) ↦ (value, n, read, ground (arith, h, found, read))
  ]
]

client_pong :
    (env : EnvType) (accepts : Bytes → Bool) (now : ℕ) (text answer : Bytes)
    → IsPong text
    → ¬ (Text.on_text env accepts now text ≡ ok (some (TextAction.text answer)))
unfolding bevy_simplenet.Client.Text.on_text
client_pong native accepts now text answer p h = absurd (ground (arith, h))
client_pong wasm accepts now text answer (value, n, read, pong) h =
    let found = ap split_once pong ∙ split_pong value in absurd (ground (arith, h, found, read))

client_exchange :
    (now there : ℕ) (value : Bytes) (n : ℕ)
    → from_str_radix value ≡ some n
    → (Text.on_text wasm always there (codes "ping:" ++ value)
        ≡ ok (some (TextAction.text (codes "pong:" ++ value))))
      × (Text.on_text wasm always now (codes "pong:" ++ value)
          ≡ ok (some (TextAction.latency (log_ping_pong_latency now n))))
unfolding bevy_simplenet.Client.Text.on_text
client_exchange now there value n read =
    (ground (arith, read, split_ping value), ground (arith, read, split_pong value))

milliseconds :
    (timestamp now : ℕ)
    → timestamp / nanos_per_milli < 2 ^ 64
    → log_ping_pong_latency now (timestamp / nanos_per_milli)
      ≡ (now - (timestamp - timestamp % nanos_per_milli)) / nanos_per_milli
unfolding log_ping_pong_latency
milliseconds timestamp now small = omega arith

module _ (ConnectMsg ClientMsg ClientRequest ServerMsg ServerResponse : Type 0) where
  session_answer :
      (accepts : Bytes → Bool) (now : ℕ) (text answer : Bytes)
      (h k : SessionHandler ConnectMsg ClientMsg ClientRequest ServerMsg ServerResponse)
      → on_text accepts now text h ≡ ok (k, some (TextAction.text answer))
      → IsPong answer
  unfolding on_text on_prefix
  session_answer accepts now text answer h k e = elim (Option-cases (split_once text)) [
    | inl nothing ↦ absurd (ground (arith, e, nothing))
    | inr ((var, value), found) ↦ elim (Option-cases (from_str_radix value)) [
      | inl nothing ↦ absurd (ground (arith, e, found, nothing))
      | inr (n, read) ↦ (value, n, read, ground (arith, e, found, read))
    ]
  ]

  session_pong :
      (accepts : Bytes → Bool) (now : ℕ) (text answer : Bytes)
      (h k : SessionHandler ConnectMsg ClientMsg ClientRequest ServerMsg ServerResponse)
      → IsPong text
      → ¬ (on_text accepts now text h ≡ ok (k, some (TextAction.text answer)))
  unfolding on_text on_prefix
  session_pong accepts now text answer h k (value, n, read, pong) e =
      let found = ap split_once pong ∙ split_pong value in absurd (ground (arith, e, found, read))

  -- The second text answers the first, at a client or at a session, whatever else they do.
  pub data Answers (text answer : Bytes) : Type 0 where
    client :
        (env : EnvType) (accepts : Bytes → Bool) (now : ℕ)
        → Text.on_text env accepts now text ≡ ok (some (TextAction.text answer))
        → Answers text answer
    session :
        (accepts : Bytes → Bool) (now : ℕ)
        (h k : SessionHandler ConnectMsg ClientMsg ClientRequest ServerMsg ServerResponse)
        → on_text accepts now text h ≡ ok (k, some (TextAction.text answer))
        → Answers text answer

  Answers-IsPong : (text answer : Bytes) → Answers text answer → IsPong answer
  Answers-IsPong text answer (Answers.client env accepts now e) =
      client_answer env accepts now text answer e
  Answers-IsPong text answer (Answers.session accepts now h k e) =
      session_answer accepts now text answer h k e

  IsPong-unanswered : (text answer : Bytes) → IsPong text → ¬ Answers text answer
  IsPong-unanswered text answer p (Answers.client env accepts now e) =
      client_pong env accepts now text answer p e
  IsPong-unanswered text answer p (Answers.session accepts now h k e) =
      session_pong accepts now text answer h k p e

  -- Every exchange of texts ends: no text that a client or a session sends as an answer is answered
  -- in turn, by whichever of them receives it, in whatever state and at whatever time.
  pub Answers-end : (a b c : Bytes) → Answers a b → ¬ Answers b c
  Answers-end a b c p = IsPong-unanswered b c (Answers-IsPong a b p)

  session_exchange :
      (now there : ℕ) (value : Bytes) (n : ℕ)
      (h : SessionHandler ConnectMsg ClientMsg ClientRequest ServerMsg ServerResponse)
      → h.env_type ≡ wasm
      → from_str_radix value ≡ some n
      → (on_text always there (codes "ping:" ++ value) h
          ≡ ok (h, some (TextAction.text (codes "pong:" ++ value))))
        × (on_text always now (codes "pong:" ++ value) h
            ≡ ok (h, some (TextAction.latency (log_ping_pong_latency now n))))
  unfolding on_text on_prefix
  session_exchange now there value n h w read =
      (ground (arith, w, read, split_ping value), ground (arith, w, read, split_pong value))

  -- A ping carries its time there and back: what `text_ping_fn` sends is answered by a WASM client
  -- and by the session of one with one and the same pong, and whichever of them gets the pong then
  -- traces the whole milliseconds since the millisecond of the ping, or 0 where its clock is not
  -- there yet. The time of the ping is less than 2 ^ 64 milliseconds.
  pub ping_pong :
      (timestamp now there : ℕ) (ping : Bytes)
      (h : SessionHandler ConnectMsg ClientMsg ClientRequest ServerMsg ServerResponse)
      → text_ping_fn timestamp ≡ RawMessage.text ping
      → timestamp / nanos_per_milli < 2 ^ 64
      → h.env_type ≡ wasm
      → let pong = codes "pong:" ++ display (timestamp / nanos_per_milli) in
        let since =
          TextAction.latency
            ((now - (timestamp - timestamp % nanos_per_milli)) / nanos_per_milli) in
        ((Text.on_text wasm always there ping ≡ ok (some (TextAction.text pong)))
          × (on_text always now pong h ≡ ok (h, some since)))
        × ((on_text always there ping h ≡ ok (h, some (TextAction.text pong)))
            × (Text.on_text wasm always now pong ≡ ok (some since)))
  unfolding text_ping_fn
  ping_pong timestamp now there ping h sent small w =
      let is : ping ≡ codes "ping:" ++ display (timestamp / nanos_per_milli) =
        ground (arith, sent) in
      let read = from_str_radix-display (timestamp / nanos_per_milli) (omega arith) in
      let (pings, traces) =
        client_exchange now there (display (timestamp / nanos_per_milli))
          (timestamp / nanos_per_milli) read in
      let (answers, logs) =
        session_exchange now there (display (timestamp / nanos_per_milli))
          (timestamp / nanos_per_milli) h w read in
      let since = milliseconds timestamp now small in
      ((rw is pings, rw (← since) logs), (rw is answers, rw (← since) traces))
