-- ===== src/TextPingPong/Exchange.antt =====
-- The exchange of pings and pongs between `on_text` of the client and of the session.
use bevy_simplenet.Common.{
  ℕ, ◌≡◌, ◌↔◌, ◌⊎◌, inl, inr, refl, sym, ap, ◌∙◌, Bool, true, false, [], ◌∷◌, ◌++◌, none, some,
  arith, String, Bool-cases, Option-cases, ◌==◌,
}
use bevy_simplenet.Common.Bytes.{Bytes, codes, bytes_eq, eq_of_bytes_eq}
use bevy_simplenet.Common.Result.{ok}
use bevy_simplenet.Protocol.{wasm}
use bevy_simplenet.Server.Session.{SessionHandler, close}
use bevy_simplenet.Server.Text.{on_text, on_prefix}
use bevy_simplenet.TextPingPong.{TextAction, split_once, from_str_radix, log_ping_pong_latency}

pub split_ping : (value : Bytes) → split_once (codes "ping:" ++ value) ≡ some (codes "ping", value)
unfolding split_once
split_ping value = refl

pub split_pong : (value : Bytes) → split_once (codes "pong:" ++ value) ≡ some (codes "pong", value)
unfolding split_once
split_pong value = refl

-- What is split at its first colon is put together again.
pub split_once-append :
    (text var value : Bytes) → split_once text ≡ some (var, value) → text ≡ var ++ b':' ∷ value
unfolding split_once
split_once-append [] var value h = absurd (ground (arith, h))
split_once-append (c ∷ text) var value h = elim (Bool-cases (c == b':')) [
  | inl colon ↦ ground (arith, h)
  | inr other ↦ elim (Option-cases (split_once text)) [
    | inl nothing ↦ absurd (ground (arith, h))
    | inr ((v, w), found) ↦ let rest = split_once-append text v w found in ground (arith, rest)
  ]
]

-- A ping or a pong with a number.
pub IsPingPong : Bytes → Type 0
IsPingPong text =
    (value : Bytes) × (n : ℕ) × (from_str_radix value ≡ some n)
    × ((text ≡ codes "ping:" ++ value) ⊎ (text ≡ codes "pong:" ++ value))

-- What the handlers find in such a text.
pub IsPingPong-split :
    (text : Bytes)
    → IsPingPong text
    → (var value : Bytes) × (n : ℕ) × (split_once text ≡ some (var, value))
      × (from_str_radix value ≡ some n)
      × ((var ≡ codes "ping") ⊎ (var ≡ codes "pong"))
unfolding IsPingPong
IsPingPong-split text (value, n, read, inl ping) =
    (_, value, n, ap split_once ping ∙ split_ping value, read, inl refl)
IsPingPong-split text (value, n, read, inr pong) =
    (_, value, n, ap split_once pong ∙ split_pong value, read, inr refl)

not_prefixed :
    (text var value : Bytes)
    → split_once text ≡ some (var, value)
    → bytes_eq var (codes "ping") ≡ false
    → bytes_eq var (codes "pong") ≡ false
    → ¬ IsPingPong text
not_prefixed text var value found no_ping no_pong p =
    let (v, _, _, again, _, prefix) = IsPingPong-split text p in
    let same : v ≡ var = ground (arith, again, found) in
    elim prefix [
      | inl ping ↦
          absurd (
            ground
              (arith, ap (λ (v : Bytes). bytes_eq v (codes "ping")) (sym same ∙ ping), no_ping))
      | inr pong ↦
          absurd (
            ground
              (arith, ap (λ (v : Bytes). bytes_eq v (codes "pong")) (sym same ∙ pong), no_pong))
    ]

abbrev pub always : Bytes → Bool
always _ = true

module _ (ConnectMsg ClientMsg ClientRequest ServerMsg ServerResponse : Type 0) where
  outcomes :
      (now : ℕ) (text : Bytes)
      (h : SessionHandler ConnectMsg ClientMsg ClientRequest ServerMsg ServerResponse)
      → h.env_type ≡ wasm
      → (IsPingPong text × (act : TextAction) × (on_text always now text h ≡ ok (h, some act)))
        ⊎ ((¬ IsPingPong text)
            × (reason : String) × (on_text always now text h ≡ ok (close reason h, none)))
  unfolding on_text on_prefix IsPingPong
  outcomes now text h w = elim (Option-cases (split_once text)) [
    | inl nothing ↦ inr (
      λ p.
          let (_, _, _, found, _, _) = IsPingPong-split text p in
          absurd (ground (arith, nothing, found)),
      "only ping/pong text allowed",
      ground (arith, w, nothing),
    )
    | inr ((var, value), found) ↦ elim (Option-cases (from_str_radix value)) [
      | inl nothing ↦ inr (
        λ p.
            let (_, v, _, again, number, _) = IsPingPong-split text p in
            absurd (ground (arith, nothing, found, again, number)),
        "only timestamp ping/pong allowed",
        ground (arith, w, found, nothing),
      )
      | inr (n, read) ↦ elim (Bool-cases (bytes_eq var (codes "ping"))) [
        | inl ping ↦
            let same =
              split_once-append text var value found
              ∙ ap (λ (v : Bytes). v ++ b':' ∷ value) (eq_of_bytes_eq var (codes "ping") ping) in
            inl (
              (value, n, read, inl same),
              TextAction.text (codes "pong:" ++ value),
              ground (arith, w, found, read, ping),
            )
        | inr no_ping ↦ elim (Bool-cases (bytes_eq var (codes "pong"))) [
          | inl pong ↦
              let same =
                split_once-append text var value found
                ∙ ap (λ (v : Bytes). v ++ b':' ∷ value) (eq_of_bytes_eq var (codes "pong") pong) in
              inl (
                (value, n, read, inr same),
                TextAction.latency (log_ping_pong_latency now n),
                ground (arith, w, found, read, no_ping, pong),
              )
          | inr neither ↦ inr (
            not_prefixed text var value found no_ping neither,
            "only ping/pong prefixes allowed",
            ground (arith, w, found, read, no_ping, neither),
          )
        ]
      ]
    ]
  ]

  -- While the session of a WASM client takes texts: a text is a ping or a pong with a number iff the
  -- session stays as it is and answers it or traces its latency, and is none iff the session closes.
  pub on_text_iff :
      (now : ℕ) (text : Bytes)
      (h : SessionHandler ConnectMsg ClientMsg ClientRequest ServerMsg ServerResponse)
      → h.env_type ≡ wasm
      → (IsPingPong text ↔ (act : TextAction) × (on_text always now text h ≡ ok (h, some act)))
        × ((¬ IsPingPong text)
            ↔ (reason : String) × (on_text always now text h ≡ ok (close reason h, none)))
  on_text_iff now text h w = elim (outcomes now text h w) [
    | inl (good, act, answered) ↦ (
      (λ _. (act, answered), λ _. good),
      (λ bad. absurd (bad good), λ (_, closed). absurd (ground (arith, answered, closed))),
    )
    | inr (bad, reason, closed) ↦ (
      (λ good. absurd (bad good), λ (_, answered). absurd (ground (arith, answered, closed))),
      (λ _. (reason, closed), λ _. bad),
    )
  ]
