-- ===== src/Server/Texts.antt =====
-- What `on_text` of src/server/session_handler.rs can come to.
use bevy_simplenet.Common.{
  ℕ, ◌≡◌, String, Bool, Option, arith, inl, inr, ◌⊎◌, Option-cases, Bool-cases,
}
use bevy_simplenet.Common.Bytes.{Bytes, codes, bytes_eq}
use bevy_simplenet.Common.Result.{ok}
use bevy_simplenet.Protocol.{EnvType, native, wasm}
use bevy_simplenet.TextPingPong.{TextAction, split_once, from_str_radix}
use bevy_simplenet.Server.Session.{SessionHandler, close}
use bevy_simplenet.Server.Text.{on_text, on_prefix}

module _ {ConnectMsg ClientMsg ClientRequest ServerMsg ServerResponse : Type 0} where
  -- A text is answered, or closes the session.
  pub on_text-outcome :
      (env : EnvType) (accepts : Bytes → Bool) (now : ℕ) (text : Bytes)
      (h h' : SessionHandler ConnectMsg ClientMsg ClientRequest ServerMsg ServerResponse)
      (act : Option TextAction)
      → h.env_type ≡ env
      → on_text accepts now text h ≡ ok (h', act)
      → (h' ≡ h) ⊎ ((reason : String) × (h' ≡ close reason h))
  unfolding on_text on_prefix
  on_text-outcome native accepts now text h h' act w e =
      inr ("text not allowed", ground (arith, w, e))
  on_text-outcome wasm accepts now text h h' act w e = elim (Option-cases (split_once text)) [
    | inl nothing ↦ inr ("only ping/pong text allowed", ground (arith, w, e, nothing))
    | inr ((var, value), found) ↦ elim (Option-cases (from_str_radix value)) [
      | inl nothing ↦ inr ("only timestamp ping/pong allowed", ground (arith, w, e, found, nothing))
      | inr (n, read) ↦ elim (Bool-cases (bytes_eq var (codes "ping"))) [
        | inl ping ↦ inl (ground (arith, w, e, found, read, ping))
        | inr no_ping ↦ elim (Bool-cases (bytes_eq var (codes "pong"))) [
          | inl pong ↦ inl (ground (arith, w, e, found, read, no_ping, pong))
          | inr neither ↦ inr (
            "only ping/pong prefixes allowed",
            ground (arith, w, e, found, read, no_ping, neither),
          )
        ]
      ]
    ]
  ]
