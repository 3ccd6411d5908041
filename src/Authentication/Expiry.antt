-- ===== src/Authentication/Expiry.antt =====
-- The lifetime of a token, src/authentication/common.rs and src/authentication/backend.rs.
use bevy_simplenet.Common.{ℕ, ◌+◌, ◌*◌, ◌/◌, ◌≡◌, leb, some, arith}
use bevy_simplenet.Common.Bytes.{Bytes}
use bevy_simplenet.Authentication.{
  AuthToken, SignatureScheme, nanos_per_sec, is_expired, make_auth_token_from_expiry,
  make_auth_token_from_lifetime,
}
use bevy_simplenet.Authentication.Payload.{auth_token_payload-eq}

module _ (scheme : SignatureScheme) where
  made_expiry :
      (privkey : Bytes) (expiry id : ℕ) (t : AuthToken)
      → make_auth_token_from_expiry scheme privkey expiry id ≡ some t
      → t.expiry ≡ expiry
  unfolding make_auth_token_from_expiry
  made_expiry privkey expiry id t e =
      let payload = auth_token_payload-eq expiry id in ground (arith, payload)

  -- A token made for a lifetime is expired exactly from the last whole second of its end on.
  pub make_auth_token_from_lifetime-is_expired :
      (now : ℕ) (privkey : Bytes) (lifetime id : ℕ) (t : AuthToken)
      → make_auth_token_from_lifetime scheme now privkey lifetime id ≡ some t
      → (u : ℕ)
      → is_expired u t ≡ leb ((now + lifetime * nanos_per_sec) / nanos_per_sec * nanos_per_sec) u
  unfolding make_auth_token_from_lifetime is_expired
  make_auth_token_from_lifetime-is_expired now privkey lifetime id t e u =
      let sum = now + lifetime * nanos_per_sec in
      let stamp : t.expiry ≡ sum / nanos_per_sec =
        made_expiry privkey (sum / nanos_per_sec) id t (ground arith) in
      ground arith
