-- ===== src/Authentication/Payload.antt =====
-- The signed payload of src/authentication/backend.rs: it always fits its buffer, and determines
-- the expiry and the client.
use bevy_simplenet.Common.{
  ℕ, ◌^◌, ◌<◌, ◌≡◌, refl, sym, ◌∙◌, ◌++◌, some, arith, length, length-append, append-nil, some_inj,
}
use bevy_simplenet.Common.Bytes.{
  Bytes, to_le_bytes, length-to_le_bytes, to_le_bytes_injective, append_split,
}
use bevy_simplenet.Authentication.{
  auth_token_domain_separator, auth_token_payload_bytes, auth_token_payload,
}

-- The bytes without the writer.
abbrev pub payload_bytes : ℕ → ℕ → Bytes
payload_bytes expiry id =
    ((auth_token_domain_separator ++ to_le_bytes 2 0) ++ to_le_bytes 8 expiry) ++ to_le_bytes 16 id

pub auth_token_payload-eq :
    (expiry id : ℕ) → auth_token_payload expiry id ≡ some (payload_bytes expiry id)
unfolding auth_token_payload
auth_token_payload-eq expiry id =
    rw (length-to_le_bytes 2 0, length-to_le_bytes 8 expiry, length-to_le_bytes 16 id)
      (simp append-nil)

-- Writing the payload never fails, and yields 48 bytes.
pub auth_token_payload_total :
    (expiry id : ℕ)
    → (p : Bytes) × (auth_token_payload expiry id ≡ some p) × (length p ≡ auth_token_payload_bytes)
auth_token_payload_total expiry id = (
  payload_bytes expiry id,
  auth_token_payload-eq expiry id,
  omega (
    arith,
    length-append ((auth_token_domain_separator ++ to_le_bytes 2 0) ++ to_le_bytes 8 expiry)
        (to_le_bytes 16 id),
    length-append (auth_token_domain_separator ++ to_le_bytes 2 0) (to_le_bytes 8 expiry),
    length-append auth_token_domain_separator (to_le_bytes 2 0),
    length-to_le_bytes 2 0,
    length-to_le_bytes 8 expiry,
    length-to_le_bytes 16 id,
  ),
)

-- Two tokens of equal payload have equal expiry and client, where expiries are 64-bit and clients
-- 128-bit numbers.
pub auth_token_payload_injective :
    (expiry expiry' id id' : ℕ)
    → expiry < 2 ^ 64
    → expiry' < 2 ^ 64
    → id < 2 ^ 128
    → id' < 2 ^ 128
    → auth_token_payload expiry id ≡ auth_token_payload expiry' id'
    → (expiry ≡ expiry') × (id ≡ id')
auth_token_payload_injective expiry expiry' id id' h h' k k' e =
    (to_le_bytes_injective 8 expiry expiry' h h' expiries, to_le_bytes_injective 16 id id' k k' ids)
  where
    header : ℕ → Bytes
    header x = (auth_token_domain_separator ++ to_le_bytes 2 0) ++ to_le_bytes 8 x

    header_length : (x : ℕ) → length (header x) ≡ 32
    header_length x = omega (
      arith,
      length-append (auth_token_domain_separator ++ to_le_bytes 2 0) (to_le_bytes 8 x),
      length-append auth_token_domain_separator (to_le_bytes 2 0),
      length-to_le_bytes 2 0,
      length-to_le_bytes 8 x,
    )

    same : payload_bytes expiry id ≡ payload_bytes expiry' id'
    same = some_inj (sym (auth_token_payload-eq expiry id) ∙ e ∙ auth_token_payload-eq expiry' id')

    parts : (header expiry ≡ header expiry') × (to_le_bytes 16 id ≡ to_le_bytes 16 id')
    parts =
        append_split (header expiry) (to_le_bytes 16 id) (header expiry') (to_le_bytes 16 id')
          (header_length expiry ∙ sym (header_length expiry')) same

    ids : to_le_bytes 16 id ≡ to_le_bytes 16 id'
    ids = parts.1

    expiries : to_le_bytes 8 expiry ≡ to_le_bytes 8 expiry'
    expiries =
        (append_split (auth_token_domain_separator ++ to_le_bytes 2 0) (to_le_bytes 8 expiry)
          (auth_token_domain_separator ++ to_le_bytes 2 0) (to_le_bytes 8 expiry') refl parts.0).1
