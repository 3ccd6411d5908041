-- ===== src/Authentication.antt =====
-- src/authentication/common.rs and src/authentication/backend.rs. A `Duration` is its number of
-- nanoseconds. The current time since `UNIX_EPOCH` (0 where the clock is before it) is an argument.
-- The ed25519 library is the parameter `SignatureScheme`.
pub mod Payload
pub mod Verdict
pub mod Expiry
pub mod Examples
use bevy_simplenet.Common.{
  ℕ, ◌+◌, ◌-◌, ◌*◌, ◌/◌, ◌≡◌, Bool, true, false, List, [], ◌∷◌, ◌++◌, Option, some, leb, ltb, ◌==◌,
  if◌then◌else◌, length, ◌>>=◌,
}
use bevy_simplenet.Common.Bytes.{Bytes, bytes_eq, codes, to_le_bytes}
use bevy_simplenet.RateLimiter.{duration_max}

pub record AuthToken : Type 0 where
  pub protocol_version : ℕ  -- u16
  pub expiry : ℕ  -- u64, seconds
  pub client_id : ℕ  -- u128
  pub signature : Bytes

abbrev pub nanos_per_sec : ℕ
nanos_per_sec = 1000000000

unfoldable pub expiration_time : AuthToken → ℕ
expiration_time t = t.expiry * nanos_per_sec

-- `saturating_sub` is the truncated difference.
unfoldable pub time_until_expiry : ℕ → AuthToken → ℕ
unfolding expiration_time
time_until_expiry now t = expiration_time t - now

unfoldable pub is_expired : ℕ → AuthToken → Bool
unfolding time_until_expiry
is_expired now t = time_until_expiry now t == 0

pub data AuthRequest : Type 0 where
  none : ℕ → AuthRequest
  secret : ℕ → Bytes → AuthRequest
  token : AuthToken → AuthRequest

unfoldable pub client_id : AuthRequest → ℕ
client_id (AuthRequest.none id) = id
client_id (AuthRequest.secret id _) = id
client_id (AuthRequest.token t) = t.client_id

abbrev pub auth_token_protocol_version : ℕ
auth_token_protocol_version = 0

abbrev pub auth_token_domain_separator : Bytes
auth_token_domain_separator = codes "BevySimplenetAuthToken"

-- domain_sep | protocol_version | expiry_secs | client_id
abbrev pub auth_token_payload_bytes : ℕ
auth_token_payload_bytes = 22 + 2 + 8 + 16

-- A `Cursor` over a buffer of fixed size: what is written, and the room behind it.
pub record Cursor : Type 0 where
  pub written : Bytes
  pub room : ℕ

-- `write_all`, which fails where the room does not suffice.
write_all : Cursor → Bytes → Option Cursor
write_all w bytes =
    if leb (length bytes) w.room
    then some (record { written = w.written ++ bytes; room = w.room - length bytes })
    else Option.none

write_auth_token_payload : Cursor → ℕ → ℕ → Option Cursor
unfolding write_all
write_auth_token_payload writer expiry id = do
  w₁ ← write_all writer auth_token_domain_separator
  w₂ ← write_all w₁ (to_le_bytes 2 auth_token_protocol_version)
  w₃ ← write_all w₂ (to_le_bytes 8 expiry)
  write_all w₃ (to_le_bytes 16 id)

zeros : ℕ → Bytes
zeros ℕ.zero = []
zeros (ℕ.suc n) = 0 ∷ zeros n

-- The whole buffer; `none` is the panic of `expect`.
unfoldable pub auth_token_payload : ℕ → ℕ → Option Bytes
unfolding write_auth_token_payload zeros
auth_token_payload expiry id = do
  w ← write_auth_token_payload (record { written = []; room = auth_token_payload_bytes }) expiry id
  some (w.written ++ zeros w.room)

-- What the code uses of ed25519_dalek. `sign_of_verify` is the scheme's correctness.
pub record SignatureScheme : Type 1 where
  pub VerifyingKey : Type 0
  pub from_bytes : Bytes → Option VerifyingKey
  pub verify : VerifyingKey → Bytes → Bytes → Bool
  -- `SigningKey::from_bytes(privkey).sign(payload).to_bytes()`
  pub sign : Bytes → Bytes → Bytes
  -- The bytes of the public key of a private key.
  pub verifying_key : Bytes → Bytes
  pub verify_of_sign :
      (privkey message : Bytes)
      → (k : VerifyingKey) × (from_bytes (verifying_key privkey) ≡ some k)
        × (verify k message (sign privkey message) ≡ true)

-- The failures that `authenticate_token` logs.
pub data Log : Type 0 where
  token_expired version_mismatch invalid_key invalid_signature : Log

-- `Authenticator`.
pub data Authenticator : Type 0 where
  none : Authenticator
  secret : Bytes → Authenticator
  token : Bytes → Authenticator

authenticate_none : AuthRequest → Bool
authenticate_none _ = true

authenticate_secret : Bytes → AuthRequest → Bool
authenticate_secret expected (AuthRequest.secret _ given) = bytes_eq given expected
authenticate_secret expected _ = false

module _ (scheme : SignatureScheme) where
  open scheme use {VerifyingKey, from_bytes, verify, sign}

  -- The verdict on a signature, with the log of a failure.
  check_signature : Option VerifyingKey → Bytes → AuthToken → List Log × Bool
  check_signature Option.none payload t = (invalid_key ∷ [], false)
  check_signature (some verifier) payload t =
      if verify verifier payload t.signature then ([], true) else (invalid_signature ∷ [], false)

  -- The body after the expiry check; `none` is a panic.
  verify_token : Bytes → AuthToken → Option (List Log × Bool)
  unfolding check_signature
  verify_token pubkey t =
      if t.protocol_version == auth_token_protocol_version
      then (do
        payload ← auth_token_payload t.expiry t.client_id
        some (check_signature (from_bytes pubkey) payload t))
      else some (version_mismatch ∷ [], false)

  -- An expired token is logged, and the function goes on.
  authenticate_token : ℕ → Bytes → AuthRequest → Option (List Log × Bool)
  unfolding verify_token
  authenticate_token now pubkey (AuthRequest.token t) = do
    (logs, answer) ← verify_token pubkey t
    some ((if is_expired now t then token_expired ∷ [] else []) ++ logs, answer)
  authenticate_token now pubkey _ = some ([], false)

  unfoldable pub authenticate : ℕ → Authenticator → AuthRequest → Option (List Log × Bool)
  unfolding authenticate_none authenticate_secret authenticate_token
  authenticate now Authenticator.none request = some ([], authenticate_none request)
  authenticate now (Authenticator.secret s) request = some ([], authenticate_secret s request)
  authenticate now (Authenticator.token pubkey) request = authenticate_token now pubkey request

  unfoldable pub make_auth_token_from_expiry : Bytes → ℕ → ℕ → Option AuthToken
  make_auth_token_from_expiry privkey expiry id = do
    payload ← auth_token_payload expiry id
    some (record {
      protocol_version = auth_token_protocol_version;
      expiry = expiry;
      client_id = id;
      signature = sign privkey payload;
    })

  -- The sum of durations panics where it does not fit.
  unfoldable pub make_auth_token_from_lifetime : ℕ → Bytes → ℕ → ℕ → Option AuthToken
  make_auth_token_from_lifetime now privkey token_lifetime_secs id =
      let expiry = now + token_lifetime_secs * nanos_per_sec in
      if ltb duration_max expiry
      then Option.none
      else make_auth_token_from_expiry privkey (expiry / nanos_per_sec) id
