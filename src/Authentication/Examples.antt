-- ===== src/Authentication/Examples.antt =====
-- Tests and instances for src/authentication, with a toy signature scheme.
use bevy_simplenet.Common.{
  ℕ, ◌≡◌, ◌↔◌, refl, Bool, true, length, List, [], ◌∷◌, ◌++◌, some, arith, leb,
}
use bevy_simplenet.Common.Bytes.{Bytes, bytes_eq, bytes_eq_refl, codes, to_le_bytes}
use bevy_simplenet.Authentication.{
  AuthToken, AuthRequest, Authenticator, SignatureScheme, Log, token_expired, auth_token_payload,
  auth_token_payload_bytes, is_expired, authenticate, make_auth_token_from_expiry,
  make_auth_token_from_lifetime,
}
use bevy_simplenet.Authentication.Payload.{auth_token_payload_injective, auth_token_payload_total}
use bevy_simplenet.Authentication.Verdict.{
  Admits, authenticate_total, authenticate_iff, make-authenticate,
}
use bevy_simplenet.Authentication.Expiry.{make_auth_token_from_lifetime-is_expired}

-- The signature is the key and the message.
abbrev toy : SignatureScheme
toy = record {
  VerifyingKey = Bytes;
  from_bytes = some;
  verify = λ k m s. bytes_eq s (k ++ m);
  sign = λ k m. k ++ m;
  verifying_key = λ k. k;
  verify_of_sign = λ k m. (k, refl, bytes_eq_refl (k ++ m));
}

abbrev privkey : Bytes
privkey = 1 ∷ 2 ∷ []

auth_token_payload_injective_example : (◌≡◌ {A = ℕ} 5 5) × (◌≡◌ {A = ℕ} 7 7)
auth_token_payload_injective_example =
    auth_token_payload_injective 5 5 7 7 (omega arith) (omega arith) (omega arith) (omega arith)
      refl

authenticate_iff_example :
    ((logs : List Log) × (authenticate toy 0
          (Authenticator.secret (1 ∷ []))
          (AuthRequest.secret 3 (1 ∷ []))
        ≡ some (logs, true)))
    ↔ Admits toy (Authenticator.secret (1 ∷ [])) (AuthRequest.secret 3 (1 ∷ []))
authenticate_iff_example =
    authenticate_iff toy 0 (Authenticator.secret (1 ∷ [])) (AuthRequest.secret 3 (1 ∷ []))

make-authenticate_example :
    (t : AuthToken) × (make_auth_token_from_expiry toy privkey 1 3 ≡ some t)
    × (authenticate toy 2000000000 (Authenticator.token privkey) (AuthRequest.token t)
        ≡ some (token_expired ∷ [], true))
make-authenticate_example = make-authenticate toy 2000000000 privkey 1 3

abbrev lived : AuthToken
lived = record {
  protocol_version = 0;
  expiry = 5;
  client_id = 3;
  signature =
      privkey
      ++ ((codes "BevySimplenetAuthToken" ++ 0 ∷ 0 ∷ []) ++ to_le_bytes 8 5)
      ++ to_le_bytes 16 3;
}

lived_made : make_auth_token_from_lifetime toy 2500000000 privkey 3 3 ≡ some lived
unfolding make_auth_token_from_lifetime make_auth_token_from_expiry auth_token_payload to_le_bytes
lived_made = refl

make_auth_token_from_lifetime-is_expired_example :
    is_expired 4900000000 lived ≡ leb 5000000000 4900000000
make_auth_token_from_lifetime-is_expired_example =
    make_auth_token_from_lifetime-is_expired toy 2500000000 privkey 3 3 lived lived_made 4900000000

auth_token_payload_total_example :
    (p : Bytes) × (auth_token_payload 5 3 ≡ some p) × (length p ≡ auth_token_payload_bytes)
auth_token_payload_total_example = auth_token_payload_total 5 3

authenticate_total_example :
    (logs : List Log) × (answer : Bool) × (authenticate toy 0
        (Authenticator.token privkey)
        (AuthRequest.token lived)
      ≡ some (logs, answer))
authenticate_total_example =
    authenticate_total toy 0 (Authenticator.token privkey) (AuthRequest.token lived)
