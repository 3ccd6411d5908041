-- ===== src/Authentication/Verdict.antt =====
-- Which requests src/authentication/backend.rs accepts.
use bevy_simplenet.Common.{
  ℕ, ◌≡◌, refl, ◌↔◌, Bool, true, false, List, [], ◌∷◌, ◌++◌, some, arith, inl, inr, Option-cases,
  ◌==◌, ap, sym, ◌∙◌, some_inj, leb, ◌*◌, if◌then◌else◌,
}
use bevy_simplenet.Common.Bytes.{Bytes, bytes_eq_refl, eq_of_bytes_eq}
use bevy_simplenet.Authentication.{
  AuthToken, AuthRequest, Authenticator, SignatureScheme, Log, token_expired,
  auth_token_protocol_version, is_expired, authenticate, authenticate_none, authenticate_secret,
  authenticate_token, nanos_per_sec, check_signature, verify_token, version_mismatch,
  make_auth_token_from_expiry,
}
use bevy_simplenet.Authentication.Payload.{payload_bytes, auth_token_payload-eq}

module _ (scheme : SignatureScheme) where
  -- The requests that an authenticator admits, apart from the code: any request; one that shows
  -- the secret; one whose token has this version and a signature of its expiry and client.
  pub data Admits : Authenticator → AuthRequest → Type 0 where
    anyone : (r : AuthRequest) → Admits Authenticator.none r
    shown : (s : Bytes) (id : ℕ) → Admits (Authenticator.secret s) (AuthRequest.secret id s)
    signed :
        (pubkey : Bytes) (t : AuthToken) (key : scheme.VerifyingKey)
        → t.protocol_version ≡ auth_token_protocol_version
        → scheme.from_bytes pubkey ≡ some key
        → scheme.verify key (payload_bytes t.expiry t.client_id) t.signature ≡ true
        → Admits (Authenticator.token pubkey) (AuthRequest.token t)

  -- What the token branch answers once the payload is written.
  abbrev token_verdict : Bytes → AuthToken → List Log × Bool
  token_verdict pubkey t =
      if t.protocol_version == auth_token_protocol_version
      then check_signature scheme (scheme.from_bytes pubkey) (payload_bytes t.expiry t.client_id) t
      else (version_mismatch ∷ [], false)

  verify_token-eq :
      (pubkey : Bytes) (t : AuthToken)
      → verify_token scheme pubkey t ≡ some (token_verdict pubkey t)
  unfolding verify_token
  verify_token-eq pubkey t =
      let payload = auth_token_payload-eq t.expiry t.client_id in ground (arith, payload)

  -- The log of a token: the expiry first, then the failure.
  abbrev token_logs : ℕ → Bytes → AuthToken → List Log
  token_logs now pubkey t =
      (if is_expired now t then token_expired ∷ [] else []) ++ (token_verdict pubkey t).0

  authenticate_token-eq :
      (now : ℕ) (pubkey : Bytes) (t : AuthToken)
      → authenticate scheme now (Authenticator.token pubkey) (AuthRequest.token t)
        ≡ some (token_logs now pubkey t, (token_verdict pubkey t).1)
  unfolding authenticate_token authenticate
  authenticate_token-eq now pubkey t = rw (verify_token-eq pubkey t)

  -- `authenticate` never panics.
  pub authenticate_total :
      (now : ℕ) (a : Authenticator) (r : AuthRequest)
      → (logs : List Log) × (answer : Bool) × (authenticate scheme now a r ≡ some (logs, answer))
  unfolding authenticate
  authenticate_total now Authenticator.none r = ([], true, refl)
  authenticate_total now (Authenticator.secret s) r = ([], _, refl)
  authenticate_total now (Authenticator.token p) (AuthRequest.token t) =
      (token_logs now p t, (token_verdict p t).1, authenticate_token-eq now p t)
  authenticate_total now (Authenticator.token p) _ = ([], false, refl)

  signed_of_verdict :
      (pubkey : Bytes) (t : AuthToken)
      → (token_verdict pubkey t).1 ≡ true
      → Admits (Authenticator.token pubkey) (AuthRequest.token t)
  unfolding check_signature
  signed_of_verdict pubkey t h = elim (Option-cases (scheme.from_bytes pubkey)) [
    | inl e ↦ absurd (ground arith)
    | inr (key, e) ↦ signed pubkey t key (ground arith) e (ground arith)
  ]

  Admits_of_yes :
      (now : ℕ) (a : Authenticator) (r : AuthRequest) (logs : List Log)
      → authenticate scheme now a r ≡ some (logs, true)
      → Admits a r
  unfolding authenticate authenticate_secret authenticate_token
  Admits_of_yes now Authenticator.none r logs e = anyone r
  Admits_of_yes now (Authenticator.secret s) (AuthRequest.secret id given) logs e =
      let same : given ≡ s = eq_of_bytes_eq given s (ground arith) in rw same (shown s id)
  Admits_of_yes now (Authenticator.secret s) (AuthRequest.none id) logs e = absurd (ground arith)
  Admits_of_yes now (Authenticator.secret s) (AuthRequest.token t) logs e = absurd (ground arith)
  Admits_of_yes now (Authenticator.token p) (AuthRequest.none id) logs e = absurd (ground arith)
  Admits_of_yes now (Authenticator.token p) (AuthRequest.secret id s) logs e = absurd (ground arith)
  Admits_of_yes now (Authenticator.token p) (AuthRequest.token t) logs e =
      let whole = authenticate_token-eq now p t in
      signed_of_verdict p t (ap (λ (o : List Log × Bool). o.1) (some_inj (sym whole ∙ e)))

  yes_of_Admits :
      (now : ℕ) {a : Authenticator} {r : AuthRequest}
      → Admits a r
      → (logs : List Log) × (authenticate scheme now a r ≡ some (logs, true))
  unfolding authenticate authenticate_none authenticate_secret check_signature
  yes_of_Admits now (anyone r) = ([], refl)
  yes_of_Admits now (shown s id) = ([], rw (bytes_eq_refl s))
  yes_of_Admits now (signed p t key version valid good) =
      (token_logs now p t, ground (arith, authenticate_token-eq now p t))

  -- `authenticate` answers yes exactly to the requests that the authenticator admits.
  pub authenticate_iff :
      (now : ℕ) (a : Authenticator) (r : AuthRequest)
      → ((logs : List Log) × (authenticate scheme now a r ≡ some (logs, true))) ↔ Admits a r
  authenticate_iff now a r = (λ yes_r. Admits_of_yes now a r yes_r.0 yes_r.1, yes_of_Admits now)

  -- A token made for an expiry and a client is admitted by the authenticator of its public key at
  -- any time. So an expired token is, too: its expiry is logged and does not change the answer.
  pub make-authenticate :
      (now : ℕ) (privkey : Bytes) (expiry id : ℕ)
      → (t : AuthToken) × (make_auth_token_from_expiry scheme privkey expiry id ≡ some t)
        × (authenticate scheme now
              (Authenticator.token (scheme.verifying_key privkey))
              (AuthRequest.token t)
            ≡ some ((if leb (expiry * nanos_per_sec) now then token_expired ∷ [] else []), true))
  unfolding make_auth_token_from_expiry check_signature is_expired
  make-authenticate now privkey expiry id =
      let (key, valid, good) = scheme.verify_of_sign privkey (payload_bytes expiry id) in
      let t : AuthToken = record {
        protocol_version = auth_token_protocol_version;
        expiry = expiry;
        client_id = id;
        signature = scheme.sign privkey (payload_bytes expiry id);
      } in
      (
        t,
        rw (auth_token_payload-eq expiry id),
        ground (arith, authenticate_token-eq now (scheme.verifying_key privkey) t),
      )
