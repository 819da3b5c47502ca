-- ===== src/Auth/Token.antt =====
-- What an accepted bearer token has shown.
use ecn.Common.{String, ◌≡◌, refl, true, false, ◌||◌, some, List, [], ◌∷◌, arith, need, ok}
use ecn.Common.Text.{listed}
use ecn.Auth.{
  all_roles, aud_list, Environment, Claims, TokenLibrary, is_given, is_expired, is_too_early,
  is_issuer, role_claim, validate_claims, verify_parts, verify_split, verify_jwt_and_get_role,
}

module _ (lib : TokenLibrary) where
  open lib use {Bytes, Time, split, hmac_sha256, b64decode, compare_digest, loads, earlier}

  -- What the claims of an accepted token say.
  pub record IsValid (env : Environment) (now : Time) (claims : Claims Time) (role : String)
      : Type 0 where
    pub current : is_expired lib claims.exp now || is_too_early lib claims.nbf now ≡ false
    pub issued_by : is_given env.jwt_issuer ≡ true → is_issuer lib env.jwt_issuer claims.iss ≡ true
    pub meant_for :
        is_given env.jwt_audience ≡ true → listed env.jwt_audience (aud_list claims.aud) ≡ true
    pub claimed : role_claim claims.role claims.ecn_role ≡ some role
    pub known : listed role all_roles ≡ true

  validate_claims-IsValid :
      (env : Environment) (now : Time) (claims : Claims Time) (role : String)
      → validate_claims lib env now claims ≡ ok role
      → IsValid env now claims role
  unfolding validate_claims
  validate_claims-IsValid env now claims role e = record {
    current = ground (arith, e);
    issued_by = λ g. ground (arith, e, g);
    meant_for = λ g. ground (arith, e, g);
    claimed = ground (arith, e);
    known = ground (arith, e);
  }

  verify_parts-IsValid :
      (env : Environment) (now : Time) (header payload signature role : String)
      → verify_parts lib env now header payload signature ≡ ok role
      → (sig : Bytes) × (body : Bytes) × (claims : Claims Time) × (b64decode signature ≡ some sig)
        × (compare_digest (hmac_sha256 env.jwt_secret header payload) sig ≡ true)
        × (b64decode payload ≡ some body)
        × (loads body ≡ some claims)
        × IsValid env now claims role
  unfolding verify_parts
  verify_parts-IsValid env now header payload signature role e =
      let (sig, decoded) = need (b64decode signature) (λ n. ground (arith, e)) in
      let (body, read) = need (b64decode payload) (λ n. ground (arith, e)) in
      let (claims, loaded) = need (loads body) (λ n. ground (arith, e, read)) in
      (
        sig,
        body,
        claims,
        decoded,
        ground (arith, e, decoded),
        read,
        loaded,
        validate_claims-IsValid env now claims role (ground (arith, e, decoded, read, loaded)),
      )

  split_in_three :
      (env : Environment) (now : Time) (parts : List String) (role : String)
      → verify_split lib env now parts ≡ ok role
      → (header : String) × (payload : String) × (signature : String) × (parts
          ≡ header ∷ payload ∷ signature ∷ [])
        × (verify_parts lib env now header payload signature ≡ ok role)
  unfolding verify_split
  split_in_three env now (h ∷ (p ∷ (s ∷ []))) role e = (h, p, s, refl, e)
  split_in_three env now _ role e = absurd (cc)

  -- A token that is accepted with a role has three parts, its signature is the HMAC of the first two
  -- under the secret, which is configured, and its claims are current, from the issuer and for the
  -- audience where those are configured, and hold that role, one of the known ones.
  pub verify_jwt_and_get_role-IsValid :
      (env : Environment) (now : Time) (token role : String)
      → verify_jwt_and_get_role lib env now token ≡ ok role
      → (is_given env.jwt_secret ≡ true)
        × ((header : String) × (payload : String) × (signature : String) × (split token
              ≡ header ∷ payload ∷ signature ∷ [])
            × ((sig : Bytes) × (body : Bytes) × (claims : Claims Time) × (b64decode signature
                  ≡ some sig)
                × (compare_digest (hmac_sha256 env.jwt_secret header payload) sig ≡ true)
                × (b64decode payload ≡ some body)
                × (loads body ≡ some claims)
                × IsValid env now claims role))
  unfolding verify_jwt_and_get_role
  verify_jwt_and_get_role-IsValid env now token role e =
      let (header, payload, signature, parts, accepted_parts) =
        split_in_three env now (split token) role (ground (arith, e)) in
      (
        ground (arith, e),
        (
          header,
          payload,
          signature,
          parts,
          verify_parts-IsValid env now header payload signature role accepted_parts,
        ),
      )
