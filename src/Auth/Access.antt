-- ===== src/Auth/Access.antt =====
-- Who gets in, and that a revoked key does not.
use ecn.Common.{
  String, ◌≡◌, refl, ◌≢◌, ◌↔◌, ◌⊎◌, inl, inr, true, false, Option, none, some, List, arith,
  Bool-cases, Option-cases, need, ok, accepted,
}
use ecn.Common.Dict.{lookup, contains, erase, lookup-insert, lookup-erase}
use ecn.Common.Text.{eq_iff, listed}
use ecn.Auth.{
  ApiKey, ApiKeyRegistry, store_key, revoke, lookup_secret, Environment, TokenLibrary,
  verify_jwt_and_get_role, bearer_of, check_api_key, check_token, check,
}

-- Each secret leads to a key that holds it and stands under its identifier, and each key that stands
-- under an identifier holds it and is found by its secret.
pub record IsRegistry (r : ApiKeyRegistry) : Type 0 where
  pub by_secret :
      (secret : String) (k : ApiKey)
      → lookup secret r.keys_by_secret ≡ some k
      → (k.key ≡ secret) × (lookup k.key_id r.keys_by_id ≡ some k)
  pub by_id :
      (key_id : String) (k : ApiKey)
      → lookup key_id r.keys_by_id ≡ some k
      → (k.key_id ≡ key_id) × (lookup k.key r.keys_by_secret ≡ some k)

-- Storing a key whose identifier and secret are both new keeps the registry in order.
pub store_key-IsRegistry :
    (k : ApiKey) (r : ApiKeyRegistry)
    → IsRegistry r
    → lookup k.key_id r.keys_by_id ≡ none
    → lookup k.key r.keys_by_secret ≡ none
    → IsRegistry (store_key k r)
unfolding store_key
store_key-IsRegistry k r reg new_id new_secret = record {
  by_secret = λ secret j e. ground (
    arith,
    e,
    lookup-insert secret k.key k r.keys_by_secret,
    lookup-insert j.key_id k.key_id k r.keys_by_id,
    reg.by_secret secret j,
    new_id,
    new_secret,
    eq_iff secret k.key,
    eq_iff j.key_id k.key_id,
  );
  by_id = λ key_id j e. ground (
    arith,
    e,
    lookup-insert key_id k.key_id k r.keys_by_id,
    lookup-insert j.key k.key k r.keys_by_secret,
    reg.by_id key_id j,
    new_id,
    new_secret,
    eq_iff key_id k.key_id,
    eq_iff j.key k.key,
  );
}

-- A registry without a key that stood in it.
abbrev without : String → ApiKey → ApiKeyRegistry → ApiKeyRegistry
without key_id k r = record {
  keys_by_id = erase key_id r.keys_by_id;
  keys_by_secret = erase k.key r.keys_by_secret;
}

removed :
    (key_id : String) (k : ApiKey) (r : ApiKeyRegistry)
    → IsRegistry r
    → lookup key_id r.keys_by_id ≡ some k
    → IsRegistry (without key_id k r)
removed key_id k r reg found = record {
  by_secret = λ secret j e. ground (
    arith,
    e,
    found,
    lookup-erase secret k.key r.keys_by_secret,
    lookup-erase j.key_id key_id r.keys_by_id,
    reg.by_secret secret j,
    reg.by_id key_id k,
    eq_iff secret k.key,
    eq_iff j.key_id key_id,
  );
  by_id = λ other j e. ground (
    arith,
    e,
    found,
    lookup-erase other key_id r.keys_by_id,
    lookup-erase j.key k.key r.keys_by_secret,
    reg.by_id other j,
    reg.by_id key_id k,
    eq_iff other key_id,
    eq_iff j.key k.key,
  );
}

-- Revoking an identifier reports whether a key stood under it, keeps the registry in order, and
-- afterwards no secret leads to a key with that identifier, while every key with another one is found
-- as before.
pub revoke-IsRegistry :
    (key_id : String) (r : ApiKeyRegistry)
    → IsRegistry r
    → IsRegistry (revoke key_id r).0
      × ((revoke key_id r).1 ≡ contains key_id r.keys_by_id)
      × ((secret : String) (k : ApiKey)
          → (lookup_secret secret (revoke key_id r).0 ≡ some k)
            ↔ ((lookup_secret secret r ≡ some k) × (k.key_id ≢ key_id)))
unfolding revoke lookup_secret
revoke-IsRegistry key_id r reg = elim (Option-cases (lookup key_id r.keys_by_id)) [
  | inl missing ↦
      rw (missing, revoke, contains)
        (
          reg,
          refl,
          λ secret k. (
            λ e. (e, λ same. ground (arith, e, same, missing, reg.by_secret secret k)),
            λ h. h.0,
          ),
        )
  | inr (k, found) ↦
      rw (found, revoke, contains)
        (
          removed key_id k r reg found,
          refl,
          λ secret j. (
            λ e. (
              ground (
                arith,
                e,
                found,
                lookup-erase secret k.key r.keys_by_secret,
                reg.by_secret secret j,
                reg.by_id key_id k,
                eq_iff secret k.key,
              ),
              λ same. ground (
                arith,
                e,
                same,
                found,
                lookup-erase secret k.key r.keys_by_secret,
                reg.by_secret secret j,
                reg.by_id key_id k,
                eq_iff secret k.key,
              ),
            ),
            λ h. ground (
              arith,
              h.0,
              h.1,
              found,
              lookup-erase secret k.key r.keys_by_secret,
              reg.by_secret secret j,
              reg.by_id key_id k,
              eq_iff secret k.key,
            ),
          ),
        )
]

module _ (lib : TokenLibrary) where
  check_token-ok :
      (allowed : List String) (env : Environment) (now : lib.Time) (token : String)
      → check_token lib allowed env now token ≡ ok tt
      → (role : String) × (verify_jwt_and_get_role lib env now token ≡ ok role)
        × (listed role allowed ≡ true)
  unfolding check_token
  check_token-ok allowed env now token e =
      let (role, verified) =
        accepted (verify_jwt_and_get_role lib env now token) (λ c n. ground arith) in
      (role, verified, ground arith)

  check_api_key-ok :
      (allowed : List String) (r : ApiKeyRegistry) (x_api_key : Option String)
      → check_api_key lib allowed r x_api_key ≡ ok tt
      → (secret : String) × (k : ApiKey) × (x_api_key ≡ some secret)
        × (lookup_secret secret r ≡ some k)
        × (listed k.role allowed ≡ true)
  unfolding check_api_key
  check_api_key-ok allowed r x_api_key e =
      let (secret, given) = need x_api_key (λ n. ground arith) in
      let (k, found) = need (lookup_secret secret r) (λ n. ground arith) in
      (secret, k, given, found, ground arith)

-- A request is let in only if authentication is off, or its token verifies to an allowed role, or it
-- has no token and its API key is in the registry with an allowed role.
pub check-ok :
    (lib : TokenLibrary) (allowed : List String) (env : Environment) (now : lib.Time)
    (registry : Option ApiKeyRegistry) (x_api_key authorization : Option String)
    → check lib allowed env now registry x_api_key authorization ≡ ok tt
    → (env.auth_enabled ≡ false)
      ⊎ ((token : String) × (role : String) × (bearer_of lib authorization ≡ some token)
          × (verify_jwt_and_get_role lib env now token ≡ ok role)
          × (listed role allowed ≡ true))
      ⊎ ((secret : String) × (r : ApiKeyRegistry) × (k : ApiKey) × (bearer_of lib authorization
            ≡ none)
          × (x_api_key ≡ some secret)
          × (registry ≡ some r)
          × (lookup_secret secret r ≡ some k)
          × (listed k.role allowed ≡ true))
unfolding check
check-ok lib allowed env now registry x_api_key authorization e =
    elim (Bool-cases env.auth_enabled) [
      | inr off ↦ inl off
      | inl on ↦ elim (Option-cases registry) [
        | inl missing ↦ absurd (ground (arith, e, on, missing))
        | inr (r, there) ↦ elim (Option-cases (bearer_of lib authorization)) [
          | inr (token, borne) ↦
              let passed : check_token lib allowed env now token ≡ ok tt =
                ground (arith, e, on, there, borne) in
              let (role, verified, allows) = check_token-ok lib allowed env now token passed in
              inr (inl (token, role, borne, verified, allows))
          | inl no_token ↦
              let passed : check_api_key lib allowed r x_api_key ≡ ok tt =
                ground (arith, e, on, there, no_token) in
              let (secret, k, given, found, allows) =
                check_api_key-ok lib allowed r x_api_key passed in
              inr (inr (secret, r, k, no_token, given, there, found, allows))
        ]
      ]
    ]
