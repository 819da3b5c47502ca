-- ===== src/Auth/Tests.antt =====
-- A registry with one key, at concrete inputs.
use ecn.Common.{
  Bool-cases, inl, inr, List, All, sym, ap, ◌∙◌, arith, ℕ, String, ◌≡◌, refl, ◌⊎◌, true, false,
  Option, none, some, [], ◌∷◌, ltb, ok, raise,
}
use ecn.Common.Dict.{insert, erase, lookup}
use ecn.Common.Text.{str_eq, listed}
use ecn.Auth.{
  ApiKey, ApiKeyRegistry, store_key, issue, revoke, lookup_secret, invalid_or_revoked, Environment,
  one_audience, Claims, TokenLibrary, is_given, verify_jwt_and_get_role, verify_parts,
  validate_claims, verify_split, check_api_key, check_token, check, bearer_of,
}
use ecn.Auth.Token.{IsValid, verify_jwt_and_get_role-IsValid}
use ecn.Auth.Access.{check-ok}
use ecn.Auth.Admin.{
  AdminRequest, issuing, listing, revoking, IsDenied, IssueApiKeyRequest, Credentials, IsOutsider,
  admin_only, require_admin, issue_api_key, revoke_api_key, route_of, serve_all, serve_all-locked,
}
use ecn.Auth.Issued.{opened, closed, issue_api_key-opens}

program : Unit {0}
unfolding verify_split store_key issue revoke lookup_secret verify_jwt_and_get_role verify_parts
    validate_claims check_api_key check_token check bearer_of insert erase listed require_admin
    issue_api_key revoke_api_key route_of serve_all
program = tt

abbrev admin : ApiKey
admin = record { key_id = "K1"; key = "s1"; role = "admin"; description = ""; tenant_id = none }

abbrev auditor : ApiKey
auditor = record { key_id = "K2"; key = "s2"; role = "auditor"; description = ""; tenant_id = none }

abbrev empty : ApiKeyRegistry
empty = record { keys_by_id = []; keys_by_secret = [] }

abbrev one_key : ApiKeyRegistry
one_key = store_key admin empty

-- A key that is issued again under the same identifier leaves its old secret valid, also after the
-- identifier is revoked.
reissued :
    lookup_secret "s1" (revoke "K1" (store_key (record admin { key = "s3" }) one_key)).0
    ≡ some admin
unfolding program
reissued = refl

abbrev library : TokenLibrary
library = record {
  Bytes = String;
  Time = ℕ;
  lower = λ s. s;
  strip = λ s. s;
  split = λ token. token ∷ [];
  hmac_sha256 = λ secret header payload. payload;
  b64decode = λ s. some s;
  compare_digest = str_eq;
  loads = λ s. none;
  earlier = ltb;
}

abbrev environment : Environment
environment = record { auth_enabled = true; jwt_secret = "jwt"; jwt_issuer = ""; jwt_audience = "" }

revoked_is_denied :
    check library ("admin" ∷ []) environment 0 (some (revoke "K1" one_key).0) (some "s1") none
    ≡ raise invalid_or_revoked
unfolding program
revoked_is_denied = refl

abbrev no_header : Option String
no_header = none

abbrev sent : Option String
sent = some "s1"

check-ok_example :
    (environment.auth_enabled ≡ false)
    ⊎ ((token : String) × (role : String) × (bearer_of library no_header ≡ some token)
        × (verify_jwt_and_get_role library environment 0 token ≡ ok role)
        × (listed role ("admin" ∷ []) ≡ true))
    ⊎ ((secret : String) × (r : ApiKeyRegistry) × (k : ApiKey) × (bearer_of library no_header
          ≡ none)
        × (sent ≡ some secret)
        × (some one_key ≡ some r)
        × (lookup_secret secret r ≡ some k)
        × (listed k.role ("admin" ∷ []) ≡ true))
unfolding program
check-ok_example = check-ok library ("admin" ∷ []) environment 0 (some one_key) sent no_header refl

-- The scheme of the header is read in its lower case, and the token from place 7 on.
bearer : bearer_of library (some "bearer a.b.c") ≡ some "a.b.c"
unfolding program
bearer = refl

basic : bearer_of library (some "basic a.b.c") ≡ none
unfolding program
basic = refl

abbrev sso_claims : Claims ℕ
sso_claims = record {
  exp = some 9;
  nbf = none;
  iss = none;
  aud = some (one_audience "ecn");
  role = none;
  ecn_role = some "auditor";
}

abbrev sso : TokenLibrary
sso = record library { split = λ token. "h" ∷ "p" ∷ "p" ∷ []; loads = λ s. some sso_claims }

abbrev auditor_role : String
auditor_role = "auditor"

verify_jwt_and_get_role-IsValid_example :
    (is_given environment.jwt_secret ≡ true)
    × ((header : String) × (payload : String) × (signature : String) × (sso.split "h.p.p"
          ≡ header ∷ payload ∷ signature ∷ [])
        × ((sig : String) × (body : String) × (claims : Claims ℕ) × (sso.b64decode signature
              ≡ some sig)
            × (sso.compare_digest (sso.hmac_sha256 environment.jwt_secret header payload) sig
                ≡ true)
            × (sso.b64decode payload ≡ some body)
            × (sso.loads body ≡ some claims)
            × IsValid sso environment 5 claims auditor_role))
unfolding program
verify_jwt_and_get_role-IsValid_example =
    verify_jwt_and_get_role-IsValid sso environment 5 "h.p.p" auditor_role refl

abbrev auditors : ApiKeyRegistry
auditors = store_key auditor one_key

abbrev holder : Credentials library
holder = record { now = 0; x_api_key = some "s2"; authorization = none }

abbrev wish : IssueApiKeyRequest
wish = record { role = "submitter"; description = ""; tenant_id = none }

holder-IsOutsider : IsOutsider library environment auditors holder
unfolding program
holder-IsOutsider = record {
  no_token = λ token role borne verified. ground (arith, borne);
  no_key = λ secret k unborne shown found.
      let known : lookup_secret "s2" auditors ≡ some k =
        ap (λ o. elim o [ none ↦ none | some x ↦ lookup_secret x auditors ]) shown ∙ found in
      ap (λ o. elim o [ none ↦ false | some x ↦ listed x.role admin_only ]) (sym known);
}

abbrev attempts : List (Credentials library × AdminRequest library)
attempts = (holder, issuing "K3" "s3" wish) ∷ (holder, revoking "K1") ∷ (holder, listing) ∷ []

serve_all-locked_example :
    ((serve_all library environment attempts (some auditors)).0 ≡ some auditors)
    × All (IsDenied library) (serve_all library environment attempts (some auditors)).1
serve_all-locked_example =
    serve_all-locked library environment auditors attempts refl
      (holder-IsOutsider, (holder-IsOutsider, (holder-IsOutsider, tt)))

abbrev administrator : Credentials library
administrator = record { now = 0; x_api_key = some "s1"; authorization = none }

one_secret :
    (j : String) (x : ApiKey) → lookup j one_key.keys_by_id ≡ some x → str_eq x.key "s3" ≡ false
unfolding program
one_secret j x found = elim (Bool-cases (str_eq j "K1")) [
  | inl e ↦
      let same : some admin ≡ some x = ground (arith, e, found) in
      ap (λ o. elim o [ none ↦ false | some y ↦ str_eq y.key "s3" ]) (sym same)
  | inr e ↦ absurd (ground (arith, e, found))
]

abbrev between : List (Credentials library × AdminRequest library)
between = (administrator, issuing "K4" "s4" wish) ∷ (holder, listing) ∷ []

abbrev after : List (Credentials library × AdminRequest library)
after = (administrator, revoking "K4") ∷ []

abbrev registry : Option ApiKeyRegistry
registry = opened library environment administrator "K3" "s3" wish between one_key

-- The key "K3" is used after another is issued, and once more when both are revoked.
issue_api_key-opens_example :
    (check library ("submitter" ∷ "admin" ∷ []) environment 1 registry (some "s3") no_header
      ≡ ok tt)
    × (check library
          ("submitter" ∷ "admin" ∷ [])
          environment
          1
          (closed library environment administrator "K3" after registry)
          (some "s3")
          no_header
        ≡ raise invalid_or_revoked)
unfolding program
issue_api_key-opens_example =
    issue_api_key-opens library environment administrator administrator "K3" "s3" wish one_key
      between after 1 ("submitter" ∷ "admin" ∷ []) no_header refl refl refl refl one_secret refl
      ((refl, refl), (tt, tt)) refl (tt, tt)
