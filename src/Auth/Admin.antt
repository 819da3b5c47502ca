-- ===== src/Auth/Admin.antt =====
-- The routes of ecn/api.py on API keys, which only an administrator may call, and `list_keys` of
-- ecn/auth.py. The 503 of the routes and that of `require_role` have a constructor each.
use ecn.Common.{
  String, ◌≡◌, ◌≢◌, refl, sym, inl, inr, true, false, Option, none, some, List, [], ◌∷◌, map, arith,
  if◌then◌else◌, ok, raise, All, Result-cases, ap, ◌∙◌,
}
use mathlib.Core.Path.{subst}
use ecn.Common.Dict.{values}
use ecn.Auth.{
  ApiKey, ApiKeyRegistry, UnknownRole, Denied, Environment, TokenLibrary, issue, revoke,
  lookup_secret, verify_jwt_and_get_role, bearer_of, check,
}
use ecn.Auth.Access.{check-ok}
use ecn.Common.Text.{listed}

-- A key without its secret, as `list_keys` shows it
pub record KeyInfo : Type 0 where
  pub key_id : String
  pub role : String
  pub description : String
  pub tenant_id : Option String

abbrev pub key_info : ApiKey → KeyInfo
key_info k = record {
  key_id = k.key_id;
  role = k.role;
  description = k.description;
  tenant_id = k.tenant_id;
}

unfoldable pub list_keys : ApiKeyRegistry → List KeyInfo
list_keys r = map key_info (values r.keys_by_id)

pub record IssueApiKeyRequest : Type 0 where
  pub role : String
  pub description : String
  pub tenant_id : Option String

-- `HTTPException` of the routes
pub data AdminError : Type 0 where
  denied : Denied → AdminError
  registry_missing : AdminError
  invalid_role : UnknownRole → AdminError
  key_not_found : String → AdminError

pub data AdminResponse : Type 0 where
  issued : ApiKey → AdminResponse
  revoked : AdminResponse
  keys : List KeyInfo → AdminResponse
  refused : AdminError → AdminResponse

-- `require_admin`
abbrev pub admin_only : List String
admin_only = "admin" ∷ []

module _ (lib : TokenLibrary) where
  -- The headers of a request, and its time
  pub record Credentials : Type 0 where
    pub now : lib.Time
    pub x_api_key : Option String
    pub authorization : Option String

  -- A route behind `Depends(require_admin())`, with `get_registry`
  unfoldable pub require_admin :
      Environment
      → Credentials
      → (ApiKeyRegistry → ApiKeyRegistry × AdminResponse)
      → Option ApiKeyRegistry
      → Option ApiKeyRegistry × AdminResponse
  require_admin env who route registry =
      elim (check lib admin_only env who.now registry who.x_api_key who.authorization) [
        | raise d ↦ (registry, refused (denied d))
        | ok passed ↦ elim registry [
          | none ↦ (none, refused registry_missing)
          | some r ↦ (some (route r).0, (route r).1)
        ]
      ]

  -- `issue_api_key`, with a fresh identifier and a fresh secret
  unfoldable pub issue_api_key :
      String → String → IssueApiKeyRequest → ApiKeyRegistry → ApiKeyRegistry × AdminResponse
  issue_api_key uuid token body r =
      elim (issue uuid token body.role body.description body.tenant_id none none r) [
        | raise e ↦ (r, refused (invalid_role e))
        | ok (r', k) ↦ (r', issued k)
      ]

  -- `list_api_keys`
  unfoldable pub list_api_keys : ApiKeyRegistry → ApiKeyRegistry × AdminResponse
  list_api_keys r = (r, keys (list_keys r))

  -- `revoke_api_key`
  unfoldable pub revoke_api_key : String → ApiKeyRegistry → ApiKeyRegistry × AdminResponse
  revoke_api_key key_id r =
      let done = revoke key_id r in
      if done.1 then (done.0, revoked) else (done.0, refused (key_not_found key_id))

  pub data AdminRequest : Type 0 where
    issuing : String → String → IssueApiKeyRequest → AdminRequest
    listing : AdminRequest
    revoking : String → AdminRequest

  unfoldable pub route_of : AdminRequest → ApiKeyRegistry → ApiKeyRegistry × AdminResponse
  route_of (issuing uuid token body) = issue_api_key uuid token body
  route_of listing = list_api_keys
  route_of (revoking key_id) = revoke_api_key key_id

  -- Requests one after the other, with their answers
  unfoldable pub serve_all :
      Environment
      → List (Credentials × AdminRequest)
      → Option ApiKeyRegistry
      → Option ApiKeyRegistry × List AdminResponse
  serve_all env [] registry = (registry, [])
  serve_all env ((who, q) ∷ requests) registry =
      let served = require_admin env who (route_of q) registry in
      let rest = serve_all env requests served.0 in (rest.0, served.1 ∷ rest.1)

  -- The credentials of one who is no administrator: a token that does not verify to the role, and
  -- without a token no key of that role.
  pub record IsOutsider (env : Environment) (r : ApiKeyRegistry) (who : Credentials) : Type 0 where
    pub no_token :
        (token role : String)
        → bearer_of lib who.authorization ≡ some token
        → verify_jwt_and_get_role lib env who.now token ≡ ok role
        → listed role admin_only ≡ false
    pub no_key :
        (secret : String) (k : ApiKey)
        → bearer_of lib who.authorization ≡ none
        → who.x_api_key ≡ some secret
        → lookup_secret secret r ≡ some k
        → listed k.role admin_only ≡ false

  abbrev pub IsDenied : AdminResponse → Type 0
  IsDenied a = (d : Denied) × (a ≡ refused (denied d))

  check-IsOutsider :
      (env : Environment) (r : ApiKeyRegistry) (who : Credentials)
      → env.auth_enabled ≡ true
      → IsOutsider env r who
      → check lib admin_only env who.now (some r) who.x_api_key who.authorization ≢ ok tt
  check-IsOutsider env r who on outsider passed =
      elim (check-ok lib admin_only env who.now (some r) who.x_api_key who.authorization passed) [
        | inl off ↦ ground (arith, on, off)
        | inr (inl (token, role, borne, verified, allows)) ↦
            ground (arith, outsider.no_token token role borne verified, allows)
        | inr (inr (secret, r', k, no_token, shown, there, found, allows)) ↦
            let known : lookup_secret secret r ≡ some k =
              ap (λ o. elim o [ none ↦ none | some x ↦ lookup_secret secret x ]) there ∙ found in
            ground (arith, outsider.no_key secret k no_token shown known, allows)
      ]

  require_admin-IsOutsider :
      (env : Environment) (r : ApiKeyRegistry) (who : Credentials)
      (route : ApiKeyRegistry → ApiKeyRegistry × AdminResponse)
      → env.auth_enabled ≡ true
      → IsOutsider env r who
      → ((require_admin env who route (some r)).0 ≡ some r)
        × IsDenied (require_admin env who route (some r)).1
  unfolding require_admin
  require_admin-IsOutsider env r who route on outsider =
      let c = check lib admin_only env who.now (some r) who.x_api_key who.authorization in
      elim (Result-cases c) [
        | inl (tt, e) ↦ absurd (check-IsOutsider env r who on outsider e)
        | inr (d, e) ↦ (ground (arith, e), (d, ground (arith, e)))
      ]

  -- With authentication on, no sequence of requests by those who are no administrators changes the
  -- keys, and each request is denied.
  pub serve_all-locked :
      (env : Environment) (r : ApiKeyRegistry) (requests : List (Credentials × AdminRequest))
      → env.auth_enabled ≡ true
      → All (λ q. IsOutsider env r q.0) requests
      → ((serve_all env requests (some r)).0 ≡ some r)
        × All IsDenied (serve_all env requests (some r)).1
  unfolding serve_all
  serve_all-locked env r [] on outsiders = (refl, tt)
  serve_all-locked env r ((who, q) ∷ requests) on (outsider, outsiders) =
      let (same, denies) = require_admin-IsOutsider env r who (route_of q) on outsider in
      let (kept, all) = serve_all-locked env r requests on outsiders in
      let kept' : (serve_all env requests (require_admin env who (route_of q) (some r)).0).0
          ≡ some r =
        ap (λ o. (serve_all env requests o).0) same ∙ kept in
      (kept', (denies, subst (λ o. All IsDenied (serve_all env requests o).1) (sym same) all))
