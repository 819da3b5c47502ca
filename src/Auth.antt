-- ===== src/Auth.antt =====
-- ecn/auth.py: the registry of API keys, in memory (`store=None`), and the check of a request. The
-- environment variables are an argument, already stripped; base64, the HMAC, the JSON decoder and
-- the clock are parameters, as are `uuid4` and `token_urlsafe`, whose values `issue` takes.
pub mod Access
pub mod Admin
pub mod Issued
pub mod Token
mod Tests
use ecn.Common.{
  String, Bool, true, false, ◌&&◌, not, Option, none, some, List, [], ◌∷◌, if◌then◌else◌, Result,
  ok, raise, ◌>>=◌, ◌>>◌, guard, or_raise,
}
use ecn.Common.Dict.{Dict, lookup, insert, erase}
use ecn.Common.Text.{str_eq, listed}
use Prim.Native.String.{slice, len}

abbrev pub all_roles : List String
all_roles = "admin" ∷ "submitter" ∷ "auditor" ∷ "readonly" ∷ []

pub record ApiKey : Type 0 where
  pub key_id : String
  pub key : String
  pub role : String
  pub description : String
  pub tenant_id : Option String

-- `_keys` and `_lookup`
pub record ApiKeyRegistry : Type 0 where
  pub keys_by_id : Dict ApiKey
  pub keys_by_secret : Dict ApiKey

pub record UnknownRole : Type 0 where
  pub role : String

-- `given or default`: an empty text counts as none.
abbrev pub given_or : Option String → String → String
given_or none default = default
given_or (some given) default = if str_eq given "" then default else given

unfoldable pub store_key : ApiKey → ApiKeyRegistry → ApiKeyRegistry
store_key k r = record {
  keys_by_id = insert k.key_id k r.keys_by_id;
  keys_by_secret = insert k.key k r.keys_by_secret;
}

-- `ApiKeyRegistry.issue`, with a fresh identifier and a fresh secret
unfoldable pub issue :
    String
    → String
    → String
    → String
    → Option String
    → Option String
    → Option String
    → ApiKeyRegistry
    → Result UnknownRole (ApiKeyRegistry × ApiKey)
issue uuid token role description tenant_id key_id secret r =
    let k : ApiKey = record {
      key_id = given_or key_id uuid;
      key = given_or secret token;
      role = role;
      description = description;
      tenant_id = tenant_id;
    } in
    if listed role all_roles then ok (store_key k r, k) else raise (record { role = role })

-- `ApiKeyRegistry.revoke`
unfoldable pub revoke : String → ApiKeyRegistry → ApiKeyRegistry × Bool
revoke key_id r = elim (lookup key_id r.keys_by_id) [
  | none ↦ (r, false)
  | some k ↦ (
    record {
      keys_by_id = erase key_id r.keys_by_id;
      keys_by_secret = erase k.key r.keys_by_secret;
    },
    true,
  )
]

-- `ApiKeyRegistry.lookup`
unfoldable pub lookup_secret : String → ApiKeyRegistry → Option ApiKey
lookup_secret secret r = lookup secret r.keys_by_secret

-- `HTTPException`, with its status and one constructor for each detail
pub data Denied : Type 0 where
  not_initialised missing_authentication invalid_or_revoked : Denied
  jwt_role_not_authorised role_not_authorised : String → Denied
  not_configured malformed bad_encoding bad_signature bad_payload expired not_yet_valid : Denied
  issuer_mismatch audience_mismatch missing_role : Denied

-- The environment variables of the module.
pub record Environment : Type 0 where
  pub auth_enabled : Bool
  pub jwt_secret : String
  pub jwt_issuer : String
  pub jwt_audience : String

-- The claim `aud`: a text or a list of texts
pub data Audience : Type 0 where
  one_audience : String → Audience
  audiences : List String → Audience

-- `aud_list`
abbrev pub aud_list : Option Audience → List String
aud_list none = "" ∷ []
aud_list (some (one_audience aud)) = aud ∷ []
aud_list (some (audiences auds)) = auds

-- The claims of a token that the code reads
pub record Claims (Time : Type 0) : Type 0 where
  pub exp : Option Time
  pub nbf : Option Time
  pub iss : Option String
  pub aud : Option Audience
  pub role : Option String
  pub ecn_role : Option String

pub record TokenLibrary : Type 1 where
  pub Bytes : Type 0
  pub Time : Type 0
  -- `str.lower` and `str.strip`
  pub lower : String → String
  pub strip : String → String
  -- `token.split(".")`
  pub split : String → List String
  -- `hmac.new(secret, f"{header}.{payload}", sha256).digest()`
  pub hmac_sha256 : String → String → String → Bytes
  -- `urlsafe_b64decode` after padding: none where it raises
  pub b64decode : String → Option Bytes
  pub compare_digest : Bytes → Bytes → Bool
  -- `json.loads`: none where it raises
  pub loads : Bytes → Option (Claims Time)
  -- `a < b` on times
  pub earlier : Time → Time → Bool

-- `claims.get("role") or claims.get("ecn_role")`
abbrev pub role_claim : Option String → Option String → Option String
role_claim none other = other
role_claim (some role) other = if str_eq role "" then other else some role

abbrev pub is_given : String → Bool
is_given text = not (str_eq text "")

module _ (lib : TokenLibrary) where
  open lib use {
    Bytes, Time, lower, strip, split, hmac_sha256, b64decode, compare_digest, loads, earlier,
  }

  abbrev pub is_expired : Option Time → Time → Bool
  is_expired none now = false
  is_expired (some exp) now = earlier exp now

  abbrev pub is_too_early : Option Time → Time → Bool
  is_too_early none now = false
  is_too_early (some nbf) now = earlier now nbf

  -- `claims.get("iss") != expected_iss`
  abbrev pub is_issuer : String → Option String → Bool
  is_issuer expected none = false
  is_issuer expected (some iss) = str_eq iss expected

  -- The checks on the claims, and the role that they give.
  unfoldable pub validate_claims : Environment → Time → Claims Time → Result Denied String
  validate_claims env now claims = do
    guard (not (is_expired claims.exp now)) expired
    guard (not (is_too_early claims.nbf now)) not_yet_valid
    guard (not (is_given env.jwt_issuer && not (is_issuer env.jwt_issuer claims.iss)))
        issuer_mismatch
    guard (not (is_given env.jwt_audience && not (listed env.jwt_audience (aud_list claims.aud))))
        audience_mismatch
    role ← or_raise (role_claim claims.role claims.ecn_role) missing_role
    guard (is_given role && listed role all_roles) missing_role
    ok role

  -- The part of `_verify_jwt_and_get_role` after the split into three parts.
  unfoldable pub verify_parts : Environment → Time → String → String → String → Result Denied String
  verify_parts env now header_b64 payload_b64 sig_b64 = do
    actual_sig ← or_raise (b64decode sig_b64) bad_encoding
    guard (compare_digest (hmac_sha256 env.jwt_secret header_b64 payload_b64) actual_sig)
        bad_signature
    payload_bytes ← or_raise (b64decode payload_b64) bad_payload
    claims ← or_raise (loads payload_bytes) bad_payload
    validate_claims env now claims

  -- `len(parts) != 3`, and the parts
  unfoldable pub verify_split : Environment → Time → List String → Result Denied String
  verify_split env now (header_b64 ∷ (payload_b64 ∷ (sig_b64 ∷ []))) =
      verify_parts env now header_b64 payload_b64 sig_b64
  verify_split env now _ = raise malformed

  -- `_verify_jwt_and_get_role`
  unfoldable pub verify_jwt_and_get_role : Environment → Time → String → Result Denied String
  verify_jwt_and_get_role env now token = do
    guard (is_given env.jwt_secret) not_configured
    verify_split env now (split token)

  -- The API key of `require_role`.
  unfoldable pub check_api_key :
      List String → ApiKeyRegistry → Option String → Result Denied (Unit {0})
  check_api_key allowed_roles registry x_api_key = do
    secret ← or_raise x_api_key missing_authentication
    guard (is_given secret) missing_authentication
    api_key ← or_raise (lookup_secret secret registry) invalid_or_revoked
    guard (listed api_key.role allowed_roles) (role_not_authorised api_key.role)

  -- The bearer token of `require_role`.
  unfoldable pub check_token : List String → Environment → Time → String → Result Denied (Unit {0})
  check_token allowed_roles env now token = do
    role ← verify_jwt_and_get_role env now token
    guard (listed role allowed_roles) (jwt_role_not_authorised role)

  -- The token of an `Authorization` header that begins with `bearer `, in any case: seven characters
  -- of one byte each.
  unfoldable pub bearer_of : Option String → Option String
  bearer_of none = none
  bearer_of (some authorization) =
      if str_eq (slice (lower authorization) 0 7) "bearer "
      then some (strip (slice authorization 7 (len authorization)))
      else none

  -- `require_role(*allowed_roles)` on the two headers of a request
  unfoldable pub check :
      List String
      → Environment
      → Time
      → Option ApiKeyRegistry
      → Option String
      → Option String
      → Result Denied (Unit {0})
  check allowed_roles env now registry x_api_key authorization =
      if not env.auth_enabled then ok tt else (elim registry [
        | none ↦ raise not_initialised
        | some r ↦ elim (bearer_of authorization) [
          | some token ↦ check_token allowed_roles env now token
          | none ↦ check_api_key allowed_roles r x_api_key
        ]
      ])
