-- ===== src/Auth/Issued.antt =====
-- The life of an API key: from the request that issues it to the one that revokes it, and after.
use ecn.Common.{
  String, ◌≡◌, refl, inl, inr, true, false, Option, none, some, List, [], ◌∷◌, arith, if◌then◌else◌,
  ok, raise, All, Result-cases, Bool-cases, Option-cases, ap, ◌∙◌,
}
use ecn.Common.Dict.{lookup, lookup-insert, lookup-erase}
use ecn.Common.Text.{str_eq, eq_iff, listed, str_eq_refl}
use ecn.Auth.{
  ApiKey, ApiKeyRegistry, role_not_authorised, invalid_or_revoked, Environment, TokenLibrary,
  is_given, all_roles, store_key, issue, revoke, lookup_secret, bearer_of, check, check_api_key,
}
use ecn.Auth.Admin.{
  IssueApiKeyRequest, admin_only, Credentials, AdminResponse, require_admin, issue_api_key,
  list_api_keys, revoke_api_key, AdminRequest, issuing, listing, revoking, route_of, serve_all,
}

-- The key that `issue` makes of a request
abbrev pub key_of : String → String → IssueApiKeyRequest → ApiKey
key_of uuid token body = record {
  key_id = uuid;
  key = token;
  role = body.role;
  description = body.description;
  tenant_id = body.tenant_id;
}

-- A key that is there, under its identifier and its secret, with no other key of that secret.
pub record IsThere (k : ApiKey) (r : ApiKeyRegistry) : Type 0 where
  pub by_id : lookup k.key_id r.keys_by_id ≡ some k
  pub by_secret : lookup k.key r.keys_by_secret ≡ some k
  pub alone :
      (j : String) (x : ApiKey)
      → str_eq j k.key_id ≡ false
      → lookup j r.keys_by_id ≡ some x
      → str_eq x.key k.key ≡ false

store_key-IsThere :
    (k : ApiKey) (r : ApiKeyRegistry)
    → ((j : String) (x : ApiKey) → lookup j r.keys_by_id ≡ some x → str_eq x.key k.key ≡ false)
    → IsThere k (store_key k r)
unfolding store_key
store_key-IsThere k r fresh = record {
  by_id = ground (arith, lookup-insert k.key_id k.key_id k r.keys_by_id, str_eq_refl k.key_id);
  by_secret = ground (arith, lookup-insert k.key k.key k r.keys_by_secret, str_eq_refl k.key);
  alone = λ j x other found.
      fresh j x (ground (arith, lookup-insert j k.key_id k r.keys_by_id, other, found));
}

others_IsThere :
    (k other : ApiKey) (r : ApiKeyRegistry)
    → str_eq k.key_id other.key_id ≡ false
    → str_eq k.key other.key ≡ false
    → IsThere k r
    → IsThere k (store_key other r)
unfolding store_key
others_IsThere k other r id secret there = record {
  by_id = ground (arith, lookup-insert k.key_id other.key_id other r.keys_by_id, id, there.by_id);
  by_secret =
      ground (arith, lookup-insert k.key other.key other r.keys_by_secret, secret, there.by_secret);
  alone = λ j x differs found. elim (Bool-cases (str_eq j other.key_id)) [
    | inl e ↦
        let same : some other ≡ some x =
          ground (arith, lookup-insert j other.key_id other r.keys_by_id, e, found) in
        let key : other.key ≡ x.key = ap (λ o. elim o [ none ↦ "" | some y ↦ y.key ]) same in
        ground (arith, key, secret, eq_iff k.key other.key, eq_iff x.key k.key)
    | inr e ↦
        there.alone j x differs
          (ground (arith, lookup-insert j other.key_id other r.keys_by_id, e, found))
  ];
}

revoke-IsThere :
    (k : ApiKey) (id : String) (r : ApiKeyRegistry)
    → str_eq id k.key_id ≡ false
    → IsThere k r
    → IsThere k (revoke id r).0
unfolding revoke
revoke-IsThere k id r differs there = elim (Option-cases (lookup id r.keys_by_id)) [
  | inl gone ↦ rw (gone, revoke) there
  | inr (x, found) ↦
      rw (found, revoke)
        (record {
          by_id = ground (
            arith,
            lookup-erase k.key_id id r.keys_by_id,
            eq_iff k.key_id id,
            eq_iff id k.key_id,
            differs,
            there.by_id,
          );
          by_secret = ground (
            arith,
            lookup-erase k.key x.key r.keys_by_secret,
            eq_iff k.key x.key,
            eq_iff x.key k.key,
            there.alone id x differs found,
            there.by_secret,
          );
          alone = λ j y other at.
              there.alone j y other (ground (arith, lookup-erase j id r.keys_by_id, at));
        })
]

-- A secret that opens nothing.
abbrev IsGone : String → ApiKeyRegistry → Type 0
IsGone secret r = lookup secret r.keys_by_secret ≡ none

revoke-IsGone :
    (secret id : String) (r : ApiKeyRegistry) → IsGone secret r → IsGone secret (revoke id r).0
unfolding revoke
revoke-IsGone secret id r gone = elim (Option-cases (lookup id r.keys_by_id)) [
  | inl absent ↦ rw (absent, revoke) gone
  | inr (x, found) ↦
      rw (found, revoke) (ground (arith, lookup-erase secret x.key r.keys_by_secret, gone))
]

revoked_IsGone :
    (k : ApiKey) (r : ApiKeyRegistry) → IsThere k r → IsGone k.key (revoke k.key_id r).0
unfolding revoke
revoked_IsGone k r there =
    rw (there.by_id, revoke)
      (ground (arith, lookup-erase k.key k.key r.keys_by_secret, str_eq_refl k.key))

module _ (lib : TokenLibrary) where
  -- A request that has nothing to do with a key: it issues no other of its identifier or its secret,
  -- and does not revoke it.
  abbrev pub Spares : ApiKey → AdminRequest lib → Type 0
  Spares k (issuing uuid token body) = (str_eq k.key_id uuid ≡ false) × (str_eq k.key token ≡ false)
  Spares k listing = Unit
  Spares k (revoking id) = str_eq id k.key_id ≡ false

  -- A request that does not issue a secret.
  abbrev pub Avoids : String → AdminRequest lib → Type 0
  Avoids secret (issuing uuid token body) = str_eq secret token ≡ false
  Avoids secret listing = Unit
  Avoids secret (revoking id) = Unit

  issue_api_key-ok :
      (uuid token : String) (body : IssueApiKeyRequest) (r : ApiKeyRegistry)
      → listed body.role all_roles ≡ true
      → (issue_api_key lib uuid token body r).0 ≡ store_key (key_of uuid token body) r
  unfolding issue_api_key issue
  issue_api_key-ok uuid token body r known = ground (arith, known)

  issue_api_key-raise :
      (uuid token : String) (body : IssueApiKeyRequest) (r : ApiKeyRegistry)
      → listed body.role all_roles ≡ false
      → (issue_api_key lib uuid token body r).0 ≡ r
  unfolding issue_api_key issue
  issue_api_key-raise uuid token body r unknown = ground (arith, unknown)

  revoke_api_key-revoke :
      (id : String) (r : ApiKeyRegistry) → (revoke_api_key lib id r).0 ≡ (revoke id r).0
  unfolding revoke_api_key
  revoke_api_key-revoke id r = ground arith

  route_of-IsThere :
      (k : ApiKey) (q : AdminRequest lib) (r : ApiKeyRegistry)
      → Spares k q
      → IsThere k r
      → IsThere k (route_of lib q r).0
  unfolding route_of list_api_keys
  route_of-IsThere k (issuing uuid token body) r (id, secret) there =
      elim (Bool-cases (listed body.role all_roles)) [
        | inl known ↦
            rw (issue_api_key-ok uuid token body r known)
              (others_IsThere k (key_of uuid token body) r id secret there)
        | inr unknown ↦ rw (issue_api_key-raise uuid token body r unknown) there
      ]
  route_of-IsThere k listing r spares there = there
  route_of-IsThere k (revoking id) r differs there =
      rw (revoke_api_key-revoke id r) (revoke-IsThere k id r differs there)

  route_of-IsGone :
      (secret : String) (q : AdminRequest lib) (r : ApiKeyRegistry)
      → Avoids secret q
      → IsGone secret r
      → IsGone secret (route_of lib q r).0
  unfolding route_of list_api_keys store_key
  route_of-IsGone secret (issuing uuid token body) r avoids gone =
      elim (Bool-cases (listed body.role all_roles)) [
        | inl known ↦ rw (issue_api_key-ok uuid token body r known) (
            ground (
              arith,
              lookup-insert secret token (key_of uuid token body) r.keys_by_secret,
              avoids,
              gone,
            ))
        | inr unknown ↦ rw (issue_api_key-raise uuid token body r unknown) gone
      ]
  route_of-IsGone secret listing r avoids gone = gone
  route_of-IsGone secret (revoking id) r avoids gone =
      rw (revoke_api_key-revoke id r) (revoke-IsGone secret id r gone)

  -- What requests keep of a registry, if each of their routes keeps it.
  serve_all-keeps :
      (P : ApiKeyRegistry → Type 0) (Q : AdminRequest lib → Type 0)
      → ((q : AdminRequest lib) (r : ApiKeyRegistry) → Q q → P r → P (route_of lib q r).0)
      → (env : Environment) (requests : List (Credentials lib × AdminRequest lib))
        (r : ApiKeyRegistry)
      → All (λ q. Q q.1) requests
      → P r
      → (r' : ApiKeyRegistry) × ((serve_all lib env requests (some r)).0 ≡ some r') × P r'
  unfolding serve_all require_admin
  serve_all-keeps P Q keeps env [] r all p = (r, refl, p)
  serve_all-keeps P Q keeps env ((who, q) ∷ requests) r (one, all) p =
      let c = check lib admin_only env who.now (some r) who.x_api_key who.authorization in
      elim (Result-cases c) [
        | inr (d, e) ↦
            rw (e, serve_all, require_admin) (serve_all-keeps P Q keeps env requests r all p)
        | inl (u, e) ↦
            rw (e, serve_all, require_admin)
              (serve_all-keeps P Q keeps env requests (route_of lib q r).0 all (keeps q r one p))
      ]

  check-IsThere :
      (env : Environment) (now : lib.Time) (allowed : List String) (k : ApiKey) (r : ApiKeyRegistry)
      (authorization : Option String)
      → env.auth_enabled ≡ true
      → is_given k.key ≡ true
      → bearer_of lib authorization ≡ none
      → IsThere k r
      → check lib allowed env now (some r) (some k.key) authorization
        ≡ (if listed k.role allowed then ok tt else raise (role_not_authorised k.role))
  unfolding check check_api_key lookup_secret
  check-IsThere env now allowed k r authorization on given no_token there =
      ground (arith, on, given, no_token, there.by_secret)

  check-IsGone :
      (env : Environment) (now : lib.Time) (allowed : List String) (secret : String)
      (r : ApiKeyRegistry) (authorization : Option String)
      → env.auth_enabled ≡ true
      → is_given secret ≡ true
      → bearer_of lib authorization ≡ none
      → IsGone secret r
      → check lib allowed env now (some r) (some secret) authorization ≡ raise invalid_or_revoked
  unfolding check check_api_key lookup_secret
  check-IsGone env now allowed secret r authorization on given no_token gone =
      ground (arith, on, given, no_token, gone)

  require_admin-ok :
      (env : Environment) (who : Credentials lib)
      (route : ApiKeyRegistry → ApiKeyRegistry × AdminResponse) (r : ApiKeyRegistry)
      → check lib admin_only env who.now (some r) who.x_api_key who.authorization ≡ ok tt
      → (require_admin lib env who route (some r)).0 ≡ some (route r).0
  unfolding require_admin
  require_admin-ok env who route r let_in = ground (arith, let_in)

  -- The registry after a key is issued and other requests are served.
  abbrev pub opened :
      Environment
      → Credentials lib
      → String
      → String
      → IssueApiKeyRequest
      → List (Credentials lib × AdminRequest lib)
      → ApiKeyRegistry
      → Option ApiKeyRegistry
  opened env who uuid token body between r =
      (serve_all lib env between
        (require_admin lib env who (issue_api_key lib uuid token body) (some r)).0).0

  -- The registry after a key is revoked and other requests are served.
  abbrev pub closed :
      Environment
      → Credentials lib
      → String
      → List (Credentials lib × AdminRequest lib)
      → Option ApiKeyRegistry
      → Option ApiKeyRegistry
  closed env who uuid after registry =
      (serve_all lib env after (require_admin lib env who (revoke_api_key lib uuid) registry).0).0

  -- When an administrator is let in to issue a key of a known role, with a secret that no key of the
  -- registry has, then after any requests that neither revoke it nor issue its identifier or its
  -- secret again, its holder is let in exactly where its role is allowed and refused for that role
  -- elsewhere. Once an administrator has revoked it, it is refused as invalid everywhere, after any
  -- requests that do not issue its secret again. Authentication is on, the secret is not empty, and
  -- the holder shows no bearer token.
  pub issue_api_key-opens :
      (env : Environment) (who boss : Credentials lib) (uuid token : String)
      (body : IssueApiKeyRequest) (r : ApiKeyRegistry)
      (between after : List (Credentials lib × AdminRequest lib)) (now : lib.Time)
      (allowed : List String) (authorization : Option String)
      → env.auth_enabled ≡ true
      → is_given token ≡ true
      → listed body.role all_roles ≡ true
      → bearer_of lib authorization ≡ none
      → ((j : String) (x : ApiKey) → lookup j r.keys_by_id ≡ some x → str_eq x.key token ≡ false)
      → check lib admin_only env who.now (some r) who.x_api_key who.authorization ≡ ok tt
      → All (λ q. Spares (key_of uuid token body) q.1) between
      → check lib admin_only env boss.now
          (opened env who uuid token body between r)
          boss.x_api_key
          boss.authorization
        ≡ ok tt
      → All (λ q. Avoids token q.1) after
      → (check lib allowed env now
            (opened env who uuid token body between r)
            (some token)
            authorization
          ≡ (if listed body.role allowed then ok tt else raise (role_not_authorised body.role)))
        × (check lib allowed env now
              (closed env boss uuid after (opened env who uuid token body between r))
              (some token)
              authorization
            ≡ raise invalid_or_revoked)
  issue_api_key-opens env who boss uuid token body r between after now allowed authorization on
        given known no_token fresh let_in spares boss_in avoids =
      let k = key_of uuid token body in
      let made : (require_admin lib env who (issue_api_key lib uuid token body) (some r)).0
          ≡ some (store_key k r) =
        require_admin-ok env who (issue_api_key lib uuid token body) r let_in
        ∙ ap some (issue_api_key-ok uuid token body r known) in
      let (r', e, there) =
        serve_all-keeps (IsThere k) (Spares k) (route_of-IsThere k) env between (store_key k r)
          spares (store_key-IsThere k r fresh) in
      let open' : opened env who uuid token body between r ≡ some r' =
        ap (λ o. (serve_all lib env between o).0) made ∙ e in
      let boss_in' : check lib admin_only env boss.now (some r') boss.x_api_key boss.authorization
          ≡ ok tt =
        rw open' at boss_in in
      let gone : IsGone token (revoke_api_key lib uuid r').0 =
        rw (revoke_api_key-revoke uuid r') (revoked_IsGone k r' there) in
      let (r'', e', gone') =
        serve_all-keeps (IsGone token) (Avoids token) (route_of-IsGone token) env after
          (revoke_api_key lib uuid r').0 avoids gone in
      let closed' : closed env boss uuid after (some r') ≡ some r'' =
        ap (λ o. (serve_all lib env after o).0)
          (require_admin-ok env boss (revoke_api_key lib uuid) r' boss_in')
        ∙ e' in
      rw open' (
        check-IsThere env now allowed k r' authorization on given no_token there,
        rw closed' (check-IsGone env now allowed token r'' authorization on given no_token gone'),
      )
