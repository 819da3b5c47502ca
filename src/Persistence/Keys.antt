-- ===== src/Persistence/Keys.antt =====
-- `SQLiteKeyStore` of ecn/persistence.py, and the registry of ecn/auth.py on it.
use ecn.Common.{
  String, ◌≡◌, refl, Bool, true, false, Option, List, [], ◌∷◌, ◌++◌, if◌then◌else◌, Result, ok,
  raise, ◌>>=◌,
}
use ecn.Common.Dict.{Dict, erase, values}
use ecn.Auth.{ApiKey, ApiKeyRegistry, UnknownRole, store_key, issue, revoke}
use ecn.Persistence.Json.{
  Json, text, object, Fields, no_fields, field, LoadError, load_rows, null, get, get_key,
  get_default, fields_of, text_of, of_optional, optional_of, optional_of-of_optional, JsonLibrary,
}

-- The dictionary that `issue` saves of a key
unfoldable pub key_dict : ApiKey → Fields
key_dict k = field "key_id" (text k.key_id) (
    field "key" (text k.key) (
      field "role" (text k.role) (
        field "description" (text k.description)
          (field "tenant_id" (of_optional k.tenant_id) no_fields))))

-- `ApiKey(...)` of `_load_from_store`
unfoldable pub key_of_dict : Fields → Result LoadError ApiKey
key_of_dict d = do
  key_id_json ← get_key "key_id" d
  key_id ← text_of key_id_json
  key_json ← get_key "key" d
  key ← text_of key_json
  role_json ← get_key "role" d
  role ← text_of role_json
  description ← text_of (get_default "description" d (text ""))
  tenant_id ← optional_of (get_default "tenant_id" d null)
  ok (record {
    key_id = key_id;
    key = key;
    role = role;
    description = description;
    tenant_id = tenant_id;
  })

pub key_of_dict-key_dict : (k : ApiKey) → key_of_dict (key_dict k) ≡ ok k
unfolding key_of_dict key_dict get
key_of_dict-key_dict k = rw (optional_of-of_optional k.tenant_id, key_of_dict) refl

-- The loop of `_load_from_store`
unfoldable pub load_keys : List Json → ApiKeyRegistry → Result LoadError ApiKeyRegistry
load_keys [] r = ok r
load_keys (v ∷ stored) r = do d ← fields_of v; k ← key_of_dict d; load_keys stored (store_key k r)

module _ (json : JsonLibrary) where
  open json use {Printed, dumps, loads}

  -- The rows of `api_keys`: the key id and the printed key
  abbrev pub KeyTable : Type 0
  KeyTable = Dict Printed

  -- `save_key`: `INSERT OR REPLACE` removes the old row and adds the new one.
  unfoldable pub save_key : String → Fields → KeyTable → KeyTable
  save_key key_id d table = erase key_id table ++ (key_id, dumps (object d)) ∷ []

  -- `delete_key`
  unfoldable pub delete_key : String → KeyTable → KeyTable
  delete_key key_id table = erase key_id table

  -- `load_all`
  abbrev pub load_all : KeyTable → Result LoadError (List Json)
  load_all table = load_rows json (values table)

  -- `ApiKeyRegistry.__init__` on a table
  unfoldable pub open_registry : KeyTable → Result LoadError ApiKeyRegistry
  open_registry table = do
    stored ← load_all table
    load_keys stored (record { keys_by_id = []; keys_by_secret = [] })

  pub record StoredRegistry : Type 0 where
    pub registry : ApiKeyRegistry
    pub table : KeyTable

  -- `issue`, with the store
  unfoldable pub issue_stored :
      String
      → String
      → String
      → String
      → Option String
      → Option String
      → Option String
      → StoredRegistry
      → Result UnknownRole (StoredRegistry × ApiKey)
  issue_stored uuid token role description tenant_id key_id secret s = do
    issued ← issue uuid token role description tenant_id key_id secret s.registry
    ok (
      record { registry = issued.0; table = save_key issued.1.key_id (key_dict issued.1) s.table },
      issued.1,
    )

  -- `revoke`, with the store, which is left alone when there is no such key.
  unfoldable pub revoke_stored : String → StoredRegistry → StoredRegistry × Bool
  revoke_stored key_id s =
      let revoked = revoke key_id s.registry in
      if revoked.1
      then (record { registry = revoked.0; table = delete_key key_id s.table }, true)
      else (s, false)

  -- A call on the registry. One that raises changes nothing.
  pub data KeyCall : Type 0 where
    issuing :
        String → String → String → String → Option String → Option String → Option String → KeyCall
    revoking : String → KeyCall

  abbrev pub run_call : KeyCall → StoredRegistry → StoredRegistry
  run_call (issuing uuid token role description tenant_id key_id secret) s =
      elim (issue_stored uuid token role description tenant_id key_id secret s) [
        | ok issued ↦ issued.0
        | raise e ↦ s
      ]
  run_call (revoking key_id) s = (revoke_stored key_id s).0

  abbrev pub run_calls : List KeyCall → StoredRegistry → StoredRegistry
  run_calls [] s = s
  run_calls (c ∷ calls) s = run_calls calls (run_call c s)

  abbrev pub fresh : StoredRegistry
  fresh = record { registry = record { keys_by_id = []; keys_by_secret = [] }; table = [] }
