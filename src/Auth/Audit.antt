-- ===== src/Auth/Audit.antt =====
-- src/tryops/auth.py: `audit_api_key_registry`. A set of texts is a list.
use try_ops_try_on_mlops.Base.{
  ℕ, String, string_eq, nat_eq, Bool, not, ◌&&◌, ◌||◌, Option, none, some, List, [], ◌∷◌, ◌++◌, map,
  length, keep, count_if, is_empty, contains, any, ◌==◌,
}
use try_ops_try_on_mlops.Base.Json.{Json, Fields, end, field, obj}
use try_ops_try_on_mlops.Base.Python.{Python}
use try_ops_try_on_mlops.Base.Result.{Result, ok, ◌>>=◌, traverse}
use try_ops_try_on_mlops.Base.Sets.{sorted_set, sorted_difference, sorted_repeated, sorted_texts}
use try_ops_try_on_mlops.Base.Text.{characters}
use try_ops_try_on_mlops.Auth.Keys.{KeyEntry, keys_of, normalize_entry}

pub record RegistryAudit : Type 0 where
  pub key_count : ℕ
  pub active_key_count : ℕ
  pub roles : List String
  pub missing_required_roles : List String
  pub active_scopes : List String
  pub required_scopes : List String
  pub missing_required_scopes : List String
  pub forbidden_secret_fields : List String
  pub duplicate_key_ids : List String
  pub duplicate_hashes : List String
  pub invalid_hash_key_ids : List String
  pub passed : Bool

abbrev pub required_admin_scopes : List String
required_admin_scopes =
    "promotion:evaluate" ∷ "lineage:create" ∷ "lineage:read" ∷ "admin:read" ∷ "session:read"
    ∷ "account:read" ∷ "account:write" ∷ "workload:run" ∷ []

abbrev pub required_rbac_roles : List String
required_rbac_roles = "viewer" ∷ "operator" ∷ "admin" ∷ []

abbrev pub forbidden_secret_names : List String
forbidden_secret_names = "api_key" ∷ "raw_key" ∷ "secret" ∷ "token" ∷ "password" ∷ []

-- `required_scopes or REQUIRED_ADMIN_SCOPES`
abbrev pub scopes_or_default : Option (List String) → List String
scopes_or_default none = required_admin_scopes
scopes_or_default (some []) = required_admin_scopes
scopes_or_default (some (s ∷ ss)) = s ∷ ss

-- `char not in "0123456789abcdef"` of one character
abbrev pub not_hex : String → Bool
not_hex c = not (contains c (characters "0123456789abcdef"))

abbrev pub is_invalid_hash : KeyEntry → Bool
is_invalid_hash e =
    not (length (characters e.key_hash_sha256) == 64) || any not_hex (characters e.key_hash_sha256)

-- the names of an entry's fields
abbrev pub names : Fields → List String
names end = []
names (field k v d) = k ∷ names d

-- the inner loop over an entry's fields, of the ones that are dicts
abbrev pub names_of_all : List Json → List String
names_of_all [] = []
names_of_all (obj d ∷ rest) = names d ++ names_of_all rest
names_of_all (v ∷ rest) = names_of_all rest

abbrev pub scopes_of_all : List KeyEntry → List String
scopes_of_all [] = []
scopes_of_all (e ∷ es) = e.scopes ++ scopes_of_all es

abbrev pub ids_of : List KeyEntry → List String
ids_of es = map (λ (e : KeyEntry). e.key_id) es

abbrev pub hashes_of : List KeyEntry → List String
hashes_of es = map (λ (e : KeyEntry). e.key_hash_sha256) es

abbrev pub roles_of : List KeyEntry → List String
roles_of es = map (λ (e : KeyEntry). e.role) es

abbrev pub active_of : List KeyEntry → List KeyEntry
active_of es = keep (λ (e : KeyEntry). e.active) es

module _ (py : Python) where
  abbrev pub forbidden_fields : List Json → List String
  unfolding sorted_set
  forbidden_fields entries =
      sorted_set
        (keep (λ name. contains (py.lower name) forbidden_secret_names) (names_of_all entries))

  -- the report on a list of entries, as they stand and as they are read
  unfoldable pub audit_keys : List Json → List KeyEntry → List String → RegistryAudit
  unfolding sorted_set sorted_difference sorted_repeated sorted_texts
  audit_keys entries keys required =
      let active_scopes = sorted_set (scopes_of_all (active_of keys)) in
      let active_roles = sorted_set (roles_of (active_of keys)) in
      let forbidden = forbidden_fields entries in
      let duplicate_ids = sorted_repeated (ids_of keys) in
      let duplicates = sorted_repeated (hashes_of keys) in
      let invalid = sorted_texts (ids_of (keep is_invalid_hash keys)) in
      let missing_scopes = sorted_difference required active_scopes in
      let missing_roles = sorted_difference required_rbac_roles active_roles in
      record {
        key_count = length keys;
        active_key_count = count_if (λ (e : KeyEntry). e.active) keys;
        roles = sorted_set (roles_of keys);
        missing_required_roles = missing_roles;
        active_scopes = active_scopes;
        required_scopes = sorted_set required;
        missing_required_scopes = missing_scopes;
        forbidden_secret_fields = forbidden;
        duplicate_key_ids = duplicate_ids;
        duplicate_hashes = duplicates;
        invalid_hash_key_ids = invalid;
        passed =
            not (is_empty keys)
            && is_empty forbidden
            && is_empty duplicate_ids
            && is_empty duplicates
            && is_empty invalid
            && is_empty missing_scopes
            && is_empty missing_roles;
      }

  unfoldable pub audit_api_key_registry : Fields → Option (List String) → Result RegistryAudit
  unfolding audit_keys
  audit_api_key_registry registry required_scopes = do
    entries ← keys_of registry
    keys ← traverse (normalize_entry py) entries
    ok (audit_keys entries keys (scopes_or_default required_scopes))
