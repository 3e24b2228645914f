-- ===== src/Auth/Keys.antt =====
-- src/tryops/auth.py: entries of the registry, and `authenticate_api_key`. SHA-256 is a parameter, as are the
-- environment (whether local keys are enabled) and the registry's file (`loaded`).
use try_ops_try_on_mlops.Base.{
  String, string_eq, Bool, true, false, ◌&&◌, Option, none, some, List, [], ◌∷◌, map, contains,
  if◌then◌else◌, ◌==◌,
}
use try_ops_try_on_mlops.Base.Json
use try_ops_try_on_mlops.Base.Json.{
  Json, Fields, end, null, bool, str, arr, nil, obj, truthy, iterate,
}
use try_ops_try_on_mlops.Base.Python.{Python}
use try_ops_try_on_mlops.Base.Result.{Result, raised, ok, ◌>>=◌, or_raise}
use try_ops_try_on_mlops.Base.Sets.{sorted_set}
use try_ops_try_on_mlops.Base.Text.{strip}

pub record KeyEntry : Type 0 where
  pub key_id : String
  pub role : String
  pub key_hash_sha256 : String
  pub scopes : List String
  pub active : Bool

pub record Principal : Type 0 where
  pub key_id : String
  pub subject : String
  pub provider : String
  pub email : String
  pub username : String
  pub display_name : String
  pub role : String
  pub scopes : List String

pub data Reason : Type 0 where
  missing_api_key local_api_keys_disabled invalid_api_key missing_scope authorized : Reason

pub record AuthDecision : Type 0 where
  pub allowed : Bool
  pub required_scope : String
  pub reason : Reason
  pub principal : Option Principal

abbrev pub not_iterable : String
not_iterable = "object is not iterable"

-- `_principal_from_entry`
abbrev pub principal_from_entry : KeyEntry → Principal
principal_from_entry e = record {
  key_id = e.key_id;
  subject = e.key_id;
  provider = "api_key";
  email = "";
  username = e.key_id;
  display_name = e.key_id;
  role = e.role;
  scopes = e.scopes;
}

abbrev pub refused : String → Reason → AuthDecision
refused scope reason = record {
  allowed = false;
  required_scope = scope;
  reason = reason;
  principal = none;
}

-- the last two answers of `authenticate_api_key`, for an entry that was found
abbrev pub decide_entry : String → KeyEntry → AuthDecision
decide_entry scope e =
    let allowed : Bool = contains scope e.scopes in
    record {
      allowed = allowed;
      required_scope = scope;
      reason = if allowed then authorized else missing_scope;
      principal = some (principal_from_entry e);
    }

-- `registry or load_api_key_registry()`
abbrev pub chosen_registry : Result Fields → Option Fields → Result Fields
chosen_registry loaded none = loaded
chosen_registry loaded (some r) = if truthy (obj r) then ok r else loaded

-- `registry.get("keys", [])`, as the loop goes through it
abbrev pub keys_of : Fields → Result (List Json)
keys_of registry = or_raise (iterate (Json.get_or "keys" (arr nil) registry)) not_iterable

-- the value of `allow_local_keys` behind its `if` statement
abbrev pub local_keys_allowed : Bool → Option Bool → Option Fields → Bool
local_keys_allowed enabled (some b) registry = b
local_keys_allowed enabled none none = enabled
local_keys_allowed enabled none (some r) = true

module _ (py : Python) where
  abbrev pub text_at : String → Fields → String
  text_at key entry = py.json_text (Json.get_or key (str "") entry)

  -- `_normalize_key_entry`; the value of a key that is no iterable raises
  unfoldable pub normalize_key_entry : Fields → Result KeyEntry
  unfolding sorted_set
  normalize_key_entry entry = do
    scopes ← or_raise (iterate (Json.get_or "scopes" (arr nil) entry)) not_iterable
    ok (record {
      key_id = text_at "key_id" entry;
      role = text_at "role" entry;
      key_hash_sha256 = py.lower (text_at "key_hash_sha256" entry);
      scopes = sorted_set (map py.json_text scopes);
      active = truthy (Json.get_or "active" (bool true) entry);
    })

  -- `_normalize_key_entry` of what stands in the list, which raises on what is no dict
  abbrev pub normalize_entry : Json → Result KeyEntry
  unfolding normalize_key_entry
  normalize_entry (obj entry) = normalize_key_entry entry
  normalize_entry _ = raised "object has no attribute 'get'"

  -- `_find_active_key_by_hash`, on the list of entries: the ones behind a hit are not looked at
  unfoldable pub find_active_key_by_hash : String → List Json → Result (Option KeyEntry)
  unfolding normalize_entry
  find_active_key_by_hash key_hash [] = ok none
  find_active_key_by_hash key_hash (entry ∷ entries) = normalize_entry entry >>= λ e.
      elim (e.active && e.key_hash_sha256 == key_hash) [
        | true ↦ ok (some e)
        | false ↦ find_active_key_by_hash key_hash entries
      ]

  module _ (sha256 : String → String) where
    -- `hash_api_key`: `sha256` is the hexadecimal digest of the UTF-8 bytes
    unfoldable pub hash_api_key : String → String
    unfolding strip
    hash_api_key api_key = sha256 (strip api_key)

    -- `authenticate_api_key` from the choice of the registry on
    unfoldable pub authenticate_hash :
        Result Fields → String → String → Option Fields → Result AuthDecision
    unfolding find_active_key_by_hash hash_api_key
    authenticate_hash loaded api_key scope registry = do
      chosen ← chosen_registry loaded registry
      keys ← keys_of chosen
      found ← find_active_key_by_hash (hash_api_key api_key) keys
      ok (elim found [ none ↦ refused scope invalid_api_key | some e ↦ decide_entry scope e ])

    -- `api_key` is any value; `enabled` is `_local_api_keys_enabled()`
    unfoldable pub authenticate_api_key :
        Bool → Result Fields → Json → String → Option Fields → Option Bool → Result AuthDecision
    unfolding strip authenticate_hash
    authenticate_api_key enabled loaded (str api_key) scope registry allow_local_keys =
        if strip api_key == ""
        then ok (refused scope missing_api_key)
        else if local_keys_allowed enabled allow_local_keys registry
        then authenticate_hash loaded api_key scope registry
        else ok (refused scope local_api_keys_disabled)
    authenticate_api_key enabled loaded _ scope registry allow_local_keys =
        ok (refused scope missing_api_key)
