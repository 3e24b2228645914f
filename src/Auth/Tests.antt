-- ===== src/Auth/Tests.antt =====
-- A registry of three keys. The digest of a key stands for its hash, and the order of a set is that of a list.
use Prim.Native.String.{◌++◌}
use text.Mathlib.TextEquality.{eq_iff}
use try_ops_try_on_mlops.Base.{
  ℕ, String, string_eq, true, false, get_elem?, arith, zero, suc, ◌<◌, ◌≡◌, ◌∙◌, ap, ◌==◌, false,
  refl, Option, none, some, List, [], ◌∷◌, ltb,
}
use try_ops_try_on_mlops.Base.Int.{ℤ}
use try_ops_try_on_mlops.Base.Json
use try_ops_try_on_mlops.Base.Json.{Json, Fields, null, str, arr, obj, num, nil, cons, end, field}
use try_ops_try_on_mlops.Base.Python.{Python}
use try_ops_try_on_mlops.Base.Result.{Result, raised, ok}
use try_ops_try_on_mlops.Base.Sets.{sorted_set, contains-sorted_set}
use try_ops_try_on_mlops.Base.Text.{strip}
use try_ops_try_on_mlops.Auth.Keys.{
  AuthDecision, authenticate_api_key, principal_from_entry, normalize_key_entry, normalize_entry,
  keys_of, KeyEntry, authorized,
}
use try_ops_try_on_mlops.Auth.Audit.{RegistryAudit, audit_keys, audit_api_key_registry}
use try_ops_try_on_mlops.Auth.Search.{Active}
use try_ops_try_on_mlops.Auth.Authorized.{Authorized, Granted, authenticate_api_key-Authorized}
use try_ops_try_on_mlops.Auth.Unambiguous.{Granted-unambiguous}
use try_ops_try_on_mlops.Auth.Session.{
  Session, no_accounts, principal_of, permissions_of, build_rbac_session, membership_role,
}
use try_ops_try_on_mlops.Auth.Navigation.{Navigation, build_rbac_session-Navigation}

abbrev text_of : Json → String
text_of (str s) = s
text_of _ = "?"

abbrev int_of : Json → Option ℤ
int_of (num n) = some n
int_of _ = none

abbrev python : Python
python = record {
  Float = ℕ;
  float_lt = ltb;
  float_text = λ n. "?";
  json_text = text_of;
  json_int = int_of;
  lower = λ s. s;
}

abbrev digest : String → String
digest s = "00000000000000000000000000000000000000000000000000000000000000" ++ s

abbrev entry : String → String → String → Json
entry id role key = obj (
    field "key_id" (str id) (
      field "role" (str role) (
        field "key_hash_sha256" (str (digest key))
          (field "scopes" (arr (cons (str "admin:read") (cons (str "account:read") nil))) end))))

abbrev registry : Fields
registry =
    field "keys"
      (arr (
        cons (entry "v" "viewer" "a1")
          (cons (entry "o" "operator" "b2") (cons (entry "a" "admin" "c3") nil))))
      end

abbrev operator : KeyEntry
operator = record {
  key_id = "o";
  role = "operator";
  key_hash_sha256 = digest "b2";
  scopes = "account:read" ∷ "admin:read" ∷ [];
  active = true;
}

abbrev allowed : AuthDecision
allowed = record {
  allowed = true;
  required_scope = "admin:read";
  reason = authorized;
  principal = some (principal_from_entry operator);
}

abbrev no_file : Result Fields
no_file = raised "no such file"

is_allowed :
    authenticate_api_key python digest false no_file (str " b2 ") "admin:read" (some registry) none
    ≡ ok allowed
unfolding authenticate_api_key
is_allowed = refl

authenticate_api_key-Authorized_example :
    Authorized python digest false no_file (str " b2 ") "admin:read" (some registry) none allowed
authenticate_api_key-Authorized_example =
    authenticate_api_key-Authorized python digest false no_file (str " b2 ") "admin:read"
      (some registry) none allowed is_allowed refl

abbrev entries : List Json
entries = entry "v" "viewer" "a1" ∷ entry "o" "operator" "b2" ∷ entry "a" "admin" "c3" ∷ []

abbrev viewer : KeyEntry
viewer = record operator { key_id = "v"; role = "viewer"; key_hash_sha256 = digest "a1" }

hash_of_key : operator.key_hash_sha256 ≡ digest (strip " b2 ")
unfolding strip
hash_of_key = refl

-- The three entries as they are read.
abbrev keys : List KeyEntry
keys =
    viewer
    ∷ operator
    ∷ record operator { key_id = "a"; role = "admin"; key_hash_sha256 = digest "c3" }
    ∷ []

abbrev report : RegistryAudit
report = audit_keys python entries keys ("admin:read" ∷ [])

is_audited : audit_api_key_registry python registry (some ("admin:read" ∷ [])) ≡ ok report
unfolding audit_api_key_registry normalize_key_entry
is_audited = refl

is_passed : report.passed ≡ true
unfolding audit_keys
is_passed = refl

read_operator : normalize_entry python (entry "o" "operator" "b2") ≡ ok operator
unfolding normalize_key_entry
read_operator = refl

asked_entries : keys_of registry ≡ ok entries
asked_entries = refl

only_before :
    (j : ℕ) (other : Json)
    → j < 1
    → get_elem? entries j ≡ some other
    → (e : KeyEntry) → ¬ Active python (digest "b2") other e
unfolding normalize_key_entry
only_before zero other lt at e = λ a.
    let same : entry "v" "viewer" "a1" ≡ other = cc (at) in
    let read : normalize_entry python (entry "v" "viewer" "a1") ≡ ok e =
      ap (normalize_entry python) same ∙ a.0 in
    let is_viewer : viewer ≡ e = cc (read) in
    let hash : digest "a1" ≡ digest "b2" =
      ap (λ (x : KeyEntry). x.key_hash_sha256) is_viewer ∙ a.2 in
    let differ : (digest "a1" == digest "b2") ≡ false = refl in
    let equal = (eq_iff (digest "a1") (digest "b2")).1 hash in cc (differ, equal)
only_before (suc j) other lt at e = absurd (omega arith)

abbrev granted : Granted python digest no_file " b2 " "admin:read" (some registry) allowed
unfolding normalize_key_entry strip
granted = record {
  asked = registry;
  asked_eq = refl;
  entries = entries;
  entries_eq = refl;
  entry = operator;
  first = record {
    index = 1;
    entry = entry "o" "operator" "b2";
    found = refl;
    active = (read_operator, refl, refl);
    before = only_before;
  };
  has_scope = refl;
  principal = refl;
}

Granted-unambiguous_example : 1 ≡ granted.first.index
unfolding granted
Granted-unambiguous_example =
    Granted-unambiguous python digest no_file " b2 " "admin:read" (some registry) allowed granted
      (some ("admin:read" ∷ [])) report 1 (entry "o" "operator" "b2") operator is_audited is_passed
      refl read_operator hash_of_key

abbrev principal : Fields
principal =
    field "key_id" (str "o")
      (field "scopes" (arr (cons (str "account:read") (cons (str "workload:run") nil))) end)

abbrev membership : Option Fields
membership = some (field "role" (str "account_member") end)

abbrev session : Session
session = record {
  principal = principal_of python sorted_set principal ("account:read" ∷ "workload:run" ∷ []);
  account = none;
  accounts = no_accounts;
  membership = membership;
  permissions =
      permissions_of python sorted_set principal ("account:read" ∷ "workload:run" ∷ []) membership;
}

is_session : build_rbac_session python sorted_set principal none membership none ≡ ok session
unfolding build_rbac_session sorted_set
is_session = refl

nav_of_member : session.permissions.nav ≡ "llm" ∷ "vton" ∷ "account" ∷ []
unfolding permissions_of sorted_set
nav_of_member = refl

build_rbac_session-Navigation_example :
    Navigation
      ("account:read" ∷ "workload:run" ∷ [])
      (membership_role python sorted_set membership)
      (text_of (Json.get_or "role" null principal))
      session.permissions.nav
build_rbac_session-Navigation_example =
    build_rbac_session-Navigation python sorted_set contains-sorted_set principal none membership
      none session is_session
