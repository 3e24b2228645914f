-- ===== src/Auth/Authorized.antt =====
-- Who is authorized by `authenticate_api_key`.
use try_ops_try_on_mlops.Base.{
  String, string_eq, Bool, true, false, ◌≡◌, refl, Option, none, some, List, contains, Bool-cases,
  inl, inr, ◌==◌, ◌∙◌, sym, ap,
}
use try_ops_try_on_mlops.Base.Json.{Json, Fields, null, bool, num, str, arr, obj}
use try_ops_try_on_mlops.Base.Python.{Python}
use try_ops_try_on_mlops.Base.Result.{Result, ok, ◌>>=◌, >>=-eq-ok}
use try_ops_try_on_mlops.Base.Text.{strip}
use try_ops_try_on_mlops.Auth.Search.{First, find-First}
use try_ops_try_on_mlops.Auth.Keys.{
  KeyEntry, AuthDecision, Reason, missing_api_key, local_api_keys_disabled, invalid_api_key,
  refused, decide_entry, principal_from_entry, find_active_key_by_hash, keys_of, chosen_registry,
  hash_api_key, local_keys_allowed, authenticate_hash, authenticate_api_key,
}

refused-allowed :
    (scope : String) (reason : Reason) (d : AuthDecision)
    → ok (refused scope reason) ≡ ok d
    → d.allowed ≡ true
    → ⊥
refused-allowed scope reason d h allowed =
    let same : refused scope reason ≡ d = cc (h) in
    let off = ap (λ (x : AuthDecision). x.allowed) same in cc (off, allowed)

module _ (py : Python) where
  module _ (sha256 : String → String) where
    -- The registry that is asked has a first active entry with the key's hash; that entry has the scope, and is the
    -- principal.
    pub record Granted (loaded : Result Fields) (key scope : String) (registry : Option Fields)
        (d : AuthDecision) : Type 0 where
      pub asked : Fields
      pub asked_eq : chosen_registry loaded registry ≡ ok asked
      pub entries : List Json
      pub entries_eq : keys_of asked ≡ ok entries
      pub entry : KeyEntry
      pub first : First py (sha256 (strip key)) entries entry
      pub has_scope : contains scope entry.scopes ≡ true
      pub principal : d.principal ≡ some (principal_from_entry entry)

    -- The key is a text that is not blank, local keys may be used, and the registry grants the scope.
    pub record Authorized (enabled : Bool) (loaded : Result Fields) (api_key : Json)
        (scope : String) (registry : Option Fields) (allow_local_keys : Option Bool)
        (d : AuthDecision) : Type 0 where
      pub key : String
      pub given : api_key ≡ str key
      pub not_blank : (strip key == "") ≡ false
      pub local : local_keys_allowed enabled allow_local_keys registry ≡ true
      pub granted : Granted loaded key scope registry d

    decide-scope :
        (scope : String) (found : Option KeyEntry) (d : AuthDecision)
        → ok (elim found as (λ _. AuthDecision) [
          | none ↦ refused scope invalid_api_key
          | some e ↦ decide_entry scope e
        ])
          ≡ ok d
        → d.allowed ≡ true
        → (e : KeyEntry) × (found ≡ some e)
          × (contains scope e.scopes ≡ true)
          × (d.principal ≡ some (principal_from_entry e))
    decide-scope scope none d h allowed = absurd (refused-allowed scope invalid_api_key d h allowed)
    decide-scope scope (some e) d h allowed =
        let same : decide_entry scope e ≡ d = cc (h) in
        (
          e,
          refl,
          ap (λ (x : AuthDecision). x.allowed) same ∙ allowed,
          ap (λ (x : AuthDecision). x.principal) (sym same),
        )

    hash-Granted :
        (loaded : Result Fields) (key scope : String) (registry : Option Fields) (d : AuthDecision)
        → authenticate_hash py sha256 loaded key scope registry ≡ ok d
        → d.allowed ≡ true
        → Granted loaded key scope registry d
    unfolding authenticate_hash hash_api_key
    hash-Granted loaded key scope registry d h allowed =
        let answer : Option KeyEntry → Result AuthDecision = λ found.
          ok
            (elim found [ none ↦ refused scope invalid_api_key | some e ↦ decide_entry scope e ]) in
        let search : List Json → Result AuthDecision =
          λ keys. find_active_key_by_hash py (sha256 (strip key)) keys >>= answer in
        let (asked, asked_eq, h1) =
          >>=-eq-ok (chosen_registry loaded registry) (λ r. keys_of r >>= search) d h in
        let (entries, entries_eq, h2) = >>=-eq-ok (keys_of asked) search d h1 in
        let (found, found_eq, h3) =
          >>=-eq-ok (find_active_key_by_hash py (sha256 (strip key)) entries) answer d h2 in
        let (e, is_found, has_scope, principal) = decide-scope scope found d h3 allowed in
        record {
          asked = asked;
          asked_eq = asked_eq;
          entries = entries;
          entries_eq = entries_eq;
          entry = e;
          first = find-First py (sha256 (strip key)) entries e (found_eq ∙ ap ok is_found);
          has_scope = has_scope;
          principal = principal;
        }

    -- Whoever is allowed by `authenticate_api_key` presents the key of the first active entry with its hash, and that
    -- entry has the required scope.
    pub authenticate_api_key-Authorized :
        (enabled : Bool) (loaded : Result Fields) (api_key : Json) (scope : String)
        (registry : Option Fields) (allow_local_keys : Option Bool) (d : AuthDecision)
        → authenticate_api_key py sha256 enabled loaded api_key scope registry allow_local_keys
          ≡ ok d
        → d.allowed ≡ true
        → Authorized enabled loaded api_key scope registry allow_local_keys d
    unfolding authenticate_api_key
    authenticate_api_key-Authorized enabled loaded (str key) scope registry allow_local_keys d h
          allowed =
        elim (Bool-cases (strip key == "")) [
          | inl blank ↦ absurd (refused-allowed scope missing_api_key d (rw blank at h) allowed)
          | inr not_blank ↦
              elim (Bool-cases (local_keys_allowed enabled allow_local_keys registry)) [
                | inr local ↦ absurd (
                    refused-allowed scope local_api_keys_disabled d (rw (not_blank, local) at h)
                      allowed)
                | inl local ↦
                    let h1 : authenticate_hash py sha256 loaded key scope registry ≡ ok d =
                      rw (not_blank, local) at h in
                    record {
                      key = key;
                      given = refl;
                      not_blank = not_blank;
                      local = local;
                      granted = hash-Granted loaded key scope registry d h1 allowed;
                    }
              ]
        ]
    authenticate_api_key-Authorized enabled loaded null scope registry allow_local_keys d h
          allowed =
        absurd (refused-allowed scope missing_api_key d h allowed)
    authenticate_api_key-Authorized enabled loaded (bool b) scope registry allow_local_keys d h
          allowed =
        absurd (refused-allowed scope missing_api_key d h allowed)
    authenticate_api_key-Authorized enabled loaded (num n) scope registry allow_local_keys d h
          allowed =
        absurd (refused-allowed scope missing_api_key d h allowed)
    authenticate_api_key-Authorized enabled loaded (arr xs) scope registry allow_local_keys d h
          allowed =
        absurd (refused-allowed scope missing_api_key d h allowed)
    authenticate_api_key-Authorized enabled loaded (obj o) scope registry allow_local_keys d h
          allowed =
        absurd (refused-allowed scope missing_api_key d h allowed)
