-- ===== src/Auth/Unambiguous.antt =====
-- The audit and the check of a key together: a registry that passes `audit_api_key_registry` has one entry for a hash.
use try_ops_try_on_mlops.Base.{
  ℕ, zero, suc, String, string_eq, true, ◌≡◌, sym, ap, ◌∙◌, Option, some, List, [], ◌∷◌, is_empty,
  get_elem?, arith,
}
use try_ops_try_on_mlops.Base.Json.{Json, Fields}
use try_ops_try_on_mlops.Base.Python.{Python}
use try_ops_try_on_mlops.Base.Result.{Result, ok, ◌>>=◌, traverse, get_elem?-traverse, >>=-eq-ok}
use try_ops_try_on_mlops.Base.Sets.{sorted_repeated, sorted_repeated-distinct}
use try_ops_try_on_mlops.Base.Text.{strip}
use try_ops_try_on_mlops.Auth.Keys.{KeyEntry, AuthDecision, keys_of, normalize_entry}
use try_ops_try_on_mlops.Auth.Audit.{
  RegistryAudit, hashes_of, audit_keys, audit_api_key_registry, scopes_or_default,
}
use try_ops_try_on_mlops.Auth.Authorized.{Granted}

get_elem?-map :
    (es : List KeyEntry) (i : ℕ) (e : KeyEntry)
    → get_elem? es i ≡ some e
    → get_elem? (hashes_of es) i ≡ some e.key_hash_sha256
get_elem?-map [] i e h = cc (h)
get_elem?-map (x ∷ es) zero e h =
    let same : x ≡ e = cc (h) in ap (λ (y : KeyEntry). some y.key_hash_sha256) same
get_elem?-map (x ∷ es) (suc i) e h = get_elem?-map es i e h

module _ (py : Python) where
  passed-unrepeated :
      (entries : List Json) (keys : List KeyEntry) (required : List String)
      → (audit_keys py entries keys required).passed ≡ true
      → is_empty (sorted_repeated (hashes_of keys)) ≡ true
  unfolding audit_keys
  passed-unrepeated entries keys required h = ground arith

  -- In a registry that passes the audit, two entries with one hash stand in one place.
  pub audit_api_key_registry-distinct :
      (registry : Fields) (required : Option (List String)) (report : RegistryAudit)
      (entries : List Json) (i j : ℕ) (a b : Json) (e f : KeyEntry)
      → audit_api_key_registry py registry required ≡ ok report
      → report.passed ≡ true
      → keys_of registry ≡ ok entries
      → get_elem? entries i ≡ some a
      → get_elem? entries j ≡ some b
      → normalize_entry py a ≡ ok e
      → normalize_entry py b ≡ ok f
      → e.key_hash_sha256 ≡ f.key_hash_sha256
      → i ≡ j
  unfolding audit_api_key_registry
  audit_api_key_registry-distinct registry required report entries i j a b e f h passed listed ai bj
        ae bf same =
      let report_on : List Json → List KeyEntry → Result RegistryAudit =
        λ xs keys. ok (audit_keys py xs keys (scopes_or_default required)) in
      let (xs, listed', h1) =
        >>=-eq-ok (keys_of registry) (λ xs. traverse (normalize_entry py) xs >>= report_on xs)
          report h in
      let one : xs ≡ entries = cc (listed, listed') in
      let (keys, read, h2) =
        >>=-eq-ok (traverse (normalize_entry py) xs) (report_on xs) report h1 in
      let made : audit_keys py xs keys (scopes_or_default required) ≡ report = cc (h2) in
      let unrepeated =
        passed-unrepeated xs keys (scopes_or_default required)
          (ap (λ (r : RegistryAudit). r.passed) made ∙ passed) in
      let ki = get_elem?-traverse (normalize_entry py) xs keys i a e read (rw one ai) ae in
      let kj = get_elem?-traverse (normalize_entry py) xs keys j b f read (rw one bj) bf in
      sorted_repeated-distinct (hashes_of keys) i j f.key_hash_sha256 unrepeated
        (get_elem?-map keys i e ki ∙ ap some same) (get_elem?-map keys j f kj)

  -- Where the registry that was asked passes the audit, the entry that grants a scope is the only one with the key's
  -- hash, active or not.
  pub Granted-unambiguous :
      (sha256 : String → String) (loaded : Result Fields) (key scope : String)
      (registry : Option Fields) (d : AuthDecision)
      (g : Granted py sha256 loaded key scope registry d) (required : Option (List String))
      (report : RegistryAudit) (j : ℕ) (other : Json) (f : KeyEntry)
      → audit_api_key_registry py g.asked required ≡ ok report
      → report.passed ≡ true
      → get_elem? g.entries j ≡ some other
      → normalize_entry py other ≡ ok f
      → f.key_hash_sha256 ≡ sha256 (strip key)
      → j ≡ g.first.index
  Granted-unambiguous sha256 loaded key scope registry d g required report j other f h passed at
        read hash =
      let (is_read, _, is_hash) = g.first.active in
      audit_api_key_registry-distinct g.asked required report g.entries j g.first.index other
        g.first.entry f g.entry h passed g.entries_eq at g.first.found read is_read
        (hash ∙ sym is_hash)
