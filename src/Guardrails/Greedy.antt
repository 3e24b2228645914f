-- ===== src/Guardrails/Greedy.antt =====
-- The first loops of `redact_pii` against a description that knows no positions, only spans.
use try_ops_try_on_mlops.Base.{
  contains-append, ℕ, zero, suc, ◌+◌, ◌-◌, leb, ltb, min, max, nat_eq, String, Bool, true, false,
  ◌||◌, ◌&&◌, ◌≡◌, refl, sym, ap, ◌∙◌, inl, inr, List, [], ◌∷◌, ◌++◌, any, contains, if◌then◌else◌,
  arith, Bool-cases,
}
use try_ops_try_on_mlops.Base.Python.{Python}
use try_ops_try_on_mlops.Base.Slices.{slice}
use try_ops_try_on_mlops.Guardrails.Redaction.{
  Match, EntityType, Scan, range, occupied_by, take_match, take_matches, scan_patterns,
  pii_patterns, mask, redact_pii,
}

-- Two spans have a position in common.
abbrev pub overlaps : ℕ → ℕ → Match → Bool
overlaps start end m = ltb (max start m.start) (min end m.end)

abbrev pub match_of : String → EntityType → ℕ × ℕ → Match
match_of source entity_type (start, end) = record {
  start = start;
  end = end;
  entity_type = entity_type;
  original = slice start end source;
}

-- One match after the other is taken that has no position in common with one taken before.
abbrev pub greedy : List Match → List Match → List Match
greedy taken [] = taken
greedy taken (m ∷ ms) =
    if any (overlaps m.start m.end) taken then greedy taken ms else greedy (taken ++ m ∷ []) ms

abbrev pub candidates_of : String → EntityType → List (ℕ × ℕ) → List Match
candidates_of source t [] = []
candidates_of source t (span ∷ spans) = match_of source t span ∷ candidates_of source t spans

-- what the patterns find, pattern by pattern
abbrev pub candidates : (EntityType → String → List (ℕ × ℕ)) → String → List EntityType → List Match
candidates finditer source [] = []
candidates finditer source (t ∷ types) =
    candidates_of source t (finditer t source) ++ candidates finditer source types

abbrev covers : ℕ → Match → Bool
covers i m = leb m.start i && ltb i m.end

abbrev Exact : List ℕ → List Match → Type 0
Exact occupied ms = (i : ℕ) → contains i occupied ≡ any (covers i) ms

contains-range : (i start n : ℕ) → contains i (range start n) ≡ (leb start i && ltb i (start + n))
contains-range i start zero = ground arith
contains-range i start (suc n) = ground (arith, contains-range i (suc start) n)

any-append : (p : Match → Bool) (xs ys : List Match) → any p (xs ++ ys) ≡ (any p xs || any p ys)
any-append p [] ys = refl
any-append p (x ∷ xs) ys = ground (arith, any-append p xs ys)

any-same : (p q : ℕ → Bool) (xs : List ℕ) → ((i : ℕ) → p i ≡ q i) → any p xs ≡ any q xs
any-same p q [] h = refl
any-same p q (x ∷ xs) h = let e = h x in let r = any-same p q xs h in ground arith

any-or : (p q : ℕ → Bool) (xs : List ℕ) → any (λ i. p i || q i) xs ≡ (any p xs || any q xs)
any-or p q [] = refl
any-or p q (x ∷ xs) = ground (arith, any-or p q xs)

any-none : (xs : List ℕ) → any (λ i. false) xs ≡ false
any-none [] = refl
any-none (x ∷ xs) = any-none xs

covers-overlaps :
    (m : Match) (start n : ℕ) → any (λ i. covers i m) (range start n) ≡ overlaps start (start + n) m
covers-overlaps m start zero = ground arith
covers-overlaps m start (suc n) = ground (arith, covers-overlaps m (suc start) n)

any-covers :
    (ms : List Match) (start n : ℕ)
    → any (λ i. any (covers i) ms) (range start n) ≡ any (overlaps start (start + n)) ms
any-covers [] start n = any-none (range start n)
any-covers (m ∷ ms) start n =
    let split = any-or (λ i. covers i m) (λ i. any (covers i) ms) (range start n) in
    let one = covers-overlaps m start n in
    let rest = any-covers ms start n in
    split
    ∙ ap (λ t. t || any (λ i. any (covers i) ms) (range start n)) one
    ∙ ap (λ t. overlaps start (start + n) m || t) rest

any-overlaps_end :
    (ms : List Match) (start end : ℕ)
    → any (overlaps start (start + (end - start))) ms ≡ any (overlaps start end) ms
any-overlaps_end [] start end = refl
any-overlaps_end (m ∷ ms) start end = ground (arith, any-overlaps_end ms start end)

-- Where the positions are those of the matches, a span meets the positions exactly if it meets a match.
occupied_by-overlaps :
    (occupied : List ℕ) (ms : List Match) (start end : ℕ)
    → Exact occupied ms
    → occupied_by occupied start end ≡ any (overlaps start end) ms
occupied_by-overlaps occupied ms start end exact =
    any-same (λ i. contains i occupied) (λ i. any (covers i) ms) (range start (end - start)) exact
    ∙ any-covers ms start (end - start)
    ∙ any-overlaps_end ms start end

Exact-append :
    (occupied : List ℕ) (ms : List Match) (m : Match)
    → Exact occupied ms
    → Exact (occupied ++ range m.start (m.end - m.start)) (ms ++ m ∷ [])
Exact-append occupied ms m exact i =
    let a = contains-append i occupied (range m.start (m.end - m.start)) in
    let b = contains-range i m.start (m.end - m.start) in
    let c = any-append (covers i) ms (m ∷ []) in let e = exact i in ground (arith, a, b, c, e)

record Refines (source : String) (scan scan' : Scan) (found : List Match) : Type 0 where
  exact : Exact scan'.occupied scan'.matches
  taken : (later : List Match) → greedy scan'.matches later ≡ greedy scan.matches (found ++ later)

take_match-Refines :
    (source : String) (t : EntityType) (span : ℕ × ℕ) (scan : Scan)
    → Exact scan.occupied scan.matches
    → Refines source scan (take_match source t span scan) (match_of source t span ∷ [])
take_match-Refines source t (start, end) scan exact =
    let m = match_of source t (start, end) in
    let met = occupied_by-overlaps scan.occupied scan.matches start end exact in
    elim (Bool-cases (occupied_by scan.occupied start end)) [
      | inl hit ↦
          let same : any (overlaps start end) scan.matches ≡ true = sym met ∙ hit in
          rw hit (record { exact = exact; taken = λ later. rw same refl })
      | inr miss ↦
          let none_met : any (overlaps start end) scan.matches ≡ false = sym met ∙ miss in
          rw miss (record {
            exact = Exact-append scan.occupied scan.matches m exact;
            taken = λ later. rw none_met refl;
          })
    ]

take_matches-Refines :
    (source : String) (t : EntityType) (spans : List (ℕ × ℕ)) (scan : Scan)
    → Exact scan.occupied scan.matches
    → Refines source scan (take_matches source t spans scan) (candidates_of source t spans)
take_matches-Refines source t [] scan exact = record { exact = exact; taken = λ later. refl }
take_matches-Refines source t (span ∷ spans) scan exact =
    let first = take_match-Refines source t span scan exact in
    let rest = take_matches-Refines source t spans (take_match source t span scan) first.exact in
    record {
      exact = rest.exact;
      taken = λ later. rest.taken later ∙ first.taken (candidates_of source t spans ++ later);
    }

scan_patterns-greedy_from :
    (finditer : EntityType → String → List (ℕ × ℕ)) (source : String) (types : List EntityType)
    (scan : Scan)
    → Exact scan.occupied scan.matches
    → (scan_patterns finditer source types scan).matches
      ≡ greedy scan.matches (candidates finditer source types)
scan_patterns-greedy_from finditer source [] scan exact = refl
scan_patterns-greedy_from finditer source (t ∷ types) scan exact =
    let first = take_matches-Refines source t (finditer t source) scan exact in
    scan_patterns-greedy_from finditer source types (take_matches source t (finditer t source) scan)
      first.exact
    ∙ first.taken (candidates finditer source types)

-- `redact_pii` masks what the description takes: of what the patterns find, in their order, each match that has no
-- position in common with one taken before.
pub redact_pii-greedy :
    (finditer : EntityType → String → List (ℕ × ℕ)) (py : Python) (source : String)
    → redact_pii finditer py source
      ≡ mask py source (greedy [] (candidates finditer source pii_patterns))
unfolding redact_pii
redact_pii-greedy finditer py source = ap (mask py source) (
    scan_patterns-greedy_from finditer source pii_patterns (record { matches = []; occupied = [] })
      (λ i. refl))
