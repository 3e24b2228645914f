-- ===== src/Guardrails/Spans.antt =====
-- The matches that the loops of `redact_pii` take: spans of the text that do not overlap.
use try_ops_try_on_mlops.Base.{
  contains-append, ℕ, zero, suc, ◌+◌, ◌-◌, ◌≤◌, ◌<◌, leb, nat_eq, String, true, false, ◌≡◌, inl,
  inr, refl, List, [], ◌∷◌, ◌++◌, any, contains, All, All-append, ◌==◌, arith, Bool-cases,
}
use try_ops_try_on_mlops.Base.Slices.{slice}
use try_ops_try_on_mlops.Guardrails.Redaction.{
  Match, EntityType, Scan, range, occupied_by, take_match, take_matches, scan_patterns,
  pii_patterns, sorted_matches,
}
use try_ops_try_on_mlops.Guardrails.Order.{
  Disjoint, IsSpan, FindsSpans, IsMatch, Pairwise, InOrder, sort-InOrder,
}

abbrev Taken : List ℕ → Match → Type 0
Taken occupied m = (i : ℕ) → m.start ≤ i → i < m.end → contains i occupied ≡ true

abbrev Sound : String → List ℕ → Match → Type 0
Sound source occupied m = IsMatch source m × Taken occupied m

abbrev Scanned : String → Scan → Type 0
Scanned source scan = Pairwise scan.matches × All (Sound source scan.occupied) scan.matches

only_matches :
    (source : String) (occupied : List ℕ) (ms : List Match)
    → All (Sound source occupied) ms
    → All (IsMatch source) ms
only_matches source occupied [] h = tt
only_matches source occupied (m ∷ ms) h = (h.0.0, only_matches source occupied ms h.1)

contains-range : (i start n : ℕ) → start ≤ i → i < start + n → contains i (range start n) ≡ true
contains-range i start zero a b = absurd (omega arith)
contains-range i start (suc n) a b = elim (Bool-cases (i == start)) [
  | inl same ↦ ground arith
  | inr other ↦
      let more = contains-range i (suc start) n (ground arith) (omega arith) in ground arith
]

free :
    (occupied : List ℕ) (start n i : ℕ)
    → any (λ j. contains j occupied) (range start n) ≡ false
    → start ≤ i
    → i < start + n
    → contains i occupied ≡ false
free occupied start zero i h a b = absurd (omega arith)
free occupied start (suc n) i h a b = elim (Bool-cases (i == start)) [
  | inl same ↦ let eq : i ≡ start = ground arith in ground arith
  | inr other ↦ free occupied (suc start) n i (ground arith) (ground arith) (omega arith)
]

-- A span whose positions are free does not meet a match whose positions are taken.
apart :
    (occupied : List ℕ) (m new : Match)
    → m.start < m.end
    → new.start < new.end
    → Taken occupied m
    → occupied_by occupied new.start new.end ≡ false
    → Disjoint m new
apart occupied m new hm hn taken clear = elim (Bool-cases (leb m.end new.start)) [
  | inl h ↦ inl (ground arith)
  | inr h ↦ elim (Bool-cases (leb new.end m.start)) [
    | inl k ↦ inr (ground arith)
    | inr k ↦ elim (Bool-cases (leb m.start new.start)) [
      | inl before ↦
          let t = taken new.start (ground arith) (ground arith) in
          let f =
            free occupied new.start (new.end - new.start) new.start clear (omega arith)
              (omega arith) in
          absurd (cc (t, f))
      | inr behind ↦
          let t = taken m.start (omega arith) (omega arith) in
          let f =
            free occupied new.start (new.end - new.start) m.start clear (ground arith)
              (ground arith) in
          absurd (cc (t, f))
    ]
  ]
]

apart-All :
    (source : String) (occupied : List ℕ) (ms : List Match) (new : Match)
    → new.start < new.end
    → occupied_by occupied new.start new.end ≡ false
    → All (Sound source occupied) ms
    → All (λ m. Disjoint m new) ms
apart-All source occupied [] new hn clear h = tt
apart-All source occupied (m ∷ ms) new hn clear h =
    (apart occupied m new h.0.0.0.0 hn h.0.1 clear, apart-All source occupied ms new hn clear h.1)

Pairwise-append :
    (ms : List Match) (new : Match)
    → Pairwise ms
    → All (λ m. Disjoint m new) ms
    → Pairwise (ms ++ new ∷ [])
Pairwise-append [] new p d = (tt, tt)
Pairwise-append (m ∷ ms) new p d =
    (All-append (Disjoint m) ms (new ∷ []) p.0 (d.0, tt), Pairwise-append ms new p.1 d.1)

more_taken :
    (source : String) (occupied more : List ℕ) (ms : List Match)
    → All (Sound source occupied) ms
    → All (Sound source (occupied ++ more)) ms
more_taken source occupied more [] h = tt
more_taken source occupied more (m ∷ ms) h = (
  (h.0.0, λ i a b. let t = h.0.1 i a b in ground (arith, contains-append i occupied more)),
  more_taken source occupied more ms h.1,
)

take_match-Scanned :
    (source : String) (entity_type : EntityType) (span : ℕ × ℕ) (scan : Scan)
    → IsSpan source span
    → Scanned source scan
    → Scanned source (take_match source entity_type span scan)
take_match-Scanned source entity_type (start, end) scan s h =
    let new : Match = record {
      start = start;
      end = end;
      entity_type = entity_type;
      original = slice start end source;
    } in
    elim (Bool-cases (occupied_by scan.occupied start end)) [
      | inl met ↦ rw met h
      | inr clear ↦
          let grown =
            more_taken source scan.occupied (range start (end - start)) scan.matches h.1 in
          let taken : Taken (scan.occupied ++ range start (end - start)) new = λ i a b.
            let here = contains-range i start (end - start) a (omega (arith, s.0)) in
            ground (arith, contains-append i scan.occupied (range start (end - start)), here) in
          rw clear (
            Pairwise-append scan.matches new h.0
                (apart-All source scan.occupied scan.matches new s.0 clear h.1),
            All-append (Sound source (scan.occupied ++ range start (end - start))) scan.matches
                (new ∷ []) grown (((s, refl), taken), tt),
          )
    ]

take_matches-Scanned :
    (source : String) (entity_type : EntityType) (spans : List (ℕ × ℕ)) (scan : Scan)
    → All (IsSpan source) spans
    → Scanned source scan
    → Scanned source (take_matches source entity_type spans scan)
take_matches-Scanned source entity_type [] scan s h = h
take_matches-Scanned source entity_type (span ∷ spans) scan s h =
    take_matches-Scanned source entity_type spans (take_match source entity_type span scan) s.1
      (take_match-Scanned source entity_type span scan s.0 h)

module _ (finditer : EntityType → String → List (ℕ × ℕ)) (finds : FindsSpans finditer) where
  scan_patterns-Scanned :
      (source : String) (types : List EntityType) (scan : Scan)
      → Scanned source scan
      → Scanned source (scan_patterns finditer source types scan)
  scan_patterns-Scanned source [] scan h = h
  scan_patterns-Scanned source (t ∷ types) scan h =
      scan_patterns-Scanned source types (take_matches source t (finditer t source) scan)
        (take_matches-Scanned source t (finditer t source) scan (finds t source) h)

  -- The matches, sorted by their starts, follow one another from a position on without overlapping.
  pub sorted-InOrder :
      (source : String)
      → InOrder source 0 (
          sorted_matches
            (scan_patterns finditer source pii_patterns
              (record { matches = []; occupied = [] })).matches)
  sorted-InOrder source =
      let h =
        scan_patterns-Scanned source pii_patterns (record { matches = []; occupied = [] })
          (tt, tt) in
      sort-InOrder source _ h.0 (only_matches source _ _ h.1)
