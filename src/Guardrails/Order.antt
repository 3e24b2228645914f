-- ===== src/Guardrails/Order.antt =====
-- Spans of a text that do not overlap, and their order once they are sorted by their starts.
use Prim.Native.String.{count}
use try_ops_try_on_mlops.Base.{
  ℕ, ◌≤◌, ◌<◌, leb, nat_eq, String, ◌≡◌, ◌⊎◌, inl, inr, List, [], ◌∷◌, All, arith, Bool-cases,
}
use try_ops_try_on_mlops.Base.Slices.{slice}
use try_ops_try_on_mlops.Base.Sort.{insert_by, sort_by, sort_by-All}
use try_ops_try_on_mlops.Guardrails.Redaction.{Match, EntityType, sorted_matches}

abbrev pub Disjoint : Match → Match → Type 0
Disjoint a b = (a.end ≤ b.start) ⊎ (b.end ≤ a.start)

-- A span of a text is not empty and ends in it.
abbrev pub IsSpan : String → ℕ × ℕ → Type 0
IsSpan source (start, end) = (start < end) × (end ≤ count source)

-- what a compiled pattern that cannot match the empty text finds
abbrev pub FindsSpans : (EntityType → String → List (ℕ × ℕ)) → Type 0
FindsSpans finditer =
    (entity_type : EntityType) (source : String) → All (IsSpan source) (finditer entity_type source)

abbrev pub IsMatch : String → Match → Type 0
IsMatch source m = IsSpan source (m.start, m.end) × (m.original ≡ slice m.start m.end source)

abbrev pub Pairwise : List Match → Type 0
Pairwise [] = Unit
Pairwise (m ∷ ms) = All (Disjoint m) ms × Pairwise ms

-- Matches that follow one another from `cursor` on.
abbrev pub InOrder : String → ℕ → List Match → Type 0
InOrder source cursor [] = Unit
InOrder source cursor (m ∷ ms) = (cursor ≤ m.start) × IsMatch source m × InOrder source m.end ms

insert-InOrder :
    (source : String) (cursor : ℕ) (new : Match) (ms : List Match)
    → cursor ≤ new.start
    → IsMatch source new
    → All (Disjoint new) ms
    → InOrder source cursor ms
    → InOrder source cursor (insert_by (λ (a : Match) (b : Match). leb a.start b.start) new ms)
unfolding insert_by
insert-InOrder source cursor new [] c is d h = (c, is, tt)
insert-InOrder source cursor new (m ∷ ms) c is d h = elim (Bool-cases (leb new.start m.start)) [
  | inl front ↦
      let before : new.end ≤ m.start =
        let (n, p, _) = h in elim d.0 [ inl e ↦ e | inr e ↦ absurd (ground (arith, p.0.0)) ] in
      rw front (c, is, (before, h.1, h.2))
  | inr behind ↦
      let after : m.end ≤ new.start = elim d.0 [
        | inl e ↦ absurd (let (_, p, _) = h in ground (arith, p.0.0, is.0.0, e))
        | inr e ↦ e
      ] in
      rw behind (h.0, h.1, insert-InOrder source m.end new ms after is d.1 h.2)
]

pub sort-InOrder :
    (source : String) (ms : List Match)
    → Pairwise ms
    → All (IsMatch source) ms
    → InOrder source 0 (sorted_matches ms)
unfolding sort_by
sort-InOrder source [] p h = tt
sort-InOrder source (m ∷ ms) p h =
    insert-InOrder source 0 m (sorted_matches ms) (omega arith) h.0
      (sort_by-All (λ (a : Match) (b : Match). leb a.start b.start) (Disjoint m) ms p.0)
      (sort-InOrder source ms p.1 h.1)
