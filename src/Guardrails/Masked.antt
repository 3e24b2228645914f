-- ===== src/Guardrails/Masked.antt =====
-- What `redact_pii` does to a text: it replaces the spans it lists by tokens, and nothing else.
use Prim.Native.String.{count, ◌++◌}
use text.Mathlib.TextLemmas.{append_assoc, nil-append, append-nil}
use mathlib.Core.List.{◌++◌ as append}
use mathlib.Core.Path.{subst}
use try_ops_try_on_mlops.Base.{
  ℕ, ◌≤◌, ◌<◌, suc, String, string_eq, ◌≡◌, refl, sym, ap, ◌∙◌, List, [], ◌∷◌, arith,
}
use try_ops_try_on_mlops.Base.Dict
use try_ops_try_on_mlops.Base.Dict.{insert}
use try_ops_try_on_mlops.Base.Python.{Python}
use try_ops_try_on_mlops.Base.Slices.{slice, drop_text, slice-drop}
use try_ops_try_on_mlops.Base.Text.{concat}
use try_ops_try_on_mlops.Guardrails.Redaction.{
  Match, Replacement, EntityType, Masking, RedactionResult, unmasked, mask_match, mask_matches,
  mask, token_of, entity_text, sorted_matches, scan_patterns, pii_patterns, redact_pii,
}
use try_ops_try_on_mlops.Guardrails.Order.{InOrder, FindsSpans}
use try_ops_try_on_mlops.Guardrails.Spans.{sorted-InOrder}

-- the texts in front of the replacements, each with what `f` gives for the replacement, and `tail` at the end
abbrev pub weave : (Replacement → String) → List (String × Replacement) → String → String
weave f [] tail = tail
weave f ((gap, r) ∷ parts) tail = gap ++ (f r ++ weave f parts tail)

abbrev pub token_text : Replacement → String
token_text r = r.token

abbrev pub source_text : String → Replacement → String
source_text source r = slice r.start r.end source

abbrev pub replacements_of : List (String × Replacement) → List Replacement
replacements_of [] = []
replacements_of ((gap, r) ∷ parts) = r ∷ replacements_of parts

-- Spans of a text that are not empty, in it, and follow one another without overlapping.
abbrev pub Follow : String → ℕ → List Replacement → Type 0
Follow source cursor [] = Unit
Follow source cursor (r ∷ rs) =
    (cursor ≤ r.start) × (r.start < r.end) × (r.end ≤ count source) × Follow source r.end rs

-- The redacted text is the source with the listed spans, which do not overlap, replaced by their tokens.
pub record Masked (source : String) (result : RedactionResult) : Type 0 where
  pub parts : List (String × Replacement)
  pub tail : String
  pub listed : result.replacements ≡ replacements_of parts
  pub redacted : result.redacted_text ≡ weave token_text parts tail
  pub unchanged : source ≡ weave (source_text source) parts tail
  pub follow : Follow source 0 result.replacements

-- The same for the rest of the second loop, behind what it has made so far.
record Rest (source : String) (m final : Masking) : Type 0 where
  parts : List (String × Replacement)
  tail : String
  listed : final.replacements ≡ append m.replacements (replacements_of parts)
  redacted :
      concat (append final.pieces (drop_text final.cursor source ∷ []))
      ≡ concat m.pieces ++ weave token_text parts tail
  unchanged : drop_text m.cursor source ≡ weave (source_text source) parts tail
  follow : Follow source m.cursor (replacements_of parts)

concat-append : (xs ys : List String) → concat (append xs ys) ≡ concat xs ++ concat ys
concat-append [] ys = sym (nil-append (concat ys))
concat-append (x ∷ xs) ys =
    ap (λ t. x ++ t) (concat-append xs ys) ∙ sym (append_assoc x (concat xs) (concat ys))

append-append {ℓ} :
    {A : Type ℓ} (xs ys zs : List A) → append (append xs ys) zs ≡ append xs (append ys zs)
append-append [] ys zs = refl
append-append (x ∷ xs) ys zs = ap (λ t. x ∷ t) (append-append xs ys zs)

append-none {ℓ} : {A : Type ℓ} (xs : List A) → append xs [] ≡ xs
append-none [] = refl
append-none (x ∷ xs) = ap (λ t. x ∷ t) (append-none xs)

mask_matches-Rest :
    (py : Python) (source : String) (matches : List Match) (m : Masking)
    → InOrder source m.cursor matches
    → Rest source m (mask_matches py source matches m)
mask_matches-Rest py source [] m h = record {
  parts = [];
  tail = drop_text m.cursor source;
  listed = sym (append-none m.replacements);
  redacted =
      concat-append m.pieces (drop_text m.cursor source ∷ [])
      ∙ ap (λ t. concat m.pieces ++ t) (append-nil (drop_text m.cursor source));
  unchanged = refl;
  follow = tt;
}
mask_matches-Rest py source (match ∷ matches) m h =
    let count_of = suc (Dict.get_or (entity_text match.entity_type) 0 m.counters) in
    let gap = slice m.cursor match.start source in
    let token = token_of py match.entity_type count_of in
    let r : Replacement = record {
      entity_type = match.entity_type;
      token = token;
      start = match.start;
      end = match.end;
    } in
    let next = mask_match py source match m in
    let rest = mask_matches-Rest py source matches next h.2 in
    record {
      parts = (gap, r) ∷ rest.parts;
      tail = rest.tail;
      listed = rest.listed ∙ append-append m.replacements (r ∷ []) (replacements_of rest.parts);
      redacted =
          rest.redacted
          ∙ ap (λ t. t ++ weave token_text rest.parts rest.tail)
              (concat-append m.pieces (gap ∷ token ∷ []))
          ∙ ap (λ t. (concat m.pieces ++ (gap ++ t)) ++ weave token_text rest.parts rest.tail)
              (append-nil token)
          ∙ append_assoc (concat m.pieces) (gap ++ token) (weave token_text rest.parts rest.tail)
          ∙ ap (λ t. concat m.pieces ++ t)
              (append_assoc gap token (weave token_text rest.parts rest.tail));
      unchanged =
          sym (slice-drop m.cursor match.start source h.0)
          ∙ ap (λ t. gap ++ t)
              (sym (slice-drop match.start match.end source (omega (arith, h.1.0.0)))
                ∙ ap (λ t. slice match.start match.end source ++ t) rest.unchanged);
      follow = (h.0, h.1.0.0, h.1.0.1, rest.follow);
    }

-- Where no pattern matches the empty text, the redacted text is the source with the listed spans replaced by their
-- tokens; the spans lie in the source, are not empty, and follow one another without overlapping.
pub redact_pii-Masked :
    (finditer : EntityType → String → List (ℕ × ℕ)) (finds : FindsSpans finditer) (py : Python)
    (source : String)
    → Masked source (redact_pii finditer py source)
unfolding redact_pii mask drop_text
redact_pii-Masked finditer finds py source =
    let ms =
      sorted_matches
        (scan_patterns finditer source pii_patterns
          (record { matches = []; occupied = [] })).matches in
    let rest = mask_matches-Rest py source ms unmasked (sorted-InOrder finditer finds source) in
    record {
      parts = rest.parts;
      tail = rest.tail;
      listed = rest.listed;
      redacted = rest.redacted ∙ nil-append (weave token_text rest.parts rest.tail);
      unchanged = rest.unchanged;
      follow = subst (Follow source 0) (sym rest.listed) rest.follow;
    }
