-- ===== src/Guardrails/Redaction.antt =====
-- src/tryops/guardrails.py: `redact_pii` and `restore_pii_placeholders`. What a compiled pattern finds in a text
-- (`pattern.finditer`, as the spans of its matches) is a parameter.
use try_ops_try_on_mlops.Base.{
  ℕ, zero, suc, ◌-◌, leb, nat_eq, String, string_eq, Bool, List, [], ◌∷◌, ◌++◌, any, contains,
  if◌then◌else◌,
}
use try_ops_try_on_mlops.Base.Dict
use try_ops_try_on_mlops.Base.Dict.{Dict, insert}
use try_ops_try_on_mlops.Base.Int.{pos}
use try_ops_try_on_mlops.Base.Json.{num}
use try_ops_try_on_mlops.Base.Python.{Python}
use try_ops_try_on_mlops.Base.Sort.{sort_by}
use try_ops_try_on_mlops.Base.Text.{concat, replace}
use try_ops_try_on_mlops.Base.Slices.{slice, drop_text}

-- the first components of `PII_PATTERNS`
pub data EntityType : Type 0 where
  api_key secret_assignment email ssn phone payment_card : EntityType

abbrev pub entity_text : EntityType → String
entity_text api_key = "api_key"
entity_text secret_assignment = "secret_assignment"
entity_text email = "email"
entity_text ssn = "ssn"
entity_text phone = "phone"
entity_text payment_card = "payment_card"

-- `entity_type.upper()`
abbrev pub entity_upper : EntityType → String
entity_upper api_key = "API_KEY"
entity_upper secret_assignment = "SECRET_ASSIGNMENT"
entity_upper email = "EMAIL"
entity_upper ssn = "SSN"
entity_upper phone = "PHONE"
entity_upper payment_card = "PAYMENT_CARD"

-- the order of `PII_PATTERNS`
abbrev pub pii_patterns : List EntityType
pii_patterns = api_key ∷ secret_assignment ∷ email ∷ ssn ∷ phone ∷ payment_card ∷ []

pub record Match : Type 0 where
  pub start : ℕ
  pub end : ℕ
  pub entity_type : EntityType
  pub original : String

pub record Replacement : Type 0 where
  pub entity_type : EntityType
  pub token : String
  pub start : ℕ
  pub end : ℕ

pub record RedactionResult : Type 0 where
  pub redacted_text : String
  pub replacements : List Replacement
  pub token_map : Dict String String

-- `range(start, start + n)`
abbrev pub range : ℕ → ℕ → List ℕ
range start zero = []
range start (suc n) = start ∷ range (suc start) n

-- `matches` and `occupied`, the positions of the matches
pub record Scan : Type 0 where
  pub matches : List Match
  pub occupied : List ℕ

-- what the second loop carries
pub record Masking : Type 0 where
  pub pieces : List String
  pub cursor : ℕ
  pub counters : Dict String ℕ
  pub replacements : List Replacement
  pub token_map : Dict String String

abbrev pub unmasked : Masking
unmasked = record { pieces = []; cursor = 0; counters = []; replacements = []; token_map = [] }

abbrev pub occupied_by : List ℕ → ℕ → ℕ → Bool
occupied_by occupied start end = any (λ i. contains i occupied) (range start (end - start))

-- the body of the loop over the matches of one pattern
abbrev pub take_match : String → EntityType → ℕ × ℕ → Scan → Scan
take_match source entity_type (start, end) scan =
    if occupied_by scan.occupied start end then scan else record {
      matches =
          scan.matches
          ++ record {
            start = start;
            end = end;
            entity_type = entity_type;
            original = slice start end source;
          }
            ∷ [];
      occupied = scan.occupied ++ range start (end - start);
    }

abbrev pub take_matches : String → EntityType → List (ℕ × ℕ) → Scan → Scan
take_matches source entity_type [] scan = scan
take_matches source entity_type (span ∷ spans) scan =
    take_matches source entity_type spans (take_match source entity_type span scan)

-- the token of the next match of a type
abbrev pub token_of : Python → EntityType → ℕ → String
token_of py entity_type n =
    concat
      ("{{TRYOPS_PII_" ∷ entity_upper entity_type ∷ "_" ∷ py.json_text (num (pos n)) ∷ "}}" ∷ [])

-- the body of the loop over the sorted matches
abbrev pub mask_match : Python → String → Match → Masking → Masking
mask_match py source match m =
    let count = suc (Dict.get_or (entity_text match.entity_type) 0 m.counters) in
    let token = token_of py match.entity_type count in
    record {
      pieces = m.pieces ++ slice m.cursor match.start source ∷ token ∷ [];
      cursor = match.end;
      counters = insert (entity_text match.entity_type) count m.counters;
      replacements =
          m.replacements
          ++ record {
            entity_type = match.entity_type;
            token = token;
            start = match.start;
            end = match.end;
          }
            ∷ [];
      token_map = insert token match.original m.token_map;
    }

abbrev pub mask_matches : Python → String → List Match → Masking → Masking
mask_matches py source [] m = m
mask_matches py source (match ∷ matches) m =
    mask_matches py source matches (mask_match py source match m)

abbrev pub sorted_matches : List Match → List Match
sorted_matches matches = sort_by (λ (a : Match) (b : Match). leb a.start b.start) matches

-- `"".join(pieces)` with what is behind the last match
unfoldable pub mask : Python → String → List Match → RedactionResult
unfolding drop_text
mask py source matches =
    let m = mask_matches py source (sorted_matches matches) unmasked in
    record {
      redacted_text = concat (m.pieces ++ drop_text m.cursor source ∷ []);
      replacements = m.replacements;
      token_map = m.token_map;
    }

module _ (finditer : EntityType → String → List (ℕ × ℕ)) where
  abbrev pub scan_patterns : String → List EntityType → Scan → Scan
  scan_patterns source [] scan = scan
  scan_patterns source (entity_type ∷ rest) scan =
      scan_patterns source rest (take_matches source entity_type (finditer entity_type source) scan)

  unfoldable pub redact_pii : Python → String → RedactionResult
  unfolding mask
  redact_pii py source =
      mask py source
        (scan_patterns source pii_patterns (record { matches = []; occupied = [] })).matches

-- `restore_pii_placeholders`
abbrev pub restore_tokens : Dict String String → String → String
restore_tokens [] text = text
restore_tokens ((token, original) ∷ rest) text = restore_tokens rest (replace text token original)

unfoldable pub restore_pii_placeholders : String → RedactionResult → String
restore_pii_placeholders text redaction = restore_tokens redaction.token_map text
