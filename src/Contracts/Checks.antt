-- ===== src/Contracts/Checks.antt =====
-- src/tryops/api_contracts.py: the checks that the validations are made of. The values of a payload,
-- Python's conversions of them and the file system are a parameter.
use try_ops_try_on_mlops.Base.{
  ℕ, ◌*◌, String, string_eq, Bool, true, false, Option, none, some, List, [], ◌∷◌, ◌++◌, ◌==◌, ◌||◌,
  not, contains, ltb, if◌then◌else◌,
}
use text.Mathlib.Text.{starts_with}
use Prim.Native.String.{count}
use try_ops_try_on_mlops.Base.Dict.{Dict, lookup}
use try_ops_try_on_mlops.Base.Int.{ℤ, pos, ltb_ℤ, ◌-ℤ◌}
use try_ops_try_on_mlops.Base.Python.{Conversion, converted, refused, overflow}
use try_ops_try_on_mlops.Base.Result.{Result, raised, ok}
use try_ops_try_on_mlops.Base.Text.{strip, concat}

-- `value_text` is `str(v)`, `as_bool` is none unless `isinstance(v, bool)`, `literal` is the float
-- written so in the source, and `suffix` is `Path(t).suffix`.
pub record Python : Type 1 where
  pub Value : Type 0
  pub Float : Type 0
  pub value_text : Value → String
  pub as_bool : Value → Option Bool
  pub is_none : Value → Bool
  pub int_of : Value → Conversion ℤ
  pub float_of : Value → Conversion Float
  pub float_lt : Float → Float → Bool
  pub literal : String → Float
  pub float_sub : Float → Float → Float
  pub int_text : ℤ → String
  pub float_text : Float → String
  pub lower : String → String
  pub suffix : String → String
  pub exists : String → Bool
  pub is_file : String → Bool
  pub size_bytes : String → ℕ

pub record FieldError : Type 0 where
  pub field : String
  pub message : String

-- A value, and the errors that are appended on the way to it.
abbrev pub Checked : Type 0 → Type 0
Checked A = A × List FieldError

-- `if test: errors.append(...)`
abbrev pub error_if : Bool → String → String → List FieldError
error_if true field message = record { field = field; message = message } ∷ []
error_if false field message = []

abbrev pub append_all : List (List FieldError) → List FieldError
append_all [] = []
append_all (errors ∷ rest) = errors ++ append_all rest

abbrev pub max_image_bytes : ℕ
max_image_bytes = 10 * 1024 * 1024

abbrev pub max_timeout_ms : ℤ
max_timeout_ms = pos 300000

-- `t or default`
abbrev pub or_default : String → String → String
or_default t default = if t == "" then default else t

-- `value < minimum or value > maximum`
abbrev pub int_outside : ℤ → ℤ → ℤ → Bool
int_outside minimum maximum n = ltb_ℤ n minimum || ltb_ℤ maximum n

-- A number from a conversion, `fallback` and an error where there is none.
abbrev pub convert : {A : Type 0} → Conversion A → A → String → String → Result (Checked A)
convert (converted n) fallback field message = ok (n, [])
convert refused fallback field message = ok (fallback, error_if true field message)
convert overflow fallback field message = raised "OverflowError"

-- a test on top of the errors so far
abbrev pub also :
    {A : Type 0} → (A → Bool) → String → String → Result (Checked A) → Result (Checked A)
also bad field message (raised text) = raised text
also bad field message (ok (n, errors)) = ok (n, errors ++ error_if (bad n) field message)

module _ (P : Python) where
  abbrev pub Payload : Type 0
  Payload = Dict String P.Value

  -- `str(payload.get(field, default))`
  abbrev pub text_at : Payload → String → String → String
  text_at payload field default = elim (lookup field payload) [
    | none ↦ default
    | some v ↦ P.value_text v
  ]

  -- a missing field or `None`
  abbrev pub value_at : Payload → String → Option P.Value
  value_at payload field = elim (lookup field payload) [
    | none ↦ none
    | some v ↦ if P.is_none v then none else some v
  ]

  -- `str(payload.get(field, default)).strip().lower() or default`, one of some texts
  unfoldable pub check_choice : Payload → String → String → List String → String → Checked String
  check_choice payload field default choices message =
      let value = or_default (P.lower (strip (text_at payload field default))) default in
      (value, error_if (not (contains value choices)) field message)

  -- one of some texts as it stands
  unfoldable pub check_exact :
      Payload → String → String → List String → (String → String) → Checked String
  check_exact payload field default choices message =
      let value = text_at payload field default in
      (value, error_if (not (contains value choices)) field (message value))

  unfoldable pub check_user_id : Payload → Checked String
  check_user_id payload =
      let value = or_default (strip (text_at payload "user_id" "anonymous")) "anonymous" in
      (value, error_if (ltb 128 (count value)) "user_id" "user_id must be at most 128 characters")

  unfoldable pub check_bool : Payload → String → Bool → String → Checked Bool
  check_bool payload field default message = elim (lookup field payload) [
    | none ↦ (default, [])
    | some v ↦ elim (P.as_bool v) [
      | none ↦ (default, error_if true field message)
      | some b ↦ (b, [])
    ]
  ]

  abbrev int_at : Payload → String → ℤ → Conversion ℤ
  int_at payload field default = elim (lookup field payload) [
    | none ↦ converted default
    | some v ↦ P.int_of v
  ]

  abbrev float_at : Payload → String → P.Float → Conversion P.Float
  float_at payload field default = elim (lookup field payload) [
    | none ↦ converted default
    | some v ↦ P.float_of v
  ]

  abbrev pub float_outside : P.Float → P.Float → P.Float → Bool
  float_outside minimum maximum x = P.float_lt x minimum || P.float_lt maximum x

  unfoldable pub validate_int_range : Payload → String → ℤ → ℤ → ℤ → Result (Checked ℤ)
  validate_int_range payload field default minimum maximum =
      also (int_outside minimum maximum) field
        (concat
          (field ∷ " must be between " ∷ P.int_text minimum ∷ " and " ∷ P.int_text maximum ∷ []))
        (convert (int_at payload field default) (minimum -ℤ pos 1) field
          (concat (field ∷ " must be an integer" ∷ [])))

  unfoldable pub validate_float_range :
      Payload → String → P.Float → P.Float → P.Float → Result (Checked P.Float)
  validate_float_range payload field default minimum maximum =
      also (float_outside minimum maximum) field
        (concat (
          field ∷ " must be between " ∷ P.float_text minimum ∷ " and " ∷ P.float_text maximum ∷ []))
        (convert (float_at payload field default) (P.float_sub minimum (P.literal "1.0")) field
          (concat (field ∷ " must be numeric" ∷ [])))

  unfoldable pub validate_timeout_ms : Payload → ℤ → Result (Checked ℤ)
  validate_timeout_ms payload default_ms =
      also (int_outside (pos 1) max_timeout_ms) "timeout_ms"
        (concat ("timeout_ms must be between 1 and " ∷ P.int_text max_timeout_ms ∷ []))
        (convert (int_at payload "timeout_ms" default_ms) (pos 0) "timeout_ms"
          "timeout_ms must be an integer")

  unfoldable pub check_canary_percent : Payload → Result (Checked P.Float)
  check_canary_percent payload =
      also (float_outside (P.literal "0.0") (P.literal "100.0")) "canary_percent"
        "canary_percent must be between 0 and 100"
        (convert (float_at payload "canary_percent" (P.literal "0.0")) (P.literal "-1.0")
          "canary_percent" "canary_percent must be numeric")

  unfoldable pub validate_local_image_path : String → String → List FieldError
  validate_local_image_path field path =
      error_if (not (contains (P.lower (P.suffix path)) (".png" ∷ ".jpg" ∷ ".jpeg" ∷ []))) field
        "image must be PNG or JPEG"
      ++ (if not (P.exists path)
          then error_if true field "image path does not exist"
          else (if not (P.is_file path)
              then error_if true field "image path must be a file"
              else error_if (ltb max_image_bytes (P.size_bytes path)) field (
                  concat
                    ("image exceeds " ∷ P.int_text (pos max_image_bytes) ∷ " byte limit" ∷ []))))

  -- the check of an image that is given, unless it is an artifact
  unfoldable pub check_image : Payload → String → List FieldError
  unfolding validate_local_image_path
  check_image payload field = elim (value_at payload field) [
    | none ↦ []
    | some v ↦
        let path = P.value_text v in
        if starts_with path "artifact:" then [] else validate_local_image_path field path
  ]
