-- ===== src/Router/Body.antt =====
-- scripts/serve_fashn_vton_router.py: `_request_attrs_from_body`, `_optional_str` and `_optional_int`. The decoding of
-- the bytes and `json.loads` are Python's: a body is given by what they make of it.
use try_ops_try_on_mlops.Base.{
  String, string_eq, Bool, true, false, ◌≡◌, refl, Option, none, some, if◌then◌else◌, ◌==◌, arith,
}
use try_ops_try_on_mlops.Base.Dict.{Dict, lookup}
use try_ops_try_on_mlops.Base.Int.{ℤ}
use try_ops_try_on_mlops.Base.Python.{Conversion, converted, refused, overflow}
use try_ops_try_on_mlops.Base.Result.{Result, ok, raised, ◌>>=◌}
use try_ops_try_on_mlops.Base.Text.{strip}

-- A value of a dict, by its text if it is one and by what `int(value)` comes to.
pub record Value : Type 0 where
  pub text : Option String
  pub int : Conversion ℤ

-- `unreadable` is a `UnicodeDecodeError` or a `JSONDecodeError`, `failing` any other exception of `json.loads` (as for a
-- number of more digits than Python converts).
pub data Body : Type 0 where
  unreadable : Body
  failing : String → Body
  other_value : Body
  fields : Dict String Value → Body

pub record RequestAttrs : Type 0 where
  pub request_id : Option String
  pub job_id : Option String
  pub category : Option String
  pub garment_photo_type : Option String
  pub num_timesteps : Option ℤ

-- `_optional_str`, of a missing value (`None`) too
abbrev pub optional_str : Option Value → Option String
optional_str none = none
optional_str (some v) = elim v.text [
  | none ↦ none
  | some t ↦ if strip t == "" then none else some (strip t)
]

-- `_optional_int`: an `OverflowError` is not caught.
abbrev pub optional_int : Option Value → Result (Option ℤ)
optional_int none = ok none
optional_int (some v) = elim v.int [
  | converted n ↦ ok (some n)
  | refused ↦ ok none
  | overflow ↦ raised "OverflowError"
]

-- `payload.get("num_timesteps", payload.get("num_inference_steps"))`
abbrev steps_value : Dict String Value → Option Value
steps_value payload = elim (lookup "num_timesteps" payload) [
  | some v ↦ some v
  | none ↦ lookup "num_inference_steps" payload
]

-- `_request_attrs_from_body`; `none` is the empty dict.
unfoldable pub request_attrs_from_body : Body → Result (Option RequestAttrs)
request_attrs_from_body unreadable = ok none
request_attrs_from_body (failing text) = raised text
request_attrs_from_body other_value = ok none
request_attrs_from_body (fields payload) = do
  steps ← optional_int (steps_value payload)
  ok (
      some (record {
        request_id = optional_str (lookup "request_id" payload);
        job_id = optional_str (lookup "job_id" payload);
        category = optional_str (lookup "category" payload);
        garment_photo_type = optional_str (lookup "garment_photo_type" payload);
        num_timesteps = steps;
      }))

-- No exception comes from the body: `json.loads` raises none but the two that are caught, and no overflow is met in
-- the number of steps, which is the one under "num_inference_steps" if "num_timesteps" is missing.
abbrev pub is_acceptable : Body → Bool
is_acceptable unreadable = true
is_acceptable (failing text) = false
is_acceptable other_value = true
is_acceptable (fields payload) = elim (lookup "num_timesteps" payload) [
  | some v ↦ fits v
  | none ↦ elim (lookup "num_inference_steps" payload) [ none ↦ true | some v ↦ fits v ]
]
  where
    fits : Value → Bool
    fits v = elim v.int [ converted n ↦ true | refused ↦ true | overflow ↦ false ]

abbrev pub succeeds {ℓ} : {A : Type ℓ} → Result A → Bool
succeeds (raised text) = false
succeeds (ok a) = true

pub succeeds-request_attrs_from_body :
    (body : Body) → succeeds (request_attrs_from_body body) ≡ is_acceptable body
unfolding request_attrs_from_body
succeeds-request_attrs_from_body unreadable = refl
succeeds-request_attrs_from_body (failing text) = refl
succeeds-request_attrs_from_body other_value = refl
succeeds-request_attrs_from_body (fields payload) = ground arith
