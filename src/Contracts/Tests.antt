-- ===== src/Contracts/Tests.antt =====
-- The validation of try-on requests at concrete inputs.
use try_ops_try_on_mlops.Base.{
  ℕ, ◌-◌, String, string_eq, true, false, ◌≡◌, refl, some, none, List, [], ◌∷◌, map, ltb, ◌==◌,
  if◌then◌else◌,
}
use try_ops_try_on_mlops.Base.Int.{ℤ, pos}
use try_ops_try_on_mlops.Base.Result.{Result, raised, ok}
use try_ops_try_on_mlops.Base.Text.{strip, lstrip_by, rstrip_by}
use try_ops_try_on_mlops.Base.Python.{Conversion, converted, refused, overflow}
use try_ops_try_on_mlops.Contracts.Checks.{
  Python, FieldError, Payload, check_choice, check_exact, check_user_id, check_bool,
  validate_int_range, validate_float_range, validate_timeout_ms, check_canary_percent,
  validate_local_image_path, check_image,
}
use try_ops_try_on_mlops.Contracts.Vton.{
  VtonRequest, check_given, check_texts, check_numbers, validate_vton_payload,
}
use try_ops_try_on_mlops.Contracts.Accepted.{Accepted, validate_vton_payload-Accepted}

abbrev number : String → Conversion ℕ
number t =
    if t == "20"
    then converted 20
    else (if t == "900" then converted 900 else (if t == "Infinity" then overflow else refused))

abbrev pos_of : Conversion ℕ → Conversion ℤ
pos_of (converted n) = converted (pos n)
pos_of refused = refused
pos_of overflow = overflow

-- texts for the values, tenths for the floats, and one large file
abbrev python : Python
python = record {
  Value = String;
  Float = ℕ;
  value_text = λ v. v;
  as_bool = λ v. if v == "True" then some true else (if v == "False" then some false else none);
  is_none = λ v. v == "None";
  int_of = λ v. pos_of (number v);
  float_of = number;
  float_lt = ltb;
  literal = λ t.
      if t == "100.0"
      then 1000
      else (if t == "10.0"
          then 100
          else (if t == "1.5"
              then 15
              else (if t == "1.0" then 10 else (if t == "0.1" then 1 else 0))));
  float_sub = λ a b. a - b;
  int_text = λ n. "n";
  float_text = λ n. "x";
  lower = λ t. t;
  suffix = λ path. ".png";
  exists = λ path. true;
  is_file = λ path. true;
  size_bytes = λ path. if path == "large.png" then 10485761 else 1000;
}

abbrev payload : Payload python
payload =
    ("person_image_path", "artifact:7")
    ∷ ("garment_image_path", "dress.png")
    ∷ ("output_image_path", "out.png")
    ∷ ("num_timesteps", "20")
    ∷ ("category", " bottoms ")
    ∷ []

abbrev request : VtonRequest python
request = record {
  model_alias = "champion";
  person_image_path = "artifact:7";
  garment_image_path = "dress.png";
  output_image_path = "out.png";
  cache_dir = "artifacts/cache/vton_preflight";
  routing_mode = "direct";
  canary_percent = 0;
  user_id = "anonymous";
  quota_plan = "free";
  timeout_ms = pos 300000;
  category = "bottoms";
  garment_photo_type = "model";
  num_timesteps = pos 20;
  guidance_scale = 15;
  seed = pos 555;
  segmentation_free = true;
}

payload-validated : validate_vton_payload python payload ≡ ok (request, [])
unfolding validate_vton_payload check_texts check_numbers check_given check_image
    validate_local_image_path check_choice check_exact check_user_id check_bool validate_int_range
    validate_float_range validate_timeout_ms check_canary_percent strip lstrip_by rstrip_by
payload-validated = refl

abbrev fields_of : Result (VtonRequest python × List FieldError) → List String
fields_of (raised text) = []
fields_of (ok (r, errors)) = map (λ e. e.field) errors

faults :
    fields_of (
      validate_vton_payload python (
        ("garment_image_path", "large.png")
        ∷ ("output_image_path", "None")
        ∷ ("seed", "x")
        ∷ ("num_timesteps", "900")
        ∷ []))
    ≡ "person_image_path" ∷ "output_image_path" ∷ "garment_image_path" ∷ "num_timesteps" ∷ "seed"
      ∷ "seed" ∷ []
unfolding validate_vton_payload check_texts check_numbers check_given check_image
    validate_local_image_path check_choice check_exact check_user_id check_bool validate_int_range
    validate_float_range validate_timeout_ms check_canary_percent strip lstrip_by rstrip_by
faults = refl

infinite_seed : validate_vton_payload python (("seed", "Infinity") ∷ []) ≡ raised "OverflowError"
unfolding validate_vton_payload check_texts check_numbers check_given check_image
    validate_local_image_path check_choice check_exact check_user_id check_bool validate_int_range
    validate_float_range validate_timeout_ms check_canary_percent strip lstrip_by rstrip_by
infinite_seed = refl

validate_vton_payload-Accepted_example : Accepted python payload request
validate_vton_payload-Accepted_example =
    validate_vton_payload-Accepted python payload request payload-validated
