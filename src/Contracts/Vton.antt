-- ===== src/Contracts/Vton.antt =====
-- src/tryops/api_contracts.py: `validate_vton_payload`.
use try_ops_try_on_mlops.Base.{String, string_eq, Bool, true, none, some, List, [], ◌∷◌, map}
use try_ops_try_on_mlops.Base.Int.{ℤ, pos}
use try_ops_try_on_mlops.Base.Result.{Result, ok, ◌>>=◌}
use try_ops_try_on_mlops.Base.Text.{concat}
use try_ops_try_on_mlops.Routing.Alias.{quoted, supported_vton_aliases}
use try_ops_try_on_mlops.Contracts.Checks.{
  Python, FieldError, Checked, error_if, append_all, Payload, text_at, value_at, check_choice,
  check_exact, check_user_id, check_bool, validate_int_range, validate_float_range,
  validate_timeout_ms, check_canary_percent, check_image,
}

abbrev pub supported_quota_plans : List String
supported_quota_plans = "enterprise" ∷ "free" ∷ "team" ∷ []

abbrev pub vton_categories : List String
vton_categories = "tops" ∷ "bottoms" ∷ "one-pieces" ∷ []

abbrev pub garment_photo_types : List String
garment_photo_types = "model" ∷ "flat-lay" ∷ []

-- the keys of `SUPPORTED_VTON_ALIASES`
abbrev pub vton_aliases : List String
vton_aliases = map (λ entry. entry.0) supported_vton_aliases

module _ (P : Python) where
  -- the dict that is returned beside the errors
  pub record VtonRequest : Type 0 where
    pub model_alias : String
    pub person_image_path : String
    pub garment_image_path : String
    pub output_image_path : String
    pub cache_dir : String
    pub routing_mode : String
    pub canary_percent : P.Float
    pub user_id : String
    pub quota_plan : String
    pub timeout_ms : ℤ
    pub category : String
    pub garment_photo_type : String
    pub num_timesteps : ℤ
    pub guidance_scale : P.Float
    pub seed : ℤ
    pub segmentation_free : Bool

  -- `if payload.get(field) is None: errors.append(...)`
  unfoldable pub check_given : Payload P → String → List FieldError
  check_given payload field = elim (value_at P payload field) [
    | none ↦ error_if true field (concat ("local VTON inference requires " ∷ field ∷ []))
    | some v ↦ []
  ]

  -- `str(v) if v is not None else ""`
  abbrev pub given_text : Payload P → String → String
  given_text payload field = elim (value_at P payload field) [ none ↦ "" | some v ↦ P.value_text v ]

  -- the checks on texts that come before the timeout, but for the canary share
  pub record Texts : Type 0 where
    pub alias : Checked String
    pub mode : Checked String
    pub user : Checked String
    pub plan : Checked String
    pub category : Checked String
    pub photo_type : Checked String
    pub free : Checked Bool

  unfoldable pub check_texts : Payload P → Texts
  unfolding check_exact check_choice check_user_id check_bool
  check_texts payload = record {
    alias =
        check_exact P payload "model_alias" "champion" vton_aliases (quoted "unsupported alias");
    mode =
        check_exact P payload "routing_mode" "direct" ("direct" ∷ "canary" ∷ [])
          (λ v. "routing_mode must be 'direct' or 'canary'");
    user = check_user_id P payload;
    plan =
        check_choice P payload "quota_plan" "free" supported_quota_plans
          "quota_plan must be one of ['enterprise', 'free', 'team']";
    category =
        check_choice P payload "category" "tops" vton_categories
          "category must be 'tops', 'bottoms', or 'one-pieces'";
    photo_type =
        check_choice P payload "garment_photo_type" "model" garment_photo_types
          "garment_photo_type must be 'model' or 'flat-lay'";
    free = check_bool P payload "segmentation_free" true "segmentation_free must be a boolean";
  }

  -- the checks on numbers, in their order
  pub record Numbers : Type 0 where
    pub canary : Checked P.Float
    pub timeout : Checked ℤ
    pub timesteps : Checked ℤ
    pub guidance : Checked P.Float
    pub seed : Checked ℤ

  unfoldable pub check_numbers : Payload P → Result Numbers
  unfolding check_canary_percent validate_timeout_ms validate_int_range validate_float_range
  check_numbers payload = check_canary_percent P payload >>= λ canary.
      validate_timeout_ms P payload (pos 300000) >>= λ timeout.
      validate_int_range P payload "num_timesteps" (pos 50) (pos 10) (pos 80) >>= λ timesteps.
      validate_float_range P payload "guidance_scale" (P.literal "1.5") (P.literal "0.1")
        (P.literal "10.0")
      >>= λ guidance.
          validate_int_range P payload "seed" (pos 555) (pos 0) (pos 2147483647) >>= λ seed.
          ok (record {
            canary = canary;
            timeout = timeout;
            timesteps = timesteps;
            guidance = guidance;
            seed = seed;
          })

  -- the errors in the order in which they are appended
  abbrev pub errors_of : Payload P → Texts → Numbers → List (List FieldError)
  errors_of payload t n =
      t.alias.1
      ∷ check_given payload "person_image_path"
      ∷ check_given payload "garment_image_path"
      ∷ check_given payload "output_image_path"
      ∷ check_image P payload "person_image_path"
      ∷ check_image P payload "garment_image_path"
      ∷ t.mode.1
      ∷ n.canary.1
      ∷ t.user.1
      ∷ t.plan.1
      ∷ n.timeout.1
      ∷ t.category.1
      ∷ t.photo_type.1
      ∷ n.timesteps.1
      ∷ n.guidance.1
      ∷ n.seed.1
      ∷ t.free.1
      ∷ []

  abbrev pub request_of : Payload P → Texts → Numbers → VtonRequest
  request_of payload t n = record {
    model_alias = t.alias.0;
    person_image_path = given_text payload "person_image_path";
    garment_image_path = given_text payload "garment_image_path";
    output_image_path = given_text payload "output_image_path";
    cache_dir = text_at P payload "cache_dir" "artifacts/cache/vton_preflight";
    routing_mode = t.mode.0;
    canary_percent = n.canary.0;
    user_id = t.user.0;
    quota_plan = t.plan.0;
    timeout_ms = n.timeout.0;
    category = t.category.0;
    garment_photo_type = t.photo_type.0;
    num_timesteps = n.timesteps.0;
    guidance_scale = n.guidance.0;
    seed = n.seed.0;
    segmentation_free = t.free.0;
  }

  unfoldable pub validate_vton_payload : Payload P → Result (VtonRequest × List FieldError)
  unfolding check_texts check_given check_image check_numbers
  validate_vton_payload payload = check_numbers payload >>= λ n.
      let t = check_texts payload in ok (request_of payload t n, append_all (errors_of payload t n))
