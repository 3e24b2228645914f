-- ===== src/Contracts/Accepted.antt =====
-- What a try-on request is once no error has been found in it.
use try_ops_try_on_mlops.Base.{
  ◌≤◌, String, string_eq, true, false, ◌≡◌, ◌≢◌, none, some, List, [], ◌∷◌, ◌⊎◌, inl, inr, contains,
  not, arith, Bool-cases, Option-cases, ltb, if◌then◌else◌, All,
}
use text.Mathlib.Text.{starts_with}
use Prim.Native.String.{count}
use try_ops_try_on_mlops.Base.Int.{pos}
use try_ops_try_on_mlops.Base.Text.{concat, strip}
use try_ops_try_on_mlops.Base.Result.{ok}
use try_ops_try_on_mlops.Quota.Ledger.{Plan, supported_plan}
use try_ops_try_on_mlops.Routing.Alias.{resolve_model_alias, quoted}
use try_ops_try_on_mlops.Contracts.Checks.{
  Python, error_if, append_all, max_image_bytes, max_timeout_ms, Payload, text_at, value_at,
  float_outside, check_choice, check_exact, check_user_id, validate_int_range, validate_float_range,
  validate_timeout_ms, check_canary_percent, validate_local_image_path, check_image,
}
use try_ops_try_on_mlops.Contracts.Vton.{
  supported_quota_plans, vton_categories, garment_photo_types, vton_aliases, VtonRequest,
  check_given, given_text, check_texts, Numbers, check_numbers, errors_of, request_of,
  validate_vton_payload,
}
use try_ops_try_on_mlops.Contracts.Passing.{
  append-empty, error_if-empty, also-passes, append_all-All, bind_ok, alias-routed, plan-supported,
  also-IsBetween, or_default-full, IsBetween,
}

module _ (P : Python) where
  -- an artifact, or a file of the right kind that is there and not too large
  abbrev IsImage : String → Type 0
  IsImage path =
      (starts_with path "artifact:" ≡ true)
      ⊎ ((contains (P.lower (P.suffix path)) (".png" ∷ ".jpg" ∷ ".jpeg" ∷ []) ≡ true)
          × (P.exists path ≡ true)
          × (P.is_file path ≡ true)
          × (P.size_bytes path ≤ max_image_bytes))

  pub record Accepted (payload : Payload P) (r : VtonRequest P) : Type 0 where
    pub routed : (adapter : String) × (resolve_model_alias "vton" r.model_alias ≡ ok adapter)
    pub person : (value_at P payload "person_image_path" ≢ none) × IsImage r.person_image_path
    pub garment : (value_at P payload "garment_image_path" ≢ none) × IsImage r.garment_image_path
    pub output : value_at P payload "output_image_path" ≢ none
    pub mode : contains r.routing_mode ("direct" ∷ "canary" ∷ []) ≡ true
    pub canary : float_outside P (P.literal "0.0") (P.literal "100.0") r.canary_percent ≡ false
    pub user : (r.user_id ≢ "") × (count r.user_id ≤ 128)
    pub plan : (p : Plan) × (supported_plan r.quota_plan ≡ some p)
    pub timeout : IsBetween (pos 1) max_timeout_ms r.timeout_ms
    pub category : contains r.category vton_categories ≡ true
    pub photo_type : contains r.garment_photo_type garment_photo_types ≡ true
    pub timesteps : IsBetween (pos 10) (pos 80) r.num_timesteps
    pub guidance : float_outside P (P.literal "0.1") (P.literal "10.0") r.guidance_scale ≡ false
    pub seed : IsBetween (pos 0) (pos 2147483647) r.seed

  -- the check of a file, once its suffix is a good one
  image_file :
      (field path : String)
      → (if not (P.exists path)
          then error_if true field "image path does not exist"
          else (if not (P.is_file path)
              then error_if true field "image path must be a file"
              else error_if (ltb max_image_bytes (P.size_bytes path)) field (
                  concat
                    ("image exceeds " ∷ P.int_text (pos max_image_bytes) ∷ " byte limit" ∷ []))))
        ≡ []
      → (P.exists path ≡ true) × (P.is_file path ≡ true) × (P.size_bytes path ≤ max_image_bytes)
  image_file field path h = elim (Bool-cases (P.exists path)) [
    | inr f ↦ cc (rw f at h)
    | inl there ↦ elim (Bool-cases (P.is_file path)) [
      | inr f ↦ cc (rw (there, f) at h)
      | inl file ↦
          let small =
            error_if-empty (ltb max_image_bytes (P.size_bytes path)) field _
              (rw (there, file) at h) in
          (there, file, ground (arith, small))
    ]
  ]

  validate_local_image_path-IsImage :
      (field path : String) → validate_local_image_path P field path ≡ [] → IsImage path
  unfolding validate_local_image_path
  validate_local_image_path-IsImage field path h =
      let kind = contains (P.lower (P.suffix path)) (".png" ∷ ".jpg" ∷ ".jpeg" ∷ []) in
      let (k, rest) = append-empty (error_if (not kind) field "image must be PNG or JPEG") _ h in
      let good = error_if-empty (not kind) field "image must be PNG or JPEG" k in
      let (there, file, small) = image_file field path rest in
      inr (ground (arith, good), there, file, small)

  check_given-value :
      (payload : Payload P) (field : String)
      → check_given P payload field ≡ []
      → value_at P payload field ≢ none
  unfolding check_given
  check_given-value payload field given gone = cc (rw (gone, check_given) at given)

  check_image-IsImage :
      (payload : Payload P) (field : String)
      → check_given P payload field ≡ []
      → check_image P payload field ≡ []
      → (value_at P payload field ≢ none) × IsImage (given_text P payload field)
  unfolding check_image
  check_image-IsImage payload field given checked = elim (Option-cases (value_at P payload field)) [
    | inl gone ↦ absurd (check_given-value payload field given gone)
    | inr (v, there) ↦ (
      check_given-value payload field given,
      rw (there, given_text)
          (elim (Bool-cases (starts_with (P.value_text v) "artifact:")) [
            | inl t ↦ inl t
            | inr f ↦
                validate_local_image_path-IsImage field (P.value_text v)
                  (rw (there, check_image, f) at checked)
          ]),
    )
  ]

  -- The five conversions of a payload whose numbers are read.
  record Read (payload : Payload P) (n : Numbers P) : Type 0 where
    pub canary : check_canary_percent P payload ≡ ok n.canary
    pub timeout : validate_timeout_ms P payload (pos 300000) ≡ ok n.timeout
    pub timesteps :
        validate_int_range P payload "num_timesteps" (pos 50) (pos 10) (pos 80) ≡ ok n.timesteps
    pub guidance :
        validate_float_range P payload "guidance_scale"
          (P.literal "1.5")
          (P.literal "0.1")
          (P.literal "10.0")
        ≡ ok n.guidance
    pub seed : validate_int_range P payload "seed" (pos 555) (pos 0) (pos 2147483647) ≡ ok n.seed

  check_numbers-Read :
      (payload : Payload P) (n : Numbers P) → check_numbers P payload ≡ ok n → Read payload n
  unfolding check_numbers
  check_numbers-Read payload n h = bind_ok (check_canary_percent P payload) _ n h λ canary h1 r1.
      bind_ok (validate_timeout_ms P payload (pos 300000)) _ n r1 λ timeout h2 r2.
        bind_ok (validate_int_range P payload "num_timesteps" (pos 50) (pos 10) (pos 80)) _ n r2
          λ timesteps h3 r3.
            bind_ok
              (validate_float_range P payload "guidance_scale" (P.literal "1.5") (P.literal "0.1")
                (P.literal "10.0"))
              _ n r3
              λ guidance h4 r4.
                bind_ok (validate_int_range P payload "seed" (pos 555) (pos 0) (pos 2147483647)) _ n
                  r4
                  λ seed h5 r5. record {
                    canary = cc (h1, r5);
                    timeout = cc (h2, r5);
                    timesteps = cc (h3, r5);
                    guidance = cc (h4, r5);
                    seed = cc (h5, r5);
                  }

  check_exact-passes :
      (payload : Payload P) (field default : String) (choices : List String)
      (message : String → String)
      → (check_exact P payload field default choices message).1 ≡ []
      → contains (check_exact P payload field default choices message).0 choices ≡ true
  unfolding check_exact
  check_exact-passes payload field default choices message h =
      let good =
        error_if-empty (not (contains (text_at P payload field default) choices)) field _ h in
      ground (arith, good)

  check_choice-passes :
      (payload : Payload P) (field default : String) (choices : List String) (message : String)
      → (check_choice P payload field default choices message).1 ≡ []
      → contains (check_choice P payload field default choices message).0 choices ≡ true
  unfolding check_choice
  check_choice-passes payload field default choices message h =
      let value = (check_choice P payload field default choices message).0 in
      let good = error_if-empty (not (contains value choices)) field message h in
      ground (arith, good)

  check_user_id-passes :
      (payload : Payload P)
      → (check_user_id P payload).1 ≡ []
      → ((check_user_id P payload).0 ≢ "") × (count (check_user_id P payload).0 ≤ 128)
  unfolding check_user_id
  check_user_id-passes payload h =
      let user = (check_user_id P payload).0 in
      let good = error_if-empty (ltb 128 (count user)) "user_id" _ h in
      (
        or_default-full (strip (text_at P payload "user_id" "anonymous")) "anonymous" (λ e. cc (e)),
        ground (arith, good),
      )

  errors_of-Accepted :
      (payload : Payload P) (n : Numbers P)
      → Read payload n
      → All (λ xs. xs ≡ []) (errors_of P payload (check_texts P payload) n)
      → Accepted payload (request_of P payload (check_texts P payload) n)
  unfolding check_texts validate_int_range validate_float_range validate_timeout_ms
      check_canary_percent
  errors_of-Accepted payload n read
        (
          alias,
          (
            p,
            (
              g,
              (
                o,
                (
                  pi,
                  (
                    gi,
                    (
                      mode,
                      (
                        canary,
                        (
                          user,
                          (
                            plan,
                            (timeout, (category, (photo, (timesteps, (guidance, (seed, others)))))),
                          ),
                        ),
                      ),
                    ),
                  ),
                ),
              ),
            ),
          ),
        ) =
      record {
        routed = alias-routed (check_texts P payload).alias.0 (
            check_exact-passes payload "model_alias" "champion" vton_aliases
              (quoted "unsupported alias") alias);
        person = check_image-IsImage payload "person_image_path" p pi;
        garment = check_image-IsImage payload "garment_image_path" g gi;
        output = check_given-value payload "output_image_path" o;
        mode =
            check_exact-passes payload "routing_mode" "direct" ("direct" ∷ "canary" ∷ [])
              (λ v. "routing_mode must be 'direct' or 'canary'") mode;
        canary = also-passes _ _ _ _ n.canary read.canary canary;
        user = check_user_id-passes payload user;
        plan =
            plan-supported (check_texts P payload).plan.0
              (check_choice-passes payload "quota_plan" "free" supported_quota_plans _ plan);
        timeout = also-IsBetween (pos 1) max_timeout_ms _ _ _ n.timeout read.timeout timeout;
        category = check_choice-passes payload "category" "tops" vton_categories _ category;
        photo_type =
            check_choice-passes payload "garment_photo_type" "model" garment_photo_types _ photo;
        timesteps = also-IsBetween (pos 10) (pos 80) _ _ _ n.timesteps read.timesteps timesteps;
        guidance = also-passes _ _ _ _ n.guidance read.guidance guidance;
        seed = also-IsBetween (pos 0) (pos 2147483647) _ _ _ n.seed read.seed seed;
      }

  -- A payload that is validated without an error gives a request that the router can resolve, on a
  -- plan that the quota knows, with a user id of 1 to 128 characters, the three paths given, both
  -- images artifacts or files of a known kind that are there and within the size, the texts among
  -- those supported, the integers in their ranges, and the two floats neither below nor above theirs.
  pub validate_vton_payload-Accepted :
      (payload : Payload P) (r : VtonRequest P)
      → validate_vton_payload P payload ≡ ok (r, [])
      → Accepted payload r
  unfolding validate_vton_payload
  validate_vton_payload-Accepted payload r h =
      bind_ok (check_numbers P payload) _ (r, []) h
        λ n read made.
          let t = check_texts P payload in
          let same : request_of P payload t n ≡ r = cc (made) in
          let none_left : append_all (errors_of P payload t n) ≡ [] = cc (made) in
          rw (← same) (
            errors_of-Accepted payload n (check_numbers-Read payload n read)
              (append_all-All (errors_of P payload t n) none_left))
