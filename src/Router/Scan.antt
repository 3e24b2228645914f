-- ===== src/Router/Scan.antt =====
-- The two parts of the choice of `claim_worker`: the minimum of the loads, and the round-robin loop.
use native.Mathlib.Decide.{dec_lt}
use native.Mathlib.Nat.{add-zero, mod-eq_of_lt, add-mod_right}
use try_ops_try_on_mlops.Base.{
  ℕ, zero, suc, ◌+◌, ◌-◌, ◌%◌, ◌≤◌, ◌<◌, min, true, false, ◌≡◌, refl, none, some, List, [], ◌∷◌,
  length, get_elem?, leb, arith, if◌then◌else◌, Bool-cases, Option-cases, inl, inr, nat_eq,
}
use try_ops_try_on_mlops.Router.State.{WorkerState}
use try_ops_try_on_mlops.Router.Schedule.{is_candidate, minimum, loads, is_eligible, scan}

-- No worker is ready and alive.
abbrev pub Unready : List WorkerState → Type 0
Unready ws = (i : ℕ) (w : WorkerState) → get_elem? ws i ≡ some w → is_candidate w ≡ false

-- `least` is a lower bound of the candidates' loads.
abbrev pub IsLower : ℕ → List WorkerState → Type 0
IsLower least ws =
    (i : ℕ) (w : WorkerState) → get_elem? ws i ≡ some w → is_candidate w ≡ true → least ≤ w.inflight

-- A candidate has this load.
abbrev pub IsLoad : ℕ → List WorkerState → Type 0
IsLoad n ws =
    (i : ℕ) × (w : WorkerState) × (get_elem? ws i ≡ some w)
    × (is_candidate w ≡ true)
    × (w.inflight ≡ n)

pub minimum-none : (ws : List WorkerState) → minimum (loads ws) ≡ none → Unready ws
minimum-none [] h i w e = cc
minimum-none (v ∷ ws) h zero w e = elim (Bool-cases (is_candidate v)) [
  | inl t ↦ ground arith
  | inr f ↦ ground arith
]
minimum-none (v ∷ ws) h (suc i) w e = elim (Bool-cases (is_candidate v)) [
  | inl t ↦ ground arith
  | inr f ↦ minimum-none ws (rw f at h) i w e
]

minimum-cons :
    (v : WorkerState) (ws : List WorkerState)
    → minimum (loads (v ∷ ws)) ≡ (
        if is_candidate v
        then elim (minimum (loads ws)) [ none ↦ some v.inflight | some m ↦ some (min v.inflight m) ]
        else minimum (loads ws))
minimum-cons v ws = elim (Bool-cases (is_candidate v)) [
  | inl t ↦ ground arith
  | inr f ↦ ground arith
]

pub minimum-IsLower :
    (ws : List WorkerState) (least : ℕ) → minimum (loads ws) ≡ some least → IsLower least ws
minimum-IsLower [] least h i w e c = cc
minimum-IsLower (v ∷ ws) least h zero w e c = ground (arith, minimum-cons v ws)
minimum-IsLower (v ∷ ws) least h (suc i) w e c = elim (Option-cases (minimum (loads ws))) [
  | inl nothing ↦ let f = minimum-none ws nothing i w e in cc
  | inr (m, found) ↦
      let ih = minimum-IsLower ws m found i w e c in ground (arith, minimum-cons v ws, found, ih)
]

pub minimum-IsLoad :
    (ws : List WorkerState) (least : ℕ) → minimum (loads ws) ≡ some least → IsLoad least ws
minimum-IsLoad [] least h = cc
minimum-IsLoad (v ∷ ws) least h = elim (Bool-cases (is_candidate v)) [
  | inr f ↦
      let (i, w, e, c, n) = minimum-IsLoad ws least (ground (arith, minimum-cons v ws, f)) in
      (suc i, w, e, c, n)
  | inl t ↦ elim (Option-cases (minimum (loads ws))) [
    | inl nothing ↦ (0, v, refl, t, ground (arith, minimum-cons v ws, t, nothing))
    | inr (m, found) ↦
        let (i, w, e, c, n) = minimum-IsLoad ws m found in
        elim (Bool-cases (leb v.inflight m)) [
          | inl le ↦ (0, v, refl, t, ground (arith, minimum-cons v ws, t, found, le))
          | inr gt ↦ (suc i, w, e, c, ground (arith, minimum-cons v ws, t, found, gt, n))
        ]
  ]
]

-- What holds at 0 and behind it.
extend : (P : ℕ → Type 0) (k : ℕ) → P 0 → ((j : ℕ) → j < k → P (suc j)) → (j : ℕ) → j < suc k → P j
extend P k first later zero lt = first
extend P k first later (suc j) lt = later j (omega arith)

shift : (start offset k : ℕ) → start + (offset + suc k) ≡ start + (offset + 1 + k)
shift start offset k = omega arith

-- The loop stops at an eligible worker, and every index that it passed is not eligible.
pub scan-some :
    (least : ℕ) (ws : List WorkerState) (start rounds offset : ℕ) (i : ℕ)
    → scan least ws start rounds offset ≡ some i
    → (k : ℕ) × (k < rounds)
      × (i ≡ (start + (offset + k)) % length ws)
      × (is_eligible least (get_elem? ws i) ≡ true)
      × ((j : ℕ)
          → j < k
          → is_eligible least (get_elem? ws ((start + (offset + j)) % length ws)) ≡ false)
unfolding scan
scan-some least ws start zero offset i h = cc
scan-some least ws start (suc rounds) offset i h =
    let index : ℕ = (start + offset) % length ws in
    elim (Bool-cases (is_eligible least (get_elem? ws index))) [
      | inl t ↦
          let at : i ≡ index = ground (arith, h, t) in
          (0, omega arith, rw (at, add-zero) refl, rw at t, λ j lt. absurd (omega arith))
      | inr f ↦
          let (k, lt, at, good, passed) =
            scan-some least ws start rounds (offset + 1) i (ground (arith, h, f)) in
          (
            suc k,
            omega arith,
            rw shift at,
            good,
            extend
                (λ j. is_eligible least (get_elem? ws ((start + (offset + j)) % length ws)) ≡ false)
                k (rw add-zero f) (λ j lt'. rw shift (passed j lt')),
          )
    ]

pub scan-none :
    (least : ℕ) (ws : List WorkerState) (start rounds offset : ℕ)
    → scan least ws start rounds offset ≡ none
    → (k : ℕ) → k < rounds
    → is_eligible least (get_elem? ws ((start + (offset + k)) % length ws)) ≡ false
unfolding scan
scan-none least ws start zero offset h k lt = absurd (omega arith)
scan-none least ws start (suc rounds) offset h zero lt = rw add-zero (ground arith)
scan-none least ws start (suc rounds) offset h (suc k) lt =
    rw shift (scan-none least ws start rounds (offset + 1) (ground arith) k (omega arith))

-- From any start, going round reaches each index.
pub reach :
    (start target n : ℕ)
    → start < n
    → target < n
    → (k : ℕ) × (k < n) × ((start + (0 + k)) % n ≡ target)
reach start target n s t = elim (dec_lt target start) [
  | yes before ↦ (
    target + n - start,
    omega arith,
    let e : start + (0 + (target + n - start)) ≡ target + n = omega arith in
        rw e (rw add-mod_right (mod-eq_of_lt t)),
  )
  | no after ↦ (
    target - start,
    omega arith,
    let e : start + (0 + (target - start)) ≡ target = omega arith in rw e (mod-eq_of_lt t),
  )
]

pub get_elem?-lt :
    (ws : List WorkerState) (i : ℕ) (w : WorkerState) → get_elem? ws i ≡ some w → i < length ws
get_elem?-lt [] i w e = cc
get_elem?-lt (v ∷ ws) zero w e = omega arith
get_elem?-lt (v ∷ ws) (suc i) w e = omega (arith, get_elem?-lt ws i w e)
