-- ===== src/Admission/Controller.antt =====
-- src/tryops/native_admission.py: `_python_fallback`, the loop over the events. A round of it ends in
-- one of four ways, three of them by `continue`.
use try_ops_try_on_mlops.Base.{
  ℕ, suc, ◌+◌, ◌-◌, max, string_eq, Bool, true, false, List, [], ◌∷◌, ◌++◌, length, is_empty, ◌==◌,
  if◌then◌else◌, ◌&&◌, nat_eq,
}
use try_ops_try_on_mlops.Base.Int.{ℤ, pos, ltb_ℤ, leb_ℤ, ◌+ℤ◌, ◌-ℤ◌, max_ℤ}
use try_ops_try_on_mlops.Base.Result.{Result, raised, ok, ◌>>=◌}
use try_ops_try_on_mlops.Admission.State.{
  Floats, BreakerState, closed, opened, half_open, AdmissionConfig, RequestEvent, AdmissionState,
  Tally, Controller,
}

-- `while s.inflight and s.inflight[0] <= ts: s.inflight.popleft()`
abbrev pub release : ℤ → List ℤ → List ℤ
release ts [] = []
release ts (t ∷ ts') = let rest = release ts ts' in if leb_ℤ t ts then rest else t ∷ ts'

-- `while len(s.window) > bound: s.errors -= s.window.popleft()`, with the new `errors`.
-- The errors counted are those of the window, so the subtraction stays above 0.
abbrev pub trim : ℤ → List ℕ → ℕ → Result (List ℕ × ℕ)
trim bound [] errors =
    if ltb_ℤ bound (pos 0) then raised "pop from an empty deque" else ok ([], errors)
trim bound (x ∷ xs) errors =
    let rest = trim bound xs (errors - x) in
    if ltb_ℤ bound (pos (suc (length xs))) then rest else ok (x ∷ xs, errors)

-- How an event leaves the body of the loop.
pub data Verdict : Type 0 where
  breaker_open concurrency_full rate_limited admitting : Verdict

module _ (F : Floats) where
  -- `min(a, b)` on floats
  abbrev float_min : F.Float → F.Float → F.Float
  float_min a b = if F.lt b a then b else a

  unfoldable pub refill : AdmissionConfig F → RequestEvent F → AdmissionState F → AdmissionState F
  refill config ev s =
      if s.started
      then (if ltb_ℤ s.last_refill_ms ev.ts_ms
          then (let elapsed =
                F.divide (F.of_int (ev.ts_ms -ℤ s.last_refill_ms)) (F.of_int (pos 1000)) in
              record s {
                tokens =
                    float_min config.bucket_capacity
                      (F.add s.tokens (F.times elapsed config.refill_per_sec));
                last_refill_ms = ev.ts_ms;
              })
          else s)
      else record s { last_refill_ms = ev.ts_ms; started = true }

  abbrev pub is_error : RequestEvent F → Bool
  is_error ev = ev.outcome == "error"

  unfoldable pub err_rate : AdmissionState F → F.Float
  err_rate s =
      if is_empty s.window
      then F.of_int (pos 0)
      else F.divide (F.of_int (pos s.errors)) (F.of_int (pos (length s.window)))

  abbrev pub trip : RequestEvent F → Controller F → Controller F
  trip ev c = record {
    s = record c.s { breaker_state = opened; breaker_opened_ms = ev.ts_ms };
    rep = record c.rep { breaker_trips = suc c.rep.breaker_trips };
  }

  abbrev recover : Controller F → Controller F
  recover c = record {
    s = record c.s { breaker_state = closed; window = []; errors = 0 };
    rep = record c.rep { breaker_recoveries = suc c.rep.breaker_recoveries };
  }

  -- the breaker's part of an admitted request, by the state that the breaker is in
  unfoldable pub update_breaker :
      AdmissionConfig F → RequestEvent F → BreakerState → Controller F → Controller F
  update_breaker config ev half_open c = if is_error ev then trip ev c else recover c
  update_breaker config ev closed c =
      if leb_ℤ config.breaker_min_samples (pos (length c.s.window))
        && F.le config.breaker_error_threshold (err_rate c.s)
      then trip ev c
      else c
  update_breaker config ev opened c = c

  -- `ev.ts_ms + max(0, ev.duration_ms)`
  abbrev pub finish_ms : RequestEvent F → ℤ
  finish_ms ev = ev.ts_ms +ℤ max_ℤ (pos 0) ev.duration_ms

  -- "admit", up to the bookkeeping of the window
  abbrev pub take_request : RequestEvent F → Controller F → Controller F
  take_request ev c =
      let tokens' = F.subtract c.s.tokens ev.cost in
      let inflight' = c.s.inflight ++ (finish_ms ev ∷ []) in
      record {
        s = record c.s { tokens = tokens'; inflight = inflight' };
        rep = record c.rep {
          min_tokens = float_min c.rep.min_tokens tokens';
          peak_inflight = max c.rep.peak_inflight (length inflight');
          admitted = suc c.rep.admitted;
          admitted_errors = c.rep.admitted_errors + (if is_error ev then 1 else 0);
        };
      }

  unfoldable pub admit : AdmissionConfig F → RequestEvent F → Controller F → Result (Controller F)
  admit config ev c =
      let taken = take_request ev c in
      let is_err = if is_error ev then 1 else 0 in
      trim config.breaker_window (c.s.window ++ (is_err ∷ [])) (c.s.errors + is_err)
      >>= λ (window', errors'). ok (
          update_breaker config ev c.s.breaker_state
            (record taken { s = record taken.s { window = window'; errors = errors' } }))

  -- the concurrency and the token checks
  unfoldable pub limits : AdmissionConfig F → RequestEvent F → AdmissionState F → Verdict
  limits config ev s =
      if leb_ℤ config.max_concurrency (pos (length s.inflight))
      then concurrency_full
      else (if F.lt s.tokens ev.cost then rate_limited else admitting)

  -- the refill and the release, with which each event begins
  unfoldable pub arrive : AdmissionConfig F → RequestEvent F → AdmissionState F → AdmissionState F
  unfolding refill
  arrive config ev s =
      let filled = refill config ev s in
      record filled { inflight = release ev.ts_ms filled.inflight }

  -- the breaker gate, by the state that the breaker is in, and then the checks
  unfoldable pub gate :
      AdmissionConfig F
      → RequestEvent F
      → BreakerState
      → AdmissionState F
      → Verdict × AdmissionState F
  unfolding limits
  gate config ev opened s =
      if leb_ℤ config.breaker_cooldown_ms (ev.ts_ms -ℤ s.breaker_opened_ms)
      then (let s' = record s { breaker_state = half_open } in (limits config ev s', s'))
      else (breaker_open, s)
  gate config ev _ s = (limits config ev s, s)

  -- what is counted and done on each way out
  unfoldable pub settle :
      AdmissionConfig F → RequestEvent F → Verdict → Controller F → Result (Controller F)
  unfolding admit
  settle config ev breaker_open c =
      ok (record c {
        rep = record c.rep { rejected_breaker_open = suc c.rep.rejected_breaker_open };
      })
  settle config ev concurrency_full c = ok (record c {
    rep = record c.rep { rejected_concurrency_full = suc c.rep.rejected_concurrency_full };
  })
  settle config ev rate_limited c = ok (record c {
    rep = record c.rep {
      rejected_rate_limited = suc c.rep.rejected_rate_limited;
      min_tokens = float_min c.rep.min_tokens c.s.tokens;
    };
  })
  settle config ev admitting c = admit config ev c

  -- one round of the loop, with the way out that it took
  unfoldable pub handle :
      AdmissionConfig F → RequestEvent F → Controller F → Verdict × Result (Controller F)
  unfolding arrive gate settle
  handle config ev c =
      let s1 = arrive config ev c.s in
      let (verdict, s') = gate config ev s1.breaker_state s1 in
      (
        verdict,
        settle config ev verdict
            (record { s = s'; rep = record c.rep { total = suc c.rep.total } }),
      )

  unfoldable pub handle_all :
      AdmissionConfig F → List (RequestEvent F) → Controller F → Result (Controller F)
  unfolding handle
  handle_all config [] c = ok c
  handle_all config (ev ∷ evs) c = (handle config ev c).1 >>= handle_all config evs

  abbrev pub initial : AdmissionConfig F → Controller F
  initial config = record {
    s = record {
      tokens = config.bucket_capacity;
      last_refill_ms = pos 0;
      started = false;
      inflight = [];
      breaker_state = closed;
      breaker_opened_ms = pos 0;
      window = [];
      errors = 0;
    };
    rep = record {
      total = 0;
      admitted = 0;
      rejected_rate_limited = 0;
      rejected_breaker_open = 0;
      rejected_concurrency_full = 0;
      breaker_trips = 0;
      breaker_recoveries = 0;
      peak_inflight = 0;
      min_tokens = config.bucket_capacity;
      admitted_errors = 0;
    };
  }

  pub record Report : Type 0 where
    pub tally : Tally F
    pub admit_rate : F.Float
    pub shed_rate : F.Float
    pub observed_error_rate : F.Float
    pub final_breaker_state : BreakerState
    pub max_shed_rate : F.Float
    pub gate_ok : Bool

  abbrev is_closed : BreakerState → Bool
  is_closed closed = true
  is_closed _ = false

  -- `a / b if b else 0.0`
  abbrev ratio : ℕ → ℕ → F.Float
  ratio a b = if b == 0 then F.of_int (pos 0) else F.divide (F.of_int (pos a)) (F.of_int (pos b))

  unfoldable pub summarise : F.Float → Controller F → Report
  summarise max_shed_rate c =
      let admit_rate = ratio c.rep.admitted c.rep.total in
      let shed_rate = F.subtract (F.of_int (pos 1)) admit_rate in
      record {
        tally = c.rep;
        admit_rate = admit_rate;
        shed_rate = shed_rate;
        observed_error_rate = ratio c.rep.admitted_errors c.rep.admitted;
        final_breaker_state = c.s.breaker_state;
        max_shed_rate = max_shed_rate;
        gate_ok = is_closed c.s.breaker_state && F.le shed_rate max_shed_rate;
      }

  unfoldable pub python_fallback :
      AdmissionConfig F → List (RequestEvent F) → F.Float → Result Report
  unfolding handle_all summarise
  python_fallback config events max_shed_rate =
      handle_all config events (initial config) >>= λ c. ok (summarise max_shed_rate c)
