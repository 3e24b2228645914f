-- ===== src/Admission/Accounting.antt =====
-- What the controller's counts say: every event is counted once, the window and its errors agree, and
-- the bulkhead and the window keep to their bounds.
use mathlib.Core.Path.{subst}
use try_ops_try_on_mlops.Base.{
  ℕ, suc, ◌+◌, ◌≤◌, ◌≡◌, refl, List, [], ◌∷◌, ◌++◌, length, arith, if◌then◌else◌, length-append,
  string_eq,
}
use try_ops_try_on_mlops.Base.Int.{pos, pos_part, ◌≤ℤ◌}
use try_ops_try_on_mlops.Base.Result.{ok}
use try_ops_try_on_mlops.Admission.State.{
  Floats, BreakerState, closed, opened, half_open, AdmissionConfig, RequestEvent, AdmissionState,
  Controller,
}
use try_ops_try_on_mlops.Admission.Controller.{
  is_error, update_breaker, take_request, finish_ms, admit, Verdict, breaker_open, concurrency_full,
  rate_limited, admitting, limits, arrive, gate, settle, handle, handle_all, refill, initial,
}
use try_ops_try_on_mlops.Admission.Windows.{sum, length-release_le, sum-append, trim-Trimmed}

-- 1 while the breaker is not closed
abbrev pub pending : BreakerState → ℕ
pending closed = 0
pending _ = 1

module _ (F : Floats) (config : AdmissionConfig F) where
  -- `n` events have been counted in the total, `k` of them not yet on a way out.
  pub record Sound (n k : ℕ) (c : Controller F) : Type 0 where
    pub rounds : c.rep.total ≡ n
    pub counted :
        n
        ≡ k
          + (c.rep.admitted
              + (c.rep.rejected_rate_limited
                  + (c.rep.rejected_breaker_open + c.rep.rejected_concurrency_full)))
    pub inflight_le : length c.s.inflight ≤ c.rep.peak_inflight
    pub peak_le : c.rep.peak_inflight ≤ pos_part config.max_concurrency
    pub window_le : length c.s.window ≤ pos_part config.breaker_window
    pub window_errors : c.s.errors ≡ sum c.s.window
    pub errors_le : c.s.errors ≤ c.rep.admitted_errors
    pub failed_le : c.rep.admitted_errors ≤ c.rep.admitted
    pub recovered_le : c.rep.breaker_recoveries + pending c.s.breaker_state ≤ c.rep.breaker_trips

  update_breaker-Sound :
      (n k : ℕ) (ev : RequestEvent F) (c : Controller F) (b : BreakerState)
      → c.s.breaker_state ≡ b
      → Sound n k c
      → Sound n k (update_breaker F config ev b c)
  unfolding update_breaker
  update_breaker-Sound n k ev c opened e h = h
  update_breaker-Sound n k ev c half_open e h = ground (arith, e, h)
  update_breaker-Sound n k ev c closed e h = ground (arith, e, h)

  -- What a refill leaves alone.
  pub record SameLimits (s s' : AdmissionState F) : Type 0 where
    pub inflight : s'.inflight ≡ s.inflight
    pub breaker_state : s'.breaker_state ≡ s.breaker_state
    pub breaker_opened_ms : s'.breaker_opened_ms ≡ s.breaker_opened_ms
    pub window : s'.window ≡ s.window
    pub errors : s'.errors ≡ s.errors

  pub refill-SameLimits :
      (ev : RequestEvent F) (s : AdmissionState F) → SameLimits s (refill F config ev s)
  unfolding refill
  refill-SameLimits ev s = ground arith

  arrive-Sound :
      (n k : ℕ) (ev : RequestEvent F) (c : Controller F)
      → Sound n k c
      → Sound n k (record c { s = arrive F config ev c.s })
  unfolding arrive
  arrive-Sound n k ev c h =
      let same = refill-SameLimits ev c.s in
      record {
        rounds = h.rounds;
        counted = h.counted;
        inflight_le =
            rw same.inflight
              (omega (arith, h.inflight_le, length-release_le ev.ts_ms c.s.inflight));
        peak_le = h.peak_le;
        window_le = rw same.window h.window_le;
        window_errors = rw (same.window, same.errors) h.window_errors;
        errors_le = rw same.errors h.errors_le;
        failed_le = h.failed_le;
        recovered_le = rw same.breaker_state h.recovered_le;
      }

  gate-Sound :
      (n k : ℕ) (ev : RequestEvent F) (c : Controller F) (b : BreakerState)
      → c.s.breaker_state ≡ b
      → Sound n k c
      → Sound n k (record c { s = (gate F config ev b c.s).1 })
  unfolding gate
  gate-Sound n k ev c closed e h = h
  gate-Sound n k ev c half_open e h = h
  gate-Sound n k ev c opened e h = ground (arith, e, h)

  -- The verdict of an open gate is that of the checks on the state that it leaves.
  gate-limits :
      (ev : RequestEvent F) (s : AdmissionState F) (b : BreakerState)
      → (gate F config ev b s).0 ≡ admitting
      → limits F config ev (gate F config ev b s).1 ≡ admitting
  unfolding gate
  gate-limits ev s closed h = h
  gate-limits ev s half_open h = h
  gate-limits ev s opened h = ground (arith, h)

  limits_room :
      (ev : RequestEvent F) (s : AdmissionState F)
      → limits F config ev s ≡ admitting
      → suc (length s.inflight) ≤ pos_part config.max_concurrency
  unfolding limits
  limits_room ev s h = ground (arith, h)

  take_request-Sound :
      (n k : ℕ) (ev : RequestEvent F) (c : Controller F) (window : List ℕ) (errors : ℕ)
      → suc (length c.s.inflight) ≤ pos_part config.max_concurrency
      → errors ≡ sum window
      → length window ≤ pos_part config.breaker_window
      → errors ≤ c.s.errors + (if is_error F ev then 1 else 0)
      → Sound n (suc k) c
      → let taken = take_request F ev c in
        Sound n k (record taken { s = record taken.s { window = window; errors = errors } })
  take_request-Sound n k ev c window errors room agrees short le h =
      let grown = length-append c.s.inflight (finish_ms F ev ∷ []) in
      record {
        rounds = h.rounds;
        counted = omega (arith, h.counted);
        inflight_le = omega (arith, h.inflight_le, grown);
        peak_le = omega (arith, h.peak_le, grown, room);
        window_le = short;
        window_errors = agrees;
        errors_le = omega (arith, h.errors_le, le);
        failed_le = ground (arith, h.failed_le);
        recovered_le = h.recovered_le;
      }

  admit-Sound :
      (n k : ℕ) (ev : RequestEvent F) (c : Controller F)
      → pos 0 ≤ℤ config.breaker_window
      → limits F config ev c.s ≡ admitting
      → Sound n (suc k) c
      → (c' : Controller F) × (admit F config ev c ≡ ok c') × Sound n k c'
  unfolding admit
  admit-Sound n k ev c bound fits h =
      let is_err = if is_error F ev then 1 else 0 in
      let grown = sum-append c.s.window is_err in
      let (p, eq, agrees, short, le) =
        trim-Trimmed config.breaker_window (c.s.window ++ (is_err ∷ [])) (c.s.errors + is_err) bound
          (omega (arith, h.window_errors, grown)) in
      let taken = take_request F ev c in
      let c1 : Controller F = record taken { s = record taken.s { window = p.0; errors = p.1 } } in
      (
        update_breaker F config ev c.s.breaker_state c1,
        rw eq refl,
        update_breaker-Sound n k ev c1 c.s.breaker_state refl (
            take_request-Sound n k ev c p.0 p.1 (limits_room ev c.s fits) agrees short
              (omega (arith, le, grown, h.window_errors)) h),
      )

  settle-Sound :
      (n k : ℕ) (ev : RequestEvent F) (v : Verdict) (c : Controller F)
      → pos 0 ≤ℤ config.breaker_window
      → (v ≡ admitting → limits F config ev c.s ≡ admitting)
      → Sound n (suc k) c
      → (c' : Controller F) × (settle F config ev v c ≡ ok c') × Sound n k c'
  unfolding settle
  settle-Sound n k ev admitting c bound fits h = admit-Sound n k ev c bound (fits refl) h
  settle-Sound n k ev breaker_open c bound fits h = (_, refl, ground (arith, h))
  settle-Sound n k ev concurrency_full c bound fits h = (_, refl, ground (arith, h))
  settle-Sound n k ev rate_limited c bound fits h = (_, refl, ground (arith, h))

  begin-Sound :
      (n k : ℕ) (c : Controller F)
      → Sound n k c
      → Sound (suc n) (suc k) (record c { rep = record c.rep { total = suc c.rep.total } })
  begin-Sound n k c h = ground (arith, h)

  handle-Sound :
      (n k : ℕ) (ev : RequestEvent F) (c : Controller F)
      → pos 0 ≤ℤ config.breaker_window
      → Sound n k c
      → (c' : Controller F) × ((handle F config ev c).1 ≡ ok c') × Sound (suc n) k c'
  unfolding handle
  handle-Sound n k ev c bound h =
      let s1 = arrive F config ev c.s in
      let c1 : Controller F = record { s = s1; rep = record c.rep { total = suc c.rep.total } } in
      let h1 = begin-Sound n k (record c { s = s1 }) (arrive-Sound n k ev c h) in
      settle-Sound (suc n) k ev (gate F config ev s1.breaker_state s1).0
        (record c1 { s = (gate F config ev s1.breaker_state s1).1 }) bound
        (gate-limits ev s1 s1.breaker_state)
        (gate-Sound (suc n) (suc k) ev c1 s1.breaker_state refl h1)

  pub handle_all-Sound :
      (n : ℕ) (evs : List (RequestEvent F)) (c : Controller F)
      → pos 0 ≤ℤ config.breaker_window
      → Sound n 0 c
      → (c' : Controller F) × (handle_all F config evs c ≡ ok c') × Sound (length evs + n) 0 c'
  unfolding handle_all
  handle_all-Sound n [] c bound h = (c, refl, subst (λ m. Sound m 0 c) (omega arith) h)
  handle_all-Sound n (ev ∷ evs) c bound h =
      let (c1, eq, h1) = handle-Sound n 0 ev c bound h in
      let (c2, rest, h2) = handle_all-Sound (suc n) evs c1 bound h1 in
      (c2, rw eq rest, subst (λ m. Sound m 0 c2) (omega arith) h2)

  pub initial-Sound : Sound 0 0 (initial F config)
  initial-Sound = ground arith
