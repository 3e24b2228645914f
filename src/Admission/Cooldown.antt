-- ===== src/Admission/Cooldown.antt =====
-- The circuit breaker from a trip to the end of its cooldown.
use try_ops_try_on_mlops.Base.{
  ℕ, suc, ◌+◌, false, ◌≡◌, ◌≢◌, refl, ap, ◌∙◌, List, [], ◌∷◌, ◌++◌, length, arith, All,
  if◌then◌else◌, Bool-cases, inl, inr,
}
use try_ops_try_on_mlops.Base.Int.{ℤ, leb_ℤ, ◌-ℤ◌, ◌<ℤ◌}
use try_ops_try_on_mlops.Base.Result.{ok, >>=-eq-ok}
use try_ops_try_on_mlops.Admission.State.{
  Floats, BreakerState, closed, opened, half_open, AdmissionConfig, RequestEvent, AdmissionState,
  Controller,
}
use try_ops_try_on_mlops.Admission.Controller.{
  admitting, breaker_open, trim, is_error, take_request, update_breaker, admit, arrive, gate,
  settle, handle, handle_all,
}
use try_ops_try_on_mlops.Admission.Accounting.{refill-SameLimits}

module _ (F : Floats) (config : AdmissionConfig F) where
  -- The cooldown from the time `since` is not over at the event.
  abbrev IsCooling : ℤ → RequestEvent F → Type 0
  IsCooling since ev = (ev.ts_ms -ℤ since) <ℤ config.breaker_cooldown_ms

  -- What a rejection by the breaker changes of the counts and of the breaker.
  record Shed (n : ℕ) (c c' : Controller F) : Type 0 where
    pub admitted : c'.rep.admitted ≡ c.rep.admitted
    pub rejected : c'.rep.rejected_breaker_open ≡ n + c.rep.rejected_breaker_open
    pub breaker_state : c'.s.breaker_state ≡ opened
    pub breaker_opened_ms : c'.s.breaker_opened_ms ≡ c.s.breaker_opened_ms

  gate-opened :
      (ev : RequestEvent F) (b : BreakerState) (s : AdmissionState F)
      → b ≡ opened
      → IsCooling s.breaker_opened_ms ev
      → gate F config ev b s ≡ (breaker_open, s)
  unfolding gate
  gate-opened ev closed s e cooling = cc (e)
  gate-opened ev half_open s e cooling = cc (e)
  gate-opened ev opened s e cooling =
      let early : leb_ℤ config.breaker_cooldown_ms (ev.ts_ms -ℤ s.breaker_opened_ms) ≡ false =
        ground (arith, cooling) in
      rw early refl

  arrive-breaker_state :
      (ev : RequestEvent F) (s : AdmissionState F)
      → (arrive F config ev s).breaker_state ≡ s.breaker_state
  unfolding arrive
  arrive-breaker_state ev s = (refill-SameLimits F config ev s).breaker_state

  arrive-breaker_opened_ms :
      (ev : RequestEvent F) (s : AdmissionState F)
      → (arrive F config ev s).breaker_opened_ms ≡ s.breaker_opened_ms
  unfolding arrive
  arrive-breaker_opened_ms ev s = (refill-SameLimits F config ev s).breaker_opened_ms

  settle-breaker_open :
      (ev : RequestEvent F) (c : Controller F)
      → settle F config ev breaker_open c
        ≡ ok (record c {
          rep = record c.rep { rejected_breaker_open = suc c.rep.rejected_breaker_open };
        })
  unfolding settle
  settle-breaker_open ev c = refl

  handle-Shed :
      (ev : RequestEvent F) (c : Controller F)
      → c.s.breaker_state ≡ opened
      → IsCooling c.s.breaker_opened_ms ev
      → (c' : Controller F) × ((handle F config ev c).1 ≡ ok c') × Shed 1 c c'
  unfolding handle
  handle-Shed ev c open_now cooling =
      let s1 = arrive F config ev c.s in
      let still : s1.breaker_state ≡ opened = arrive-breaker_state ev c.s ∙ open_now in
      let since = arrive-breaker_opened_ms ev c.s in
      let g : gate F config ev s1.breaker_state s1 ≡ (breaker_open, s1) =
        gate-opened ev s1.breaker_state s1 still (rw since cooling) in
      let shed : Controller F = record {
        s = s1;
        rep = record c.rep {
          total = suc c.rep.total;
          rejected_breaker_open = suc c.rep.rejected_breaker_open;
        };
      } in
      (
        shed,
        rw g (settle-breaker_open ev _),
        record {
          admitted = refl;
          rejected = omega arith;
          breaker_state = still;
          breaker_opened_ms = since;
        },
      )

  handle_all-Shed :
      (evs : List (RequestEvent F)) (c : Controller F)
      → c.s.breaker_state ≡ opened
      → All (IsCooling c.s.breaker_opened_ms) evs
      → (c' : Controller F) × (handle_all F config evs c ≡ ok c') × Shed (length evs) c c'
  unfolding handle_all
  handle_all-Shed [] c open_now cooling = (
    c,
    refl,
    record {
      admitted = refl;
      rejected = omega arith;
      breaker_state = open_now;
      breaker_opened_ms = refl;
    },
  )
  handle_all-Shed (ev ∷ evs) c open_now cooling =
      let (c1, eq, h) = handle-Shed ev c open_now cooling.0 in
      let later : All (IsCooling c1.s.breaker_opened_ms) evs = rw h.breaker_opened_ms cooling.1 in
      let (c2, rest, k) = handle_all-Shed evs c1 h.breaker_state later in
      (
        c2,
        rw eq rest,
        record {
          admitted = k.admitted ∙ h.admitted;
          rejected = omega (arith, k.rejected, h.rejected);
          breaker_state = k.breaker_state;
          breaker_opened_ms = k.breaker_opened_ms ∙ h.breaker_opened_ms;
        },
      )

  -- A request is admitted by a breaker that is closed or half open.
  gate-admitting :
      (ev : RequestEvent F) (b : BreakerState) (s : AdmissionState F)
      → s.breaker_state ≡ b
      → (gate F config ev b s).0 ≡ admitting
      → (gate F config ev b s).1.breaker_state ≢ opened
  unfolding gate
  gate-admitting ev closed s e h = λ o. cc (e, o)
  gate-admitting ev half_open s e h = λ o. cc (e, o)
  gate-admitting ev opened s e h =
      elim (Bool-cases (leb_ℤ config.breaker_cooldown_ms (ev.ts_ms -ℤ s.breaker_opened_ms))) [
        | inl t ↦ rw (t, gate) (λ o. cc (o))
        | inr f ↦ cc (rw (f, gate) at h)
      ]

  update_breaker-opened_ms :
      (ev : RequestEvent F) (b : BreakerState) (c : Controller F)
      → c.s.breaker_state ≡ b
      → b ≢ opened
      → (update_breaker F config ev b c).s.breaker_state ≡ opened
      → (update_breaker F config ev b c).s.breaker_opened_ms ≡ ev.ts_ms
  unfolding update_breaker
  update_breaker-opened_ms ev opened c e ne h = absurd (ne refl)
  update_breaker-opened_ms ev half_open c e ne h = ground (arith, h)
  update_breaker-opened_ms ev closed c e ne h = ground (arith, h, e)

  admit-opened_ms :
      (ev : RequestEvent F) (c c' : Controller F)
      → c.s.breaker_state ≢ opened
      → admit F config ev c ≡ ok c'
      → c'.s.breaker_state ≡ opened
      → c'.s.breaker_opened_ms ≡ ev.ts_ms
  unfolding admit
  admit-opened_ms ev c c' ne h open_now =
      let is_err = if is_error F ev then 1 else 0 in
      let taken = take_request F ev c in
      let (p, eq, made) =
        >>=-eq-ok (trim config.breaker_window (c.s.window ++ (is_err ∷ [])) (c.s.errors + is_err)) _
          c' h in
      let c1 : Controller F = record taken { s = record taken.s { window = p.0; errors = p.1 } } in
      let same : update_breaker F config ev c.s.breaker_state c1 ≡ c' = cc (made) in
      rw (← same) (
        update_breaker-opened_ms ev c.s.breaker_state c1 refl ne
          (ap (λ x. x.s.breaker_state) same ∙ open_now))

  handle-opened_ms :
      (ev : RequestEvent F) (c c' : Controller F)
      → handle F config ev c ≡ (admitting, ok c')
      → c'.s.breaker_state ≡ opened
      → c'.s.breaker_opened_ms ≡ ev.ts_ms
  unfolding handle settle
  handle-opened_ms ev c c' h open_now =
      let s1 = arrive F config ev c.s in
      let g = gate F config ev s1.breaker_state s1 in
      let through : g.0 ≡ admitting = ap (λ x. x.0) h in
      let c1 : Controller F = record { s = g.1; rep = record c.rep { total = suc c.rep.total } } in
      let settled : settle F config ev g.0 c1 ≡ ok c' = ap (λ x. x.1) h in
      admit-opened_ms ev c1 c' (gate-admitting ev s1.breaker_state s1 refl through)
        (rw through at settled) open_now

  -- If the breaker is open after a request that was admitted, and the times of the events that follow
  -- are all less than the cooldown after that request's, then the loop over them returns, none of them
  -- is admitted and all are counted as rejected by the breaker, which is open after them as it has
  -- been since that request.
  pub handle_all-Cooling :
      (ev : RequestEvent F) (evs : List (RequestEvent F)) (c c1 : Controller F)
      → handle F config ev c ≡ (admitting, ok c1)
      → c1.s.breaker_state ≡ opened
      → All (IsCooling ev.ts_ms) evs
      → (c2 : Controller F) × (handle_all F config evs c1 ≡ ok c2)
        × (c2.rep.admitted ≡ c1.rep.admitted)
        × (c2.rep.rejected_breaker_open ≡ length evs + c1.rep.rejected_breaker_open)
        × (c2.s.breaker_state ≡ opened)
        × (c2.s.breaker_opened_ms ≡ ev.ts_ms)
  handle_all-Cooling ev evs c c1 h open_now cooling =
      let since = handle-opened_ms ev c c1 h open_now in
      let later : All (IsCooling c1.s.breaker_opened_ms) evs = rw since cooling in
      let (c2, eq, k) = handle_all-Shed evs c1 open_now later in
      (c2, eq, k.admitted, k.rejected, k.breaker_state, k.breaker_opened_ms ∙ since)
