-- ===== src/Admission/Bulkhead.antt =====
-- The bulkhead against the clock: requests are unfinished from their admission for their duration.
use try_ops_try_on_mlops.Base.{
  ℕ, suc, ◌+◌, ◌≤◌, ◌≡◌, refl, List, [], ◌∷◌, ◌++◌, length, arith, count_if, All, if◌then◌else◌,
  Bool-cases, inl, inr, sym, append-nil, count_if-append,
}
use try_ops_try_on_mlops.Base.Int.{ℤ, pos, pos_part, ◌≤ℤ◌, ltb_ℤ, leb_ℤ}
use try_ops_try_on_mlops.Base.Result.{raised, ok, >>=-eq-ok}
use try_ops_try_on_mlops.Admission.State.{
  Floats, BreakerState, closed, opened, half_open, AdmissionConfig, RequestEvent, AdmissionState,
  Controller,
}
use try_ops_try_on_mlops.Admission.Controller.{
  release, trim, is_error, update_breaker, take_request, finish_ms, admit, Verdict, breaker_open,
  concurrency_full, rate_limited, admitting, arrive, gate, settle, handle, handle_all, initial,
}
use try_ops_try_on_mlops.Admission.Accounting.{refill-SameLimits, handle_all-Sound, initial-Sound}

abbrev pub unfinished : ℤ → List ℤ → ℕ
unfinished t ends = count_if (ltb_ℤ t) ends

unfinished-le-length : (t : ℤ) (xs : List ℤ) → unfinished t xs ≤ length xs
unfinished-le-length t [] = omega arith
unfinished-le-length t (x ∷ xs) = ground (arith, unfinished-le-length t xs)

unfinished-append :
    (t : ℤ) (xs : List ℤ) (x : ℤ)
    → unfinished t (xs ++ (x ∷ [])) ≡ unfinished t xs + unfinished t (x ∷ [])
unfinished-append t [] x = omega arith
unfinished-append t (y ∷ xs) x = omega (arith, unfinished-append t xs x)

-- A release drops nothing that is unfinished then or later.
unfinished-release :
    (ts t : ℤ) (xs : List ℤ) → ts ≤ℤ t → unfinished t (release ts xs) ≡ unfinished t xs
unfinished-release ts t [] h = refl
unfinished-release ts t (x ∷ xs) h = elim (Bool-cases (leb_ℤ x ts)) [
  | inl e ↦ rw e (let ih = unfinished-release ts t xs h in ground (arith, ih, e, h))
  | inr e ↦ rw e refl
]

module _ (F : Floats) (config : AdmissionConfig F) where
  -- the end of a request that goes through
  abbrev ends_of : RequestEvent F → Verdict → List ℤ
  ends_of ev admitting = finish_ms F ev ∷ []
  ends_of ev _ = []

  -- When the requests that are admitted end, in the order of their admission.
  unfoldable pub ends : List (RequestEvent F) → Controller F → List ℤ
  unfolding handle
  ends [] c = []
  ends (ev ∷ evs) c =
      ends_of ev (handle F config ev c).0
      ++ elim (handle F config ev c).1 [ raised text ↦ [] | ok c' ↦ ends evs c' ]

  gate-inflight :
      (ev : RequestEvent F) (b : BreakerState) (s : AdmissionState F)
      → (gate F config ev b s).1.inflight ≡ s.inflight
  unfolding gate
  gate-inflight ev closed s = refl
  gate-inflight ev half_open s = refl
  gate-inflight ev opened s = ground arith

  update_breaker-inflight :
      (ev : RequestEvent F) (b : BreakerState) (c : Controller F)
      → (update_breaker F config ev b c).s.inflight ≡ c.s.inflight
  unfolding update_breaker
  update_breaker-inflight ev closed c = ground arith
  update_breaker-inflight ev half_open c = ground arith
  update_breaker-inflight ev opened c = refl

  settle-inflight :
      (ev : RequestEvent F) (v : Verdict) (c c' : Controller F)
      → settle F config ev v c ≡ ok c'
      → c'.s.inflight ≡ c.s.inflight ++ ends_of ev v
  unfolding settle admit
  settle-inflight ev admitting c c' h =
      let is_err = if is_error F ev then 1 else 0 in
      let taken = take_request F ev c in
      let (p, eq, made) =
        >>=-eq-ok (trim config.breaker_window (c.s.window ++ (is_err ∷ [])) (c.s.errors + is_err)) _
          c' h in
      let c1 : Controller F = record taken { s = record taken.s { window = p.0; errors = p.1 } } in
      let same : update_breaker F config ev c.s.breaker_state c1 ≡ c' = cc (made) in
      rw (← same) (update_breaker-inflight ev c.s.breaker_state c1)
  settle-inflight ev breaker_open c c' h =
      let same : c.s ≡ c'.s = cc (h) in rw (← same) (sym (append-nil c.s.inflight))
  settle-inflight ev concurrency_full c c' h =
      let same : c.s ≡ c'.s = cc (h) in rw (← same) (sym (append-nil c.s.inflight))
  settle-inflight ev rate_limited c c' h =
      let same : c.s ≡ c'.s = cc (h) in rw (← same) (sym (append-nil c.s.inflight))

  unfinished-ends_of :
      (ev : RequestEvent F) (v : Verdict) (t : ℤ) (xs : List ℤ)
      → unfinished t (xs ++ ends_of ev v) ≡ unfinished t (ends_of ev v) + unfinished t xs
  unfinished-ends_of ev admitting t xs = omega (arith, unfinished-append t xs (finish_ms F ev))
  unfinished-ends_of ev breaker_open t xs = rw append-nil (omega arith)
  unfinished-ends_of ev concurrency_full t xs = rw append-nil (omega arith)
  unfinished-ends_of ev rate_limited t xs = rw append-nil (omega arith)

  handle-unfinished :
      (ev : RequestEvent F) (c c' : Controller F) (t : ℤ)
      → (handle F config ev c).1 ≡ ok c'
      → ev.ts_ms ≤ℤ t
      → unfinished t (ends_of ev (handle F config ev c).0) + unfinished t c.s.inflight
        ≡ unfinished t c'.s.inflight
  unfolding handle arrive
  handle-unfinished ev c c' t h le =
      let s1 = arrive F config ev c.s in
      let g = gate F config ev s1.breaker_state s1 in
      let c1 : Controller F = record { s = g.1; rep = record c.rep { total = suc c.rep.total } } in
      let grown = settle-inflight ev g.0 c1 c' h in
      let same = gate-inflight ev s1.breaker_state s1 in
      let kept = refill-SameLimits F config ev c.s in
      let waited : unfinished t s1.inflight ≡ unfinished t c.s.inflight =
        rw kept.inflight (unfinished-release ev.ts_ms t c.s.inflight le) in
      rw grown (rw same (omega (arith, unfinished-ends_of ev g.0 t s1.inflight, waited)))

  handle_all-unfinished :
      (evs : List (RequestEvent F)) (c c' : Controller F) (t : ℤ)
      → handle_all F config evs c ≡ ok c'
      → All (λ ev. ev.ts_ms ≤ℤ t) evs
      → unfinished t (ends evs c) + unfinished t c.s.inflight ≡ unfinished t c'.s.inflight
  unfolding handle_all ends
  handle_all-unfinished [] c c' t h le = let same : c ≡ c' = cc (h) in rw same (omega arith)
  handle_all-unfinished (ev ∷ evs) c c' t h le =
      let (c1, first, rest) = >>=-eq-ok (handle F config ev c).1 (handle_all F config evs) c' h in
      rw first (
        omega (
          arith,
          count_if-append (ltb_ℤ t) (ends_of ev (handle F config ev c).0) (ends evs c1),
          handle-unfinished ev c c1 t first le.0,
          handle_all-unfinished evs c1 c' t rest le.1,
        ))

  -- With a breaker window that is not negative, at whatever time `t` from the last of the events on,
  -- at most `max_concurrency` of the requests admitted among the events are still unfinished at `t`,
  -- and none if that is negative.
  pub unfinished-le-max_concurrency :
      (events : List (RequestEvent F)) (t : ℤ)
      → pos 0 ≤ℤ config.breaker_window
      → All (λ ev. ev.ts_ms ≤ℤ t) events
      → unfinished t (ends events (initial F config)) ≤ pos_part config.max_concurrency
  unfinished-le-max_concurrency events t bound le =
      let (c, eq, h) =
        handle_all-Sound F config 0 events (initial F config) bound (initial-Sound F config) in
      let same = handle_all-unfinished events (initial F config) c t eq le in
      omega (arith, same, unfinished-le-length t c.s.inflight, h.inflight_le, h.peak_le)
