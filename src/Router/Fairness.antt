-- ===== src/Router/Fairness.antt =====
-- The choice of `claim_worker`: a ready worker of least load, the first from the round-robin index on.
use native.Mathlib.Nat.{mod-lt}
use try_ops_try_on_mlops.Base.{
  ℕ, ◌+◌, ◌%◌, ◌<◌, true, false, ◌≡◌, ◌≢◌, ◌↔◌, refl, Option, none, some, List, length, get_elem?,
  arith, Option-cases, inl, inr, nat_eq,
}
use try_ops_try_on_mlops.Router.State.{WorkerState, FashnVtonRouter}
use try_ops_try_on_mlops.Router.Schedule.{
  is_candidate, minimum, loads, is_eligible, scan, claim, pick_least, pick,
}
use try_ops_try_on_mlops.Router.Scan.{
  Unready, IsLower, minimum-none, minimum-IsLower, minimum-IsLoad, scan-some, scan-none, reach,
  get_elem?-lt,
}

-- A worker with the least load of the candidates.
abbrev pub IsLeastLoaded : List WorkerState → WorkerState → Type 0
IsLeastLoaded ws w = (is_candidate w ≡ true) × IsLower w.inflight ws

-- The choice of index `i`, `k` places round from where the router stands.
pub record Chosen (r r' : FashnVtonRouter) (i : ℕ) : Type 0 where
  pub worker : WorkerState
  pub places : ℕ
  pub found : get_elem? r.workers i ≡ some worker
  pub least : IsLeastLoaded r.workers worker
  pub at : i ≡ (r.next_worker_index % length r.workers + (0 + places)) % length r.workers
  pub passed :
      (j : ℕ) (v : WorkerState)
      → j < places
      → get_elem? r.workers ((r.next_worker_index % length r.workers + (0 + j)) % length r.workers)
        ≡ some v
      → ¬ IsLeastLoaded r.workers v
  pub claimed : r' ≡ claim i r

eligible_some :
    (least : ℕ) (o : Option WorkerState)
    → is_eligible least o ≡ true
    → (w : WorkerState) × (o ≡ some w) × (is_candidate w ≡ true) × (w.inflight ≡ least)
eligible_some least none h = cc
eligible_some least (some w) h = (w, refl, ground arith, ground arith)

least-eligible :
    (ws : List WorkerState) (least : ℕ) (v : WorkerState)
    → minimum (loads ws) ≡ some least
    → (i : ℕ) → get_elem? ws i ≡ some v
    → IsLeastLoaded ws v
    → is_eligible least (some v) ≡ true
least-eligible ws least v h i e l =
    let (j, w, found, c, n) = minimum-IsLoad ws least h in
    let le = l.1 j w found c in
    let ge = minimum-IsLower ws least h i v e l.0 in
    let same : v.inflight ≡ least = omega arith in ground (arith, l.0, same)

pub pick_least-some :
    (o : Option ℕ) (r r' : FashnVtonRouter) (i : ℕ)
    → pick_least o r ≡ some (i, r')
    → (least : ℕ) × (o ≡ some least)
      × (scan least r.workers (r.next_worker_index % length r.workers) (length r.workers) 0
          ≡ some i)
      × (r' ≡ claim i r)
unfolding pick_least
pick_least-some none r r' i h = cc
pick_least-some (some least) r r' i h =
    elim (Option-cases
      (scan least r.workers (r.next_worker_index % length r.workers) (length r.workers) 0)) [
        | inl nothing ↦ ground (arith, h, nothing)
        | inr (j, found) ↦
            let same : i ≡ j = ground (arith, h, found) in
            (least, refl, rw same found, ground (arith, h, found))
      ]

pick_least-none :
    (o : Option ℕ) (r : FashnVtonRouter)
    → pick_least o r ≡ none
    → (least : ℕ) → o ≡ some least
    → scan least r.workers (r.next_worker_index % length r.workers) (length r.workers) 0 ≡ none
unfolding pick_least
pick_least-none none r h least e = cc
pick_least-none (some m) r h least e =
    let same : m ≡ least = cc (e) in
    rw (← same)
      (elim (Option-cases
        (scan m r.workers (r.next_worker_index % length r.workers) (length r.workers) 0)) [
          | inl nothing ↦ nothing
          | inr (j, found) ↦ ground (arith, h, found)
        ])

-- With one reading of the loads, whoever is chosen is ready and alive, no ready worker has a smaller
-- load, and each worker that stands before it, round from the router's index, is not such a worker.
pub pick-Chosen :
    (r r' : FashnVtonRouter) (i : ℕ) → pick (loads r.workers) r ≡ some (i, r') → Chosen r r' i
unfolding pick pick_least
pick-Chosen r r' i h =
    let (least, m, found, claimed) = pick_least-some (minimum (loads r.workers)) r r' i h in
    let (k, lt, at, good, passed) =
      scan-some least r.workers (r.next_worker_index % length r.workers) (length r.workers) 0 i
        found in
    let (w, there, c, n) = eligible_some least (get_elem? r.workers i) good in
    record {
      worker = w;
      places = k;
      found = there;
      least = (c, λ j v e d. rw n (minimum-IsLower r.workers least m j v e d));
      at = at;
      passed = λ j v lt' e l.
          let yes_it = least-eligible r.workers least v m _ e l in
          let no_it = passed j lt' in cc (yes_it, no_it, e);
      claimed = claimed;
    }

-- With one reading of the loads, nobody is chosen exactly if no worker is ready and alive.
pub pick-none : (r : FashnVtonRouter) → (pick (loads r.workers) r ≡ none) ↔ Unready r.workers
unfolding pick pick_least
pick-none r = (blocked, idle)
  where
    blocked : pick (loads r.workers) r ≡ none → Unready r.workers
    blocked h = elim (Option-cases (minimum (loads r.workers))) [
      | inl nothing ↦ minimum-none r.workers nothing
      | inr (least, m) ↦
          let stuck = pick_least-none (minimum (loads r.workers)) r h least m in
          let (i, w, e, c, n) = minimum-IsLoad r.workers least m in
          let lt = get_elem?-lt r.workers i w e in
          let (k, ltk, at) =
            reach (r.next_worker_index % length r.workers) i (length r.workers)
              (mod-lt r.next_worker_index (omega arith)) lt in
          let refused =
            scan-none least r.workers (r.next_worker_index % length r.workers) (length r.workers) 0
              stuck k ltk in
          let closed : is_eligible least (some w) ≡ false = rw (at, e) at refused in
          absurd (ground (arith, closed, c, n))
    ]

    idle : Unready r.workers → pick (loads r.workers) r ≡ none
    idle u = elim (Option-cases (minimum (loads r.workers))) [
      | inl nothing ↦ rw (nothing, pick)
      | inr (least, m) ↦
          let (i, w, e, c, n) = minimum-IsLoad r.workers least m in let f = u i w e in cc
    ]

-- If the loads change after `min` has read them, so that no ready worker has the minimum that was read,
-- nobody is chosen, however many workers are ready.
pub stale_minimum_rejects :
    (read : List ℕ) (r : FashnVtonRouter) (least : ℕ)
    → minimum read ≡ some least
    → ((i : ℕ) (w : WorkerState)
        → get_elem? r.workers i ≡ some w
        → is_candidate w ≡ true
        → w.inflight ≢ least)
    → pick read r ≡ none
unfolding pick pick_least
stale_minimum_rejects read r least m changed =
    elim (Option-cases
      (scan least r.workers (r.next_worker_index % length r.workers) (length r.workers) 0)) [
        | inl nothing ↦ rw (m, pick) (rw (nothing, pick_least))
        | inr (i, found) ↦
            let (k, lt, at, good, passed) =
              scan-some least r.workers (r.next_worker_index % length r.workers) (length r.workers)
                0 i found in
            let (w, there, c, n) = eligible_some least (get_elem? r.workers i) good in
            absurd (changed i w there c n)
      ]
