-- ===== src/Router/Schedule.antt =====
-- scripts/serve_fashn_vton_router.py: `claim_worker` and `readiness`. `claim_worker` reads the loads of the ready
-- workers twice, for `min` and for `eligible`, with no lock of the workers: what `min` has read is an
-- argument of its own.
use try_ops_try_on_mlops.Base.{
  ℕ, zero, suc, ◌+◌, ◌%◌, min, String, string_eq, nat_eq, Bool, false, ◌&&◌, Option, none, some,
  List, [], ◌∷◌, map, length, get_elem?, set, keep, if◌then◌else◌, ◌==◌,
}
use try_ops_try_on_mlops.Router.State.{WorkerState, FashnVtonRouter, ProbeReply, probe_worker}

-- `worker.ready and worker.alive()`
abbrev pub is_candidate : WorkerState → Bool
is_candidate w = w.ready && w.alive

-- The first loop of `claim_worker`. `replies i` is what worker `i` would answer to a probe.
unfoldable pub refresh : String → (ℕ → ProbeReply) → ℕ → List WorkerState → List WorkerState
refresh root replies i [] = []
refresh root replies i (w ∷ ws) =
    (if is_candidate w then w else probe_worker root (replies i) w)
    ∷ refresh root replies (i + 1) ws

-- `min(worker.inflight for worker in candidates)`
abbrev pub minimum : List ℕ → Option ℕ
minimum [] = none
minimum (n ∷ ns) = elim (minimum ns) [ none ↦ some n | some m ↦ some (min n m) ]

-- the loads of the candidates, as one reading of them
abbrev pub loads : List WorkerState → List ℕ
loads ws = map (λ w. w.inflight) (keep is_candidate ws)

-- `id(worker) in eligible`
abbrev pub is_eligible : ℕ → Option WorkerState → Bool
is_eligible least none = false
is_eligible least (some w) = is_candidate w && w.inflight == least

-- The scheduler's loop: the index that it stops at, from an offset on.
unfoldable pub scan : ℕ → List WorkerState → ℕ → ℕ → ℕ → Option ℕ
scan least ws start zero offset = none
scan least ws start (suc rounds) offset =
    let index : ℕ = (start + offset) % length ws in
    let rest = scan least ws start rounds (offset + 1) in
    if is_eligible least (get_elem? ws index) then some index else rest

abbrev pub with_worker : (WorkerState → WorkerState) → ℕ → FashnVtonRouter → FashnVtonRouter
with_worker f i r = elim (get_elem? r.workers i) [
  | none ↦ r
  | some w ↦ record r { workers = set r.workers i (f w) }
]

abbrev pub add_inflight : WorkerState → WorkerState
add_inflight w = record w { inflight = w.inflight + 1 }

-- `worker.inflight += 1` and the move of the round-robin index
abbrev pub claim : ℕ → FashnVtonRouter → FashnVtonRouter
claim i r = record (with_worker add_inflight i r) { next_worker_index = (i + 1) % length r.workers }

-- The block under the scheduler's lock, by the minimum that was read.
unfoldable pub pick_least : Option ℕ → FashnVtonRouter → Option (ℕ × FashnVtonRouter)
pick_least none r = none
pick_least (some least) r =
    elim (scan least r.workers (r.next_worker_index % length r.workers) (length r.workers) 0) [
      | none ↦ none
      | some i ↦ some (i, claim i r)
    ]

-- ... where `min` reads the loads `read`
unfoldable pub pick : List ℕ → FashnVtonRouter → Option (ℕ × FashnVtonRouter)
pick read r = pick_least (minimum read) r

-- `claim_worker`. With `read = loads r'.workers` no load changes between the two readings.
unfoldable pub claim_worker :
    String → (ℕ → ProbeReply) → List ℕ → FashnVtonRouter → FashnVtonRouter × Option ℕ
claim_worker root replies read r =
    let r' : FashnVtonRouter = record r { workers = refresh root replies 0 r.workers } in
    elim (pick read r') [ none ↦ (r', none) | some (i, r'') ↦ (r'', some i) ]

unfoldable pub probe_all : String → (ℕ → ProbeReply) → ℕ → List WorkerState → List WorkerState
probe_all root replies i [] = []
probe_all root replies i (w ∷ ws) =
    probe_worker root (replies i) w ∷ probe_all root replies (i + 1) ws

-- `readiness`: the workers after their probes, and the number of those ready
unfoldable pub readiness : String → (ℕ → ProbeReply) → FashnVtonRouter → FashnVtonRouter × ℕ
readiness root replies r =
    let ws = probe_all root replies 0 r.workers in
    (record r { workers = ws }, length (keep is_candidate ws))
