-- ===== src/Jobs/Listing.antt =====
-- src/tryops/jobs.py: `list` and `snapshot` of `InMemoryJobQueue`. The ISO timestamps are numbers.
use try_ops_try_on_mlops.Base.{
  ℕ, zero, suc, ◌≤◌, ◌++◌, drop, ap, sym, min, max, leb, String, Bool, true, false, ◌&&◌, ◌≡◌, refl,
  Option, none, some, List, [], ◌∷◌, map, length, count_if, keep, take, All, contains, length-take,
  length-keep, keep-All, take-All, arith,
}
use mathlib.Core.List.{Perm}
use mathlib.Core.Path.{subst}
use try_ops_try_on_mlops.Base.Int.{ℤ, pos, negsuc}
use try_ops_try_on_mlops.Base.Dict.{values}
use try_ops_try_on_mlops.Base.Sort.{
  sort_by, descending, IsDescending, sort_by-All, length-sort_by, sort_by-IsDescending,
  sort_by-perm, take-IsDescending,
}
use try_ops_try_on_mlops.Jobs.Record.{
  Status, status_eq, JobRecord, JobQueue, to_dict, passes, passes_account, queue_depth_locked,
}

pub record ListQuery : Type 0 where
  pub account_id : Option String
  pub workload : Option String
  pub statuses : Option (List Status)
  pub include_result : Bool
  pub limit : ℤ

-- `max(1, min(limit, 100))`
unfoldable pub bounded_limit : ℤ → ℕ
bounded_limit (pos n) = max 1 (min n 100)
bounded_limit (negsuc n) = 1

abbrev passes_status : Option (List Status) → Status → Bool
passes_status none s = true
passes_status (some l) s = contains s l

abbrev pub matches : ListQuery → JobRecord → Bool
matches query r =
    passes_account query.account_id r.account_id
    && passes query.workload r.workload
    && passes_status query.statuses r.status

unfoldable pub list_jobs : JobQueue → ListQuery → List JobRecord
unfolding bounded_limit to_dict
list_jobs q query = take (bounded_limit query.limit) (
    sort_by (descending (λ r. r.created_at))
      (map (to_dict query.include_result) (keep (matches query) (values q.records))))

unfoldable pub snapshot : JobQueue → ℕ × List JobRecord
unfolding queue_depth_locked to_dict
snapshot q = (
  queue_depth_locked q,
  sort_by (λ a b. leb a.created_at b.created_at) (map (to_dict false) (values q.records)),
)

to_dict-matches :
    (query : ListQuery) (b : Bool) (r : JobRecord) → matches query (to_dict b r) ≡ matches query r
unfolding to_dict
to_dict-matches query true r = refl
to_dict-matches query false r = refl

map-All :
    (query : ListQuery) (b : Bool) (rs : List JobRecord)
    → All (λ r. matches query r ≡ true) rs
    → All (λ r. matches query r ≡ true) (map (to_dict b) rs)
map-All query b [] h = tt
map-All query b (r ∷ rs) h = (rw (to_dict-matches query b r) h.0, map-All query b rs h.1)

length-map : (b : Bool) (rs : List JobRecord) → length (map (to_dict b) rs) ≡ length rs
length-map b [] = refl
length-map b (r ∷ rs) = omega (arith, length-map b rs)

-- the number that a limit from 1 to 100 is, or the nearer end of that range
abbrev pub Clamped : ℤ → ℕ → Type 0
Clamped (pos n) k = (n ≤ 1 → k ≡ 1) × (1 ≤ n → n ≤ 100 → k ≡ n) × (100 ≤ n → k ≡ 100)
Clamped (negsuc n) k = k ≡ 1

bounded_limit-Clamped : (limit : ℤ) → Clamped limit (bounded_limit limit)
unfolding bounded_limit
bounded_limit-Clamped (pos n) = (λ h. omega arith, λ h k. omega arith, λ h. omega arith)
bounded_limit-Clamped (negsuc n) = omega arith

append-take : (n : ℕ) (rs : List JobRecord) → take n rs ++ drop n rs ≡ rs
append-take zero rs = refl
append-take (suc n) [] = refl
append-take (suc n) (r ∷ rs) = ap (λ (l : List JobRecord). r ∷ l) (append-take n rs)

-- What the queue has to show for a query: its matching records, with or without their results.
abbrev pub matching : JobQueue → ListQuery → List JobRecord
matching q query = map (to_dict query.include_result) (keep (matches query) (values q.records))

-- A page is the newest part of the matching records of the queue: with some rest it is a rearrangement of
-- them, in which no record stands behind an older one. All its records match, they come newest first,
-- and there are as many as match up to the limit of the query, clamped to the range from 1 to 100.
pub list_jobs_page :
    (q : JobQueue) (query : ListQuery)
    → let page = list_jobs q query in
      (rest : List JobRecord) × Perm (page ++ rest) (matching q query)
      × IsDescending (λ r. r.created_at) (page ++ rest)
      × All (λ r. matches query r ≡ true) page
      × IsDescending (λ r. r.created_at) page
      × (length page
          ≡ min (bounded_limit query.limit) (count_if (matches query) (values q.records)))
      × Clamped query.limit (bounded_limit query.limit)
unfolding list_jobs
list_jobs_page q query =
    let found = keep (matches query) (values q.records) in
    let shown = matching q query in
    let limit = bounded_limit query.limit in
    let newest = sort_by (descending (λ (r : JobRecord). r.created_at)) shown in
    let sorted = sort_by-IsDescending (λ r. r.created_at) shown in
    let whole = sym (append-take limit newest) in
    (
      drop limit newest,
      subst (λ (l : List JobRecord). Perm l shown) whole
          (sort_by-perm (descending (λ r. r.created_at)) shown),
      subst (IsDescending (λ r. r.created_at)) whole sorted,
      take-All (λ r. matches query r ≡ true) limit newest
          (sort_by-All (descending (λ r. r.created_at)) (λ r. matches query r ≡ true) shown
            (map-All query query.include_result found
              (keep-All (matches query) (values q.records)))),
      take-IsDescending (λ r. r.created_at) limit newest sorted,
      omega (
        arith,
        length-take limit newest,
        length-sort_by (descending (λ (r : JobRecord). r.created_at)) shown,
        length-map query.include_result found,
        length-keep (matches query) (values q.records),
      ),
      bounded_limit-Clamped query.limit,
    )
