-- ===== src/Coordinator/Searching.antt =====
-- coordinator/mod.rs: `search`, its checks and the pool of tasks that run its queries.
pub mod Pools
pub mod Joins
pub mod Ends
use turbovec_grpc.Prelude.{
  Bool, List, Option, [], any, display, drop, false, get_elem?, if◌then◌else◌, is_empty, length,
  ltb, none, not, replicate, set, some, suc, take, text, zero, ℕ, ◌%◌, ◌&&◌, ◌++◌, ◌+◌, ◌-◌, ◌/◌,
  ◌==◌, ◌||◌, ◌∷◌,
}
use turbovec_grpc.Float.{F32, is_nan}
use turbovec_grpc.Status.{
  Result, expect, failed_precondition, invalid_argument, ok, panic, refuse_if, resource_exhausted,
  status, ◌>>=◌, ◌>>◌,
}
use turbovec_grpc.Wire.{LabelBitmap}
use turbovec_grpc.Service.Bitmaps.{validate_label_bitmaps}
use turbovec_grpc.Coordinator.{Pinned}

pub record CollectionSearchRequest : Type 0 where
  pub queries : List F32
  pub k : ℕ
  pub stable_label_order : Bool
  pub allowed_labels : List ℕ
  pub has_allowed_labels : Bool
  pub allowed_label_bitmaps : List LabelBitmap
  pub initial_floor : Option F32
  pub tie_complete : Bool

-- `CoordinatorLimits`, but for the timeout.
pub record CoordinatorLimits : Type 0 where
  pub max_k : ℕ
  pub max_queries_per_request : ℕ
  pub max_concurrent_queries : ℕ

abbrev pub nan_floor : Option F32 → Bool
nan_floor none = false
nan_floor (some floor) = is_nan floor

-- The checks that need no collection.
unfoldable pub check_request : CoordinatorLimits → CollectionSearchRequest → Result (Unit {0})
check_request limits req = do
  refuse_if (req.k == 0 || ltb limits.max_k req.k)
      (status invalid_argument (text "k must be between 1 and " ++ display limits.max_k))
  refuse_if
      (not req.has_allowed_labels
        && (not (is_empty req.allowed_labels) || not (is_empty req.allowed_label_bitmaps)))
      (status invalid_argument (text "allowed label filters require has_allowed_labels=true"))
  refuse_if (not (is_empty req.allowed_labels) && not (is_empty req.allowed_label_bitmaps)) (
      status invalid_argument
        (text "allowed_labels and allowed_label_bitmaps are mutually exclusive"))
  validate_label_bitmaps req.allowed_label_bitmaps
  refuse_if (nan_floor req.initial_floor)
      (status invalid_argument (text "initial_floor must not be NaN"))
  ok tt

-- `is_multiple_of`, which holds of no length but 0 for the dim 0.
abbrev pub is_multiple_of : ℕ → ℕ → Bool
is_multiple_of n zero = n == 0
is_multiple_of n (suc dim) = n % suc dim == 0

-- The checks against the collection, and the number of queries.
unfoldable pub check_queries : CoordinatorLimits → CollectionSearchRequest → Pinned → Result ℕ
check_queries limits req pinned = do
  refuse_if
      ((req.stable_label_order || req.has_allowed_labels)
        && any (λ shard. not shard.info.labelled) pinned.shards)
      (status failed_precondition
        (text "stable label order and filtering require every collection shard to be labelled"))
  refuse_if (is_empty req.queries || not (is_multiple_of (length req.queries) pinned.dim)) (
      status invalid_argument (
        text "query buffer length "
        ++ (display (length req.queries)
            ++ (text " is not a positive multiple of the collection dim " ++ display pinned.dim))))
  let nq : ℕ = length req.queries / pinned.dim
  refuse_if (ltb limits.max_queries_per_request nq) (
      status resource_exhausted (
        text "request has "
        ++ (display nq ++ (text " queries; limit is " ++ display limits.max_queries_per_request))))
  ok nq

-- `chunks_exact(dim)`, of which there are `count`.
unfoldable pub vectors_of : ℕ → ℕ → List F32 → List (List F32)
vectors_of zero dim queries = []
vectors_of (suc count) dim queries = take dim queries ∷ vectors_of count dim (drop dim queries)

-- The tasks that run, by the index of their query, the next query, and a slot for each result.
pub record Pool {ℓ} (R : Type ℓ) : Type ℓ where
  pub next : ℕ
  pub running : List ℕ
  pub results : List (Option R)

-- The task that ends first, at a place that the scheduler chooses, and those that go on.
unfoldable pub join_next : ℕ → List ℕ → Option (ℕ × List ℕ)
join_next place [] = none
join_next zero (task ∷ running) = some (task, running)
join_next (suc place) (task ∷ running) = elim (join_next place running) [
  | none ↦ some (task, running)
  | some ended ↦ some (ended.0, task ∷ ended.1)
]

-- `while next < nq && tasks.len() < max_concurrent_queries`, on fuel: the queries that are left.
unfoldable pub spawn {ℓ} : {R : Type ℓ} → ℕ → ℕ → ℕ → Pool R → Pool R
spawn limit nq zero s = s
spawn limit nq (suc fuel) s =
    let more =
      spawn limit nq fuel (record s { next = s.next + 1; running = s.running ++ s.next ∷ [] }) in
    if ltb s.next nq && ltb (length s.running) limit then more else s

-- The slot of an ended task is filled; its error ends the search.
unfoldable pub store_result {ℓ} :
    {R : Type ℓ} → (ℕ → Result R) → Option (ℕ × List ℕ) → Pool R → Result (Pool R)
store_result outcome none s = panic
store_result outcome (some (task, running)) s = do
  r ← outcome task
  ok (record s { running = running; results = set s.results task (some r) })

-- `while next < nq || !tasks.is_empty()`, where the scheduler chooses a place for each turn. Fuel
-- that runs out is a panic; each turn but the last joins one task, so one more than the number of
-- queries is fuel enough.
unfoldable pub run_queries {ℓ} :
    {R : Type ℓ} → ℕ → ℕ → (ℕ → Result R) → (ℕ → ℕ) → ℕ → Pool R → Result (List (Option R))
unfolding spawn join_next store_result
run_queries limit nq outcome places zero s = panic
run_queries limit nq outcome places (suc fuel) s =
    let filled = spawn limit nq (nq - s.next) s in
    let rest =
      store_result outcome (join_next (places fuel) filled.running) filled
      >>= run_queries limit nq outcome places fuel in
    if not (ltb s.next nq) && is_empty s.running then ok s.results else rest

-- `result.expect("every query task filled its result slot")`
unfoldable pub all_results {ℓ} : {R : Type ℓ} → List (Option R) → Result (List R)
all_results [] = ok []
all_results (slot ∷ slots) = do r ← expect slot; rs ← all_results slots; ok (r ∷ rs)

unfoldable pub fresh_pool {ℓ} : {R : Type ℓ} → ℕ → Pool R
fresh_pool nq = record { next = 0; running = []; results = replicate nq none }

pub record CollectionSearchResponse {ℓ} (R : Type ℓ) : Type ℓ where
  pub results : List R
  pub topology_generation : ℕ

-- The task of a query: its vector, and what `query` returns of it.
unfoldable pub task_of {ℓ} : {R : Type ℓ} → (List F32 → Result R) → List (List F32) → ℕ → Result R
task_of query vectors i = do vector ← expect (get_elem? vectors i); query vector

-- `search`: of what `collection` returns, what the task of a vector returns, and the choices of
-- the scheduler.
unfoldable pub search {ℓ} :
    {R : Type ℓ}
    → CoordinatorLimits
    → Result Pinned
    → (Pinned → List F32 → Result R)
    → (ℕ → ℕ)
    → CollectionSearchRequest
    → Result (CollectionSearchResponse R)
unfolding check_request check_queries vectors_of run_queries all_results fresh_pool task_of
search limits bound query places req = do
  check_request limits req
  pinned ← bound
  nq ← check_queries limits req pinned
  slots ←
      run_queries limits.max_concurrent_queries nq
        (task_of (query pinned) (vectors_of nq pinned.dim req.queries)) places (suc nq)
        (fresh_pool nq)
  results ← all_results slots
  ok (record { results = results; topology_generation = pinned.generation })
