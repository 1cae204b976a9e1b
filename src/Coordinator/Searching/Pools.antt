-- ===== src/Coordinator/Searching/Pools.antt =====
-- coordinator/mod.rs: the answers of `search` stand in the order of its queries.
use turbovec_grpc.Prelude.{
  Bool, Bool-cases, List, Option, [], any, ap, false, get_elem?, if◌then◌else◌, inl, inr, is_empty,
  length, length-replicate, length-set, ltb, none, not, refl, replicate, set, some, some-injective,
  subst, suc, sym, true, zero, ℕ, ◌&&◌, ◌++◌, ◌+◌, ◌-◌, ◌/◌, ◌||◌, ◌∙◌, ◌∷◌, ◌≡◌, ◌⊎◌,
}
use turbovec_grpc.Float.{F32}
use turbovec_grpc.Status.{
  >>=-eq-ok, Result, expect, expect-eq-ok, ok, ok-injective, panic-ne-ok, refuse_if-eq-ok,
}
use turbovec_grpc.Coordinator.{Pinned}
use turbovec_grpc.Coordinator.Searching.{
  CollectionSearchRequest, CollectionSearchResponse, CoordinatorLimits, Pool, all_results,
  check_queries, check_request, fresh_pool, is_multiple_of, join_next, run_queries, search, spawn,
  store_result, task_of, vectors_of,
}

none-ne-some {ℓ} : {A : Type ℓ} {a : A} → ◌≡◌ {A = Option A} none (some a) → ⊥
none-ne-some h = cc

pub get_elem?-set {ℓ} :
    {A : Type ℓ} (xs : List A) (t i : ℕ) (v a : A)
    → get_elem? (set xs t v) i ≡ some a
    → ((t ≡ i) × (v ≡ a)) ⊎ (get_elem? xs i ≡ some a)
get_elem?-set [] t i v a h = cc
get_elem?-set (x ∷ xs) zero zero v a h = inl (refl, some-injective h)
get_elem?-set (x ∷ xs) zero (suc i) v a h = inr h
get_elem?-set (x ∷ xs) (suc t) zero v a h = inr h
get_elem?-set (x ∷ xs) (suc t) (suc i) v a h = elim (get_elem?-set xs t i v a h) [
  | inl (e, f) ↦ inl (ap suc e, f)
  | inr g ↦ inr g
]

get_elem?-replicate {ℓ} :
    {A : Type ℓ} (n i : ℕ) (a b : A) → get_elem? (replicate n a) i ≡ some b → a ≡ b
get_elem?-replicate zero i a b h = cc
get_elem?-replicate (suc n) zero a b h = some-injective h
get_elem?-replicate (suc n) (suc i) a b h = get_elem?-replicate n i a b h

module _ {ℓ} {R : Type ℓ} (outcome : ℕ → Result R) (nq : ℕ) where
  -- A filled slot holds what its own query's task returned.
  record Holds (results : List (Option R)) : Type ℓ where
    slot_each : length results ≡ nq
    own : (i : ℕ) (a : R) → get_elem? results i ≡ some (some a) → outcome i ≡ ok a

  spawn-results : (limit fuel : ℕ) (s : Pool R) → (spawn limit nq fuel s).results ≡ s.results
  unfolding spawn
  spawn-results limit zero s = refl
  spawn-results limit (suc fuel) s =
      either (ltb s.next nq && ltb (length s.running) limit)
        (spawn limit nq fuel (record s { next = s.next + 1; running = s.running ++ s.next ∷ [] }))
        (spawn-results limit fuel
          (record s { next = s.next + 1; running = s.running ++ s.next ∷ [] }))
    where
      either :
          (b : Bool) (t : Pool R) → t.results ≡ s.results → (if b then t else s).results ≡ s.results
      either true t e = e
      either false t e = refl

  store_result-Holds :
      (ended : Option (ℕ × List ℕ)) (s s' : Pool R)
      → Holds s.results
      → store_result outcome ended s ≡ ok s'
      → Holds s'.results
  unfolding store_result
  store_result-Holds none s s' held h = absurd (panic-ne-ok h)
  store_result-Holds (some (task, running)) s s' held h =
      let (r, e, h₁) = >>=-eq-ok (outcome task) _ h in
      subst (λ t. Holds t.results) (ok-injective h₁)
        (record {
          slot_each = length-set s.results task (some r) ∙ held.slot_each;
          own = λ i a g. elim (get_elem?-set s.results task i (some r) (some a) g) [
            | inl (at, same) ↦ rw (← at, ← some-injective same) e
            | inr before ↦ held.own i a before
          ];
        })

  run_queries-Holds :
      (limit : ℕ) (places : ℕ → ℕ) (fuel : ℕ) (s : Pool R) (slots : List (Option R))
      → Holds s.results
      → run_queries limit nq outcome places fuel s ≡ ok slots
      → Holds slots
  unfolding run_queries
  run_queries-Holds limit places zero s slots held h = absurd (panic-ne-ok h)
  run_queries-Holds limit places (suc fuel) s slots held h =
      elim (Bool-cases (not (ltb s.next nq) && is_empty s.running)) [
        | inl e ↦ subst Holds (ok-injective (rw (e) at h)) held
        | inr e ↦
            let filled = spawn limit nq (nq - s.next) s in
            let (s', stored, more) =
              >>=-eq-ok (store_result outcome (join_next (places fuel) filled.running) filled) _
                (rw (e) at h) in
            run_queries-Holds limit places fuel s' slots
              (store_result-Holds _ filled s'
                (subst Holds (sym (spawn-results limit (nq - s.next) s)) held) stored)
              more
      ]

  fresh_pool-Holds : Holds (fresh_pool {R = R} nq).results
  unfolding fresh_pool
  fresh_pool-Holds = record {
    slot_each = length-replicate nq none;
    own = λ i a h. absurd (none-ne-some (get_elem?-replicate nq i none (some a) h));
  }

  all_results-own :
      (slots : List (Option R)) (results : List R)
      → all_results slots ≡ ok results
      → (length results ≡ length slots)
        × ((i : ℕ) (a : R) → get_elem? results i ≡ some a → get_elem? slots i ≡ some (some a))
  unfolding all_results
  all_results-own [] results h =
      subst
        (λ rs.
          (length rs ≡ 0)
          × ((i : ℕ) (a : R)
              → get_elem? rs i ≡ some a
              → ◌≡◌ {A = Option (Option R)} none (some (some a))))
        (ok-injective h) (refl, λ i a g. absurd (none-ne-some g))
  all_results-own (slot ∷ slots) results h =
      let (r, filled, h₁) = >>=-eq-ok (expect slot) _ h in
      let (rs, more, h₂) = >>=-eq-ok (all_results slots) _ h₁ in
      let (same_length, at) = all_results-own slots rs more in
      subst
        (λ qs.
          (length qs ≡ suc (length slots))
          × ((i : ℕ) (a : R)
              → get_elem? qs i ≡ some a
              → get_elem? (slot ∷ slots) i ≡ some (some a)))
        (ok-injective h₂) (ap suc same_length, found r rs (expect-eq-ok slot filled) at)
    where
      found :
          (r : R) (rs : List R)
          → slot ≡ some r
          → ((i : ℕ) (a : R) → get_elem? rs i ≡ some a → get_elem? slots i ≡ some (some a))
          → (i : ℕ) (a : R) → get_elem? (r ∷ rs) i ≡ some a
          → get_elem? (slot ∷ slots) i ≡ some (some a)
      found r rs e at zero a g = ap some (e ∙ g)
      found r rs e at (suc i) a g = at i a g

check_queries-nq :
    (limits : CoordinatorLimits) (req : CollectionSearchRequest) (pinned : Pinned) (nq : ℕ)
    → check_queries limits req pinned ≡ ok nq
    → length req.queries / pinned.dim ≡ nq
unfolding check_queries
check_queries-nq limits req pinned nq h =
    let (_, h₁) =
      refuse_if-eq-ok
        ((req.stable_label_order || req.has_allowed_labels)
          && any (λ shard. not shard.info.labelled) pinned.shards)
        _ _ h in
    let (_, h₂) =
      refuse_if-eq-ok (is_empty req.queries || not (is_multiple_of (length req.queries) pinned.dim))
        _ _ h₁ in
    let (_, h₃) =
      refuse_if-eq-ok (ltb limits.max_queries_per_request (length req.queries / pinned.dim)) _ _
        h₂ in
    ok-injective h₃

-- A search that answers does so in full and in order, whichever tasks end first: there is one
-- answer for each query, of the generation that was bound, and each is what the task of that very
-- query returned.
pub search_answers {ℓ} :
    {R : Type ℓ} (limits : CoordinatorLimits) (pinned : Pinned)
    (query : Pinned → List F32 → Result R) (places : ℕ → ℕ) (req : CollectionSearchRequest)
    (response : CollectionSearchResponse R)
    → search limits (ok pinned) query places req ≡ ok response
    → (response.topology_generation ≡ pinned.generation)
      × (length response.results ≡ length req.queries / pinned.dim)
      × ((i : ℕ) (a : R)
          → get_elem? response.results i ≡ some a
          → (vector : List F32) × (get_elem?
                (vectors_of (length req.queries / pinned.dim) pinned.dim req.queries)
                i
              ≡ some vector)
            × (query pinned vector ≡ ok a))
unfolding search check_queries task_of
search_answers {R = R} limits pinned query places req response h =
    let (_, _, h₁) = >>=-eq-ok (check_request limits req) _ h in
    let (nq, checked, h₂) = >>=-eq-ok (check_queries limits req pinned) _ h₁ in
    let (slots, ran, h₃) =
      >>=-eq-ok
        (run_queries limits.max_concurrent_queries nq
          (task_of (query pinned) (vectors_of nq pinned.dim req.queries)) places (suc nq)
          (fresh_pool nq))
        _ h₂ in
    let (results, collected, h₄) = >>=-eq-ok (all_results slots) _ h₃ in
    let outcome : ℕ → Result R = task_of (query pinned) (vectors_of nq pinned.dim req.queries) in
    let held =
      run_queries-Holds outcome nq limits.max_concurrent_queries places (suc nq) (fresh_pool nq)
        slots (fresh_pool-Holds outcome nq) ran in
    let (same_length, at) = all_results-own outcome nq slots results collected in
    subst
      (λ r.
        (r.topology_generation ≡ pinned.generation)
        × (length r.results ≡ length req.queries / pinned.dim)
        × ((i : ℕ) (a : R)
            → get_elem? r.results i ≡ some a
            → (vector : List F32) × (get_elem?
                  (vectors_of (length req.queries / pinned.dim) pinned.dim req.queries) i
                ≡ some vector)
              × (query pinned vector ≡ ok a)))
      (ok-injective h₄)
      (subst
        (λ n.
          (pinned.generation ≡ pinned.generation)
          × (length results ≡ n)
          × ((i : ℕ) (a : R)
              → get_elem? results i ≡ some a
              → (vector : List F32) × (get_elem? (vectors_of n pinned.dim req.queries) i
                  ≡ some vector)
                × (query pinned vector ≡ ok a)))
        (sym (check_queries-nq limits req pinned nq checked))
        (
          refl,
          same_length ∙ held.slot_each,
          λ i a g.
              let (vector, e, asked) =
                >>=-eq-ok (expect (get_elem? (vectors_of nq pinned.dim req.queries) i)) _
                  (held.own i a (at i a g)) in
              (vector, expect-eq-ok _ e, asked),
        ))
