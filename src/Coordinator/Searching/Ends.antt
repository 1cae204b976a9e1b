-- ===== src/Coordinator/Searching/Ends.antt =====
-- coordinator/mod.rs: the loop of `search` ends when each query has been joined once.
use turbovec_grpc.Prelude.{
  All, All-append, Bool, Bool-cases, List, Option, [], all, ap, arith, false, get_elem?,
  if◌then◌else◌, inl, inr, is_empty, length, length-append, length-replicate, length-set, ltb,
  ltb→le, none, not, refl, set, some, some-injective, subst, suc, true, zero, ℕ, ◌&&◌, ◌++◌, ◌+◌,
  ◌-◌, ◌<◌, ◌==◌, ◌∙◌, ◌∷◌, ◌≡◌, ◌≤◌, ◌⊎◌,
}
use turbovec_grpc.Status.{Result, ok}
use turbovec_grpc.Coordinator.Searching.{
  Pool, all_results, fresh_pool, run_queries, spawn, store_result,
}
use turbovec_grpc.Coordinator.Searching.Joins.{
  IsJoined, Runs, Runs-append, Runs-last, Runs-pos, get_elem?-set_other, get_elem?-set_same,
  is_empty-length, join_next-some, length-is_empty,
}

module _ {ℓ} {R : Type ℓ} (outcome : ℕ → Result R) (limit nq : ℕ) (pos : 0 < limit)
    (returned : (i : ℕ) → i < nq → (a : R) × (outcome i ≡ ok a)) where
  abbrev Filled : List (Option R) → ℕ → Type ℓ
  Filled results i = (a : R) × (get_elem? results i ≡ some (some a))

  -- Every query that was started runs or is answered, and `left` joins are to come.
  record Progresses (left : ℕ) (s : Pool R) : Type ℓ where
    slot_each : length s.results ≡ nq
    started : s.next ≤ nq
    known : All (λ t. t < nq) s.running
    to_join : length s.running + (nq - s.next) ≡ left
    covered : (i : ℕ) → i < s.next → Runs i s.running ⊎ Filled s.results i

  one_more :
      {left : ℕ} (s : Pool R)
      → Progresses left s
      → (i : ℕ) → i < s.next + 1
      → Runs i (s.running ++ s.next ∷ []) ⊎ Filled s.results i
  one_more s p i h = elim (Bool-cases (i == s.next)) [
    | inl e ↦
        let same : s.next ≡ i = ground arith in
        inl (subst (λ n. Runs n (s.running ++ s.next ∷ [])) same (Runs-last s.next s.running))
    | inr e ↦ elim (p.covered i (ground arith)) [
      | inl runs ↦ inl (Runs-append i s.next s.running runs)
      | inr filled ↦ inr filled
    ]
  ]

  spawn-Progresses :
      (fuel left : ℕ) (s : Pool R) → Progresses left s → Progresses left (spawn limit nq fuel s)
  unfolding spawn
  spawn-Progresses zero left s p = p
  spawn-Progresses (suc fuel) left s p =
      elim (Bool-cases (ltb s.next nq && ltb (length s.running) limit)) [
        | inr e ↦ rw (e) p
        | inl e ↦
            let below : s.next < nq = ground arith in
            rw (e) (
              spawn-Progresses fuel left _ (record {
                slot_each = p.slot_each;
                started = omega (arith, below);
                known = All-append (λ t. t < nq) s.running (s.next ∷ []) p.known (below, tt);
                to_join = omega (arith, length-append s.running (s.next ∷ []), p.to_join, below);
                covered = one_more s p;
              }))
      ]

  spawn-longer : (fuel : ℕ) (s : Pool R) → length s.running ≤ length (spawn limit nq fuel s).running
  unfolding spawn
  spawn-longer zero s = omega arith
  spawn-longer (suc fuel) s =
      let more : Pool R = record s { next = s.next + 1; running = s.running ++ s.next ∷ [] } in
      if-longer (ltb s.next nq && ltb (length s.running) limit) (spawn limit nq fuel more)
        (omega (arith, spawn-longer fuel more, length-append s.running (s.next ∷ [])))
    where
      if-longer :
          (b : Bool) (t : Pool R)
          → length s.running ≤ length t.running
          → length s.running ≤ length (if b then t else s).running
      if-longer true t h = h
      if-longer false t h = omega arith

  -- With a join to come a task runs, once the pool is filled.
  spawn-pos :
      (fuel left : ℕ) (s : Pool R)
      → Progresses (suc left) s
      → nq - s.next ≡ fuel
      → 0 < length (spawn limit nq fuel s).running
  unfolding spawn
  spawn-pos zero left s p e = omega (arith, p.to_join)
  spawn-pos (suc fuel) left s p e = elim (Bool-cases (ltb (length s.running) limit)) [
    | inl room ↦
        let more : Pool R = record s { next = s.next + 1; running = s.running ++ s.next ∷ [] } in
        let below : ltb s.next nq ≡ true = ground arith in
        rw (below, room)
          (omega (arith, spawn-longer fuel more, length-append s.running (s.next ∷ [])))
    | inr full ↦ omega (arith, spawn-longer (suc fuel) s, ltb→le (length s.running) limit full, pos)
  ]

  stored-Progresses :
      (left task : ℕ) (others : List ℕ) (s : Pool R) (a : R)
      → Progresses (suc left) s
      → IsJoined (λ t. t < nq) s.running task others
      → Progresses left (record s { running = others; results = set s.results task (some a) })
  stored-Progresses left task others s a p j = record {
    slot_each = length-set s.results task (some a) ∙ p.slot_each;
    started = p.started;
    known = j.other_tasks;
    to_join = omega (arith, p.to_join, j.one_less);
    covered = λ i h. elim (p.covered i h) [
      | inl runs ↦ elim (j.task_or_other i runs) [
        | inl same ↦ inr (filled i same)
        | inr elsewhere ↦ inl elsewhere
      ]
      | inr (b, at) ↦ elim (Bool-cases (task == i)) [
        | inl e ↦ inr (filled i (ground arith))
        | inr e ↦ inr (b, get_elem?-set_other s.results task i (some a) e ∙ at)
      ]
    ];
  }
    where
      filled : (i : ℕ) → task ≡ i → Filled (set s.results task (some a)) i
      filled i same = subst (Filled (set s.results task (some a))) same (
        a,
        get_elem?-set_same s.results task (some a) (omega (arith, p.slot_each, j.joined_task)),
      )

  unfinished :
      (left : ℕ) (s : Pool R)
      → Progresses (suc left) s
      → (not (ltb s.next nq) && is_empty s.running) ≡ false
  unfinished left s p = elim (Bool-cases (ltb s.next nq)) [
    | inl e ↦ rw (e) refl
    | inr e ↦ elim (Bool-cases (is_empty s.running)) [
      | inr f ↦ rw (e, f) refl
      | inl f ↦ absurd (omega (arith, p.to_join, ltb→le s.next nq e, is_empty-length s.running f))
    ]
  ]

  finished : (s : Pool R) → Progresses 0 s → (not (ltb s.next nq) && is_empty s.running) ≡ true
  finished s p = elim (Bool-cases (ltb s.next nq)) [
    | inl e ↦ let below : s.next < nq = ground arith in absurd (omega (arith, p.to_join, below))
    | inr e ↦ rw (e) (length-is_empty s.running (omega (arith, p.to_join)))
  ]

  run_queries-Filled :
      (places : ℕ → ℕ) (left : ℕ) (s : Pool R)
      → Progresses left s
      → (slots : List (Option R)) × (run_queries limit nq outcome places (suc left) s ≡ ok slots)
        × (length slots ≡ nq)
        × ((i : ℕ) → i < nq → Filled slots i)
  unfolding run_queries store_result
  run_queries-Filled places zero s p = (
    s.results,
    (let ends : (not (ltb s.next nq) && is_empty s.running) ≡ true = finished s p in
        rw (ends) refl),
    p.slot_each,
    λ i h. elim (p.covered i (omega (arith, p.to_join, h))) [
      | inl runs ↦ absurd (omega (arith, p.to_join, Runs-pos i s.running runs))
      | inr filled ↦ filled
    ],
  )
  run_queries-Filled places (suc left) s p =
      let more = spawn limit nq (nq - s.next) s in
      let q = spawn-Progresses (nq - s.next) (suc left) s p in
      let (task, others, joined, j) =
        join_next-some (λ t. t < nq) (places (suc left)) more.running
          (spawn-pos (nq - s.next) left s p refl) q.known in
      let (a, ran) = returned task j.joined_task in
      let (slots, rest, len, filled) =
        run_queries-Filled places left
          (record more { running = others; results = set more.results task (some a) })
          (stored-Progresses left task others more a q j) in
      let goes_on : (not (ltb s.next nq) && is_empty s.running) ≡ false = unfinished left s p in
      (slots, rw (goes_on, joined, ran) rest, len, filled)

-- The slots hold as many answers.
all_results-total {ℓ} :
    {R : Type ℓ} (slots : List (Option R))
    → ((i : ℕ) → i < length slots → (a : R) × (get_elem? slots i ≡ some (some a)))
    → (results : List R) × (all_results slots ≡ ok results) × (length results ≡ length slots)
unfolding all_results
all_results-total [] h = ([], refl, refl)
all_results-total (slot ∷ slots) h =
    let (a, e) = h 0 (omega arith) in
    let (results, rest, len) = all_results-total slots (λ i l. h (suc i) (omega arith)) in
    let held : slot ≡ some a = some-injective e in (a ∷ results, rw (held, rest) refl, ap suc len)

-- With at least one task allowed at a time and tasks that all return, the loop leaves by its own
-- test, its fuel of one turn more than there are queries not used up, and never joins an empty set
-- of tasks, since either would be a panic; and every query is answered, whichever tasks end first.
pub run_queries_live {ℓ} :
    {R : Type ℓ} (outcome : ℕ → Result R) (limit nq : ℕ) (places : ℕ → ℕ)
    → 0 < limit
    → ((i : ℕ) → i < nq → (a : R) × (outcome i ≡ ok a))
    → (slots : List (Option R)) × (results : List R) × (run_queries limit nq outcome places
          (suc nq)
          (fresh_pool nq)
        ≡ ok slots)
      × (all_results slots ≡ ok results)
      × (length results ≡ nq)
unfolding fresh_pool
run_queries_live {R = R} outcome limit nq places pos returned =
    let (slots, ran, len, filled) =
      run_queries-Filled outcome limit nq pos returned places nq (fresh_pool nq) (record {
        slot_each = length-replicate nq none;
        started = omega arith;
        known = tt;
        to_join = omega arith;
        covered = λ i h. absurd (omega arith);
      }) in
    let (results, all, len') = all_results-total slots (λ i h. filled i (omega (arith, len, h))) in
    (slots, results, ran, all, len' ∙ len)
