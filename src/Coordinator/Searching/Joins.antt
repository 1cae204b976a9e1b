-- ===== src/Coordinator/Searching/Joins.antt =====
-- coordinator/mod.rs: the tasks that run, and the one that ends first.
use turbovec_grpc.Prelude.{
  All, List, [], ap, arith, false, get_elem?, inl, inr, is_empty, length, refl, set, some, suc,
  true, zero, ℕ, ◌++◌, ◌<◌, ◌==◌, ◌∷◌, ◌≡◌, ◌⊎◌,
}
use turbovec_grpc.Coordinator.Searching.{join_next}

abbrev pub Runs : ℕ → List ℕ → Type 0
Runs i [] = ⊥
Runs i (task ∷ running) = (task ≡ i) ⊎ Runs i running

pub Runs-append : (i t : ℕ) (running : List ℕ) → Runs i running → Runs i (running ++ t ∷ [])
Runs-append i t [] h = absurd h
Runs-append i t (u ∷ running) (inl e) = inl e
Runs-append i t (u ∷ running) (inr h) = inr (Runs-append i t running h)

pub Runs-last : (t : ℕ) (running : List ℕ) → Runs t (running ++ t ∷ [])
Runs-last t [] = inl refl
Runs-last t (u ∷ running) = inr (Runs-last t running)

pub Runs-pos : (i : ℕ) (running : List ℕ) → Runs i running → 0 < length running
Runs-pos i [] h = absurd h
Runs-pos i (t ∷ running) h = omega arith

pub is_empty-length {ℓ} : {A : Type ℓ} (xs : List A) → is_empty xs ≡ true → length xs ≡ 0
is_empty-length [] h = refl
is_empty-length (x ∷ xs) h = cc

pub length-is_empty {ℓ} : {A : Type ℓ} (xs : List A) → length xs ≡ 0 → is_empty xs ≡ true
length-is_empty [] h = refl
length-is_empty (x ∷ xs) h = absurd (omega (arith, h))

behind :
    (P : ℕ → Type 0) (t u task : ℕ) (running others : List ℕ)
    → ((i : ℕ) → Runs i (u ∷ running) → (task ≡ i) ⊎ Runs i others)
    → (i : ℕ) → Runs i (t ∷ u ∷ running)
    → (task ≡ i) ⊎ Runs i (t ∷ others)
behind P t u task running others h i (inl same) = inr (inl same)
behind P t u task running others h i (inr later) = elim (h i later) [
  | inl here ↦ inl here
  | inr elsewhere ↦ inr (inr elsewhere)
]

-- A task that ended, and the others.
pub record IsJoined (P : ℕ → Type 0) (running : List ℕ) (task : ℕ) (others : List ℕ) : Type 0 where
  pub one_less : length running ≡ suc (length others)
  pub joined_task : P task
  pub other_tasks : All P others
  pub task_or_other : (i : ℕ) → Runs i running → (task ≡ i) ⊎ Runs i others

join_next-IsJoined :
    (P : ℕ → Type 0) (place t : ℕ) (running : List ℕ)
    → All P (t ∷ running)
    → (task : ℕ) × (others : List ℕ) × (join_next place (t ∷ running) ≡ some (task, others))
      × IsJoined P (t ∷ running) task others
unfolding join_next
join_next-IsJoined P zero t running (p, h) = (
  t,
  running,
  refl,
  record { one_less = refl; joined_task = p; other_tasks = h; task_or_other = λ i r. r },
)
join_next-IsJoined P (suc place) t [] (p, h) = (
  t,
  [],
  refl,
  record { one_less = refl; joined_task = p; other_tasks = h; task_or_other = λ i r. r },
)
join_next-IsJoined P (suc place) t (u ∷ running) (p, h) =
    let (task, others, e, j) = join_next-IsJoined P place u running h in
    (
      task,
      t ∷ others,
      rw (e) refl,
      record {
        one_less = ap suc j.one_less;
        joined_task = j.joined_task;
        other_tasks = (p, j.other_tasks);
        task_or_other = behind P t u task running others j.task_or_other;
      },
    )

pub join_next-some :
    (P : ℕ → Type 0) (place : ℕ) (running : List ℕ)
    → 0 < length running
    → All P running
    → (task : ℕ) × (others : List ℕ) × (join_next place running ≡ some (task, others))
      × IsJoined P running task others
join_next-some P place [] n h = absurd (omega arith)
join_next-some P place (t ∷ running) n h = join_next-IsJoined P place t running h

pub get_elem?-set_same {ℓ} :
    {A : Type ℓ} (xs : List A) (i : ℕ) (v : A) → i < length xs → get_elem? (set xs i v) i ≡ some v
get_elem?-set_same [] i v h = absurd (omega arith)
get_elem?-set_same (x ∷ xs) zero v h = refl
get_elem?-set_same (x ∷ xs) (suc i) v h = get_elem?-set_same xs i v (omega arith)

pub get_elem?-set_other {ℓ} :
    {A : Type ℓ} (xs : List A) (t i : ℕ) (v : A)
    → (t == i) ≡ false
    → get_elem? (set xs t v) i ≡ get_elem? xs i
get_elem?-set_other [] t i v h = refl
get_elem?-set_other (x ∷ xs) zero zero v h = cc
get_elem?-set_other (x ∷ xs) zero (suc i) v h = refl
get_elem?-set_other (x ∷ xs) (suc t) zero v h = refl
get_elem?-set_other (x ∷ xs) (suc t) (suc i) v h = get_elem?-set_other xs t i v (ground arith)
