-- ===== src/TopK.antt =====
-- A bounded best-first list, as `std::collections::BinaryHeap` serves `stream_query`: the heap
-- is kept in order, its root is the last item. `insert` puts an item behind its equals.
pub mod Bounded
pub mod Offers
pub mod Spec
use turbovec_grpc.Order.{Ordering, is_lt}
use turbovec_grpc.Prelude.{
  All, Bool, List, Option, [], false, if◌then◌else◌, last, length, ltb, none, some, true, ℕ, ◌∷◌,
  ◌≡◌,
}

module _ {ℓ} {A : Type ℓ} (cmp : A → A → Ordering) where
  abbrev pub before : A → A → Bool
  before a b = is_lt (cmp a b)

  -- `BinaryHeap::push`
  unfoldable pub insert : A → List A → List A
  insert c [] = c ∷ []
  insert c (x ∷ xs) = elim (before c x) [ true ↦ c ∷ x ∷ xs | false ↦ x ∷ insert c xs ]

  -- Items pushed in turn.
  unfoldable pub push_all : List A → List A → List A
  push_all acc [] = acc
  push_all acc (c ∷ cs) = push_all (insert c acc) cs

  -- `slice::sort`
  unfoldable pub sort : List A → List A
  sort xs = push_all [] xs

  -- No item stands before an earlier one.
  abbrev pub IsSorted : List A → Type 0
  IsSorted [] = Unit
  IsSorted (x ∷ xs) = All (λ y. before y x ≡ false) xs × IsSorted xs

-- `BinaryHeap::pop`: the root goes.
unfoldable pub drop_last {ℓ} : {A : Type ℓ} → List A → List A
drop_last [] = []
drop_last (x ∷ []) = []
drop_last (x ∷ y ∷ xs) = x ∷ drop_last (y ∷ xs)

module _ {ℓ} {A : Type ℓ} (cmp : A → A → Ordering) (k : ℕ) where
  -- The root goes for an item that stands before it.
  unfoldable pub replace_root : A → List A → Option A → List A
  replace_root c heap none = heap
  replace_root c heap (some worst) = elim (before cmp c worst) [
    | true ↦ insert cmp c (drop_last heap)
    | false ↦ heap
  ]

  -- Push while there is room; then only over the root.
  unfoldable pub offer : A → List A → List A
  unfolding replace_root
  offer c heap = if ltb (length heap) k then insert cmp c heap else replace_root c heap (last heap)

  unfoldable pub offer_all : List A → List A → List A
  offer_all heap [] = heap
  offer_all heap (c ∷ cs) = offer_all (offer c heap) cs
