-- ===== src/TopK/Bounded.antt =====
-- The bounded list is the front of the full one: offering item by item keeps the first `k` of
-- all items that were pushed.
use turbovec_grpc.Order.{Ordering}
use turbovec_grpc.TopK.{before, drop_last, insert}
use turbovec_grpc.Prelude.{
  All, Bool-cases, List, Option, [], ap, arith, false, inl, inr, last, length, none, refl, some,
  subst, suc, sym, take, true, zero, ℕ, ◌∷◌, ◌≡◌,
}

module _ {ℓ} {A : Type ℓ} where
  pub take-take-suc : (n : ℕ) (xs : List A) → take n (take (suc n) xs) ≡ take n xs
  take-take-suc zero xs = refl
  take-take-suc (suc n) [] = refl
  take-take-suc (suc n) (x ∷ xs) = ap (◌∷◌ x) (take-take-suc n xs)

  take-drop_last : (x : A) (xs : List A) → take (length xs) (x ∷ xs) ≡ drop_last (x ∷ xs)
  unfolding drop_last
  take-drop_last x [] = refl
  take-drop_last x (y ∷ xs) = ap (◌∷◌ x) (take-drop_last y xs)

  pub All-take {κ} : (P : A → Type κ) (n : ℕ) (xs : List A) → All P xs → All P (take n xs)
  All-take P zero xs h = tt
  All-take P (suc n) [] h = tt
  All-take P (suc n) (x ∷ xs) h = (h.0, All-take P n xs h.1)

  pub All-last {κ} : (P : A → Type κ) (xs : List A) (w : A) → All P xs → last xs ≡ some w → P w
  All-last P [] w h e = absurd (none-ne-some w e)
    where
      none-ne-some : (w : A) → ◌≡◌ {A = Option A} none (some w) → ⊥
      none-ne-some w e = cc
  All-last P (x ∷ []) w h e = subst P (some_inj x w e) h.0
    where
      some_inj : (x w : A) → ◌≡◌ {A = Option A} (some x) (some w) → x ≡ w
      some_inj x w e = cc
  All-last P (x ∷ y ∷ xs) w h e = All-last P (y ∷ xs) w h.1 e

  pub length-ne-last-none : (x : A) (xs : List A) → last (x ∷ xs) ≡ none → ⊥
  length-ne-last-none x [] e = cc
  length-ne-last-none x (y ∷ xs) e = length-ne-last-none y xs e

module _ {ℓ} {A : Type ℓ} (cmp : A → A → Ordering) where
  pub length-insert : (c : A) (xs : List A) → length (insert cmp c xs) ≡ suc (length xs)
  unfolding insert
  length-insert c [] = refl
  length-insert c (x ∷ xs) = ground (arith, length-insert c xs)

  -- What stands past the first `k` does not matter to the first `k` of the next.
  pub take-insert :
      (k : ℕ) (c : A) (xs : List A) → take k (insert cmp c xs) ≡ take k (insert cmp c (take k xs))
  unfolding insert
  take-insert zero c xs = refl
  take-insert (suc k) c [] = refl
  take-insert (suc k) c (x ∷ xs) = elim (Bool-cases (before cmp c x)) [
    | inl b ↦ rw (b, insert) (ap (◌∷◌ c) (sym (take-take-suc k (x ∷ xs))))
    | inr b ↦ rw (b, insert) (ap (◌∷◌ x) (take-insert k c xs))
  ]

  -- Over a full list a better item takes the place of the root.
  pub replace_root_lem :
      (c w : A) (xs : List A)
      → last xs ≡ some w
      → before cmp c w ≡ true
      → insert cmp c (drop_last xs) ≡ take (length xs) (insert cmp c xs)
  unfolding insert drop_last
  replace_root_lem c w [] e b = cc
  replace_root_lem c w (x ∷ []) e b = ground arith
  replace_root_lem c w (x ∷ y ∷ xs) e b =
      ground (arith, replace_root_lem c w (y ∷ xs) e b, take-drop_last y xs)

  -- An item before none of a full list is cut off again.
  pub insert_behind :
      (c : A) (xs : List A)
      → All (λ x. before cmp c x ≡ false) xs
      → take (length xs) (insert cmp c xs) ≡ xs
  unfolding insert
  insert_behind c [] h = refl
  insert_behind c (x ∷ xs) h = ground (arith, insert_behind c xs h.1)
