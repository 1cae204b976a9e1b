-- ===== src/TopK/Spec.antt =====
-- The abstract specification of a best-`k` answer, and that the front of the sorted list is one.
use mathlib.Core.List.{Perm, perm_middle, append-nil, append_assoc}
use mathlib.Core.List.Perm
use turbovec_grpc.Order.{Cmp, IsOrd, Ordering}
use turbovec_grpc.TopK.Offers.{length-push_all, push_all-IsSorted, take-IsSorted}
use turbovec_grpc.TopK.{IsSorted, before, insert, push_all, sort}
use turbovec_grpc.Prelude.{
  All, Bool-cases, List, [], ap, arith, drop, false, inl, inr, length, length-take, min, refl, suc,
  take, zero, ℕ, ◌++◌, ◌∙◌, ◌∷◌, ◌≡◌,
}

-- `xs` are the `k` best of `rows` in order: with what is left they are exactly the rows, there
-- are `k` of them unless there are fewer rows, and nothing left stands before any of them.
pub record IsTopK {ℓ} {A : Type ℓ} (cmp : Cmp A) (k : ℕ) (rows xs : List A) : Type ℓ where
  pub rest : List A
  pub accounted : Perm (xs ++ rest) rows
  pub ordered : IsSorted cmp xs
  pub size : length xs ≡ min k (length rows)
  pub best : All (λ x. All (λ r. before cmp r x ≡ false) rest) xs

module _ {ℓ} {A : Type ℓ} (cmp : A → A → Ordering) where
  insert-perm : (c : A) (xs : List A) → Perm (insert cmp c xs) (c ∷ xs)
  unfolding insert
  insert-perm c [] = Perm.rfl
  insert-perm c (x ∷ xs) = elim (Bool-cases (before cmp c x)) [
    | inl b ↦ rw (b, insert) Perm.rfl
    | inr b ↦ rw (b, insert) (Perm.trans (Perm.cons x (insert-perm c xs)) (Perm.swap c x xs))
  ]

  push_all-perm : (acc cs : List A) → Perm (push_all cmp acc cs) (acc ++ cs)
  unfolding push_all
  push_all-perm acc [] = rw append-nil Perm.rfl
  push_all-perm acc (c ∷ cs) =
      Perm.trans (push_all-perm (insert cmp c acc) cs)
        (Perm.trans (Perm.append (insert-perm c acc) Perm.rfl) (Perm.symm (perm_middle acc cs)))

  pub sort-perm : (cs : List A) → Perm (sort cmp cs) cs
  unfolding sort
  sort-perm cs = push_all-perm [] cs

module _ {ℓ} {A : Type ℓ} where
  take-append-drop : (n : ℕ) (xs : List A) → take n xs ++ drop n xs ≡ xs
  take-append-drop zero xs = refl
  take-append-drop (suc n) [] = refl
  take-append-drop (suc n) (x ∷ xs) = ap (◌∷◌ x) (take-append-drop n xs)

  All-drop {κ} : (P : A → Type κ) (n : ℕ) (xs : List A) → All P xs → All P (drop n xs)
  All-drop P zero xs h = h
  All-drop P (suc n) [] h = tt
  All-drop P (suc n) (x ∷ xs) h = All-drop P n xs h.1

module _ {ℓ} {A : Type ℓ} (cmp : A → A → Ordering) where
  take-before-drop :
      (n : ℕ) (xs : List A)
      → IsSorted cmp xs
      → All (λ x. All (λ r. before cmp r x ≡ false) (drop n xs)) (take n xs)
  take-before-drop zero xs s = tt
  take-before-drop (suc n) [] s = tt
  take-before-drop (suc n) (x ∷ xs) s =
      (All-drop (λ r. before cmp r x ≡ false) n xs s.0, take-before-drop n xs s.1)

  pub take-sort-IsTopK :
      IsOrd cmp → (k : ℕ) (rows : List A) → IsTopK cmp k rows (take k (sort cmp rows))
  unfolding sort
  take-sort-IsTopK o k rows =
      let sorted : List A = sort cmp rows in
      let s : IsSorted cmp sorted = push_all-IsSorted cmp o [] rows tt in
      record {
        rest = drop k sorted;
        accounted = rw (take-append-drop k sorted) (sort-perm cmp rows);
        ordered = take-IsSorted cmp k sorted s;
        size = omega (arith, length-take k sorted, length-push_all cmp [] rows);
        best = take-before-drop k sorted s;
      }

  insert_end :
      (c : A) (xs : List A) → All (λ x. before cmp c x ≡ false) xs → insert cmp c xs ≡ xs ++ c ∷ []
  unfolding insert
  insert_end c [] h = refl
  insert_end c (x ∷ xs) h = ground (arith, insert_end c xs h.1)

  IsSorted-middle :
      (xs : List A) (c : A) (ys : List A)
      → IsSorted cmp (xs ++ c ∷ ys)
      → All (λ x. before cmp c x ≡ false) xs
  IsSorted-middle [] c ys s = tt
  IsSorted-middle (x ∷ xs) c ys s = (first xs s.0, IsSorted-middle xs c ys s.1)
    where
      first :
          (zs : List A) → All (λ y. before cmp y x ≡ false) (zs ++ c ∷ ys) → before cmp c x ≡ false
      first [] h = h.0
      first (z ∷ zs) h = first zs h.1

  push_all-ordered : (acc xs : List A) → IsSorted cmp (acc ++ xs) → push_all cmp acc xs ≡ acc ++ xs
  unfolding push_all
  push_all-ordered acc [] s = rw append-nil
  push_all-ordered acc (c ∷ xs) s =
      let e : insert cmp c acc ≡ acc ++ c ∷ [] = insert_end c acc (IsSorted-middle acc c xs s) in
      rw e (
        push_all-ordered (acc ++ c ∷ []) xs (rw (append_assoc acc (c ∷ []) xs) s)
        ∙ append_assoc acc (c ∷ []) xs)

  -- Sorting a list in order changes nothing.
  pub sort_of_IsSorted : (xs : List A) → IsSorted cmp xs → sort cmp xs ≡ xs
  unfolding sort
  sort_of_IsSorted xs s = push_all-ordered [] xs s

module _ {ℓ} {A : Type ℓ} (cmp : Cmp A) (o : IsOrd cmp) where
  pub sort-IsSorted : (xs : List A) → IsSorted cmp (sort cmp xs)
  unfolding sort
  sort-IsSorted xs = push_all-IsSorted cmp o [] xs tt
