-- ===== src/TopK/Offers.antt =====
-- Offering keeps the first `k` in order, and what stands behind a full list's root may be left
-- out.
use turbovec_grpc.Order.{IsOrd, Ordering, not_lt_of_lt, not_lt_trans}
use turbovec_grpc.TopK.{
  IsSorted, before, drop_last, insert, offer, offer_all, push_all, replace_root,
}
use turbovec_grpc.TopK.Bounded.{
  All-last, All-take, insert_behind, length-insert, length-ne-last-none, replace_root_lem,
  take-insert,
}
use turbovec_grpc.Prelude.{
  All, All-map, Bool-cases, List, Option-cases, [], arith, false, inl, inr, last, length,
  length-take, le→ltb, ltb, ltb→le, ltb→lt, none, refl, some, subst, suc, sym, take, take_all,
  tests, true, zero, ℕ, ◌++◌, ◌+◌, ◌∙◌, ◌∷◌, ◌≡◌, ◌≤◌, ◌⊎◌,
}

module _ {ℓ} {A : Type ℓ} (cmp : A → A → Ordering) where
  pub All-insert : (P : A → Type 0) (c : A) (xs : List A) → P c → All P xs → All P (insert cmp c xs)
  unfolding insert
  All-insert P c [] p h = (p, tt)
  All-insert P c (x ∷ xs) p h = elim (Bool-cases (before cmp c x)) [
    | inl b ↦ rw (b, insert) (p, h)
    | inr b ↦ rw (b, insert) (h.0, All-insert P c xs p h.1)
  ]

  pub All-push_all :
      (P : A → Type 0) (acc cs : List A) → All P acc → All P cs → All P (push_all cmp acc cs)
  unfolding push_all
  All-push_all P acc [] h q = h
  All-push_all P acc (c ∷ cs) h q =
      All-push_all P (insert cmp c acc) cs (All-insert P c acc q.0 h) q.1

  pub take-IsSorted : (n : ℕ) (xs : List A) → IsSorted cmp xs → IsSorted cmp (take n xs)
  take-IsSorted zero xs s = tt
  take-IsSorted (suc n) [] s = tt
  take-IsSorted (suc n) (x ∷ xs) s =
      (All-take (λ y. before cmp y x ≡ false) n xs s.0, take-IsSorted n xs s.1)

  pub length-push_all : (acc cs : List A) → length (push_all cmp acc cs) ≡ length acc + length cs
  unfolding push_all
  length-push_all acc [] = omega arith
  length-push_all acc (c ∷ cs) =
      omega (arith, length-push_all (insert cmp c acc) cs, length-insert cmp c acc)

module _ {ℓ} {A : Type ℓ} (cmp : A → A → Ordering) (o : IsOrd cmp) where
  pub insert-IsSorted : (c : A) (xs : List A) → IsSorted cmp xs → IsSorted cmp (insert cmp c xs)
  unfolding insert
  insert-IsSorted c [] s = (tt, tt)
  insert-IsSorted c (x ∷ xs) s = elim (Bool-cases (before cmp c x)) [
    | inl b ↦
        rw (b, insert)
          (
            (
              not_lt_of_lt cmp o c x b,
              All-map (λ y. before cmp y x ≡ false) (λ y. before cmp y c ≡ false) xs
                  (λ y h. not_lt_trans cmp o y x c h (not_lt_of_lt cmp o c x b)) s.0,
            ),
            s,
          )
    | inr b ↦
        rw (b, insert)
          (All-insert cmp (λ y. before cmp y x ≡ false) c xs b s.0, insert-IsSorted c xs s.1)
  ]

  pub push_all-IsSorted : (acc cs : List A) → IsSorted cmp acc → IsSorted cmp (push_all cmp acc cs)
  unfolding push_all
  push_all-IsSorted acc [] s = s
  push_all-IsSorted acc (c ∷ cs) s =
      push_all-IsSorted (insert cmp c acc) cs (insert-IsSorted c acc s)

  -- What is not before the root is before nothing.
  before-last :
      (c w : A) (xs : List A)
      → IsSorted cmp xs
      → last xs ≡ some w
      → before cmp c w ≡ false
      → All (λ x. before cmp c x ≡ false) xs
  before-last c w [] s e h = tt
  before-last c w (x ∷ []) s e h = (subst (λ z. before cmp c z ≡ false) (cc) h, tt)
  before-last c w (x ∷ y ∷ xs) s e h = (
    not_lt_trans cmp o c w x h (All-last (λ z. before cmp z x ≡ false) (y ∷ xs) w s.0 e),
    before-last c w (y ∷ xs) s.1 e h,
  )

  -- One offer to a list within its bound.
  pub offer_lem :
      (k : ℕ) (c : A) (xs : List A)
      → IsSorted cmp xs
      → length xs ≤ k
      → offer cmp k c xs ≡ take k (insert cmp c xs)
  unfolding offer
  offer_lem k c xs s h = elim (Bool-cases (ltb (length xs) k)) [
    | inl room ↦ rw room (
        sym (
          take_all k (insert cmp c xs)
            (omega (tests, ltb→lt (length xs) k room, length-insert cmp c xs))))
    | inr full ↦ rw full (
        let e : length xs ≡ k = omega (tests, ltb→le (length xs) k full) in
        subst (λ n. replace_root cmp k c xs (last xs) ≡ take n (insert cmp c xs)) e
          (full_lem xs s (Option-cases (last xs))))
  ]
    where
      full_lem :
          (xs : List A)
          → IsSorted cmp xs
          → ((last xs ≡ none) ⊎ ((w : A) × (last xs ≡ some w)))
          → replace_root cmp k c xs (last xs) ≡ take (length xs) (insert cmp c xs)
      full_lem [] s l = refl
      full_lem (x ∷ xs) s (inl e) = absurd (length-ne-last-none x xs e)
      full_lem (x ∷ xs) s (inr (w, e)) = elim (Bool-cases (before cmp c w)) [
        | inl b ↦
            rw (e, replace_root) (rw (b, replace_root) (replace_root_lem cmp c w (x ∷ xs) e b))
        | inr b ↦
            rw (e, replace_root)
              (rw (b, replace_root)
                (sym (insert_behind cmp c (x ∷ xs) (before-last c w (x ∷ xs) s e b))))
      ]

  -- Offering one by one keeps the first `k` of all that was pushed.
  pub offer_all_lem :
      (k : ℕ) (acc cs : List A)
      → IsSorted cmp acc
      → offer_all cmp k (take k acc) cs ≡ take k (push_all cmp acc cs)
  unfolding offer_all push_all
  offer_all_lem k acc [] s = refl
  offer_all_lem k acc (c ∷ cs) s =
      rw (offer_lem k c (take k acc) (take-IsSorted cmp k acc s) (omega (arith, length-take k acc)))
        (rw (← take-insert cmp k c acc)
          (offer_all_lem k (insert cmp c acc) cs (insert-IsSorted c acc s)))

  -- An item behind the root of a full list changes nothing.
  pub take-IsSorted-push_all : (k : ℕ) (cs : List A) → IsSorted cmp (take k (push_all cmp [] cs))
  take-IsSorted-push_all k cs =
      take-IsSorted cmp k (push_all cmp [] cs) (push_all-IsSorted [] cs tt)

  -- The root is before nothing.
  pub last-before :
      (w : A) (xs : List A)
      → IsSorted cmp xs
      → last xs ≡ some w
      → All (λ x. before cmp w x ≡ false) xs
  last-before w xs s e = before-last w w xs s e (ground (arith, o.swap w w))

module _ {ℓ} {A : Type ℓ} (cmp : A → A → Ordering) where
  -- Items that stand before nothing in a full front change nothing.
  pub push_all-skip :
      (k : ℕ) (acc cs : List A)
      → length (take k acc) ≡ k
      → All (λ c. All (λ x. before cmp c x ≡ false) (take k acc)) cs
      → take k (push_all cmp acc cs) ≡ take k acc
  unfolding push_all
  push_all-skip k acc [] full h = refl
  push_all-skip k acc (c ∷ cs) full h =
      push_all-skip k (insert cmp c acc) cs (rw same full) (rw same h.1) ∙ same
    where
      same : take k (insert cmp c acc) ≡ take k acc
      same =
          take-insert cmp k c acc
          ∙ subst (λ n. take n (insert cmp c (take k acc)) ≡ take k acc) full
              (insert_behind cmp c (take k acc) h.0)

  pub push_all-append :
      (acc xs ys : List A) → push_all cmp acc (xs ++ ys) ≡ push_all cmp (push_all cmp acc xs) ys
  unfolding push_all
  push_all-append acc [] ys = refl
  push_all-append acc (x ∷ xs) ys = push_all-append (insert cmp x acc) xs ys

  All-drop_last : (P : A → Type 0) (xs : List A) → All P xs → All P (drop_last xs)
  unfolding drop_last
  All-drop_last P [] h = tt
  All-drop_last P (x ∷ []) h = tt
  All-drop_last P (x ∷ y ∷ xs) h = (h.0, All-drop_last P (y ∷ xs) h.1)

  -- An offer keeps what holds of the heap, if it holds of whatever stands before an item of it.
  pub All-offer :
      (P : A → Type 0) (k : ℕ) (c : A) (xs : List A)
      → length xs ≡ k
      → ((w : A) → P w → before cmp c w ≡ true → P c)
      → All P xs
      → All P (offer cmp k c xs)
  unfolding offer
  All-offer P k c xs full up h = elim (Bool-cases (ltb (length xs) k)) [
    | inl room ↦ absurd (omega (tests, ltb→lt (length xs) k room))
    | inr _ ↦ rw (le→ltb (length xs) k (omega arith)) (root_case (Option-cases (last xs)))
  ]
    where
      root_case :
          ((last xs ≡ none) ⊎ ((w : A) × (last xs ≡ some w)))
          → All P (replace_root cmp k c xs (last xs))
      root_case (inl e) = rw (e, replace_root) h
      root_case (inr (w, e)) = elim (Bool-cases (before cmp c w)) [
        | inl b ↦
            rw (e, replace_root)
              (rw (b, replace_root)
                (All-insert cmp P c (drop_last xs) (up w (All-last P xs w h e) b)
                  (All-drop_last P xs h)))
        | inr b ↦ rw (e, replace_root) (rw (b, replace_root) h)
      ]
