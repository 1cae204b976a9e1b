-- ===== src/Service/Ranges.antt =====
-- Ranges of a sequence that follow each other.
use turbovec_grpc.Prelude.{
  List, [], ap, append_assoc, arith, drop, refl, suc, sym, take, zero, ℕ, ◌++◌, ◌+◌, ◌∙◌, ◌∷◌, ◌≡◌,
}
use turbovec_grpc.Service.Blocks.{range}
use turbovec_grpc.Service.Slices.{take-append-drop}

drop-nil {ℓ} : {A : Type ℓ} (n : ℕ) → drop {A = A} n [] ≡ []
drop-nil zero = refl
drop-nil (suc n) = refl

drop-cons {ℓ} :
    {A : Type ℓ} {a b : ℕ} (x : A) (xs : List A) → a ≡ suc b → drop a (x ∷ xs) ≡ drop b xs
drop-cons x xs e = ap (λ k. drop k (x ∷ xs)) e

pub drop-drop {ℓ} : {A : Type ℓ} (n m : ℕ) (xs : List A) → drop n (drop m xs) ≡ drop (m + n) xs
drop-drop n zero xs = ap (λ k. drop k xs) (omega arith)
drop-drop n (suc m) [] = drop-nil n ∙ sym (drop-nil (suc m + n))
drop-drop n (suc m) (x ∷ xs) = drop-drop n m xs ∙ sym (drop-cons x xs (omega arith))

-- Two ranges that follow each other.
pub range-append-range {ℓ} :
    {A : Type ℓ} (from a b : ℕ) (xs : List A)
    → range from a xs ++ range (from + a) b xs ≡ range from (a + b) xs
range-append-range from a b xs =
    ap (λ ys. range from a xs ++ take b ys) (sym (drop-drop a from xs))
    ∙ ap (λ n. take a (drop from xs) ++ take n (drop a (drop from xs))) (omega arith)
    ∙ take-append-drop (drop from xs) a (a + b) (omega arith)

-- Appending a range, then the one behind it.
pub extended {ℓ} :
    {A : Type ℓ} (ys zs ws xs : List A) (from a b c n : ℕ)
    → zs ≡ ys ++ range from a xs
    → ws ≡ zs ++ range n b xs
    → n ≡ from + a
    → c ≡ a + b
    → ws ≡ ys ++ range from c xs
extended ys zs ws xs from a b c n e f g h =
    rw (f, e, g, h, append_assoc ys (range from a xs) (range (from + a) b xs))
      (ap (◌++◌ ys) (range-append-range from a b xs))
