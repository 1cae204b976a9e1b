-- ===== src/Service/Slices.antt =====
-- Slices of a sequence, and the slots that number the rows of one without labels.
use turbovec_grpc.Prelude.{
  List, [], ap, arith, drop, length, le→ltb, refl, suc, sym, take, zero, ℕ, ◌++◌, ◌+◌, ◌-◌, ◌∙◌,
  ◌∷◌, ◌≡◌, ◌≤◌,
}
use turbovec_grpc.Status.{ok}
use turbovec_grpc.Service.Export.{slice, slots_from}

pub slice-ok {ℓ} :
    {A : Type ℓ} (xs : List A) (from to : ℕ)
    → from ≤ to
    → to ≤ length xs
    → slice xs from to ≡ ok (take (to - from) (drop from xs))
unfolding slice
slice-ok xs from to a b = rw (le→ltb to from a, le→ltb (length xs) to b)

take_nil {ℓ} : {A : Type ℓ} (n : ℕ) → take {A = A} n [] ≡ []
take_nil zero = refl
take_nil (suc n) = refl

sub_suc : (m n : ℕ) → suc m - suc n ≡ m - n
sub_suc m n = omega arith

pub take-append-drop {ℓ} :
    {A : Type ℓ} (xs : List A) (n m : ℕ) → n ≤ m → take n xs ++ take (m - n) (drop n xs) ≡ take m xs
take-append-drop xs zero m h = ap (λ n. take n xs) (omega arith)
take-append-drop [] (suc n) m h = take_nil (m - suc n) ∙ sym (take_nil m)
take-append-drop (x ∷ xs) (suc n) zero h = absurd (omega arith)
take-append-drop (x ∷ xs) (suc n) (suc m) h =
    ap (λ k. x ∷ (take n xs ++ take k (drop n xs))) (sub_suc m n)
    ∙ ap (◌∷◌ x) (take-append-drop xs n m (omega arith))

pub slots_from-eq : {a b c d : ℕ} → a ≡ c → b ≡ d → slots_from a b ≡ slots_from c d
slots_from-eq e f = rw (e, f) refl

zero_sub : (n : ℕ) → 0 - n ≡ 0
zero_sub n = omega arith

pub drop-slots_from :
    (n first rows : ℕ) → drop n (slots_from first rows) ≡ slots_from (first + n) (rows - n)
unfolding slots_from
drop-slots_from zero first rows = slots_from-eq (omega arith) (omega arith)
drop-slots_from (suc n) first zero = rw (zero_sub (suc n)) refl
drop-slots_from (suc n) first (suc rows) =
    drop-slots_from n (suc first) rows ∙ slots_from-eq (omega arith) (omega arith)

pub take-slots_from :
    (n first rows : ℕ) → n ≤ rows → take n (slots_from first rows) ≡ slots_from first n
unfolding slots_from
take-slots_from zero first rows h = refl
take-slots_from (suc n) first zero h = absurd (omega arith)
take-slots_from (suc n) first (suc rows) h =
    ap (◌∷◌ first) (take-slots_from n (suc first) rows (omega arith))
