-- ===== src/Order.antt =====
-- `std::cmp::Ord` as a function into an ordering with its laws, and the lexicographic
-- `then_with`, which keeps them.
use turbovec_grpc.Prelude.{Bool, arith, false, true, ℕ, ◌≡◌}
pub use Prim.Native.Nat.{Ordering, lt, eq, gt, compare}

abbrev pub flip : Ordering → Ordering
flip lt = gt
flip eq = eq
flip gt = lt

abbrev pub is_lt : Ordering → Bool
is_lt lt = true
is_lt eq = false
is_lt gt = false

abbrev pub Cmp {ℓ} : Type ℓ → Type ℓ
Cmp A = A → A → Ordering

-- `Ordering::then_with`
abbrev pub then_with : Ordering → Ordering → Ordering
then_with lt o = lt
then_with eq o = o
then_with gt o = gt

pub record IsOrd {ℓ} {A : Type ℓ} (cmp : A → A → Ordering) : Type ℓ where
  pub swap : (a b : A) → cmp b a ≡ flip (cmp a b)
  pub trans : (a b c : A) → cmp a b ≡ lt → cmp b c ≡ lt → cmp a c ≡ lt
  pub congr : (a b c : A) → cmp a b ≡ eq → cmp a c ≡ cmp b c

module _ {ℓ} {A : Type ℓ} where
  -- Comparison by a numeric key, and by one in descending order.
  abbrev pub by_key : (A → ℕ) → A → A → Ordering
  by_key f a b = compare (f a) (f b)

  pub by_key-IsOrd : (f : A → ℕ) → IsOrd (by_key f)
  by_key-IsOrd f = record {
    swap = λ a b. ground arith;
    trans = λ a b c h k. ground arith;
    congr = λ a b c h. ground arith;
  }

  abbrev pub by_key_desc : (A → ℕ) → A → A → Ordering
  by_key_desc f a b = compare (f b) (f a)

  pub by_key_desc-IsOrd : (f : A → ℕ) → IsOrd (by_key_desc f)
  by_key_desc-IsOrd f = record {
    swap = λ a b. ground arith;
    trans = λ a b c h k. ground arith;
    congr = λ a b c h. ground arith;
  }

  abbrev pub lexico : (A → A → Ordering) → (A → A → Ordering) → A → A → Ordering
  lexico c d a b = then_with (c a b) (d a b)

  pub lexico-IsOrd : (c d : A → A → Ordering) → IsOrd c → IsOrd d → IsOrd (lexico c d)
  lexico-IsOrd c d p q = record {
    swap = λ x y. ground (arith, p.swap x y, q.swap x y);
    trans = λ x y z h k. ground (
      arith,
      p.trans x y z,
      q.trans x y z,
      p.congr x y z,
      p.congr z y x,
      p.swap x y,
      p.swap y z,
      p.swap x z,
    );
    congr = λ x y z h. ground (arith, p.congr x y z, q.congr x y z);
  }

-- What a strict order by `cmp` gives.
module _ {ℓ} {A : Type ℓ} (cmp : A → A → Ordering) (o : IsOrd cmp) where
  pub not_lt_trans :
      (a b c : A) → is_lt (cmp a b) ≡ false → is_lt (cmp b c) ≡ false → is_lt (cmp a c) ≡ false
  not_lt_trans a b c h k =
      ground
        (arith, o.swap a b, o.swap b c, o.swap a c, o.trans c b a, o.congr a b c, o.congr c b a)

  pub not_lt_of_lt : (a b : A) → is_lt (cmp a b) ≡ true → is_lt (cmp b a) ≡ false
  not_lt_of_lt a b h = ground (arith, o.swap a b)
