-- ===== src/Float.antt =====
-- `f32` as its bit pattern, a number below 2 ^ 32: IEEE 754 binary32 comparison, and
-- `f32::total_cmp`. The program computes no scores; it compares, copies and refuses them.
use turbovec_grpc.Prelude.{
  Bool, arith, false, if◌then◌else◌, leb, ltb, not, true, ℕ, ◌%◌, ◌&&◌, ◌+◌, ◌-◌, ◌<◌, ◌≡◌, ◌≤◌,
}

abbrev pub F32 : Type 0
F32 = ℕ

-- The sign bit is the top one.
abbrev pub is_negative : F32 → Bool
is_negative x = leb 0x80000000 x

abbrev pub magnitude : F32 → ℕ
magnitude x = x % 0x80000000

-- `f32::is_nan`: all exponent bits set and a fraction that is not zero.
unfoldable pub is_nan : F32 → Bool
is_nan x = ltb 0x7f800000 (magnitude x)

-- `f32::is_finite`
unfoldable pub is_finite : F32 → Bool
is_finite x = ltb (magnitude x) 0x7f800000

-- The place of a pattern in the order of `f32::total_cmp`, where -0 stands below +0.
unfoldable pub total_rank : F32 → ℕ
total_rank x = if is_negative x then 0x7fffffff - magnitude x else 0x80000000 + magnitude x

-- The place of a number in the IEEE order, where the two zeros are one.
unfoldable pub value_rank : F32 → ℕ
value_rank x = if is_negative x then 0x80000000 - magnitude x else 0x80000000 + magnitude x

-- `a > b` and `a >= b` on `f32`: false when either side is NaN.
unfoldable pub float_gt : F32 → F32 → Bool
float_gt a b = not (is_nan a) && (not (is_nan b) && ltb (value_rank b) (value_rank a))

unfoldable pub float_ge : F32 → F32 → Bool
float_ge a b = not (is_nan a) && (not (is_nan b) && leb (value_rank b) (value_rank a))

-- `f32::NEG_INFINITY`
abbrev pub neg_infinity : F32
neg_infinity = 0xff800000

rank_mono : (a b : F32) → value_rank b < value_rank a → total_rank b < total_rank a
unfolding value_rank total_rank
rank_mono a b h = ground arith

value_rank_mono : (a b : F32) → total_rank b ≤ total_rank a → value_rank b ≤ value_rank a
unfolding value_rank total_rank
value_rank_mono a b h = ground arith

-- What is strictly below a floor in the IEEE order is below it in the total order.
pub float_gt→total_rank_lt : (a b : F32) → float_gt a b ≡ true → total_rank b < total_rank a
unfolding float_gt
float_gt→total_rank_lt a b h = ground (arith, rank_mono a b)

pub float_gt→not_nan : (a b : F32) → float_gt a b ≡ true → (is_nan a ≡ false) × (is_nan b ≡ false)
unfolding float_gt
float_gt→not_nan a b h = ground arith

-- A floor that is not above another drops no more than that one.
pub float_gt_trans :
    (p q s : F32)
    → is_nan q ≡ false
    → float_gt p q ≡ false
    → float_gt p s ≡ true
    → float_gt q s ≡ true
unfolding float_gt
float_gt_trans p q s n le h = ground arith

-- Off NaN, at or above a floor is the failure of below it.
pub float_ge-not_gt :
    (a b : F32) → is_nan a ≡ false → is_nan b ≡ false → float_ge a b ≡ not (float_gt b a)
unfolding float_ge float_gt
float_ge-not_gt a b ha hb = ground arith

pub total_rank→float_ge :
    (a b : F32)
    → is_nan a ≡ false
    → is_nan b ≡ false
    → total_rank b ≤ total_rank a
    → float_ge a b ≡ true
unfolding float_ge
total_rank→float_ge a b ha hb h = ground (arith, value_rank_mono a b)

-- At or above a floor that is not below another is at or above that one.
pub float_ge_trans :
    (s b f : F32)
    → is_nan f ≡ false
    → float_gt f b ≡ false
    → float_ge s b ≡ true
    → float_ge s f ≡ true
unfolding float_ge float_gt
float_ge_trans s b f hf h g = ground arith

-- Floors only go down from one that is above another.
pub float_gt_below :
    (q p b : F32)
    → is_nan b ≡ false
    → float_gt q p ≡ true
    → float_gt q b ≡ false
    → float_gt p b ≡ false
unfolding float_gt
float_gt_below q p b hb g h = ground arith

pub float_gt_asymm : (q p : F32) → float_gt q p ≡ true → float_gt p q ≡ false
unfolding float_gt
float_gt_asymm q p g = ground arith

pub total_rank→not_gt : (p s : F32) → total_rank p ≤ total_rank s → float_gt p s ≡ false
unfolding float_gt
total_rank→not_gt p s h = ground (arith, value_rank_mono s p)

-- Below a floor is below whatever that floor does not exceed.
pub float_gt→not_ge :
    (p c r : F32)
    → is_nan r ≡ false
    → float_gt p c ≡ true
    → float_gt p r ≡ false
    → float_ge c r ≡ false
unfolding float_gt float_ge
float_gt→not_ge p c r hr g h = ground arith

pub float_gt_irrefl : (p : F32) → float_gt p p ≡ false
unfolding float_gt
float_gt_irrefl p = ground arith
