-- ===== src/Coordinator/Counts.antt =====
-- coordinator/mod.rs: `plan_counts`, the rows that each target of a split receives.
use turbovec_grpc.Prelude.{
  All, Bool-cases, List, [], arith, display, if◌then◌else◌, inl, inr, is_empty, length, ltb, ltb→le,
  ltb→lt, min, not, refl, suc, sym, text, u64_mod, zero, ℕ, ◌%◌, ◌*◌, ◌++◌, ◌+◌, ◌-◌, ◌/◌, ◌<◌,
  ◌==◌, ◌∙◌, ◌∷◌, ◌≡◌, ◌≢◌, ◌≤◌, ◌⊎◌,
}
use turbovec_grpc.Status.{Result, err, invalid, ok, ok-injective, row_count_mismatch}

-- `requested.iter().sum()`, which wraps around in a release build.
unfoldable pub sum_u64 : List ℕ → ℕ
sum_u64 [] = 0
sum_u64 (n ∷ ns) = (n + sum_u64 ns) % u64_mod

-- The even split's counts of targets `i` to `i + n`.
unfoldable pub even_counts : ℕ → ℕ → ℕ → ℕ → List ℕ
even_counts i zero base remainder = []
even_counts i (suc n) base remainder =
    (base + (if ltb i remainder then 1 else 0)) ∷ even_counts (suc i) n base remainder

unfoldable pub plan_counts : ℕ → ℕ → List ℕ → Result (List ℕ)
unfolding even_counts sum_u64
plan_counts rows targets requested =
    if targets == 0
    then err (invalid row_count_mismatch (text "a split needs at least one target node"))
    else if is_empty requested
    then ok (even_counts 0 targets (rows / targets) (rows % targets))
    else if not (length requested == targets)
    then err (
        invalid row_count_mismatch (
          display (length requested)
          ++ (text " row counts were given for " ++ (display targets ++ text " targets"))))
    else if not (sum_u64 requested == rows)
    then err (
        invalid row_count_mismatch (
          text "row counts sum to "
          ++ (display (sum_u64 requested)
              ++ (text " but the source holds " ++ (display rows ++ text " rows")))))
    else ok requested

-- The plain sum.
abbrev pub sum : List ℕ → ℕ
sum [] = 0
sum (n ∷ ns) = n + sum ns

length-even_counts : (i n base remainder : ℕ) → length (even_counts i n base remainder) ≡ n
unfolding even_counts
length-even_counts i zero base r = refl
length-even_counts i (suc n) base r = omega (arith, length-even_counts (suc i) n base r)

sum-even_counts :
    (i n base remainder : ℕ)
    → sum (even_counts i n base remainder) ≡ n * base + min n (remainder - i)
unfolding even_counts
sum-even_counts i zero base r = omega arith
sum-even_counts i (suc n) base r = ground (arith, sum-even_counts (suc i) n base r)

even_counts-close :
    (i n base remainder : ℕ)
    → All (λ c. (base ≤ c) × (c ≤ base + 1)) (even_counts i n base remainder)
unfolding even_counts
even_counts-close i zero base r = tt
even_counts-close i (suc n) base r =
    ((ground arith, ground arith), even_counts-close (suc i) n base r)

div_mod_sum : (rows t : ℕ) → 0 < t → t * (rows / t) + min t (rows % t - 0) ≡ rows
div_mod_sum rows t h = grind arith

-- With no counts requested the split is even: one count for each target, no row lost or made,
-- and no two targets more than a row apart.
pub plan_counts_even :
    (rows targets : ℕ)
    → 0 < targets
    → (counts : List ℕ) × (plan_counts rows targets [] ≡ ok counts)
      × (length counts ≡ targets)
      × (sum counts ≡ rows)
      × All (λ c. (rows / targets ≤ c) × (c ≤ rows / targets + 1)) counts
unfolding plan_counts
plan_counts_even rows targets h = (
  even_counts 0 targets (rows / targets) (rows % targets),
  ground arith,
  length-even_counts 0 targets (rows / targets) (rows % targets),
  sum-even_counts 0 targets (rows / targets) (rows % targets) ∙ div_mod_sum rows targets h,
  even_counts-close 0 targets (rows / targets) (rows % targets),
)

sum_u64-lt : (ns : List ℕ) → sum_u64 ns < u64_mod
unfolding sum_u64
sum_u64-lt [] = omega arith
sum_u64-lt (n ∷ ns) = omega arith

sum_u64-eq-sum : (ns : List ℕ) → sum ns < u64_mod → sum_u64 ns ≡ sum ns
unfolding sum_u64
sum_u64-eq-sum [] h = refl
sum_u64-eq-sum (n ∷ ns) h = omega (arith, sum_u64-eq-sum ns (omega arith))

-- Whatever is asked for, accepted counts are one for each target and, short of a sum that passes
-- 64 bits, add up to exactly the source's rows.
pub plan_counts-sum :
    (rows targets : ℕ) (requested counts : List ℕ)
    → plan_counts rows targets requested ≡ ok counts
    → (length counts ≡ targets) × ((sum counts ≡ rows) ⊎ (u64_mod ≤ sum counts))
unfolding plan_counts
plan_counts-sum rows zero requested counts h = cc
plan_counts-sum rows (suc t) [] counts h =
    let (planned, e, len, total, _) = plan_counts_even rows (suc t) (omega arith) in
    let same : planned ≡ counts = ok-injective (sym e ∙ h) in rw (← same) (len, inl total)
plan_counts-sum rows (suc t) (n ∷ ns) counts h = elim (Bool-cases (ltb (sum (n ∷ ns)) u64_mod)) [
  | inl small ↦ ground (arith, sum_u64-eq-sum (n ∷ ns) (ltb→lt _ _ small))
  | inr large ↦ ground (arith, ltb→le (sum (n ∷ ns)) u64_mod large)
]

-- The sum is taken without a check: two counts that pass 64 bits together are accepted for a
-- source that holds only what is left of their sum.
pub plan_counts_overflow :
    (rows a b : ℕ)
    → a < u64_mod
    → b < u64_mod
    → a + b ≡ rows + u64_mod
    → (plan_counts rows 2 (a ∷ b ∷ []) ≡ ok (a ∷ b ∷ [])) × (sum (a ∷ b ∷ []) ≢ rows)
unfolding plan_counts
plan_counts_overflow rows a b ha hb e =
    (rw (let s : sum_u64 (a ∷ b ∷ []) ≡ rows = omega arith in s) (ground arith), omega arith)
