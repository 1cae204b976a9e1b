-- ===== src/Service/Blocks.antt =====
-- service.rs: the single blocks that `export_block` makes of an index laid out as the library
-- promises, and the builder that accepts one.
use turbovec_grpc.Prelude.{
  ==_iff, List, Option, [], ap, arith, drop, if◌then◌else◌, inl, inr, length, length-drop,
  length-take, le→ltb, lt→ltb, mul-le-mul_right, none, refl, some, subst, sym, take, true, u64_mod,
  ℕ, ◌*◌, ◌+◌, ◌-◌, ◌/◌, ◌<◌, ◌==◌, ◌∙◌, ◌≡◌, ◌≤◌, ◌⊎◌,
}
use turbovec_grpc.Status.{ok}
use turbovec_grpc.Wire.{RowBlock}
use turbovec_grpc.Service.Export.{
  TurboQuantIndex, block_labels, bound_dim, export_block, export_range, slice, slots_from,
}
use turbovec_grpc.Service.Import.{ImportBuilder, check_head, extend, head_after, push, refuse_pair}
use turbovec_grpc.Service.Calibration.{calibration_difference_iff}
use turbovec_grpc.Service.Slices.{drop-slots_from, slice-ok, slots_from-eq, take-slots_from}

-- The labels under which the rows of an index travel: its table, or else its slots.
abbrev pub names_of : TurboQuantIndex → Option (List ℕ) → List ℕ
names_of index none = slots_from 0 index.len
names_of index (some table) = table

abbrev pub row_bytes : TurboQuantIndex → ℕ → ℕ
row_bytes index dim = index.bit_width * (dim / 8)

-- What the vector library promises of an index that has held a row, and the registry of its
-- label table.
pub record IsLaidOut (index : TurboQuantIndex) (labels : Option (List ℕ)) (dim : ℕ) : Type 0 where
  pub bound : index.dim_opt ≡ some dim
  pub one_scale_each : length index.scales ≡ index.len
  pub codes_each : length index.packed_codes ≡ index.len * row_bytes index dim
  pub one_label_each : length (names_of index labels) ≡ index.len
  pub fits : index.len < u64_mod

-- `count` entries from `from`.
abbrev pub range {ℓ} : {A : Type ℓ} → ℕ → ℕ → List A → List A
range from count xs = take count (drop from xs)

range-eq {ℓ} :
    {A : Type ℓ} {c d : ℕ} (from : ℕ) (xs : List A) → c ≡ d → range from c xs ≡ range from d xs
range-eq from xs e = ap (λ n. take n (drop from xs)) e

slice-range {ℓ} :
    {A : Type ℓ} (xs : List A) (from to count : ℕ)
    → to ≡ from + count
    → to ≤ length xs
    → slice xs from to ≡ ok (range from count xs)
slice-range xs from to count e h =
    slice-ok xs from to (omega arith) h ∙ ap ok (range-eq from xs (omega arith))

block_labels-ok :
    (index : TurboQuantIndex) (labels : Option (List ℕ)) (from count : ℕ)
    → length (names_of index labels) ≡ index.len
    → from + count ≤ index.len
    → block_labels labels from count ≡ ok (range from count (names_of index labels))
unfolding block_labels
block_labels-ok index none from count e h = ap ok (
    slots_from-eq {c = 0 + from} {d = count} (omega arith) (omega arith)
    ∙ sym (take-slots_from count (0 + from) (index.len - from) (omega arith))
    ∙ ap (take count) (sym (drop-slots_from from 0 index.len)))
block_labels-ok index (some table) from count e h =
    slice-range table from (from + count) count refl (omega arith)

rows_asked :
    (count len from : ℕ)
    → (count ≡ 0 → from ≡ len)
    → (if count == 0 then len - from else count) ≡ count
rows_asked count len from z = ground arith

pub ==-refl : (n : ℕ) → (n == n) ≡ true
==-refl n = (==_iff n n).1 refl

pub length-range {ℓ} :
    {A : Type ℓ} (xs : List A) (from count : ℕ)
    → from + count ≤ length xs
    → (length (range from count xs) == count) ≡ true
length-range xs from count h =
    (==_iff _ count).1 (length-take count (drop from xs) ∙ omega (arith, length-drop from xs, h))

some-ne-none {ℓ} : {A : Type ℓ} {a : A} → some a ≡ none → ⊥
some-ne-none h = cc

pub times_sum : (a c b : ℕ) → (a + c) * b ≡ a * b + c * b
times_sum a c b = grind arith

module _ (index : TurboQuantIndex) (labels : Option (List ℕ)) (dim : ℕ) where
  -- The block of the rows `from` to `from + count`.
  abbrev pub block_of : ℕ → ℕ → RowBlock
  block_of from count =
      let b = row_bytes index dim in
      record {
        dim = dim;
        bit_width = index.bit_width;
        rows = count;
        packed_codes = range (from * b) (count * b) index.packed_codes;
        scales = range from count index.scales;
        tqplus_shift = index.tqplus_shift;
        tqplus_scale = index.tqplus_scale;
        labels = range from count (names_of index labels);
      }

  -- What the first block leaves behind.
  abbrev pub shape : RowBlock
  shape = record {
    dim = dim;
    bit_width = index.bit_width;
    rows = 0;
    packed_codes = [];
    scales = [];
    tqplus_shift = index.tqplus_shift;
    tqplus_scale = index.tqplus_scale;
    labels = [];
  }

  module _ (laid : IsLaidOut index labels dim) where
    pub export_range-ok :
        (from count : ℕ)
        → (count ≡ 0 → from ≡ index.len)
        → from + count ≤ index.len
        → export_range index from count ≡ ok (from, count)
    unfolding export_range
    export_range-ok from count z h =
        rw
          (
            le→ltb index.len from (omega arith),
            rows_asked count index.len from z,
            lt→ltb (from + count) u64_mod (omega (arith, laid.fits)),
            le→ltb index.len (from + count) h,
          )
          refl

    pub export_block-ok :
        (from count : ℕ)
        → (count ≡ 0 → from ≡ index.len)
        → from + count ≤ index.len
        → export_block index labels from count ≡ ok (block_of from count)
    unfolding export_block bound_dim
    export_block-ok from count z h =
        rw
          (
            export_range-ok from count z h,
            laid.bound,
            slice-range index.packed_codes (from * row_bytes index dim)
                ((from + count) * row_bytes index dim) (count * row_bytes index dim)
                (times_sum from count (row_bytes index dim))
                (subst (λ n. (from + count) * row_bytes index dim ≤ n) (sym laid.codes_each)
                  (mul-le-mul_right (row_bytes index dim) h)),
            slice-range index.scales from (from + count) count refl
                (omega (arith, laid.one_scale_each)),
            block_labels-ok index labels from count laid.one_label_each h,
          )
          refl

    check_head-ok :
        (bi from count : ℕ) (o : Option RowBlock)
        → (o ≡ none) ⊎ (o ≡ some shape)
        → (check_head bi o (block_of from count) ≡ ok tt)
          × (head_after o (block_of from count) ≡ some shape)
    unfolding check_head head_after refuse_pair
    check_head-ok bi from count none h = (refl, refl)
    check_head-ok bi from count (some q) (inl h) = absurd (some-ne-none h)
    check_head-ok bi from count (some q) (inr h) =
        subst
          (λ o.
            (check_head bi o (block_of from count) ≡ ok tt)
            × (head_after o (block_of from count) ≡ some shape))
          (sym h)
          (rw
            (
              ==-refl dim,
              ==-refl index.bit_width,
              (calibration_difference_iff index.tqplus_shift index.tqplus_scale index.tqplus_shift
                    index.tqplus_scale).1
                  (refl, refl),
            )
            (refl, refl))

    -- A builder that is empty or holds rows of this shape accepts a block that fits.
    pub push-block_of :
        (from count : ℕ) (s : ImportBuilder)
        → from + count ≤ index.len
        → (s.head ≡ none) ⊎ (s.head ≡ some shape)
        → s.rows + count ≤ s.expected_rows
        → s.expected_rows < u64_mod
        → (push s (block_of from count) ≡ ok (extend s (block_of from count)))
          × (head_after s.head (block_of from count) ≡ some shape)
    unfolding push extend
    push-block_of from count s h hd room small =
        let (checked, headed) = check_head-ok s.blocks from count s.head hd in
        (
          rw
              (
                checked,
                length-range index.scales from count (omega (arith, laid.one_scale_each)),
                length-range (names_of index labels) from count
                    (omega (arith, laid.one_label_each)),
                lt→ltb (s.rows + count) u64_mod (omega arith),
                le→ltb s.expected_rows (s.rows + count) room,
              )
              refl,
          headed,
        )
