-- ===== src/Service/Bitmaps/Members.antt =====
-- service.rs: the labels that valid bitmaps let through.
use turbovec_grpc.Prelude.{
  Bool, Bool-cases, List, Option, [], any, ap, arith, false, get_elem?, inl, inr, leb, length,
  le→ltb, ltb, ltb→le, ltb→lt, none, not, refl, some, subst, suc, sym, true, u64_mod, zero, ℕ, ◌%◌,
  ◌&&◌, ◌+◌, ◌-◌, ◌/◌, ◌<◌, ◌==◌, ◌||◌, ◌∙◌, ◌∷◌, ◌≡◌, ◌≤◌,
}
use turbovec_grpc.Status.{>>=-eq-ok, names, ok, ok-injective, refuse_if-eq-ok}
use turbovec_grpc.Wire.{LabelBitmap}
use turbovec_grpc.Service.Bitmaps.{
  bitmap_end, bitmap_has, check_bitmaps, div_ceil8, has_bit, item_before, label_in_bitmaps,
  partition_point, stray_bits, validate_label_bitmaps,
}

get_elem?-lt {ℓ} :
    {A : Type ℓ} (xs : List A) (i : ℕ) → i < length xs → (x : A) × (get_elem? xs i ≡ some x)
get_elem?-lt [] i h = absurd (omega arith)
get_elem?-lt (x ∷ xs) zero h = (x, refl)
get_elem?-lt (x ∷ xs) (suc i) h = get_elem?-lt xs i (omega arith)

-- The bitmap covers the label and its bit is set.
pub names_label : ℕ → LabelBitmap → Bool
names_label label bitmap =
    leb bitmap.base_label label
    && (ltb label (bitmap.base_label + bitmap.label_count)
        && elim (get_elem? bitmap.bits ((label - bitmap.base_label) / 8)) [
          | none ↦ false
          | some byte ↦ has_bit ((label - bitmap.base_label) % 8) byte
        ])

-- The bitmaps stand in order, apart and behind `previous_end`, each with the bytes it needs.
abbrev pub InOrder : ℕ → List LabelBitmap → Type 0
InOrder previous_end [] = Unit
InOrder previous_end (bitmap ∷ bitmaps) =
    (previous_end ≤ bitmap.base_label)
    × (0 < bitmap.label_count)
    × (length bitmap.bits ≡ div_ceil8 bitmap.label_count)
    × InOrder (bitmap.base_label + bitmap.label_count) bitmaps

bitmap_end-ok :
    (position previous_end end : ℕ) (bitmap : LabelBitmap)
    → (position ≡ 0 → previous_end ≡ 0)
    → bitmap_end position previous_end bitmap ≡ ok end
    → (previous_end ≤ bitmap.base_label)
      × (0 < bitmap.label_count)
      × (length bitmap.bits ≡ div_ceil8 bitmap.label_count)
      × (bitmap.base_label + bitmap.label_count ≡ end)
unfolding bitmap_end
bitmap_end-ok position previous_end end bitmap z h =
    let (some_labels, h₁) = refuse_if-eq-ok (bitmap.label_count == 0) _ _ h in
    let (sized, h₂) =
      refuse_if-eq-ok (not (length bitmap.bits == div_ceil8 bitmap.label_count)) _ _ h₁ in
    let (fits, h₃) =
      refuse_if-eq-ok (not (ltb (bitmap.base_label + bitmap.label_count) u64_mod)) _ _ h₂ in
    let (apart, h₄) =
      refuse_if-eq-ok (ltb 0 position && ltb bitmap.base_label previous_end) _ _ h₃ in
    let (clean, h₅) =
      refuse_if-eq-ok (not (bitmap.label_count % 8 == 0) && stray_bits bitmap) _ _ h₄ in
    (ground arith, ground arith, ground arith, ok-injective h₅)

check_bitmaps-InOrder :
    (position previous_end : ℕ) (bitmaps : List LabelBitmap) (u : Unit {0})
    → (position ≡ 0 → previous_end ≡ 0)
    → check_bitmaps position previous_end bitmaps ≡ ok u
    → InOrder previous_end bitmaps
unfolding check_bitmaps
check_bitmaps-InOrder position previous_end [] u z h = tt
check_bitmaps-InOrder position previous_end (bitmap ∷ bitmaps) u z h =
    let (end, ended, h₁) = >>=-eq-ok (bitmap_end position previous_end bitmap) _ h in
    let (apart, some_labels, sized, stop_at) =
      bitmap_end-ok position previous_end end bitmap z ended in
    (
      apart,
      some_labels,
      sized,
      subst (λ n. InOrder n bitmaps) (sym stop_at)
          (check_bitmaps-InOrder (suc position) end bitmaps u (λ e. absurd (omega arith)) h₁),
    )

module _ (label : ℕ) where
  starts_below : LabelBitmap → Bool
  starts_below bitmap = leb bitmap.base_label label

  -- The bitmap that the search finds.
  candidate : List LabelBitmap → Option LabelBitmap
  unfolding starts_below
  candidate bitmaps = item_before (partition_point starts_below bitmaps) bitmaps

  or_this : LabelBitmap → Option LabelBitmap → Option LabelBitmap
  or_this bitmap none = some bitmap
  or_this bitmap (some later) = some later

  item_before-suc :
      (bitmap : LabelBitmap) (bitmaps : List LabelBitmap) (n : ℕ)
      → n ≤ length bitmaps
      → item_before (suc n) (bitmap ∷ bitmaps) ≡ or_this bitmap (item_before n bitmaps)
  unfolding or_this
  item_before-suc bitmap bitmaps zero h = refl
  item_before-suc bitmap bitmaps (suc n) h =
      let (x, e) = get_elem?-lt bitmaps n (omega arith) in rw (e) refl

  partition_point-le :
      (bitmaps : List LabelBitmap) → partition_point starts_below bitmaps ≤ length bitmaps
  partition_point-le [] = omega arith
  partition_point-le (bitmap ∷ bitmaps) = ground (arith, partition_point-le bitmaps)

  candidate-cons :
      (bitmap : LabelBitmap) (bitmaps : List LabelBitmap)
      → bitmap.base_label ≤ label
      → candidate (bitmap ∷ bitmaps) ≡ or_this bitmap (candidate bitmaps)
  unfolding candidate starts_below
  candidate-cons bitmap bitmaps h =
      let starts : leb bitmap.base_label label ≡ true = ground arith in
      rw (starts) (
        item_before-suc bitmap bitmaps (partition_point starts_below bitmaps)
          (partition_point-le bitmaps))

  below-none :
      (end : ℕ) (bitmaps : List LabelBitmap)
      → label < end
      → InOrder end bitmaps
      → (candidate bitmaps ≡ none) × (any (names_label label) bitmaps ≡ false)
  unfolding candidate names_label starts_below
  below-none end [] h o = (refl, refl)
  below-none end (bitmap ∷ bitmaps) h (apart, _, _, o) =
      let (_, more) = below-none (bitmap.base_label + bitmap.label_count) bitmaps (omega arith) o in
      let above : leb bitmap.base_label label ≡ false = ground arith in
      (rw (above) refl, rw (above, more) refl)

  has_offset :
      (bitmap : LabelBitmap)
      → bitmap.base_label ≤ label
      → length bitmap.bits ≡ div_ceil8 bitmap.label_count
      → bitmap_has label (some bitmap) ≡ ok (names_label label bitmap)
  unfolding bitmap_has names_label
  has_offset bitmap below sized =
      elim (Bool-cases (ltb label (bitmap.base_label + bitmap.label_count))) [
        | inl e ↦
            let covered = ltb→lt label (bitmap.base_label + bitmap.label_count) e in
            let inside : leb bitmap.label_count (label - bitmap.base_label) ≡ false =
              ground arith in
            let starts : leb bitmap.base_label label ≡ true = ground arith in
            let (byte, at) =
              get_elem?-lt bitmap.bits ((label - bitmap.base_label) / 8)
                (omega (arith, sized, covered, below)) in
            rw (inside, starts, e, at) refl
        | inr e ↦
            let past = ltb→le label (bitmap.base_label + bitmap.label_count) e in
            let outside : leb bitmap.label_count (label - bitmap.base_label) ≡ true =
              ground arith in
            let starts : leb bitmap.base_label label ≡ true = ground arith in
            rw (outside, starts, e) refl
      ]

  outside_lem :
      (bitmap : LabelBitmap)
      → bitmap.base_label + bitmap.label_count ≤ label
      → names_label label bitmap ≡ false
  unfolding names_label
  outside_lem bitmap h =
      let starts : leb bitmap.base_label label ≡ true = ground arith in
      rw (starts, le→ltb label (bitmap.base_label + bitmap.label_count) h) refl

  or_later :
      (bitmap : LabelBitmap) (o : Option LabelBitmap) (r : Bool)
      → bitmap_has label o ≡ ok r
      → bitmap_has label (some bitmap) ≡ ok false
      → bitmap_has label (or_this bitmap o) ≡ ok r
  unfolding bitmap_has or_this
  or_later bitmap none r h e = e ∙ h
  or_later bitmap (some later) r h e = h

  bitmap_has-none : bitmap_has label none ≡ ok false
  unfolding bitmap_has
  bitmap_has-none = refl

  or_this-none :
      (bitmap : LabelBitmap)
      → bitmap_has label (or_this bitmap none) ≡ bitmap_has label (some bitmap)
  unfolding or_this
  or_this-none bitmap = refl

  or_false : (b : Bool) → (b || false) ≡ b
  or_false true = refl
  or_false false = refl

  bitmap_has-any :
      (end : ℕ) (bitmaps : List LabelBitmap)
      → InOrder end bitmaps
      → bitmap_has label (candidate bitmaps) ≡ ok (any (names_label label) bitmaps)
  unfolding candidate
  bitmap_has-any end [] o = bitmap_has-none
  bitmap_has-any end (bitmap ∷ bitmaps) (apart, some_labels, sized, o) =
      elim (Bool-cases (leb bitmap.base_label label)) [
        | inr e ↦
            let (found, names) =
              below-none bitmap.base_label (bitmap ∷ bitmaps) (ground arith)
                (omega arith, some_labels, sized, o) in
            rw (found, names) bitmap_has-none
        | inl e ↦
            let below : bitmap.base_label ≤ label = ground arith in
            let offset = has_offset bitmap below sized in
            let rest = bitmap_has-any (bitmap.base_label + bitmap.label_count) bitmaps o in
            elim (Bool-cases (ltb label (bitmap.base_label + bitmap.label_count))) [
              | inl covered ↦
                  let (found, names) =
                    below-none (bitmap.base_label + bitmap.label_count) bitmaps (ltb→lt _ _ covered)
                      o in
                  ap (bitmap_has label)
                    (candidate-cons bitmap bitmaps below ∙ ap (or_this bitmap) found)
                  ∙ or_this-none bitmap
                  ∙ offset
                  ∙ ap ok (
                      sym (
                        ap (λ b. names_label label bitmap || b) names
                        ∙ or_false (names_label label bitmap)))
              | inr past ↦
                  let uncovered = outside_lem bitmap (ltb→le _ _ past) in
                  ap (bitmap_has label) (candidate-cons bitmap bitmaps below)
                  ∙ or_later bitmap (candidate bitmaps) (any (names_label label) bitmaps) rest
                      (offset ∙ ap ok uncovered)
                  ∙ ap ok (sym (ap (λ b. b || any (names_label label) bitmaps) uncovered))
            ]
      ]

-- A label passes bitmaps that were validated exactly when one of them covers it with its bit set:
-- the search that looks at one bitmap only misses none, and reads no byte that is not there.
pub label_in_bitmaps_iff :
    (bitmaps : List LabelBitmap) (label : ℕ)
    → validate_label_bitmaps bitmaps ≡ ok tt
    → label_in_bitmaps bitmaps label ≡ ok (any (names_label label) bitmaps)
unfolding label_in_bitmaps validate_label_bitmaps candidate starts_below
label_in_bitmaps_iff bitmaps label h =
    bitmap_has-any label 0 bitmaps (check_bitmaps-InOrder 0 0 bitmaps tt (λ _. refl) h)
