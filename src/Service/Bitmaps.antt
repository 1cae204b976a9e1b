-- ===== src/Service/Bitmaps.antt =====
-- service.rs: `validate_label_bitmaps` and `label_in_bitmaps`, the compressed label filters.
pub mod Members
use turbovec_grpc.Prelude.{
  Bool, List, Option, Text, [], display, false, get_elem?, if◌then◌else◌, last, leb, length, ltb,
  none, not, some, suc, text, u64_mod, zero, ℕ, ◌%◌, ◌&&◌, ◌++◌, ◌+◌, ◌-◌, ◌/◌, ◌==◌, ◌^◌, ◌∷◌,
}
use turbovec_grpc.Status.{
  Result, Status, expect, invalid_argument, ok, refuse_if, status, ◌>>=◌, ◌>>◌,
}
use turbovec_grpc.Wire.{LabelBitmap}

-- `n.div_ceil(8)`
abbrev pub div_ceil8 : ℕ → ℕ
div_ceil8 n = (n + 7) / 8

abbrev pub bitmap_message : ℕ → Text → Status
bitmap_message position rest =
    status invalid_argument (text "allowed label bitmap " ++ (display position ++ rest))

-- `byte & !((1u8 << used) - 1) != 0`: a bit from `used` on is set.
abbrev pub high_bits_set : ℕ → ℕ → Bool
high_bits_set used byte = not (byte / 2 ^ used == 0)

-- The last byte's bits beyond the count.
unfoldable pub stray_bits : LabelBitmap → Bool
stray_bits bitmap = elim (last bitmap.bits) [
  | none ↦ false
  | some byte ↦ high_bits_set (bitmap.label_count % 8) byte
]

-- The checks of the bitmap at `position`, and where its labels end; `usize` has 64 bits.
unfoldable pub bitmap_end : ℕ → ℕ → LabelBitmap → Result ℕ
unfolding stray_bits
bitmap_end position previous_end bitmap = do
  refuse_if (bitmap.label_count == 0) (bitmap_message position (text " has zero labels"))
  refuse_if (not (length bitmap.bits == div_ceil8 bitmap.label_count)) (
      bitmap_message position (
        text " has "
        ++ (display (length bitmap.bits)
            ++ (text " bytes for "
                ++ (display bitmap.label_count
                    ++ (text " labels; expected " ++ display (div_ceil8 bitmap.label_count)))))))
  refuse_if (not (ltb (bitmap.base_label + bitmap.label_count) u64_mod))
      (bitmap_message position (text " range overflows u64"))
  refuse_if (ltb 0 position && ltb bitmap.base_label previous_end)
      (bitmap_message position (text " overlaps or is out of order"))
  refuse_if (not (bitmap.label_count % 8 == 0) && stray_bits bitmap)
      (bitmap_message position (text " has set bits beyond label_count"))
  ok (bitmap.base_label + bitmap.label_count)

-- The loop, from a position and the end of the bitmap before.
unfoldable pub check_bitmaps : ℕ → ℕ → List LabelBitmap → Result (Unit {0})
unfolding bitmap_end
check_bitmaps position previous_end [] = ok tt
check_bitmaps position previous_end (bitmap ∷ bitmaps) = do
  end ← bitmap_end position previous_end bitmap
  check_bitmaps (suc position) end bitmaps

unfoldable pub validate_label_bitmaps : List LabelBitmap → Result (Unit {0})
unfolding check_bitmaps
validate_label_bitmaps bitmaps = check_bitmaps 0 0 bitmaps

-- `slice::partition_point`: where the items that pass the test end; the library promises that of
-- a slice whose items pass it first.
abbrev pub partition_point {ℓ} : {A : Type ℓ} → (A → Bool) → List A → ℕ
partition_point test [] = 0
partition_point test (x ∷ xs) = if test x then suc (partition_point test xs) else 0

-- `position.checked_sub(1).and_then(|index| items.get(index))`
abbrev pub item_before {ℓ} : {A : Type ℓ} → ℕ → List A → Option A
item_before zero xs = none
item_before (suc index) xs = get_elem? xs index

-- `byte & (1 << bit) != 0`
abbrev pub has_bit : ℕ → ℕ → Bool
has_bit bit byte = not (byte / 2 ^ bit % 2 == 0)

-- What the bitmap that may hold the label says of it.
unfoldable pub bitmap_has : ℕ → Option LabelBitmap → Result Bool
bitmap_has label none = ok false
bitmap_has label (some bitmap) =
    let offset = label - bitmap.base_label in
    let found = (do
      byte ← expect (get_elem? bitmap.bits (offset / 8))
      ok (has_bit (offset % 8) byte)) in
    if leb bitmap.label_count offset then ok false else found

unfoldable pub label_in_bitmaps : List LabelBitmap → ℕ → Result Bool
unfolding bitmap_has
label_in_bitmaps bitmaps label =
    bitmap_has label
      (item_before (partition_point (λ bitmap. leb bitmap.base_label label) bitmaps) bitmaps)
