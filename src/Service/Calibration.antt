-- ===== src/Service/Calibration.antt =====
-- service.rs: `calibration_difference`, the exact comparison of two calibration pairs.
use turbovec_grpc.Prelude.{
  List, Option, Text, [], ap, arith, display, if◌then◌else◌, length, none, not, refl, some, suc,
  text, ℕ, ◌++◌, ◌==◌, ◌↔◌, ◌∷◌, ◌≡◌,
}
use turbovec_grpc.Float.{F32}

-- The zipped loop over one half of the pair, from coordinate `i`. The text of the two floats is
-- left out of the message.
unfoldable pub first_difference : Text → ℕ → List F32 → List F32 → Option Text
first_difference what i [] right = none
first_difference what i (a ∷ left) [] = none
first_difference what i (a ∷ left) (b ∷ right) =
    let rest = first_difference what (suc i) left right in
    if a == b then rest else some (what ++ (text " coordinate " ++ display i))

abbrev length_message : Text → ℕ → ℕ → Text
length_message what a b =
    what
    ++ (text " has "
        ++ (display a
            ++ (text " coordinates on one side and " ++ (display b ++ text " on the other"))))

abbrev or_else : Option Text → Option Text → Option Text
or_else none o = o
or_else (some e) o = some e

unfoldable pub calibration_difference : List F32 × List F32 → List F32 × List F32 → Option Text
unfolding first_difference
calibration_difference (shift, scale) (shift', scale') =
    if not (length shift == length shift')
    then some (length_message (text "shift") (length shift) (length shift'))
    else if not (length scale == length scale')
    then some (length_message (text "scale") (length scale) (length scale'))
    else or_else (first_difference (text "shift") 0 shift shift')
        (first_difference (text "scale") 0 scale scale')

first_difference-none :
    (what : Text) (i : ℕ) (xs ys : List F32)
    → length xs ≡ length ys
    → first_difference what i xs ys ≡ none
    → xs ≡ ys
unfolding first_difference
first_difference-none what i [] [] e h = refl
first_difference-none what i [] (y ∷ ys) e h = absurd (omega arith)
first_difference-none what i (x ∷ xs) [] e h = absurd (omega arith)
first_difference-none what i (x ∷ xs) (y ∷ ys) e h =
    ground (arith, first_difference-none what (suc i) xs ys (omega arith))

first_difference_self : (what : Text) (i : ℕ) (xs : List F32) → first_difference what i xs xs ≡ none
unfolding first_difference
first_difference_self what i [] = refl
first_difference_self what i (x ∷ xs) = ground (arith, first_difference_self what (suc i) xs)

-- No difference is found exactly when the two pairs are the same, bit for bit.
pub calibration_difference_iff :
    (shift scale shift' scale' : List F32)
    → (calibration_difference (shift, scale) (shift', scale') ≡ none)
      ↔ ((shift ≡ shift') × (scale ≡ scale'))
unfolding calibration_difference
calibration_difference_iff shift scale shift' scale' = (to, from)
  where
    to :
        calibration_difference (shift, scale) (shift', scale') ≡ none
        → (shift ≡ shift') × (scale ≡ scale')
    to h = ground (
      arith,
      first_difference-none (text "shift") 0 shift shift',
      first_difference-none (text "scale") 0 scale scale',
    )

    from :
        (shift ≡ shift') × (scale ≡ scale')
        → calibration_difference (shift, scale) (shift', scale') ≡ none
    from (p, q) = ground (
      arith,
      ap length p,
      ap length q,
      first_difference_self (text "shift") 0 shift,
      first_difference_self (text "scale") 0 scale,
    )
