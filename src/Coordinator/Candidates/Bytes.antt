-- ===== src/Coordinator/Candidates/Bytes.antt =====
-- coordinator/mod.rs: the bytes of the candidates on the wire, read back.
use turbovec_grpc.Prelude.{
  All, List, [], ap, append_assoc, arith, drop, length, length-append, refl, suc, sym, take, zero,
  ℕ, ◌%◌, ◌*◌, ◌++◌, ◌+◌, ◌/◌, ◌<◌, ◌^◌, ◌∙◌, ◌∷◌, ◌≡◌,
}
use turbovec_grpc.Float.{F32}
use turbovec_grpc.Coordinator.Candidates.{candidate_bytes, to_le_bytes}

-- The integer whose little-endian bytes these are.
pub from_le_bytes : List ℕ → ℕ
from_le_bytes [] = 0
from_le_bytes (b ∷ bytes) = b + 256 * from_le_bytes bytes

-- How many integers `width` bytes tell apart.
abbrev byte_range : ℕ → ℕ
byte_range zero = 1
byte_range (suc width) = 256 * byte_range width

digits : (n r : ℕ) → n < 256 * r → n / 256 < r
digits n r h = omega arith

divided : (n : ℕ) → n % 256 + 256 * (n / 256) ≡ n
divided n = omega arith

from_le_bytes-to_le_bytes :
    (width n : ℕ) → n < byte_range width → from_le_bytes (to_le_bytes width n) ≡ n
unfolding from_le_bytes to_le_bytes
from_le_bytes-to_le_bytes zero n h = omega arith
from_le_bytes-to_le_bytes (suc width) n h =
    ap (λ k. n % 256 + 256 * k)
      (from_le_bytes-to_le_bytes width (n / 256) (digits n (byte_range width) h))
    ∙ divided n

length-to_le_bytes : (width n : ℕ) → length (to_le_bytes width n) ≡ width
unfolding to_le_bytes
length-to_le_bytes zero n = refl
length-to_le_bytes (suc width) n = ap suc (length-to_le_bytes width (n / 256))

pub length-candidate_bytes : (c : ℕ × F32) → length (candidate_bytes c) ≡ 12
unfolding candidate_bytes
length-candidate_bytes (label, score) =
    length-append (to_le_bytes 8 label) (to_le_bytes 4 score)
    ∙ omega (arith, length-to_le_bytes 8 label, length-to_le_bytes 4 score)

-- The bytes of candidates, one behind the other.
abbrev pub wire_bytes : List (ℕ × F32) → List ℕ
wire_bytes [] = []
wire_bytes (c ∷ cs) = candidate_bytes c ++ wire_bytes cs

-- What a caller reads: `count` candidates of twelve bytes each.
pub read_candidates : ℕ → List ℕ → List (ℕ × F32)
unfolding from_le_bytes
read_candidates zero bytes = []
read_candidates (suc count) bytes =
    (from_le_bytes (take 8 bytes), from_le_bytes (take 4 (drop 8 bytes)))
    ∷ read_candidates count (drop 12 bytes)

-- A label of 64 bits and a score of 32.
abbrev pub IsSized : ℕ × F32 → Type 0
IsSized (label, score) = (label < 2 ^ 64) × (score < 2 ^ 32)

pub length-wire_bytes : (cs : List (ℕ × F32)) → length (wire_bytes cs) ≡ 12 * length cs
length-wire_bytes [] = omega arith
length-wire_bytes (c ∷ cs) =
    length-append (candidate_bytes c) (wire_bytes cs)
    ∙ omega (arith, length-candidate_bytes c, length-wire_bytes cs)

pub wire_bytes-append :
    (cs ds : List (ℕ × F32)) → wire_bytes (cs ++ ds) ≡ wire_bytes cs ++ wire_bytes ds
wire_bytes-append [] ds = refl
wire_bytes-append (c ∷ cs) ds =
    ap (◌++◌ (candidate_bytes c)) (wire_bytes-append cs ds)
    ∙ sym (append_assoc (candidate_bytes c) (wire_bytes cs) (wire_bytes ds))

cons-eq :
    {a a' : ℕ} {b b' : F32} {r r' : List (ℕ × F32)}
    → a ≡ a'
    → b ≡ b'
    → r ≡ r'
    → (a, b) ∷ r ≡ (a', b') ∷ r'
cons-eq e f g = rw (e, f, g) refl

-- The candidates of a batch, read twelve bytes at a time, are those that were written, whatever
-- stands behind them.
pub read_candidates-wire_bytes :
    (cs : List (ℕ × F32)) (behind : List ℕ)
    → All IsSized cs
    → read_candidates (length cs) (wire_bytes cs ++ behind) ≡ cs
unfolding read_candidates candidate_bytes to_le_bytes from_le_bytes
read_candidates-wire_bytes [] behind h = refl
read_candidates-wire_bytes ((label, score) ∷ cs) behind ((l, f), h) =
    cons-eq (from_le_bytes-to_le_bytes 8 label l) (from_le_bytes-to_le_bytes 4 score f)
      (read_candidates-wire_bytes cs behind h)
