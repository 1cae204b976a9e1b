-- ===== src/Fallible.antt =====
-- `Result<_, String>`, the startup and persistence code's way to fail, with the panics of
-- `expect`; and `str::parse::<u64>`.
use turbovec_grpc.Prelude.{
  Bool, Text, [], arith, false, if◌then◌else◌, leb, ltb, not, refl, text, true, u64_mod, ℕ, ◌&&◌,
  ◌*◌, ◌+◌, ◌-◌, ◌<◌, ◌==◌, ◌∷◌, ◌≡◌,
}

pub data Fallible {ℓ} (A : Type ℓ) : Type ℓ where
  done : A → Fallible A
  fail : Text → Fallible A
  panics : Fallible A

-- `?`: what follows a result that is there.
infixl 5 ◌>>=◌ ◌>>◌
abbrev pub ◌>>=◌ {u v} : {X : Type u} {Y : Type v} → Fallible X → (X → Fallible Y) → Fallible Y
panics >>= next = panics
fail problem >>= next = fail problem
done x >>= next = next x

abbrev pub ◌>>◌ {v} : {Y : Type v} → Fallible (Unit {0}) → Fallible Y → Fallible Y
first >> second = first >>= λ _. second

-- `if test { return Err(message) }`
abbrev pub fail_if : Bool → Text → Fallible (Unit {0})
fail_if true e = fail e
fail_if false e = done tt

pub >>=-eq-done {u v} :
    {X : Type u} {Y : Type v} {y : Y} (m : Fallible X) (next : X → Fallible Y)
    → (m >>= next) ≡ done y
    → (x : X) × (m ≡ done x) × (next x ≡ done y)
>>=-eq-done panics next e = cc
>>=-eq-done (fail problem) next e = cc
>>=-eq-done (done x) next e = (x, refl, e)

-- `std::num::IntErrorKind` of an unsigned number.
pub data IntError : Type 0 where
  empty invalid_digit pos_overflow : IntError

pub int_error_text : IntError → Text
int_error_text empty = text "cannot parse integer from empty string"
int_error_text invalid_digit = text "invalid digit found in string"
int_error_text pos_overflow = text "number too large to fit in target type"

pub data Parsed : Type 0 where
  number : ℕ → Parsed
  bad : IntError → Parsed

abbrev pub is_digit : ℕ → Bool
is_digit c = leb b'0' c && leb c b'9'

-- The digits from the left; the first fault decides.
unfoldable pub parse_digits : ℕ → Text → Parsed
parse_digits acc [] = number acc
parse_digits acc (c ∷ cs) =
    let next = acc * 10 + (c - b'0') in
    let rest = parse_digits next cs in
    if not (is_digit c)
    then bad invalid_digit
    else if ltb next u64_mod
    then rest
    else bad pos_overflow

-- A single sign is taken off a text that has more than that.
unfoldable pub parse_u64 : Text → Parsed
parse_u64 [] = bad empty
parse_u64 (c ∷ []) = parse_digits 0 (c ∷ [])
parse_u64 (c ∷ d ∷ cs) = if c == b'+' then parse_digits 0 (d ∷ cs) else parse_digits 0 (c ∷ d ∷ cs)

-- A number that was read fits its 64 bits.
pub parse_digits-lt :
    (acc : ℕ) (s : Text) (n : ℕ) → acc < u64_mod → parse_digits acc s ≡ number n → n < u64_mod
unfolding parse_digits
parse_digits-lt acc [] n b h = ground arith
parse_digits-lt acc (c ∷ cs) n b h = ground (arith, parse_digits-lt (acc * 10 + (c - b'0')) cs n)

pub parse_u64-lt : (s : Text) (n : ℕ) → parse_u64 s ≡ number n → n < u64_mod
unfolding parse_u64
parse_u64-lt [] n h = cc
parse_u64-lt (c ∷ []) n h = parse_digits-lt 0 (c ∷ []) n (omega arith) h
parse_u64-lt (c ∷ d ∷ cs) n h = ground (
  arith,
  parse_digits-lt 0 (d ∷ cs) n (omega arith),
  parse_digits-lt 0 (c ∷ d ∷ cs) n (omega arith),
)

pub done-injective {ℓ} : {A : Type ℓ} {a b : A} → done a ≡ done b → a ≡ b
done-injective h = cc

pub fail_if-eq-done {ℓ} :
    {B : Type ℓ} (t : Bool) (e : Text) (m : Fallible B) {b : B}
    → (fail_if t e >> m) ≡ done b
    → (t ≡ false) × (m ≡ done b)
fail_if-eq-done true e m h = cc
fail_if-eq-done false e m h = (refl, h)

pub >>=-done {ℓ} : {A : Type ℓ} (m : Fallible A) → (m >>= λ a. done a) ≡ m
>>=-done (done a) = refl
>>=-done (fail e) = refl
>>=-done panics = refl
