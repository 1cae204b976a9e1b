-- ===== src/Status.antt =====
-- errors.rs: the codes and messages of a failed call, and the named refusals.
use turbovec_grpc.Prelude.{
  Bool, List, Option, Text, [], any, false, inl, inr, is_some, none, refl, some, strip_prefix, text,
  true, ℕ, ◌++◌, ◌∷◌, ◌≡◌, ◌⊎◌,
}

-- `tonic::Code`, as far as the program uses it.
pub data Code : Type 0 where
  invalid_argument failed_precondition not_found aborted internal : Code
  unavailable cancelled deadline_exceeded resource_exhausted : Code
  -- any code that only another party sends
  other : ℕ → Code

pub record Status : Type 0 where
  pub code : Code
  pub message : Text

-- A call returns, fails with a status, or panics.
pub data Result {ℓ} (A : Type ℓ) : Type ℓ where
  ok : A → Result A
  err : Status → Result A
  panic : Result A

-- `?`: what follows a result that is there.
infixl 5 ◌>>=◌ ◌>>◌
abbrev pub ◌>>=◌ {u v} : {X : Type u} {Y : Type v} → Result X → (X → Result Y) → Result Y
panic >>= next = panic
err problem >>= next = err problem
ok x >>= next = next x

abbrev pub ◌>>◌ {v} : {Y : Type v} → Result (Unit {0}) → Result Y → Result Y
first >> second = first >>= λ _. second

-- `if test { return Err(status) }`
abbrev pub refuse_if : Bool → Status → Result (Unit {0})
refuse_if true e = err e
refuse_if false e = ok tt

-- `option.expect(…)` and an index into a vector
abbrev pub expect {ℓ} : {A : Type ℓ} → Option A → Result A
expect none = panic
expect (some a) = ok a

-- `result.map_err(f)`
abbrev pub map_err {ℓ} : {A : Type ℓ} → (Status → Status) → Result A → Result A
map_err f (ok a) = ok a
map_err f (err e) = err (f e)
map_err f panic = panic

abbrev pub status : Code → Text → Status
status c m = record { code = c; message = m }

-- errors.rs, the names
-- The constants of errors.rs.
abbrev pub mixed_calibration : Text
mixed_calibration = text "mixed_calibration"

abbrev pub dimension_mismatch : Text
dimension_mismatch = text "dimension_mismatch"

abbrev pub bit_width_mismatch : Text
bit_width_mismatch = text "bit_width_mismatch"

abbrev pub node_unreachable : Text
node_unreachable = text "node_unreachable"

abbrev pub empty_collection : Text
empty_collection = text "empty_collection"

abbrev pub ambiguous_index : Text
ambiguous_index = text "ambiguous_index"

abbrev pub positional_index_required : Text
positional_index_required = text "positional_index_required"

abbrev pub index_not_empty : Text
index_not_empty = text "index_not_empty"

abbrev pub labelled_index_immutable : Text
labelled_index_immutable = text "labelled_index_immutable"

abbrev pub row_count_mismatch : Text
row_count_mismatch = text "row_count_mismatch"

abbrev pub invalid_calibration : Text
invalid_calibration = text "invalid_calibration"

-- `NAMES`
pub names : List Text
names =
    mixed_calibration ∷ dimension_mismatch ∷ bit_width_mismatch ∷ node_unreachable
    ∷ empty_collection ∷ ambiguous_index ∷ positional_index_required ∷ index_not_empty
    ∷ labelled_index_immutable ∷ row_count_mismatch ∷ invalid_calibration ∷ []

abbrev pub colon : Text
colon = text ": "

-- The closure of `is_named`.
pub names_message : Text → Text → Bool
names_message message name = elim (strip_prefix name message) [
  | none ↦ false
  | some rest ↦ is_some (strip_prefix colon rest)
]

pub is_named : Text → Bool
unfolding names_message names
is_named message = any (names_message message) names

pub precondition : Text → Text → Status
precondition name detail = status failed_precondition (name ++ (colon ++ detail))

pub invalid : Text → Text → Status
invalid name detail = status invalid_argument (name ++ (colon ++ detail))

pub unavailable_status : Text → Text → Status
unavailable_status name detail = status unavailable (name ++ (colon ++ detail))

pub Result-cases {ℓ} :
    {A : Type ℓ} (r : Result A)
    → ((a : A) × (r ≡ ok a)) ⊎ (((e : Status) × (r ≡ err e)) ⊎ (r ≡ panic))
Result-cases (ok a) = inl (a, refl)
Result-cases (err e) = inr (inl (e, refl))
Result-cases panic = inr (inr refl)

-- Inversion of a chain that succeeds.
pub >>=-eq-ok {u v} :
    {X : Type u} {Y : Type v} {y : Y} (m : Result X) (next : X → Result Y)
    → (m >>= next) ≡ ok y
    → (x : X) × (m ≡ ok x) × (next x ≡ ok y)
>>=-eq-ok panic next e = cc
>>=-eq-ok (err problem) next e = cc
>>=-eq-ok (ok x) next e = (x, refl, e)

pub refuse_if-eq-ok {ℓ} :
    {B : Type ℓ} (t : Bool) (e : Status) (m : Result B) {b : B}
    → (refuse_if t e >> m) ≡ ok b
    → (t ≡ false) × (m ≡ ok b)
refuse_if-eq-ok true e m h = cc
refuse_if-eq-ok false e m h = (refl, h)

pub expect-eq-ok {ℓ} : {A : Type ℓ} (o : Option A) {a : A} → expect o ≡ ok a → o ≡ some a
expect-eq-ok none h = cc
expect-eq-ok (some x) h = cc

pub ok-injective {ℓ} : {A : Type ℓ} {a b : A} → ok a ≡ ok b → a ≡ b
ok-injective h = cc

pub panic-ne-ok {ℓ} : {A : Type ℓ} {b : A} → panic ≡ ok b → ⊥
panic-ne-ok h = cc

pub err-ne-ok {ℓ} : {A : Type ℓ} {e : Status} {b : A} → err e ≡ ok b → ⊥
err-ne-ok h = cc
