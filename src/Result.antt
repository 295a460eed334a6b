-- ===== src/Result.antt =====
-- The exceptions that src/compiler and src/core throw, as a result type. A failed `assert` is
-- `assertion`; `out_of_fuel` is the model's own.
use tails.Prelude.{ℕ, ◌≡◌, refl, Bool, true, false, ◌⊎◌, inl, inr}
use tails.TypeSet.{ValueType}

pub data Error : Type 0 where
  too_many_entries unknown_symbol invalid_separator missing_separator : Error
  would_underflow inconsistent_depth insufficient_outputs too_many_outputs : Error
  type_mismatch output_mismatch : ValueType → ℕ → Error
  recurse_needs_effect recursion_in_inline unknown_effect : Error
  ifelse_needs_quotes ifelse_depths : Error
  ifelse_parameter : ℕ → Error
  no_matching_branch no_matching_begin unfinished_control : Error
  unexpected_delimiter unknown_word magic_word unknown_instruction number_out_of_range : Error
  unfinished_string unfinished_array invalid_array_literal : Error
  missing_paren missing_brace : Error
  assertion invalid_access out_of_fuel : Error

pub data Result {ℓ} (A : Type ℓ) : Type ℓ where
  err : Error → Result A
  ok : A → Result A

-- `if (!test) throw error;`
abbrev pub guard : Bool → Error → Result (Unit {0})
guard false error = err error
guard true error = ok tt

infixl 5 ◌>>=◌ ◌>>◌
abbrev pub ◌>>=◌ {ℓ κ} :
    {A : Type ℓ} {B : Type κ} (first : Result A) (next : A → Result B) → Result B
err error >>= next = err error
ok a >>= next = next a

abbrev pub ◌>>◌ {ℓ} : {B : Type ℓ} → Result (Unit {0}) → Result B → Result B
first >> second = first >>= λ _. second

-- Inversion of a successful bind.
pub >>=-eq-ok {ℓ κ} :
    {A : Type ℓ} {B : Type κ} (first : Result A) (next : A → Result B) {last : B}
    → (first >>= next) ≡ ok last
    → (middle : A) × (first ≡ ok middle) × (next middle ≡ ok last)
>>=-eq-ok (err error) next h = cc
>>=-eq-ok (ok middle) next h = (middle, refl, h)

pub guard-eq-ok : (b : Bool) (e : Error) → guard b e ≡ ok tt → b ≡ true
guard-eq-ok true e h = refl
guard-eq-ok false e h = cc

pub Result-cases {ℓ} :
    {A : Type ℓ} (r : Result A) → ((a : A) × (r ≡ ok a)) ⊎ ((e : Error) × (r ≡ err e))
Result-cases (ok a) = inl (a, refl)
Result-cases (err e) = inr (e, refl)

pub ok-injective {ℓ} : {A : Type ℓ} {a b : A} → ok a ≡ ok b → a ≡ b
ok-injective h = cc
