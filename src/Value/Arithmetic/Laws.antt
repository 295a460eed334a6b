-- ===== src/Value/Arithmetic/Laws.antt =====
-- What the arithmetic operators make of values that are no numbers.
use tails.Prelude.{ℕ, ◌≡◌, refl, Bool, true, false, ◌&&◌, ◌||◌}
use tails.NanTagged.{is_nan}
use tails.Value.{Value, null, number, string, array, quote}
use tails.Value.Arithmetic.{
  Fpu, nan_bits, of_double, as_double, is_number, plus_value, minus_value, times_value,
  divide_value, mod_value,
}

-- An operation on doubles with a NaN gives a NaN, as IEEE 754 has it.
abbrev pub Propagates : (ℕ → ℕ → ℕ) → Type 0
Propagates f = (d e : ℕ) → (is_nan d || is_nan e) ≡ true → is_nan (f d e) ≡ true

pub record PropagatesNan (fpu : Fpu) : Type 0 where
  pub of_add : Propagates fpu.add
  pub of_sub : Propagates fpu.sub
  pub of_mul : Propagates fpu.mul
  pub of_div : Propagates fpu.div

nan_bits-is_nan : is_nan nan_bits ≡ true
unfolding is_nan
nan_bits-is_nan = refl

or_true : (b : Bool) → (b || true) ≡ true
or_true true = refl
or_true false = refl

-- An operand that is no number is a NaN.
operand-is_nan :
    (v w : Value)
    → (is_number v && is_number w) ≡ false
    → (is_nan (as_double v) || is_nan (as_double w)) ≡ true
unfolding is_number as_double is_nan
operand-is_nan (number d) (number e) h = cc
operand-is_nan (number d) null h = or_true (is_nan d)
operand-is_nan (number d) (string s) h = or_true (is_nan d)
operand-is_nan (number d) (array a) h = or_true (is_nan d)
operand-is_nan (number d) (quote q) h = or_true (is_nan d)
operand-is_nan _ w h = refl

-- Its result is null.
operand-null :
    (f : ℕ → ℕ → ℕ) (v w : Value)
    → Propagates f
    → (is_number v && is_number w) ≡ false
    → of_double (f (as_double v) (as_double w)) ≡ null
unfolding of_double
operand-null f v w p h = rw (p (as_double v) (as_double w) (operand-is_nan v w h)) refl

mod_value-null :
    (fpu : Fpu) (v w : Value) → (is_number v && is_number w) ≡ false → mod_value fpu v w ≡ null
unfolding mod_value is_number
mod_value-null fpu (number d) (number e) h = cc
mod_value-null fpu _ _ h = refl

-- On a processor whose operations give a NaN for a NaN, `-`, `*`, `/` and `%` of two values that
-- are not both numbers are null, and so is `+` where one of them is a number: a number is neither
-- joined to a string nor appended to an array.
pub arithmetic-null :
    (fpu : Fpu) (v w : Value)
    → PropagatesNan fpu
    → (is_number v && is_number w) ≡ false
    → (minus_value fpu v w ≡ null)
      × (times_value fpu v w ≡ null)
      × (divide_value fpu v w ≡ null)
      × (mod_value fpu v w ≡ null)
      × ((is_number v || is_number w) ≡ true → plus_value fpu v w ≡ null)
unfolding minus_value times_value divide_value plus_value
arithmetic-null fpu v w p h = (
  operand-null fpu.sub v w p.of_sub h,
  operand-null fpu.mul v w p.of_mul h,
  operand-null fpu.div v w p.of_div h,
  mod_value-null fpu v w h,
  λ e. rw e (operand-null fpu.add v w p.of_add h),
)
