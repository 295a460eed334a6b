-- ===== src/Value/Arithmetic.antt =====
-- The operators of `Value` in src/values/value.cc, over the processor's arithmetic on doubles,
-- which is a parameter: a double is its 64 bits.
pub mod Laws
pub mod Coherent
pub mod Order
use mathlib.Core.List.{List, [], ◌∷◌, ◌++◌}
use tails.Prelude.{ℕ, suc, Bool, true, false, not, ◌||◌, ltb, ◌==◌, if◌then◌else◌, length}
use tails.Prelude.Int.{ℤ, is_zero, rem}
use tails.TypeSet.{Comparison, same, greater, less, type_index}
use tails.NanTagged.{is_nan}
use tails.Value.{Value, Values, null, number, string, array, quote, nil, cons, type_of}

-- What the machine does: its arithmetic on doubles, and the value that its memory holds in each place
-- above the top of a stack, of which nothing is known.
pub record Fpu : Type 0 where
  pub add : ℕ → ℕ → ℕ
  pub sub : ℕ → ℕ → ℕ
  pub mul : ℕ → ℕ → ℕ
  pub div : ℕ → ℕ → ℕ
  pub equal : ℕ → ℕ → Bool
  pub below : ℕ → ℕ → Bool
  pub of_int : ℤ → ℕ
  pub to_int : ℕ → ℤ
  pub stale : List Value → ℕ → Value

-- The double 1.0 and both zeros.
abbrev pub one_bits : ℕ
one_bits = 0x3ff0000000000000

abbrev pub minus_zero : ℕ
minus_zero = 0x8000000000000000

-- `Value(double)`: a NaN becomes null.
unfoldable pub of_double : ℕ → Value
of_double d = if is_nan d then null else number d

unfoldable pub is_number : Value → Bool
is_number (number d) = true
is_number _ = false

-- `asDouble()`: of a value that is no number the bits are those of a NaN.
abbrev pub nan_bits : ℕ
nan_bits = 0x7ffc000000000000

unfoldable pub as_double : Value → ℕ
as_double (number d) = d
as_double _ = nan_bits

-- `operator bool`
unfoldable pub truthy : Value → Bool
truthy null = false
truthy (number d) = not (d == 0 || d == minus_zero)
truthy _ = true

unfoldable pub append_value : Values → Value → Values
append_value nil v = cons v nil
append_value (cons w ws) v = cons w (append_value ws v)

unfoldable pub values_length : Values → ℕ
values_length nil = 0
values_length (cons v vs) = suc (values_length vs)

-- `length()`, with the conversion of a `size_t`.
unfoldable pub value_length : (ℕ → ℕ) → Value → Value
unfolding of_double
value_length of_size (string s) = of_double (of_size (length s))
value_length of_size (array a) = of_double (of_size (values_length a))
value_length of_size _ = null

-- `string_view::compare`: byte by byte, then by length.
unfoldable pub compare_bytes : List ℕ → List ℕ → Comparison
compare_bytes [] [] = same
compare_bytes [] (_ ∷ _) = less
compare_bytes (_ ∷ _) [] = greater
compare_bytes (a ∷ s) (b ∷ t) =
    let rest = compare_bytes s t in if a == b then rest else if ltb a b then less else greater

-- `_cmp` of src/core/utils.hh on numbers, here lengths and addresses.
unfoldable pub cmp_ℕ : ℕ → ℕ → Comparison
cmp_ℕ a b = if a == b then same else if ltb a b then less else greater

module _ (fpu : Fpu) where
  open fpu use {add, sub, mul, div, equal, below, of_int, to_int}

  -- `_cmp` on doubles.
  unfoldable pub cmp_double : ℕ → ℕ → Comparison
  cmp_double a b = if equal a b then same else if below a b then less else greater

  -- `cmp`: the sign of its result. Values of different types are ordered by their types.
  unfoldable mutual
    pub compare_values : Value → Value → Comparison
    compare_values null null = same
    compare_values (number d) (number e) = cmp_double d e
    compare_values (string s) (string t) = compare_bytes s t
    compare_values (array a) (array b) = compare_arrays a b
    compare_values (quote q) (quote r) = cmp_ℕ q r
    compare_values v w = cmp_ℕ (type_index (type_of v)) (type_index (type_of w))

    -- The first items that differ decide, then the sizes.
    pub compare_arrays : Values → Values → Comparison
    compare_arrays nil nil = same
    compare_arrays nil (cons _ _) = less
    compare_arrays (cons _ _) nil = greater
    compare_arrays (cons v vs) (cons w ws) =
        let rest = compare_arrays vs ws in
        elim (compare_values v w) [ same ↦ rest | greater ↦ greater | less ↦ less ]

  -- `operator+`: addition if either operand is a number, else concatenation or one more item.
  unfoldable pub plus_other : Value → Value → Value
  plus_other (string s) (string t) = string (s ++ t)
  plus_other (array a) v = array (append_value a v)
  plus_other _ _ = null

  unfoldable pub plus_value : Value → Value → Value
  unfolding is_number as_double of_double plus_other
  plus_value v w =
      if is_number v || is_number w
      then of_double (add (as_double v) (as_double w))
      else plus_other v w

  unfoldable pub minus_value : Value → Value → Value
  unfolding as_double of_double
  minus_value v w = of_double (sub (as_double v) (as_double w))

  unfoldable pub times_value : Value → Value → Value
  unfolding as_double of_double
  times_value v w = of_double (mul (as_double v) (as_double w))

  unfoldable pub divide_value : Value → Value → Value
  unfolding as_double of_double
  divide_value v w = of_double (div (as_double v) (as_double w))

  -- `operator%`, on the integer parts.
  unfoldable pub mod_value : Value → Value → Value
  mod_value (number d) (number e) =
      if is_zero (to_int e) then null else number (of_int (rem (to_int d) (to_int e)))
  mod_value _ _ = null
