-- ===== src/Value/Tests.antt =====
-- Two values compared, and arithmetic on an array.
use tails.Prelude.{
  ◌⊎◌, ◌≢◌, false, ℕ, ◌+◌, ◌-◌, ◌*◌, ◌/◌, ◌≡◌, refl, ◌↔◌, true, ◌||◌, ◌==◌, ltb, if◌then◌else◌,
}
use tails.Prelude.Int.{pos, magnitude}
use tails.NanTagged.{is_nan}
use tails.Value.Arithmetic.{
  compare_values, compare_arrays, cmp_double, cmp_ℕ, Fpu, nan_bits, is_number, plus_value,
  minus_value, times_value, divide_value, mod_value,
}
use tails.Value.Arithmetic.Laws.{Propagates, PropagatesNan, arithmetic-null}
use tails.TypeSet.{same, greater}
use tails.Value.Arithmetic.Coherent.{flip}
use tails.Value.Arithmetic.Order.{HasNoNan, HaveNoNan, compare_values-order}
use tails.Value.{type_of, Value, array, number, null, cons, nil, same_value}
use tails.Value.Laws.{same_value_iff}

abbrev pair : Value
pair = array (cons (number 7) (cons null nil))

same_value_iff_example : (same_value pair (number 7) ≡ true) ↔ (pair ≡ number 7)
same_value_iff_example = same_value_iff pair (number 7)

-- A processor that gives a NaN for a NaN, and else the given result.
abbrev guarded : (ℕ → ℕ → ℕ) → ℕ → ℕ → ℕ
guarded f d e = if is_nan d || is_nan e then nan_bits else f d e

abbrev careful : Fpu
careful = record {
  add = guarded (◌+◌);
  sub = guarded (◌-◌);
  mul = guarded (◌*◌);
  div = guarded (◌/◌);
  equal = ◌==◌;
  below = ltb;
  of_int = magnitude;
  to_int = pos;
  stale = λ s i. null;
}

guarded-Propagates : (f : ℕ → ℕ → ℕ) → Propagates (guarded f)
unfolding is_nan
guarded-Propagates f d e h = rw h refl

careful-PropagatesNan : PropagatesNan careful
careful-PropagatesNan = record {
  of_add = guarded-Propagates (◌+◌);
  of_sub = guarded-Propagates (◌-◌);
  of_mul = guarded-Propagates (◌*◌);
  of_div = guarded-Propagates (◌/◌);
}

arithmetic-null_example :
    (minus_value careful pair (number 7) ≡ null)
    × (times_value careful pair (number 7) ≡ null)
    × (divide_value careful pair (number 7) ≡ null)
    × (mod_value careful pair (number 7) ≡ null)
    × ((is_number pair || is_number (number 7)) ≡ true → plus_value careful pair (number 7) ≡ null)
unfolding is_number
arithmetic-null_example = arithmetic-null careful pair (number 7) careful-PropagatesNan refl

careful_order :
    (d e : ℕ)
    → is_nan d ≡ false
    → is_nan e ≡ false
    → (careful.equal d e ≡ (d == e)) × (careful.below d e ≡ ltb d e)
careful_order d e p q = (refl, refl)

abbrev shorter : Value
shorter = array (cons (number 7) nil)

abbrev greater_array : Value
greater_array = array (cons (number 7) (cons (number 3) nil))

compare_values-order_example :
    (compare_values careful shorter shorter ≡ same)
    × (compare_values careful pair shorter ≡ flip (compare_values careful shorter pair))
    × ((compare_values careful shorter pair ≡ greater)
        ⊎ (compare_values careful pair greater_array ≡ greater)
        ⊎ (compare_values careful shorter greater_array ≢ greater))
unfolding is_nan HasNoNan HaveNoNan compare_values compare_arrays cmp_double cmp_ℕ type_of
compare_values-order_example =
    compare_values-order careful (λ d. d) careful_order shorter pair greater_array (refl, tt)
      (refl, (tt, tt)) (refl, (refl, tt))
