-- ===== src/Vm/Words/Laws.antt =====
-- What ABS, MAX and MIN leave, run by the interpreter.
use tails.Prelude.{ℕ, suc, ◌≡◌, refl, Bool, true, false, List, ◌∷◌, if◌then◌else◌}
use tails.Word.{Native}
use tails.Value.{Value, number}
use tails.Value.Arithmetic.{
  Fpu, compare_values, minus_value, of_double, as_double, cmp_double, truthy,
}
use tails.Vm.{
  Instruction, done, is_less, is_greater, apply_native, apply_binary, apply_unary, binary_op,
  unary_op, number_of, moved,
}
use tails.Vm.Run.{run, fetch, native_word, go_on, do_zbranch, jump_by}
use tails.Vm.Words.{abs_code, max_code, min_code, choose}

-- Fuel for seven turns.
abbrev pub seven_more : ℕ → ℕ
seven_more n = suc (suc (suc (suc (suc (suc (suc n))))))

module _ (fpu : Fpu) (code : ℕ → List Instruction) (fuel : ℕ) where
  -- The code of MAX and MIN behind its comparison.
  chosen :
      (n : Native) (b : Bool) (w v : Value) (s : List Value)
      → run fpu code (suc (suc (suc (suc fuel)))) (choose n) 3 (number_of b ∷ w ∷ v ∷ s)
        ≡ done ((if b then w else v) ∷ s)
  unfolding run fetch native_word go_on do_zbranch jump_by apply_native moved truthy
  chosen n true w v s = refl
  chosen n false w v s = refl

  max_code-run :
      (w v : Value) (s : List Value)
      → run fpu code (seven_more fuel) max_code 0 (w ∷ v ∷ s)
        ≡ done ((if is_less (compare_values fpu v w) then w else v) ∷ s)
  unfolding run fetch native_word go_on apply_native apply_binary binary_op max_code
  max_code-run w v s = chosen Native.lt (is_less (compare_values fpu v w)) w v s

  min_code-run :
      (w v : Value) (s : List Value)
      → run fpu code (seven_more fuel) min_code 0 (w ∷ v ∷ s)
        ≡ done ((if is_greater (compare_values fpu v w) then w else v) ∷ s)
  unfolding run fetch native_word go_on apply_native apply_binary binary_op min_code
  min_code-run w v s = chosen Native.gt (is_greater (compare_values fpu v w)) w v s

  absolute :
      (b : Bool) (d : ℕ) (s : List Value)
      → run fpu code (suc (suc (suc (suc (suc fuel))))) abs_code 2 (number_of b ∷ number d ∷ s)
        ≡ done ((if b then of_double (fpu.sub 0 d) else number d) ∷ s)
  unfolding run fetch native_word go_on do_zbranch jump_by apply_native apply_binary binary_op moved
      truthy abs_code minus_value as_double
  absolute true d s = refl
  absolute false d s = refl

  abs_code-run :
      (d : ℕ) (s : List Value)
      → run fpu code (seven_more fuel) abs_code 0 (number d ∷ s)
        ≡ done ((if is_less (cmp_double fpu d 0) then of_double (fpu.sub 0 d) else number d) ∷ s)
  unfolding run fetch native_word go_on apply_native apply_unary unary_op abs_code compare_values
  abs_code-run d s = absolute (is_less (cmp_double fpu d 0)) d s

-- With seven turns of fuel or more, whatever the vocabulary holds: MAX and MIN of two values leave
-- the greater and the less of them as `cmp` orders them, the lower one where they are the same, and
-- ABS of a number leaves 0 minus it where it is below 0 and else the number itself.
pub abs_max_min :
    (fpu : Fpu) (code : ℕ → List Instruction) (fuel d : ℕ) (w v : Value) (s : List Value)
    → (run fpu code (seven_more fuel) max_code 0 (w ∷ v ∷ s)
        ≡ done ((if is_less (compare_values fpu v w) then w else v) ∷ s))
      × (run fpu code (seven_more fuel) min_code 0 (w ∷ v ∷ s)
          ≡ done ((if is_greater (compare_values fpu v w) then w else v) ∷ s))
      × (run fpu code (seven_more fuel) abs_code 0 (number d ∷ s)
          ≡ done ((if is_less (cmp_double fpu d 0) then of_double (fpu.sub 0 d) else number d) ∷ s))
abs_max_min fpu code fuel d w v s = (
  max_code-run fpu code fuel w v s,
  min_code-run fpu code fuel w v s,
  abs_code-run fpu code fuel d s,
)
