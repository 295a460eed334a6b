-- ===== src/Vm.antt =====
-- The interpreter: the native words of src/core/core_words.cc over the instructions and the `call`
-- of src/core/instruction.hh. An `Instruction` is a union, here a data type: to read it as another
-- of its members is a fault, as is a jump out of the array or a read below the stack, all of which
-- C++ leaves undefined. The stack is a list, its top first. A word's code is found by its number
-- in `code`. Each instruction that runs takes one unit of fuel. DEFINE, which changes the
-- vocabulary, is a fault here.
pub mod Effects
mod Tests
pub mod Run
pub mod Words
use tails.Prelude.{
  ℕ, zero, suc, ◌+◌, ◌-◌, ◌≡◌, Bool, true, false, not, List, [], ◌∷◌, Option, none, some, ltb, leb,
  ◌==◌, if◌then◌else◌, length, get_elem?,
}
use tails.Prelude.Int.{ℤ, pos, negsuc}
use tails.TypeSet.{Comparison, same, greater, less}
use tails.Value.{Value, null, number, quote, same_value}
use tails.Value.Arithmetic.{
  Fpu, one_bits, truthy, value_length, compare_values, plus_value, minus_value, times_value,
  divide_value, mod_value,
}
use tails.Word.{Native}

pub data Instruction : Type 0 where
  op : Native → Instruction
  word : ℕ → Instruction
  offset : ℤ → Instruction
  literal : Value → Instruction

pub data Outcome : Type 0 where
  done : List Value → Outcome
  fault out_of_fuel : Outcome

abbrev pub number_of : Bool → Value
number_of true = number one_bits
number_of false = number 0

abbrev pub is_same : Comparison → Bool
is_same same = true
is_same _ = false

abbrev pub is_greater : Comparison → Bool
is_greater greater = true
is_greater _ = false

abbrev pub is_less : Comparison → Bool
is_less less = true
is_less _ = false

-- The program counter after `pc += o`.
unfoldable pub moved : ℕ → ℤ → Option ℕ
moved pc (pos n) = some (pc + n)
moved pc (negsuc n) = if ltb n pc then some (pc - suc n) else none

module _ (fpu : Fpu) where
  -- The operators of `BINARY_OP_WORD`, on `sp[-1]` and `sp[0]`.
  unfoldable pub binary_op : Native → Value → Value → Option Value
  binary_op Native.plus v w = some (plus_value fpu v w)
  binary_op Native.minus v w = some (minus_value fpu v w)
  binary_op Native.mult v w = some (times_value fpu v w)
  binary_op Native.div v w = some (divide_value fpu v w)
  binary_op Native.mod_word v w = some (mod_value fpu v w)
  binary_op Native.eq v w = some (number_of (same_value v w))
  binary_op Native.ne v w = some (number_of (not (same_value v w)))
  binary_op Native.gt v w = some (number_of (is_greater (compare_values fpu v w)))
  binary_op Native.ge v w = some (number_of (not (is_less (compare_values fpu v w))))
  binary_op Native.lt v w = some (number_of (is_less (compare_values fpu v w)))
  binary_op Native.le v w = some (number_of (not (is_greater (compare_values fpu v w))))
  binary_op _ v w = none

  unfoldable pub unary_op : Native → Value → Option Value
  unary_op Native.eq_zero v = some (number_of (same_value v (number 0)))
  unary_op Native.ne_zero v = some (number_of (not (same_value v (number 0))))
  unary_op Native.gt_zero v = some (number_of (is_greater (compare_values fpu v (number 0))))
  unary_op Native.lt_zero v = some (number_of (is_less (compare_values fpu v (number 0))))
  unary_op Native.length_word v = some (value_length (λ n. fpu.of_int (pos n)) v)
  unary_op _ v = none

  unfoldable pub apply_unary : Native → List Value → Option (List Value)
  apply_unary n [] = none
  apply_unary n (v ∷ s) = elim (unary_op n v) [ some r ↦ some (r ∷ s) | none ↦ none ]

  unfoldable pub apply_binary : Native → List Value → Option (List Value)
  apply_binary n (w ∷ v ∷ s) = elim (binary_op n v w) [ some r ↦ some (r ∷ s) | none ↦ none ]
  apply_binary n _ = none

  -- The bodies of the words that only change the stack.
  unfoldable pub apply_native : Native → List Value → Option (List Value)
  apply_native Native.nop s = some s
  apply_native Native.dup (v ∷ s) = some (v ∷ v ∷ s)
  apply_native Native.drop (v ∷ s) = some s
  apply_native Native.swap (w ∷ v ∷ s) = some (v ∷ w ∷ s)
  apply_native Native.over (w ∷ v ∷ s) = some (v ∷ w ∷ v ∷ s)
  apply_native Native.rot (w ∷ v ∷ u ∷ s) = some (u ∷ w ∷ v ∷ s)
  apply_native Native.push_zero s = some (number 0 ∷ s)
  apply_native Native.push_one s = some (number one_bits ∷ s)
  apply_native Native.push_null s = some (null ∷ s)
  apply_native Native.plus s = apply_binary Native.plus s
  apply_native Native.minus s = apply_binary Native.minus s
  apply_native Native.mult s = apply_binary Native.mult s
  apply_native Native.div s = apply_binary Native.div s
  apply_native Native.mod_word s = apply_binary Native.mod_word s
  apply_native Native.eq s = apply_binary Native.eq s
  apply_native Native.ne s = apply_binary Native.ne s
  apply_native Native.gt s = apply_binary Native.gt s
  apply_native Native.ge s = apply_binary Native.ge s
  apply_native Native.lt s = apply_binary Native.lt s
  apply_native Native.le s = apply_binary Native.le s
  apply_native Native.eq_zero s = apply_unary Native.eq_zero s
  apply_native Native.ne_zero s = apply_unary Native.ne_zero s
  apply_native Native.gt_zero s = apply_unary Native.gt_zero s
  apply_native Native.lt_zero s = apply_unary Native.lt_zero s
  apply_native Native.length_word s = apply_unary Native.length_word s
  apply_native _ s = none
