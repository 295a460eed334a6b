-- ===== src/Codegen/Runs/Tests.antt =====
-- A word that calls another one unless its argument is zero, with a value below its argument.
use tails.Prelude.{ℕ, Bool, false, List, [], ◌∷◌, none, some, ◌==◌}
use tails.Prelude.Int.{ℤ}
use tails.Result.{Result, ok, err}
use tails.TypeSet.{TypeSet}
use tails.StackEffect.{StackEffect, empty_effect}
use tails.EffectStack.{max_growth}
use tails.Value.{Value, null}
use tails.Value.Arithmetic.{Fpu}
use tails.Word.{Native, native, interpreted}
use tails.Checker.{SourceWord, Checker, compute_effect_from}
use tails.Vm.{Instruction, op}
use tails.Codegen.{Layout, lay_out, start}

abbrev a_num : TypeSet
a_num = record { flags = 2 }

abbrev num_to_num : StackEffect
num_to_num = record {
  entries = a_num ∷ a_num ∷ [];
  ins = 1;
  outs = 1;
  max_growth = 1;
  weird = false;
}

abbrev effects : ℕ → StackEffect
effects k = num_to_num

abbrev code_of : ℕ → List Instruction
code_of k = op Native.ret ∷ []

abbrev unless_zero : List SourceWord
unless_zero =
    record { word = native Native.dup; param = null; branch_to = none }
    ∷ record { word = native Native.zbranch; param = null; branch_to = some 3 }
    ∷ record { word = interpreted 7; param = null; branch_to = none }
    ∷ record { word = native Native.ret; param = null; branch_to = none }
    ∷ []

abbrev targets : ℕ → Bool
targets i = i == 3

abbrev rank : ℕ → ℕ
rank i = 0

abbrev checked : Result Checker
checked = compute_effect_from effects unless_zero false 20 num_to_num false false

abbrev unchecked : Checker
unchecked = record {
  effect = empty_effect;
  can_add_inputs = false;
  can_add_outputs = false;
  known = λ i. none;
}

abbrev checker_or : Checker → Result Checker → Checker
checker_or c (ok d) = d
checker_or c (err _) = c

abbrev layout_or : Layout → Result Layout → Layout
layout_or s (ok t) = t
layout_or s (err _) = s

abbrev laid_out : Layout
laid_out = layout_or (start []) (lay_out 1 targets unless_zero)

abbrev no_doubles : Fpu
no_doubles = record {
  add = λ a b. 0;
  sub = λ a b. 0;
  mul = λ a b. 0;
  div = λ a b. 0;
  equal = λ a b. a == b;
  below = λ a b. false;
  of_int = λ i. 0;
  to_int = λ d. ℤ.pos 0;
  stale = λ s i. null;
}
