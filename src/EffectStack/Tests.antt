-- ===== src/EffectStack/Tests.antt =====
-- Runs of `EffectStack` on small stacks.
use tails.Prelude.{ℕ, ◌≡◌, ◌≢◌, ◌<◌, ◌⊎◌, refl, false, List, [], ◌∷◌, length}
use tails.TypeSet.{
  ValueType, TypeSet, first_type, first_type_among, type_flags, input_match, can_be_type, ◌∖◌,
  a_string,
}
use tails.Result.{ok, err, would_underflow, inconsistent_depth, type_mismatch}
use tails.StackEffect.{inputs, outputs, input_count}
use tails.Value.{Value, number, type_of}
use tails.EffectStack.{
  types, EffectStack, item_types, type_check, output_item, add_effect, merge_with,
}
use tails.EffectStack.Laws.{Accepts, Honours}
use tails.EffectStack.Fits.{Fits, Covers}
use tails.EffectStack.Apply.{Mismatch, add_effect-Fits, add_effect-refused, merge_with-total}
use tails.Word.{Native, core_effect}

abbrev a_num : TypeSet
a_num = record { flags = 2 }

abbrev a_str : TypeSet
a_str = record { flags = 4 }

abbrev one_num : EffectStack
one_num = record { stack = types a_num ∷ []; initial_depth = 1; max_depth = 1 }

abbrev one_str : EffectStack
one_str = record { stack = types a_str ∷ []; initial_depth = 1; max_depth = 1 }

abbrev two_nums : EffectStack
two_nums = record { stack = types a_num ∷ types a_num ∷ []; initial_depth = 1; max_depth = 2 }

add_effect-Fits_example :
    Accepts (number 7 ∷ []) (inputs (core_effect Native.dup))
    × ((vs' : List Value)
        → Honours (core_effect Native.dup) (number 7 ∷ []) vs'
        → Fits vs' two_nums.stack)
unfolding add_effect output_item type_check inputs outputs input_count core_effect first_type
    first_type_among type_flags input_match item_types ◌∖◌ can_be_type type_of
add_effect-Fits_example =
    add_effect-Fits (core_effect Native.dup) one_num two_nums (number 7 ∷ []) refl (refl, tt)

add_effect-refused_example :
    ((type_mismatch a_string 0 ≡ would_underflow) × (1 < 1))
    ⊎ ((bad : ValueType) × (k : ℕ) × (type_mismatch a_string 0 ≡ type_mismatch bad k)
        × Mismatch one_str.stack (a_num ∷ []) bad k)
unfolding add_effect type_check inputs input_count first_type first_type_among item_types ◌∖◌
    can_be_type
add_effect-refused_example =
    add_effect-refused
      (record { entries = a_num ∷ []; ins = 1; outs = 0; max_growth = 0; weird = false }) one_str
      (type_mismatch a_string 0) refl

merge_with-total_example :
    (length one_num.stack ≢ length two_nums.stack
      → merge_with one_num two_nums ≡ err inconsistent_depth)
    × (length one_num.stack ≡ length two_nums.stack
        → (s' : EffectStack) × (merge_with one_num two_nums ≡ ok s')
          × Covers one_num.stack s'.stack
          × Covers two_nums.stack s'.stack)
merge_with-total_example = merge_with-total one_num two_nums
