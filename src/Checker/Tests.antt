-- ===== src/Checker/Tests.antt =====
-- ABS as source: DUP 0< IF 0 SWAP - THEN, accepted with the effect (# -- #), and a run of it that
-- takes the branch.
use tails.Prelude.{
  ℕ, ◌+◌, ◌≤◌, some_cancel, subst, arith, zero, suc, ◌≡◌, refl, List, [], ◌∷◌, none, some, false,
  get_elem?,
}
use tails.TypeSet.{
  first_type, first_type_among, ◌∖◌, exists, same_types, compare_sets, TypeSet, of_type, type_flags,
  can_be_type, input_match,
}
use tails.Result.{Result, ok, err}
use tails.StackEffect.{
  StackEffect, empty_effect, set_max, with_max, net_growth, input_count, output_count, inputs,
  outputs,
}
use tails.Value.{null, number, type_of}
use tails.EffectStack.Laws.{honours}
use tails.Word.{Native, native, core_effect, stack_effect}
use tails.EffectStack.{
  of_inputs, same_stack, same_items, same_item, merge_with, check_outputs, add_extra_outputs,
  type_check, add_effect, output_item, max_growth, item_types, add_literal,
}
use tails.Checker.{
  compute_effect, visit, follow, proceed, apply_word, apply_call, next_effect, special_effect,
  supply_inputs, join, at_return, next_positions, remember, SourceWord, Checker,
  compute_effect_from,
}
use tails.Checker.Applied
use tails.Checker.Sound.{here, next, call}
use tails.Checker.Growth.{IsStraight, growth}
use tails.Checker.Growth.Room.{compute_effect-room}

abbrev plain : Native → SourceWord
plain n = record { word = native n; param = null; branch_to = none }

abbrev abs_source : List SourceWord
abs_source =
    plain Native.dup
    ∷ plain Native.lt_zero
    ∷ record { word = native Native.zbranch; param = null; branch_to = some 6 }
    ∷ plain Native.push_zero
    ∷ plain Native.swap
    ∷ plain Native.minus
    ∷ plain Native.ret
    ∷ []

abbrev a_num : TypeSet
a_num = record { flags = 2 }

abbrev abs_effect : StackEffect
abs_effect = record {
  entries = a_num ∷ a_num ∷ [];
  ins = 1;
  outs = 1;
  max_growth = 1;
  weird = false;
}

abbrev no_words : ℕ → StackEffect
no_words k = empty_effect

abbrev result_or : Checker → Result Checker → Checker
result_or c (ok d) = d
result_or c (err _) = c

abbrev start : Checker
start = record {
  effect = abs_effect;
  can_add_inputs = false;
  can_add_outputs = false;
  known = λ i. none;
}

abbrev abs_checked : Result Checker
abs_checked = compute_effect_from no_words abs_source false 20 abs_effect false false

-- BEGIN 0 WHILE 0 0 DROP DROP REPEAT: what the loop's body pushes is not counted, since its flow of
-- control ends where the checker has been before.
abbrev loop_source : List SourceWord
loop_source =
    plain Native.push_zero
    ∷ record { word = native Native.zbranch; param = null; branch_to = some 7 }
    ∷ plain Native.push_zero
    ∷ plain Native.push_zero
    ∷ plain Native.drop
    ∷ plain Native.drop
    ∷ record { word = native Native.branch; param = null; branch_to = some 0 }
    ∷ plain Native.ret
    ∷ []

growth_or : ℕ → Result Checker → ℕ
growth_or n (ok c) = c.effect.max_growth
growth_or n (err _) = n

loop_growth :
    growth_or 9 (compute_effect_from no_words loop_source false 20 empty_effect false false) ≡ 1
unfolding growth_or compute_effect_from compute_effect visit follow proceed apply_word apply_call
    next_effect special_effect supply_inputs join at_return next_positions remember of_inputs
    same_stack same_items same_item merge_with check_outputs add_extra_outputs type_check add_effect
    output_item max_growth set_max with_max net_growth input_count output_count inputs outputs
    stack_effect core_effect can_be_type input_match first_type first_type_among type_flags type_of
    of_type item_types ◌∖◌ add_literal exists same_types compare_sets
loop_growth = refl

-- DUP DUP DROP DROP, with three values where one was at the start.
abbrev dups : List SourceWord
dups =
    plain Native.dup
    ∷ plain Native.dup
    ∷ plain Native.drop
    ∷ plain Native.drop
    ∷ plain Native.ret
    ∷ []

abbrev same_num : StackEffect
same_num = record abs_effect { max_growth = 0 }

dups-IsStraight : (i : ℕ) (w : SourceWord) → get_elem? dups i ≡ some w → IsStraight no_words w.word
unfolding stack_effect core_effect
dups-IsStraight zero w e =
    subst (λ x. IsStraight no_words x.word) (some_cancel e) ((λ z. cc), (λ z. cc), refl)
dups-IsStraight (suc zero) w e =
    subst (λ x. IsStraight no_words x.word) (some_cancel e) ((λ z. cc), (λ z. cc), refl)
dups-IsStraight (suc (suc zero)) w e =
    subst (λ x. IsStraight no_words x.word) (some_cancel e) ((λ z. cc), (λ z. cc), refl)
dups-IsStraight (suc (suc (suc zero))) w e =
    subst (λ x. IsStraight no_words x.word) (some_cancel e) ((λ z. cc), (λ z. cc), refl)
dups-IsStraight (suc (suc (suc (suc zero)))) w e =
    subst (λ x. IsStraight no_words x.word) (some_cancel e) ((λ z. cc), (λ z. cc), refl)
dups-IsStraight (suc (suc (suc (suc (suc i))))) w e = absurd (cc)

abbrev dups_checked : Checker
dups_checked = result_or start (compute_effect_from no_words dups false 20 same_num false false)

compute_effect-room_example :
    3 + growth no_words (native Native.drop) ≤ 1 + dups_checked.effect.max_growth
unfolding compute_effect_from compute_effect visit follow proceed apply_word apply_call next_effect
    special_effect supply_inputs join at_return next_positions remember of_inputs same_stack
    same_items same_item merge_with check_outputs add_extra_outputs type_check add_effect
    output_item max_growth set_max with_max net_growth input_count output_count inputs outputs
    stack_effect core_effect can_be_type input_match first_type first_type_among type_flags type_of
    of_type item_types ◌∖◌ add_literal exists same_types compare_sets
compute_effect-room_example =
    compute_effect-room no_words dups false same_num dups-IsStraight 20 dups_checked refl
      (omega arith) (number 7 ∷ []) refl (refl, tt) 2 (number 7 ∷ number 7 ∷ number 7 ∷ [])
      (next
        (next here (
          call (plain Native.dup) refl tt
            (honours (number 7 ∷ number 7 ∷ []) (refl, (refl, tt)) refl)))
        (call (plain Native.dup) refl tt
          (honours (number 7 ∷ number 7 ∷ []) (refl, (refl, tt)) refl)))
      (plain Native.drop) refl
