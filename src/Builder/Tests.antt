-- ===== src/Builder/Tests.antt =====
-- IF 1 ELSE 0 THEN, and a word that ends in REPEAT.
use tails.Prelude.{
  ℕ, ◌≡◌, ◌<◌, refl, true, false, List, [], ◌∷◌, none, some, arith, ◌==◌, if◌then◌else◌,
}
use tails.Prelude.Int.{ℤ, pos}
use tails.TypeSet.{
  first_type, first_type_among, ◌∖◌, exists, same_types, compare_sets, TypeSet, of_type, type_flags,
  can_be_type, input_match,
}
use tails.Result.{invalid_access, Result, ok, err}
use tails.StackEffect.{
  StackEffect, empty_effect, set_max, with_max, net_growth, input_count, output_count, inputs,
  outputs,
}
use tails.Value.{Value, null, type_of}
use tails.Word.{Native, native, core_effect, stack_effect, parameters}
use tails.EffectStack.{
  of_inputs, same_stack, same_items, same_item, merge_with, check_outputs, add_extra_outputs,
  type_check, add_effect, output_item, max_growth, item_types, add_literal,
}
use tails.Checker.{
  compute_effect, visit, follow, proceed, apply_word, apply_call, next_effect, special_effect,
  supply_inputs, join, at_return, next_positions, remember, Checker, compute_effect_from,
  returns_immediately,
}
use tails.Vm.{Instruction, op, offset}
use tails.Codegen.{
  reads_all, lay_out, generate, assemble, branch_offset, assemble_word, assemble_at, place,
  place_word, place_native, place_interpreted, place_all, retarget, tail_call, follow_branches,
  interp_word, start, parameters_of,
}
use tails.Builder.{
  Builder, simple_word, new_builder, add, branches_to, push_branch, pop_branch, pop_control,
  fix_branch, parse_if, parse_else, parse_then, end_words, generate_instructions, set_stack_effect,
  parse_begin, parse_while, parse_repeat, push_position, add_branch_back_to,
}
use tails.Builder.Steps.{Compiles, created, declared, added, at_if, at_else, at_then}
use tails.Value.Arithmetic.{Fpu}
use tails.Builder.Finish.{Compiles-resolved}

abbrev builder_or : Builder → Result Builder → Builder
builder_or b (ok c) = c
builder_or b (err _) = b

abbrev a_num : TypeSet
a_num = record { flags = 2 }

abbrev num_to_num : StackEffect
num_to_num = record {
  entries = a_num ∷ a_num ∷ [];
  ins = 1;
  outs = 1;
  max_growth = 0;
  weird = false;
}

abbrev no_words : ℕ → StackEffect
no_words k = empty_effect

abbrev then_one : Builder
then_one =
    add (simple_word (native Native.push_one) null)
      (parse_if (set_stack_effect num_to_num false false new_builder))

abbrev else_zero : Builder
else_zero =
    add (simple_word (native Native.push_zero) null) (builder_or new_builder (parse_else then_one))

abbrev choice : Builder
choice = builder_or new_builder (parse_then else_zero)

choice_code :
    generate_instructions no_words 20 choice
    ≡ ok (
      op Native.zbranch
          ∷ offset (pos 3)
          ∷ op Native.push_one
          ∷ op Native.branch
          ∷ offset (pos 1)
          ∷ op Native.push_zero
          ∷ op Native.ret
          ∷ [],
      false,
      num_to_num,
    )
unfolding generate reads_all lay_out assemble branch_offset assemble_word assemble_at place
    place_word place_native place_interpreted place_all retarget tail_call follow_branches
    interp_word start parameters_of parameters returns_immediately compute_effect_from
    compute_effect visit follow proceed apply_word apply_call next_effect special_effect
    supply_inputs join at_return next_positions remember of_inputs same_stack same_items same_item
    merge_with check_outputs add_extra_outputs type_check add_effect output_item max_growth set_max
    with_max net_growth input_count output_count inputs outputs stack_effect core_effect can_be_type
    input_match first_type first_type_among type_flags type_of of_type item_types ◌∖◌ add_literal
    exists same_types compare_sets new_builder add branches_to push_branch pop_branch pop_control
    fix_branch parse_if parse_else parse_then end_words generate_instructions set_stack_effect
choice_code = refl

-- BEGIN 1 WHILE REPEAT: the flag of the last word is lost, so that RETURN is dropped after BRANCH, and
-- the branch of WHILE to it reads an erased word.
abbrev endless : Builder
endless = builder_or new_builder (
    parse_repeat (
      builder_or new_builder (
        parse_while (
          add (simple_word (native Native.push_one) null)
            (parse_begin (set_stack_effect empty_effect false false new_builder))))))

endless_code : generate_instructions no_words 20 endless ≡ err invalid_access
unfolding generate reads_all lay_out assemble branch_offset assemble_word assemble_at place
    place_word place_native place_interpreted place_all retarget tail_call follow_branches
    interp_word start parameters_of parameters returns_immediately compute_effect_from
    compute_effect visit follow proceed apply_word apply_call next_effect special_effect
    supply_inputs join at_return next_positions remember of_inputs same_stack same_items same_item
    merge_with check_outputs add_extra_outputs type_check add_effect output_item max_growth set_max
    with_max net_growth input_count output_count inputs outputs stack_effect core_effect can_be_type
    input_match first_type first_type_among type_flags type_of of_type item_types ◌∖◌ add_literal
    exists same_types compare_sets new_builder add branches_to push_branch pop_branch pop_control
    fix_branch parse_begin parse_while parse_repeat push_position add_branch_back_to end_words
    generate_instructions set_stack_effect
endless_code = refl

-- IF ELSE THEN for ( # -- ): the branch of ELSE stands before the end, so that RETURN is dropped, and
-- both branches go to it.
abbrev nothing_chosen : Builder
nothing_chosen = builder_or new_builder (
    parse_then (
      builder_or new_builder (
        parse_else (
          parse_if (
            set_stack_effect
              (record { entries = a_num ∷ []; ins = 1; outs = 0; max_growth = 0; weird = false })
              false false new_builder)))))

nothing_chosen_code : generate_instructions no_words 20 nothing_chosen ≡ err invalid_access
unfolding generate reads_all lay_out assemble branch_offset assemble_word assemble_at place
    place_word place_native place_interpreted place_all retarget tail_call follow_branches
    interp_word start parameters_of parameters returns_immediately compute_effect_from
    compute_effect visit follow proceed apply_word apply_call next_effect special_effect
    supply_inputs join at_return next_positions remember of_inputs same_stack same_items same_item
    merge_with check_outputs add_extra_outputs type_check add_effect output_item max_growth set_max
    with_max net_growth input_count output_count inputs outputs stack_effect core_effect can_be_type
    input_match first_type first_type_among type_flags type_of of_type item_types ◌∖◌ add_literal
    exists same_types compare_sets new_builder add branches_to push_branch pop_branch pop_control
    fix_branch parse_if parse_else parse_then end_words generate_instructions set_stack_effect
nothing_chosen_code = refl

choice-Compiles : Compiles choice
unfolding parameters_of parameters parse_else parse_then pop_branch pop_control new_builder add
    branches_to push_branch fix_branch parse_if set_stack_effect
choice-Compiles =
    at_then
      (added (simple_word (native Native.push_zero) null)
        (at_else
          (added (simple_word (native Native.push_one) null)
            (at_if (declared num_to_num false false created)) (refl, refl, (λ e. cc), omega arith))
          refl)
        (refl, refl, (λ e. cc), omega arith))
      refl

Compiles-resolved_example : (t : ℕ) × (some 4 ≡ some t) × (t < 5) × (choice.is_destination t ≡ true)
unfolding parse_else parse_then pop_branch pop_control new_builder add branches_to push_branch
    fix_branch parse_if set_stack_effect
Compiles-resolved_example =
    Compiles-resolved choice choice-Compiles refl 2
      (record { word = native Native.branch; param = null; branch_to = some 4 }) refl refl

abbrev height : ℕ → ℕ
height i = if i == 2 then 1 else 0

abbrev choice_checked : Result Checker
choice_checked =
    compute_effect_from no_words (end_words choice).words false 20 num_to_num false false

abbrev unchecked : Checker
unchecked = record {
  effect = empty_effect;
  can_add_inputs = false;
  can_add_outputs = false;
  known = λ i. none;
}

abbrev checker_or : Checker → Result Checker → Checker
checker_or c (ok d) = d
checker_or c (err _) = c

abbrev no_doubles : Fpu
no_doubles = record {
  add = λ a b. 0;
  sub = λ a b. 0;
  mul = λ a b. 0;
  div = λ a b. 0;
  equal = λ a b. a == b;
  below = λ a b. false;
  of_int = λ i. 0;
  to_int = λ d. ℤ.pos 0;
  stale = λ s i. null;
}

abbrev no_code : ℕ → List Instruction
no_code k = []
