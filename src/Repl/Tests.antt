-- ===== src/Repl/Tests.antt =====
-- Lines on small stacks and on a large one, where `stod` reads single digits.
use tails.Prelude.{
  ℕ, ◌+◌, ◌-◌, ◌≤◌, ◌<◌, ◌≡◌, refl, some, true, false, ◌&&◌, List, [], ◌∷◌, leb, ◌==◌,
  if◌then◌else◌, reverse,
}
use tails.Prelude.Int.{ℤ}
use tails.Result.{Result, ok, err, Error, ◌>>=◌, too_many_entries}
use tails.StackEffect.{
  StackEffect, empty_effect, inputs, max_entries, set_max, with_max, net_growth, input_count,
  output_count, outputs, insert, add_input, check_not_full, add_output, add_output_at_bottom,
}
use tails.Value.{null, type_of, same_bytes}
use tails.Value.Arithmetic.{Fpu}
use tails.Word.{Word, interpreted, parameters, stack_effect, core_effect}
use tails.EffectStack.Laws.{Accepts}
use tails.Vm.Run.{run}
use tails.Builder.{
  Builder, new_builder, set_input_stack, add, branches_to, push_branch, pop_branch, pop_control,
  fix_branch, parse_begin, parse_while, parse_repeat, push_position, add_branch_back_to, end_words,
  generate_instructions, set_stack_effect, add_inputs,
}
use tails.Vocabulary.Active.{only_core, create, activate, set_current, active_vocabularies}
use tails.Parser.{parse_source, parse, add_token, add_other, store_word}
use tails.Token.{Conversion, invalid_argument, converted, classify, control_token, as_number}
use tails.CompiledWord.{Program, Stored, from_compiler, construct, register}
use tails.Codegen.{
  reads_all, generate, lay_out, assemble, branch_offset, assemble_word, assemble_at, place,
  place_word, place_native, place_interpreted, place_all, retarget, tail_call, follow_branches,
  interp_word, start, parameters_of,
}
use tails.Checker.{
  returns_immediately, compute_effect_from, compute_effect, visit, follow, proceed, apply_word,
  apply_call, next_effect, special_effect, supply_inputs, join, at_return, next_positions, remember,
}
use tails.EffectStack.{
  of_inputs, same_stack, same_items, same_item, merge_with, check_outputs, add_extra_outputs,
  type_check, add_effect, output_item, max_growth, item_types, add_literal,
}
use tails.TypeSet.{
  can_be_type, input_match, first_type, first_type_among, type_flags, of_type, ◌∖◌, exists,
  same_types, compare_sets,
}
use tails.NanTagged.{is_nan}
use tails.Vocabulary.{lookup_active, upper, upper_char}
use tails.Tokenizer.{read_token, read_from, read_general, read_string, skip_whitespace, is_space}
use tails.Repl.{Session, compile_line, eval, outcome_result, take_line, is_compile_error, reported}
use tails.Repl.Compiled.{compile_line-Accepts}
use tails.Repl.Laws.{take_line-cases}

abbrev digits : List ℕ → Conversion
digits (c ∷ []) = if leb b'0' c && leb c b'9' then converted (c - b'0') 1 else invalid_argument
digits _ = invalid_argument

abbrev program : Program
program = record {
  memory = record {
    count = 0;
    code_of = λ k. [];
    effect_of = λ k. empty_effect;
    is_recursive = λ k. false;
  };
  vocabularies = set_current (some 1) (activate 1 (create [] (only_core [])));
}

abbrev word_at : ℕ → Word
word_at i = interpreted i

abbrev instruction_of : ℕ → ℕ
instruction_of k = k

abbrev stored_or : Result Stored → Stored
stored_or (ok w) = w
stored_or (err _) = record { word = 0; program = program }

-- 7, on a stack of null.
abbrev line : List ℕ
line = b'7' ∷ []

abbrev compiled : Stored
compiled = stored_or (compile_line digits word_at instruction_of 9 line (null ∷ []) program)

-- A processor without doubles, which no test needs.
abbrev no_doubles : Fpu
no_doubles = record {
  add = λ a b. 0;
  sub = λ a b. 0;
  mul = λ a b. 0;
  div = λ a b. 0;
  equal = λ a b. a == b;
  below = λ a b. false;
  of_int = λ i. 0;
  to_int = λ d. ℤ.pos 0;
  stale = λ s i. null;
}

compile_line-Accepts_example :
    Accepts (null ∷ []) (inputs (compiled.program.memory.effect_of compiled.word))
    × (StackEffect.ins (compiled.program.memory.effect_of compiled.word) ≡ 1)
    × (1 + StackEffect.outs (compiled.program.memory.effect_of compiled.word) ≤ max_entries)
    × (eval digits word_at instruction_of 9 no_doubles line (null ∷ []) program ≡ (
        outcome_result (
          run no_doubles compiled.program.memory.code_of 9
            (compiled.program.memory.code_of compiled.word)
            0
            (null ∷ []))
        >>= λ s'. ok (s', compiled.program)))
unfolding generate reads_all lay_out assemble branch_offset assemble_word assemble_at place
    place_word place_native place_interpreted place_all retarget tail_call follow_branches
    interp_word start parameters_of parameters returns_immediately compute_effect_from
    compute_effect visit follow proceed apply_word apply_call next_effect special_effect
    supply_inputs join at_return next_positions remember of_inputs same_stack same_items same_item
    merge_with check_outputs add_extra_outputs type_check add_effect output_item max_growth set_max
    with_max net_growth input_count output_count inputs outputs stack_effect core_effect can_be_type
    input_match first_type first_type_among type_flags type_of of_type item_types ◌∖◌ add_literal
    exists same_types compare_sets new_builder add branches_to push_branch pop_branch pop_control
    fix_branch parse_begin parse_while parse_repeat push_position add_branch_back_to end_words
    generate_instructions set_stack_effect compile_line insert add_input check_not_full
    set_input_stack add_inputs same_bytes is_nan set_current activate create only_core
    active_vocabularies parse_source parse add_token add_other lookup_active classify control_token
    as_number read_token read_from read_general read_string skip_whitespace is_space upper
    upper_char from_compiler construct register store_word add_output add_output_at_bottom
compile_line-Accepts_example =
    compile_line-Accepts no_doubles digits word_at instruction_of 9 line (null ∷ []) program
      compiled refl

-- Nine values.
abbrev nine : Session
nine = record {
  stack = null ∷ null ∷ null ∷ null ∷ null ∷ null ∷ null ∷ null ∷ null ∷ [];
  program = program;
  shown = [];
}

abbrev number_text : ℕ → List ℕ
number_text d = b'7' ∷ []

take_line-cases_example :
    (max_entries < 9
      → take_line no_doubles number_text digits word_at instruction_of 9 line nine
        ≡ err too_many_entries)
    × (9 ≤ max_entries → (b : Builder) × (set_input_stack (reverse nine.stack) new_builder ≡ ok b))
    × ((e : Error)
        → eval digits word_at instruction_of 9 no_doubles line nine.stack program ≡ err e
        → is_compile_error e ≡ true
        → (after : Session) × (take_line no_doubles number_text digits word_at instruction_of 9 line
              nine
            ≡ ok after)
          × (after.stack ≡ nine.stack)
          × (after.program ≡ program)
          × (after.shown ≡ reported e ∷ []))
    × ((after : Session) × (take_line no_doubles number_text digits word_at instruction_of 9 [] nine
          ≡ ok after)
        × (after.stack ≡ [])
        × (after.program ≡ program))
take_line-cases_example =
    take_line-cases no_doubles number_text digits word_at instruction_of 9 b'7' [] nine
