-- ===== src/EffectParser/Tests.antt =====
-- The declaration `a# -- a#`, whose output matches its input.
use tails.Prelude.{◌≤◌, refl, List, [], ◌∷◌, false, ℕ}
use tails.TypeSet.{exists, add_type, add_all_types, set_input_match, type_flags}
use tails.Value.{same_bytes}
use tails.StackEffect.{StackEffect, net_growth, set_max, check_not_full}
use tails.StackEffect.Laws.{IsValid}
use tails.EffectParser.{
  is_alpha, is_ignored, add_type_symbol, finished_entry, matched_entry, output_entry, finish_input,
  finish_output, end_token, start_token, add_character, separator, parse_character,
  parse_characters, parse_stack_effect,
}
use tails.EffectParser.Laws.{AllExist, parse_stack_effect-IsValid}

abbrev declaration : List ℕ
declaration = b'a' ∷ b'#' ∷ b' ' ∷ b'-' ∷ b'-' ∷ b' ' ∷ b'a' ∷ b'#' ∷ []

abbrev same_number : StackEffect
same_number = record {
  entries = record { flags = 2 } ∷ record { flags = 34 } ∷ [];
  ins = 1;
  outs = 1;
  max_growth = 0;
  weird = false;
}

parse_stack_effect-IsValid_example :
    IsValid same_number
    × (net_growth same_number ≤ same_number.max_growth)
    × AllExist same_number.entries
unfolding is_alpha is_ignored add_type_symbol finished_entry matched_entry output_entry finish_input
    finish_output end_token start_token add_character separator parse_character parse_characters
    parse_stack_effect exists add_type add_all_types set_input_match type_flags same_bytes
    net_growth set_max check_not_full
parse_stack_effect-IsValid_example = parse_stack_effect-IsValid declaration same_number refl
