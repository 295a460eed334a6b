-- ===== src/Parser/Tests.antt =====
-- The source IF 7 ELSE 8 THEN, where `stod` reads
-- single digits.
use tails.Prelude.{
  ℕ, ◌-◌, ◌≡◌, ◌<◌, refl, Bool, true, false, ◌&&◌, List, [], ◌∷◌, some, leb, length, arith,
  get_elem?, if◌then◌else◌,
}
use tails.Result.{Result, ok, err}
use tails.StackEffect.{empty_effect}
use tails.NanTagged.{is_nan}
use tails.Value.{same_bytes}
use tails.Word.{Word, interpreted}
use tails.Checker.{SourceWord}
use tails.Vocabulary.{lookup_active, lookup, find, upper, upper_char}
use tails.Builder.{
  new_builder, add, branches_to, push_branch, pop_branch, pop_control, fix_branch, parse_if,
  parse_else, parse_then,
}
use tails.Builder.Built.{has_target}
use tails.Builder.Steps.{Compiles, created}
use tails.Tokenizer.{is_space, skip_whitespace, read_general, read_string, read_from, read_token}
use tails.Parser.{Memory, Parsed, add_token, add_other, parse, parse_source, parse_array}
use tails.Token.{Conversion, invalid_argument, converted, as_number, classify, control_token}
use tails.Parser.Arrays.{Read, parse_array-Read}
use tails.Parser.Words.{parse_source-Compiles}

abbrev digits : List ℕ → Conversion
digits (c ∷ []) = if leb b'0' c && leb c b'9' then converted (c - b'0') 1 else invalid_argument
digits _ = invalid_argument

abbrev no_memory : Memory
no_memory = record {
  count = 0;
  code_of = λ k. [];
  effect_of = λ k. empty_effect;
  is_recursive = λ k. false;
}

abbrev word_at : ℕ → Word
word_at i = interpreted i

abbrev no_word : ℕ → Bool
no_word k = false

-- IF 7 ELSE 8 THEN
abbrev choice : List ℕ
choice =
    b'I' ∷ b'F' ∷ b' ' ∷ b'7' ∷ b' ' ∷ b'E' ∷ b'L' ∷ b'S' ∷ b'E' ∷ b' ' ∷ b'8' ∷ b' ' ∷ b't' ∷ b'h'
    ∷ b'e' ∷ b'n' ∷ []

abbrev parsed_or : Parsed → Result Parsed → Parsed
parsed_or p (ok q) = q
parsed_or p (err _) = p

abbrev nothing : Parsed
nothing = record { builder = new_builder; memory = no_memory; rest = [] }

abbrev parsed : Parsed
parsed =
    parsed_or nothing
      (parse_source digits [] word_at no_word no_word 20 choice new_builder no_memory)

parse_source-Compiles_example :
    (parsed.rest ≡ [])
    × Compiles parsed.builder
    × (parsed.builder.control ≡ []
        → (i : ℕ) (w : SourceWord) → get_elem? parsed.builder.words i ≡ some w
        → has_target w.word ≡ true
        → (t : ℕ) × (w.branch_to ≡ some t)
          × (t < length parsed.builder.words)
          × (parsed.builder.is_destination t ≡ true))
unfolding is_space skip_whitespace read_general read_string read_from read_token as_number classify
    control_token same_bytes add_token add_other parse parse_source lookup_active lookup find upper
    upper_char new_builder add branches_to push_branch pop_branch pop_control fix_branch parse_if
    parse_else parse_then is_nan
parse_source-Compiles_example =
    parse_source-Compiles digits [] word_at no_word no_word 20 (λ k. refl) choice new_builder
      no_memory parsed refl created

parsed_control : (parsed.builder.control ≡ []) × (length parsed.builder.words ≡ 5)
unfolding is_space skip_whitespace read_general read_string read_from read_token as_number classify
    control_token same_bytes add_token add_other parse parse_source lookup_active lookup find upper
    upper_char new_builder add branches_to push_branch pop_branch pop_control fix_branch parse_if
    parse_else parse_then is_nan
parsed_control = (refl, refl)

-- 7 [8] ]
abbrev an_array_literal : List ℕ
an_array_literal = b'7' ∷ b' ' ∷ b'[' ∷ b'8' ∷ b']' ∷ b']' ∷ []

parse_array-Read_example : Read 6 (parse_array digits 7 an_array_literal)
parse_array-Read_example = parse_array-Read digits 7 an_array_literal (omega arith)
