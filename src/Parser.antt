-- ===== src/Parser.antt =====
-- `Compiler::parse` of src/compiler/parser.cc, with its literals and quotations. The words that are
-- compiled are numbered in the order of their creation, in a memory that the parser passes on; which
-- of them have a name is in the vocabularies. Reading a quotation in a quotation takes a unit of
-- fuel, and so does each token and each code that is inlined.
pub mod Steps
pub mod Words
pub mod Arrays
mod Tests
use tails.Prelude.{
  ℕ, zero, suc, ◌+◌, Bool, true, false, not, ◌&&◌, ◌||◌, List, [], ◌∷◌, ◌++◌, Option, none, some,
  leb, ◌==◌, if◌then◌else◌, length, drop, ◌%◌, ◌*◌, ◌^◌,
}
use tails.Result.{
  Result, ok, err, ◌>>=◌, ◌>>◌, guard, unexpected_delimiter, unknown_word, magic_word,
  number_out_of_range, unfinished_string, unfinished_array, invalid_array_literal, missing_paren,
  missing_brace, out_of_fuel,
}
use tails.StackEffect.{StackEffect}
use tails.EffectParser.{parse_stack_effect}
use tails.NanTagged.{is_nan}
use tails.Value.{Value, Values, null, number, string, array, quote, nil, cons, same_bytes}
use tails.Word.{Native, Word, native, interpreted}
use tails.Vm.{Instruction, op, word, offset, literal}
use tails.Checker.{SourceWord}
use tails.Vocabulary.{NamedWord, Vocabulary, upper, lookup_active}
use tails.Disassembler.{WordRef, words_of}
use tails.Tokenizer.{read_token, skip_whitespace, peek_is}
use tails.Builder.{
  Builder, simple_word, new_builder, set_stack_effect, add, add_recurse, parse_if, parse_else,
  parse_then, parse_begin, parse_while, parse_repeat, generate_instructions,
}
use tails.Token.{
  Conversion, is_infinite, as_number, match, text_of, parse_string, Token, control_token, classify,
  invalid_argument, out_of_range, converted, at_end, at_brace, a_string, an_array, a_quotation,
  word_if, word_else, word_then, word_begin, word_while, word_repeat, word_recurse, other,
}

-- The words that have been compiled.
pub record Memory : Type 0 where
  pub count : ℕ
  pub code_of : ℕ → List Instruction
  pub effect_of : ℕ → StackEffect
  pub is_recursive : ℕ → Bool

unfoldable pub store_word : List Instruction → Bool → StackEffect → Memory → Memory
store_word code recursive effect m = record {
  count = m.count + 1;
  code_of = λ k. if k == m.count then code else m.code_of k;
  effect_of = λ k. if k == m.count then effect else m.effect_of k;
  is_recursive = λ k. if k == m.count then recursive else m.is_recursive k;
}

abbrev pub first_value : Value → Values × List ℕ → Values × List ℕ
first_value v (vs, rest) = (cons v vs, rest)

module _ (stod : List ℕ → Conversion) where
  -- `parseArray`, after the opening bracket.
  unfoldable pub parse_array : ℕ → List ℕ → Result (Values × List ℕ)
  unfolding read_token as_number parse_string
  parse_array zero input = err out_of_fuel
  parse_array (suc fuel) input =
      let token = (read_token input).0 in
      let rest = (read_token input).1 in
      let more = parse_array fuel rest in
      let nested : Result (Values × List ℕ) =
        more >>= λ inner. parse_array fuel inner.1 >>= λ p. ok (first_value (array inner.0) p) in
      let numeric : Result (Values × List ℕ) = as_number stod token >>= λ d. elim d [
        | some n ↦ more >>= λ p. ok (first_value (number n) p)
        | none ↦ err invalid_array_literal
      ] in
      if same_bytes token (b']' ∷ [])
      then ok (nil, rest)
      else if length token == 0
      then err unfinished_array
      else if peek_is b'"' token
      then (parse_string token >>= λ v. more >>= λ p. ok (first_value v p))
      else if same_bytes token (b'[' ∷ [])
      then nested
      else numeric

-- The text of a stack effect declaration after its opening parenthesis, up to the closing one.
unfoldable pub read_effect : List ℕ → Result (List ℕ × List ℕ)
read_effect [] = err missing_paren
read_effect (c ∷ cs) =
    let more = (do (text, rest) ← read_effect cs; ok (c ∷ text, rest)) in
    if c == b')' then ok ([], cs) else more

-- What `parse` gives: the object, the memory, and the rest of the input.
pub record Parsed : Type 0 where
  pub builder : Builder
  pub memory : Memory
  pub rest : List ℕ

-- Words that are not to be used in source code.
unfoldable pub is_magic : Word → Bool
is_magic (native Native.interp) = true
is_magic (native Native.interp2) = true
is_magic (native Native.interp3) = true
is_magic (native Native.interp4) = true
is_magic (native Native.tailinterp) = true
is_magic (native Native.tailinterp2) = true
is_magic (native Native.tailinterp3) = true
is_magic (native Native.tailinterp4) = true
is_magic (native Native.ret) = true
is_magic (native Native.lit) = true
is_magic (native Native.branch) = true
is_magic (native Native.zbranch) = true
is_magic (native Native.recurse) = true
is_magic (native Native.call_quote) = true
is_magic _ = false

abbrev pub literal_of : Option Instruction → Value
literal_of (some (literal v)) = v
literal_of _ = null

-- The loop of `addInline` over the words of the code.
unfoldable pub add_refs : List WordRef → Builder → Builder
unfolding add
add_refs [] b = b
add_refs (r ∷ refs) b = add_refs refs (add (simple_word r.word (literal_of r.param)) b)

module _ (stod : List ℕ → Conversion) (active : List Vocabulary) (word_at : ℕ → Word)
    (registered is_inline : ℕ → Bool) (parse_fuel : ℕ) where
  -- `addInline`. The flag of a compiled word is that of `setInline`.
  unfoldable pub add_inline : Memory → Word → Builder → Result Builder
  unfolding words_of add_refs add
  add_inline m (native n) b = ok (add (simple_word (native n) null) b)
  add_inline m (interpreted k) b = do
    refs ← words_of registered parse_fuel (m.code_of k)
    ok (add_refs refs b)

  abbrev pub is_inline_word : Word → Bool
  is_inline_word (native n) = false
  is_inline_word (interpreted k) = is_inline k

  -- A word of the vocabularies. Every word with a parameter is magic, so that none is read here.
  unfoldable pub add_word : Memory → Word → Builder → Result Builder
  unfolding is_magic add_inline add
  add_word m w b =
      guard (not (is_magic w)) magic_word
      >> (if is_inline_word w then add_inline m w b else ok (add (simple_word w null) b))

  -- A known word, else a number.
  unfoldable pub add_other : Memory → List ℕ → Builder → Result Builder
  unfolding lookup_active as_number add_word add
  add_other m token b = elim (lookup_active token active) [
    | some named ↦ add_word m (word_at named.instruction) b
    | none ↦ as_number stod token >>= λ d. elim d [
      | some n ↦ ok (add (simple_word (native Native.lit) (number n)) b)
      | none ↦ err unknown_word
    ]
  ]

  -- The tokens that need no more of the input.
  unfoldable pub add_token : Token → List ℕ → Memory → Builder → Result Builder
  unfolding add_other parse_string add parse_if parse_else parse_then parse_begin parse_while
      parse_repeat add_recurse
  add_token a_string token m b = do
    v ← parse_string token
    ok (add (simple_word (native Native.lit) v) b)
  add_token word_if token m b = ok (parse_if b)
  add_token word_else token m b = parse_else b
  add_token word_then token m b = parse_then b
  add_token word_begin token m b = ok (parse_begin b)
  add_token word_while token m b = parse_while b
  add_token word_repeat token m b = parse_repeat b
  add_token word_recurse token m b = ok (add_recurse b)
  add_token _ token m b = add_other m token b

  -- The declaration of a quotation's stack effect, if there is one.
  unfoldable pub declare_effect : List ℕ → Result (Builder × List ℕ)
  unfolding read_effect set_stack_effect new_builder
  declare_effect [] = ok (new_builder, [])
  declare_effect (c ∷ input) =
      let declaration : Result (Builder × List ℕ) = read_effect input >>= λ p.
      parse_stack_effect p.0 >>= λ e. ok (set_stack_effect e false false new_builder, p.1) in
      if c == b'(' then declaration else ok (new_builder, c ∷ input)

  -- `parseQuote`, after the opening brace, with the parser for its words.
  unfoldable pub parse_quote :
      (List ℕ → Builder → Memory → Result Parsed)
      → List ℕ
      → Memory
      → Result (Value × Memory × List ℕ)
  unfolding skip_whitespace declare_effect generate_instructions store_word
  parse_quote go input m = do
    (b, body) ← declare_effect (skip_whitespace input)
    p ← go body b m
    guard (peek_is b'}' p.rest) missing_brace
    (code, recursive, effect) ← generate_instructions p.memory.effect_of parse_fuel p.builder
    ok (quote p.memory.count, store_word code recursive effect p.memory, drop 1 p.rest)

  -- `parse(const char*)`. At a closing brace the input is not consumed.
  unfoldable pub parse : ℕ → List ℕ → Builder → Memory → Result Parsed
  unfolding read_token classify parse_array parse_quote add_token add
  parse zero input b m = err out_of_fuel
  parse (suc fuel) input b m =
      let token = (read_token input).0 in
      let rest = (read_token input).1 in
      elim (classify token) [
        | at_end ↦ ok (record { builder = b; memory = m; rest = rest })
        | at_brace ↦ ok (record { builder = b; memory = m; rest = b'}' ∷ rest })
        | an_array ↦ parse_array stod parse_fuel rest >>= λ p.
            parse fuel p.1 (add (simple_word (native Native.lit) (array p.0)) b) m
        | a_quotation ↦ parse_quote (parse fuel) rest m >>= λ (v, m', end).
            parse fuel end (add (simple_word (native Native.lit) v) b) m'
        | t ↦ add_token t token m b >>= λ b'. parse fuel rest b' m
      ]

  -- `parse(const string&)`
  unfoldable pub parse_source : List ℕ → Builder → Memory → Result Parsed
  unfolding parse
  parse_source input b m = do
    p ← parse parse_fuel input b m
    guard (length p.rest == 0) unexpected_delimiter
    ok p
