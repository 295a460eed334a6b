-- ===== src/Token.antt =====
-- The tokens of src/compiler/parser.cc: what kinds `Compiler::parse` tells apart, and the literals.
-- The conversion of a token to a double, `stod` of the C++ library, is a parameter.
use tails.Prelude.{
  ℕ, Bool, not, ◌&&◌, List, [], ◌∷◌, Option, none, some, ◌==◌, if◌then◌else◌, length, ◌%◌, ◌*◌, ◌^◌,
}
use tails.Result.{Result, ok, err, ◌>>=◌, number_out_of_range, unfinished_string}
use tails.NanTagged.{is_nan}
use tails.Value.{Value, string, same_bytes}
use tails.Vocabulary.{upper}

-- `stod`: `invalid_argument`, `out_of_range`, or the double and the number of characters.
pub data Conversion : Type 0 where
  invalid_argument out_of_range : Conversion
  converted : ℕ → ℕ → Conversion

abbrev pub is_infinite : ℕ → Bool
is_infinite d = d % 2 ^ 63 == 2047 * 2 ^ 52

unfoldable pub as_number : (List ℕ → Conversion) → List ℕ → Result (Option ℕ)
as_number stod token = elim (stod token) [
  | invalid_argument ↦ ok none
  | out_of_range ↦ err number_out_of_range
  | converted d end ↦
      ok (if (end == length token) && not (is_nan d) && not (is_infinite d) then some d else none)
]

-- `match(token, str)`, where `str` is in capitals.
abbrev pub match : List ℕ → List ℕ → Bool
unfolding upper
match token str = same_bytes (upper token) str

-- The text of a string literal without its quotation marks.
abbrev pub text_of : List ℕ → Result (List ℕ)
text_of [] = err unfinished_string
text_of (c ∷ []) = if c == b'"' then ok [] else err unfinished_string
text_of (c ∷ cs) = do text ← text_of cs; ok (c ∷ text)

unfoldable pub parse_string : List ℕ → Result Value
parse_string [] = err unfinished_string
parse_string (quotation_mark ∷ token) = do text ← text_of token; ok (string text)

-- The tokens, as `parse` tells them apart.
pub data Token : Type 0 where
  at_end at_brace : Token
  a_string an_array a_quotation : Token
  word_if word_else word_then word_begin word_while word_repeat word_recurse : Token
  other : Token

unfoldable pub control_token : List ℕ → Token
control_token token =
    if match token (b'I' ∷ b'F' ∷ [])
    then word_if
    else if match token (b'E' ∷ b'L' ∷ b'S' ∷ b'E' ∷ [])
    then word_else
    else if match token (b'T' ∷ b'H' ∷ b'E' ∷ b'N' ∷ [])
    then word_then
    else if match token (b'B' ∷ b'E' ∷ b'G' ∷ b'I' ∷ b'N' ∷ [])
    then word_begin
    else if match token (b'W' ∷ b'H' ∷ b'I' ∷ b'L' ∷ b'E' ∷ [])
    then word_while
    else if match token (b'R' ∷ b'E' ∷ b'P' ∷ b'E' ∷ b'A' ∷ b'T' ∷ [])
    then word_repeat
    else if match token (b'R' ∷ b'E' ∷ b'C' ∷ b'U' ∷ b'R' ∷ b'S' ∷ b'E' ∷ [])
    then word_recurse
    else other

unfoldable pub classify : List ℕ → Token
unfolding control_token
classify [] = at_end
classify (c ∷ token) =
    if same_bytes (c ∷ token) (b'}' ∷ [])
    then at_brace
    else if c == b'"'
    then a_string
    else if same_bytes (c ∷ token) (b'[' ∷ [])
    then an_array
    else if same_bytes (c ∷ token) (b'{' ∷ [])
    then a_quotation
    else control_token (c ∷ token)
