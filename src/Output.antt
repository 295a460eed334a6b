-- ===== src/Output.antt =====
-- The output of values and stack effects (`operator<<` of src/values/value.cc and src/io.hh), and the
-- words of src/more_words.cc that print. The text is the list of its bytes. How a stream prints a
-- double is the parameter `number_text`. Where C++ reads behind the end of an array, nothing is
-- printed and the result is `none`.
pub mod Laws
mod Tests
use tails.Prelude.{
  ℕ, Bool, true, false, not, List, [], ◌∷◌, ◌++◌, Option, none, some, take, drop, ◌==◌, ◌||◌,
  if◌then◌else◌,
}
use tails.Prelude.Bits.{bit}
use tails.TypeSet.{
  ValueType, a_null, a_number, a_string, an_array, a_quote, TypeSet, exists, can_be_any_type,
  can_be_type, all_types, of_type, any_type,
}
use tails.Result.{Result}
use tails.StackEffect.{StackEffect, empty_effect, make}
use tails.Value.{Value, Values, null, number, string, array, quote, nil, cons}

abbrev pub joined : Option (List ℕ) → Option (List ℕ) → Option (List ℕ)
joined (some a) (some b) = some (a ++ b)
joined _ _ = none

-- `kNames` of `operator<<(TypeSet)`
unfoldable pub type_symbol : ValueType → List ℕ
type_symbol a_null = b'?' ∷ []
type_symbol a_number = b'#' ∷ []
type_symbol a_string = b'$' ∷ []
type_symbol an_array = b'{' ∷ b'}' ∷ []
type_symbol a_quote = b'[' ∷ b']' ∷ []

-- The loop over the types, those that are left.
unfoldable pub type_symbols : List ValueType → TypeSet → List ℕ
unfolding type_symbol
type_symbols [] s = []
type_symbols (t ∷ ts) s = (if can_be_type s t then type_symbol t else []) ++ type_symbols ts s

-- The loop goes to 5, the lowest bit of an input's number, for which `kNames` has no entry.
unfoldable pub type_text : TypeSet → Option (List ℕ)
unfolding type_symbols
type_text s =
    if can_be_any_type s
    then some (b'x' ∷ [])
    else if not (exists s)
    then some (226 ∷ 136 ∷ 133 ∷ [])
    else if bit 5 s.flags == 1
    then none
    else some (type_symbols all_types s)

-- A view, whose entries stand bottom to top.
unfoldable pub types_text : List TypeSet → Option (List ℕ)
unfolding type_text
types_text [] = some []
types_text (t ∷ []) = type_text t
types_text (t ∷ u ∷ ts) = joined (type_text t) (joined (some (b' ' ∷ [])) (types_text (u ∷ ts)))

unfoldable pub effect_text : StackEffect → Option (List ℕ)
unfolding types_text
effect_text e = joined (types_text (take e.ins e.entries)) (
    joined (some (b' ' ∷ b'-' ∷ b'-' ∷ b' ' ∷ []))
      (types_text (take e.outs (drop e.ins e.entries))))

-- `std::quoted`
unfoldable pub escaped : List ℕ → List ℕ
escaped [] = b'"' ∷ []
escaped (c ∷ cs) = if c == b'"' || c == 92 then 92 ∷ c ∷ escaped cs else c ∷ escaped cs

unfoldable pub quoted : List ℕ → List ℕ
unfolding escaped
quoted s = b'"' ∷ escaped s

module _ (number_text : ℕ → List ℕ) (effects : ℕ → StackEffect) where
  -- `operator<<(Value)`, and that of an array after its opening bracket.
  unfoldable mutual
    pub value_text : Value → Option (List ℕ)
    value_text null = some (b'n' ∷ b'u' ∷ b'l' ∷ b'l' ∷ [])
    value_text (number d) = some (number_text d)
    value_text (string s) = some (quoted s)
    value_text (array vs) = joined (some (b'[' ∷ [])) (values_text vs)
    value_text (quote q) =
        joined (some (b'{' ∷ b'(' ∷ []))
          (joined (effect_text (effects q)) (some (b')' ∷ b'}' ∷ [])))

    pub values_text : Values → Option (List ℕ)
    values_text nil = some (b']' ∷ [])
    values_text (cons v vs) = joined (value_text v) (more_text vs)

    pub more_text : Values → Option (List ℕ)
    more_text nil = some (b']' ∷ [])
    more_text (cons v vs) = joined (some (b',' ∷ b' ' ∷ [])) (joined (value_text v) (more_text vs))

-- What has been printed, and `sAtLeftMargin`.
pub record Output : Type 0 where
  pub text : List ℕ
  pub at_left_margin : Bool

unfoldable pub put_text : List ℕ → Bool → Output → Output
put_text text margin o = record { text = o.text ++ text; at_left_margin = margin }

-- `endLine()`
unfoldable pub end_line : Output → Output
unfolding put_text
end_line o = if o.at_left_margin then o else put_text (10 ∷ []) true o

-- PRINT, SP, NL and NLQ.
pub data PrintWord : Type 0 where
  print space newline end_of_line : PrintWord

abbrev pub effect_or_empty : Result StackEffect → StackEffect
effect_or_empty (Result.ok e) = e
effect_or_empty (Result.err _) = empty_effect

unfoldable pub print_effect : PrintWord → StackEffect
unfolding make
print_effect print = effect_or_empty (make (any_type ∷ []) [])
print_effect _ = empty_effect

module _ (number_text : ℕ → List ℕ) (effects : ℕ → StackEffect) where
  unfoldable pub apply_print : PrintWord → List Value → Output → Option (List Value × Output)
  unfolding value_text put_text end_line
  apply_print print [] o = none
  apply_print print (v ∷ s) o = elim (value_text number_text effects v) [
    | some text ↦ some (s, put_text text false o)
    | none ↦ none
  ]
  apply_print space s o = some (s, put_text (b' ' ∷ []) false o)
  apply_print newline s o = some (s, put_text (10 ∷ []) true o)
  apply_print end_of_line s o = some (s, end_line o)
