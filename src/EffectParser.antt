-- ===== src/EffectParser.antt =====
-- The parser of stack effect declarations, src/compiler/stack_effect_parser.hh, over the codes of
-- the characters. The pointer into `_entries` is the number of entries that are finished, and the
-- entry that it points to is `current`.
pub mod Laws
mod Tests
use tails.Prelude.{
  ℕ, zero, suc, ◌+◌, ◌-◌, Bool, true, false, not, ◌&&◌, ◌||◌, List, [], ◌∷◌, ◌++◌, Option, none,
  some, leb, ◌==◌, if◌then◌else◌, length,
}
use tails.TypeSet.{
  ValueType, a_null, a_number, a_string, an_array, a_quote, TypeSet, no_type, exists, add_type,
  add_all_types, set_input_match,
}
use tails.Result.{
  Result, ok, err, ◌>>=◌, ◌>>◌, guard, unknown_symbol, invalid_separator, missing_separator,
}
use tails.Value.{same_bytes}
use tails.StackEffect.{StackEffect, empty_effect, check_not_full, set_max}

-- `_isalpha` of src/core/utils.hh
unfoldable pub is_alpha : ℕ → Bool
is_alpha c = leb b'A' c && leb c b'Z' || leb b'a' c && leb c b'z'

unfoldable pub is_ignored : ℕ → Bool
unfolding is_alpha
is_ignored c = is_alpha c || leb b'0' c && leb c b'9' || c == b'_'

unfoldable pub add_type_symbol : TypeSet → ℕ → Result TypeSet
unfolding is_ignored
add_type_symbol ts c =
    if c == b'?'
    then ok (add_type ts a_null)
    else if c == b'$'
    then ok (add_type ts a_string)
    else if c == b'[' || c == b']'
    then ok (add_type ts an_array)
    else if c == b'{' || c == b'}'
    then ok (add_type ts a_quote)
    else if c == b'#'
    then ok (add_type ts a_number)
    else if is_ignored c
    then ok ts
    else err unknown_symbol

-- An entry with no type, or with null alone, allows every type.
unfoldable pub finished_entry : TypeSet → TypeSet
finished_entry ts = if not (exists ts) || ts.flags == 1 then add_all_types ts else ts

-- `parseTypeSet`, up to the end of the token or a zero.
unfoldable pub add_type_symbols : TypeSet → List ℕ → Result TypeSet
add_type_symbols ts [] = ok ts
add_type_symbols ts (c ∷ cs) =
    let rest = add_type_symbol ts c >>= (λ ts'. add_type_symbols ts' cs) in
    if c == 0 then ok ts else rest

unfoldable pub parse_type_set : List ℕ → Result TypeSet
unfolding add_type_symbols finished_entry
parse_type_set cs = do ts ← add_type_symbols no_type cs; ok (finished_entry ts)

-- The local variables of `_parseStackEffect`. `names` holds the text of each input's token, or
-- nothing for a token with no letter; `token` is the current token's text so far.
pub record Parse : Type 0 where
  pub effect : StackEffect
  pub current : TypeSet
  pub names : List (List ℕ)
  pub in_inputs : Bool
  pub token : Option (List ℕ)
  pub named : Bool

-- The loop over the inputs: the first whose token is the same text. `b` is the first one's index.
unfoldable pub matched_entry : List ℕ → List (List ℕ) → List TypeSet → ℕ → ℕ → TypeSet → TypeSet
matched_entry text [] entries b n entry = entry
matched_entry text (name ∷ names) [] b n entry = entry
matched_entry text (name ∷ names) (t ∷ ts) b n entry =
    let rest = matched_entry text names ts (b + 1) n entry in
    if same_bytes name text then set_input_match entry t (n - 1 - b) else rest

unfoldable pub output_entry : Bool → List ℕ → Parse → TypeSet
unfolding matched_entry finished_entry
output_entry named text p =
    if named
    then matched_entry text p.names p.effect.entries 0 p.effect.ins (finished_entry p.current)
    else finished_entry p.current

-- The end of a token: the entry is finished and counted.
unfoldable pub finish_input : List ℕ → Parse → Parse
unfolding finished_entry
finish_input text p = record p {
  effect = record (p.effect) {
    entries = p.effect.entries ++ finished_entry p.current ∷ [];
    ins = p.effect.ins + 1;
  };
  names = p.names ++ (if p.named then text else []) ∷ [];
  current = no_type;
  token = none;
  named = false;
}

unfoldable pub finish_output : List ℕ → Parse → Parse
unfolding output_entry
finish_output text p = record p {
  effect = record (p.effect) {
    entries = p.effect.entries ++ output_entry p.named text p ∷ [];
    outs = p.effect.outs + 1;
  };
  current = no_type;
  token = none;
  named = false;
}

unfoldable pub end_token : Option (List ℕ) → Parse → Parse
unfolding finish_input finish_output
end_token none p = p
end_token (some text) p = if p.in_inputs then finish_input text p else finish_output text p

-- A character of a token, the first of which needs room for one more entry.
unfoldable pub start_token : Option (List ℕ) → Parse → Result (List ℕ)
start_token none p = check_not_full p.effect >> ok []
start_token (some text) p = ok text

unfoldable pub add_character : ℕ → Parse → Result Parse
unfolding start_token
add_character c p = do
  text ← start_token p.token p
  entry ← add_type_symbol p.current c
  ok (record p { current = entry; token = some (text ++ c ∷ []); named = p.named || is_alpha c })

abbrev pub starts_with : List ℕ → ℕ → Bool
starts_with [] c = false
starts_with (x ∷ xs) c = x == c

abbrev pub has_token : Option (List ℕ) → Bool
has_token none = false
has_token (some _) = true

-- The separator needs a second dash behind it, no token before it, and to be the first.
unfoldable pub separator : List ℕ → Parse → Result Parse
separator following p = do
  guard (starts_with following b'-' && not (has_token p.token) && p.in_inputs) invalid_separator
  ok (record p { in_inputs = false })

abbrev pub is_space : ℕ → Bool
is_space c = c == 0 || c == b' ' || c == 9

-- One turn of the loop: the state after it, and how many characters it skips.
unfoldable pub parse_character : ℕ → List ℕ → Parse → Result (ℕ × Parse)
unfolding end_token separator add_character
parse_character c following p =
    if is_space c
    then ok (0, end_token p.token p)
    else if c == b'-'
    then (separator following p >>= λ p'. ok (2, p'))
    else (add_character c p >>= λ p'. ok (0, p'))

-- The loop, where `skip` characters are still to be passed over.
unfoldable pub parse_characters : ℕ → List ℕ → Parse → Result Parse
parse_characters skip [] p = ok (end_token p.token p)
parse_characters (suc skip) (c ∷ cs) p = parse_characters skip cs p
parse_characters zero (c ∷ cs) p =
    parse_character c cs p >>= λ (skip, p'). parse_characters skip cs p'

-- `parseStackEffect`
unfoldable pub parse_stack_effect : List ℕ → Result StackEffect
unfolding parse_characters parse_character
parse_stack_effect cs = do
  p ← parse_characters 0 cs (record {
    effect = empty_effect;
    current = no_type;
    names = [];
    in_inputs = true;
    token = none;
    named = false;
  })
  guard (not p.in_inputs) missing_separator
  ok (set_max 0 p.effect)
