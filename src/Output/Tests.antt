-- ===== src/Output/Tests.antt =====
-- The text of a few values.
use tails.Prelude.{◌≡◌, refl, [], ◌∷◌, ◌++◌, true, false, none, some, ℕ, List}
use tails.TypeSet.{can_be_any_type, exists, type_flags}
use tails.Result.{ok}
use tails.StackEffect.{StackEffect, empty_effect}
use tails.Value.{Value, number, string, array, cons, nil}
use tails.EffectStack.Laws.{Honours}
use tails.Tokenizer.{read_token}
use tails.Token.{parse_string}
use tails.Output.{
  type_text, quoted, escaped, value_text, Output, print, print_effect, apply_print, put_text,
}
use tails.Output.Laws.{quoted-read, ends_line, apply_print-margin}

abbrev number_text : ℕ → List ℕ
number_text d = b'7' ∷ []

abbrev effects : ℕ → StackEffect
effects k = empty_effect

-- An array with a string that holds a quotation mark.
abbrev two_items : Value
two_items = array (cons (number 7) (cons (string (b'"' ∷ [])) nil))

two_items_text :
    value_text number_text effects two_items
    ≡ some (b'[' ∷ b'7' ∷ b',' ∷ b' ' ∷ b'"' ∷ 92 ∷ b'"' ∷ b'"' ∷ b']' ∷ [])
unfolding value_text quoted escaped
two_items_text = refl

-- A number that is the input below the top: the loop reads `kNames[5]`.
type_text_matching : type_text (record { flags = 34 }) ≡ none
unfolding type_text can_be_any_type type_flags exists
type_text_matching = refl

quoted-read_example :
    (read_token (quoted (b'h' ∷ b'i' ∷ []) ++ b']' ∷ []) ≡ (quoted (b'h' ∷ b'i' ∷ []), b']' ∷ []))
    × (parse_string (quoted (b'h' ∷ b'i' ∷ [])) ≡ ok (string (b'h' ∷ b'i' ∷ [])))
quoted-read_example = quoted-read (b'h' ∷ b'i' ∷ []) (b']' ∷ []) (refl, (refl, tt))

abbrev nothing_yet : Output
nothing_yet = record { text = []; at_left_margin = true }

apply_print-margin_example :
    Honours (print_effect print) (number 7 ∷ []) [] × (false ≡ ends_line (b'7' ∷ []))
unfolding apply_print put_text value_text
apply_print-margin_example =
    apply_print-margin number_text effects (λ d. refl) print (number 7 ∷ []) [] nothing_yet
      (record { text = b'7' ∷ []; at_left_margin = false }) refl refl
