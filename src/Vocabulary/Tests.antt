-- ===== src/Vocabulary/Tests.antt =====
-- A vocabulary of one word, to which another is added.
use tails.Prelude.{◌≡◌, ◌≢◌, [], ◌∷◌, some, none}
use tails.Vocabulary.{NamedWord, upper, add, lookup}
use tails.Vocabulary.Laws.{lookup-add}

abbrev dup_word : NamedWord
dup_word = record { name = b'D' ∷ b'U' ∷ b'P' ∷ []; instruction = 1 }

abbrev or_word : NamedWord
or_word = record { name = b'O' ∷ b'R' ∷ []; instruction = 2 }

lookup-add_example :
    ((x : NamedWord)
      → lookup (b'o' ∷ b'r' ∷ []) (dup_word ∷ []) ≡ some x
      → lookup (b'o' ∷ b'r' ∷ []) (add or_word (dup_word ∷ [])) ≡ some x)
    × (lookup (b'o' ∷ b'r' ∷ []) (dup_word ∷ []) ≡ none
        → upper (b'o' ∷ b'r' ∷ []) ≡ b'O' ∷ b'R' ∷ []
        → lookup (b'o' ∷ b'r' ∷ []) (add or_word (dup_word ∷ [])) ≡ some or_word)
    × (lookup (b'o' ∷ b'r' ∷ []) (dup_word ∷ []) ≡ none
        → upper (b'o' ∷ b'r' ∷ []) ≢ b'O' ∷ b'R' ∷ []
        → lookup (b'o' ∷ b'r' ∷ []) (add or_word (dup_word ∷ [])) ≡ none)
lookup-add_example = lookup-add (b'o' ∷ b'r' ∷ []) or_word (dup_word ∷ [])
