-- ===== src/Vocabulary.antt =====
-- The vocabularies of src/compiler/vocabulary.cc. A word is the part of it that they read: its name
-- and the pointer that its instruction holds. The hash table is an association list, of which only
-- `find` and `insert`, with distinct names, are used.
pub mod Laws
pub mod Active
mod Tests
use tails.Prelude.{
  ℕ, zero, suc, ◌-◌, Bool, true, false, not, ◌&&◌, List, [], ◌∷◌, ◌++◌, map, Option, none, some,
  leb, ◌==◌, if◌then◌else◌, length, get_elem?,
}
use tails.Value.{same_bytes}

pub record NamedWord : Type 0 where
  pub name : List ℕ
  pub instruction : ℕ

abbrev pub Vocabulary : Type 0
Vocabulary = List NamedWord

-- `toupper` of src/core/utils.hh, on ASCII.
unfoldable pub upper_char : ℕ → ℕ
upper_char c = if leb b'a' c && leb c b'z' then c - 32 else c

unfoldable pub upper : List ℕ → List ℕ
unfolding upper_char
upper s = map upper_char s

unfoldable pub find : List ℕ → Vocabulary → Option NamedWord
find key [] = none
find key (w ∷ ws) = let rest = find key ws in if same_bytes w.name key then some w else rest

-- `add(word)`: `insert` leaves an entry of that name as it is.
unfoldable pub add : NamedWord → Vocabulary → Vocabulary
unfolding find
add w v = elim (find w.name v) [ some old ↦ v | none ↦ v ++ w ∷ [] ]

unfoldable pub add_all : List NamedWord → Vocabulary → Vocabulary
unfolding add
add_all [] v = v
add_all (w ∷ ws) v = add_all ws (add w v)

unfoldable pub lookup : List ℕ → Vocabulary → Option NamedWord
unfolding find upper
lookup name v = find (upper name) v

unfoldable pub lookup_instruction : ℕ → Vocabulary → Option NamedWord
lookup_instruction i [] = none
lookup_instruction i (w ∷ ws) =
    let rest = lookup_instruction i ws in if w.instruction == i then some w else rest

-- `VocabularyStack`, its oldest vocabulary first.
unfoldable pub push : Vocabulary → List Vocabulary → List Vocabulary
push v active = active ++ v ∷ []

unfoldable pub lookup_active : List ℕ → List Vocabulary → Option NamedWord
unfolding lookup
lookup_active name [] = none
lookup_active name (v ∷ vs) =
    let rest = lookup_active name vs in elim (lookup name v) [ some w ↦ some w | none ↦ rest ]

-- The iterator over all words: the vocabularies from the present one on, and its words that are
-- left.
pub record Iterator : Type 0 where
  pub vocabularies : List Vocabulary
  pub words : List NamedWord

abbrev first_words : List Vocabulary → List NamedWord
first_words [] = []
first_words (v ∷ vs) = v

-- `begin()` and `end()`: both start at the first of the active vocabularies.
unfoldable pub begin : List Vocabulary → Iterator
begin active = record { vocabularies = active; words = first_words active }

unfoldable pub end : List Vocabulary → Iterator
end active = record { vocabularies = active; words = [] }

-- `operator==` compares `_iVoc` alone, here by how many vocabularies are left.
unfoldable pub same_place : Iterator → Iterator → Bool
same_place i j = length i.vocabularies == length j.vocabularies

-- `operator++`
abbrev next_words : List NamedWord → List Vocabulary → Iterator
next_words [] [] = record { vocabularies = []; words = [] }
next_words [] (v ∷ vs) = record { vocabularies = vs; words = first_words vs }
next_words (w ∷ ws) vs = record { vocabularies = vs; words = w ∷ ws }

abbrev tail_words : List NamedWord → List NamedWord
tail_words [] = []
tail_words (w ∷ ws) = ws

unfoldable pub advance : Iterator → Iterator
advance i = next_words (tail_words i.words) i.vocabularies

-- `gcScan()`: the words that the loop from `begin()` to `end()` scans, in at most `fuel` turns.
unfoldable pub scan_from : ℕ → Iterator → Iterator → List NamedWord
unfolding same_place advance
scan_from zero i stop = []
scan_from (suc fuel) i stop =
    let rest = scan_from fuel (advance i) stop in
    if same_place i stop then [] else elim i.words [ [] ↦ rest | w ∷ _ ↦ w ∷ rest ]

unfoldable pub gc_scan : ℕ → List Vocabulary → List NamedWord
unfolding scan_from begin end
gc_scan fuel active = scan_from fuel (begin active) (end active)
