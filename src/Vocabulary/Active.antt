-- ===== src/Vocabulary/Active.antt =====
-- The class `VocabularyStack` of src/compiler/vocabulary.hh and vocabulary.cc with its present
-- vocabulary. The vocabularies stand in a list, and a pointer to one is its index there. Number 0 is
-- `Vocabulary::core`.
use tails.Prelude.{ℕ, List, [], ◌∷◌, ◌++◌, map, Option, none, some, ltb, length, get_or, set}
use tails.Result.{Result, ok, err, ◌>>◌, guard, assertion, invalid_access}
use tails.Vocabulary.{NamedWord, Vocabulary, add, lookup_active}

pub record Vocabularies : Type 0 where
  pub all : List Vocabulary
  pub active : List ℕ
  pub current : Option ℕ

-- `VocabularyStack()`, where `core` is the vocabulary of the core words.
unfoldable pub only_core : Vocabulary → Vocabularies
only_core core = record { all = core ∷ []; active = 0 ∷ []; current = none }

-- A vocabulary that is created, at the end of the list.
unfoldable pub create : Vocabulary → Vocabularies → Vocabularies
create v vs = record vs { all = vs.all ++ v ∷ [] }

-- `push`
unfoldable pub activate : ℕ → Vocabularies → Vocabularies
activate i vs = record vs { active = vs.active ++ i ∷ [] }

abbrev pub all_but_last : List ℕ → List ℕ
all_but_last [] = []
all_but_last (i ∷ []) = []
all_but_last (i ∷ j ∷ is) = i ∷ all_but_last (j ∷ is)

-- `pop`
unfoldable pub deactivate : Vocabularies → Result Vocabularies
deactivate vs =
    guard (ltb 1 (length vs.active)) assertion >> ok (record vs { active = all_but_last vs.active })

unfoldable pub set_current : Option ℕ → Vocabularies → Vocabularies
set_current i vs = record vs { current = i }

abbrev pub vocabulary_at : List Vocabulary → ℕ → Vocabulary
vocabulary_at all i = get_or all i []

-- The vocabularies that are looked through, the oldest first.
unfoldable pub active_vocabularies : Vocabularies → List Vocabulary
active_vocabularies vs = map (vocabulary_at vs.all) vs.active

-- `current()->add(word)`
unfoldable pub add_current : NamedWord → Vocabularies → Result Vocabularies
add_current w vs = elim vs.current [
  | some i ↦ ok (record vs { all = set vs.all i (add w (vocabulary_at vs.all i)) })
  | none ↦ err invalid_access
]

-- `lookup(name)`
unfoldable pub lookup_name : List ℕ → Vocabularies → Option NamedWord
unfolding active_vocabularies
lookup_name name vs = lookup_active name (active_vocabularies vs)
