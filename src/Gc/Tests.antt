-- ===== src/Gc/Tests.antt =====
-- A heap of an array that holds a string, and of a string to which only the literal of a word leads.
use tails.Prelude.{
  ℕ, ap, ◌∙◌, ◌+◌, ◌≡◌, ◌↔◌, refl, sym, subst, inl, inr, false, List, [], ◌∷◌, none, some, arith,
  length,
}
use tails.Vocabulary.{NamedWord, Vocabulary}
use tails.Result.{ok}
use tails.NanTagged.{array_bits, string_bits, mark_target}
use tails.NanTagged.Laws.{heap_bits-type}
use tails.Gc.{
  Cell, literal_cell, value_cell, return_cell, Contents, text, items, Heap, allocate, Swept,
  garbage_collect,
}
use tails.Prelude.Members.{In}
use tails.Gc.Mark.{Reachable}
use tails.Gc.Mark.Ends.{Resolves, AllResolve}
use tails.Gc.Allocate.{allocate-IsHeap}
use tails.Gc.Collect.{IsHeap, garbage_collect-Reachable}

abbrev no_objects : Heap
no_objects = record { first = 0; next = λ _. 0; object = λ _. none; marked = λ _. false; count = 0 }

no_objects-IsHeap : IsHeap [] no_objects
no_objects-IsHeap = record {
  chain = refl;
  distinct = tt;
  listed = λ p c e. absurd (cc);
  plain = λ p i. refl;
  clean = λ p c e. absurd (cc);
  counted = refl;
}

abbrev one_object : Heap
one_object = allocate 16 (text (b'h' ∷ [])) no_objects

abbrev two_objects : Heap
two_objects = allocate 32 (items (string_bits 16 ∷ [])) one_object

abbrev three_objects : Heap
three_objects = allocate 48 (text []) two_objects

one_object-IsHeap : IsHeap (16 ∷ []) one_object
one_object-IsHeap =
    allocate-IsHeap 16 (text (b'h' ∷ [])) [] no_objects no_objects-IsHeap (omega arith) (λ i. i)
      (λ v i. absurd i)

string_resolves : AllResolve one_object.object (string_bits 16 ∷ [])
unfolding allocate
string_resolves v (inl e) =
    subst (Resolves one_object.object)
      (sym (ap mark_target e ∙ (heap_bits-type 16 (omega arith) (omega arith)).0.3))
      (b'h' ∷ [], refl)
string_resolves v (inr i) = absurd i

two_objects-IsHeap : IsHeap (32 ∷ 16 ∷ []) two_objects
two_objects-IsHeap =
    allocate-IsHeap 32 (items (string_bits 16 ∷ [])) (16 ∷ []) one_object one_object-IsHeap
      (omega arith) (λ i. elim i [ inl e ↦ omega (arith, e) | inr j ↦ j ]) string_resolves

new_address : ¬ In 48 (32 ∷ 16 ∷ [])
new_address i = elim i [
  | inl e ↦ omega (arith, e)
  | inr (inl e) ↦ omega (arith, e)
  | inr (inr j) ↦ j
]

allocate-IsHeap_example : IsHeap (48 ∷ 32 ∷ 16 ∷ []) three_objects
allocate-IsHeap_example =
    allocate-IsHeap 48 (text []) (32 ∷ 16 ∷ []) two_objects two_objects-IsHeap (omega arith)
      new_address (λ v i. absurd i)

three_objects-IsHeap : IsHeap (48 ∷ 32 ∷ 16 ∷ []) three_objects
three_objects-IsHeap =
    allocate-IsHeap 48 (text []) (32 ∷ 16 ∷ []) two_objects two_objects-IsHeap (omega arith)
      new_address (λ v i. absurd i)

array_resolves : AllResolve three_objects.object (array_bits 32 ∷ [])
unfolding allocate
array_resolves v (inl e) =
    subst (Resolves three_objects.object)
      (sym (ap mark_target e ∙ (heap_bits-type 32 (omega arith) (omega arith)).1.3))
      (string_bits 16 ∷ [], refl)
array_resolves v (inr i) = absurd i

-- A vocabulary of one word, whose literal leads to the string that nothing else leads to.
abbrev some_words : List Vocabulary
some_words = (record { name = b'S' ∷ []; instruction = 7 } ∷ []) ∷ []

abbrev literal_code : NamedWord → List Cell
literal_code w = literal_cell ∷ value_cell (string_bits 48) ∷ return_cell ∷ []

garbage_collect-Reachable_example :
    (s : Swept) × (qs : List ℕ) × (garbage_collect 4 literal_code some_words
        (array_bits 32 ∷ [])
        three_objects
      ≡ ok s)
    × ((p : ℕ) (c : Contents)
        → three_objects.object p ≡ some c
        → (s.heap.object p ≡ some c) ↔ Reachable three_objects.object (array_bits 32 ∷ []) p)
    × IsHeap qs s.heap
    × (s.kept ≡ length qs)
    × (s.kept + s.freed ≡ length {A = ℕ} (48 ∷ 32 ∷ 16 ∷ []))
garbage_collect-Reachable_example =
    garbage_collect-Reachable 4 literal_code some_words (array_bits 32 ∷ []) (48 ∷ 32 ∷ 16 ∷ [])
      three_objects three_objects-IsHeap array_resolves (omega arith)
