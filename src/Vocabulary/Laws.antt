-- ===== src/Vocabulary/Laws.antt =====
-- What the lookups find after words are added, and what the collector's scan visits.
use tails.Prelude.{
  ℕ, zero, suc, ◌≡◌, ◌≢◌, refl, sym, ap, ◌∙◌, inl, inr, List, [], ◌∷◌, ◌++◌, none, some, arith,
  Bool-cases, Option-cases,
}
use tails.Value.{same_bytes}
use tails.Value.Laws.{same_bytes-eq, same_bytes_refl}
use tails.Vocabulary.{
  NamedWord, Vocabulary, upper, find, add, lookup, same_place, begin, end, scan_from, gc_scan,
}

find-append_some :
    (key : List ℕ) (v : Vocabulary) (w x : NamedWord)
    → find key v ≡ some x
    → find key (v ++ w ∷ []) ≡ some x
unfolding find
find-append_some key [] w x h = cc
find-append_some key (u ∷ v) w x h = elim (Bool-cases (same_bytes u.name key)) [
  | inl e ↦ ground arith
  | inr e ↦ ground (arith, find-append_some key v w x (ground arith))
]

find-append_none :
    (key : List ℕ) (v : Vocabulary) (w : NamedWord)
    → find key v ≡ none
    → find key (v ++ w ∷ []) ≡ find key (w ∷ [])
unfolding find
find-append_none key [] w h = refl
find-append_none key (u ∷ v) w h = elim (Bool-cases (same_bytes u.name key)) [
  | inl e ↦ absurd (ground arith)
  | inr e ↦ ground (arith, find-append_none key v w (ground arith))
]

add-cases :
    (P : Vocabulary → Type 0) (w : NamedWord) (v : Vocabulary)
    → ((x : NamedWord) → find w.name v ≡ some x → P v)
    → (find w.name v ≡ none → P (v ++ w ∷ []))
    → P (add w v)
unfolding add
add-cases P w v p q = elim (Option-cases (find w.name v)) [
  | inl e ↦ rw (add, e) (q e)
  | inr (x, e) ↦ rw (add, e) (p x e)
]

-- After `add`, a name that was found is found as before. A name that was not found is found where
-- it is the new word's in capitals, and only there.
pub lookup-add :
    (name : List ℕ) (w : NamedWord) (v : Vocabulary)
    → ((x : NamedWord) → lookup name v ≡ some x → lookup name (add w v) ≡ some x)
      × (lookup name v ≡ none → upper name ≡ w.name → lookup name (add w v) ≡ some w)
      × (lookup name v ≡ none → upper name ≢ w.name → lookup name (add w v) ≡ none)
unfolding lookup find
lookup-add name w v = (
  λ x h.
      add-cases (λ v'. find (upper name) v' ≡ some x) w v (λ y e. h)
        (λ e. find-append_some (upper name) v w x h),
  λ h e.
      add-cases (λ v'. find (upper name) v' ≡ some w) w v
        (λ y f. absurd (ground (arith, h, f, ap (λ k. find k v) e)))
        (λ f. find-append_none (upper name) v w h ∙ rw (e, same_bytes_refl w.name) refl),
  λ h n.
      add-cases (λ v'. find (upper name) v' ≡ none) w v (λ y e. h)
        (λ f.
          find-append_none (upper name) v w h ∙ elim (Bool-cases (same_bytes w.name (upper name))) [
            | inl g ↦ absurd (n (sym (same_bytes-eq w.name (upper name) g)))
            | inr g ↦ rw g refl
          ]),
)

-- The loop over all words of the active vocabularies visits none, since the iterators of its two
-- ends stand at the same vocabulary.
pub gc_scan-empty : (fuel : ℕ) (active : List Vocabulary) → gc_scan fuel active ≡ []
unfolding gc_scan scan_from same_place begin end
gc_scan-empty zero active = refl
gc_scan-empty (suc fuel) active = ground arith
