-- ===== src/Gc/Mark/Values.antt =====
-- Marking values, through the objects that they lead to, and how deep it goes.
use tails.Prelude.{
  ℕ, zero, suc, ◌≡◌, refl, sym, ap, subst, ◌⊎◌, inl, inr, [], ◌∷◌, none, some, arith, Option-cases,
}
use tails.Result.{Result, ok, ok-injective}
use tails.NanTagged.{MarkTarget, mark_nothing, mark_string, mark_array, mark_quote, mark_target}
use tails.Gc.{
  Contents, text, items, code, Heap, literals, set_mark, mark_unmarked, mark_object, mark_value,
}
use tails.Gc.Mark.{
  Points, found_literals, Marking, Marks, Marking-refl, marked-Marking, node-Marking,
  mark_unmarked-Marking,
}

module _ (go : ℕ → Heap → Result Heap) (m : Marks go) (v p : ℕ) (h h' : Heap)
    (pt : Points v p) where
  string-Marking :
      (c : Contents)
      → h.object p ≡ some c
      → mark_object go (mark_string p) h ≡ ok h'
      → Marking (v ∷ []) h h'
  unfolding mark_object
  string-Marking (text s) o e =
      let e' : set_mark p h ≡ h' = ground arith in
      subst (Marking (v ∷ []) h) e'
        (node-Marking v p (text s) h (set_mark p h) pt o (Marking-refl (set_mark p h)))
  string-Marking (items vs) o e = absurd (ground arith)
  string-Marking (code cells) o e = absurd (ground arith)

  array-Marking :
      (c : Contents)
      → h.object p ≡ some c
      → mark_object go (mark_array p) h ≡ ok h'
      → Marking (v ∷ []) h h'
  unfolding mark_object
  array-Marking (items vs) o e =
      let e' : mark_unmarked go (h.marked p) p (ok vs) h ≡ ok h' = ground arith in
      mark_unmarked-Marking go m v p (items vs) (ok vs) h h' pt o (λ xs q. sym (ok-injective q)) e'
  array-Marking (text s) o e = absurd (ground arith)
  array-Marking (code cells) o e = absurd (ground arith)

  quote-Marking :
      (c : Contents)
      → h.object p ≡ some c
      → mark_object go (mark_quote p) h ≡ ok h'
      → Marking (v ∷ []) h h'
  unfolding mark_object
  quote-Marking (code cells) o e =
      let e' : mark_unmarked go (h.marked p) p (literals cells) h ≡ ok h' = ground arith in
      mark_unmarked-Marking go m v p (code cells) (literals cells) h h' pt o
        (λ xs q. sym (ap found_literals q)) e'
  quote-Marking (text s) o e = absurd (ground arith)
  quote-Marking (items vs) o e = absurd (ground arith)

-- An access to no object is refused.
no_object :
    (go : ℕ → Heap → Result Heap) (p : ℕ) (h h' : Heap)
    → h.object p ≡ none
    → (t : MarkTarget) → (t ≡ mark_string p) ⊎ (t ≡ mark_array p) ⊎ (t ≡ mark_quote p)
    → mark_object go t h ≡ ok h'
    → ⊥
unfolding mark_object
no_object go p h h' n (mark_nothing) s e = ground arith
no_object go p h h' n (mark_string q) s e = ground arith
no_object go p h h' n (mark_array q) s e = ground arith
no_object go p h h' n (mark_quote q) s e = ground arith

target-Marking :
    (go : ℕ → Heap → Result Heap)
    → Marks go
    → (v : ℕ) (t : MarkTarget) (h h' : Heap) → mark_target v ≡ t
    → mark_object go t h ≡ ok h'
    → Marking (v ∷ []) h h'
target-Marking go m v mark_nothing h h' t e =
    subst (Marking (v ∷ []) h) (nothing e) (marked-Marking v h (λ p pt. absurd (cc)))
  where
    nothing : mark_object go mark_nothing h ≡ ok h' → h ≡ h'
    nothing e = unfold mark_object in ok-injective e
target-Marking go m v (mark_string p) h h' t e = elim (Option-cases (h.object p)) [
  | inl o ↦ absurd (no_object go p h h' o (mark_string p) (inl refl) e)
  | inr (c, o) ↦ string-Marking go m v p h h' (rw t refl) c o e
]
target-Marking go m v (mark_array p) h h' t e = elim (Option-cases (h.object p)) [
  | inl o ↦ absurd (no_object go p h h' o (mark_array p) (inr (inl refl)) e)
  | inr (c, o) ↦ array-Marking go m v p h h' (rw t refl) c o e
]
target-Marking go m v (mark_quote p) h h' t e = elim (Option-cases (h.object p)) [
  | inl o ↦ absurd (no_object go p h h' o (mark_quote p) (inr (inr refl)) e)
  | inr (c, o) ↦ quote-Marking go m v p h h' (rw t refl) c o e
]

pub mark_value-Marking : (fuel : ℕ) → Marks (mark_value fuel)
unfolding mark_value
mark_value-Marking zero v h h' e = absurd (cc)
mark_value-Marking (suc fuel) v h h' e =
    target-Marking (mark_value fuel) (mark_value-Marking fuel) v (mark_target v) h h' refl e
