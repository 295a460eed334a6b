-- ===== src/Gc/Mark/Ends.antt =====
-- Marking ends, and without an invalid access, when every value leads to an object of its class:
-- each call below another one marks one more object.
use tails.Prelude.{
  ℕ, zero, suc, ◌+◌, ◌≤◌, ◌<◌, ◌≡◌, refl, ap, ◌∙◌, subst, inl, inr, Bool, true, false, List, [],
  ◌∷◌, Option, some, arith, ◌==◌, ==_iff, Bool-cases, if◌then◌else◌,
}
use tails.Result.{Result, ok}
use tails.NanTagged.{MarkTarget, mark_nothing, mark_string, mark_array, mark_quote, mark_target}
use tails.Gc.{
  Cell, Contents, text, items, code, Heap, put, literals, set_mark, mark_each, mark_unmarked,
  mark_object, mark_value,
}
use tails.Prelude.Members.{In}
use tails.Gc.Mark.{values_of}
use tails.Gc.Mark.Values.{mark_value-Marking}

-- An object of the class that the value says is there, with code that ends in RETURN.
abbrev pub Resolves : (ℕ → Option Contents) → MarkTarget → Type 0
Resolves object mark_nothing = Unit
Resolves object (mark_string p) = (s : List ℕ) × (object p ≡ some (text s))
Resolves object (mark_array p) = (vs : List ℕ) × (object p ≡ some (items vs))
Resolves object (mark_quote p) =
    (cells : List Cell) × (vs : List ℕ) × (object p ≡ some (code cells)) × (literals cells ≡ ok vs)

abbrev pub AllResolve : (ℕ → Option Contents) → List ℕ → Type 0
AllResolve object vs = (v : ℕ) → In v vs → Resolves object (mark_target v)

abbrev pub IsClean : (ℕ → Option Contents) → Type 0
IsClean object = (p : ℕ) (c : Contents) → object p ≡ some c → AllResolve object (values_of c)

abbrev pub unmarked : List ℕ → (ℕ → Bool) → ℕ
unmarked [] m = 0
unmarked (p ∷ ps) m = (if m p then 0 else 1) + unmarked ps m

unmarked-le :
    (ps : List ℕ) (m m' : ℕ → Bool)
    → ((p : ℕ) → m p ≡ true → m' p ≡ true)
    → unmarked ps m' ≤ unmarked ps m
unmarked-le [] m m' f = omega arith
unmarked-le (p ∷ ps) m m' f = elim (Bool-cases (m p)) [
  | inl e ↦ ground (arith, f p e, unmarked-le ps m m' f)
  | inr e ↦ ground (arith, unmarked-le ps m m' f)
]

kept : (m : ℕ → Bool) (p q : ℕ) → m q ≡ true → put m p true q ≡ true
kept m p q k = ground arith

unmarked-put :
    (ps : List ℕ) (m : ℕ → Bool) (p : ℕ)
    → In p ps
    → m p ≡ false
    → unmarked ps (put m p true) < unmarked ps m
unmarked-put [] m p i n = absurd i
unmarked-put (q ∷ ps) m p (inl s) n =
    let e : m q ≡ false = subst (λ x. m x ≡ false) s n in
    let e' : (p == q) ≡ true = (==_iff p q).1 s in
    let rest = unmarked-le ps m (put m p true) (kept m p) in ground (arith, rest, e, e')
unmarked-put (q ∷ ps) m p (inr i) n = elim (Bool-cases (p == q)) [
  | inl e ↦
      let f : m q ≡ false = subst (λ x. m x ≡ false) ((==_iff p q).0 e) n in
      ground (arith, unmarked-put ps m p i n, e, f)
  | inr e ↦ ground (arith, unmarked-put ps m p i n, e)
]

module _ (object : ℕ → Option Contents) (ps : List ℕ) (clean : IsClean object)
    (all : (p : ℕ) (c : Contents) → object p ≡ some c → In p ps) where
  abbrev pub Ends : ℕ → Type 0
  Ends fuel =
      (v : ℕ) (h : Heap)
      → h.object ≡ object
      → Resolves object (mark_target v)
      → unmarked ps h.marked < fuel
      → (h' : Heap) × (mark_value fuel v h ≡ ok h')

  pub mark_each-Ends :
      (fuel : ℕ)
      → Ends fuel
      → (vs : List ℕ) (h : Heap) → h.object ≡ object
      → AllResolve object vs
      → unmarked ps h.marked < fuel
      → (h' : Heap) × (mark_each (mark_value fuel) vs h ≡ ok h')
  unfolding mark_each
  mark_each-Ends fuel ends [] h o r n = (h, refl)
  mark_each-Ends fuel ends (v ∷ vs) h o r n =
      let (h₁, e₁) = ends v h o (r v (inl refl)) n in
      let m = mark_value-Marking fuel v h h₁ e₁ in
      let (h₂, e₂) =
        mark_each-Ends fuel ends vs h₁ (ap (λ x. x.object) m.same ∙ o) (λ w i. r w (inr i))
          (omega (arith, unmarked-le ps h.marked h₁.marked m.keeps)) in
      (h₂, rw e₁ e₂)

  mark_unmarked-Ends :
      (fuel p : ℕ) (c : Contents) (vs : Result (List ℕ)) (h : Heap)
      → Ends fuel
      → h.object ≡ object
      → object p ≡ some c
      → vs ≡ ok (values_of c)
      → unmarked ps h.marked < suc fuel
      → (h' : Heap) × (mark_unmarked (mark_value fuel) (h.marked p) p vs h ≡ ok h')
  unfolding mark_unmarked
  mark_unmarked-Ends fuel p c vs h ends o e l n = elim (Bool-cases (h.marked p)) [
    | inl k ↦ (h, rw k refl)
    | inr k ↦
        let (h', e') =
          mark_each-Ends fuel ends (values_of c) (set_mark p h) o (clean p c e)
            (omega (arith, n, unmarked-put ps h.marked p (all p c e) k)) in
        (h', rw (k, l) e')
  ]

  target-Ends :
      (fuel : ℕ) (t : MarkTarget) (h : Heap)
      → Ends fuel
      → h.object ≡ object
      → Resolves object t
      → unmarked ps h.marked < suc fuel
      → (h' : Heap) × (mark_object (mark_value fuel) t h ≡ ok h')
  unfolding mark_object
  target-Ends fuel mark_nothing h ends o r n = (h, refl)
  target-Ends fuel (mark_string p) h ends o (s, e) n =
      (set_mark p h, rw (mark_object, ap (λ (f : ℕ → Option Contents). f p) o ∙ e) refl)
  target-Ends fuel (mark_array p) h ends o (vs, e) n =
      let (h', e') = mark_unmarked-Ends fuel p (items vs) (ok vs) h ends o e refl n in
      (h', rw (mark_object, ap (λ (f : ℕ → Option Contents). f p) o ∙ e) e')
  target-Ends fuel (mark_quote p) h ends o (cells, vs, e, l) n =
      let (h', e') =
        mark_unmarked-Ends fuel p (code cells) (literals cells) h ends o e (rw l refl) n in
      (h', rw (mark_object, ap (λ (f : ℕ → Option Contents). f p) o ∙ e) e')

  pub mark_value-Ends : (fuel : ℕ) → Ends fuel
  unfolding mark_value
  mark_value-Ends zero v h o r n = absurd (omega arith)
  mark_value-Ends (suc fuel) v h o r n =
      target-Ends fuel (mark_target v) h (mark_value-Ends fuel) o r n
