-- ===== src/EffectStack/Laws.antt =====
-- What the simulated stack says of the stacks that it stands for.
use mathlib.Core.List.{map}
use tails.Prelude.{
  ℕ, zero, suc, ◌+◌, ◌≤◌, ◌≡◌, refl, sym, true, List, [], ◌∷◌, ◌++◌, Option, none, some, arith,
  length, take, drop, get_elem?, get_or, inl, inr, Option-cases, subst,
}
use tails.TypeSet.{TypeSet, no_type, can_be_type, first_type, input_match, ◌∖◌}
use tails.TypeSet.Laws.{can_be_type-∖, first_type-none}
use tails.Result.{ok}
use tails.StackEffect.{StackEffect, outputs}
use tails.Value.{Value, type_of}
use tails.EffectStack.{
  Item, types, EffectStack, item_types, type_check, output_item, merge_items, merge_with,
}
use tails.EffectStack.Fits.{
  Includes, Covers, Fits, Fits-take, Fits-drop, Fits-append, merge_items-Covers,
}

-- The values on top are as many as the entries, and each has a type that its entry allows.
abbrev pub Accepts : List Value → List TypeSet → Type 0
Accepts vs [] = Unit
Accepts [] (t ∷ ts) = ⊥
Accepts (v ∷ vs) (t ∷ ts) = (can_be_type t (type_of v) ≡ true) × Accepts vs ts

-- An item that has no bad type is included in its entry.
no_bad_type : (s u : TypeSet) → first_type (s ∖ u) ≡ none → Includes s u
no_bad_type s u h t m = ground (arith, first_type-none (s ∖ u) h t, can_be_type-∖ s u t)

pub type_check-Accepts :
    (vs : List Value) (items : List Item) (ts : List TypeSet) (i : ℕ)
    → length ts ≤ length items
    → type_check items ts i ≡ none
    → Fits vs items
    → Accepts vs ts
unfolding type_check
type_check-Accepts vs items [] i len h f = tt
type_check-Accepts vs [] (t ∷ ts) i len h f = absurd (omega arith)
type_check-Accepts [] (item ∷ items) (t ∷ ts) i len h f = absurd f
type_check-Accepts (v ∷ vs) (item ∷ items) (t ∷ ts) i len h (f, fs) =
    elim (Option-cases (first_type (item_types item ∖ t))) [
      | inl e ↦ (
        no_bad_type (item_types item) t e (type_of v) f,
        type_check-Accepts vs items ts (i + 1) (omega arith) (ground arith) fs,
      )
      | inr (bad, e) ↦ absurd (ground arith)
    ]

-- An output has the type of the input that it matches, or one that its entry allows.
abbrev SameTypeAs : Value → Option Value → Type 0
SameTypeAs o none = ⊥
SameTypeAs o (some a) = type_of o ≡ type_of a

abbrev ProducesAs : List Value → Value → TypeSet → Option ℕ → Type 0
ProducesAs args o t none = can_be_type t (type_of o) ≡ true
ProducesAs args o t (some k) = SameTypeAs o (get_elem? args k)

abbrev pub Produces : List Value → Value → TypeSet → Type 0
Produces args o t = ProducesAs args o t (input_match t)

abbrev pub ProducesAll : List Value → List Value → List TypeSet → Type 0
ProducesAll args [] [] = Unit
ProducesAll args (o ∷ os) (t ∷ ts) = Produces args o t × ProducesAll args os ts
ProducesAll args _ _ = ⊥

-- The values `after` are what a word with the effect `e` may leave of the values `before`: its
-- inputs are gone, its outputs are in their place, and everything below is untouched.
pub data Honours (e : StackEffect) (before : List Value) : List Value → Type 0 where
  honours :
      {after : List Value} (results : List Value)
      → ProducesAll (take e.ins before) results (outputs e)
      → after ≡ results ++ drop e.ins before
      → Honours e before after

Fits-get :
    (vs : List Value) (xs : List Item) (k : ℕ) (a : Value)
    → Fits vs xs
    → get_elem? vs k ≡ some a
    → can_be_type (item_types (get_or xs k (types no_type))) (type_of a) ≡ true
Fits-get [] xs k a f h = cc
Fits-get (v ∷ vs) [] k a f h = absurd f
Fits-get (v ∷ vs) (x ∷ xs) zero a (f, fs) h = ground arith
Fits-get (v ∷ vs) (x ∷ xs) (suc k) a (f, fs) h = Fits-get vs xs k a fs h

produced_by_input :
    (args : List Value) (items : List Item) (o : Value) (k : ℕ) (found : Option Value)
    → get_elem? args k ≡ found
    → Fits args items
    → SameTypeAs o found
    → can_be_type (item_types (get_or items k (types no_type))) (type_of o) ≡ true
produced_by_input args items o k none e f p = absurd p
produced_by_input args items o k (some a) e f p = rw p (Fits-get args items k a f e)

produced :
    (args : List Value) (items : List Item) (o : Value) (t : TypeSet) (m : Option ℕ)
    → Fits args items
    → ProducesAs args o t m
    → can_be_type
        (item_types
          (elim m as (λ _. Item) [ some k ↦ get_or items k (types no_type) | none ↦ types t ]))
        (type_of o)
      ≡ true
unfolding item_types
produced args items o t none f p = p
produced args items o t (some k) f p = produced_by_input args items o k (get_elem? args k) refl f p

output_item-Fits :
    (args : List Value) (items : List Item) (o : Value) (t : TypeSet)
    → Fits args items
    → Produces args o t
    → can_be_type (item_types (output_item items t)) (type_of o) ≡ true
unfolding output_item
output_item-Fits args items o t f p = produced args items o t (input_match t) f p

outputs-Fits :
    (args : List Value) (items : List Item) (os : List Value) (ts : List TypeSet)
    → Fits args items
    → ProducesAll args os ts
    → Fits os (map (output_item items) ts)
outputs-Fits args items [] [] f p = tt
outputs-Fits args items [] (t ∷ ts) f p = absurd p
outputs-Fits args items (o ∷ os) [] f p = absurd p
outputs-Fits args items (o ∷ os) (t ∷ ts) f (p, ps) =
    (output_item-Fits args items o t f p, outputs-Fits args items os ts f ps)

-- The stack that `add` leaves.
abbrev pub applied : StackEffect → List Item → List Item
applied e items = map (output_item (take e.ins items)) (outputs e) ++ drop e.ins items

pub applied-Fits :
    (e : StackEffect) (items : List Item) (before after : List Value)
    → Fits before items
    → Honours e before after
    → Fits after (applied e items)
applied-Fits e items before after f (honours results p q) =
    subst (λ vs. Fits vs (applied e items)) (sym q)
      (Fits-append results (drop e.ins before) _ (drop e.ins items)
        (outputs-Fits (take e.ins before) (take e.ins items) results (outputs e)
          (Fits-take e.ins before items f) p)
        (Fits-drop e.ins before items f))

-- A merge succeeds at equal depths only, and its stack covers both.
pub merge_with-Covers :
    (s k s' : EffectStack)
    → merge_with s k ≡ ok s'
    → Covers s.stack s'.stack × Covers k.stack s'.stack
unfolding merge_with
merge_with-Covers s k s' h =
    let n : length s.stack ≡ length k.stack = ground arith in
    let e : s'.stack ≡ merge_items s.stack k.stack = ground arith in
    rw e (merge_items-Covers s.stack k.stack n)
