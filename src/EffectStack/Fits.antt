-- ===== src/EffectStack/Fits.antt =====
-- The stacks of values that a stack of the checker stands for, and how stacks compare.
use tails.Prelude.{
  ℕ, zero, suc, ◌≡◌, refl, sym, ap, ◌∙◌, true, false, List, [], ◌∷◌, ◌++◌, arith, length, take,
  drop, inl, inr, Bool-cases,
}
use tails.TypeSet.{ValueType, TypeSet, can_be_type, of_type, ◌∪◌}
use tails.TypeSet.Laws.{can_be_type-∪, same_types-can_be_type}
use tails.Value.{Value, type_of}
use tails.Value.Laws.{same_value_iff}
use tails.EffectStack.{
  Item, types, literal, item_types, same_item, same_items, merge_item, merge_items,
}

abbrev pub Includes : TypeSet → TypeSet → Type 0
Includes s u = (t : ValueType) → can_be_type s t ≡ true → can_be_type u t ≡ true

-- The second stack allows every type that the first does, item by item.
abbrev pub Covers : List Item → List Item → Type 0
Covers [] [] = Unit
Covers (a ∷ rest) (b ∷ others) = Includes (item_types a) (item_types b) × Covers rest others
Covers _ _ = ⊥

-- The values are as many as the items, and each has a type that its item allows.
abbrev pub Fits : List Value → List Item → Type 0
Fits [] [] = Unit
Fits (v ∷ vs) (a ∷ rest) = (can_be_type (item_types a) (type_of v) ≡ true) × Fits vs rest
Fits _ _ = ⊥

pub Covers-refl : (xs : List Item) → Covers xs xs
Covers-refl [] = tt
Covers-refl (a ∷ xs) = (λ t h. h, Covers-refl xs)

pub Covers-trans : (xs ys zs : List Item) → Covers xs ys → Covers ys zs → Covers xs zs
Covers-trans [] [] [] p q = tt
Covers-trans [] [] (c ∷ zs) p q = q
Covers-trans [] (b ∷ ys) zs p q = absurd p
Covers-trans (a ∷ xs) [] zs p q = absurd p
Covers-trans (a ∷ xs) (b ∷ ys) [] p q = q
Covers-trans (a ∷ xs) (b ∷ ys) (c ∷ zs) (p, ps) (q, qs) =
    (λ t h. q t (p t h), Covers-trans xs ys zs ps qs)

pub Fits-Covers : (vs : List Value) (xs ys : List Item) → Fits vs xs → Covers xs ys → Fits vs ys
Fits-Covers [] [] [] f c = tt
Fits-Covers [] [] (b ∷ ys) f c = c
Fits-Covers [] (a ∷ xs) ys f c = absurd f
Fits-Covers (v ∷ vs) [] ys f c = absurd f
Fits-Covers (v ∷ vs) (a ∷ xs) [] f c = c
Fits-Covers (v ∷ vs) (a ∷ xs) (b ∷ ys) (f, fs) (c, cs) =
    (c (type_of v) f, Fits-Covers vs xs ys fs cs)

pub length-Fits : (vs : List Value) (xs : List Item) → Fits vs xs → length vs ≡ length xs
length-Fits [] [] f = refl
length-Fits [] (a ∷ xs) f = absurd f
length-Fits (v ∷ vs) [] f = absurd f
length-Fits (v ∷ vs) (a ∷ xs) (f, fs) = ap suc (length-Fits vs xs fs)

pub Fits-take :
    (n : ℕ) (vs : List Value) (xs : List Item) → Fits vs xs → Fits (take n vs) (take n xs)
Fits-take zero vs xs f = tt
Fits-take (suc n) [] [] f = tt
Fits-take (suc n) [] (a ∷ xs) f = absurd f
Fits-take (suc n) (v ∷ vs) [] f = absurd f
Fits-take (suc n) (v ∷ vs) (a ∷ xs) (f, fs) = (f, Fits-take n vs xs fs)

pub Fits-drop :
    (n : ℕ) (vs : List Value) (xs : List Item) → Fits vs xs → Fits (drop n vs) (drop n xs)
Fits-drop zero vs xs f = f
Fits-drop (suc n) [] [] f = tt
Fits-drop (suc n) [] (a ∷ xs) f = absurd f
Fits-drop (suc n) (v ∷ vs) [] f = absurd f
Fits-drop (suc n) (v ∷ vs) (a ∷ xs) (f, fs) = Fits-drop n vs xs fs

pub Fits-append :
    (vs ws : List Value) (xs ys : List Item) → Fits vs xs → Fits ws ys → Fits (vs ++ ws) (xs ++ ys)
Fits-append [] ws [] ys f g = g
Fits-append [] ws (a ∷ xs) ys f g = absurd f
Fits-append (v ∷ vs) ws [] ys f g = absurd f
Fits-append (v ∷ vs) ws (a ∷ xs) ys (f, fs) g = (f, Fits-append vs ws xs ys fs g)

-- Equal items allow the same types.
same_item-Includes :
    (a b : Item)
    → same_item a b ≡ true
    → (t : ValueType) → can_be_type (item_types a) t ≡ can_be_type (item_types b) t
unfolding same_item item_types
same_item-Includes (types s) (types u) h t = same_types-can_be_type s u h t
same_item-Includes (literal v) (literal w) h t =
    ap (λ x. can_be_type (of_type (type_of x)) t) ((same_value_iff v w).0 h)
same_item-Includes (types s) (literal w) h t = cc
same_item-Includes (literal v) (types u) h t = cc

pub same_items-Covers : (xs ys : List Item) → same_items xs ys ≡ true → Covers ys xs
unfolding same_items
same_items-Covers [] [] h = tt
same_items-Covers [] (b ∷ ys) h = absurd_bool h
  where
    absurd_bool : false ≡ true → ⊥
    absurd_bool e = cc
same_items-Covers (a ∷ xs) [] h = absurd_bool h
  where
    absurd_bool : false ≡ true → ⊥
    absurd_bool e = cc
same_items-Covers (a ∷ xs) (b ∷ ys) h =
    let p : same_item a b ≡ true = ground arith in
    (λ t m. same_item-Includes a b p t ∙ m, same_items-Covers xs ys (ground arith))

Includes-∪_left : (s u : TypeSet) → Includes s (s ∪ u)
Includes-∪_left s u t h = ground (arith, can_be_type-∪ s u t)

Includes-∪_right : (s u : TypeSet) → Includes u (s ∪ u)
Includes-∪_right s u t h = ground (arith, can_be_type-∪ s u t)

-- A merged item allows what either item allows.
merge_item-Includes :
    (a b : Item)
    → Includes (item_types a) (item_types (merge_item a b))
      × Includes (item_types b) (item_types (merge_item a b))
unfolding merge_item
merge_item-Includes a b = elim (Bool-cases (same_item b a)) [
  | inl e ↦ rw e (λ t h. h, λ t h. sym (same_item-Includes b a e t) ∙ h)
  | inr e ↦ rw e (
      unfold item_types in
      (
        Includes-∪_left (item_types a) (item_types b),
        Includes-∪_right (item_types a) (item_types b),
      ))
]

pub merge_items-Covers :
    (xs ys : List Item)
    → length xs ≡ length ys
    → Covers xs (merge_items xs ys) × Covers ys (merge_items xs ys)
unfolding merge_items
merge_items-Covers [] [] h = (tt, tt)
merge_items-Covers [] (b ∷ ys) h = absurd (omega arith)
merge_items-Covers (a ∷ xs) [] h = absurd (omega arith)
merge_items-Covers (a ∷ xs) (b ∷ ys) h =
    let (p, q) = merge_item-Includes a b in
    let (ps, qs) = merge_items-Covers xs ys (omega arith) in ((p, ps), (q, qs))
