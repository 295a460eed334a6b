-- ===== src/EffectStack/Apply.antt =====
-- What `EffectStack::add` and `mergeWith` of src/compiler/compiler+stackcheck.hh say about the
-- values that a simulated stack stands for.
use tails.Prelude.{
  ℕ, suc, inl, inr, ◌⊎◌, Bool-cases, ltb, ltb→lt, ◌+◌, ◌≤◌, ◌<◌, ◌≢◌, ◌≡◌, refl, sym, ap, subst,
  ◌∙◌, true, false, List, [], ◌∷◌, none, some, arith, length, take, get_elem?, length-take,
  Option-cases, some_cancel, length-reverse,
}
use tails.TypeSet.{ValueType, TypeSet, can_be_type, first_type, ◌∖◌}
use tails.TypeSet.Laws.{first_type-some, can_be_type-∖}
use tails.Result.{Error, ok, err, would_underflow, inconsistent_depth, type_mismatch}
use tails.StackEffect.{StackEffect, inputs, input_count}
use tails.Value.{Value}
use tails.EffectStack.{
  Item, EffectStack, item_types, type_check, add_effect, merge_with, merge_items,
}
use tails.EffectStack.Laws.{
  Accepts, type_check-Accepts, Honours, applied, applied-Fits, merge_with-Covers,
}
use tails.EffectStack.Fits.{Covers, Fits}

pub length-inputs-le : (e : StackEffect) → length (inputs e) ≤ e.ins
unfolding inputs
length-inputs-le e =
    omega (arith, length-reverse (take e.ins e.entries), length-take e.ins e.entries)

-- What `add` has checked, and the stack that it leaves.
pub add_effect_lem :
    (e : StackEffect) (s s' : EffectStack)
    → add_effect e s ≡ ok s'
    → (e.ins ≤ length s.stack)
      × (type_check s.stack (inputs e) 0 ≡ none)
      × (s'.stack ≡ applied e s.stack)
unfolding add_effect input_count
add_effect_lem e s s' h = ground arith

-- When `add` accepts a word with the effect `e` and the values `vs` fit the simulated stack, they
-- meet the word's inputs, and whatever the word makes of them within its effect fits the simulated
-- stack that `add` leaves.
pub add_effect-Fits :
    (e : StackEffect) (s s' : EffectStack) (vs : List Value)
    → add_effect e s ≡ ok s'
    → Fits vs s.stack
    → Accepts vs (inputs e) × ((vs' : List Value) → Honours e vs vs' → Fits vs' s'.stack)
add_effect-Fits e s s' vs h f =
    let (n, t, r) = add_effect_lem e s s' h in
    (
      type_check-Accepts vs s.stack (inputs e) 0 (omega (arith, n, length-inputs-le e)) t f,
      λ vs' k. subst (Fits vs') (sym r) (applied-Fits e s.stack vs vs' f k),
    )

-- `bad` is a type that the item at `k` may have and the entry at `k` forbids.
pub record Mismatch (items : List Item) (ts : List TypeSet) (bad : ValueType) (k : ℕ) : Type 0 where
  pub item : Item
  pub entry : TypeSet
  pub at_item : get_elem? items k ≡ some item
  pub at_entry : get_elem? ts k ≡ some entry
  pub allowed : can_be_type (item_types item) bad ≡ true
  pub forbidden : can_be_type entry bad ≡ false

first_type-Mismatch :
    (item : Item) (items : List Item) (t : TypeSet) (ts : List TypeSet) (bad : ValueType)
    → first_type (item_types item ∖ t) ≡ some bad
    → Mismatch (item ∷ items) (t ∷ ts) bad 0
first_type-Mismatch item items t ts bad h =
    let m = first_type-some (item_types item ∖ t) bad h in
    let d = can_be_type-∖ (item_types item) t bad in
    record {
      item = item;
      entry = t;
      at_item = refl;
      at_entry = refl;
      allowed = ground (arith, m, d);
      forbidden = ground (arith, m, d);
    }

type_check-Mismatch :
    (items : List Item) (ts : List TypeSet) (i : ℕ) (bad : ValueType) (n : ℕ)
    → type_check items ts i ≡ some (bad, n)
    → (k : ℕ) × (n ≡ i + k) × Mismatch items ts bad k
unfolding type_check
type_check-Mismatch items [] i bad n h = cc
type_check-Mismatch [] (t ∷ ts) i bad n h = cc
type_check-Mismatch (item ∷ items) (t ∷ ts) i bad n h =
    elim (Option-cases (first_type (item_types item ∖ t))) [
      | inl e ↦
          let (k, at, m) = type_check-Mismatch items ts (i + 1) bad n (ground arith) in
          (
            suc k,
            omega (arith, at),
            record {
              item = m.item;
              entry = m.entry;
              at_item = m.at_item;
              at_entry = m.at_entry;
              allowed = m.allowed;
              forbidden = m.forbidden;
            },
          )
      | inr (b, e) ↦
          let h' : some (b, i) ≡ some (bad, n) = ground arith in
          let same = some_cancel h' in
          (
            0,
            omega (arith, ap (λ (r : ValueType × ℕ). r.1) same),
            first_type-Mismatch item items t ts bad
                (e ∙ ap some (ap (λ (r : ValueType × ℕ). r.0) same)),
          )
    ]

-- `mergeWith` refuses stacks of different depths, and merges stacks of one depth to a stack that
-- stands for every value that either stood for.
pub merge_with-total :
    (s k : EffectStack)
    → (length s.stack ≢ length k.stack → merge_with s k ≡ err inconsistent_depth)
      × (length s.stack ≡ length k.stack
          → (s' : EffectStack) × (merge_with s k ≡ ok s')
            × Covers s.stack s'.stack
            × Covers k.stack s'.stack)
unfolding merge_with
merge_with-total s k = (λ h. ground arith, λ h. merged h)
  where
    merged :
        length s.stack ≡ length k.stack
        → (s' : EffectStack) × (merge_with s k ≡ ok s')
          × Covers s.stack s'.stack
          × Covers k.stack s'.stack
    merged h =
        let e : merge_with s k ≡ ok (record s { stack = merge_items s.stack k.stack }) =
          ground arith in
        (
          record s { stack = merge_items s.stack k.stack },
          e,
          (merge_with-Covers s k _ e).0,
          (merge_with-Covers s k _ e).1,
        )

-- When `add` refuses a word, the stack holds fewer items than the word has inputs, or the type and
-- the depth that the error names are a type that the item at that depth may have and the word's
-- input there forbids.
pub add_effect-refused :
    (e : StackEffect) (s : EffectStack) (x : Error)
    → add_effect e s ≡ err x
    → ((x ≡ would_underflow) × (length s.stack < e.ins))
      ⊎ ((bad : ValueType) × (k : ℕ) × (x ≡ type_mismatch bad k)
          × Mismatch s.stack (inputs e) bad k)
unfolding add_effect input_count
add_effect-refused e s x h = elim (Bool-cases (ltb (length s.stack) e.ins)) [
  | inl few ↦ inl (ground arith, ltb→lt (length s.stack) e.ins few)
  | inr enough ↦ elim (Option-cases (type_check s.stack (inputs e) 0)) [
    | inl none_bad ↦ absurd (ground arith)
    | inr ((bad, k), found) ↦
        let (k', at, m) = type_check-Mismatch s.stack (inputs e) 0 bad k found in
        let at' : k ≡ k' = omega (arith, at) in
        let named : x ≡ type_mismatch bad k = ground arith in
        inr (bad, k', named ∙ ap (type_mismatch bad) at', m)
  ]
]
