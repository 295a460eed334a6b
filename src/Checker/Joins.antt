-- ===== src/Checker/Joins.antt =====
-- Where flows of control meet: the stacks remembered at the positions, and the effects that differ
-- in their growth alone, whatever code is checked.
use tails.Prelude.{
  ℕ, ◌≤◌, ◌≡◌, refl, sym, inl, inr, Bool, true, false, List, [], ◌∷◌, Option, none, some, arith,
  ◌==◌, ==_iff, if◌then◌else◌, length, take, drop, Bool-cases, subst, length-take, length-reverse,
  length-drop,
}
use tails.Result.{Result, ok, ◌>>=◌, ok-injective}
use tails.StackEffect.{StackEffect, inputs, outputs, output_count, with_max}
use tails.EffectStack.{
  Item, EffectStack, depth, same_stack, same_items, type_check, add_effect, merge_with,
  check_outputs, add_extra_outputs,
}
use tails.EffectStack.Laws.{applied, merge_with-Covers}
use tails.EffectStack.Fits.{Covers, Covers-refl, Covers-trans, same_items-Covers}
use tails.Checker.{Checker, update, join, supply_inputs}

-- Two effects that differ in their growth at most.
abbrev pub SameShape : StackEffect → StackEffect → Type 0
SameShape e f = (e.entries ≡ f.entries) × (e.ins ≡ f.ins) × (e.outs ≡ f.outs)

pub inputs-SameShape : (e f : StackEffect) → SameShape e f → inputs e ≡ inputs f
unfolding inputs
inputs-SameShape e f (p, q, r) = rw (p, q)

pub outputs-SameShape : (e f : StackEffect) → SameShape e f → outputs e ≡ outputs f
unfolding outputs
outputs-SameShape e f (p, q, r) = rw (p, q, r)

pub applied-SameShape :
    (e f : StackEffect) (k : List Item) → SameShape e f → applied e k ≡ applied f k
applied-SameShape e f k h = rw (outputs-SameShape e f h, h.1)

pub length-outputs-le : (e : StackEffect) → length (outputs e) ≤ e.outs
unfolding outputs
length-outputs-le e = omega (
  arith,
  length-reverse (take e.outs (drop e.ins e.entries)),
  length-take e.outs (drop e.ins e.entries),
)

pub supply_none :
    (b : Bool) (e : StackEffect) (s s' : EffectStack) (c c' : Checker)
    → b ≡ false
    → ◌>>=◌ {B = EffectStack × Checker}
        (supply_inputs b (drop (depth s) (inputs e)) s c.effect)
        (λ x.
          ◌>>=◌ {B = EffectStack × Checker}
            (add_effect e x.0)
            (λ s″. ok (s″, record c { effect = x.1 })))
      ≡ ok (s', c')
    → ◌>>=◌ {B = EffectStack × Checker} (add_effect e s) (λ s″. ok (s″, c)) ≡ ok (s', c')
unfolding supply_inputs
supply_none true e s s' c c' f h = cc
supply_none false e s s' c c' f h = h

no_extra_outputs :
    (xs : List Item) (e e' : StackEffect)
    → add_extra_outputs xs false e ≡ ok e'
    → (xs ≡ []) × (e' ≡ e)
unfolding add_extra_outputs
no_extra_outputs [] e e' h = (refl, sym (ok-injective h))
no_extra_outputs (x ∷ xs) e e' h = cc

pub check_outputs_lem :
    (e e' : StackEffect) (s : EffectStack)
    → check_outputs e false s ≡ ok e'
    → (e' ≡ e) × (length s.stack ≡ e.outs) × (type_check s.stack (outputs e) 0 ≡ none)
unfolding check_outputs output_count
check_outputs_lem e e' s h =
    ground (arith, no_extra_outputs (drop e.outs s.stack) e e', length-drop e.outs s.stack)

no_merge :
    (b : Bool) (r : Result EffectStack)
    → ◌≡◌ {A = Result (Option EffectStack)}
        (if b then ok none else ◌>>=◌ {B = Option EffectStack} r (λ s. ok (some s)))
        (ok none)
    → b ≡ true
no_merge b r h = ground arith

-- A stack that covers `x` is remembered at `j`.
abbrev pub Reaches : (ℕ → Option EffectStack) → ℕ → List Item → Type 0
Reaches known j x = (k : EffectStack) × (known j ≡ some k) × Covers x k.stack

abbrev pub Grows : (ℕ → Option EffectStack) → (ℕ → Option EffectStack) → Type 0
Grows known known' = (j : ℕ) (k : EffectStack) → known j ≡ some k → Reaches known' j k.stack

pub grown-SameShape :
    (b : Bool) (m : ℕ) (e : StackEffect) → SameShape (if b then with_max m e else e) e
unfolding with_max
grown-SameShape true m e = (refl, refl, refl)
grown-SameShape false m e = (refl, refl, refl)

pub join-some :
    (known : Option EffectStack) (s s' : EffectStack)
    → join known s ≡ ok (some s')
    → Covers s.stack s'.stack × ((k : EffectStack) → known ≡ some k → Covers k.stack s'.stack)
unfolding join
join-some none s s' h =
    let e : s ≡ s' = cc in
    (subst (λ x. Covers s.stack x.stack) e (Covers-refl s.stack), λ k e. absurd (cc))
join-some (some k) s s' h =
    let m : merge_with s k ≡ ok s' = ground arith in
    let (p, q) = merge_with-Covers s k s' m in
    (p, λ k' e. let f : k ≡ k' = cc in subst (λ x. Covers x.stack s'.stack) f q)

pub join-none :
    (known : Option EffectStack) (s : EffectStack)
    → join known s ≡ ok none
    → (k : EffectStack) × (known ≡ some k) × Covers s.stack k.stack
unfolding join same_stack
join-none none s h = absurd (cc)
join-none (some k) s h =
    (k, refl, same_items-Covers k.stack s.stack (no_merge (same_items k.stack s.stack) _ h))

pub update_same :
    (known : ℕ → Option EffectStack) (i : ℕ) (s : EffectStack) → update known i s i ≡ some s
update_same known i s = rw ((==_iff i i).1 refl)

-- Remembering a stack that covers the one remembered before keeps every position reached.
pub remember-Reaches :
    (known : ℕ → Option EffectStack) (i j : ℕ) (s : EffectStack) (x : List Item)
    → ((k : EffectStack) → known i ≡ some k → Covers k.stack s.stack)
    → Reaches known j x
    → Reaches (update known i s) j x
remember-Reaches known i j s x covers (k, e, c) = elim (Bool-cases (i == j)) [
  | inl same ↦
      let same' : j ≡ i = sym ((==_iff i j).0 same) in
      (s, rw same, Covers-trans x k.stack s.stack c (covers k (rw same' at e)))
  | inr other ↦ (k, rw other e, c)
]

pub Grows-Reaches :
    (known known' : ℕ → Option EffectStack) (j : ℕ) (x : List Item)
    → Grows known known'
    → Reaches known j x
    → Reaches known' j x
Grows-Reaches known known' j x g (k, e, c) =
    let (k', e', c') = g j k e in (k', e', Covers-trans x k.stack k'.stack c c')
