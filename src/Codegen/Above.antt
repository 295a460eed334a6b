-- ===== src/Codegen/Above.antt =====
-- What a word does to the values on top is what it does above others.
use mathlib.Core.List.{append_assoc}
use tails.Prelude.{
  ℕ, zero, suc, ◌+◌, ◌≤◌, ◌≡◌, refl, sym, ap, ◌∙◌, subst, List, [], ◌∷◌, ◌++◌, some, arith, length,
  take, drop, get_elem?,
}
use tails.TypeSet.{TypeSet}
use tails.StackEffect.{StackEffect, outputs}
use tails.Value.{Value}
use tails.EffectStack.Laws.{Accepts, Honours, honours, ProducesAll}

pub Accepts-append :
    (vs below : List Value) (ts : List TypeSet) → Accepts vs ts → Accepts (vs ++ below) ts
Accepts-append vs below [] a = tt
Accepts-append [] below (t ∷ ts) a = absurd a
Accepts-append (v ∷ vs) below (t ∷ ts) (a, rest) = (a, Accepts-append vs below ts rest)

pub length-Accepts : (vs : List Value) (ts : List TypeSet) → Accepts vs ts → length ts ≤ length vs
length-Accepts vs [] a = omega arith
length-Accepts [] (t ∷ ts) a = absurd a
length-Accepts (v ∷ vs) (t ∷ ts) (a, rest) = omega (arith, length-Accepts vs ts rest)

take-append : (n : ℕ) (vs below : List Value) → n ≤ length vs → take n (vs ++ below) ≡ take n vs
take-append zero vs below h = refl
take-append (suc n) [] below h = absurd (omega (arith, h))
take-append (suc n) (v ∷ vs) below h = ap (λ x. v ∷ x) (take-append n vs below (omega (arith, h)))

drop-append :
    (n : ℕ) (vs below : List Value) → n ≤ length vs → drop n (vs ++ below) ≡ drop n vs ++ below
drop-append zero vs below h = refl
drop-append (suc n) [] below h = absurd (omega (arith, h))
drop-append (suc n) (v ∷ vs) below h = drop-append n vs below (omega (arith, h))

pub Honours-append :
    (e : StackEffect) (vs below after : List Value)
    → e.ins ≤ length vs
    → Honours e (vs ++ below) after
    → (vs' : List Value) × (after ≡ vs' ++ below) × Honours e vs vs'
Honours-append e vs below after h (honours results p q) = (
  results ++ drop e.ins vs,
  q
      ∙ ap (λ x. results ++ x) (drop-append e.ins vs below h)
      ∙ sym (append_assoc results (drop e.ins vs) below),
  honours results (subst (λ x. ProducesAll x results (outputs e)) (take-append e.ins vs below h) p)
      refl,
)

-- The first of what is left.
pub drop-get :
    {A : Type 0} (n : ℕ) (xs ys : List A) (y : A) → drop n xs ≡ y ∷ ys → get_elem? xs n ≡ some y
drop-get zero [] ys y e = absurd (cc)
drop-get zero (x ∷ xs) ys y e = cc
drop-get (suc n) [] ys y e = absurd (cc)
drop-get (suc n) (x ∷ xs) ys y e = drop-get n xs ys y e

drop-suc : {A : Type 0} (n : ℕ) (xs ys : List A) (y : A) → drop n xs ≡ y ∷ ys → drop (suc n) xs ≡ ys
drop-suc zero [] ys y e = absurd (cc)
drop-suc zero (x ∷ xs) ys y e = cc
drop-suc (suc n) [] ys y e = absurd (cc)
drop-suc (suc n) (x ∷ xs) ys y e = drop-suc n xs ys y e

pub drop-next :
    {A : Type 0} (n : ℕ) (xs ys : List A) (y : A) → drop n xs ≡ y ∷ ys → drop (n + 1) xs ≡ ys
drop-next n xs ys y e =
    let one : n + 1 ≡ suc n = omega arith in ap (λ m. drop m xs) one ∙ drop-suc n xs ys y e
