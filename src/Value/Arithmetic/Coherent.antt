-- ===== src/Value/Arithmetic/Coherent.antt =====
-- Comparisons as a total preorder has them, and that those of numbers and of strings are so.
use tails.Prelude.{ℕ, ◌≡◌, refl, sym, ap, ◌∙◌, subst, List, [], ◌∷◌, arith}
use tails.TypeSet.{Comparison, same, greater, less}
use tails.Value.Arithmetic.{compare_bytes, cmp_ℕ}

abbrev pub flip : Comparison → Comparison
flip same = same
flip less = greater
flip greater = less

-- The first comparison that is not `same` decides.
abbrev pub chain : Comparison → Comparison → Comparison
chain same d = d
chain less d = less
chain greater d = greater

-- The comparisons of v with w, of w with u and of v with u, as an order has them.
abbrev pub Coherent : Comparison → Comparison → Comparison → Type 0
Coherent same b c = c ≡ b
Coherent less same c = c ≡ less
Coherent less less c = c ≡ less
Coherent less greater c = Unit
Coherent greater same c = c ≡ greater
Coherent greater greater c = c ≡ greater
Coherent greater less c = Unit

pub chain-Coherent :
    (a b c a' b' c' : Comparison)
    → Coherent a b c
    → (a ≡ same → b ≡ same → Coherent a' b' c')
    → Coherent (chain a a') (chain b b') (chain c c')
chain-Coherent same same c a' b' c' h k =
    subst (λ x. Coherent a' b' (chain x c')) (sym h) (k refl refl)
chain-Coherent same less c a' b' c' h k =
    subst (λ x. Coherent a' less (chain x c')) (sym h) (below a')
  where
    below : (a : Comparison) → Coherent a less less
    below same = refl
    below less = refl
    below greater = tt
chain-Coherent same greater c a' b' c' h k =
    subst (λ x. Coherent a' greater (chain x c')) (sym h) (above a')
  where
    above : (a : Comparison) → Coherent a greater greater
    above same = refl
    above less = tt
    above greater = refl
chain-Coherent less same c a' b' c' h k =
    subst (λ x. Coherent less b' (chain x c')) (sym h) (below b')
  where
    below : (b : Comparison) → Coherent less b less
    below same = refl
    below less = refl
    below greater = tt
chain-Coherent less less c a' b' c' h k = ap (λ x. chain x c') h
chain-Coherent less greater c a' b' c' h k = tt
chain-Coherent greater same c a' b' c' h k =
    subst (λ x. Coherent greater b' (chain x c')) (sym h) (above b')
  where
    above : (b : Comparison) → Coherent greater b greater
    above same = refl
    above less = tt
    above greater = refl
chain-Coherent greater greater c a' b' c' h k = ap (λ x. chain x c') h
chain-Coherent greater less c a' b' c' h k = tt

pub flip-chain : (a b : Comparison) → flip (chain a b) ≡ chain (flip a) (flip b)
flip-chain same b = refl
flip-chain less b = refl
flip-chain greater b = refl

pub cmp_ℕ-flip : (a b : ℕ) → cmp_ℕ b a ≡ flip (cmp_ℕ a b)
unfolding cmp_ℕ
cmp_ℕ-flip a b = ground arith

pub cmp_ℕ-Coherent : (a b c : ℕ) → Coherent (cmp_ℕ a b) (cmp_ℕ b c) (cmp_ℕ a c)
unfolding cmp_ℕ
cmp_ℕ-Coherent a b c = ground arith

pub cmp_ℕ-same : (a b : ℕ) → cmp_ℕ a b ≡ same → a ≡ b
unfolding cmp_ℕ
cmp_ℕ-same a b h = ground arith

pub cmp_ℕ_refl : (a : ℕ) → cmp_ℕ a a ≡ same
unfolding cmp_ℕ
cmp_ℕ_refl a = ground arith

compare_bytes-cons :
    (a b : ℕ) (s t : List ℕ) → compare_bytes (a ∷ s) (b ∷ t) ≡ chain (cmp_ℕ a b) (compare_bytes s t)
unfolding compare_bytes cmp_ℕ
compare_bytes-cons a b s t = ground arith

pub compare_bytes_refl : (s : List ℕ) → compare_bytes s s ≡ same
compare_bytes_refl [] = unfold compare_bytes in refl
compare_bytes_refl (a ∷ s) =
    compare_bytes-cons a a s s
    ∙ ap (λ x. chain x (compare_bytes s s)) (cmp_ℕ_refl a)
    ∙ compare_bytes_refl s

pub compare_bytes-flip : (s t : List ℕ) → compare_bytes t s ≡ flip (compare_bytes s t)
compare_bytes-flip [] [] = unfold compare_bytes in refl
compare_bytes-flip [] (b ∷ t) = unfold compare_bytes in refl
compare_bytes-flip (a ∷ s) [] = unfold compare_bytes in refl
compare_bytes-flip (a ∷ s) (b ∷ t) =
    rw
      (
        compare_bytes-cons a b s t,
        compare_bytes-cons b a t s,
        cmp_ℕ-flip a b,
        compare_bytes-flip s t,
      )
      (sym (flip-chain (cmp_ℕ a b) (compare_bytes s t)))

pub empty-Coherent : (d : Comparison) → Coherent less d less × Coherent d greater greater
empty-Coherent same = (refl, refl)
empty-Coherent less = (refl, tt)
empty-Coherent greater = (tt, refl)

pub compare_bytes-Coherent :
    (s t u : List ℕ) → Coherent (compare_bytes s t) (compare_bytes t u) (compare_bytes s u)
compare_bytes-Coherent [] [] u = unfold compare_bytes in refl
compare_bytes-Coherent [] (b ∷ t) [] = unfold compare_bytes in tt
compare_bytes-Coherent [] (b ∷ t) (c ∷ u) =
    unfold compare_bytes in (empty-Coherent (compare_bytes (b ∷ t) (c ∷ u))).0
compare_bytes-Coherent (a ∷ s) [] [] = unfold compare_bytes in refl
compare_bytes-Coherent (a ∷ s) [] (c ∷ u) = unfold compare_bytes in tt
compare_bytes-Coherent (a ∷ s) (b ∷ t) [] =
    unfold compare_bytes in (empty-Coherent (compare_bytes (a ∷ s) (b ∷ t))).1
compare_bytes-Coherent (a ∷ s) (b ∷ t) (c ∷ u) =
    rw (compare_bytes-cons a b s t, compare_bytes-cons b c t u, compare_bytes-cons a c s u)
      (chain-Coherent (cmp_ℕ a b) (cmp_ℕ b c) (cmp_ℕ a c) _ _ _ (cmp_ℕ-Coherent a b c)
        (λ _ _. compare_bytes-Coherent s t u))
