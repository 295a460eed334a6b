-- ===== src/Codegen/Places.antt =====
-- Words that lie one after the other, each from its offset on: how the list grows, and where the
-- code of each word stands in the code of all.
use tails.Prelude.{
  ℕ, zero, suc, ◌+◌, ◌≡◌, refl, sym, ap, ◌∙◌, subst, inl, inr, List, [], ◌∷◌, ◌++◌, arith, length,
  drop, length-append,
}
use tails.Prelude.Members.{In}

-- The words `is`, of these sizes, fill the offsets from `p` to `q`.
abbrev pub Fills : (ℕ → ℕ) → (ℕ → ℕ) → ℕ → List ℕ → ℕ → Type 0
Fills size pc p [] q = p ≡ q
Fills size pc p (i ∷ is) q = (pc i ≡ p) × Fills size pc (p + size i) is q

pub Fills-same :
    (size size' pc pc' : ℕ → ℕ) (p : ℕ) (is : List ℕ) (q : ℕ)
    → ((i : ℕ) → In i is → (size' i ≡ size i) × (pc' i ≡ pc i))
    → Fills size pc p is q
    → Fills size' pc' p is q
Fills-same size size' pc pc' p [] q s f = f
Fills-same size size' pc pc' p (i ∷ is) q s (e, f) = (
  (s i (inl refl)).1 ∙ e,
  subst (λ n. Fills size' pc' (p + n) is q) (sym (s i (inl refl)).0)
      (Fills-same size size' pc pc' (p + size i) is q (λ j k. s j (inr k)) f),
)

pub Fills-append :
    (size pc : ℕ → ℕ) (p : ℕ) (is : List ℕ) (q i : ℕ)
    → Fills size pc p is q
    → pc i ≡ q
    → Fills size pc p (is ++ i ∷ []) (q + size i)
Fills-append size pc p [] q i f e = (e ∙ sym f, ap (λ n. n + size i) f)
Fills-append size pc p (j ∷ is) q i (g, f) e = (g, Fills-append size pc (p + size j) is q i f e)

module _ {ℓ} {A : Type ℓ} (code : ℕ → List A) where
  abbrev pub all_code : List ℕ → List A
  all_code [] = []
  all_code (i ∷ is) = code i ++ all_code is

  module _ (pc : ℕ → ℕ) where
    pub length-all_code :
        (p : ℕ) (is : List ℕ) (q : ℕ)
        → Fills (λ i. length (code i)) pc p is q
        → p + length (all_code is) ≡ q
    length-all_code p [] q f = omega (arith, f)
    length-all_code p (i ∷ is) q (e, f) =
        omega (
          arith,
          length-append (code i) (all_code is),
          length-all_code (p + length (code i)) is q f,
        )

    drop-append : (xs ys : List A) → drop (length xs) (xs ++ ys) ≡ ys
    drop-append [] ys = refl
    drop-append (x ∷ xs) ys = drop-append xs ys

    drop_empty : (n : ℕ) → drop {A = A} n [] ≡ []
    drop_empty zero = refl
    drop_empty (suc n) = refl

    drop_further : (n m : ℕ) (xs : List A) → drop (n + m) xs ≡ drop m (drop n xs)
    drop_further zero m xs = let e : 0 + m ≡ m = omega arith in ap (λ k. drop k xs) e
    drop_further (suc n) m [] = drop_empty (suc n + m) ∙ sym (drop_empty m)
    drop_further (suc n) m (x ∷ xs) =
        let e : suc n + m ≡ suc (n + m) = omega arith in
        ap (λ k. drop k (x ∷ xs)) e ∙ drop_further n m xs

    -- The code of a word stands at its offset.
    pub code_at :
        (p : ℕ) (is : List ℕ) (q i : ℕ)
        → Fills (λ j. length (code j)) pc p is q
        → In i is
        → (n : ℕ) × (rest : List A) × (pc i ≡ p + n) × (drop n (all_code is) ≡ code i ++ rest)
    code_at p (j ∷ is) q i (e, f) (inl s) =
        subst
          (λ k.
            (n : ℕ) × (rest : List A) × (pc k ≡ p + n)
            × (drop n (code j ++ all_code is) ≡ code k ++ rest))
          (sym s) (0, all_code is, omega (arith, e), refl)
    code_at p (j ∷ is) q i (e, f) (inr k) =
        let (n, rest, a, d) = code_at (p + length (code j)) is q i f k in
        (
          length (code j) + n,
          rest,
          omega (arith, a),
          drop_further (length (code j)) n (code j ++ all_code is)
              ∙ ap (drop n) (drop-append (code j) (all_code is))
              ∙ d,
        )
    code_at p [] q i f k = absurd k
