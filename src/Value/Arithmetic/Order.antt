-- ===== src/Value/Arithmetic/Order.antt =====
-- The order of values that `cmp` decides.
use tails.Prelude.{◌⊎◌, inl, inr, ℕ, ◌≡◌, ◌≢◌, refl, sym, ap, ◌∙◌, subst, false, ltb, ◌==◌}
use tails.TypeSet.{
  Comparison, same, greater, less, type_index, ValueType, a_null, a_number, a_string, an_array,
  a_quote,
}
use tails.NanTagged.{is_nan}
use tails.Value.{Value, Values, null, number, string, array, quote, nil, cons, type_of}
use tails.Value.Arithmetic.{Fpu, cmp_ℕ, cmp_double, compare_values, compare_arrays}
use tails.Value.Arithmetic.Coherent.{
  flip, chain, Coherent, chain-Coherent, flip-chain, cmp_ℕ-flip, cmp_ℕ-Coherent, cmp_ℕ-same,
  cmp_ℕ_refl, compare_bytes_refl, compare_bytes-flip, empty-Coherent, compare_bytes-Coherent,
}

-- No number in the value is a NaN, as in every value that the operators make.
unfoldable mutual
  pub HasNoNan : Value → Type 0
  HasNoNan (number d) = is_nan d ≡ false
  HasNoNan (array a) = HaveNoNan a
  HasNoNan _ = Unit

  pub HaveNoNan : Values → Type 0
  HaveNoNan nil = Unit
  HaveNoNan (cons v vs) = HasNoNan v × HaveNoNan vs

module _ (fpu : Fpu) (key : ℕ → ℕ)
    (ordered : (d e : ℕ)
      → is_nan d ≡ false
      → is_nan e ≡ false
      → (fpu.equal d e ≡ (key d == key e)) × (fpu.below d e ≡ ltb (key d) (key e))) where
  cmp_double_lem :
      (d e : ℕ) → is_nan d ≡ false → is_nan e ≡ false → cmp_double fpu d e ≡ cmp_ℕ (key d) (key e)
  unfolding cmp_double cmp_ℕ
  cmp_double_lem d e p q = let (a, b) = ordered d e p q in rw (a, b) refl

  abbrev type_order : Value → Value → Comparison
  type_order v w = cmp_ℕ (type_index (type_of v)) (type_index (type_of w))

  compare_arrays-cons :
      (v w : Value) (vs ws : Values)
      → compare_arrays fpu (cons v vs) (cons w ws)
        ≡ chain (compare_values fpu v w) (compare_arrays fpu vs ws)
  unfolding compare_arrays
  compare_arrays-cons v w vs ws = by_first (compare_values fpu v w)
    where
      by_first :
          (c : Comparison)
          → elim c as (λ _. Comparison) [
            | same ↦ compare_arrays fpu vs ws
            | greater ↦ greater
            | less ↦ less
          ]
            ≡ chain c (compare_arrays fpu vs ws)
      by_first same = refl
      by_first less = refl
      by_first greater = refl

  compare_values-type :
      (v w : Value) → compare_values fpu v w ≡ chain (type_order v w) (compare_values fpu v w)
  unfolding compare_values cmp_ℕ type_of
  compare_values-type null null = refl
  compare_values-type (number d) (number e) = refl
  compare_values-type (string s) (string t) = refl
  compare_values-type (array a) (array b) = refl
  compare_values-type (quote q) (quote r) = refl
  compare_values-type _ _ = refl

  index-injective : (s t : ValueType) → type_index s ≡ type_index t → s ≡ t
  index-injective a_null a_null e = refl
  index-injective a_number a_number e = refl
  index-injective a_string a_string e = refl
  index-injective an_array an_array e = refl
  index-injective a_quote a_quote e = refl
  index-injective _ _ e = absurd (cc)

  mixed-Coherent :
      (v w u : Value)
      → (type_of v ≡ type_of w
          → type_of w ≡ type_of u
          → Coherent (compare_values fpu v w) (compare_values fpu w u) (compare_values fpu v u))
      → Coherent (compare_values fpu v w) (compare_values fpu w u) (compare_values fpu v u)
  mixed-Coherent v w u k =
      let all =
        chain-Coherent (type_order v w) (type_order w u) (type_order v u) (compare_values fpu v w)
          (compare_values fpu w u) (compare_values fpu v u) (cmp_ℕ-Coherent _ _ _)
          (λ p q.
            k (index-injective _ _ (cmp_ℕ-same _ _ p)) (index-injective _ _ (cmp_ℕ-same _ _ q))) in
      subst (λ x. Coherent x (compare_values fpu w u) (compare_values fpu v u))
        (sym (compare_values-type v w))
        (subst
          (λ x.
            Coherent (chain (type_order v w) (compare_values fpu v w)) x (compare_values fpu v u))
          (sym (compare_values-type w u))
          (subst
            (λ x.
              Coherent (chain (type_order v w) (compare_values fpu v w))
                (chain (type_order w u) (compare_values fpu w u)) x)
            (sym (compare_values-type v u)) all))

  mutual
    unfolding compare_values compare_arrays type_of HasNoNan HaveNoNan

    compare_values-Coherent :
        (v w u : Value)
        → HasNoNan v
        → HasNoNan w
        → HasNoNan u
        → Coherent (compare_values fpu v w) (compare_values fpu w u) (compare_values fpu v u)
    compare_values-Coherent null null null p q r = refl
    compare_values-Coherent (number d) (number e) (number f) p q r =
        rw (cmp_double_lem d e p q, cmp_double_lem e f q r, cmp_double_lem d f p r)
          (cmp_ℕ-Coherent (key d) (key e) (key f))
    compare_values-Coherent (string s) (string t) (string x) p q r = compare_bytes-Coherent s t x
    compare_values-Coherent (array a) (array b) (array c) p q r =
        compare_arrays-Coherent a b c p q r
    compare_values-Coherent (quote i) (quote j) (quote k) p q r = cmp_ℕ-Coherent i j k
    compare_values-Coherent v w u p q r = mixed-Coherent v w u (λ e f. absurd (cc))

    compare_arrays-Coherent :
        (a b c : Values)
        → HaveNoNan a
        → HaveNoNan b
        → HaveNoNan c
        → Coherent (compare_arrays fpu a b) (compare_arrays fpu b c) (compare_arrays fpu a c)
    compare_arrays-Coherent nil nil c p q r = refl
    compare_arrays-Coherent nil (cons w b) nil p q r = tt
    compare_arrays-Coherent nil (cons w b) (cons u c) p q r =
        (empty-Coherent (compare_arrays fpu (cons w b) (cons u c))).0
    compare_arrays-Coherent (cons v a) nil nil p q r = refl
    compare_arrays-Coherent (cons v a) nil (cons u c) p q r = tt
    compare_arrays-Coherent (cons v a) (cons w b) nil p q r =
        (empty-Coherent (compare_arrays fpu (cons v a) (cons w b))).1
    compare_arrays-Coherent (cons v a) (cons w b) (cons u c) (p, ps) (q, qs) (r, rs) =
        let first = compare_values-Coherent v w u p q r in
        let rest = compare_arrays-Coherent a b c ps qs rs in
        rw (compare_arrays-cons v w a b, compare_arrays-cons w u b c, compare_arrays-cons v u a c)
          (chain-Coherent (compare_values fpu v w) (compare_values fpu w u) (compare_values fpu v u)
            _ _ _ first (λ _ _. rest))

  mutual
    unfolding compare_values compare_arrays type_of cmp_ℕ HasNoNan HaveNoNan

    compare_values-flip :
        (v w : Value)
        → HasNoNan v
        → HasNoNan w
        → compare_values fpu w v ≡ flip (compare_values fpu v w)
    compare_values-flip null null p q = refl
    compare_values-flip (number d) (number e) p q =
        rw (cmp_double_lem d e p q, cmp_double_lem e d q p) (cmp_ℕ-flip (key d) (key e))
    compare_values-flip (string s) (string t) p q = compare_bytes-flip s t
    compare_values-flip (array a) (array b) p q = compare_arrays-flip a b p q
    compare_values-flip (quote i) (quote j) p q = cmp_ℕ-flip i j
    compare_values-flip v w p q = refl

    compare_arrays-flip :
        (a b : Values)
        → HaveNoNan a
        → HaveNoNan b
        → compare_arrays fpu b a ≡ flip (compare_arrays fpu a b)
    compare_arrays-flip nil nil p q = refl
    compare_arrays-flip nil (cons w b) p q = refl
    compare_arrays-flip (cons v a) nil p q = refl
    compare_arrays-flip (cons v a) (cons w b) (p, ps) (q, qs) =
        let first = compare_values-flip v w p q in
        let rest = compare_arrays-flip a b ps qs in
        compare_arrays-cons w v b a
        ∙ ap (λ x. chain x (compare_arrays fpu b a)) first
        ∙ ap (chain (flip (compare_values fpu v w))) rest
        ∙ sym (flip-chain (compare_values fpu v w) (compare_arrays fpu a b))
        ∙ sym (ap flip (compare_arrays-cons v w a b))

  mutual
    unfolding compare_values compare_arrays HasNoNan HaveNoNan

    compare_values_refl : (v : Value) → HasNoNan v → compare_values fpu v v ≡ same
    compare_values_refl null p = refl
    compare_values_refl (number d) p = cmp_double_lem d d p p ∙ cmp_ℕ_refl (key d)
    compare_values_refl (string s) p = compare_bytes_refl s
    compare_values_refl (array a) p = compare_arrays_refl a p
    compare_values_refl (quote q) p = cmp_ℕ_refl q

    compare_arrays_refl : (a : Values) → HaveNoNan a → compare_arrays fpu a a ≡ same
    compare_arrays_refl nil p = refl
    compare_arrays_refl (cons v a) (p, ps) =
        let first = compare_values_refl v p in
        let rest = compare_arrays_refl a ps in
        compare_arrays-cons v v a a ∙ ap (λ x. chain x (compare_arrays fpu a a)) first ∙ rest

  -- On a processor that orders doubles other than NaN as some key orders them, `cmp` is a total
  -- preorder on values without a NaN, arrays of arrays included: a value is the same as itself,
  -- swapping any two values swaps `less` and `greater`, and of any three values v, w and u, v is
  -- greater than w, or w than u, or v is not greater than u.
  pub compare_values-order :
      (v w u : Value)
      → HasNoNan v
      → HasNoNan w
      → HasNoNan u
      → (compare_values fpu v v ≡ same)
        × (compare_values fpu w v ≡ flip (compare_values fpu v w))
        × ((compare_values fpu v w ≡ greater)
            ⊎ (compare_values fpu w u ≡ greater)
            ⊎ (compare_values fpu v u ≢ greater))
  compare_values-order v w u p q r = (
    compare_values_refl v p,
    compare_values-flip v w p q,
    by_cases (compare_values fpu v w) (compare_values fpu w u) (compare_values fpu v u)
        (compare_values-Coherent v w u p q r),
  )
    where
      by_cases :
          (a b c : Comparison) → Coherent a b c → (a ≡ greater) ⊎ (b ≡ greater) ⊎ (c ≢ greater)
      by_cases greater b c h = inl refl
      by_cases same greater c h = inr (inl refl)
      by_cases less greater c h = inr (inl refl)
      by_cases same same c h = inr (inr (λ e. cc))
      by_cases same less c h = inr (inr (λ e. cc))
      by_cases less same c h = inr (inr (λ e. cc))
      by_cases less less c h = inr (inr (λ e. cc))
