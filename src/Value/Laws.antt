-- ===== src/Value/Laws.antt =====
-- `operator==` of `Value` against equality.
use tails.Prelude.{
  ℕ, ◌≡◌, refl, ap, Bool, true, ◌&&◌, List, [], ◌∷◌, arith, ◌==◌, ==_iff, ◌↔◌, subst,
}
use tails.Value.{
  Value, Values, null, number, string, array, quote, nil, cons, same_bytes, same_value, same_values,
}

and_parts : (a b : Bool) → (a && b) ≡ true → (a ≡ true) × (b ≡ true)
and_parts a b h = ground arith

pub same_bytes-eq : (s t : List ℕ) → same_bytes s t ≡ true → s ≡ t
unfolding same_bytes
same_bytes-eq [] [] h = refl
same_bytes-eq [] (b ∷ t) h = cc
same_bytes-eq (a ∷ s) [] h = cc
same_bytes-eq (a ∷ s) (b ∷ t) h =
    let (p, q) = and_parts (a == b) (same_bytes s t) h in
    let e = (==_iff a b).0 p in let f = same_bytes-eq s t q in cc

pub same_bytes_refl : (s : List ℕ) → same_bytes s s ≡ true
unfolding same_bytes
same_bytes_refl [] = refl
same_bytes_refl (a ∷ s) = rw ((==_iff a a).1 refl) (same_bytes_refl s)

mutual
  unfolding same_value same_values

  same_value-eq : (v w : Value) → same_value v w ≡ true → v ≡ w
  same_value-eq null null h = refl
  same_value-eq (number d) (number e) h = ap number ((==_iff d e).0 h)
  same_value-eq (string s) (string t) h = ap string (same_bytes-eq s t h)
  same_value-eq (array a) (array b) h = ap array (same_values-eq a b h)
  same_value-eq (quote q) (quote r) h = ap quote ((==_iff q r).0 h)
  same_value-eq _ _ h = cc

  same_values-eq : (vs ws : Values) → same_values vs ws ≡ true → vs ≡ ws
  same_values-eq nil nil h = refl
  same_values-eq (cons v vs) (cons w ws) h =
      let (p, q) = and_parts (same_value v w) (same_values vs ws) h in
      let e = same_value-eq v w p in let f = same_values-eq vs ws q in cc
  same_values-eq _ _ h = cc

mutual
  unfolding same_value same_values

  same_value_refl : (v : Value) → same_value v v ≡ true
  same_value_refl null = refl
  same_value_refl (number d) = (==_iff d d).1 refl
  same_value_refl (string s) = same_bytes_refl s
  same_value_refl (array a) = same_values_refl a
  same_value_refl (quote q) = (==_iff q q).1 refl

  same_values_refl : (vs : Values) → same_values vs vs ≡ true
  same_values_refl nil = refl
  same_values_refl (cons v vs) = rw (same_value_refl v) (same_values_refl vs)

-- `operator==` decides equality.
pub same_value_iff : (v w : Value) → (same_value v w ≡ true) ↔ (v ≡ w)
same_value_iff v w =
    (same_value-eq v w, λ e. subst (λ u. same_value v u ≡ true) e (same_value_refl v))
