-- ===== src/Gc/Allocate.antt =====
-- The allocation of an object, the constructor of `object` in src/values/gc.cc.
use tails.Prelude.{
  ℕ, ◌≡◌, ◌≢◌, refl, sym, ap, ◌∙◌, subst, inl, inr, false, List, ◌∷◌, Option, none, some, arith,
  ◌==◌, ==_iff, Bool-cases, if◌then◌else◌, some_cancel, Option-cases,
}
use tails.NanTagged.{MarkTarget, mark_nothing, mark_string, mark_array, mark_quote, mark_target}
use tails.Gc.{Contents, text, items, code, Heap, put, allocate}
use tails.Prelude.Members.{In}
use tails.Gc.Mark.{values_of}
use tails.Gc.Mark.Ends.{Resolves, AllResolve, IsClean}
use tails.Gc.Chain.{Chain, put-other, put-here, Chain-next}
use tails.Gc.Collect.{IsHeap}

-- A free address is no object's.
put_fresh :
    (object : ℕ → Option Contents) (p : ℕ) (c : Contents)
    → object p ≡ none
    → (q : ℕ) (d : Contents) → object q ≡ some d
    → put object p (some c) q ≡ some d
put_fresh object p c n q d e =
    put-other object p q (some c) (λ s. different (sym n ∙ ap object s ∙ e)) ∙ e
  where
    different : none ≡ some d → ⊥
    different x = cc

Resolves-put :
    (object : ℕ → Option Contents) (p : ℕ) (c : Contents)
    → object p ≡ none
    → (t : MarkTarget) → Resolves object t
    → Resolves (put object p (some c)) t
Resolves-put object p c n mark_nothing r = tt
Resolves-put object p c n (mark_string q) (s, e) = (s, put_fresh object p c n q (text s) e)
Resolves-put object p c n (mark_array q) (vs, e) = (vs, put_fresh object p c n q (items vs) e)
Resolves-put object p c n (mark_quote q) (cells, vs, e, l) =
    (cells, vs, put_fresh object p c n q (code cells) e, l)

-- A new object at a free address joins the heap, when its own values lead to objects.
pub allocate-IsHeap :
    (p : ℕ) (c : Contents) (ps : List ℕ) (h : Heap)
    → IsHeap ps h
    → p ≢ 0
    → ¬ In p ps
    → AllResolve h.object (values_of c)
    → IsHeap (p ∷ ps) (allocate p c h)
unfolding allocate
allocate-IsHeap p c ps h v z n r = record {
  chain = (
    refl,
    z,
    subst (λ x. Chain (put h.next p h.first) x ps) (sym (put-here h.next p h.first))
        (Chain-next h.next (put h.next p h.first) h.first ps
          (λ q i. put-other h.next p q h.first (differs q i)) v.chain),
  );
  distinct = (n, v.distinct);
  listed = listed;
  plain = plain;
  clean = clean;
  counted = omega (arith, v.counted);
}
  where
    differs : (q : ℕ) → In q ps → p ≢ q
    differs q i e = n (subst (λ x. In x ps) (sym e) i)

    fresh : h.object p ≡ none
    fresh = elim (Option-cases (h.object p)) [
      | inl e ↦ e
      | inr (d, e) ↦ absurd (n (v.listed p d e))
    ]

    listed : (q : ℕ) (d : Contents) → put h.object p (some c) q ≡ some d → In q (p ∷ ps)
    listed q d e = elim (Bool-cases (p == q)) [
      | inl s ↦ inl (sym ((==_iff p q).0 s))
      | inr s ↦ inr (v.listed q d (subst (λ b. (if b then some c else h.object q) ≡ some d) s e))
    ]

    plain : (q : ℕ) → In q (p ∷ ps) → put h.marked p false q ≡ false
    plain q (inl e) = ap (put h.marked p false) e ∙ put-here h.marked p false
    plain q (inr i) = put-other h.marked p q false (differs q i) ∙ v.plain q i

    resolved : (vs : List ℕ) → AllResolve h.object vs → AllResolve (put h.object p (some c)) vs
    resolved vs a w i = Resolves-put h.object p c fresh (mark_target w) (a w i)

    clean : IsClean (put h.object p (some c))
    clean q d e = elim (Bool-cases (p == q)) [
      | inl s ↦
          let same : c ≡ d =
            some_cancel (subst (λ b. (if b then some c else h.object q) ≡ some d) s e) in
          resolved (values_of d) (subst (λ x. AllResolve h.object (values_of x)) same r)
      | inr s ↦
          resolved (values_of d)
            (v.clean q d (subst (λ b. (if b then some c else h.object q) ≡ some d) s e))
    ]
