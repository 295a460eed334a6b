-- ===== src/Gc/Chain.antt =====
-- The list of objects that the links of the heap make, and the places that a pointer to an object
-- stands in.
use tails.Prelude.{
  ℕ, ◌≡◌, ◌≢◌, refl, sym, ap, ◌∙◌, subst, inl, inr, Bool, true, false, List, [], ◌∷◌, ◌==◌, ==_iff,
  Bool-cases, if◌then◌else◌,
}
use tails.Gc.{Heap, put, update_link}
use tails.Prelude.Members.{In}

-- The links lead from `p` through `ps`, whose addresses are not null, to the null pointer.
abbrev pub Chain : (ℕ → ℕ) → ℕ → List ℕ → Type 0
Chain next p [] = p ≡ 0
Chain next p (q ∷ qs) = (p ≡ q) × (p ≢ 0) × Chain next (next p) qs

abbrev pub Distinct : List ℕ → Type 0
Distinct [] = Unit
Distinct (p ∷ ps) = (¬ In p ps) × Distinct ps

abbrev pub kept : (ℕ → Bool) → List ℕ → List ℕ
kept m [] = []
kept m (p ∷ ps) = if m p then p ∷ kept m ps else kept m ps

-- The link out of `prev`, or out of the head of the list.
abbrev pub link : Heap → ℕ → ℕ
link h prev = if prev == 0 then h.first else h.next prev

pub put-other {ℓ} : {A : Type ℓ} (f : ℕ → A) (p q : ℕ) (a : A) → p ≢ q → put f p a q ≡ f q
put-other f p q a n = elim (Bool-cases (p == q)) [
  | inl e ↦ absurd (n ((==_iff p q).0 e))
  | inr e ↦ rw e refl
]

pub put-here {ℓ} : {A : Type ℓ} (f : ℕ → A) (p : ℕ) (a : A) → put f p a p ≡ a
put-here f p a = rw ((==_iff p p).1 refl) refl

pub kept-put :
    (m : ℕ → Bool) (p : ℕ) (b : Bool) (ps : List ℕ) → ¬ In p ps → kept (put m p b) ps ≡ kept m ps
kept-put m p b [] n = refl
kept-put m p b (q ∷ ps) n =
    let e : put m p b q ≡ m q = put-other m p q b (λ s. n (inl s)) in
    let rest = kept-put m p b ps (λ i. n (inr i)) in
    ap (λ x. if x then q ∷ kept (put m p b) ps else kept (put m p b) ps) e
    ∙ ap (λ x. if m q then q ∷ x else x) rest

pub Chain-next :
    (next next' : ℕ → ℕ) (p : ℕ) (ps : List ℕ)
    → ((q : ℕ) → In q ps → next' q ≡ next q)
    → Chain next p ps
    → Chain next' p ps
Chain-next next next' p [] same c = c
Chain-next next next' p (q ∷ ps) same (e, z, c) =
    let step : next' p ≡ next p = same p (inl e) in
    (
      e,
      z,
      subst (λ x. Chain next' x ps) (sym step)
          (Chain-next next next' (next p) ps (λ r i. same r (inr i)) c),
    )

-- `h'` is `h` with the link out of `prev` set to `o`.
pub record Linked (prev o : ℕ) (h h' : Heap) : Type 0 where
  pub points : link h' prev ≡ o
  pub marks : h'.marked ≡ h.marked
  pub objects : h'.object ≡ h.object
  pub links : (p : ℕ) → p ≢ prev → h'.next p ≡ h.next p
  pub first : prev ≢ 0 → h'.first ≡ h.first

-- The link is set, or was right before.
pub update_link-Linked :
    (fix_link : Bool) (prev o : ℕ) (h : Heap)
    → (fix_link ≡ false → link h prev ≡ o)
    → Linked prev o h (update_link fix_link prev o h)
unfolding update_link
update_link-Linked true prev o h f = elim (Bool-cases (prev == 0)) [
  | inl e ↦ rw e (record {
    points = rw e refl;
    marks = refl;
    objects = refl;
    links = λ p n. refl;
    first = λ n. absurd (n ((==_iff prev 0).0 e));
  })
  | inr e ↦ rw e (record {
    points = rw e (put-here h.next prev o);
    marks = refl;
    objects = refl;
    links = λ p n. put-other h.next prev p o (λ s. n (sym s));
    first = λ n. refl;
  })
]
update_link-Linked false prev o h f = record {
  points = f refl;
  marks = refl;
  objects = refl;
  links = λ p n. refl;
  first = λ n. refl;
}

pub link-here : (h : Heap) (p : ℕ) → p ≢ 0 → link h p ≡ h.next p
link-here h p z = elim (Bool-cases (p == 0)) [
  | inl e ↦ absurd (z ((==_iff p 0).0 e))
  | inr e ↦ rw e refl
]

pub In-zero : (next : ℕ → ℕ) (p : ℕ) (ps : List ℕ) → Chain next p ps → ¬ In 0 ps
In-zero next p (q ∷ ps) (e, z, c) (inl i) = z (e ∙ sym i)
In-zero next p (q ∷ ps) (e, z, c) (inr i) = In-zero next (next p) ps c i
In-zero next p [] c i = absurd i

pub In-kept : (m : ℕ → Bool) (q : ℕ) (ps : List ℕ) → In q (kept m ps) → In q ps × (m q ≡ true)
In-kept m q [] i = absurd i
In-kept m q (p ∷ ps) i = elim (Bool-cases (m p)) [
  | inl e ↦ elim (subst (λ b. In q (if b then p ∷ kept m ps else kept m ps)) e i) [
    | inl s ↦ (inl s, ap m s ∙ e)
    | inr j ↦ (inr (In-kept m q ps j).0, (In-kept m q ps j).1)
  ]
  | inr e ↦
      let j = subst (λ b. In q (if b then p ∷ kept m ps else kept m ps)) e i in
      (inr (In-kept m q ps j).0, (In-kept m q ps j).1)
]

pub In-kept_back : (m : ℕ → Bool) (q : ℕ) (ps : List ℕ) → In q ps → m q ≡ true → In q (kept m ps)
In-kept_back m q [] i e = absurd i
In-kept_back m q (p ∷ ps) (inl s) e = rw (sym (ap m s) ∙ e) (inl s)
In-kept_back m q (p ∷ ps) (inr i) e = elim (Bool-cases (m p)) [
  | inl f ↦ rw f (inr (In-kept_back m q ps i e))
  | inr f ↦ rw f (In-kept_back m q ps i e)
]

pub Distinct-kept : (m : ℕ → Bool) (ps : List ℕ) → Distinct ps → Distinct (kept m ps)
Distinct-kept m [] d = tt
Distinct-kept m (p ∷ ps) (n, d) = elim (Bool-cases (m p)) [
  | inl e ↦ rw e ((λ i. n (In-kept m p ps i).0), Distinct-kept m ps d)
  | inr e ↦ rw e (Distinct-kept m ps d)
]
