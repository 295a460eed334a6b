-- ===== src/Gc/Sweep.antt =====
-- What the sweep leaves: the marked objects, in their order, unmarked.
use tails.Prelude.{
  contradiction, ℕ, zero, suc, ◌+◌, ◌<◌, ◌≡◌, ◌≢◌, refl, sym, ap, ◌∙◌, subst, inl, inr, Bool, true,
  false, List, [], ◌∷◌, Option, none, arith, ◌==◌, ==_iff, Bool-cases, length,
}
use tails.Result.{ok}
use tails.Gc.{Contents, Heap, put, update_link, Swept, sweep_from}
use tails.Prelude.Members.{In}
use tails.Gc.Chain.{
  Chain, Distinct, kept, link, put-other, put-here, kept-put, Chain-next, Linked,
  update_link-Linked, link-here,
}

-- What the loop has done from the object `o` on, behind which the chain is `ps`.
pub record Sweeping (ps : List ℕ) (prev : ℕ) (h h' : Heap) : Type 0 where
  pub chain : Chain h'.next (link h' prev) (kept h.marked ps)
  pub unmarks : (p : ℕ) → In p ps → h.marked p ≡ true → h'.marked p ≡ false
  pub keeps : (p : ℕ) → In p ps → h.marked p ≡ true → h'.object p ≡ h.object p
  pub frees : (p : ℕ) → In p ps → h.marked p ≡ false → h'.object p ≡ none
  pub other_marks : (p : ℕ) → ¬ In p ps → h'.marked p ≡ h.marked p
  pub other_objects : (p : ℕ) → ¬ In p ps → h'.object p ≡ h.object p
  pub other_links : (p : ℕ) → ¬ In p ps → p ≢ prev → h'.next p ≡ h.next p
  pub head : prev ≢ 0 → h'.first ≡ h.first

-- The links out of a place that a sweep leaves alone.
link-Sweeping :
    (ps : List ℕ) (prev last : ℕ) (h h' : Heap)
    → Sweeping ps last h h'
    → ¬ In prev ps
    → prev ≢ last
    → last ≢ 0
    → link h' prev ≡ link h prev
link-Sweeping ps prev last h h' m n d z = elim (Bool-cases (prev == 0)) [
  | inl e ↦ rw e (m.head z)
  | inr e ↦ rw e (m.other_links prev n d)
]

module _ (p prev : ℕ) (ps : List ℕ) (h : Heap) (np : ¬ In p ps) (n : ¬ In prev (p ∷ ps))
    (z : p ≢ 0) where
  -- The object `p` is kept: unmarked, linked from `prev`, and the next link's place.
  kept-Sweeping :
      (hk h' : Heap)
      → h.marked p ≡ true
      → Linked prev p (record h { marked = put h.marked p false }) hk
      → Sweeping ps p hk h'
      → Sweeping (p ∷ ps) prev h h'
  kept-Sweeping hk h' k w m = record {
    chain = rw k (
      linked,
      (λ e. z (sym linked ∙ e)),
      subst (Chain h'.next (h'.next (link h' prev))) (kept-marks)
          (subst (λ x. Chain h'.next x (kept hk.marked ps)) after m.chain),
    );
    unmarks = λ q i k'. elim i [
      | inl e ↦
          m.other_marks q (outside q e)
          ∙ marks q
          ∙ ap (put h.marked p false) e
          ∙ put-here h.marked p false
      | inr j ↦ m.unmarks q j (marks q ∙ put-other h.marked p q false (differs q j) ∙ k')
    ];
    keeps = λ q i k'. elim i [
      | inl e ↦ m.other_objects q (outside q e) ∙ objects q
      | inr j ↦ m.keeps q j (marks q ∙ put-other h.marked p q false (differs q j) ∙ k') ∙ objects q
    ];
    frees = λ q i k'. elim i [
      | inl e ↦ contradiction k (subst (λ x. h.marked x ≡ false) e k')
      | inr j ↦ m.frees q j (marks q ∙ put-other h.marked p q false (differs q j) ∙ k')
    ];
    other_marks = λ q o.
        m.other_marks q (λ j. o (inr j))
        ∙ marks q
        ∙ put-other h.marked p q false (λ e. o (inl (sym e)));
    other_objects = λ q o. m.other_objects q (λ j. o (inr j)) ∙ objects q;
    other_links = λ q o d. m.other_links q (λ j. o (inr j)) (λ e. o (inl e)) ∙ w.links q d;
    head = λ d. m.head z ∙ w.first d;
  }
    where
      marks : (q : ℕ) → hk.marked q ≡ put h.marked p false q
      marks q = ap (λ (f : ℕ → Bool). f q) w.marks

      objects : (q : ℕ) → hk.object q ≡ h.object q
      objects q = ap (λ (f : ℕ → Option Contents). f q) w.objects

      outside : (q : ℕ) → q ≡ p → ¬ In q ps
      outside q e j = np (subst (λ x. In x ps) e j)

      differs : (q : ℕ) → In q ps → p ≢ q
      differs q j e = np (subst (λ x. In x ps) (sym e) j)

      linked : link h' prev ≡ p
      linked = link-Sweeping ps prev p hk h' m (λ j. n (inr j)) (λ e. n (inl e)) z ∙ w.points

      after : link h' p ≡ h'.next (link h' prev)
      after = link-here h' p z ∙ ap h'.next (sym linked)

      kept-marks : kept hk.marked ps ≡ kept h.marked ps
      kept-marks = ap (λ (f : ℕ → Bool). kept f ps) w.marks ∙ kept-put h.marked p false ps np

  freed-Sweeping :
      (h' : Heap)
      → h.marked p ≡ false
      → Sweeping ps prev (record h { object = put h.object p none }) h'
      → Sweeping (p ∷ ps) prev h h'
  freed-Sweeping h' k m = record {
    chain = rw k m.chain;
    unmarks = λ q i k'. elim i [
      | inl e ↦ contradiction (subst (λ x. h.marked x ≡ true) e k') k
      | inr j ↦ m.unmarks q j k'
    ];
    keeps = λ q i k'. elim i [
      | inl e ↦ contradiction (subst (λ x. h.marked x ≡ true) e k') k
      | inr j ↦
          m.keeps q j k' ∙ put-other h.object p q none (λ e. np (subst (λ x. In x ps) (sym e) j))
    ];
    frees = λ q i k'. elim i [
      | inl e ↦
          m.other_objects q (λ j. np (subst (λ x. In x ps) e j))
          ∙ ap (put h.object p none) e
          ∙ put-here h.object p none
      | inr j ↦ m.frees q j k'
    ];
    other_marks = λ q o. m.other_marks q (λ j. o (inr j));
    other_objects = λ q o.
        m.other_objects q (λ j. o (inr j)) ∙ put-other h.object p q none (λ e. o (inl (sym e)));
    other_links = λ q o. m.other_links q (λ j. o (inr j));
    head = m.head;
  }

nonzero : (o : ℕ) → o ≢ 0 → (o == 0) ≡ false
nonzero o z = ground arith

-- The loop ends, and has swept the objects of the chain and counted them.
abbrev pub SweepsTo : List ℕ → ℕ → ℕ → ℕ → Bool → Swept → Type 0
SweepsTo ps fuel o prev fix_link s =
    (s' : Swept) × (sweep_from fuel o prev fix_link s ≡ ok s')
    × Sweeping ps prev s.heap s'.heap
    × (s'.kept ≡ s.kept + length (kept s.heap.marked ps))
    × (s'.kept + s'.freed ≡ s.kept + s.freed + length ps)

module _ (o prev fuel : ℕ) (ps : List ℕ) (fix_link : Bool) (s : Swept) (np : ¬ In o ps)
    (n : ¬ In prev (o ∷ ps)) (z : o ≢ 0) where
  abbrev heap_kept : Heap
  heap_kept = update_link fix_link prev o (record (s.heap) { marked = put s.heap.marked o false })

  kept_step :
      s.heap.marked o ≡ true
      → Linked prev o (record (s.heap) { marked = put s.heap.marked o false }) heap_kept
      → SweepsTo ps fuel (s.heap.next o) o false (record s { heap = heap_kept; kept = s.kept + 1 })
      → SweepsTo (o ∷ ps) (suc fuel) o prev fix_link s
  unfolding sweep_from
  kept_step k w (s', run, m, a, b) = (
    s',
    rw (nonzero o z, k) run,
    kept-Sweeping o prev ps s.heap np n z heap_kept s'.heap k w m,
    rw k (omega (arith, a, ap length same)),
    omega (arith, b),
  )
    where
      same : kept heap_kept.marked ps ≡ kept s.heap.marked ps
      same = ap (λ (f : ℕ → Bool). kept f ps) w.marks ∙ kept-put s.heap.marked o false ps np

  freed_step :
      s.heap.marked o ≡ false
      → SweepsTo ps fuel (s.heap.next o) prev true (record s {
        heap = record (s.heap) { object = put s.heap.object o none };
        freed = s.freed + 1;
      })
      → SweepsTo (o ∷ ps) (suc fuel) o prev fix_link s
  unfolding sweep_from
  freed_step k (s', run, m, a, b) = (
    s',
    rw (nonzero o z, k) run,
    freed-Sweeping o prev ps s.heap np n z s'.heap k m,
    rw k (omega (arith, a)),
    omega (arith, b),
  )

pub sweep_from-Sweeping :
    (ps : List ℕ) (fuel o prev : ℕ) (fix_link : Bool) (s : Swept)
    → length ps < fuel
    → Chain s.heap.next o ps
    → Distinct ps
    → ¬ In prev ps
    → (fix_link ≡ false → link s.heap prev ≡ o)
    → SweepsTo ps fuel o prev fix_link s
unfolding sweep_from
sweep_from-Sweeping ps zero o prev fix_link s l c d n f = absurd (omega arith)
sweep_from-Sweeping [] (suc fuel) o prev fix_link s l c d n f =
    let w = update_link-Linked fix_link prev 0 s.heap (λ e. f e ∙ c) in
    (
      record s { heap = update_link fix_link prev 0 s.heap },
      rw ((==_iff o 0).1 c) refl,
      record {
        chain = w.points;
        unmarks = λ p i. absurd i;
        keeps = λ p i. absurd i;
        frees = λ p i. absurd i;
        other_marks = λ p i. ap (λ (f : ℕ → Bool). f p) w.marks;
        other_objects = λ p i. ap (λ (f : ℕ → Option Contents). f p) w.objects;
        other_links = λ p i. w.links p;
        head = w.first;
      },
      omega arith,
      omega arith,
    )
sweep_from-Sweeping (p ∷ ps) (suc fuel) o prev fix_link s l (e, z, c) (np, d) n f =
    subst (λ x. SweepsTo (x ∷ ps) (suc fuel) o prev fix_link s) e
      (elim (Bool-cases (s.heap.marked o)) [
        | inl k ↦ kept_step o prev fuel ps fix_link s no nprev z k w (
            sweep_from-Sweeping ps fuel (s.heap.next o) o false
              (record s { heap = hk; kept = s.kept + 1 }) (omega arith) chain d no
              (λ _. link-here hk o z ∙ w.links o (λ q. nprev (inl (sym q)))))
        | inr k ↦ freed_step o prev fuel ps fix_link s no nprev z k (
            sweep_from-Sweeping ps fuel (s.heap.next o) prev true
              (record s {
                heap = record (s.heap) { object = put s.heap.object o none };
                freed = s.freed + 1;
              })
              (omega arith) c d (λ i. n (inr i)) (λ q. absurd (cc)))
      ])
  where
    no : ¬ In o ps
    no i = np (subst (λ x. In x ps) e i)

    nprev : ¬ In prev (o ∷ ps)
    nprev i = n (subst (λ x. In prev (x ∷ ps)) e i)

    hk : Heap
    hk = heap_kept o prev fuel ps fix_link s no nprev z

    w : Linked prev o (record (s.heap) { marked = put s.heap.marked o false }) hk
    w =
        update_link-Linked fix_link prev o (record (s.heap) { marked = put s.heap.marked o false })
          f

    chain : Chain hk.next (s.heap.next o) ps
    chain =
        Chain-next s.heap.next hk.next (s.heap.next o) ps
          (λ q i. w.links q (λ r. n (inr (subst (λ x. In x ps) r i)))) c
