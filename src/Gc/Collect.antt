-- ===== src/Gc/Collect.antt =====
-- A whole collection, as `garbageCollect` of src/repl.cc runs it.
use tails.Prelude.{
  contradiction, ℕ, ◌+◌, ◌-◌, ◌≤◌, ◌<◌, ◌≡◌, refl, sym, ap, ◌∙◌, subst, ◌⊎◌, inl, inr, ◌↔◌, Bool,
  true, false, List, [], ◌∷◌, Option, none, some, arith, ◌==◌, ==_iff, Bool-cases, length,
  some_cancel,
}
use tails.Vocabulary.{NamedWord, Vocabulary}
use tails.Vocabulary.Laws.{gc_scan-empty}
use tails.Result.{Result, ok}
use tails.NanTagged.{MarkTarget, mark_nothing, mark_string, mark_array, mark_quote, mark_target}
use tails.Gc.{
  Cell, Contents, text, items, code, Heap, mark_value, scan_stack, scan_words, scan_each, Swept,
  sweep, garbage_collect,
}
use tails.Prelude.Members.{In}
use tails.Gc.Mark.{
  target_address, Points, Reachable, from_root, from_object, Marking, mark_each-Marking,
}
use tails.Gc.Mark.Values.{mark_value-Marking}
use tails.Gc.Mark.Ends.{Resolves, AllResolve, IsClean, unmarked, mark_each-Ends, mark_value-Ends}
use tails.Gc.Chain.{In-zero, In-kept, In-kept_back, Distinct-kept, Chain, Distinct, kept}
use tails.Gc.Sweep.{Sweeping, sweep_from-Sweeping}

-- The list of all objects leads through `ps`: it holds every object once, and as many as are
-- counted, no mark is left on it, and every value in an object leads to an object of its class.
pub record IsHeap (ps : List ℕ) (h : Heap) : Type 0 where
  pub chain : Chain h.next h.first ps
  pub distinct : Distinct ps
  pub listed : (p : ℕ) (c : Contents) → h.object p ≡ some c → In p ps
  pub plain : (p : ℕ) → In p ps → h.marked p ≡ false
  pub clean : IsClean h.object
  pub counted : h.count ≡ length ps

-- A scan has run and marked.
abbrev Scanned : Result Heap → List ℕ → Heap → Type 0
Scanned r vs h = (h' : Heap) × (r ≡ ok h') × Marking vs h h'

unmarked-all : (ps : List ℕ) (m : ℕ → Bool) → unmarked ps m ≤ length ps
unmarked-all [] m = omega arith
unmarked-all (p ∷ ps) m = ground (arith, unmarked-all ps m)

module _ (fuel : ℕ) (ps : List ℕ) (object : ℕ → Option Contents) (clean : IsClean object)
    (listed : (p : ℕ) (c : Contents) → object p ≡ some c → In p ps)
    (enough : length ps < fuel) where
  scan_stack-Scanned :
      (vs : List ℕ) (h : Heap)
      → h.object ≡ object
      → AllResolve object vs
      → Scanned (scan_stack fuel vs h) vs h
  unfolding scan_stack
  scan_stack-Scanned vs h o r =
      let (h', e) =
        mark_each-Ends object ps clean listed fuel (mark_value-Ends object ps clean listed fuel) vs
          h o r (omega (arith, unmarked-all ps h.marked)) in
      (h', e, mark_each-Marking (mark_value fuel) (mark_value-Marking fuel) vs h h' e)

In-cases : (q : ℕ) (ps : List ℕ) → In q ps ⊎ (¬ In q ps)
In-cases q [] = inr (λ i. i)
In-cases q (p ∷ ps) = elim (Bool-cases (q == p)) [
  | inl e ↦ inl (inl ((==_iff q p).0 e))
  | inr e ↦ elim (In-cases q ps) [
    | inl i ↦ inl (inr i)
    | inr n ↦ inr (λ i. elim i [ inl s ↦ contradiction ((==_iff q p).1 s) e | inr j ↦ n j ])
  ]
]

Resolves-keep :
    (object object' : ℕ → Option Contents) (v : ℕ) (t : MarkTarget)
    → mark_target v ≡ t
    → ((p : ℕ) → Points v p → object' p ≡ object p)
    → Resolves object t
    → Resolves object' t
Resolves-keep object object' v mark_nothing t k r = tt
Resolves-keep object object' v (mark_string p) t k (s, e) = (s, k p (rw t refl) ∙ e)
Resolves-keep object object' v (mark_array p) t k (vs, e) = (vs, k p (rw t refl) ∙ e)
Resolves-keep object object' v (mark_quote p) t k (cells, vs, e, l) =
    (cells, vs, k p (rw t refl) ∙ e, l)

target_listed :
    (object : ℕ → Option Contents) (ps : List ℕ)
    → ((p : ℕ) (c : Contents) → object p ≡ some c → In p ps)
    → (u : ℕ) (t : MarkTarget) → mark_target u ≡ t
    → Resolves object t
    → (q : ℕ) → Points u q
    → In q ps
target_listed object ps l u mark_nothing e r q pt = absurd (cc)
target_listed object ps l u (mark_string p) e (s, o) q pt =
    l q (text s) (ap object (sym (some_cancel (sym (ap target_address e) ∙ pt))) ∙ o)
target_listed object ps l u (mark_array p) e (vs, o) q pt =
    l q (items vs) (ap object (sym (some_cancel (sym (ap target_address e) ∙ pt))) ∙ o)
target_listed object ps l u (mark_quote p) e (cells, vs, o, k) q pt =
    l q (code cells) (ap object (sym (some_cancel (sym (ap target_address e) ∙ pt))) ∙ o)

module _ (ps roots : List ℕ) (h h₂ : Heap) (v : IsHeap ps h) (m : Marking roots h h₂) where
  objects : (p : ℕ) → h₂.object p ≡ h.object p
  objects p = ap (λ x. x.object p) m.same

  -- The marked objects are those that can be reached.
  Reachable-marked : {p : ℕ} → Reachable h.object roots p → h₂.marked p ≡ true
  Reachable-marked (from_root w i pt) = m.roots w i _ pt
  Reachable-marked (from_object {q = q} {c = c} w r e i pt) =
      m.inside q c w (Reachable-marked r) (v.plain q (v.listed q c e)) e i _ pt

  module _ (s : Swept) (w : Sweeping ps 0 h₂ s.heap) where
    -- An object that is left was there and is marked.
    left :
        (p : ℕ) (c : Contents)
        → s.heap.object p ≡ some c
        → In p ps × (h₂.marked p ≡ true) × (h.object p ≡ some c)
    left p c e = elim (In-cases p ps) [
      | inl i ↦ elim (Bool-cases (h₂.marked p)) [
        | inl k ↦ (i, k, sym (objects p) ∙ sym (w.keeps p i k) ∙ e)
        | inr k ↦ absurd (gone (sym (w.frees p i k) ∙ e))
      ]
      | inr n ↦ absurd (n (v.listed p c (sym (objects p) ∙ sym (w.other_objects p n) ∙ e)))
    ]
      where
        gone : none ≡ some c → ⊥
        gone x = cc

    kept_object : (p : ℕ) → In p ps → h₂.marked p ≡ true → s.heap.object p ≡ h.object p
    kept_object p i k = w.keeps p i k ∙ objects p

    left-IsClean : IsClean s.heap.object
    left-IsClean p c e u i =
        let (j, k, f) = left p c e in
        let r = v.clean p c f u i in
        Resolves-keep h.object s.heap.object u (mark_target u) refl
          (λ q pt.
            kept_object q (target_listed h.object ps v.listed u (mark_target u) refl r q pt)
              (m.inside p c u k (v.plain p j) f i q pt))
          r

    left-IsHeap :
        s.kept ≡ length (kept h₂.marked ps)
        → s.kept + s.freed ≡ length ps
        → IsHeap (kept h₂.marked ps) (record (s.heap) { count = h₂.count - s.freed })
    left-IsHeap a b = record {
      chain = w.chain;
      distinct = Distinct-kept h₂.marked ps v.distinct;
      listed = λ p c e. In-kept_back h₂.marked p ps (left p c e).0 (left p c e).1;
      plain = λ p i. w.unmarks p (In-kept h₂.marked p ps i).0 (In-kept h₂.marked p ps i).1;
      clean = left-IsClean;
      counted = omega (arith, a, b, v.counted, ap (λ x. x.count) m.same);
    }

    left-Reachable :
        (p : ℕ) (c : Contents)
        → h.object p ≡ some c
        → (s.heap.object p ≡ some c) ↔ Reachable h.object roots p
    left-Reachable p c e = (
      λ l. m.only p (left p c l).1 (v.plain p (left p c l).0),
      λ r. kept_object p (v.listed p c e) (Reachable-marked r) ∙ e,
    )

-- A collection of a heap whose list is sound, with values on the stack that lead to objects, ends
-- with no invalid access, given fuel for one more call than there are objects. An object is left
-- exactly if it can be reached from the stack, whatever words the vocabularies hold, since the scan
-- of the vocabularies visits none of them. The list is sound again and leads through the objects that
-- are left, and the two numbers count those and the others.
pub garbage_collect-Reachable :
    (fuel : ℕ) (code_of : NamedWord → List Cell) (active : List Vocabulary) (stack ps : List ℕ)
    (h : Heap)
    → IsHeap ps h
    → AllResolve h.object stack
    → length ps < fuel
    → (s : Swept) × (qs : List ℕ) × (garbage_collect fuel code_of active stack h ≡ ok s)
      × ((p : ℕ) (c : Contents)
          → h.object p ≡ some c
          → (s.heap.object p ≡ some c) ↔ Reachable h.object stack p)
      × IsHeap qs s.heap
      × (s.kept ≡ length qs)
      × (s.kept + s.freed ≡ length ps)
unfolding garbage_collect scan_words scan_each sweep
garbage_collect-Reachable fuel code_of active stack ps h v in_stack enough =
    let (h₂, e₂, m) =
      scan_stack-Scanned fuel ps h.object v.clean v.listed enough stack h refl in_stack in
    let (s, e, w, kept_count₀, both₀) =
      sweep_from-Sweeping ps fuel h₂.first 0 false (record { heap = h₂; kept = 0; freed = 0 })
        enough (subst (λ (x : Heap). Chain x.next x.first ps) (sym m.same) v.chain) v.distinct
        (In-zero h.next h.first ps v.chain) (λ _. refl) in
    let kept_count : s.kept ≡ length (kept h₂.marked ps) = omega (arith, kept_count₀) in
    let both : s.kept + s.freed ≡ length ps = omega (arith, both₀) in
    (
      record s { heap = record (s.heap) { count = h₂.count - s.freed } },
      kept h₂.marked ps,
      rw (gc_scan-empty fuel active, e₂, e) refl,
      left-Reachable ps stack h h₂ v m s w,
      left-IsHeap ps stack h h₂ v m s w kept_count both,
      kept_count,
      both,
    )
