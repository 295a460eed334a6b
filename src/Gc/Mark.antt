-- ===== src/Gc/Mark.antt =====
-- What marking marks: the objects that can be reached, and no others.
pub mod Values
pub mod Ends
use tails.Prelude.{
  contradiction, ℕ, zero, suc, ◌≡◌, refl, sym, ap, ◌∙◌, subst, ◌⊎◌, inl, inr, Bool, true, false,
  List, [], ◌∷◌, ◌++◌, Option, none, some, arith, ◌==◌, ==_iff, Bool-cases, if◌then◌else◌,
  some_cancel, Option-cases,
}
use tails.Prelude.Members.{In, In-append, In-append_left, In-append_right}
use tails.Result.{Result, ok, err, ◌>>=◌, >>=-eq-ok, ok-injective, Result-cases}
use tails.NanTagged.{MarkTarget, mark_nothing, mark_string, mark_array, mark_quote, mark_target}
use tails.Gc.{
  Cell, Contents, text, items, code, Heap, put, literals, set_mark, mark_each, mark_unmarked,
  mark_object, mark_value,
}

abbrev pub target_address : MarkTarget → Option ℕ
target_address mark_nothing = none
target_address (mark_string p) = some p
target_address (mark_array p) = some p
target_address (mark_quote p) = some p

-- The value `v` is one of the object at `p`.
abbrev pub Points : ℕ → ℕ → Type 0
Points v p = target_address (mark_target v) ≡ some p

abbrev pub found_literals : Result (List ℕ) → List ℕ
found_literals (ok vs) = vs
found_literals (err _) = []

abbrev pub values_of : Contents → List ℕ
values_of (text s) = []
values_of (items vs) = vs
values_of (code cells) = found_literals (literals cells)

-- What can be reached from the values `roots` in a heap with these objects.
pub data Reachable (object : ℕ → Option Contents) (roots : List ℕ) : ℕ → Type 0 where
  from_root : {p : ℕ} (v : ℕ) → In v roots → Points v p → Reachable object roots p
  from_object :
      {p q : ℕ} {c : Contents} (v : ℕ)
      → Reachable object roots q
      → object q ≡ some c
      → In v (values_of c)
      → Points v p
      → Reachable object roots p

Reachable-map :
    (object : ℕ → Option Contents) (vs ws : List ℕ)
    → ((v : ℕ) → In v vs → In v ws)
    → {p : ℕ} → Reachable object vs p
    → Reachable object ws p
Reachable-map object vs ws f (from_root v i pt) = from_root v (f v i) pt
Reachable-map object vs ws f (from_object v r e i pt) =
    from_object v (Reachable-map object vs ws f r) e i pt

-- What is reached from the contents of a reached object is reached.
Reachable-through :
    (object : ℕ → Option Contents) (roots : List ℕ) (q : ℕ) (c : Contents)
    → Reachable object roots q
    → object q ≡ some c
    → {p : ℕ} → Reachable object (values_of c) p
    → Reachable object roots p
Reachable-through object roots q c r e (from_root v i pt) = from_object v r e i pt
Reachable-through object roots q c r e (from_object v s f i pt) =
    from_object v (Reachable-through object roots q c r e s) f i pt

-- The object of `v` is marked.
abbrev pub Seen : Heap → ℕ → Type 0
Seen h v = (p : ℕ) → Points v p → h.marked p ≡ true

-- The same heap with other marks.
abbrev pub with_marks : (ℕ → Bool) → Heap → Heap
with_marks m h = record h { marked = m }

-- What marking the values `vs` has done: nothing but marks has changed, none is lost, the values
-- are marked, and the objects that are marked anew have been reached and have all that they
-- contain marked too.
pub record Marking (vs : List ℕ) (h h' : Heap) : Type 0 where
  pub same : h' ≡ with_marks h'.marked h
  pub keeps : (p : ℕ) → h.marked p ≡ true → h'.marked p ≡ true
  pub roots : (v : ℕ) → In v vs → Seen h' v
  pub inside :
      (p : ℕ) (c : Contents) (v : ℕ)
      → h'.marked p ≡ true
      → h.marked p ≡ false
      → h.object p ≡ some c
      → In v (values_of c)
      → Seen h' v
  pub only : (p : ℕ) → h'.marked p ≡ true → h.marked p ≡ false → Reachable h.object vs p

pub Marking-refl : (h : Heap) → Marking [] h h
Marking-refl h = record {
  same = refl;
  keeps = λ p m. m;
  roots = λ v i. absurd i;
  inside = λ p c v m n. contradiction m n;
  only = λ p m n. contradiction m n;
}

pub Marking-trans :
    (vs ws : List ℕ) (h h₁ h₂ : Heap) → Marking vs h h₁ → Marking ws h₁ h₂ → Marking (vs ++ ws) h h₂
Marking-trans vs ws h h₁ h₂ a b =
    let objects : h₁.object ≡ h.object = ap (λ x. x.object) a.same in
    record {
      same = b.same ∙ ap (λ (x : Heap). with_marks h₂.marked x) a.same;
      keeps = λ p m. b.keeps p (a.keeps p m);
      roots = λ v i. elim (In-append v vs ws i) [
        | inl j ↦ λ p pt. b.keeps p (a.roots v j p pt)
        | inr j ↦ b.roots v j
      ];
      inside = λ p c v m n e i. elim (Bool-cases (h₁.marked p)) [
        | inl m₁ ↦ λ q pt. b.keeps q (a.inside p c v m₁ n e i q pt)
        | inr n₁ ↦ b.inside p c v m n₁ (ap (λ o. o p) objects ∙ e) i
      ];
      only = λ p m n. elim (Bool-cases (h₁.marked p)) [
        | inl m₁ ↦
            Reachable-map h.object vs (vs ++ ws) (λ v. In-append_left v vs ws) (a.only p m₁ n)
        | inr n₁ ↦
            Reachable-map h.object ws (vs ++ ws) (λ v. In-append_right v vs ws)
              (subst (λ o. Reachable o ws p) objects (b.only p m n₁))
      ];
    }

put-same : (f : ℕ → Bool) (p : ℕ) (b : Bool) → put f p b p ≡ b
put-same f p b = rw ((==_iff p p).1 refl)

-- An object is marked, then its contents.
pub node-Marking :
    (v p : ℕ) (c : Contents) (h h' : Heap)
    → Points v p
    → h.object p ≡ some c
    → Marking (values_of c) (set_mark p h) h'
    → Marking (v ∷ []) h h'
node-Marking v p c h h' pt e m = record {
  same = m.same;
  keeps = λ q k. m.keeps q (kept q k);
  roots = root;
  inside = within;
  only = reached;
}
  where
    kept : (q : ℕ) → h.marked q ≡ true → put h.marked p true q ≡ true
    kept q k = ground arith

    now : (q : ℕ) → p ≡ q → h'.marked q ≡ true
    now q s = m.keeps q (subst (λ x. put h.marked p true x ≡ true) s (put-same h.marked p true))

    other : (q : ℕ) → (p == q) ≡ false → h.marked q ≡ false → put h.marked p true q ≡ false
    other q d n = ground arith

    root : (w : ℕ) → In w (v ∷ []) → Seen h' w
    root w (inl s) = λ q pq. now q (some_cancel (sym pt ∙ subst (λ x. Points x q) s pq))
    root w (inr i) = absurd i

    within :
        (q : ℕ) (d : Contents) (w : ℕ)
        → h'.marked q ≡ true
        → h.marked q ≡ false
        → h.object q ≡ some d
        → In w (values_of d)
        → Seen h' w
    within q d w k n f i = elim (Bool-cases (p == q)) [
      | inl s ↦
          let s' : p ≡ q = (==_iff p q).0 s in
          let c' : d ≡ c = some_cancel (sym f ∙ ap h.object (sym s') ∙ e) in
          m.roots w (subst (λ x. In w (values_of x)) c' i)
      | inr s ↦ m.inside q d w k (other q s n) f i
    ]

    reached : (q : ℕ) → h'.marked q ≡ true → h.marked q ≡ false → Reachable h.object (v ∷ []) q
    reached q k n = elim (Bool-cases (p == q)) [
      | inl s ↦ from_root v (inl refl) (pt ∙ ap some ((==_iff p q).0 s))
      | inr s ↦
          Reachable-through h.object (v ∷ []) p c (from_root v (inl refl) pt) e
            (m.only q k (other q s n))
    ]

-- A value whose object is marked already.
pub marked-Marking : (v : ℕ) (h : Heap) → Seen h v → Marking (v ∷ []) h h
marked-Marking v h seen = record {
  same = refl;
  keeps = λ p m. m;
  roots = root;
  inside = λ p c w m n. contradiction m n;
  only = λ p m n. contradiction m n;
}
  where
    root : (w : ℕ) → In w (v ∷ []) → Seen h w
    root w (inl s) = subst (Seen h) (sym s) seen
    root w (inr i) = absurd i

abbrev pub Marks : (ℕ → Heap → Result Heap) → Type 0
Marks go = (v : ℕ) (h h' : Heap) → go v h ≡ ok h' → Marking (v ∷ []) h h'

pub mark_each-Marking :
    (go : ℕ → Heap → Result Heap)
    → Marks go
    → (vs : List ℕ) (h h' : Heap) → mark_each go vs h ≡ ok h'
    → Marking vs h h'
unfolding mark_each
mark_each-Marking go m [] h h' e = subst (Marking [] h) (ok-injective e) (Marking-refl h)
mark_each-Marking go m (v ∷ vs) h h' e =
    let (h₁, e₁, e₂) = >>=-eq-ok (go v h) _ e in
    Marking-trans (v ∷ []) vs h h₁ h' (m v h h₁ e₁) (mark_each-Marking go m vs h₁ h' e₂)

pub mark_unmarked-Marking :
    (go : ℕ → Heap → Result Heap)
    → Marks go
    → (v p : ℕ) (c : Contents) (vs : Result (List ℕ)) (h h' : Heap) → Points v p
    → h.object p ≡ some c
    → ((xs : List ℕ) → vs ≡ ok xs → xs ≡ values_of c)
    → mark_unmarked go (h.marked p) p vs h ≡ ok h'
    → Marking (v ∷ []) h h'
unfolding mark_unmarked
mark_unmarked-Marking go m v p c vs h h' pt o same e = elim (Bool-cases (h.marked p)) [
  | inl k ↦
      let h≡h' : h ≡ h' = ground arith in
      subst (Marking (v ∷ []) h) h≡h'
        (marked-Marking v h (λ q pq. subst (λ x. h.marked x ≡ true) (some_cancel (sym pt ∙ pq)) k))
  | inr k ↦
      let run : (vs >>= λ values. mark_each go values (set_mark p h)) ≡ ok h' = ground arith in
      let (xs, e₁, e₂) = >>=-eq-ok vs _ run in
      node-Marking v p c h h' pt o (
        subst (λ ys. Marking ys (set_mark p h) h') (same xs e₁)
          (mark_each-Marking go m xs (set_mark p h) h' e₂))
]
