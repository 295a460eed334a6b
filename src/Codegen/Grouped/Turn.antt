-- ===== src/Codegen/Grouped/Turn.antt =====
-- What one turn of the layout leaves of the words and groups before it.
use tails.Prelude.{
  contradiction, ℕ, suc, ◌+◌, ◌<◌, ◌≡◌, ◌≢◌, refl, sym, ap, ◌∙◌, subst, ◌⊎◌, inl, inr, Bool, true,
  false, List, [], ◌∷◌, ◌++◌, none, some, arith, get_elem?,
}
use tails.Prelude.Members.{In, In-append, In-append_left, In-append_right}
use tails.Word.{Native, Word, interpreted}
use tails.Checker.{SourceWord}
use tails.Codegen.{Layout, at, parameters_of, is_branch}
use tails.Codegen.Turn.{is_native}
use tails.Codegen.Sizes.{at_here, at_other}
use tails.Codegen.Grouped.{IsEntry, NextAt, IsCurrent, IsOver, Member, Group}

pub no_native : (x : Word) (k : ℕ) → x ≡ interpreted k → is_native x ≡ true → ⊥
no_native x k e n = contradiction (sym (ap is_native e) ∙ n) refl

pub no_head : {h : Native} → none ≡ some h → ⊥
no_head e = cc

module _ (originals : List SourceWord) where
  module _ (is_destination : ℕ → Bool) (i : ℕ) (s s' : Layout)
      (below : (j : ℕ) → In j s.kept → j < i) (same_kept : s'.kept ≡ s.kept ++ i ∷ [])
      (same_pc : s'.pc_of ≡ at s.pc_of i s.pc)
      (same_words : (j : ℕ) → j < i → get_elem? s'.words j ≡ get_elem? s.words j) where
    kept_before : (j : ℕ) → In j s.kept → In j s'.kept
    kept_before j k = subst (In j) (sym same_kept) (In-append_left j s.kept (i ∷ []) k)

    kept_here : In i s'.kept
    kept_here = subst (In i) (sym same_kept) (In-append_right i s.kept (i ∷ []) (inl refl))

    pub kept-cases : (j : ℕ) → In j s'.kept → In j s.kept ⊎ (j ≡ i)
    kept-cases j k = elim (In-append j s.kept (i ∷ []) (subst (In j) same_kept k)) [
      | inl m ↦ inl m
      | inr (inl e) ↦ inr e
      | inr (inr m) ↦ absurd m
    ]

    pc_here : s'.pc_of i ≡ s.pc
    pc_here = ap (λ f. f i) same_pc ∙ at_here s.pc_of i s.pc

    pub pc_before : (j : ℕ) → j < i → s'.pc_of j ≡ s.pc_of j
    pc_before j h = ap (λ f. f j) same_pc ∙ at_other s.pc_of i j s.pc (λ z. omega (arith, h, z))

    pub begin_after :
        ((i ≡ 0) × (s.pc ≡ 0) × (s.after_branch ≡ false)) ⊎ ((0 < i) × (s.pc_of 0 ≡ 0))
        → (0 < i + 1) × (s'.pc_of 0 ≡ 0)
    begin_after (inl (e, p, _)) = (omega arith, ap s'.pc_of (sym e) ∙ pc_here ∙ p)
    begin_after (inr (h, p)) = (omega arith, pc_before 0 h ∙ p)

    -- The INTERP words before `i` stay, or are others.
    module _
        (same_heads : (j : ℕ)
          → j < i
          → (s'.interp_of j ≡ s.interp_of j)
            ⊎ ((h : Native) × (h' : Native) × (s.interp_of j ≡ some h)
                × (s'.interp_of j ≡ some h'))) where
      pub before-IsEntry : (j : ℕ) → j < i → IsEntry s j → IsEntry s' j
      before-IsEntry j h e = record {
        w = e.w;
        found = same_words j h ∙ e.found;
        starts = elim e.starts [
          | inl n ↦ inl n
          | inr (x, p) ↦ elim (same_heads j h) [
            | inl q ↦ inr (x, q ∙ p)
            | inr (_, x', _, q) ↦ inr (x', q)
          ]
        ];
      }

      pub next_closed :
          (e p : ℕ) {o c o' c' : Type 0}
          → (c → c')
          → NextAt i s e p o c
          → (o → IsEntry s' i × c')
          → NextAt (i + 1) s' e p o' c'
      next_closed e p f (inl (at_i, q, _, opens)) g =
          let (entry, closes) = g opens in
          inr (
            subst (λ x. In x s'.kept) (sym at_i) kept_here,
            subst (IsEntry s') (sym at_i) entry,
            ap s'.pc_of at_i ∙ pc_here ∙ sym q,
            closes,
          )
      next_closed e p f (inr (k, entry, q, closes)) g = inr (
        kept_before e k,
        before-IsEntry e (below e k) entry,
        pc_before e (below e k) ∙ q,
        f closes,
      )

      pub entries_after :
          IsEntry s' i
          → ((j : ℕ) → In j s.kept → (is_destination j ≡ true) ⊎ (j ≡ 0) → IsEntry s j)
          → (j : ℕ) → In j s'.kept
          → (is_destination j ≡ true) ⊎ (j ≡ 0)
          → IsEntry s' j
      entries_after here before j k d = elim (kept-cases j k) [
        | inl m ↦ before-IsEntry j (below j m) (before j m d)
        | inr e ↦ subst (IsEntry s') (sym e) here
      ]

    -- A member of a group that is not the changed one.
    pub member_before :
        (j m : ℕ)
        → In j s.kept
        → (m ≢ 0 → s.interp_of (j + m) ≡ none → s'.interp_of (j + m) ≡ none)
        → Member s j m
        → Member s' j m
    member_before j m k heads x = record {
      w = x.w;
      k = x.k;
      found = same_words (j + m) (below (j + m) x.kept) ∙ x.found;
      word = x.word;
      kept = kept_before (j + m) x.kept;
      later = λ n.
          let (p, q) = x.later n in
          (
            pc_before (j + m) (below (j + m) x.kept)
                ∙ p
                ∙ ap (λ y. y + 1 + m) (sym (pc_before j (below j k))),
            heads n q,
          );
    }

    -- The turn leaves the INTERP words before `i` and starts anew at `i`.
    module _ (same_heads : (j : ℕ) → j < i → s'.interp_of j ≡ s.interp_of j)
        (here : IsEntry s' i) where
      pub native_closed :
          {o' : Type 0} (j : ℕ) (w : SourceWord)
          → In j s.kept
          → get_elem? s'.words j ≡ some w
          → is_native w.word ≡ true
          → is_branch w.word ≡ false
          → ((j : ℕ) (w : SourceWord)
              → In j s.kept
              → get_elem? s.words j ≡ some w
              → is_native w.word ≡ true
              → is_branch w.word ≡ false
              → NextAt i s (j + 1) (s.pc_of j + 1 + parameters_of w.word) (s.interp_count ≡ 0) Unit)
          → NextAt (i + 1) s' (j + 1) (s'.pc_of j + 1 + parameters_of w.word) o' Unit
      native_closed {o' = o'} j w k f n b before =
          let h = below j k in
          subst (λ p. NextAt (i + 1) s' (j + 1) (p + 1 + parameters_of w.word) o' Unit)
            (sym (pc_before j h))
            (next_closed (λ x y. inl (same_heads x y)) (j + 1)
              (s.pc_of j + 1 + parameters_of w.word) (λ x. x)
              (before j w k (sym (same_words j h) ∙ f) n b) (λ _. (here, tt)))

      pub closed-Group :
          (j : ℕ) (h : Native)
          → In j s.kept
          → IsOver s' j
          → Group originals i s j h
          → Group originals (i + 1) s' j h
      closed-Group j h k over g = record {
        more = g.more;
        members = λ m l.
            let x = g.members m l in
            member_before j m k (λ n q. same_heads (j + m) (below (j + m) x.kept) ∙ q) x;
        tail = g.tail;
        head = g.head;
        returns = g.returns;
        next =
            subst
              (λ p.
                NextAt (i + 1) s' (j + suc g.more) (p + 1 + suc g.more)
                  (IsCurrent s' j (suc g.more)) (IsOver s' j))
              (sym (pc_before j (below j k)))
              (next_closed (λ x y. inl (same_heads x y)) (j + suc g.more)
                (s.pc_of j + 1 + suc g.more) (λ _. over) g.next (λ _. (here, over)));
      }
