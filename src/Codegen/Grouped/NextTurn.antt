-- ===== src/Codegen/Grouped/NextTurn.antt =====
-- The turn of the layout on an interpreted word that goes into the present group.
use tails.Prelude.{
  contradiction, ℕ, suc, ◌+◌, ◌<◌, ◌≡◌, ◌≢◌, refl, sym, ap, ◌∙◌, subst, ◌⊎◌, inl, inr, Bool, true,
  false, List, [], ◌∷◌, none, some, arith, get_elem?, Bool-cases, ◌==◌, ==_iff, some_cancel,
}
use tails.Prelude.Members.{In, In-append_right}
use tails.Result.{ok}
use tails.Word.{Native, interpreted}
use tails.Checker.{SourceWord}
use tails.Codegen.{Layout, at, interp_word, parameters_of}
use tails.Codegen.Branches.{Returns}
use tails.Codegen.Sizes.{at_here, at_other}
use tails.Codegen.Grouped.{IsEntry, NextAt, Member, Group, Grouped, with_next}
use tails.Codegen.Grouped.Turn.{
  kept-cases, pc_before, begin_after, before-IsEntry, next_closed, member_before, no_native,
  no_head,
}

module _ (originals : List SourceWord) where
  pub next-Grouped :
      (is_destination : ℕ → Bool) (i : ℕ) (s : Layout) (w : SourceWord) (k : ℕ) (tail : Bool)
      (h old : Native)
      → ((j : ℕ) → In j s.kept → j < i)
      → get_elem? s.words i ≡ some w
      → w.word ≡ interpreted k
      → interp_word tail s.interp_count ≡ ok h
      → (tail ≡ true → Returns originals (i + 1))
      → is_destination i ≡ false
      → s.interp_count ≢ 0
      → s.first_interp < i
      → s.interp_of s.first_interp ≡ some old
      → s.interp_of i ≡ none
      → Grouped originals is_destination i s
      → Grouped originals is_destination (i + 1) (with_next i h s)
  next-Grouped is_destination i s w k tail h old below found word head returns not_dest some_before
        less old_head unheaded v =
      record {
        entries = λ j m d.
            elim (kept-cases originals is_destination i s s' below refl refl same_words j m) [
              | inl kept ↦ entry j (below j kept) (v.entries j kept d)
              | inr e ↦ absurd (no_entry j e d)
            ];
        begin =
            inr (begin_after originals is_destination i s s' below refl refl same_words v.begin);
        natives = λ j x m f n b.
            elim (kept-cases originals is_destination i s s' below refl refl same_words j m) [
              | inl kept ↦
                  subst
                    (λ p.
                      NextAt (i + 1) s' (j + 1) (p + 1 + parameters_of x.word) (s'.interp_count ≡ 0)
                        Unit)
                    (sym (
                      pc_before originals is_destination i s s' below refl refl same_words j
                        (below j kept)))
                    (next_closed originals is_destination i s s' below refl refl same_words
                      same_heads (j + 1) (s.pc_of j + 1 + parameters_of x.word) (λ y. y)
                      (v.natives j x kept f n b) (λ z. absurd (some_before z)))
              | inr e ↦ absurd (
                  no_native x.word k
                    (ap (λ y. y.word) (some_cancel (sym f ∙ ap (get_elem? s.words) e ∙ found))
                      ∙ word)
                    n)
            ];
        groups = λ j g m e.
            elim (kept-cases originals is_destination i s s' below refl refl same_words j m) [
              | inl kept ↦ elim (Bool-cases (j == s.first_interp)) [
                | inl at_first ↦ grown j g kept ((==_iff j s.first_interp).0 at_first) e
                | inr other ↦
                    others j g kept (λ z. contradiction ((==_iff j s.first_interp).1 z) other) e
              ]
              | inr q ↦
                  absurd (
                    no_head
                      (sym unheaded ∙ sym (other_heads i apart) ∙ ap s'.interp_of (sym q) ∙ e))
            ];
      }
    where
      s' : Layout
      s' = with_next i h s

      same_words : (j : ℕ) → j < i → get_elem? s.words j ≡ get_elem? s.words j
      same_words j l = refl

      other_heads :
          (j : ℕ) → j ≢ s.first_interp → at s.interp_of s.first_interp (some h) j ≡ s.interp_of j
      other_heads j n = at_other s.interp_of s.first_interp j (some h) (λ z. n (sym z))

      same_heads :
          (j : ℕ)
          → j < i
          → (s'.interp_of j ≡ s.interp_of j)
            ⊎ ((a : Native) × (b : Native) × (s.interp_of j ≡ some a) × (s'.interp_of j ≡ some b))
      same_heads j l = elim (Bool-cases (j == s.first_interp)) [
        | inl e ↦
            let at_first : j ≡ s.first_interp = (==_iff j s.first_interp).0 e in
            inr (
              old,
              h,
              ap s.interp_of at_first ∙ old_head,
              ap s'.interp_of at_first ∙ at_here s.interp_of s.first_interp (some h),
            )
        | inr e ↦ inl (other_heads j (λ z. contradiction ((==_iff j s.first_interp).1 z) e))
      ]

      apart : i ≢ s.first_interp
      apart z = omega (arith, less, z)

      no_entry : (j : ℕ) → j ≡ i → (is_destination j ≡ true) ⊎ (j ≡ 0) → ⊥
      no_entry j e (inl d) = contradiction d (ap is_destination e ∙ not_dest)
      no_entry j e (inr z) = omega (arith, e, z, less)

      keep_none : (j : ℕ) → j < i → s.interp_of j ≡ none → s'.interp_of j ≡ none
      keep_none j l q = elim (same_heads j l) [
        | inl r ↦ r ∙ q
        | inr (a, _, x, _) ↦ absurd (no_head (sym q ∙ x))
      ]

      moved_pc :
          (j n : ℕ) {o c : Type 0}
          → In j s.kept
          → NextAt (i + 1) s' (j + n) (s.pc_of j + 1 + n) o c
          → NextAt (i + 1) s' (j + n) (s'.pc_of j + 1 + n) o c
      moved_pc j n {o = o} {c = c} m x =
          subst (λ p. NextAt (i + 1) s' (j + n) (p + 1 + n) o c)
            (sym
              (pc_before originals is_destination i s s' below refl refl same_words j (below j m)))
            x

      others :
          (j : ℕ) (g : Native)
          → In j s.kept
          → j ≢ s.first_interp
          → s'.interp_of j ≡ some g
          → Group originals (i + 1) s' j g
      others j g m n e =
          let gr = v.groups j g m (sym (other_heads j n) ∙ e) in
          record {
            more = gr.more;
            members = λ x l.
                let y = gr.members x l in
                member_before originals is_destination i s s' below refl refl same_words j x m
                  (λ _ q. keep_none (j + x) (below (j + x) y.kept) q) y;
            tail = gr.tail;
            head = gr.head;
            returns = gr.returns;
            next = moved_pc j (suc gr.more) m (
                next_closed originals is_destination i s s' below refl refl same_words same_heads
                  (j + suc gr.more) (s.pc_of j + 1 + suc gr.more) (λ _. inr (λ z. n (sym z)))
                  gr.next (λ (_, z). absurd (n (sym z))));
          }

      newest : (j n : ℕ) → j + n ≡ i → s.pc_of j + 1 + n ≡ s.pc → j < i → Member s' j n
      newest j n at_i p l = record {
        w = w;
        k = k;
        found = ap (get_elem? s.words) at_i ∙ found;
        word = word;
        kept = subst (λ x. In x s'.kept) (sym at_i) (In-append_right i s.kept (i ∷ []) (inl refl));
        later = λ _. (
          ap s'.pc_of at_i
              ∙ at_here s.pc_of i s.pc
              ∙ sym p
              ∙ ap (λ y. y + 1 + n)
                  (sym (pc_before originals is_destination i s s' below refl refl same_words j l)),
          ap s'.interp_of at_i ∙ other_heads i apart ∙ unheaded,
        );
      }

      grown :
          (j : ℕ) (g : Native)
          → In j s.kept
          → j ≡ s.first_interp
          → s'.interp_of j ≡ some g
          → Group originals (i + 1) s' j g
      grown j g m at_first e =
          let gr = v.groups j old m (ap s.interp_of at_first ∙ old_head) in
          let is_h : h ≡ g =
            some_cancel
              (sym (ap s'.interp_of at_first ∙ at_here s.interp_of s.first_interp (some h)) ∙ e) in
          elim gr.next [
            | inr (_, _, _, inl z) ↦ absurd (some_before z)
            | inr (_, _, _, inr z) ↦ absurd (z (sym at_first))
            | inl (at_i, p, _, (count, _)) ↦ record {
              more = suc gr.more;
              members = λ x l. elim (Bool-cases (x == suc gr.more)) [
                | inl z ↦
                    let last : x ≡ suc gr.more = (==_iff x (suc gr.more)).0 z in
                    subst (Member s' j) (sym last) (newest j (suc gr.more) at_i p (below j m))
                | inr z ↦
                    let y = gr.members x (ground (arith, l, z)) in
                    member_before originals is_destination i s s' below refl refl same_words j x m
                      (λ _ q. keep_none (j + x) (below (j + x) y.kept) q) y
              ];
              tail = tail;
              head = ap (interp_word tail) (sym count) ∙ head ∙ ap ok is_h;
              returns = λ t. subst (Returns originals) (omega (arith, at_i)) (returns t);
              next = inl (
                omega (arith, at_i),
                omega (
                  arith,
                  p,
                  pc_before originals is_destination i s s' below refl refl same_words j
                      (below j m),
                ),
                refl,
                (omega (arith, count), sym at_first),
              );
            }
          ]

      entry : (j : ℕ) → j < i → IsEntry s j → IsEntry s' j
      entry = before-IsEntry originals is_destination i s s' below refl refl same_words same_heads
