-- ===== src/Codegen/Grouped/FirstTurn.antt =====
-- The turn of the layout on an interpreted word that starts a group.
use tails.Prelude.{
  ℕ, ◌+◌, ◌<◌, ◌≡◌, refl, sym, ap, ◌∙◌, subst, inl, inr, Bool, true, List, [], ◌∷◌, some, arith,
  get_elem?, some_cancel,
}
use tails.Prelude.Members.{In, In-append_right}
use tails.Result.{ok}
use tails.Word.{Native, interpreted}
use tails.Checker.{SourceWord}
use tails.Codegen.{Layout, at, interp_word}
use tails.Codegen.Branches.{Returns}
use tails.Codegen.Sizes.{at_here, at_other}
use tails.Codegen.Grouped.{IsEntry, Group, Grouped, with_first}
use tails.Codegen.Grouped.Turn.{
  kept-cases, begin_after, entries_after, native_closed, closed-Group, no_native,
}

module _ (originals : List SourceWord) where
  pub first-Grouped :
      (is_destination : ℕ → Bool) (i : ℕ) (s : Layout) (w : SourceWord) (k : ℕ) (tail : Bool)
      (h : Native)
      → ((j : ℕ) → In j s.kept → j < i)
      → get_elem? s.words i ≡ some w
      → w.word ≡ interpreted k
      → interp_word tail 0 ≡ ok h
      → (tail ≡ true → Returns originals (i + 1))
      → Grouped originals is_destination i s
      → Grouped originals is_destination (i + 1) (with_first i h s)
  first-Grouped is_destination i s w k tail h below found word head returns v = record {
    entries =
        entries_after originals is_destination i s s' below refl refl same_words
          (λ j l. inl (same_heads j l)) here v.entries;
    begin = inr (begin_after originals is_destination i s s' below refl refl same_words v.begin);
    natives = λ j x m f n b.
        elim (kept-cases originals is_destination i s s' below refl refl same_words j m) [
          | inl old ↦
              native_closed originals is_destination i s s' below refl refl same_words same_heads
                here j x old f n b v.natives
          | inr e ↦ absurd (
              no_native x.word k
                (ap (λ y. y.word) (some_cancel (sym f ∙ ap (get_elem? s.words) e ∙ found)) ∙ word)
                n)
        ];
    groups = λ j g m e.
        elim (kept-cases originals is_destination i s s' below refl refl same_words j m) [
          | inl old ↦
              let l = below j old in
              closed-Group originals is_destination i s s' below refl refl same_words same_heads
                here j g old (inr (λ z. omega (arith, l, z)))
                (v.groups j g old (sym (same_heads j l) ∙ e))
          | inr q ↦
              subst (λ z. Group originals (i + 1) s' z g) (sym q)
                (begun g (ap s'.interp_of (sym q) ∙ e))
        ];
  }
    where
      s' : Layout
      s' = with_first i h s

      same_words : (j : ℕ) → j < i → get_elem? s.words j ≡ get_elem? s.words j
      same_words j l = refl

      same_heads : (j : ℕ) → j < i → at s.interp_of i (some h) j ≡ s.interp_of j
      same_heads j l = at_other s.interp_of i j (some h) (λ z. omega (arith, l, z))

      here : IsEntry s' i
      here = record { w = w; found = found; starts = inr (h, at_here s.interp_of i (some h)) }

      begun : (g : Native) → s'.interp_of i ≡ some g → Group originals (i + 1) s' i g
      begun g e = record {
        more = 0;
        members = λ m l.
            let at_i : i + m ≡ i = omega (arith, l) in
            record {
              w = w;
              k = k;
              found = ap (get_elem? s.words) at_i ∙ found;
              word = word;
              kept =
                  subst (λ x. In x s'.kept) (sym at_i)
                    (In-append_right i s.kept (i ∷ []) (inl refl));
              later = λ n. absurd (n (omega (arith, l)));
            };
        tail = tail;
        head = head ∙ ap ok (some_cancel (sym (at_here s.interp_of i (some h)) ∙ e));
        returns = returns;
        next = inl (refl, omega (arith, at_here s.pc_of i s.pc), refl, (refl, refl));
      }
