-- ===== src/Codegen/Grouped/NativeTurn.antt =====
-- The turn of the layout on a native word.
use tails.Prelude.{
  ℕ, ◌+◌, ◌<◌, ◌≡◌, refl, sym, ap, ◌∙◌, inl, inr, Bool, true, List, none, arith, length, get_elem?,
  set, some_cancel,
}
use tails.Prelude.Members.{In, get_elem?-set, get_elem?-set_other}
use tails.Checker.{SourceWord}
use tails.Codegen.{Layout, parameters_of, is_branch}
use tails.Codegen.Turn.{is_native}
use tails.Codegen.Sizes.{at_here}
use tails.Codegen.Grouped.{IsEntry, Grouped, with_native}
use tails.Codegen.Grouped.Turn.{
  kept-cases, begin_after, entries_after, native_closed, closed-Group, no_head,
}

module _ (originals : List SourceWord) where
  pub native-Grouped :
      (is_destination : ℕ → Bool) (i : ℕ) (s : Layout) (w : SourceWord) (recursive : Bool)
      → ((j : ℕ) → In j s.kept → j < i)
      → i < length s.words
      → s.interp_of i ≡ none
      → is_native w.word ≡ true
      → Grouped originals is_destination i s
      → Grouped originals is_destination (i + 1) (with_native i w recursive s)
  native-Grouped is_destination i s w recursive below inside unheaded native_word v = record {
    entries =
        entries_after originals is_destination i s s' below refl refl same_words (λ j h. inl refl)
          here v.entries;
    begin = inr (begin_after originals is_destination i s s' below refl refl same_words v.begin);
    natives = λ j x k f n b.
        elim (kept-cases originals is_destination i s s' below refl refl same_words j k) [
          | inl m ↦
              native_closed originals is_destination i s s' below refl refl same_words (λ j h. refl)
                here j x m f n b v.natives
          | inr e ↦
              let at_i : s'.pc_of j ≡ s.pc = ap s'.pc_of e ∙ at_here s.pc_of i s.pc in
              let same : x ≡ w =
                some_cancel
                  (sym f ∙ ap (get_elem? s'.words) e ∙ get_elem?-set s.words i w inside) in
              inl (
                ap (λ y. y + 1) e,
                omega (arith, at_i, ap (λ y. parameters_of (y.word)) same),
                sym (ap (λ y. is_branch (y.word)) same) ∙ b,
                refl,
              )
        ];
    groups = λ j h k e.
        elim (kept-cases originals is_destination i s s' below refl refl same_words j k) [
          | inl m ↦
              closed-Group originals is_destination i s s' below refl refl same_words (λ j h. refl)
                here j h m (inl refl) (v.groups j h m e)
          | inr q ↦ absurd (no_head (sym unheaded ∙ ap s.interp_of (sym q) ∙ e))
        ];
  }
    where
      s' : Layout
      s' = with_native i w recursive s

      same_words : (j : ℕ) → j < i → get_elem? (set s.words i w) j ≡ get_elem? s.words j
      same_words j h = get_elem?-set_other s.words i j w (λ z. omega (arith, h, z))

      here : IsEntry s' i
      here = record { w = w; found = get_elem?-set s.words i w inside; starts = inl native_word }
