-- ===== src/Disassembler/Tests.antt =====
-- The code of IF word THEN, disassembled.
use tails.Prelude.{
  ℕ, zero, suc, ◌+◌, ◌≡◌, ◌≢◌, ◌<◌, ◌≤◌, refl, sym, subst, inl, inr, Bool, true, false, List, [],
  ◌∷◌, none, some, arith, get_elem?, some_cancel,
}
use tails.Result.{Result, ok, err}
use tails.Value.{null}
use tails.Word.{Native, native, interpreted, parameters, param_kind}
use tails.Checker.{SourceWord, returns_immediately}
use tails.Codegen.{
  Layout, lay_out, assemble, place, place_word, place_native, place_interpreted, place_all,
  retarget, tail_call, follow_branches, interp_word, start, parameters_of,
}
use tails.Codegen.Branches.{IsSource, Lands, is_jump}
use tails.Disassembler.{words_of}
use tails.Disassembler.Inverse.{refs_of, Listed, words_of-generate}

abbrev to_end : SourceWord
to_end = record { word = native Native.zbranch; param = null; branch_to = some 2 }

abbrev seven : SourceWord
seven = record { word = interpreted 7; param = null; branch_to = none }

abbrev return_word : SourceWord
return_word = record { word = native Native.ret; param = null; branch_to = none }

abbrev maybe_seven : List SourceWord
maybe_seven = to_end ∷ seven ∷ return_word ∷ []

abbrev nowhere : ℕ → Bool
nowhere i = false

abbrev flat : ℕ → ℕ
flat i = 0

abbrev all_registered : ℕ → Bool
all_registered k = true

by_index :
    (P : ℕ → SourceWord → Type 0)
    → P 0 to_end
    → P 1 seven
    → P 2 return_word
    → (i : ℕ) (w : SourceWord) → get_elem? maybe_seven i ≡ some w
    → P i w
by_index P a b c zero w g = subst (P 0) (some_cancel g) a
by_index P a b c (suc zero) w g = subst (P 1) (some_cancel g) b
by_index P a b c (suc (suc zero)) w g = subst (P 2) (some_cancel g) c
by_index P a b c (suc (suc (suc i))) w g = absurd (cc)

maybe_seven-IsSource : IsSource nowhere flat maybe_seven
unfolding parameters_of parameters
maybe_seven-IsSource = record {
  in_range = λ i w t e.
      by_index (λ j x. x.branch_to ≡ some t → Lands nowhere 3 t)
        (λ h. subst (Lands nowhere 3) (some_cancel h) (omega arith, inr refl)) (λ h. absurd (cc))
        (λ h. absurd (cc)) i w e;
  resolved =
      by_index (λ j x. is_jump x.word ≡ true → (t : ℕ) × (x.branch_to ≡ some t) × (flat t < flat j))
        (λ h. absurd (cc)) (λ h. absurd (cc)) (λ h. absurd (cc));
  ended =
      by_index (λ j x. x.word ≢ native Native.ret → j + 1 < 3) (λ n. omega arith) (λ n. omega arith)
        (λ n. absurd (n refl));
  one_parameter =
      by_index (λ j x. parameters_of x.word ≤ 1) (omega arith) (omega arith) (omega arith);
}

abbrev layout_or : Layout → Result Layout → Layout
layout_or s (ok t) = t
layout_or s (err _) = s

abbrev laid_out : Layout
laid_out = layout_or (start maybe_seven) (lay_out 5 nowhere maybe_seven)

words_of-generate_example :
    words_of all_registered 5 (assemble laid_out laid_out.kept) ≡ ok (refs_of laid_out (0 ∷ 1 ∷ []))
unfolding lay_out place place_word place_native place_interpreted place_all retarget tail_call
    follow_branches interp_word start parameters_of parameters returns_immediately param_kind
words_of-generate_example =
    words_of-generate all_registered 5 nowhere flat maybe_seven maybe_seven-IsSource
      (λ i h. omega arith) laid_out (0 ∷ 1 ∷ []) 2 refl refl
      (λ i k. elim k [
        | inl e ↦ subst (Listed all_registered false laid_out) (sym e) (to_end, refl, refl, refl)
        | inr (inl e) ↦
            subst (Listed all_registered false laid_out) (sym e) (seven, refl, refl, refl)
        | inr (inr x) ↦ absurd x
      ])
      (return_word, refl, refl, refl) 5 (omega arith)
