-- ===== src/Builder/Finish.antt =====
-- The end of a compilation: RETURN takes the place of NOP, the stack is checked, and code is
-- generated.
use tails.Prelude.{
  ℕ, ◌≤◌, ◌<◌, ◌≡◌, ◌≢◌, refl, sym, ap, ◌∙◌, subst, ◌⊎◌, inl, inr, true, false, List, [], none,
  some, arith, length, get_elem?, set, Bool-cases, ◌==◌, ==_iff,
}
use tails.Prelude.Members.{length-set, get_elem?-lt, set-cases}
use tails.StackEffect.{StackEffect}
use tails.Word.{Native, Word, native, interpreted, parameters}
use tails.Checker.{SourceWord, Checker}
use tails.Codegen.{at, parameters_of}
use tails.Codegen.Branches.{IsSource, Lands, is_jump}
use tails.Builder.{Builder, return_word, last, end_words}
use tails.Builder.Built.{Built, has_target}
use tails.Builder.Steps.{Waiting, Compiles}
use tails.Builder.Control.{Compiles-IsBuilder}

jump-has_target : (x : Word) → is_jump x ≡ true → has_target x ≡ true
jump-has_target (native Native.branch) e = refl
jump-has_target (native Native.recurse) e = refl
jump-has_target (native _) e = cc
jump-has_target (interpreted k) e = cc

-- However the operations of the object other than inlining put a word together, when the control
-- stack is empty each BRANCH, 0BRANCH and RECURSE has a target, a word of the list that is marked as a
-- destination.
pub Compiles-resolved :
    (b : Builder)
    → Compiles b
    → b.control ≡ []
    → (i : ℕ) (w : SourceWord) → get_elem? b.words i ≡ some w
    → has_target w.word ≡ true
    → (t : ℕ) × (w.branch_to ≡ some t) × (t < length b.words) × (b.is_destination t ≡ true)
Compiles-resolved b c empty i w e k =
    let v = (Compiles-IsBuilder b c).built in
    elim (v.resolved i w e k) [
      | inl (t, to) ↦ (t, to, (v.lands i w t e to).0, (v.lands i w t e to).1)
      | inr x ↦ absurd (subst (Waiting i) empty x)
    ]

-- Along BRANCH and RECURSE the rank goes down.
abbrev pub Descends : (ℕ → ℕ) → List SourceWord → Type 0
Descends rank words =
    (i : ℕ) (w : SourceWord) (t : ℕ)
    → get_elem? words i ≡ some w
    → is_jump w.word ≡ true
    → w.branch_to ≡ some t
    → rank t < rank i

pub end_words-IsSource :
    (rank : ℕ → ℕ) (b : Builder)
    → Compiles b
    → b.control ≡ []
    → Descends rank (end_words b).words
    → IsSource (end_words b).is_destination rank (end_words b).words
unfolding end_words parameters_of parameters
end_words-IsSource rank b c empty d = record {
  in_range = λ i w t e to. elim (cases i w e) [
    | inl (_, q) ↦ absurd (no_target (ap (λ x. x.branch_to) q ∙ to))
    | inr (_, g) ↦ landed t (v.lands i w t g to)
  ];
  resolved = λ i w e k. elim (cases i w e) [
    | inl (_, q) ↦ absurd (no_jump (ap (λ x. is_jump (x.word)) q ∙ k))
    | inr (_, g) ↦
        let (t, to, _, _) = Compiles-resolved b c empty i w g (jump-has_target w.word k) in
        (t, to, d i w t e k to)
  ];
  ended = λ i w e n. elim (cases i w e) [
    | inl (_, q) ↦ absurd (n (sym (ap (λ x. x.word) q)))
    | inr (other, g) ↦
        omega
          (arith, get_elem?-lt b.words i g, length-set b.words (last b) return_word, apart i other)
  ];
  one_parameter = λ i w e. elim (cases i w e) [
    | inl (_, q) ↦ subst (λ x. parameters_of x.word ≤ 1) q (omega arith)
    | inr (_, g) ↦ (v.ordinary i w g).1
  ];
}
  where
    v : Built (λ i. Waiting i b.control) b
    v = (Compiles-IsBuilder b c).built

    cases :
        (i : ℕ) (w : SourceWord)
        → get_elem? (set b.words (last b) return_word) i ≡ some w
        → ((last b ≡ i) × (return_word ≡ w)) ⊎ ((last b ≢ i) × (get_elem? b.words i ≡ some w))
    cases = set-cases b.words (last b) return_word (omega (arith, v.some_words))

    apart : (i : ℕ) → last b ≢ i → i ≢ last b
    apart i n e = n (sym e)

    no_target : {t : ℕ} → none ≡ some t → ⊥
    no_target x = cc

    no_jump : false ≡ true → ⊥
    no_jump x = cc

    landed :
        (t : ℕ)
        → (t < length b.words) × (b.is_destination t ≡ true)
        → Lands (at b.is_destination (last b) false) (length (set b.words (last b) return_word)) t
    landed t (h, dest) = (
      omega (arith, h, length-set b.words (last b) return_word),
      elim (Bool-cases (last b == t)) [
        | inl e ↦ inr (
            omega (
              arith,
              (==_iff (last b) t).0 e,
              v.some_words,
              length-set b.words (last b) return_word,
            ))
        | inr e ↦ inl (rw e dest)
      ],
    )
