-- ===== src/Builder/Built.antt =====
-- The invariant of the object while a word is compiled, and that `add` keeps it.
use tails.Prelude.{
  contradiction, refl, ℕ, ◌+◌, ◌≤◌, ◌<◌, ◌≡◌, ◌≢◌, sym, ap, ◌∙◌, subst, ◌⊎◌, inl, inr, Bool, true,
  false, [], ◌∷◌, ◌++◌, none, some, arith, length, get_elem?, set, some_cancel, length-append,
}
use tails.Prelude.Members.{
  length-set, get_elem?-set, get_elem?-append, get_elem?-set_other, get_elem?-lt, set-cases,
  get_elem?-append_end, append-cases,
}
use tails.Word.{Native, Word, native, parameters}
use tails.Checker.{SourceWord}
use tails.Codegen.{parameters_of}
use tails.Builder.{Builder, placeholder, last, add}

-- The words with a target.
abbrev pub has_target : Word → Bool
has_target (native Native.branch) = true
has_target (native Native.zbranch) = true
has_target (native Native.recurse) = true
has_target _ = false

-- The list of words, where each word with a target has one or `waits`, and no other word has or waits
-- for one.
pub record Built (waits : ℕ → Type 0) (b : Builder) : Type 0 where
  pub some_words : 0 < length b.words
  pub ends : get_elem? b.words (last b) ≡ some placeholder
  pub lands :
      (i : ℕ) (w : SourceWord) (t : ℕ)
      → get_elem? b.words i ≡ some w
      → w.branch_to ≡ some t
      → (t < length b.words) × (b.is_destination t ≡ true)
  pub resolved :
      (i : ℕ) (w : SourceWord)
      → get_elem? b.words i ≡ some w
      → has_target w.word ≡ true
      → ((t : ℕ) × (w.branch_to ≡ some t)) ⊎ waits i
  pub ordinary :
      (i : ℕ) (w : SourceWord)
      → get_elem? b.words i ≡ some w
      → (w.word ≢ native Native.ret) × (parameters_of w.word ≤ 1)
  pub targetless :
      (i : ℕ) (w : SourceWord)
      → get_elem? b.words i ≡ some w
      → has_target w.word ≡ false
      → w.branch_to ≡ none
  pub branches :
      (i : ℕ)
      → waits i
      → (w : SourceWord) × (get_elem? b.words i ≡ some w) × (has_target w.word ≡ true)

placeholder-ordinary :
    ((native Native.nop) ≢ native Native.ret) × (parameters_of (native Native.nop) ≤ 1)
unfolding parameters_of parameters
placeholder-ordinary = ((λ e. cc), omega arith)

pub length-add : (w : SourceWord) (b : Builder) → length (add w b).words ≡ length b.words + 1
unfolding add
length-add w b =
    length-append (set b.words (last b) w) (placeholder ∷ [])
    ∙ ap (λ n. n + 1) (length-set b.words (last b) w)

pub add-Built :
    {waits waits' : ℕ → Type 0} (w : SourceWord) (b : Builder)
    → Built waits b
    → w.branch_to ≡ none
    → (w.word ≢ native Native.ret) × (parameters_of w.word ≤ 1)
    → ((i : ℕ) → waits i → waits' i)
    → (has_target w.word ≡ true → waits' (last b))
    → ((i : ℕ) → waits' i → waits i ⊎ ((last b ≡ i) × (has_target w.word ≡ true)))
    → Built waits' (add w b)
unfolding add
add-Built {waits = waits} {waits' = waits'} w b v none_to good weaker wait_here stronger = record {
  some_words = omega (arith, length-add w b);
  ends =
      ap (get_elem? (add w b).words)
        (omega (arith, length-add w b, length-set b.words (last b) w, v.some_words))
      ∙ get_elem?-append_end (set b.words (last b) w) placeholder;
  lands = λ i x t f to. elim (cases i x f) [
    | inl (_, q) ↦ absurd (no_target (sym none_to ∙ ap (λ y. y.branch_to) q ∙ to))
    | inr (inl q) ↦ absurd (no_target (ap (λ y. y.branch_to) q ∙ to))
    | inr (inr g) ↦
        let (range, dest) = v.lands i x t g to in (omega (arith, range, length-add w b), dest)
  ];
  resolved = λ i x f k. elim (cases i x f) [
    | inl (p, q) ↦ inr (subst waits' p (wait_here (ap (λ y. has_target (y.word)) q ∙ k)))
    | inr (inl q) ↦ absurd (no_jump (ap (λ y. has_target (y.word)) q ∙ k))
    | inr (inr g) ↦ elim (v.resolved i x g k) [ inl r ↦ inl r | inr o ↦ inr (weaker i o) ]
  ];
  ordinary = λ i x f. elim (cases i x f) [
    | inl (_, q) ↦ subst (λ y. (y.word ≢ native Native.ret) × (parameters_of y.word ≤ 1)) q good
    | inr (inl q) ↦
        subst (λ y. (y.word ≢ native Native.ret) × (parameters_of y.word ≤ 1)) q
          placeholder-ordinary
    | inr (inr g) ↦ v.ordinary i x g
  ];
  targetless = λ i x f k. elim (cases i x f) [
    | inl (_, q) ↦ ap (λ y. y.branch_to) (sym q) ∙ none_to
    | inr (inl q) ↦ ap (λ y. y.branch_to) (sym q)
    | inr (inr g) ↦ v.targetless i x g k
  ];
  branches = λ i x. elim (stronger i x) [
    | inl old ↦
        let (y, g, k) = v.branches i old in
        (
          y,
          at_old i (get_elem?-lt b.words i g)
              ∙ get_elem?-set_other b.words (last b) i w (not_last i y g k)
              ∙ g,
          k,
        )
    | inr (e, k) ↦ (
      w,
      at_old i (omega (arith, e, v.some_words))
          ∙ ap (get_elem? (set b.words (last b) w)) (sym e)
          ∙ get_elem?-set b.words (last b) w (omega (arith, v.some_words)),
      k,
    )
  ];
}
  where
    not_last :
        (i : ℕ) (y : SourceWord)
        → get_elem? b.words i ≡ some y
        → has_target y.word ≡ true
        → last b ≢ i
    not_last i y g k z =
        contradiction
          (ap (λ x. has_target (x.word)) (some_cancel (sym v.ends ∙ ap (get_elem? b.words) z ∙ g))
            ∙ k)
          refl

    at_old :
        (i : ℕ)
        → i < length b.words
        → get_elem? (set b.words (last b) w ++ placeholder ∷ []) i
          ≡ get_elem? (set b.words (last b) w) i
    at_old i h =
        get_elem?-append (set b.words (last b) w) (placeholder ∷ []) i
          (omega (arith, h, length-set b.words (last b) w))

    cases :
        (i : ℕ) (x : SourceWord)
        → get_elem? (set b.words (last b) w ++ placeholder ∷ []) i ≡ some x
        → ((last b ≡ i) × (w ≡ x)) ⊎ (placeholder ≡ x) ⊎ (get_elem? b.words i ≡ some x)
    cases i x f = elim (append-cases (set b.words (last b) w) placeholder i x f) [
      | inl g ↦ elim (set-cases b.words (last b) w (omega (arith, v.some_words)) i x g) [
        | inl e ↦ inl e
        | inr (_, h) ↦ inr (inr h)
      ]
      | inr (_, q) ↦ inr (inl q)
    ]

    no_target : {t : ℕ} → none ≡ some t → ⊥
    no_target e = cc

    no_jump : false ≡ true → ⊥
    no_jump e = cc
