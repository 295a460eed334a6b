-- ===== src/Codegen/Erased.antt =====
-- Whether a branch goes to a word that the layout has left out.
use tails.Prelude.{
  ℕ, ◌≡◌, refl, sym, ap, ◌∙◌, subst, ◌⊎◌, inl, inr, true, false, List, [], ◌∷◌, Option, some, none,
  get_elem?, ◌==◌, ==_iff, Bool-cases, contradiction, some_cancel,
}
use tails.Prelude.Members.{In}
use tails.Word.{Native, Word, native, interpreted}
use tails.Checker.{SourceWord}
use tails.Codegen.{Layout, holds, reads_word, reads_at, reads_all}

-- The native words of the layout among those at `is` branch to words of the layout.
abbrev pub Inside : Layout → List ℕ → Type 0
Inside s is =
    (i t : ℕ) (w : SourceWord) (n : Native)
    → In i is
    → get_elem? s.words i ≡ some w
    → w.word ≡ native n
    → w.branch_to ≡ some t
    → In t s.kept

-- One of the words at `is` branches to a word that is not in the layout.
abbrev pub Outside : Layout → List ℕ → Type 0
Outside s is =
    (i : ℕ) × (t : ℕ) × (w : SourceWord) × In i is
    × (get_elem? s.words i ≡ some w)
    × (w.branch_to ≡ some t)
    × (¬ In t s.kept)

holds-cases :
    (t : ℕ) (is : List ℕ) → ((holds t is ≡ true) × In t is) ⊎ ((holds t is ≡ false) × (¬ In t is))
holds-cases t [] = inr (refl, λ i. i)
holds-cases t (j ∷ is) = elim (Bool-cases (t == j)) [
  | inl e ↦ inl (rw e refl, inl ((==_iff t j).0 e))
  | inr e ↦ elim (holds-cases t is) [
    | inl (h, i) ↦ inl (rw (e, h) refl, inr i)
    | inr (h, n) ↦
        inr
          (rw (e, h) refl, λ i. elim i [ inl s ↦ contradiction ((==_iff t j).1 s) e | inr k ↦ n k ])
  ]
]

reads_word-cases :
    (kept : List ℕ) (x : Word) (b : Option ℕ)
    → ((reads_word kept x b ≡ true)
        × ((t : ℕ) (n : Native) → x ≡ native n → b ≡ some t → In t kept))
      ⊎ ((reads_word kept x b ≡ false) × ((t : ℕ) × (b ≡ some t) × (¬ In t kept)))
reads_word-cases kept (native n) none = inl (refl, λ t m p q. absurd (cc))
reads_word-cases kept (interpreted k) b = inl (refl, λ t m p q. absurd (cc))
reads_word-cases kept (native n) (some t) = elim (holds-cases t kept) [
  | inl (h, i) ↦ inl (h, λ u m p q. subst (λ x. In x kept) (some_cancel q) i)
  | inr (h, i) ↦ inr (h, (t, refl, i))
]

reads_at-cases :
    (kept : List ℕ) (o : Option SourceWord)
    → ((reads_at kept o ≡ true)
        × ((t : ℕ) (w : SourceWord) (n : Native)
            → o ≡ some w
            → w.word ≡ native n
            → w.branch_to ≡ some t
            → In t kept))
      ⊎ ((reads_at kept o ≡ false)
          × ((t : ℕ) × (w : SourceWord) × (o ≡ some w) × (w.branch_to ≡ some t) × (¬ In t kept)))
reads_at-cases kept none = inl (refl, λ t w n e p q. absurd (cc))
reads_at-cases kept (some w) = elim (reads_word-cases kept w.word w.branch_to) [
  | inl (r, f) ↦ inl (
    r,
    λ t v n e p q.
        f t n (ap (λ x. x.word) (some_cancel e) ∙ p) (ap (λ x. x.branch_to) (some_cancel e) ∙ q),
  )
  | inr (r, (t, b, i)) ↦ inr (r, (t, w, refl, b, i))
]

pub reads_all-cases :
    (s : Layout) (is : List ℕ)
    → ((reads_all s is ≡ true) × Inside s is) ⊎ ((reads_all s is ≡ false) × Outside s is)
unfolding reads_all
reads_all-cases s [] = inl (refl, λ i t w n k e p q. absurd k)
reads_all-cases s (j ∷ is) = elim (reads_at-cases s.kept (get_elem? s.words j)) [
  | inr (r, (t, w, e, b, n)) ↦ inr (rw r refl, (j, t, w, inl refl, e, b, n))
  | inl (r, f) ↦ elim (reads_all-cases s is) [
    | inr (r', (i, t, w, k, e, b, n)) ↦ inr (rw (r, r') refl, (i, t, w, inr k, e, b, n))
    | inl (r', g) ↦ inl (
      rw (r, r') refl,
      λ i t w n k e p q. elim k [
        | inl at_j ↦ f t w n (ap (get_elem? s.words) (sym at_j) ∙ e) p q
        | inr k' ↦ g i t w n k' e p q
      ],
    )
  ]
]
