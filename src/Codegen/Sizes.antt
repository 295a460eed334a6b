-- ===== src/Codegen/Sizes.antt =====
-- How many instructions a word is assembled into, and what the layout writes to its maps.
use tails.Prelude.{
  contradiction, ℕ, zero, suc, ◌+◌, ◌<◌, ◌≡◌, ◌≢◌, refl, sym, ap, ◌∙◌, subst, inl, inr, Bool, true,
  false, Option, none, some, arith, get_elem?, Bool-cases, ◌==◌, ==_iff, some_cancel,
}
use tails.Result.{ok}
use tails.Word.{Native, Word, native, interpreted, parameters, word_param, param_kind}
use tails.Checker.{SourceWord}
use tails.Codegen.{Layout, at, interp_word, parameters_of}
use tails.Codegen.Turn.{is_native}

-- The parameters of a native word, or the INTERP word before an interpreted one.
abbrev pub word_spaces : Word → Option Native → ℕ
word_spaces (native n) o = parameters n
word_spaces (interpreted k) none = 0
word_spaces (interpreted k) (some head) = 1

abbrev pub spaces : Option SourceWord → Option Native → ℕ
spaces none o = 0
spaces (some w) o = 1 + word_spaces w.word o

abbrev pub sizes : Layout → ℕ → ℕ
sizes s i = spaces (get_elem? s.words i) (s.interp_of i)

pub at_here {ℓ} : {A : Type ℓ} (f : ℕ → A) (i : ℕ) (a : A) → at f i a i ≡ a
at_here f i a = rw ((==_iff i i).1 refl) refl

pub at_other {ℓ} : {A : Type ℓ} (f : ℕ → A) (i j : ℕ) (a : A) → i ≢ j → at f i a j ≡ f j
at_other f i j a n = elim (Bool-cases (i == j)) [
  | inl e ↦ absurd (n ((==_iff i j).0 e))
  | inr e ↦ rw e refl
]

pub native-spaces :
    (x : Word) (o : Option Native) → is_native x ≡ true → word_spaces x o ≡ parameters_of x
unfolding parameters_of
native-spaces (native n) o e = refl
native-spaces (interpreted k) o e = cc

-- A head that is there already may change.
pub same_spaces :
    (x : Option SourceWord) (head head' : Native) → spaces x (some head) ≡ spaces x (some head')
same_spaces none head head' = refl
same_spaces (some w) head head' = ap (λ n. 1 + n) (same w.word)
  where
    same : (x : Word) → word_spaces x (some head) ≡ word_spaces x (some head')
    same (native n) = refl
    same (interpreted k) = refl

pub interp_word-ends :
    (tail : Bool) (n : ℕ)
    → n < 4
    → (head : Native) × (interp_word tail n ≡ ok head) × (param_kind head ≡ word_param)
unfolding interp_word param_kind
interp_word-ends true zero h = (Native.tailinterp, refl, refl)
interp_word-ends true (suc zero) h = (Native.tailinterp2, refl, refl)
interp_word-ends true (suc (suc zero)) h = (Native.tailinterp3, refl, refl)
interp_word-ends true (suc (suc (suc zero))) h = (Native.tailinterp4, refl, refl)
interp_word-ends true (suc (suc (suc (suc n)))) h = absurd (omega (arith, h))
interp_word-ends false zero h = (Native.interp, refl, refl)
interp_word-ends false (suc zero) h = (Native.interp2, refl, refl)
interp_word-ends false (suc (suc zero)) h = (Native.interp3, refl, refl)
interp_word-ends false (suc (suc (suc zero))) h = (Native.interp4, refl, refl)
interp_word-ends false (suc (suc (suc (suc n)))) h = absurd (omega (arith, h))

pub at-cases {ℓ} :
    {A : Type ℓ} (P : A → Type 0) (f : ℕ → Option A) (i : ℕ) (a : A)
    → P a
    → ((j : ℕ) (b : A) → f j ≡ some b → P b)
    → (j : ℕ) (b : A) → at f i (some a) j ≡ some b
    → P b
at-cases P f i a p q j b e = elim (Bool-cases (i == j)) [
  | inl s ↦
      subst P
        (some_cancel (sym (at_here f i (some a)) ∙ ap (at f i (some a)) ((==_iff i j).0 s) ∙ e)) p
  | inr s ↦ q j b (sym (at_other f i j (some a) (λ z. contradiction ((==_iff i j).1 z) s)) ∙ e)
]
