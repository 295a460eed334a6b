-- ===== src/Parser/Words.antt =====
-- What the parser puts together is what the steps of the compiler's object give.
use tails.Prelude.{
  ℕ, ◌<◌, ◌≡◌, refl, subst, Bool, true, false, List, [], ◌∷◌, some, arith, length, get_elem?, ◌==◌,
  ==_iff,
}
use tails.Result.{ok, ◌>>◌, guard, >>=-eq-ok, guard-eq-ok, ok-injective, unexpected_delimiter}
use tails.Word.{Word}
use tails.Checker.{SourceWord}
use tails.Vocabulary.{Vocabulary}
use tails.Builder.{Builder}
use tails.Builder.Built.{has_target}
use tails.Builder.Steps.{Compiles, Compiles-IsKept}
use tails.Builder.Finish.{Compiles-resolved}
use tails.Parser.{Memory, Parsed, parse, parse_source}
use tails.Token.{Conversion}
use tails.Parser.Steps.{parse_keeps}

module _ (stod : List ℕ → Conversion) (active : List Vocabulary) (word_at : ℕ → Word)
    (registered is_inline : ℕ → Bool) (parse_fuel : ℕ)
    (no_inline : (k : ℕ) → is_inline k ≡ false) where
  -- When source code is parsed to its end, no word of it being inline, the object is one that a
  -- compilation goes through, nothing of the input is left, and if the control stack is empty, each
  -- branch goes to a word of the list that is marked as a destination.
  pub parse_source-Compiles :
      (input : List ℕ) (b : Builder) (m : Memory) (p : Parsed)
      → parse_source stod active word_at registered is_inline parse_fuel input b m ≡ ok p
      → Compiles b
      → (p.rest ≡ [])
        × Compiles p.builder
        × (p.builder.control ≡ []
            → (i : ℕ) (w : SourceWord) → get_elem? p.builder.words i ≡ some w
            → has_target w.word ≡ true
            → (t : ℕ) × (w.branch_to ≡ some t)
              × (t < length p.builder.words)
              × (p.builder.is_destination t ≡ true))
  unfolding parse_source
  parse_source-Compiles input b m p h c =
      let (q, e, f) =
        >>=-eq-ok (parse stod active word_at registered is_inline parse_fuel parse_fuel input b m)
          (λ q. guard (length q.rest == 0) unexpected_delimiter >> ok q) h in
      let (_, g, k) = >>=-eq-ok (guard (length q.rest == 0) unexpected_delimiter) (λ _. ok q) f in
      let same = ok-injective k in
      let compiles =
        subst (λ x. Compiles x.builder) same
          (parse_keeps stod active word_at registered is_inline parse_fuel no_inline Compiles
            Compiles-IsKept parse_fuel input b m q e c) in
      (
        subst (λ x. x.rest ≡ []) same (empty q.rest (guard-eq-ok _ _ g)),
        compiles,
        λ done. Compiles-resolved p.builder compiles done,
      )
    where
      empty : (cs : List ℕ) → (length cs == 0) ≡ true → cs ≡ []
      empty [] x = refl
      empty (d ∷ cs) x = absurd (omega (arith, (==_iff (length (d ∷ cs)) 0).0 x))
