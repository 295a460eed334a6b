-- ===== src/Parser/Steps.antt =====
-- What every step of the compiler's object keeps, the parser keeps.
use tails.Prelude.{
  ℕ, zero, suc, ◌≡◌, refl, subst, inl, inr, Bool, true, false, not, List, ◌∷◌, Option, none, some,
  arith, if◌then◌else◌, Option-cases,
}
use tails.Result.{
  Result, ok, err, ◌>>=◌, guard, >>=-eq-ok, guard-eq-ok, ok-injective, magic_word, unknown_word,
}
use tails.Value.{Value, number, array, null}
use tails.Word.{Native, Word, native, interpreted, parameters}
use tails.Codegen.{parameters_of}
use tails.Vocabulary.{NamedWord, Vocabulary, lookup_active}
use tails.Builder.{Builder, simple_word, add}
use tails.Builder.Steps.{IsPlain, IsKept}
use tails.Tokenizer.{read_token}
use tails.Parser.{
  Memory, Parsed, is_magic, parse_array, add_word, add_inline, add_other, add_token, parse_quote,
  parse,
}
use tails.Token.{
  Conversion, Token, at_end, at_brace, a_string, an_array, a_quotation, word_if, word_else,
  word_then, word_begin, word_while, word_repeat, word_recurse, other, as_number, parse_string,
  classify,
}

literal-IsPlain : (v : Value) → IsPlain (simple_word (native Native.lit) v)
unfolding parameters_of parameters
literal-IsPlain v = (refl, refl, (λ e. cc), omega arith)

-- A word that is not magic takes no parameter and is neither a branch nor RETURN.
IsPlain-native : (n : Native) → is_magic (native n) ≡ false → IsPlain (simple_word (native n) null)
unfolding parameters_of parameters is_magic
IsPlain-native Native.interp e = absurd (cc)
IsPlain-native Native.interp2 e = absurd (cc)
IsPlain-native Native.interp3 e = absurd (cc)
IsPlain-native Native.interp4 e = absurd (cc)
IsPlain-native Native.tailinterp e = absurd (cc)
IsPlain-native Native.tailinterp2 e = absurd (cc)
IsPlain-native Native.tailinterp3 e = absurd (cc)
IsPlain-native Native.tailinterp4 e = absurd (cc)
IsPlain-native Native.ret e = absurd (cc)
IsPlain-native Native.lit e = absurd (cc)
IsPlain-native Native.branch e = absurd (cc)
IsPlain-native Native.zbranch e = absurd (cc)
IsPlain-native Native.recurse e = absurd (cc)
IsPlain-native Native.call_quote e = absurd (cc)
IsPlain-native _ e = (refl, refl, (λ r. cc), omega arith)

IsPlain-word : (w : Word) → is_magic w ≡ false → IsPlain (simple_word w null)
unfolding parameters_of
IsPlain-word (native n) e = IsPlain-native n e
IsPlain-word (interpreted k) e = (refl, refl, (λ r. cc), omega arith)

not_magic : (w : Word) → not (is_magic w) ≡ true → is_magic w ≡ false
not_magic w e = opposite (is_magic w) e
  where
    opposite : (b : Bool) → not b ≡ true → b ≡ false
    opposite false e = refl
    opposite true e = absurd (cc)

else_case {ℓ} :
    {A : Type ℓ} {a : A} (b : Bool) (x y : A) → b ≡ false → (if b then x else y) ≡ a → y ≡ a
else_case true x y e h = cc
else_case false x y e h = h

module _ (stod : List ℕ → Conversion) (active : List Vocabulary) (word_at : ℕ → Word)
    (registered is_inline : ℕ → Bool) (parse_fuel : ℕ) (no_inline : (k : ℕ) → is_inline k ≡ false)
    (P : Builder → Type 0) (kept : IsKept P) where
  add_word_keeps :
      (m : Memory) (w : Word) (b b' : Builder)
      → add_word stod active word_at registered is_inline parse_fuel m w b ≡ ok b'
      → P b
      → P b'
  unfolding add_word is_magic
  add_word_keeps m (native n) b b' h c =
      let (_, g, e) =
        >>=-eq-ok (guard (not (is_magic (native n))) magic_word)
          (λ _. ok (add (simple_word (native n) null) b)) h in
      subst P (ok-injective e) (
        kept.added (simple_word (native n) null) c
          (IsPlain-word (native n) (not_magic (native n) (guard-eq-ok _ _ g))))
  add_word_keeps m (interpreted k) b b' h c =
      let e : ok (add (simple_word (interpreted k) null) b) ≡ ok b' =
        else_case (is_inline k)
          (add_inline stod active word_at registered is_inline parse_fuel m (interpreted k) b)
          (ok (add (simple_word (interpreted k) null) b)) (no_inline k) h in
      subst P (ok-injective e)
        (kept.added (simple_word (interpreted k) null) c (IsPlain-word (interpreted k) (magic k)))
    where
      magic : (k : ℕ) → is_magic (interpreted k) ≡ false
      magic k = refl

  literal_keeps : (v : Value) (b : Builder) → P b → P (add (simple_word (native Native.lit) v) b)
  literal_keeps v b c = kept.added (simple_word (native Native.lit) v) c (literal-IsPlain v)

  add_other_keeps :
      (m : Memory) (token : List ℕ) (b b' : Builder)
      → add_other stod active word_at registered is_inline parse_fuel m token b ≡ ok b'
      → P b
      → P b'
  unfolding add_other
  add_other_keeps m token b b' h c = elim (Option-cases (lookup_active token active)) [
    | inl e ↦ numeric (as_number stod token) (subst (λ o. other_case o ≡ ok b') e h)
    | inr (named, e) ↦
        add_word_keeps m (word_at named.instruction) b b' (subst (λ o. other_case o ≡ ok b') e h) c
  ]
    where
      number_case : Option ℕ → Result Builder
      number_case d = elim d [
        | some n ↦ ok (add (simple_word (native Native.lit) (number n)) b)
        | none ↦ err unknown_word
      ]

      other_case : Option NamedWord → Result Builder
      other_case o = elim o [
        | some named ↦
            add_word stod active word_at registered is_inline parse_fuel m
              (word_at named.instruction) b
        | none ↦ as_number stod token >>= number_case
      ]

      numeric : (r : Result (Option ℕ)) → (r >>= number_case) ≡ ok b' → P b'
      numeric (err x) g = absurd (cc)
      numeric (ok none) g = absurd (cc)
      numeric (ok (some n)) g = subst P (ok-injective g) (literal_keeps (number n) b c)

  add_token_keeps :
      (t : Token) (token : List ℕ) (m : Memory) (b b' : Builder)
      → add_token stod active word_at registered is_inline parse_fuel t token m b ≡ ok b'
      → P b
      → P b'
  unfolding add_token
  add_token_keeps a_string token m b b' h c =
      let (v, _, e) = >>=-eq-ok (parse_string token) _ h in
      subst P (ok-injective e) (literal_keeps v b c)
  add_token_keeps word_if token m b b' h c = subst P (ok-injective h) (kept.at_if c)
  add_token_keeps word_else token m b b' h c = kept.at_else c h
  add_token_keeps word_then token m b b' h c = kept.at_then c h
  add_token_keeps word_begin token m b b' h c = subst P (ok-injective h) (kept.at_begin c)
  add_token_keeps word_while token m b b' h c = kept.at_while c h
  add_token_keeps word_repeat token m b b' h c = kept.at_repeat c h
  add_token_keeps word_recurse token m b b' h c = subst P (ok-injective h) (kept.recursed c)
  add_token_keeps at_end token m b b' h c = add_other_keeps m token b b' h c
  add_token_keeps at_brace token m b b' h c = add_other_keeps m token b b' h c
  add_token_keeps an_array token m b b' h c = add_other_keeps m token b b' h c
  add_token_keeps a_quotation token m b b' h c = add_other_keeps m token b b' h c
  add_token_keeps other token m b b' h c = add_other_keeps m token b b' h c

  pub parse_keeps :
      (fuel : ℕ) (input : List ℕ) (b : Builder) (m : Memory) (p : Parsed)
      → parse stod active word_at registered is_inline parse_fuel fuel input b m ≡ ok p
      → P b
      → P p.builder
  unfolding parse
  parse_keeps zero input b m p h c = absurd (cc)
  parse_keeps (suc fuel) input b m p h c = by_token (parse_keeps fuel) (classify token) h
    where
      token : List ℕ
      token = (read_token input).0

      rest : List ℕ
      rest = (read_token input).1

      go : List ℕ → Builder → Memory → Result Parsed
      go = parse stod active word_at registered is_inline parse_fuel fuel

      token_case : Token → Result Parsed
      token_case t = elim t [
        | at_end ↦ ok (record { builder = b; memory = m; rest = rest })
        | at_brace ↦ ok (record { builder = b; memory = m; rest = b'}' ∷ rest })
        | an_array ↦ parse_array stod parse_fuel rest >>= λ q.
            go q.1 (add (simple_word (native Native.lit) (array q.0)) b) m
        | a_quotation ↦
            parse_quote stod active word_at registered is_inline parse_fuel go rest m
            >>= λ (v, m', end). go end (add (simple_word (native Native.lit) v) b) m'
        | x ↦ add_token stod active word_at registered is_inline parse_fuel x token m b >>= λ b'.
            go rest b' m
      ]

      Again : Type 0
      Again =
          (cs : List ℕ) (d : Builder) (m' : Memory) (q : Parsed)
          → go cs d m' ≡ ok q
          → P d
          → P q.builder

      plain :
          Again
          → (t : Token)
          → (add_token stod active word_at registered is_inline parse_fuel t token m b >>= λ b'.
              go rest b' m)
            ≡ ok p
          → P p.builder
      plain again t g =
          let (b', e, f) =
            >>=-eq-ok (add_token stod active word_at registered is_inline parse_fuel t token m b)
              (λ b'. go rest b' m) g in
          again rest b' m p f (add_token_keeps t token m b b' e c)

      by_token : Again → (t : Token) → token_case t ≡ ok p → P p.builder
      by_token again at_end g = subst (λ x. P x.builder) (ok-injective g) c
      by_token again at_brace g = subst (λ x. P x.builder) (ok-injective g) c
      by_token again an_array g =
          let (q, e, f) =
            >>=-eq-ok (parse_array stod parse_fuel rest)
              (λ q. go q.1 (add (simple_word (native Native.lit) (array q.0)) b) m) g in
          again q.1 (add (simple_word (native Native.lit) (array q.0)) b) m p f
            (literal_keeps (array q.0) b c)
      by_token again a_quotation g =
          let ((v, m', end), e, f) =
            >>=-eq-ok (parse_quote stod active word_at registered is_inline parse_fuel go rest m)
              (λ (v, m', end). go end (add (simple_word (native Native.lit) v) b) m') g in
          again end (add (simple_word (native Native.lit) v) b) m' p f (literal_keeps v b c)
      by_token again a_string g = plain again a_string g
      by_token again word_if g = plain again word_if g
      by_token again word_else g = plain again word_else g
      by_token again word_then g = plain again word_then g
      by_token again word_begin g = plain again word_begin g
      by_token again word_while g = plain again word_while g
      by_token again word_repeat g = plain again word_repeat g
      by_token again word_recurse g = plain again word_recurse g
      by_token again other g = plain again other g
