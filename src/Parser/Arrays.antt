-- ===== src/Parser/Arrays.antt =====
-- Fuel for one more token than the input has characters is enough to read an array literal.
use tails.Prelude.{
  ℕ, zero, suc, ◌≤◌, ◌<◌, ◌≢◌, inl, inr, List, [], ◌∷◌, Option, none, some, arith, length, ◌==◌,
  if◌then◌else◌, if-cases, not, ◌&&◌,
}
use tails.Result.{
  Result, ok, err, ◌>>=◌, out_of_fuel, unfinished_array, invalid_array_literal, number_out_of_range,
}
use tails.NanTagged.{is_nan}
use tails.Value.{Value, Values, number, array, string, same_bytes}
use tails.Tokenizer.{read_token, peek_is}
use tails.Tokenizer.Laws.{read_token-IsToken}
use tails.Parser.{parse_array, first_value}
use tails.Token.{
  Conversion, invalid_argument, out_of_range, converted, is_infinite, as_number, text_of,
  parse_string,
}

-- A result that is not for want of fuel, and of which a rest of the input is shorter than `n`.
abbrev pub Read : ℕ → Result (Values × List ℕ) → Type 0
Read n (err e) = e ≢ out_of_fuel
Read n (ok (vs, rest)) = length rest < n

abbrev Fueled {ℓ} : {A : Type ℓ} → Result A → Type 0
Fueled (err e) = e ≢ out_of_fuel
Fueled (ok a) = Unit

as_number-Fueled : (stod : List ℕ → Conversion) (token : List ℕ) → Fueled (as_number stod token)
unfolding as_number
as_number-Fueled stod token = by_conversion (stod token)
  where
    by_conversion :
        (c : Conversion)
        → Fueled (elim c [
          | invalid_argument ↦ ok none
          | out_of_range ↦ err number_out_of_range
          | converted d end ↦ ok (
              if (end == length token) && not (is_nan d) && not (is_infinite d)
              then some d
              else none)
        ])
    by_conversion invalid_argument = tt
    by_conversion out_of_range = λ e. cc
    by_conversion (converted d end) = tt

text_of-Fueled : (token : List ℕ) → Fueled (text_of token)
text_of-Fueled [] = λ e. cc
text_of-Fueled (c ∷ []) = if-cases Fueled (c == b'"') tt (λ e. cc)
text_of-Fueled (c ∷ d ∷ cs) = rest (text_of (d ∷ cs)) (text_of-Fueled (d ∷ cs))
  where
    rest : (r : Result (List ℕ)) → Fueled r → Fueled (r >>= λ text. ok (c ∷ text))
    rest (err e) f = f
    rest (ok text) f = tt

parse_string-Fueled : (token : List ℕ) → Fueled (parse_string token)
unfolding parse_string
parse_string-Fueled [] = λ e. cc
parse_string-Fueled (c ∷ token) = rest (text_of token) (text_of-Fueled token)
  where
    rest : (r : Result (List ℕ)) → Fueled r → Fueled (r >>= λ text. ok (string text))
    rest (err e) f = f
    rest (ok text) f = tt

Read-first :
    (n m : ℕ) (v : Value) (r : Result (Values × List ℕ))
    → n ≤ m
    → Read n r
    → Read m (r >>= λ p. ok (first_value v p))
Read-first n m v (err e) h f = f
Read-first n m v (ok (vs, rest)) h f = omega (arith, h, f)

module _ (stod : List ℕ → Conversion) where
  -- The nested array, and what comes after it.
  Read-nested :
      (fuel n m : ℕ) (r : Result (Values × List ℕ))
      → ((cs : List ℕ) → length cs < fuel → Read (length cs) (parse_array stod fuel cs))
      → n < fuel
      → n ≤ m
      → Read n r
      → Read m
          (r >>= λ inner. parse_array stod fuel inner.1 >>= λ p. ok (first_value (array inner.0) p))
  Read-nested fuel n m (err e) again g h f = f
  Read-nested fuel n m (ok (vs, rest)) again g h f =
      Read-first (length rest) m (array vs) (parse_array stod fuel rest) (omega (arith, f, h))
        (again rest (omega (arith, f, g)))

  Read-bind {ℓ} :
      {A : Type ℓ} (m : ℕ) (r : Result A) (f : A → Result (Values × List ℕ))
      → Fueled r
      → ((a : A) → Read m (f a))
      → Read m (r >>= f)
  Read-bind m (err e) f k g = k
  Read-bind m (ok a) f k g = g a

  Read-number :
      (n m : ℕ) (o : Option ℕ) (r : Result (Values × List ℕ))
      → n ≤ m
      → Read n r
      → Read m (elim o [
        | some d ↦ r >>= λ p. ok (first_value (number d) p)
        | none ↦ err invalid_array_literal
      ])
  Read-number n m none r h f = λ e. cc
  Read-number n m (some d) r h f = Read-first n m (number d) r h f

  -- With more fuel than the input has characters, an array literal is not refused for want of it,
  -- whatever it holds, and if it is accepted, the rest of the input is shorter.
  pub parse_array-Read :
      (fuel : ℕ) (input : List ℕ)
      → length input < fuel
      → Read (length input) (parse_array stod fuel input)
  unfolding parse_array same_bytes
  parse_array-Read zero input h = absurd (omega (arith, h))
  parse_array-Read (suc fuel) input h =
      let token = (read_token input).0 in
      let rest = (read_token input).1 in
      let (_, _, _, _, progress) = read_token-IsToken input in
      elim progress [
        | inl empty ↦ rw empty different
        | inr shorter ↦
            let more = parse_array stod fuel rest in
            let again : Read (length rest) more =
              parse_array-Read fuel rest (omega (arith, h, shorter)) in
            let at_most : length rest ≤ length input = omega (arith, shorter) in
            if-cases (Read (length input)) (same_bytes token (b']' ∷ [])) shorter (
              if-cases (Read (length input)) (length token == 0) different (
                if-cases (Read (length input)) (peek_is b'"' token)
                  (Read-bind (length input) (parse_string token)
                    (λ v. more >>= λ p. ok (first_value v p)) (parse_string-Fueled token)
                    (λ v. Read-first (length rest) (length input) v more at_most again))
                  (if-cases (Read (length input)) (same_bytes token (b'[' ∷ []))
                    (Read-nested fuel (length rest) (length input) more (parse_array-Read fuel)
                      (omega (arith, h, shorter)) at_most again)
                    (Read-bind (length input) (as_number stod token)
                      (λ d. elim d [
                        | some n ↦ more >>= λ p. ok (first_value (number n) p)
                        | none ↦ err invalid_array_literal
                      ])
                      (as_number-Fueled stod token)
                      (λ o. Read-number (length rest) (length input) o more at_most again)))))
      ]
    where
      different : unfinished_array ≢ out_of_fuel
      different e = cc
