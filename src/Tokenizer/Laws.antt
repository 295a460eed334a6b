-- ===== src/Tokenizer/Laws.antt =====
-- What `readToken` reads.
use tails.Prelude.{
  ℕ, ◌<◌, ◌≡◌, refl, sym, ap, ◌∙◌, subst, ◌⊎◌, inl, inr, Bool, true, false, ◌||◌, List, [], ◌∷◌,
  ◌++◌, arith, length, length-append, ◌==◌, ==_iff, Bool-cases,
}
use tails.Tokenizer.{
  is_space, skip_whitespace, ends_token, read_general, read_string, read_from, read_token,
}

abbrev pub All : (ℕ → Bool) → Bool → List ℕ → Type 0
All test b [] = Unit
All test b (c ∷ cs) = (test c ≡ b) × All test b cs

-- The rest is empty or starts with what ends a token.
abbrev pub Stops : List ℕ → Type 0
Stops [] = Unit
Stops (c ∷ cs) = ends_token c ≡ true

-- A string literal after its first quote: up to the next one, or to the end of the input.
abbrev pub IsText : List ℕ → List ℕ → Type 0
IsText text rest =
    ((s : List ℕ) × (text ≡ s ++ b'"' ∷ []) × All (λ c. c == b'"') false s)
    ⊎ ((rest ≡ []) × All (λ c. c == b'"') false text)

abbrev pub is_quote_mark : ℕ → Bool
is_quote_mark c = c == b'"'

abbrev pub opens : ℕ → Bool
opens c = c == b'(' || c == b'{' || c == b'['

-- A token and the rest of the input: nothing at the end, a string literal, an opening delimiter, or
-- a character of any other kind with the longest run behind it of characters that are neither white
-- space nor closing delimiters.
abbrev pub IsToken : List ℕ → List ℕ → Type 0
IsToken [] rest = rest ≡ []
IsToken (c ∷ token) rest =
    (is_space c ≡ false)
    × (((is_quote_mark c ≡ true) × IsText token rest)
        ⊎ ((opens c ≡ true) × (token ≡ []))
        ⊎ ((is_quote_mark c ≡ false) × (opens c ≡ false) × All ends_token false token × Stops rest))

skip_whitespace_lem :
    (input : List ℕ)
    → (spaces : List ℕ) × (input ≡ spaces ++ skip_whitespace input)
      × All is_space true spaces
      × ((skip_whitespace input ≡ [])
          ⊎ ((c : ℕ) × (cs : List ℕ) × (skip_whitespace input ≡ c ∷ cs) × (is_space c ≡ false)))
unfolding skip_whitespace
skip_whitespace_lem [] = ([], refl, tt, inl refl)
skip_whitespace_lem (c ∷ cs) = elim (Bool-cases (is_space c)) [
  | inl e ↦
      let (spaces, split, all, start) = skip_whitespace_lem cs in
      rw e (c ∷ spaces, ap (λ x. c ∷ x) split, (e, all), start)
  | inr e ↦ rw e ([], refl, tt, inr (c, cs, refl, e))
]

read_general_lem :
    (cs : List ℕ)
    → (cs ≡ (read_general cs).0 ++ (read_general cs).1)
      × All ends_token false (read_general cs).0
      × Stops (read_general cs).1
unfolding read_general
read_general_lem [] = (refl, tt, tt)
read_general_lem (c ∷ cs) = elim (Bool-cases (ends_token c)) [
  | inl e ↦ rw e (refl, tt, e)
  | inr e ↦
      let (split, all, stops) = read_general_lem cs in rw e (ap (λ x. c ∷ x) split, (e, all), stops)
]

read_string_lem :
    (cs : List ℕ)
    → (cs ≡ (read_string cs).0 ++ (read_string cs).1) × IsText (read_string cs).0 (read_string cs).1
unfolding read_string
read_string_lem [] = (refl, inr (refl, tt))
read_string_lem (c ∷ cs) = elim (Bool-cases (c == b'"')) [
  | inl e ↦ rw e (refl, inl ([], ap (λ x. x ∷ []) ((==_iff c b'"').0 e), tt))
  | inr e ↦
      let (split, text) = read_string_lem cs in
      rw e (
        ap (λ x. c ∷ x) split,
        elim text [
          | inl (s, closed, all) ↦ inl (c ∷ s, ap (λ x. c ∷ x) closed, (e, all))
          | inr (ended, all) ↦ inr (ended, (e, all))
        ],
      )
]

read_from_lem :
    (c : ℕ) (cs : List ℕ)
    → is_space c ≡ false
    → (c ∷ cs ≡ (read_from (c ∷ cs)).0 ++ (read_from (c ∷ cs)).1)
      × IsToken (read_from (c ∷ cs)).0 (read_from (c ∷ cs)).1
      × (length (read_from (c ∷ cs)).1 < length (c ∷ cs))
unfolding read_from
read_from_lem c cs space = elim (Bool-cases (is_quote_mark c)) [
  | inl q ↦
      let (split, text) = read_string_lem cs in
      rw q (
        ap (λ x. c ∷ x) split,
        (space, inl (q, text)),
        omega (arith, ap length split, length-append (read_string cs).0 (read_string cs).1),
      )
  | inr q ↦ elim (Bool-cases (opens c)) [
    | inl o ↦ rw (q, o) (refl, (space, inr (inl (o, refl))), omega arith)
    | inr o ↦
        let (split, all, stops) = read_general_lem cs in
        rw (q, o)
          (
            ap (λ x. c ∷ x) split,
            (space, inr (inr (q, o, all, stops))),
            omega (arith, ap length split, length-append (read_general cs).0 (read_general cs).1),
          )
  ]
]

-- A token and the white space before it, with the rest after it, are the input. The token is empty
-- only at the end of the input, and otherwise the rest is shorter. A token is a string literal up to
-- the next quotation mark or the end of the input, an opening delimiter alone, or a first character of
-- any other kind, which a closing delimiter is too, with the longest run behind it of characters that
-- are neither white space nor closing delimiters.
pub read_token-IsToken :
    (input : List ℕ)
    → (spaces : List ℕ) × (input ≡ spaces ++ ((read_token input).0 ++ (read_token input).1))
      × All is_space true spaces
      × IsToken (read_token input).0 (read_token input).1
      × (((read_token input).0 ≡ []) ⊎ (length (read_token input).1 < length input))
unfolding read_token read_from
read_token-IsToken input =
    let (spaces, split, all, start) = skip_whitespace_lem input in
    elim start [
      | inl e ↦ (
        spaces,
        split ∙ ap (λ x. spaces ++ x) (e ∙ sym (ap (λ x. (read_from x).0 ++ (read_from x).1) e)),
        all,
        subst (λ x. IsToken (read_from x).0 (read_from x).1) (sym e) refl,
        inl (ap (λ x. (read_from x).0) e),
      )
      | inr (c, cs, e, space) ↦
          let (whole, token, shorter) = read_from_lem c cs space in
          (
            spaces,
            split
                ∙ ap (λ x. spaces ++ x)
                    (e ∙ whole ∙ sym (ap (λ x. (read_from x).0 ++ (read_from x).1) e)),
            all,
            subst (λ x. IsToken (read_from x).0 (read_from x).1) (sym e) token,
            inr (
                omega (
                  arith,
                  shorter,
                  ap length split,
                  length-append spaces (skip_whitespace input),
                  ap length e,
                  ap (λ x. length (read_from x).1) e,
                )),
          )
    ]
