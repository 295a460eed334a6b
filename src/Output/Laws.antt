-- ===== src/Output/Laws.antt =====
-- What the words that print keep, and the text of a string as source code.
use tails.Prelude.{
  ℕ, ◌≡◌, refl, sym, ap, ◌∙◌, subst, Bool, true, false, List, [], ◌∷◌, ◌++◌, Option, none, some,
  ◌==◌, ◌||◌, Bool-cases, inl, inr, some_cancel, if-cases,
}
use tails.Result.{ok, ◌>>=◌}
use tails.StackEffect.{StackEffect, outputs, set_max}
use tails.Value.{Value, Values, null, number, string, array, quote, nil, cons}
use tails.EffectStack.Laws.{Honours, honours}
use tails.Tokenizer.{read_token, read_from, read_string, skip_whitespace, is_space}
use tails.Token.{parse_string, text_of}
use tails.Output.{
  joined, escaped, quoted, value_text, values_text, more_text, Output, put_text, end_line,
  PrintWord, print, space, newline, end_of_line, print_effect, apply_print, effect_text,
}

-- No quotation mark and no backslash.
abbrev pub IsPlainText : List ℕ → Type 0
IsPlainText [] = Unit
IsPlainText (c ∷ cs) = ((c == b'"' || c == 92) ≡ false) × IsPlainText cs

not_either : (a b : Bool) → (a || b) ≡ false → a ≡ false
not_either true b e = absurd (cc)
not_either false b e = refl

escaped-plain :
    (c : ℕ) (cs : List ℕ) → (c == b'"' || c == 92) ≡ false → escaped (c ∷ cs) ≡ c ∷ escaped cs
unfolding escaped
escaped-plain c cs e = rw e refl

escaped-cons : (s : List ℕ) → (d : ℕ) × (t : List ℕ) × (escaped s ≡ d ∷ t)
unfolding escaped
escaped-cons [] = (b'"', [], refl)
escaped-cons (c ∷ cs) = elim (Bool-cases (c == b'"' || c == 92)) [
  | inl e ↦ (92, c ∷ escaped cs, rw e refl)
  | inr e ↦ (c, escaped cs, rw e refl)
]

text_of-escaped :
    (c : ℕ) (s t : List ℕ) → text_of (escaped s) ≡ ok t → text_of (c ∷ escaped s) ≡ ok (c ∷ t)
text_of-escaped c s t h =
    let (d, u, e) = escaped-cons s in
    ap (λ x. text_of (c ∷ x)) e ∙ ap (λ r. r >>= λ text. ok (c ∷ text)) (ap text_of (sym e) ∙ h)

escaped-read_string :
    (s rest : List ℕ)
    → IsPlainText s
    → (read_string (escaped s ++ rest) ≡ (escaped s, rest)) × (text_of (escaped s) ≡ ok s)
unfolding read_string
escaped-read_string [] rest p = unfold escaped in (refl, refl)
escaped-read_string (c ∷ cs) rest (e, p) =
    let (read, text) = escaped-read_string cs rest p in
    let other = not_either (c == b'"') (c == 92) e in
    subst (λ x. (read_string (x ++ rest) ≡ (x, rest)) × (text_of x ≡ ok (c ∷ cs)))
      (sym (escaped-plain c cs e)) (rw (read, other) refl, text_of-escaped c cs cs text)

-- A string with no quotation mark and no backslash in it is printed so that the tokenizer reads its
-- text back as one token, whatever follows, and the parser as the same string.
pub quoted-read :
    (s rest : List ℕ)
    → IsPlainText s
    → (read_token (quoted s ++ rest) ≡ (quoted s, rest)) × (parse_string (quoted s) ≡ ok (string s))
unfolding quoted read_token read_from skip_whitespace is_space parse_string
quoted-read s rest p = let (e, f) = escaped-read_string s rest p in (rw e refl, rw f refl)

-- The text is empty or its last byte starts a new line.
abbrev pub ends_line : List ℕ → Bool
ends_line [] = true
ends_line (c ∷ []) = c == 10
ends_line (c ∷ d ∷ cs) = ends_line (d ∷ cs)

-- Text that is there and does not end a line.
abbrev pub IsInline : List ℕ → Type 0
IsInline s = ends_line s ≡ false

ends_line-append : (xs ys : List ℕ) (c : ℕ) → ends_line (xs ++ c ∷ ys) ≡ ends_line (c ∷ ys)
ends_line-append [] ys c = refl
ends_line-append (x ∷ []) ys c = refl
ends_line-append (x ∷ y ∷ xs) ys c = ends_line-append (y ∷ xs) ys c

append-IsInline : (xs ys : List ℕ) → IsInline ys → IsInline (xs ++ ys)
append-IsInline xs [] h = absurd (cc)
append-IsInline xs (c ∷ ys) h = ends_line-append xs ys c ∙ h

cons-IsInline : (c : ℕ) (s : List ℕ) → IsInline s → IsInline (c ∷ s)
cons-IsInline c s h = append-IsInline (c ∷ []) s h

escaped-IsInline : (s : List ℕ) → IsInline (escaped s)
unfolding escaped
escaped-IsInline [] = refl
escaped-IsInline (c ∷ s) =
    let rest = cons-IsInline c (escaped s) (escaped-IsInline s) in
    if-cases IsInline (c == b'"' || c == 92) (cons-IsInline 92 (c ∷ escaped s) rest) rest

joined-IsInline :
    (a b : Option (List ℕ)) (s : List ℕ)
    → joined a b ≡ some s
    → ((t : List ℕ) → b ≡ some t → IsInline t)
    → IsInline s
joined-IsInline (some a) (some b) s e h =
    subst IsInline (some_cancel e) (append-IsInline a b (h b refl))
joined-IsInline (some a) none s e h = absurd (cc)
joined-IsInline none b s e h = absurd (cc)

end_line-margin :
    (o : Output)
    → o.at_left_margin ≡ ends_line o.text
    → (end_line o).at_left_margin ≡ ends_line (end_line o).text
unfolding end_line put_text
end_line-margin o m =
    if-cases (λ x. Output.at_left_margin x ≡ ends_line (Output.text x)) o.at_left_margin m
      (sym (ends_line-append o.text [] 10))

module _ (number_text : ℕ → List ℕ) (effects : ℕ → StackEffect)
    (number-IsInline : (d : ℕ) → IsInline (number_text d)) where
  mutual
    unfolding value_text quoted

    value_text-IsInline :
        (v : Value) (t : List ℕ) → value_text number_text effects v ≡ some t → IsInline t
    value_text-IsInline null t e = subst IsInline (some_cancel e) refl
    value_text-IsInline (number d) t e = subst IsInline (some_cancel e) (number-IsInline d)
    value_text-IsInline (string s) t e =
        subst IsInline (some_cancel e) (cons-IsInline b'"' (escaped s) (escaped-IsInline s))
    value_text-IsInline (array vs) t e =
        joined-IsInline (some (b'[' ∷ [])) (values_text number_text effects vs) t e
          (values_text-IsInline vs)
    value_text-IsInline (quote q) t e =
        let closing : Option (List ℕ) = some (b')' ∷ b'}' ∷ []) in
        joined-IsInline (some (b'{' ∷ b'(' ∷ [])) (joined (effect_text (effects q)) closing) t e
          (λ u f.
            joined-IsInline (effect_text (effects q)) closing u f
              (λ x g. subst IsInline (some_cancel g) refl))

    values_text-IsInline :
        (vs : Values) (t : List ℕ) → values_text number_text effects vs ≡ some t → IsInline t
    values_text-IsInline nil t e = subst IsInline (some_cancel e) refl
    values_text-IsInline (cons v vs) t e =
        joined-IsInline (value_text number_text effects v) (more_text number_text effects vs) t e
          (more_text-IsInline vs)

    more_text-IsInline :
        (vs : Values) (t : List ℕ) → more_text number_text effects vs ≡ some t → IsInline t
    more_text-IsInline nil t e = subst IsInline (some_cancel e) refl
    more_text-IsInline (cons v vs) t e =
        joined-IsInline (some (b',' ∷ b' ' ∷ []))
          (joined (value_text number_text effects v) (more_text number_text effects vs)) t e
          (λ u f.
            joined-IsInline (value_text number_text effects v) (more_text number_text effects vs) u
              f (more_text-IsInline vs))

  -- The printed text of a double being there and not ending a line, each word that prints, where it
  -- runs, acts within its declared effect, and keeps `sAtLeftMargin` true exactly when nothing has
  -- been printed or the last byte printed starts a new line.
  pub apply_print-margin :
      (w : PrintWord) (s s' : List Value) (o o' : Output)
      → apply_print number_text effects w s o ≡ some (s', o')
      → o.at_left_margin ≡ ends_line o.text
      → Honours (print_effect w) s s' × (o'.at_left_margin ≡ ends_line o'.text)
  unfolding apply_print print_effect put_text outputs set_max end_line
  apply_print-margin print [] s' o o' e m = absurd (cc)
  apply_print-margin print (v ∷ s) s' o o' e m =
      printed (value_text number_text effects v) (value_text-IsInline v) e
    where
      printed :
          (r : Option (List ℕ))
          → ((t : List ℕ) → r ≡ some t → IsInline t)
          → ◌≡◌ {A = Option (List Value × Output)}
              (elim r [ some text ↦ some (s, put_text text false o) | none ↦ none ])
              (some (s', o'))
          → Honours (print_effect print) (v ∷ s) s' × (o'.at_left_margin ≡ ends_line o'.text)
      printed none h f = absurd (cc)
      printed (some t) h f =
          subst
            (λ x.
              Honours (print_effect print) (v ∷ s) x.0
              × (Output.at_left_margin x.1 ≡ ends_line (Output.text x.1)))
            (some_cancel f) (honours [] tt refl, sym (append-IsInline o.text t (h t refl)))
  apply_print-margin space s s' o o' e m =
      subst
        (λ x.
          Honours (print_effect space) s x.0
          × (Output.at_left_margin x.1 ≡ ends_line (Output.text x.1)))
        (some_cancel e) ((honours [] tt refl, sym (ends_line-append o.text [] b' ')))
  apply_print-margin newline s s' o o' e m =
      subst
        (λ x.
          Honours (print_effect newline) s x.0
          × (Output.at_left_margin x.1 ≡ ends_line (Output.text x.1)))
        (some_cancel e) ((honours [] tt refl, sym (ends_line-append o.text [] 10)))
  apply_print-margin end_of_line s s' o o' e m =
      subst
        (λ x.
          Honours (print_effect end_of_line) s x.0
          × (Output.at_left_margin x.1 ≡ ends_line (Output.text x.1)))
        (some_cancel e) (honours [] tt refl, end_line-margin o m)
