-- ===== src/Checker/Growth/Room.antt =====
-- The recorded growth covers the stack at each position, for code without branches.
use tails.Prelude.{
  contradiction, ℕ, zero, suc, ◌+◌, ◌≤◌, ◌<◌, ◌≡◌, refl, sym, ap, ◌∙◌, ◌⊎◌, inl, inr, Bool, false,
  List, Option, none, some, some_cancel, arith, ◌==◌, ==_iff, length, get_elem?, Bool-cases, subst,
}
use tails.Result.{ok, ◌>>=◌, >>=-eq-ok}
use tails.StackEffect.{StackEffect, inputs, unknown_max}
use tails.Value.{Value}
use tails.EffectStack.{EffectStack, of_inputs}
use tails.EffectStack.Laws.{Accepts}
use tails.EffectStack.Fits.{length-Fits}
use tails.Word.{Native, Word, native, stack_effect, core_effect}
use tails.Checker.{
  SourceWord, Checker, update, remember, apply_word, join, Next, stop, go, fork, next_positions,
  proceed, follow, visit, compute_effect, compute_effect_from,
}
use tails.Checker.Applied.{apply_word_lem, NoIfelse}
use tails.Checker.Sound.{Reach, compute_effect-Inv}
use tails.Checker.Growth.{
  IsStraight, growth, Unchanging, at_return-max, straight_next, apply_word-max,
}

module _ (effects : ℕ → StackEffect) (prog : List SourceWord) (inline_word : Bool)
    (e₀ : StackEffect) where
  -- What the checker remembers on its way.
  abbrev Covered : EffectStack → Checker → Checker → Type 0
  Covered s c c' =
      (s.max_depth ≤ s.initial_depth + c'.effect.max_growth)
      × ((j : ℕ) (k : EffectStack) (w : SourceWord)
          → c'.known j ≡ some k
          → get_elem? prog j ≡ some w
          → (c.known j ≡ some k)
            ⊎ (length k.stack + growth effects w.word ≤ s.initial_depth + c'.effect.max_growth))

  module _
      (straight : (i : ℕ) (w : SourceWord)
        → get_elem? prog i ≡ some w
        → IsStraight effects w.word) where
    abbrev CoversFrom : ℕ → Type 0
    CoversFrom fuel =
        (i : ℕ) (s : EffectStack) (c c' : Checker)
        → Unchanging effects prog inline_word e₀ c
        → ((j : ℕ) (k : EffectStack) → c.known j ≡ some k → j < i)
        → c'.effect.max_growth < unknown_max
        → compute_effect effects prog inline_word fuel i s c ≡ ok c'
        → Covered s c c'

    no_ifelse : NoIfelse effects prog inline_word e₀
    unfolding stack_effect core_effect
    no_ifelse i w f e = if_else_weird w.word e (straight i w f).2
      where
        if_else_weird :
            (x : Word) → x ≡ native Native.if_else → (stack_effect effects x).weird ≡ false → ⊥
        if_else_weird x e h =
            contradiction (sym (subst (λ y. (stack_effect effects y).weird ≡ false) e h)) refl

    proceed-Covered :
        (fuel : ℕ)
        → CoversFrom fuel
        → (i : ℕ) (n : Next) (s : EffectStack) (c c' : Checker) → (n ≡ stop) ⊎ (n ≡ go (i + 1))
        → Unchanging effects prog inline_word e₀ c
        → ((j : ℕ) (k : EffectStack) → c.known j ≡ some k → j < i + 1)
        → c'.effect.max_growth < unknown_max
        → proceed effects prog inline_word (compute_effect effects prog inline_word fuel) n s c
          ≡ ok c'
        → Covered s c c'
    unfolding proceed
    proceed-Covered fuel ih i stop s c c' e d before limit h =
        let (known, m) = at_return-max s c c' h limit in
        (m, λ j k v e f. inl (ap (λ y. y j) (sym known) ∙ e))
    proceed-Covered fuel ih i (go j) s c c' e d before limit h = elim e [
      | inl z ↦ absurd (cc)
      | inr z ↦
          let same : j ≡ i + 1 = go_injective z in
          ih j s c c' d
            (subst (λ y. (l : ℕ) (k : EffectStack) → c.known l ≡ some k → l < y) (sym same) before)
            limit h
    ]
      where
        go_injective : {a b : ℕ} → go a ≡ go b → a ≡ b
        go_injective h = cc
    proceed-Covered fuel ih i (fork j k) s c c' e d before limit h = elim e [
      | inl z ↦ absurd (cc)
      | inr z ↦ absurd (cc)
    ]

    remember_before :
        (i : ℕ) (s : EffectStack) (c : Checker)
        → ((j : ℕ) (k : EffectStack) → c.known j ≡ some k → j < i)
        → (j : ℕ) (k : EffectStack) → update c.known i s j ≡ some k
        → j < i + 1
    remember_before i s c before j k e = elim (Bool-cases (i == j)) [
      | inl q ↦ omega (arith, (==_iff i j).0 q)
      | inr q ↦ omega (arith, before j k (sym (rw q refl) ∙ e))
    ]

    -- From the stack after a word to the one before it, which has just been remembered.
    back-Covered :
        (i : ℕ) (w : SourceWord) (s s₁ : EffectStack) (c c' : Checker)
        → get_elem? prog i ≡ some w
        → s₁.initial_depth ≡ s.initial_depth
        → s.max_depth ≤ s₁.max_depth
        → length s.stack + growth effects w.word ≤ s₁.max_depth
        → Covered s₁ (remember i s c) c'
        → Covered s c c'
    unfolding remember
    back-Covered i w s s₁ c c' found depth_is deeper room (most, rest) = (
      omega (arith, depth_is, deeper, most),
      λ j k v e f. elim (rest j k v e f) [
        | inl old ↦ elim (Bool-cases (i == j)) [
          | inl q ↦
              let at_i : j ≡ i = sym ((==_iff i j).0 q) in
              let word : w ≡ v =
                some_cancel (sym found ∙ subst (λ y. get_elem? prog y ≡ some v) at_i f) in
              let stack : s ≡ k = some_cancel (sym (rw q refl) ∙ old) in
              let here : length s.stack + growth effects w.word ≤ most_of =
                omega (arith, room, most, depth_is) in
              inr (
                subst (λ y. length y.stack + growth effects v.word ≤ most_of) stack
                  (subst (λ y. length s.stack + growth effects y.word ≤ most_of) word here))
          | inr q ↦ inl (sym (rw q refl) ∙ old)
        ]
        | inr l ↦ inr (
            subst (λ y. length k.stack + growth effects v.word ≤ y + c'.effect.max_growth) depth_is
              l)
      ],
    )
      where
        most_of : ℕ
        most_of = s.initial_depth + c'.effect.max_growth

    follow-Covered :
        (fuel : ℕ)
        → CoversFrom fuel
        → (i : ℕ) (w : SourceWord) (s : EffectStack) (c c' : Checker) → get_elem? prog i ≡ some w
        → Unchanging effects prog inline_word e₀ c
        → ((j : ℕ) (k : EffectStack) → c.known j ≡ some k → j < i)
        → c'.effect.max_growth < unknown_max
        → follow effects prog inline_word
            (compute_effect effects prog inline_word fuel)
            w
            i
            (some s)
            c
          ≡ ok c'
        → Covered s c c'
    unfolding follow remember
    follow-Covered fuel ih i w s c c' found d before limit h =
        let x = straight i w found in
        let ((s₁, c₁), a, h₁) =
          >>=-eq-ok (apply_word effects prog inline_word w.word w.param i s (remember i s c)) _ h in
        let (n, goes, h₂) = >>=-eq-ok (next_positions w.word w.branch_to i) _ h₁ in
        let d₁ : Unchanging effects prog inline_word e₀ (remember i s c) = record {
          no_inputs = d.no_inputs;
          no_outputs = d.no_outputs;
          shape = d.shape;
        } in
        let (same, _, _) =
          apply_word_lem effects prog inline_word e₀ w.word w.param i s s₁ (remember i s c) c₁
            (no_ifelse i w found) d₁ a in
        let (depth_is, deeper, room) =
          apply_word-max effects prog inline_word e₀ w.word w.param i s s₁ (remember i s c) c₁ x.2
            d₁ a in
        let h₃ =
          subst
            (λ y.
              proceed effects prog inline_word (compute_effect effects prog inline_word fuel) n s₁ y
              ≡ ok c')
            same h₂ in
        back-Covered i w s s₁ c c' found depth_is deeper room (
          proceed-Covered fuel ih i n s₁ (remember i s c) c'
            (straight_next effects w.word w.branch_to i n x goes) d₁ (remember_before i s c before)
            limit h₃)

    compute_effect-Covered :
        (fuel i : ℕ) (s : EffectStack) (c c' : Checker)
        → Unchanging effects prog inline_word e₀ c
        → ((j : ℕ) (k : EffectStack) → c.known j ≡ some k → j < i)
        → c'.effect.max_growth < unknown_max
        → compute_effect effects prog inline_word fuel i s c ≡ ok c'
        → Covered s c c'
    unfolding compute_effect visit join
    compute_effect-Covered zero i s c c' d before limit h = absurd (cc)
    compute_effect-Covered (suc fuel) i s c c' d before limit h =
        at_word (get_elem? prog i) refl (compute_effect-Covered fuel) h
      where
        fresh : (x : Option EffectStack) → x ≡ c.known i → c.known i ≡ none
        fresh none e = sym e
        fresh (some k) e = absurd (omega (arith, before i k (sym e)))

        at_word :
            (x : Option SourceWord)
            → get_elem? prog i ≡ x
            → CoversFrom fuel
            → visit effects prog inline_word (compute_effect effects prog inline_word fuel) x i s c
              ≡ ok c'
            → Covered s c c'
        at_word none e ih h = absurd (cc)
        at_word (some w) e ih h = follow-Covered fuel ih i w s c c' e d before limit (
            subst
              (λ y.
                (join y s >>= λ z.
                follow effects prog inline_word (compute_effect effects prog inline_word fuel) w i z
                  c)
                ≡ ok c')
              (fresh (c.known i) refl) h)

    -- Let the checker accept a word with a declared effect, whose code has no branches and only
    -- words of fixed effects, and record a growth below its limit. Let a run start with the
    -- declared inputs, and let every word that it calls turn its declared inputs into its declared
    -- outputs. Then wherever the run comes, the stack has room: its size, with what the next word
    -- declares to add while it runs, is at most that of the inputs and the recorded growth.
    pub compute_effect-room :
        (fuel : ℕ) (c : Checker)
        → compute_effect_from effects prog inline_word fuel e₀ false false ≡ ok c
        → c.effect.max_growth < unknown_max
        → (vs₀ : List Value) → length vs₀ ≡ length (inputs e₀)
        → Accepts vs₀ (inputs e₀)
        → (i : ℕ) (vs : List Value) → Reach effects prog inline_word e₀ vs₀ i vs
        → (w : SourceWord) → get_elem? prog i ≡ some w
        → length vs + growth effects w.word ≤ length vs₀ + c.effect.max_growth
    unfolding compute_effect_from of_inputs
    compute_effect-room fuel c h limit vs₀ n a i vs r w found =
        let (k, e, fits) =
          (compute_effect-Inv effects prog inline_word e₀ no_ifelse fuel c h vs₀ n a).1 i vs r in
        let (_, covered) =
          compute_effect-Covered fuel 0 (of_inputs e₀)
            (record {
              effect = e₀;
              can_add_inputs = false;
              can_add_outputs = false;
              known = λ j. none;
            })
            c (record { no_inputs = refl; no_outputs = refl; shape = (refl, refl, refl) })
            (λ j x y. absurd (cc)) limit h in
        elim (covered i k w e found) [
          | inl z ↦ absurd (cc)
          | inr l ↦ omega (arith, l, n, length-Fits vs k.stack fits)
        ]
