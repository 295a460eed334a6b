-- ===== src/Checker/Applied.antt =====
-- What an instruction does to the stack of the checker that runs against a declared effect, and what
-- the checker has made sure of before it.
use tails.Prelude.{
  ℕ, ◌≤◌, ◌≡◌, refl, sym, ap, ◌∙◌, ◌≢◌, ◌⊎◌, Bool, true, false, List, ◌∷◌, none, some, arith, ltb,
  if◌then◌else◌, length, get_elem?, subst,
}
use tails.Result.{ok, err, unknown_effect, >>=-eq-ok, ok-injective}
use tails.StackEffect.{StackEffect, inputs, outputs, with_unknown_max}
use tails.Value.{Value}
use tails.EffectStack.{
  Item, literal, EffectStack, max_growth, type_check, add_effect, add_literal, check_outputs,
}
use tails.EffectStack.Apply.{add_effect_lem}
use tails.EffectStack.Laws.{applied}
use tails.Word.{Native, Word, native, stack_effect, core_effect}
use tails.Checker.{
  SourceWord, Checker, next_effect, apply_call, apply_word, at_return, Next, stop, go, fork,
}
use tails.Checker.Joins.{
  SameShape, inputs-SameShape, outputs-SameShape, applied-SameShape, supply_none, check_outputs_lem,
  grown-SameShape,
}

module _ (effects : ℕ → StackEffect) (prog : List SourceWord) (inline_word : Bool)
    (e₀ : StackEffect) where
  -- The effect that the checker gives to a word: the declared one for RECURSE.
  abbrev pub effect_used : Word → StackEffect
  effect_used (native Native.recurse) = e₀
  effect_used word = stack_effect effects word

  -- The checker's state while it checks code against a declared effect.
  pub record Declared (c : Checker) : Type 0 where
    pub no_inputs : c.can_add_inputs ≡ false
    pub no_outputs : c.can_add_outputs ≡ false
    pub shape : SameShape c.effect e₀

  recurse_weird : (stack_effect effects (native Native.recurse)).weird ≡ true
  unfolding stack_effect core_effect
  recurse_weird = refl

  fixed_effect :
      (f e : StackEffect) → (if f.weird then err unknown_effect else ok f) ≡ ok e → SameShape e f
  fixed_effect f e h = ground arith

  with_unknown_max-SameShape : (e : StackEffect) → SameShape (with_unknown_max e) e
  unfolding with_unknown_max
  with_unknown_max-SameShape e = (refl, refl, refl)

  next_effect-SameShape :
      (word : Word) (i : ℕ) (s : EffectStack) (c : Checker) (e : StackEffect)
      → word ≢ native Native.if_else
      → Declared c
      → next_effect effects prog inline_word word i s c ≡ ok e
      → SameShape e (effect_used word)
  unfolding next_effect
  next_effect-SameShape (native Native.recurse) i s c e ne d h =
      ground (arith, recurse_weird, with_unknown_max-SameShape c.effect)
  next_effect-SameShape (native Native.if_else) i s c e ne d h = absurd (ne refl)
  next_effect-SameShape word i s c e ne d h = fixed_effect (stack_effect effects word) e h

  -- The stack after an instruction, and what the checker has made sure of before it.
  abbrev pub transfer : Word → Value → List Item → List Item
  transfer (native Native.lit) v k = literal v ∷ k
  transfer word v k = applied (effect_used word) k

  abbrev pub Checked : Word → List Item → Type 0
  Checked (native Native.lit) k = Unit
  Checked word k =
      ((effect_used word).ins ≤ length k) × (type_check k (inputs (effect_used word)) 0 ≡ none)

  apply_call_lem :
      (word : Word) (i : ℕ) (s s' : EffectStack) (c c' : Checker)
      → word ≢ native Native.if_else
      → Declared c
      → apply_call effects prog inline_word word i s c ≡ ok (s', c')
      → (c' ≡ c)
        × ((effect_used word).ins ≤ length s.stack)
        × (type_check s.stack (inputs (effect_used word)) 0 ≡ none)
        × (s'.stack ≡ applied (effect_used word) s.stack)
  unfolding apply_call
  apply_call_lem word i s s' c c' ne d h =
      let (e, p, q) = >>=-eq-ok (next_effect effects prog inline_word word i s c) _ h in
      let sh = next_effect-SameShape word i s c e ne d p in
      let q' = supply_none c.can_add_inputs e s s' c c' d.no_inputs q in
      let (s₁, a, b) = >>=-eq-ok (add_effect e s) _ q' in
      let (n, t, r) = add_effect_lem e s s₁ a in
      let same_inputs = inputs-SameShape e (effect_used word) sh in
      let same_applied = applied-SameShape e (effect_used word) s.stack sh in
      let same : ◌≡◌ {A = EffectStack × Checker} (s₁, c) (s', c') = ok-injective b in
      (
        ap (λ x. x.1) (sym same),
        subst (λ x. x ≤ length s.stack) sh.1 n,
        rw (← same_inputs) t,
        ap (λ x. x.0.stack) (sym same) ∙ r ∙ same_applied,
      )

  pub apply_word_lem :
      (word : Word) (v : Value) (i : ℕ) (s s' : EffectStack) (c c' : Checker)
      → word ≢ native Native.if_else
      → Declared c
      → apply_word effects prog inline_word word v i s c ≡ ok (s', c')
      → (c' ≡ c) × Checked word s.stack × (s'.stack ≡ transfer word v s.stack)
  unfolding apply_word
  apply_word_lem (native Native.lit) v i s s' c c' ne d h =
      let same : ◌≡◌ {A = EffectStack × Checker} (add_literal v s, c) (s', c') = ok-injective h in
      (ap (λ x. x.1) (sym same), tt, unfold add_literal in ap (λ x. x.0.stack) (sym same))
  apply_word_lem word v i s s' c c' ne d h =
      let (p, q, r, t) = apply_call_lem word i s s' c c' ne d h in (p, (q, r), t)

  abbrev pub Goes : Next → ℕ → Type 0
  Goes stop j = ⊥
  Goes (go k) j = j ≡ k
  Goes (fork k l) j = (j ≡ k) ⊎ (j ≡ l)

  -- What a stack at RETURN has been checked for.
  abbrev pub Returns : Next → List Item → Type 0
  Returns stop x = (length x ≡ e₀.outs) × (type_check x (outputs e₀) 0 ≡ none)
  Returns (go _) x = Unit
  Returns (fork _ _) x = Unit

  pub at_return_lem :
      (s : EffectStack) (c c' : Checker)
      → Declared c
      → at_return s c ≡ ok c'
      → (c'.known ≡ c.known) × Declared c' × Returns stop s.stack
  unfolding at_return
  at_return_lem s c c' d h =
      let (e, p, q) = >>=-eq-ok (check_outputs c.effect c.can_add_outputs s) _ h in
      let p' = subst (λ b. check_outputs c.effect b s ≡ ok e) d.no_outputs p in
      let (same, n, t) = check_outputs_lem c.effect e s p' in
      let (g₁, g₂, g₃) = grown-SameShape (ltb e.max_growth (max_growth s)) (max_growth s) e in
      let (h₁, h₂, h₃) = d.shape in
      subst (λ x. (x.known ≡ c.known) × Declared x × Returns stop s.stack) (ok-injective q)
        (
          refl,
          record {
            no_inputs = d.no_inputs;
            no_outputs = refl;
            shape = (
              g₁ ∙ ap (λ x. x.entries) same ∙ h₁,
              g₂ ∙ ap (λ x. x.ins) same ∙ h₂,
              g₃ ∙ ap (λ x. x.outs) same ∙ h₃,
            );
          },
          (n ∙ h₃, rw (← outputs-SameShape c.effect e₀ d.shape) t),
        )

  -- No IFELSE stands in the code.
  abbrev pub NoIfelse : Type 0
  NoIfelse = (i : ℕ) (w : SourceWord) → get_elem? prog i ≡ some w → w.word ≢ native Native.if_else
