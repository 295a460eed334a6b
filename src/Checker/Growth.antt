-- ===== src/Checker/Growth.antt =====
-- The growth of the stack that `computeEffect` records at a RETURN, and what one instruction adds to
-- it.
pub mod Room
use tails.Prelude.{
  ℕ, zero, suc, ◌+◌, ◌-◌, ◌≤◌, ◌<◌, ◌≡◌, refl, sym, ap, ◌∙◌, ◌≢◌, ◌⊎◌, inl, inr, Bool, true, false,
  List, Option, none, some, some_cancel, arith, ltb, ◌==◌, ==_iff, if◌then◌else◌, length, get_elem?,
  Bool-cases, subst,
}
use tails.Result.{Result, ok, ◌>>=◌, >>=-eq-ok, ok-injective}
use tails.StackEffect.{StackEffect, inputs, with_max, set_max, unknown_max}
use tails.Value.{Value}
use tails.EffectStack.{EffectStack, max_growth, add_effect, add_literal, check_outputs, of_inputs}
use tails.EffectStack.Laws.{Accepts}
use tails.EffectStack.Fits.{length-Fits}
use tails.Word.{Native, Word, native, stack_effect, core_effect}
use tails.Checker.{
  SourceWord, Checker, update, remember, next_effect, apply_call, apply_word, at_return, join, Next,
  stop, go, fork, next_positions, proceed, follow, visit, compute_effect, compute_effect_from,
}
use tails.Checker.Joins.{supply_none}
use tails.Checker.Applied.{Declared, apply_word_lem, NoIfelse}
use tails.Checker.Sound.{Reach, compute_effect-Inv}

add_effect-max :
    (e : StackEffect) (s s' : EffectStack)
    → add_effect e s ≡ ok s'
    → (s'.initial_depth ≡ s.initial_depth)
      × (s.max_depth ≤ s'.max_depth)
      × (length s.stack + e.max_growth ≤ s'.max_depth)
unfolding add_effect
add_effect-max e s s' h = ground arith

grown :
    (a i : ℕ) (e : StackEffect)
    → (if ltb e.max_growth (a - i) then with_max (a - i) e else e).max_growth < unknown_max
    → a ≤ i + (if ltb e.max_growth (a - i) then with_max (a - i) e else e).max_growth
unfolding with_max set_max
grown a i e l = ground arith

-- The growth that the checker records at a RETURN covers that of the stack, unless it is at its
-- limit.
pub at_return-max :
    (s : EffectStack) (c c' : Checker)
    → at_return s c ≡ ok c'
    → c'.effect.max_growth < unknown_max
    → (c'.known ≡ c.known) × (s.max_depth ≤ s.initial_depth + c'.effect.max_growth)
unfolding at_return max_growth
at_return-max s c c' h m =
    let (e, p, q) = >>=-eq-ok (check_outputs c.effect c.can_add_outputs s) _ h in
    subst
      (λ x.
        x.effect.max_growth < unknown_max
        → (x.known ≡ c.known) × (s.max_depth ≤ s.initial_depth + x.effect.max_growth))
      (ok-injective q) (λ l. (refl, grown s.max_depth s.initial_depth e l)) m

module _ (effects : ℕ → StackEffect) where
  -- A word that does not branch and whose effect is fixed.
  abbrev pub IsStraight : Word → Type 0
  IsStraight w =
      (w ≢ native Native.branch)
      × (w ≢ native Native.zbranch)
      × ((stack_effect effects w).weird ≡ false)

  -- The values that a word may add while it runs.
  abbrev pub growth : Word → ℕ
  growth (native Native.lit) = 1
  growth w = (stack_effect effects w).max_growth

  pub straight_next :
      (w : Word) (b : Option ℕ) (i : ℕ) (n : Next)
      → IsStraight w
      → next_positions w b i ≡ ok n
      → (n ≡ stop) ⊎ (n ≡ go (i + 1))
  unfolding next_positions
  straight_next (native Native.ret) b i n x h = inl (sym (ok-injective h))
  straight_next (native Native.branch) b i n x h = absurd (x.0 refl)
  straight_next (native Native.zbranch) b i n x h = absurd (x.1 refl)
  straight_next w b i n x h = inr (sym (ok-injective h))

  module _ (prog : List SourceWord) (inline_word : Bool) (e₀ : StackEffect) where
    abbrev pub Unchanging : Checker → Type 0
    Unchanging = Declared effects prog inline_word e₀

    fixed :
        (f e : StackEffect)
        → f.weird ≡ false
        → (r : Result StackEffect) → (if f.weird then r else ok f) ≡ ok e
        → e ≡ f
    fixed f e w r h = ground (arith, w)

    apply_call-max :
        (w : Word) (i : ℕ) (s s' : EffectStack) (c c' : Checker)
        → (stack_effect effects w).weird ≡ false
        → Unchanging c
        → apply_call effects prog inline_word w i s c ≡ ok (s', c')
        → (s'.initial_depth ≡ s.initial_depth)
          × (s.max_depth ≤ s'.max_depth)
          × (length s.stack + (stack_effect effects w).max_growth ≤ s'.max_depth)
    unfolding apply_call next_effect
    apply_call-max w i s s' c c' x d h =
        let (e, p, q) = >>=-eq-ok (next_effect effects prog inline_word w i s c) _ h in
        let q' = supply_none c.can_add_inputs e s s' c c' d.no_inputs q in
        let (s₁, a, b) = >>=-eq-ok (add_effect e s) _ q' in
        let same : ◌≡◌ {A = EffectStack × Checker} (s₁, c) (s', c') = ok-injective b in
        let e' : e ≡ stack_effect effects w = fixed _ e x _ p in
        let (i₁, m, r) = add_effect-max e s s' (a ∙ ap (λ y. ok y.0) same) in
        (i₁, m, subst (λ f. length s.stack + f.max_growth ≤ s'.max_depth) e' r)

    pub apply_word-max :
        (w : Word) (v : Value) (i : ℕ) (s s' : EffectStack) (c c' : Checker)
        → (stack_effect effects w).weird ≡ false
        → Unchanging c
        → apply_word effects prog inline_word w v i s c ≡ ok (s', c')
        → (s'.initial_depth ≡ s.initial_depth)
          × (s.max_depth ≤ s'.max_depth)
          × (length s.stack + growth w ≤ s'.max_depth)
    unfolding apply_word add_literal
    apply_word-max (native Native.lit) v i s s' c c' x d h =
        let same : ◌≡◌ {A = EffectStack × Checker} (add_literal v s, c) (s', c') = ok-injective h in
        subst
          (λ y.
            (y.initial_depth ≡ s.initial_depth)
            × (s.max_depth ≤ y.max_depth)
            × (length s.stack + 1 ≤ y.max_depth))
          (ap (λ y. y.0) same) (refl, omega arith, omega arith)
    apply_word-max w v i s s' c c' x d h = apply_call-max w i s s' c c' x d h
