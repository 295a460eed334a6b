-- ===== src/Checker/Inputs.antt =====
-- What the checker leaves of the declared inputs of a word that may not have more.
use tails.Prelude.{
  ℕ, zero, suc, ◌≡◌, sym, ap, ◌∙◌, subst, Bool, true, false, not, List, [], ◌∷◌, Option, none, some,
  arith, get_elem?, drop, ltb, ltb→lt, if-cases, ◌+◌, ◌<◌,
}
use tails.TypeSet.{TypeSet, ValueType, exists}
use tails.Result.{
  Result, ok, err, guard, >>=-eq-ok, guard-eq-ok, ok-injective, insufficient_outputs,
  output_mismatch,
}
use tails.StackEffect.{
  StackEffect, inputs, outputs, output_count, max_entries, set_max, with_max, insert,
  check_not_full, add_output_at_bottom,
}
use tails.StackEffect.Laws.{IsValid, add_output_at_bottom_lem}
use tails.Value.{Value}
use tails.Word.{Native, Word, native}
use tails.EffectStack.{
  EffectStack, Item, item_types, depth, add_extra_outputs, check_outputs, type_check, add_effect,
  max_growth,
}
use tails.Checker.{
  SourceWord, Checker, Next, stop, go, fork, remember, join, next_positions, supply_inputs,
  next_effect, apply_call, apply_word, at_return, proceed, follow, visit, compute_effect,
}

-- What `insert` has checked.
pub insert-room :
    (t : TypeSet) (i : ℕ) (e e' : StackEffect)
    → insert t i e ≡ ok e'
    → (exists t ≡ true) × (e.ins + e.outs < max_entries)
unfolding insert check_not_full
insert-room t i e e' h =
    let (_, x, f) = >>=-eq-ok (guard (exists t) _) _ h in
    let (_, g, _) = >>=-eq-ok (guard (ltb (e.ins + e.outs) max_entries) _) _ f in
    (guard-eq-ok _ _ x, ltb→lt _ _ (guard-eq-ok _ _ g))

with_max-IsValid : (m : ℕ) (e : StackEffect) → IsValid e → IsValid (with_max m e)
unfolding with_max set_max
with_max-IsValid m e v = record { counted = v.counted; fits = v.fits; max_fits = omega arith }

-- The inputs are those of `e₀`, and the effect is valid.
pub record SameInputs (e₀ e : StackEffect) : Type 0 where
  pub valid : IsValid e
  pub entries : inputs e ≡ inputs e₀

add_output-SameInputs :
    (t : TypeSet) (e₀ e e' : StackEffect)
    → SameInputs e₀ e
    → add_output_at_bottom t e ≡ ok e'
    → SameInputs e₀ e'
unfolding add_output_at_bottom
add_output-SameInputs t e₀ e e' v h =
    let (f, g, k) = >>=-eq-ok (insert t e.ins e) _ h in
    let (x, room) = insert-room t e.ins e f g in
    let (e″, p, ins, _, valid) = add_output_at_bottom_lem t e v.valid x room in
    let same : e″ ≡ e' = ok-injective (sym p ∙ h) in
    subst (SameInputs e₀) same (record { valid = valid; entries = ins ∙ v.entries })

add_extra_outputs-SameInputs :
    (items : List Item) (b : Bool) (e₀ e e' : StackEffect)
    → SameInputs e₀ e
    → add_extra_outputs items b e ≡ ok e'
    → SameInputs e₀ e'
unfolding add_extra_outputs
add_extra_outputs-SameInputs [] b e₀ e e' v h = subst (SameInputs e₀) (ok-injective h) v
add_extra_outputs-SameInputs (item ∷ items) b e₀ e e' v h =
    let (_, _, f) = >>=-eq-ok (guard b _) _ h in
    let (m, g, k) = >>=-eq-ok (add_output_at_bottom (item_types item) e) _ f in
    add_extra_outputs-SameInputs items b e₀ m e'
      (add_output-SameInputs (item_types item) e₀ e m v g) k

check_outputs-SameInputs :
    (e₀ e e' : StackEffect) (b : Bool) (s : EffectStack)
    → SameInputs e₀ e
    → check_outputs e b s ≡ ok e'
    → SameInputs e₀ e'
unfolding check_outputs
check_outputs-SameInputs e₀ e e' b s v h =
    let (_, _, f) =
      >>=-eq-ok (guard (not (ltb (depth s) (output_count e))) insufficient_outputs) _ h in
    by_case (type_check s.stack (outputs e) 0) f
  where
    by_case :
        (o : Option (ValueType × ℕ))
        → ◌≡◌ {A = Result StackEffect}
            (elim o [
              | some (bad, i) ↦ err (output_mismatch bad i)
              | none ↦ add_extra_outputs (drop (output_count e) s.stack) b e
            ])
            (ok e')
        → SameInputs e₀ e'
    by_case (some x) g = absurd (cc)
    by_case none g = add_extra_outputs-SameInputs (drop (output_count e) s.stack) b e₀ e e' v g

-- A checker that may not add inputs to an effect with the inputs of `e₀`.
pub record Fixed (e₀ : StackEffect) (c : Checker) : Type 0 where
  pub no_inputs : c.can_add_inputs ≡ false
  pub same : SameInputs e₀ c.effect

module _ (effects : ℕ → StackEffect) (prog : List SourceWord) (inline_word : Bool)
    (e₀ : StackEffect) where
  at_return-Fixed :
      (s : EffectStack) (c c' : Checker) → Fixed e₀ c → at_return s c ≡ ok c' → Fixed e₀ c'
  unfolding at_return with_max set_max inputs
  at_return-Fixed s c c' v h =
      let (e, p, q) = >>=-eq-ok (check_outputs c.effect c.can_add_outputs s) _ h in
      let w = check_outputs-SameInputs e₀ c.effect e c.can_add_outputs s v.same p in
      subst (Fixed e₀) (ok-injective q) (record {
        no_inputs = v.no_inputs;
        same =
            if-cases (SameInputs e₀) (ltb e.max_growth (max_growth s))
              (record { valid = with_max-IsValid (max_growth s) e w.valid; entries = w.entries }) w;
      })

  apply_word-Fixed :
      (word : Word) (v : Value) (i : ℕ) (s s' : EffectStack) (c c' : Checker)
      → Fixed e₀ c
      → apply_word effects prog inline_word word v i s c ≡ ok (s', c')
      → Fixed e₀ c'
  unfolding apply_word apply_call supply_inputs
  apply_word-Fixed (native Native.lit) v i s s' c c' f h =
      subst (λ x. Fixed e₀ (x.1)) (ok-injective h) f
  apply_word-Fixed word v i s s' c c' f h = called word i s s' c c' f h
    where
      called :
          (word : Word) (i : ℕ) (s s' : EffectStack) (c c' : Checker)
          → Fixed e₀ c
          → apply_call effects prog inline_word word i s c ≡ ok (s', c')
          → Fixed e₀ c'
      called word i s s' c c' f h =
          let (e, p, q) = >>=-eq-ok (next_effect effects prog inline_word word i s c) _ h in
          let ((s₁, effect), p₁, q₁) =
            >>=-eq-ok (supply_inputs c.can_add_inputs (drop (depth s) (inputs e)) s c.effect) _ q in
          let (s₂, p₂, q₂) = >>=-eq-ok (add_effect e s₁) _ q₁ in
          let same : ◌≡◌ {A = Result (EffectStack × StackEffect)} (ok (s, c.effect))
              (ok (s₁, effect)) =
            sym (ap (λ b. supply_inputs b (drop (depth s) (inputs e)) s c.effect) f.no_inputs)
            ∙ p₁ in
          subst (λ x. Fixed e₀ (x.1)) (ok-injective q₂)
            (record {
              no_inputs = f.no_inputs;
              same = subst (λ x. SameInputs e₀ x.1) (ok-injective same) f.same;
            })

  abbrev Keeps : (ℕ → EffectStack → Checker → Result Checker) → Type 0
  Keeps again =
      (i : ℕ) (s : EffectStack) (c c' : Checker) → again i s c ≡ ok c' → Fixed e₀ c → Fixed e₀ c'

  proceed-Fixed :
      (again : ℕ → EffectStack → Checker → Result Checker)
      → Keeps again
      → (next : Next) (s : EffectStack) (c c' : Checker)
      → proceed effects prog inline_word again next s c ≡ ok c'
      → Fixed e₀ c
      → Fixed e₀ c'
  unfolding proceed
  proceed-Fixed again k stop s c c' h f = at_return-Fixed s c c' f h
  proceed-Fixed again k (go j) s c c' h f = k j s c c' h f
  proceed-Fixed again k (fork i j) s c c' h f =
      let (c₁, p, q) = >>=-eq-ok (again i s c) _ h in k j s c₁ c' q (k i s c c₁ p f)

  visit-Fixed :
      (again : ℕ → EffectStack → Checker → Result Checker)
      → Keeps again
      → (w : Option SourceWord) (i : ℕ) (s : EffectStack) (c c' : Checker)
      → visit effects prog inline_word again w i s c ≡ ok c'
      → Fixed e₀ c
      → Fixed e₀ c'
  unfolding visit follow remember
  visit-Fixed again k none i s c c' h f = absurd (cc)
  visit-Fixed again k (some w) i s c c' h f =
      let (arriving, p, q) = >>=-eq-ok (join (c.known i) s) _ h in followed arriving q
    where
      followed :
          (arriving : Option EffectStack)
          → follow effects prog inline_word again w i arriving c ≡ ok c'
          → Fixed e₀ c'
      followed none q = subst (Fixed e₀) (ok-injective q) f
      followed (some s₁) q =
          let ((s₂, c₂), p₂, q₂) =
            >>=-eq-ok (apply_word effects prog inline_word w.word w.param i s₁ (remember i s₁ c)) _
              q in
          let (next, p₃, q₃) = >>=-eq-ok (next_positions w.word w.branch_to i) _ q₂ in
          proceed-Fixed again k next s₂ c₂ c' q₃ (
            apply_word-Fixed w.word w.param i s₁ s₂ (remember i s₁ c) c₂
              (record { no_inputs = f.no_inputs; same = f.same }) p₂)

  -- The checker leaves the inputs of an effect to which none may be added as they are, and its effect
  -- is valid.
  pub compute_effect-Fixed :
      (fuel i : ℕ) (s : EffectStack) (c c' : Checker)
      → compute_effect effects prog inline_word fuel i s c ≡ ok c'
      → Fixed e₀ c
      → Fixed e₀ c'
  unfolding compute_effect
  compute_effect-Fixed zero i s c c' h f = absurd (cc)
  compute_effect-Fixed (suc fuel) i s c c' h f =
      visit-Fixed (compute_effect effects prog inline_word fuel)
        (λ j t d d' g k. compute_effect-Fixed fuel j t d d' g k) (get_elem? prog i) i s c c' h f
