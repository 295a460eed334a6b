-- ===== src/Checker/Sound.antt =====
-- What a word that the checker accepts does when it runs, whatever the words that it calls do
-- within their declared effects. A run is a sequence of steps over positions of the compiler's
-- list of instructions and the part of the stack that belongs to the word, the top first.
use tails.Prelude.{
  ℕ, ◌+◌, ◌≡◌, refl, sym, ◌∙◌, ◌⊎◌, inl, inr, Bool, false, List, [], ◌∷◌, Option, none, some, map,
  arith, length, drop, get_elem?, subst, some_cancel,
}
use tails.TypeSet.{TypeSet}
use tails.TypeSet.Laws.{can_be_type-of_type}
use tails.Result.{ok, ok-injective}
use tails.StackEffect.{StackEffect, inputs, outputs}
use tails.Value.{Value, type_of}
use tails.EffectStack.{Item, types, literal, EffectStack, item_types, of_inputs}
use tails.EffectStack.Laws.{Accepts, Honours, applied, applied-Fits}
use tails.EffectStack.Fits.{Fits, Fits-Covers}
use tails.Word.{Native, Word, native, stack_effect, core_effect}
use tails.Checker.{SourceWord, Checker, Next, go, fork, next_positions, compute_effect_from}
use tails.Checker.Joins.{Reaches}
use tails.Checker.Applied
use tails.Checker.Memo
use tails.Checker.Followed

-- The words that run within an effect; the others are the steps below, and RETURN.
abbrev pub IsCall : Word → Type 0
IsCall (native Native.lit) = ⊥
IsCall (native Native.branch) = ⊥
IsCall (native Native.zbranch) = ⊥
IsCall (native Native.ret) = ⊥
IsCall _ = Unit

module _ (effects : ℕ → StackEffect) (prog : List SourceWord) (inline_word : Bool)
    (e₀ : StackEffect) where
  abbrev pub effect_used : Word → StackEffect
  effect_used = Applied.effect_used effects prog inline_word e₀

  -- Both ways of a 0BRANCH are steps, whatever the value that it pops.
  pub data Step : ℕ → List Value → ℕ → List Value → Type 0 where
    push :
        {i : ℕ} {vs : List Value} (w : SourceWord)
        → get_elem? prog i ≡ some w
        → w.word ≡ native Native.lit
        → Step i vs (i + 1) (w.param ∷ vs)
    jump :
        {i : ℕ} {vs : List Value} (w : SourceWord) (t : ℕ)
        → get_elem? prog i ≡ some w
        → w.word ≡ native Native.branch
        → w.branch_to ≡ some t
        → Step i vs t vs
    fall_through :
        {i : ℕ} {v : Value} {vs : List Value} (w : SourceWord)
        → get_elem? prog i ≡ some w
        → w.word ≡ native Native.zbranch
        → Step i (v ∷ vs) (i + 1) vs
    jump_zero :
        {i : ℕ} {v : Value} {vs : List Value} (w : SourceWord) (t : ℕ)
        → get_elem? prog i ≡ some w
        → w.word ≡ native Native.zbranch
        → w.branch_to ≡ some t
        → Step i (v ∷ vs) t vs
    call :
        {i : ℕ} {vs vs' : List Value} (w : SourceWord)
        → get_elem? prog i ≡ some w
        → IsCall w.word
        → Honours (effect_used w.word) vs vs'
        → Step i vs (i + 1) vs'

  pub data Reach (vs₀ : List Value) : ℕ → List Value → Type 0 where
    here : Reach vs₀ 0 vs₀
    next : {i j : ℕ} {vs vs' : List Value} → Reach vs₀ i vs → Step i vs j vs' → Reach vs₀ j vs'

  -- The values that a word needs are there, with types that it allows; at RETURN the declared
  -- outputs are there, and nothing else.
  abbrev pub Ready : Word → List Value → Type 0
  Ready (native Native.lit) vs = Unit
  Ready (native Native.ret) vs = (length vs ≡ e₀.outs) × Accepts vs (outputs e₀)
  Ready word vs = Accepts vs (inputs (effect_used word))

  module _ (known : ℕ → Option EffectStack)
      (closed : Memo.Closed effects prog inline_word e₀ known (λ j x. ⊥)) where
    abbrev Facts : ℕ → List Item → Word → Value → Option ℕ → Type 0
    Facts i k word v b =
        Applied.Checked effects prog inline_word e₀ word k
        × ((n : Next) × (next_positions word b i ≡ ok n)
            × Applied.Returns effects prog inline_word e₀ n
                (Applied.transfer effects prog inline_word e₀ word v k)
            × ((j : ℕ)
                → Applied.Goes effects prog inline_word e₀ n j
                → Reaches known j (Applied.transfer effects prog inline_word e₀ word v k)))

    facts :
        (i : ℕ) (k : EffectStack) (w : SourceWord)
        → known i ≡ some k
        → get_elem? prog i ≡ some w
        → Facts i k.stack w.word w.param w.branch_to
    facts i k w e found =
        let node = closed i k e in
        let same : node.w ≡ w = some_cancel (sym node.found ∙ found) in
        subst (λ x. Facts i k.stack x.word x.param x.branch_to) same
          (node.checked, (node.next, node.goes, node.returns, λ j g. reached j _ (node.flows j g)))
      where
        reached : (j : ℕ) (x : List Item) → Reaches known j x ⊎ ⊥ → Reaches known j x
        reached j x (inl r) = r
        reached j x (inr b) = absurd b

    -- The values fit what is remembered at the position.
    abbrev Inv : ℕ → List Value → Type 0
    Inv i vs = (k : EffectStack) × (known i ≡ some k) × Fits vs k.stack

    arrive : (j : ℕ) (vs : List Value) (x : List Item) → Reaches known j x → Fits vs x → Inv j vs
    arrive j vs x (k, e, c) f = (k, e, Fits-Covers vs x k.stack f c)

    plain_next :
        (word : Word) (b : Option ℕ) (i : ℕ)
        → IsCall word
        → next_positions word b i ≡ ok (go (i + 1))
    unfolding next_positions
    plain_next (native Native.lit) b i c = absurd c
    plain_next (native Native.branch) b i c = absurd c
    plain_next (native Native.zbranch) b i c = absurd c
    plain_next (native Native.ret) b i c = absurd c
    plain_next _ b i c = refl

    plain_transfer :
        (word : Word) (v : Value) (k : List Item)
        → IsCall word
        → Applied.transfer effects prog inline_word e₀ word v k ≡ applied (effect_used word) k
    plain_transfer (native Native.lit) v k c = absurd c
    plain_transfer _ v k c = refl

    call_Inv :
        (i : ℕ) (k : EffectStack) (word : Word) (v : Value) (b : Option ℕ) (vs vs' : List Value)
        → Facts i k.stack word v b
        → IsCall word
        → Fits vs k.stack
        → Honours (effect_used word) vs vs'
        → Inv (i + 1) vs'
    call_Inv i k word v b vs vs' (ck, (n, e, r, flows)) c f h =
        let e' : go (i + 1) ≡ n = ok-injective (sym (plain_next word b i c) ∙ e) in
        arrive (i + 1) vs' _
          (flows (i + 1) (subst (λ m. Applied.Goes effects prog inline_word e₀ m (i + 1)) e' refl))
          (subst (Fits vs') (sym (plain_transfer word v k.stack c))
            (applied-Fits (effect_used word) k.stack vs vs' f h))

    lit_Inv :
        (i : ℕ) (k : EffectStack) (v : Value) (b : Option ℕ) (vs : List Value)
        → Facts i k.stack (native Native.lit) v b
        → Fits vs k.stack
        → Inv (i + 1) (v ∷ vs)
    unfolding next_positions item_types
    lit_Inv i k v b vs (ck, (n, e, r, flows)) f =
        let e' : go (i + 1) ≡ n = ok-injective e in
        arrive (i + 1) (v ∷ vs) (literal v ∷ k.stack)
          (flows (i + 1) (subst (λ m. Applied.Goes effects prog inline_word e₀ m (i + 1)) e' refl))
          (can_be_type-of_type (type_of v), f)

    branch_Inv :
        (i : ℕ) (k : EffectStack) (v : Value) (t : ℕ) (vs : List Value)
        → Facts i k.stack (native Native.branch) v (some t)
        → Fits vs k.stack
        → Inv t vs
    unfolding next_positions stack_effect core_effect outputs
    branch_Inv i k v t vs (ck, (n, e, r, flows)) f =
        let e' : go t ≡ n = ok-injective e in
        arrive t vs _ (flows t (subst (λ m. Applied.Goes effects prog inline_word e₀ m t) e' refl))
          f

    zbranch_Inv :
        (i : ℕ) (k : EffectStack) (w : Value) (t j : ℕ) (v : Value) (vs : List Value)
        → (j ≡ i + 1) ⊎ (j ≡ t)
        → Fits (v ∷ vs) k.stack
        → Facts i k.stack (native Native.zbranch) w (some t)
        → Inv j vs
    unfolding next_positions stack_effect core_effect outputs
    zbranch_Inv i k w t j v vs g f (ck, (n, e, r, flows)) =
        let e' : fork (i + 1) t ≡ n = ok-injective e in
        arrive j vs _ (flows j (subst (λ m. Applied.Goes effects prog inline_word e₀ m j) e' g))
          (fits_below k.stack f)
      where
        fits_below : (x : List Item) → Fits (v ∷ vs) x → Fits vs (drop 1 x)
        fits_below [] f = absurd f
        fits_below (a ∷ x) (f, fs) = fs

    fall_Inv :
        (i : ℕ) (k : EffectStack) (w : Value) (b : Option ℕ) (v : Value) (vs : List Value)
        → Fits (v ∷ vs) k.stack
        → Facts i k.stack (native Native.zbranch) w b
        → Inv (i + 1) vs
    unfolding next_positions
    fall_Inv i k w none v vs f (ck, (n, e, r, flows)) = absurd (cc)
    fall_Inv i k w (some t) v vs f x = zbranch_Inv i k w t (i + 1) v vs (inl refl) f x

    Step-Inv : {i j : ℕ} {vs vs' : List Value} → Step i vs j vs' → Inv i vs → Inv j vs'
    Step-Inv {i} (push {vs = vs} w found word) (k, e, f) =
        lit_Inv i k w.param w.branch_to vs
          (subst (λ x. Facts i k.stack x w.param w.branch_to) word (facts i k w e found)) f
    Step-Inv {i} (jump {vs = vs} w t found word to) (k, e, f) =
        branch_Inv i k w.param t vs
          (subst (λ b. Facts i k.stack (native Native.branch) w.param b) to
            (subst (λ x. Facts i k.stack x w.param w.branch_to) word (facts i k w e found)))
          f
    Step-Inv {i} (fall_through {v = v} {vs = vs} w found word) (k, e, f) =
        fall_Inv i k w.param w.branch_to v vs f
          (subst (λ x. Facts i k.stack x w.param w.branch_to) word (facts i k w e found))
    Step-Inv {i} (jump_zero {v = v} {vs = vs} w t found word to) (k, e, f) =
        zbranch_Inv i k w.param t t v vs (inr refl) f (
          subst (λ b. Facts i k.stack (native Native.zbranch) w.param b) to
            (subst (λ x. Facts i k.stack x w.param w.branch_to) word (facts i k w e found)))
    Step-Inv {i} (call {vs = vs} {vs' = vs'} w found c h) (k, e, f) =
        call_Inv i k w.word w.param w.branch_to vs vs' (facts i k w e found) c f h

    Reach-Inv : {vs₀ vs : List Value} {i : ℕ} → Reach vs₀ i vs → Inv 0 vs₀ → Inv i vs
    Reach-Inv here v = v
    Reach-Inv (next r s) v = Step-Inv s (Reach-Inv r v)

Accepts-Fits :
    (vs : List Value) (ts : List TypeSet)
    → length vs ≡ length ts
    → Accepts vs ts
    → Fits vs (map types ts)
unfolding item_types
Accepts-Fits [] [] n a = tt
Accepts-Fits [] (t ∷ ts) n a = absurd a
Accepts-Fits (v ∷ vs) [] n a = absurd (omega arith)
Accepts-Fits (v ∷ vs) (t ∷ ts) n (a, rest) = (a, Accepts-Fits vs ts (omega arith) rest)

-- When the checker is done, a run comes only to positions with a remembered stack that the values
-- fit.
pub compute_effect-Inv :
    (effects : ℕ → StackEffect) (prog : List SourceWord) (inline_word : Bool) (e₀ : StackEffect)
    → Applied.NoIfelse effects prog inline_word e₀
    → (fuel : ℕ) (c : Checker)
    → compute_effect_from effects prog inline_word fuel e₀ false false ≡ ok c
    → (vs₀ : List Value) → length vs₀ ≡ length (inputs e₀)
    → Accepts vs₀ (inputs e₀)
    → Memo.Closed effects prog inline_word e₀ c.known (λ j x. ⊥)
      × ((i : ℕ) (vs : List Value)
          → Reach effects prog inline_word e₀ vs₀ i vs
          → (k : EffectStack) × (c.known i ≡ some k) × Fits vs k.stack)
unfolding compute_effect_from of_inputs
compute_effect-Inv effects prog inline_word e₀ ne fuel c h vs₀ n a =
    let done =
      Followed.compute_effect_lem effects prog inline_word e₀ ne fuel 0 (of_inputs e₀)
        (record { effect = e₀; can_add_inputs = false; can_add_outputs = false; known = λ j. none })
        c (λ j x. ⊥) (record { no_inputs = refl; no_outputs = refl; shape = (refl, refl, refl) })
        (λ j k e. absurd (cc)) h in
    let start =
      arrive effects prog inline_word e₀ c.known done.closed 0 vs₀ (map types (inputs e₀))
        done.reached (Accepts-Fits vs₀ (inputs e₀) n a) in
    (done.closed, λ i vs r. Reach-Inv effects prog inline_word e₀ c.known done.closed r start)
