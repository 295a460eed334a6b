-- ===== src/Checker/Followed.antt =====
-- What `computeEffect` has done when it returns: it has followed the stack that it was called with,
-- and no stack that it has remembered on the way is still to be followed.
use tails.Prelude.{
  ℕ, zero, suc, ◌≡◌, refl, sym, ◌≢◌, ◌⊎◌, inl, inr, Bool, List, Option, none, some, get_elem?,
  subst,
}
use tails.Result.{Result, ok, >>=-eq-ok, ok-injective}
use tails.StackEffect.{StackEffect}
use tails.Value.{Value}
use tails.EffectStack.{Item, EffectStack}
use tails.EffectStack.Fits.{Covers-refl, Covers-trans}
use tails.Word.{Native, Word, native}
use tails.Checker.{
  SourceWord, Checker, update, remember, apply_word, join, Next, stop, go, fork, next_positions,
  proceed, follow, visit, compute_effect,
}
use tails.Checker.Joins.{Reaches, Grows, join-some, update_same, remember-Reaches, Grows-Reaches}
use tails.Checker.Applied
use tails.Checker.Memo

module _ (effects : ℕ → StackEffect) (prog : List SourceWord) (inline_word : Bool)
    (e₀ : StackEffect) where
  abbrev Declared : Checker → Type 0
  Declared = Applied.Declared effects prog inline_word e₀

  abbrev Checked : Word → List Item → Type 0
  Checked = Applied.Checked effects prog inline_word e₀

  abbrev transfer : Word → Value → List Item → List Item
  transfer = Applied.transfer effects prog inline_word e₀

  abbrev Returns : Next → List Item → Type 0
  Returns = Applied.Returns effects prog inline_word e₀

  abbrev Node : (ℕ → Option EffectStack) → (ℕ → List Item → Type 0) → ℕ → EffectStack → Type 0
  Node = Memo.Node effects prog inline_word e₀

  abbrev Closed : (ℕ → Option EffectStack) → (ℕ → List Item → Type 0) → Type 0
  Closed = Memo.Closed effects prog inline_word e₀

  abbrev Also : (ℕ → List Item → Type 0) → ℕ → List Item → ℕ → List Item → Type 0
  Also = Memo.Also effects prog inline_word e₀

  abbrev Onward : (ℕ → List Item → Type 0) → Next → List Item → ℕ → List Item → Type 0
  Onward = Memo.Onward effects prog inline_word e₀

  abbrev Done : ℕ → EffectStack → Checker → Checker → (ℕ → List Item → Type 0) → Type 0
  Done = Memo.Done effects prog inline_word e₀

  module _ (again : ℕ → EffectStack → Checker → Result Checker) where
    abbrev Sound : Type 1
    Sound =
        (i : ℕ) (s : EffectStack) (c c' : Checker) (pending : ℕ → List Item → Type 0)
        → Declared c
        → Closed c.known (Also pending i s.stack)
        → again i s c ≡ ok c'
        → Done i s c c' pending

    proceed-Returns :
        (next : Next) (s : EffectStack) (c c' : Checker)
        → Declared c
        → proceed effects prog inline_word again next s c ≡ ok c'
        → Returns next s.stack
    unfolding proceed
    proceed-Returns stop s c c' d h =
        (Applied.at_return_lem effects prog inline_word e₀ s c c' d h).2
    proceed-Returns (go _) s c c' d h = tt
    proceed-Returns (fork _ _) s c c' d h = tt

    proceed_lem :
        Sound
        → (next : Next) (s : EffectStack) (c c' : Checker) (pending : ℕ → List Item → Type 0)
        → Declared c
        → Closed c.known (Onward pending next s.stack)
        → proceed effects prog inline_word again next s c ≡ ok c'
        → Declared c' × Closed c'.known pending × Grows c.known c'.known
    unfolding proceed
    proceed_lem ih stop s c c' pending d cl h =
        let (same, d', r) = Applied.at_return_lem effects prog inline_word e₀ s c c' d h in
        (
          d',
          λ i k e.
              subst (λ known. Node known pending i k) (sym same)
                (Memo.Node-map effects prog inline_word e₀ c.known (Onward pending stop s.stack)
                  pending i k no_more (cl i k (subst (λ known. known i ≡ some k) same e))),
          λ j k e. (k, subst (λ known. known j ≡ some k) (sym same) e, Covers-refl k.stack),
        )
      where
        no_more :
            (j : ℕ) (y : List Item)
            → Reaches c.known j y ⊎ Onward pending stop s.stack j y
            → Reaches c.known j y ⊎ pending j y
        no_more j y (inl r) = inl r
        no_more j y (inr (inl p)) = inr p
        no_more j y (inr (inr (g, e))) = absurd g
    proceed_lem ih (go k) s c c' pending d cl h =
        let done = ih k s c c' pending d cl h in (done.declared, done.closed, done.grows)
    proceed_lem ih (fork k l) s c c' pending d cl h =
        let (c₁, h₁, h₂) = >>=-eq-ok (again k s c) _ h in
        let first =
          ih k s c c₁ (Also pending l s.stack) d
            (λ i x e. Memo.Node-map effects prog inline_word e₀ c.known _ _ i x both (cl i x e))
            h₁ in
        let second = ih l s c₁ c' pending first.declared first.closed h₂ in
        (
          second.declared,
          second.closed,
          λ j x e. Grows-Reaches c₁.known c'.known j x.stack second.grows (first.grows j x e),
        )
      where
        both :
            (j : ℕ) (y : List Item)
            → Reaches c.known j y ⊎ Onward pending (fork k l) s.stack j y
            → Reaches c.known j y ⊎ Also (Also pending l s.stack) k s.stack j y
        both j y (inl r) = inl r
        both j y (inr (inl p)) = inr (inl (inl p))
        both j y (inr (inr (inl g, e))) = inr (inr (g, e))
        both j y (inr (inr (inr g, e))) = inr (inl (inr (g, e)))

    follow_lem :
        Sound
        → (w : SourceWord) (i : ℕ) (s s' : EffectStack) (c c' : Checker)
          (pending : ℕ → List Item → Type 0)
        → get_elem? prog i ≡ some w
        → w.word ≢ native Native.if_else
        → Declared c
        → Closed c.known (Also pending i s.stack)
        → join (c.known i) s ≡ ok (some s')
        → follow effects prog inline_word again w i (some s') c ≡ ok c'
        → Done i s c c' pending
    unfolding follow remember
    follow_lem ih w i s s' c c' pending found ne d cl j h =
        let ((s₁, c₁), a, h₁) =
          >>=-eq-ok (apply_word effects prog inline_word w.word w.param i s' (remember i s' c)) _
            h in
        let (next, goes, h₂) = >>=-eq-ok (next_positions w.word w.branch_to i) _ h₁ in
        let d₁ : Declared (remember i s' c) = record {
          no_inputs = d.no_inputs;
          no_outputs = d.no_outputs;
          shape = d.shape;
        } in
        let (same, ck, t) =
          Applied.apply_word_lem effects prog inline_word e₀ w.word w.param i s' s₁
            (remember i s' c) c₁ ne d₁ a in
        let h₃ = subst (λ x. proceed effects prog inline_word again next s₁ x ≡ ok c') same h₂ in
        let r = proceed-Returns next s₁ (remember i s' c) c' d₁ h₃ in
        let cl₁ =
          Memo.remember-Closed effects prog inline_word e₀ w next i s s' c pending found cl j ck
            goes (subst (Returns next) t r) in
        let cl₂ = subst (λ x. Closed (update c.known i s') (Onward pending next x)) (sym t) cl₁ in
        let (d', cl', g) = proceed_lem ih next s₁ (remember i s' c) c' pending d₁ cl₂ h₃ in
        let (covers, covers_known) = join-some (c.known i) s s' j in
        let (k, e, cov) = g i s' (update_same c.known i s') in
        record {
          declared = d';
          closed = cl';
          grows = λ n x e.
              Grows-Reaches (update c.known i s') c'.known n x.stack g
                (remember-Reaches c.known i n s' x.stack covers_known (x, e, Covers-refl x.stack));
          reached = (k, e, Covers-trans s.stack s'.stack k.stack covers cov);
        }

    visit_lem :
        Sound
        → (found : Option SourceWord) (i : ℕ) (s : EffectStack) (c c' : Checker)
          (pending : ℕ → List Item → Type 0)
        → get_elem? prog i ≡ found
        → ((w : SourceWord) → found ≡ some w → w.word ≢ native Native.if_else)
        → Declared c
        → Closed c.known (Also pending i s.stack)
        → visit effects prog inline_word again found i s c ≡ ok c'
        → Done i s c c' pending
    unfolding visit follow
    visit_lem ih none i s c c' pending e ne d cl h = absurd (cc)
    visit_lem ih (some w) i s c c' pending e ne d cl h =
        let (arriving, j, f) = >>=-eq-ok (join (c.known i) s) _ h in arrive arriving j f
      where
        arrive :
            (arriving : Option EffectStack)
            → join (c.known i) s ≡ ok arriving
            → follow effects prog inline_word again w i arriving c ≡ ok c'
            → Done i s c c' pending
        arrive none j f =
            subst (λ x. Done i s c x pending) (ok-injective f)
              (Memo.already_followed effects prog inline_word e₀ i s c pending d cl j)
        arrive (some s') j f = follow_lem ih w i s s' c c' pending e (ne w refl) d cl j f

  pub compute_effect_lem :
      Applied.NoIfelse effects prog inline_word e₀
      → (fuel i : ℕ) (s : EffectStack) (c c' : Checker) (pending : ℕ → List Item → Type 0)
      → Declared c
      → Closed c.known (Also pending i s.stack)
      → compute_effect effects prog inline_word fuel i s c ≡ ok c'
      → Done i s c c' pending
  unfolding compute_effect
  compute_effect_lem ne zero i s c c' pending d cl h = absurd (cc)
  compute_effect_lem ne (suc fuel) i s c c' pending d cl h =
      visit_lem (compute_effect effects prog inline_word fuel) (compute_effect_lem ne fuel)
        (get_elem? prog i) i s c c' pending refl (ne i) d cl h
