-- ===== src/Checker/Memo.antt =====
-- The stacks that `computeEffect` has remembered: which of them have been followed, and which have
-- still to be.
use tails.Prelude.{
  ℕ, ◌≡◌, refl, sym, ◌⊎◌, inl, inr, Bool, List, Option, none, some, ◌==◌, ==_iff, get_elem?,
  Bool-cases, subst,
}
use tails.Result.{ok}
use tails.StackEffect.{StackEffect}
use tails.Value.{Value}
use tails.EffectStack.{Item, EffectStack}
use tails.EffectStack.Fits.{Covers, Covers-refl}
use tails.Word.{Word}
use tails.Checker.{SourceWord, Checker, update, join, Next, next_positions}
use tails.Checker.Joins.{Reaches, Grows, join-some, join-none, update_same, remember-Reaches}
use tails.Checker.Applied

module _ (effects : ℕ → StackEffect) (prog : List SourceWord) (inline_word : Bool)
    (e₀ : StackEffect) where
  abbrev Declared : Checker → Type 0
  Declared = Applied.Declared effects prog inline_word e₀

  abbrev Checked : Word → List Item → Type 0
  Checked = Applied.Checked effects prog inline_word e₀

  abbrev transfer : Word → Value → List Item → List Item
  transfer = Applied.transfer effects prog inline_word e₀

  abbrev Goes : Next → ℕ → Type 0
  Goes = Applied.Goes effects prog inline_word e₀

  abbrev Returns : Next → List Item → Type 0
  Returns = Applied.Returns effects prog inline_word e₀

  -- The instruction at `i`, where `k` is remembered, has been checked, and its stack goes to
  -- positions that have been reached with it, or is still to be followed, as `pending` says.
  pub record Node (known : ℕ → Option EffectStack) (pending : ℕ → List Item → Type 0) (i : ℕ)
      (k : EffectStack) : Type 0 where
    pub w : SourceWord
    pub next : Next
    pub found : get_elem? prog i ≡ some w
    pub checked : Checked w.word k.stack
    pub goes : next_positions w.word w.branch_to i ≡ ok next
    pub returns : Returns next (transfer w.word w.param k.stack)
    pub flows :
        (j : ℕ)
        → Goes next j
        → Reaches known j (transfer w.word w.param k.stack)
          ⊎ pending j (transfer w.word w.param k.stack)

  abbrev pub Closed : (ℕ → Option EffectStack) → (ℕ → List Item → Type 0) → Type 0
  Closed known pending = (i : ℕ) (k : EffectStack) → known i ≡ some k → Node known pending i k

  abbrev pub Also : (ℕ → List Item → Type 0) → ℕ → List Item → ℕ → List Item → Type 0
  Also pending i x j y = pending j y ⊎ ((j ≡ i) × (y ≡ x))

  -- What a call with the stack `s` at `i` has done when it returns.
  pub record Done (i : ℕ) (s : EffectStack) (c c' : Checker) (pending : ℕ → List Item → Type 0)
      : Type 0 where
    pub declared : Declared c'
    pub closed : Closed c'.known pending
    pub grows : Grows c.known c'.known
    pub reached : Reaches c'.known i s.stack

  pub Node-map :
      (known : ℕ → Option EffectStack) (p q : ℕ → List Item → Type 0) (i : ℕ) (k : EffectStack)
      → ((j : ℕ) (y : List Item) → Reaches known j y ⊎ p j y → Reaches known j y ⊎ q j y)
      → Node known p i k
      → Node known q i k
  Node-map known p q i k f n = record {
    w = n.w;
    next = n.next;
    found = n.found;
    checked = n.checked;
    goes = n.goes;
    returns = n.returns;
    flows = λ j g. f j _ (n.flows j g);
  }

  -- The stack `x` is still to be followed from the positions that come next.
  abbrev pub Onward : (ℕ → List Item → Type 0) → Next → List Item → ℕ → List Item → Type 0
  Onward pending next x j y = pending j y ⊎ (Goes next j × (y ≡ x))

  -- The map with `s'` remembered at `i` is closed, up to the positions that come next.
  pub remember-Closed :
      (w : SourceWord) (next : Next) (i : ℕ) (s s' : EffectStack) (c : Checker)
      (pending : ℕ → List Item → Type 0)
      → get_elem? prog i ≡ some w
      → Closed c.known (Also pending i s.stack)
      → join (c.known i) s ≡ ok (some s')
      → Checked w.word s'.stack
      → next_positions w.word w.branch_to i ≡ ok next
      → Returns next (transfer w.word w.param s'.stack)
      → Closed (update c.known i s') (Onward pending next (transfer w.word w.param s'.stack))
  remember-Closed w next i s s' c pending found cl j ck goes r n k e = elim (Bool-cases (i == n)) [
    | inl same ↦
        let i≡n : i ≡ n = (==_iff i n).0 same in
        let e' : ◌≡◌ {A = Option EffectStack} (some s') (some k) = rw same at e in
        let s≡k : s' ≡ k = cc in
        subst (λ m. Node (update c.known i s') onward m k) i≡n
          (subst (λ m. Node (update c.known i s') onward i m) s≡k
            (record {
              w = w;
              next = next;
              found = found;
              checked = ck;
              goes = goes;
              returns = r;
              flows = λ j g. inr (inr (g, refl));
            }))
    | inr other ↦
        let node = cl n k (rw other at e) in
        record {
          w = node.w;
          next = node.next;
          found = node.found;
          checked = node.checked;
          goes = node.goes;
          returns = node.returns;
          flows = λ j g. still_reached j _ (node.flows j g);
        }
  ]
    where
      onward : ℕ → List Item → Type 0
      onward = Onward pending next (transfer w.word w.param s'.stack)

      still_reached :
          (m : ℕ) (y : List Item)
          → Reaches c.known m y ⊎ Also pending i s.stack m y
          → Reaches (update c.known i s') m y ⊎ onward m y
      still_reached m y (inl r) =
          inl (remember-Reaches c.known i m s' y ((join-some (c.known i) s s' j).1) r)
      still_reached m y (inr (inl p)) = inr (inl p)
      still_reached m y (inr (inr (e₁, e₂))) = inl (
        s',
        subst (λ x. update c.known i s' x ≡ some s') (sym e₁) (update_same c.known i s'),
        subst (λ x. Covers x s'.stack) (sym e₂) ((join-some (c.known i) s s' j).0),
      )

  -- The control flow that has been followed already needs no more.
  pub already_followed :
      (i : ℕ) (s : EffectStack) (c : Checker) (pending : ℕ → List Item → Type 0)
      → Declared c
      → Closed c.known (Also pending i s.stack)
      → join (c.known i) s ≡ ok none
      → Done i s c c pending
  already_followed i s c pending d cl j = record {
    declared = d;
    closed = λ n k e. Node-map c.known (Also pending i s.stack) pending n k seen (cl n k e);
    grows = λ n k e. (k, e, Covers-refl k.stack);
    reached = join-none (c.known i) s j;
  }
    where
      seen :
          (m : ℕ) (y : List Item)
          → Reaches c.known m y ⊎ Also pending i s.stack m y
          → Reaches c.known m y ⊎ pending m y
      seen m y (inl r) = inl r
      seen m y (inr (inl p)) = inr p
      seen m y (inr (inr (e₁, e₂))) =
          let (k, e, cov) = join-none (c.known i) s j in
          inl (
            k,
            subst (λ x. c.known x ≡ some k) (sym e₁) e,
            subst (λ x. Covers x k.stack) (sym e₂) cov,
          )
