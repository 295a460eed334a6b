-- ===== src/Codegen/Runs/Follows.antt =====
-- A run of the generated code follows a run of the source to its end, and never faults.
use tails.Prelude.{
  contradiction, ℕ, zero, suc, ◌≡◌, ◌<◌, length, refl, sym, ap, ◌∙◌, subst, inl, inr, Bool, List,
  ◌++◌, some, get_elem?, some_cancel,
}
use tails.StackEffect.{StackEffect, inputs}
use tails.Value.{Value}
use tails.Value.Arithmetic.{Fpu}
use tails.Word.{Word, native, interpreted}
use tails.Prelude.Members.{get_elem?-lt}
use tails.EffectStack.Laws.{Accepts}
use tails.Checker.{SourceWord}
use tails.Checker.Sound.{Ready}
use tails.Vm.{Instruction, Outcome, out_of_fuel}
use tails.Vm.Run.{run}
use tails.Vm.Run.Calls.{run_op}
use tails.Codegen.{Layout}
use tails.Codegen.Turn.{is_native}
use tails.Codegen.Placed.{word-cases}
use tails.Codegen.Runs.Turns.{here_code, IsGood, GoodFrom, Place, Goes, at_op, rewritten-Place}
use tails.Codegen.Runs.Steps.{native-Turn}
use tails.Codegen.Runs.Groups.{at_head, group-Turn}
use tails.Codegen.Runs.{IsRunnable, Compiled, Reached}

module _ (fpu : Fpu) (code_of : ℕ → List Instruction) (effects : ℕ → StackEffect)
    (prog : List SourceWord) (inline_word : Bool) (e₀ : StackEffect) (is_destination : ℕ → Bool)
    (rank : ℕ → ℕ) (s : Layout)
    (c : Compiled fpu code_of effects prog inline_word e₀ is_destination rank s)
    (vs₀ below : List Value)
    (ready : (i : ℕ) (vs : List Value)
      → Reached fpu code_of effects prog inline_word e₀ vs₀ i vs
      → (w : SourceWord) × (get_elem? prog i ≡ some w)
        × Ready effects prog inline_word e₀ w.word vs) where
  -- `cut fuel i` is what a run with `fuel` from the word at `i` on that has not ended says.
  module _ (cut : ℕ → ℕ → Type 0) (at_zero : (i : ℕ) → i < length prog → cut 0 i)
      (weaken : (fuel i j : ℕ)
        → i < length prog
        → Goes fpu code_of effects prog inline_word e₀ is_destination rank s c vs₀ below i j
        → cut fuel j
        → cut (suc fuel) i)
      (unfinished : (fuel i : ℕ) (w : SourceWord) (k : ℕ) (vs : List Value) (j : ℕ)
        → i < length prog
        → get_elem? prog j ≡ some w
        → w.word ≡ interpreted k
        → Accepts vs (inputs (effects k))
        → run fpu code_of fuel (code_of k) 0 vs ≡ out_of_fuel
        → cut (suc fuel) i) where
    inside : (i : ℕ) (x : SourceWord) → get_elem? s.words i ≡ some x → i < length prog
    inside i x f = subst (λ n. i < n) c.same_length (get_elem?-lt s.words i f)

    -- A run from any entry is good.
    pub run-GoodFrom :
        (fuel : ℕ)
        → GoodFrom fpu code_of effects prog inline_word e₀ is_destination rank s c vs₀ below
            (cut fuel)
            (run fpu code_of fuel)
    unfolding run
    run-GoodFrom zero i vs kept entry a = inl (at_zero i (inside i entry.w entry.found), refl)
    run-GoodFrom (suc fuel) i vs kept entry a = elim (word-cases entry.w.word) [
      | inl (n, is_n) ↦
          let p = subst At is_n (at_entry entry.w entry.found) in
          let was : p.o.word ≡ native n = p.word_was in
          let (w, f, rd) = ready i vs a in
          let word_is : w.word ≡ native n =
            ap (λ y. y.word) (some_cancel (sym f ∙ p.original)) ∙ was in
          subst Good
            (sym (
              run_op fpu code_of fuel n code (s.pc_of i) (vs ++ below) (
                at_op fpu code_of effects prog inline_word e₀ is_destination rank s c vs₀ below i n
                  kept p)))
            (native-Turn fpu code_of effects prog inline_word e₀ is_destination rank s c vs₀ below i
              kept (run fpu code_of fuel) (cut fuel) (cut (suc fuel) i)
              (λ j. weaken fuel i j (inside i entry.w entry.found)) (run-GoodFrom fuel) n vs p
              (subst (IsRunnable fpu code_of effects prog inline_word e₀) was
                (c.runnable i p.o p.original))
              (subst (λ x. Ready effects prog inline_word e₀ x vs) word_is rd) a)
      | inr (k, is_k) ↦ elim entry.starts [
        | inl n ↦ contradiction (sym (ap is_native is_k) ∙ n) refl
        | inr (h, headed) ↦
            let g = c.grouped.groups i h kept headed in
            subst Good
              (sym (
                run_op fpu code_of fuel h code (s.pc_of i) (vs ++ below) (
                  at_head fpu code_of effects prog inline_word e₀ is_destination rank s c vs₀ below
                    ready i kept h headed g)))
              (group-Turn fpu code_of effects prog inline_word e₀ is_destination rank s c vs₀ below
                ready i kept h headed g fuel (cut (suc fuel) i)
                (λ j w k vs. unfinished fuel i w k vs j (inside i entry.w entry.found)) vs
                (cut fuel) (λ j. weaken fuel i j (inside i entry.w entry.found)) (run-GoodFrom fuel)
                a)
      ]
    ]
      where
        code : List Instruction
        code = here_code fpu code_of effects prog inline_word e₀ is_destination rank s c vs₀ below

        Good : Outcome → Type 0
        Good =
            IsGood fpu code_of effects prog inline_word e₀ is_destination rank s c vs₀ below
              (cut (suc fuel) i)

        At : Word → Type 0
        At = Place fpu code_of effects prog inline_word e₀ is_destination rank s c vs₀ below i

        at_entry : (x : SourceWord) → get_elem? s.words i ≡ some x → At x.word
        at_entry =
            rewritten-Place fpu code_of effects prog inline_word e₀ is_destination rank s c vs₀
              below i
