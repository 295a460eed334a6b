-- ===== src/Codegen/Runs/Sound.antt =====
-- The generated code of a word whose stack effect was checked, run from its start to its RETURN.
use tails.Prelude.{ℕ, ◌<◌, ◌≡◌, Bool, false, List, ◌++◌, some, none, length, get_elem?}
use tails.Result.{ok}
use tails.StackEffect.{StackEffect, inputs, outputs}
use tails.Value.{Value}
use tails.Value.Arithmetic.{Fpu}
use tails.EffectStack.Laws.{Accepts}
use tails.Word.{Native, native}
use tails.Checker.{SourceWord, Checker, compute_effect_from}
use tails.Checker.Sound
use tails.Vm.{Instruction, Outcome, done}
use tails.Vm.Run.{run}
use tails.Codegen.{generate, Layout, lay_out, assemble}
use tails.Codegen.Branches.{IsSource}
use tails.Codegen.Laid.{Laid}
use tails.Codegen.Runs.{IsRunnable, Reached}

module _ (fpu : Fpu) (code_of : ℕ → List Instruction) (effects : ℕ → StackEffect)
    (prog : List SourceWord) (inline_word : Bool) (e₀ : StackEffect) (is_destination : ℕ → Bool)
    (rank : ℕ → ℕ) (fuel : ℕ) (s : Layout) (source : IsSource is_destination rank prog)
    (enough : (i : ℕ) → i < length prog → rank i < fuel) (some_word : 0 < length prog)
    (laid : lay_out fuel is_destination prog ≡ ok s)
    (generated : generate fuel is_destination prog ≡ ok (assemble s s.kept, s.recursive))
    (runnable : (i : ℕ) (w : SourceWord)
      → get_elem? prog i ≡ some w
      → IsRunnable fpu code_of effects prog inline_word e₀ w.word)
    (targets : (i : ℕ) (w : SourceWord)
      → get_elem? prog i ≡ some w
      → w.word ≡ native Native.zbranch
      → (t : ℕ) × (w.branch_to ≡ some t))
    (no_target : (i : ℕ) (w : SourceWord)
      → get_elem? prog i ≡ some w
      → w.word ≡ native Native.lit
      → w.branch_to ≡ none)
    (check_fuel : ℕ) (c : Checker)
    (checked : compute_effect_from effects prog inline_word check_fuel e₀ false false ≡ ok c)
    (vs₀ below : List Value) (count : length vs₀ ≡ length (inputs e₀))
    (accepted : Accepts vs₀ (inputs e₀)) where
  -- The run has ended where a run of the source words comes to RETURN, with the declared outputs.
  abbrev pub HasEnded : Outcome → Type 0
  HasEnded o =
      (vs : List Value) × (o ≡ done (vs ++ below))
      × ((j : ℕ) × (w : SourceWord) × (get_elem? prog j ≡ some w)
          × (w.word ≡ native Native.ret)
          × Reached fpu code_of effects prog inline_word e₀ vs₀ j vs)
      × (length vs ≡ e₀.outs)
      × Accepts vs (outputs e₀)

  abbrev outcome : ℕ → Outcome
  outcome n = run fpu code_of n (assemble s s.kept) 0 (vs₀ ++ below)
