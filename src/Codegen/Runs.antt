-- ===== src/Codegen/Runs.antt =====
-- A run of generated code follows a run of the source words that it was generated from. The part of
-- the stack that belongs to the word stands above the values `below`.
pub mod Turns
pub mod Steps
pub mod Groups
pub mod Follows
pub mod Sound
mod Tests
use tails.Codegen.Erased.{Inside}
use tails.Prelude.{
  ℕ, zero, suc, ◌+◌, ◌≤◌, ◌<◌, ◌≡◌, ◌≢◌, refl, sym, ap, ◌∙◌, subst, ◌⊎◌, inl, inr, Bool, true,
  false, List, [], ◌∷◌, ◌++◌, Option, some, none, arith, length, get_elem?, drop, Bool-cases,
  if◌then◌else◌, ◌==◌,
}
use tails.Prelude.Members.{In, get_elem?-lt}
use tails.Prelude.Int.{ℤ}
use tails.StackEffect.{StackEffect, inputs, outputs}
use tails.Value.{Value}
use tails.Value.Arithmetic.{Fpu, truthy}
use tails.EffectStack.Laws.{Accepts, Honours}
use tails.Word.{Native, Word, native, interpreted, parameters, core_effect, stack_effect}
use tails.Checker.{SourceWord}
use tails.Checker.Sound.{Reach, next, push, jump, fall_through, jump_zero, call, Ready, IsCall}
use tails.Vm.{
  Instruction, op, word, offset, literal, Outcome, done, out_of_fuel, moved, apply_native,
}
use tails.Vm.Run.{
  Runner, run, native_word, go_on, jump_by, do_literal, do_branch, do_zbranch, do_interp,
  call_words, then_do,
}
use tails.Vm.Run.Calls.{run_op, call_words-suc, call_first}
use tails.Codegen.{
  Layout, assemble, assemble_word, branch_offset, parameter, parameters_of, interp_word, is_branch,
}
use tails.Codegen.Branches.{IsSource, Leads, here, hop, Returns, is_jump}
use tails.Codegen.Rewritten.{AllRewritten, Rewritten}
use tails.Codegen.Turn.{is_native}
use tails.Codegen.Correct.{IsAssembled}
use tails.Codegen.Grouped.{IsEntry, NextAt, Member, Group, Grouped}
use tails.Codegen.Above.{Accepts-append, length-Accepts, Honours-append, drop-get}

-- What a word that keeps its effect does: no fault.
abbrev pub IsHonest : StackEffect → List Value → Outcome → Type 0
IsHonest e vs o = (o ≡ out_of_fuel) ⊎ ((vs' : List Value) × (o ≡ done vs') × Honours e vs vs')

module _ (fpu : Fpu) (code_of : ℕ → List Instruction) (effects : ℕ → StackEffect)
    (prog : List SourceWord) (inline_word : Bool) (e₀ : StackEffect) where
  -- The words that a run may meet: literals, branches and RETURN, native words that do what they
  -- declare, and compiled words whose code does.
  abbrev pub IsRunnable : Word → Type 0
  IsRunnable (native Native.lit) = Unit
  IsRunnable (native Native.branch) = Unit
  IsRunnable (native Native.zbranch) = Unit
  IsRunnable (native Native.ret) = Unit
  IsRunnable (native n) =
      ((core_effect n).ins ≤ length (inputs (core_effect n)))
      × ((vs : List Value)
          → Accepts vs (inputs (core_effect n))
          → (vs' : List Value) × (apply_native fpu n vs ≡ some vs')
            × Honours (core_effect n) vs vs')
  IsRunnable (interpreted k) =
      ((effects k).ins ≤ length (inputs (effects k)))
      × ((fuel : ℕ) (vs : List Value)
          → Accepts vs (inputs (effects k))
          → IsHonest (effects k) vs (run fpu code_of fuel (code_of k) 0 vs))

  -- What code generation has made of `prog`, with no branch out of the layout.
  pub record Compiled (is_destination : ℕ → Bool) (rank : ℕ → ℕ) (s : Layout) : Type 0 where
    pub source : IsSource is_destination rank s.words
    pub rewritten : AllRewritten prog s.words
    pub same_length : length s.words ≡ length prog
    pub assembled : IsAssembled s (assemble s s.kept)
    pub grouped : Grouped prog is_destination (length prog) s
    pub inside : Inside s s.kept
    pub runnable : (i : ℕ) (w : SourceWord) → get_elem? prog i ≡ some w → IsRunnable w.word
    pub targets :
        (i : ℕ) (w : SourceWord)
        → get_elem? prog i ≡ some w
        → w.word ≡ native Native.zbranch
        → (t : ℕ) × (w.branch_to ≡ some t)
    pub no_target :
        (i : ℕ) (w : SourceWord)
        → get_elem? prog i ≡ some w
        → w.word ≡ native Native.lit
        → w.branch_to ≡ none

  abbrev pub Reached : List Value → ℕ → List Value → Type 0
  Reached = Reach effects prog inline_word e₀

  pub not_recurse : IsRunnable (native Native.recurse) → ⊥
  unfolding core_effect apply_native inputs
  not_recurse (_, r) = let (vs', e, _) = r [] tt in cc

  pub not_if_else : IsRunnable (native Native.if_else) → ⊥
  unfolding core_effect apply_native inputs
  not_if_else (_, r) = let (vs', e, _) = r [] tt in cc

  pub Reach-Leads :
      ((i : ℕ) (w : SourceWord) → get_elem? prog i ≡ some w → IsRunnable w.word)
      → {vs₀ vs : List Value} {t u : ℕ} → Leads prog t u
      → Reached vs₀ t vs
      → Reached vs₀ u vs
  Reach-Leads runnable here r = r
  Reach-Leads runnable (hop {u = u} w e j to l) r =
      Reach-Leads runnable l (next r (jump w u e (branch w.word (runnable _ w e) j) to))
    where
      branch : (x : Word) → IsRunnable x → is_jump x ≡ true → x ≡ native Native.branch
      branch (native Native.branch) k j = refl
      branch (native Native.recurse) k j = absurd (not_recurse k)
      branch (native _) k j = absurd (cc)
      branch (interpreted _) k j = absurd (cc)
