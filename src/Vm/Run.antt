-- ===== src/Vm/Run.antt =====
-- The interpreter's control: `call`, NEXT and the words that read their parameters from the code.
-- `here` is the array of instructions that runs and `pc` an index into it; `code` finds the array
-- of a compiled word, or of the word of a quotation.
pub mod Calls
use tails.Prelude.{
  ℕ, zero, suc, ◌+◌, ◌-◌, ◌≡◌, Bool, true, false, List, [], ◌∷◌, Option, none, some, leb,
  if◌then◌else◌, length, drop, get_elem?,
}
use tails.Prelude.Int.{ℤ}
use tails.Value.{Value, quote}
use tails.Value.Arithmetic.{Fpu, truthy}
use tails.Word.{Native}
use tails.Vm.{
  Instruction, op, word, offset, literal, Outcome, done, fault, out_of_fuel, moved, apply_native,
}

abbrev pub Runner : Type 0
Runner = List Instruction → ℕ → List Value → Outcome

-- What comes after a call that returns.
abbrev pub then_do : Outcome → (List Value → Outcome) → Outcome
then_do (done s) k = k s
then_do fault k = fault
then_do out_of_fuel k = out_of_fuel

-- The stack up to `n` places above its top, with what stands there in memory.
unfoldable pub with_stale : Fpu → ℕ → List Value → List Value
with_stale fpu zero s = s
with_stale fpu (suc n) s = fpu.stale s n ∷ with_stale fpu n s

-- RECURSE drops the stack pointer that its call returns and goes on with its own, n values above
-- the bottom: what the call left above is lost, and if it left fewer the values there are stale.
unfoldable pub old_depth : Fpu → ℕ → List Value → List Value
unfolding with_stale
old_depth fpu n s =
    if leb n (length s) then drop (length s - n) s else with_stale fpu (n - length s) s

module _ (fpu : Fpu) (code : ℕ → List Instruction) (again : Runner) where
  unfoldable pub go_on : List Instruction → ℕ → Option (List Value) → Outcome
  go_on here pc none = fault
  go_on here pc (some s) = again here pc s

  -- `pc += o` from `pc`, then NEXT.
  unfoldable pub jump_by : List Instruction → ℕ → ℤ → List Value → Outcome
  jump_by here pc o s = elim (moved pc o) [ some t ↦ again here t s | none ↦ fault ]

  unfoldable pub do_literal : List Instruction → ℕ → List Value → Option Instruction → Outcome
  do_literal here pc s (some (literal v)) = again here (pc + 1) (v ∷ s)
  do_literal here pc s _ = fault

  unfoldable pub do_branch : List Instruction → ℕ → List Value → Option Instruction → Outcome
  unfolding jump_by
  do_branch here pc s (some (offset o)) = jump_by here (pc + 1) o s
  do_branch here pc s _ = fault

  unfoldable pub do_zbranch : List Instruction → ℕ → List Value → Option Instruction → Outcome
  unfolding jump_by
  do_zbranch here pc (v ∷ s) (some (offset o)) =
      if truthy v then again here (pc + 1) s else jump_by here (pc + 1) o s
  do_zbranch here pc _ _ = fault

  unfoldable pub do_recurse : List Instruction → ℕ → List Value → Option Instruction → Outcome
  unfolding jump_by old_depth
  do_recurse here pc s (some (offset o)) =
      then_do (jump_by here (pc + 1) o s) (λ s'. again here (pc + 1) (old_depth fpu (length s) s'))
  do_recurse here pc s _ = fault

  -- `call(sp, (pc++)->word)`, n times.
  unfoldable pub call_words : List Instruction → ℕ → ℕ → List Value → Outcome
  call_words here zero pc s = done s
  call_words here (suc n) pc s = elim (get_elem? here pc) [
    | some (word k) ↦ then_do (again (code k) 0 s) (λ s'. call_words here n (pc + 1) s')
    | _ ↦ fault
  ]

  unfoldable pub do_interp : ℕ → List Instruction → ℕ → List Value → Outcome
  unfolding call_words
  do_interp n here pc s = then_do (call_words here n pc s) (λ s'. again here (pc + n) s')

  unfoldable pub do_call : List Instruction → ℕ → List Value → Outcome
  do_call here pc (quote q ∷ s) = then_do (again (code q) 0 s) (λ s'. again here pc s')
  do_call here pc _ = fault

  unfoldable pub do_quote : List Instruction → ℕ → Value → List Value → Outcome
  do_quote here pc (quote q) s = then_do (again (code q) 0 s) (λ s'. again here pc s')
  do_quote here pc _ s = fault

  unfoldable pub do_ifelse : List Instruction → ℕ → List Value → Outcome
  unfolding do_quote
  do_ifelse here pc (otherwise ∷ taken ∷ test ∷ s) =
      do_quote here pc (if truthy test then taken else otherwise) s
  do_ifelse here pc _ = fault

  -- One native word, after `pc` has moved past it.
  unfoldable pub native_word : Native → List Instruction → ℕ → List Value → Outcome
  native_word Native.ret here pc s = done s
  native_word Native.lit here pc s = do_literal here pc s (get_elem? here pc)
  native_word Native.branch here pc s = do_branch here pc s (get_elem? here pc)
  native_word Native.zbranch here pc s = do_zbranch here pc s (get_elem? here pc)
  native_word Native.recurse here pc s = do_recurse here pc s (get_elem? here pc)
  native_word Native.interp here pc s = do_interp 1 here pc s
  native_word Native.interp2 here pc s = do_interp 2 here pc s
  native_word Native.interp3 here pc s = do_interp 3 here pc s
  native_word Native.interp4 here pc s = do_interp 4 here pc s
  native_word Native.tailinterp here pc s = call_words here 1 pc s
  native_word Native.tailinterp2 here pc s = call_words here 2 pc s
  native_word Native.tailinterp3 here pc s = call_words here 3 pc s
  native_word Native.tailinterp4 here pc s = call_words here 4 pc s
  native_word Native.call_quote here pc s = do_call here pc s
  native_word Native.if_else here pc s = do_ifelse here pc s
  native_word Native.define here pc s = fault
  native_word n here pc s = go_on here pc (apply_native fpu n s)

  -- NEXT, and the start of `call`.
  unfoldable pub fetch : Option Instruction → Runner
  fetch (some (op n)) here pc s = native_word n here (pc + 1) s
  fetch _ here pc s = fault

unfoldable pub run : Fpu → (ℕ → List Instruction) → ℕ → Runner
run fpu code zero here pc s = out_of_fuel
run fpu code (suc fuel) here pc s = fetch fpu code (run fpu code fuel) (get_elem? here pc) here pc s
