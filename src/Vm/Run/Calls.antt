-- ===== src/Vm/Run/Calls.antt =====
-- The optimised calls against the plain ones.
use mathlib.Core.Path.{fun_ext}
use native.Mathlib.Nat.{add-zero}
use tails.Prelude.{
  ℕ, zero, suc, ◌+◌, ◌≡◌, ◌<◌, refl, sym, ap, ◌∙◌, List, Option, none, some, get_elem?, arith,
  subst,
}
use tails.Value.{Value}
use tails.Value.Arithmetic.{Fpu}
use tails.Word.{Native}
use tails.Vm.{Instruction, op, word, Outcome, done, fault, out_of_fuel}
use tails.Vm.Run.{Runner, then_do, call_words, do_interp, native_word, fetch, run}

-- The words that call n words, and the one that jumps to the last of them.
pub data TailPair : ℕ → Native → Native → Type 0 where
  one : TailPair 1 Native.interp Native.tailinterp
  two : TailPair 2 Native.interp2 Native.tailinterp2
  three : TailPair 3 Native.interp3 Native.tailinterp3
  four : TailPair 4 Native.interp4 Native.tailinterp4

then_do-done :
    (o : Outcome) (k : List Value → Outcome) → ((s : List Value) → k s ≡ done s) → then_do o k ≡ o
then_do-done (done s) k h = h s
then_do-done fault k h = refl
then_do-done out_of_fuel k h = refl

-- The first of the words to call, and the rest.
abbrev pub call_first :
    (ℕ → List Instruction)
    → Runner
    → Option Instruction
    → List Value
    → (List Value → Outcome)
    → Outcome
call_first code again (some (word k)) s rest = then_do (again (code k) 0 s) rest
call_first code again _ s rest = fault

pub call_words-suc :
    (fpu : Fpu) (code : ℕ → List Instruction) (again : Runner) (here : List Instruction) (n pc : ℕ)
    (s : List Value)
    → call_words fpu code again here (suc n) pc s
      ≡ call_first code again
          (get_elem? here pc)
          s
          (λ s'. call_words fpu code again here n (pc + 1) s')
unfolding call_words
call_words-suc fpu code again here n pc s = first (get_elem? here pc)
  where
    first :
        (i : Option Instruction)
        → elim i as (λ _. Outcome) [
          | some (word k) ↦
              then_do (again (code k) 0 s) (λ s'. call_words fpu code again here n (pc + 1) s')
          | _ ↦ fault
        ]
          ≡ call_first code again i s (λ s'. call_words fpu code again here n (pc + 1) s')
    first (some (word k)) = refl
    first (some _) = refl
    first none = refl

call_words-same :
    (fpu : Fpu) (code : ℕ → List Instruction) (again : Runner) (here there : List Instruction)
    (n pc : ℕ) (s : List Value)
    → ((j : ℕ) → j < n → get_elem? here (pc + j) ≡ get_elem? there (pc + j))
    → call_words fpu code again here n pc s ≡ call_words fpu code again there n pc s
call_words-same fpu code again here there zero pc s h = unfold call_words in refl
call_words-same fpu code again here there (suc n) pc s h =
    let first : get_elem? here pc ≡ get_elem? there pc = rw add-zero at (h 0 (omega arith)) in
    let rest : (s' : List Value)
        → call_words fpu code again here n (pc + 1) s'
          ≡ call_words fpu code again there n (pc + 1) s' =
      λ s'. call_words-same fpu code again here there n (pc + 1) s' (λ j lt.
        let e : pc + suc j ≡ pc + 1 + j = omega arith in
        subst (λ x. get_elem? here x ≡ get_elem? there x) e (h (suc j) (omega arith))) in
    call_words-suc fpu code again here n pc s
    ∙ ap (λ i. call_first code again i s (λ s'. call_words fpu code again here n (pc + 1) s')) first
    ∙ ap (call_first code again (get_elem? there pc) s) (fun_ext rest)
    ∙ sym (call_words-suc fpu code again there n pc s)

pub run_op :
    (fpu : Fpu) (code : ℕ → List Instruction) (fuel : ℕ) (n : Native) (here : List Instruction)
    (pc : ℕ) (s : List Value)
    → get_elem? here pc ≡ some (op n)
    → run fpu code (suc fuel) here pc s ≡ native_word fpu code (run fpu code fuel) n here (pc + 1) s
unfolding run fetch
run_op fpu code fuel n here pc s e = ap (λ i. fetch fpu code (run fpu code fuel) i here pc s) e

interp_native :
    (fpu : Fpu) (code : ℕ → List Instruction) (again : Runner) (n : ℕ) (plain tail : Native)
    (here : List Instruction) (pc : ℕ) (s : List Value)
    → TailPair n plain tail
    → (native_word fpu code again plain here pc s ≡ do_interp fpu code again n here pc s)
      × (native_word fpu code again tail here pc s ≡ call_words fpu code again here n pc s)
unfolding native_word
interp_native fpu code again n plain tail here pc s one = (refl, refl)
interp_native fpu code again n plain tail here pc s two = (refl, refl)
interp_native fpu code again n plain tail here pc s three = (refl, refl)
interp_native fpu code again n plain tail here pc s four = (refl, refl)

-- A call of n words that is followed by RETURN does what the jump to the last of them does, in as
-- many turns, wherever the two stand in their code.
pub run_tail :
    (fpu : Fpu) (code : ℕ → List Instruction) (fuel n : ℕ) (plain tail : Native)
    (here there : List Instruction) (pc : ℕ) (s : List Value)
    → TailPair n plain tail
    → get_elem? here pc ≡ some (op plain)
    → get_elem? there pc ≡ some (op tail)
    → get_elem? here (pc + 1 + n) ≡ some (op Native.ret)
    → ((j : ℕ) → j < n → get_elem? here (pc + 1 + j) ≡ get_elem? there (pc + 1 + j))
    → run fpu code (suc (suc fuel)) here pc s ≡ run fpu code (suc (suc fuel)) there pc s
run_tail fpu code fuel n plain tail here there pc s pair e e' r same =
    let again : Runner = run fpu code (suc fuel) in
    let (p, _) = interp_native fpu code again n plain tail here (pc + 1) s pair in
    let (_, q) = interp_native fpu code again n plain tail there (pc + 1) s pair in
    run_op fpu code (suc fuel) plain here pc s e
    ∙ p
    ∙ unfold do_interp in
      then_do-done (call_words fpu code again here n (pc + 1) s) (λ s'. again here (pc + 1 + n) s')
        (λ s'. run_op fpu code fuel Native.ret here (pc + 1 + n) s' r ∙ unfold native_word in refl)
      ∙ call_words-same fpu code again here there n (pc + 1) s same
      ∙ sym q
      ∙ sym (run_op fpu code (suc fuel) tail there pc s e')
