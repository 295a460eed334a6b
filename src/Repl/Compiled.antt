-- ===== src/Repl/Compiled.antt =====
-- What the compilation of a line gives: a word whose declared inputs are the values on the stack.
use mathlib.Core.List.{reverse-cons, reverse-reverse, append_assoc, append-nil}
use tails.Prelude.{
  ℕ, suc, ◌+◌, ◌≤◌, ◌≡◌, refl, sym, ap, ◌∙◌, subst, Bool, true, false, List, [], ◌∷◌, ◌++◌, none,
  arith, length, reverse, take, leb, ◌==◌, ==_iff, length-reverse, length-take, get_elem?,
}
use tails.TypeSet.{ValueType, a_null, a_number, a_string, an_array, a_quote, exists, of_type}
use tails.TypeSet.Laws.{can_be_type-of_type}
use tails.Result.{
  ok, ◌>>=◌, guard, >>=-eq-ok, ok-injective, unexpected_delimiter, unfinished_control, assertion,
}
use tails.StackEffect.{
  StackEffect, inputs, input_count, add_input, empty_effect, max_entries, insert,
}
use tails.StackEffect.Laws.{IsValid, add_input_lem}
use tails.Value.{Value, type_of}
use tails.Value.Arithmetic.{Fpu}
use tails.Word.{Word}
use tails.EffectStack.Laws.{Accepts}
use tails.EffectStack.{of_inputs}
use tails.Vm.{Instruction}
use tails.Vm.Run.{run}
use tails.Checker.{Checker, compute_effect_from}
use tails.Checker.Inputs.{insert-room, SameInputs, compute_effect-Fixed}
use tails.Codegen.{generate}
use tails.Builder.{
  Builder, new_builder, set_input_stack, add_inputs, generate_instructions, end_words, is_empty,
  ends_in_nop, last,
}
use tails.Builder.Effect.{SameEffect, SameEffect-IsKept}
use tails.Parser.{Memory, parse, parse_source, store_word}
use tails.Token.{Conversion}
use tails.Parser.Steps.{parse_keeps}
use tails.Vocabulary.{upper}
use tails.Vocabulary.Active.{active_vocabularies}
use tails.CompiledWord.{Program, Stored, from_compiler, construct, register}
use tails.Repl.{compile_line, eval, run_word, outcome_result}

pub type-exists : (t : ValueType) → exists (of_type t) ≡ true
unfolding exists of_type
type-exists a_null = refl
type-exists a_number = refl
type-exists a_string = refl
type-exists an_array = refl
type-exists a_quote = refl

pub empty-IsValid : IsValid empty_effect
empty-IsValid = record { counted = refl; fits = omega arith; max_fits = omega arith }

add_input-ok :
    (v : Value) (e e' : StackEffect)
    → IsValid e
    → add_input (of_type (type_of v)) e ≡ ok e'
    → IsValid e' × (inputs e' ≡ of_type (type_of v) ∷ inputs e)
unfolding add_input
add_input-ok v e e' valid h =
    let t = of_type (type_of v) in
    let (f, g, k) = >>=-eq-ok (insert t e.ins e) _ h in
    let (x, room) = insert-room t e.ins e f g in
    let (e″, p, ins, _, valid') = add_input_lem t e valid x room in
    subst (λ y. IsValid y × (inputs y ≡ t ∷ inputs e)) (ok-injective (sym p ∙ h)) (valid', ins)

add_inputs-Accepts :
    (vs ws : List Value) (e e' : StackEffect)
    → IsValid e
    → Accepts ws (inputs e)
    → length (inputs e) ≡ length ws
    → add_inputs vs e ≡ ok e'
    → IsValid e'
      × Accepts (reverse vs ++ ws) (inputs e')
      × (length (inputs e') ≡ length (reverse vs ++ ws))
unfolding add_inputs
add_inputs-Accepts [] ws e e' valid a n h =
    subst (λ x. IsValid x × Accepts ws (inputs x) × (length (inputs x) ≡ length ws))
      (ok-injective h) (valid, a, n)
add_inputs-Accepts (v ∷ vs) ws e e' valid a n h =
    let (f, g, k) = >>=-eq-ok (add_input (of_type (type_of v)) e) _ h in
    let (valid', ins) = add_input-ok v e f valid g in
    let shift : reverse vs ++ (v ∷ ws) ≡ reverse (v ∷ vs) ++ ws =
      sym (ap (λ x. x ++ ws) (reverse-cons v vs) ∙ append_assoc (reverse vs) (v ∷ []) ws) in
    subst (λ x. IsValid e' × Accepts x (inputs e') × (length (inputs e') ≡ length x)) shift
      (add_inputs-Accepts vs (v ∷ ws) f e' valid'
        (subst (Accepts (v ∷ ws)) (sym ins) (can_be_type-of_type (type_of v), a))
        (ap length ins ∙ ap suc n) k)

set_input_stack-ok :
    (s : List Value) (b b' : Builder)
    → set_input_stack (reverse s) b ≡ ok b'
    → IsValid b'.effect
      × Accepts s (inputs b'.effect)
      × (length (inputs b'.effect) ≡ length s)
      × (b'.can_add_inputs ≡ false)
unfolding set_input_stack inputs
set_input_stack-ok s b b' h =
    let (e, f, g) = >>=-eq-ok (add_inputs (reverse s) empty_effect) _ h in
    let (valid, a, n) = add_inputs-Accepts (reverse s) [] empty_effect e empty-IsValid tt refl f in
    let whole : reverse (reverse s) ++ [] ≡ s =
      append-nil (reverse (reverse s)) ∙ reverse-reverse s in
    subst
      (λ x.
        IsValid x.effect
        × Accepts s (inputs x.effect)
        × (length (inputs x.effect) ≡ length s)
        × (x.can_add_inputs ≡ false))
      (ok-injective g) (valid, subst (λ x. Accepts x (inputs e)) whole a, n ∙ ap length whole, refl)

length-inputs : (e : StackEffect) → IsValid e → length (inputs e) ≡ e.ins
unfolding inputs
length-inputs e v =
    omega (arith, length-reverse (take e.ins e.entries), length-take e.ins e.entries, v.counted)

-- The effect that comes out of the compiler when inputs may not be added.
generate_instructions-SameInputs :
    (effects : ℕ → StackEffect) (fuel : ℕ) (b : Builder) (r : List Instruction × Bool × StackEffect)
    → IsValid b.effect
    → b.can_add_inputs ≡ false
    → generate_instructions effects fuel b ≡ ok r
    → SameInputs b.effect r.2
unfolding generate_instructions end_words compute_effect_from
generate_instructions-SameInputs effects fuel b r v f h =
    let b' = end_words b in
    let (_, _, h₁) = >>=-eq-ok (guard (is_empty b.control) unfinished_control) _ h in
    let (_, _, h₂) = >>=-eq-ok (guard (ends_in_nop (get_elem? b.words (last b))) assertion) _ h₁ in
    let (c, p, h₃) =
      >>=-eq-ok
        (compute_effect_from effects b'.words b'.inline_word fuel b'.effect b'.can_add_inputs
          b'.can_add_outputs)
        _ h₂ in
    let ((code, recursive), _, h₄) = >>=-eq-ok (generate fuel b'.is_destination b'.words) _ h₃ in
    let begun : Checker = record {
      effect = b.effect;
      can_add_inputs = b.can_add_inputs;
      can_add_outputs = b.can_add_outputs;
      known = λ i. none;
    } in
    let fixed =
      compute_effect-Fixed effects b'.words b.inline_word b.effect fuel 0 (of_inputs b.effect) begun
        c p (record { no_inputs = f; same = record { valid = v; entries = refl } }) in
    subst (λ x. SameInputs b.effect x.2) (ok-injective h₄) fixed.same

construct-unnamed :
    (instruction_of : ℕ → ℕ) (effect : StackEffect) (code : List Instruction) (recursive : Bool)
    (p : Program) (w : Stored)
    → construct instruction_of [] effect code recursive p ≡ ok w
    → w.program.memory.effect_of w.word ≡ effect
unfolding construct register upper store_word
construct-unnamed instruction_of effect code recursive p w h =
    subst (λ x. x.program.memory.effect_of x.word ≡ effect) (ok-injective h)
      (rw ((==_iff p.memory.count p.memory.count).1 refl) refl)

run_word_lem :
    (fpu : Fpu) (fuel : ℕ) (m : Memory) (k : ℕ) (s : List Value)
    → StackEffect.ins (m.effect_of k) ≡ length s
    → run_word fpu fuel m k s ≡ outcome_result (run fpu m.code_of fuel (m.code_of k) 0 s)
unfolding run_word input_count
run_word_lem fpu fuel m k s e = rw (enough) refl
  where
    enough : leb (StackEffect.ins (m.effect_of k)) (length s) ≡ true
    enough = ground (arith, e)

-- A line is compiled on a stack only if the word has the values on the stack as its declared inputs,
-- each of a type that it allows, and the inputs and outputs are at most eight together. Then `run`
-- does not refuse the word: `eval` runs it from its first instruction on that very stack.
pub compile_line-Accepts :
    (fpu : Fpu) (stod : List ℕ → Conversion) (word_at : ℕ → Word) (instruction_of : ℕ → ℕ)
    (fuel : ℕ) (source : List ℕ) (s : List Value) (p : Program) (w : Stored)
    → compile_line stod word_at instruction_of fuel source s p ≡ ok w
    → Accepts s (inputs (w.program.memory.effect_of w.word))
      × (StackEffect.ins (w.program.memory.effect_of w.word) ≡ length s)
      × (length s + StackEffect.outs (w.program.memory.effect_of w.word) ≤ max_entries)
      × (eval stod word_at instruction_of fuel fpu source s p ≡ (
          outcome_result
            (run fpu w.program.memory.code_of fuel (w.program.memory.code_of w.word) 0 s)
          >>= λ s'. ok (s', w.program)))
unfolding compile_line parse_source from_compiler eval
compile_line-Accepts fpu stod word_at instruction_of fuel source s p w h =
    let (b, set, h₁) = >>=-eq-ok (set_input_stack (reverse s) new_builder) _ h in
    let (valid, a, n, fixed) = set_input_stack-ok s new_builder b set in
    let (q, parsed, h₂) =
      >>=-eq-ok
        (parse_source stod (active_vocabularies p.vocabularies) word_at (λ k. false) (λ k. false)
          fuel source b p.memory)
        _ h₁ in
    let (q', went, h₃) =
      >>=-eq-ok
        (parse stod (active_vocabularies p.vocabularies) word_at (λ k. false) (λ k. false) fuel fuel
          source b p.memory)
        _ parsed in
    let (_, _, h₄) = >>=-eq-ok (guard (length q'.rest == 0) unexpected_delimiter) _ h₃ in
    let same : SameEffect b q.builder =
      subst (λ x. SameEffect b x.builder) (ok-injective h₄)
        (parse_keeps stod (active_vocabularies p.vocabularies) word_at (λ k. false) (λ k. false)
          fuel (λ k. refl) (SameEffect b) (SameEffect-IsKept b) fuel source b p.memory q' went
          (record { effect = refl; inputs = refl; outputs = refl })) in
    let ((code, recursive, effect), made, h₅) =
      >>=-eq-ok (generate_instructions q.memory.effect_of fuel q.builder) _ h₂ in
    let kept =
      generate_instructions-SameInputs q.memory.effect_of fuel q.builder (code, recursive, effect)
        (subst IsValid (sym same.effect) valid) (same.inputs ∙ fixed) made in
    let entries : inputs effect ≡ inputs b.effect = kept.entries ∙ ap inputs same.effect in
    let count : effect.ins ≡ length s =
      sym (length-inputs effect kept.valid) ∙ ap length entries ∙ n in
    let effect_is = construct-unnamed instruction_of effect code recursive _ w h₅ in
    let ins : inputs (w.program.memory.effect_of w.word) ≡ inputs b.effect =
      ap inputs effect_is ∙ entries in
    let counted : StackEffect.ins (w.program.memory.effect_of w.word) ≡ length s =
      ap StackEffect.ins effect_is ∙ count in
    (
      subst (Accepts s) (sym ins) a,
      counted,
      omega (arith, ap StackEffect.outs effect_is, kept.valid.fits, count),
      rw (h, run_word_lem fpu fuel w.program.memory w.word s counted) refl,
    )
