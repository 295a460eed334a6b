-- ===== src/Repl/Laws.antt =====
-- What a line does when the stack is large, and when it is refused.
use tails.Prelude.{
  ℕ, zero, suc, ◌+◌, ◌≤◌, ◌<◌, ◌≡◌, refl, sym, ap, ◌∙◌, subst, inl, inr, false, true, List, [], ◌∷◌,
  ◌++◌, arith, length, take, drop, reverse, ltb, Bool-cases, ltb→lt, length-reverse,
}
use tails.TypeSet.{TypeSet, exists, of_type}
use tails.Result.{Result, ok, err, ok-injective, ◌>>=◌, Error, too_many_entries}
use tails.StackEffect.{StackEffect, empty_effect, max_entries, add_input, insert, check_not_full}
use tails.StackEffect.Laws.{IsValid, add_input_lem}
use tails.Value.{Value, type_of}
use tails.Value.Arithmetic.{Fpu}
use tails.Word.{Word}
use tails.Builder.{Builder, new_builder, set_input_stack, add_inputs}
use tails.Token.{Conversion}
use tails.Repl.{
  compile_line, eval, is_compile_error, caught, Session, take_line, clear_stack, spaces, show,
  reported,
}
use tails.Repl.Compiled.{type-exists, empty-IsValid}

length-spaces : (n : ℕ) → length (spaces n) ≡ n
length-spaces zero = refl
length-spaces (suc n) = ap suc (length-spaces n)

add_input-full :
    (v : Value) (e : StackEffect)
    → max_entries ≤ e.ins + e.outs
    → add_input (of_type (type_of v)) e ≡ err too_many_entries
unfolding add_input insert check_not_full
add_input-full v e full = rw (type-exists (type_of v), none_left) refl
  where
    none_left : ltb (e.ins + e.outs) max_entries ≡ false
    none_left = ground (arith, full)

add_input-counts :
    (t : TypeSet) (e f : StackEffect)
    → exists t ≡ true
    → ltb (e.ins + e.outs) max_entries ≡ true
    → add_input t e ≡ ok f
    → f.ins + f.outs ≡ suc (e.ins + e.outs)
unfolding add_input insert check_not_full
add_input-counts t e f x room h =
    let made : add_input t e
        ≡ ok (record e {
          entries = take e.ins e.entries ++ t ∷ drop e.ins e.entries;
          ins = e.ins + 1;
        }) =
      rw (x, room) refl in
    subst (λ y. y.ins + y.outs ≡ suc (e.ins + e.outs)) (ok-injective (sym made ∙ h)) (omega arith)

-- How many values can be inputs.
add_inputs-cases :
    (vs : List Value) (e : StackEffect)
    → IsValid e
    → (max_entries < length vs + (e.ins + e.outs) → add_inputs vs e ≡ err too_many_entries)
      × (length vs + (e.ins + e.outs) ≤ max_entries
          → (e' : StackEffect) × (add_inputs vs e ≡ ok e'))
unfolding add_inputs
add_inputs-cases [] e v = (λ h. absurd (omega (arith, h, v.fits)), λ h. (e, refl))
add_inputs-cases (x ∷ vs) e v = elim (Bool-cases (ltb (e.ins + e.outs) max_entries)) [
  | inl room ↦
      let t = of_type (type_of x) in
      let lt = ltb→lt (e.ins + e.outs) max_entries room in
      let (f, p, _, _, valid) = add_input_lem t e v (type-exists (type_of x)) lt in
      let one_more = add_input-counts t e f (type-exists (type_of x)) room p in
      let (full, fits) = add_inputs-cases vs f valid in
      (
        λ h. ap (λ r. r >>= add_inputs vs) p ∙ full (omega (arith, h, one_more)),
        λ h.
            let (e', q) = fits (omega (arith, h, one_more)) in
            (e', ap (λ r. r >>= add_inputs vs) p ∙ q),
      )
  | inr none_left ↦
      let full : max_entries ≤ e.ins + e.outs = ground (arith, none_left) in
      (
        λ h. ap (λ r. r >>= add_inputs vs) (add_input-full x e full),
        λ h. absurd (omega (arith, h, full)),
      )
]

set_input_stack-cases :
    (s : List Value) (b : Builder)
    → (max_entries < length s → set_input_stack (reverse s) b ≡ err too_many_entries)
      × (length s ≤ max_entries → (b' : Builder) × (set_input_stack (reverse s) b ≡ ok b'))
unfolding set_input_stack
set_input_stack-cases s b =
    let (full, fits) = add_inputs-cases (reverse s) empty_effect empty-IsValid in
    let same = length-reverse s in
    let next : StackEffect → Result Builder =
      λ e. ok (record b { effect = e; can_add_inputs = false; can_add_outputs = true }) in
    (
      λ h. ap (λ r. r >>= next) (full (omega (arith, h, same))),
      λ h.
          let (e, p) = fits (omega (arith, h, same)) in
          (
            record b { effect = e; can_add_inputs = false; can_add_outputs = true },
            ap (λ r. r >>= next) p,
          ),
    )

clear_stack_lem :
    (s : List Value) (session : Session)
    → session.stack ≡ s
    → ((clear_stack session).stack ≡ []) × ((clear_stack session).program ≡ session.program)
unfolding clear_stack
clear_stack_lem [] session e = (rw (e) refl, rw (e) refl)
clear_stack_lem (v ∷ s) session e = (rw (e) refl, rw (e) refl)

module _ (fpu : Fpu) (number_text : ℕ → List ℕ) (stod : List ℕ → Conversion) (word_at : ℕ → Word)
    (instruction_of : ℕ → ℕ) (fuel : ℕ) where
  -- With more than eight values on the stack, any line but an empty one ends the program with an
  -- exception that is not caught, whatever the line says; with at most eight, its values are taken as
  -- inputs. When a line is refused with a compile_error, the stack, the words and the vocabularies
  -- are as before, and the error is shown. An empty line leaves the empty stack and the same words
  -- and vocabularies.
  pub take_line-cases :
      (c : ℕ) (line : List ℕ) (session : Session)
      → (max_entries < length session.stack
          → take_line fpu number_text stod word_at instruction_of fuel (c ∷ line) session
            ≡ err too_many_entries)
        × (length session.stack ≤ max_entries
            → (b : Builder) × (set_input_stack (reverse session.stack) new_builder ≡ ok b))
        × ((e : Error)
            → eval stod word_at instruction_of fuel fpu (c ∷ line) session.stack session.program
              ≡ err e
            → is_compile_error e ≡ true
            → (after : Session) × (take_line fpu number_text stod word_at instruction_of fuel
                  (c ∷ line)
                  session
                ≡ ok after)
              × (after.stack ≡ session.stack)
              × (after.program ≡ session.program)
              × (after.shown ≡ session.shown ++ reported e ∷ []))
        × ((after : Session) × (take_line fpu number_text stod word_at instruction_of fuel []
                session
              ≡ ok after)
            × (after.stack ≡ [])
            × (after.program ≡ session.program))
  unfolding take_line caught eval compile_line
  take_line-cases c line session =
      let (full, fits) = set_input_stack-cases session.stack new_builder in
      (
        λ h. rw (full h) (unfold is_compile_error in refl),
        fits,
        λ e h x. (show (reported e) session, rw (h, x) refl, refl, refl, refl),
        (clear_stack session, refl, cleared.0, cleared.1),
      )
    where
      cleared :
          ((clear_stack session).stack ≡ []) × ((clear_stack session).program ≡ session.program)
      cleared = clear_stack_lem session.stack session refl
