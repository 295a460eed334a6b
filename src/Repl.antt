-- ===== src/Repl.antt =====
-- src/repl.cc: the evaluation of a line of source code on the stack that the lines before it have
-- left, and the loop of `main`. The vocabularies and the compiled words are passed from line to line.
-- The words that print are not among the words of the interpreter, so that `endLine` has nothing to
-- do, and the collection after a line is in Gc. What `main` shows is a list of texts and errors; of
-- an error the kind is kept. An exception that `main` does not catch ends the program with that
-- error. The stack has room for as many values as a word wants.
pub mod Compiled
pub mod Laws
mod Tests
use tails.Prelude.{
  ℕ, zero, suc, ◌+◌, ◌-◌, Bool, true, false, List, [], ◌∷◌, ◌++◌, Option, none, some, reverse, min,
  leb, length, drop, if◌then◌else◌,
}
use tails.Result.{
  Result, ok, err, ◌>>=◌, ◌>>◌, guard, Error, too_many_entries, unknown_symbol, invalid_separator,
  missing_separator, would_underflow, unknown_instruction, assertion, invalid_access, out_of_fuel,
}
use tails.StackEffect.{StackEffect, input_count, empty_effect}
use tails.Value.{Value}
use tails.Value.Arithmetic.{Fpu}
use tails.Word.{Word}
use tails.Vm.{Instruction, Outcome}
use tails.Vm.Run.{run}
use tails.Builder.{new_builder, set_input_stack}
use tails.Vocabulary.{Vocabulary}
use tails.Vocabulary.Active.{
  Vocabularies, only_core, create, activate, set_current, active_vocabularies,
}
use tails.Parser.{Memory, parse_source}
use tails.Token.{Conversion}
use tails.CompiledWord.{Program, Stored, from_compiler}
use tails.Output.{value_text}

-- What the interpreter's run gives; what C++ leaves undefined is an error too.
abbrev pub outcome_result : Outcome → Result (List Value)
outcome_result (Outcome.done s) = ok s
outcome_result Outcome.fault = err invalid_access
outcome_result Outcome.out_of_fuel = err out_of_fuel

-- `run`, on a word of the memory.
unfoldable pub run_word : Fpu → ℕ → Memory → ℕ → List Value → Result (List Value)
unfolding run input_count
run_word fpu fuel m k s = do
  guard (leb (input_count (m.effect_of k)) (length s)) would_underflow
  outcome_result (run fpu m.code_of fuel (m.code_of k) 0 s)

-- The errors that are a `compile_error`, which `main` catches.
unfoldable pub is_compile_error : Error → Bool
is_compile_error too_many_entries = false
is_compile_error unknown_symbol = false
is_compile_error invalid_separator = false
is_compile_error missing_separator = false
is_compile_error unknown_instruction = false
is_compile_error assertion = false
is_compile_error invalid_access = false
is_compile_error out_of_fuel = false
is_compile_error _ = true

abbrev pub spaces : ℕ → List ℕ
spaces zero = []
spaces (suc n) = b' ' ∷ spaces n

-- `kPromptIndent`
abbrev pub prompt_indent : ℕ
prompt_indent = 40

-- `print(const string&)`
unfoldable pub right_justified : List ℕ → List ℕ
right_justified text =
    let len = min (length text) prompt_indent in
    spaces (prompt_indent - len) ++ drop (length text - len) text

-- What `main` shows: the stack or the message that it is cleared, or an error.
pub data Shown : Type 0 where
  printed : List ℕ → Shown
  reported : Error → Shown

pub record Session : Type 0 where
  pub stack : List Value
  pub program : Program
  pub shown : List Shown

abbrev pub show : Shown → Session → Session
show x session = record session { shown = session.shown ++ x ∷ [] }

-- "Cleared stack."
abbrev cleared_stack : List ℕ
cleared_stack =
    b'C' ∷ b'l' ∷ b'e' ∷ b'a' ∷ b'r' ∷ b'e' ∷ b'd' ∷ b' ' ∷ b's' ∷ b't' ∷ b'a' ∷ b'c' ∷ b'k' ∷ b'.'
    ∷ []

module _ (stod : List ℕ → Conversion) (word_at : ℕ → Word) (instruction_of : ℕ → ℕ) (fuel : ℕ) where
  -- The first three statements of `eval`. No word of the program is inline, since nothing calls
  -- `setInline`.
  unfoldable pub compile_line : List ℕ → List Value → Program → Result Stored
  unfolding set_input_stack new_builder parse_source from_compiler active_vocabularies
  compile_line source s p = do
    b ← set_input_stack (reverse s) new_builder
    q ←
        parse_source stod (active_vocabularies p.vocabularies) word_at (λ k. false) (λ k. false)
          fuel source b p.memory
    from_compiler instruction_of fuel [] q.builder (record p { memory = q.memory })

  -- `eval`
  unfoldable pub eval : Fpu → List ℕ → List Value → Program → Result (List Value × Program)
  unfolding compile_line run_word
  eval fpu source s p = do
    w ← compile_line source s p
    s' ← run_word fpu fuel w.program.memory w.word s
    ok (s', w.program)

-- The empty line. The message is shown when there was nothing to clear.
unfoldable pub clear_stack : Session → Session
unfolding right_justified
clear_stack session = elim session.stack [
  | [] ↦ show (printed (right_justified cleared_stack)) session
  | _ ∷ _ ↦ record session { stack = [] }
]

-- The `try` and its `catch`.
unfoldable pub caught : Result (List Value × Program) → Session → Result Session
unfolding is_compile_error
caught (ok (s, p)) session = ok (record session { stack = s; program = p })
caught (err e) session = if is_compile_error e then ok (show (reported e) session) else err e

module _ (number_text : ℕ → List ℕ) where
  -- `print(const Stack&)`, from the bottom of the stack.
  unfoldable pub stack_text : (ℕ → StackEffect) → List Value → Result (List ℕ)
  unfolding value_text
  stack_text effects [] = ok []
  stack_text effects (v ∷ vs) =
      let rest = stack_text effects vs in
      elim (value_text number_text effects v) [
        | none ↦ err invalid_access
        | some text ↦ rest >>= λ more. ok (text ++ b' ' ∷ more)
      ]

  unfoldable pub show_stack : Session → Result Session
  unfolding stack_text right_justified
  show_stack session = do
    text ← stack_text session.program.memory.effect_of (reverse session.stack)
    ok (show (printed (right_justified text)) session)

module _ (fpu : Fpu) (number_text : ℕ → List ℕ) (stod : List ℕ → Conversion) (word_at : ℕ → Word)
    (instruction_of : ℕ → ℕ) (fuel : ℕ) where
  unfoldable pub take_line : List ℕ → Session → Result Session
  unfolding clear_stack eval caught
  take_line [] session = ok (clear_stack session)
  take_line (c ∷ line) session =
      caught (eval stod word_at instruction_of fuel fpu (c ∷ line) session.stack session.program)
        session

  -- The loop of `main`, to the end of the input.
  unfoldable pub take_lines : List (List ℕ) → Session → Result Session
  unfolding show_stack take_line
  take_lines [] session = show_stack number_text session
  take_lines (line ∷ lines) session = do
    shown ← show_stack number_text session
    next ← take_line line shown
    take_lines lines next

  -- `main`, with the vocabularies of the core words and of the words that print.
  unfoldable pub main_loop : Vocabulary → Vocabulary → List (List ℕ) → Result Session
  unfolding take_lines only_core create activate set_current
  main_loop core more lines = take_lines lines (record {
    stack = [];
    program = record {
      memory = record {
        count = 0;
        code_of = λ k. [];
        effect_of = λ k. empty_effect;
        is_recursive = λ k. false;
      };
      vocabularies = set_current (some 1) (activate 1 (create more (only_core core)));
    };
    shown = [];
  })
