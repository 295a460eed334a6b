-- ===== src/Disassembler.antt =====
-- The disassembler of src/compiler/disassembler.hh on the code of a word. `registered` tells which
-- compiled words the active vocabularies hold; they hold all core words. The bits of a parameter are
-- taken to be no word's instruction.
pub mod Inverse
mod Tests
use tails.Prelude.{
  ℕ, zero, suc, Bool, true, false, List, [], ◌∷◌, Option, none, some, ◌==◌, if◌then◌else◌,
}
use tails.Result.{Result, ok, err, ◌>>=◌, unknown_instruction, invalid_access, out_of_fuel}
use tails.Word.{Native, Word, native, interpreted, parameters, param_kind, word_param}
use tails.Vm.{Instruction, op, word, offset, literal}

-- `WordRef`, with the parameter if the word has one.
pub record WordRef : Type 0 where
  pub word : Word
  pub param : Option Instruction

module _ (registered : ℕ → Bool) where
  -- `activeVocabularies.lookup(instruction)`
  unfoldable pub lookup_word : Instruction → Option Word
  lookup_word (op n) = some (native n)
  lookup_word (word k) = if registered k then some (interpreted k) else none
  lookup_word (offset o) = none
  lookup_word (literal v) = none

  abbrev pub has_word_params : Word → Bool
  has_word_params (native n) = elim (param_kind n) [ word_param ↦ true | _ ↦ false ]
  has_word_params (interpreted k) = false

  abbrev pub param_count : Word → ℕ
  param_count (native n) = parameters n
  param_count (interpreted k) = 0

  -- The parameter of the word, or none, and the rest of the code.
  unfoldable pub with_param : Word → List Instruction → Result (WordRef × List Instruction)
  with_param w [] =
      if param_count w == 0 then ok (record { word = w; param = none }, []) else err invalid_access
  with_param w (i ∷ code) =
      if param_count w == 0
      then ok (record { word = w; param = none }, i ∷ code)
      else ok (record { word = w; param = some i }, code)

  abbrev pub found : Option Word → List Instruction → Result (WordRef × List Instruction)
  found none code = err unknown_instruction
  found (some w) code = with_param w code

  abbrev pub after_interp : Bool → Word → List Instruction → Result (WordRef × List Instruction)
  after_interp false w code = with_param w code
  after_interp true w [] = err invalid_access
  after_interp true w (i ∷ code) = found (lookup_word i) code

  -- `next()`, where `_literal` is not set.
  unfoldable pub next : List Instruction → Result (WordRef × List Instruction)
  unfolding lookup_word with_param
  next [] = err invalid_access
  next (i ∷ code) = elim (lookup_word i) [
    | some w ↦ after_interp (has_word_params w) w code
    | none ↦ err unknown_instruction
  ]

  abbrev pub is_return : Word → Bool
  is_return (native Native.ret) = true
  is_return _ = false

  -- The words up to RETURN, as the loops of `addInline` and `disassembleWord` read them.
  unfoldable pub words_of : ℕ → List Instruction → Result (List WordRef)
  unfolding next
  words_of zero code = err out_of_fuel
  words_of (suc fuel) code = do
    (ref, rest) ← next code
    let others = words_of fuel rest
    if is_return ref.word then ok [] else (do refs ← others; ok (ref ∷ refs))
