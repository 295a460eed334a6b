-- ===== src/CompiledWord.antt =====
-- The class `CompiledWord` of src/compiler/compiler.cc: its three constructors, which register a
-- word that has a name, and the word DEFINE. A word is its number in the memory of the parser, and
-- `instruction_of` is the address of its first instruction.
pub mod Laws
mod Tests
use tails.Prelude.{ℕ, ◌+◌, Bool, List, [], ◌∷◌}
use tails.Result.{Result, ok, err, ◌>>=◌, invalid_access}
use tails.StackEffect.{StackEffect}
use tails.Value.{Value, string, quote}
use tails.Vm.{Instruction}
use tails.Builder.{Builder, generate_instructions}
use tails.Vocabulary.{NamedWord, upper}
use tails.Vocabulary.Active.{Vocabularies, add_current}
use tails.Parser.{Memory, store_word}

-- The words that have been compiled and the vocabularies.
pub record Program : Type 0 where
  pub memory : Memory
  pub vocabularies : Vocabularies

pub record Stored : Type 0 where
  pub word : ℕ
  pub program : Program

module _ (instruction_of : ℕ → ℕ) where
  -- The registration: `activeVocabularies.current()->add(*this)` of a word that has a name.
  unfoldable pub register : List ℕ → ℕ → Vocabularies → Result Vocabularies
  unfolding add_current
  register [] k vs = ok vs
  register (c ∷ name) k vs =
      add_current (record { name = c ∷ name; instruction = instruction_of k }) vs

  -- The constructor from a name, an effect and instructions, and the flag that the other two set.
  unfoldable pub construct :
      List ℕ → StackEffect → List Instruction → Bool → Program → Result Stored
  unfolding register upper store_word
  construct name effect instrs recursive p = do
    vs ← register (upper name) p.memory.count p.vocabularies
    ok (record {
      word = p.memory.count;
      program = record { memory = store_word instrs recursive effect p.memory; vocabularies = vs };
    })

  -- `CompiledWord(Compiler&&)`
  unfoldable pub from_compiler : ℕ → List ℕ → Builder → Program → Result Stored
  unfolding generate_instructions construct
  from_compiler fuel name b p = do
    (code, recursive, effect) ← generate_instructions p.memory.effect_of fuel b
    construct name effect code recursive p

  -- `CompiledWord(const CompiledWord&, string&&)`
  unfoldable pub with_name : ℕ → List ℕ → Program → Result Stored
  unfolding construct
  with_name q name p =
      construct name (p.memory.effect_of q) (p.memory.code_of q) (p.memory.is_recursive q) p

  -- DEFINE, with the name on top of the stack. Of other values C++ reads a null pointer.
  unfoldable pub define : List Value → Program → Result (List Value × Program)
  unfolding with_name
  define (string name ∷ quote q ∷ s) p = do w ← with_name q name p; ok (s, w.program)
  define _ p = err invalid_access
