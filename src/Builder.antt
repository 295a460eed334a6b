-- ===== src/Builder.antt =====
-- The `Compiler` object of src/compiler/compiler.cc while a word is compiled: the list `_words` with
-- its placeholder NOP at the end, the flags `isBranchDestination`, the declared effect, and the
-- control stack of the words IF to REPEAT, which Compiler::parse of src/compiler/parser.cc compiles.
-- An iterator is an index, and the control stack is a list with its top first.
pub mod Built
pub mod Targets
pub mod Steps
pub mod Branches
pub mod Control
pub mod Effect
pub mod Finish
pub mod Runs
mod Tests
use tails.Prelude.{
  ℕ, zero, suc, ◌+◌, ◌-◌, Bool, true, false, ◌||◌, List, [], ◌∷◌, ◌++◌, Option, none, some, ◌==◌,
  if◌then◌else◌, length, get_elem?, set,
}
use tails.Result.{
  Result, ok, err, ◌>>=◌, ◌>>◌, guard, no_matching_branch, no_matching_begin, unfinished_control,
  assertion,
}
use tails.TypeSet.{of_type}
use tails.StackEffect.{StackEffect, empty_effect, add_input}
use tails.Value.{Value, null, type_of}
use tails.Word.{Native, Word, native}
use tails.Checker.{SourceWord, compute_effect_from}
use tails.Vm.{Instruction}
use tails.Codegen.{at, generate}

-- The identifiers 'i', 'e', 'b' and 'w' of the control stack.
pub data Identifier : Type 0 where
  of_if of_else of_begin of_while : Identifier

pub record Builder : Type 0 where
  pub words : List SourceWord
  pub is_destination : ℕ → Bool
  pub effect : StackEffect
  pub can_add_inputs : Bool
  pub can_add_outputs : Bool
  pub inline_word : Bool
  pub control : List (Identifier × ℕ)

abbrev pub simple_word : Word → Value → SourceWord
simple_word w v = record { word = w; param = v; branch_to = none }

abbrev pub placeholder : SourceWord
placeholder = simple_word (native Native.nop) null

unfoldable pub new_builder : Builder
new_builder = record {
  words = placeholder ∷ [];
  is_destination = λ i. false;
  effect = empty_effect;
  can_add_inputs = true;
  can_add_outputs = true;
  inline_word = false;
  control = [];
}

unfoldable pub set_stack_effect : StackEffect → Bool → Bool → Builder → Builder
set_stack_effect e ins outs b = record b {
  effect = e;
  can_add_inputs = ins;
  can_add_outputs = outs;
}

unfoldable pub set_inline : Builder → Builder
set_inline b = record b { inline_word = true }

unfoldable pub add_inputs : List Value → StackEffect → Result StackEffect
add_inputs [] e = ok e
add_inputs (v ∷ vs) e = do e' ← add_input (of_type (type_of v)) e; add_inputs vs e'

-- `setInputStack`, from a stack with its bottom first.
unfoldable pub set_input_stack : List Value → Builder → Result Builder
unfolding add_inputs
set_input_stack vs b = do
  e ← add_inputs vs empty_effect
  ok (record b { effect = e; can_add_inputs = false; can_add_outputs = true })

-- `prev(_words.end())`
abbrev pub last : Builder → ℕ
last b = length b.words - 1

unfoldable pub add : SourceWord → Builder → Builder
add w b = record b { words = set b.words (last b) w ++ placeholder ∷ [] }

unfoldable pub branches_to : ℕ → ℕ → Builder → Builder
branches_to i t b = elim (get_elem? b.words i) [
  | some w ↦ record b {
    words = set b.words i (record w { branch_to = some t });
    is_destination = at b.is_destination t true;
  }
  | none ↦ b
]

unfoldable pub add_recurse : Builder → Builder
unfolding add branches_to
add_recurse b = branches_to (last b) 0 (add (simple_word (native Native.recurse) null) b)

unfoldable pub add_branch_back_to : ℕ → Builder → Builder
unfolding add branches_to
add_branch_back_to t b = branches_to (last b) t (add (simple_word (native Native.branch) null) b)

unfoldable pub fix_branch : ℕ → Builder → Builder
unfolding branches_to
fix_branch i b = branches_to i (last b) b

abbrev pub push_control : Identifier → ℕ → Builder → Builder
push_control k i b = record b { control = (k, i) ∷ b.control }

-- `pushBranch` with a branch word, and without one.
unfoldable pub push_branch : Identifier → Native → Builder → Builder
unfolding add
push_branch k n b = push_control k (last b) (add (simple_word (native n) null) b)

unfoldable pub push_position : Identifier → Builder → Builder
push_position k b = push_control k (last b) b

-- The parameter `matching` of `popBranch`: "i", "ie", "b" or "w".
pub data Matching : Type 0 where
  match_if match_if_else match_begin match_while : Matching

abbrev pub matches : Matching → Identifier → Bool
matches match_if of_if = true
matches match_if_else of_if = true
matches match_if_else of_else = true
matches match_begin of_begin = true
matches match_while of_while = true
matches _ _ = false

unfoldable pub pop_control : Matching → List (Identifier × ℕ) → Result (ℕ × List (Identifier × ℕ))
pop_control m [] = err no_matching_branch
pop_control m ((k, i) ∷ control) = guard (matches m k) no_matching_branch >> ok (i, control)

unfoldable pub pop_branch : Matching → Builder → Result (ℕ × Builder)
unfolding pop_control
pop_branch m b = do (i, control) ← pop_control m b.control; ok (i, record b { control = control })

-- The control words of `Compiler::parse`.
unfoldable pub parse_if : Builder → Builder
unfolding push_branch
parse_if b = push_branch of_if Native.zbranch b

unfoldable pub parse_else : Builder → Result Builder
unfolding pop_branch push_branch fix_branch
parse_else b = do
  (i, b') ← pop_branch match_if b
  ok (fix_branch i (push_branch of_else Native.branch b'))

unfoldable pub parse_then : Builder → Result Builder
unfolding pop_branch fix_branch
parse_then b = do (i, b') ← pop_branch match_if_else b; ok (fix_branch i b')

unfoldable pub parse_begin : Builder → Builder
unfolding push_position
parse_begin b = push_position of_begin b

abbrev pub top_is_begin : List (Identifier × ℕ) → Bool
top_is_begin [] = false
top_is_begin ((k, i) ∷ control) = matches match_begin k

unfoldable pub parse_while : Builder → Result Builder
unfolding push_branch
parse_while b =
    guard (top_is_begin b.control) no_matching_begin >> ok (push_branch of_while Native.zbranch b)

unfoldable pub parse_repeat : Builder → Result Builder
unfolding pop_branch add_branch_back_to fix_branch
parse_repeat b = do
  (i, b₁) ← pop_branch match_while b
  (t, b₂) ← pop_branch match_begin b₁
  ok (fix_branch i (add_branch_back_to t b₂))

-- The first half of `generateInstructions`: RETURN takes the place of NOP, in a new `SourceWord`,
-- so that its flag is false.
abbrev pub return_word : SourceWord
return_word = simple_word (native Native.ret) null

abbrev pub is_empty : List (Identifier × ℕ) → Bool
is_empty [] = true
is_empty (c ∷ control) = false

abbrev pub is_nop : Word → Bool
is_nop (native Native.nop) = true
is_nop _ = false

abbrev pub ends_in_nop : Option SourceWord → Bool
ends_in_nop none = false
ends_in_nop (some w) = is_nop w.word

unfoldable pub end_words : Builder → Builder
end_words b = record b {
  words = set b.words (last b) return_word;
  is_destination = at b.is_destination (last b) false;
}

module _ (effects : ℕ → StackEffect) where
  -- `generateInstructions`, with the stack check, and then the effect of the word.
  unfoldable pub generate_instructions :
      ℕ → Builder → Result (List Instruction × Bool × StackEffect)
  unfolding end_words compute_effect_from generate
  generate_instructions fuel b = do
    guard (is_empty b.control) unfinished_control
    guard (ends_in_nop (get_elem? b.words (last b))) assertion
    let b' = end_words b
    c ←
        compute_effect_from effects b'.words b'.inline_word fuel b'.effect b'.can_add_inputs
          b'.can_add_outputs
    (instrs, recursive) ← generate fuel b'.is_destination b'.words
    ok (instrs, recursive, c.effect)
