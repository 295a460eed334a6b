-- ===== src/EffectStack.antt =====
-- The class `Compiler::EffectStack` of src/compiler/compiler+stackcheck.hh: the stack that the
-- checker simulates. The source's vector is kept from the top down, so `at(i)` is element i.
pub mod Fits
pub mod Laws
mod Tests
pub mod Apply
use tails.Prelude.{
  ℕ, ◌+◌, ◌-◌, ◌≡◌, Bool, true, false, not, ◌&&◌, List, [], ◌∷◌, ◌++◌, Option, none, some, map, max,
  ltb, ◌==◌, if◌then◌else◌, length, take, drop, get_elem?, get_or,
}
use tails.TypeSet.{
  ValueType, TypeSet, no_type, of_type, same_types, first_type, input_match, ◌∪◌, ◌∖◌,
}
use tails.Result.{
  Result, ok, err, ◌>>=◌, ◌>>◌, guard, would_underflow, type_mismatch, inconsistent_depth,
  insufficient_outputs, output_mismatch, too_many_outputs,
}
use tails.StackEffect.{
  StackEffect, inputs, outputs, input_count, output_count, add_output_at_bottom,
}
use tails.Value.{Value, type_of, same_value}

-- A `variant<TypeSet, Value>`.
pub data Item : Type 0 where
  types : TypeSet → Item
  literal : Value → Item

pub record EffectStack : Type 0 where
  pub stack : List Item
  pub initial_depth : ℕ
  pub max_depth : ℕ

unfoldable pub item_types : Item → TypeSet
item_types (types s) = s
item_types (literal v) = of_type (type_of v)

-- The variant's `operator==`.
unfoldable pub same_item : Item → Item → Bool
same_item (types s) (types t) = same_types s t
same_item (literal v) (literal w) = same_value v w
same_item _ _ = false

unfoldable pub same_items : List Item → List Item → Bool
same_items [] [] = true
same_items (a ∷ rest) (b ∷ others) = same_item a b && same_items rest others
same_items _ _ = false

-- `operator==` compares the items alone.
unfoldable pub same_stack : EffectStack → EffectStack → Bool
unfolding same_items
same_stack s t = same_items s.stack t.stack

-- The constructor, from the inputs of an effect.
unfoldable pub of_inputs : StackEffect → EffectStack
of_inputs e = record {
  stack = map types (inputs e);
  initial_depth = length (inputs e);
  max_depth = length (inputs e);
}

abbrev pub depth : EffectStack → ℕ
depth s = length s.stack

unfoldable pub max_growth : EffectStack → ℕ
max_growth s = s.max_depth - s.initial_depth

unfoldable pub literal_at : ℕ → EffectStack → Option Value
literal_at i s = elim (get_elem? s.stack i) [ some (literal v) ↦ some v | _ ↦ none ]

-- `typeCheck`: the first type that an item may have and its entry forbids, with its depth, which
-- starts from `i`.
unfoldable pub type_check : List Item → List TypeSet → ℕ → Option (ValueType × ℕ)
type_check items [] i = none
type_check [] (t ∷ ts) i = none
type_check (item ∷ items) (t ∷ ts) i =
    let rest = type_check items ts (i + 1) in
    elim (first_type (item_types item ∖ t)) [ some bad ↦ some (bad, i) | none ↦ rest ]

-- The item that an output leaves: the input that it matches, or its own types.
unfoldable pub output_item : List Item → TypeSet → Item
output_item ins t = elim (input_match t) [ some k ↦ get_or ins k (types no_type) | none ↦ types t ]

-- `add(word, effect)`
unfoldable pub add_effect : StackEffect → EffectStack → Result EffectStack
unfolding output_item type_check
add_effect e s = do
  let n = input_count e
  guard (not (ltb (depth s) n)) would_underflow
  elim (type_check s.stack (inputs e) 0) [
    | some (bad, i) ↦ err (type_mismatch bad i)
    | none ↦ ok (record s {
      stack = map (output_item (take n s.stack)) (outputs e) ++ drop n s.stack;
      max_depth = max s.max_depth (depth s + e.max_growth);
    })
  ]

-- `add(value)`
unfoldable pub add_literal : Value → EffectStack → EffectStack
add_literal v s = record s {
  stack = literal v ∷ s.stack;
  max_depth = max s.max_depth (depth s + 1);
}

unfoldable pub add_at_bottom : TypeSet → EffectStack → EffectStack
add_at_bottom t s = record s {
  stack = s.stack ++ types t ∷ [];
  max_depth = max s.max_depth (depth s + 1);
}

unfoldable pub merge_item : Item → Item → Item
merge_item mine other =
    if same_item other mine then mine else types (item_types mine ∪ item_types other)

unfoldable pub merge_items : List Item → List Item → List Item
unfolding merge_item
merge_items [] _ = []
merge_items (a ∷ rest) [] = a ∷ rest
merge_items (a ∷ rest) (b ∷ others) = merge_item a b ∷ merge_items rest others

unfoldable pub merge_with : EffectStack → EffectStack → Result EffectStack
unfolding merge_items
merge_with s other = do
  guard (depth s == depth other) inconsistent_depth
  ok (record s { stack = merge_items s.stack other.stack })

-- The last loop of `checkOutputs`, over the items below the declared outputs.
unfoldable pub add_extra_outputs : List Item → Bool → StackEffect → Result StackEffect
add_extra_outputs [] can_add e = ok e
add_extra_outputs (item ∷ items) can_add e = do
  guard can_add too_many_outputs
  e' ← add_output_at_bottom (item_types item) e
  add_extra_outputs items can_add e'

unfoldable pub check_outputs : StackEffect → Bool → EffectStack → Result StackEffect
unfolding add_extra_outputs type_check
check_outputs e can_add s = do
  let n = output_count e
  guard (not (ltb (depth s) n)) insufficient_outputs
  elim (type_check s.stack (outputs e) 0) [
    | some (bad, i) ↦ err (output_mismatch bad i)
    | none ↦ add_extra_outputs (drop n s.stack) can_add e
  ]
