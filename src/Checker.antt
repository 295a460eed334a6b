-- ===== src/Checker.antt =====
-- The stack checker: `computeEffect`, `effectOfIFELSE` and `returnsImmediately` of
-- src/compiler/compiler+stackcheck.hh and compiler.cc. An iterator into `_words` is an index. The
-- field `knownStack` of the instructions is the map `known` of the state, since it is all of them
-- that the checker changes. The calls, whose depth the source does not bound, take fuel.
pub mod Joins
pub mod Inputs
pub mod Applied
pub mod Memo
pub mod Followed
pub mod Sound
pub mod Growth
mod Tests
use mathlib.Core.Bool.{◌||◌}
use tails.Prelude.{
  ℕ, zero, suc, ◌+◌, ◌-◌, ◌≡◌, Bool, true, false, not, ◌&&◌, List, [], ◌∷◌, Option, none, some, max,
  ltb, ◌==◌, if◌then◌else◌, length, drop, get_elem?, get_or, set,
}
use tails.TypeSet.{TypeSet, no_type, any_type, of_type, a_quote, exists, ◌∪◌, ◌∩◌}
use tails.Result.{
  Result, ok, err, ◌>>=◌, ◌>>◌, guard, Error, recurse_needs_effect, recursion_in_inline,
  unknown_effect, ifelse_needs_quotes, ifelse_depths, ifelse_parameter, assertion, out_of_fuel,
}
use tails.StackEffect.{
  StackEffect, inputs, outputs, input_count, add_input, add_output, add_input_at_bottom, with_max,
  with_unknown_max,
}
use tails.Value.{Value, quote}
use tails.EffectStack.{
  EffectStack, depth, max_growth, literal_at, of_inputs, add_effect, add_literal, add_at_bottom,
  merge_with, same_stack, check_outputs,
}
use tails.Word.{Native, Word, native, interpreted, stack_effect}

-- The fields of `SourceWord` that the checker reads: the word, a literal's value and the position
-- that a branch goes to.
pub record SourceWord : Type 0 where
  pub word : Word
  pub param : Value
  pub branch_to : Option ℕ

pub record Checker : Type 0 where
  pub effect : StackEffect
  pub can_add_inputs : Bool
  pub can_add_outputs : Bool
  pub known : ℕ → Option EffectStack

abbrev pub update : (ℕ → Option EffectStack) → ℕ → EffectStack → ℕ → Option EffectStack
update known i s j = if i == j then some s else known j

-- `i->knownStack = curStack`
unfoldable pub remember : ℕ → EffectStack → Checker → Checker
remember i s c = record c { known = update c.known i s }

unfoldable pub returns_immediately : ℕ → List SourceWord → ℕ → Result Bool
returns_immediately zero prog i = err out_of_fuel
returns_immediately (suc fuel) prog i = elim (get_elem? prog i) [
  | none ↦ err assertion
  | some w ↦ elim w.word [
    | native Native.branch ↦ elim w.branch_to [
      | none ↦ err assertion
      | some t ↦ returns_immediately fuel prog t
    ]
    | native Native.ret ↦ ok true
    | _ ↦ ok false
  ]
]

-- `e.inputs()[i] = t` and `e.outputs()[i] = t`
abbrev set_input : ℕ → TypeSet → StackEffect → StackEffect
set_input i t e = record e { entries = set e.entries (e.ins - 1 - i) t }

abbrev set_output : ℕ → TypeSet → StackEffect → StackEffect
set_output i t e = record e { entries = set e.entries (e.ins + e.outs - 1 - i) t }

-- The two loops of `effectOfIFELSE`, over the entries of the second quotation from index i: an
-- entry that the first quotation has too is merged with it, any other is added on top.
unfoldable pub merge_inputs : List TypeSet → ℕ → ℕ → StackEffect → Result StackEffect
merge_inputs [] i n e = ok e
merge_inputs (t ∷ ts) i n e =
    let both = t ∩ get_or (inputs e) i no_type in
    let merged =
      guard (exists both) (ifelse_parameter i) >> merge_inputs ts (i + 1) n (set_input i both e) in
    let added = add_input t e >>= merge_inputs ts (i + 1) n in if ltb i n then merged else added

unfoldable pub merge_outputs : List TypeSet → ℕ → ℕ → StackEffect → Result StackEffect
merge_outputs [] i n e = ok e
merge_outputs (t ∷ ts) i n e =
    let merged = merge_outputs ts (i + 1) n (set_output i (get_or (outputs e) i no_type ∪ t) e) in
    let added = add_output t e >>= merge_outputs ts (i + 1) n in if ltb i n then merged else added

module _ (effects : ℕ → StackEffect) where
  -- `getQuoteEffect(i)`
  unfoldable pub quote_effect : ℕ → EffectStack → Result StackEffect
  quote_effect i s = elim (literal_at i s) [
    | some (quote q) ↦ ok (effects q)
    | _ ↦ err ifelse_needs_quotes
  ]

  unfoldable pub effect_of_ifelse : EffectStack → Result StackEffect
  unfolding quote_effect merge_inputs merge_outputs
  effect_of_ifelse s = do
    a ← quote_effect 1 s
    b ← quote_effect 0 s
    guard (a.outs + b.ins == b.outs + a.ins) ifelse_depths
    e₁ ← merge_inputs (inputs b) 0 a.ins a
    e₂ ← merge_outputs (outputs b) 0 a.outs e₁
    e₃ ← add_input any_type e₂
    e₄ ← add_input (of_type a_quote) e₃
    e₅ ← add_input (of_type a_quote) e₄
    ok (with_max (max a.max_growth b.max_growth - 3) e₅)

-- The loop that makes missing inputs inputs of the code, when they may be added.
unfoldable pub add_missing_inputs :
    List TypeSet → EffectStack → StackEffect → Result (EffectStack × StackEffect)
add_missing_inputs [] s e = ok (s, e)
add_missing_inputs (t ∷ ts) s e = do
  e' ← add_input_at_bottom t e
  add_missing_inputs ts (add_at_bottom t s) e'

-- What follows a RETURN: the outputs are checked, and the growth is recorded.
unfoldable pub at_return : EffectStack → Checker → Result Checker
at_return s c = do
  effect ← check_outputs c.effect c.can_add_outputs s
  ok (record c {
    effect =
        if ltb effect.max_growth (max_growth s) then with_max (max_growth s) effect else effect;
    can_add_outputs = false;
  })

-- The stack to go on with at an instruction that has been reached before, or `none` where that
-- flow of control has been followed.
unfoldable pub join : Option EffectStack → EffectStack → Result (Option EffectStack)
join none s = ok (some s)
join (some k) s = if same_stack k s then ok none else (do s' ← merge_with s k; ok (some s'))

-- Where the flow of control goes after the word at `i`: to the first position, and then, in the
-- same way, to the second.
pub data Next : Type 0 where
  stop : Next
  go : ℕ → Next
  fork : ℕ → ℕ → Next

unfoldable pub next_positions : Word → Option ℕ → ℕ → Result Next
next_positions (native Native.ret) branch_to i = ok stop
next_positions (native Native.branch) (some t) i = ok (go t)
next_positions (native Native.branch) none i = err assertion
next_positions (native Native.zbranch) (some t) i = ok (fork (i + 1) t)
next_positions (native Native.zbranch) none i = err assertion
next_positions _ branch_to i = ok (go (i + 1))

unfoldable pub supply_inputs :
    Bool → List TypeSet → EffectStack → StackEffect → Result (EffectStack × StackEffect)
unfolding add_missing_inputs
supply_inputs true missing s e = add_missing_inputs missing s e
supply_inputs false missing s e = ok (s, e)

module _ (effects : ℕ → StackEffect) (prog : List SourceWord) (inline_word : Bool) where
  -- The effect that a word with no fixed effect makes for itself at `i`.
  unfoldable pub special_effect : Word → ℕ → EffectStack → Checker → Result StackEffect
  special_effect (native Native.recurse) i s c = do
    guard (not (c.can_add_inputs || c.can_add_outputs)) recurse_needs_effect
    tail ← returns_immediately (suc (length prog)) prog (i + 1)
    guard (tail || not inline_word) recursion_in_inline
    ok (if tail then c.effect else with_unknown_max c.effect)
  special_effect (native Native.if_else) i s c = effect_of_ifelse effects s
  special_effect _ i s c = err unknown_effect

  -- `nextEffect`
  unfoldable pub next_effect : Word → ℕ → EffectStack → Checker → Result StackEffect
  unfolding special_effect
  next_effect word i s c =
      if (stack_effect effects word).weird
      then special_effect word i s c
      else ok (stack_effect effects word)

  -- The branch of the source for a word other than a literal.
  unfoldable pub apply_call : Word → ℕ → EffectStack → Checker → Result (EffectStack × Checker)
  apply_call word i s c = do
    e ← next_effect word i s c
    (s', effect) ← supply_inputs c.can_add_inputs (drop (depth s) (inputs e)) s c.effect
    s″ ← add_effect e s'
    ok (s″, record c { effect = effect })

  -- The effect of one instruction, a word with its literal, on the simulated stack.
  unfoldable pub apply_word :
      Word → Value → ℕ → EffectStack → Checker → Result (EffectStack × Checker)
  apply_word (native Native.lit) v i s c = ok (add_literal v s, c)
  apply_word word v i s c = apply_call word i s c

  -- One turn of the loop of `computeEffect(i, curStack)`, in the source's order; `again` stands for
  -- the next turn and for the recursive call.
  module _ (again : ℕ → EffectStack → Checker → Result Checker) where
    unfoldable pub proceed : Next → EffectStack → Checker → Result Checker
    proceed stop s c = at_return s c
    proceed (go j) s c = again j s c
    proceed (fork j k) s c = do c' ← again j s c; again k s c'

    unfoldable pub follow : SourceWord → ℕ → Option EffectStack → Checker → Result Checker
    follow w i none c = ok c
    follow w i (some s) c = do
      (s', c') ← apply_word w.word w.param i s (remember i s c)
      next ← next_positions w.word w.branch_to i
      proceed next s' c'

    unfoldable pub visit : Option SourceWord → ℕ → EffectStack → Checker → Result Checker
    visit none i s c = err assertion
    visit (some w) i s c = do arriving ← join (c.known i) s; follow w i arriving c

  unfoldable pub compute_effect : ℕ → ℕ → EffectStack → Checker → Result Checker
  compute_effect zero i s c = err out_of_fuel
  compute_effect (suc fuel) i s c = visit (compute_effect fuel) (get_elem? prog i) i s c

  -- `computeEffect()`, from the effect that `setStackEffect` has set.
  unfoldable pub compute_effect_from : ℕ → StackEffect → Bool → Bool → Result Checker
  unfolding compute_effect visit follow proceed
  compute_effect_from fuel e ins outs =
      compute_effect fuel 0 (of_inputs e)
        (record { effect = e; can_add_inputs = ins; can_add_outputs = outs; known = λ i. none })
