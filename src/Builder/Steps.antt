-- ===== src/Builder/Steps.antt =====
-- All ways in which a word is put together, and what every step of the parser keeps.
use tails.Prelude.{ℕ, ◌+◌, ◌≤◌, ◌<◌, ◌≡◌, ◌≢◌, ◌⊎◌, Bool, false, List, [], ◌∷◌, none, length}
use tails.Result.{ok}
use tails.StackEffect.{StackEffect}
use tails.Value.{Value}
use tails.Word.{Native, native}
use tails.Checker.{SourceWord}
use tails.Codegen.{parameters_of}
use tails.Builder.{
  Builder, Identifier, new_builder, set_stack_effect, set_inline, set_input_stack, add, add_recurse,
  match_begin, matches, parse_if, parse_else, parse_then, parse_begin, parse_while, parse_repeat,
}
use tails.Builder.Built.{Built, has_target}

-- The word at `i` is on the control stack, and not as a BEGIN.
abbrev pub Waiting : ℕ → List (Identifier × ℕ) → Type 0
Waiting i [] = ⊥
Waiting i ((k, j) ∷ control) = ((matches match_begin k ≡ false) × (j ≡ i)) ⊎ Waiting i control

-- The positions on the control stack are in the list, and only BEGIN's is that of the placeholder.
abbrev pub Positions : ℕ → List (Identifier × ℕ) → Type 0
Positions n [] = Unit
Positions n ((k, j) ∷ control) =
    (j < n) × (matches match_begin k ≡ false → j + 1 < n) × Positions n control

pub record IsBuilder (b : Builder) : Type 0 where
  pub built : Built (λ i. Waiting i b.control) b
  pub positions : Positions (length b.words) b.control

-- A word that the parser adds by itself: no branch, no RETURN, and with at most one parameter.
abbrev pub IsPlain : SourceWord → Type 0
IsPlain w =
    (w.branch_to ≡ none)
    × (has_target w.word ≡ false)
    × (w.word ≢ native Native.ret)
    × (parameters_of w.word ≤ 1)

-- The objects that a compilation goes through.
pub data Compiles : Builder → Type 0 where
  created : Compiles new_builder
  declared :
      {b : Builder} (e : StackEffect) (ins outs : Bool)
      → Compiles b
      → Compiles (set_stack_effect e ins outs b)
  inlined : {b : Builder} → Compiles b → Compiles (set_inline b)
  stacked :
      {b b' : Builder} (vs : List Value) → Compiles b → set_input_stack vs b ≡ ok b' → Compiles b'
  added : {b : Builder} (w : SourceWord) → Compiles b → IsPlain w → Compiles (add w b)
  recursed : {b : Builder} → Compiles b → Compiles (add_recurse b)
  at_if : {b : Builder} → Compiles b → Compiles (parse_if b)
  at_else : {b b' : Builder} → Compiles b → parse_else b ≡ ok b' → Compiles b'
  at_then : {b b' : Builder} → Compiles b → parse_then b ≡ ok b' → Compiles b'
  at_begin : {b : Builder} → Compiles b → Compiles (parse_begin b)
  at_while : {b b' : Builder} → Compiles b → parse_while b ≡ ok b' → Compiles b'
  at_repeat : {b b' : Builder} → Compiles b → parse_repeat b ≡ ok b' → Compiles b'

-- What every step of the parser keeps.
pub record IsKept (P : Builder → Type 0) : Type 0 where
  pub added : {b : Builder} (w : SourceWord) → P b → IsPlain w → P (add w b)
  pub recursed : {b : Builder} → P b → P (add_recurse b)
  pub at_if : {b : Builder} → P b → P (parse_if b)
  pub at_else : {b b' : Builder} → P b → parse_else b ≡ ok b' → P b'
  pub at_then : {b b' : Builder} → P b → parse_then b ≡ ok b' → P b'
  pub at_begin : {b : Builder} → P b → P (parse_begin b)
  pub at_while : {b b' : Builder} → P b → parse_while b ≡ ok b' → P b'
  pub at_repeat : {b b' : Builder} → P b → parse_repeat b ≡ ok b' → P b'

pub Compiles-IsKept : IsKept Compiles
Compiles-IsKept = record {
  added = λ w c plain. Compiles.added w c plain;
  recursed = λ c. Compiles.recursed c;
  at_if = λ c. Compiles.at_if c;
  at_else = λ c e. Compiles.at_else c e;
  at_then = λ c e. Compiles.at_then c e;
  at_begin = λ c. Compiles.at_begin c;
  at_while = λ c e. Compiles.at_while c e;
  at_repeat = λ c e. Compiles.at_repeat c e;
}
