-- ===== src/Vm/Words.antt =====
-- The interpreted words of src/core/core_words.cc: ABS, MAX and MIN, whose macro ends each with
-- RETURN.
pub mod Laws
use tails.Prelude.{List, [], ◌∷◌}
use tails.Prelude.Int.{pos}
use tails.Word.{Native}
use tails.Vm.{Instruction, op, offset}

unfoldable pub abs_code : List Instruction
abs_code =
    op Native.dup
    ∷ op Native.lt_zero
    ∷ op Native.zbranch
    ∷ offset (pos 3)
    ∷ op Native.push_zero
    ∷ op Native.swap
    ∷ op Native.minus
    ∷ op Native.ret
    ∷ []

-- MAX and MIN differ in the comparison alone.
abbrev pub choose : Native → List Instruction
choose n =
    op Native.over
    ∷ op Native.over
    ∷ op n
    ∷ op Native.zbranch
    ∷ offset (pos 1)
    ∷ op Native.swap
    ∷ op Native.drop
    ∷ op Native.ret
    ∷ []

unfoldable pub max_code : List Instruction
max_code = choose Native.lt

unfoldable pub min_code : List Instruction
min_code = choose Native.gt
