-- ===== src/Codegen/Tests.antt =====
-- A word that calls another one and then itself, until its argument is zero.
use tails.Prelude.{ℕ, ◌≡◌, refl, Bool, false, List, [], ◌∷◌, none, some, ◌==◌, ◌||◌, if◌then◌else◌}
use tails.Prelude.Int.{pos, negsuc}
use tails.Result.{ok}
use tails.Value.{null}
use tails.Word.{Native, native, interpreted, parameters}
use tails.Checker.{SourceWord, returns_immediately}
use tails.Vm.{op, word, offset}
use tails.Codegen.{
  reads_all, lay_out, generate, assemble, branch_offset, assemble_word, assemble_at, place,
  place_word, place_native, place_interpreted, place_all, retarget, tail_call, follow_branches,
  interp_word, start, parameters_of,
}

abbrev looping : List SourceWord
looping =
    record { word = native Native.zbranch; param = null; branch_to = some 4 }
    ∷ record { word = interpreted 7; param = null; branch_to = none }
    ∷ record { word = interpreted 8; param = null; branch_to = none }
    ∷ record { word = native Native.recurse; param = null; branch_to = some 0 }
    ∷ record { word = native Native.ret; param = null; branch_to = none }
    ∷ []

abbrev targets : ℕ → Bool
targets i = i == 0 || i == 4

abbrev height : ℕ → ℕ
height i = if i == 3 then 1 else 0

looping_code :
    generate 9 targets looping
    ≡ ok (
      op Native.zbranch
          ∷ offset (pos 5)
          ∷ op Native.interp2
          ∷ word 7
          ∷ word 8
          ∷ op Native.branch
          ∷ offset (negsuc 6)
          ∷ op Native.ret
          ∷ [],
      false,
    )
unfolding generate reads_all lay_out assemble branch_offset assemble_word assemble_at place
    place_word place_native place_interpreted place_all retarget tail_call follow_branches
    interp_word start parameters_of parameters returns_immediately
looping_code = refl
