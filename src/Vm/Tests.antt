-- ===== src/Vm/Tests.antt =====
-- Runs of the interpreter on small programs, with integers for doubles.
use tails.Prelude.{
  ℕ, zero, suc, ◌+◌, ◌*◌, ◌-◌, ◌/◌, ◌≡◌, ◌<◌, refl, List, [], ◌∷◌, some, ltb, ◌==◌, if◌then◌else◌,
  get_elem?, arith,
}
use tails.Prelude.Int.{negsuc, pos, magnitude}
use tails.StackEffect.{inputs}
use tails.TypeSet.{can_be_type}
use tails.Value.{null, Value, number, type_of}
use tails.Value.Arithmetic.{Fpu, compare_values, cmp_double, of_double}
use tails.EffectStack.Laws.{Honours}
use tails.Word.{Native, core_effect}
use tails.Vm.{offset, moved, Instruction, op, word, done, is_less, is_greater, apply_native}
use tails.Vm.Effects.{apply_native-Honours}
use tails.Vm.Run.{do_recurse, jump_by, old_depth, with_stale, run, fetch, native_word, go_on}
use tails.Vm.Run.Calls.{two, run_tail}
use tails.Vm.Words.{max_code, min_code, abs_code}
use tails.Vm.Words.Laws.{seven_more, abs_max_min}

abbrev integers : Fpu
integers = record {
  add = ◌+◌;
  sub = ◌-◌;
  mul = ◌*◌;
  div = λ a b. a / suc b;
  equal = ◌==◌;
  below = ltb;
  of_int = magnitude;
  to_int = pos;
  stale = λ s i. null;
}

abbrev square : List Instruction
square = op Native.dup ∷ op Native.mult ∷ op Native.ret ∷ []

abbrev words : ℕ → List Instruction
words k = square

abbrev twice : List Instruction
twice = op Native.interp2 ∷ word 0 ∷ word 0 ∷ op Native.ret ∷ []

abbrev twice_tail : List Instruction
twice_tail = op Native.tailinterp2 ∷ word 0 ∷ word 0 ∷ op Native.ret ∷ []

apply_native-Honours_example :
    (vs' : List Value) × (apply_native integers Native.rot (number 3 ∷ number 2 ∷ number 1 ∷ [])
      ≡ some vs')
    × Honours (core_effect Native.rot) (number 3 ∷ number 2 ∷ number 1 ∷ []) vs'
unfolding core_effect inputs can_be_type type_of
apply_native-Honours_example =
    apply_native-Honours integers Native.rot (number 3 ∷ number 2 ∷ number 1 ∷ []) tt
      (refl, (refl, (refl, tt)))

same_words : (j : ℕ) → j < 2 → get_elem? twice (1 + j) ≡ get_elem? twice_tail (1 + j)
same_words zero h = refl
same_words (suc zero) h = refl
same_words (suc (suc j)) h = absurd (omega arith)

run_tail_example :
    run integers words 12 twice 0 (number 3 ∷ [])
    ≡ run integers words 12 twice_tail 0 (number 3 ∷ [])
run_tail_example =
    run_tail integers words 10 2 Native.interp2 Native.tailinterp2 twice twice_tail 0
      (number 3 ∷ []) two refl refl refl same_words

abs_max_min_example :
    (run integers words (seven_more 0) max_code 0 (number 2 ∷ number 5 ∷ [])
      ≡ done (
          (if is_less (compare_values integers (number 5) (number 2)) then number 2 else number 5)
          ∷ []))
    × (run integers words (seven_more 0) min_code 0 (number 2 ∷ number 5 ∷ [])
        ≡ done (
            (if is_greater (compare_values integers (number 5) (number 2))
              then number 2
              else number 5)
            ∷ []))
    × (run integers words (seven_more 0) abs_code 0 (number 4 ∷ [])
        ≡ done (
            (if is_less (cmp_double integers 4 0) then of_double (integers.sub 0 4) else number 4)
            ∷ []))
abs_max_min_example = abs_max_min integers words 0 4 (number 2) (number 5) []

-- A recursive call that pushes 1.
abbrev pushing : List Instruction
pushing =
    op Native.push_one ∷ op Native.ret ∷ op Native.recurse ∷ offset (negsuc 3) ∷ op Native.ret ∷ []

-- What the call has pushed is lost.
recurse_pushing : run integers words 3 pushing 2 (number 5 ∷ []) ≡ done (number 5 ∷ [])
unfolding run fetch native_word go_on apply_native moved do_recurse jump_by old_depth
recurse_pushing = refl

-- A recursive call that pops: what stands in memory above the values that are left takes their place.
abbrev popping : List Instruction
popping =
    op Native.drop ∷ op Native.ret ∷ op Native.recurse ∷ offset (negsuc 3) ∷ op Native.ret ∷ []

recurse_popping : run integers words 3 popping 2 (number 5 ∷ []) ≡ done (integers.stale [] 0 ∷ [])
unfolding run fetch native_word go_on apply_native moved do_recurse jump_by old_depth with_stale
recurse_popping = refl
