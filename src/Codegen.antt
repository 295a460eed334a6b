-- ===== src/Codegen.antt =====
-- `generateInstructions` of src/compiler/compiler.cc after the stack check: the layout, which
-- drops unreachable words, turns a tail call into a branch, follows chains of branches, groups
-- interpreted words under one INTERP word and gives each word its offset `pc`; and the assembly of
-- the instructions. `_words` stays as it is, with the indices of the words that are kept beside it;
-- `pc`, `interpWord` and `isBranchDestination` of a word are maps from indices. `assert` and an
-- iterator past the end are errors, and the loops that follow branches take fuel. The `pc` of a word that
-- is not kept, which C++ would read from an erased word, is 0.
pub mod Places
pub mod Branches
pub mod Rewritten
pub mod Turn
pub mod Sizes
pub mod Laid
pub mod LaidNative
pub mod LaidGroup
pub mod Grouped
pub mod Placed
pub mod Grouping
pub mod Above
pub mod Runs
pub mod Erased
pub mod Correct
mod Tests
use tails.Prelude.{
  ℕ, zero, suc, ◌+◌, ◌-◌, Bool, true, false, not, ◌&&◌, ◌||◌, List, [], ◌∷◌, ◌++◌, Option, none,
  some, leb, ◌==◌, if◌then◌else◌, length, get_elem?, set,
}
use tails.Prelude.Int.{ℤ, pos, negsuc}
use tails.Result.{
  invalid_access, Result, ok, err, ◌>>=◌, ◌>>◌, guard, assertion, invalid_access, out_of_fuel,
}
use tails.Word.{Native, Word, native, interpreted, parameters}
use tails.Checker.{SourceWord, returns_immediately}
use tails.Vm.{Instruction, op, word, offset, literal}

pub record Layout : Type 0 where
  pub words : List SourceWord
  pub kept : List ℕ
  pub pc_of : ℕ → ℕ
  pub interp_of : ℕ → Option Native
  pub recursive : Bool
  pub interp_count : ℕ
  pub first_interp : ℕ
  pub after_branch : Bool
  pub pc : ℕ

abbrev pub at {ℓ} : {A : Type ℓ} → (ℕ → A) → ℕ → A → ℕ → A
at f i a j = if i == j then a else f j

-- `kInterpWords[isTail][interpCount]`
unfoldable pub interp_word : Bool → ℕ → Result Native
interp_word false zero = ok Native.interp
interp_word false (suc zero) = ok Native.interp2
interp_word false (suc (suc zero)) = ok Native.interp3
interp_word false (suc (suc (suc zero))) = ok Native.interp4
interp_word true zero = ok Native.tailinterp
interp_word true (suc zero) = ok Native.tailinterp2
interp_word true (suc (suc zero)) = ok Native.tailinterp3
interp_word true (suc (suc (suc zero))) = ok Native.tailinterp4
interp_word tail (suc (suc (suc (suc n)))) = err invalid_access

-- The word at `i` after the test for a tail recursion.
unfoldable pub tail_call : ℕ → List SourceWord → ℕ → SourceWord → Result SourceWord
tail_call fuel words i w = elim w.word [
  | native Native.recurse ↦ do
    b ← returns_immediately fuel words (i + 1)
    ok (if b then record w { word = native Native.branch } else w)
  | _ ↦ ok w
]

-- `while ((*dst)->word == &_BRANCH) dst = (*dst)->branchTo`
unfoldable pub follow_branches : ℕ → List SourceWord → ℕ → Result ℕ
follow_branches zero words t = err out_of_fuel
follow_branches (suc fuel) words t = elim (get_elem? words t) [
  | none ↦ err assertion
  | some w ↦ elim w.word [
    | native Native.branch ↦ elim w.branch_to [
      | none ↦ err assertion
      | some u ↦ follow_branches fuel words u
    ]
    | _ ↦ ok t
  ]
]

unfoldable pub retarget : ℕ → List SourceWord → SourceWord → Result SourceWord
unfolding follow_branches
retarget fuel words w = elim w.branch_to [
  | none ↦ ok w
  | some t ↦ do u ← follow_branches fuel words t; ok (record w { branch_to = some u })
]

abbrev pub is_branch : Word → Bool
is_branch (native Native.branch) = true
is_branch _ = false

abbrev pub is_recurse : Word → Bool
is_recurse (native Native.recurse) = true
is_recurse _ = false

-- `word->parameters()`, which only native words have.
unfoldable pub parameters_of : Word → ℕ
unfolding parameters
parameters_of (native n) = parameters n
parameters_of (interpreted k) = 0

-- The turn of the loop on a native word, the last `after_branch` and `pc` included.
unfoldable pub place_native : ℕ → ℕ → SourceWord → Layout → Result Layout
unfolding tail_call retarget
place_native fuel i w s = do
  w₁ ← tail_call fuel s.words i w
  w₂ ← retarget fuel (set s.words i w₁) w₁
  ok (record s {
    words = set s.words i w₂;
    kept = s.kept ++ i ∷ [];
    pc_of = at s.pc_of i s.pc;
    recursive = s.recursive || is_recurse w₂.word;
    interp_count = 0;
    after_branch = is_branch w₂.word;
    pc = s.pc + parameters_of w₂.word + 1;
  })

-- The turn on an interpreted word. `starts` says that it is the first of a group.
unfoldable pub place_interpreted : ℕ → ℕ → Bool → Layout → Result Layout
unfolding interp_word
place_interpreted fuel i starts s = do
  tail ← returns_immediately fuel s.words (i + 1)
  let count = if starts then 0 else s.interp_count
  let first = if starts then i else s.first_interp
  head ← interp_word tail count
  ok (record s {
    kept = s.kept ++ i ∷ [];
    pc_of = at s.pc_of i s.pc;
    interp_of = at s.interp_of first (some head);
    interp_count = count + 1;
    first_interp = first;
    after_branch = false;
    pc = s.pc + (if starts then 1 else 0) + 1;
  })

unfoldable pub place_word : ℕ → Bool → ℕ → SourceWord → Layout → Result Layout
unfolding place_native place_interpreted
place_word fuel is_destination i w s = elim w.word [
  | native n ↦ place_native fuel i w s
  | interpreted k ↦
      place_interpreted fuel i (s.interp_count == 0 || leb 4 s.interp_count || is_destination) s
]

-- A turn of the loop over `_words`.
unfoldable pub place : ℕ → Bool → ℕ → Layout → Result Layout
unfolding place_word
place fuel is_destination i s =
    if s.after_branch && not is_destination then ok s else elim (get_elem? s.words i) [
      | none ↦ err assertion
      | some w ↦ place_word fuel is_destination i w s
    ]

-- The loop, over the `n` words from `i` on.
unfoldable pub place_all : ℕ → (ℕ → Bool) → ℕ → ℕ → Layout → Result Layout
unfolding place
place_all fuel is_destination zero i s = ok s
place_all fuel is_destination (suc n) i s =
    place fuel (is_destination i) i s >>= place_all fuel is_destination n (i + 1)

unfoldable pub start : List SourceWord → Layout
start words = record {
  words = words;
  kept = [];
  pc_of = λ i. 0;
  interp_of = λ i. none;
  recursive = false;
  interp_count = 0;
  first_interp = 0;
  after_branch = false;
  pc = 0;
}

unfoldable pub lay_out : ℕ → (ℕ → Bool) → List SourceWord → Result Layout
unfolding place_all start
lay_out fuel is_destination words = place_all fuel is_destination (length words) 0 (start words)

-- `(*i->branchTo)->pc - i->pc - 2`
unfoldable pub branch_offset : ℕ → ℕ → ℤ
branch_offset target pc =
    if leb (pc + 2) target then pos (target - (pc + 2)) else negsuc (pc + 2 - target - 1)

-- `i->param`. A word with a parameter that is no branch has a literal.
abbrev pub parameter : (ℕ → ℕ) → ℕ → SourceWord → Instruction
parameter pc_of i w = elim w.branch_to [
  | some t ↦ offset (branch_offset (pc_of t) (pc_of i))
  | none ↦ literal w.param
]

-- The instructions that the word at `i` is assembled into.
unfoldable pub assemble_word : (ℕ → ℕ) → (ℕ → Option Native) → ℕ → SourceWord → List Instruction
assemble_word pc_of interp_of i w = elim w.word [
  | native n ↦ op n ∷ (if parameters n == 0 then [] else parameter pc_of i w ∷ [])
  | interpreted k ↦ elim (interp_of i) [ some head ↦ op head ∷ word k ∷ [] | none ↦ word k ∷ [] ]
]

unfoldable pub assemble_at : Layout → ℕ → List Instruction
unfolding assemble_word
assemble_at s i = elim (get_elem? s.words i) [
  | some w ↦ assemble_word s.pc_of s.interp_of i w
  | none ↦ []
]

unfoldable pub assemble : Layout → List ℕ → List Instruction
unfolding assemble_at
assemble s [] = []
assemble s (i ∷ is) = assemble_at s i ++ assemble s is

abbrev pub holds : ℕ → List ℕ → Bool
holds t [] = false
holds t (i ∷ is) = (t == i) || holds t is

-- Whether the word that a native word's `branchTo` refers to has not been erased.
abbrev pub reads_word : List ℕ → Word → Option ℕ → Bool
reads_word kept (native n) none = true
reads_word kept (native n) (some t) = holds t kept
reads_word kept (interpreted k) b = true

abbrev pub reads_at : List ℕ → Option SourceWord → Bool
reads_at kept none = true
reads_at kept (some w) = reads_word kept w.word w.branch_to

unfoldable pub reads_all : Layout → List ℕ → Bool
reads_all s [] = true
reads_all s (i ∷ is) = reads_at s.kept (get_elem? s.words i) && reads_all s is

-- The layout, the assembly and the last assertion, with the flag that says that the word is
-- recursive. To read `pc` of an erased word is an invalid access.
unfoldable pub generate : ℕ → (ℕ → Bool) → List SourceWord → Result (List Instruction × Bool)
unfolding lay_out assemble reads_all
generate fuel is_destination words = do
  s ← lay_out fuel is_destination words
  guard (reads_all s s.kept) invalid_access
  let instrs = assemble s s.kept
  guard (length instrs == s.pc) assertion
  ok (instrs, s.recursive)
