-- ===== src/Codegen/Correct.antt =====
-- What the layout and the assembly give: the assertion holds, the code of each word that is kept
-- stands at its offset, and the branches lead to the code of their targets.
use tails.Prelude.{
  ℕ, ◌+◌, ◌<◌, ◌≡◌, ◌⊎◌, Bool, true, false, List, ◌++◌, some, length, get_elem?, drop,
}
use tails.Prelude.Members.{In}
use tails.Result.{Result, ok, err, invalid_access}
use tails.Codegen.Erased.{Inside, Outside}
use tails.Word.{Word}
use tails.Checker.{SourceWord}
use tails.Vm.{Instruction, word, moved}
use tails.Codegen.{Layout, assemble_word, branch_offset, is_branch}

-- The first word, every destination and every word after a kept one other than BRANCH is kept, and a
-- word after a kept BRANCH that is no destination is not.
pub record IsClosed (is_destination : ℕ → Bool) (s : Layout) : Type 0 where
  pub entry : In 0 s.kept
  pub destinations : (i : ℕ) → i < length s.words → is_destination i ≡ true → In i s.kept
  pub next :
      (i : ℕ) (w : SourceWord)
      → i + 1 < length s.words
      → In i s.kept
      → get_elem? s.words i ≡ some w
      → is_branch w.word ≡ false
      → In (i + 1) s.kept
  pub skips :
      (i : ℕ) (w : SourceWord)
      → i + 1 < length s.words
      → In i s.kept
      → get_elem? s.words i ≡ some w
      → is_branch w.word ≡ true
      → is_destination (i + 1) ≡ false
      → ¬ In (i + 1) s.kept

-- The code of each word that is kept is in its place. A branch, from behind its parameter, leads to
-- the offset that is noted for its target, which is kept or is the last word.
pub record IsAssembled (s : Layout) (code : List Instruction) : Type 0 where
  pub in_place :
      (i : ℕ) (w : SourceWord)
      → In i s.kept
      → get_elem? s.words i ≡ some w
      → (rest : List Instruction) × (drop (s.pc_of i) code
          ≡ assemble_word s.pc_of s.interp_of i w ++ rest)
  pub branches :
      (i t : ℕ) (w : SourceWord)
      → In i s.kept
      → get_elem? s.words i ≡ some w
      → w.branch_to ≡ some t
      → (In t s.kept ⊎ (t + 1 ≡ length s.words))
        × (moved (s.pc_of i + 2) (branch_offset (s.pc_of t) (s.pc_of i)) ≡ some (s.pc_of t))

-- The last of the `n` words is not in the layout.
abbrev pub LastErased : ℕ → Layout → Type 0
LastErased n s = (e : ℕ) × (e + 1 ≡ n) × (¬ In e s.kept)

-- The result is `a`, and all branches stay in the layout; or it is the invalid access, a branch leaves
-- the layout, and the last word is not in it.
abbrev pub EndsAs : {A : Type 0} → Result A → A → ℕ → Layout → Type 0
EndsAs r a n s =
    ((r ≡ ok a) × Inside s s.kept) ⊎ ((r ≡ err invalid_access) × Outside s s.kept × LastErased n s)
