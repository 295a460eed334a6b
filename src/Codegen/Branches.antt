-- ===== src/Codegen/Branches.antt =====
-- The loops that follow branches, on a list of words whose chains of branches end.
use tails.Prelude.{
  ℕ, zero, suc, ◌+◌, ◌≤◌, ◌<◌, ◌≡◌, ◌≢◌, refl, ◌⊎◌, inl, inr, Bool, true, false, ◌||◌, List, Option,
  none, some, arith, length, get_elem?, Bool-cases,
}
use tails.Prelude.Members.{lt-get_elem?}
use tails.Result.{Result, ok, err, assertion}
use tails.Word.{Native, Word, native, interpreted}
use tails.Checker.{SourceWord, returns_immediately}
use tails.Codegen.{follow_branches, is_branch, is_recurse, parameters_of}

abbrev pub is_jump : Word → Bool
is_jump x = is_branch x || is_recurse x

-- A branch to `t` lands in a list of `n` words: at a word that is marked as a destination, or at the
-- last one, whose mark is lost when RETURN takes the place of NOP.
abbrev pub Lands : (ℕ → Bool) → ℕ → ℕ → Type 0
Lands is_destination n t = (t < n) × ((is_destination t ≡ true) ⊎ (t + 1 ≡ n))

-- A list of words to generate code from. Every branch lands; BRANCH and RECURSE have a target, of a lower rank, so that no chain of them is a
-- cycle; each word but RETURN has one after it; and no word takes two parameters.
pub record IsSource (is_destination : ℕ → Bool) (rank : ℕ → ℕ) (words : List SourceWord)
    : Type 0 where
  pub in_range :
      (i : ℕ) (w : SourceWord) (t : ℕ)
      → get_elem? words i ≡ some w
      → w.branch_to ≡ some t
      → Lands is_destination (length words) t
  pub resolved :
      (i : ℕ) (w : SourceWord)
      → get_elem? words i ≡ some w
      → is_jump w.word ≡ true
      → (t : ℕ) × (w.branch_to ≡ some t) × (rank t < rank i)
  pub ended :
      (i : ℕ) (w : SourceWord)
      → get_elem? words i ≡ some w
      → w.word ≢ native Native.ret
      → i + 1 < length words
  pub one_parameter :
      (i : ℕ) (w : SourceWord) → get_elem? words i ≡ some w → parameters_of w.word ≤ 1

-- From `t` on, BRANCH and RECURSE words lead to `u`.
pub data Leads (words : List SourceWord) : ℕ → ℕ → Type 0 where
  here : {t : ℕ} → Leads words t t
  hop :
      {t u v : ℕ} (w : SourceWord)
      → get_elem? words t ≡ some w
      → is_jump w.word ≡ true
      → w.branch_to ≡ some u
      → Leads words u v
      → Leads words t v

-- What follows from `t` on is RETURN, or a chain of branches to one.
abbrev pub Returns : List SourceWord → ℕ → Type 0
Returns words t =
    (r : ℕ) × (w : SourceWord) × Leads words t r
    × (get_elem? words r ≡ some w)
    × (w.word ≡ native Native.ret)

branch_word : (x : Word) → is_branch x ≡ true → x ≡ native Native.branch
branch_word (native Native.branch) e = refl
branch_word (native _) e = cc
branch_word (interpreted k) e = cc

module _ (is_destination : ℕ → Bool) (rank : ℕ → ℕ) (words : List SourceWord)
    (v : IsSource is_destination rank words) where
  no_branch :
      (x : Word) (b : Option ℕ) (r : ℕ → Result Bool)
      → is_branch x ≡ false
      → (c : Bool) × ((elim x [
        | native Native.branch ↦ elim b [ none ↦ err assertion | some t ↦ r t ]
        | native Native.ret ↦ ok true
        | _ ↦ ok false
      ])
          ≡ ok c)
        × (c ≡ true → x ≡ native Native.ret)
  no_branch (native Native.branch) b r n = cc
  no_branch (native Native.ret) b r n = (true, refl, λ _. refl)
  no_branch (native _) b r n = (false, refl, λ e. absurd (cc))
  no_branch (interpreted k) b r n = (false, refl, λ e. absurd (cc))

  no_follow :
      (x : Word) (b : Option ℕ) (t : ℕ) (r : ℕ → Result ℕ)
      → is_branch x ≡ false
      → (elim x [
        | native Native.branch ↦ elim b [ none ↦ err assertion | some u ↦ r u ]
        | _ ↦ ok t
      ])
        ≡ ok t
  no_follow (native Native.branch) b t r n = cc
  no_follow (native _) b t r n = refl
  no_follow (interpreted k) b t r n = refl

  pub returns_immediately-ends :
      (fuel j : ℕ)
      → rank j < fuel
      → j < length words
      → (b : Bool) × (returns_immediately fuel words j ≡ ok b) × (b ≡ true → Returns words j)
  unfolding returns_immediately
  returns_immediately-ends zero j h l = absurd (omega (arith, h))
  returns_immediately-ends (suc fuel) j h l =
      let (w, e) = lt-get_elem? words j l in
      elim (Bool-cases (is_branch w.word)) [
        | inl b ↦
            let word = branch_word w.word b in
            let (t, to, less) = v.resolved j w e (rw word refl) in
            let (c, r, f) =
              returns_immediately-ends fuel t (omega (arith, h, less)) (v.in_range j w t e to).0 in
            (
              c,
              rw (returns_immediately, e, word, to) r,
              λ k. let (z, x, leads, g, h) = f k in (z, x, hop w e (rw word refl) to leads, g, h),
            )
        | inr n ↦
            let (c, r, f) = no_branch w.word w.branch_to (returns_immediately fuel words) n in
            (c, rw (returns_immediately, e) r, λ k. (j, w, here, e, f k))
      ]

  -- The chain of branches from `t` on leads to `u`.
  pub follow_branches-ends :
      (fuel t : ℕ)
      → rank t < fuel
      → Lands is_destination (length words) t
      → (u : ℕ) × (follow_branches fuel words t ≡ ok u)
        × Leads words t u
        × (rank u ≤ rank t)
        × Lands is_destination (length words) u
  unfolding follow_branches
  follow_branches-ends zero t h l = absurd (omega (arith, h))
  follow_branches-ends (suc fuel) t h l =
      let (w, e) = lt-get_elem? words t l.0 in
      elim (Bool-cases (is_branch w.word)) [
        | inl b ↦
            let word = branch_word w.word b in
            let (t', to, less) = v.resolved t w e (rw word refl) in
            let l' = v.in_range t w t' e to in
            let (u, f, leads, r, lands) =
              follow_branches-ends fuel t' (omega (arith, h, less)) l' in
            (
              u,
              rw (follow_branches, e, word, to) f,
              hop w e (rw word refl) to leads,
              omega (arith, r, less),
              lands,
            )
        | inr n ↦ (
          t,
          rw (follow_branches, e) (no_follow w.word w.branch_to t (follow_branches fuel words) n),
          here,
          omega arith,
          l,
        )
      ]
