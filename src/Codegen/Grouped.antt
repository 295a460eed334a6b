-- ===== src/Codegen/Grouped.antt =====
-- What follows the code of a word in the layout: the word after it, or for interpreted words a group
-- of up to four under one INTERP word and then the word after the group.
pub mod Turn
pub mod NativeTurn
pub mod FirstTurn
pub mod NextTurn
use tails.Prelude.{
  ℕ, suc, ◌+◌, ◌<◌, ◌≡◌, ◌≢◌, refl, sym, ap, ◌∙◌, subst, ◌⊎◌, inl, inr, Bool, true, false, List, [],
  ◌∷◌, ◌++◌, none, some, arith, length, get_elem?, set, Bool-cases, ◌==◌, ==_iff, some_cancel,
}
use tails.Prelude.Members.{
  In, In-append, In-append_left, In-append_right, get_elem?-set, get_elem?-set_other,
}
use tails.Result.{ok}
use tails.Word.{Native, Word, interpreted}
use tails.Checker.{SourceWord}
use tails.Codegen.{Layout, at, interp_word, parameters_of, is_branch}
use tails.Codegen.Branches.{Returns}
use tails.Codegen.Turn.{is_native}
use tails.Codegen.Sizes.{at_here, at_other}

-- Control may come to the word at `j` from elsewhere: it is native, or the first of a group.
pub record IsEntry (s : Layout) (j : ℕ) : Type 0 where
  pub w : SourceWord
  pub found : get_elem? s.words j ≡ some w
  pub starts : (is_native w.word ≡ true) ⊎ ((h : Native) × (s.interp_of j ≡ some h))

-- What ends at offset `p` before the word at `e` goes on there: with the word that is laid out next,
-- or with one that is kept.
abbrev pub NextAt : ℕ → Layout → ℕ → ℕ → Type 0 → Type 0 → Type 0
NextAt i s e p opens closes =
    ((e ≡ i) × (p ≡ s.pc) × (s.after_branch ≡ false) × opens)
    ⊎ (In e s.kept × IsEntry s e × (s.pc_of e ≡ p) × closes)

abbrev pub IsCurrent : Layout → ℕ → ℕ → Type 0
IsCurrent s j n = (s.interp_count ≡ n) × (s.first_interp ≡ j)

abbrev pub IsOver : Layout → ℕ → Type 0
IsOver s j = (s.interp_count ≡ 0) ⊎ (s.first_interp ≢ j)

-- An interpreted word of a group from `j` on, the first or a later one.
pub record Member (s : Layout) (j m : ℕ) : Type 0 where
  pub w : SourceWord
  pub k : ℕ
  pub found : get_elem? s.words (j + m) ≡ some w
  pub word : w.word ≡ interpreted k
  pub kept : In (j + m) s.kept
  pub later : m ≢ 0 → (s.pc_of (j + m) ≡ s.pc_of j + 1 + m) × (s.interp_of (j + m) ≡ none)

-- The layout after a turn on a native word, on an interpreted one that starts a group, and on one
-- that goes into the present group.
abbrev pub with_native : ℕ → SourceWord → Bool → Layout → Layout
with_native i w recursive s = record s {
  words = set s.words i w;
  kept = s.kept ++ i ∷ [];
  pc_of = at s.pc_of i s.pc;
  recursive = recursive;
  interp_count = 0;
  after_branch = is_branch w.word;
  pc = s.pc + parameters_of w.word + 1;
}

abbrev pub with_first : ℕ → Native → Layout → Layout
with_first i h s = record s {
  kept = s.kept ++ i ∷ [];
  pc_of = at s.pc_of i s.pc;
  interp_of = at s.interp_of i (some h);
  interp_count = 1;
  first_interp = i;
  after_branch = false;
  pc = s.pc + 1 + 1;
}

abbrev pub with_next : ℕ → Native → Layout → Layout
with_next i h s = record s {
  kept = s.kept ++ i ∷ [];
  pc_of = at s.pc_of i s.pc;
  interp_of = at s.interp_of s.first_interp (some h);
  interp_count = s.interp_count + 1;
  after_branch = false;
  pc = s.pc + 0 + 1;
}

module _ (originals : List SourceWord) where
  pub record Group (i : ℕ) (s : Layout) (j : ℕ) (h : Native) : Type 0 where
    pub more : ℕ
    pub members : (m : ℕ) → m < suc more → Member s j m
    pub tail : Bool
    pub head : interp_word tail more ≡ ok h
    pub returns : tail ≡ true → Returns originals (j + suc more)
    pub next :
        NextAt i s (j + suc more) (s.pc_of j + 1 + suc more) (IsCurrent s j (suc more)) (IsOver s j)

  -- The layout before the turn on the word at `i`.
  pub record Grouped (is_destination : ℕ → Bool) (i : ℕ) (s : Layout) : Type 0 where
    pub entries : (j : ℕ) → In j s.kept → (is_destination j ≡ true) ⊎ (j ≡ 0) → IsEntry s j
    pub natives :
        (j : ℕ) (w : SourceWord)
        → In j s.kept
        → get_elem? s.words j ≡ some w
        → is_native w.word ≡ true
        → is_branch w.word ≡ false
        → NextAt i s (j + 1) (s.pc_of j + 1 + parameters_of w.word) (s.interp_count ≡ 0) Unit
    pub groups : (j : ℕ) (h : Native) → In j s.kept → s.interp_of j ≡ some h → Group i s j h
    pub begin : ((i ≡ 0) × (s.pc ≡ 0) × (s.after_branch ≡ false)) ⊎ ((0 < i) × (s.pc_of 0 ≡ 0))
