-- ===== src/Codegen/Turn.antt =====
-- A turn of the layout on a native word: the test for a tail recursion and the new target.
use tails.Prelude.{
  ℕ, ◌+◌, ◌<◌, ◌≡◌, ◌≢◌, refl, sym, ap, ◌∙◌, subst, ◌⊎◌, inl, inr, Bool, true, false, List, none,
  some, arith, length, get_elem?, set, some_cancel, Bool-cases, Option-cases, if◌then◌else◌,
}
use tails.Prelude.Members.{length-set}
use tails.Result.{Result, ok, ◌>>=◌}
use tails.Word.{Native, Word, native, interpreted, parameters}
use tails.Checker.{SourceWord, returns_immediately}
use tails.Codegen.{tail_call, retarget, follow_branches, is_recurse, parameters_of}
use tails.Codegen.Branches.{
  IsSource, Lands, Leads, Returns, is_jump, returns_immediately-ends, follow_branches-ends,
}
use tails.Codegen.Rewritten.{
  Rewritten, AllRewritten, Leads-trans, Leads-original, Returns-original, AllRewritten-set,
  IsSource-set,
}

recurse_word : (x : Word) → is_recurse x ≡ true → x ≡ native Native.recurse
recurse_word (native Native.recurse) e = refl
recurse_word (native _) e = cc
recurse_word (interpreted k) e = cc

branch_parameters : parameters_of (native Native.branch) < 2
unfolding parameters_of parameters
branch_parameters = omega arith

retarget_lem :
    (fuel : ℕ) (words : List SourceWord) (c : SourceWord) (t u : ℕ)
    → c.branch_to ≡ some t
    → follow_branches fuel words t ≡ ok u
    → retarget fuel words c ≡ ok (record c { branch_to = some u })
unfolding retarget
retarget_lem fuel words c t u to f = rw (to, f) refl

abbrev pub is_native : Word → Bool
is_native (native n) = true
is_native (interpreted k) = false

-- What the turn makes of the word.
pub record Turned (is_destination : ℕ → Bool) (rank : ℕ → ℕ) (originals words : List SourceWord)
    (fuel i : ℕ) (w : SourceWord) : Type 0 where
  pub called : SourceWord
  pub last : SourceWord
  pub calls : tail_call fuel words i w ≡ ok called
  pub targets : retarget fuel (set words i called) called ≡ ok last
  pub same_native : is_native last.word ≡ is_native w.word
  pub source : IsSource is_destination rank (set words i last)
  pub rewritten : AllRewritten originals (set words i last)

module _ (is_destination : ℕ → Bool) (rank : ℕ → ℕ) (originals words : List SourceWord) (fuel i : ℕ)
    (v : IsSource is_destination rank words) (a : AllRewritten originals words)
    (enough : (j : ℕ) → j < length words → rank j < fuel) (w : SourceWord)
    (e : get_elem? words i ≡ some w) where
  other_word :
      (x : Word) (r : Result SourceWord)
      → is_recurse x ≡ false
      → (elim x [ native Native.recurse ↦ r | _ ↦ ok w ]) ≡ ok w
  other_word (native Native.recurse) r n = cc
  other_word (native _) r n = refl
  other_word (interpreted k) r n = refl

  -- The word is as it was, or a recursion before a return that is now a branch.
  abbrev Called : SourceWord → Type 0
  Called c =
      (c ≡ w)
      ⊎ ((w.word ≡ native Native.recurse)
          × (c ≡ record w { word = native Native.branch })
          × Returns words (i + 1))

  tail_call-ends : (c : SourceWord) × (tail_call fuel words i w ≡ ok c) × Called c
  unfolding tail_call
  tail_call-ends = elim (Bool-cases (is_recurse w.word)) [
    | inl b ↦
        let word = recurse_word w.word b in
        let l = v.ended i w e (λ k. different (sym word ∙ k)) in
        let (r, f, g) =
          returns_immediately-ends is_destination rank words v fuel (i + 1) (enough (i + 1) l) l in
        (
          if r then record w { word = native Native.branch } else w,
          rw (word, f) refl,
          chosen r word g,
        )
    | inr n ↦ (
      w,
      other_word w.word
          (do
            b ← returns_immediately fuel words (i + 1)
            ok (if b then record w { word = native Native.branch } else w))
          n,
      inl refl,
    )
  ]
    where
      different : native Native.recurse ≡ native Native.ret → ⊥
      different k = cc

      chosen :
          (r : Bool)
          → w.word ≡ native Native.recurse
          → (r ≡ true → Returns words (i + 1))
          → Called (if r then record w { word = native Native.branch } else w)
      chosen true k g = inr (k, refl, g refl)
      chosen false k g = inl refl

  -- The word after that test, with all that the rest of the turn needs of it.
  module _ (c : SourceWord) (k : Called c) where
    same_target : c.branch_to ≡ w.branch_to
    same_target = elim k [
      | inl p ↦ ap (λ x. x.branch_to) p
      | inr (_, p, _) ↦ ap (λ x. x.branch_to) p
    ]

    called_jump : is_jump c.word ≡ is_jump w.word
    called_jump = elim k [
      | inl p ↦ ap (λ x. is_jump (x.word)) p
      | inr (q, p, _) ↦ ap (λ x. is_jump (x.word)) p ∙ sym (ap is_jump q)
    ]

    called_ret : c.word ≢ native Native.ret → w.word ≢ native Native.ret
    called_ret n r = elim k [
      | inl p ↦ n (ap (λ x. x.word) p ∙ r)
      | inr (q, _, _) ↦ different (sym q ∙ r)
    ]
      where
        different : native Native.recurse ≡ native Native.ret → ⊥
        different z = cc

    called_parameters : parameters_of c.word < 2
    called_parameters = elim k [
      | inl p ↦ omega (arith, v.one_parameter i w e, ap (λ x. parameters_of (x.word)) p)
      | inr (q, p, _) ↦ subst (λ x. parameters_of (x.word) < 2) (sym p) branch_parameters
    ]

    called_native : is_native c.word ≡ is_native w.word
    called_native = elim k [
      | inl p ↦ ap (λ x. is_native (x.word)) p
      | inr (q, p, _) ↦ ap (λ x. is_native (x.word)) p ∙ sym (ap is_native q)
    ]

    called_Rewritten : (o : SourceWord) → Rewritten originals i o w → Rewritten originals i o c
    called_Rewritten o r = elim k [
      | inl p ↦ subst (Rewritten originals i o) (sym p) r
      | inr (q, p, z) ↦ subst (Rewritten originals i o) (sym p) (record {
        same_param = r.same_param;
        word_from =
            inr (recursion q r.word_from, refl, Returns-original originals words a (i + 1) z);
        target_from = r.target_from;
      })
    ]
      where
        recursion :
            w.word ≡ native Native.recurse
            → (w.word ≡ o.word)
              ⊎ ((o.word ≡ native Native.recurse)
                  × (w.word ≡ native Native.branch)
                  × Returns originals (i + 1))
            → o.word ≡ native Native.recurse
        recursion q (inl s) = sym s ∙ q
        recursion q (inr (s, _, _)) = s

    called_IsSource : IsSource is_destination rank (set words i c)
    called_IsSource =
        IsSource-set words i w e c is_destination rank v
          (λ t to. v.in_range i w t e (sym same_target ∙ to))
          (λ j. let (t, to, l) = v.resolved i w e (sym called_jump ∙ j) in (t, same_target ∙ to, l))
          (λ n. v.ended i w e (called_ret n)) called_parameters

    called_AllRewritten : AllRewritten originals (set words i c)
    called_AllRewritten =
        let (o, f, r) = a i w e in
        AllRewritten-set words i w e c originals o a f (called_Rewritten o r)

  module _ (c : SourceWord) (f : tail_call fuel words i w ≡ ok c) (k : Called c) where
    retargeted :
        (o : SourceWord) (t u : ℕ)
        → Rewritten originals i o c
        → c.branch_to ≡ some t
        → Leads originals t u
        → Rewritten originals i o (record c { branch_to = some u })
    retargeted o t u r to l = record {
      same_param = r.same_param;
      word_from = r.word_from;
      target_from = elim r.target_from [
        | inl s ↦ inr (t, u, sym s ∙ to, refl, l)
        | inr (t₀, t₁, p, q, m) ↦ inr (
          t₀,
          u,
          p,
          refl,
          Leads-trans originals m (subst (λ x. Leads originals x u) (some_cancel (sym to ∙ q)) l),
        )
      ];
    }

    turn_none : c.branch_to ≡ none → Turned is_destination rank originals words fuel i w
    unfolding retarget
    turn_none to = record {
      called = c;
      last = c;
      calls = f;
      targets = rw to refl;
      same_native = called_native c k;
      source = called_IsSource c k;
      rewritten = called_AllRewritten c k;
    }

    turn_some : (t : ℕ) → c.branch_to ≡ some t → Turned is_destination rank originals words fuel i w
    turn_some t to =
        let lands = v.in_range i w t e (sym (same_target c k) ∙ to) in
        let same = length-set words i c in
        let (u, g, leads, rank_le, lands') =
          follow_branches-ends is_destination rank (set words i c) (called_IsSource c k) fuel t
            (enough t lands.0) (subst (λ n. Lands is_destination n t) (sym same) lands) in
        let (o, h, r) = a i w e in
        let last = record c { branch_to = some u } in
        record {
          called = c;
          last = last;
          calls = f;
          targets = retarget_lem fuel (set words i c) c t u to g;
          same_native = called_native c k;
          source =
              IsSource-set words i w e last is_destination rank v
                (λ x p.
                  subst (λ y. Lands is_destination (length words) y) (some_cancel p)
                    (subst (λ n. Lands is_destination n u) same lands'))
                (λ j.
                  let (t₁, to₁, less) = v.resolved i w e (sym (called_jump c k) ∙ j) in
                  let t_same : t₁ ≡ t = some_cancel (sym to₁ ∙ sym (same_target c k) ∙ to) in
                  (u, refl, omega (arith, rank_le, subst (λ y. rank y < rank i) t_same less)))
                (λ n. v.ended i w e (called_ret c k n)) (called_parameters c k);
          rewritten = AllRewritten-set words i w e last originals o a h (
              retargeted o t u (called_Rewritten c k o r) to
                (Leads-original originals (set words i c) (called_AllRewritten c k) leads));
        }

  -- With enough fuel the turn ends, and the list stays one to generate code from.
  pub turn-Turned : Turned is_destination rank originals words fuel i w
  turn-Turned =
      let (c, f, k) = tail_call-ends in
      elim (Option-cases c.branch_to) [
        | inl n ↦ turn_none c f k n
        | inr (t, to) ↦ turn_some c f k t to
      ]
