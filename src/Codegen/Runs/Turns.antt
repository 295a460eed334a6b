-- ===== src/Codegen/Runs/Turns.antt =====
-- A turn of the interpreter at the code of a word, against the word's step in the source.
use tails.Prelude.{
  ℕ, ◌+◌, ◌<◌, ◌≡◌, ◌≢◌, refl, sym, ap, ◌∙◌, subst, ◌⊎◌, inl, inr, Bool, false, List, [], ◌∷◌, ◌++◌,
  some, arith, length, get_elem?, drop, some_cancel, if◌then◌else◌, ◌==◌,
}
use tails.Prelude.Members.{In, lt-get_elem?}
use tails.StackEffect.{StackEffect}
use tails.Value.{Value}
use tails.Value.Arithmetic.{Fpu}
use tails.Word.{Native, Word, native, interpreted, parameters}
use tails.Checker.{SourceWord}
use tails.Vm.{Instruction, op, offset, Outcome, done, out_of_fuel, moved}
use tails.Vm.Run.{Runner}
use tails.Codegen.{
  Layout, assemble, assemble_word, branch_offset, parameter, parameters_of, is_branch,
}
use tails.Codegen.Branches.{Leads, here}
use tails.Codegen.Turn.{is_native}
use tails.Codegen.Placed.{word-cases}
use tails.Codegen.Grouped.{IsEntry}
use tails.Codegen.Above.{drop-get, drop-next}
use tails.Codegen.Runs.{IsRunnable, Compiled, Reached, not_recurse, Reach-Leads}

module _ (fpu : Fpu) (code_of : ℕ → List Instruction) (effects : ℕ → StackEffect)
    (prog : List SourceWord) (inline_word : Bool) (e₀ : StackEffect) (is_destination : ℕ → Bool)
    (rank : ℕ → ℕ) (s : Layout)
    (c : Compiled fpu code_of effects prog inline_word e₀ is_destination rank s)
    (vs₀ below : List Value) where
  abbrev pub here_code : List Instruction
  here_code = assemble s s.kept

  abbrev pub Arrives : ℕ → List Value → Type 0
  Arrives = Reached fpu code_of effects prog inline_word e₀ vs₀

  -- The run has not ended, which is as `cut` says, or it has ended where a run of the source comes to
  -- RETURN.
  abbrev pub IsGood : Type 0 → Outcome → Type 0
  IsGood cut o =
      (cut × (o ≡ out_of_fuel))
      ⊎ ((j : ℕ) × (w : SourceWord) × (vs : List Value) × (o ≡ done (vs ++ below))
          × Arrives j vs
          × (get_elem? prog j ≡ some w)
          × (w.word ≡ native Native.ret))

  -- A run at any entry, with less fuel, is good.
  abbrev pub GoodFrom : (ℕ → Type 0) → Runner → Type 0
  GoodFrom cut again =
      (i : ℕ) (vs : List Value)
      → In i s.kept
      → IsEntry s i
      → Arrives i vs
      → IsGood (cut i) (again here_code (s.pc_of i) (vs ++ below))

  pub map-IsGood : {cut cut' : Type 0} (o : Outcome) → (cut → cut') → IsGood cut o → IsGood cut' o
  map-IsGood o f (inl (x, e)) = inl (f x, e)
  map-IsGood o f (inr r) = inr r

  -- From the word at `i` control goes to a later one, or along its branch.
  pub data Goes (i j : ℕ) : Type 0 where
    later : i < j → Goes i j
    along :
        (w : SourceWord) (t : ℕ)
        → get_elem? prog i ≡ some w
        → w.branch_to ≡ some t
        → Leads prog t j
        → Goes i j

  -- The word that is laid out at `i` and its original.
  pub record Place (i : ℕ) (n : Word) : Type 0 where
    pub x : SourceWord
    pub o : SourceWord
    pub found : get_elem? s.words i ≡ some x
    pub original : get_elem? prog i ≡ some o
    pub word_is : x.word ≡ n
    pub word_was : o.word ≡ n
    pub same_param : x.param ≡ o.param
    pub target :
        (x.branch_to ≡ o.branch_to)
        ⊎ ((t : ℕ) × (u : ℕ) × (o.branch_to ≡ some t) × (x.branch_to ≡ some u) × Leads prog t u)

  pub rewritten-Place : (i : ℕ) (x : SourceWord) → get_elem? s.words i ≡ some x → Place i x.word
  rewritten-Place i x f =
      let (o, g, r) = c.rewritten i x f in
      record {
        x = x;
        o = o;
        found = f;
        original = g;
        word_is = refl;
        word_was = elim r.word_from [
          | inl e ↦ sym e
          | inr (e, _, _) ↦ absurd (
              not_recurse fpu code_of effects prog inline_word e₀
                (subst (IsRunnable fpu code_of effects prog inline_word e₀) e (c.runnable i o g)))
        ];
        same_param = r.same_param;
        target = r.target_from;
      }

  module _ (i : ℕ) (n : Native) (kept : In i s.kept) (p : Place i (native n)) where
    assembled_native :
        (rest : List Instruction) × (drop (s.pc_of i) here_code
          ≡ op n ∷ ((if parameters n == 0 then [] else parameter s.pc_of i p.x ∷ []) ++ rest))
    unfolding assemble_word
    assembled_native =
        let (rest, e) = c.assembled.in_place i p.x kept p.found in (rest, e ∙ rw p.word_is refl)

    pub at_op : get_elem? here_code (s.pc_of i) ≡ some (op n)
    at_op = let (rest, e) = assembled_native in drop-get (s.pc_of i) here_code _ (op n) e

    pub at_parameter :
        parameters n ≡ 1 → get_elem? here_code (s.pc_of i + 1) ≡ some (parameter s.pc_of i p.x)
    at_parameter one =
        let (rest, e) = assembled_native in
        drop-get (s.pc_of i + 1) here_code rest (parameter s.pc_of i p.x)
          (drop-next (s.pc_of i) here_code _ (op n) e ∙ rw one refl)

    -- The word after it is an entry.
    pub goes_on :
        (cut : ℕ → Type 0) (again : Runner) (vs : List Value)
        → GoodFrom cut again
        → n ≢ Native.ret
        → is_branch (native n) ≡ false
        → Arrives (i + 1) vs
        → IsGood (cut (i + 1)) (again here_code (s.pc_of i + 1 + parameters n) (vs ++ below))
    unfolding parameters_of
    goes_on cut again vs good no_ret plain r =
        elim (c.grouped.natives i p.x kept p.found (ap is_native p.word_is)
          (ap is_branch p.word_is ∙ plain)) [
            | inl (at_end, _, _, _) ↦
                absurd (omega (arith, at_end, c.same_length, c.source.ended i p.x p.found not_ret))
            | inr (k, entry, pc, _) ↦
                subst (λ q. IsGood (cut (i + 1)) (again here_code q (vs ++ below)))
                  (pc ∙ ap (λ w. s.pc_of i + 1 + parameters_of w) p.word_is)
                  (good (i + 1) vs k entry r)
          ]
      where
        not_ret : p.x.word ≢ native Native.ret
        not_ret e = no_ret (same (sym p.word_is ∙ e))
          where
            same : native n ≡ native Native.ret → n ≡ Native.ret
            same z = cc

    -- A branch to an entry.
    pub jumps :
        (cut : ℕ → Type 0) (again : Runner) (vs : List Value)
        → GoodFrom cut again
        → parameters n ≡ 1
        → (t : ℕ) → p.o.branch_to ≡ some t
        → Arrives t vs
        → (u : ℕ) × (parameter s.pc_of i p.x ≡ offset (branch_offset (s.pc_of u) (s.pc_of i)))
          × (moved (s.pc_of i + 2) (branch_offset (s.pc_of u) (s.pc_of i)) ≡ some (s.pc_of u))
          × Goes i u
          × IsGood (cut u) (again here_code (s.pc_of u) (vs ++ below))
    jumps cut again vs good one t to r =
        let (u, to', leads) = target in
        let (_, moves) = c.assembled.branches i u p.x kept p.found to' in
        let (k, entry) = landed u to' in
        (
          u,
          rw to' refl,
          moves,
          along p.o t p.original to leads,
          good u vs k entry
              (Reach-Leads fpu code_of effects prog inline_word e₀ c.runnable leads r),
        )
      where
        target : (u : ℕ) × (p.x.branch_to ≡ some u) × Leads prog t u
        target = elim p.target [
          | inl e ↦ (t, e ∙ to, here)
          | inr (t', u, e, f, l) ↦ (u, f, subst (λ y. Leads prog y u) (some_cancel (sym e ∙ to)) l)
        ]

        differ : {k : ℕ} → interpreted k ≡ native Native.ret → ⊥
        differ z = cc

        last_entry : (u : ℕ) → u + 1 ≡ length s.words → IsEntry s u
        last_entry u e =
            let (x, f) = lt-get_elem? s.words u (omega (arith, e)) in
            record {
              w = x;
              found = f;
              starts = elim (word-cases x.word) [
                | inl (m, q) ↦ inl (ap is_native q)
                | inr (k, q) ↦
                    absurd (omega (arith, e, c.source.ended u x f (λ r. differ (sym q ∙ r))))
              ];
            }

        landed : (u : ℕ) → p.x.branch_to ≡ some u → In u s.kept × IsEntry s u
        landed u to' =
            let k : In u s.kept = c.inside i u p.x n kept p.found p.word_is to' in
            let (_, at_entry) = c.source.in_range i p.x u p.found to' in
            elim at_entry [
              | inl d ↦ (k, c.grouped.entries u k (inl d))
              | inr e ↦ (k, last_entry u e)
            ]
