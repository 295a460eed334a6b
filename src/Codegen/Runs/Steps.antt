-- ===== src/Codegen/Runs/Steps.antt =====
-- The turns at native words: literals, branches, RETURN and words that keep their effects.
use tails.Prelude.{
  ℕ, ◌+◌, ◌≤◌, ◌≡◌, ◌≢◌, refl, sym, ap, ◌∙◌, subst, inl, inr, Bool, false, List, [], ◌∷◌, ◌++◌,
  some, none, arith, length, get_elem?, if-cases,
}
use tails.Prelude.Members.{In}
use tails.Prelude.Int.{ℤ}
use tails.StackEffect.{StackEffect, inputs}
use tails.Value.{Value}
use tails.Value.Arithmetic.{Fpu, truthy}
use tails.EffectStack.Laws.{Accepts, Honours}
use tails.Word.{Native, Word, native, parameters, core_effect, stack_effect}
use tails.Checker.{SourceWord}
use tails.Checker.Applied
use tails.Checker.Sound.{next, push, jump, fall_through, jump_zero, call, Ready, IsCall}
use tails.Vm.{Instruction, offset, literal, Outcome, moved, apply_native}
use tails.Vm.Run.{Runner, native_word, go_on, jump_by, do_literal, do_branch, do_zbranch}
use tails.Codegen.{Layout, branch_offset, parameter, is_branch}
use tails.Codegen.Branches.{is_jump}
use tails.Codegen.Above.{Accepts-append, length-Accepts, Honours-append}
use tails.Codegen.Runs.Turns.{
  here_code, Arrives, IsGood, GoodFrom, Place, Goes, later, map-IsGood, at_parameter, goes_on,
  jumps,
}
use tails.Codegen.Runs.{IsRunnable, Compiled, not_recurse}

-- A word that `apply_native` knows only changes the stack, and takes no parameter.
other_native :
    (fpu : Fpu) (code_of : ℕ → List Instruction) (again : Runner) (n : Native)
    (code : List Instruction) (pc : ℕ) (s s' : List Value)
    → apply_native fpu n s ≡ some s'
    → (native_word fpu code_of again n code pc s ≡ again code pc s') × (parameters n ≡ 0)
unfolding native_word go_on parameters apply_native
other_native fpu code_of again Native.ret code pc s s' e = absurd (cc)
other_native fpu code_of again Native.lit code pc s s' e = absurd (cc)
other_native fpu code_of again Native.branch code pc s s' e = absurd (cc)
other_native fpu code_of again Native.zbranch code pc s s' e = absurd (cc)
other_native fpu code_of again Native.recurse code pc s s' e = absurd (cc)
other_native fpu code_of again Native.interp code pc s s' e = absurd (cc)
other_native fpu code_of again Native.interp2 code pc s s' e = absurd (cc)
other_native fpu code_of again Native.interp3 code pc s s' e = absurd (cc)
other_native fpu code_of again Native.interp4 code pc s s' e = absurd (cc)
other_native fpu code_of again Native.tailinterp code pc s s' e = absurd (cc)
other_native fpu code_of again Native.tailinterp2 code pc s s' e = absurd (cc)
other_native fpu code_of again Native.tailinterp3 code pc s s' e = absurd (cc)
other_native fpu code_of again Native.tailinterp4 code pc s s' e = absurd (cc)
other_native fpu code_of again Native.call_quote code pc s s' e = absurd (cc)
other_native fpu code_of again Native.if_else code pc s s' e = absurd (cc)
other_native fpu code_of again Native.define code pc s s' e = absurd (cc)
other_native fpu code_of again _ code pc s s' e = (ap (go_on fpu code_of again code pc) e, refl)

other_word :
    (fpu : Fpu) (n : Native) (s s' : List Value)
    → apply_native fpu n s ≡ some s'
    → (n ≢ Native.ret) × (is_branch (native n) ≡ false)
unfolding apply_native
other_word fpu Native.ret s s' e = absurd (cc)
other_word fpu Native.branch s s' e = absurd (cc)
other_word fpu _ s s' e = (λ z. cc, refl)

module _ (fpu : Fpu) (code_of : ℕ → List Instruction) (effects : ℕ → StackEffect)
    (prog : List SourceWord) (inline_word : Bool) (e₀ : StackEffect) (is_destination : ℕ → Bool)
    (rank : ℕ → ℕ) (s : Layout)
    (c : Compiled fpu code_of effects prog inline_word e₀ is_destination rank s)
    (vs₀ below : List Value) where
  module _ (i : ℕ) (kept : In i s.kept) (again : Runner) (cut : ℕ → Type 0) (cut_here : Type 0)
      (weaken : (j : ℕ)
        → Goes fpu code_of effects prog inline_word e₀ is_destination rank s c vs₀ below i j
        → cut j
        → cut_here)
      (good : GoodFrom fpu code_of effects prog inline_word e₀ is_destination rank s c vs₀ below cut
        again) where
    abbrev code : List Instruction
    code = here_code fpu code_of effects prog inline_word e₀ is_destination rank s c vs₀ below

    abbrev Good : Outcome → Type 0
    Good = IsGood fpu code_of effects prog inline_word e₀ is_destination rank s c vs₀ below cut_here

    abbrev Turn : Native → List Value → Type 0
    Turn n vs = Good (native_word fpu code_of again n code (s.pc_of i + 1) (vs ++ below))

    abbrev At : Word → Type 0
    At = Place fpu code_of effects prog inline_word e₀ is_destination rank s c vs₀ below i

    abbrev Comes : List Value → Type 0
    Comes = Arrives fpu code_of effects prog inline_word e₀ is_destination rank s c vs₀ below i

    op_parameter :
        (n : Native) (p : At (native n))
        → parameters n ≡ 1
        → get_elem? code (s.pc_of i + 1) ≡ some (parameter s.pc_of i p.x)
    op_parameter n p one =
        at_parameter fpu code_of effects prog inline_word e₀ is_destination rank s c vs₀ below i n
          kept p one

    onward :
        (n : Native) (p : At (native n)) (vs : List Value)
        → n ≢ Native.ret
        → is_branch (native n) ≡ false
        → Arrives fpu code_of effects prog inline_word e₀ is_destination rank s c vs₀ below
            (i + 1)
            vs
        → (q : ℕ) → s.pc_of i + 1 + parameters n ≡ q
        → Good (again code q (vs ++ below))
    onward n p vs no_ret plain r q e =
        subst (λ x. Good (again code x (vs ++ below))) e
          (map-IsGood fpu code_of effects prog inline_word e₀ is_destination rank s c vs₀ below _
            (weaken (i + 1) (later (omega arith)))
            (goes_on fpu code_of effects prog inline_word e₀ is_destination rank s c vs₀ below i n
              kept p cut again vs good no_ret plain r))

    ret-Turn : (vs : List Value) → At (native Native.ret) → Comes vs → Turn Native.ret vs
    unfolding native_word
    ret-Turn vs p r = inr (i, p.o, vs, refl, r, p.original, p.word_was)

    lit-Turn : (vs : List Value) → At (native Native.lit) → Comes vs → Turn Native.lit vs
    unfolding native_word do_literal parameters
    lit-Turn vs p r =
        subst (λ x. Good (do_literal fpu code_of again code (s.pc_of i + 1) (vs ++ below) x))
          (sym at)
          (onward Native.lit p (p.o.param ∷ vs) (λ z. cc) refl
            (next r (push p.o p.original p.word_was)) (s.pc_of i + 1 + 1) refl)
      where
        none_to : p.x.branch_to ≡ none
        none_to = elim p.target [
          | inl e ↦ e ∙ c.no_target i p.o p.original p.word_was
          | inr (t, _, e, _, _) ↦
              absurd (differ (sym (c.no_target i p.o p.original p.word_was) ∙ e))
        ]
          where
            differ : {t : ℕ} → none ≡ some t → ⊥
            differ z = cc

        at : get_elem? code (s.pc_of i + 1) ≡ some (literal p.o.param)
        at =
            op_parameter Native.lit p refl
            ∙ rw none_to refl
            ∙ ap (λ v. some (literal v)) p.same_param

    -- A branch's parameter, and where it leads.
    jump-Turn :
        (n : Native) (p : At (native n)) (vs : List Value)
        → parameters n ≡ 1
        → (t : ℕ) → p.o.branch_to ≡ some t
        → Arrives fpu code_of effects prog inline_word e₀ is_destination rank s c vs₀ below t vs
        → (o : ℤ) × (get_elem? code (s.pc_of i + 1) ≡ some (offset o))
          × Good (jump_by fpu code_of again code (s.pc_of i + 1 + 1) o (vs ++ below))
    unfolding jump_by
    jump-Turn n p vs one t to r =
        let (u, e, moves, goes, g) =
          jumps fpu code_of effects prog inline_word e₀ is_destination rank s c vs₀ below i n kept p
            cut again vs good one t to r in
        let behind : s.pc_of i + 2 ≡ s.pc_of i + 1 + 1 = omega arith in
        let moves' =
          ap (λ q. moved q (branch_offset (s.pc_of u) (s.pc_of i))) (sym behind) ∙ moves in
        (
          branch_offset (s.pc_of u) (s.pc_of i),
          op_parameter n p one ∙ ap some e,
          rw (jump_by, moves')
              (map-IsGood fpu code_of effects prog inline_word e₀ is_destination rank s c vs₀ below
                _ (weaken u goes) g),
        )

    branch-Turn : (vs : List Value) → At (native Native.branch) → Comes vs → Turn Native.branch vs
    unfolding native_word do_branch parameters
    branch-Turn vs p r =
        let (t', to', _) = c.source.resolved i p.x p.found (ap is_jump p.word_is) in
        let (t, to) = original_target t' to' in
        let (o, at, g) =
          jump-Turn Native.branch p vs refl t to (next r (jump p.o t p.original p.word_was to)) in
        subst (λ x. Good (do_branch fpu code_of again code (s.pc_of i + 1) (vs ++ below) x))
          (sym at) g
      where
        original_target : (t' : ℕ) → p.x.branch_to ≡ some t' → (t : ℕ) × (p.o.branch_to ≡ some t)
        original_target t' to = elim p.target [
          | inl e ↦ (t', sym e ∙ to)
          | inr (t, _, e, _, _) ↦ (t, e)
        ]

    zbranch-Turn :
        (v : Value) (vs : List Value)
        → At (native Native.zbranch)
        → Comes (v ∷ vs)
        → Turn Native.zbranch (v ∷ vs)
    unfolding native_word do_zbranch parameters
    zbranch-Turn v vs p r =
        let (t, to) = c.targets i p.o p.original p.word_was in
        let (o, at, g) =
          jump-Turn Native.zbranch p vs refl t to
            (next r (jump_zero p.o t p.original p.word_was to)) in
        subst (λ x. Good (do_zbranch fpu code_of again code (s.pc_of i + 1) (v ∷ vs ++ below) x))
          (sym at)
          (if-cases Good (truthy v)
            (onward Native.zbranch p vs (λ z. cc) refl
              (next r (fall_through p.o p.original p.word_was)) (s.pc_of i + 1 + 1) refl)
            g)

    other-Turn :
        (n : Native) (vs : List Value)
        → At (native n)
        → (core_effect n).ins ≤ length (inputs (core_effect n))
        → ((vs : List Value)
            → Accepts vs (inputs (core_effect n))
            → (vs' : List Value) × (apply_native fpu n vs ≡ some vs')
              × Honours (core_effect n) vs vs')
        → Accepts vs (inputs (core_effect n))
        → ((vs' : List Value)
            → Honours (core_effect n) vs vs'
            → Arrives fpu code_of effects prog inline_word e₀ is_destination rank s c vs₀ below
                (i + 1)
                vs')
        → Turn n vs
    other-Turn n vs p small runs a arrives =
        let (after, e, h) = runs (vs ++ below) (Accepts-append vs below _ a) in
        let enough = length-Accepts vs _ a in
        let (vs', same, h') =
          Honours-append (core_effect n) vs below after (omega (arith, small, enough)) h in
        let (step, no_params) =
          other_native fpu code_of again n code (s.pc_of i + 1) (vs ++ below) after e in
        let (no_ret, plain) = other_word fpu n (vs ++ below) after e in
        subst Good (sym (step ∙ ap (again code (s.pc_of i + 1)) same))
          (onward n p vs' no_ret plain (arrives vs' h') (s.pc_of i + 1) (omega (arith, no_params)))

    -- The turn at a native word, where its inputs are on the stack.
    pub native-Turn :
        (n : Native) (vs : List Value)
        → At (native n)
        → IsRunnable fpu code_of effects prog inline_word e₀ (native n)
        → Ready effects prog inline_word e₀ (native n) vs
        → Comes vs
        → Turn n vs
    unfolding core_effect stack_effect inputs
    native-Turn Native.lit vs p k rd r = lit-Turn vs p r
    native-Turn Native.branch vs p k rd r = branch-Turn vs p r
    native-Turn Native.zbranch [] p k rd r = absurd rd
    native-Turn Native.zbranch (v ∷ vs) p k rd r = zbranch-Turn v vs p r
    native-Turn Native.ret vs p k rd r = ret-Turn vs p r
    native-Turn Native.recurse vs p k rd r =
        absurd (not_recurse fpu code_of effects prog inline_word e₀ k)
    native-Turn n vs p (small, runs) rd r = other-Turn n vs p small runs rd (λ vs' h. next r (
        call p.o p.original (subst IsCall (sym p.word_was) tt) (
          subst (λ w. Honours (Applied.effect_used effects prog inline_word e₀ w) vs vs')
            (sym p.word_was) h)))
