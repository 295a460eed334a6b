-- ===== src/Codegen/Runs/Groups.antt =====
-- The turn at a group of compiled words, under one INTERP word or its tail version.
use tails.Prelude.{
  ℕ, zero, suc, ◌+◌, ◌≤◌, ◌≡◌, ◌≢◌, refl, sym, ap, ◌∙◌, subst, ◌⊎◌, inl, inr, Bool, true, false,
  List, ◌∷◌, ◌++◌, some, arith, length, get_elem?, drop, some_cancel, if◌then◌else◌,
}
use tails.Prelude.Members.{In}
use tails.StackEffect.{StackEffect, inputs}
use tails.Value.{Value}
use tails.Value.Arithmetic.{Fpu}
use tails.EffectStack.Laws.{Accepts, Honours}
use tails.Word.{Native, Word, native, interpreted, stack_effect}
use tails.Checker.{SourceWord}
use tails.Checker.Applied
use tails.Checker.Sound.{next, call, Ready, IsCall}
use tails.Vm.{Instruction, op, word, Outcome, done, out_of_fuel}
use tails.Vm.Run.{Runner, run, native_word, do_interp, call_words, then_do}
use tails.Vm.Run.Calls.{call_words-suc, call_first}
use tails.Codegen.{Layout, assemble_word, interp_word}
use tails.Result.{ok, ok-injective}
use tails.Codegen.Grouped.{Member, Group}
use tails.Codegen.Above.{Accepts-append, length-Accepts, Honours-append, drop-get, drop-next}
use tails.Codegen.Runs.Turns.{
  here_code, Arrives, IsGood, GoodFrom, rewritten-Place, map-IsGood, Goes, later,
}
use tails.Codegen.Runs.{IsRunnable, Compiled, Reached, IsHonest, Reach-Leads}

-- What an INTERP word does, by its place in `kInterpWords`.
interp_word-calls :
    (fpu : Fpu) (code_of : ℕ → List Instruction) (again : Runner) (tail : Bool) (more : ℕ)
    (h : Native) (code : List Instruction) (pc : ℕ) (s : List Value)
    → interp_word tail more ≡ ok h
    → native_word fpu code_of again h code pc s ≡ (
        if tail
        then call_words fpu code_of again code (suc more) pc s
        else do_interp fpu code_of again (suc more) code pc s)
unfolding interp_word native_word
interp_word-calls fpu code_of again true zero h code pc s e = rw (← ok-injective e) refl
interp_word-calls fpu code_of again true (suc zero) h code pc s e = rw (← ok-injective e) refl
interp_word-calls fpu code_of again true (suc (suc zero)) h code pc s e = rw (← ok-injective e) refl
interp_word-calls fpu code_of again true (suc (suc (suc zero))) h code pc s e =
    rw (← ok-injective e) refl
interp_word-calls fpu code_of again false zero h code pc s e = rw (← ok-injective e) refl
interp_word-calls fpu code_of again false (suc zero) h code pc s e = rw (← ok-injective e) refl
interp_word-calls fpu code_of again false (suc (suc zero)) h code pc s e =
    rw (← ok-injective e) refl
interp_word-calls fpu code_of again false (suc (suc (suc zero))) h code pc s e =
    rw (← ok-injective e) refl
interp_word-calls fpu code_of again tail (suc (suc (suc (suc n)))) h code pc s e = absurd (cc)

module _ (fpu : Fpu) (code_of : ℕ → List Instruction) (effects : ℕ → StackEffect)
    (prog : List SourceWord) (inline_word : Bool) (e₀ : StackEffect) (is_destination : ℕ → Bool)
    (rank : ℕ → ℕ) (s : Layout)
    (c : Compiled fpu code_of effects prog inline_word e₀ is_destination rank s)
    (vs₀ below : List Value)
    (ready : (i : ℕ) (vs : List Value)
      → Reached fpu code_of effects prog inline_word e₀ vs₀ i vs
      → (w : SourceWord) × (get_elem? prog i ≡ some w)
        × Ready effects prog inline_word e₀ w.word vs) where
  abbrev code : List Instruction
  code = here_code fpu code_of effects prog inline_word e₀ is_destination rank s c vs₀ below

  abbrev Good : Type 0 → Outcome → Type 0
  Good = IsGood fpu code_of effects prog inline_word e₀ is_destination rank s c vs₀ below

  abbrev Comes : ℕ → List Value → Type 0
  Comes = Arrives fpu code_of effects prog inline_word e₀ is_destination rank s c vs₀ below

  module _ (i : ℕ) (kept : In i s.kept) (h : Native) (headed : s.interp_of i ≡ some h)
      (g : Group prog (length prog) s i h) where
    first_member : Member s i 0
    first_member = g.members 0 (omega arith)

    at_start : {j : ℕ} (m : Member s i j) → j ≡ 0 → get_elem? s.words i ≡ some m.w
    at_start m e = ap (get_elem? s.words) (omega (arith, e)) ∙ m.found

    head_code :
        (rest : List Instruction) × (drop (s.pc_of i) code ≡ op h ∷ word first_member.k ∷ rest)
    unfolding assemble_word
    head_code =
        let m = first_member in
        let (rest, e) = c.assembled.in_place i m.w kept (at_start m refl) in
        (rest, e ∙ rw (m.word, headed) refl)

    pub at_head : get_elem? code (s.pc_of i) ≡ some (op h)
    at_head = let (rest, e) = head_code in drop-get (s.pc_of i) code _ (op h) e

    -- The word to call at each place behind the head.
    at_member : (j : ℕ) (m : Member s i j) → get_elem? code (s.pc_of i + 1 + j) ≡ some (word m.k)
    unfolding assemble_word
    at_member zero m =
        let (rest, e) = head_code in
        let same : first_member.k ≡ m.k = injective (
          sym first_member.word
          ∙ ap (λ y. y.word) (some_cancel (sym first_member.found ∙ m.found))
          ∙ m.word) in
        ap (get_elem? code) (omega arith)
        ∙ drop-get (s.pc_of i + 1) code rest (word first_member.k)
            (drop-next (s.pc_of i) code _ (op h) e)
        ∙ ap (λ k. some (word k)) same
      where
        injective : {k l : ℕ} → interpreted k ≡ interpreted l → k ≡ l
        injective z = cc
    at_member (suc j) m =
        let (p, none_of) = m.later (λ z. cc) in
        let (rest, e) = c.assembled.in_place (i + suc j) m.w m.kept m.found in
        ap (get_elem? code) (sym p)
        ∙ drop-get (s.pc_of (i + suc j)) code rest (word m.k)
            (e ∙ rw (m.word, assemble_word, none_of) refl)

    -- The calls have not ended, or the stack is that behind the group.
    abbrev IsCalled : Type 0 → Outcome → Type 0
    IsCalled cut o =
        (cut × (o ≡ out_of_fuel))
        ⊎ ((vs : List Value) × (o ≡ done (vs ++ below)) × Comes (i + suc g.more) vs)

    original :
        (j : ℕ) (m : Member s i j)
        → (o : SourceWord) × (get_elem? prog (i + j) ≡ some o) × (o.word ≡ interpreted m.k)
    original j m =
        let p =
          rewritten-Place fpu code_of effects prog inline_word e₀ is_destination rank s c vs₀ below
            (i + j) m.w m.found in
        (p.o, p.original, p.word_was ∙ m.word)

    -- The word is compiled, its inputs are there, and it keeps its effect.
    called :
        (j : ℕ) (m : Member s i j) (vs : List Value)
        → Comes (i + j) vs
        → ((effects m.k).ins ≤ length (inputs (effects m.k)))
          × Accepts vs (inputs (effects m.k))
          × ((fuel : ℕ) (vs : List Value)
              → Accepts vs (inputs (effects m.k))
              → IsHonest (effects m.k) vs (run fpu code_of fuel (code_of m.k) 0 vs))
    unfolding stack_effect
    called j m vs a =
        let (o, f, was) = original j m in
        let (small, honest) : IsRunnable fpu code_of effects prog inline_word e₀ (interpreted m.k) =
          subst (IsRunnable fpu code_of effects prog inline_word e₀) was (c.runnable (i + j) o f) in
        let (w, f', rd) = ready (i + j) vs a in
        let word_is : w.word ≡ interpreted m.k =
          ap (λ y. y.word) (some_cancel (sym f' ∙ f)) ∙ was in
        (small, subst (λ x. Ready effects prog inline_word e₀ x vs) word_is rd, honest)

    arrives :
        (j : ℕ) (m : Member s i j) (vs vs' : List Value)
        → Comes (i + j) vs
        → Honours (effects m.k) vs vs'
        → Comes (i + (j + 1)) vs'
    unfolding stack_effect
    arrives j m vs vs' a h =
        let (o, f, was) = original j m in
        let behind : i + j + 1 ≡ i + (j + 1) = omega arith in
        subst (λ q. Comes q vs') behind
          (next a (
            call o f (subst IsCall (sym was) tt) (
              subst (λ w. Honours (Applied.effect_used effects prog inline_word e₀ w) vs vs')
                (sym was) h)))

    module _ (fuel : ℕ) (cut : Type 0)
        (unfinished : (j : ℕ) (w : SourceWord) (k : ℕ) (vs : List Value)
          → get_elem? prog j ≡ some w
          → w.word ≡ interpreted k
          → Accepts vs (inputs (effects k))
          → run fpu code_of fuel (code_of k) 0 vs ≡ out_of_fuel
          → cut) where
      abbrev again : Runner
      again = run fpu code_of fuel

      calls-IsCalled :
          (r j : ℕ) (vs : List Value)
          → j + r ≡ suc g.more
          → Comes (i + j) vs
          → IsCalled cut (call_words fpu code_of again code r (s.pc_of i + 1 + j) (vs ++ below))
      calls-IsCalled zero j vs e a =
          let at_end : i + j ≡ i + suc g.more = omega (arith, e) in
          inr (vs, unfold call_words in refl, subst (λ q. Comes q vs) at_end a)
      calls-IsCalled (suc r) j vs e a =
          let m = g.members j (omega (arith, e)) in
          let rest : List Value → Outcome =
            λ s'. call_words fpu code_of again code r (s.pc_of i + 1 + j + 1) s' in
          let step =
            call_words-suc fpu code_of again code r (s.pc_of i + 1 + j) (vs ++ below)
            ∙ ap (λ x. call_first code_of again x (vs ++ below) rest) (at_member j m) in
          let (small, accepted, honest) = called j m vs a in
          elim (honest fuel (vs ++ below) (Accepts-append vs below _ accepted)) [
            | inl z ↦
                let (o, f, was) = original j m in
                inl (
                  unfinished (i + j) o m.k (vs ++ below) f was (Accepts-append vs below _ accepted)
                      z,
                  step ∙ ap (λ o. then_do o rest) z,
                )
            | inr (after, done_with, h) ↦
                let enough = length-Accepts vs _ accepted in
                let (vs', same, h') =
                  Honours-append (effects m.k) vs below after (omega (arith, small, enough)) h in
                let further : s.pc_of i + 1 + (j + 1) ≡ s.pc_of i + 1 + j + 1 = omega arith in
                subst (IsCalled cut)
                  (sym (step ∙ ap (λ o. then_do o rest) (done_with ∙ ap done same)))
                  (subst (λ q. IsCalled cut (call_words fpu code_of again code r q (vs' ++ below)))
                    further
                    (calls-IsCalled r (j + 1) vs' (omega (arith, e)) (arrives j m vs vs' a h')))
          ]

      returned : {o : Outcome} → g.tail ≡ true → IsCalled cut o → Good cut o
      returned t (inl (x, z)) = inl (x, z)
      returned t (inr (vs, e, a)) =
          let (j, w, leads, f, ret) = g.returns t in
          inr (
            j,
            w,
            vs,
            e,
            Reach-Leads fpu code_of effects prog inline_word e₀ c.runnable leads a,
            f,
            ret,
          )

      went_on :
          {o : Outcome} (cut_at : ℕ → Type 0)
          → ((j : ℕ)
              → Goes fpu code_of effects prog inline_word e₀ is_destination rank s c vs₀ below i j
              → cut_at j
              → cut)
          → GoodFrom fpu code_of effects prog inline_word e₀ is_destination rank s c vs₀ below
              cut_at again
          → IsCalled cut o
          → Good cut (then_do o (λ s'. again code (s.pc_of i + 1 + suc g.more) s'))
      went_on cut_at weaken good (inl (x, z)) =
          inl (x, ap (λ o. then_do o (λ s'. again code (s.pc_of i + 1 + suc g.more) s')) z)
      went_on cut_at weaken good (inr (vs, e, a)) =
          subst (Good cut)
            (sym (ap (λ o. then_do o (λ s'. again code (s.pc_of i + 1 + suc g.more) s')) e))
            (elim g.next [
              | inl (at_end, _, _, _) ↦ absurd (no_end at_end)
              | inr (k, entry, pc, _) ↦
                  subst (λ q. Good cut (again code q (vs ++ below))) pc
                    (map-IsGood fpu code_of effects prog inline_word e₀ is_destination rank s c vs₀
                      below _ (weaken (i + suc g.more) (later (omega arith)))
                      (good (i + suc g.more) vs k entry a))
            ])
        where
          no_end : i + suc g.more ≡ length prog → ⊥
          no_end e =
              let m = g.members g.more (omega arith) in
              omega
                (arith, e, c.same_length, c.source.ended (i + g.more) m.w m.found (not_ret m.word))
            where
              not_ret : {x : Word} {k : ℕ} → x ≡ interpreted k → x ≢ native Native.ret
              not_ret p q = differ (sym p ∙ q)
                where
                  differ : {k : ℕ} → interpreted k ≡ native Native.ret → ⊥
                  differ z = cc

      -- The turn at the head.
      pub group-Turn :
          (vs : List Value) (cut_at : ℕ → Type 0)
          → ((j : ℕ)
              → Goes fpu code_of effects prog inline_word e₀ is_destination rank s c vs₀ below i j
              → cut_at j
              → cut)
          → GoodFrom fpu code_of effects prog inline_word e₀ is_destination rank s c vs₀ below
              cut_at again
          → Comes i vs
          → Good cut (native_word fpu code_of again h code (s.pc_of i + 1) (vs ++ below))
      unfolding do_interp
      group-Turn vs cut_at weaken good a =
          let start : i + 0 ≡ i = omega arith in
          let first : s.pc_of i + 1 + 0 ≡ s.pc_of i + 1 = omega arith in
          let calls : IsCalled cut
              (call_words fpu code_of again code (suc g.more) (s.pc_of i + 1) (vs ++ below)) =
            subst
              (λ q. IsCalled cut (call_words fpu code_of again code (suc g.more) q (vs ++ below)))
              first
              (calls-IsCalled (suc g.more) 0 vs (omega arith)
                (subst (λ q. Comes q vs) (sym start) a)) in
          let step =
            interp_word-calls fpu code_of again g.tail g.more h code (s.pc_of i + 1) (vs ++ below)
              g.head in
          subst (Good cut) (sym step) (by_tail g.tail refl calls)
        where
          by_tail :
              (t : Bool)
              → g.tail ≡ t
              → IsCalled cut
                  (call_words fpu code_of again code (suc g.more) (s.pc_of i + 1) (vs ++ below))
              → Good cut (
                  if t
                  then call_words fpu code_of again code (suc g.more) (s.pc_of i + 1) (vs ++ below)
                  else do_interp fpu code_of again (suc g.more) code (s.pc_of i + 1) (vs ++ below))
          by_tail true t calls = returned t calls
          by_tail false t calls = went_on cut_at weaken good calls
