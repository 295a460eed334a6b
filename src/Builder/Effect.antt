-- ===== src/Builder/Effect.antt =====
-- The declared effect of the object, which no step of the parser changes.
use tails.Prelude.{ℕ, ◌≡◌, Option, none, some, get_elem?, set, true, subst}
use tails.Result.{ok, >>=-eq-ok, guard, ok-injective}
use tails.Word.{Native}
use tails.Checker.{SourceWord}
use tails.Codegen.{at}
use tails.Builder.{
  Builder, last, add, branches_to, fix_branch, push_branch, push_position, pop_control, pop_branch,
  add_recurse, add_branch_back_to, parse_if, parse_else, parse_then, parse_begin, parse_while,
  parse_repeat, top_is_begin, match_if, match_if_else, match_begin, match_while, Matching,
  Identifier,
}
use tails.Builder.Steps.{IsKept}

pub record SameEffect (b b' : Builder) : Type 0 where
  pub effect : b'.effect ≡ b.effect
  pub inputs : b'.can_add_inputs ≡ b.can_add_inputs
  pub outputs : b'.can_add_outputs ≡ b.can_add_outputs

module _ (b₀ : Builder) where
  branches_to-SameEffect :
      (i t : ℕ) (b : Builder) → SameEffect b₀ b → SameEffect b₀ (branches_to i t b)
  unfolding branches_to
  branches_to-SameEffect i t b v = by_word (get_elem? b.words i)
    where
      by_word :
          (o : Option SourceWord)
          → SameEffect b₀ (elim o [
            | some w ↦ record b {
              words = set b.words i (record w { branch_to = some t });
              is_destination = at b.is_destination t true;
            }
            | none ↦ b
          ])
      by_word (some w) = record { effect = v.effect; inputs = v.inputs; outputs = v.outputs }
      by_word none = v

  add-SameEffect : (w : SourceWord) (b : Builder) → SameEffect b₀ b → SameEffect b₀ (add w b)
  unfolding add
  add-SameEffect w b v = record { effect = v.effect; inputs = v.inputs; outputs = v.outputs }

  push_branch-SameEffect :
      (k : Identifier) (n : Native) (b : Builder)
      → SameEffect b₀ b
      → SameEffect b₀ (push_branch k n b)
  unfolding push_branch add
  push_branch-SameEffect k n b v = record {
    effect = v.effect;
    inputs = v.inputs;
    outputs = v.outputs;
  }

  pop_branch-SameEffect :
      (m : Matching) (i : ℕ) (b b' : Builder)
      → SameEffect b₀ b
      → pop_branch m b ≡ ok (i, b')
      → SameEffect b₀ b'
  unfolding pop_branch
  pop_branch-SameEffect m i b b' v h =
      let ((j, control), _, e) = >>=-eq-ok (pop_control m b.control) _ h in
      subst (λ x. SameEffect b₀ x.1) (ok-injective e)
        (record { effect = v.effect; inputs = v.inputs; outputs = v.outputs })

  fix_branch-SameEffect : (i : ℕ) (b : Builder) → SameEffect b₀ b → SameEffect b₀ (fix_branch i b)
  unfolding fix_branch
  fix_branch-SameEffect i b v = branches_to-SameEffect i (last b) b v

  -- Every step of the parser keeps the declared effect.
  pub SameEffect-IsKept : IsKept (SameEffect b₀)
  unfolding parse_if parse_else parse_then parse_begin parse_while parse_repeat add_recurse
      add_branch_back_to push_position
  SameEffect-IsKept = record {
    added = λ {b} w v plain. add-SameEffect w b v;
    recursed = λ {b} v. branches_to-SameEffect (last b) 0 _ (add-SameEffect _ b v);
    at_if = λ {b} v. push_branch-SameEffect _ _ b v;
    at_else = λ {b} {b'} v h.
        let ((i, b₁), e, f) = >>=-eq-ok (pop_branch match_if b) _ h in
        subst (SameEffect b₀) (ok-injective f) (
          fix_branch-SameEffect i _
            (push_branch-SameEffect _ _ b₁ (pop_branch-SameEffect match_if i b b₁ v e)));
    at_then = λ {b} {b'} v h.
        let ((i, b₁), e, f) = >>=-eq-ok (pop_branch match_if_else b) _ h in
        subst (SameEffect b₀) (ok-injective f)
          (fix_branch-SameEffect i b₁ (pop_branch-SameEffect match_if_else i b b₁ v e));
    at_begin = λ {b} v. record { effect = v.effect; inputs = v.inputs; outputs = v.outputs };
    at_while = λ {b} {b'} v h.
        let (_, _, f) = >>=-eq-ok (guard (top_is_begin b.control) _) _ h in
        subst (SameEffect b₀) (ok-injective f) (push_branch-SameEffect _ _ b v);
    at_repeat = λ {b} {b'} v h.
        let ((i, b₁), e, f) = >>=-eq-ok (pop_branch match_while b) _ h in
        let ((t, b₂), g, k) = >>=-eq-ok (pop_branch match_begin b₁) _ f in
        subst (SameEffect b₀) (ok-injective k) (
          fix_branch-SameEffect i _ (
            branches_to-SameEffect (last b₂) t _ (
              add-SameEffect _ b₂ (
                pop_branch-SameEffect match_begin t b₁ b₂
                  (pop_branch-SameEffect match_while i b b₁ v e) g))));
  }
