-- ===== src/Builder/Control.antt =====
-- Each control word keeps the invariant, and so does every way to put a word together. When the
-- control stack is empty at the end, code can be generated.
use tails.Prelude.{
  contradiction, ℕ, zero, suc, ◌+◌, ◌≤◌, ◌<◌, ◌≡◌, ◌≢◌, refl, sym, ap, ◌∙◌, subst, ◌⊎◌, inl, inr,
  true, false, List, [], ◌∷◌, none, some, arith, length, get_elem?, some_cancel,
}
use tails.Result.{ok, ◌>>=◌, guard, >>=-eq-ok, ok-injective}
use tails.StackEffect.{empty_effect}
use tails.Value.{Value, null}
use tails.Word.{Native, native, parameters}
use tails.Checker.{SourceWord}
use tails.Codegen.{parameters_of}
use tails.Builder.{
  Builder, Identifier, of_if, of_else, of_begin, of_while, simple_word, placeholder, new_builder,
  set_stack_effect, set_inline, set_input_stack, add_inputs, last, add, fix_branch,
  add_branch_back_to, push_branch, push_position, match_if, match_if_else, match_begin, match_while,
  matches, pop_branch, parse_if, parse_else, parse_then, parse_begin, parse_while, parse_repeat,
  top_is_begin,
}
use tails.Builder.Built.{Built, has_target, length-add, add-Built}
use tails.Builder.Targets.{length-branches_to}
use tails.Builder.Steps.{
  Waiting, Positions, IsBuilder, Compiles, created, declared, inlined, stacked, added, recursed,
  at_if, at_else, at_then, at_begin, at_while, at_repeat,
}
use tails.Builder.Branches.{
  Positions-more, Built-words, add_resolved, push_branch-Built, length-push_branch, pop_branch_lem,
  same_control, add_recurse-IsBuilder, push_branch-IsBuilder, fix_branch-IsBuilder, popped,
}

parse_else-IsBuilder : (b b' : Builder) → IsBuilder b → parse_else b ≡ ok b' → IsBuilder b'
unfolding parse_else push_branch add
parse_else-IsBuilder b b' v h =
    let ((i, b₁), e, f) =
      >>=-eq-ok (pop_branch match_if b)
        (λ (i, b₁). ok (fix_branch i (push_branch of_else Native.branch b₁))) h in
    let (w, p, inside) = popped match_if b v refl e in
    let more = length-push_branch of_else Native.branch b₁ in
    subst IsBuilder (ok-injective f) (
      fix_branch-IsBuilder i (push_branch of_else Native.branch b₁)
        (push_branch-Built of_else Native.branch b₁ w refl
          (λ j x. elim x [ inl s ↦ inl s | inr s ↦ inr (inr s) ]) (inr (inl (refl, refl)))
          (λ j x. elim x [
            | inl s ↦ inl (inl s)
            | inr (inl (_, s)) ↦ inr s
            | inr (inr s) ↦ inl (inr s)
          ]))
        (
          omega (arith, more, w.some_words),
          (λ _. omega (arith, more, w.some_words)),
          Positions-more (length b₁.words) (length (push_branch of_else Native.branch b₁).words)
              b₁.control (omega (arith, more)) p,
        )
        (omega (arith, more, inside)))

parse_then-IsBuilder : (b b' : Builder) → IsBuilder b → parse_then b ≡ ok b' → IsBuilder b'
unfolding parse_then
parse_then-IsBuilder b b' v h =
    let ((i, b₁), e, f) =
      >>=-eq-ok (pop_branch match_if_else b) (λ (i, b₁). ok (fix_branch i b₁)) h in
    let (w, p, inside) = popped match_if_else b v refl e in
    subst IsBuilder (ok-injective f) (fix_branch-IsBuilder i b₁ w p inside)

parse_begin-IsBuilder : (b : Builder) → IsBuilder b → IsBuilder (parse_begin b)
unfolding parse_begin push_position
parse_begin-IsBuilder b v = record {
  built = Built-words b (parse_begin b) refl refl (weaker v.built);
  positions = (omega (arith, v.built.some_words), (λ e. absurd (cc)), v.positions);
}
  where
    weaker :
        Built (λ i. Waiting i b.control) b
        → Built (λ i. Waiting i ((of_begin, last b) ∷ b.control)) b
    weaker w = record {
      some_words = w.some_words;
      ends = w.ends;
      lands = w.lands;
      resolved = λ i x e t. elim (w.resolved i x e t) [ inl r ↦ inl r | inr s ↦ inr (inr s) ];
      ordinary = w.ordinary;
      targetless = w.targetless;
      branches = λ i x. elim x [ inl (z, _) ↦ absurd (cc) | inr y ↦ w.branches i y ];
    }

parse_while-IsBuilder : (b b' : Builder) → IsBuilder b → parse_while b ≡ ok b' → IsBuilder b'
unfolding parse_while
parse_while-IsBuilder b b' v h =
    let (u, e, f) =
      >>=-eq-ok (guard (top_is_begin b.control) _) (λ _. ok (push_branch of_while Native.zbranch b))
        h in
    subst IsBuilder (ok-injective f) (push_branch-IsBuilder of_while Native.zbranch b v refl refl)

-- The BEGIN under the WHILE.
popped_begin :
    (i : ℕ) (b : Builder) {t : ℕ} {b' : Builder}
    → Built (λ j. (i ≡ j) ⊎ Waiting j b.control) b
    → Positions (length b.words) b.control
    → pop_branch match_begin b ≡ ok (t, b')
    → (b'.words ≡ b.words)
      × Built (λ j. (i ≡ j) ⊎ Waiting j b'.control) b'
      × Positions (length b'.words) b'.control
      × (t < length b'.words)
popped_begin i b {t = t} {b' = b'} v p h =
    let (k, control, c, q, same) = pop_branch_lem match_begin b h in
    let (inside, _, rest) = subst (Positions (length b.words)) c p in
    subst
      (λ x.
        (x.words ≡ b.words)
        × Built (λ j. (i ≡ j) ⊎ Waiting j x.control) x
        × Positions (length x.words) x.control
        × (t < length x.words))
      (sym same)
      (
        refl,
        Built-words b (record b { control = control }) refl refl
            (weaker k control q (subst (λ x. Built (λ j. (i ≡ j) ⊎ Waiting j x) b) c v)),
        rest,
        inside,
      )
  where
    weaker :
        (k : Identifier) (control : List (Identifier × ℕ))
        → matches match_begin k ≡ true
        → Built (λ j. (i ≡ j) ⊎ Waiting j ((k, t) ∷ control)) b
        → Built (λ j. (i ≡ j) ⊎ Waiting j control) b
    weaker k control m w = record {
      some_words = w.some_words;
      ends = w.ends;
      lands = w.lands;
      resolved = λ j x e g. elim (w.resolved j x e g) [
        | inl r ↦ inl r
        | inr (inl s) ↦ inr (inl s)
        | inr (inr (inl (n, s))) ↦ contradiction m n
        | inr (inr (inr s)) ↦ inr (inr s)
      ];
      ordinary = w.ordinary;
      targetless = w.targetless;
      branches = λ j x. w.branches j (elim x [ inl e ↦ inl e | inr y ↦ inr (inr y) ]);
    }

parse_repeat-IsBuilder : (b b' : Builder) → IsBuilder b → parse_repeat b ≡ ok b' → IsBuilder b'
unfolding parse_repeat add_branch_back_to add
parse_repeat-IsBuilder b b' v h =
    let ((i, b₁), e, f) =
      >>=-eq-ok (pop_branch match_while b)
        (λ (i, b₁). do
          (t, b₂) ← pop_branch match_begin b₁
          ok (fix_branch i (add_branch_back_to t b₂)))
        h in
    let ((t, b₂), g, k) =
      >>=-eq-ok (pop_branch match_begin b₁) (λ (t, b₂). ok (fix_branch i (add_branch_back_to t b₂)))
        f in
    let (w₁, p₁, inside) = popped match_while b v refl e in
    let (same, w₂, p₂, in_words) = popped_begin i b₁ w₁ p₁ g in
    let b₃ = add_branch_back_to t b₂ in
    let w = simple_word (native Native.branch) null in
    let control = same_control (last b₂) t (add w b₂) in
    let more : length b₃.words ≡ length b₂.words + 1 =
      length-branches_to (last b₂) t (add w b₂) ∙ length-add w b₂ in
    subst IsBuilder (ok-injective k) (
      fix_branch-IsBuilder i b₃
        (subst (λ c. Built (λ j. (i ≡ j) ⊎ Waiting j c) b₃) (sym control)
          (add_resolved Native.branch t b₂ w₂ refl in_words))
        (subst (Positions (length b₃.words)) (sym control)
          (Positions-more (length b₂.words) (length b₃.words) b₂.control (omega (arith, more)) p₂))
        (omega (arith, more, inside, ap length same)))

set_input_stack-IsBuilder :
    (vs : List Value) (b b' : Builder) → IsBuilder b → set_input_stack vs b ≡ ok b' → IsBuilder b'
unfolding set_input_stack
set_input_stack-IsBuilder vs b b' v h =
    let (e, _, f) =
      >>=-eq-ok (add_inputs vs empty_effect)
        (λ e. ok (record b { effect = e; can_add_inputs = false; can_add_outputs = true })) h in
    subst IsBuilder (ok-injective f) (record {
      built =
          Built-words b (record b { effect = e; can_add_inputs = false; can_add_outputs = true })
            refl refl v.built;
      positions = v.positions;
    })

-- In every object that a compilation goes through, the list ends in NOP; every branch that has a
-- target goes to a word of the list that is marked as a destination; every branch that has none, and
-- no BEGIN, is on the control stack; and the positions there are in the list.
pub Compiles-IsBuilder : (b : Builder) → Compiles b → IsBuilder b
unfolding new_builder set_stack_effect set_inline add parse_if parameters_of parameters
Compiles-IsBuilder b created = record {
  built = record {
    some_words = omega arith;
    ends = refl;
    lands = λ i w t e to. absurd (no_target i w t e to);
    resolved = λ i w e k. absurd (no_jump i w e k);
    ordinary = only;
    targetless = plain;
    branches = λ i x. absurd x;
  };
  positions = tt;
}
  where
    no_target :
        (i : ℕ) (w : SourceWord) (t : ℕ)
        → get_elem? (placeholder ∷ []) i ≡ some w
        → w.branch_to ≡ some t
        → ⊥
    no_target zero w t e to = differ (ap (λ x. x.branch_to) (some_cancel e) ∙ to)
      where
        differ : none ≡ some t → ⊥
        differ x = cc
    no_target (suc i) w t e to = cc

    no_jump :
        (i : ℕ) (w : SourceWord)
        → get_elem? (placeholder ∷ []) i ≡ some w
        → has_target w.word ≡ true
        → ⊥
    no_jump zero w e k = contradiction (ap (λ x. has_target (x.word)) (some_cancel e) ∙ k) refl
    no_jump (suc i) w e k = cc

    plain :
        (i : ℕ) (w : SourceWord)
        → get_elem? (placeholder ∷ []) i ≡ some w
        → has_target w.word ≡ false
        → w.branch_to ≡ none
    plain zero w e k = ap (λ x. x.branch_to) (sym (some_cancel e))
    plain (suc i) w e k = absurd (cc)

    only :
        (i : ℕ) (w : SourceWord)
        → get_elem? (placeholder ∷ []) i ≡ some w
        → (w.word ≢ native Native.ret) × (parameters_of w.word ≤ 1)
    only zero w e =
        subst (λ x. (x.word ≢ native Native.ret) × (parameters_of x.word ≤ 1)) (some_cancel e)
          ((λ x. cc), omega arith)
    only (suc i) w e = absurd (cc)
Compiles-IsBuilder _ (declared {b = b} e ins outs c) =
    let v = Compiles-IsBuilder b c in
    record {
      built = Built-words b (set_stack_effect e ins outs b) refl refl v.built;
      positions = v.positions;
    }
Compiles-IsBuilder _ (inlined {b = b} c) =
    let v = Compiles-IsBuilder b c in
    record { built = Built-words b (set_inline b) refl refl v.built; positions = v.positions }
Compiles-IsBuilder b' (stacked {b = b} vs c h) =
    set_input_stack-IsBuilder vs b b' (Compiles-IsBuilder b c) h
Compiles-IsBuilder _ (added {b = b} w c (none_to, plain, no_ret, small)) =
    let v = Compiles-IsBuilder b c in
    record {
      built =
          add-Built w b v.built none_to (no_ret, small) (λ i x. x)
            (λ k. (contradiction (sym plain ∙ k) refl)) (λ i x. inl x);
      positions =
          Positions-more (length b.words) (length (add w b).words) b.control
            (omega (arith, length-add w b)) v.positions;
    }
Compiles-IsBuilder _ (recursed {b = b} c) = add_recurse-IsBuilder b (Compiles-IsBuilder b c)
Compiles-IsBuilder _ (at_if {b = b} c) =
    push_branch-IsBuilder of_if Native.zbranch b (Compiles-IsBuilder b c) refl refl
Compiles-IsBuilder b' (at_else {b = b} c h) = parse_else-IsBuilder b b' (Compiles-IsBuilder b c) h
Compiles-IsBuilder b' (at_then {b = b} c h) = parse_then-IsBuilder b b' (Compiles-IsBuilder b c) h
Compiles-IsBuilder _ (at_begin {b = b} c) = parse_begin-IsBuilder b (Compiles-IsBuilder b c)
Compiles-IsBuilder b' (at_while {b = b} c h) = parse_while-IsBuilder b b' (Compiles-IsBuilder b c) h
Compiles-IsBuilder b' (at_repeat {b = b} c h) =
    parse_repeat-IsBuilder b b' (Compiles-IsBuilder b c) h
