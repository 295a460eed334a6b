-- ===== src/Builder/Branches.antt =====
-- How branches are added, wait on the control stack and get their targets, each with the invariant.
use tails.Prelude.{
  ℕ, ◌+◌, ◌-◌, ◌≤◌, ◌<◌, ◌≡◌, ◌≢◌, refl, sym, ap, ◌∙◌, subst, ◌⊎◌, inl, inr, true, false, List, [],
  ◌∷◌, Option, none, some, arith, length, get_elem?, set,
}
use tails.Result.{ok, guard, >>=-eq-ok, guard-eq-ok, ok-injective}
use tails.Value.{null}
use tails.Word.{Native, native, parameters}
use tails.Checker.{SourceWord}
use tails.Codegen.{at, parameters_of}
use tails.Builder.{
  Builder, Identifier, of_if, of_else, of_begin, of_while, simple_word, placeholder, last, add,
  branches_to, add_recurse, fix_branch, push_branch, Matching, match_begin, matches, pop_control,
  pop_branch,
}
use tails.Builder.Built.{Built, has_target, length-add, add-Built}
use tails.Builder.Targets.{branches_to-Built, length-branches_to}
use tails.Builder.Steps.{Waiting, Positions, IsBuilder}

pub Positions-more :
    (n m : ℕ) (control : List (Identifier × ℕ)) → n ≤ m → Positions n control → Positions m control
Positions-more n m [] h p = tt
Positions-more n m ((k, j) ∷ control) h (a, f, p) =
    (omega (arith, a, h), (λ e. omega (arith, f e, h)), Positions-more n m control h p)

-- The other fields play no part.
pub Built-words :
    {waits : ℕ → Type 0} (b b' : Builder)
    → b'.words ≡ b.words
    → b'.is_destination ≡ b.is_destination
    → Built waits b
    → Built waits b'
Built-words {waits = waits} b b' w d v = record {
  some_words = subst (λ ws. 0 < length ws) (sym w) v.some_words;
  ends = subst (λ ws. get_elem? ws (length ws - 1) ≡ some placeholder) (sym w) v.ends;
  lands = λ i x t e to.
      let (range, dest) = v.lands i x t (ap (λ ws. get_elem? ws i) (sym w) ∙ e) to in
      (subst (λ ws. t < length ws) (sym w) range, ap (λ f. f t) d ∙ dest);
  resolved = λ i x e k. v.resolved i x (ap (λ ws. get_elem? ws i) (sym w) ∙ e) k;
  ordinary = λ i x e. v.ordinary i x (ap (λ ws. get_elem? ws i) (sym w) ∙ e);
  targetless = λ i x e k. v.targetless i x (ap (λ ws. get_elem? ws i) (sym w) ∙ e) k;
  branches = λ i x. let (y, g, k) = v.branches i x in (y, ap (λ ws. get_elem? ws i) w ∙ g, k);
}

pub same_control : (i t : ℕ) (b : Builder) → (branches_to i t b).control ≡ b.control
unfolding branches_to
same_control i t b = by_word (get_elem? b.words i)
  where
    by_word :
        (o : Option SourceWord)
        → Builder.control (elim o [
          | some w ↦ record b {
            words = set b.words i (record w { branch_to = some t });
            is_destination = at b.is_destination t true;
          }
          | none ↦ b
        ])
          ≡ b.control
    by_word (some w) = refl
    by_word none = refl

branch_word-ordinary :
    (n : Native)
    → has_target (native n) ≡ true
    → (native n ≢ native Native.ret) × (parameters_of (native n) ≤ 1)
unfolding parameters_of parameters
branch_word-ordinary Native.branch e = ((λ r. cc), omega arith)
branch_word-ordinary Native.zbranch e = ((λ r. cc), omega arith)
branch_word-ordinary Native.recurse e = ((λ r. cc), omega arith)
branch_word-ordinary _ e = absurd (cc)

-- A branch word is added and its target set at once.
pub add_resolved :
    {waits : ℕ → Type 0} (n : Native) (t : ℕ) (b : Builder)
    → Built waits b
    → has_target (native n) ≡ true
    → t < length b.words
    → Built waits (branches_to (last b) t (add (simple_word (native n) null) b))
add_resolved {waits = waits} n t b v k h =
    let w = simple_word (native n) null in
    branches_to-Built {waits = λ i. waits i ⊎ (last b ≡ i)} (last b) t (add w b)
      (add-Built w b v refl (branch_word-ordinary n k) (λ i x. inl x) (λ _. inr refl)
        (λ i x. elim x [ inl y ↦ inl y | inr e ↦ inr (e, k) ]))
      (omega (arith, length-add w b, v.some_words)) (omega (arith, length-add w b, h))
      (λ j x. elim x [ inl y ↦ inr y | inr e ↦ inl e ]) (inr refl) (λ j x. inl x)

pub push_branch-Built :
    {waits waits' : ℕ → Type 0} (k : Identifier) (n : Native) (b : Builder)
    → Built waits b
    → has_target (native n) ≡ true
    → ((i : ℕ) → waits i → waits' i)
    → waits' (last b)
    → ((i : ℕ) → waits' i → waits i ⊎ (last b ≡ i))
    → Built waits' (push_branch k n b)
unfolding push_branch
push_branch-Built k n b v t weaker here stronger =
    Built-words (add (simple_word (native n) null) b) _ refl refl (
      add-Built (simple_word (native n) null) b v refl (branch_word-ordinary n t) weaker (λ _. here)
        (λ i x. elim (stronger i x) [ inl y ↦ inl y | inr e ↦ inr (e, t) ]))

pub length-push_branch :
    (k : Identifier) (n : Native) (b : Builder)
    → length (push_branch k n b).words ≡ length b.words + 1
unfolding push_branch
length-push_branch k n b = length-add (simple_word (native n) null) b

pub pop_branch_lem :
    (m : Matching) (b : Builder) {i : ℕ} {b' : Builder}
    → pop_branch m b ≡ ok (i, b')
    → (k : Identifier) × (control : List (Identifier × ℕ)) × (b.control ≡ (k, i) ∷ control)
      × (matches m k ≡ true)
      × (b' ≡ record b { control = control })
unfolding pop_branch
pop_branch_lem m b {i = i} {b' = b'} h =
    let ((j, control), e, f) =
      >>=-eq-ok (pop_control m b.control) (λ (i, control). ok (i, record b { control = control }))
        h in
    let (k, p, q) = popped b.control j control e in
    let same = ok-injective f in
    (k, control, p ∙ ap (λ x. (k, x) ∷ control) (ap (λ x. x.0) same), q, sym (ap (λ x. x.1) same))
  where
    popped :
        (c : List (Identifier × ℕ)) (j : ℕ) (control : List (Identifier × ℕ))
        → pop_control m c ≡ ok (j, control)
        → (k : Identifier) × (c ≡ (k, j) ∷ control) × (matches m k ≡ true)
    popped [] j control g = absurd (cc)
    popped ((k, l) ∷ c) j control g =
        let (u, a, r) = >>=-eq-ok (guard (matches m k) _) (λ _. ok (l, c)) g in
        let same = ok-injective r in
        (
          k,
          ap (λ x. (k, x) ∷ c) (ap (λ x. x.0) same) ∙ ap (λ x. (k, j) ∷ x) (ap (λ x. x.1) same),
          guard-eq-ok (matches m k) _ a,
        )

pub add_recurse-IsBuilder : (b : Builder) → IsBuilder b → IsBuilder (add_recurse b)
unfolding add_recurse branches_to add
add_recurse-IsBuilder b v =
    let w = simple_word (native Native.recurse) null in
    record {
      built =
          subst (λ c. Built (λ i. Waiting i c) (add_recurse b))
            (sym (same_control (last b) 0 (add w b)))
            (add_resolved Native.recurse 0 b v.built refl v.built.some_words);
      positions =
          subst (Positions (length (add_recurse b).words)) (sym (same_control (last b) 0 (add w b)))
            (Positions-more (length b.words) (length (add_recurse b).words) b.control
              (omega (arith, length-branches_to (last b) 0 (add w b), length-add w b)) v.positions);
    }

pub push_branch-IsBuilder :
    (k : Identifier) (n : Native) (b : Builder)
    → IsBuilder b
    → has_target (native n) ≡ true
    → matches match_begin k ≡ false
    → IsBuilder (push_branch k n b)
unfolding push_branch add
push_branch-IsBuilder k n b v t no_begin =
    let more = length-push_branch k n b in
    record {
      built =
          push_branch-Built k n b v.built t (λ i x. inr x) (inl (no_begin, refl))
            (λ i x. elim x [ inl (_, e) ↦ inr e | inr y ↦ inl y ]);
      positions = (
        omega (arith, more, v.built.some_words),
        (λ _. omega (arith, more, v.built.some_words)),
        Positions-more (length b.words) (length (push_branch k n b).words) b.control
            (omega (arith, more)) v.positions,
      );
    }

-- The entry on top is a branch at `i`, whose target becomes the placeholder.
pub fix_branch-IsBuilder :
    (i : ℕ) (b : Builder)
    → Built (λ j. (i ≡ j) ⊎ Waiting j b.control) b
    → Positions (length b.words) b.control
    → i + 1 < length b.words
    → IsBuilder (fix_branch i b)
unfolding fix_branch
fix_branch-IsBuilder i b v p h = record {
  built =
      subst (λ c. Built (λ j. Waiting j c) (fix_branch i b)) (sym (same_control i (last b) b))
        (branches_to-Built {waits = λ j. (i ≡ j) ⊎ Waiting j b.control} i (last b) b v h
          (omega (arith, v.some_words)) (λ j x. x) (inl refl) (λ j x. inr x));
  positions = subst (Positions (length (fix_branch i b).words)) (sym (same_control i (last b) b)) (
      Positions-more (length b.words) (length (fix_branch i b).words) b.control
        (omega (arith, length-branches_to i (last b) b)) p);
}

-- An entry that is no BEGIN is taken off the control stack.
pub popped :
    (m : Matching) (b : Builder) {i : ℕ} {b' : Builder}
    → IsBuilder b
    → matches m of_begin ≡ false
    → pop_branch m b ≡ ok (i, b')
    → Built (λ j. (i ≡ j) ⊎ Waiting j b'.control) b'
      × Positions (length b'.words) b'.control
      × (i + 1 < length b'.words)
popped m b {i = i} {b' = b'} v no_begin h =
    let (k, control, c, q, same) = pop_branch_lem m b h in
    let (_, inside, rest) = subst (Positions (length b.words)) c v.positions in
    subst
      (λ x.
        Built (λ j. (i ≡ j) ⊎ Waiting j x.control) x
        × Positions (length x.words) x.control
        × (i + 1 < length x.words))
      (sym same)
      (
        Built-words b (record b { control = control }) refl refl
            (weaker k control (not_begin m k q no_begin)
              (subst (λ x. Built (λ j. Waiting j x) b) c v.built)),
        rest,
        inside (not_begin m k q no_begin),
      )
  where
    not_begin :
        (m : Matching) (k : Identifier)
        → matches m k ≡ true
        → matches m of_begin ≡ false
        → matches match_begin k ≡ false
    not_begin m of_if a e = refl
    not_begin m of_else a e = refl
    not_begin m of_while a e = refl
    not_begin m of_begin a e = absurd (cc)

    weaker :
        (k : Identifier) (control : List (Identifier × ℕ))
        → matches match_begin k ≡ false
        → Built (λ j. Waiting j ((k, i) ∷ control)) b
        → Built (λ j. (i ≡ j) ⊎ Waiting j control) b
    weaker k control n w = record {
      some_words = w.some_words;
      ends = w.ends;
      lands = w.lands;
      resolved = λ j x e t. elim (w.resolved j x e t) [
        | inl r ↦ inl r
        | inr (inl (_, s)) ↦ inr (inl s)
        | inr (inr s) ↦ inr (inr s)
      ];
      ordinary = w.ordinary;
      targetless = w.targetless;
      branches = λ j x. w.branches j (elim x [ inl e ↦ inl (n, e) | inr y ↦ inr y ]);
    }
