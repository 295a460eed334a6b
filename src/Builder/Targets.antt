-- ===== src/Builder/Targets.antt =====
-- The invariant when a branch gets its target.
use tails.Prelude.{
  contradiction, ℕ, ◌+◌, ◌-◌, ◌≤◌, ◌<◌, ◌≡◌, ◌≢◌, refl, sym, ap, ◌∙◌, subst, ◌⊎◌, inl, inr, Bool,
  true, Option, none, some, arith, length, get_elem?, set, some_cancel, Bool-cases, ◌==◌, ==_iff,
}
use tails.Prelude.Members.{
  length-set, get_elem?-set, get_elem?-set_other, get_elem?-lt, lt-get_elem?, set-cases,
}
use tails.Word.{Native, native}
use tails.Checker.{SourceWord}
use tails.Codegen.{at, parameters_of}
use tails.Builder.Built.{Built, has_target}
use tails.Builder.{Builder, last, branches_to}

marked_true : (f : ℕ → Bool) (t j : ℕ) → (t ≡ j) ⊎ (f j ≡ true) → at f t true j ≡ true
marked_true f t j (inl e) = rw ((==_iff t j).1 e) refl
marked_true f t j (inr e) = elim (Bool-cases (t == j)) [ inl s ↦ rw s refl | inr s ↦ rw s e ]

branches_to_lem :
    (i t : ℕ) (b : Builder) (w : SourceWord)
    → get_elem? b.words i ≡ some w
    → branches_to i t b ≡ record b {
      words = set b.words i (record w { branch_to = some t });
      is_destination = at b.is_destination t true;
    }
unfolding branches_to
branches_to_lem i t b w e = rw (branches_to, e) refl

-- The word at `i`, which is not the placeholder, gets its target.
pub branches_to-Built :
    {waits waits' : ℕ → Type 0} (i t : ℕ) (b : Builder)
    → Built waits b
    → i + 1 < length b.words
    → t < length b.words
    → ((j : ℕ) → waits j → (i ≡ j) ⊎ waits' j)
    → waits i
    → ((j : ℕ) → waits' j → waits j)
    → Built waits' (branches_to i t b)
branches_to-Built {waits = waits} {waits' = waits'} i t b v h in_words others waiting stronger =
    let (w, e) = lt-get_elem? b.words i (omega (arith, h)) in
    subst (Built waits') (sym (branches_to_lem i t b w e)) (changed w e)
  where
    has_one : (w : SourceWord) → get_elem? b.words i ≡ some w → has_target w.word ≡ true
    has_one w e =
        let (y, g, k) = v.branches i waiting in
        ap (λ x. has_target (x.word)) (some_cancel (sym e ∙ g)) ∙ k

    changed :
        (w : SourceWord)
        → get_elem? b.words i ≡ some w
        → Built waits' (record b {
          words = set b.words i (record w { branch_to = some t });
          is_destination = at b.is_destination t true;
        })
    changed w e =
        let w' : SourceWord = record w { branch_to = some t } in
        let same = length-set b.words i w' in
        let cases = set-cases b.words i w' (get_elem?-lt b.words i e) in
        record {
          some_words = omega (arith, same, v.some_words);
          ends =
              ap (λ n. get_elem? (set b.words i w') (n - 1)) same
              ∙ get_elem?-set_other b.words i (last b) w' (λ z. omega (arith, z, h))
              ∙ v.ends;
          lands = λ j x u f to. elim (cases j x f) [
            | inl (_, q) ↦
                let is_t : t ≡ u = some_cancel (ap (λ y. y.branch_to) q ∙ to) in
                (omega (arith, is_t, in_words, same), marked_true b.is_destination t u (inl is_t))
            | inr (_, g) ↦
                let (range, dest) = v.lands j x u g to in
                (omega (arith, range, same), marked_true b.is_destination t u (inr dest))
          ];
          resolved = λ j x f k. elim (cases j x f) [
            | inl (_, q) ↦ inl (t, sym (ap (λ y. y.branch_to) q))
            | inr (n, g) ↦ elim (v.resolved j x g k) [
              | inl r ↦ inl r
              | inr o ↦ elim (others j o) [ inl z ↦ absurd (n z) | inr o' ↦ inr o' ]
            ]
          ];
          ordinary = λ j x f. elim (cases j x f) [
            | inl (_, q) ↦
                subst (λ y. (y.word ≢ native Native.ret) × (parameters_of y.word ≤ 1)) q
                  (v.ordinary i w e)
            | inr (_, g) ↦ v.ordinary j x g
          ];
          targetless = λ j x f k. elim (cases j x f) [
            | inl (_, q) ↦
                contradiction refl (sym (has_one w e) ∙ ap (λ y. has_target (y.word)) q ∙ k)
            | inr (_, g) ↦ v.targetless j x g k
          ];
          branches = λ j x. elim (Bool-cases (i == j)) [
            | inl z ↦ (
              w',
              ap (get_elem? (set b.words i w')) (sym ((==_iff i j).0 z))
                  ∙ get_elem?-set b.words i w' (get_elem?-lt b.words i e),
              has_one w e,
            )
            | inr z ↦
                let (y, g, k) = v.branches j (stronger j x) in
                (
                  y,
                  get_elem?-set_other b.words i j w'
                        (λ q. contradiction refl (sym ((==_iff i j).1 q) ∙ z))
                      ∙ g,
                  k,
                )
          ];
        }

pub length-branches_to : (i t : ℕ) (b : Builder) → length (branches_to i t b).words ≡ length b.words
unfolding branches_to
length-branches_to i t b = by_word (get_elem? b.words i)
  where
    by_word :
        (o : Option SourceWord)
        → length (
            Builder.words (elim o [
              | some w ↦ record b {
                words = set b.words i (record w { branch_to = some t });
                is_destination = at b.is_destination t true;
              }
              | none ↦ b
            ]))
          ≡ length b.words
    by_word (some w) = length-set b.words i (record w { branch_to = some t })
    by_word none = refl
