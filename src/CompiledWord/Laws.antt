-- ===== src/CompiledWord/Laws.antt =====
-- What DEFINE registers.
use tails.Prelude.{
  contradiction, ℕ, zero, suc, ◌<◌, ◌≡◌, ◌≢◌, ◌⊎◌, refl, sym, ap, ◌∙◌, inl, inr, List, [], ◌∷◌,
  none, some, map, arith, length, set, ◌==◌, ==_iff, Bool-cases, Option-cases, subst,
}
use tails.Prelude.Members.{In}
use tails.Result.{ok}
use tails.Value.{Value, string, quote}
use tails.Vocabulary.{NamedWord, Vocabulary, upper, add, find, lookup, lookup_active}
use tails.Vocabulary.Laws.{lookup-add}
use tails.Vocabulary.Active.{vocabulary_at, active_vocabularies, add_current, lookup_name}
use tails.Parser.{store_word}
use tails.CompiledWord.{Program, register, construct, with_name, define}

get_or-set :
    (all : List Vocabulary) (i : ℕ) (v : Vocabulary)
    → i < length all
    → vocabulary_at (set all i v) i ≡ v
get_or-set [] i v h = absurd (omega (arith, h))
get_or-set (u ∷ all) zero v h = refl
get_or-set (u ∷ all) (suc i) v h = get_or-set all i v (omega arith)

get_or-set_other :
    (all : List Vocabulary) (i j : ℕ) (v : Vocabulary)
    → i ≢ j
    → vocabulary_at (set all i v) j ≡ vocabulary_at all j
get_or-set_other [] i j v n = refl
get_or-set_other (u ∷ all) zero zero v n = absurd (n refl)
get_or-set_other (u ∷ all) zero (suc j) v n = refl
get_or-set_other (u ∷ all) (suc i) zero v n = refl
get_or-set_other (u ∷ all) (suc i) (suc j) v n = get_or-set_other all i j v (λ e. n (ap suc e))

lookup_active-cons :
    (name : List ℕ) (v : Vocabulary) (vs : List Vocabulary)
    → (lookup name v ≡ none → lookup_active name (v ∷ vs) ≡ lookup_active name vs)
      × ((x : NamedWord) → lookup name v ≡ some x → lookup_active name (v ∷ vs) ≡ some x)
unfolding lookup_active
lookup_active-cons name v vs = (λ e. rw (lookup_active, e) refl, λ x e. rw (lookup_active, e) refl)

-- Names with the same capitals are looked up alike.
lookup_active-upper :
    (name other : List ℕ) (vs : List Vocabulary)
    → upper name ≡ upper other
    → lookup_active name vs ≡ lookup_active other vs
unfolding lookup
lookup_active-upper name other [] u = unfold lookup_active in refl
lookup_active-upper name other (v ∷ vs) u =
    let (skip, hit) = lookup_active-cons name v vs in
    let (skip', hit') = lookup_active-cons other v vs in
    let same : lookup name v ≡ lookup other v = ap (λ k. find k v) u in
    elim (Option-cases (lookup other v)) [
      | inl e ↦ skip (same ∙ e) ∙ lookup_active-upper name other vs u ∙ sym (skip' e)
      | inr (x, e) ↦ hit x (same ∙ e) ∙ sym (hit' x e)
    ]

module _ (w : NamedWord) (all : List Vocabulary) (i : ℕ) (in_range : i < length all) where
  abbrev added : List Vocabulary
  added = set all i (add w (vocabulary_at all i))

  -- Another name is looked up as before.
  lookup-other :
      (name : List ℕ)
      → upper name ≢ w.name
      → (j : ℕ) → lookup name (vocabulary_at added j) ≡ lookup name (vocabulary_at all j)
  lookup-other name n j = elim (Bool-cases (i == j)) [
    | inl e ↦
        let here : i ≡ j = (==_iff i j).0 e in
        subst (λ k. lookup name (vocabulary_at added k) ≡ lookup name (vocabulary_at all k)) here
          (ap (lookup name) (get_or-set all i (add w (vocabulary_at all i)) in_range)
            ∙ by_case (Option-cases (lookup name (vocabulary_at all i))))
    | inr e ↦ ap (lookup name) (
        get_or-set_other all i j (add w (vocabulary_at all i))
          (λ s. contradiction ((==_iff i j).1 s) e))
  ]
    where
      by_case :
          ((lookup name (vocabulary_at all i) ≡ none)
            ⊎ ((x : NamedWord) × (lookup name (vocabulary_at all i) ≡ some x)))
          → lookup name (add w (vocabulary_at all i)) ≡ lookup name (vocabulary_at all i)
      by_case (inl e) =
          let (_, _, absent) = lookup-add name w (vocabulary_at all i) in absent e n ∙ sym e
      by_case (inr (x, e)) =
          let (found, _, _) = lookup-add name w (vocabulary_at all i) in found x e ∙ sym e

  lookup_all-other :
      (name : List ℕ)
      → upper name ≢ w.name
      → (is : List ℕ)
      → lookup_active name (map (vocabulary_at added) is)
        ≡ lookup_active name (map (vocabulary_at all) is)
  unfolding lookup_active
  lookup_all-other name n [] = refl
  lookup_all-other name n (j ∷ is) =
      let v = vocabulary_at all j in
      let same = lookup-other name n j in
      let (skip, hit) = lookup_active-cons name v (map (vocabulary_at all) is) in
      let (skip', hit') =
        lookup_active-cons name (vocabulary_at added j) (map (vocabulary_at added) is) in
      elim (Option-cases (lookup name v)) [
        | inl e ↦ skip' (same ∙ e) ∙ lookup_all-other name n is ∙ sym (skip e)
        | inr (x, e) ↦ hit' x (same ∙ e) ∙ sym (hit x e)
      ]

  -- A name that no vocabulary has is found once the present one, if it is active, has it.
  lookup_all-added :
      (name : List ℕ)
      → upper name ≡ w.name
      → (is : List ℕ) → In i is
      → lookup_active name (map (vocabulary_at all) is) ≡ none
      → lookup_active name (map (vocabulary_at added) is) ≡ some w
  lookup_all-added name u [] here absent = absurd here
  lookup_all-added name u (j ∷ is) here absent =
      let v = vocabulary_at all j in
      let (skip, hit) = lookup_active-cons name v (map (vocabulary_at all) is) in
      let (skip', hit') =
        lookup_active-cons name (vocabulary_at added j) (map (vocabulary_at added) is) in
      elim (Option-cases (lookup name v)) [
        | inr (x, e) ↦ absurd (differ (sym (hit x e) ∙ absent))
        | inl e ↦ elim (Bool-cases (i == j)) [
          | inl s ↦
              let (_, found, _) = lookup-add name w v in
              let at_j : i ≡ j = (==_iff i j).0 s in
              hit' w (
                subst (λ k. lookup name (vocabulary_at added k) ≡ some w) at_j
                  (ap (lookup name) (get_or-set all i (add w (vocabulary_at all i)) in_range)
                    ∙ subst (λ k. lookup name (add w (vocabulary_at all k)) ≡ some w) (sym at_j)
                        (found e u)))
          | inr s ↦
              let other : i ≢ j = λ at_j. contradiction ((==_iff i j).1 at_j) s in
              skip' (
                ap (lookup name) (get_or-set_other all i j (add w (vocabulary_at all i)) other) ∙ e)
              ∙ lookup_all-added name u is (elsewhere other here) (sym (skip e) ∙ absent)
        ]
      ]
    where
      differ : {x : NamedWord} → some x ≡ none → ⊥
      differ e = cc

      elsewhere : i ≢ j → In i (j ∷ is) → In i is
      elsewhere n (inl e) = absurd (n e)
      elsewhere n (inr k) = k

-- Let no active vocabulary have a name, which is not empty, and let the present vocabulary be an
-- active one. Then DEFINE of that name takes the name and the quotation off the stack and makes a new word
-- with the quotation's code, effect and flag. The name in capitals, however it is spelled, leads to
-- it, and every other name leads where it led before.
pub define-lookup :
    (instruction_of : ℕ → ℕ) (c : ℕ) (cs : List ℕ) (q i : ℕ) (s : List Value) (p : Program)
    → p.vocabularies.current ≡ some i
    → In i p.vocabularies.active
    → i < length p.vocabularies.all
    → lookup_name (c ∷ cs) p.vocabularies ≡ none
    → (p' : Program) × (define instruction_of (string (c ∷ cs) ∷ quote q ∷ s) p ≡ ok (s, p'))
      × (p'.memory.code_of p.memory.count ≡ p.memory.code_of q)
      × (p'.memory.effect_of p.memory.count ≡ p.memory.effect_of q)
      × (p'.memory.is_recursive p.memory.count ≡ p.memory.is_recursive q)
      × ((name : List ℕ)
          → upper name ≡ upper (c ∷ cs)
          → lookup_name name p'.vocabularies
            ≡ some (record { name = upper (c ∷ cs); instruction = instruction_of p.memory.count }))
      × ((name : List ℕ)
          → upper name ≢ upper (c ∷ cs)
          → lookup_name name p'.vocabularies ≡ lookup_name name p.vocabularies)
unfolding define with_name construct register add_current store_word lookup_name active_vocabularies
    upper
define-lookup instruction_of c cs q i s p current active in_range absent =
    let k = p.memory.count in
    let vs = p.vocabularies in
    let w : NamedWord = record { name = upper (c ∷ cs); instruction = instruction_of k } in
    let here = (==_iff k k).1 refl in
    (
      record {
        memory =
            store_word (p.memory.code_of q) (p.memory.is_recursive q) (p.memory.effect_of q)
              p.memory;
        vocabularies = record vs { all = set vs.all i (add w (vocabulary_at vs.all i)) };
      },
      rw current refl,
      rw here refl,
      rw here refl,
      rw here refl,
      λ name u.
          lookup_all-added w vs.all i in_range name u vs.active active
            (lookup_active-upper name (c ∷ cs) (map (vocabulary_at vs.all) vs.active) u ∙ absent),
      λ name n. lookup_all-other w vs.all i in_range name n vs.active,
    )
