-- ===== src/Codegen/Rewritten.antt =====
-- How the words that are laid out come from the original ones: a tail call has become a branch, and
-- the target of a branch is where a chain of branches from the original target leads.
use tails.Prelude.{
  ℕ, ◌+◌, ◌<◌, ◌≡◌, ◌≢◌, sym, ap, ◌∙◌, subst, ◌⊎◌, inl, inr, Bool, true, List, some, arith, length,
  get_elem?, set, some_cancel,
}
use tails.Prelude.Members.{length-set, get_elem?-lt, set-cases}
use tails.Word.{Native, native}
use tails.Checker.{SourceWord}
use tails.Codegen.{parameters_of}
use tails.Codegen.Branches.{IsSource, Lands, Leads, here, hop, Returns, is_jump}

pub record Rewritten (words : List SourceWord) (i : ℕ) (original w : SourceWord) : Type 0 where
  pub same_param : w.param ≡ original.param
  pub word_from :
      (w.word ≡ original.word)
      ⊎ ((original.word ≡ native Native.recurse)
          × (w.word ≡ native Native.branch)
          × Returns words (i + 1))
  pub target_from :
      (w.branch_to ≡ original.branch_to)
      ⊎ ((t : ℕ) × (u : ℕ) × (original.branch_to ≡ some t)
          × (w.branch_to ≡ some u)
          × Leads words t u)

abbrev pub AllRewritten : List SourceWord → List SourceWord → Type 0
AllRewritten originals words =
    (i : ℕ) (w : SourceWord)
    → get_elem? words i ≡ some w
    → (original : SourceWord) × (get_elem? originals i ≡ some original)
      × Rewritten originals i original w

pub Leads-trans :
    (words : List SourceWord) {t u v : ℕ} → Leads words t u → Leads words u v → Leads words t v
Leads-trans words here k = k
Leads-trans words (hop w e j to l) k = hop w e j to (Leads-trans words l k)

module _ (originals words : List SourceWord) (a : AllRewritten originals words) where
  pub Leads-original : {t u : ℕ} → Leads words t u → Leads originals t u
  Leads-original here = here
  Leads-original (hop {t = t} {u = u} {v = v} w e j to l) =
      let (o, f, r) = a t w e in
      let jump : is_jump o.word ≡ true = elim r.word_from [
        | inl s ↦ ap is_jump (sym s) ∙ j
        | inr (s, _, _) ↦ ap is_jump s
      ] in
      elim r.target_from [
        | inl s ↦ hop o f jump (sym s ∙ to) (Leads-original l)
        | inr (t', u', s, to', k) ↦ hop o f jump s (
            Leads-trans originals k
              (subst (λ x. Leads originals x v) (some_cancel (sym to ∙ to')) (Leads-original l)))
      ]

  pub Returns-original : (t : ℕ) → Returns words t → Returns originals t
  Returns-original t (r, w, l, e, k) =
      let (o, f, q) = a r w e in
      elim q.word_from [
        | inl s ↦ (r, o, Leads-original l, f, sym s ∙ k)
        | inr (_, s, _) ↦ absurd (different (sym s ∙ k))
      ]
    where
      different : native Native.branch ≡ native Native.ret → ⊥
      different e = cc

-- One word is written over.
module _ (words : List SourceWord) (i : ℕ) (w : SourceWord) (e : get_elem? words i ≡ some w)
    (w' : SourceWord) where
  pub AllRewritten-set :
      (originals : List SourceWord) (original : SourceWord)
      → AllRewritten originals words
      → get_elem? originals i ≡ some original
      → Rewritten originals i original w'
      → AllRewritten originals (set words i w')
  AllRewritten-set originals original a f r j x g =
      elim (set-cases words i w' (get_elem?-lt words i e) j x g) [
        | inl (p, q) ↦
            subst
              (λ k. (o : SourceWord) × (get_elem? originals k ≡ some o) × Rewritten originals k o x)
              p (original, f, subst (λ y. Rewritten originals i original y) q r)
        | inr (_, h) ↦ a j x h
      ]

  pub IsSource-set :
      (is_destination : ℕ → Bool) (rank : ℕ → ℕ)
      → IsSource is_destination rank words
      → ((t : ℕ) → w'.branch_to ≡ some t → Lands is_destination (length words) t)
      → (is_jump w'.word ≡ true → (t : ℕ) × (w'.branch_to ≡ some t) × (rank t < rank i))
      → (w'.word ≢ native Native.ret → i + 1 < length words)
      → parameters_of w'.word < 2
      → IsSource is_destination rank (set words i w')
  IsSource-set is_destination rank v in_range resolved ended small = record {
    in_range = λ j x t g to. elim (set-cases words i w' (get_elem?-lt words i e) j x g) [
      | inl (p, q) ↦
          subst (λ n. Lands is_destination n t) (sym (length-set words i w'))
            (in_range t (ap (λ y. y.branch_to) q ∙ to))
      | inr (_, h) ↦
          subst (λ n. Lands is_destination n t) (sym (length-set words i w'))
            (v.in_range j x t h to)
    ];
    resolved = λ j x g k. elim (set-cases words i w' (get_elem?-lt words i e) j x g) [
      | inl (p, q) ↦
          let (t, to, l) = resolved (ap (λ y. is_jump (y.word)) q ∙ k) in
          (t, sym (ap (λ y. y.branch_to) q) ∙ to, subst (λ m. rank t < rank m) p l)
      | inr (_, h) ↦ v.resolved j x h k
    ];
    ended = λ j x g n. elim (set-cases words i w' (get_elem?-lt words i e) j x g) [
      | inl (p, q) ↦
          rw (length-set words i w')
            (subst (λ m. m + 1 < length words) p (ended (λ r. n (sym (ap (λ y. y.word) q) ∙ r))))
      | inr (_, h) ↦ rw (length-set words i w') (v.ended j x h n)
    ];
    one_parameter = λ j x g. elim (set-cases words i w' (get_elem?-lt words i e) j x g) [
      | inl (p, q) ↦ omega (arith, small, ap (λ y. parameters_of (y.word)) q)
      | inr (_, h) ↦ v.one_parameter j x h
    ];
  }
