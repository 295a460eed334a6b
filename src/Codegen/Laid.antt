-- ===== src/Codegen/Laid.antt =====
-- The invariant of the layout's loop, and what a word that is kept adds to it.
use tails.Prelude.{
  not, ◌&&◌, ℕ, ◌+◌, ◌≤◌, ◌<◌, ◌≡◌, sym, ap, ◌∙◌, ◌⊎◌, inl, inr, Bool, true, false, List, [], ◌∷◌,
  ◌++◌, none, some, arith, length, get_elem?, Bool-cases, ◌==◌, ==_iff,
}
use tails.Prelude.Members.{In, In-append, In-append_left, In-append_right}
use tails.Result.{Result, ok}
use tails.Word.{Native, word_param, param_kind}
use tails.Checker.{SourceWord}
use tails.Codegen.{Layout, at, is_branch}
use tails.Codegen.Places.{Fills, Fills-same, Fills-append}
use tails.Codegen.Branches.{IsSource}
use tails.Codegen.Rewritten.{AllRewritten}
use tails.Codegen.Sizes.{sizes, at_here, at_other}

module _ (is_destination : ℕ → Bool) (rank : ℕ → ℕ) (originals : List SourceWord) where
  -- The layout before the turn on the word at `i`.
  pub record Laid (i : ℕ) (s : Layout) : Type 0 where
    pub same_length : length s.words ≡ length originals
    pub source : IsSource is_destination rank s.words
    pub rewritten : AllRewritten originals s.words
    pub fills : Fills (sizes s) s.pc_of 0 s.kept s.pc
    pub below : (j : ℕ) → In j s.kept → j < i
    pub headed :
        (s.interp_count ≡ 0)
        ⊎ ((s.first_interp < i) × ((head : Native) × (s.interp_of s.first_interp ≡ some head)))
    pub unheaded : (j : ℕ) → i ≤ j → s.interp_of j ≡ none
    pub heads : (j : ℕ) (head : Native) → s.interp_of j ≡ some head → param_kind head ≡ word_param
    pub destinations : (j : ℕ) → j < i → is_destination j ≡ true → In j s.kept
    pub flows :
        (j : ℕ) (w : SourceWord)
        → j + 1 < i
        → In j s.kept
        → get_elem? s.words j ≡ some w
        → is_branch w.word ≡ false
        → In (j + 1) s.kept
    pub last_flows :
        (j : ℕ) (w : SourceWord)
        → j + 1 ≡ i
        → In j s.kept
        → get_elem? s.words j ≡ some w
        → s.after_branch ≡ true
        → is_branch w.word ≡ true
    pub after :
        (j : ℕ) (w : SourceWord)
        → j + 1 ≡ i
        → In j s.kept
        → get_elem? s.words j ≡ some w
        → is_branch w.word ≡ true
        → s.after_branch ≡ true
    pub skips :
        (j : ℕ) (w : SourceWord)
        → j + 1 < i
        → In j s.kept
        → get_elem? s.words j ≡ some w
        → is_branch w.word ≡ true
        → is_destination (j + 1) ≡ false
        → ¬ In (j + 1) s.kept
    pub entry : ((i ≡ 0) × (s.after_branch ≡ false)) ⊎ In 0 s.kept

  abbrev pub Placed : Result Layout → ℕ → Type 0
  Placed r i = (s : Layout) × (r ≡ ok s) × Laid i s

  module _ (fuel i : ℕ) (s : Layout) (v : Laid i s)
      (enough : (j : ℕ) → j < length originals → rank j < fuel)
      (turn : (s.after_branch && not (is_destination i)) ≡ false) where
    pub below_snoc : (j : ℕ) → In j (s.kept ++ i ∷ []) → j < i + 1
    below_snoc j k = elim (In-append j s.kept (i ∷ []) k) [
      | inl m ↦ omega (arith, v.below j m)
      | inr (inl e) ↦ omega (arith, e)
      | inr (inr m) ↦ absurd m
    ]

    pub destinations_snoc : (j : ℕ) → j < i + 1 → is_destination j ≡ true → In j (s.kept ++ i ∷ [])
    destinations_snoc j h d = elim (Bool-cases (j == i)) [
      | inl e ↦ In-append_right j s.kept (i ∷ []) (inl ((==_iff j i).0 e))
      | inr e ↦ In-append_left j s.kept (i ∷ []) (v.destinations j (ground (arith, h, e)) d)
    ]

    pub flows_snoc :
        (words : List SourceWord)
        → ((j : ℕ) → j < i → get_elem? words j ≡ get_elem? s.words j)
        → (j : ℕ) (x : SourceWord) → j + 1 < i + 1
        → In j (s.kept ++ i ∷ [])
        → get_elem? words j ≡ some x
        → is_branch x.word ≡ false
        → In (j + 1) (s.kept ++ i ∷ [])
    flows_snoc words same j x h k f n = elim (Bool-cases (j + 1 == i)) [
      | inl e ↦ In-append_right (j + 1) s.kept (i ∷ []) (inl ((==_iff (j + 1) i).0 e))
      | inr e ↦ elim (In-append j s.kept (i ∷ []) k) [
        | inl m ↦
            In-append_left (j + 1) s.kept (i ∷ [])
              (v.flows j x (ground (arith, h, e)) m (sym (same j (omega (arith, h))) ∙ f) n)
        | inr (inl q) ↦ absurd (omega (arith, h, q))
        | inr (inr m) ↦ absurd m
      ]
    ]

    pub skips_snoc :
        (words : List SourceWord)
        → ((j : ℕ) → j < i → get_elem? words j ≡ get_elem? s.words j)
        → (j : ℕ) (x : SourceWord) → j + 1 < i + 1
        → In j (s.kept ++ i ∷ [])
        → get_elem? words j ≡ some x
        → is_branch x.word ≡ true
        → is_destination (j + 1) ≡ false
        → ¬ In (j + 1) (s.kept ++ i ∷ [])
    skips_snoc words same j x h k f b d m = elim (In-append j s.kept (i ∷ []) k) [
      | inr (inl q) ↦ omega (arith, h, q)
      | inr (inr q) ↦ q
      | inl old ↦
          let e = sym (same j (omega (arith, h))) ∙ f in
          elim (In-append (j + 1) s.kept (i ∷ []) m) [
            | inl n ↦ v.skips j x (v.below (j + 1) n) old e b d n
            | inr (inl q) ↦
                turned s.after_branch (is_destination i) (v.after j x q old e b)
                  (ap is_destination (sym q) ∙ d) turn
            | inr (inr q) ↦ q
          ]
    ]
      where
        turned : (a d : Bool) → a ≡ true → d ≡ false → (a && not d) ≡ false → ⊥
        turned true false p q r = cc
        turned true true p q r = cc
        turned false d p q r = cc

    pub entry_snoc : In 0 (s.kept ++ i ∷ [])
    entry_snoc = elim v.entry [
      | inl (z, _) ↦ In-append_right 0 s.kept (i ∷ []) (inl (sym z))
      | inr k ↦ In-append_left 0 s.kept (i ∷ []) k
    ]

    pub Fills-snoc :
        (size : ℕ → ℕ)
        → ((j : ℕ) → j < i → size j ≡ sizes s j)
        → Fills size (at s.pc_of i s.pc) 0 (s.kept ++ i ∷ []) (s.pc + size i)
    Fills-snoc size same =
        Fills-append size (at s.pc_of i s.pc) 0 s.kept s.pc i
          (Fills-same (sizes s) size s.pc_of (at s.pc_of i s.pc) 0 s.kept s.pc
            (λ j k.
              let less : j < i = v.below j k in
              (same j less, at_other s.pc_of i j s.pc (λ e. omega (arith, less, e))))
            v.fills)
          (at_here s.pc_of i s.pc)
