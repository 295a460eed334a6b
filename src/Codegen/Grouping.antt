-- ===== src/Codegen/Grouping.antt =====
-- The loop of the layout groups the interpreted words.
use tails.Prelude.{
  contradiction, ℕ, zero, suc, ◌+◌, ◌<◌, ◌≡◌, ◌≢◌, refl, sym, ap, ◌∙◌, subst, inl, inr, Bool, true,
  false, not, ◌||◌, ◌&&◌, List, some, arith, length, get_elem?, Bool-cases, ◌==◌, leb,
}
use tails.Prelude.Members.{lt-get_elem?, get_elem?-lt}
use tails.Result.{Result, ok, ok-injective, ◌>>=◌}
use tails.Word.{Native, native, interpreted}
use tails.Checker.{SourceWord}
use tails.Codegen.{
  Layout, place_native, place_interpreted, place_word, place, place_all, start, lay_out, is_recurse,
}
use tails.Codegen.Branches.{IsSource, returns_immediately-ends}
use tails.Codegen.Rewritten.{Returns-original}
use tails.Codegen.Turn.{is_native, Turned, turn-Turned}
use tails.Codegen.Sizes.{interp_word-ends}
use tails.Codegen.Laid.{Laid}
use tails.Codegen.Grouped.{NextAt, Grouped, with_native, with_first, with_next}
use tails.Codegen.Grouped.NativeTurn.{native-Grouped}
use tails.Codegen.Grouped.FirstTurn.{first-Grouped}
use tails.Codegen.Grouped.NextTurn.{next-Grouped}
use tails.Codegen.Placed.{word-cases, turn-Placed, start-Laid}

module _ (is_destination : ℕ → Bool) (rank : ℕ → ℕ) (originals : List SourceWord) (fuel : ℕ)
    (enough : (j : ℕ) → j < length originals → rank j < fuel) where
  skip_next :
      (i e p : ℕ) (s : Layout) {o c : Type 0}
      → s.after_branch ≡ true
      → NextAt i s e p o c
      → NextAt (i + 1) s e p o c
  skip_next i e p s a (inl (_, _, b, _)) = contradiction refl (sym a ∙ b)
  skip_next i e p s a (inr x) = inr x

  skip-Grouped :
      (i : ℕ) (s : Layout)
      → s.after_branch ≡ true
      → Grouped originals is_destination i s
      → Grouped originals is_destination (i + 1) s
  skip-Grouped i s a v = record {
    entries = v.entries;
    begin = elim v.begin [
      | inl (_, _, b) ↦ contradiction refl (sym a ∙ b)
      | inr (h, p) ↦ inr (omega (arith, h), p)
    ];
    natives = λ j w k f n b. skip_next i (j + 1) _ s a (v.natives j w k f n b);
    groups = λ j h k e.
        let g = v.groups j h k e in
        record {
          more = g.more;
          members = g.members;
          tail = g.tail;
          head = g.head;
          returns = g.returns;
          next = skip_next i (j + suc g.more) (s.pc_of j + 1 + suc g.more) s a g.next;
        };
  }

  module _ (i : ℕ) (s : Layout) (v : Laid is_destination rank originals i s)
      (g : Grouped originals is_destination i s) where
    abbrev Arranged : Result Layout → Type 0
    Arranged r = (s' : Layout) × (r ≡ ok s') × Grouped originals is_destination (i + 1) s'

    native-Arranged :
        (w : SourceWord)
        → get_elem? s.words i ≡ some w
        → is_native w.word ≡ true
        → Arranged (place_native fuel i w s)
    unfolding place_native
    native-Arranged w e n =
        let t : Turned is_destination rank originals s.words fuel i w =
          turn-Turned is_destination rank originals s.words fuel i v.source v.rewritten
            (λ j h. enough j (subst (λ m. j < m) v.same_length h)) w e in
        (
          with_native i t.last (s.recursive || is_recurse t.last.word) s,
          rw (t.calls, t.targets) refl,
          native-Grouped originals is_destination i s t.last (s.recursive || is_recurse t.last.word)
              v.below (get_elem?-lt s.words i e) (v.unheaded i (omega arith)) (t.same_native ∙ n) g,
        )

    interpreted-Arranged :
        (w : SourceWord) (k : ℕ)
        → get_elem? s.words i ≡ some w
        → w.word ≡ interpreted k
        → (starts : Bool)
        → (starts ≡ false
            → (s.interp_count < 4) × (s.interp_count ≢ 0) × (is_destination i ≡ false))
        → Arranged (place_interpreted fuel i starts s)
    unfolding place_interpreted
    interpreted-Arranged w k e word true h =
        let l = v.source.ended i w e (λ r. different (sym word ∙ r)) in
        let (b, f, returns) =
          returns_immediately-ends is_destination rank s.words v.source fuel (i + 1)
            (enough (i + 1) (subst (λ n. i + 1 < n) v.same_length l)) l in
        let (head, p, _) = interp_word-ends b 0 (omega arith) in
        (
          with_first i head s,
          rw (f, p) refl,
          first-Grouped originals is_destination i s w k b head v.below e word p
              (λ t. Returns-original originals s.words v.rewritten (i + 1) (returns t)) g,
        )
      where
        different : interpreted k ≡ native Native.ret → ⊥
        different z = cc
    interpreted-Arranged w k e word false h =
        let (less, some_before, not_dest) = h refl in
        let l = v.source.ended i w e (λ r. different (sym word ∙ r)) in
        let (b, f, returns) =
          returns_immediately-ends is_destination rank s.words v.source fuel (i + 1)
            (enough (i + 1) (subst (λ n. i + 1 < n) v.same_length l)) l in
        let (head, p, _) = interp_word-ends b s.interp_count less in
        elim v.headed [
          | inl z ↦ absurd (some_before z)
          | inr (first, (old, before)) ↦ (
            with_next i head s,
            rw (f, p) refl,
            next-Grouped originals is_destination i s w k b head old v.below e word p
                (λ t. Returns-original originals s.words v.rewritten (i + 1) (returns t)) not_dest
                some_before first before (v.unheaded i (omega arith)) g,
          )
        ]
      where
        different : interpreted k ≡ native Native.ret → ⊥
        different z = cc

    -- A turn that ends keeps the groups.
    turn-Grouped :
        (s' : Layout)
        → i < length originals
        → place fuel (is_destination i) i s ≡ ok s'
        → Grouped originals is_destination (i + 1) s'
    unfolding place place_word
    turn-Grouped s' h f = elim (Bool-cases (s.after_branch && not (is_destination i))) [
      | inl q ↦
          subst (Grouped originals is_destination (i + 1)) (ok-injective (sym (rw q refl) ∙ f))
            (skip-Grouped i s (dropped s.after_branch (is_destination i) q) g)
      | inr q ↦
          let (w, e) = lt-get_elem? s.words i (subst (λ n. i < n) (sym v.same_length) h) in
          elim (word-cases w.word) [
            | inl (n, word) ↦
                let step : place fuel (is_destination i) i s ≡ place_native fuel i w s =
                  rw (q, e, place_word, word) refl in
                same _ step (native-Arranged w e (ap is_native word))
            | inr (k, word) ↦
                let starts = s.interp_count == 0 || leb 4 s.interp_count || is_destination i in
                let step : place fuel (is_destination i) i s ≡ place_interpreted fuel i starts s =
                  rw (q, e, place_word, word) refl in
                same _ step (
                  interpreted-Arranged w k e word starts
                    (goes_on s.interp_count (is_destination i)))
          ]
    ]
      where
        same :
            (r : Result Layout)
            → place fuel (is_destination i) i s ≡ r
            → Arranged r
            → Grouped originals is_destination (i + 1) s'
        same r step (s₂, p, g₂) =
            subst (Grouped originals is_destination (i + 1)) (ok-injective (sym p ∙ sym step ∙ f))
              g₂

        goes_on :
            (c : ℕ) (d : Bool) → (c == 0 || leb 4 c || d) ≡ false → (c < 4) × (c ≢ 0) × (d ≡ false)
        goes_on c true q = absurd (ground (arith, q))
        goes_on c false q = (ground (arith, q), ground (arith, q), refl)

        dropped : (a d : Bool) → (a && not d) ≡ true → a ≡ true
        dropped true d q = refl
        dropped false d q = absurd (cc)

  all-Grouped :
      (n i : ℕ) (s s' : Layout)
      → Laid is_destination rank originals i s
      → Grouped originals is_destination i s
      → i + n ≡ length originals
      → place_all fuel is_destination n i s ≡ ok s'
      → Grouped originals is_destination (length originals) s'
  unfolding place_all
  all-Grouped zero i s s' v g e f =
      let same : i ≡ length originals = omega (arith, e) in
      subst (Grouped originals is_destination (length originals)) (ok-injective f)
        (subst (λ k. Grouped originals is_destination k s) same g)
  all-Grouped (suc n) i s s' v g e f =
      let inside : i < length originals = omega (arith, e) in
      let (s₁, p, v₁) = turn-Placed is_destination rank originals fuel enough i s v inside in
      all-Grouped n (i + 1) s₁ s' v₁ (turn-Grouped i s v g s₁ inside p) (omega (arith, e))
        (sym (ap (λ r. r >>= place_all fuel is_destination n (i + 1)) p) ∙ f)

  -- The layout groups the interpreted words: control comes to a first word of a group, and goes on
  -- behind the last.
  pub lay_out-Grouped :
      (s : Layout)
      → IsSource is_destination rank originals
      → lay_out fuel is_destination originals ≡ ok s
      → Grouped originals is_destination (length originals) s
  unfolding lay_out start
  lay_out-Grouped s v f =
      all-Grouped (length originals) 0 (start originals) s
        (start-Laid is_destination rank originals fuel enough v) begun (omega arith) f
    where
      begun : Grouped originals is_destination 0 (start originals)
      begun = record {
        entries = λ j k d. absurd k;
        begin = inl (refl, refl, refl);
        natives = λ j w k f n b. absurd k;
        groups = λ j h k e. absurd k;
      }
