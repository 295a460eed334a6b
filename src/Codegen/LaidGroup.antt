-- ===== src/Codegen/LaidGroup.antt =====
-- A turn of the layout's loop on a compiled word keeps the invariant, whether the word starts a group
-- or joins one.
use tails.Prelude.{
  contradiction, not, ◌&&◌, ℕ, ◌+◌, ◌<◌, ◌≡◌, ◌≢◌, refl, sym, ap, ◌∙◌, subst, inl, inr, Bool, true,
  false, List, [], ◌∷◌, ◌++◌, Option, none, some, arith, length, get_elem?, Bool-cases, ◌==◌,
  ==_iff, some_cancel,
}
use tails.Result.{Result, ok}
use tails.Word.{Native, native, interpreted, word_param, param_kind}
use tails.Checker.{SourceWord, returns_immediately}
use tails.Codegen.{Layout, at, place_interpreted, is_branch}
use tails.Codegen.Places.{Fills}
use tails.Codegen.Branches.{returns_immediately-ends}
use tails.Codegen.Sizes.{
  word_spaces, spaces, sizes, at_here, at_other, same_spaces, interp_word-ends, at-cases,
}
use tails.Codegen.Laid

module _ (is_destination : ℕ → Bool) (rank : ℕ → ℕ) (originals : List SourceWord) where
  abbrev LaidAt : ℕ → Layout → Type 0
  LaidAt = Laid.Laid is_destination rank originals

  abbrev Placed : Result Layout → ℕ → Type 0
  Placed = Laid.Placed is_destination rank originals

  module _ (fuel i : ℕ) (s : Layout) (v : LaidAt i s)
      (enough : (j : ℕ) → j < length originals → rank j < fuel)
      (turn : (s.after_branch && not (is_destination i)) ≡ false) where
    module _ (w : SourceWord) (e : get_elem? s.words i ≡ some w) where
      module _ (k : ℕ) (word : w.word ≡ interpreted k) where
        returns_next : (b : Bool) × (returns_immediately fuel s.words (i + 1) ≡ ok b)
        returns_next =
            let l = v.source.ended i w e (λ r. different (sym word ∙ r)) in
            let (b, f, _) =
              returns_immediately-ends is_destination rank s.words v.source fuel (i + 1)
                (enough (i + 1) (subst (λ n. i + 1 < n) v.same_length l)) l in
            (b, f)
          where
            different : interpreted k ≡ native Native.ret → ⊥
            different z = cc

        size_spaces :
            (o : Option Native) → spaces (get_elem? s.words i) o ≡ 1 + word_spaces (interpreted k) o
        size_spaces o = ap (λ y. spaces y o) e ∙ ap (λ x. 1 + word_spaces x o) word

        no_branch :
            (j : ℕ) (x : SourceWord)
            → j + 1 ≡ i + 1
            → get_elem? s.words j ≡ some x
            → is_branch x.word ≡ true
            → ⊥
        no_branch j x h f b =
            let same : j ≡ i = omega (arith, h) in
            let at_i = some_cancel (sym e ∙ sym (ap (get_elem? s.words) same) ∙ f) in
            contradiction (sym (ap is_branch word) ∙ ap (λ y. is_branch (y.word)) at_i ∙ b) refl

        pub first-Laid : Placed (place_interpreted fuel i true s) (i + 1)
        unfolding place_interpreted
        first-Laid =
            let (b, f) = returns_next in
            let (head, g, kind) = interp_word-ends b 0 (omega arith) in
            let s' : Layout = record s {
              kept = s.kept ++ i ∷ [];
              pc_of = at s.pc_of i s.pc;
              interp_of = at s.interp_of i (some head);
              interp_count = 1;
              first_interp = i;
              after_branch = false;
              pc = s.pc + 1 + 1;
            } in
            (
              s',
              rw (f, g) refl,
              record {
                same_length = v.same_length;
                source = v.source;
                rewritten = v.rewritten;
                fills =
                    subst (Fills (sizes s') (at s.pc_of i s.pc) 0 (s.kept ++ i ∷ []))
                      (ap (λ y. s.pc + spaces (get_elem? s.words i) y)
                          (at_here s.interp_of i (some head))
                        ∙ ap (λ y. s.pc + y) (size_spaces (some head))
                        ∙ omega arith)
                      (Laid.Fills-snoc is_destination rank originals fuel i s v enough turn
                        (sizes s')
                        (λ j h.
                          ap (spaces (get_elem? s.words j))
                            (at_other s.interp_of i j (some head) (λ z. omega (arith, h, z)))));
                below = Laid.below_snoc is_destination rank originals fuel i s v enough turn;
                headed = inr (omega arith, (head, at_here s.interp_of i (some head)));
                unheaded = λ j h.
                    at_other s.interp_of i j (some head) (λ z. omega (arith, h, z))
                    ∙ v.unheaded j (omega (arith, h));
                heads = at-cases (λ x. param_kind x ≡ word_param) s.interp_of i head kind v.heads;
                destinations =
                    Laid.destinations_snoc is_destination rank originals fuel i s v enough turn;
                flows =
                    Laid.flows_snoc is_destination rank originals fuel i s v enough turn s.words
                      (λ j h. refl);
                last_flows = λ j x h k f b. absurd (cc);
                after = λ j x h k f b. absurd (no_branch j x h f b);
                skips =
                    Laid.skips_snoc is_destination rank originals fuel i s v enough turn s.words
                      (λ j h. refl);
                entry = inr (Laid.entry_snoc is_destination rank originals fuel i s v enough turn);
              },
            )

        pub next-Laid :
            s.interp_count < 4
            → s.interp_count ≢ 0
            → Placed (place_interpreted fuel i false s) (i + 1)
        unfolding place_interpreted
        next-Laid less some_before = elim v.headed [
          | inl z ↦ absurd (some_before z)
          | inr (below, (old, before)) ↦
              let (b, f) = returns_next in
              let (head, g, kind) = interp_word-ends b s.interp_count less in
              let s' : Layout = record s {
                kept = s.kept ++ i ∷ [];
                pc_of = at s.pc_of i s.pc;
                interp_of = at s.interp_of s.first_interp (some head);
                interp_count = s.interp_count + 1;
                after_branch = false;
                pc = s.pc + 0 + 1;
              } in
              let here = at_here s.interp_of s.first_interp (some head) in
              let other : (j : ℕ) → j ≢ s.first_interp → s'.interp_of j ≡ s.interp_of j =
                λ j n. at_other s.interp_of s.first_interp j (some head) (λ z. n (sym z)) in
              (
                s',
                rw (f, g) refl,
                record {
                  same_length = v.same_length;
                  source = v.source;
                  rewritten = v.rewritten;
                  fills =
                      subst (Fills (sizes s') (at s.pc_of i s.pc) 0 (s.kept ++ i ∷ []))
                        (ap (λ y. s.pc + spaces (get_elem? s.words i) y)
                            (other i (λ z. omega (arith, below, z)) ∙ v.unheaded i (omega arith))
                          ∙ ap (λ y. s.pc + y) (size_spaces none)
                          ∙ omega arith)
                        (Laid.Fills-snoc is_destination rank originals fuel i s v enough turn
                          (sizes s')
                          (λ j h. elim (Bool-cases (j == s.first_interp)) [
                            | inl z ↦
                                let at_first : j ≡ s.first_interp = (==_iff j s.first_interp).0 z in
                                ap (spaces (get_elem? s.words j)) (ap s'.interp_of at_first ∙ here)
                                ∙ same_spaces (get_elem? s.words j) head old
                                ∙ ap (spaces (get_elem? s.words j))
                                    (sym (ap s.interp_of at_first ∙ before))
                            | inr z ↦
                                ap (spaces (get_elem? s.words j))
                                  (other j (λ q. contradiction ((==_iff j s.first_interp).1 q) z))
                          ]));
                  below = Laid.below_snoc is_destination rank originals fuel i s v enough turn;
                  headed = inr (omega (arith, below), (head, here));
                  unheaded = λ j h.
                      other j (λ z. omega (arith, h, z, below)) ∙ v.unheaded j (omega (arith, h));
                  heads =
                      at-cases (λ x. param_kind x ≡ word_param) s.interp_of s.first_interp head kind
                        v.heads;
                  destinations =
                      Laid.destinations_snoc is_destination rank originals fuel i s v enough turn;
                  flows =
                      Laid.flows_snoc is_destination rank originals fuel i s v enough turn s.words
                        (λ j h. refl);
                  last_flows = λ j x h k f b. absurd (cc);
                  after = λ j x h k f b. absurd (no_branch j x h f b);
                  skips =
                      Laid.skips_snoc is_destination rank originals fuel i s v enough turn s.words
                        (λ j h. refl);
                  entry =
                      inr (Laid.entry_snoc is_destination rank originals fuel i s v enough turn);
                },
              )
        ]
