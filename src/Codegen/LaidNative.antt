-- ===== src/Codegen/LaidNative.antt =====
-- A turn of the layout's loop on a native word keeps the invariant.
use tails.Prelude.{
  not, ◌&&◌, ℕ, ◌+◌, ◌<◌, ◌≡◌, refl, sym, ap, ◌∙◌, subst, inl, inr, Bool, true, false, ◌||◌, List,
  [], ◌∷◌, ◌++◌, some, arith, length, get_elem?, set, some_cancel,
}
use tails.Prelude.Members.{length-set, get_elem?-set, get_elem?-set_other, get_elem?-lt}
use tails.Result.{Result}
use tails.Checker.{SourceWord}
use tails.Codegen.{Layout, at, place_native, parameters_of, is_branch, is_recurse}
use tails.Codegen.Places.{Fills}
use tails.Codegen.Turn.{is_native, turn-Turned}
use tails.Codegen.Sizes.{spaces, sizes, native-spaces}
use tails.Codegen.Laid

module _ (is_destination : ℕ → Bool) (rank : ℕ → ℕ) (originals : List SourceWord) where
  abbrev LaidAt : ℕ → Layout → Type 0
  LaidAt = Laid.Laid is_destination rank originals

  abbrev Placed : Result Layout → ℕ → Type 0
  Placed = Laid.Placed is_destination rank originals

  module _ (fuel i : ℕ) (s : Layout) (v : LaidAt i s)
      (enough : (j : ℕ) → j < length originals → rank j < fuel)
      (turn : (s.after_branch && not (is_destination i)) ≡ false) where
    module _ (w : SourceWord) (e : get_elem? s.words i ≡ some w) where
      pub native-Laid : is_native w.word ≡ true → Placed (place_native fuel i w s) (i + 1)
      unfolding place_native
      native-Laid n =
          let t =
            turn-Turned is_destination rank originals s.words fuel i v.source v.rewritten
              (λ j h. enough j (subst (λ l. j < l) v.same_length h)) w e in
          let s' : Layout = record s {
            words = set s.words i t.last;
            kept = s.kept ++ i ∷ [];
            pc_of = at s.pc_of i s.pc;
            recursive = s.recursive || is_recurse t.last.word;
            interp_count = 0;
            after_branch = is_branch t.last.word;
            pc = s.pc + parameters_of t.last.word + 1;
          } in
          (
            s',
            rw (t.calls, t.targets) refl,
            record {
              same_length = length-set s.words i t.last ∙ v.same_length;
              source = t.source;
              rewritten = t.rewritten;
              fills =
                  subst (Fills (sizes s') (at s.pc_of i s.pc) 0 (s.kept ++ i ∷ []))
                    (size_here t.last (t.same_native ∙ n))
                    (Laid.Fills-snoc is_destination rank originals fuel i s v enough turn (sizes s')
                      (λ j h.
                        ap (λ x. spaces x (s.interp_of j))
                          (get_elem?-set_other s.words i j t.last (λ z. omega (arith, h, z)))));
              below = Laid.below_snoc is_destination rank originals fuel i s v enough turn;
              headed = inl refl;
              unheaded = λ j h. v.unheaded j (omega (arith, h));
              heads = v.heads;
              destinations =
                  Laid.destinations_snoc is_destination rank originals fuel i s v enough turn;
              flows =
                  Laid.flows_snoc is_destination rank originals fuel i s v enough turn
                    (set s.words i t.last)
                    (λ j h. get_elem?-set_other s.words i j t.last (λ z. omega (arith, h, z)));
              last_flows = λ j x h k f b.
                  let same : j ≡ i = omega (arith, h) in
                  let at_last = some_cancel (
                    sym (get_elem?-set s.words i t.last (get_elem?-lt s.words i e))
                    ∙ sym (ap (get_elem? (set s.words i t.last)) same)
                    ∙ f) in
                  ap (λ y. is_branch (y.word)) (sym at_last) ∙ b;
              after = λ j x h k f b.
                  let same : j ≡ i = omega (arith, h) in
                  let at_last = some_cancel (
                    sym (get_elem?-set s.words i t.last (get_elem?-lt s.words i e))
                    ∙ sym (ap (get_elem? (set s.words i t.last)) same)
                    ∙ f) in
                  ap (λ y. is_branch (y.word)) at_last ∙ b;
              skips =
                  Laid.skips_snoc is_destination rank originals fuel i s v enough turn
                    (set s.words i t.last)
                    (λ j h. get_elem?-set_other s.words i j t.last (λ z. omega (arith, h, z)));
              entry = inr (Laid.entry_snoc is_destination rank originals fuel i s v enough turn);
            },
          )
        where
          size_here :
              (x : SourceWord)
              → is_native x.word ≡ true
              → s.pc + spaces (get_elem? (set s.words i x) i) (s.interp_of i)
                ≡ s.pc + parameters_of x.word + 1
          size_here x k =
              let a = get_elem?-set s.words i x (get_elem?-lt s.words i e) in
              ap (λ y. s.pc + spaces y (s.interp_of i)) a
              ∙ ap (λ y. s.pc + (1 + y)) (native-spaces x.word (s.interp_of i) k)
              ∙ omega arith
