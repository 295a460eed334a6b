-- ===== src/Codegen/Placed.antt =====
-- The loop of the layout keeps its invariant, and what follows for the code that is assembled.
use tails.Prelude.{
  contradiction, ℕ, zero, suc, ◌+◌, ◌<◌, ◌≡◌, ◌≢◌, refl, sym, ap, ◌∙◌, subst, ◌⊎◌, inl, inr, Bool,
  true, false, not, ◌||◌, ◌&&◌, List, some, arith, length, get_elem?, Bool-cases, ◌==◌, ==_iff, leb,
}
use tails.Prelude.Members.{lt-get_elem?}
use tails.Word.{Native, Word, native, interpreted}
use tails.Checker.{SourceWord}
use tails.Codegen.{Layout, place_interpreted, place_word, place, place_all, start, lay_out}
use tails.Codegen.Branches.{IsSource}
use tails.Codegen.Laid.{Laid, Placed}
use tails.Codegen.LaidNative.{native-Laid}
use tails.Codegen.LaidGroup.{first-Laid, next-Laid}

pub word-cases : (x : Word) → ((n : Native) × (x ≡ native n)) ⊎ ((k : ℕ) × (x ≡ interpreted k))
word-cases (native n) = inl (n, refl)
word-cases (interpreted k) = inr (k, refl)

module _ (is_destination : ℕ → Bool) (rank : ℕ → ℕ) (originals : List SourceWord) (fuel : ℕ)
    (enough : (j : ℕ) → j < length originals → rank j < fuel) where
  module _ (i : ℕ) (s : Layout) (v : Laid is_destination rank originals i s) where
    word-Placed :
        (w : SourceWord) (d : Bool)
        → get_elem? s.words i ≡ some w
        → (s.after_branch && not (is_destination i)) ≡ false
        → Placed is_destination rank originals (place_word fuel d i w s) (i + 1)
    unfolding place_word
    word-Placed w d e turn = elim (word-cases w.word) [
      | inl (n, word) ↦
          subst (λ r. Placed is_destination rank originals r (i + 1)) (sym (rw word refl))
            (native-Laid is_destination rank originals fuel i s v enough turn w e (rw word refl))
      | inr (k, word) ↦
          let starts = s.interp_count == 0 || leb 4 s.interp_count || d in
          let step : place_word fuel d i w s ≡ place_interpreted fuel i starts s = rw word refl in
          elim (Bool-cases starts) [
            | inl q ↦
                subst (λ r. Placed is_destination rank originals r (i + 1))
                  (sym (step ∙ ap (λ b. place_interpreted fuel i b s) q))
                  (first-Laid is_destination rank originals fuel i s v enough turn w e k word)
            | inr q ↦
                subst (λ r. Placed is_destination rank originals r (i + 1))
                  (sym (step ∙ ap (λ b. place_interpreted fuel i b s) q))
                  (next-Laid is_destination rank originals fuel i s v enough turn w e k word
                    (few s.interp_count q) (started s.interp_count q))
          ]
    ]
      where
        few : (c : ℕ) → (c == 0 || leb 4 c || d) ≡ false → c < 4
        few c q = ground arith

        started : (c : ℕ) → (c == 0 || leb 4 c || d) ≡ false → c ≢ 0
        started c q = ground arith

    skipped-Laid :
        is_destination i ≡ false
        → s.after_branch ≡ true
        → Laid is_destination rank originals (i + 1) s
    skipped-Laid d after = record {
      same_length = v.same_length;
      source = v.source;
      rewritten = v.rewritten;
      fills = v.fills;
      below = λ j k. omega (arith, v.below j k);
      headed = elim v.headed [ inl z ↦ inl z | inr (l, h) ↦ inr (omega (arith, l), h) ];
      unheaded = λ j h. v.unheaded j (omega (arith, h));
      heads = v.heads;
      destinations = λ j h q. elim (Bool-cases (j == i)) [
        | inl e ↦ contradiction (sym (ap is_destination ((==_iff j i).0 e)) ∙ q) d
        | inr e ↦ v.destinations j (ground (arith, h, e)) q
      ];
      flows = λ j w h k f n. elim (Bool-cases (j + 1 == i)) [
        | inl e ↦ contradiction (v.last_flows j w ((==_iff (j + 1) i).0 e) k f after) n
        | inr e ↦ v.flows j w (ground (arith, h, e)) k f n
      ];
      last_flows = λ j w h k f b. absurd (omega (arith, h, v.below j k));
      after = λ j w h k f b. absurd (omega (arith, h, v.below j k));
      skips = λ j w h k f b n m. v.skips j w (v.below (j + 1) m) k f b n m;
      entry = elim v.entry [ inl (_, n) ↦ contradiction after n | inr k ↦ inr k ];
    }

    pub turn-Placed :
        i < length originals
        → Placed is_destination rank originals (place fuel (is_destination i) i s) (i + 1)
    unfolding place
    turn-Placed h = elim (Bool-cases (s.after_branch && not (is_destination i))) [
      | inl q ↦ (
        s,
        rw q refl,
        skipped-Laid (dropped s.after_branch (is_destination i) q).0
            (dropped s.after_branch (is_destination i) q).1,
      )
      | inr q ↦
          let (w, e) = lt-get_elem? s.words i (subst (λ n. i < n) (sym v.same_length) h) in
          let (s', f, l) = word-Placed w (is_destination i) e q in (s', rw (q, e) f, l)
    ]
      where
        dropped : (a d : Bool) → (a && not d) ≡ true → (d ≡ false) × (a ≡ true)
        dropped true false q = (refl, refl)
        dropped true true q = absurd (cc)
        dropped false d q = absurd (cc)

  all-Placed :
      (n i : ℕ) (s : Layout)
      → Laid is_destination rank originals i s
      → i + n ≡ length originals
      → Placed is_destination rank originals
          (place_all fuel is_destination n i s)
          (length originals)
  unfolding place_all
  all-Placed zero i s v e =
      let same : i ≡ length originals = omega (arith, e) in
      (s, refl, subst (λ k. Laid is_destination rank originals k s) same v)
  all-Placed (suc n) i s v e =
      let (s₁, f, v₁) = turn-Placed i s v (omega (arith, e)) in
      let (s₂, g, v₂) = all-Placed n (i + 1) s₁ v₁ (omega (arith, e)) in (s₂, rw f g, v₂)

  pub start-Laid :
      IsSource is_destination rank originals
      → Laid is_destination rank originals 0 (start originals)
  unfolding start
  start-Laid v = record {
    same_length = refl;
    source = v;
    rewritten =
        λ i w e. (w, e, record { same_param = refl; word_from = inl refl; target_from = inl refl });
    fills = refl;
    below = λ j k. absurd k;
    headed = inl refl;
    unheaded = λ j h. refl;
    heads = λ j head e. absurd (cc);
    destinations = λ j h. absurd (omega (arith, h));
    flows = λ j w h. absurd (omega (arith, h));
    last_flows = λ j w h. absurd (omega (arith, h));
    after = λ j w h. absurd (omega (arith, h));
    skips = λ j w h. absurd (omega (arith, h));
    entry = inl (refl, refl);
  }

  pub lay_out-Placed :
      IsSource is_destination rank originals
      → Placed is_destination rank originals
          (lay_out fuel is_destination originals)
          (length originals)
  unfolding lay_out
  lay_out-Placed v = all-Placed (length originals) 0 (start originals) (start-Laid v) (omega arith)
