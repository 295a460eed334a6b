-- ===== src/Disassembler/Inverse.antt =====
-- Disassembly gives back the words that code was generated from.
use tails.Prelude.{
  ℕ, zero, suc, ◌<◌, ◌≡◌, refl, sym, ap, ◌∙◌, subst, inl, inr, Bool, true, false, List, [], ◌∷◌,
  ◌++◌, Option, none, some, arith, length, get_elem?, ◌==◌, if◌then◌else◌,
}
use tails.Prelude.Members.{In}
use tails.Result.{ok, err, ok-injective, unknown_instruction}
use tails.Word.{Native, Word, native, interpreted, parameters, word_param, param_kind}
use tails.Value.{Value}
use tails.Vm.{Instruction, op, word}
use tails.Checker.{SourceWord}
use tails.Codegen.{Layout, lay_out, assemble, assemble_at, assemble_word, parameter}
use tails.Codegen.Branches.{IsSource}
use tails.Codegen.Placed.{lay_out-Placed}
use tails.Disassembler.{
  WordRef, lookup_word, with_param, next, words_of, has_word_params, param_count, after_interp,
  is_return,
}

-- The word at `i`, with the parameter that is assembled for it.
unfoldable pub ref_of : (ℕ → ℕ) → ℕ → SourceWord → WordRef
ref_of pc_of i w = record {
  word = w.word;
  param = elim w.word [
    | native n ↦ if parameters n == 0 then none else some (parameter pc_of i w)
    | interpreted k ↦ none
  ];
}

abbrev pub refs_of : Layout → List ℕ → List WordRef
refs_of s [] = []
refs_of s (i ∷ is) = elim (get_elem? s.words i) [
  | some w ↦ ref_of s.pc_of i w ∷ refs_of s is
  | none ↦ refs_of s is
]

module _ (registered : ℕ → Bool) where
  -- A word that the disassembler finds, and that is not of the INTERP family.
  abbrev pub IsFound : Word → Type 0
  IsFound (native n) = has_word_params registered (native n) ≡ false
  IsFound (interpreted k) = registered k ≡ true

  with_param-none :
      (w : Word) (code : List Instruction)
      → (param_count registered w == 0) ≡ true
      → with_param registered w code ≡ ok (record { word = w; param = none }, code)
  unfolding with_param
  with_param-none w [] e = rw e refl
  with_param-none w (i ∷ code) e = rw e refl

  head-param :
      (head : Native)
      → param_kind head ≡ word_param
      → has_word_params registered (native head) ≡ true
  head-param head e = rw (has_word_params, e) refl

  with_param-native :
      (n : Native) (q : Instruction) (rest : List Instruction) (b : Bool)
      → (parameters n == 0) ≡ b
      → with_param registered (native n) ((if b then [] else q ∷ []) ++ rest)
        ≡ ok (record { word = native n; param = if b then none else some q }, rest)
  unfolding with_param
  with_param-native n q rest true e = with_param-none (native n) rest e
  with_param-native n q rest false e = rw e refl

  -- The code of a word is read as that word.
  next-assemble_word :
      (pc_of : ℕ → ℕ) (interp_of : ℕ → Option Native) (i : ℕ) (x : Word) (p : Value) (b : Option ℕ)
      (rest : List Instruction)
      → ((head : Native) → interp_of i ≡ some head → param_kind head ≡ word_param)
      → IsFound x
      → next registered
          (assemble_word pc_of interp_of i (record { word = x; param = p; branch_to = b }) ++ rest)
        ≡ ok (ref_of pc_of i (record { word = x; param = p; branch_to = b }), rest)
  unfolding next lookup_word assemble_word ref_of
  next-assemble_word pc_of interp_of i (native n) p b rest heads found =
      let w : SourceWord = record { word = native n; param = p; branch_to = b } in
      let q = parameter pc_of i w in
      ap
        (λ c.
          after_interp registered c (native n) ((if parameters n == 0 then [] else q ∷ []) ++ rest))
        found
      ∙ with_param-native n q rest (parameters n == 0) refl
  next-assemble_word pc_of interp_of i (interpreted k) p b rest heads found =
      by_head (interp_of i) heads
    where
      code : Option Native → List Instruction
      code o = elim o [ some head ↦ op head ∷ word k ∷ [] | none ↦ word k ∷ [] ]

      known : (if registered k then some (interpreted k) else none) ≡ some (interpreted k)
      known = rw found refl

      by_head :
          (o : Option Native)
          → ((head : Native) → o ≡ some head → param_kind head ≡ word_param)
          → next registered (code o ++ rest)
            ≡ ok (record { word = interpreted k; param = none }, rest)
      by_head none h =
          ap
            (λ o. elim o [
              | some w ↦ after_interp registered (has_word_params registered w) w rest
              | none ↦ err unknown_instruction
            ])
            known
          ∙ with_param-none (interpreted k) rest refl
      by_head (some head) h =
          ap (λ c. after_interp registered c (native head) (word k ∷ rest))
            (head-param head (h head refl))
          ∙ ap (λ o. tails.Disassembler.found registered o rest) known
          ∙ with_param-none (interpreted k) rest refl

  words_of-step :
      (fuel : ℕ) (code rest : List Instruction) (ref : WordRef) (refs : List WordRef)
      → next registered code ≡ ok (ref, rest)
      → is_return registered ref.word ≡ false
      → words_of registered fuel rest ≡ ok refs
      → words_of registered (suc fuel) code ≡ ok (ref ∷ refs)
  unfolding words_of
  words_of-step fuel code rest ref refs e n f = rw (e, n, f) refl

  words_of-end :
      (fuel : ℕ) (code rest : List Instruction) (ref : WordRef)
      → next registered code ≡ ok (ref, rest)
      → is_return registered ref.word ≡ true
      → words_of registered (suc fuel) code ≡ ok []
  unfolding words_of
  words_of-end fuel code rest ref e n = rw (e, n) refl

  -- The word at `i` is found, and it is RETURN or not.
  abbrev pub Listed : Bool → Layout → ℕ → Type 0
  Listed b s i =
      (w : SourceWord) × (get_elem? s.words i ≡ some w)
      × IsFound w.word
      × (is_return registered w.word ≡ b)

  next-assemble_at :
      (s : Layout) (i : ℕ) (w : SourceWord) (rest : List Instruction)
      → ((j : ℕ) (head : Native) → s.interp_of j ≡ some head → param_kind head ≡ word_param)
      → get_elem? s.words i ≡ some w
      → IsFound w.word
      → next registered (assemble_at s i ++ rest) ≡ ok (ref_of s.pc_of i w, rest)
  unfolding assemble_at
  next-assemble_at s i w rest heads e f =
      ap
        (λ o.
          next registered
            ((elim o [ some x ↦ assemble_word s.pc_of s.interp_of i x | none ↦ [] ]) ++ rest))
        e
      ∙ next-assemble_word s.pc_of s.interp_of i w.word w.param w.branch_to rest (heads i) f

  words_of-assemble :
      (s : Layout)
      → ((j : ℕ) (head : Native) → s.interp_of j ≡ some head → param_kind head ≡ word_param)
      → (is : List ℕ) (r fuel : ℕ) → ((i : ℕ) → In i is → Listed false s i)
      → Listed true s r
      → length is < fuel
      → words_of registered fuel (assemble s (is ++ r ∷ [])) ≡ ok (refs_of s is)
  unfolding assemble ref_of
  words_of-assemble s heads is r zero l z h = absurd (omega (arith, h))
  words_of-assemble s heads [] r (suc fuel) l (w, e, f, n) h =
      words_of-end fuel (assemble_at s r ++ []) [] (ref_of s.pc_of r w)
        (next-assemble_at s r w [] heads e f) n
  words_of-assemble s heads (i ∷ is) r (suc fuel) l z h =
      let (w, e, f, n) = l i (inl refl) in
      let rest = assemble s (is ++ r ∷ []) in
      words_of-step fuel (assemble_at s i ++ rest) rest (ref_of s.pc_of i w) (refs_of s is)
        (next-assemble_at s i w rest heads e f) n
        (words_of-assemble s heads is r fuel (λ j k. l j (inr k)) z (omega (arith, h)))
      ∙ sym (
          ap (λ o. ok (elim o [ some x ↦ ref_of s.pc_of i x ∷ refs_of s is | none ↦ refs_of s is ]))
            e)

  -- Code that is generated from resolved words, the chains of whose branches end, is disassembled into
  -- the words of its layout up to RETURN, with the parameters that were assembled for them, when the
  -- last of them and no other is RETURN, the compiled ones are registered, none is of the INTERP
  -- family, and there is fuel for each.
  pub words_of-generate :
      (fuel : ℕ) (is_destination : ℕ → Bool) (rank : ℕ → ℕ) (words : List SourceWord)
      → IsSource is_destination rank words
      → ((i : ℕ) → i < length words → rank i < fuel)
      → (s : Layout) (is : List ℕ) (r : ℕ) → lay_out fuel is_destination words ≡ ok s
      → s.kept ≡ is ++ r ∷ []
      → ((i : ℕ) → In i is → Listed false s i)
      → Listed true s r
      → (size : ℕ) → length is < size
      → words_of registered size (assemble s s.kept) ≡ ok (refs_of s is)
  words_of-generate fuel is_destination rank words v enough s is r e kept l z size h =
      let (s', e', laid) = lay_out-Placed is_destination rank words fuel enough v in
      let heads =
        subst
          (λ (x : Layout).
            (j : ℕ) (head : Native) → x.interp_of j ≡ some head → param_kind head ≡ word_param)
          (ok-injective (sym e' ∙ e)) laid.heads in
      ap (λ k. words_of registered size (assemble s k)) kept
      ∙ words_of-assemble s heads is r size l z h
