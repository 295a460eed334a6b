-- ===== src/CompiledWord/Tests.antt =====
-- A word that is defined from a quotation, and named from lower case.
use tails.Prelude.{ℕ, ◌+◌, ◌≡◌, ◌≢◌, refl, inl, inr, false, List, [], ◌∷◌, some, arith}
use tails.Result.{ok}
use tails.Word.{Native}
use tails.StackEffect.{empty_effect}
use tails.Value.{quote, string, null, same_bytes}
use tails.Vm.{op}
use tails.Vocabulary.{NamedWord, upper, upper_char, lookup_active, lookup, find}
use tails.Vocabulary.Active.{
  Vocabularies, only_core, create, activate, set_current, deactivate, lookup_name,
  active_vocabularies,
}
use tails.CompiledWord.{Program, define}
use tails.CompiledWord.Laws.{define-lookup}

abbrev dup_word : NamedWord
dup_word = record { name = b'D' ∷ b'U' ∷ b'P' ∷ []; instruction = 1 }

-- The vocabularies as `main` sets them up.
abbrev started : Vocabularies
unfolding only_core create activate set_current
started = set_current (some 1) (activate 1 (create [] (only_core (dup_word ∷ []))))

abbrev program : Program
program = record {
  memory = record {
    count = 1;
    code_of = λ k. op Native.ret ∷ [];
    effect_of = λ k. empty_effect;
    is_recursive = λ k. false;
  };
  vocabularies = started;
}

abbrev name : List ℕ
name = b'd' ∷ b'u' ∷ b'o' ∷ []

popped : deactivate started ≡ ok (record started { active = 0 ∷ [] })
unfolding deactivate started
popped = refl

define-lookup_example :
    (p' : Program) × (define (λ k. k + 7) (string name ∷ quote 0 ∷ null ∷ []) program
      ≡ ok (null ∷ [], p'))
    × (p'.memory.code_of 1 ≡ op Native.ret ∷ [])
    × (p'.memory.effect_of 1 ≡ empty_effect)
    × (p'.memory.is_recursive 1 ≡ false)
    × ((n : List ℕ)
        → upper n ≡ upper name
        → lookup_name n p'.vocabularies ≡ some (record { name = upper name; instruction = 8 }))
    × ((n : List ℕ) → upper n ≢ upper name → lookup_name n p'.vocabularies ≡ lookup_name n started)
unfolding lookup_name active_vocabularies lookup_active lookup find upper started upper_char
    same_bytes
define-lookup_example =
    define-lookup (λ k. k + 7) b'd' (b'u' ∷ b'o' ∷ []) 0 1 (null ∷ []) program refl (inr (inl refl))
      (omega arith) refl
