-- ===== src/NanTagged/Tests.antt =====
-- Values of NanTagged at small addresses and numbers.
use tails.Prelude.{◌⊎◌, ◌≢◌, true, none, ◌≡◌, ◌↔◌, refl, [], ◌∷◌, some, arith}
use tails.TypeSet.{a_null, a_number, a_string, an_array, a_quote}
use tails.NanTagged.{
  mark_nothing, text_bits, as_string, inline_text, no_text, is_null_pointer, is_double, is_string,
  is_array, is_quote, is_nan, tags, as_pointer, set_pointer, bits_type, number_bits, array_bits,
  quote_bits, string_bits, mark_target, mark_array, mark_quote, mark_string,
}
use tails.NanTagged.Laws.{heap_bits-type, as_string-text_bits, tests-type, mark_number}

heap_bits-type_example :
    ((bits_type (string_bits 64) ≡ some a_string)
      × (is_string (string_bits 64) ≡ true)
      × (as_pointer (string_bits 64) ≡ 64)
      × (mark_target (string_bits 64) ≡ mark_string 64))
    × ((bits_type (array_bits 64) ≡ some an_array)
        × (is_array (array_bits 64) ≡ true)
        × (as_pointer (array_bits 64) ≡ 64)
        × (mark_target (array_bits 64) ≡ mark_array 64))
    × ((bits_type (quote_bits 64) ≡ some a_quote)
        × (is_quote (quote_bits 64) ≡ true)
        × (as_pointer (quote_bits 64) ≡ 64)
        × (mark_target (quote_bits 64) ≡ mark_quote 64))
heap_bits-type_example = heap_bits-type 64 (omega arith) (omega arith)

as_string-text_bits_example :
    (as_string (text_bits (some (b'h' ∷ b'i' ∷ [])) 64) ≡ inline_text (b'h' ∷ b'i' ∷ []))
    × (bits_type (text_bits (some (b'h' ∷ b'i' ∷ [])) 64) ≡ some a_string)
    × (is_string (text_bits (some (b'h' ∷ b'i' ∷ [])) 64) ≡ true)
    × (as_string (text_bits none 64) ≡ no_text)
    × (bits_type (text_bits none 64) ≡ some a_null)
as_string-text_bits_example =
    as_string-text_bits (b'h' ∷ b'i' ∷ []) 64
      (omega arith, omega arith, (omega arith, omega arith, tt)) (omega arith) (omega arith)

tests-type_example :
    ((is_null_pointer 0xfffd000000000040 ≡ true) ↔ (bits_type 0xfffd000000000040 ≡ some a_null))
    × ((is_double 0xfffd000000000040 ≡ true) ↔ (bits_type 0xfffd000000000040 ≡ some a_number))
    × ((is_string 0xfffd000000000040 ≡ true) ↔ (bits_type 0xfffd000000000040 ≡ some a_string))
    × ((is_array 0xfffd000000000040 ≡ true)
        ↔ ((bits_type 0xfffd000000000040 ≡ some an_array) × (as_pointer 0xfffd000000000040 ≢ 0)))
    × ((is_quote 0xfffd000000000040 ≡ true)
        ↔ ((bits_type 0xfffd000000000040 ≡ some a_quote) × (as_pointer 0xfffd000000000040 ≢ 0)))
tests-type_example = tests-type 0xfffd000000000040 (omega arith)

-- The bits of 1.0625.
mark_number_example :
    ((mark_target (number_bits 0x3ff1000000000000) ≡ mark_array 0) ↔ (tags 0x3ff1000000000000 ≡ 1))
    × ((mark_target (number_bits 0x3ff1000000000000) ≡ mark_quote 0)
        ↔ (tags 0x3ff1000000000000 ≡ 2))
    × ((mark_target (number_bits 0x3ff1000000000000) ≡ mark_nothing)
        ↔ ((tags 0x3ff1000000000000 ≡ 0) ⊎ (tags 0x3ff1000000000000 ≡ 3)))
    × (mark_target (set_pointer 0) ≡ mark_string 0)
unfolding is_nan
mark_number_example = mark_number 0x3ff1000000000000 (omega arith) refl
