-- ===== src/NanTagged/Laws.antt =====
-- What the 64 bits of a value tell apart, and what they give back.
use tails.Prelude.{
  ◌⊎◌, ℕ, zero, suc, ◌+◌, ◌*◌, ◌/◌, ◌%◌, ◌^◌, ◌≤◌, ◌<◌, ◌≡◌, ◌↔◌, ◌≢◌, refl, true, false, List, [],
  ◌∷◌, some, arith, length, leb, none, Bool, Bool-cases, inl, inr, if◌then◌else◌,
}
use tails.TypeSet.{a_null, a_number, a_string, an_array, a_quote}
use tails.NanTagged.{
  mark_nothing, text_bits, as_string, inline_text, heap_text, no_text, tag1, tag2, set_tag1,
  set_tag2, set_tags, is_null_pointer, is_double, is_string, is_array, is_quote, is_inline,
  tagged_type, is_pointer, pointer_value, is_nan, tags, as_pointer, inline_type, set_pointer,
  bits_type, number_bits, array_bits, quote_bits, string_bits, pack, unpack, inline_bits,
  inline_string, mark_target, mark_array, mark_quote, mark_string,
}

-- The bits made for a string, an array or a quotation at an address of 48 bits, not 0, have that type,
-- by `type` and by `isString`, `isArray` or `isQuote`, and give the address back; marking the value
-- marks the object there by its class.
pub heap_bits-type :
    (p : ℕ)
    → 0 < p
    → p < 2 ^ 48
    → ((bits_type (string_bits p) ≡ some a_string)
        × (is_string (string_bits p) ≡ true)
        × (as_pointer (string_bits p) ≡ p)
        × (mark_target (string_bits p) ≡ mark_string p))
      × ((bits_type (array_bits p) ≡ some an_array)
          × (is_array (array_bits p) ≡ true)
          × (as_pointer (array_bits p) ≡ p)
          × (mark_target (array_bits p) ≡ mark_array p))
      × ((bits_type (quote_bits p) ≡ some a_quote)
          × (is_quote (quote_bits p) ≡ true)
          × (as_pointer (quote_bits p) ≡ p)
          × (mark_target (quote_bits p) ≡ mark_quote p))
unfolding string_bits array_bits quote_bits bits_type as_pointer is_string is_array is_quote
    mark_target
heap_bits-type p pos h = (
  (ground arith, ground arith, ground arith, ground arith),
  (ground arith, ground arith, ground arith, ground arith),
  (ground arith, ground arith, ground arith, ground arith),
)

-- Bytes of a string without a zero byte.
abbrev pub Bytes : List ℕ → Type 0
Bytes [] = Unit
Bytes (c ∷ cs) = (0 < c) × (c < 256) × Bytes cs

-- 256 ^ n * k, with the factors in the order of the digits.
abbrev scale : ℕ → ℕ → ℕ
scale zero k = k
scale (suc n) k = 256 * scale n k

unpack-pack :
    (n k : ℕ) (cs : List ℕ) → Bytes cs → length cs ≤ n → unpack n (pack cs + scale n k) ≡ cs
unfolding unpack pack
unpack-pack zero k [] b h = refl
unpack-pack zero k (c ∷ cs) b h = absurd (omega arith)
unpack-pack (suc n) k [] b h = ground arith
unpack-pack (suc n) k (c ∷ cs) (lo, hi, b) h =
    let low : (c + 256 * pack cs + scale (suc n) k) % 256 ≡ c = omega arith in
    let high : (c + 256 * pack cs + scale (suc n) k) / 256 ≡ pack cs + scale n k = omega arith in
    rw (low, high) (ground (arith, unpack-pack n k cs b (omega arith)))

scale-pos : (n : ℕ) → 0 < scale n 1
scale-pos zero = omega arith
scale-pos (suc n) = omega (arith, scale-pos n)

pack-lt : (n : ℕ) (cs : List ℕ) → Bytes cs → length cs ≤ n → pack cs < scale n 1
unfolding pack
pack-lt n [] b h = scale-pos n
pack-lt zero (c ∷ cs) b h = absurd (omega arith)
pack-lt (suc n) (c ∷ cs) (lo, hi, b) h = omega (arith, pack-lt n cs b (omega arith))

-- A string of at most six bytes, none of them zero, is stored inline as a string and is read back.
inline_string-inline_bits :
    (cs : List ℕ)
    → Bytes cs
    → length cs ≤ 6
    → (inline_string (inline_bits cs) ≡ cs) × (bits_type (inline_bits cs) ≡ some a_string)
unfolding inline_string inline_bits bits_type
inline_string-inline_bits cs b h =
    let small = pack-lt 6 cs b h in
    (
      (let e : inline_type + pack cs ≡ pack cs + scale 6 0x7ffc = omega arith in
          rw e (unpack-pack 6 0x7ffc cs b h)),
      ground arith,
    )

-- A string without zero bytes is read back from the value that is made of it, inline if it has at most
-- six bytes and else as the heap string at the new address, not 0; its value is a string by its type
-- and by `isString`. No text is read from the value of a null pointer, which is null.
pub as_string-text_bits :
    (cs : List ℕ) (p : ℕ)
    → Bytes cs
    → 0 < p
    → p < 2 ^ 48
    → (as_string (text_bits (some cs) p)
        ≡ (if leb (length cs) 6 then inline_text cs else heap_text p))
      × (bits_type (text_bits (some cs) p) ≡ some a_string)
      × (is_string (text_bits (some cs) p) ≡ true)
      × (as_string (text_bits none p) ≡ no_text)
      × (bits_type (text_bits none p) ≡ some a_null)
unfolding text_bits as_string string_bits bits_type is_string inline_bits
as_string-text_bits cs p b pos h = elim (Bool-cases (leb (length cs) 6)) [
  | inl q ↦
      let short : length cs ≤ 6 = ground (arith, q) in
      let small = pack-lt 6 cs b short in
      let (read, type) = inline_string-inline_bits cs b short in
      (rw q (ground (arith, read)), rw q type, rw q (ground arith), ground arith, ground arith)
  | inr q ↦
      (rw q (ground arith), rw q (ground arith), rw q (ground arith), ground arith, ground arith)
]

-- Setting the tags sets bits 48 and 49, each setter its own, and leaves the address as it was.
tags-set_tags :
    (b t : ℕ) (x : Bool)
    → b < 2 ^ 64
    → (tags (set_tags t b) ≡ t % 4)
      × (pointer_value (set_tags t b) ≡ pointer_value b)
      × (tag1 (set_tag1 x b) ≡ x)
      × (tag2 (set_tag1 x b) ≡ tag2 b)
      × (tag2 (set_tag2 x b) ≡ x)
      × (tag1 (set_tag2 x b) ≡ tag1 b)
unfolding tags set_tags pointer_value tag1 tag2 set_tag1 set_tag2
tags-set_tags b t true h =
    (ground arith, ground arith, ground arith, ground arith, ground arith, ground arith)
tags-set_tags b t false h =
    (ground arith, ground arith, ground arith, ground arith, ground arith, ground arith)

-- Marking a number goes to an array at the null pointer exactly if bits 48 and 49 of the double spell
-- an array's tag, to a quotation there exactly if they spell a quotation's, and otherwise does nothing.
-- Marking null goes to a string at the null pointer.
pub mark_number :
    (d : ℕ)
    → d < 2 ^ 64
    → is_nan d ≡ false
    → ((mark_target (number_bits d) ≡ mark_array 0) ↔ (tags d ≡ 1))
      × ((mark_target (number_bits d) ≡ mark_quote 0) ↔ (tags d ≡ 2))
      × ((mark_target (number_bits d) ≡ mark_nothing) ↔ ((tags d ≡ 0) ⊎ (tags d ≡ 3)))
      × (mark_target (set_pointer 0) ≡ mark_string 0)
unfolding mark_target number_bits is_nan
mark_number d h n = (
  (λ e. ground arith, λ e. ground arith),
  (λ e. ground arith, λ e. ground arith),
  (λ e. ground arith, λ e. ground arith),
  ground arith,
)

-- Any 64 bits are null, a number or a string by the tests `isNull`, `isDouble` and `isString` exactly
-- if that is their type, and an array or a quotation by `isArray` and `isQuote` exactly if that is
-- their type and `asPointer` is not null.
pub tests-type :
    (b : ℕ)
    → b < 2 ^ 64
    → ((is_null_pointer b ≡ true) ↔ (bits_type b ≡ some a_null))
      × ((is_double b ≡ true) ↔ (bits_type b ≡ some a_number))
      × ((is_string b ≡ true) ↔ (bits_type b ≡ some a_string))
      × ((is_array b ≡ true) ↔ ((bits_type b ≡ some an_array) × (as_pointer b ≢ 0)))
      × ((is_quote b ≡ true) ↔ ((bits_type b ≡ some a_quote) × (as_pointer b ≢ 0)))
unfolding is_string is_array is_quote bits_type is_null_pointer is_double as_pointer tags is_inline
    tagged_type is_pointer pointer_value
tests-type b h = (
  (λ e. ground arith, λ e. ground arith),
  (λ e. ground arith, λ e. ground arith),
  (λ e. ground arith, λ e. ground arith),
  (λ e. (ground arith, λ z. ground arith), λ (e, n). ground arith),
  (λ e. (ground arith, λ z. ground arith), λ (e, n). ground arith),
)
