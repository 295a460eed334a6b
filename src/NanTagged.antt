-- ===== src/NanTagged.antt =====
-- The class `NanTagged` of src/values/nan_tagged.hh, with `Value::type` and the inline strings of
-- src/values/value.cc, on the 64 bits of a value. A mask test or an OR with a constant is written
-- as the division or the sum that it is: the magic bits are bits 50 to 62, the sign is bit 63, the
-- tags are bits 48 and 49. Bytes are in little-endian order.
pub mod Laws
mod Tests
use tails.Prelude.{
  length, leb, ℕ, zero, suc, ◌+◌, ◌-◌, ◌*◌, ◌/◌, ◌%◌, ◌^◌, Bool, true, false, not, ◌&&◌, ◌||◌, List,
  [], ◌∷◌, Option, none, some, ◌==◌, if◌then◌else◌,
}
use tails.TypeSet.{ValueType, a_null, a_number, a_string, an_array, a_quote}

-- `kPointerType` (magic bits and sign) and `kInlineType` (magic bits alone)
abbrev pub pointer_type : ℕ
pointer_type = 0xfffc000000000000

abbrev pub inline_type : ℕ
inline_type = 0x7ffc000000000000

-- `isnan(d)` on a double's bits: the exponent is all ones and the fraction is not zero.
unfoldable pub is_nan : ℕ → Bool
is_nan d = d / 2 ^ 52 % 2048 == 2047 && not (d % 2 ^ 52 == 0)

unfoldable pub is_double : ℕ → Bool
is_double b = not (b / 2 ^ 50 % 2 ^ 13 == 2 ^ 13 - 1)

unfoldable pub is_pointer : ℕ → Bool
is_pointer b = b / 2 ^ 50 == 2 ^ 14 - 1

unfoldable pub is_inline : ℕ → Bool
is_inline b = b / 2 ^ 50 == 2 ^ 13 - 1

unfoldable pub is_null_pointer : ℕ → Bool
is_null_pointer b = b == pointer_type

unfoldable pub tags : ℕ → ℕ
tags b = b / 2 ^ 48 % 4

-- `pointerValue()`, and `asPointer()`, where the null pointer is 0.
unfoldable pub pointer_value : ℕ → ℕ
pointer_value b = b % 2 ^ 48

unfoldable pub as_pointer : ℕ → ℕ
unfolding is_pointer pointer_value
as_pointer b = if is_pointer b then pointer_value b else 0

-- `p | kPointerType`: the low 50 bits of the pointer below the type bits.
unfoldable pub set_pointer : ℕ → ℕ
set_pointer p = pointer_type + p % 2 ^ 50

-- A NaN becomes the null pointer.
unfoldable pub set_double : ℕ → ℕ
unfolding is_nan set_pointer
set_double d = if is_nan d then set_pointer 0 else d

unfoldable pub set_tags : ℕ → ℕ → ℕ
set_tags t b = b - b / 2 ^ 48 % 4 * 2 ^ 48 + t % 4 * 2 ^ 48

-- `Value::type()`: the two tags follow AString in the enum, and 3 is not a tag in use.
unfoldable pub tagged_type : ℕ → Option ValueType
tagged_type t =
    if t == 0
    then some a_string
    else if t == 1
    then some an_array
    else if t == 2
    then some a_quote
    else none

unfoldable pub bits_type : ℕ → Option ValueType
unfolding is_double is_null_pointer tags tagged_type
bits_type b =
    if is_double b
    then some a_number
    else if is_null_pointer b
    then some a_null
    else tagged_type (tags b)

-- `Value(double)`, `Value(vector)` and `Value(CompiledWord*)`, for the address of the new object.
unfoldable pub number_bits : ℕ → ℕ
unfolding set_double
number_bits d = set_double d

unfoldable pub array_bits : ℕ → ℕ
unfolding set_tags set_pointer
array_bits p = set_tags 1 (set_pointer p)

unfoldable pub quote_bits : ℕ → ℕ
unfolding set_tags set_pointer
quote_bits p = set_tags 2 (set_pointer p)

unfoldable pub string_bits : ℕ → ℕ
unfolding set_pointer
string_bits p = set_pointer p

-- The low bytes of a word, as `_bytes` holds them.
unfoldable pub pack : List ℕ → ℕ
pack [] = 0
pack (c ∷ cs) = c + 256 * pack cs

-- `setInline()`, then the copy of at most `kInlineCapacity` bytes.
unfoldable pub inline_bits : List ℕ → ℕ
unfolding pack
inline_bits cs = inline_type + pack cs

-- `asString()` of an inline value: up to the first zero byte, at most n bytes.
unfoldable pub unpack : ℕ → ℕ → List ℕ
unpack zero b = []
unpack (suc n) b = let rest = unpack n (b / 256) in if b % 256 == 0 then [] else b % 256 ∷ rest

unfoldable pub inline_string : ℕ → List ℕ
unfolding unpack
inline_string b = unpack 6 b

-- `asDoubleOrZero()`, where 0.0 is the bits 0.
unfoldable pub as_double_or_zero : ℕ → ℕ
unfolding is_double
as_double_or_zero b = if is_double b then b else 0

-- `tag1()` and `tag2()`, bits 48 and 49, and their setters.
unfoldable pub tag1 : ℕ → Bool
tag1 b = not (b / 2 ^ 48 % 2 == 0)

unfoldable pub tag2 : ℕ → Bool
tag2 b = not (b / 2 ^ 49 % 2 == 0)

unfoldable pub set_tag1 : Bool → ℕ → ℕ
set_tag1 true b = b - b / 2 ^ 48 % 2 * 2 ^ 48 + 2 ^ 48
set_tag1 false b = b - b / 2 ^ 48 % 2 * 2 ^ 48

unfoldable pub set_tag2 : Bool → ℕ → ℕ
set_tag2 true b = b - b / 2 ^ 49 % 2 * 2 ^ 49 + 2 ^ 49
set_tag2 false b = b - b / 2 ^ 49 % 2 * 2 ^ 49

-- `isString()`, `isArray()` and `isQuote()`; a pointer is true unless it is null.
unfoldable pub is_string : ℕ → Bool
unfolding as_pointer is_inline tags
is_string b = (not (as_pointer b == 0) || is_inline b) && tags b == 0

unfoldable pub is_array : ℕ → Bool
unfolding as_pointer tags
is_array b = not (as_pointer b == 0) && tags b == 1

unfoldable pub is_quote : ℕ → Bool
unfolding as_pointer tags
is_quote b = not (as_pointer b == 0) && tags b == 2

-- `Value(const char*, size_t)`, with the address of a new heap string for a long one; `none` is the
-- null pointer, with the length 0.
unfoldable pub text_bits : Option (List ℕ) → ℕ → ℕ
unfolding set_pointer inline_bits string_bits
text_bits none p = set_pointer 0
text_bits (some cs) p = if leb (length cs) 6 then inline_bits cs else string_bits p

-- The text that `asString()` views: inline, that of the object at an address, or none.
pub data TextView : Type 0 where
  no_text : TextView
  inline_text : List ℕ → TextView
  heap_text : ℕ → TextView

unfoldable pub as_string : ℕ → TextView
unfolding tags is_double is_inline is_null_pointer as_pointer
as_string b =
    if tags b == 0 && not (is_double b)
    then if is_inline b
      then inline_text (inline_string b)
      else if is_null_pointer b
      then no_text
      else heap_text (as_pointer b)
    else no_text

-- `asArray()` and `asQuote()`: the address of the object whose contents they return, or `none` for
-- the null pointer that they return otherwise. They look at the tags alone.
unfoldable pub as_array : ℕ → Option ℕ
unfolding tags as_pointer
as_array b = if tags b == 1 then some (as_pointer b) else none

unfoldable pub as_quote : ℕ → Option ℕ
unfolding tags as_pointer
as_quote b = if tags b == 2 then some (as_pointer b) else none

-- What `Value::mark()` does: nothing, or a call of `mark` on the object at the address, by the
-- object's class. At the address 0 that is an access through the null pointer.
pub data MarkTarget : Type 0 where
  mark_nothing : MarkTarget
  mark_string mark_array mark_quote : ℕ → MarkTarget

-- The `switch` on the tags: only the case of a string tests what the value is.
unfoldable pub mark_tagged : ℕ → Bool → ℕ → MarkTarget
mark_tagged t no_heap_string p =
    if t == 0
    then if no_heap_string then mark_nothing else mark_string p
    else if t == 1
    then mark_array p
    else if t == 2
    then mark_quote p
    else mark_nothing

unfoldable pub mark_target : ℕ → MarkTarget
unfolding is_double is_inline tags as_pointer mark_tagged
mark_target b = mark_tagged (tags b) (is_double b || is_inline b) (as_pointer b)
