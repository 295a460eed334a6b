-- ===== src/TypeSet.antt =====
-- The class `TypeSet` of src/core/stack_effect.hh and the enum `Value::Type` of
-- src/values/value.hh. The flags are the source's byte: bit t says that type t is allowed, and the
-- three high bits hold an input's number plus one. A mask test or a shift is written as division
-- and remainder by a power of two, and `a & ~b` as `bit_diff a b`.
pub mod Laws
mod Tests
use tails.Prelude.{
  ℕ, ◌+◌, ◌-◌, ◌*◌, ◌/◌, ◌%◌, ◌≡◌, refl, Bool, true, false, not, List, [], ◌∷◌, Option, none, some,
  ◌==◌, if◌then◌else◌,
}
use mathlib.Core.List.{foldl}
use tails.Prelude.Bits.{bit, bit_and, bit_or, bit_diff}

pub data ValueType : Type 0 where
  a_null a_number a_string an_array a_quote : ValueType

-- `int(type)`
abbrev pub type_index : ValueType → ℕ
type_index a_null = 0
type_index a_number = 1
type_index a_string = 2
type_index an_array = 3
type_index a_quote = 4

-- The types in the order of the enum.
abbrev pub all_types : List ValueType
all_types = a_null ∷ a_number ∷ a_string ∷ an_array ∷ a_quote ∷ []

pub record TypeSet : Type 0 where
  pub flags : ℕ

abbrev pub num_types : ℕ
num_types = 5

-- `kTypeFlags`
abbrev pub all_flags : ℕ
all_flags = 31

abbrev pub no_type : TypeSet
no_type = record { flags = 0 }

abbrev pub any_type : TypeSet
any_type = record { flags = all_flags }

unfoldable pub type_flags : TypeSet → ℕ
type_flags s = s.flags % 32

unfoldable pub exists : TypeSet → Bool
exists s = not (s.flags == 0)

unfoldable pub can_be_any_type : TypeSet → Bool
unfolding type_flags
can_be_any_type s = type_flags s == all_flags

unfoldable pub can_be_type : TypeSet → ValueType → Bool
can_be_type s t = bit (type_index t) s.flags == 1

-- The loop of `firstType`, over the types that are left.
unfoldable pub first_type_among : List ValueType → TypeSet → Option ValueType
first_type_among [] s = none
first_type_among (t ∷ ts) s = if can_be_type s t then some t else first_type_among ts s

unfoldable pub first_type : TypeSet → Option ValueType
unfolding first_type_among
first_type s = first_type_among all_types s

-- `1 << int(type)`
abbrev pub type_bit : ValueType → ℕ
type_bit a_null = 1
type_bit a_number = 2
type_bit a_string = 4
type_bit an_array = 8
type_bit a_quote = 16

unfoldable pub add_type : TypeSet → ValueType → TypeSet
add_type s t = record { flags = bit_or s.flags (type_bit t) }

unfoldable pub add_all_types : TypeSet → TypeSet
add_all_types s = any_type

-- The constructor from one type.
unfoldable pub of_type : ValueType → TypeSet
unfolding add_type
of_type t = add_type no_type t

-- The constructor from a list of types.
unfoldable pub of_types : List ValueType → TypeSet
unfolding add_type
of_types ts = foldl add_type no_type ts

unfoldable pub is_input_match : TypeSet → Bool
is_input_match s = not (s.flags / 32 == 0)

-- The source's -1 is `none`.
unfoldable pub input_match : TypeSet → Option ℕ
input_match s = if s.flags / 32 == 0 then none else some (s.flags / 32 - 1)

-- `entry.setInputMatch(inputEntry, inputNo)`: all flags of `entry` are overwritten.
unfoldable pub set_input_match : TypeSet → TypeSet → ℕ → TypeSet
unfolding type_flags
set_input_match entry input_entry input_no = record {
  flags = (input_no + 1) * 32 + type_flags input_entry;
}

-- `operator/`
unfoldable pub matching_input : TypeSet → ℕ → TypeSet
unfolding type_flags
matching_input s input_no = record { flags = (input_no + 1) * 32 + type_flags s }

-- The results 0, 1 and -1 of `compare`.
pub data Comparison : Type 0 where
  same greater less : Comparison

unfoldable pub compare_sets : TypeSet → TypeSet → Comparison
unfolding type_flags
compare_sets s other =
    if type_flags s == type_flags other
    then same
    else if bit_diff (type_flags s) other.flags % 32 == 0
    then less
    else greater

-- `operator==`, by `compare`.
unfoldable pub same_types : TypeSet → TypeSet → Bool
unfolding compare_sets
same_types s other = elim (compare_sets s other) [ same ↦ true | greater ↦ false | less ↦ false ]

infixl 60 ◌∪◌ ◌∩◌ ◌∖◌
-- `operator|`
unfoldable pub ◌∪◌ : TypeSet → TypeSet → TypeSet
s ∪ other = record { flags = bit_or s.flags other.flags }

-- `operator&`
unfoldable pub ◌∩◌ : TypeSet → TypeSet → TypeSet
s ∩ other = record { flags = bit_and s.flags other.flags }

-- `operator-`
unfoldable pub ◌∖◌ : TypeSet → TypeSet → TypeSet
s ∖ other = record { flags = bit_diff s.flags other.flags }
