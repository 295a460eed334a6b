-- ===== src/TypeSet/Tests.antt =====
-- Runs of `TypeSet` on small sets.
use tails.Prelude.{◌≡◌, true, false, ◌||◌, ◌&&◌, not, some, none}
use tails.TypeSet.{
  a_string, TypeSet, can_be_type, compare_sets, first_type, greater, ◌∪◌, ◌∩◌, ◌∖◌, type_flags,
}
use tails.TypeSet.Laws.{Means, compare_sets-Means, can_be_type-sets}

abbrev number_or_string : TypeSet
number_or_string = record { flags = 6 }

abbrev just_number : TypeSet
just_number = record { flags = 2 }

compare_sets-Means_example : Means greater number_or_string just_number
unfolding compare_sets type_flags
compare_sets-Means_example = compare_sets-Means number_or_string just_number

can_be_type-sets_example :
    (can_be_type (number_or_string ∪ just_number) a_string ≡ (true || false))
    × (can_be_type (number_or_string ∩ just_number) a_string ≡ (true && false))
    × (can_be_type (number_or_string ∖ just_number) a_string ≡ (true && not false))
    × (first_type number_or_string ≡ some a_string → can_be_type number_or_string a_string ≡ true)
    × (first_type number_or_string ≡ none → can_be_type number_or_string a_string ≡ false)
unfolding can_be_type
can_be_type-sets_example = can_be_type-sets number_or_string just_number a_string
