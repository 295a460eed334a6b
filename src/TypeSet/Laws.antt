-- ===== src/TypeSet/Laws.antt =====
-- `TypeSet` read as a set of types: what each operation does to membership.
use tails.Prelude.{
  ◌<◌, ◌≡◌, refl, inl, inr, Bool, true, false, not, ◌&&◌, ◌||◌, none, some, arith, ◌==◌,
  if◌then◌else◌, ==_iff, Option-cases, ap, sym, ◌∙◌, ◌≢◌,
}
use tails.Prelude.Bits.{bit, bit-lt, bit_diff, bit-bit_or, bit-bit_and, bit-bit_diff}
use tails.TypeSet.{
  ValueType, a_null, a_number, a_string, an_array, a_quote, type_index, TypeSet, no_type, any_type,
  type_flags, can_be_type, first_type, of_type, Comparison, compare_sets, same, less, greater,
  same_types, ◌∪◌, ◌∩◌, ◌∖◌,
}

type_index-lt : (t : ValueType) → type_index t < 8
type_index-lt a_null = omega arith
type_index-lt a_number = omega arith
type_index-lt _ = omega arith

pub can_be_type-∪ :
    (s u : TypeSet) (t : ValueType) → can_be_type (s ∪ u) t ≡ (can_be_type s t || can_be_type u t)
unfolding can_be_type ◌∪◌
can_be_type-∪ s u t = ground (
  arith,
  bit-bit_or (type_index t) s.flags u.flags (type_index-lt t),
  bit-lt (type_index t) s.flags,
  bit-lt (type_index t) u.flags,
)

can_be_type-∩ :
    (s u : TypeSet) (t : ValueType) → can_be_type (s ∩ u) t ≡ (can_be_type s t && can_be_type u t)
unfolding can_be_type ◌∩◌
can_be_type-∩ s u t = ground (
  arith,
  bit-bit_and (type_index t) s.flags u.flags (type_index-lt t),
  bit-lt (type_index t) s.flags,
  bit-lt (type_index t) u.flags,
)

pub can_be_type-∖ :
    (s u : TypeSet) (t : ValueType)
    → can_be_type (s ∖ u) t ≡ (can_be_type s t && not (can_be_type u t))
unfolding can_be_type ◌∖◌
can_be_type-∖ s u t = ground (
  arith,
  bit-bit_diff (type_index t) s.flags u.flags (type_index-lt t),
  bit-lt (type_index t) s.flags,
  bit-lt (type_index t) u.flags,
)

pub first_type-none :
    (s : TypeSet) → first_type s ≡ none → (t : ValueType) → can_be_type s t ≡ false
unfolding first_type
first_type-none s h a_null = ground arith
first_type-none s h a_number = ground arith
first_type-none s h a_string = ground arith
first_type-none s h an_array = ground arith
first_type-none s h a_quote = ground arith

pub first_type-some : (s : TypeSet) (t : ValueType) → first_type s ≡ some t → can_be_type s t ≡ true
unfolding first_type
first_type-some s t h = ground arith

pub can_be_type-of_type : (t : ValueType) → can_be_type (of_type t) t ≡ true
unfolding can_be_type of_type
can_be_type-of_type a_null = refl
can_be_type-of_type a_number = refl
can_be_type-of_type _ = refl

of_type_unique : (t u : ValueType) → can_be_type (of_type t) u ≡ true → t ≡ u
unfolding can_be_type of_type
of_type_unique a_null u h = ground arith
of_type_unique a_number u h = ground arith
of_type_unique _ u h = ground arith

can_be_type-any_type : (t : ValueType) → can_be_type any_type t ≡ true
unfolding can_be_type
can_be_type-any_type a_null = refl
can_be_type-any_type a_number = refl
can_be_type-any_type _ = refl

can_be_type-type_flags :
    (s u : TypeSet)
    → type_flags s ≡ type_flags u
    → (t : ValueType) → can_be_type s t ≡ can_be_type u t
unfolding can_be_type type_flags
can_be_type-type_flags s u h a_null = ground arith
can_be_type-type_flags s u h a_number = ground arith
can_be_type-type_flags s u h _ = ground arith

pub same_types-can_be_type :
    (s u : TypeSet) → same_types s u ≡ true → (t : ValueType) → can_be_type s t ≡ can_be_type u t
unfolding same_types
same_types-can_be_type s u h t = can_be_type-type_flags s u (ground arith) t

-- What a result of `compare` means for the types that the two sets hold.
abbrev pub Means : Comparison → TypeSet → TypeSet → Type 0
Means same s u = (t : ValueType) → can_be_type s t ≡ can_be_type u t
Means greater s u = (t : ValueType) × (can_be_type s t ≡ true) × (can_be_type u t ≡ false)
Means less s u =
    ((t : ValueType) → can_be_type s t ≡ true → can_be_type u t ≡ true)
    × ((t : ValueType) × (can_be_type u t ≡ true) × (can_be_type s t ≡ false))

bit-same :
    (s u : TypeSet) (t : ValueType)
    → can_be_type s t ≡ can_be_type u t
    → bit (type_index t) s.flags ≡ bit (type_index t) u.flags
unfolding can_be_type
bit-same s u t h = ground (arith, bit-lt (type_index t) s.flags, bit-lt (type_index t) u.flags)

-- Two sets with the same members have the same type bits.
type_flags-eq : (s u : TypeSet) → Means same s u → type_flags s ≡ type_flags u
unfolding type_flags
type_flags-eq s u h = omega (
  arith,
  bit-same s u a_null (h a_null),
  bit-same s u a_number (h a_number),
  bit-same s u a_string (h a_string),
  bit-same s u an_array (h an_array),
  bit-same s u a_quote (h a_quote),
)

can_be_type-own_flags :
    (s : TypeSet) (t : ValueType)
    → can_be_type (record { flags = type_flags s }) t ≡ can_be_type s t
can_be_type-own_flags s t =
    can_be_type-type_flags (record { flags = type_flags s }) s (unfold type_flags in omega arith) t

-- The set whose emptiness `compare` tests.
abbrev own_minus : TypeSet → TypeSet → TypeSet
own_minus s u = record { flags = bit_diff (type_flags s) u.flags }

can_be_type-own_minus :
    (s u : TypeSet) (t : ValueType)
    → can_be_type (own_minus s u) t ≡ (can_be_type s t && not (can_be_type u t))
can_be_type-own_minus s u t =
    unfold ◌∖◌ in
    can_be_type-∖ (record { flags = type_flags s }) u t
    ∙ ap (λ b. b && not (can_be_type u t)) (can_be_type-own_flags s t)

can_be_type-no_type : (t : ValueType) → can_be_type no_type t ≡ false
unfolding can_be_type
can_be_type-no_type a_null = refl
can_be_type-no_type _ = refl

-- A set of which some type is left after `u` is taken away has a type that `u` lacks.
witness :
    (s u : TypeSet)
    → type_flags (own_minus s u) ≢ 0
    → (t : ValueType) × (can_be_type s t ≡ true) × (can_be_type u t ≡ false)
unfolding type_flags
witness s u h = elim (Option-cases (first_type (own_minus s u))) [
  | inl e ↦ absurd (
      h (
        type_flags-eq (own_minus s u) no_type
          (λ t. first_type-none _ e t ∙ sym (can_be_type-no_type t))))
  | inr (t, e) ↦
      let m = first_type-some (own_minus s u) t e in
      let d = can_be_type-own_minus s u t in (t, ground arith, ground arith)
]

own_minus-empty :
    (s u : TypeSet)
    → type_flags (own_minus s u) ≡ 0
    → (t : ValueType) → can_be_type s t ≡ true
    → can_be_type u t ≡ true
unfolding type_flags
own_minus-empty s u e t h =
    let d = can_be_type-own_minus s u t in
    let z = can_be_type-type_flags (own_minus s u) no_type e t ∙ can_be_type-no_type t in
    ground arith

both_ways : (a b : Bool) → (a ≡ true → b ≡ true) → (b ≡ true → a ≡ true) → a ≡ b
both_ways true b p q = sym (p refl)
both_ways false true p q = q refl
both_ways false false p q = refl

compare_cases :
    (s u : TypeSet) (same_flags left : Bool)
    → (type_flags s == type_flags u) ≡ same_flags
    → (type_flags (own_minus s u) == 0) ≡ left
    → Means (if same_flags then same else if left then less else greater) s u
compare_cases s u true left e f = can_be_type-type_flags s u ((==_iff _ _).0 e)
compare_cases s u false true e f =
    let inside = own_minus-empty s u ((==_iff _ _).0 f) in
    (inside, witness u s (λ g. absurd_flags inside (own_minus-empty u s g)))
  where
    absurd_flags :
        ((t : ValueType) → can_be_type s t ≡ true → can_be_type u t ≡ true)
        → ((t : ValueType) → can_be_type u t ≡ true → can_be_type s t ≡ true)
        → ⊥
    absurd_flags p q =
        let k =
          type_flags-eq s u (λ t. both_ways (can_be_type s t) (can_be_type u t) (p t) (q t)) in
        ground arith
compare_cases s u false false e f = witness s u (ground arith)

-- `compare` says `same` of two sets that hold the same types, `greater` where the first holds a type
-- that the second does not, and `less` where the first holds no such type and the second does.
pub compare_sets-Means : (s u : TypeSet) → Means (compare_sets s u) s u
unfolding compare_sets
compare_sets-Means s u = compare_cases s u _ _ refl refl

-- The union, the intersection and the difference of two sets hold the types that they should, and
-- `firstType` gives a type of the set, or nothing where the set holds none.
pub can_be_type-sets :
    (s u : TypeSet) (t : ValueType)
    → (can_be_type (s ∪ u) t ≡ (can_be_type s t || can_be_type u t))
      × (can_be_type (s ∩ u) t ≡ (can_be_type s t && can_be_type u t))
      × (can_be_type (s ∖ u) t ≡ (can_be_type s t && not (can_be_type u t)))
      × (first_type s ≡ some t → can_be_type s t ≡ true)
      × (first_type s ≡ none → can_be_type s t ≡ false)
can_be_type-sets s u t = (
  can_be_type-∪ s u t,
  can_be_type-∩ s u t,
  can_be_type-∖ s u t,
  first_type-some s t,
  λ e. first_type-none s e t,
)
