-- ===== src/Value.antt =====
-- The class `Value` of src/values/value.hh and value.cc. A number is the bit pattern of its double
-- (see NanTagged), a string the list of its bytes, and a quotation the identity of its word. The
-- arithmetic of the processor on doubles is a parameter, in Value/Arithmetic.
pub mod Laws
mod Tests
pub mod Arithmetic
use mathlib.Core.Bool.{◌&&◌}
use tails.Prelude.{ℕ, ◌≡◌, Bool, true, false, List, [], ◌∷◌, ◌==◌, if◌then◌else◌}
use tails.TypeSet.{ValueType, a_null, a_number, a_string, an_array, a_quote}

mutual
  pub data Value : Type 0 where
    null : Value
    number : ℕ → Value
    string : List ℕ → Value
    array : Values → Value
    quote : ℕ → Value

  pub data Values : Type 0 where
    nil : Values
    cons : Value → Values → Values

-- `type()`
unfoldable pub type_of : Value → ValueType
type_of null = a_null
type_of (number d) = a_number
type_of (string s) = a_string
type_of (array a) = an_array
type_of (quote q) = a_quote

-- Equality of two strings, byte by byte.
unfoldable pub same_bytes : List ℕ → List ℕ → Bool
same_bytes [] [] = true
same_bytes [] (_ ∷ _) = false
same_bytes (_ ∷ _) [] = false
same_bytes (a ∷ rest) (b ∷ others) = (a == b) && same_bytes rest others

-- `operator==`. Two numbers are equal when their 64 bits are, and so are two quotations.
unfoldable mutual
  pub same_value : Value → Value → Bool
  same_value null null = true
  same_value (number d) (number e) = d == e
  same_value (string s) (string t) = same_bytes s t
  same_value (array a) (array b) = same_values a b
  same_value (quote q) (quote r) = q == r
  same_value _ _ = false

  pub same_values : Values → Values → Bool
  same_values nil nil = true
  same_values (cons v vs) (cons w ws) = same_value v w && same_values vs ws
  same_values _ _ = false
