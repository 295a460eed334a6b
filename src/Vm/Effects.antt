-- ===== src/Vm/Effects.antt =====
-- The native words against the stack effects that they declare.
use tails.Prelude.{◌≡◌, refl, Bool, true, false, not, List, [], ◌∷◌, some}
use tails.TypeSet.{can_be_type, a_number, matching_input, type_flags, input_match, of_type}
use tails.StackEffect.{inputs, outputs}
use tails.Value.{Value, null, number, type_of, same_value}
use tails.Value.Arithmetic.{Fpu, one_bits, compare_values}
use tails.EffectStack.Laws.{Accepts, Honours, honours}
use tails.Word.{Native, core_effect}
use tails.Vm.{
  apply_native, apply_unary, apply_binary, unary_op, binary_op, number_of, is_greater, is_less,
}

-- The words that move values, push constants and compare.
abbrev pub IsExact : Native → Type 0
IsExact Native.nop = Unit
IsExact Native.dup = Unit
IsExact Native.drop = Unit
IsExact Native.swap = Unit
IsExact Native.over = Unit
IsExact Native.rot = Unit
IsExact Native.push_zero = Unit
IsExact Native.push_one = Unit
IsExact Native.push_null = Unit
IsExact Native.eq = Unit
IsExact Native.ne = Unit
IsExact Native.gt = Unit
IsExact Native.ge = Unit
IsExact Native.lt = Unit
IsExact Native.le = Unit
IsExact Native.eq_zero = Unit
IsExact Native.ne_zero = Unit
IsExact Native.gt_zero = Unit
IsExact Native.lt_zero = Unit
IsExact _ = ⊥

number_of-type : (b : Bool) → type_of (number_of b) ≡ a_number
unfolding type_of
number_of-type true = refl
number_of-type false = refl

-- A truth value in the place of two values, and of one.
relation-Honours :
    (b : Bool) (w v : Value) (s : List Value)
    → Honours (core_effect Native.eq) (w ∷ v ∷ s) (number_of b ∷ s)
unfolding core_effect outputs can_be_type input_match of_type
relation-Honours b w v s = honours (number_of b ∷ []) (rw (number_of-type b) (refl, tt)) refl

test-Honours :
    (b : Bool) (v : Value) (s : List Value)
    → Honours (core_effect Native.eq_zero) (v ∷ s) (number_of b ∷ s)
unfolding core_effect outputs can_be_type input_match of_type
test-Honours b v s = honours (number_of b ∷ []) (rw (number_of-type b) (refl, tt)) refl

abbrev Runs : Fpu → Native → List Value → Type 0
Runs fpu n vs =
    (vs' : List Value) × (apply_native fpu n vs ≡ some vs') × Honours (core_effect n) vs vs'

module _ (fpu : Fpu) where
  relation_Runs :
      (n : Native) (b : Bool) (w v : Value) (s : List Value)
      → core_effect n ≡ core_effect Native.eq
      → apply_native fpu n (w ∷ v ∷ s) ≡ some (number_of b ∷ s)
      → Runs fpu n (w ∷ v ∷ s)
  relation_Runs n b w v s e h = (number_of b ∷ s, h, rw e (relation-Honours b w v s))

  test_Runs :
      (n : Native) (b : Bool) (v : Value) (s : List Value)
      → core_effect n ≡ core_effect Native.eq_zero
      → apply_native fpu n (v ∷ s) ≡ some (number_of b ∷ s)
      → Runs fpu n (v ∷ s)
  test_Runs n b v s e h = (number_of b ∷ s, h, rw e (test-Honours b v s))

-- With the inputs that it declares on the stack, each of these words runs, takes exactly them,
-- leaves the outputs that it declares, with the types that it declares, and touches nothing below.
pub apply_native-Honours :
    (fpu : Fpu) (n : Native) (vs : List Value)
    → IsExact n
    → Accepts vs (inputs (core_effect n))
    → (vs' : List Value) × (apply_native fpu n vs ≡ some vs') × Honours (core_effect n) vs vs'
unfolding apply_native apply_binary apply_unary binary_op unary_op core_effect inputs outputs
    can_be_type input_match matching_input type_flags of_type type_of
apply_native-Honours fpu Native.nop vs x a = (vs, refl, honours ([]) tt refl)
apply_native-Honours fpu Native.dup (v ∷ s) x a =
    (v ∷ v ∷ s, refl, honours (v ∷ v ∷ []) (refl, (refl, tt)) refl)
apply_native-Honours fpu Native.drop (v ∷ s) x a = (s, refl, honours ([]) tt refl)
apply_native-Honours fpu Native.swap (w ∷ v ∷ s) x a =
    (v ∷ w ∷ s, refl, honours (v ∷ w ∷ []) (refl, (refl, tt)) refl)
apply_native-Honours fpu Native.over (w ∷ v ∷ s) x a =
    (v ∷ w ∷ v ∷ s, refl, honours (v ∷ w ∷ v ∷ []) (refl, (refl, (refl, tt))) refl)
apply_native-Honours fpu Native.rot (w ∷ v ∷ u ∷ s) x a =
    (u ∷ w ∷ v ∷ s, refl, honours (u ∷ w ∷ v ∷ []) (refl, (refl, (refl, tt))) refl)
apply_native-Honours fpu Native.push_zero vs x a =
    (number 0 ∷ vs, refl, honours (number 0 ∷ []) (refl, tt) refl)
apply_native-Honours fpu Native.push_one vs x a =
    (number one_bits ∷ vs, refl, honours (number one_bits ∷ []) (refl, tt) refl)
apply_native-Honours fpu Native.push_null vs x a =
    (null ∷ vs, refl, honours (null ∷ []) (refl, tt) refl)
apply_native-Honours fpu Native.eq (w ∷ v ∷ s) x a =
    relation_Runs fpu Native.eq (same_value v w) w v s refl refl
apply_native-Honours fpu Native.ne (w ∷ v ∷ s) x a =
    relation_Runs fpu Native.ne (not (same_value v w)) w v s refl refl
apply_native-Honours fpu Native.gt (w ∷ v ∷ s) x a =
    relation_Runs fpu Native.gt (is_greater (compare_values fpu v w)) w v s refl refl
apply_native-Honours fpu Native.ge (w ∷ v ∷ s) x a =
    relation_Runs fpu Native.ge (not (is_less (compare_values fpu v w))) w v s refl refl
apply_native-Honours fpu Native.lt (w ∷ v ∷ s) x a =
    relation_Runs fpu Native.lt (is_less (compare_values fpu v w)) w v s refl refl
apply_native-Honours fpu Native.le (w ∷ v ∷ s) x a =
    relation_Runs fpu Native.le (not (is_greater (compare_values fpu v w))) w v s refl refl
apply_native-Honours fpu Native.eq_zero (v ∷ s) x a =
    test_Runs fpu Native.eq_zero (same_value v (number 0)) v s refl refl
apply_native-Honours fpu Native.ne_zero (v ∷ s) x a =
    test_Runs fpu Native.ne_zero (not (same_value v (number 0))) v s refl refl
apply_native-Honours fpu Native.gt_zero (v ∷ s) x a =
    test_Runs fpu Native.gt_zero (is_greater (compare_values fpu v (number 0))) v s refl refl
apply_native-Honours fpu Native.lt_zero (v ∷ s) x a =
    test_Runs fpu Native.lt_zero (is_less (compare_values fpu v (number 0))) v s refl refl
apply_native-Honours fpu Native.dup [] x a = absurd a
apply_native-Honours fpu Native.drop [] x a = absurd a
apply_native-Honours fpu Native.swap [] x a = absurd a
apply_native-Honours fpu Native.swap (w ∷ []) x (a, b) = absurd b
apply_native-Honours fpu Native.over [] x a = absurd a
apply_native-Honours fpu Native.over (w ∷ []) x (a, b) = absurd b
apply_native-Honours fpu Native.rot [] x a = absurd a
apply_native-Honours fpu Native.rot (w ∷ []) x (a, b) = absurd b
apply_native-Honours fpu Native.rot (w ∷ v ∷ []) x (a, (b, c)) = absurd c
apply_native-Honours fpu Native.eq [] x a = absurd a
apply_native-Honours fpu Native.eq (w ∷ []) x (a, b) = absurd b
apply_native-Honours fpu Native.ne [] x a = absurd a
apply_native-Honours fpu Native.ne (w ∷ []) x (a, b) = absurd b
apply_native-Honours fpu Native.gt [] x a = absurd a
apply_native-Honours fpu Native.gt (w ∷ []) x (a, b) = absurd b
apply_native-Honours fpu Native.ge [] x a = absurd a
apply_native-Honours fpu Native.ge (w ∷ []) x (a, b) = absurd b
apply_native-Honours fpu Native.lt [] x a = absurd a
apply_native-Honours fpu Native.lt (w ∷ []) x (a, b) = absurd b
apply_native-Honours fpu Native.le [] x a = absurd a
apply_native-Honours fpu Native.le (w ∷ []) x (a, b) = absurd b
apply_native-Honours fpu Native.eq_zero [] x a = absurd a
apply_native-Honours fpu Native.ne_zero [] x a = absurd a
apply_native-Honours fpu Native.gt_zero [] x a = absurd a
apply_native-Honours fpu Native.lt_zero [] x a = absurd a
apply_native-Honours fpu _ vs x a = absurd x
