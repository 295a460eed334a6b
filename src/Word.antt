-- ===== src/Word.antt =====
-- The words of src/core/core_words.cc (with DEFINE of src/compiler/compiler.cc), and the class
-- `Word` of src/core/word.hh: the stack effect that each native word declares, its flags and its
-- number of parameters. The C++ address of a word is a constructor, or a number for a word that is
-- compiled at run time.
use tails.Prelude.{ℕ, [], ◌∷◌, max}
use tails.TypeSet.{
  TypeSet, any_type, of_type, a_null, a_number, a_string, an_array, a_quote, matching_input, ◌∪◌,
}
use tails.Result.{Result, ok, err}
use tails.StackEffect.{StackEffect, empty_effect, weird_effect, make}

pub data Native : Type 0 where
  interp interp2 interp3 interp4 tailinterp tailinterp2 tailinterp3 tailinterp4 : Native
  ret lit nop branch zbranch recurse call_quote if_else define : Native
  dup drop swap over rot : Native
  push_zero push_one push_null : Native
  plus minus mult div mod_word : Native
  eq ne gt ge lt le eq_zero ne_zero gt_zero lt_zero : Native
  length_word : Native

pub data Word : Type 0 where
  native : Native → Word
  interpreted : ℕ → Word

abbrev num : TypeSet
unfolding of_type
num = of_type a_number

abbrev any : TypeSet
any = any_type

abbrev str_or_arr : TypeSet
str_or_arr = of_type a_string ∪ of_type an_array

abbrev num_str_arr : TypeSet
num_str_arr = of_type a_number ∪ of_type a_string ∪ of_type an_array

-- `T/n`: an output of the type of input n, counted from the top.
abbrev any_of : ℕ → TypeSet
any_of n = matching_input any_type n

-- A declaration that the constructor refuses does not compile.
abbrev declared : Result StackEffect → StackEffect
declared (ok e) = e
declared (err _) = empty_effect

-- `kBinEffect`, `kRelEffect`, `k0RelEffect`
abbrev bin_effect : StackEffect
bin_effect = declared (make (num ∷ num ∷ []) (num ∷ []))

abbrev rel_effect : StackEffect
rel_effect = declared (make (any ∷ any ∷ []) (num ∷ []))

abbrev zero_rel_effect : StackEffect
zero_rel_effect = declared (make (any ∷ []) (num ∷ []))

-- The effect that each native word declares; the inputs and outputs stand bottom to top.
unfoldable pub core_effect : Native → StackEffect
unfolding make matching_input ◌∪◌ of_type
core_effect ret = empty_effect
core_effect lit = declared (make [] (any ∷ []))
core_effect nop = empty_effect
core_effect branch = empty_effect
core_effect zbranch = declared (make (any ∷ []) [])
core_effect dup = declared (make (any ∷ []) (any_of 0 ∷ any_of 0 ∷ []))
core_effect drop = declared (make (any ∷ []) [])
core_effect swap = declared (make (any ∷ any ∷ []) (any_of 0 ∷ any_of 1 ∷ []))
core_effect over = declared (make (any ∷ any ∷ []) (any_of 1 ∷ any_of 0 ∷ any_of 1 ∷ []))
core_effect rot = declared (make (any ∷ any ∷ any ∷ []) (any_of 1 ∷ any_of 0 ∷ any_of 2 ∷ []))
core_effect push_zero = declared (make [] (num ∷ []))
core_effect push_one = declared (make [] (num ∷ []))
core_effect push_null = declared (make [] (of_type a_null ∷ []))
core_effect plus =
    declared (make (num_str_arr ∷ num_str_arr ∷ []) (matching_input num_str_arr 0 ∷ []))
core_effect minus = bin_effect
core_effect mult = bin_effect
core_effect div = bin_effect
core_effect mod_word = bin_effect
core_effect eq = rel_effect
core_effect ne = rel_effect
core_effect gt = rel_effect
core_effect ge = rel_effect
core_effect lt = rel_effect
core_effect le = rel_effect
core_effect eq_zero = zero_rel_effect
core_effect ne_zero = zero_rel_effect
core_effect gt_zero = zero_rel_effect
core_effect lt_zero = zero_rel_effect
core_effect length_word = declared (make (str_or_arr ∷ []) (num ∷ []))
core_effect define = declared (make (of_type a_quote ∷ of_type a_string ∷ []) [])
core_effect _ = weird_effect

-- `stackEffect()`, where `effects` holds the effect of each compiled word.
unfoldable pub stack_effect : (ℕ → StackEffect) → Word → StackEffect
stack_effect effects (native n) = core_effect n
stack_effect effects (interpreted k) = effects k

-- The kind of parameter that follows a word in compiled code, by its `Has…Param` flag.
pub data ParamKind : Type 0 where
  no_param int_param val_param word_param : ParamKind

unfoldable pub param_kind : Native → ParamKind
param_kind interp = word_param
param_kind interp2 = word_param
param_kind interp3 = word_param
param_kind interp4 = word_param
param_kind tailinterp = word_param
param_kind tailinterp2 = word_param
param_kind tailinterp3 = word_param
param_kind tailinterp4 = word_param
param_kind lit = val_param
param_kind branch = int_param
param_kind zbranch = int_param
param_kind recurse = int_param
param_kind _ = no_param

-- The count that the declaration passes to the constructor of `Word`.
abbrev declared_params : Native → ℕ
declared_params interp2 = 2
declared_params interp3 = 3
declared_params interp4 = 4
declared_params tailinterp = 1
declared_params tailinterp2 = 2
declared_params tailinterp3 = 3
declared_params tailinterp4 = 4
declared_params _ = 0

abbrev takes_param : ParamKind → ℕ
takes_param no_param = 0
takes_param _ = 1

-- `parameters()`, by the constructor: at least one if a `Has…Param` flag is set.
unfoldable pub parameters : Native → ℕ
unfolding param_kind
parameters n = max (declared_params n) (takes_param (param_kind n))
