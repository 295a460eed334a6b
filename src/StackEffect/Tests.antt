-- ===== src/StackEffect/Tests.antt =====
-- Runs of `StackEffect` on small effects.
use tails.Prelude.{◌≡◌, ◌≤◌, refl, [], ◌∷◌, ◌++◌, arith, false}
use tails.TypeSet.{TypeSet, exists}
use tails.Result.{ok}
use tails.StackEffect.{
  StackEffect, inputs, outputs, make, add_input, add_output, add_input_at_bottom,
  add_output_at_bottom, net_growth,
}
use tails.StackEffect.Laws.{IsValid, make-IsValid, add-views}

abbrev a_num : TypeSet
a_num = record { flags = 2 }

abbrev a_str : TypeSet
a_str = record { flags = 4 }

abbrev num_to_str : StackEffect
num_to_str = record {
  entries = a_num ∷ a_str ∷ [];
  ins = 1;
  outs = 1;
  max_growth = 0;
  weird = false;
}

num_to_str-IsValid : IsValid num_to_str
num_to_str-IsValid = record { counted = refl; fits = omega arith; max_fits = omega arith }

make-IsValid_example :
    (e : StackEffect) × (make (a_num ∷ []) (a_num ∷ a_str ∷ []) ≡ ok e)
    × IsValid e
    × (net_growth e ≤ e.max_growth)
    × (inputs e ≡ a_num ∷ [])
    × (outputs e ≡ a_str ∷ a_num ∷ [])
make-IsValid_example = make-IsValid (a_num ∷ []) (a_num ∷ a_str ∷ []) (omega arith)

add-views_example :
    ((f : StackEffect) × (add_input a_str num_to_str ≡ ok f)
      × (inputs f ≡ a_str ∷ inputs num_to_str)
      × (outputs f ≡ outputs num_to_str)
      × IsValid f)
    × ((f : StackEffect) × (add_output a_str num_to_str ≡ ok f)
        × (inputs f ≡ inputs num_to_str)
        × (outputs f ≡ a_str ∷ outputs num_to_str)
        × IsValid f)
    × ((f : StackEffect) × (add_input_at_bottom a_str num_to_str ≡ ok f)
        × (inputs f ≡ inputs num_to_str ++ a_str ∷ [])
        × (outputs f ≡ outputs num_to_str)
        × IsValid f)
    × ((f : StackEffect) × (add_output_at_bottom a_str num_to_str ≡ ok f)
        × (inputs f ≡ inputs num_to_str)
        × (outputs f ≡ outputs num_to_str ++ a_str ∷ [])
        × IsValid f)
unfolding exists
add-views_example = add-views a_str num_to_str num_to_str-IsValid refl (omega arith)
