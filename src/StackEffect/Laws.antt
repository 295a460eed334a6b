-- ===== src/StackEffect/Laws.antt =====
-- What the operations of `StackEffect` do to its two views and its bounds.

use native.Mathlib.Numerals.{add-one}
use mathlib.Core.List.{reverse-append, reverse-cons}
use tails.Prelude.{
  ℕ, ◌+◌, ◌-◌, ◌≤◌, ◌<◌, ◌≡◌, ap, ◌∙◌, true, false, List, [], ◌∷◌, ◌++◌, reverse, min, max, arith,
  length, take, drop, length-append, length-drop, lt→ltb,
}
use tails.TypeSet.{TypeSet, exists}
use tails.Result.{ok, err, too_many_entries}
use tails.StackEffect.{
  StackEffect, max_entries, unknown_max, net_growth, set_max, make, check_not_full, insert,
  add_input, add_output, add_input_at_bottom, add_output_at_bottom, inputs, outputs,
}
use tails.StackEffect.Insertion.{
  take_all, take-append_left, drop-append_left, take-insert, drop-insert, take-insert_self,
  drop-insert_self, take-insert_before, drop-insert_before, length-insert,
}

-- The counts describe the array in use, which fits, and the recorded growth fits its field.
pub record IsValid (e : StackEffect) : Type 0 where
  pub counted : length e.entries ≡ e.ins + e.outs
  pub fits : e.ins + e.outs ≤ max_entries
  pub max_fits : e.max_growth ≤ unknown_max

-- The constructor refuses eight inputs and outputs or more.
make_too_many :
    (xs ys : List TypeSet) → max_entries ≤ length xs + length ys → make xs ys ≡ err too_many_entries
unfolding make
make_too_many xs ys h = ground arith

-- With fewer than eight inputs and outputs in all the constructor builds a valid effect with these
-- views, whose growth covers its net growth.
pub make-IsValid :
    (xs ys : List TypeSet)
    → length xs + length ys < max_entries
    → (e : StackEffect) × (make xs ys ≡ ok e)
      × IsValid e
      × (net_growth e ≤ e.max_growth)
      × (inputs e ≡ reverse xs)
      × (outputs e ≡ reverse ys)
unfolding make set_max net_growth inputs outputs
make-IsValid xs ys h = (
  record {
    entries = xs ++ ys;
    ins = length xs;
    outs = length ys;
    max_growth = min (max 0 (max (length ys - length xs) 0)) unknown_max;
    weird = false;
  },
  ground arith,
  record { counted = length-append xs ys; fits = omega arith; max_fits = omega arith },
  omega arith,
  ap reverse (take-append_left xs ys),
  ap reverse
      (ap (take (length ys)) (drop-append_left xs ys) ∙ take_all ys (length ys) (omega arith)),
)

set_max-IsValid : (m : ℕ) (e : StackEffect) → IsValid e → IsValid (set_max m e)
unfolding set_max
set_max-IsValid m e v = record { counted = v.counted; fits = v.fits; max_fits = omega arith }

module _ (t : TypeSet) (e : StackEffect) (v : IsValid e) (x : exists t ≡ true)
    (room : e.ins + e.outs < max_entries) where
  inserted : ℕ → List TypeSet
  inserted i = take i e.entries ++ t ∷ drop i e.entries

  ins_le : e.ins ≤ length e.entries
  ins_le = omega (arith, v.counted)

  outs_le : e.outs ≤ length (drop e.ins e.entries)
  outs_le = omega (arith, v.counted, length-drop e.ins e.entries)

  insert-eq-ok : (i : ℕ) → insert t i e ≡ ok (record e { entries = inserted i })
  unfolding insert check_not_full inserted
  insert-eq-ok i = rw (x, lt→ltb _ _ room)

  -- The four ways to add an entry put it at their end of their view, leave the other view as it
  -- is, and keep the effect valid.
  pub add_input_lem :
      (f : StackEffect) × (add_input t e ≡ ok f)
      × (inputs f ≡ t ∷ inputs e)
      × (outputs f ≡ outputs e)
      × IsValid f
  unfolding add_input inputs outputs inserted
  add_input_lem = (
    record e { entries = inserted e.ins; ins = e.ins + 1 },
    rw (insert-eq-ok e.ins),
    rw (add-one, take-insert e.ins e.entries t ins_le)
        (reverse-append (take e.ins e.entries) (t ∷ [])),
    rw (add-one, drop-insert e.ins e.entries t ins_le),
    record {
      counted = omega (arith, v.counted, length-insert e.ins e.entries t);
      fits = omega arith;
      max_fits = v.max_fits;
    },
  )

  pub add_output_lem :
      (f : StackEffect) × (add_output t e ≡ ok f)
      × (inputs f ≡ inputs e)
      × (outputs f ≡ t ∷ outputs e)
      × IsValid f
  unfolding add_output inputs outputs inserted
  add_output_lem = (
    record e { entries = inserted (e.ins + e.outs); outs = e.outs + 1 },
    rw (insert-eq-ok (e.ins + e.outs)),
    ap reverse (take-insert_before e.ins e.outs e.entries t ins_le),
    rw
        (
          drop-insert_before e.ins e.outs e.entries t ins_le,
          add-one,
          take-insert e.outs (drop e.ins e.entries) t outs_le,
        )
        (reverse-append (take e.outs (drop e.ins e.entries)) (t ∷ [])),
    record {
      counted = omega (arith, v.counted, length-insert (e.ins + e.outs) e.entries t);
      fits = omega arith;
      max_fits = v.max_fits;
    },
  )

  pub add_input_at_bottom_lem :
      (f : StackEffect) × (add_input_at_bottom t e ≡ ok f)
      × (inputs f ≡ inputs e ++ t ∷ [])
      × (outputs f ≡ outputs e)
      × IsValid f
  unfolding add_input_at_bottom inputs outputs inserted
  add_input_at_bottom_lem = (
    record e { entries = t ∷ e.entries; ins = e.ins + 1 },
    rw (insert-eq-ok 0),
    rw add-one (reverse-cons t (take e.ins e.entries)),
    rw add-one,
    record { counted = omega (arith, v.counted); fits = omega arith; max_fits = v.max_fits },
  )

  pub add_output_at_bottom_lem :
      (f : StackEffect) × (add_output_at_bottom t e ≡ ok f)
      × (inputs f ≡ inputs e)
      × (outputs f ≡ outputs e ++ t ∷ [])
      × IsValid f
  unfolding add_output_at_bottom inputs outputs inserted
  add_output_at_bottom_lem = (
    record e { entries = inserted e.ins; outs = e.outs + 1 },
    rw (insert-eq-ok e.ins),
    ap reverse (take-insert_self e.ins e.entries t ins_le),
    rw (drop-insert_self e.ins e.entries t ins_le, add-one)
        (reverse-cons t (take e.outs (drop e.ins e.entries))),
    record {
      counted = omega (arith, v.counted, length-insert e.ins e.entries t);
      fits = omega arith;
      max_fits = v.max_fits;
    },
  )

-- To a valid effect with room for one more entry, the four ways to add an entry that allows some
-- type put it at the top or at the bottom of the inputs or of the outputs, leave the other list as
-- it is, and give a valid effect.
pub add-views :
    (t : TypeSet) (e : StackEffect)
    → IsValid e
    → exists t ≡ true
    → e.ins + e.outs < max_entries
    → ((f : StackEffect) × (add_input t e ≡ ok f)
        × (inputs f ≡ t ∷ inputs e)
        × (outputs f ≡ outputs e)
        × IsValid f)
      × ((f : StackEffect) × (add_output t e ≡ ok f)
          × (inputs f ≡ inputs e)
          × (outputs f ≡ t ∷ outputs e)
          × IsValid f)
      × ((f : StackEffect) × (add_input_at_bottom t e ≡ ok f)
          × (inputs f ≡ inputs e ++ t ∷ [])
          × (outputs f ≡ outputs e)
          × IsValid f)
      × ((f : StackEffect) × (add_output_at_bottom t e ≡ ok f)
          × (inputs f ≡ inputs e)
          × (outputs f ≡ outputs e ++ t ∷ [])
          × IsValid f)
add-views t e v x room = (
  add_input_lem t e v x room,
  add_output_lem t e v x room,
  add_input_at_bottom_lem t e v x room,
  add_output_at_bottom_lem t e v x room,
)
