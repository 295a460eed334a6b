-- ===== src/StackEffect.antt =====
-- The classes `StackEffect` and `TypesView` of src/core/stack_effect.hh. `entries` is the part of
-- the array `_entries` that is in use: the inputs bottom to top, then the outputs in that order.
-- A view is the list of its entries from the top of the stack down, the order of its `operator[]`.
pub mod Insertion
pub mod Laws
mod Tests
use tails.Prelude.{
  ℕ, ◌+◌, ◌-◌, ◌^◌, ◌≡◌, Bool, true, false, not, ◌&&◌, List, [], ◌∷◌, ◌++◌, reverse, min, max, ltb,
  leb, ◌==◌, if◌then◌else◌, length, take, drop,
}
use tails.TypeSet.{TypeSet, exists, same_types}
use tails.Result.{Result, ok, err, ◌>>=◌, ◌>>◌, guard, too_many_entries, assertion}

pub record StackEffect : Type 0 where
  pub entries : List TypeSet
  pub ins : ℕ
  pub outs : ℕ
  pub max_growth : ℕ
  pub weird : Bool

-- `kMaxEntries`
abbrev pub max_entries : ℕ
max_entries = 8

-- `kUnknownMax`
abbrev pub unknown_max : ℕ
unknown_max = 65535

abbrev pub empty_effect : StackEffect
empty_effect = record { entries = []; ins = 0; outs = 0; max_growth = 0; weird = false }

unfoldable pub input_count : StackEffect → ℕ
input_count e = e.ins

unfoldable pub output_count : StackEffect → ℕ
output_count e = e.outs

-- `max(0, net())`: where the effect shrinks the stack this is 0.
unfoldable pub net_growth : StackEffect → ℕ
net_growth e = e.outs - e.ins

unfoldable pub max_is_unknown : StackEffect → Bool
max_is_unknown e = e.max_growth == unknown_max

unfoldable pub set_max : ℕ → StackEffect → StackEffect
unfolding net_growth
set_max m e = record e { max_growth = min (max m (max (net_growth e) e.max_growth)) unknown_max }

-- `withMax`
unfoldable pub with_max : ℕ → StackEffect → StackEffect
unfolding set_max
with_max m e = set_max m e

-- `withUnknownMax`
unfoldable pub with_unknown_max : StackEffect → StackEffect
unfolding with_max
with_unknown_max e = with_max unknown_max e

-- `StackEffect::weird()`
abbrev pub weird_effect : StackEffect
weird_effect = record empty_effect { weird = true }

-- The constructor from lists of inputs and outputs, each bottom to top.
unfoldable pub make : List TypeSet → List TypeSet → Result StackEffect
unfolding set_max
make inputs outputs =
    if leb max_entries (length inputs + length outputs)
    then err too_many_entries
    else ok (
        set_max 0 (record {
          entries = inputs ++ outputs;
          ins = length inputs;
          outs = length outputs;
          max_growth = 0;
          weird = false;
        }))

unfoldable pub check_not_full : StackEffect → Result (Unit {0})
check_not_full e = guard (ltb (e.ins + e.outs) max_entries) too_many_entries

unfoldable pub insert : TypeSet → ℕ → StackEffect → Result StackEffect
unfolding check_not_full
insert entry index e = do
  guard (exists entry) assertion
  check_not_full e
  ok (record e { entries = take index e.entries ++ entry ∷ drop index e.entries })

unfoldable pub add_input : TypeSet → StackEffect → Result StackEffect
add_input entry e = do e' ← insert entry e.ins e; ok (record e' { ins = e'.ins + 1 })

unfoldable pub add_output : TypeSet → StackEffect → Result StackEffect
add_output entry e = do e' ← insert entry (e.ins + e.outs) e; ok (record e' { outs = e'.outs + 1 })

unfoldable pub add_input_at_bottom : TypeSet → StackEffect → Result StackEffect
add_input_at_bottom entry e = do e' ← insert entry 0 e; ok (record e' { ins = e'.ins + 1 })

unfoldable pub add_output_at_bottom : TypeSet → StackEffect → Result StackEffect
add_output_at_bottom entry e = do e' ← insert entry e.ins e; ok (record e' { outs = e'.outs + 1 })

-- `inputs()`
unfoldable pub inputs : StackEffect → List TypeSet
inputs e = reverse (take e.ins e.entries)

-- `outputs()`
unfoldable pub outputs : StackEffect → List TypeSet
outputs e = reverse (take e.outs (drop e.ins e.entries))

-- `TypesView::operator==`, and the comparison of the entries in `StackEffect::operator==`.
unfoldable pub same_entries : List TypeSet → List TypeSet → Bool
same_entries [] [] = true
same_entries [] (_ ∷ _) = false
same_entries (_ ∷ _) [] = false
same_entries (s ∷ ss) (t ∷ ts) = same_types s t && same_entries ss ts

-- `operator==`
unfoldable pub same_effect : StackEffect → StackEffect → Bool
unfolding same_entries
same_effect e f =
    if e.ins == f.ins
      && e.outs == f.outs
      && e.max_growth == f.max_growth
      && not e.weird
      && not f.weird
    then same_entries e.entries f.entries
    else false
