-- ===== src/Gc.antt =====
-- The garbage collector, src/values/gc.cc and src/values/gc.hh. The heap holds the objects by their
-- addresses, with the three parts of `_next`: the link to the next object, the mark, and the type,
-- which is that of the contents. An access to no object, or to one of another class, is the error
-- `invalid_access`, since C++ leaves it undefined. A value is its 64 bits, as NanTagged has them.
pub mod Mark
pub mod Chain
pub mod Sweep
pub mod Collect
pub mod Allocate
mod Tests
use tails.Prelude.{
  ℕ, zero, suc, ◌+◌, ◌-◌, Bool, true, false, List, [], ◌∷◌, ◌++◌, Option, none, some, ◌==◌,
  if◌then◌else◌,
}
use tails.Vocabulary.{NamedWord, Vocabulary, gc_scan}
use tails.Result.{Result, ok, err, ◌>>=◌, invalid_access, out_of_fuel}
use tails.NanTagged.{MarkTarget, mark_nothing, mark_string, mark_array, mark_quote, mark_target}

-- An instruction of a quotation's code, as `scanWord` tells them apart: the words `_RETURN` and
-- `_LITERAL`, the value that follows the latter, and all else.
pub data Cell : Type 0 where
  return_cell literal_cell other_cell : Cell
  value_cell : ℕ → Cell

pub data Contents : Type 0 where
  text : List ℕ → Contents
  items : List ℕ → Contents
  code : List Cell → Contents

pub record Heap : Type 0 where
  pub first : ℕ
  pub next : ℕ → ℕ
  pub object : ℕ → Option Contents
  pub marked : ℕ → Bool
  pub count : ℕ

abbrev pub put {ℓ} : {A : Type ℓ} → (ℕ → A) → ℕ → A → ℕ → A
put f p a q = if p == q then a else f q

-- `object::object(type)`, at the address that the allocator has given.
unfoldable pub allocate : ℕ → Contents → Heap → Heap
allocate p c h = record {
  first = p;
  next = put h.next p h.first;
  object = put h.object p (some c);
  marked = put h.marked p false;
  count = h.count + 1;
}

-- The values that `scanWord` marks, up to RETURN.
unfoldable pub literals : List Cell → Result (List ℕ)
literals [] = err invalid_access
literals (return_cell ∷ cells) = ok []
literals (literal_cell ∷ value_cell v ∷ cells) = do vs ← literals cells; ok (v ∷ vs)
literals (literal_cell ∷ cells) = err invalid_access
literals (_ ∷ cells) = literals cells

-- `_next |= kMarkedBit`
abbrev pub set_mark : ℕ → Heap → Heap
set_mark p h = record h { marked = put h.marked p true }

-- The loop over values that are marked one after the other.
unfoldable pub mark_each : (ℕ → Heap → Result Heap) → List ℕ → Heap → Result Heap
mark_each go [] h = ok h
mark_each go (v ∷ vs) h = do h' ← go v h; mark_each go vs h'

-- `object::mark()` of an array or a quotation at `p`, whose contents are marked if it was not.
unfoldable pub mark_unmarked :
    (ℕ → Heap → Result Heap) → Bool → ℕ → Result (List ℕ) → Heap → Result Heap
unfolding mark_each
mark_unmarked go true p vs h = ok h
mark_unmarked go false p vs h = do values ← vs; mark_each go values (set_mark p h)

unfoldable pub mark_object : (ℕ → Heap → Result Heap) → MarkTarget → Heap → Result Heap
unfolding literals mark_unmarked
mark_object go mark_nothing h = ok h
mark_object go (mark_string p) h = elim (h.object p) [
  | some (text s) ↦ ok (set_mark p h)
  | _ ↦ err invalid_access
]
mark_object go (mark_array p) h = elim (h.object p) [
  | some (items vs) ↦ mark_unmarked go (h.marked p) p (ok vs) h
  | _ ↦ err invalid_access
]
mark_object go (mark_quote p) h = elim (h.object p) [
  | some (code cells) ↦ mark_unmarked go (h.marked p) p (literals cells) h
  | _ ↦ err invalid_access
]

-- `Value::mark()`, to the given depth of calls.
unfoldable pub mark_value : ℕ → ℕ → Heap → Result Heap
unfolding mark_object
mark_value zero v h = err out_of_fuel
mark_value (suc fuel) v h = mark_object (mark_value fuel) (mark_target v) h

-- `scanStack`
unfoldable pub scan_stack : ℕ → List ℕ → Heap → Result Heap
unfolding mark_each mark_value
scan_stack fuel vs h = mark_each (mark_value fuel) vs h

-- `scanWord`
unfoldable pub scan_word : ℕ → List Cell → Heap → Result Heap
unfolding mark_each mark_value literals
scan_word fuel cells h = do vs ← literals cells; mark_each (mark_value fuel) vs h

unfoldable pub scan_each : ℕ → (NamedWord → List Cell) → List NamedWord → Heap → Result Heap
unfolding scan_word
scan_each fuel code_of [] h = ok h
scan_each fuel code_of (w ∷ ws) h = do
  h' ← scan_word fuel (code_of w) h
  scan_each fuel code_of ws h'

-- `gcScan` of the active vocabularies: the words that its iterator visits are scanned.
unfoldable pub scan_words : ℕ → (NamedWord → List Cell) → List Vocabulary → Heap → Result Heap
unfolding scan_each gc_scan
scan_words fuel code_of active h = scan_each fuel code_of (gc_scan fuel active) h

-- `updateLink` of `sweep`: the link out of `prev`, or `sFirst`, is set to `o` if that is due.
unfoldable pub update_link : Bool → ℕ → ℕ → Heap → Heap
update_link false prev o h = h
update_link true prev o h =
    if prev == 0 then record h { first = o } else record h { next = put h.next prev o }

pub record Swept : Type 0 where
  pub heap : Heap
  pub kept : ℕ
  pub freed : ℕ

-- The loop of `sweep`, over at most `fuel` objects.
unfoldable pub sweep_from : ℕ → ℕ → ℕ → Bool → Swept → Result Swept
unfolding update_link
sweep_from zero o prev fix_link s = err out_of_fuel
sweep_from (suc fuel) o prev fix_link s =
    let rest_kept = sweep_from fuel (s.heap.next o) o false (record s {
      heap = update_link fix_link prev o (record (s.heap) { marked = put s.heap.marked o false });
      kept = s.kept + 1;
    }) in
    let rest_freed = sweep_from fuel (s.heap.next o) prev true (record s {
      heap = record (s.heap) { object = put s.heap.object o none };
      freed = s.freed + 1;
    }) in
    if o == 0
    then ok (record s { heap = update_link fix_link prev 0 s.heap })
    else if s.heap.marked o
    then rest_kept
    else rest_freed

-- `sweep()`: the numbers of objects kept and freed stand in the result.
unfoldable pub sweep : ℕ → Heap → Result Swept
unfolding sweep_from
sweep fuel h = do
  s ← sweep_from fuel h.first 0 false (record { heap = h; kept = 0; freed = 0 })
  ok (record s { heap = record (s.heap) { count = h.count - s.freed } })

-- `garbageCollect` of src/repl.cc: the words, then the stack, then the sweep.
unfoldable pub garbage_collect :
    ℕ → (NamedWord → List Cell) → List Vocabulary → List ℕ → Heap → Result Swept
unfolding scan_words scan_stack sweep
garbage_collect fuel code_of active stack h = do
  h₁ ← scan_words fuel code_of active h
  h₂ ← scan_stack fuel stack h₁
  sweep fuel h₂
