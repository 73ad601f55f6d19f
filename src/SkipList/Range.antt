-- ===== src/SkipList/Range.antt =====
-- `get_range_skiplist` of src/skiplist.c. The strings of the result are the copies' pointers with what
-- they hold. `int` counts, which the model does not bound.
use cdsa.Base.{
  ℕ, zero, suc, ◌+◌, Bool, true, false, Option, none, some, ◌>>=◌, List, [], ◌∷◌, ◌++◌, length,
  mul_size, if◌then◌else◌,
}
use cdsa.Text.{Key}
use cdsa.Allocator.{Memory, Pointer, malloc_track, free_track}
use cdsa.SkipList.{Doubles, Nodes, SkipList, sizeof_pointer, safe_strdup, forward_at, descend}

-- A string that the caller owns.
abbrev pub Copy : Type 0
Copy = Pointer × Key

-- The strings copied so far are given back, and then the array.
pub free_all : List Copy → Memory → Memory
free_all [] m = m
free_all ((p, k) ∷ copies) m = free_all copies (free_track (some p) m)

abbrev extended : List Copy → Key → Option Pointer × Memory → Option (List Copy) × Memory
extended copies value (none, m) = (none, free_all copies m)
extended copies value (some p, m) = (some (copies ++ (p, value) ∷ []), m)

-- The copy loop, over the values in range: all the copies, or none, with those made given back.
unfoldable pub copy_all : List Key → List Copy → Memory → Option (List Copy) × Memory
unfolding free_all safe_strdup
copy_all [] copies m = (some copies, m)
copy_all (value ∷ values) copies m =
    let (result, m') = extended copies value (safe_strdup value m) in
    elim result [ none ↦ (none, m') | some copies' ↦ copy_all values copies' m' ]

abbrev populated : Pointer → Option (List Copy) × Memory → Option (List Copy) × ℕ × Memory
populated results (none, m) = (none, 0, free_track (some results) m)
populated results (some copies, m) = (some copies, length copies, m)

abbrev with_results : List Key → Option Pointer × Memory → Option (List Copy) × ℕ × Memory
with_results values (none, m) = (none, 0, m)
with_results values (some results, m) = populated results (copy_all values [] m)

-- An empty range needs no array.
abbrev allocated : List Key → Memory → Option (List Copy) × ℕ × Memory
allocated [] m = (none, 0, m)
allocated (value ∷ values) m =
    with_results (value ∷ values)
      (malloc_track (mul_size (length (value ∷ values)) sizeof_pointer) m)

module _ {ℓ} {S : Type ℓ} (d : Doubles S) where
  -- The values from a node on, as long as the scores are in range: what both loops walk over.
  unfoldable pub in_range : ℕ → Nodes S → S → Option ℕ → Option (List Key)
  in_range zero nodes max_score current = none
  in_range (suc fuel) nodes max_score none = some []
  in_range (suc fuel) nodes max_score (some p) = do
    n ← nodes p
    next ← forward_at nodes p 0
    let rest : Option (List Key) = do
      values ← in_range fuel nodes max_score next
      some (n.value ∷ values)
    if d.le n.score max_score then rest else some []

  -- The result, and what is written through `out_count`; `wants_count` is whether that is not NULL.
  unfoldable pub get_range_skiplist :
      Option (SkipList S) → S → S → Bool → Memory → Option (Option (List Copy) × Option ℕ × Memory)
  get_range_skiplist none min_score max_score wants_count m = some (none, none, m)
  get_range_skiplist (some sl) min_score max_score false m = some (none, none, m)
  get_range_skiplist (some sl) min_score max_score true m = do
    (update, last) ←
        descend (sl.fresh + 1) sl.nodes sl.level (λ n. d.lt n.score min_score) sl.header
    current ← forward_at sl.nodes last 0
    values ← in_range (sl.fresh + 1) sl.nodes max_score current
    let (results, count, m') = allocated values m
    some (results, some count, m')
