-- ===== src/HashMap/Iterator.antt =====
-- The iterator of src/hashmap.c. It holds the map's address; a call takes what the map is at that
-- moment. `has_next` moves the iterator on to an occupied slot.
pub mod Walk
use cdsa.Base.{
  ℕ, zero, suc, ◌-◌, Bool, true, false, not, Option, none, some, add_size, ltb, ◌==◌, if◌then◌else◌,
}
use cdsa.Error.{Status, ok, not_found, invalid, iter_invalidated}
use cdsa.Allocator.{Memory, Pointer, malloc_track, free_track}
use cdsa.Text.{Key}
use cdsa.HashMap.{HashMap, entry_at, if_null}

pub record Iterator : Type 0 where
  pub handle : Pointer
  pub current_index : ℕ
  pub snapshot_version : ℕ

-- `sizeof(cdsa_hashmap_iterator)`
abbrev pub sizeof_iterator : ℕ
sizeof_iterator = 24

abbrev started : ℕ → Option Pointer × Memory → Option Iterator × Memory
started version (none, m) = (none, m)
started version (some p, m) =
    (some (record { handle = p; current_index = 0; snapshot_version = version }), m)

unfoldable pub free_iterator : Option Iterator → Memory → Memory
free_iterator none m = m
free_iterator (some it) m = free_track (some it.handle) m

module _ {ℓ} {V : Type ℓ} where
  unfoldable pub create_iterator : Option (HashMap V) → Memory → Option Iterator × Memory
  create_iterator none m = (none, m)
  create_iterator (some h) m = started h.version (malloc_track sizeof_iterator m)

  -- The loop of `has_next`, with as many rounds as there are slots from the index on: the next
  -- occupied slot, or the capacity.
  unfoldable pub skip_empty : ℕ → HashMap V → ℕ → ℕ
  skip_empty zero h index = index
  skip_empty (suc rounds) h index =
      let rest = skip_empty rounds h (add_size index 1) in
      if_null (entry_at h.entries index).key rest λ k. index

  -- What the loop ends with: whether it stands on a slot of the table, and the iterator there.
  abbrev pub found_at : HashMap V → Iterator → ℕ → Bool × Option Iterator
  found_at h it index = (ltb index h.capacity, some (record it { current_index = index }))

  unfoldable pub has_next : Option Iterator → HashMap V → Bool × Option Iterator
  unfolding skip_empty
  has_next none h = (false, none)
  has_next (some it) h =
      if not (h.version == it.snapshot_version)
      then (false, some it)
      else found_at h it (skip_empty (h.capacity - it.current_index) h it.current_index)

  -- The key and the value of the slot, if `has_next` found one.
  abbrev pub yielded :
      HashMap V
      → Bool
      → Bool × Option Iterator
      → Status × Option Key × Option (Option V) × Option Iterator
  yielded h wants_value (true, some it) =
      let slot = entry_at h.entries it.current_index in
      (
        ok,
        slot.key,
        (if wants_value then some slot.value else none),
        some (record it { current_index = add_size it.current_index 1 }),
      )
  yielded h wants_value (found, it) = (not_found, none, none, it)

  -- `wants_key` and `wants_value` are whether the two out-pointers are not NULL; the options are what
  -- is written through them.
  unfoldable pub next :
      Option Iterator
      → HashMap V
      → Bool
      → Bool
      → Status × Option Key × Option (Option V) × Option Iterator
  next none h wants_key wants_value = (invalid, none, none, none)
  next (some it) h false wants_value = (invalid, none, none, some it)
  next (some it) h true wants_value =
      if not (h.version == it.snapshot_version)
      then (iter_invalidated, none, none, some it)
      else yielded h wants_value (has_next (some it) h)
