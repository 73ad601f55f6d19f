-- ===== src/Vector/Iterator.antt =====
-- The iterator of src/vector.c. It holds the vector's address; a call takes what the vector is at
-- that moment. A pointer to an element is its index in the storage.
pub mod Walk
use cdsa.Base.{
  ℕ, ◌+◌, Bool, true, false, not, Option, none, some, add_size, ltb, ◌==◌, if◌then◌else◌,
}
use cdsa.Error.{Status, ok, not_found, invalid, iter_invalidated}
use cdsa.Allocator.{Memory, Pointer, malloc_track, free_track}
use cdsa.Vector.{Vector}

pub record Iterator : Type 0 where
  pub handle : Pointer
  pub current_index : ℕ
  pub snapshot_version : ℕ

-- `sizeof(cdsa_vector_iterator)`
abbrev pub sizeof_iterator : ℕ
sizeof_iterator = 24

abbrev started : ℕ → Option Pointer × Memory → Option Iterator × Memory
started version (none, m) = (none, m)
started version (some p, m) =
    (some (record { handle = p; current_index = 0; snapshot_version = version }), m)

unfoldable pub free_iterator : Option Iterator → Memory → Memory
free_iterator none m = m
free_iterator (some it) m = free_track (some it.handle) m

module _ {ℓ} {A : Type ℓ} where
  unfoldable pub create_iterator : Option (Vector A) → Memory → Option Iterator × Memory
  create_iterator none m = (none, m)
  create_iterator (some v) m = started v.version (malloc_track sizeof_iterator m)

  unfoldable pub has_next : Option Iterator → Vector A → Bool
  has_next none v = false
  has_next (some it) v =
      if not (v.version == it.snapshot_version) then false else ltb it.current_index v.size

  -- `wants_value` is whether `out_value` is not NULL; the option is what is written through it.
  unfoldable pub next : Option Iterator → Vector A → Bool → Status × Option ℕ × Option Iterator
  unfolding has_next
  next none v wants_value = (invalid, none, none)
  next (some it) v false = (invalid, none, some it)
  next (some it) v true =
      if not (v.version == it.snapshot_version)
      then (iter_invalidated, none, some it)
      else if not (has_next (some it) v)
      then (not_found, none, some it)
      else (
        ok,
        some it.current_index,
        some (record it { current_index = add_size it.current_index 1 }),
      )
