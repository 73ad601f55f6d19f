-- ===== src/RingBuffer/Iterator.antt =====
-- The iterator of src/ringbuffer.c. It holds the buffer's address; a call takes what the buffer is
-- at that moment. A pointer to an element is its index in the storage.
pub mod Walk
use cdsa.Base.{
  ℕ, ◌+◌, ◌%◌, Bool, true, false, not, Option, none, some, add_size, ltb, ◌==◌, if◌then◌else◌,
}
use cdsa.Error.{Status, ok, not_found, invalid, iter_invalidated}
use cdsa.Allocator.{Memory, Pointer, malloc_track, free_track}
use cdsa.RingBuffer.{RingBuffer}

pub record Iterator : Type 0 where
  pub handle : Pointer
  pub progress : ℕ
  pub snapshot_version : ℕ

-- `sizeof(cdsa_ringbuffer_iterator)`
abbrev pub sizeof_iterator : ℕ
sizeof_iterator = 24

abbrev started : ℕ → Option Pointer × Memory → Option Iterator × Memory
started version (none, m) = (none, m)
started version (some p, m) =
    (some (record { handle = p; progress = 0; snapshot_version = version }), m)

unfoldable pub free_iterator : Option Iterator → Memory → Memory
free_iterator none m = m
free_iterator (some it) m = free_track (some it.handle) m

module _ {ℓ} {A : Type ℓ} where
  unfoldable pub create_iterator : Option (RingBuffer A) → Memory → Option Iterator × Memory
  create_iterator none m = (none, m)
  create_iterator (some rb) m = started rb.version (malloc_track sizeof_iterator m)

  unfoldable pub has_next : Option Iterator → RingBuffer A → Bool
  has_next none rb = false
  has_next (some it) rb =
      if not (rb.version == it.snapshot_version) then false else ltb it.progress rb.size

  abbrev pub physical_index : Iterator → RingBuffer A → ℕ
  physical_index it rb = add_size rb.head it.progress % rb.capacity

  -- `wants_value` is whether `out_value` is not NULL; the option is what is written through it.
  unfoldable pub next : Option Iterator → RingBuffer A → Bool → Status × Option ℕ × Option Iterator
  unfolding has_next
  next none rb wants_value = (invalid, none, none)
  next (some it) rb false = (invalid, none, some it)
  next (some it) rb true =
      if not (rb.version == it.snapshot_version)
      then (iter_invalidated, none, some it)
      else if not (has_next (some it) rb)
      then (not_found, none, some it)
      else (ok, some (physical_index it rb), some (record it { progress = add_size it.progress 1 }))
