-- ===== src/RingBuffer.antt =====
-- src/ringbuffer.c: the fixed-capacity circular buffer. A pointer to an element is its index in the
-- storage.
pub mod Window
pub mod Inv
pub mod Refine
pub mod Life
pub mod Iterator
mod Tests
use cdsa.Base.{
  ℕ, ◌+◌, ◌-◌, ◌/◌, ◌%◌, Bool, true, false, Option, none, some, List, set, replicate, add_size,
  mul_size, sub_size, ◌==◌, if◌then◌else◌,
}
use cdsa.Error.{Status, ok, invalid, full, empty}
use cdsa.Allocator.{Memory, Pointer, malloc_track, free_track}

-- `struct cdsa_ringbuffer`. `cells` is what the storage holds: as many whole elements as the bytes
-- behind `data` have room for. A write past them is lost.
pub record RingBuffer {ℓ} (A : Type ℓ) : Type ℓ where
  pub handle : Pointer
  pub storage : Pointer
  pub cells : List (Option A)
  pub head : ℕ
  pub tail : ℕ
  pub size : ℕ
  pub capacity : ℕ
  pub elem_size : ℕ
  pub version : ℕ

-- `sizeof(cdsa_ringbuffer)`
abbrev pub sizeof_ringbuffer : ℕ
sizeof_ringbuffer = 56

module _ {ℓ} {A : Type ℓ} where
  -- The fields that `create` fills in.
  abbrev pub created : ℕ → ℕ → Pointer → Pointer → RingBuffer A
  created capacity elem_size p s = record {
    handle = p;
    storage = s;
    cells = replicate (s.size / elem_size) none;
    head = 0;
    tail = 0;
    size = 0;
    capacity = capacity;
    elem_size = elem_size;
    version = 0;
  }

  abbrev pub with_storage :
      ℕ → ℕ → Pointer → Option Pointer × Memory → Option (RingBuffer A) × Memory
  with_storage capacity elem_size p (none, m) = (none, free_track (some p) m)
  with_storage capacity elem_size p (some s, m) = (some (created capacity elem_size p s), m)

  abbrev pub with_handle : ℕ → ℕ → Option Pointer × Memory → Option (RingBuffer A) × Memory
  with_handle capacity elem_size (none, m) = (none, m)
  with_handle capacity elem_size (some p, m) =
      with_storage capacity elem_size p (malloc_track (mul_size capacity elem_size) m)

  unfoldable pub create_ringbuffer : ℕ → ℕ → Memory → Option (RingBuffer A) × Memory
  create_ringbuffer capacity elem_size m =
      with_handle capacity elem_size (malloc_track sizeof_ringbuffer m)

  unfoldable pub free_ringbuffer : Option (RingBuffer A) → Memory → Memory
  free_ringbuffer none m = m
  free_ringbuffer (some rb) m = free_track (some rb.handle) (free_track (some rb.storage) m)

  unfoldable pub size_ringbuffer : Option (RingBuffer A) → ℕ
  size_ringbuffer none = 0
  size_ringbuffer (some rb) = rb.size

  unfoldable pub is_empty_ringbuffer : Option (RingBuffer A) → Bool
  is_empty_ringbuffer none = true
  is_empty_ringbuffer (some rb) = rb.size == 0

  unfoldable pub is_full_ringbuffer : Option (RingBuffer A) → Bool
  is_full_ringbuffer none = false
  is_full_ringbuffer (some rb) = rb.size == rb.capacity

  -- `(i + 1) % capacity` and `(i + capacity - 1) % capacity`
  abbrev pub step_forward : RingBuffer A → ℕ → ℕ
  step_forward rb i = add_size i 1 % rb.capacity

  abbrev pub step_back : RingBuffer A → ℕ → ℕ
  step_back rb i = sub_size (add_size i rb.capacity) 1 % rb.capacity

  abbrev pub pushed_back : RingBuffer A → A → RingBuffer A
  pushed_back rb x = record rb {
    cells = set rb.cells rb.tail (some x);
    tail = step_forward rb rb.tail;
    size = add_size rb.size 1;
    version = add_size rb.version 1;
  }

  unfoldable pub push_back_ringbuffer :
      Option (RingBuffer A) → Option A → Status × Option (RingBuffer A)
  unfolding is_full_ringbuffer
  push_back_ringbuffer none elem = (invalid, none)
  push_back_ringbuffer (some rb) none = (invalid, some rb)
  push_back_ringbuffer (some rb) (some x) =
      if is_full_ringbuffer (some rb) then (full, some rb) else (ok, some (pushed_back rb x))

  abbrev pub popped_front : RingBuffer A → RingBuffer A
  popped_front rb = record rb {
    head = step_forward rb rb.head;
    size = rb.size - 1;
    version = add_size rb.version 1;
  }

  unfoldable pub pop_front_ringbuffer : Option (RingBuffer A) → Status × Option (RingBuffer A)
  unfolding is_empty_ringbuffer
  pop_front_ringbuffer none = (invalid, none)
  pop_front_ringbuffer (some rb) =
      if is_empty_ringbuffer (some rb) then (empty, some rb) else (ok, some (popped_front rb))

  unfoldable pub front_ringbuffer : Option (RingBuffer A) → Option ℕ
  unfolding is_empty_ringbuffer
  front_ringbuffer none = none
  front_ringbuffer (some rb) = if is_empty_ringbuffer (some rb) then none else some rb.head

  abbrev pub pushed_front : RingBuffer A → A → RingBuffer A
  pushed_front rb x = record rb {
    head = step_back rb rb.head;
    cells = set rb.cells (step_back rb rb.head) (some x);
    size = add_size rb.size 1;
    version = add_size rb.version 1;
  }

  unfoldable pub push_front_ringbuffer :
      Option (RingBuffer A) → Option A → Status × Option (RingBuffer A)
  unfolding is_full_ringbuffer
  push_front_ringbuffer none elem = (invalid, none)
  push_front_ringbuffer (some rb) none = (invalid, some rb)
  push_front_ringbuffer (some rb) (some x) =
      if is_full_ringbuffer (some rb) then (full, some rb) else (ok, some (pushed_front rb x))

  abbrev pub popped_back : RingBuffer A → RingBuffer A
  popped_back rb = record rb {
    tail = step_back rb rb.tail;
    size = rb.size - 1;
    version = add_size rb.version 1;
  }

  unfoldable pub pop_back_ringbuffer : Option (RingBuffer A) → Status × Option (RingBuffer A)
  unfolding is_empty_ringbuffer
  pop_back_ringbuffer none = (invalid, none)
  pop_back_ringbuffer (some rb) =
      if is_empty_ringbuffer (some rb) then (empty, some rb) else (ok, some (popped_back rb))

  unfoldable pub back_ringbuffer : Option (RingBuffer A) → Option ℕ
  unfolding is_empty_ringbuffer
  back_ringbuffer none = none
  back_ringbuffer (some rb) =
      if is_empty_ringbuffer (some rb) then none else some (step_back rb rb.tail)
