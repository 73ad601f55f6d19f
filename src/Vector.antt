-- ===== src/Vector.antt =====
-- src/vector.c: the growing array. A pointer to the vector that may be NULL is an `Option`, and a
-- call that writes through it returns what the pointer leads to afterwards. A pointer to an element
-- is its index in the storage. Elements are only copied, so they are values of any type.
pub mod Inv
pub mod Contents
pub mod Oom
pub mod Telemetry
pub mod Life
pub mod Iterator
mod Tests
use cdsa.Base.{
  ℕ, ◌+◌, ◌-◌, ◌/◌, Bool, true, Option, none, some, List, set, replicate, resize_cells, add_size,
  mul_size, leb, ◌==◌, if◌then◌else◌,
}
use cdsa.Error.{Status, ok, oom, not_found, invalid}
use cdsa.Allocator.{Memory, Pointer, malloc_track, free_track, realloc_track}

-- `struct cdsa_vector`. `cells` is what the storage holds: as many whole elements as the bytes
-- behind `data` have room for. A write past them is lost.
pub record Vector {ℓ} (A : Type ℓ) : Type ℓ where
  pub handle : Pointer
  pub storage : Pointer
  pub cells : List (Option A)
  pub size : ℕ
  pub capacity : ℕ
  pub elem_size : ℕ
  pub version : ℕ

abbrev pub initial_capacity : ℕ
initial_capacity = 4

-- `sizeof(cdsa_vector)`
abbrev pub sizeof_vector : ℕ
sizeof_vector = 40

module _ {ℓ} {A : Type ℓ} where
  -- The fields that `create` fills in.
  abbrev pub created : ℕ → Pointer → Pointer → Vector A
  created elem_size p s = record {
    handle = p;
    storage = s;
    cells = replicate (s.size / elem_size) none;
    size = 0;
    capacity = initial_capacity;
    elem_size = elem_size;
    version = 0;
  }

  abbrev pub with_storage : ℕ → Pointer → Option Pointer × Memory → Option (Vector A) × Memory
  with_storage elem_size p (none, m) = (none, free_track (some p) m)
  with_storage elem_size p (some s, m) = (some (created elem_size p s), m)

  abbrev pub with_handle : ℕ → Option Pointer × Memory → Option (Vector A) × Memory
  with_handle elem_size (none, m) = (none, m)
  with_handle elem_size (some p, m) =
      with_storage elem_size p (malloc_track (mul_size initial_capacity elem_size) m)

  unfoldable pub create_vector : ℕ → Memory → Option (Vector A) × Memory
  create_vector elem_size m = with_handle elem_size (malloc_track sizeof_vector m)

  -- `memcpy` behind the last element, and the counters.
  abbrev pub append : Vector A → A → Vector A
  append v x = record v {
    cells = set v.cells v.size (some x);
    size = add_size v.size 1;
    version = add_size v.version 1;
  }

  -- What `push` makes of the answer of `realloc`; the capacity has been doubled before the call.
  abbrev pub grown :
      Vector A → ℕ → A → Option Pointer × Memory → Status × Option (Vector A) × Memory
  grown v doubled x (none, m) = (oom, some (record v { capacity = doubled }), m)
  grown v doubled x (some p, m) = (
    ok,
    some (
        append
          (record v {
            capacity = doubled;
            storage = p;
            cells = resize_cells (p.size / v.elem_size) v.cells;
          })
          x),
    m,
  )

  unfoldable pub push_vector :
      Option (Vector A) → Option A → Memory → Status × Option (Vector A) × Memory
  push_vector none elem m = (invalid, none, m)
  push_vector (some v) none m = (invalid, some v, m)
  push_vector (some v) (some x) m =
      let doubled = mul_size v.capacity 2 in
      if leb v.capacity v.size
      then grown v doubled x (realloc_track (some v.storage) (mul_size doubled v.elem_size) m)
      else (ok, some (append v x), m)

  unfoldable pub get_vector : Option (Vector A) → ℕ → Option ℕ
  get_vector none index = none
  get_vector (some v) index = if leb v.size index then none else some index

  unfoldable pub free_vector : Option (Vector A) → Memory → Memory
  free_vector none m = m
  free_vector (some v) m = free_track (some v.handle) (free_track (some v.storage) m)

  unfoldable pub pop_vector : Option (Vector A) → Status × Option (Vector A)
  pop_vector none = (invalid, none)
  pop_vector (some v) =
      if v.size == 0
      then (not_found, some v)
      else (ok, some (record v { size = v.size - 1; version = add_size v.version 1 }))

  unfoldable pub front_vector : Option (Vector A) → Option ℕ
  front_vector none = none
  front_vector (some v) = if v.size == 0 then none else some 0

  unfoldable pub back_vector : Option (Vector A) → Option ℕ
  back_vector none = none
  back_vector (some v) = if v.size == 0 then none else some (v.size - 1)

  unfoldable pub size_vector : Option (Vector A) → ℕ
  size_vector none = 0
  size_vector (some v) = v.size

  unfoldable pub capacity_vector : Option (Vector A) → ℕ
  capacity_vector none = 0
  capacity_vector (some v) = v.capacity

  unfoldable pub set_vector : Option (Vector A) → ℕ → Option A → Status × Option (Vector A)
  set_vector none index elem = (invalid, none)
  set_vector (some v) index none = (invalid, some v)
  set_vector (some v) index (some x) =
      if leb v.size index
      then (not_found, some v)
      else (ok, some (record v { cells = set v.cells index (some x) }))

  -- Unlike the other writers, `clear` leaves the version alone.
  unfoldable pub clear_vector : Option (Vector A) → Option (Vector A)
  clear_vector none = none
  clear_vector (some v) = some (record v { size = 0 })

  unfoldable pub is_empty_vector : Option (Vector A) → Bool
  is_empty_vector none = true
  is_empty_vector (some v) = v.size == 0
