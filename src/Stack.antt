-- ===== src/Stack.antt =====
-- src/stack.c: a stack on top of the vector.
pub mod Lifo
mod Tests
use cdsa.Base.{ℕ, Bool, true, Option, none, some}
use cdsa.Error.{Status, invalid}
use cdsa.Allocator.{Memory, Pointer, malloc_track, free_track}
use cdsa.Vector.{
  Vector, create_vector, free_vector, push_vector, pop_vector, back_vector, size_vector,
  is_empty_vector, clear_vector,
}

-- `struct cdsa_stack`; the vector behind it is what `vec` points to.
pub record Stack {ℓ} (A : Type ℓ) : Type ℓ where
  pub handle : Pointer
  pub vec : Option (Vector A)

-- `sizeof(cdsa_stack)`
abbrev pub sizeof_stack : ℕ
sizeof_stack = 8

module _ {ℓ} {A : Type ℓ} where
  abbrev with_vector : Pointer → Option (Vector A) × Memory → Option (Stack A) × Memory
  with_vector p (none, m) = (none, free_track (some p) m)
  with_vector p (some v, m) = (some (record { handle = p; vec = some v }), m)

  abbrev with_handle : ℕ → Option Pointer × Memory → Option (Stack A) × Memory
  with_handle elem_size (none, m) = (none, m)
  with_handle elem_size (some p, m) = with_vector p (create_vector elem_size m)

  unfoldable pub create_stack : ℕ → Memory → Option (Stack A) × Memory
  unfolding malloc_track free_track create_vector
  create_stack elem_size m = with_handle elem_size (malloc_track sizeof_stack m)

  abbrev pushed : Stack A → Status × Option (Vector A) × Memory → Status × Option (Stack A) × Memory
  pushed s (status, v, m) = (status, some (record s { vec = v }), m)

  unfoldable pub push_stack :
      Option (Stack A) → Option A → Memory → Status × Option (Stack A) × Memory
  push_stack none value m = (invalid, none, m)
  push_stack (some s) none m = (invalid, some s, m)
  push_stack (some s) (some x) m = pushed s (push_vector s.vec (some x) m)

  unfoldable pub free_stack : Option (Stack A) → Memory → Memory
  free_stack none m = m
  free_stack (some s) m = free_track (some s.handle) (free_vector s.vec m)

  abbrev popped : Stack A → Status × Option (Vector A) → Status × Option (Stack A)
  popped s (status, v) = (status, some (record s { vec = v }))

  unfoldable pub pop_stack : Option (Stack A) → Status × Option (Stack A)
  pop_stack none = (invalid, none)
  pop_stack (some s) = popped s (pop_vector s.vec)

  unfoldable pub top_stack : Option (Stack A) → Option ℕ
  top_stack none = none
  top_stack (some s) = back_vector s.vec

  unfoldable pub size_stack : Option (Stack A) → ℕ
  size_stack none = 0
  size_stack (some s) = size_vector s.vec

  unfoldable pub is_empty_stack : Option (Stack A) → Bool
  is_empty_stack none = true
  is_empty_stack (some s) = is_empty_vector s.vec

  unfoldable pub clear_stack : Option (Stack A) → Option (Stack A)
  clear_stack none = none
  clear_stack (some s) = some (record s { vec = clear_vector s.vec })
