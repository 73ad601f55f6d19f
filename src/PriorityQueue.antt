-- ===== src/PriorityQueue.antt =====
-- src/priority_queue.c: the binary heap on top of the vector. The comparison is the caller's: it is
-- a field, as in the struct. `none` for a loop means that its fuel ran out, or that it would have read
-- through NULL or a cell that was never written.
pub mod Cells
pub mod Order
pub mod Up
pub mod Down
pub mod Push
pub mod Pop
pub mod Drain
mod Tests
use cdsa.Base.{
  ◌>>=◌, ℕ, zero, suc, ◌-◌, ◌/◌, Bool, true, false, Option, none, some, cell, sub_size, add_size,
  mul_size, ltb, ◌==◌, if◌then◌else◌,
}
use cdsa.Error.{Status, ok, oom, invalid, empty}
use cdsa.Allocator.{Memory, Pointer, malloc_track, free_track}
use cdsa.Vector.{
  Vector, create_vector, free_vector, push_vector, get_vector, set_vector, pop_vector, front_vector,
  back_vector, size_vector, is_empty_vector, clear_vector,
}
use cdsa.Vector.Iterator
use cdsa.Vector.Iterator.{Iterator}

-- `struct cdsa_priority_queue`; the vector behind it is what `data` points to.
pub record PriorityQueue {ℓ} (A : Type ℓ) : Type ℓ where
  pub handle : Pointer
  pub items : Option (Vector A)
  pub elem_size : ℕ
  pub cmp : A → A → Bool

-- `sizeof(cdsa_priority_queue)`
abbrev pub sizeof_priority_queue : ℕ
sizeof_priority_queue = 24

module _ {ℓ} {A : Type ℓ} where
  -- The element that a pointer into the vector leads to.
  unfoldable pub load : Vector A → Option ℕ → Option A
  load v none = none
  load v (some i) = cell v.cells i

  -- The element at `i` is kept in `temp`, that at `j` is copied over it, and `temp` over the other.
  unfoldable pub exchange : Vector A → ℕ → ℕ → A → A → Option (Vector A)
  unfolding set_vector
  exchange v i j current target = do
    w ← (set_vector (some v) i (some target)).1
    (set_vector (some w) j (some current)).1

  -- The loop of `sift_up`, with fuel.
  unfoldable pub sift_up_loop : ℕ → (A → A → Bool) → Vector A → ℕ → Option (Vector A)
  sift_up_loop zero cmp v index = none
  sift_up_loop (suc fuel) cmp v index =
      let parent = (index - 1) / 2 in
      let step : Option (Vector A) = do
        current ← load v (get_vector (some v) index)
        above ← load v (get_vector (some v) parent)
        let rise = exchange v index parent current above >>= λ w. sift_up_loop fuel cmp w parent
        if cmp current above then rise else some v
      in if ltb 0 index then step else some v

  abbrev pub finished : Pointer → Memory → Option (Vector A) → Option (Status × Vector A × Memory)
  finished temp m none = none
  finished temp m (some v) = some (ok, v, free_track (some temp) m)

  abbrev pub sifting :
      Vector A → Option (Vector A) → Option Pointer × Memory → Option (Status × Vector A × Memory)
  sifting v result (none, m) = some (oom, v, m)
  sifting v result (some temp, m) = finished temp m result

  unfoldable pub sift_up :
      PriorityQueue A → Vector A → ℕ → Memory → Option (Status × Vector A × Memory)
  sift_up pq v index m =
      if index == 0
      then some (ok, v, m)
      else sifting v (sift_up_loop (suc index) pq.cmp v index) (malloc_track pq.elem_size m)

  -- The better of the best so far and a child, if the child exists.
  unfoldable pub better_child : (A → A → Bool) → Vector A → ℕ → ℕ → Option ℕ
  better_child cmp v child best =
      if ltb child (size_vector (some v))
      then (do
        challenger ← load v (get_vector (some v) child)
        target ← load v (get_vector (some v) best)
        some (if cmp challenger target then child else best))
      else some best

  -- The loop of `sift_down`, with fuel.
  unfoldable pub sift_down_loop : ℕ → (A → A → Bool) → Vector A → ℕ → Option (Vector A)
  sift_down_loop zero cmp v index = none
  sift_down_loop (suc fuel) cmp v index = do
    left ← better_child cmp v (add_size (mul_size 2 index) 1) index
    best ← better_child cmp v (add_size (mul_size 2 index) 2) left
    let sink : Option (Vector A) = do
      current ← load v (get_vector (some v) index)
      target ← load v (get_vector (some v) best)
      w ← exchange v index best current target
      sift_down_loop fuel cmp w best
    if best == index then some v else sink

  unfoldable pub sift_down :
      PriorityQueue A → Vector A → ℕ → Memory → Option (Status × Vector A × Memory)
  sift_down pq v index m =
      sifting v (sift_down_loop (suc v.size) pq.cmp v index) (malloc_track pq.elem_size m)

  abbrev with_vector :
      ℕ → (A → A → Bool) → Pointer → Option (Vector A) × Memory → Option (PriorityQueue A) × Memory
  with_vector elem_size cmp p (none, m) = (none, free_track (some p) m)
  with_vector elem_size cmp p (some v, m) =
      (some (record { handle = p; items = some v; elem_size = elem_size; cmp = cmp }), m)

  abbrev with_handle :
      ℕ → (A → A → Bool) → Option Pointer × Memory → Option (PriorityQueue A) × Memory
  with_handle elem_size cmp (none, m) = (none, m)
  with_handle elem_size cmp (some p, m) = with_vector elem_size cmp p (create_vector elem_size m)

  unfoldable pub create_pq : ℕ → (A → A → Bool) → Memory → Option (PriorityQueue A) × Memory
  create_pq elem_size cmp m = with_handle elem_size cmp (malloc_track sizeof_priority_queue m)

  unfoldable pub free_pq : Option (PriorityQueue A) → Memory → Memory
  free_pq none m = m
  free_pq (some pq) m = free_track (some pq.handle) (free_vector pq.items m)

  -- The queue with the vector that a sift leaves.
  abbrev pub sifted :
      PriorityQueue A
      → Option (Status × Vector A × Memory)
      → Option (Status × Option (PriorityQueue A) × Memory)
  sifted pq none = none
  sifted pq (some (s, v, m)) = some (s, some (record pq { items = some v }), m)

  -- Only a push of the vector that returned OK is followed by the sift.
  abbrev pub after_push :
      PriorityQueue A
      → Status × Option (Vector A) × Memory
      → Option (Status × Option (PriorityQueue A) × Memory)
  after_push pq (ok, some v, m) = sifted pq (sift_up pq v (sub_size (size_vector (some v)) 1) m)
  after_push pq (s, v, m) = some (s, some (record pq { items = v }), m)

  unfoldable pub push_pq :
      Option (PriorityQueue A)
      → Option A
      → Memory
      → Option (Status × Option (PriorityQueue A) × Memory)
  push_pq none elem m = some (invalid, none, m)
  push_pq (some pq) none m = some (invalid, some pq, m)
  push_pq (some pq) (some x) m = after_push pq (push_vector pq.items (some x) m)

  unfoldable pub is_empty_pq : Option (PriorityQueue A) → Bool
  is_empty_pq none = true
  is_empty_pq (some pq) = is_empty_vector pq.items

  -- The root is overwritten by the last element, which is then taken off.
  unfoldable pub pull_last : Vector A → Option (Vector A)
  pull_last v = do
    last ← load v (back_vector (some v))
    w ← (set_vector (some v) 0 (some last)).1
    (pop_vector (some w)).1

  abbrev pub handed_over :
      PriorityQueue A
      → A
      → Status × Vector A × Memory
      → Option (Status × Option A × Option (PriorityQueue A) × Memory)
  handed_over pq top (s, v, m) = some (s, some top, some (record pq { items = some v }), m)

  -- The element that is copied out, and what the call leaves; `wants_elem` is whether `out_elem` is
  -- not NULL.
  unfoldable pub pop_pq :
      Option (PriorityQueue A)
      → Bool
      → Memory
      → Option (Status × Option A × Option (PriorityQueue A) × Memory)
  pop_pq none wants_elem m = some (invalid, none, none, m)
  pop_pq (some pq) false m = some (invalid, none, some pq, m)
  pop_pq (some pq) true m = if is_empty_pq (some pq) then some (empty, none, some pq, m) else do
    v ← pq.items
    top ← load v (front_vector (some v))
    w ← pull_last v
    let rest = if is_empty_vector (some w) then some (ok, w, m) else sift_down pq w 0 m
    rest >>= handed_over pq top

  unfoldable pub peek_pq : Option (PriorityQueue A) → Option ℕ
  peek_pq none = none
  peek_pq (some pq) = front_vector pq.items

  unfoldable pub size_pq : Option (PriorityQueue A) → ℕ
  size_pq none = 0
  size_pq (some pq) = size_vector pq.items

  unfoldable pub clear_pq : Option (PriorityQueue A) → Option (PriorityQueue A)
  clear_pq none = none
  clear_pq (some pq) = some (record pq { items = clear_vector pq.items })

  -- The iterator is the vector's; the other three calls cast to it and go on to the vector's.
  unfoldable pub create_pq_iterator : Option (PriorityQueue A) → Memory → Option Iterator × Memory
  create_pq_iterator none m = (none, m)
  create_pq_iterator (some pq) m = Iterator.create_iterator pq.items m

  unfoldable pub has_next_pq : Option Iterator → Vector A → Bool
  has_next_pq it v = Iterator.has_next it v

  unfoldable pub next_pq : Option Iterator → Vector A → Bool → Status × Option ℕ × Option Iterator
  next_pq it v wants_value = Iterator.next it v wants_value

unfoldable pub free_pq_iterator : Option Iterator → Memory → Memory
free_pq_iterator it m = Iterator.free_iterator it m
