-- ===== src/Deque.antt =====
-- src/deque.c: the deque on top of the ring buffer.
pub mod Ends
mod Tests
use cdsa.Base.{ℕ, Bool, true, false, Option, none, some}
use cdsa.Error.{Status, invalid}
use cdsa.Allocator.{Memory, Pointer, malloc_track, free_track}
use cdsa.RingBuffer.{
  RingBuffer, create_ringbuffer, free_ringbuffer, size_ringbuffer, is_empty_ringbuffer,
  is_full_ringbuffer, push_back_ringbuffer, push_front_ringbuffer, pop_front_ringbuffer,
  pop_back_ringbuffer, front_ringbuffer, back_ringbuffer,
}
use cdsa.RingBuffer.Iterator
use cdsa.RingBuffer.Iterator.{Iterator}

-- `struct cdsa_deque`; the buffer behind it is what `rb` points to.
pub record Deque {ℓ} (A : Type ℓ) : Type ℓ where
  pub handle : Pointer
  pub rb : Option (RingBuffer A)

-- `sizeof(cdsa_deque)`
abbrev pub sizeof_deque : ℕ
sizeof_deque = 8

module _ {ℓ} {A : Type ℓ} where
  abbrev pub with_buffer : Pointer → Option (RingBuffer A) × Memory → Option (Deque A) × Memory
  with_buffer p (none, m) = (none, free_track (some p) m)
  with_buffer p (some rb, m) = (some (record { handle = p; rb = some rb }), m)

  abbrev pub with_handle : ℕ → ℕ → Option Pointer × Memory → Option (Deque A) × Memory
  with_handle capacity elem_size (none, m) = (none, m)
  with_handle capacity elem_size (some p, m) =
      with_buffer p (create_ringbuffer capacity elem_size m)

  unfoldable pub create_deque : ℕ → ℕ → Memory → Option (Deque A) × Memory
  create_deque capacity elem_size m = with_handle capacity elem_size (malloc_track sizeof_deque m)

  unfoldable pub free_deque : Option (Deque A) → Memory → Memory
  free_deque none m = m
  free_deque (some q) m = free_track (some q.handle) (free_ringbuffer q.rb m)

  -- The status of a call on the buffer, and the deque with the buffer that it leaves.
  abbrev pub routed : Deque A → Status × Option (RingBuffer A) → Status × Option (Deque A)
  routed q (status, rb) = (status, some (record q { rb = rb }))

  unfoldable pub push_front_deque : Option (Deque A) → Option A → Status × Option (Deque A)
  push_front_deque none elem = (invalid, none)
  push_front_deque (some q) none = (invalid, some q)
  push_front_deque (some q) (some x) = routed q (push_front_ringbuffer q.rb (some x))

  unfoldable pub pop_front_deque : Option (Deque A) → Status × Option (Deque A)
  pop_front_deque none = (invalid, none)
  pop_front_deque (some q) = routed q (pop_front_ringbuffer q.rb)

  unfoldable pub front_deque : Option (Deque A) → Option ℕ
  front_deque none = none
  front_deque (some q) = front_ringbuffer q.rb

  unfoldable pub push_back_deque : Option (Deque A) → Option A → Status × Option (Deque A)
  push_back_deque none elem = (invalid, none)
  push_back_deque (some q) none = (invalid, some q)
  push_back_deque (some q) (some x) = routed q (push_back_ringbuffer q.rb (some x))

  unfoldable pub pop_back_deque : Option (Deque A) → Status × Option (Deque A)
  pop_back_deque none = (invalid, none)
  pop_back_deque (some q) = routed q (pop_back_ringbuffer q.rb)

  unfoldable pub back_deque : Option (Deque A) → Option ℕ
  back_deque none = none
  back_deque (some q) = back_ringbuffer q.rb

  unfoldable pub size_deque : Option (Deque A) → ℕ
  size_deque none = 0
  size_deque (some q) = size_ringbuffer q.rb

  unfoldable pub is_empty_deque : Option (Deque A) → Bool
  is_empty_deque none = true
  is_empty_deque (some q) = is_empty_ringbuffer q.rb

  unfoldable pub is_full_deque : Option (Deque A) → Bool
  is_full_deque none = false
  is_full_deque (some q) = is_full_ringbuffer q.rb

  -- The iterator is the buffer's; the other three calls cast to it and go on to the buffer's.
  unfoldable pub create_deque_iterator : Option (Deque A) → Memory → Option Iterator × Memory
  create_deque_iterator none m = (none, m)
  create_deque_iterator (some q) m = Iterator.create_iterator q.rb m

  unfoldable pub has_next_deque : Option Iterator → RingBuffer A → Bool
  has_next_deque it rb = Iterator.has_next it rb

  unfoldable pub next_deque :
      Option Iterator → RingBuffer A → Bool → Status × Option ℕ × Option Iterator
  next_deque it rb wants_value = Iterator.next it rb wants_value

unfoldable pub free_deque_iterator : Option Iterator → Memory → Memory
free_deque_iterator it m = Iterator.free_iterator it m
