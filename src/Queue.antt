-- ===== src/Queue.antt =====
-- src/queue.c: the queue on top of the ring buffer.
pub mod Fifo
mod Tests
use cdsa.Base.{ℕ, Bool, true, false, Option, none, some}
use cdsa.Error.{Status, invalid}
use cdsa.Allocator.{Memory, Pointer, malloc_track, free_track}
use cdsa.RingBuffer.{
  RingBuffer, create_ringbuffer, free_ringbuffer, size_ringbuffer, is_empty_ringbuffer,
  is_full_ringbuffer, push_back_ringbuffer, push_front_ringbuffer, pop_front_ringbuffer,
  pop_back_ringbuffer, front_ringbuffer, back_ringbuffer,
}
use cdsa.RingBuffer.Iterator
use cdsa.RingBuffer.Iterator.{Iterator}

-- `struct cdsa_queue`; the buffer behind it is what `rb` points to.
pub record Queue {ℓ} (A : Type ℓ) : Type ℓ where
  pub handle : Pointer
  pub rb : Option (RingBuffer A)

-- `sizeof(cdsa_queue)`
abbrev pub sizeof_queue : ℕ
sizeof_queue = 8

module _ {ℓ} {A : Type ℓ} where
  abbrev pub with_buffer : Pointer → Option (RingBuffer A) × Memory → Option (Queue A) × Memory
  with_buffer p (none, m) = (none, free_track (some p) m)
  with_buffer p (some rb, m) = (some (record { handle = p; rb = some rb }), m)

  abbrev pub with_handle : ℕ → ℕ → Option Pointer × Memory → Option (Queue A) × Memory
  with_handle capacity elem_size (none, m) = (none, m)
  with_handle capacity elem_size (some p, m) =
      with_buffer p (create_ringbuffer capacity elem_size m)

  unfoldable pub create_queue : ℕ → ℕ → Memory → Option (Queue A) × Memory
  create_queue capacity elem_size m = with_handle capacity elem_size (malloc_track sizeof_queue m)

  unfoldable pub free_queue : Option (Queue A) → Memory → Memory
  free_queue none m = m
  free_queue (some q) m = free_track (some q.handle) (free_ringbuffer q.rb m)

  -- The status of a call on the buffer, and the queue with the buffer that it leaves.
  abbrev pub routed : Queue A → Status × Option (RingBuffer A) → Status × Option (Queue A)
  routed q (status, rb) = (status, some (record q { rb = rb }))

  unfoldable pub enqueue : Option (Queue A) → Option A → Status × Option (Queue A)
  enqueue none elem = (invalid, none)
  enqueue (some q) none = (invalid, some q)
  enqueue (some q) (some x) = routed q (push_back_ringbuffer q.rb (some x))

  unfoldable pub dequeue : Option (Queue A) → Status × Option (Queue A)
  dequeue none = (invalid, none)
  dequeue (some q) = routed q (pop_front_ringbuffer q.rb)

  unfoldable pub front_queue : Option (Queue A) → Option ℕ
  front_queue none = none
  front_queue (some q) = front_ringbuffer q.rb

  unfoldable pub size_queue : Option (Queue A) → ℕ
  size_queue none = 0
  size_queue (some q) = size_ringbuffer q.rb

  unfoldable pub is_empty_queue : Option (Queue A) → Bool
  is_empty_queue none = true
  is_empty_queue (some q) = is_empty_ringbuffer q.rb

  unfoldable pub is_full_queue : Option (Queue A) → Bool
  is_full_queue none = false
  is_full_queue (some q) = is_full_ringbuffer q.rb

  -- The iterator is the buffer's; the other three calls cast to it and go on to the buffer's.
  unfoldable pub create_queue_iterator : Option (Queue A) → Memory → Option Iterator × Memory
  create_queue_iterator none m = (none, m)
  create_queue_iterator (some q) m = Iterator.create_iterator q.rb m

  unfoldable pub has_next_queue : Option Iterator → RingBuffer A → Bool
  has_next_queue it rb = Iterator.has_next it rb

  unfoldable pub next_queue :
      Option Iterator → RingBuffer A → Bool → Status × Option ℕ × Option Iterator
  next_queue it rb wants_value = Iterator.next it rb wants_value

unfoldable pub free_queue_iterator : Option Iterator → Memory → Memory
free_queue_iterator it m = Iterator.free_iterator it m
