-- ===== src/RingBuffer/Tests.antt =====
-- Runs of the ring buffer, and its theorems at concrete inputs.
use cdsa.Base.{◌^◌, true, false, ℕ, ◌≡◌, ◌<◌, refl, none, some, List, [], ◌∷◌, length, arith}
use cdsa.Error.{ok, iter_invalidated}
use cdsa.Allocator.{Memory, malloc_track}
use cdsa.Allocator.Samples.{serving, block}
use cdsa.BoundedDeque.{Op, push_front, push_back, pop_front, pop_back, replies}
use cdsa.RingBuffer.{RingBuffer, created, create_ringbuffer, push_back_ringbuffer, free_ringbuffer}
use cdsa.RingBuffer.Inv.{IsValid}
use cdsa.RingBuffer.Refine.{apply, run, run_refines}
use cdsa.RingBuffer.Life.{after, create_ringbuffer-overflow, free_ringbuffer_restores}
use cdsa.RingBuffer.Iterator.{Iterator, create_iterator, has_next, next}
use cdsa.RingBuffer.Iterator.Walk.{walk, walk_ringbuffer, next_ringbuffer-invalidated}

abbrev blank : RingBuffer ℕ
blank = created 3 4 (block 56) (record { addr = 8200; size = 12 })

abbrev after_create : Memory
after_create = record serving { used = 68; calls = 2 }

created_blank : create_ringbuffer 3 4 serving ≡ (some blank, after_create)
unfolding create_ringbuffer malloc_track
created_blank = refl

-- A buffer whose two elements go round the end of the storage.
abbrev bent : RingBuffer ℕ
bent = record blank {
  cells = some 8 ∷ none ∷ some 7 ∷ [];
  head = 2;
  tail = 1;
  size = 2;
  version = 4;
}

bent-IsValid : IsValid bent
bent-IsValid = record {
  some_bytes = omega arith;
  some_room = omega arith;
  no_overflow = omega arith;
  roomy = omega arith;
  bytes = refl;
  stored = refl;
  head_in = omega arith;
  within = omega arith;
  linked = refl;
}

abbrev moves : List (Op ℕ)
moves = push_back 9 ∷ push_front 1 ∷ pop_back ∷ push_front 2 ∷ pop_front ∷ []

run_refines_example : run moves bent ≡ replies 3 moves (some 7 ∷ some 8 ∷ [])
run_refines_example = run_refines moves bent bent-IsValid

-- 2 ^ 62 elements of 4 bytes: the product is 0.
abbrev huge : RingBuffer ℕ
huge = record (created 4 4 (block 56) (record { addr = 8200; size = 0 })) { capacity = 2 ^ 62 }

created_huge :
    create_ringbuffer (2 ^ 62) 4 serving ≡ (some huge, record serving { used = 56; calls = 2 })
unfolding create_ringbuffer malloc_track
created_huge = refl

create_ringbuffer-overflow_example :
    (rb : RingBuffer ℕ) × (create_ringbuffer (2 ^ 62) 4 serving
      ≡ (some rb, record serving { used = 56; calls = 2 }))
    × (rb.capacity ≡ 2 ^ 62)
    × (length rb.cells < 2 ^ 62)
unfolding malloc_track
create_ringbuffer-overflow_example =
    create_ringbuffer-overflow (2 ^ 62) 4 serving (record serving { used = 56; calls = 1 })
      (record serving { used = 56; calls = 2 }) (block 56) (record { addr = 8200; size = 0 })
      (omega arith) (omega arith) refl refl

free_ringbuffer_restores_example :
    (free_ringbuffer (some (after moves blank)) after_create).used ≡ 0
free_ringbuffer_restores_example =
    free_ringbuffer_restores 3 4 serving after_create moves (omega arith) created_blank

abbrev start : Iterator
start = record { handle = block 24; progress = 0; snapshot_version = 4 }

started :
    create_iterator (some bent) serving ≡ (some start, record serving { used = 24; calls = 1 })
unfolding create_iterator malloc_track
started = refl

walk_ringbuffer_example : walk 3 bent start ≡ some 7 ∷ some 8 ∷ []
walk_ringbuffer_example =
    walk_ringbuffer bent serving (record serving { used = 24; calls = 1 }) bent-IsValid started

abbrev brim : RingBuffer ℕ
brim = record bent { cells = some 8 ∷ some 9 ∷ some 7 ∷ []; tail = 2; size = 3; version = 5 }

bent_pushed : apply (push_back 9) bent ≡ (ok, some brim)
unfolding apply push_back_ringbuffer
bent_pushed = refl

next_ringbuffer-invalidated_example :
    (has_next (some start) brim ≡ false)
    × (next (some start) brim true ≡ (iter_invalidated, none, some start))
next_ringbuffer-invalidated_example =
    next_ringbuffer-invalidated (push_back 9) bent brim start refl (omega arith) bent_pushed
