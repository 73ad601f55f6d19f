-- ===== src/Deque/Tests.antt =====
-- The deque's theorem at a concrete input.
use cdsa.Base.{ℕ, ◌≡◌, refl, none, some, List, [], ◌∷◌, arith}
use cdsa.Allocator.Samples.{block}
use cdsa.BoundedDeque.{Op, push_front, push_back, pop_front, pop_back, replies}
use cdsa.RingBuffer.{RingBuffer}
use cdsa.RingBuffer.Inv.{IsValid}
use cdsa.Deque.{Deque}
use cdsa.Deque.Ends.{run, run_deque_refines}

-- Two elements that go round the end of three cells.
abbrev buffer : RingBuffer ℕ
buffer = record {
  handle = block 56;
  storage = record { addr = 8200; size = 12 };
  cells = some 8 ∷ none ∷ some 7 ∷ [];
  head = 2;
  tail = 1;
  size = 2;
  capacity = 3;
  elem_size = 4;
  version = 4;
}

buffer-IsValid : IsValid buffer
buffer-IsValid = record {
  some_bytes = omega arith;
  some_room = omega arith;
  no_overflow = omega arith;
  roomy = omega arith;
  bytes = refl;
  stored = refl;
  head_in = omega arith;
  within = omega arith;
  linked = refl;
}

abbrev both_ends : Deque ℕ
both_ends = record { handle = block 8; rb = some buffer }

abbrev moves : List (Op ℕ)
moves = push_front 1 ∷ push_back 9 ∷ pop_back ∷ pop_front ∷ pop_front ∷ pop_front ∷ []

run_deque_refines_example : run moves both_ends ≡ replies 3 moves (some 7 ∷ some 8 ∷ [])
run_deque_refines_example = run_deque_refines moves both_ends buffer refl buffer-IsValid
