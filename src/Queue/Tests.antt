-- ===== src/Queue/Tests.antt =====
-- The queue's theorem at a concrete input.
use cdsa.Base.{ℕ, ◌≡◌, refl, none, some, [], ◌∷◌, arith}
use cdsa.Allocator.Samples.{block}
use cdsa.RingBuffer.{RingBuffer}
use cdsa.RingBuffer.Inv.{IsValid}
use cdsa.Queue.{Queue}
use cdsa.Queue.Fifo.{Holds, drain, enqueue_all, drain-enqueue_all}

-- One element, at the last of four cells.
abbrev buffer : RingBuffer ℕ
buffer = record {
  handle = block 56;
  storage = record { addr = 8200; size = 16 };
  cells = none ∷ none ∷ none ∷ some 7 ∷ [];
  head = 3;
  tail = 0;
  size = 1;
  capacity = 4;
  elem_size = 4;
  version = 9;
}

buffer-IsValid : IsValid buffer
buffer-IsValid = record {
  some_bytes = omega arith;
  some_room = omega arith;
  no_overflow = omega arith;
  roomy = omega arith;
  bytes = refl;
  stored = refl;
  head_in = omega arith;
  within = omega arith;
  linked = refl;
}

abbrev line : Queue ℕ
line = record { handle = block 8; rb = some buffer }

line-Holds : Holds 4 (some 7 ∷ []) line
line-Holds = (buffer, refl, buffer-IsValid, refl, refl)

drain-enqueue_all_example :
    drain 4 (enqueue_all (1 ∷ 2 ∷ 3 ∷ []) line) ≡ some 7 ∷ some 1 ∷ some 2 ∷ some 3 ∷ []
drain-enqueue_all_example =
    drain-enqueue_all 4 (some 7 ∷ []) (1 ∷ 2 ∷ 3 ∷ []) line line-Holds (omega arith)
