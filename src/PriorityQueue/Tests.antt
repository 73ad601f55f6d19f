-- ===== src/PriorityQueue/Tests.antt =====
-- Runs of the priority queue, and its theorems at concrete inputs.
use mathlib.Core.List.{Perm}
use cdsa.Base.{
  ℕ, zero, suc, ◌+◌, ◌<◌, ◌≡◌, refl, none, some, [], ◌∷◌, ltb, ◌*◌, ◌⊎◌, inl, inr, true, arith,
}
use cdsa.Allocator.Samples.{serving, refusing, block}
use cdsa.Vector.{Vector}
use cdsa.PriorityQueue.{PriorityQueue, push_pq, pop_pq}
use cdsa.PriorityQueue.Cells.{Filled}
use cdsa.PriorityQueue.Order.{Ranks, key, IsHeap}
use cdsa.PriorityQueue.Push.{PushedOn, push_pq-PushedOn}
use cdsa.PriorityQueue.Pop.{PoppedOff, pop_pq-PoppedOff}
use cdsa.PriorityQueue.Drain.{drain, IsSorted, drain_sorts}

-- 2 above 5 and 3, in four cells; the lower number comes first.
abbrev items : Vector ℕ
items = record {
  handle = block 40;
  storage = record { addr = 8200; size = 16 };
  cells = some 2 ∷ some 5 ∷ some 3 ∷ none ∷ [];
  size = 3;
  capacity = 4;
  elem_size = 4;
  version = 3;
}

abbrev tasks : PriorityQueue ℕ
tasks = record { handle = block 24; items = some items; elem_size = 4; cmp = ltb }

abbrev itself : ℕ → ℕ
itself x = x

itself-Ranks : Ranks itself ltb
itself-Ranks = λ x y. refl

items-Filled : Filled items (2 ∷ 5 ∷ 3 ∷ [])
items-Filled = record {
  valid = record {
    some_bytes = omega arith;
    some_room = omega arith;
    no_overflow = omega arith;
    bytes = refl;
    stored = refl;
    within = omega arith;
  };
  holds = refl;
}

items-IsHeap : IsHeap itself (2 ∷ 5 ∷ 3 ∷ [])
unfolding key
items-IsHeap zero p q = absurd (omega arith)
items-IsHeap (suc c) p q = elim (below c (omega arith)) [
  | inl e ↦ rw e (omega arith)
  | inr e ↦ rw e (omega arith)
]
  where
    below : (c : ℕ) → c < 2 → (c ≡ 0) ⊎ (c ≡ 1)
    below c h = omega arith

push_pq-PushedOn_example :
    PushedOn itself tasks 1 (2 ∷ 5 ∷ 3 ∷ []) (push_pq (some tasks) (some 1) serving)
push_pq-PushedOn_example =
    push_pq-PushedOn itself tasks items (2 ∷ 5 ∷ 3 ∷ []) 1 serving itself-Ranks refl items-Filled
      items-IsHeap (omega arith)

pop_pq-PoppedOff_example :
    PoppedOff itself tasks (2 ∷ 5 ∷ 3 ∷ []) refusing (pop_pq (some tasks) true refusing)
pop_pq-PoppedOff_example =
    pop_pq-PoppedOff itself tasks items (2 ∷ 5 ∷ 3 ∷ []) refusing itself-Ranks refl items-Filled
      items-IsHeap (omega arith) (omega arith)

drain_sorts_example :
    IsSorted itself (drain 3 tasks serving) × Perm (drain 3 tasks serving) (2 ∷ 5 ∷ 3 ∷ [])
drain_sorts_example =
    drain_sorts itself 3 tasks items (2 ∷ 5 ∷ 3 ∷ []) serving itself-Ranks refl items-Filled
      items-IsHeap (omega arith) (λ n size. (4096 * (n + 1), refl)) refl
