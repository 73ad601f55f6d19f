-- ===== src/LinkedList/Tests.antt =====
-- Runs of the linked list, and its theorems at concrete inputs.
use cdsa.Base.{ℕ, ◌≡◌, refl, some, List, [], ◌∷◌, arith}
use cdsa.Allocator.{Memory, malloc_track}
use cdsa.Allocator.Samples.{serving, block}
use cdsa.LinkedList.{
  Node, LinkedList, create_linkedlist, push_front_linkedlist, pop_front_linkedlist, free_linkedlist,
}
use cdsa.LinkedList.Chain.{
  IsCounted, PushedFront, PoppedFront, push_front-PushedFront, pop_front-PoppedFront,
}
use cdsa.LinkedList.Life.{Call, push, pop, clear, run, free_linkedlist_restores}
use cdsa.LinkedList.Iterator.{Iterator, create_iterator}
use cdsa.LinkedList.Iterator.Walk.{walk, walk_linkedlist}

abbrev node_of : ℕ → Node ℕ
node_of x = record { node = block 16; payload = block 4; value = x }

abbrev chain : LinkedList ℕ
chain = record {
  handle = block 32;
  head = node_of 7 ∷ node_of 8 ∷ [];
  size = 2;
  elem_size = 4;
  version = 2;
}

chain-IsCounted : IsCounted chain
chain-IsCounted = record { counted = refl }

push_front-PushedFront_example :
    PushedFront chain 5 (push_front_linkedlist (some chain) (some 5) serving)
push_front-PushedFront_example = push_front-PushedFront chain 5 serving chain-IsCounted

pop_front-PoppedFront_example :
    PoppedFront chain (7 ∷ 8 ∷ []) serving (pop_front_linkedlist (some chain) serving)
pop_front-PoppedFront_example = pop_front-PoppedFront chain serving chain-IsCounted

abbrev blank : LinkedList ℕ
blank = record { handle = block 32; head = []; size = 0; elem_size = 4; version = 0 }

abbrev after_create : Memory
after_create = record serving { used = 32; calls = 1 }

created_blank : create_linkedlist 4 serving ≡ (some blank, after_create)
unfolding create_linkedlist malloc_track
created_blank = refl

abbrev calls : List (Call ℕ)
calls = push 1 ∷ push 2 ∷ pop ∷ push 3 ∷ clear ∷ push 4 ∷ []

free_linkedlist_restores_example :
    let (l, m) = run calls blank after_create in (free_linkedlist l m).used ≡ 0
free_linkedlist_restores_example =
    free_linkedlist_restores 4 serving after_create calls (omega arith) (omega arith) created_blank

abbrev start : Iterator ℕ
start = record { handle = block 24; current_node = chain.head; snapshot_version = 2 }

started :
    create_iterator (some chain) serving ≡ (some start, record serving { used = 24; calls = 1 })
unfolding create_iterator malloc_track
started = refl

walk_linkedlist_example : walk 3 chain start ≡ 7 ∷ 8 ∷ []
walk_linkedlist_example =
    walk_linkedlist chain serving (record serving { used = 24; calls = 1 }) started
