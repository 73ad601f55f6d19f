-- ===== src/LinkedList.antt =====
-- src/linkedlist.c: the singly linked list. The chain behind a node pointer is the list of the nodes
-- that it leads through; NULL is the empty chain. Each node owns the block of its payload.
pub mod Chain
pub mod Life
pub mod Iterator
mod Tests
use cdsa.Base.{ℕ, ◌+◌, Bool, true, Option, none, some, List, [], ◌∷◌, add_size, sub_size, ◌==◌}
use cdsa.Error.{Status, ok, oom, invalid, empty}
use cdsa.Allocator.{Memory, Pointer, malloc_track, free_track}

pub record Node {ℓ} (A : Type ℓ) : Type ℓ where
  pub node : Pointer
  pub payload : Pointer
  pub value : A

-- `struct cdsa_linkedlist`
pub record LinkedList {ℓ} (A : Type ℓ) : Type ℓ where
  pub handle : Pointer
  pub head : List (Node A)
  pub size : ℕ
  pub elem_size : ℕ
  pub version : ℕ

-- `sizeof(Node)` and `sizeof(cdsa_linkedlist)`
abbrev pub sizeof_node : ℕ
sizeof_node = 16

abbrev pub sizeof_linkedlist : ℕ
sizeof_linkedlist = 32

module _ {ℓ} {A : Type ℓ} where
  abbrev pub made : ℕ → Option Pointer × Memory → Option (LinkedList A) × Memory
  made elem_size (none, m) = (none, m)
  made elem_size (some p, m) =
      (some (record { handle = p; head = []; size = 0; elem_size = elem_size; version = 0 }), m)

  unfoldable pub create_linkedlist : ℕ → Memory → Option (LinkedList A) × Memory
  create_linkedlist elem_size m = made elem_size (malloc_track sizeof_linkedlist m)

  unfoldable pub size_linkedlist : Option (LinkedList A) → ℕ
  size_linkedlist none = 0
  size_linkedlist (some l) = l.size

  unfoldable pub is_empty_linkedlist : Option (LinkedList A) → Bool
  is_empty_linkedlist none = true
  is_empty_linkedlist (some l) = l.size == 0

  -- The loop that `free` and `clear` share: the payload first, then the node.
  unfoldable pub free_chain : List (Node A) → Memory → Memory
  free_chain [] m = m
  free_chain (n ∷ rest) m =
      free_chain rest (free_track (some n.node) (free_track (some n.payload) m))

  unfoldable pub free_linkedlist : Option (LinkedList A) → Memory → Memory
  free_linkedlist none m = m
  free_linkedlist (some l) m = free_track (some l.handle) (free_chain l.head m)

  -- The new node, linked in front.
  abbrev pub linked : LinkedList A → A → Pointer → Pointer → LinkedList A
  linked l x n d = record l {
    head = record { node = n; payload = d; value = x } ∷ l.head;
    size = add_size l.size 1;
    version = add_size l.version 1;
  }

  abbrev pub with_payload :
      LinkedList A → A → Pointer → Option Pointer × Memory → Status × Option (LinkedList A) × Memory
  with_payload l x n (none, m) = (oom, some l, free_track (some n) m)
  with_payload l x n (some d, m) = (ok, some (linked l x n d), m)

  abbrev pub with_node :
      LinkedList A → A → Option Pointer × Memory → Status × Option (LinkedList A) × Memory
  with_node l x (none, m) = (oom, some l, m)
  with_node l x (some n, m) = with_payload l x n (malloc_track l.elem_size m)

  unfoldable pub push_front_linkedlist :
      Option (LinkedList A) → Option A → Memory → Status × Option (LinkedList A) × Memory
  push_front_linkedlist none value m = (invalid, none, m)
  push_front_linkedlist (some l) none m = (invalid, some l, m)
  push_front_linkedlist (some l) (some x) m = with_node l x (malloc_track sizeof_node m)

  abbrev pub unlinked :
      LinkedList A → List (Node A) → Memory → Status × Option (LinkedList A) × Memory
  unlinked l [] m = (empty, some l, m)
  unlinked l (old ∷ rest) m = (
    ok,
    some (record l { head = rest; size = sub_size l.size 1; version = add_size l.version 1 }),
    free_track (some old.node) (free_track (some old.payload) m),
  )

  unfoldable pub pop_front_linkedlist :
      Option (LinkedList A) → Memory → Status × Option (LinkedList A) × Memory
  pop_front_linkedlist none m = (invalid, none, m)
  pop_front_linkedlist (some l) m = unlinked l l.head m

  unfoldable pub clear_linkedlist : Option (LinkedList A) → Memory → Option (LinkedList A) × Memory
  clear_linkedlist none m = (none, m)
  clear_linkedlist (some l) m =
      (some (record l { head = []; size = 0; version = add_size l.version 1 }), free_chain l.head m)

  -- The payload that the returned pointer leads to.
  unfoldable pub front_linkedlist : Option (LinkedList A) → Option A
  front_linkedlist none = none
  front_linkedlist (some l) = elim l.head [ [] ↦ none | n ∷ rest ↦ some n.value ]
