-- ===== src/LinkedList/Iterator.antt =====
-- The iterator of src/linkedlist.c. It holds the list's address and a node pointer, which is the chain
-- from that node on; a call takes what the list is at that moment. The chain is read only while the
-- list's version is the one that the iterator was created at.
pub mod Walk
use cdsa.Base.{ℕ, Bool, true, false, not, Option, none, some, List, [], ◌∷◌, ◌==◌, if◌then◌else◌}
use cdsa.Error.{Status, ok, not_found, invalid, iter_invalidated}
use cdsa.Allocator.{Memory, Pointer, malloc_track, free_track}
use cdsa.LinkedList.{Node, LinkedList}

pub record Iterator {ℓ} (A : Type ℓ) : Type ℓ where
  pub handle : Pointer
  pub current_node : List (Node A)
  pub snapshot_version : ℕ

-- `sizeof(cdsa_linkedlist_iterator)`
abbrev pub sizeof_iterator : ℕ
sizeof_iterator = 24

module _ {ℓ} {A : Type ℓ} where
  abbrev started : LinkedList A → Option Pointer × Memory → Option (Iterator A) × Memory
  started l (none, m) = (none, m)
  started l (some p, m) =
      (some (record { handle = p; current_node = l.head; snapshot_version = l.version }), m)

  unfoldable pub create_iterator : Option (LinkedList A) → Memory → Option (Iterator A) × Memory
  create_iterator none m = (none, m)
  create_iterator (some l) m = started l (malloc_track sizeof_iterator m)

  unfoldable pub has_next : Option (Iterator A) → LinkedList A → Bool
  has_next none l = false
  has_next (some it) l =
      if not (l.version == it.snapshot_version)
      then false
      else elim it.current_node [ [] ↦ false | n ∷ rest ↦ true ]

  abbrev pub advanced : Iterator A → List (Node A) → Status × Option A × Option (Iterator A)
  advanced it [] = (not_found, none, some it)
  advanced it (n ∷ rest) = (ok, some n.value, some (record it { current_node = rest }))

  -- `wants_value` is whether `out_value` is not NULL; the option is the payload that is yielded. The
  -- guard `has_next` fails, with the versions equal, exactly at the end of the chain.
  unfoldable pub next :
      Option (Iterator A) → LinkedList A → Bool → Status × Option A × Option (Iterator A)
  unfolding has_next
  next none l wants_value = (invalid, none, none)
  next (some it) l false = (invalid, none, some it)
  next (some it) l true =
      if not (l.version == it.snapshot_version)
      then (iter_invalidated, none, some it)
      else if not (has_next (some it) l)
      then (not_found, none, some it)
      else advanced it it.current_node

  unfoldable pub free_iterator : Option (Iterator A) → Memory → Memory
  free_iterator none m = m
  free_iterator (some it) m = free_track (some it.handle) m
