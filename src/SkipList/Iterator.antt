-- ===== src/SkipList/Iterator.antt =====
-- The iterator of src/skiplist.c. It holds the list's address; a call takes what the list is at that
-- moment. `none` says that the call would have read a freed node.
use cdsa.Base.{ℕ, Bool, true, false, not, Option, none, some, ◌>>=◌, ◌==◌, if◌then◌else◌}
use cdsa.Text.{Key}
use cdsa.Error.{Status, ok, not_found, iter_invalidated}
use cdsa.Allocator.{Memory, Pointer, malloc_track, free_track}
use cdsa.SkipList.{SkipList, forward_at}

pub record Iterator : Type 0 where
  pub handle : Pointer
  pub current : Option ℕ
  pub snapshot_version : ℕ

-- `sizeof(cdsa_skiplist_iterator)`
abbrev pub sizeof_iterator : ℕ
sizeof_iterator = 24

abbrev pub started : Option ℕ → ℕ → Option Pointer × Memory → Option Iterator × Memory
started first version (none, m) = (none, m)
started first version (some p, m) =
    (some (record { handle = p; current = first; snapshot_version = version }), m)

unfoldable pub free_iterator : Option Iterator → Memory → Memory
free_iterator none m = m
free_iterator (some it) m = free_track (some it.handle) m

-- The status, what is written through the two out-pointers if they are not NULL, and the iterator.
abbrev pub Yield {ℓ} : Type ℓ → Type ℓ
Yield S = Status × Option S × Option Key × Option Iterator

module _ {ℓ} {S : Type ℓ} where
  unfoldable pub create_iterator : Option (SkipList S) → Memory → Option (Option Iterator × Memory)
  create_iterator none m = some (none, m)
  create_iterator (some sl) m = do
    first ← forward_at sl.nodes sl.header 0
    some (started first sl.version (malloc_track sizeof_iterator m))

  unfoldable pub has_next : Option Iterator → SkipList S → Bool
  has_next none sl = false
  has_next (some it) sl =
      if not (sl.version == it.snapshot_version)
      then false
      else elim it.current [ none ↦ false | some p ↦ true ]

  abbrev yielded : Iterator → SkipList S → Bool → Bool → ℕ → Option (Yield S)
  yielded it sl wants_score wants_value p = do
    n ← sl.nodes p
    next ← forward_at sl.nodes p 0
    some (
      ok,
      (if wants_score then some n.score else none),
      (if wants_value then some n.value else none),
      some (record it { current = next }),
    )

  unfoldable pub next : Option Iterator → SkipList S → Bool → Bool → Option (Yield S)
  next none sl wants_score wants_value = some (not_found, none, none, none)
  next (some it) sl wants_score wants_value = elim it.current [
    | none ↦ some (not_found, none, none, some it)
    | some p ↦
        if not (sl.version == it.snapshot_version)
        then some (iter_invalidated, none, none, some it)
        else yielded it sl wants_score wants_value p
  ]
