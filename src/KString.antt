-- ===== src/KString.antt =====
-- src/kstring.c: the growing byte string. A C string is the list of its bytes in front of the
-- terminator.
pub mod Append
mod Tests
use cdsa.Base.{
  ℕ, zero, suc, ◌+◌, Bool, true, Option, none, some, List, [], ◌∷◌, length, set, replicate,
  resize_cells, add_size, mul_size, ltb, ◌==◌, if◌then◌else◌,
}
use cdsa.Error.{Status, ok, oom, invalid}
use cdsa.Allocator.{Memory, Pointer, malloc_track, free_track, realloc_track}

-- `struct cdsa_kstring`. `cells` is what the bytes behind `data` hold; a write past them is lost.
pub record KString : Type 0 where
  pub handle : Pointer
  pub storage : Pointer
  pub cells : List (Option ℕ)
  pub size : ℕ
  pub capacity : ℕ

abbrev pub initial_capacity : ℕ
initial_capacity = 16

-- `sizeof(cdsa_kstring)`
abbrev pub sizeof_kstring : ℕ
sizeof_kstring = 24

abbrev pub created : Pointer → Pointer → KString
created p s = record {
  handle = p;
  storage = s;
  cells = set (replicate s.size none) 0 (some 0);
  size = 0;
  capacity = initial_capacity;
}

abbrev pub with_storage : Pointer → Option Pointer × Memory → Option KString × Memory
with_storage p (none, m) = (none, free_track (some p) m)
with_storage p (some s, m) = (some (created p s), m)

abbrev pub with_handle : Option Pointer × Memory → Option KString × Memory
with_handle (none, m) = (none, m)
with_handle (some p, m) = with_storage p (malloc_track initial_capacity m)

unfoldable pub create_kstring : Memory → Option KString × Memory
create_kstring m = with_handle (malloc_track sizeof_kstring m)

unfoldable pub free_kstring : Option KString → Memory → Memory
free_kstring none m = m
free_kstring (some s) m = free_track (some s.handle) (free_track (some s.storage) m)

unfoldable pub size_kstring : Option KString → ℕ
size_kstring none = 0
size_kstring (some s) = s.size

-- What the returned pointer leads to: the bytes of the storage.
unfoldable pub c_str_kstring : Option KString → Option (List (Option ℕ))
c_str_kstring none = none
c_str_kstring (some s) = some s.cells

unfoldable pub capacity_kstring : Option KString → ℕ
capacity_kstring none = 0
capacity_kstring (some s) = s.capacity

unfoldable pub is_empty_kstring : Option KString → Bool
is_empty_kstring none = true
is_empty_kstring (some s) = s.size == 0

unfoldable pub clear_kstring : Option KString → Option KString
clear_kstring none = none
clear_kstring (some s) = some (record s { size = 0; cells = set s.cells 0 (some 0) })

-- `memcpy` of the bytes of a text from an index on.
unfoldable pub copy_bytes : List ℕ → ℕ → List (Option ℕ) → List (Option ℕ)
copy_bytes [] i cells = cells
copy_bytes (b ∷ text) i cells = copy_bytes text (i + 1) (set cells i (some b))

-- `while (capacity < required) capacity *= 2;`, with fuel; `none` means that the fuel ran out.
unfoldable pub doubled_until : ℕ → ℕ → ℕ → Option ℕ
doubled_until zero required capacity = none
doubled_until (suc fuel) required capacity =
    let more = doubled_until fuel required (mul_size capacity 2) in
    if ltb capacity required then more else some capacity

-- 65 rounds double a capacity from 1 past every word.
abbrev pub rounds : ℕ
rounds = 65

-- The copy of the text, the new size, and the terminator.
unfoldable pub written : KString → List ℕ → KString
unfolding copy_bytes
written s text =
    let size = add_size s.size (length text) in
    record s { cells = set (copy_bytes text s.size s.cells) size (some 0); size = size }

abbrev pub reallocated :
    KString → ℕ → List ℕ → Option Pointer × Memory → Status × Option KString × Memory
reallocated s capacity text (none, m) = (oom, some (record s { capacity = capacity }), m)
reallocated s capacity text (some p, m) = (
  ok,
  some (
      written (record s { capacity = capacity; storage = p; cells = resize_cells p.size s.cells })
        text),
  m,
)

abbrev pub grown : KString → List ℕ → Memory → Option ℕ → Option (Status × Option KString × Memory)
grown s text m none = none
grown s text m (some capacity) =
    some (reallocated s capacity text (realloc_track (some s.storage) capacity m))

-- `none` means that the growth loop ran out of fuel.
unfoldable pub append_kstring :
    Option KString → Option (List ℕ) → Memory → Option (Status × Option KString × Memory)
append_kstring none text m = some (invalid, none, m)
append_kstring (some s) none m = some (invalid, some s, m)
append_kstring (some s) (some text) m =
    let required = add_size (add_size s.size (length text)) 1 in
    if ltb s.capacity required
    then grown s text m (doubled_until rounds required s.capacity)
    else some (ok, some (written s text), m)
