-- ===== src/Allocator.antt =====
-- The tracking allocator of src/allocator.c: `cdsa_malloc_track` and its companions, with the
-- telemetry counter `cdsa_global_memory_used`. The C library's `malloc` and `realloc` are a
-- parameter: what they answer to the n-th request of so many bytes, an address or NULL.
pub mod Telemetry
pub mod Pool
pub mod Arena
pub mod Samples
mod Tests
use cdsa.Base.{ℕ, ◌+◌, ◌≡◌, Option, none, some, add_size, mul_size, sub_size, ◌==◌, if◌then◌else◌}

pub record Memory : Type 0 where
  -- `cdsa_global_memory_used`
  pub used : ℕ
  -- how many requests the C library has had
  pub calls : ℕ
  pub libc : ℕ → ℕ → Option ℕ

-- A user pointer: its address, and the size in the hidden header in front of it.
pub record Pointer : Type 0 where
  pub addr : ℕ
  pub size : ℕ

-- `sizeof(size_t)`
abbrev pub word : ℕ
word = 8

abbrev served : ℕ → Option ℕ → Memory → Option Pointer × Memory
served size none m = (none, record m { calls = m.calls + 1 })
served size (some a) m = (
  some (record { addr = add_size a word; size = size }),
  record m { used = add_size m.used size; calls = m.calls + 1 },
)

unfoldable pub malloc_track : ℕ → Memory → Option Pointer × Memory
malloc_track size m = served size (m.libc m.calls (add_size size word)) m

unfoldable pub free_track : Option Pointer → Memory → Memory
free_track none m = m
free_track (some p) m = record m { used = sub_size m.used p.size }

-- The zeroed contents are set where the client's record is made.
unfoldable pub calloc_track : ℕ → ℕ → Memory → Option Pointer × Memory
unfolding malloc_track
calloc_track count size m = malloc_track (mul_size count size) m

abbrev resized : ℕ → ℕ → Option ℕ → Memory → Option Pointer × Memory
resized old new none m = (none, record m { calls = m.calls + 1 })
resized old new (some a) m = (
  some (record { addr = add_size a word; size = new }),
  record m { used = add_size (sub_size m.used old) new; calls = m.calls + 1 },
)

unfoldable pub realloc_track : Option Pointer → ℕ → Memory → Option Pointer × Memory
unfolding malloc_track free_track
realloc_track none new_size m = malloc_track new_size m
realloc_track (some p) new_size m =
    if new_size == 0
    then (none, free_track (some p) m)
    else resized p.size new_size (m.libc m.calls (add_size new_size word)) m
