-- ===== src/Allocator/Samples.antt =====
-- Memories and pointers that the tests share.
use cdsa.Base.{ℕ, ◌+◌, ◌*◌, some, none}
use cdsa.Allocator.{Memory, Pointer}

-- The C library serves every request, at 4096, 8192 and so on.
abbrev pub serving : Memory
serving = record { used = 0; calls = 0; libc = λ n size. some (4096 * (n + 1)) }

-- The C library refuses every request.
abbrev pub refusing : Memory
refusing = record { used = 1000; calls = 7; libc = λ n size. none }

abbrev pub block : ℕ → Pointer
block size = record { addr = 4104; size = size }
