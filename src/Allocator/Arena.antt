-- ===== src/Allocator/Arena.antt =====
-- The linear arena of src/allocator.c: `arena_create`, `arena_alloc`, `arena_reset` and
-- `arena_destroy`.
pub mod Layout
use cdsa.Base.{
  ℕ, ◌-◌, ◌%◌, Option, none, some, List, [], ◌∷◌, add_size, sub_size, ltb, ◌==◌, if◌then◌else◌,
}
use cdsa.Allocator.{Memory, Pointer, malloc_track, free_track}

pub record Arena : Type 0 where
  pub handle : Pointer
  pub buffer : Pointer
  pub capacity : ℕ
  pub offset : ℕ

-- `sizeof(cdsa_arena)`
abbrev pub sizeof_arena : ℕ
sizeof_arena = 24

-- `ALIGN_FORWARD(x, 8)`: the mask `~7` clears the three low bits.
unfoldable pub align_forward : ℕ → ℕ
align_forward x = let raised = add_size x 7 in raised - raised % 8

abbrev with_buffer : ℕ → Pointer → Option Pointer × Memory → Option Arena × Memory
with_buffer capacity p (none, m) = (none, free_track (some p) m)
with_buffer capacity p (some b, m) =
    (some (record { handle = p; buffer = b; capacity = capacity; offset = 0 }), m)

abbrev with_handle : ℕ → Option Pointer × Memory → Option Arena × Memory
with_handle capacity (none, m) = (none, m)
with_handle capacity (some p, m) = with_buffer capacity p (malloc_track capacity m)

unfoldable pub arena_create : ℕ → Memory → Option Arena × Memory
unfolding malloc_track free_track
arena_create capacity m =
    if capacity == 0 then (none, m) else with_handle capacity (malloc_track sizeof_arena m)

-- The bytes in front of the next aligned address.
unfoldable pub padding : Arena → ℕ
unfolding align_forward
padding a =
    let current = add_size a.buffer.addr a.offset in sub_size (align_forward current) current

-- The address that is returned, and the arena after the call.
unfoldable pub arena_alloc : Option Arena → ℕ → Option ℕ × Option Arena
arena_alloc none size = (none, none)
arena_alloc (some a) size =
    if size == 0
    then (none, some a)
    else if ltb a.capacity (add_size (add_size a.offset (padding a)) size)
    then (none, some a)
    else (
      some (align_forward (add_size a.buffer.addr a.offset)),
      some (record a { offset = add_size a.offset (add_size (padding a) size) }),
    )

unfoldable pub arena_reset : Option Arena → Option Arena
arena_reset none = none
arena_reset (some a) = some (record a { offset = 0 })

unfoldable pub arena_destroy : Option Arena → Memory → Memory
unfolding free_track
arena_destroy none m = m
arena_destroy (some a) m = free_track (some a.handle) (free_track (some a.buffer) m)
