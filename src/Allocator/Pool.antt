-- ===== src/Allocator/Pool.antt =====
-- The fixed-size block pool of src/allocator.c: `kpool_create`, `kpool_alloc`, `kpool_free` and
-- `kpool_destroy`. A block is named by its index in the slab; `links` holds the `next` word of
-- each block, which is meaningful while the block is free.
pub mod FreeList
pub mod Ownership
use cdsa.Base.{
  ℕ, zero, suc, ◌+◌, ◌-◌, ◌/◌, ◌%◌, Option, none, some, List, Bool, ◌||◌, set, replicate, cell,
  add_size, mul_size, sub_size, ltb, ◌==◌, if◌then◌else◌,
}
use cdsa.Allocator.{Memory, Pointer, malloc_track, free_track}

pub record Pool : Type 0 where
  pub handle : Pointer
  pub slab : Pointer
  pub block_size : ℕ
  pub capacity : ℕ
  pub links : List (Option ℕ)
  pub free_list : Option ℕ

-- `sizeof(kpool_node)` and `sizeof(kpool)`
abbrev pub sizeof_node : ℕ
sizeof_node = 8

abbrev pub sizeof_pool : ℕ
sizeof_pool = 32

-- The padding of the block size: room for a link, and a multiple of 8.
unfoldable pub padded : ℕ → ℕ
padded block_size =
    let roomy = if ltb block_size sizeof_node then sizeof_node else block_size in
    if roomy % 8 == 0 then roomy else add_size roomy (8 - roomy % 8)

-- The wiring loop from chunk `i`, with `n` rounds left, and the NULL behind it.
unfoldable pub wire : ℕ → ℕ → List (Option ℕ) → List (Option ℕ)
wire zero i links = set links i none
wire (suc n) i links = wire n (i + 1) (set links i (some (i + 1)))

-- How many whole blocks the slab has room for.
abbrev pub blocks : ℕ → ℕ → ℕ
blocks block_size capacity = mul_size block_size capacity / block_size

abbrev pub wired : ℕ → ℕ → Pointer → Pointer → Pool
wired block_size capacity p s = record {
  handle = p;
  slab = s;
  block_size = block_size;
  capacity = capacity;
  links = wire (capacity - 1) 0 (replicate (blocks block_size capacity) none);
  free_list = some 0;
}

abbrev pub with_slab : ℕ → ℕ → Pointer → Option Pointer × Memory → Option Pool × Memory
with_slab block_size capacity p (none, m) = (none, free_track (some p) (free_track none m))
with_slab block_size capacity p (some s, m) = (some (wired block_size capacity p s), m)

abbrev pub with_handle : ℕ → ℕ → Option Pointer × Memory → Option Pool × Memory
with_handle block_size capacity (none, m) = (none, m)
with_handle block_size capacity (some p, m) =
    with_slab block_size capacity p (malloc_track (mul_size block_size capacity) m)

unfoldable pub pool_create : ℕ → ℕ → Memory → Option Pool × Memory
unfolding wire padded malloc_track free_track
pool_create block_size capacity m =
    if block_size == 0 || capacity == 0
    then (none, m)
    else with_handle (padded block_size) capacity (malloc_track sizeof_pool m)

abbrev popped : Pool → Option ℕ → Option ℕ × Pool
popped pool none = (none, pool)
popped pool (some node) = (some node, record pool { free_list = cell pool.links node })

-- The pointer that is returned, and the pool after the call.
unfoldable pub pool_alloc : Option Pool → Option ℕ × Option Pool
pool_alloc none = (none, none)
pool_alloc (some pool) = let (p, pool') = popped pool pool.free_list in (p, some pool')

unfoldable pub pool_free : Option Pool → Option ℕ → Option Pool
pool_free none ptr = none
pool_free (some pool) none = some pool
pool_free (some pool) (some node) =
    some (record pool { links = set pool.links node pool.free_list; free_list = some node })

-- The slab of a pool that exists is not NULL.
unfoldable pub pool_destroy : Option Pool → Memory → Memory
unfolding free_track
pool_destroy none m = m
pool_destroy (some pool) m = free_track (some pool.handle) (free_track (some pool.slab) m)
