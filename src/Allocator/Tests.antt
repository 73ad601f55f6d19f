-- ===== src/Allocator/Tests.antt =====
-- Runs of the allocators, and their theorems at concrete inputs.
use cdsa.Base.{ℕ, ◌≡◌, ◌≢◌, ◌≤◌, ◌<◌, ◌*◌, ◌-◌, size_mod, refl, none, some, [], ◌∷◌, arith, length}
use mathlib.Core.List.{Mem, Nodup}
use cdsa.Allocator.{Memory, calloc_track, realloc_track}
use cdsa.Allocator.Samples.{serving, refusing, block}
use cdsa.Allocator.Telemetry.{Balanced, charge, realloc_track-Balanced}
use cdsa.Allocator.Pool.{Pool, pool_create, pool_alloc, padded}
use cdsa.Allocator.Pool.Ownership.{
  IsPool, Allocated, created, allocates, pool_alloc-Allocated, pool_create-IsShared, IsShared,
  live_blocks_distinct,
}
use cdsa.Allocator.Arena.{Arena, arena_alloc, align_forward, padding}
use cdsa.Allocator.Arena.Layout.{
  Serves, arena_alloc-Serves, allocate_all, IsLaidOut, allocate_all-IsLaidOut, arena_alloc-wraps,
}

calloc_example : (calloc_track 4 32 serving).1.used ≡ 128
unfolding calloc_track
calloc_example = refl

realloc_to_zero :
    realloc_track (some (block 1000)) 0 refusing ≡ (none, record refusing { used = 0 })
unfolding realloc_track
realloc_to_zero = refl

realloc_track-Balanced_example :
    let (q, m') = realloc_track (some (block 100)) 200 refusing in
    (q ≡ none → Balanced refusing 100 m' 100)
    × (q ≢ none → Balanced refusing 100 m' 200 × (charge q ≡ 200))
realloc_track-Balanced_example =
    realloc_track-Balanced (some (block 100)) 200 refusing (omega arith) (omega arith)

-- A pool of three blocks for 12 bytes, as it is created.
abbrev trio : Pool
trio = record {
  handle = record { addr = 4104; size = 32 };
  slab = record { addr = 8200; size = 48 };
  block_size = 16;
  capacity = 3;
  links = some 1 ∷ some 2 ∷ none ∷ [];
  free_list = some 0;
}

abbrev after_create : Memory
after_create = record serving { used = 80; calls = 2 }

trio_created : pool_create 12 3 serving ≡ (some trio, after_create)
unfolding pool_create
trio_created = refl

trio_small : padded 12 * 3 < size_mod
unfolding padded
trio_small = omega arith

abbrev duo : Pool
duo = record trio { free_list = some 1 }

duo_allocated : pool_alloc (some trio) ≡ (some 0, some duo)
unfolding pool_alloc
duo_allocated = refl

live_blocks_distinct_example :
    Nodup {A = ℕ} (0 ∷ [])
    × ((x : ℕ) → Mem {A = ℕ} x (0 ∷ []) → x < 3)
    × (length {A = ℕ} (0 ∷ []) ≤ 3)
live_blocks_distinct_example =
    live_blocks_distinct 12 3 serving after_create (omega arith) trio_small trio_created
      (allocates 0 created duo_allocated)

trio_shared : IsShared 3 trio []
trio_shared = pool_create-IsShared 12 3 serving after_create (omega arith) trio_small trio_created

trio-IsPool : IsPool trio trio_shared.0 []
trio-IsPool = trio_shared.1

pool_alloc-Allocated_example : Allocated trio trio_shared.0 []
pool_alloc-Allocated_example = pool_alloc-Allocated trio trio_shared.0 [] trio-IsPool

-- An arena of 64 bytes with 3 in use, and one with 8.
abbrev desk : Arena
desk = record { handle = block 24; buffer = block 64; capacity = 64; offset = 3 }

abbrev tidy : Arena
tidy = record desk { offset = 8 }

desk_served : arena_alloc (some desk) 10 ≡ (some 4112, some (record desk { offset = 18 }))
unfolding arena_alloc align_forward padding
desk_served = refl

arena_alloc-Serves_example : Serves desk 10 (arena_alloc (some desk) 10)
arena_alloc-Serves_example = arena_alloc-Serves desk 10 (omega arith) (omega arith) (omega arith)

allocate_all-IsLaidOut_example : IsLaidOut 4107 4168 (allocate_all (10 ∷ 100 ∷ 24 ∷ []) desk)
allocate_all-IsLaidOut_example =
    allocate_all-IsLaidOut (10 ∷ 100 ∷ 24 ∷ []) desk (omega arith) (omega arith)

arena_alloc-wraps_example :
    arena_alloc (some tidy) (size_mod - 8) ≡ (some 4112, some (record tidy { offset = 0 }))
arena_alloc-wraps_example =
    arena_alloc-wraps tidy 8 (omega arith) (omega arith) (omega arith) (omega arith)
