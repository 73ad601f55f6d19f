-- ===== src/Art/Slab.antt =====
-- The slab of src/art.c: a pool for each kind of node.
use cdsa.Base.{ℕ, Option, none, some, Bool, true, false, ◌||◌, length, add_size, if◌then◌else◌}
use cdsa.Text.{Key}
use cdsa.Allocator.{Memory, Pointer, malloc_track, free_track}
use cdsa.Allocator.Pool.{Pool, pool_create, pool_alloc, pool_free, pool_destroy}
use cdsa.Art.{Leaf}

-- `cdsa_art_slab`
pub record Slab : Type 0 where
  pub handle : Pointer
  pub pool_node4 : Option Pool
  pub pool_node16 : Option Pool
  pub pool_node48 : Option Pool
  pub pool_node256 : Option Pool
  pub pool_leaf : Option Pool

-- The `sizeof` of the structs.
abbrev pub sizeof_slab : ℕ
sizeof_slab = 40

abbrev pub sizeof_node4 : ℕ
sizeof_node4 = 64

abbrev pub sizeof_node16 : ℕ
sizeof_node16 = 168

abbrev pub sizeof_node48 : ℕ
sizeof_node48 = 672

abbrev pub sizeof_node256 : ℕ
sizeof_node256 = 2080

abbrev pub sizeof_leaf : ℕ
sizeof_leaf = 40

unfoldable pub art_slab_destroy : Option Slab → Memory → Memory
art_slab_destroy none m = m
art_slab_destroy (some s) m = free_track (some s.handle) (
    pool_destroy s.pool_leaf (
      pool_destroy s.pool_node256
        (pool_destroy s.pool_node48 (pool_destroy s.pool_node16 (pool_destroy s.pool_node4 m)))))

abbrev is_null {ℓ} : {A : Type ℓ} → Option A → Bool
is_null none = true
is_null (some a) = false

-- Without one of the pools those that are there are given back.
abbrev all_or_none : Slab → Memory → Option Slab × Memory
all_or_none s m =
    if is_null s.pool_node4
      || is_null s.pool_node16
      || is_null s.pool_node48
      || is_null s.pool_node256
      || is_null s.pool_leaf
    then (none, art_slab_destroy (some s) m)
    else (some s, m)

abbrev with_handle : ℕ → Option Pointer × Memory → Option Slab × Memory
with_handle nodes_per_tier (none, m) = (none, m)
with_handle nodes_per_tier (some p, m) =
    let (pool_node4, m₁) = pool_create sizeof_node4 nodes_per_tier m in
    let (pool_node16, m₂) = pool_create sizeof_node16 nodes_per_tier m₁ in
    let (pool_node48, m₃) = pool_create sizeof_node48 nodes_per_tier m₂ in
    let (pool_node256, m₄) = pool_create sizeof_node256 nodes_per_tier m₃ in
    let (pool_leaf, m₅) = pool_create sizeof_leaf nodes_per_tier m₄ in
    all_or_none
      (record {
        handle = p;
        pool_node4 = pool_node4;
        pool_node16 = pool_node16;
        pool_node48 = pool_node48;
        pool_node256 = pool_node256;
        pool_leaf = pool_leaf;
      })
      m₅

unfoldable pub art_slab_create : ℕ → Memory → Option Slab × Memory
art_slab_create nodes_per_tier m = with_handle nodes_per_tier (malloc_track sizeof_slab m)

-- The block of a new node; what it holds is said where it is filled.
abbrev pub alloc_node4 : Slab → Option ℕ × Slab
alloc_node4 s =
    let (block, pool) = pool_alloc s.pool_node4 in (block, record s { pool_node4 = pool })

abbrev pub alloc_node16 : Slab → Option ℕ × Slab
alloc_node16 s =
    let (block, pool) = pool_alloc s.pool_node16 in (block, record s { pool_node16 = pool })

abbrev pub alloc_node48 : Slab → Option ℕ × Slab
alloc_node48 s =
    let (block, pool) = pool_alloc s.pool_node48 in (block, record s { pool_node48 = pool })

abbrev pub alloc_node256 : Slab → Option ℕ × Slab
alloc_node256 s =
    let (block, pool) = pool_alloc s.pool_node256 in (block, record s { pool_node256 = pool })

abbrev pub free_node4 : ℕ → Slab → Slab
free_node4 block s = record s { pool_node4 = pool_free s.pool_node4 (some block) }

abbrev pub free_node16 : ℕ → Slab → Slab
free_node16 block s = record s { pool_node16 = pool_free s.pool_node16 (some block) }

abbrev pub free_node48 : ℕ → Slab → Slab
free_node48 block s = record s { pool_node48 = pool_free s.pool_node48 (some block) }

abbrev pub free_node256 : ℕ → Slab → Slab
free_node256 block s = record s { pool_node256 = pool_free s.pool_node256 (some block) }

abbrev pub free_leaf : ℕ → Slab → Slab
free_leaf block s = record s { pool_leaf = pool_free s.pool_leaf (some block) }

unfoldable pub safe_strdup : Key → Memory → Option Pointer × Memory
safe_strdup s m = malloc_track (add_size (length s) 1) m

module _ {ℓ} {V : Type ℓ} where
  -- Without memory for the key, `CDSA_FREE` gets a block of the pool, which has no hidden header:
  -- that is `none`.
  abbrev pub with_key :
      ℕ → Key → Option V → Slab → Option Pointer × Memory → Option (Option (Leaf V) × Slab × Memory)
  with_key block key value s (none, m) = none
  with_key block key value s (some text, m) =
      some (some (record { block = block; text = text; key = key; value = value }), s, m)

  abbrev pub with_block :
      Key
      → Option V
      → Memory
      → Option ℕ × Option Pool
      → Slab
      → Option (Option (Leaf V) × Slab × Memory)
  with_block key value m (none, pool) s = some (none, record s { pool_leaf = pool }, m)
  with_block key value m (some block, pool) s =
      with_key block key value (record s { pool_leaf = pool }) (safe_strdup key m)

  unfoldable pub alloc_leaf :
      Slab → Key → Option V → Memory → Option (Option (Leaf V) × Slab × Memory)
  alloc_leaf s key value m = with_block key value m (pool_alloc s.pool_leaf) s
