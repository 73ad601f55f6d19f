-- ===== src/Allocator/Pool/Ownership.antt =====
-- Who owns the blocks of a pool: each is free, on the chain, or live, with the client, once.
use mathlib.Core.List.{
  Mem, Nodup, Perm, Nodup-append, Nodup-cons, Nodup-nil, not-mem-nil, mem-cons, mem-cons_self,
  mem-cons_of_mem, mem-append_left, perm_middle, append-nil,
}
use mathlib.Core.List.Perm
use mathlib.Core.Logic.Or
use native.Mathlib.Bridge.{le_prop}
use cdsa.Base.{
  ℕ, zero, suc, ◌+◌, ◌-◌, ◌*◌, ◌%◌, max, inl, inr, ◌||◌, ◌==◌, mul_size, ◌≤◌, ◌<◌, ◌≡◌, refl, ◌∙◌,
  Option, none, some, List, [], ◌∷◌, ◌++◌, ap, subst, set, cell, cell-set, length, length-append,
  length-set, replicate, length-replicate, Bool-cases, size_mod, arith,
}
use cdsa.Allocator.{Memory, Pointer, malloc_track}
use cdsa.Allocator.Pool.{
  Pool, padded, blocks, wired, with_slab, with_handle, sizeof_pool, pool_create, pool_alloc,
  pool_free,
}
use native.Mathlib.Nat.{mod-eq_of_lt, mul-div_right}
use cdsa.Allocator.Pool.FreeList.{Chain, Chain-set, blocks_from, wire-Chain, length-wire}

pub record IsPool (pool : Pool) (free live : List ℕ) : Type 0 where
  pub chain : Chain pool.links pool.free_list free
  pub distinct : Nodup (free ++ live)
  pub inside : (x : ℕ) → Mem x live → x < length pool.links
  pub total : length free + length live ≡ length pool.links

-- What `kpool_alloc` answers with these blocks free: NULL and the same pool if there is none, else
-- the first of them, which is live from then on.
abbrev pub Allocated : Pool → List ℕ → List ℕ → Type 0
Allocated pool [] live = pool_alloc (some pool) ≡ (none, some pool)
Allocated pool (x ∷ free) live =
    (pool' : Pool) × (pool_alloc (some pool) ≡ (some x, some pool'))
    × IsPool pool' free (x ∷ live)
    × (length pool'.links ≡ length pool.links)

-- On a pool in order `kpool_alloc` hands out the first free block, which was not live, and leaves
-- the pool in order; it answers NULL, and changes nothing, exactly when no block is free.
pub pool_alloc-Allocated :
    (pool : Pool) (free live : List ℕ) → IsPool pool free live → Allocated pool free live
unfolding pool_alloc
pool_alloc-Allocated pool [] live v = rw v.chain
pool_alloc-Allocated pool (x ∷ free) live v = (
  record pool { free_list = cell pool.links x },
  rw v.chain.0,
  record {
    chain = v.chain.2;
    distinct = Perm.nodup (Perm.symm (perm_middle free live)) v.distinct;
    inside = λ y m. Or.elim le_prop (mem-cons.0 m) (λ e. rw e v.chain.1) (v.inside y);
    total = omega (arith, v.total);
  },
  refl,
)

-- The block that is given back comes first in the free list.
give_back-perm :
    (free xs ys : List ℕ) (x : ℕ) → Perm (free ++ (xs ++ x ∷ ys)) (x ∷ (free ++ (xs ++ ys)))
give_back-perm free xs ys x =
    Perm.trans (Perm.append_left free (perm_middle xs ys)) (perm_middle free (xs ++ ys))

-- Giving a live block back keeps the pool in order, with that block free, first in line.
pub pool_free-IsPool :
    (pool : Pool) (free xs ys : List ℕ) (x : ℕ)
    → IsPool pool free (xs ++ x ∷ ys)
    → (pool' : Pool) × (pool_free (some pool) (some x) ≡ some pool')
      × IsPool pool' (x ∷ free) (xs ++ ys)
      × (length pool'.links ≡ length pool.links)
unfolding pool_free
pool_free-IsPool pool free xs ys x v =
    let distinct' = Perm.nodup (give_back-perm free xs ys x) v.distinct in
    let away = λ (m : Mem x free). (Nodup-cons.0 distinct').0 (mem-append_left (xs ++ ys) m) in
    let fits = v.inside x ((Perm.mem_iff (perm_middle xs ys)).1 mem-cons_self) in
    let size = length-set pool.links x pool.free_list in
    (
      record pool { links = set pool.links x pool.free_list; free_list = some x },
      refl,
      record {
        chain = (
          refl,
          rw size fits,
          rw (cell_written pool x fits)
              (Chain-set pool.links pool.free_list free x pool.free_list fits away v.chain),
        );
        distinct = distinct';
        inside = λ y m.
            rw size (v.inside y ((Perm.mem_iff (perm_middle xs ys)).1 (mem-cons_of_mem x m)));
        total = omega (arith, v.total, size, length-append xs ys, length-append xs (x ∷ ys));
      },
      size,
    )
  where
    cell_written :
        (p : Pool) (i : ℕ) → i < length p.links → cell (set p.links i p.free_list) i ≡ p.free_list
    cell_written p i h = ground (arith, cell-set p.links i i p.free_list h)

-- A client's history: it allocates, and gives back only what is live.
pub data Reach (start : Pool) : Pool → List ℕ → Type 0 where
  created : Reach start start []
  allocates :
      {pool pool' : Pool} {live : List ℕ} (x : ℕ)
      → Reach start pool live
      → pool_alloc (some pool) ≡ (some x, some pool')
      → Reach start pool' (x ∷ live)
  gives_back :
      {pool pool' : Pool} {live rest : List ℕ} (x : ℕ) (xs ys : List ℕ)
      → Reach start pool live
      → live ≡ xs ++ x ∷ ys
      → pool_free (some pool) (some x) ≡ some pool'
      → rest ≡ xs ++ ys
      → Reach start pool' rest

-- Some list of free blocks puts the pool in order, in a slab of `size` blocks.
abbrev pub IsShared : ℕ → Pool → List ℕ → Type 0
IsShared size pool live = (free : List ℕ) × IsPool pool free live × (length pool.links ≡ size)

alloc-IsShared :
    (size : ℕ) (pool pool' : Pool) (live free : List ℕ) (x : ℕ)
    → IsPool pool free live
    → length pool.links ≡ size
    → pool_alloc (some pool) ≡ (some x, some pool')
    → IsShared size pool' (x ∷ live)
alloc-IsShared size pool pool' live [] x v s e = absurd (cc (pool_alloc-Allocated pool [] live v))
alloc-IsShared size pool pool' live (y ∷ free) x v s e =
    let (p, eq, w, t) = pool_alloc-Allocated pool (y ∷ free) live v in
    let same : y ≡ x = ground (arith, eq, e) in
    let same_pool : p ≡ pool' = ground (arith, eq, e) in
    (
      free,
      subst (λ q. IsPool q free (x ∷ live)) same_pool
          (subst (λ z. IsPool p free (z ∷ live)) same w),
      ground (arith, same_pool, t, s),
    )

-- Whatever a client does with a pool in order, the pool stays in order: its blocks are free or
-- live, none twice.
pub Reach-IsShared :
    {start pool : Pool} {live : List ℕ} (size : ℕ)
    → IsShared size start []
    → Reach start pool live
    → IsShared size pool live
Reach-IsShared size ok created = ok
Reach-IsShared size ok (allocates {pool = p} {pool' = q} {live = l} x r e) =
    let (free, v, s) = Reach-IsShared size ok r in alloc-IsShared size p q l free x v s e
Reach-IsShared size ok (gives_back {pool = p} {pool' = q} {live = l} x xs ys r e f g) =
    let (free, v, s) = Reach-IsShared size ok r in
    let (p', eq, w, t) = pool_free-IsPool p free xs ys x (subst (λ ls. IsPool p free ls) e v) in
    let same : p' ≡ q = ground (arith, eq, f) in
    (
      x ∷ free,
      rw g (subst (λ z. IsPool z (x ∷ free) (xs ++ ys)) same w),
      ground (arith, same, t, s),
    )

blocks_from-ge : (n i x : ℕ) → Mem x (blocks_from i n) → i ≤ x
blocks_from-ge zero i x m = absurd (not-mem-nil m)
blocks_from-ge (suc n) i x m =
    Or.elim le_prop (mem-cons.0 m) (λ e. omega (arith, e))
      (λ r. omega (arith, blocks_from-ge n (i + 1) x r))

blocks_from-Nodup : (n i : ℕ) → Nodup (blocks_from i n)
blocks_from-Nodup zero i = Nodup-nil
blocks_from-Nodup (suc n) i =
    Nodup-cons.1 (λ m. omega (arith, blocks_from-ge n (i + 1) i m), blocks_from-Nodup n (i + 1))

length-blocks_from : (i n : ℕ) → length (blocks_from i n) ≡ n
length-blocks_from i zero = refl
length-blocks_from i (suc n) = ap suc (length-blocks_from (i + 1) n)

-- Unless the padding wraps, a block has room for a link, is a multiple of 8, and is as small as that
-- allows.
pub padded_bounds :
    (block_size : ℕ)
    → block_size + 8 < size_mod
    → (8 ≤ padded block_size)
      × (padded block_size % 8 ≡ 0)
      × (block_size ≤ padded block_size)
      × (padded block_size ≤ max block_size 1 + 7)
unfolding padded
padded_bounds block_size h = ground arith

-- The slab has a block for each unit of capacity, unless its size wraps.
blocks_exact :
    (block_size capacity : ℕ)
    → 0 < block_size
    → block_size * capacity < size_mod
    → blocks block_size capacity ≡ capacity
blocks_exact b c pos h = rw (mod-eq_of_lt h, mul-div_right c pos)

wired-IsShared :
    (b c : ℕ) (p s : Pointer) → 0 < b → 0 < c → b * c < size_mod → IsShared c (wired b c p s) []
wired-IsShared b c p s hb hc h =
    let room : length (replicate {A = Option ℕ} (blocks b c) none) ≡ c =
      length-replicate (blocks b c) none ∙ blocks_exact b c hb h in
    let size = length-wire (c - 1) 0 (replicate (blocks b c) none) ∙ room in
    let count : suc (c - 1) ≡ c = omega arith in
    (
      blocks_from 0 (suc (c - 1)),
      record {
        chain = wire-Chain (c - 1) 0 (replicate (blocks b c) none) (omega (arith, room));
        distinct = rw append-nil (blocks_from-Nodup (suc (c - 1)) 0);
        inside = λ x m. absurd (not-mem-nil m);
        total = omega (arith, size, length-blocks_from 0 (suc (c - 1)));
      },
      size,
    )

created_from :
    (b c : ℕ) (m m' : Memory) {pool : Pool}
    → 0 < b
    → 0 < c
    → b * c < size_mod
    → with_handle b c (malloc_track sizeof_pool m) ≡ (some pool, m')
    → IsShared c pool []
created_from b c m m' {pool} hb hc h e = go (malloc_track sizeof_pool m) e
  where
    slab :
        (p : Pointer) (r : Option Pointer × Memory)
        → with_slab b c p r ≡ (some pool, m')
        → IsShared c pool []
    slab p (none, m2) e2 = absurd (cc e2)
    slab p (some s, m2) e2 =
        subst (λ q. IsShared c q []) (ground (arith, e2)) (wired-IsShared b c p s hb hc h)

    go : (r : Option Pointer × Memory) → with_handle b c r ≡ (some pool, m') → IsShared c pool []
    go (none, m1) e1 = absurd (cc e1)
    go (some p, m1) e1 = slab p (malloc_track (mul_size b c) m1) e1

-- A pool that `kpool_create` returns, where the slab's size does not wrap, is in order: all its
-- blocks are free, and there are as many as was asked for.
pub pool_create-IsShared :
    (block_size capacity : ℕ) (m m' : Memory) {pool : Pool}
    → block_size + 8 < size_mod
    → padded block_size * capacity < size_mod
    → pool_create block_size capacity m ≡ (some pool, m')
    → IsShared capacity pool []
unfolding pool_create
pool_create-IsShared b c m m' {pool} h k e = elim (Bool-cases (b == 0 || c == 0)) [
  | inl bad ↦ absurd (cc (rw bad at e))
  | inr good ↦
      created_from (padded b) c m m' (omega (arith, padded_bounds b h)) (ground arith) k
        (rw good at e)
]

-- Two blocks that are live at once are different, each lies in the slab, and there are at most as
-- many as was asked for: for every history of a client of a pool that `kpool_create` returned.
pub live_blocks_distinct :
    (block_size capacity : ℕ) (m m' : Memory) {start pool : Pool} {live : List ℕ}
    → block_size + 8 < size_mod
    → padded block_size * capacity < size_mod
    → pool_create block_size capacity m ≡ (some start, m')
    → Reach start pool live
    → Nodup live × ((x : ℕ) → Mem x live → x < capacity) × (length live ≤ capacity)
live_blocks_distinct b c m m' h k e r =
    let (free, v, size) = Reach-IsShared c (pool_create-IsShared b c m m' h k e) r in
    ((Nodup-append.0 v.distinct).1, λ x i. rw size at (v.inside x i), omega (arith, size, v.total))
