-- ===== src/Allocator/Pool/FreeList.antt =====
-- The chain of free blocks in the slab, and what the wiring loop and a write leave of it.
use mathlib.Core.List.{mem-cons_self, mem-cons_of_mem, Mem}
use cdsa.Base.{
  ℕ, zero, suc, ◌+◌, ◌<◌, ◌≡◌, ◌≢◌, refl, ◌∙◌, Option, none, some, List, [], ◌∷◌, length, set, cell,
  length-set, cell-set, arith,
}
use cdsa.Allocator.Pool.{wire}

-- From `p` the links lead through exactly `free`, and end in NULL.
abbrev pub Chain : List (Option ℕ) → Option ℕ → List ℕ → Type 0
Chain links p [] = p ≡ none
Chain links p (x ∷ free) = (p ≡ some x) × (x < length links) × Chain links (cell links x) free

-- `count` blocks from `i` on
abbrev pub blocks_from : ℕ → ℕ → List ℕ
blocks_from i zero = []
blocks_from i (suc count) = i ∷ blocks_from (i + 1) count

-- A write into a block that is not free does not reach the chain.
pub Chain-set :
    (links : List (Option ℕ)) (p : Option ℕ) (free : List ℕ) (i : ℕ) (v : Option ℕ)
    → i < length links
    → ¬ Mem i free
    → Chain links p free
    → Chain (set links i v) p free
Chain-set links p [] i v h away c = c
Chain-set links p (x ∷ free) i v h away c =
    let apart : i ≢ x = λ e. away (rw e mem-cons_self) in
    let kept : cell (set links i v) x ≡ cell links x = ground (arith, cell-set links i x v h) in
    (
      c.0,
      rw (length-set links i v) c.1,
      rw kept (Chain-set links (cell links x) free i v h (λ m. away (mem-cons_of_mem x m)) c.2),
    )

pub length-wire : (n i : ℕ) (links : List (Option ℕ)) → length (wire n i links) ≡ length links
unfolding wire
length-wire zero i links = length-set links i none
length-wire (suc n) i links =
    length-wire n (i + 1) (set links i (some (i + 1))) ∙ length-set links i (some (i + 1))

-- The loop writes no block below its start.
wire-below :
    (n i j : ℕ) (links : List (Option ℕ))
    → i + n < length links
    → j < i
    → cell (wire n i links) j ≡ cell links j
unfolding wire
wire-below zero i j links h k = ground (arith, cell-set links i j none)
wire-below (suc n) i j links h k = ground (
  arith,
  length-set links i (some (i + 1)),
  wire-below n (i + 1) j (set links i (some (i + 1))),
  cell-set links i j (some (i + 1)),
)

wire-start :
    (n i : ℕ) (links : List (Option ℕ))
    → i + suc n < length links
    → cell (wire (suc n) i links) i ≡ some (i + 1)
unfolding wire
wire-start n i links h = ground (
  arith,
  length-set links i (some (i + 1)),
  wire-below n (i + 1) i (set links i (some (i + 1))),
  cell-set links i i (some (i + 1)),
)

-- The loop wires all its blocks, in the order of the slab.
pub wire-Chain :
    (n i : ℕ) (links : List (Option ℕ))
    → i + n < length links
    → Chain (wire n i links) (some i) (blocks_from i (suc n))
unfolding wire
wire-Chain zero i links h =
    (refl, rw (length-set links i none) (omega arith), ground (arith, cell-set links i i none))
wire-Chain (suc n) i links h =
    let links' = set links i (some (i + 1)) in
    let size : length links' ≡ length links = length-set links i (some (i + 1)) in
    (
      refl,
      rw (length-wire n (i + 1) links', size) (omega arith),
      rw (wire-start n i links h) (wire-Chain n (i + 1) links' (omega (arith, size))),
    )
