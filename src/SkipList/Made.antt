-- ===== src/SkipList/Made.antt =====
-- A new node of a skip list: the height that `random_level` draws, and what `create_node` makes.
use cdsa.Base.{ℕ, zero, suc, ◌+◌, ◌≤◌, ◌<◌, ◌≡◌, refl, Option, none, some, replicate, arith}
use cdsa.Text.{Key}
use cdsa.Allocator.{Memory, Pointer, malloc_track, calloc_track}
use cdsa.SkipList.{
  Random, SkipNode, max_level, sizeof_node, sizeof_pointer, safe_strdup, climb, random_level,
  with_node, with_text, with_tower, create_node,
}

-- The height of a new node.
climb_bounds :
    (rounds level : ℕ) (r : Random)
    → (level ≤ (climb rounds level r).0) × ((climb rounds level r).0 ≤ level + rounds)
unfolding climb
climb_bounds zero level r = omega arith
climb_bounds (suc rounds) level r =
    ground (arith, climb_bounds rounds (level + 1) (record r { drawn = r.drawn + 1 }))

pub random_level_bounds : (r : Random) → (0 < (random_level r).0) × ((random_level r).0 ≤ max_level)
unfolding random_level
random_level_bounds r = omega (arith, climb_bounds 15 1 r)

module _ {ℓ} {S : Type ℓ} where
  -- What `create_node` makes of a node.
  abbrev pub IsMade : ℕ → S → Key → SkipNode S → Type ℓ
  IsMade level score value n =
      (n.level ≡ level) × (n.score ≡ score) × (n.value ≡ value) × (n.forward ≡ replicate level none)

  -- Without memory there is no node.
  abbrev pub MadeOrNot : ℕ → S → Key → Option (SkipNode S) × Memory → Type ℓ
  MadeOrNot level score value (none, m) = Unit
  MadeOrNot level score value (some n, m) = IsMade level score value n

  with_tower-MadeOrNot :
      (level : ℕ) (score : S) (value : Key) (p t : Pointer) (r : Option Pointer × Memory)
      → MadeOrNot level score value (with_tower level score value p t r)
  with_tower-MadeOrNot level score value p t (none, m) = tt
  with_tower-MadeOrNot level score value p t (some w, m) = (refl, refl, refl, refl)

  with_text-MadeOrNot :
      (level : ℕ) (score : S) (value : Key) (p : Pointer) (r : Option Pointer × Memory)
      → MadeOrNot level score value (with_text level score value p r)
  with_text-MadeOrNot level score value p (none, m) = tt
  with_text-MadeOrNot level score value p (some t, m) =
      with_tower-MadeOrNot level score value p t (calloc_track level sizeof_pointer m)

  with_node-MadeOrNot :
      (level : ℕ) (score : S) (value : Key) (r : Option Pointer × Memory)
      → MadeOrNot level score value (with_node level score value r)
  with_node-MadeOrNot level score value (none, m) = tt
  with_node-MadeOrNot level score value (some p, m) =
      with_text-MadeOrNot level score value p (safe_strdup value m)

  pub create_node-MadeOrNot :
      (level : ℕ) (score : S) (value : Key) (m : Memory)
      → MadeOrNot level score value (create_node level score value m)
  unfolding create_node
  create_node-MadeOrNot level score value m =
      with_node-MadeOrNot level score value (malloc_track sizeof_node m)
