-- ===== src/SkipList.antt =====
-- src/skiplist.c: the skip list. A node is named by how many were created before it, the header by 0;
-- `nodes` is what each name leads to, nothing once the node is freed. `none` as the result of a call
-- says that it would have read through NULL or a freed node, or that a loop ran out of fuel: it has
-- more fuel than nodes were ever created.
pub mod Names
pub mod Chain
pub mod Search
pub mod Redirect
pub mod Splice
pub mod Relink
pub mod Order
pub mod View
pub mod Made
pub mod Marks
pub mod Find
pub mod Insert
pub mod Bypass
pub mod Unlink
pub mod Delete
pub mod Lower
pub mod Remove
pub mod Create
pub mod Range
pub mod Iterator
pub mod Walk
pub mod Outdated
mod Tests
use cdsa.Base.{
  ℕ, zero, suc, ◌+◌, ◌-◌, ◌%◌, Bool, true, false, ◌&&◌, ◌||◌, Option, none, some, ◌>>=◌, List, [],
  ◌∷◌, ◌++◌, length, get_elem?, set, take, replicate, add_size, mul_size, sub_size, ltb, ◌==◌,
  if◌then◌else◌,
}
use cdsa.Text.{Key, str_eq, str_lt}
use cdsa.Error.{Status, ok, oom, invalid, not_found}
use cdsa.Allocator.{Memory, Pointer, malloc_track, calloc_track, free_track}

-- The comparisons of `double`, which the language leaves to the machine, and 0.0.
pub record Doubles {ℓ} (S : Type ℓ) : Type ℓ where
  pub lt : S → S → Bool
  pub eq : S → S → Bool
  pub le : S → S → Bool
  pub zero_score : S

-- What `rand` answers to the n-th call, and how many calls it has had.
pub record Random : Type 0 where
  pub rand : ℕ → ℕ
  pub drawn : ℕ

-- `SkipNode`, with its own block and those of its value and of its tower.
pub record SkipNode {ℓ} (S : Type ℓ) : Type ℓ where
  pub node : Pointer
  pub text : Pointer
  pub tower : Pointer
  pub score : S
  pub value : Key
  pub level : ℕ
  pub forward : List (Option ℕ)

abbrev pub Nodes {ℓ} : Type ℓ → Type ℓ
Nodes S = ℕ → Option (SkipNode S)

-- `struct cdsa_skiplist`; `fresh` is how many nodes were created.
pub record SkipList {ℓ} (S : Type ℓ) : Type ℓ where
  pub handle : Pointer
  pub header : ℕ
  pub level : ℕ
  pub size : ℕ
  pub version : ℕ
  pub nodes : Nodes S
  pub fresh : ℕ

abbrev pub max_level : ℕ
max_level = 16

-- `sizeof(SkipNode)`, `sizeof(SkipNode *)` and `sizeof(cdsa_skiplist)`
abbrev pub sizeof_node : ℕ
sizeof_node = 32

abbrev pub sizeof_pointer : ℕ
sizeof_pointer = 8

abbrev pub sizeof_skiplist : ℕ
sizeof_skiplist = 32

-- The coin flips, with as many rounds as levels are left.
pub climb : ℕ → ℕ → Random → ℕ × Random
climb zero level r = (level, record r { drawn = r.drawn + 1 })
climb (suc rounds) level r =
    if r.rand r.drawn % 2 == 0
    then climb rounds (level + 1) (record r { drawn = r.drawn + 1 })
    else (level, record r { drawn = r.drawn + 1 })

unfoldable pub random_level : Random → ℕ × Random
unfolding climb
random_level r = climb (max_level - 1) 1 r

unfoldable pub safe_strdup : Key → Memory → Option Pointer × Memory
safe_strdup s m = malloc_track (add_size (length s) 1) m

module _ {ℓ} {S : Type ℓ} where
  abbrev pub write : Nodes S → ℕ → Option (SkipNode S) → Nodes S
  write nodes p n q = if q == p then n else nodes q

  -- `p->forward[i]`
  unfoldable pub forward_at : Nodes S → ℕ → ℕ → Option (Option ℕ)
  forward_at nodes p i = nodes p >>= λ n. get_elem? n.forward i

  -- `p->forward[i] = next`
  unfoldable pub set_forward : Nodes S → ℕ → ℕ → Option ℕ → Option (Nodes S)
  set_forward nodes p i next =
      nodes p >>= λ n. some (write nodes p (some (record n { forward = set n.forward i next })))

  abbrev pub with_tower :
      ℕ → S → Key → Pointer → Pointer → Option Pointer × Memory → Option (SkipNode S) × Memory
  with_tower level score value p t (none, m) = (none, free_track (some p) (free_track (some t) m))
  with_tower level score value p t (some w, m) = (
    some (record {
      node = p;
      text = t;
      tower = w;
      score = score;
      value = value;
      level = level;
      forward = replicate level none;
    }),
    m,
  )

  abbrev pub with_text :
      ℕ → S → Key → Pointer → Option Pointer × Memory → Option (SkipNode S) × Memory
  with_text level score value p (none, m) = (none, free_track (some p) m)
  with_text level score value p (some t, m) =
      with_tower level score value p t (calloc_track level sizeof_pointer m)

  abbrev pub with_node : ℕ → S → Key → Option Pointer × Memory → Option (SkipNode S) × Memory
  with_node level score value (none, m) = (none, m)
  with_node level score value (some p, m) = with_text level score value p (safe_strdup value m)

  unfoldable pub create_node : ℕ → S → Key → Memory → Option (SkipNode S) × Memory
  create_node level score value m = with_node level score value (malloc_track sizeof_node m)

  -- `while (current->forward[i] != NULL && test(current->forward[i])) current = current->forward[i];`
  unfoldable pub advance : ℕ → Nodes S → ℕ → (SkipNode S → Bool) → ℕ → Option ℕ
  advance zero nodes i test current = none
  advance (suc fuel) nodes i test current = do
    next ← forward_at nodes current i
    elim next [
      | none ↦ some current
      | some p ↦ nodes p >>= λ n. elim (test n) [
        | true ↦ advance fuel nodes i test p
        | false ↦ some current
      ]
    ]

  -- The outer loop of the search, from level `i - 1` down: the breadcrumbs, that of level 0 first, and
  -- the last node.
  unfoldable pub descend : ℕ → Nodes S → ℕ → (SkipNode S → Bool) → ℕ → Option (List ℕ × ℕ)
  descend fuel nodes zero test current = some ([], current)
  descend fuel nodes (suc i) test current = do
    p ← advance fuel nodes i test current
    (update, last) ← descend fuel nodes i test p
    some (update ++ p ∷ [], last)

  -- The splice of a new node at the breadcrumbs from level `i` on.
  unfoldable pub splice : Nodes S → ℕ → ℕ → List ℕ → Option (Nodes S)
  splice nodes new i [] = some nodes
  splice nodes new i (u ∷ update) = do
    next ← forward_at nodes u i
    nodes₁ ← set_forward nodes new i next
    nodes₂ ← set_forward nodes₁ u i (some new)
    splice nodes₂ new (i + 1) update

  -- The bypass of a node at the breadcrumbs from level `i` on.
  unfoldable pub bypass : Nodes S → ℕ → ℕ → List ℕ → Option (Nodes S)
  bypass nodes target i [] = some nodes
  bypass nodes target i (u ∷ update) = do
    next ← forward_at nodes u i
    let further : Option (Nodes S) = do
      beyond ← forward_at nodes target i
      nodes' ← set_forward nodes u i beyond
      bypass nodes' target (i + 1) update
    elim next [ none ↦ some nodes | some p ↦ if p == target then further else some nodes ]

  -- `while (level > 1 && header->forward[level - 1] == NULL) level--;`
  unfoldable pub lower_level : Nodes S → ℕ → ℕ → Option ℕ
  lower_level nodes header zero = some zero
  lower_level nodes header (suc zero) = some 1
  lower_level nodes header (suc (suc k)) = do
    next ← forward_at nodes header (suc k)
    elim next [ none ↦ lower_level nodes header (suc k) | some p ↦ some (suc (suc k)) ]

  abbrev pub free_blocks : SkipNode S → Memory → Memory
  free_blocks n m =
      free_track (some n.node) (free_track (some n.tower) (free_track (some n.text) m))

  -- The loop of `free` along level 0, with fuel.
  unfoldable pub free_nodes : ℕ → Nodes S → Option ℕ → Memory → Option Memory
  free_nodes zero nodes current m = none
  free_nodes (suc fuel) nodes none m = some m
  free_nodes (suc fuel) nodes (some p) m = do
    n ← nodes p
    next ← forward_at nodes p 0
    free_nodes fuel (write nodes p none) next (free_blocks n m)

  unfoldable pub free_skiplist : Option (SkipList S) → Memory → Option Memory
  free_skiplist none m = some m
  free_skiplist (some sl) m = free_nodes (sl.fresh + 2) sl.nodes (some sl.header) m >>= λ m'.
      some (free_track (some sl.handle) m')

  unfoldable pub size_skiplist : Option (SkipList S) → ℕ
  size_skiplist none = 0
  size_skiplist (some sl) = sl.size

  unfoldable pub level_skiplist : Option (SkipList S) → ℕ
  level_skiplist none = 0
  level_skiplist (some sl) = sl.level

module _ {ℓ} {S : Type ℓ} (d : Doubles S) where
  abbrev with_header : Pointer → Option (SkipNode S) × Memory → Option (SkipList S) × Memory
  with_header p (none, m) = (none, free_track (some p) m)
  with_header p (some n, m) = (
    some (record {
      handle = p;
      header = 0;
      level = 1;
      size = 0;
      version = 0;
      nodes = write (λ q. none) 0 (some n);
      fresh = 1;
    }),
    m,
  )

  abbrev with_handle : Option Pointer × Memory → Option (SkipList S) × Memory
  with_handle (none, m) = (none, m)
  with_handle (some p, m) = with_header p (create_node max_level d.zero_score [] m)

  unfoldable pub create_skiplist : Memory → Option (SkipList S) × Memory
  create_skiplist m = with_handle (malloc_track sizeof_skiplist m)

  -- The order of the list: by score, and by value where scores tie.
  abbrev pub is_before : S → Key → SkipNode S → Bool
  is_before score value n = d.lt n.score score || (d.eq n.score score && str_lt n.value value)

  -- The search of `insert` and `remove`.
  unfoldable pub find : SkipList S → S → Key → Option (List ℕ × ℕ)
  find sl score value = descend (sl.fresh + 1) sl.nodes sl.level (is_before score value) sl.header

  -- The breadcrumbs of the levels that no node has had, and those that the new node needs.
  abbrev pub breadcrumbs : SkipList S → ℕ → List ℕ → List ℕ
  breadcrumbs sl new_level update =
      take new_level (update ++ replicate (new_level - sl.level) sl.header)

  abbrev pub raised : ℕ → ℕ → ℕ
  raised new_level level = if ltb level new_level then new_level else level

  -- The splice, once the node is created; without it the level is what it was.
  abbrev pub spliced :
      SkipList S
      → ℕ
      → List ℕ
      → Random
      → Option (SkipNode S) × Memory
      → Option (Status × Option (SkipList S) × Memory × Random)
  spliced sl new_level update r (none, m) = some (oom, some sl, m, r)
  spliced sl new_level update r (some n, m) = do
    nodes ← splice (write sl.nodes sl.fresh (some n)) sl.fresh 0 (breadcrumbs sl new_level update)
    some (
      ok,
      some (record sl {
        nodes = nodes;
        fresh = sl.fresh + 1;
        level = raised new_level sl.level;
        size = add_size sl.size 1;
        version = add_size sl.version 1;
      }),
      m,
      r,
    )

  unfoldable pub insert_skiplist :
      Option (SkipList S)
      → S
      → Option Key
      → Memory
      → Random
      → Option (Status × Option (SkipList S) × Memory × Random)
  insert_skiplist none score value m r = some (invalid, none, m, r)
  insert_skiplist (some sl) score none m r = some (invalid, some sl, m, r)
  insert_skiplist (some sl) score (some value) m r = do
    (update, last) ← find sl score value
    let (new_level, r') = random_level r
    spliced sl new_level update r' (create_node new_level score value m)

  -- The node is the one to delete: the same score and the same value.
  abbrev pub is_target : S → Key → SkipNode S → Bool
  is_target score value n = d.eq n.score score && str_eq n.value value

  abbrev pub deleted :
      SkipList S → List ℕ → ℕ → SkipNode S → Memory → Option (Status × Option (SkipList S) × Memory)
  deleted sl update p n m = do
    nodes ← bypass sl.nodes p 0 update
    level ← lower_level nodes sl.header sl.level
    some (
      ok,
      some (record sl {
        nodes = write nodes p none;
        level = level;
        size = sub_size sl.size 1;
        version = add_size sl.version 1;
      }),
      free_blocks n m,
    )

  unfoldable pub remove_skiplist :
      Option (SkipList S) → S → Option Key → Memory → Option (Status × Option (SkipList S) × Memory)
  remove_skiplist none score value m = some (invalid, none, m)
  remove_skiplist (some sl) score none m = some (invalid, some sl, m)
  remove_skiplist (some sl) score (some value) m = do
    (update, last) ← find sl score value
    current ← forward_at sl.nodes last 0
    elim current [
      | none ↦ some (not_found, some sl, m)
      | some p ↦ sl.nodes p >>= λ n.
          if is_target score value n then deleted sl update p n m else some (not_found, some sl, m)
    ]
