-- ===== src/Art/Deletion.antt =====
-- `cdsa_delete_art` and `cdsa_free_art` of src/art.c.
use cdsa.Base.{
  ℕ, zero, suc, ◌+◌, ◌%◌, Bool, true, false, ◌&&◌, Option, none, some, ◌>>=◌, List, [], ◌∷◌, ◌++◌,
  length, get_elem?, take, drop, sub_size, ◌==◌, if◌then◌else◌,
}
use cdsa.Text.{Key, str_eq}
use cdsa.Error.{Status, ok, invalid, not_found}
use cdsa.Allocator.{Memory, free_track}
use cdsa.Art.{
  Header, ArtNode, leaf, inner, Slots, no_slots, null_slot, child_slot, Body, node4, node16, node48,
  node256, mod32, empty_slot, stored, byte_at, mismatch, too_deep, onward, pass_prefix, find_child,
}
use cdsa.Art.Slab.{
  Slab, alloc_node4, alloc_node16, alloc_node48, free_node4, free_node16, free_node48, free_node256,
  free_leaf, art_slab_destroy,
}
use cdsa.Art.Children.{slot_at, downgraded, remove_child}
use cdsa.Art.Insertion.{Tree}

-- The block of the next smaller node, and the slab with it taken and, if it was, the old one back.
unfoldable pub downgrade_block : Body → ℕ → Slab → Option ℕ × Slab
downgrade_block (node256 num) old s =
    let (block, s') = alloc_node48 s in
    elim block [ none ↦ (none, s') | some p ↦ (some p, free_node256 old s') ]
downgrade_block (node48 num child_index) old s =
    let (block, s') = alloc_node16 s in
    elim block [ none ↦ (none, s') | some p ↦ (some p, free_node48 old s') ]
downgrade_block (node16 num keys) old s =
    let (block, s') = alloc_node4 s in
    elim block [ none ↦ (none, s') | some p ↦ (some p, free_node16 old s') ]
downgrade_block (node4 num keys) old s = (none, s)

-- The prefix of a node and the byte that leads on, in front of the prefix of its only child.
abbrev pub merged_prefix : Header → ℕ → Header → Header
merged_prefix h c child =
    let new_len = (h.prefix_len + 1 + child.prefix_len) % mod32 in
    let limit = stored new_len in
    let bytes =
      take limit
        (take (stored h.prefix_len) h.prefix ++ c ∷ take (stored child.prefix_len) child.prefix) in
    record { prefix_len = new_len; prefix = bytes ++ drop (length bytes) child.prefix }

-- The numbers below `n`, and the indices that are not empty.
unfoldable pub upto : ℕ → List ℕ
upto zero = []
upto (suc n) = upto n ++ n ∷ []

unfoldable pub used : List ℕ → List ℕ
used [] = []
used (i ∷ child_index) = let rest = used child_index in if i == empty_slot then rest else i ∷ rest

abbrev free_block : Body → ℕ → Slab → Slab
free_block (node4 num keys) block s = free_node4 block s
free_block (node16 num keys) block s = free_node16 block s
free_block (node48 num child_index) block s = free_node48 block s
free_block (node256 num) block s = free_node256 block s

-- The slots that the teardown of a node visits, in order.
unfoldable pub visited : Body → List ℕ
visited (node4 num keys) = upto num
visited (node16 num keys) = upto num
visited (node48 num child_index) = used child_index
visited (node256 num) = upto 256

abbrev pub Teardown : Type 0
Teardown = Slab → Memory → Option (Slab × Memory)

-- The teardowns at these indices, one after the other.
unfoldable pub in_turn : List ℕ → List Teardown → Teardown
in_turn [] actions s m = some (s, m)
in_turn (i ∷ is) actions s m = do
  action ← get_elem? actions i
  (s', m') ← action s m
  in_turn is actions s' m'

module _ {ℓ} {V : Type ℓ} where
  -- The only child of a `Node4` takes its place.
  unfoldable pub merged : Header → ℕ → ArtNode V → ArtNode V
  merged h c (leaf l) = leaf l
  merged h c (inner block child body slots) = inner block (merged_prefix h c child) body slots

  abbrev smaller : ℕ → Header → Body → Slots V → Slab → Option (Option (ArtNode V) × Slab)
  smaller block h body slots s =
      let (less, s') = downgrade_block body block s in
      elim less [
        | none ↦ some (some (inner block h body slots), s')
        | some p ↦ downgraded body slots >>= λ r. some (some (inner p h r.0 r.1), s')
      ]

  -- A node once a child is removed: it shrinks where few are left, and gives way where one or none is.
  unfoldable pub shrunk : ℕ → Header → Body → Slots V → Slab → Option (Option (ArtNode V) × Slab)
  shrunk block h (node256 num) slots s =
      if num == 48
      then smaller block h (node256 num) slots s
      else some (some (inner block h (node256 num) slots), s)
  shrunk block h (node48 num child_index) slots s =
      if num == 16
      then smaller block h (node48 num child_index) slots s
      else some (some (inner block h (node48 num child_index) slots), s)
  shrunk block h (node16 num keys) slots s =
      if num == 4
      then smaller block h (node16 num keys) slots s
      else some (some (inner block h (node16 num keys) slots), s)
  shrunk block h (node4 num keys) slots s =
      let survived : Option (Option (ArtNode V) × Slab) = (do
        c ← get_elem? keys 0
        child ← slot_at slots 0
        n ← child
        some (some (merged h c n), free_node4 block s)) in
      if num == 0
      then some (none, free_node4 block s)
      else (if num == 1 then survived else some (some (inner block h (node4 num keys) slots), s))

  abbrev is_null : Option (ArtNode V) → Bool
  is_null none = true
  is_null (some n) = false

  -- The child has become NULL or another node; if the key was deleted with it, the node loses it.
  unfoldable pub after_child :
      ℕ
      → Header
      → Body
      → ℕ
      → Bool × Bool × Slots V × Slab × Memory
      → Option (Bool × Option (ArtNode V) × Slab × Memory)
  after_child block h body c (deleted, gone, slots, s, m) =
      let less : Option (Bool × Option (ArtNode V) × Slab × Memory) = (do
        (body', slots') ← remove_child body slots c
        (n, s') ← shrunk block h body' slots' s
        some (deleted, n, s', m)) in
      if deleted && gone then less else some (deleted, some (inner block h body slots), s, m)

  unfoldable mutual
    -- Whether the key was deleted, and the node that is returned, or NULL.
    pub recursive_delete :
        ArtNode V → Key → ℕ → Slab → Memory → Option (Bool × Option (ArtNode V) × Slab × Memory)
    recursive_delete (leaf l) key depth s m = some (
        if str_eq l.key key
        then (true, none, free_leaf l.block s, free_track (some l.text) m)
        else (false, some (leaf l), s, m))
    recursive_delete (inner block h body slots) key depth s m = pass_prefix h key depth >>= λ p.
        elim p [
          | mismatch ↦ some (false, some (inner block h body slots), s, m)
          | too_deep ↦ some (false, none, s, m)
          | onward depth' ↦ byte_at key depth' >>= λ c. find_child body c >>= λ found. elim found [
            | none ↦ some (false, some (inner block h body slots), s, m)
            | some i ↦
                delete_slot slots i key (depth' + 1) s m >>= λ r. after_child block h body c r
          ]
        ]

    -- The same at a slot: deleted, NULL now where it was not, and the slots.
    pub delete_slot :
        Slots V → ℕ → Key → ℕ → Slab → Memory → Option (Bool × Bool × Slots V × Slab × Memory)
    delete_slot no_slots i key depth s m = none
    delete_slot (null_slot slots) zero key depth s m = some (false, false, null_slot slots, s, m)
    delete_slot (null_slot slots) (suc i) key depth s m =
        delete_slot slots i key depth s m >>= λ r. some (r.0, r.1, null_slot r.2, r.3, r.4)
    delete_slot (child_slot n slots) zero key depth s m = recursive_delete n key depth s m >>= λ r.
        some (
          r.0,
          is_null r.1,
          (elim r.1 [ none ↦ null_slot slots | some n' ↦ child_slot n' slots ]),
          r.2,
          r.3,
        )
    delete_slot (child_slot n slots) (suc i) key depth s m =
        delete_slot slots i key depth s m >>= λ r. some (r.0, r.1, child_slot n r.2, r.3, r.4)

  unfoldable pub delete_art :
      Option (Tree V) → Option Key → Memory → Option (Status × Option (Tree V) × Memory)
  delete_art none key m = some (invalid, none, m)
  delete_art (some t) none m = some (invalid, some t, m)
  delete_art (some t) (some key) m = elim t.root [
    | none ↦ some (not_found, some t, m)
    | some n ↦ recursive_delete n key 0 t.slab_manager m >>= λ r. some (
      (if r.0 then ok else not_found),
      some (record t {
        root = r.1;
        size = if r.0 then sub_size t.size 1 else t.size;
        slab_manager = r.2;
      }),
      r.3,
    )
  ]

  unfoldable mutual
    -- `cdsa_free_node`
    pub free_node : ArtNode V → Teardown
    free_node (leaf l) s m = some (free_leaf l.block s, free_track (some l.text) m)
    free_node (inner block h body slots) s m =
        in_turn (visited body) (free_slots slots) s m >>= λ r. some (free_block body block r.0, r.1)

    -- The teardown of each slot.
    pub free_slots : Slots V → List Teardown
    free_slots no_slots = []
    free_slots (null_slot slots) = (λ s m. some (s, m)) ∷ free_slots slots
    free_slots (child_slot n slots) = free_node n ∷ free_slots slots

  abbrev freed : Tree V → Slab × Memory → Memory
  freed t (s, m) = free_track (some t.handle) (art_slab_destroy (some s) m)

  unfoldable pub free_art : Option (Tree V) → Memory → Option Memory
  free_art none m = some m
  free_art (some t) m = elim t.root [
    | none ↦ some (freed t (t.slab_manager, m))
    | some n ↦ free_node n t.slab_manager m >>= λ r. some (freed t r)
  ]
