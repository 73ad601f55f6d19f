-- ===== src/Art/Children.antt =====
-- The children of a node of src/art.c: the slots, the way to the smallest leaf, and how nodes grow,
-- shrink and lose a child.
use cdsa.Base.{
  ℕ, zero, suc, ◌+◌, ◌-◌, ◌%◌, Option, none, some, ◌>>=◌, List, [], ◌∷◌, ◌++◌, length, get_elem?,
  set, take, replicate, ◌==◌, if◌then◌else◌,
}
use cdsa.Art.{
  ArtNode, leaf, inner, Slots, no_slots, null_slot, child_slot, Body, node4, node16, node48,
  node256, Leaf, empty_slot, key_index,
}

-- The first byte of which the index is not empty, as the slot it leads to.
unfoldable pub first_index : List ℕ → Option ℕ
first_index [] = none
first_index (i ∷ child_index) = if i == empty_slot then first_index child_index else some i

-- `child_index[keys[i]] = i` for the keys from `i` on.
unfoldable pub index_keys : List ℕ → ℕ → ℕ → List ℕ → List ℕ
index_keys [] num i child_index = child_index
index_keys (k ∷ keys) zero i child_index = child_index
index_keys (k ∷ keys) (suc num) i child_index = index_keys keys num (i + 1) (set child_index k i)

-- The bytes that lead to children.
abbrev bytes_of {κ} : {A : Type κ} → List (ℕ × A) → List ℕ
bytes_of [] = []
bytes_of ((c, n) ∷ ns) = c ∷ bytes_of ns

unfoldable pub shift_keys : List ℕ → ℕ → ℕ → List ℕ
shift_keys keys pos zero = keys
shift_keys keys pos (suc n) = elim (get_elem? keys (pos + 1)) [
  | none ↦ keys
  | some k ↦ shift_keys (set keys pos k) (pos + 1) n
]

module _ {ℓ} {V : Type ℓ} where
  -- `children[i]`: NULL, a node, or outside the array.
  unfoldable pub slot_at : Slots V → ℕ → Option (Option (ArtNode V))
  slot_at no_slots i = none
  slot_at (null_slot slots) zero = some none
  slot_at (null_slot slots) (suc i) = slot_at slots i
  slot_at (child_slot n slots) zero = some (some n)
  slot_at (child_slot n slots) (suc i) = slot_at slots i

  abbrev pub slot_of : Option (ArtNode V) → Slots V → Slots V
  slot_of none slots = null_slot slots
  slot_of (some n) slots = child_slot n slots

  -- `children[i] = child`
  unfoldable pub put_slot : Slots V → ℕ → Option (ArtNode V) → Slots V
  put_slot no_slots i child = no_slots
  put_slot (null_slot slots) zero child = slot_of child slots
  put_slot (null_slot slots) (suc i) child = null_slot (put_slot slots i child)
  put_slot (child_slot n slots) zero child = slot_of child slots
  put_slot (child_slot n slots) (suc i) child = child_slot n (put_slot slots i child)

  -- The first slot that is NULL, or is not.
  unfoldable pub first_null : Slots V → ℕ
  first_null no_slots = 0
  first_null (null_slot slots) = 0
  first_null (child_slot n slots) = suc (first_null slots)

  unfoldable pub first_child : Slots V → Option ℕ
  first_child no_slots = none
  first_child (null_slot slots) = first_child slots >>= λ i. some (suc i)
  first_child (child_slot n slots) = some 0

  -- The slot that `find_minimum_leaf` goes on to; its loop does not end where there is none.
  unfoldable pub minimum_slot : Body → Slots V → Option ℕ
  minimum_slot (node4 num keys) slots = some 0
  minimum_slot (node16 num keys) slots = some 0
  minimum_slot (node48 num child_index) slots = first_index child_index
  minimum_slot (node256 num) slots = first_child slots

  unfoldable mutual
    pub find_minimum_leaf : ArtNode V → Option (Leaf V)
    find_minimum_leaf (leaf l) = some l
    find_minimum_leaf (inner block h body slots) =
        minimum_slot body slots >>= λ i. minimum_in slots i

    pub minimum_in : Slots V → ℕ → Option (Leaf V)
    minimum_in no_slots i = none
    minimum_in (null_slot slots) zero = none
    minimum_in (null_slot slots) (suc i) = minimum_in slots i
    minimum_in (child_slot n slots) zero = find_minimum_leaf n
    minimum_in (child_slot n slots) (suc i) = minimum_in slots i

  -- The first slots, and NULL up to `n`.
  unfoldable pub widened : ℕ → ℕ → Slots V → Slots V
  widened zero num slots = no_slots
  widened (suc n) zero slots = null_slot (widened n zero slots)
  widened (suc n) (suc num) no_slots = null_slot (widened n num no_slots)
  widened (suc n) (suc num) (null_slot slots) = null_slot (widened n num slots)
  widened (suc n) (suc num) (child_slot c slots) = child_slot c (widened n num slots)

  -- The slots by byte, from those by index.
  unfoldable pub spread : List ℕ → Slots V → Option (Slots V)
  spread [] slots = some no_slots
  spread (i ∷ child_index) slots = do
    rest ← spread child_index slots
    if i == empty_slot
        then some (null_slot rest)
        else (slot_at slots i >>= λ c. some (slot_of c rest))

  -- The copies of `upgrade_node4_to_node16`, `upgrade_node16_to_node48` and
  -- `upgrade_node48_to_node256`.
  unfoldable pub upgraded : Body → Slots V → Option (Body × Slots V)
  upgraded (node4 num keys) slots =
      some (node16 num (take num keys ++ replicate (16 - num) 0), widened 16 num slots)
  upgraded (node16 num keys) slots =
      some (node48 num (index_keys keys num 0 (replicate 256 empty_slot)), widened 48 num slots)
  upgraded (node48 num child_index) slots = spread child_index slots >>= λ s. some (node256 num, s)
  upgraded (node256 num) slots = none

  -- The children that are not NULL, with their bytes, from byte `c` on.
  unfoldable pub children_of : Slots V → ℕ → List (ℕ × ArtNode V)
  children_of no_slots c = []
  children_of (null_slot slots) c = children_of slots (c + 1)
  children_of (child_slot n slots) c = (c, n) ∷ children_of slots (c + 1)

  -- The children that the indices lead to, with their bytes, from byte `c` on.
  unfoldable pub indexed_of : List ℕ → Slots V → ℕ → Option (List (ℕ × Option (ArtNode V)))
  indexed_of [] slots c = some []
  indexed_of (i ∷ child_index) slots c = do
    rest ← indexed_of child_index slots (c + 1)
    if i == empty_slot then some rest else (slot_at slots i >>= λ n. some ((c, n) ∷ rest))

  -- The slots in order, and NULL up to `n`.
  unfoldable pub packed : ℕ → List (Option (ArtNode V)) → Slots V
  packed zero ns = no_slots
  packed (suc n) [] = null_slot (packed n [])
  packed (suc n) (c ∷ ns) = slot_of c (packed n ns)

  abbrev nodes_of : List (ℕ × ArtNode V) → List (Option (ArtNode V))
  nodes_of [] = []
  nodes_of ((c, n) ∷ ns) = some n ∷ nodes_of ns

  abbrev held_of : List (ℕ × Option (ArtNode V)) → List (Option (ArtNode V))
  held_of [] = []
  held_of ((c, n) ∷ ns) = n ∷ held_of ns

  -- The copies of the three downgrades.
  unfoldable pub downgraded : Body → Slots V → Option (Body × Slots V)
  downgraded (node4 num keys) slots = none
  downgraded (node16 num keys) slots =
      some (node4 num (take num keys ++ replicate (4 - num) 0), widened 4 num slots)
  downgraded (node48 num child_index) slots = indexed_of child_index slots 0 >>= λ ns.
      some (node16 num (bytes_of ns ++ replicate (16 - length ns) 0), packed 16 (held_of ns))
  downgraded (node256 num) slots =
      let ns = children_of slots 0 in
      some (
        node48 num (index_keys (bytes_of ns) (length ns) 0 (replicate 256 empty_slot)),
        packed 48 (nodes_of ns),
      )

  -- The children from a position on, one to the left; the last one in use stays where it is as well.
  unfoldable pub shift_slots : Slots V → ℕ → ℕ → Slots V
  shift_slots slots pos zero = slots
  shift_slots slots pos (suc n) = elim (slot_at slots (pos + 1)) [
    | none ↦ slots
    | some c ↦ shift_slots (put_slot slots pos c) (pos + 1) n
  ]

  unfoldable pub remove_child : Body → Slots V → ℕ → Option (Body × Slots V)
  remove_child (node4 num keys) slots c = elim (key_index keys num c) [
    | none ↦ some (node4 num keys, slots)
    | some pos ↦ some (
      node4 (num - 1) (shift_keys keys pos (num - 1 - pos)),
      shift_slots slots pos (num - 1 - pos),
    )
  ]
  remove_child (node16 num keys) slots c = elim (key_index keys num c) [
    | none ↦ some (node16 num keys, slots)
    | some pos ↦ some (
      node16 (num - 1) (shift_keys keys pos (num - 1 - pos)),
      shift_slots slots pos (num - 1 - pos),
    )
  ]
  remove_child (node48 num child_index) slots c = get_elem? child_index c >>= λ pos. some (
      if pos == empty_slot
      then (node48 num child_index, slots)
      else (node48 ((num + 255) % 256) (set child_index c empty_slot), put_slot slots pos none))
  remove_child (node256 num) slots c = slot_at slots c >>= λ child. elim child [
    | none ↦ some (node256 num, slots)
    | some n ↦ some (node256 ((num + 65535) % 65536), put_slot slots c none)
  ]
