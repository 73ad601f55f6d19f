-- ===== src/Art/Insertion.antt =====
-- `cdsa_insert_art` of src/art.c.
use cdsa.Base.{
  ℕ, zero, suc, ◌+◌, ◌-◌, ◌%◌, Bool, true, false, ◌&&◌, Option, none, some, ◌>>=◌, List, [], ◌∷◌,
  ◌++◌, length, set, drop, replicate, add_size, ltb, ◌==◌, if◌then◌else◌,
}
use cdsa.Text.{Key}
use cdsa.Error.{Status, ok, oom, invalid}
use cdsa.Allocator.{Memory, Pointer, malloc_track, free_track}
use cdsa.Art.{
  Header, ArtNode, leaf, inner, Slots, no_slots, null_slot, child_slot, Body, node4, node16, node48,
  node256, Leaf, sub32, byte_at, stored, check_prefix, find_child, search_node,
}
use cdsa.Art.Slab.{
  Slab, alloc_node4, alloc_node16, alloc_node48, alloc_node256, free_node4, free_node16,
  free_node48, alloc_leaf, art_slab_create,
}
use cdsa.Art.Children.{slot_at, put_slot, first_null, find_minimum_leaf, upgraded}

-- How many bytes two keys share from the start.
unfoldable pub shared : Key → Key → ℕ
shared [] key = 0
shared (c ∷ a) [] = 0
shared (c ∷ a) (d ∷ b) = if c == d then suc (shared a b) else 0

-- `key[depth]` and the bytes behind it, `n` of them.
unfoldable pub bytes_from : Key → ℕ → ℕ → Option (List ℕ)
bytes_from key depth zero = some []
bytes_from key depth (suc n) = do
  c ← byte_at key depth
  rest ← bytes_from key (depth + 1) n
  some (c ∷ rest)

-- The prefix of a new node: the bytes, in zeros.
abbrev pub fresh_prefix : List ℕ → List ℕ
fresh_prefix bytes = bytes ++ replicate (10 - length bytes) 0

-- How far a key agrees with a leaf's from a position on, `n` bytes at most.
unfoldable pub agreeing : ℕ → Key → Key → ℕ → Option ℕ
agreeing zero key leaf_key i = some 0
agreeing (suc n) key leaf_key i =
    let rest : Option ℕ = agreeing n key leaf_key (i + 1) >>= λ k. some (k + 1) in
    byte_at key i >>= λ c.
    if c == 0 then some 0 else (byte_at leaf_key i >>= λ b. if c == b then rest else some 0)

-- There is room for a child.
unfoldable pub has_room : Body → Bool
has_room (node4 num keys) = ltb num 4
has_room (node16 num keys) = ltb num 16
has_room (node48 num child_index) = ltb num 48
has_room (node256 num) = true

-- The status, whether a key was added, the node in place of the old one, and what it cost.
abbrev pub Outcome {ℓ} : Type ℓ → Type ℓ
Outcome V = Status × Bool × ArtNode V × Slab × Memory

-- The block of the next larger node, and the slab with it taken and, if it was, the old one back.
unfoldable pub upgrade_block : Body → ℕ → Slab → Option ℕ × Slab
upgrade_block (node4 num keys) old s =
    let (block, s') = alloc_node16 s in
    elim block [ none ↦ (none, s') | some p ↦ (some p, free_node4 old s') ]
upgrade_block (node16 num keys) old s =
    let (block, s') = alloc_node48 s in
    elim block [ none ↦ (none, s') | some p ↦ (some p, free_node16 old s') ]
upgrade_block (node48 num child_index) old s =
    let (block, s') = alloc_node256 s in
    elim block [ none ↦ (none, s') | some p ↦ (some p, free_node48 old s') ]
upgrade_block (node256 num) old s = (none, s)

-- What the step at an inner node is: to split its prefix, to give up, to add a child or to go on.
pub data Step : Type 0 where
  split : ℕ → Step
  give_up : Step
  add : ℕ → Step
  descend : ℕ → ℕ → Step

module _ {ℓ} {V : Type ℓ} where
  -- A new `Node4` over two children.
  abbrev pub fork : ℕ → ℕ → List ℕ → ℕ → ArtNode V → ℕ → Leaf V → ArtNode V
  fork block prefix_len bytes c old d new =
      inner block (record { prefix_len = prefix_len; prefix = fresh_prefix bytes })
        (node4 2 (c ∷ d ∷ 0 ∷ 0 ∷ []))
        (child_slot old (child_slot (leaf new) (null_slot (null_slot no_slots))))

  -- A leaf with another key: both hang below a new node, with the bytes that they share as its prefix;
  -- `b` and `c` are the bytes behind these.
  unfoldable pub fork_leaf :
      Leaf V → ℕ → ℕ → ℕ → Key → Option V → ℕ → Slab → Memory → Option (Outcome V)
  fork_leaf l shared_len b c key value depth s m =
      let (block, s₁) = alloc_node4 s in
      elim block [
        | none ↦ some (oom, false, leaf l, s₁, m)
        | some p ↦ bytes_from key depth (stored shared_len) >>= λ bytes.
            alloc_leaf s₁ key value m >>= λ r.
            let (new, s₂, m') = r in
            elim new [
              | none ↦ some (oom, false, leaf l, free_node4 p s₂, m')
              | some n ↦ some (ok, true, fork p shared_len bytes b (leaf l) c n, s₂, m')
            ]
      ]

  -- At a leaf: its value is replaced if it has the key.
  unfoldable pub insert_at_leaf : Leaf V → Key → Option V → ℕ → Slab → Memory → Option (Outcome V)
  insert_at_leaf l key value depth s m = do
    let i = shared l.key key
    b ← byte_at l.key i
    c ← byte_at key i
    let forked : Option (Outcome V) = fork_leaf l (sub32 i depth) b c key value depth s m
    if (b == 0) && (c == 0)
        then some (ok, false, leaf (record l { value = value }), s, m)
        else forked

  -- Where a key leaves the prefix of a node, `match_len` bytes into it: the node and the new leaf hang
  -- below a new node.
  unfoldable pub split_prefix :
      ℕ → Header → Body → Slots V → ℕ → Key → Option V → ℕ → Slab → Memory → Option (Outcome V)
  split_prefix block h body slots match_len key value depth s m =
      let (above, s₁) = alloc_node4 s in
      elim above [
        | none ↦ some (oom, false, inner block h body slots, s₁, m)
        | some p ↦ alloc_leaf s₁ key value m >>= λ r.
            let (new, s₂, m') = r in
            elim new [
              | none ↦ some (oom, false, inner block h body slots, free_node4 p s₂, m')
              | some n ↦ do
                bytes ← bytes_from key depth (stored match_len)
                l ← find_minimum_leaf (inner block h body slots)
                old_char ← byte_at l.key (depth + match_len)
                let len = sub32 h.prefix_len (match_len + 1)
                left ← bytes_from l.key (depth + match_len + 1) (stored len)
                new_char ← byte_at key (match_len + depth)
                let h' : Header = record {
                  prefix_len = len;
                  prefix = left ++ drop (length left) h.prefix;
                }
                some (
                  ok,
                  true,
                  fork p match_len bytes old_char (inner block h' body slots) new_char n,
                  s₂,
                  m',
                )
            ]
      ]

  -- The child that a new byte leads to, in a node that has room for it.
  unfoldable pub added : Body → Slots V → ℕ → ArtNode V → Option (Body × Slots V)
  added (node4 num keys) slots c n =
      some (node4 (num + 1) (set keys num c), put_slot slots num (some n))
  added (node16 num keys) slots c n =
      some (node16 (num + 1) (set keys num c), put_slot slots num (some n))
  added (node48 num child_index) slots c n =
      let i = first_null slots in
      slot_at slots i >>= λ free.
      some (node48 (num + 1) (set child_index c i), put_slot slots i (some n))
  added (node256 num) slots c n = some (node256 ((num + 1) % 65536), put_slot slots c (some n))

  -- After an upgrade from 16 to 48 the new child goes behind the others.
  unfoldable pub added_behind : Body → Slots V → ℕ → ArtNode V → Option (Body × Slots V)
  added_behind (node48 num child_index) slots c n =
      some (node48 (num + 1) (set child_index c num), put_slot slots num (some n))
  added_behind body slots c n = added body slots c n

  abbrev with_leaf :
      (Body → Slots V → ℕ → ArtNode V → Option (Body × Slots V))
      → ℕ
      → Header
      → Body
      → Slots V
      → ℕ
      → Option (Leaf V) × Slab × Memory
      → Option (Outcome V)
  with_leaf put block h body slots c (none, s, m) =
      some (oom, false, inner block h body slots, s, m)
  with_leaf put block h body slots c (some n, s, m) =
      put body slots c (leaf n) >>= λ r. some (ok, true, inner block h r.0 r.1, s, m)

  unfoldable pub add_child :
      ℕ → Header → Body → Slots V → ℕ → Key → Option V → Slab → Memory → Option (Outcome V)
  add_child block h body slots c key value s m =
      let grown : Option (Outcome V) =
        (let (larger, s₁) = upgrade_block body block s in
          elim larger [
            | none ↦ some (oom, false, inner block h body slots, s₁, m)
            | some p ↦ do
              (body', slots') ← upgraded body slots
              r ← alloc_leaf s₁ key value m
              with_leaf added_behind p h body' slots' c r
          ]) in
      if has_room body
      then (alloc_leaf s key value m >>= λ r. with_leaf added block h body slots c r)
      else grown

  -- The child of a byte is missing: there is no way to it or, in a `Node256`, the way leads to NULL.
  unfoldable pub missing : Body → Slots V → ℕ → Option Bool
  missing (node256 num) slots c =
      slot_at slots c >>= λ child. some (elim child [ none ↦ true | some n ↦ false ])
  missing body slots c =
      find_child body c >>= λ found. some (elim found [ none ↦ true | some i ↦ false ])

  -- How far the key agrees with the prefix of a node, the bytes that are not stored included.
  unfoldable pub match_len : ArtNode V → Header → Key → ℕ → Option ℕ
  match_len n h key depth = do
    k ← check_prefix h key depth
    let further : Option ℕ = do
      l ← find_minimum_leaf n
      more ← agreeing (h.prefix_len - k) key l.key (depth + k)
      some (k + more)
    if (k == stored h.prefix_len) && ltb 10 h.prefix_len then further else some k

  unfoldable pub step_behind : Body → Slots V → Key → ℕ → Option Step
  step_behind body slots key depth = do
    c ← byte_at key depth
    absent ← missing body slots c
    found ← find_child body c
    some (if absent then add c else elim found [ none ↦ add c | some i ↦ descend i (depth + 1) ])

  unfoldable pub step_at : ℕ → Header → Body → Slots V → Key → ℕ → Option Step
  step_at block h body slots key depth =
      let past : Option Step = (do
        k ← match_len (inner block h body slots) h key depth
        let behind = depth + h.prefix_len
        let on : Option Step = step_behind body slots key behind
        let deeper : Option Step = if ltb (length key) behind then some give_up else on
        if ltb k h.prefix_len then some (split k) else deeper) in
      if h.prefix_len == 0 then step_behind body slots key depth else past

  unfoldable mutual
    -- The loop of the insertion, from a node and a depth on.
    pub insert_node : ArtNode V → Key → Option V → ℕ → Slab → Memory → Option (Outcome V)
    insert_node (leaf l) key value depth s m = insert_at_leaf l key value depth s m
    insert_node (inner block h body slots) key value depth s m =
        step_at block h body slots key depth >>= λ step. elim step [
          | split k ↦ split_prefix block h body slots k key value depth s m
          | give_up ↦ some (invalid, false, inner block h body slots, s, m)
          | add c ↦ add_child block h body slots c key value s m
          | descend i depth' ↦ insert_slot slots i key value depth' s m >>= λ r.
              some (r.0, r.1, inner block h body r.2, r.3, r.4)
        ]

    -- The same at a slot; NULL there ends the loop.
    pub insert_slot :
        Slots V
        → ℕ
        → Key
        → Option V
        → ℕ
        → Slab
        → Memory
        → Option (Status × Bool × Slots V × Slab × Memory)
    insert_slot no_slots i key value depth s m = none
    insert_slot (null_slot slots) zero key value depth s m =
        some (invalid, false, null_slot slots, s, m)
    insert_slot (null_slot slots) (suc i) key value depth s m =
        insert_slot slots i key value depth s m >>= λ r. some (r.0, r.1, null_slot r.2, r.3, r.4)
    insert_slot (child_slot n slots) zero key value depth s m =
        insert_node n key value depth s m >>= λ r. some (r.0, r.1, child_slot r.2 slots, r.3, r.4)
    insert_slot (child_slot n slots) (suc i) key value depth s m =
        insert_slot slots i key value depth s m >>= λ r. some (r.0, r.1, child_slot n r.2, r.3, r.4)

-- `cdsa_art_tree`; `slab_manager` is not NULL in a tree that exists.
pub record Tree {ℓ} (V : Type ℓ) : Type ℓ where
  pub handle : Pointer
  pub root : Option (ArtNode V)
  pub size : ℕ
  pub version : ℕ
  pub slab_manager : Slab

abbrev pub sizeof_tree : ℕ
sizeof_tree = 32

module _ {ℓ} {V : Type ℓ} where
  abbrev with_slab : Pointer → ℕ → Option Slab × Memory → Option (Tree V) × Memory
  with_slab p garbage (none, m) = (none, free_track (some p) m)
  with_slab p garbage (some s, m) =
      (some (record { handle = p; root = none; size = 0; version = garbage; slab_manager = s }), m)

  abbrev with_handle : ℕ → Option Pointer × Memory → Option (Tree V) × Memory
  with_handle garbage (none, m) = (none, m)
  with_handle garbage (some p, m) = with_slab p garbage (art_slab_create 1024 m)

  -- `version` is not set: it is what the memory held.
  unfoldable pub create_art : ℕ → Memory → Option (Tree V) × Memory
  create_art garbage m = with_handle garbage (malloc_track sizeof_tree m)

  unfoldable pub size_art : Option (Tree V) → ℕ
  size_art none = 0
  size_art (some t) = t.size

  -- The root is NULL: the key's leaf becomes it.
  abbrev rooted : Tree V → Option (Leaf V) × Slab × Memory → Status × Tree V × Memory
  rooted t (none, s, m) = (oom, record t { slab_manager = s }, m)
  rooted t (some n, s, m) =
      (ok, record t { root = some (leaf n); size = add_size t.size 1; slab_manager = s }, m)

  abbrev settled : Tree V → Outcome V → Status × Tree V × Memory
  settled t (status, grew, n, s, m) = (
    status,
    record t { root = some n; size = if grew then add_size t.size 1 else t.size; slab_manager = s },
    m,
  )

  -- `_insert_art_internal`
  unfoldable pub insert_art_internal :
      Tree V → Key → Option V → Memory → Option (Status × Tree V × Memory)
  insert_art_internal t key value m = elim t.root [
    | none ↦ alloc_leaf t.slab_manager key value m >>= λ r. some (rooted t r)
    | some n ↦ insert_node n key value 0 t.slab_manager m >>= λ r. some (settled t r)
  ]

  abbrev versioned : Status × Tree V × Memory → Status × Option (Tree V) × Memory
  versioned (ok, t, m) = (ok, some (record t { version = add_size t.version 1 }), m)
  versioned (status, t, m) = (status, some t, m)

  unfoldable pub insert_art :
      Option (Tree V) → Option Key → Option V → Memory → Option (Status × Option (Tree V) × Memory)
  insert_art none key value m = some (invalid, none, m)
  insert_art (some t) none value m = some (invalid, some t, m)
  insert_art (some t) (some key) value m =
      insert_art_internal t key value m >>= λ r. some (versioned r)

  unfoldable pub search_art : Option (Tree V) → Option Key → Option (Option V)
  search_art none key = some none
  search_art (some t) none = some none
  search_art (some t) (some key) = elim t.root [ none ↦ some none | some n ↦ search_node n key 0 ]
