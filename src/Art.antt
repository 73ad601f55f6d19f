-- ===== src/Art.antt =====
-- src/art.c: the adaptive radix tree. A node is a leaf or holds its children in slots; the blocks of the
-- nodes are those of the pools, by their numbers. Lengths of keys and depths are `int`s that are not
-- bounded here; the prefix lengths are 32 bits wide. `none` as the result of a call says that it would
-- have read outside a key or an array, gone through NULL, or not ended.
pub mod Slab
pub mod Children
pub mod Insertion
pub mod Deletion
pub mod Drop
pub mod Fork
pub mod AtLeaf
mod Tests
use cdsa.Base.{
  ℕ, zero, suc, ◌+◌, ◌-◌, ◌%◌, Bool, true, false, ◌&&◌, Option, none, some, ◌>>=◌, List, [], ◌∷◌,
  ◌++◌, length, get_elem?, take, min, ltb, ◌==◌, if◌then◌else◌,
}
use cdsa.Text.{Key, str_eq}
use cdsa.Allocator.{Pointer}

-- `NodeHeader`, without the type, which is the constructor.
pub record Header : Type 0 where
  pub prefix_len : ℕ
  pub prefix : List ℕ

pub record Leaf {ℓ} (V : Type ℓ) : Type ℓ where
  pub block : ℕ
  pub text : Pointer
  pub key : Key
  pub value : Option V

-- How many children there are, and which byte leads to which slot.
pub data Body : Type 0 where
  node4 : ℕ → List ℕ → Body
  node16 : ℕ → List ℕ → Body
  node48 : ℕ → List ℕ → Body
  node256 : ℕ → Body

-- `Node4`, `Node16`, `Node48` and `Node256`, with the array of their children.
mutual
  pub data ArtNode {ℓ} (V : Type ℓ) : Type ℓ where
    leaf : Leaf V → ArtNode V
    inner : ℕ → Header → Body → Slots V → ArtNode V

  pub data Slots {ℓ} (V : Type ℓ) : Type ℓ where
    no_slots : Slots V
    null_slot : Slots V → Slots V
    child_slot : ArtNode V → Slots V → Slots V

abbrev pub empty_slot : ℕ
empty_slot = 255

-- `uint32_t`
abbrev pub mod32 : ℕ
mod32 = 4294967296

abbrev pub sub32 : ℕ → ℕ → ℕ
sub32 a b = (a + (mod32 - b % mod32)) % mod32

-- `key[i]`, the terminator included.
unfoldable pub byte_at : Key → ℕ → Option ℕ
byte_at [] zero = some 0
byte_at [] (suc i) = none
byte_at (c ∷ key) zero = some c
byte_at (c ∷ key) (suc i) = byte_at key i

-- How many of these bytes the key has from a depth on.
unfoldable pub matched : List ℕ → Key → ℕ → Option ℕ
matched [] key depth = some 0
matched (b ∷ bytes) key depth =
    let rest : Option ℕ = matched bytes key (depth + 1) >>= λ n. some (n + 1) in
    byte_at key depth >>= λ c. if b == c then rest else some 0

-- The bytes of a prefix that are stored.
abbrev pub stored : ℕ → ℕ
stored prefix_len = if ltb prefix_len 10 then prefix_len else 10

unfoldable pub check_prefix : Header → Key → ℕ → Option ℕ
check_prefix h key depth = matched (take (stored h.prefix_len) h.prefix) key depth

-- The descent past the prefix of a node: a byte differs, the key ends in front of the prefix's end, or
-- the depth behind it.
pub data Passed : Type 0 where
  mismatch : Passed
  too_deep : Passed
  onward : ℕ → Passed

unfoldable pub pass_prefix : Header → Key → ℕ → Option Passed
pass_prefix h key depth =
    if h.prefix_len == 0
    then some (onward depth)
    else check_prefix h key depth >>= λ match_len.
        if match_len == stored h.prefix_len
        then (if ltb (length key) (depth + h.prefix_len)
            then some too_deep
            else some (onward (depth + h.prefix_len)))
        else some mismatch

-- The first of the keys in use that is the byte.
unfoldable pub key_index : List ℕ → ℕ → ℕ → Option ℕ
key_index [] num c = none
key_index (k ∷ keys) zero c = none
key_index (k ∷ keys) (suc num) c =
    let rest : Option ℕ = key_index keys num c >>= λ i. some (suc i) in
    if k == c then some 0 else rest

-- The slot that `find_child_node4` and its companions lead to, if they are not NULL.
unfoldable pub find_child : Body → ℕ → Option (Option ℕ)
find_child (node4 num keys) c = some (key_index keys num c)
find_child (node16 num keys) c = some (key_index keys num c)
find_child (node48 num child_index) c =
    get_elem? child_index c >>= λ i. some (if i == empty_slot then none else some i)
find_child (node256 num) c = some (some c)

module _ {ℓ} {V : Type ℓ} where
  unfoldable mutual
    -- The loop of the search, from a node and a depth on.
    pub search_node : ArtNode V → Key → ℕ → Option (Option V)
    search_node (leaf l) key depth = some (if str_eq l.key key then l.value else none)
    search_node (inner block h body slots) key depth = pass_prefix h key depth >>= λ p. elim p [
      | mismatch ↦ some none
      | too_deep ↦ some none
      | onward depth' ↦ byte_at key depth' >>= λ c. find_child body c >>= λ found. elim found [
        | none ↦ some none
        | some i ↦ search_slot slots i key (depth' + 1)
      ]
    ]

    pub search_slot : Slots V → ℕ → Key → ℕ → Option (Option V)
    search_slot no_slots i key depth = none
    search_slot (null_slot slots) zero key depth = some none
    search_slot (null_slot slots) (suc i) key depth = search_slot slots i key depth
    search_slot (child_slot n slots) zero key depth = search_node n key depth
    search_slot (child_slot n slots) (suc i) key depth = search_slot slots i key depth
