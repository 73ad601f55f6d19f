-- ===== src/Art/Tests.antt =====
-- Runs of the adaptive radix tree, and its theorems at concrete inputs.
use cdsa.Base.{zero, suc, ◌<◌, ℕ, ◌≡◌, ◌++◌, refl, Option, none, some, [], ◌∷◌, replicate, arith}
use cdsa.Text.{Key}
use cdsa.Error.{not_found}
use cdsa.Allocator.Pool.{Pool}
use cdsa.Allocator.Samples.{serving, block}
use cdsa.Art.{
  Leaf, Header, ArtNode, leaf, inner, Slots, no_slots, null_slot, child_slot, node4, byte_at,
  matched, check_prefix, pass_prefix, key_index, find_child, search_node,
}
use cdsa.Art.Slab.{Slab}
use cdsa.Art.Insertion.{Tree, search_art, shared}
use cdsa.Art.Deletion.{delete_art}
use cdsa.Art.AtLeaf.{IsText, FoundOrNot, insert_at_leaf-Found}
use cdsa.Allocator.{malloc_track}
use cdsa.Art.Slab.{safe_strdup}
use cdsa.Art.Insertion.{insert_at_leaf}
use cdsa.Art.Drop.{delete_art-drops}

-- "aaaaaaaaaaaa" and one byte more.
abbrev long_key : ℕ → Key
long_key c = replicate 12 97 ++ c ∷ []

abbrev leaf_of : ℕ → ℕ → ArtNode ℕ
leaf_of i c = leaf (record { block = i; text = block 14; key = long_key c; value = some c })

abbrev pool : Option Pool
pool = some (record {
  handle = block 32;
  slab = block 192;
  block_size = 64;
  capacity = 3;
  links = some 1 ∷ some 2 ∷ none ∷ [];
  free_list = some 2;
})

abbrev slab : Slab
slab = record {
  handle = block 40;
  pool_node4 = pool;
  pool_node16 = pool;
  pool_node48 = pool;
  pool_node256 = pool;
  pool_leaf = pool;
}

abbrev header : Header
header = record { prefix_len = 12; prefix = replicate 10 97 }

abbrev slots : Slots ℕ
slots = child_slot (leaf_of 0 98) (child_slot (leaf_of 1 99) (null_slot (null_slot no_slots)))

-- The tree of "aaaaaaaaaaaab" and "aaaaaaaaaaaac".
abbrev pair : Tree ℕ
pair = record {
  handle = block 32;
  root = some (inner 0 header (node4 2 (98 ∷ 99 ∷ 0 ∷ 0 ∷ [])) slots);
  size = 2;
  version = 2;
  slab_manager = slab;
}

finds_first : search_art (some pair) (some (long_key 98)) ≡ some (some 98)
unfolding search_art search_node pass_prefix check_prefix matched byte_at find_child key_index
finds_first = refl

-- Ten bytes are no key of the tree, and the tree is lost.
delete_art-drops_example :
    delete_art (some pair) (some (replicate 10 97)) serving
    ≡ some (not_found, some (record pair { root = none }), serving)
unfolding check_prefix matched byte_at
delete_art-drops_example =
    delete_art-drops pair 0 header (node4 2 (98 ∷ 99 ∷ 0 ∷ 0 ∷ [])) slots (replicate 10 97) serving
      refl (omega arith) refl (omega arith)

abbrev held : ℕ → Leaf ℕ
held c = record { block = c; text = block 14; key = long_key c; value = some c }

IsText-padded : (n c : ℕ) → 0 < c → IsText (replicate n 97 ++ c ∷ [])
IsText-padded zero c h = (h, tt)
IsText-padded (suc n) c h = (omega arith, IsText-padded n c h)

insert_at_leaf-Found_example :
    FoundOrNot
      (held 98)
      (long_key 99)
      (some 7)
      2
      slab
      (insert_at_leaf (held 98) (long_key 99) (some 7) 2 slab serving)
unfolding shared safe_strdup malloc_track
insert_at_leaf-Found_example =
    insert_at_leaf-Found (held 98) (long_key 99) (some 7) 2 slab serving
      (record serving { used = 14; calls = 1 }) (record { addr = 4104; size = 14 })
      (IsText-padded 12 98 (omega arith)) (IsText-padded 12 99 (omega arith)) (omega arith)
      (omega arith) refl
