-- ===== src/Art/Drop.antt =====
-- A deletion of a key that ends inside a long prefix.
use cdsa.Base.{ℕ, ◌<◌, ◌+◌, ◌≡◌, refl, true, false, ltb, lt→ltb, ◌==◌, none, some, length, arith}
use cdsa.Text.{Key}
use cdsa.Error.{not_found}
use cdsa.Allocator.{Memory}
use cdsa.Art.{Header, inner, Slots, Body, too_deep, check_prefix, pass_prefix, stored}
use cdsa.Art.Insertion.{Tree}
use cdsa.Art.Deletion.{recursive_delete, delete_art}

pass_prefix-too_deep :
    (h : Header) (key : Key) (depth : ℕ)
    → 10 < h.prefix_len
    → check_prefix h key depth ≡ some 10
    → length key < depth + h.prefix_len
    → pass_prefix h key depth ≡ some too_deep
unfolding pass_prefix
pass_prefix-too_deep h key depth long agrees short =
    let some_prefix : (h.prefix_len == 0) ≡ false = ground arith in
    let wide : (10 == stored h.prefix_len) ≡ true = ground arith in
    let deep : ltb (length key) (depth + h.prefix_len) ≡ true = lt→ltb _ _ short in
    rw (some_prefix, agrees, wide, deep) refl

module _ {ℓ} {V : Type ℓ} where
  -- Where the root is an inner node with a prefix of more than ten bytes, of which the stored ten begin
  -- a key that is shorter than the prefix, so that the key is not in the tree, `delete_art` returns
  -- NOT_FOUND and leaves a tree with NULL as its root, its size and its slab what they were.
  pub delete_art-drops :
      (t : Tree V) (block : ℕ) (h : Header) (body : Body) (slots : Slots V) (key : Key) (m : Memory)
      → t.root ≡ some (inner block h body slots)
      → 10 < h.prefix_len
      → check_prefix h key 0 ≡ some 10
      → length key < h.prefix_len
      → delete_art (some t) (some key) m ≡ some (not_found, some (record t { root = none }), m)
  unfolding delete_art recursive_delete
  delete_art-drops t block h body slots key m here long agrees short =
      simp (here, pass_prefix-too_deep h key 0 long agrees (omega (arith, short)))
