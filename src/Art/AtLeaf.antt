-- ===== src/Art/AtLeaf.antt =====
-- The insertion at a leaf: a search finds the new value under its key, and the old one under the
-- leaf's.
use cdsa.Base.{
  ℕ, ◌-◌, ◌≤◌, ◌<◌, ◌≡◌, ◌≢◌, refl, sym, ap, subst, ◌∙◌, Bool, true, false, not, ◌&&◌, [], ◌∷◌,
  ◌==◌, ==→eq, ==_false→ne, Option, none, some, length, if◌then◌else◌, ◌⊎◌, inl, inr, Bool-cases,
  Option-cases, arith,
}
use cdsa.Text.{Key, str_eq}
use cdsa.Error.{ok, oom}
use cdsa.Allocator.{Memory, Pointer}
use cdsa.Allocator.Pool.{Pool, pool_alloc}
use cdsa.Art.{ArtNode, Leaf, leaf, mod32, sub32, byte_at, search_node}
use cdsa.Art.Slab.{Slab, alloc_node4, free_node4, safe_strdup, with_block, with_key, alloc_leaf}
use cdsa.Art.Insertion.{Outcome, shared, fork, fork_leaf, insert_at_leaf}
use cdsa.Art.Fork.{str_eq_refl, shared-length, fork-finds}

-- No byte is the terminator.
abbrev pub IsText : Key → Type 0
IsText [] = Unit
IsText (c ∷ key) = (0 < c) × IsText key

-- Behind what two keys share, both end, or the bytes differ.
abbrev EndOrDiffer : Key → Key → Type 0
EndOrDiffer a b =
    ((a ≡ b) × (byte_at a (shared a b) ≡ some 0) × (byte_at b (shared a b) ≡ some 0))
    ⊎ ((c d : ℕ) × (byte_at a (shared a b) ≡ some c)
        × (byte_at b (shared a b) ≡ some d)
        × (c ≢ d)
        × (str_eq a b ≡ false))

shared-EndOrDiffer : (a b : Key) → IsText a → IsText b → EndOrDiffer a b
unfolding shared byte_at
shared-EndOrDiffer [] [] s t = inl (refl, refl, refl)
shared-EndOrDiffer [] (d ∷ b) s t = inr (0, d, refl, refl, (λ e. omega (arith, t.0, e)), refl)
shared-EndOrDiffer (c ∷ a) [] s t = inr (c, 0, refl, refl, (λ e. omega (arith, s.0, e)), refl)
shared-EndOrDiffer (c ∷ a) (d ∷ b) s t = elim (Bool-cases (c == d)) [
  | inr other ↦ inr (c, d, rw other refl, rw other refl, ==_false→ne c d other, rw other refl)
  | inl same ↦ elim (shared-EndOrDiffer a b s.1 t.1) [
    | inl (e, x, y) ↦ inl (cc (==→eq c d same, e), rw same x, rw same y)
    | inr (x, y, p, q, ne, no_match) ↦
        inr (x, y, rw same p, rw same q, ne, rw (same, no_match) refl)
  ]
]

module _ {ℓ} {V : Type ℓ} where
  -- Where the copy of the key gets memory: a leaf, or none where the pool has no block.
  abbrev LeafOrNot :
      Key
      → Option V
      → Pointer
      → Memory
      → Memory
      → Option ℕ
      → Option (Option (Leaf V) × Slab × Memory)
      → Type ℓ
  LeafOrNot key value text m m' block r =
      ((b : ℕ) × (s : Slab) × (r
          ≡ some (some (record { block = b; text = text; key = key; value = value }), s, m')))
      ⊎ ((s : Slab) × (r ≡ some (none, s, m)) × (block ≡ none))

  with_block-LeafOrNot :
      (key : Key) (value : Option V) (text : Pointer) (m m' : Memory) (r : Option ℕ × Option Pool)
      (s : Slab)
      → safe_strdup key m ≡ (some text, m')
      → LeafOrNot key value text m m' r.0 (with_block key value m r s)
  with_block-LeafOrNot key value text m m' (none, pool) s e =
      inr (record s { pool_leaf = pool }, refl, refl)
  with_block-LeafOrNot key value text m m' (some b, pool) s e = inl (
    b,
    record s { pool_leaf = pool },
    ap (with_key b key value (record s { pool_leaf = pool })) e,
  )

  -- A node under which a search from a depth finds the new value by its key and, if a key was added, the
  -- old one by the leaf's; or no memory, and the leaf.
  abbrev pub FoundOrNot : Leaf V → Key → Option V → ℕ → Slab → Option (Outcome V) → Type ℓ
  FoundOrNot l key value depth s r =
      ((grew : Bool) × (n : ArtNode V) × (s' : Slab) × (m' : Memory) × (r
          ≡ some (ok, grew, n, s', m'))
        × (grew ≡ not (str_eq l.key key))
        × (search_node n key depth ≡ some value)
        × (search_node n l.key depth ≡ some (if grew then l.value else value)))
      ⊎ ((s' : Slab) × (m' : Memory) × (r ≡ some (oom, false, leaf l, s', m'))
          × (((alloc_node4 s).0 ≡ none) ⊎ ((pool_alloc s.pool_leaf).0 ≡ none)))

  fork_leaf-FoundOrNot :
      (l : Leaf V) (c d depth : ℕ) (key : Key) (value : Option V) (s : Slab) (m m' : Memory)
      (text : Pointer)
      → depth ≤ shared l.key key
      → byte_at l.key (shared l.key key) ≡ some c
      → byte_at key (shared l.key key) ≡ some d
      → c ≢ d
      → str_eq l.key key ≡ false
      → safe_strdup key m ≡ (some text, m')
      → FoundOrNot l key value depth s
          (fork_leaf l (shared l.key key - depth) c d key value depth s m)
  unfolding fork_leaf alloc_leaf
  fork_leaf-FoundOrNot l c d depth key value s m m' text below at_l at_k apart other copied =
      let s₁ = (alloc_node4 s).1 in
      elim (Option-cases (alloc_node4 s).0) [
        | inl no_node ↦ inr (s₁, m, rw (fork_leaf, no_node) refl, inl no_node)
        | inr (p, node) ↦
            elim (with_block-LeafOrNot key value text m m' (pool_alloc s.pool_leaf) s₁ copied) [
              | inr (s₂, out, no_leaf) ↦
                  let any =
                    fork-finds p depth l
                      (record { block = 0; text = text; key = key; value = value }) c d below at_l
                      at_k apart in
                  inr (
                    free_node4 p s₂,
                    m,
                    rw (fork_leaf, node, any.1, alloc_leaf, out) refl,
                    inr no_leaf,
                  )
              | inl (b, s₂, out) ↦
                  let n : Leaf V = record { block = b; text = text; key = key; value = value } in
                  let (bytes, read, new, old) = fork-finds p depth l n c d below at_l at_k apart in
                  inl (
                    true,
                    fork p (shared l.key key - depth) bytes c (leaf l) d n,
                    s₂,
                    m',
                    rw (fork_leaf, node, read, alloc_leaf, out) refl,
                    ap not (sym other),
                    new,
                    old,
                  )
            ]
      ]

  -- Where the keys are texts of less than 2 ^ 32 bytes that agree up to the depth, and there is memory
  -- for the copy of the new one, an insertion at a leaf ends. It returns OK with a node under which a
  -- search from the depth finds the new value by its key and, if the keys differ, the leaf's value by
  -- its own, or OOM with the leaf, where there is no block for a node or none for a leaf.
  pub insert_at_leaf-Found :
      (l : Leaf V) (key : Key) (value : Option V) (depth : ℕ) (s : Slab) (m m' : Memory)
      (text : Pointer)
      → IsText l.key
      → IsText key
      → length key < mod32
      → depth ≤ shared l.key key
      → safe_strdup key m ≡ (some text, m')
      → FoundOrNot l key value depth s (insert_at_leaf l key value depth s m)
  unfolding insert_at_leaf search_node
  insert_at_leaf-Found l key value depth s m m' text is_l is_k short below copied =
      let i = shared l.key key in
      let len : sub32 i depth ≡ i - depth = omega (arith, (shared-length l.key key).1) in
      elim (shared-EndOrDiffer l.key key is_l is_k) [
        | inl (same, at_l, at_k) ↦
            let equal : str_eq l.key key ≡ true =
              ap (str_eq l.key) (sym same) ∙ str_eq_refl l.key in
            inl (
              false,
              leaf (record l { value = value }),
              s,
              m,
              rw (at_l, at_k) refl,
              rw equal refl,
              rw equal refl,
              rw (str_eq_refl l.key) refl,
            )
        | inr (c, d, at_l, at_k, apart, other) ↦
            let not_both : ((c == 0) && (d == 0)) ≡ false = ground (arith, apart) in
            let forked =
              fork_leaf-FoundOrNot l c d depth key value s m m' text below at_l at_k apart other
                copied in
            subst (FoundOrNot l key value depth s) (sym (rw (at_l, at_k, not_both, len) refl))
              forked
      ]
