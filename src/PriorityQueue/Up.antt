-- ===== src/PriorityQueue/Up.antt =====
-- The loop of `sift_up` restores the heap order.
use mathlib.Core.List.{Perm}
use mathlib.Core.List.Perm as Perms
use cdsa.Base.{
  ℕ, zero, suc, ◌≤◌, ◌<◌, ◌≡◌, ◌≢◌, refl, ◌∙◌, Bool, true, false, Option, some, List, length, set,
  get_elem?, get_elem?-some, ltb, lt→ltb, ltb→lt, inl, inr, Bool-cases, arith,
}
use cdsa.Vector.{Vector, get_vector}
use cdsa.PriorityQueue.{load, exchange, sift_up_loop}
use cdsa.PriorityQueue.Cells.{Filled, load-get_vector, exchange-Filled}
use cdsa.PriorityQueue.Order.{
  Ranks, parent, key, key-get_elem?, IsHeap, length-swapped, key-swapped, perm-swapped,
}

module _ {ℓ} {A : Type ℓ} (rank : A → ℕ) where
  -- Only the edge above `i` may be out of order; its children are in order with its parent.
  pub record UpInv (xs : List A) (i : ℕ) : Type 0 where
    pub inside : i < length xs
    pub edges : (c : ℕ) → 0 < c → c < length xs → c ≢ i → key rank xs (parent c) ≤ key rank xs c
    pub bridged :
        (c : ℕ)
        → 0 < c
        → c < length xs
        → parent c ≡ i
        → 0 < i
        → key rank xs (parent i) ≤ key rank xs c

  -- The loop ends with the same elements in heap order.
  abbrev pub Ordered : List A → Option (Vector A) → Type ℓ
  Ordered xs r =
      (w : Vector A) × (ys : List A) × (r ≡ some w) × Filled w ys × IsHeap rank ys × Perm ys xs

  swap-UpInv :
      (xs : List A) (i : ℕ) (x y : A)
      → get_elem? xs i ≡ some x
      → get_elem? xs (parent i) ≡ some y
      → UpInv xs i
      → 0 < i
      → key rank xs i < key rank xs (parent i)
      → UpInv (set (set xs i y) (parent i) x) (parent i)
  swap-UpInv xs i x y hi hp v pos below =
      let above : parent i < length xs = omega (arith, v.inside) in
      let size = length-swapped rank xs i (parent i) x y hi hp v.inside above in
      let at = key-swapped rank xs i (parent i) x y hi hp v.inside above in
      record {
        inside = omega (arith, size, above);
        edges = λ c p q r. ground (arith, size, at c, at (parent c), v.edges c, v.bridged c);
        bridged = λ c p q r t.
            ground (arith, size, at c, at (parent (parent i)), v.edges c, v.edges (parent i));
      }

  at_root :
      (cmp : A → A → Bool) (fuel : ℕ) (v : Vector A) (i : ℕ)
      → ltb 0 i ≡ false
      → sift_up_loop (suc fuel) cmp v i ≡ some v
  unfolding sift_up_loop
  at_root cmp fuel v i root = rw root refl

  -- One round of the loop: the element moves up, or stays.
  module _ (cmp : A → A → Bool) (fuel : ℕ) (v : Vector A) (i : ℕ) (x y : A) (pos : 0 < i)
      (lx : load v (get_vector (some v) i) ≡ some x)
      (ly : load v (get_vector (some v) (parent i)) ≡ some y) where
    stays : cmp x y ≡ false → sift_up_loop (suc fuel) cmp v i ≡ some v
    unfolding sift_up_loop
    stays settled = rw (lt→ltb 0 i pos, lx, ly, settled) refl

    rises :
        (w : Vector A)
        → cmp x y ≡ true
        → exchange v i (parent i) x y ≡ some w
        → sift_up_loop (suc fuel) cmp v i ≡ sift_up_loop fuel cmp w (parent i)
    unfolding sift_up_loop
    rises w better moved = rw (lt→ltb 0 i pos, lx, ly, better, moved) refl

  -- With as much fuel as the index and one, the loop ends, and turns a list with one element that is
  -- too low in the tree into a heap of the same elements.
  pub sift_up_loop-Ordered :
      (cmp : A → A → Bool) (fuel : ℕ) (v : Vector A) (xs : List A) (i : ℕ)
      → Ranks rank cmp
      → i < fuel
      → Filled v xs
      → UpInv xs i
      → Ordered xs (sift_up_loop fuel cmp v i)
  sift_up_loop-Ordered cmp zero v xs i r f h u = absurd (omega arith)
  sift_up_loop-Ordered cmp (suc fuel) v xs i r f h u = elim (Bool-cases (ltb 0 i)) [
    | inr root ↦
        (v, xs, at_root cmp fuel v i root, h, (λ c p q. u.edges c p q (ground arith)), Perms.rfl)
    | inl below ↦
        let pos = ltb→lt 0 i below in
        let above : parent i < length xs = omega (arith, u.inside) in
        let (x, hx) = get_elem?-some xs i u.inside in
        let (y, hy) = get_elem?-some xs (parent i) above in
        let lx = load-get_vector i h ∙ hx in
        let ly = load-get_vector (parent i) h ∙ hy in
        let kx = key-get_elem? rank xs i hx in
        let ky = key-get_elem? rank xs (parent i) hy in
        elim (Bool-cases (cmp x y)) [
          | inr settled ↦ (
            v,
            xs,
            stays cmp fuel v i x y pos lx ly settled,
            h,
            (λ c p q. ground (arith, u.edges c, r x y, settled, kx, ky)),
            Perms.rfl,
          )
          | inl better ↦
              let (w, moved, hw) = exchange-Filled i (parent i) x y h u.inside above in
              let (z, ys, out, hz, heap, perm) =
                sift_up_loop-Ordered cmp fuel w (set (set xs i y) (parent i) x) (parent i) r
                  (omega (arith, f, pos)) hw
                  (swap-UpInv xs i x y hx hy u pos (ground (arith, r x y, better, kx, ky))) in
              (
                z,
                ys,
                rises cmp fuel v i x y pos lx ly w better moved ∙ out,
                hz,
                heap,
                Perms.trans perm (perm-swapped rank xs i (parent i) x y hx hy u.inside above),
              )
        ]
  ]
