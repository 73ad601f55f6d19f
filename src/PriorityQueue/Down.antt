-- ===== src/PriorityQueue/Down.antt =====
-- The loop of `sift_down` restores the heap order.
use mathlib.Core.List.Perm as Perms
use cdsa.Base.{
  ℕ, zero, suc, ◌+◌, ◌-◌, ◌*◌, ◌≤◌, ◌<◌, ◌≡◌, ◌≢◌, ◌⊎◌, refl, ap, ◌∙◌, Bool, some, List, length,
  set, get_elem?, get_elem?-some, ltb, eq→==, ne→==_false, ◌==◌, ==→eq, ==_false→ne, inl, inr,
  Bool-cases, add_size, mul_size, size_mod, arith,
}
use cdsa.Vector.{Vector, get_vector, size_vector}
use cdsa.PriorityQueue.{load, exchange, better_child, sift_down_loop}
use cdsa.PriorityQueue.Cells.{Filled, size-Filled, load-get_vector, exchange-Filled}
use cdsa.PriorityQueue.Order.{
  Ranks, parent, key, key-get_elem?, IsHeap, length-swapped, key-swapped, perm-swapped,
}
use cdsa.PriorityQueue.Up.{Ordered}

module _ {ℓ} {A : Type ℓ} (rank : A → ℕ) where
  -- Only the edges below `i` may be out of order; its children are in order with its parent.
  pub record DownInv (xs : List A) (i : ℕ) : Type 0 where
    pub edges :
        (c : ℕ) → 0 < c → c < length xs → parent c ≢ i → key rank xs (parent c) ≤ key rank xs c
    pub bridged :
        (c : ℕ)
        → 0 < c
        → c < length xs
        → parent c ≡ i
        → 0 < i
        → key rank xs (parent i) ≤ key rank xs c

  -- The better of the best so far and a child, if the child exists.
  record IsBetter (xs : List A) (child best m : ℕ) : Type 0 where
    inside : m < length xs
    chosen : ((m ≡ child) × (child < length xs)) ⊎ (m ≡ best)
    beats_best : key rank xs m ≤ key rank xs best
    beats_child : child < length xs → key rank xs m ≤ key rank xs child

  better_child-IsBetter :
      (cmp : A → A → Bool) (v : Vector A) (xs : List A) (child best : ℕ)
      → Ranks rank cmp
      → Filled v xs
      → best < length xs
      → (m : ℕ) × (better_child cmp v child best ≡ some m) × IsBetter xs child best m
  unfolding better_child size_vector
  better_child-IsBetter cmp v xs child best r h hb = elim (Bool-cases (ltb child v.size)) [
    | inr outside ↦ (
      best,
      rw outside refl,
      record {
        inside = hb;
        chosen = inr refl;
        beats_best = omega arith;
        beats_child = λ p. absurd (ground (arith, size-Filled h));
      },
    )
    | inl there ↦
        let hc : child < length xs = ground (arith, size-Filled h) in
        let (x, hx) = get_elem?-some xs child hc in
        let (y, hy) = get_elem?-some xs best hb in
        let lx = load-get_vector child h ∙ hx in
        let ly = load-get_vector best h ∙ hy in
        let kx = key-get_elem? rank xs child hx in
        let ky = key-get_elem? rank xs best hy in
        elim (Bool-cases (cmp x y)) [
          | inl better ↦ (
            child,
            rw (there, lx, ly, better) refl,
            record {
              inside = hc;
              chosen = inl (refl, hc);
              beats_best = ground (arith, r x y, better, kx, ky);
              beats_child = λ p. omega arith;
            },
          )
          | inr worse ↦ (
            best,
            rw (there, lx, ly, worse) refl,
            record {
              inside = hb;
              chosen = inr refl;
              beats_best = omega arith;
              beats_child = λ p. ground (arith, r x y, worse, kx, ky);
            },
          )
        ]
  ]

  -- The best of an element and its children.
  record IsBest (xs : List A) (i m : ℕ) : Type 0 where
    inside : m < length xs
    chosen : (m ≡ i) ⊎ ((parent m ≡ i) × (0 < m))
    beats_self : key rank xs m ≤ key rank xs i
    beats_children : (c : ℕ) → 0 < c → c < length xs → parent c ≡ i → key rank xs m ≤ key rank xs c

  make-IsBest :
      (xs : List A) (i left m : ℕ)
      → IsBetter xs (2 * i + 1) i left
      → IsBetter xs (2 * i + 2) left m
      → IsBest xs i m
  make-IsBest xs i left m a b = record {
    inside = b.inside;
    chosen = ground (arith, a.chosen, b.chosen);
    beats_self = omega (arith, a.beats_best, b.beats_best);
    beats_children = λ c p q e.
        let which : (c ≡ 2 * i + 1) ⊎ (c ≡ 2 * i + 2) = omega arith in
        elim which [
          | inl s ↦ ground (arith, s, ap (key rank xs) s, a.beats_child, b.beats_best)
          | inr s ↦ ground (arith, s, ap (key rank xs) s, b.beats_child)
        ];
  }

  swap-DownInv :
      (xs : List A) (i m : ℕ) (x y : A)
      → get_elem? xs i ≡ some x
      → get_elem? xs m ≡ some y
      → i < length xs
      → DownInv xs i
      → IsBest xs i m
      → m ≢ i
      → DownInv (set (set xs i y) m x) m
  swap-DownInv xs i m x y hi hm inside d b ne =
      let size = length-swapped rank xs i m x y hi hm inside b.inside in
      let at = key-swapped rank xs i m x y hi hm inside b.inside in
      let child : (parent m ≡ i) × (0 < m) = ground (arith, b.chosen) in
      record {
        edges = λ c p q r. ground (
          arith,
          child,
          size,
          at c,
          at (parent c),
          d.edges c,
          d.bridged m,
          b.beats_children c,
          b.beats_self,
        );
        bridged = λ c p q r t. ground (arith, child, size, at c, at (parent m), d.edges c);
      }

  -- One round of the loop: the element stays, or sinks to the best child.
  module _ (cmp : A → A → Bool) (fuel : ℕ) (v : Vector A) (i left m : ℕ)
      (first : better_child cmp v (add_size (mul_size 2 i) 1) i ≡ some left)
      (second : better_child cmp v (add_size (mul_size 2 i) 2) left ≡ some m) where
    stays : m ≡ i → sift_down_loop (suc fuel) cmp v i ≡ some v
    unfolding sift_down_loop
    stays e = rw (first, second, eq→== m i e) refl

    sinks :
        (w : Vector A) (x y : A)
        → m ≢ i
        → load v (get_vector (some v) i) ≡ some x
        → load v (get_vector (some v) m) ≡ some y
        → exchange v i m x y ≡ some w
        → sift_down_loop (suc fuel) cmp v i ≡ sift_down_loop fuel cmp w m
    unfolding sift_down_loop
    sinks w x y ne lx ly moved = rw (first, second, ne→==_false m i ne, lx, ly, moved) refl

  child_index :
      (xs : List A) (i : ℕ)
      → i < length xs
      → length xs + length xs < size_mod
      → (add_size (mul_size 2 i) 1 ≡ 2 * i + 1) × (add_size (mul_size 2 i) 2 ≡ 2 * i + 2)
  child_index xs i h k = omega arith

  better_children :
      (cmp : A → A → Bool) (v : Vector A) (xs : List A) (i : ℕ)
      → Ranks rank cmp
      → Filled v xs
      → i < length xs
      → length xs + length xs < size_mod
      → (left : ℕ) × (m : ℕ) × (better_child cmp v (add_size (mul_size 2 i) 1) i ≡ some left)
        × (better_child cmp v (add_size (mul_size 2 i) 2) left ≡ some m)
        × IsBest xs i m
  better_children cmp v xs i r h inside k =
      let (e₁, e₂) = child_index xs i inside k in
      let (left, first, a) = better_child-IsBetter cmp v xs (2 * i + 1) i r h inside in
      let (m, second, b) = better_child-IsBetter cmp v xs (2 * i + 2) left r h a.inside in
      (left, m, rw e₁ first, rw e₂ second, make-IsBest xs i left m a b)

  settled-IsHeap : (xs : List A) (i m : ℕ) → DownInv xs i → IsBest xs i m → m ≡ i → IsHeap rank xs
  settled-IsHeap xs i m d b e c p q =
      ground (arith, d.edges c, b.beats_children c, ap (key rank xs) e)

  -- With as much fuel as elements behind the index and one, the loop ends, and turns a list with one
  -- element that is too high in the tree into a heap of the same elements.
  pub sift_down_loop-Ordered :
      (cmp : A → A → Bool) (fuel : ℕ) (v : Vector A) (xs : List A) (i : ℕ)
      → Ranks rank cmp
      → length xs - i < fuel
      → i < length xs
      → length xs + length xs < size_mod
      → Filled v xs
      → DownInv xs i
      → Ordered rank xs (sift_down_loop fuel cmp v i)
  sift_down_loop-Ordered cmp zero v xs i r f inside k h d = absurd (omega arith)
  sift_down_loop-Ordered cmp (suc fuel) v xs i r f inside k h d =
      let (left, m, first, second, b) = better_children cmp v xs i r h inside k in
      elim (Bool-cases (m == i)) [
        | inl same ↦
            let e = ==→eq m i same in
            (
              v,
              xs,
              stays cmp fuel v i left m first second e,
              h,
              settled-IsHeap xs i m d b e,
              Perms.rfl,
            )
        | inr other ↦
            let ne = ==_false→ne m i other in
            let (x, hx) = get_elem?-some xs i inside in
            let (y, hy) = get_elem?-some xs m b.inside in
            let lx = load-get_vector i h ∙ hx in
            let ly = load-get_vector m h ∙ hy in
            let (w, moved, hw) = exchange-Filled i m x y h inside b.inside in
            let size = length-swapped rank xs i m x y hx hy inside b.inside in
            let further : i < m = ground (arith, b.chosen, ne) in
            let (z, ys, out, hz, heap, perm) =
              sift_down_loop-Ordered cmp fuel w (set (set xs i y) m x) m r
                (omega (arith, f, size, further, b.inside)) (omega (arith, size, b.inside))
                (omega (arith, size, k)) hw (swap-DownInv xs i m x y hx hy inside d b ne) in
            (
              z,
              ys,
              sinks cmp fuel v i left m first second w x y ne lx ly moved ∙ out,
              hz,
              heap,
              Perms.trans perm (perm-swapped rank xs i m x y hx hy inside b.inside),
            )
      ]
