-- ===== src/PriorityQueue/Pop.antt =====
-- `cdsa_pop_pq` takes a best element off the heap.
use native.Mathlib.Bridge.{le_prop}
use mathlib.Core.List.{Mem, Perm, perm_middle, append-nil, not-mem-nil, forall_mem-cons}
use mathlib.Core.List.Perm as Perms
use cdsa.Base.{
  ◌>>=◌, ℕ, zero, suc, ◌+◌, ◌-◌, ◌≤◌, ◌<◌, ◌≡◌, ◌⊎◌, refl, sym, ap, subst, ◌∙◌, true, false, Option,
  none, some, List, [], ◌∷◌, ◌++◌, map, length, set, take, length-append, length-take, length-set,
  take-append_le, take-length, get_elem?, get_elem?-some, cell, ◌==◌, ne→==_false, if◌then◌else◌,
  inl, inr, Bool-cases, Option-cases, add_size, size_mod, arith,
}
use cdsa.Error.{Status, ok, oom, empty}
use cdsa.Allocator.{Memory, Pointer, word, malloc_track, free_track}
use cdsa.Vector.{
  Vector, get_vector, set_vector, pop_vector, front_vector, back_vector, is_empty_vector,
}
use cdsa.Vector.Contents.{contents, pop_vector_lem, pointers_lem}
use cdsa.PriorityQueue.{
  PriorityQueue, ◌>>=◌, load, pull_last, sift_down, sift_down_loop, finished, sifting, handed_over,
  is_empty_pq, pop_pq,
}
use cdsa.PriorityQueue.Cells.{
  Filled, length-map-some, size-Filled, load-get_vector, set_vector-Filled,
}
use cdsa.PriorityQueue.Order.{Ranks, parent, key, key-get_elem?, IsHeap}
use cdsa.PriorityQueue.Up.{Ordered}
use cdsa.PriorityQueue.Down.{DownInv, sift_down_loop-Ordered}

module _ {ℓ} {A : Type ℓ} where
  -- The list without its last element, which stands in the place of the first.
  abbrev pub pulled : List A → ℕ → A → List A
  pulled xs n last = take n (set xs 0 last)

  take-map-some : (n : ℕ) (xs : List A) → take n (map some xs) ≡ map some (take n xs)
  take-map-some zero xs = refl
  take-map-some (suc n) [] = refl
  take-map-some (suc n) (x ∷ xs) = ap (◌∷◌ (some x)) (take-map-some n xs)

  take-snoc :
      (xs : List A) (n : ℕ) (x : A)
      → length xs ≡ suc n
      → get_elem? xs n ≡ some x
      → take n xs ++ x ∷ [] ≡ xs
  take-snoc [] n x h e = absurd (omega arith)
  take-snoc (y ∷ []) zero x h e = ground (arith, e)
  take-snoc (y ∷ z ∷ xs) zero x h e = absurd (omega arith)
  take-snoc (y ∷ xs) (suc n) x h e = ap (◌∷◌ y) (take-snoc xs n x (omega arith) e)

  -- The first element and those that are left are the old elements.
  perm-pulled :
      (xs : List A) (n : ℕ) (x last : A)
      → length xs ≡ suc n
      → get_elem? xs 0 ≡ some x
      → get_elem? xs n ≡ some last
      → Perm (x ∷ pulled xs n last) xs
  perm-pulled [] n x last h e₀ e₁ = absurd (omega arith)
  perm-pulled (y ∷ []) zero x last h e₀ e₁ =
      subst (λ t. Perm (x ∷ []) (t ∷ [])) (ground (arith, e₀)) Perms.rfl
  perm-pulled (y ∷ z ∷ xs) zero x last h e₀ e₁ = absurd (omega arith)
  perm-pulled (y ∷ xs) (suc n) x last h e₀ e₁ =
      let same : x ≡ y = ground (arith, e₀) in
      let whole = take-snoc xs n last (omega arith) e₁ in
      subst (λ t. Perm (x ∷ last ∷ take n xs) (t ∷ xs)) same
        (Perms.cons x (
          subst (λ l. Perm (last ∷ take n xs) l) whole
            (Perms.symm (rw append-nil at (perm_middle {a = last} (take n xs) [])))))

  pop_vector-Filled :
      {v : Vector A} {xs : List A} (n : ℕ)
      → Filled v xs
      → length xs ≡ suc n
      → (w : Vector A) × (pop_vector (some v) ≡ (ok, some w)) × Filled w (take n xs)
  pop_vector-Filled {v} {xs} n f h =
      let (w, done, valid, size, whole) =
        (pop_vector_lem v f.valid).1 (omega (arith, size-Filled f, h)) in
      let shorter : length (contents w) ≡ n = omega (
        arith,
        ap length (whole ∙ f.holds),
        length-append (contents w) (cell v.cells (v.size - 1) ∷ []),
        length-map-some xs,
        h,
      ) in
      (
        w,
        done,
        record {
          valid = valid;
          holds =
              sym (take-length (contents w))
              ∙ ap (λ k. take k (contents w)) shorter
              ∙ sym (
                  take-append_le (contents w) (cell v.cells (v.size - 1) ∷ []) n
                    (omega (arith, shorter)))
              ∙ ap (take n) (whole ∙ f.holds)
              ∙ take-map-some n xs;
        },
      )

  -- The pointers that a pop reads through.
  load-ends :
      {v : Vector A} {xs : List A} (n : ℕ)
      → Filled v xs
      → length xs ≡ suc n
      → (load v (front_vector (some v)) ≡ get_elem? xs 0)
        × (load v (back_vector (some v)) ≡ get_elem? xs n)
  unfolding is_empty_vector
  load-ends {v} {xs} n f h =
      let (_, front, back, _) = pointers_lem v 0 f.valid in
      let size : v.size ≡ suc n = omega (arith, size-Filled f, h) in
      let some_left : (v.size == 0) ≡ false = ne→==_false v.size 0 (omega (arith, size)) in
      (
        ap (load v) front ∙ load-get_vector 0 f,
        ap (load v) (back ∙ rw some_left (ap (get_vector (some v)) (omega (arith, size))))
            ∙ load-get_vector n f,
      )

  pull_last-Filled :
      {v : Vector A} {xs : List A} (n : ℕ) (last : A)
      → Filled v xs
      → length xs ≡ suc n
      → get_elem? xs n ≡ some last
      → (w : Vector A) × (pull_last v ≡ some w) × Filled w (pulled xs n last)
  unfolding pull_last
  pull_last-Filled {v} {xs} n last f h e =
      let (u, written, g) = set_vector-Filled 0 last f (omega (arith, h)) in
      let (w, popped, k) = pop_vector-Filled n g (length-set xs 0 last ∙ h) in
      (
        w,
        ap (λ o. o >>= λ y. (set_vector (some v) 0 (some y)).1 >>= λ t. (pop_vector (some t)).1)
              ((load-ends n f h).1 ∙ e)
            ∙ ap (λ o. o.1 >>= λ t. (pop_vector (some t)).1) written
            ∙ ap (λ o. o.1) popped,
        k,
      )

module _ {ℓ} {A : Type ℓ} (rank : A → ℕ) where
  key-pulled :
      (xs : List A) (n : ℕ) (last : A) (i : ℕ)
      → 0 < i
      → i < n
      → key rank (pulled xs n last) i ≡ key rank xs i
  unfolding key
  key-pulled xs zero last i h p = absurd (omega arith)
  key-pulled [] (suc n) last i h p = refl
  key-pulled (x ∷ xs) (suc n) last zero h p = absurd (omega arith)
  key-pulled (x ∷ xs) (suc n) last (suc i) h p = key-take xs n i (omega arith)
    where
      key-take : (xs : List A) (n i : ℕ) → i < n → key rank (take n xs) i ≡ key rank xs i
      key-take xs zero i p = absurd (omega arith)
      key-take [] (suc n) i p = refl
      key-take (x ∷ xs) (suc n) zero p = refl
      key-take (x ∷ xs) (suc n) (suc i) p = key-take xs n i (omega arith)

  length-pulled :
      (xs : List A) (n : ℕ) (last : A) → length xs ≡ suc n → length (pulled xs n last) ≡ n
  length-pulled xs n last h = omega (arith, length-take n (set xs 0 last), length-set xs 0 last, h)

  pulled-DownInv :
      (xs : List A) (n : ℕ) (last : A)
      → length xs ≡ suc n
      → IsHeap rank xs
      → DownInv rank (pulled xs n last) 0
  pulled-DownInv xs n last h heap =
      let size = length-pulled xs n last h in
      record {
        edges = λ c p q r.
            ground
              (arith, size, h, heap c, key-pulled xs n last c, key-pulled xs n last (parent c));
        bridged = λ c p q r t. absurd (omega arith);
      }

  -- The root of a heap ranks no later than any element.
  root_first :
      (fuel : ℕ) (xs : List A) (i : ℕ)
      → IsHeap rank xs
      → i < fuel
      → i < length xs
      → key rank xs 0 ≤ key rank xs i
  root_first zero xs i h f p = absurd (omega arith)
  root_first (suc fuel) xs i h f p = ground (arith, h i, root_first fuel xs (parent i) h)

  le_of_mem :
      (xs : List A) (b : ℕ)
      → ((i : ℕ) → i < length xs → b ≤ key rank xs i)
      → (y : A) → Mem y xs
      → b ≤ rank y
  unfolding key
  le_of_mem [] b h = λ y m. absurd (not-mem-nil m)
  le_of_mem (x ∷ xs) b h =
      (forall_mem-cons λ y. le_prop).1
        (h 0 (omega arith), le_of_mem xs b λ i p. h (suc i) (omega arith))

  -- How a pop on a queue of `xs`, not empty, ends: an element that no other ranks before is written
  -- out, and the others are left; in heap order if the status is OK, and it is not only if there was
  -- no memory for the sift, where it is OOM.
  abbrev pub PoppedOff :
      PriorityQueue A
      → List A
      → Memory
      → Option (Status × Option A × Option (PriorityQueue A) × Memory)
      → Type ℓ
  PoppedOff pq xs m r =
      (s : Status) × (x : A) × (w : Vector A) × (ys : List A) × (n : Memory) × (r
        ≡ some (s, some x, some (record pq { items = some w }), n))
      × Filled w ys
      × Perm (x ∷ ys) xs
      × ((y : A) → Mem y xs → rank x ≤ rank y)
      × (n.libc ≡ m.libc)
      × (((s ≡ ok) × IsHeap rank ys) ⊎ ((s ≡ oom) × ((malloc_track pq.elem_size m).0 ≡ none)))

  abbrev SiftedDown : ℕ → List A → Memory → Option (Status × Vector A × Memory) → Type ℓ
  SiftedDown elem_size xs m r =
      (s : Status) × (w : Vector A) × (ys : List A) × (n : Memory) × (r ≡ some (s, w, n))
      × Filled w ys
      × Perm ys xs
      × (n.libc ≡ m.libc)
      × (((s ≡ ok) × IsHeap rank ys) ⊎ ((s ≡ oom) × ((malloc_track elem_size m).0 ≡ none)))

  libc-malloc_track : (size : ℕ) (m : Memory) → (malloc_track size m).1.libc ≡ m.libc
  unfolding malloc_track
  libc-malloc_track size m = elim (Option-cases (m.libc m.calls (add_size size word))) [
    | inl e ↦ rw e refl
    | inr (a, e) ↦ rw e refl
  ]

  sifting-SiftedDown :
      (v : Vector A) (xs : List A) (r : Option (Vector A)) (size : ℕ) (m : Memory)
      → Filled v xs
      → Ordered rank xs r
      → SiftedDown size xs m (sifting v r (malloc_track size m))
  unfolding free_track
  sifting-SiftedDown v xs r size m f (w, ys, out, g, heap, perm) = go (malloc_track size m) refl
    where
      go :
          (o : Option Pointer × Memory)
          → malloc_track size m ≡ o
          → SiftedDown size xs m (sifting v r o)
      go (none, n) e = (
        oom,
        v,
        xs,
        n,
        refl,
        f,
        Perms.rfl,
        ap (λ o. o.1.libc) (sym e) ∙ libc-malloc_track size m,
        inr (refl, ap (λ o. o.0) e),
      )
      go (some temp, n) e = (
        ok,
        w,
        ys,
        free_track (some temp) n,
        ap (finished temp n) out,
        g,
        perm,
        ap (λ o. o.1.libc) (sym e) ∙ libc-malloc_track size m,
        inl (refl, heap),
      )

  -- The last step of a pop: nothing for an empty vector, else the sift.
  abbrev settle : PriorityQueue A → Vector A → Memory → Option (Status × Vector A × Memory)
  settle pq w m = if is_empty_vector (some w) then some (ok, w, m) else sift_down pq w 0 m

  settle-SiftedDown :
      (pq : PriorityQueue A) (w : Vector A) (ys : List A) (m : Memory)
      → Ranks rank pq.cmp
      → Filled w ys
      → DownInv rank ys 0
      → length ys + length ys < size_mod
      → SiftedDown pq.elem_size ys m (settle pq w m)
  unfolding is_empty_vector sift_down
  settle-SiftedDown pq w ys m r f d k =
      let size = size-Filled f in
      elim (Bool-cases (w.size == 0)) [
        | inl done ↦ rw done (
          ok,
          w,
          ys,
          m,
          refl,
          f,
          Perms.rfl,
          refl,
          inl (refl, λ c p q. absurd (ground (arith, size))),
        )
        | inr more ↦ rw more (
            sifting-SiftedDown w ys (sift_down_loop (suc w.size) pq.cmp w 0) pq.elem_size m f (
              sift_down_loop-Ordered rank pq.cmp (suc w.size) w ys 0 r (omega (arith, size))
                (ground (arith, size)) k f d))
      ]

  pop_pq-steps :
      (pq : PriorityQueue A) (v w : Vector A) (top : A) (m : Memory)
      → pq.items ≡ some v
      → is_empty_vector (some v) ≡ false
      → load v (front_vector (some v)) ≡ some top
      → pull_last v ≡ some w
      → pop_pq (some pq) true m ≡ (settle pq w m >>= handed_over pq top)
  unfolding pop_pq is_empty_pq
  pop_pq-steps pq v w top m e full first pulled =
      ap (λ b. if b then some (empty, none, some pq, m) else go pq.items)
        (ap is_empty_vector e ∙ full)
      ∙ ap go e
      ∙ ap (λ o. o >>= λ t. pull_last v >>= λ u. settle pq u m >>= handed_over pq t) first
      ∙ ap (λ o. o >>= λ u. settle pq u m >>= handed_over pq top) pulled
    where
      go : Option (Vector A) → Option (Status × Option A × Option (PriorityQueue A) × Memory)
      go o = o >>= λ t. load t (front_vector (some t)) >>= λ x.
          pull_last t >>= λ u. settle pq u m >>= handed_over pq x

  -- On a queue that is a heap and not empty, with a comparison by a rank and a size whose double is no
  -- overflow, a pop ends without a bad access: it writes out an element that no other ranks before and
  -- leaves the others, in heap order with OK; it returns OOM only where the sift gets no memory.
  pub pop_pq-PoppedOff :
      (pq : PriorityQueue A) (v : Vector A) (xs : List A) (m : Memory)
      → Ranks rank pq.cmp
      → pq.items ≡ some v
      → Filled v xs
      → IsHeap rank xs
      → 0 < length xs
      → length xs + length xs < size_mod
      → PoppedOff pq xs m (pop_pq (some pq) true m)
  unfolding is_empty_vector
  pop_pq-PoppedOff pq v xs m r e f heap pos k =
      let n = length xs - 1 in
      let size : length xs ≡ suc n = omega arith in
      let (x, hx) = get_elem?-some xs 0 pos in
      let (last, hl) = get_elem?-some xs n (omega arith) in
      let (w, cut, g) = pull_last-Filled n last f size hl in
      let full : (v.size == 0) ≡ false = ne→==_false v.size 0 (omega (arith, size-Filled f)) in
      let (s, u, ys, m', out, fu, perm, kept, how) =
        settle-SiftedDown pq w (pulled xs n last) m r g (pulled-DownInv xs n last size heap)
          (omega (arith, length-pulled xs n last size, k)) in
      (
        s,
        x,
        u,
        ys,
        m',
        pop_pq-steps pq v w x m e full ((load-ends n f size).0 ∙ hx) cut
            ∙ ap (λ o. o >>= handed_over pq x) out,
        fu,
        Perms.trans (Perms.cons x perm) (perm-pulled xs n x last size hx hl),
        le_of_mem xs (rank x) λ i p.
            omega (arith, key-get_elem? rank xs 0 hx, root_first (suc i) xs i heap (omega arith) p),
        kept,
        how,
      )
