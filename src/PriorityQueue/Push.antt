-- ===== src/PriorityQueue/Push.antt =====
-- `cdsa_push_pq` keeps the heap.
use mathlib.Core.List.{Perm, perm_middle, append-nil, map-append}
use mathlib.Core.List.Perm as Perms
use cdsa.Base.{
  ℕ, zero, suc, ◌*◌, ◌<◌, ◌≡◌, ◌⊎◌, refl, sym, ap, subst, ◌∙◌, Option, none, some, List, [], ◌∷◌,
  ◌++◌, map, length, length-append, ◌==◌, inl, inr, Bool-cases, sub_size, size_mod, arith,
}
use cdsa.Error.{Status, ok, oom}
use cdsa.Allocator.{Memory, Pointer, malloc_track, free_track}
use cdsa.Vector.{Vector, push_vector, size_vector}
use cdsa.Vector.Inv.{capacity-lt}
use cdsa.Vector.Contents.{contents, Pushed, push_vector-Pushed}
use cdsa.PriorityQueue.{
  PriorityQueue, sift_up, sift_up_loop, finished, sifting, sifted, after_push, push_pq,
}
use cdsa.PriorityQueue.Cells.{Filled, size-Filled}
use cdsa.PriorityQueue.Order.{Ranks, parent, key, IsHeap}
use cdsa.PriorityQueue.Up.{UpInv, Ordered, sift_up_loop-Ordered}

module _ {ℓ} {A : Type ℓ} where
  -- The queue stands on a vector in order with these elements.
  abbrev pub Holds : PriorityQueue A → List A → Type ℓ
  Holds pq xs = (v : Vector A) × (pq.items ≡ some v) × Filled v xs

module _ {ℓ} {A : Type ℓ} (rank : A → ℕ) where
  key-append : (xs ys : List A) (i : ℕ) → i < length xs → key rank (xs ++ ys) i ≡ key rank xs i
  unfolding key
  key-append [] ys i h = absurd (omega arith)
  key-append (x ∷ xs) ys zero h = refl
  key-append (x ∷ xs) ys (suc i) h = key-append xs ys i (omega arith)

  -- Behind a heap, only the edge above the new element may be out of order.
  append-UpInv : (xs : List A) (x : A) → IsHeap rank xs → UpInv rank (xs ++ x ∷ []) (length xs)
  append-UpInv xs x h =
      let size = length-append xs (x ∷ []) in
      record {
        inside = omega (arith, size);
        edges = λ c p q r.
            ground (arith, size, h c, key-append xs (x ∷ []) c, key-append xs (x ∷ []) (parent c));
        bridged = λ c p q r t. absurd (omega (arith, size));
      }

  -- The sift ends: a heap of the same elements, or no memory for the swaps and the vector as it was.
  abbrev SiftedUp : Vector A → List A → Option (Status × Vector A × Memory) → Type ℓ
  SiftedUp v xs r =
      ((w : Vector A) × (ys : List A) × (m : Memory) × (r ≡ some (ok, w, m))
        × Filled w ys
        × IsHeap rank ys
        × Perm ys xs)
      ⊎ ((m : Memory) × (r ≡ some (oom, v, m)))

  sifting-SiftedUp :
      (v : Vector A) (xs : List A) (r : Option (Vector A)) (o : Option Pointer × Memory)
      → Ordered rank xs r
      → SiftedUp v xs (sifting v r o)
  sifting-SiftedUp v xs r (none, m) e = inr (m, refl)
  sifting-SiftedUp v xs r (some temp, m) (w, ys, out, f, heap, perm) =
      inl (w, ys, free_track (some temp) m, ap (finished temp m) out, f, heap, perm)

  sift_up-SiftedUp :
      (pq : PriorityQueue A) (v : Vector A) (xs : List A) (i : ℕ) (m : Memory)
      → Ranks rank pq.cmp
      → Filled v xs
      → UpInv rank xs i
      → SiftedUp v xs (sift_up pq v i m)
  unfolding sift_up
  sift_up-SiftedUp pq v xs i m r f u = elim (Bool-cases (i == 0)) [
    | inl root ↦
        rw root (inl (v, xs, m, refl, f, (λ c p q. u.edges c p q (ground arith)), Perms.rfl))
    | inr below ↦ rw below (
        sifting-SiftedUp v xs (sift_up_loop (suc i) pq.cmp v i) (malloc_track pq.elem_size m)
          (sift_up_loop-Ordered rank pq.cmp (suc i) v xs i r (omega arith) f u))
  ]

  -- How a push of `x` on a queue of `xs` ends. OK: the queue is a heap of `x` and the old elements.
  -- OOM: the elements are the old ones, or, where the vector took `x` and there was no memory for
  -- the sift, `x` stands behind them.
  abbrev pub PushedOn :
      PriorityQueue A → A → List A → Option (Status × Option (PriorityQueue A) × Memory) → Type ℓ
  PushedOn pq x xs r =
      ((w : Vector A) × (ys : List A) × (m : Memory) × (r
          ≡ some (ok, some (record pq { items = some w }), m))
        × Filled w ys
        × IsHeap rank ys
        × Perm ys (x ∷ xs))
      ⊎ ((w : Vector A) × (m : Memory) × (r ≡ some (oom, some (record pq { items = some w }), m))
          × ((contents w ≡ map some xs) ⊎ (contents w ≡ map some (xs ++ x ∷ []))))

  sifted-PushedOn :
      (pq : PriorityQueue A) (x : A) (xs : List A) (v : Vector A)
      (r : Option (Status × Vector A × Memory))
      → Filled v (xs ++ x ∷ [])
      → SiftedUp v (xs ++ x ∷ []) r
      → PushedOn pq x xs (sifted pq r)
  sifted-PushedOn pq x xs v r f (inl (w, ys, m, out, g, heap, perm)) = inl (
    w,
    ys,
    m,
    ap (sifted pq) out,
    g,
    heap,
    Perms.trans perm (rw append-nil at (perm_middle {a = x} xs [])),
  )
  sifted-PushedOn pq x xs v r f (inr (m, out)) = inr (v, m, ap (sifted pq) out, inr f.holds)

  -- On a queue that is a heap, with a comparison by a rank and where the doubled storage does not
  -- overflow, a push ends without a bad access. OK: the queue is a heap of `x` and the old elements.
  -- OOM: its elements are the old ones, or these with `x` at the end.
  pub push_pq-PushedOn :
      (pq : PriorityQueue A) (v : Vector A) (xs : List A) (x : A) (m : Memory)
      → Ranks rank pq.cmp
      → pq.items ≡ some v
      → Filled v xs
      → IsHeap rank xs
      → v.capacity * 2 * v.elem_size < size_mod
      → PushedOn pq x xs (push_pq (some pq) (some x) m)
  unfolding push_pq size_vector
  push_pq-PushedOn pq v xs x m r e f heap k =
      subst (λ o. PushedOn pq x xs (after_push pq (push_vector o (some x) m))) (sym e)
        (go (push_vector-Pushed v x m f.valid k))
    where
      go :
          Pushed v x (push_vector (some v) (some x) m)
          → PushedOn pq x xs (after_push pq (push_vector (some v) (some x) m))
      go (inr (w, m', out, _, same, _)) = inr (w, m', ap (after_push pq) out, inl (same ∙ f.holds))
      go (inl (w, m', out, valid, grown, size, _)) =
          let g : Filled w (xs ++ x ∷ []) = record {
            valid = valid;
            holds = grown ∙ ap (λ l. l ++ some x ∷ []) f.holds ∙ sym (map-append some xs (x ∷ []));
          } in
          let last : sub_size w.size 1 ≡ length xs =
            omega (arith, size, size-Filled f, capacity-lt w valid, valid.within) in
          rw out (
            rw last (
              sifted-PushedOn pq x xs w (sift_up pq w (length xs) m') g
                (sift_up-SiftedUp pq w (xs ++ x ∷ []) (length xs) m' r g (append-UpInv xs x heap))))
