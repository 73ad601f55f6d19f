-- ===== src/PriorityQueue/Drain.antt =====
-- A client that pops until the queue is empty gets its elements in order.
use mathlib.Core.List.{Perm, Pairwise, mem-cons_of_mem}
use mathlib.Core.List.Perm as Perms
use cdsa.Base.{
  ℕ, zero, suc, ◌+◌, ◌≤◌, ◌<◌, ◌≡◌, ◌≢◌, refl, true, Option, none, some, List, [], ◌∷◌, length, inl,
  inr, add_size, size_mod, arith,
}
use cdsa.Error.{Status, ok}
use cdsa.Allocator.{Memory, word, malloc_track}
use cdsa.Vector.{Vector}
use cdsa.PriorityQueue.{PriorityQueue, pop_pq}
use cdsa.PriorityQueue.Cells.{Filled}
use cdsa.PriorityQueue.Order.{Ranks, IsHeap, length-perm}
use cdsa.PriorityQueue.Pop.{PoppedOff, pop_pq-PoppedOff}

-- The C library serves every request.
abbrev pub Serves : Memory → Type 0
Serves m = (n size : ℕ) → (a : ℕ) × (m.libc n size ≡ some a)

served : (size : ℕ) (m : Memory) → Serves m → (malloc_track size m).0 ≢ none
unfolding malloc_track
served size m h e = let (a, q) = h m.calls (add_size size word) in cc (rw q at e)

module _ {ℓ} {A : Type ℓ} where
  abbrev collected :
      (PriorityQueue A → Memory → List A)
      → Option (Status × Option A × Option (PriorityQueue A) × Memory)
      → List A
  collected rest (some (ok, some x, some pq, m)) = x ∷ rest pq m
  collected rest other = []

  -- `while (pop(q, &x) == CDSA_OK) visit(x);`, with fuel.
  pub drain : ℕ → PriorityQueue A → Memory → List A
  drain zero pq m = []
  drain (suc fuel) pq m = collected (drain fuel) (pop_pq (some pq) true m)

module _ {ℓ} {A : Type ℓ} (rank : A → ℕ) where
  abbrev pub IsSorted : List A → Type ℓ
  IsSorted = Pairwise (λ x y. rank x ≤ rank y)

  -- Where memory is served, popping a queue that is a heap until it is empty takes as many calls as it
  -- has elements, each returns OK, and they yield exactly its elements, the best first.
  pub drain_sorts :
      (fuel : ℕ) (pq : PriorityQueue A) (v : Vector A) (xs : List A) (m : Memory)
      → Ranks rank pq.cmp
      → pq.items ≡ some v
      → Filled v xs
      → IsHeap rank xs
      → length xs + length xs < size_mod
      → Serves m
      → length xs ≡ fuel
      → IsSorted (drain fuel pq m) × Perm (drain fuel pq m) xs
  unfolding drain
  drain_sorts zero pq v [] m r e f heap k serves h = (Pairwise.nil, Perms.nil)
  drain_sorts zero pq v (x ∷ xs) m r e f heap k serves h = absurd (omega arith)
  drain_sorts (suc fuel) pq v xs m r e f heap k serves h =
      go (pop_pq-PoppedOff rank pq v xs m r e f heap (omega (arith, h)) k)
        (λ w ys n x g heap' perm kept.
          drain_sorts fuel (record pq { items = some w }) w ys n r refl g heap'
            (omega (arith, length-perm perm, k, h)) (λ a b. rw kept (serves a b))
            (omega (arith, length-perm perm, h)))
    where
      go :
          PoppedOff rank pq xs m (pop_pq (some pq) true m)
          → ((w : Vector A) (ys : List A) (n : Memory) (x : A)
              → Filled w ys
              → IsHeap rank ys
              → Perm (x ∷ ys) xs
              → n.libc ≡ m.libc
              → IsSorted (drain fuel (record pq { items = some w }) n)
                × Perm (drain fuel (record pq { items = some w }) n) ys)
          → IsSorted (collected (drain fuel) (pop_pq (some pq) true m))
            × Perm (collected (drain fuel) (pop_pq (some pq) true m)) xs
      go (s, x, w, ys, n, out, g, perm, least, kept, inr (_, refused)) rest =
          absurd (served pq.elem_size m serves refused)
      go (s, x, w, ys, n, out, g, perm, least, kept, inl (fine, heap')) rest =
          let (sorted, same) = rest w ys n x g heap' perm kept in
          let all = Perms.trans (Perms.cons x same) perm in
          rw (out, fine)
            (
              Pairwise.cons (λ y i. least y ((Perms.mem_iff all).0 (mem-cons_of_mem x i))) sorted,
              all,
            )
