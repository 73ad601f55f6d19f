-- ===== src/RingBuffer/Iterator/Walk.antt =====
-- A client's walk over a ring buffer, and what a change of the buffer does to it.
use native.Mathlib.Decide.{dec_lt}
use native.Mathlib.Nat.{mod-eq_of_lt, mod-lt, add-zero}
use native.Mathlib.Numerals.{add-one}
use cdsa.Base.{
  ℕ, zero, suc, ◌+◌, ◌%◌, ◌≤◌, ◌<◌, ◌≡◌, ◌≢◌, ap, sym, ◌∙◌, true, false, Option, none, some, List,
  [], ◌∷◌, drop, drop-cell, drop-length, cell, size_mod, arith,
}
use cdsa.Error.{Status, ok, not_found, iter_invalidated}
use cdsa.Allocator.{Memory, malloc_track}
use cdsa.BoundedDeque.{Op, push_front, push_back, pop_front, pop_back}
use cdsa.RingBuffer.{
  RingBuffer, push_back_ringbuffer, push_front_ringbuffer, pop_front_ringbuffer,
  pop_back_ringbuffer,
}
use cdsa.RingBuffer.Window.{window, shift}
use cdsa.RingBuffer.Inv.{IsValid}
use cdsa.RingBuffer.Refine.{contents, length-contents, apply}
use cdsa.RingBuffer.Iterator.{Iterator, create_iterator, has_next, next}

module _ {ℓ} {A : Type ℓ} where
  cell-window :
      (cells : List (Option A)) (capacity h n i : ℕ)
      → h < capacity
      → i < n
      → cell (window capacity cells h n) i ≡ cell cells ((h + i) % capacity)
  cell-window cells c h zero i p q = absurd (omega arith)
  cell-window cells c h (suc n) zero p q = rw (add-zero, mod-eq_of_lt p)
  cell-window cells c h (suc n) (suc i) p q =
      cell-window cells c ((h + 1) % c) n i (mod-lt (h + 1) (omega arith)) (omega arith)
      ∙ ap (cell cells) (sym (shift c h i))

  abbrev visited :
      RingBuffer A
      → (Iterator → List (Option A))
      → Status × Option ℕ × Option Iterator
      → List (Option A)
  visited rb rest (ok, some p, some it) = cell rb.cells p ∷ rest it
  visited rb rest other = []

  -- `while (next(it, &p) == CDSA_OK) visit(*p);`, with fuel.
  pub walk : ℕ → RingBuffer A → Iterator → List (Option A)
  walk zero rb it = []
  walk (suc fuel) rb it = visited rb (walk fuel rb) (next (some it) rb true)

  next-ok :
      (rb : RingBuffer A) (it : Iterator)
      → IsValid rb
      → rb.version ≡ it.snapshot_version
      → it.progress < rb.size
      → next (some it) rb true ≡ (
        ok,
        some ((rb.head + it.progress) % rb.capacity),
        some (record it { progress = it.progress + 1 }),
      )
  unfolding next
  next-ok rb it v e h =
      let no_wrap : (rb.head + it.progress) % size_mod ≡ rb.head + it.progress =
        omega (arith, v.head_in, v.within, v.roomy) in
      let index = ap (λ n. n % rb.capacity) no_wrap in
      let more : (it.progress + 1) % size_mod ≡ it.progress + 1 =
        omega (arith, v.within, v.roomy, v.some_room) in
      ground (arith, index, more)

  next-done :
      (rb : RingBuffer A) (it : Iterator)
      → rb.version ≡ it.snapshot_version
      → rb.size ≤ it.progress
      → next (some it) rb true ≡ (not_found, none, some it)
  unfolding next
  next-done rb it e h = ground arith

  walk-from :
      (fuel : ℕ) (rb : RingBuffer A) (it : Iterator)
      → IsValid rb
      → rb.version ≡ it.snapshot_version
      → it.progress ≤ rb.size
      → rb.size < it.progress + fuel
      → walk fuel rb it ≡ drop it.progress (contents rb)
  unfolding walk
  walk-from zero rb it v e k f = absurd (omega arith)
  walk-from (suc fuel) rb it v e k f = elim (dec_lt it.progress rb.size) [
    | yes p ↦
        let it' = record it { progress = it.progress + 1 } in
        rw (next-ok rb it v e p) (
          rw (
            walk-from fuel rb it' v e (omega arith) (omega arith),
            drop-cell (contents rb) it.progress (omega (arith, length-contents rb)),
            cell-window rb.cells rb.capacity rb.head rb.size it.progress v.head_in p,
            add-one,
          ))
    | no p ↦
        rw (next-done rb it e (omega arith))
          (sym (drop-length (contents rb) it.progress (omega (arith, length-contents rb))))
  ]

  -- A walk with a fresh iterator over a buffer that nobody changes meanwhile visits exactly its
  -- elements, front to back, round the end of the storage where they go round it, and ends.
  pub walk_ringbuffer :
      (rb : RingBuffer A) (m m' : Memory) {it : Iterator}
      → IsValid rb
      → create_iterator (some rb) m ≡ (some it, m')
      → walk (rb.size + 1) rb it ≡ contents rb
  unfolding create_iterator malloc_track
  walk_ringbuffer rb m m' {it} v e =
      let at_start : it.progress ≡ 0 = ground (arith, e) in
      let same : rb.version ≡ it.snapshot_version = ground (arith, e) in
      walk-from (rb.size + 1) rb it v same (omega (arith, at_start)) (omega (arith, at_start))
      ∙ ap (λ i. drop i (contents rb)) at_start

  version-apply :
      (op : Op A) (rb rb' : RingBuffer A)
      → rb.version < size_mod
      → apply op rb ≡ (ok, some rb')
      → rb'.version ≢ rb.version
  unfolding apply push_back_ringbuffer push_front_ringbuffer pop_front_ringbuffer
      pop_back_ringbuffer
  version-apply (push_front x) rb rb' h e = ground (arith, e)
  version-apply (push_back x) rb rb' h e = ground (arith, e)
  version-apply pop_front rb rb' h e = ground (arith, e)
  version-apply pop_back rb rb' h e = ground (arith, e)

  stale :
      (rb : RingBuffer A) (it : Iterator)
      → rb.version ≢ it.snapshot_version
      → (has_next (some it) rb ≡ false)
        × (next (some it) rb true ≡ (iter_invalidated, none, some it))
  unfolding next has_next
  stale rb it h = ground arith

  -- Fail-fast: a push or a pop at either end that succeeds puts an iterator that was in step with the
  -- buffer out of action: it reports no next element, and a call of `next` returns ITER_INVALIDATED,
  -- yields nothing and leaves the iterator.
  pub next_ringbuffer-invalidated :
      (op : Op A) (rb rb' : RingBuffer A) (it : Iterator)
      → rb.version ≡ it.snapshot_version
      → rb.version < size_mod
      → apply op rb ≡ (ok, some rb')
      → (has_next (some it) rb' ≡ false)
        × (next (some it) rb' true ≡ (iter_invalidated, none, some it))
  next_ringbuffer-invalidated op rb rb' it e h a =
      stale rb' it (rw (← e) (version-apply op rb rb' h a))
