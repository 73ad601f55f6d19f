-- ===== src/Vector/Iterator/Walk.antt =====
-- A client's walk over a vector, and what a change of the vector does to it.
use cdsa.Base.{
  ℕ, zero, suc, ◌+◌, ◌≤◌, ◌<◌, ◌≡◌, ◌≢◌, ap, ◌∙◌, true, false, Option, none, some, List, [], ◌∷◌,
  drop, cell, size_mod, ◌⊎◌, inl, inr, sym, mul_size, cell-take, drop-cell, drop-length, le→leb,
  lt→leb_false, arith,
}
use native.Mathlib.Decide.{dec_lt}
use cdsa.Error.{Status, ok, not_found, iter_invalidated}
use native.Mathlib.Numerals.{add-one}
use cdsa.Allocator.{Memory, Pointer, malloc_track}
use cdsa.Vector.{Vector, grown, push_vector, pop_vector}
use cdsa.Vector.Inv.{IsValid, capacity-lt}
use cdsa.Vector.Contents.{contents, length-contents}
use cdsa.Vector.Iterator.{Iterator, create_iterator, has_next, next}

module _ {ℓ} {A : Type ℓ} where
  abbrev visited :
      Vector A
      → (Iterator → List (Option A))
      → Status × Option ℕ × Option Iterator
      → List (Option A)
  visited v rest (ok, some p, some it) = cell v.cells p ∷ rest it
  visited v rest other = []

  -- `while (next(it, &p) == CDSA_OK) visit(*p);`, with fuel.
  pub walk : ℕ → Vector A → Iterator → List (Option A)
  walk zero v it = []
  walk (suc fuel) v it = visited v (walk fuel v) (next (some it) v true)

  next-ok :
      (v : Vector A) (it : Iterator)
      → v.version ≡ it.snapshot_version
      → it.current_index < v.size
      → v.size < size_mod
      → next (some it) v true
        ≡ (ok, some it.current_index, some (record it { current_index = it.current_index + 1 }))
  unfolding next
  next-ok v it e h k = ground arith

  next-done :
      (v : Vector A) (it : Iterator)
      → v.version ≡ it.snapshot_version
      → v.size ≤ it.current_index
      → next (some it) v true ≡ (not_found, none, some it)
  unfolding next
  next-done v it e h = ground arith

  walk-from :
      (fuel : ℕ) (v : Vector A) (it : Iterator)
      → IsValid v
      → v.version ≡ it.snapshot_version
      → it.current_index ≤ v.size
      → v.size < it.current_index + fuel
      → walk fuel v it ≡ drop it.current_index (contents v)
  unfolding walk
  walk-from zero v it h e k f = absurd (omega arith)
  walk-from (suc fuel) v it h e k f = elim (dec_lt it.current_index v.size) [
    | yes p ↦
        let it' = record it { current_index = it.current_index + 1 } in
        rw (next-ok v it e p (omega (arith, capacity-lt v h, h.within))) (
          rw (
            walk-from fuel v it' h e (omega arith) (omega arith),
            drop-cell (contents v) it.current_index (omega (arith, length-contents v h)),
            cell-take v.cells v.size it.current_index p,
            add-one,
          ))
    | no p ↦
        rw (next-done v it e (omega arith))
          (sym (drop-length (contents v) it.current_index (omega (arith, length-contents v h))))
  ]

  -- A walk with a fresh iterator over a vector that nobody changes meanwhile visits exactly its
  -- elements, in order, and ends.
  pub walk_vector :
      (v : Vector A) (m m' : Memory) {it : Iterator}
      → IsValid v
      → create_iterator (some v) m ≡ (some it, m')
      → walk (v.size + 1) v it ≡ contents v
  unfolding create_iterator malloc_track
  walk_vector v m m' {it} h e =
      let at_start : it.current_index ≡ 0 = ground (arith, e) in
      let same : v.version ≡ it.snapshot_version = ground (arith, e) in
      walk-from (v.size + 1) v it h same (omega (arith, at_start)) (omega (arith, at_start))
      ∙ ap (λ i. drop i (contents v)) at_start

  version-grown :
      (v w : Vector A) (doubled : ℕ) (x : A) (r : Option Pointer × Memory) (m' : Memory)
      → v.version < size_mod
      → grown v doubled x r ≡ (ok, some w, m')
      → w.version ≢ v.version
  version-grown v w doubled x (none, n) m' h e = absurd (cc e)
  version-grown v w doubled x (some p, n) m' h e = ground (arith, e)

  version-push :
      (v w : Vector A) (x : A) (m m' : Memory)
      → v.version < size_mod
      → push_vector (some v) (some x) m ≡ (ok, some w, m')
      → w.version ≢ v.version
  unfolding push_vector
  version-push v w x m m' h e = elim (dec_lt v.size v.capacity) [
    | yes p ↦ let e' = rw (lt→leb_false v.capacity v.size p) at e in ground (arith, e')
    | no p ↦
        version-grown v w (mul_size v.capacity 2) x _ m' h
          (rw (le→leb v.capacity v.size (omega arith)) at e)
  ]

  version-pop :
      (v w : Vector A)
      → v.version < size_mod
      → pop_vector (some v) ≡ (ok, some w)
      → w.version ≢ v.version
  unfolding pop_vector
  version-pop v w h e = ground (arith, e)

  stale :
      (w : Vector A) (it : Iterator)
      → w.version ≢ it.snapshot_version
      → (has_next (some it) w ≡ false) × (next (some it) w true ≡ (iter_invalidated, none, some it))
  unfolding next has_next
  stale w it h = ground arith

  -- Fail-fast: once a push or a pop on the vector has succeeded since the iterator was in step with
  -- it, the iterator reports no next element, and a call of `next` returns ITER_INVALIDATED, yields
  -- nothing and leaves the iterator.
  pub next_vector-invalidated :
      (v w : Vector A) (x : A) (m m' : Memory) (it : Iterator)
      → v.version ≡ it.snapshot_version
      → v.version < size_mod
      → (push_vector (some v) (some x) m ≡ (ok, some w, m')) ⊎ (pop_vector (some v) ≡ (ok, some w))
      → (has_next (some it) w ≡ false) × (next (some it) w true ≡ (iter_invalidated, none, some it))
  next_vector-invalidated v w x m m' it e h c =
      let moved : w.version ≢ it.snapshot_version = rw (← e) (version_moves c) in stale w it moved
    where
      version_moves :
          (push_vector (some v) (some x) m ≡ (ok, some w, m'))
            ⊎ (pop_vector (some v) ≡ (ok, some w))
          → w.version ≢ v.version
      version_moves (inl p) = version-push v w x m m' h p
      version_moves (inr p) = version-pop v w h p
