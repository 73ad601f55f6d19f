-- ===== src/Vector/Contents.antt =====
-- A vector as a list: what the calls do to the sequence of its elements.
use cdsa.Base.{
  ℕ, suc, ◌+◌, ◌-◌, ◌*◌, ◌≤◌, ◌<◌, ◌≡◌, refl, ap, ◌∙◌, sym, ◌⊎◌, inl, inr, Option, none, some, List,
  [], ◌∷◌, ◌++◌, length, set, take, cell, get_elem?, length-take, length-set, take-suc, take-set,
  take-set_le, take-resize_cells, get_elem?-set, get_elem?-take, get_elem?-cell, mul_size, size_mod,
  ltb, if◌then◌else◌, eq→==, ne→==_false, ◌/◌, add_size, length-resize_cells, le→leb, lt→leb_false,
  arith,
}
use native.Mathlib.Decide.{dec_lt}
use native.Mathlib.Nat.{mod-eq_of_lt, le-mul_of_pos_right}
use native.Mathlib.Numerals.{add-one}
use cdsa.Error.{Status, ok, oom, not_found}
use cdsa.Allocator.{Memory, Pointer, realloc_track}
use cdsa.Allocator.Telemetry.{realloc_track-some}
use cdsa.Vector.{
  Vector, append, grown, push_vector, pop_vector, set_vector, get_vector, back_vector, front_vector,
  is_empty_vector,
}
use cdsa.Vector.Inv.{IsValid, append-IsValid, reallocated, reallocated-IsValid, capacity-lt}

module _ {ℓ} {A : Type ℓ} where
  -- The elements in use, first to last.
  abbrev pub contents : Vector A → List (Option A)
  contents v = take v.size v.cells

  pub length-contents : (v : Vector A) → IsValid v → length (contents v) ≡ v.size
  length-contents v h = omega (arith, length-take v.size v.cells, h.stored, h.within)

  contents-append :
      (v : Vector A) (x : A)
      → v.size < length v.cells
      → v.size + 1 < size_mod
      → contents (append v x) ≡ contents v ++ some x ∷ []
  contents-append v x h k =
      rw (mod-eq_of_lt k, add-one)
        (take-suc (set v.cells v.size (some x)) v.size (some x)
            (ground (arith, get_elem?-set v.cells v.size v.size (some x) h))
          ∙ ap (λ l. l ++ some x ∷ []) (take-set_le v.cells v.size v.size (some x) (omega arith)))

  -- How a push of `x` on `v` ends: it is served and the element is last, all else in place, or the
  -- vector was full and the C library refused, which leaves the elements as they were.
  abbrev pub Pushed : Vector A → A → Status × Option (Vector A) × Memory → Type ℓ
  Pushed v x out =
      ((w : Vector A) × (m : Memory) × (out ≡ (ok, some w, m))
        × IsValid w
        × (contents w ≡ contents v ++ some x ∷ [])
        × (w.size ≡ v.size + 1)
        × (w.elem_size ≡ v.elem_size))
      ⊎ ((w : Vector A) × (m : Memory) × (out ≡ (oom, some w, m))
          × (v.size ≡ v.capacity)
          × (contents w ≡ contents v)
          × (w.capacity ≡ v.capacity * 2))

  append-Pushed :
      (v : Vector A) (x : A)
      → IsValid v
      → v.size < v.capacity
      → IsValid (append v x)
        × (contents (append v x) ≡ contents v ++ some x ∷ [])
        × ((append v x).size ≡ v.size + 1)
  append-Pushed v x h k =
      let small = capacity-lt v h in
      (
        append-IsValid v x h k,
        contents-append v x (omega (arith, h.stored)) (omega arith),
        omega arith,
      )

  grown-Pushed :
      (v : Vector A) (x : A) (m : Memory) (r : Option Pointer × Memory)
      → IsValid v
      → v.size ≡ v.capacity
      → v.capacity * 2 * v.elem_size < size_mod
      → realloc_track (some v.storage) (mul_size (mul_size v.capacity 2) v.elem_size) m ≡ r
      → Pushed v x (grown v (mul_size v.capacity 2) x r)
  grown-Pushed v x m (none, n) h full k e =
      inr (record v { capacity = mul_size v.capacity 2 }, n, refl, full, refl, doubled)
    where
      doubled : mul_size v.capacity 2 ≡ v.capacity * 2
      doubled = mod-eq_of_lt (omega (arith, le-mul_of_pos_right (v.capacity * 2) h.some_bytes, k))
  grown-Pushed v x m (some p, n) h full k e =
      let (w, more) = reallocated-IsValid v p h k (realloc_track-some _ _ m e).0 in
      let (ok_w, c, s) = append-Pushed (reallocated v p) x w (omega (arith, full, more)) in
      let kept : contents (reallocated v p) ≡ contents v =
        take-resize_cells (p.size / v.elem_size) v.size v.cells
          (omega (arith, w.stored, length-resize_cells (p.size / v.elem_size) v.cells, full, more))
          (omega (arith, h.stored, full)) in
      inl (append (reallocated v p) x, n, refl, ok_w, rw kept at c, s, refl)

  -- On every branch: where the doubled storage does not overflow, a push on a vector in order either
  -- returns OK, with the element behind the others and the vector in order, or returns OOM, which
  -- happens only when the vector is full, and leaves the elements.
  pub push_vector-Pushed :
      (v : Vector A) (x : A) (m : Memory)
      → IsValid v
      → v.capacity * 2 * v.elem_size < size_mod
      → Pushed v x (push_vector (some v) (some x) m)
  unfolding push_vector
  push_vector-Pushed v x m h k = elim (dec_lt v.size v.capacity) [
    | yes p ↦
        rw (lt→leb_false v.capacity v.size p)
          (let (w, c, s) = append-Pushed v x h p in inl (append v x, m, refl, w, c, s, refl))
    | no p ↦
        rw (le→leb v.capacity v.size (omega arith))
          (grown-Pushed v x m _ h (omega (arith, h.within)) k refl)
  ]

  -- `pop` takes the last element off, and on an empty vector changes nothing.
  pub pop_vector_lem :
      (v : Vector A)
      → IsValid v
      → (v.size ≡ 0 → pop_vector (some v) ≡ (not_found, some v))
        × (0 < v.size
            → (w : Vector A) × (pop_vector (some v) ≡ (ok, some w))
              × IsValid w
              × (w.size + 1 ≡ v.size)
              × (contents w ++ cell v.cells (v.size - 1) ∷ [] ≡ contents v))
  unfolding pop_vector
  pop_vector_lem v h = (
    λ e. rw (eq→== v.size 0 e) refl,
    λ p. (
      record v { size = v.size - 1; version = add_size v.version 1 },
      rw (ne→==_false v.size 0 (omega arith)) refl,
      ground arith,
      omega arith,
      sym (
            take-suc v.cells (v.size - 1) _
              (get_elem?-cell v.cells (v.size - 1) (omega (arith, h.stored, h.within))))
          ∙ ap (λ n. take n v.cells) {x = suc (v.size - 1)} (omega arith),
    ),
  )

  -- `set` overwrites the element at an index below the size, keeps the invariant, and refuses any
  -- other index.
  pub set_vector_lem :
      (v : Vector A) (i : ℕ) (x : A)
      → IsValid v
      → (i < v.size
          → (w : Vector A) × (set_vector (some v) i (some x) ≡ (ok, some w))
            × IsValid w
            × (contents w ≡ set (contents v) i (some x)))
        × (v.size ≤ i → set_vector (some v) i (some x) ≡ (not_found, some v))
  unfolding set_vector
  set_vector_lem v i x h = (
    λ p. (
      record v { cells = set v.cells i (some x) },
      rw (lt→leb_false v.size i p) refl,
      ground (arith, length-set v.cells i (some x)),
      take-set v.cells v.size i (some x),
    ),
    λ p. rw (le→leb v.size i p) refl,
  )

  -- The pointers that `get`, `front` and `back` return lead to the element that they are named for,
  -- and are NULL exactly outside the elements in use.
  pub pointers_lem :
      (v : Vector A) (i : ℕ)
      → IsValid v
      → (get_vector (some v) i ≡ (if ltb i v.size then some i else none))
        × (front_vector (some v) ≡ get_vector (some v) 0)
        × (back_vector (some v)
            ≡ (if is_empty_vector (some v) then none else get_vector (some v) (v.size - 1)))
        × (i < v.size → get_elem? (contents v) i ≡ some (cell v.cells i))
  unfolding get_vector front_vector back_vector is_empty_vector
  pointers_lem v i h = (
    ground arith,
    ground arith,
    ground arith,
    λ p.
        get_elem?-take v.cells v.size i p
        ∙ get_elem?-cell v.cells i (omega (arith, h.stored, h.within)),
  )
