-- ===== src/Vector/Inv.antt =====
-- The well-formedness of a vector: its storage is as large as its capacity says.
use native.Mathlib.Nat.{mod-eq_of_lt, mul-div_left, le-mul_of_pos_right}
use cdsa.Base.{
  ℕ, ◌-◌, ◌*◌, ◌/◌, ◌≤◌, ◌<◌, ◌≡◌, ◌≢◌, refl, ◌∙◌, subst, Option, none, some, length, length-set,
  length-replicate, resize_cells, length-resize_cells, add_size, mul_size, size_mod, inl, inr, ◌==◌,
  Bool-cases, arith,
}
use cdsa.Allocator.{Memory, Pointer, malloc_track}
use cdsa.Allocator.Telemetry.{malloc_track-some}
use cdsa.Vector.{
  Vector, created, initial_capacity, sizeof_vector, with_storage, with_handle, create_vector,
  append, pop_vector,
}

module _ {ℓ} {A : Type ℓ} where
  pub record IsValid (v : Vector A) : Type ℓ where
    pub some_bytes : 0 < v.elem_size
    pub some_room : 0 < v.capacity
    pub no_overflow : v.capacity * v.elem_size < size_mod
    pub bytes : v.storage.size ≡ v.capacity * v.elem_size
    pub stored : length v.cells ≡ v.capacity
    pub within : v.size ≤ v.capacity

  -- The capacity is a number of elements of at least a byte, so it is a word.
  pub capacity-lt : (v : Vector A) → IsValid v → v.capacity < size_mod
  capacity-lt v h = omega (arith, le-mul_of_pos_right v.capacity h.some_bytes, h.no_overflow)

  pub append-IsValid :
      (v : Vector A) (x : A) → IsValid v → v.size < v.capacity → IsValid (append v x)
  append-IsValid v x h k = ground (arith, capacity-lt v h, length-set v.cells v.size (some x))

  -- What the array becomes when `realloc` serves the doubled capacity.
  abbrev pub reallocated : Vector A → Pointer → Vector A
  reallocated v p = record v {
    capacity = mul_size v.capacity 2;
    storage = p;
    cells = resize_cells (p.size / v.elem_size) v.cells;
  }

  pub reallocated-IsValid :
      (v : Vector A) (p : Pointer)
      → IsValid v
      → v.capacity * 2 * v.elem_size < size_mod
      → p.size ≡ mul_size (mul_size v.capacity 2) v.elem_size
      → IsValid (reallocated v p) × (v.capacity < mul_size v.capacity 2)
  reallocated-IsValid v p h k e =
      let small : v.capacity * 2 < size_mod =
        omega (arith, le-mul_of_pos_right (v.capacity * 2) h.some_bytes, k) in
      let doubled : mul_size v.capacity 2 ≡ v.capacity * 2 = mod-eq_of_lt small in
      let bytes : p.size ≡ v.capacity * 2 * v.elem_size = rw doubled at e ∙ mod-eq_of_lt k in
      let cells : p.size / v.elem_size ≡ v.capacity * 2 =
        rw bytes (mul-div_left (v.capacity * 2) h.some_bytes) in
      (
        record {
          some_bytes = h.some_bytes;
          some_room = omega (arith, doubled, h.some_room);
          no_overflow = rw doubled k;
          bytes = rw doubled bytes;
          stored = rw (length-resize_cells (p.size / v.elem_size) v.cells, doubled) cells;
          within = omega (arith, doubled, h.within);
        },
        omega (arith, doubled, h.some_room),
      )

  -- The request for the doubled storage is not for 0 bytes.
  pub request-ne-zero :
      (v : Vector A)
      → IsValid v
      → v.capacity * 2 * v.elem_size < size_mod
      → mul_size (mul_size v.capacity 2) v.elem_size ≢ 0
  request-ne-zero v h k =
      let small : v.capacity * 2 < size_mod =
        omega (arith, le-mul_of_pos_right (v.capacity * 2) h.some_bytes, k) in
      let big = le-mul_of_pos_right (v.capacity * 2) h.some_bytes in
      rw (mod-eq_of_lt small, mod-eq_of_lt k) (omega (arith, big, h.some_room))

  -- A created vector is empty and in order, for elements of at least a byte that fit four times.
  pub create_vector-IsValid :
      (elem_size : ℕ) (m m' : Memory) {v : Vector A}
      → 0 < elem_size
      → initial_capacity * elem_size < size_mod
      → create_vector elem_size m ≡ (some v, m')
      → IsValid v × (v.size ≡ 0)
  unfolding create_vector
  create_vector-IsValid es m m' {v} h k e = handle (malloc_track sizeof_vector m) e
    where
      made :
          (p s : Pointer) (n : Memory)
          → s.size ≡ mul_size initial_capacity es
          → with_storage es p (some s, n) ≡ (some v, m')
          → IsValid v × (v.size ≡ 0)
      made p s n b e2 =
          let bytes : s.size ≡ initial_capacity * es = b ∙ mod-eq_of_lt k in
          let cells : s.size / es ≡ 4 = rw bytes (mul-div_left 4 h) in
          let room = length-replicate {A = Option A} (s.size / es) none in
          subst (λ w. IsValid w × (w.size ≡ 0)) {x = created es p s} (ground (arith, e2))
            (
              record {
                some_bytes = h;
                some_room = omega arith;
                no_overflow = k;
                bytes = bytes;
                stored = room ∙ cells;
                within = omega arith;
              },
              refl,
            )

      storage :
          (p : Pointer) (n : Memory) (r : Option Pointer × Memory)
          → malloc_track (mul_size initial_capacity es) n ≡ r
          → with_storage es p r ≡ (some v, m')
          → IsValid v × (v.size ≡ 0)
      storage p n (none, n2) e1 e2 = absurd (cc e2)
      storage p n (some s, n2) e1 e2 = made p s n2 (malloc_track-some _ n e1).0 e2

      handle :
          (r : Option Pointer × Memory) → with_handle es r ≡ (some v, m') → IsValid v × (v.size ≡ 0)
      handle (none, n) e1 = absurd (cc e1)
      handle (some p, n) e1 = storage p n (malloc_track (mul_size initial_capacity es) n) refl e1

  -- `pop`, `set` and `clear` keep the invariant on every branch.
  pub pop_vector-IsValid :
      (v : Vector A) → IsValid v → (w : Vector A) × ((pop_vector (some v)).1 ≡ some w) × IsValid w
  unfolding pop_vector
  pop_vector-IsValid v h = elim (Bool-cases (v.size == 0)) [
    | inl e ↦ (v, rw e refl, h)
    | inr e ↦
        (record v { size = v.size - 1; version = add_size v.version 1 }, rw e refl, ground arith)
  ]
