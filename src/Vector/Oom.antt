-- ===== src/Vector/Oom.antt =====
-- What a refused reallocation leaves behind: the capacity is doubled before the call.
use native.Mathlib.Decide.{dec_lt}
use native.Mathlib.Nat.{mod-eq_of_lt, le-mul_of_pos_right}
use cdsa.Base.{
  ℕ, ◌+◌, ◌*◌, ◌≤◌, ◌<◌, ◌≡◌, refl, sym, subst, Option, none, some, length, set-ge, mul_size,
  size_mod, le→leb, lt→leb_false, arith, add_size,
}
use cdsa.Error.{ok, oom}
use cdsa.Allocator.{Memory, Pointer}
use cdsa.Vector.{Vector, grown, append, push_vector, back_vector}
use cdsa.Vector.Inv.{IsValid}

module _ {ℓ} {A : Type ℓ} where
  grown-oom :
      (v : Vector A) (doubled : ℕ) (x : A) (r : Option Pointer × Memory) {w : Vector A} {m : Memory}
      → grown v doubled x r ≡ (oom, some w, m)
      → w ≡ record v { capacity = doubled }
  grown-oom v doubled x (none, n) e = ground (arith, e)
  grown-oom v doubled x (some p, n) e = absurd (cc e)

  push-oom :
      (v w : Vector A) (x : A) (m m' : Memory)
      → push_vector (some v) (some x) m ≡ (oom, some w, m')
      → (v.capacity ≤ v.size) × (w ≡ record v { capacity = mul_size v.capacity 2 })
  unfolding push_vector
  push-oom v w x m m' e = elim (dec_lt v.size v.capacity) [
    | yes p ↦ absurd (cc (rw (lt→leb_false v.capacity v.size p) at e))
    | no p ↦ (
      omega arith,
      grown-oom v (mul_size v.capacity 2) x _ (rw (le→leb v.capacity v.size (omega arith)) at e),
    )
  ]

  refused_then_pushed :
      (v : Vector A) (y : A) (n : Memory)
      → IsValid v
      → v.size ≡ v.capacity
      → v.capacity * 2 * v.elem_size < size_mod
      → let w = record v { capacity = mul_size v.capacity 2 } in
        (push_vector (some w) (some y) n ≡ (ok, some (append w y), n))
        × ((append w y).size ≡ v.size + 1)
        × (back_vector (some (append w y)) ≡ some (length (append w y).cells))
        × ((append w y).cells ≡ v.cells)
  unfolding push_vector back_vector
  refused_then_pushed v y n h full k =
      let small : v.capacity * 2 < size_mod =
        omega (arith, le-mul_of_pos_right (v.capacity * 2) h.some_bytes, k) in
      let doubled : mul_size v.capacity 2 ≡ v.capacity * 2 = mod-eq_of_lt small in
      let size : add_size v.size 1 ≡ v.size + 1 = omega (arith, small, full, h.some_room) in
      let lost = set-ge v.cells v.size (some y) (omega (arith, h.stored, full)) in
      (
        rw (lt→leb_false (mul_size v.capacity 2) v.size (omega (arith, doubled, full, h.some_room)))
            refl,
        size,
        ground (arith, size, lost, h.stored, full),
        lost,
      )

  -- A vector in order whose push the C library refused takes the next push without growing, although
  -- its storage is full: the call returns OK and counts the element, but `back` then points just past
  -- the storage, whose cells are what they were; the write went out of bounds.
  pub push_after_oom :
      (v w : Vector A) (x y : A) (m m' n : Memory)
      → IsValid v
      → v.capacity * 2 * v.elem_size < size_mod
      → push_vector (some v) (some x) m ≡ (oom, some w, m')
      → (u : Vector A) × (push_vector (some w) (some y) n ≡ (ok, some u, n))
        × (u.size ≡ v.size + 1)
        × (back_vector (some u) ≡ some (length u.cells))
        × (u.cells ≡ v.cells)
  push_after_oom v w x y m m' n h k e =
      let (full, same) = push-oom v w x m m' e in
      subst
        (λ z.
          (u : Vector A) × (push_vector (some z) (some y) n ≡ (ok, some u, n))
          × (u.size ≡ v.size + 1)
          × (back_vector (some u) ≡ some (length u.cells))
          × (u.cells ≡ v.cells))
        (sym same)
        (let (a, b, c, d) = refused_then_pushed v y n h (omega (arith, full, h.within)) k in
          (append (record v { capacity = mul_size v.capacity 2 }) y, a, b, c, d))
