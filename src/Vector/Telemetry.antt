-- ===== src/Vector/Telemetry.antt =====
-- The bytes that a vector is charged with, through its life: nothing leaks.
use native.Mathlib.Decide.{dec_lt}
use cdsa.Base.{
  ℕ, ◌+◌, ◌*◌, ◌<◌, ◌≡◌, ◌≢◌, refl, Option, none, some, mul_size, size_mod, le→leb, lt→leb_false,
  arith,
}
use cdsa.Error.{Status, ok, oom}
use cdsa.Allocator.{Memory, Pointer, free_track, realloc_track}
use cdsa.Allocator.Telemetry.{Balanced, realloc_track-some, realloc_track-none, used-free_track}
use cdsa.Vector.{Vector, append, grown, push_vector, free_vector}
use cdsa.Vector.Inv.{IsValid, request-ne-zero}

module _ {ℓ} {A : Type ℓ} where
  -- The bytes of the two blocks of a vector.
  abbrev pub owned : Vector A → ℕ
  owned v = v.handle.size + v.storage.size

  pub free_vector-Balanced :
      (v : Vector A) (m : Memory)
      → v.handle.size < size_mod
      → v.storage.size < size_mod
      → Balanced m (owned v) (free_vector (some v) m) 0
  unfolding free_vector
  free_vector-Balanced v m h k =
      omega (
        arith,
        used-free_track v.handle (free_track (some v.storage) m),
        used-free_track v.storage m,
      )

  grown-Balanced :
      (v : Vector A) (doubled : ℕ) (x : A) (m : Memory) (r : Option Pointer × Memory)
      → v.storage.size < size_mod
      → mul_size doubled v.elem_size ≢ 0
      → realloc_track (some v.storage) (mul_size doubled v.elem_size) m ≡ r
      → (w : Vector A) × (m' : Memory) × (s : Status) × (grown v doubled x r ≡ (s, some w, m'))
        × Balanced m (owned v) m' (owned w)
        × (w.handle ≡ v.handle)
  grown-Balanced v doubled x m (none, n) h k e = (
    record v { capacity = doubled },
    n,
    oom,
    refl,
    omega (arith, realloc_track-none v.storage (mul_size doubled v.elem_size) m k e),
    refl,
  )
  grown-Balanced v doubled x m (some p, n) h k e =
      let (size, used) = realloc_track-some v.storage (mul_size doubled v.elem_size) m e in
      (_, n, ok, refl, omega (arith, size, used), refl)

  -- A push, whichever way it ends, moves the counter by the change in what the vector owns.
  pub push_vector-Balanced :
      (v : Vector A) (x : A) (m : Memory)
      → IsValid v
      → v.capacity * 2 * v.elem_size < size_mod
      → (w : Vector A) × (m' : Memory) × (s : Status) × (push_vector (some v) (some x) m
          ≡ (s, some w, m'))
        × Balanced m (owned v) m' (owned w)
        × (w.handle ≡ v.handle)
  unfolding push_vector
  push_vector-Balanced v x m h k = elim (dec_lt v.size v.capacity) [
    | yes p ↦ rw (lt→leb_false v.capacity v.size p) (append v x, m, ok, refl, refl, refl)
    | no p ↦ rw (le→leb v.capacity v.size (omega arith)) (
        grown-Balanced v (mul_size v.capacity 2) x m _ (omega (arith, h.bytes, h.no_overflow))
          (request-ne-zero v h k) refl)
  ]
