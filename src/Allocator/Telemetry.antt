-- ===== src/Allocator/Telemetry.antt =====
-- The telemetry counter: what each call of the tracking allocator does to it.
use cdsa.Base.{
  ℕ, ◌+◌, ◌%◌, ◌<◌, ◌≡◌, ◌≢◌, refl, Option, none, some, arith, add_size, sub_size, mul_size,
  size_mod,
}
use cdsa.Allocator.{Memory, Pointer, malloc_track, calloc_track, free_track, realloc_track}

-- The bytes that a possibly null pointer is charged with.
abbrev pub charge : Option Pointer → ℕ
charge none = 0
charge (some p) = p.size

-- Between two states the counter moves by the change in what a structure owns, modulo the word.
abbrev pub Balanced : Memory → ℕ → Memory → ℕ → Type 0
Balanced m owned m' owned' = (m'.used + owned) % size_mod ≡ (m.used + owned') % size_mod

-- An allocation, served or not, charges exactly what it hands out, and hands out the size asked.
pub malloc_track-Balanced :
    (size : ℕ) (m : Memory)
    → let (p, m') = malloc_track size m in
      Balanced m 0 m' (charge p) × ((p ≡ none → m'.used ≡ m.used) × (p ≢ none → charge p ≡ size))
unfolding malloc_track
malloc_track-Balanced size m = ground arith

-- Releasing a pointer takes back exactly what its header holds, and NULL is no event.
pub free_track-Balanced :
    (p : Option Pointer) (m : Memory)
    → charge p < size_mod
    → Balanced m (charge p) (free_track p m) 0
unfolding free_track
free_track-Balanced none m h = refl
free_track-Balanced (some p) m h = omega arith

-- A reallocation to a size that is not 0: a block that is handed back is charged at its new size, and
-- on NULL the old block stays charged.
pub realloc_track-Balanced :
    (p : Option Pointer) (size : ℕ) (m : Memory)
    → charge p < size_mod
    → size ≢ 0
    → let (q, m') = realloc_track p size m in
      (q ≡ none → Balanced m (charge p) m' (charge p))
      × (q ≢ none → Balanced m (charge p) m' size × (charge q ≡ size))
unfolding realloc_track malloc_track
realloc_track-Balanced none size m h n = ground arith
realloc_track-Balanced (some p) size m h n = ground arith

-- A block that is allocated and released again leaves the counter where it was.
pub free_track-malloc_track :
    (size : ℕ) (m : Memory)
    → m.used < size_mod
    → size < size_mod
    → let (p, m') = malloc_track size m in (free_track p m').used ≡ m.used
unfolding malloc_track free_track
free_track-malloc_track size m h k = ground arith

pub malloc_track-some :
    (size : ℕ) (m : Memory) {p : Pointer} {m' : Memory}
    → malloc_track size m ≡ (some p, m')
    → (p.size ≡ size) × (m'.used ≡ add_size m.used size)
unfolding malloc_track
malloc_track-some size m e = ground arith

pub malloc_track-none :
    (size : ℕ) (m : Memory) {m' : Memory} → malloc_track size m ≡ (none, m') → m'.used ≡ m.used
unfolding malloc_track
malloc_track-none size m e = ground arith

pub realloc_track-some :
    (p : Pointer) (size : ℕ) (m : Memory) {q : Pointer} {m' : Memory}
    → realloc_track (some p) size m ≡ (some q, m')
    → (q.size ≡ size) × (m'.used ≡ add_size (sub_size m.used p.size) size)
unfolding realloc_track
realloc_track-some p size m e = ground arith

pub realloc_track-none :
    (p : Pointer) (size : ℕ) (m : Memory) {m' : Memory}
    → size ≢ 0
    → realloc_track (some p) size m ≡ (none, m')
    → m'.used ≡ m.used
unfolding realloc_track
realloc_track-none p size m n e = ground arith

pub used-free_track :
    (p : Pointer) (m : Memory) → (free_track (some p) m).used ≡ sub_size m.used p.size
unfolding free_track
used-free_track p m = refl

pub calloc_track-some :
    (count size : ℕ) (m : Memory) {p : Pointer} {m' : Memory}
    → calloc_track count size m ≡ (some p, m')
    → (p.size ≡ mul_size count size) × (m'.used ≡ add_size m.used (mul_size count size))
unfolding calloc_track
calloc_track-some count size m e = ground arith

pub calloc_track-none :
    (count size : ℕ) (m : Memory) {m' : Memory}
    → calloc_track count size m ≡ (none, m')
    → m'.used ≡ m.used
unfolding calloc_track
calloc_track-none count size m e = ground arith
