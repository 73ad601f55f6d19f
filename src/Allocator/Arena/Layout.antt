-- ===== src/Allocator/Arena/Layout.antt =====
-- Where an arena puts what it hands out.
use cdsa.Base.{
  ℕ, ◌+◌, ◌-◌, ◌*◌, ◌/◌, ◌%◌, ◌≤◌, ◌<◌, ◌≡◌, ◌≢◌, refl, ◌⊎◌, Option, none, some, List, [], ◌∷◌,
  subst, sym, size_mod, add_size, inl, inr, arith,
}
use native.Mathlib.Decide.{dec_lt}
use cdsa.Allocator.{Memory, malloc_track}
use cdsa.Allocator.Arena.{Arena, align_forward, padding, arena_create, arena_alloc}

-- The offset lies in the buffer, and the buffer in the address space, with room to align.
pub record IsArena (a : Arena) : Type 0 where
  pub within : a.offset ≤ a.capacity
  pub placed : a.buffer.addr + a.capacity + 8 ≤ size_mod

-- The first multiple of 8 from the arena's end on.
abbrev pub next_aligned : Arena → ℕ
next_aligned a = (a.buffer.addr + a.offset + 7) / 8 * 8

-- What a call returns, against the plain arithmetic of the layout: the next aligned address and an
-- arena that ends behind the block, or NULL and the same arena when the block does not fit.
abbrev pub Serves : Arena → ℕ → Option ℕ × Option Arena → Type 0
Serves a size out =
    ((next_aligned a + size ≤ a.buffer.addr + a.capacity)
      × (a' : Arena) × (out ≡ (some (next_aligned a), some a'))
      × IsArena a'
      × (a'.buffer.addr ≡ a.buffer.addr)
      × (a'.capacity ≡ a.capacity)
      × (a'.buffer.addr + a'.offset ≡ next_aligned a + size))
    ⊎ ((a.buffer.addr + a.capacity < next_aligned a + size) × (out ≡ (none, some a)))

align_forward-eq : (x : ℕ) → x + 8 ≤ size_mod → align_forward x ≡ (x + 7) / 8 * 8
unfolding align_forward
align_forward-eq x h = omega arith

no_wrap : (a : Arena) → IsArena a → add_size a.buffer.addr a.offset ≡ a.buffer.addr + a.offset
no_wrap a v = omega arith

padding-eq : (a : Arena) → IsArena a → padding a + (a.buffer.addr + a.offset) ≡ next_aligned a
unfolding padding
padding-eq a v =
    rw (no_wrap a v, align_forward-eq (a.buffer.addr + a.offset) (omega arith)) (omega arith)

-- On every branch of a request whose size is not 0 and does not wrap the sum: `arena_alloc` serves
-- it at the first aligned address behind what is in use exactly when the block ends in the buffer,
-- and else answers NULL and changes nothing.
pub arena_alloc-Serves :
    (a : Arena) (size : ℕ)
    → IsArena a
    → size ≢ 0
    → a.capacity + size + 8 ≤ size_mod
    → Serves a size (arena_alloc (some a) size)
unfolding arena_alloc
arena_alloc-Serves a size v pos small =
    let e = align_forward-eq (a.buffer.addr + a.offset) (omega arith) in
    let pad = padding-eq a v in
    elim (dec_lt (a.buffer.addr + a.capacity) (next_aligned a + size)) [
      | yes p ↦ inr (p, ground (arith, pad))
      | no p ↦ inl (
        omega arith,
        record a { offset = a.offset + padding a + size },
        ground (arith, pad, e, no_wrap a v),
        omega (arith, pad),
        refl,
        refl,
        omega (arith, pad),
      )
    ]

abbrev then_serve : ℕ → (Arena → List (ℕ × ℕ)) → Option ℕ × Option Arena → List (ℕ × ℕ)
then_serve size rest (some p, some a) = (p, size) ∷ rest a
then_serve size rest (none, some a) = rest a
then_serve size rest (p, none) = []

-- The blocks that a sequence of requests is served, each with its size.
pub allocate_all : List ℕ → Arena → List (ℕ × ℕ)
allocate_all [] a = []
allocate_all (size ∷ sizes) a =
    then_serve size (λ b. allocate_all sizes b) (arena_alloc (some a) size)

-- The blocks are aligned, follow one another from `lo` without overlap, and end by `hi`.
abbrev pub IsLaidOut : ℕ → ℕ → List (ℕ × ℕ) → Type 0
IsLaidOut lo hi [] = lo ≤ hi
IsLaidOut lo hi ((p, size) ∷ blocks) = (lo ≤ p) × (p % 8 ≡ 0) × IsLaidOut (p + size) hi blocks

-- Each request is above 0 and does not wrap the sum.
abbrev pub AreModest : ℕ → List ℕ → Type 0
AreModest capacity [] = Unit
AreModest capacity (size ∷ sizes) =
    ((size ≢ 0) × (capacity + size + 8 ≤ size_mod)) × AreModest capacity sizes

-- Whatever sizes a client asks for, the blocks that it is served are aligned to 8 bytes, do not
-- overlap, and lie in the free part of the buffer; for requests that do not wrap the sum.
pub allocate_all-IsLaidOut :
    (sizes : List ℕ) (a : Arena)
    → IsArena a
    → AreModest a.capacity sizes
    → IsLaidOut (a.buffer.addr + a.offset) (a.buffer.addr + a.capacity) (allocate_all sizes a)
unfolding allocate_all
allocate_all-IsLaidOut [] a v modest = omega arith
allocate_all-IsLaidOut (size ∷ sizes) a v modest =
    let lo = a.buffer.addr + a.offset in
    let hi_a = a.buffer.addr + a.capacity in
    elim (arena_alloc-Serves a size v modest.0.0 modest.0.1) [
      | inl (fits, b, e, w, same_base, same_end, used) ↦
          let rest = allocate_all-IsLaidOut sizes b w (rw same_end modest.1) in
          let hi : b.buffer.addr + b.capacity ≡ a.buffer.addr + a.capacity = omega arith in
          subst (λ out. IsLaidOut lo hi_a (then_serve size (λ c. allocate_all sizes c) out)) (sym e)
            (
              omega arith,
              omega arith,
              subst (λ top. IsLaidOut (next_aligned a + size) top (allocate_all sizes b)) hi
                  (subst (λ lo. IsLaidOut lo (b.buffer.addr + b.capacity) (allocate_all sizes b))
                    used rest),
            )
      | inr (over, e) ↦
          subst (λ out. IsLaidOut lo hi_a (then_serve size (λ c. allocate_all sizes c) out)) (sym e)
            (allocate_all-IsLaidOut sizes a v modest.1)
    ]

-- A request near the top of the word range wraps the bound check: where the arena's end is aligned
-- and `k` bytes or more are in use, a request for `2 ^ 64 - k` bytes is served, and the offset goes
-- back by `k`.
pub arena_alloc-wraps :
    (a : Arena) (k : ℕ)
    → IsArena a
    → 0 < k
    → k ≤ a.offset
    → (a.buffer.addr + a.offset) % 8 ≡ 0
    → arena_alloc (some a) (size_mod - k)
      ≡ (some (a.buffer.addr + a.offset), some (record a { offset = a.offset - k }))
unfolding arena_alloc
arena_alloc-wraps a k v pos used aligned =
    let e = align_forward-eq (a.buffer.addr + a.offset) (omega arith) in
    let pad = padding-eq a v in ground (arith, pad, e, no_wrap a v)

-- A created arena is empty and has the asked capacity, which is not 0.
pub arena_create-IsArena :
    (capacity : ℕ) (m m' : Memory) {a : Arena}
    → arena_create capacity m ≡ (some a, m')
    → (a.offset ≡ 0) × (a.capacity ≡ capacity) × (capacity ≢ 0)
unfolding arena_create malloc_track
arena_create-IsArena capacity m m' e = ground arith
