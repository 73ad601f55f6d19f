-- ===== src/RingBuffer/Life.antt =====
-- The life of a ring buffer, from `cdsa_create_ringbuffer` through any calls to
-- `cdsa_free_ringbuffer`.
use native.Mathlib.Nat.{mod-eq_of_lt, mul-div_left, div-lt_iff_lt-mul}
use cdsa.Base.{
  ℕ, ◌+◌, ◌*◌, ◌/◌, ◌≤◌, ◌<◌, ◌≡◌, refl, ap, sym, subst, ◌∙◌, Option, none, some, List, [], ◌∷◌,
  length, length-replicate, mul_size, size_mod, arith,
}
use cdsa.Error.{Status}
use cdsa.Allocator.{Memory, Pointer, malloc_track, free_track}
use cdsa.Allocator.Telemetry.{Balanced, malloc_track-some, used-free_track}
use cdsa.BoundedDeque.{Op, push_front, push_back, pop_front, pop_back}
use cdsa.RingBuffer.{
  RingBuffer, created, with_storage, with_handle, sizeof_ringbuffer, create_ringbuffer,
  free_ringbuffer, push_back_ringbuffer, push_front_ringbuffer, pop_front_ringbuffer,
  pop_back_ringbuffer,
}
use cdsa.RingBuffer.Inv.{IsValid}
use cdsa.RingBuffer.Refine.{apply, contents}

module _ {ℓ} {A : Type ℓ} where
  -- The bytes of the two blocks of a buffer.
  abbrev pub owned : RingBuffer A → ℕ
  owned rb = rb.handle.size + rb.storage.size

  -- What a successful `create` has made.
  pub record Created (capacity elem_size : ℕ) (m m' : Memory) (rb : RingBuffer A) : Type ℓ where
    pub handle : rb.handle.size ≡ sizeof_ringbuffer
    pub bytes : rb.storage.size ≡ mul_size capacity elem_size
    pub cells : length rb.cells ≡ rb.storage.size / elem_size
    pub at_capacity : rb.capacity ≡ capacity
    pub for_size : rb.elem_size ≡ elem_size
    pub at_head : rb.head ≡ 0
    pub at_tail : rb.tail ≡ 0
    pub no_elements : rb.size ≡ 0
    pub charged : Balanced m 0 m' (owned rb)

  pub create_ringbuffer-Created :
      (capacity elem_size : ℕ) (m m' : Memory) {rb : RingBuffer A}
      → create_ringbuffer capacity elem_size m ≡ (some rb, m')
      → Created capacity elem_size m m' rb
  unfolding create_ringbuffer
  create_ringbuffer-Created c es m m' {rb} e = start (malloc_track sizeof_ringbuffer m) refl e
    where
      second :
          (p : Pointer) (n : Memory) (r : Option Pointer × Memory)
          → p.size ≡ sizeof_ringbuffer
          → Balanced m 0 n sizeof_ringbuffer
          → malloc_track (mul_size c es) n ≡ r
          → with_storage c es p r ≡ (some rb, m')
          → Created c es m m' rb
      second p n (none, n2) a b e1 e2 = absurd (cc e2)
      second p n (some s, n2) a b e1 e2 =
          let (size, used) = malloc_track-some (mul_size c es) n e1 in
          let same_rb : created c es p s ≡ rb = ground (arith, e2) in
          let same_m : n2 ≡ m' = ground (arith, e2) in
          subst (Created c es m m') same_rb (
            subst (λ k. Created c es m k (created c es p s)) same_m
              (record {
                handle = a;
                bytes = size;
                cells = length-replicate {A = Option A} (s.size / es) none;
                at_capacity = refl;
                for_size = refl;
                at_head = refl;
                at_tail = refl;
                no_elements = refl;
                charged = omega (arith, a, b, size, used);
              }))

      start :
          (r : Option Pointer × Memory)
          → malloc_track sizeof_ringbuffer m ≡ r
          → with_handle c es r ≡ (some rb, m')
          → Created c es m m' rb
      start (none, n) e1 e2 = absurd (cc e2)
      start (some p, n) e1 e2 =
          let (a, b) = malloc_track-some sizeof_ringbuffer m e1 in
          second p n (malloc_track (mul_size c es) n) a (omega (arith, b)) refl e2

  -- A created buffer, for at least one element of at least a byte, whose bytes do not overflow, is in
  -- order and empty, with the capacity that was asked for.
  pub create_ringbuffer-IsValid :
      (capacity elem_size : ℕ) (m m' : Memory) {rb : RingBuffer A}
      → 0 < capacity
      → 0 < elem_size
      → capacity * elem_size < size_mod
      → capacity + capacity ≤ size_mod
      → create_ringbuffer capacity elem_size m ≡ (some rb, m')
      → IsValid rb × (contents rb ≡ []) × (rb.capacity ≡ capacity)
  create_ringbuffer-IsValid c es m m' {rb} hc he h r e =
      let k = create_ringbuffer-Created c es m m' e in
      let bytes : rb.storage.size ≡ c * es = k.bytes ∙ mod-eq_of_lt h in
      (
        record {
          some_bytes = rw k.for_size he;
          some_room = rw k.at_capacity hc;
          no_overflow = rw (k.at_capacity, k.for_size) h;
          roomy = rw k.at_capacity r;
          bytes = rw (k.at_capacity, k.for_size) bytes;
          stored = k.cells ∙ (ap (λ b. b / es) bytes ∙ mul-div_left c he) ∙ sym k.at_capacity;
          head_in = omega (arith, k.at_head, k.at_capacity);
          within = omega (arith, k.no_elements);
          linked =
              k.at_tail ∙ sym (rw (k.at_head, k.no_elements) (mod-eq_of_lt (rw k.at_capacity hc)));
        },
        ap (λ n. contents (record rb { size = n })) k.no_elements,
        k.at_capacity,
      )

  -- `create` does not check the product: where capacity times element size overflows the word and the
  -- C library serves the two requests, which are for the wrapped product, a buffer of the asked capacity
  -- is made whose storage has room for fewer elements.
  pub create_ringbuffer-overflow :
      (capacity elem_size : ℕ) (m m₁ m₂ : Memory) (handle storage : Pointer)
      → 0 < elem_size
      → size_mod ≤ capacity * elem_size
      → malloc_track sizeof_ringbuffer m ≡ (some handle, m₁)
      → malloc_track (mul_size capacity elem_size) m₁ ≡ (some storage, m₂)
      → (rb : RingBuffer A) × (create_ringbuffer capacity elem_size m ≡ (some rb, m₂))
        × (rb.capacity ≡ capacity)
        × (length rb.cells < capacity)
  unfolding create_ringbuffer
  create_ringbuffer-overflow c es m m₁ m₂ p s he h first second =
      let rb : RingBuffer A = created c es p s in
      let made : create_ringbuffer c es m ≡ (some rb, m₂) =
        ap (with_handle c es) first ∙ ap (with_storage c es p) second in
      let k = create_ringbuffer-Created c es m m₂ made in
      let short : mul_size c es < c * es = omega arith in
      (rb, made, refl, rw (k.cells, k.bytes) ((div-lt_iff_lt-mul he).1 short))

  abbrev kept : RingBuffer A → Status × Option (RingBuffer A) → RingBuffer A
  kept rb (s, none) = rb
  kept rb (s, some rb') = rb'

  -- The buffer after a sequence of calls.
  pub after : List (Op A) → RingBuffer A → RingBuffer A
  after [] rb = rb
  after (op ∷ ops) rb = after ops (kept rb (apply op rb))

  owned-apply :
      (op : Op A) (rb : RingBuffer A)
      → ((kept rb (apply op rb)).handle ≡ rb.handle)
        × ((kept rb (apply op rb)).storage ≡ rb.storage)
  unfolding apply push_back_ringbuffer push_front_ringbuffer pop_front_ringbuffer
      pop_back_ringbuffer
  owned-apply (push_front x) rb = ground arith
  owned-apply (push_back x) rb = ground arith
  owned-apply pop_front rb = ground arith
  owned-apply pop_back rb = ground arith

  owned-after :
      (ops : List (Op A)) (rb : RingBuffer A)
      → ((after ops rb).handle ≡ rb.handle) × ((after ops rb).storage ≡ rb.storage)
  unfolding after
  owned-after [] rb = (refl, refl)
  owned-after (op ∷ ops) rb =
      let (h, s) = owned-apply op rb in
      let (hs, ss) = owned-after ops (kept rb (apply op rb)) in (hs ∙ h, ss ∙ s)

  -- Nothing leaks: a buffer that was created, used by any sequence of pushes and pops, and freed,
  -- leaves the counter as it was before.
  pub free_ringbuffer_restores :
      (capacity elem_size : ℕ) (m m' : Memory) (ops : List (Op A)) {rb : RingBuffer A}
      → m.used < size_mod
      → create_ringbuffer capacity elem_size m ≡ (some rb, m')
      → (free_ringbuffer (some (after ops rb)) m').used ≡ m.used
  unfolding free_ringbuffer
  free_ringbuffer_restores c es m m' ops {rb} low e =
      let k = create_ringbuffer-Created c es m m' e in
      let (h, s) = owned-after ops rb in
      rw (h, s)
        (omega (
          arith,
          k.handle,
          k.bytes,
          k.charged,
          used-free_track rb.handle (free_track (some rb.storage) m'),
          used-free_track rb.storage m',
        ))
