-- ===== src/RingBuffer/Inv.antt =====
-- The representation invariant of the ring buffer, and that every call keeps it.
use native.Mathlib.Nat.{mod-add-mod, mod-lt}
use cdsa.Base.{ℕ, ◌+◌, ◌-◌, ◌*◌, ◌%◌, ◌≤◌, ◌<◌, ◌≡◌, ap, ◌∙◌, length, size_mod, arith}
use cdsa.RingBuffer.{RingBuffer, step_forward, step_back}
use cdsa.RingBuffer.Window.{back_of_end}

module _ {ℓ} {A : Type ℓ} where
  -- The last field says where `tail` stands; `roomy`, that an index and the capacity add up to a
  -- word, which holds as the C library serves no block of half the address space.
  pub record IsValid (rb : RingBuffer A) : Type ℓ where
    pub some_bytes : 0 < rb.elem_size
    pub some_room : 0 < rb.capacity
    pub no_overflow : rb.capacity * rb.elem_size < size_mod
    pub roomy : rb.capacity + rb.capacity ≤ size_mod
    pub bytes : rb.storage.size ≡ rb.capacity * rb.elem_size
    pub stored : length rb.cells ≡ rb.capacity
    pub head_in : rb.head < rb.capacity
    pub within : rb.size ≤ rb.capacity
    pub linked : rb.tail ≡ (rb.head + rb.size) % rb.capacity

  pub tail-lt : (rb : RingBuffer A) → IsValid rb → rb.tail < rb.capacity
  tail-lt rb v = rw v.linked (mod-lt (rb.head + rb.size) v.some_room)

  -- No step of the indices wraps.
  pub step_forward-eq :
      (rb : RingBuffer A) (i : ℕ)
      → IsValid rb
      → i < rb.capacity
      → step_forward rb i ≡ (i + 1) % rb.capacity
  step_forward-eq rb i v h = ap (λ n. n % rb.capacity) (omega (arith, v.roomy))

  pub step_back-eq :
      (rb : RingBuffer A) (i : ℕ)
      → IsValid rb
      → i < rb.capacity
      → step_back rb i ≡ (i + rb.capacity - 1) % rb.capacity
  step_back-eq rb i v h = ap (λ n. n % rb.capacity) (omega (arith, v.roomy, v.some_room))

  module _ (rb : RingBuffer A) (v : IsValid rb) where
    pub tail-forward : step_forward rb rb.tail ≡ (rb.head + (rb.size + 1)) % rb.capacity
    tail-forward =
        step_forward-eq rb rb.tail v (tail-lt rb v)
        ∙ ap (λ t. (t + 1) % rb.capacity) v.linked
        ∙ rw mod-add-mod (ap (λ n. n % rb.capacity) (omega arith))

    pub tail-back : 0 < rb.size → step_back rb rb.tail ≡ (rb.head + (rb.size - 1)) % rb.capacity
    tail-back h =
        step_back-eq rb rb.tail v (tail-lt rb v)
        ∙ ap (λ t. (t + rb.capacity - 1) % rb.capacity) v.linked
        ∙ back_of_end rb.capacity rb.head rb.size v.some_room h

    pub head-forward : step_forward rb rb.head ≡ (rb.head + 1) % rb.capacity
    head-forward = step_forward-eq rb rb.head v v.head_in

    pub head-back : step_back rb rb.head ≡ (rb.head + rb.capacity - 1) % rb.capacity
    head-back = step_back-eq rb rb.head v v.head_in
