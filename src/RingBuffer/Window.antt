-- ===== src/RingBuffer/Window.antt =====
-- The elements of a circular array from an index on, going round at its capacity.
use native.Mathlib.Nat.{mod-add-mod, mod-eq_of_lt, mod-eq-sub-mod, mod-lt, add-mod_right, add-zero}
use native.Mathlib.Decide.{dec_lt}
use cdsa.Base.{
  ℕ, zero, suc, ◌+◌, ◌-◌, ◌%◌, ◌≤◌, ◌<◌, ◌≡◌, ◌≢◌, refl, ap, ap₂, sym, ◌∙◌, Option, List, [], ◌∷◌,
  ◌++◌, length, set, cell, cell-set, arith,
}

-- The index one before, round the end.
pub back_mod :
    (h capacity : ℕ)
    → h < capacity
    → (h + capacity - 1) % capacity ≡ (h + (capacity - 1)) % capacity
back_mod h capacity p = ap (λ n. n % capacity) (omega arith)

-- Fewer than `capacity` steps round the ring, and at least one, do not come back to the start.
add-mod-ne : (capacity h k : ℕ) → h < capacity → 0 < k → k < capacity → (h + k) % capacity ≢ h
add-mod-ne capacity h k p q r = elim (dec_lt (h + k) capacity) [
  | yes s ↦ omega (arith, mod-eq_of_lt s)
  | no s ↦ omega (
    arith,
    mod-eq-sub-mod {n = h + k} {m = capacity} (omega arith),
    mod-eq_of_lt {n = h + k - capacity} {m = capacity} (omega arith),
  )
]

-- A step from the start leaves one step less to go.
pub shift : (capacity h k : ℕ) → (h + suc k) % capacity ≡ ((h + 1) % capacity + k) % capacity
shift capacity h k = rw mod-add-mod (ap (λ n. n % capacity) (omega arith))

module _ {ℓ} {A : Type ℓ} (capacity : ℕ) where
  abbrev pub window : List (Option A) → ℕ → ℕ → List (Option A)
  window cells h zero = []
  window cells h (suc n) = cell cells h ∷ window cells ((h + 1) % capacity) n

  pub length-window : (cells : List (Option A)) (h n : ℕ) → length (window cells h n) ≡ n
  length-window cells h zero = refl
  length-window cells h (suc n) = ap suc (length-window cells ((h + 1) % capacity) n)

  -- A window can be taken apart at its end as well.
  pub window-snoc :
      (cells : List (Option A)) (h n : ℕ)
      → h < capacity
      → window cells h (suc n) ≡ window cells h n ++ cell cells ((h + n) % capacity) ∷ []
  window-snoc cells h zero p = rw (add-zero, mod-eq_of_lt p)
  window-snoc cells h (suc n) p = ap (◌∷◌ (cell cells h)) (
      window-snoc cells ((h + 1) % capacity) n (mod-lt (h + 1) (omega arith))
      ∙ ap (λ i. window cells ((h + 1) % capacity) n ++ cell cells i ∷ [])
          (sym (shift capacity h n)))

  -- A write behind a window does not reach it.
  pub window-set :
      (cells : List (Option A)) (v : Option A) (h n k i : ℕ)
      → length cells ≡ capacity
      → h < capacity
      → n ≤ k
      → k < capacity
      → i ≡ (h + k) % capacity
      → window (set cells i v) h n ≡ window cells h n
  window-set cells v h zero k i size p q r e = refl
  window-set cells v h (suc n) zero i size p q r e = absurd (omega arith)
  window-set cells v h (suc n) (suc k) i size p q r e = ap₂ ◌∷◌ kept (
      window-set cells v ((h + 1) % capacity) n k i size (mod-lt (h + 1) (omega arith))
        (omega arith) (omega arith) (e ∙ shift capacity h k))
    where
      apart : i ≢ h
      apart = rw e (add-mod-ne capacity h (suc k) p (omega arith) r)

      inside : i < length cells
      inside = rw (e, size) (mod-lt (h + suc k) (omega arith))

      kept : cell (set cells i v) h ≡ cell cells h
      kept = ground (arith, cell-set cells i h v inside, apart)

-- A step back, and then forward, is where it was.
pub back_then_forward :
    (capacity h : ℕ) → h < capacity → ((h + capacity - 1) % capacity + 1) % capacity ≡ h
back_then_forward capacity h p = rw mod-add-mod (
    ap (λ n. n % capacity) {x = h + capacity - 1 + 1} (omega arith)
    ∙ (add-mod_right h capacity ∙ mod-eq_of_lt p))

-- From one step back, one more step leads to the same index.
pub back_shift :
    (capacity h n : ℕ)
    → h < capacity
    → ((h + capacity - 1) % capacity + suc n) % capacity ≡ (h + n) % capacity
back_shift capacity h n p =
    shift capacity ((h + capacity - 1) % capacity) n
    ∙ ap (λ i. (i + n) % capacity) (back_then_forward capacity h p)

-- One step back from the end of a window.
pub back_of_end :
    (capacity h n : ℕ)
    → 0 < capacity
    → 0 < n
    → ((h + n) % capacity + capacity - 1) % capacity ≡ (h + (n - 1)) % capacity
back_of_end capacity h n p q =
    ap (λ k. k % capacity) {x = (h + n) % capacity + capacity - 1}
      {y = (h + n) % capacity + (capacity - 1)} (omega arith)
    ∙ rw mod-add-mod (
        ap (λ k. k % capacity) {x = h + n + (capacity - 1)} {y = h + (n - 1) + capacity}
          (omega arith)
        ∙ add-mod_right (h + (n - 1)) capacity)
