-- ===== src/Vector/Life.antt =====
-- The life of a vector, from `cdsa_create_vector` through any calls to `cdsa_free_vector`.
use cdsa.Base.{
  ℕ, ◌*◌, ◌<◌, ◌≡◌, refl, subst, inl, inr, Option, none, some, mul_size, length-set, size_mod,
  arith,
}
use cdsa.Error.{ok}
use cdsa.Allocator.{Memory, Pointer, malloc_track, free_track}
use cdsa.Allocator.Telemetry.{Balanced, malloc_track-some, used-free_track}
use cdsa.Vector.{
  Vector, created, initial_capacity, sizeof_vector, with_storage, with_handle, create_vector,
  push_vector, pop_vector, set_vector, clear_vector, free_vector,
}
use cdsa.Vector.Inv.{IsValid, create_vector-IsValid}
use cdsa.Vector.Contents.{Pushed, push_vector-Pushed}
use cdsa.Vector.Telemetry.{owned, push_vector-Balanced}

module _ {ℓ} {A : Type ℓ} where
  -- A vector for elements of `es` bytes and the memory, after successful calls since `m₀`.
  pub data Life (es : ℕ) (m₀ : Memory) : Vector A → Memory → Type ℓ where
    creates : {v : Vector A} {m : Memory} → create_vector es m₀ ≡ (some v, m) → Life es m₀ v m
    pushes :
        {v w : Vector A} {m m' : Memory} (x : A)
        → Life es m₀ v m
        → v.capacity * 2 * v.elem_size < size_mod
        → push_vector (some v) (some x) m ≡ (ok, some w, m')
        → Life es m₀ w m'
    pops :
        {v w : Vector A} {m : Memory}
        → Life es m₀ v m
        → pop_vector (some v) ≡ (ok, some w)
        → Life es m₀ w m
    sets :
        {v w : Vector A} {m : Memory} (i : ℕ) (x : A)
        → Life es m₀ v m
        → set_vector (some v) i (some x) ≡ (ok, some w)
        → Life es m₀ w m
    clears :
        {v w : Vector A} {m : Memory}
        → Life es m₀ v m
        → clear_vector (some v) ≡ some w
        → Life es m₀ w m

  -- What holds all along: the vector is in order, and the counter stands above its first value by
  -- what the vector owns.
  pub record Accounted (m₀ : Memory) (v : Vector A) (m : Memory) : Type ℓ where
    pub valid : IsValid v
    pub handle : v.handle.size ≡ sizeof_vector
    pub charged : Balanced m₀ 0 m (owned v)

  created-Accounted :
      (es : ℕ) (m m' : Memory) {v : Vector A}
      → 0 < es
      → initial_capacity * es < size_mod
      → create_vector es m ≡ (some v, m')
      → Accounted m v m'
  unfolding create_vector
  created-Accounted es m m' {v} h k e = start (malloc_track sizeof_vector m) refl e
    where
      valid : IsValid v
      valid = (create_vector-IsValid es m m' h k e).0

      second :
          (p : Pointer) (n : Memory) (r : Option Pointer × Memory)
          → p.size ≡ sizeof_vector
          → Balanced m 0 n sizeof_vector
          → malloc_track (mul_size initial_capacity es) n ≡ r
          → with_storage es p r ≡ (some v, m')
          → Accounted m v m'
      second p n (none, n2) a b e1 e2 = absurd (cc e2)
      second p n (some s, n2) a b e1 e2 =
          let (c, d) = malloc_track-some (mul_size initial_capacity es) n e1 in
          let same_v : created es p s ≡ v = ground (arith, e2) in
          let same_m : n2 ≡ m' = ground (arith, e2) in
          record {
            valid = valid;
            handle = rw (← same_v) a;
            charged = rw (← same_v, ← same_m) (omega (arith, a, b, c, d));
          }

      start :
          (r : Option Pointer × Memory)
          → malloc_track sizeof_vector m ≡ r
          → with_handle es r ≡ (some v, m')
          → Accounted m v m'
      start (none, n) e1 e2 = absurd (cc e2)
      start (some p, n) e1 e2 =
          let (a, b) = malloc_track-some sizeof_vector m e1 in
          second p n (malloc_track (mul_size initial_capacity es) n) a (omega (arith, b)) refl e2

  pushed-Accounted :
      (m₀ m m' : Memory) (v w : Vector A) (x : A)
      → Accounted m₀ v m
      → v.capacity * 2 * v.elem_size < size_mod
      → push_vector (some v) (some x) m ≡ (ok, some w, m')
      → Accounted m₀ w m'
  pushed-Accounted m₀ m m' v w x h k e =
      let (u, n, s, eq, bal, keep) = push_vector-Balanced v x m h.valid k in
      let same_v : u ≡ w = ground (arith, eq, e) in
      let same_m : n ≡ m' = ground (arith, eq, e) in
      record {
        valid = pushed_valid (push_vector-Pushed v x m h.valid k);
        handle = rw (← same_v) (rw keep h.handle);
        charged = rw (← same_v, ← same_m) (omega (arith, bal, h.charged));
      }
    where
      pushed_valid : Pushed v x (push_vector (some v) (some x) m) → IsValid w
      pushed_valid (inl (u, n, eq, valid, _, _, _)) = subst IsValid (ground (arith, eq, e)) valid
      pushed_valid (inr (u, n, eq, _, _, _)) = absurd (ground (arith, eq, e))

  popped-Accounted :
      (m₀ m : Memory) (v w : Vector A)
      → Accounted m₀ v m
      → pop_vector (some v) ≡ (ok, some w)
      → Accounted m₀ w m
  unfolding pop_vector
  popped-Accounted m₀ m v w h e = ground (arith, e)

  set-Accounted :
      (m₀ m : Memory) (v w : Vector A) (i : ℕ) (x : A)
      → Accounted m₀ v m
      → set_vector (some v) i (some x) ≡ (ok, some w)
      → Accounted m₀ w m
  unfolding set_vector
  set-Accounted m₀ m v w i x h e = ground (arith, e, length-set v.cells i (some x))

  cleared-Accounted :
      (m₀ m : Memory) (v w : Vector A)
      → Accounted m₀ v m
      → clear_vector (some v) ≡ some w
      → Accounted m₀ w m
  unfolding clear_vector
  cleared-Accounted m₀ m v w h e = ground (arith, e)

  -- At every point of its life a vector is in order and accounted for.
  pub Life-Accounted :
      (es : ℕ) (m₀ : Memory) {v : Vector A} {m : Memory}
      → 0 < es
      → initial_capacity * es < size_mod
      → Life es m₀ v m
      → Accounted m₀ v m
  Life-Accounted es m₀ p q (creates e) = created-Accounted es m₀ _ p q e
  Life-Accounted es m₀ p q (pushes x l k e) =
      pushed-Accounted m₀ _ _ _ _ x (Life-Accounted es m₀ p q l) k e
  Life-Accounted es m₀ p q (pops l e) = popped-Accounted m₀ _ _ _ (Life-Accounted es m₀ p q l) e
  Life-Accounted es m₀ p q (sets i x l e) =
      set-Accounted m₀ _ _ _ i x (Life-Accounted es m₀ p q l) e
  Life-Accounted es m₀ p q (clears l e) = cleared-Accounted m₀ _ _ _ (Life-Accounted es m₀ p q l) e

  -- Nothing leaks: whatever successful calls a vector has seen, freeing it brings the counter back to
  -- where it stood before the vector was created.
  pub free_vector_restores :
      (es : ℕ) (m₀ : Memory) {v : Vector A} {m : Memory}
      → 0 < es
      → initial_capacity * es < size_mod
      → m₀.used < size_mod
      → Life es m₀ v m
      → (free_vector (some v) m).used ≡ m₀.used
  unfolding free_vector
  free_vector_restores es m₀ {v} {m} p q low l =
      let a = Life-Accounted es m₀ p q l in
      omega (
        arith,
        a.handle,
        a.charged,
        a.valid.bytes,
        a.valid.no_overflow,
        used-free_track v.handle (free_track (some v.storage) m),
        used-free_track v.storage m,
      )
