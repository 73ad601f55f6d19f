-- ===== src/HashMap/Table.antt =====
-- The table of a hash map: reading a slot after a write, and counting the occupied slots.
use cdsa.Base.{
  ℕ, zero, suc, ◌+◌, ◌≤◌, ◌<◌, ◌≡◌, refl, ap, Option, none, some, List, [], ◌∷◌, length, set,
  replicate, size_mod, ◌==◌, if◌then◌else◌, arith,
}
use cdsa.HashMap.{Entry, HashMap, empty_entry, entry_at}

-- 1 for an occupied slot, 0 for an empty one.
abbrev pub weight : Option (List ℕ) → ℕ
weight none = 0
weight (some k) = 1

weight-le : (k : Option (List ℕ)) → weight k ≤ 1
weight-le none = omega arith
weight-le (some k) = omega arith

module _ {ℓ} {V : Type ℓ} where
  pub entry_at-set :
      (es : List (Entry V)) (i j : ℕ) (e : Entry V)
      → i < length es
      → entry_at (set es i e) j ≡ (if i == j then e else entry_at es j)
  entry_at-set [] i j e h = absurd (omega arith)
  entry_at-set (x ∷ es) zero zero e h = refl
  entry_at-set (x ∷ es) zero (suc j) e h = ground arith
  entry_at-set (x ∷ es) (suc i) zero e h = ground arith
  entry_at-set (x ∷ es) (suc i) (suc j) e h = ground (arith, entry_at-set es i j e)

  abbrev pub occupied : List (Entry V) → ℕ
  occupied [] = 0
  occupied (e ∷ es) = weight e.key + occupied es

  pub occupied-le : (es : List (Entry V)) → occupied es ≤ length es
  occupied-le [] = omega arith
  occupied-le (e ∷ es) = omega (arith, weight-le e.key, occupied-le es)

  -- A write changes the count by the slot that it replaces.
  pub occupied-set :
      (es : List (Entry V)) (i : ℕ) (e : Entry V)
      → i < length es
      → occupied (set es i e) + weight (entry_at es i).key ≡ occupied es + weight e.key
  occupied-set [] i e h = absurd (omega arith)
  occupied-set (x ∷ es) zero e h = omega arith
  occupied-set (x ∷ es) (suc i) e h = omega (arith, occupied-set es i e (omega arith))

  -- A table that is not full has an empty slot.
  pub empty_slot :
      (es : List (Entry V))
      → occupied es < length es
      → (i : ℕ) × (i < length es) × ((entry_at es i).key ≡ none)
  empty_slot [] h = absurd (omega arith)
  empty_slot (e ∷ es) h = go e.key refl (empty_slot es)
    where
      go :
          (k : Option (List ℕ))
          → e.key ≡ k
          → (occupied es < length es → (i : ℕ) × (i < length es) × ((entry_at es i).key ≡ none))
          → (i : ℕ) × (i < length (e ∷ es)) × ((entry_at (e ∷ es) i).key ≡ none)
      go none q rest = (0, omega arith, q)
      go (some k) q rest =
          let (i, p, r) = rest (omega (arith, ap weight q)) in (suc i, omega (arith, p), r)

  -- The size counts the occupied slots of a table of `capacity` slots.
  pub record IsValid (h : HashMap V) : Type 0 where
    pub some_room : 0 < h.capacity
    pub stored : length h.entries ≡ h.capacity
    pub counted : h.size ≡ occupied h.entries
    pub roomy : h.capacity + h.capacity ≤ size_mod

pub occupied-replicate {ℓ} : (V : Type ℓ) (n : ℕ) → occupied (replicate n (empty_entry {V = V})) ≡ 0
occupied-replicate V zero = refl
occupied-replicate V (suc n) = omega (arith, occupied-replicate V n)
