-- ===== src/PriorityQueue/Order.antt =====
-- The heap order of a list of elements, and what a swap does to it. A comparison is a strict weak
-- order by the rank of the elements: as they are finitely many byte strings, each such order has one.
use native.Mathlib.Nat.{ℕ_set}
use mathlib.Core.Logic.{∥∥₁_elim}
use mathlib.Core.List.{Perm, Permᴰ}
use mathlib.Core.List.Perm as Perms
use cdsa.Base.{
  ℕ, zero, suc, ◌-◌, ◌/◌, ◌≤◌, ◌<◌, ◌≡◌, refl, ap, ◌∙◌, Bool, some, List, [], ◌∷◌, length, set,
  get_elem?, ltb, ◌==◌, if◌then◌else◌, length-set, get_elem?-set, sym, subst, arith,
}

-- The comparison of a queue puts an element before another if its rank is lower.
abbrev pub Ranks {ℓ} : {A : Type ℓ} → (A → ℕ) → (A → A → Bool) → Type ℓ
Ranks rank cmp = (x y : _) → cmp x y ≡ ltb (rank x) (rank y)

abbrev pub parent : ℕ → ℕ
parent c = (c - 1) / 2

Permᴰ-length {ℓ} : {A : Type ℓ} {xs ys : List A} → Permᴰ xs ys → length xs ≡ length ys
Permᴰ-length Permᴰ.nil = refl
Permᴰ-length (Permᴰ.cons _ p) = ap suc (Permᴰ-length p)
Permᴰ-length (Permᴰ.swap _ _) = refl
Permᴰ-length (Permᴰ.trans p q) = Permᴰ-length p ∙ Permᴰ-length q

pub length-perm {ℓ} : {A : Type ℓ} {xs ys : List A} → Perm xs ys → length xs ≡ length ys
length-perm p = ∥∥₁_elim p (ℕ_set _ _) Permᴰ-length

-- A write trades the old element for the new one.
trade {ℓ} :
    {A : Type ℓ} (xs : List A) (i : ℕ) {x : A}
    → get_elem? xs i ≡ some x
    → (y : A) → i < length xs
    → Perm (x ∷ set xs i y) (y ∷ xs)
trade [] i e y h = absurd (omega arith)
trade (z ∷ xs) zero {x} e y h =
    let same : z ≡ x = ground (arith, e) in
    subst (λ t. Perm (x ∷ y ∷ xs) (y ∷ t ∷ xs)) (sym same) (Perms.swap y x xs)
trade (z ∷ xs) (suc i) {x} e y h =
    Perms.trans (Perms.swap z x (set xs i y))
      (Perms.trans (Perms.cons z (trade xs i e y (omega arith))) (Perms.swap y z xs))

module _ {ℓ} {A : Type ℓ} (rank : A → ℕ) where
  -- The rank of the element at an index.
  unfoldable pub key : List A → ℕ → ℕ
  key [] i = 0
  key (x ∷ xs) zero = rank x
  key (x ∷ xs) (suc i) = key xs i

  pub key-get_elem? : (xs : List A) (i : ℕ) {x : A} → get_elem? xs i ≡ some x → key xs i ≡ rank x
  unfolding key
  key-get_elem? [] i e = ground arith
  key-get_elem? (y ∷ xs) zero e = ground arith
  key-get_elem? (y ∷ xs) (suc i) e = key-get_elem? xs i e

  key-set :
      (xs : List A) (i j : ℕ) (x : A)
      → i < length xs
      → key (set xs i x) j ≡ (if i == j then rank x else key xs j)
  unfolding key
  key-set [] i j x h = absurd (omega arith)
  key-set (y ∷ xs) zero zero x h = refl
  key-set (y ∷ xs) zero (suc j) x h = ground arith
  key-set (y ∷ xs) (suc i) zero x h = ground arith
  key-set (y ∷ xs) (suc i) (suc j) x h = ground (arith, key-set xs i j x)

  -- Every parent ranks no later than its children.
  abbrev pub IsHeap : List A → Type 0
  IsHeap xs = (c : ℕ) → 0 < c → c < length xs → key xs (parent c) ≤ key xs c

  module _ (xs : List A) (i j : ℕ) (x y : A) (hi : get_elem? xs i ≡ some x)
      (hj : get_elem? xs j ≡ some y) (inside : i < length xs) (inside' : j < length xs) where
    -- The list after the elements at two indices have changed places.
    abbrev pub swapped : List A
    swapped = set (set xs i y) j x

    pub length-swapped : length swapped ≡ length xs
    length-swapped = omega (arith, length-set (set xs i y) j x, length-set xs i y)

    pub key-swapped :
        (c : ℕ)
        → key swapped c ≡ (if j == c then key xs i else if i == c then key xs j else key xs c)
    key-swapped c = rw (
      key-set (set xs i y) j c x (omega (arith, length-set xs i y)),
      key-set xs i c y inside,
      key-get_elem? xs i hi,
      key-get_elem? xs j hj,
    )

    pub perm-swapped : Perm swapped xs
    perm-swapped =
        let kept : get_elem? (set xs i y) j ≡ some y =
          ground (arith, get_elem?-set xs i j y inside, hj) in
        Perms.cons_inv (
          Perms.trans (trade (set xs i y) j kept x (omega (arith, length-set xs i y)))
            (trade xs i hi y inside))
