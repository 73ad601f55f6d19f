-- ===== src/Base/Lists.antt =====
-- Lists measured and indexed by native numbers, under the library's names. A C array of elements
-- is a list of cells; a cell that no call has written yet is `none`.
use Prim.Native.Nat.{ℕ, zero, suc, ◌+◌, ◌-◌, ◌≤◌, ◌<◌, min}
use mathlib.Core.Path.{◌≡◌, refl, ap}
use mathlib.Core.List.{List, [], ◌∷◌, ◌++◌}
use mathlib.Core.Option.{Option, none, some}
use native.Mathlib.Omega.{arith}
use cdsa.Base.Tests.{◌==◌, if◌then◌else◌}

module _ {ℓ} {A : Type ℓ} where
  abbrev pub length : List A → ℕ
  length [] = 0
  length (x ∷ xs) = suc (length xs)

  abbrev pub get_elem? : List A → ℕ → Option A
  get_elem? [] i = none
  get_elem? (x ∷ xs) zero = some x
  get_elem? (x ∷ xs) (suc i) = get_elem? xs i

  -- A write out of bounds changes nothing.
  abbrev pub set : List A → ℕ → A → List A
  set [] i v = []
  set (x ∷ xs) zero v = v ∷ xs
  set (x ∷ xs) (suc i) v = x ∷ set xs i v

  abbrev pub take : ℕ → List A → List A
  take zero xs = []
  take (suc n) [] = []
  take (suc n) (x ∷ xs) = x ∷ take n xs

  abbrev pub drop : ℕ → List A → List A
  drop zero xs = xs
  drop (suc n) [] = []
  drop (suc n) (x ∷ xs) = drop n xs

  abbrev pub replicate : ℕ → A → List A
  replicate zero a = []
  replicate (suc n) a = a ∷ replicate n a

  pub length-append : (xs ys : List A) → length (xs ++ ys) ≡ length xs + length ys
  length-append [] ys = omega arith
  length-append (x ∷ xs) ys = omega (arith, length-append xs ys)

  pub length-set : (xs : List A) (i : ℕ) (v : A) → length (set xs i v) ≡ length xs
  length-set [] i v = refl
  length-set (x ∷ xs) zero v = refl
  length-set (x ∷ xs) (suc i) v = ap suc (length-set xs i v)

  pub length-take : (n : ℕ) (xs : List A) → length (take n xs) ≡ min n (length xs)
  length-take zero xs = omega arith
  length-take (suc n) [] = omega arith
  length-take (suc n) (x ∷ xs) = omega (arith, length-take n xs)

  pub length-drop : (n : ℕ) (xs : List A) → length (drop n xs) ≡ length xs - n
  length-drop zero xs = omega arith
  length-drop (suc n) [] = omega arith
  length-drop (suc n) (x ∷ xs) = omega (arith, length-drop n xs)

  pub length-replicate : (n : ℕ) (a : A) → length (replicate n a) ≡ n
  length-replicate zero a = refl
  length-replicate (suc n) a = ap suc (length-replicate n a)

  -- What an array read gives after a write inside the array.
  pub get_elem?-set :
      (xs : List A) (i j : ℕ) (v : A)
      → i < length xs
      → get_elem? (set xs i v) j ≡ (if i == j then some v else get_elem? xs j)
  get_elem?-set [] i j v h = absurd (omega arith)
  get_elem?-set (x ∷ xs) zero zero v h = refl
  get_elem?-set (x ∷ xs) (suc i) (suc j) v h = ground (arith, get_elem?-set xs i j v)
  get_elem?-set (x ∷ xs) i j v h = ground arith

  -- The first `n + 1` elements, split at the last of them.
  pub take-suc :
      (xs : List A) (n : ℕ) (x : A)
      → get_elem? xs n ≡ some x
      → take (suc n) xs ≡ take n xs ++ x ∷ []
  take-suc [] n x h = ground arith
  take-suc (y ∷ xs) zero x h = ground arith
  take-suc (y ∷ xs) (suc n) x h = ap (◌∷◌ y) (take-suc xs n x h)

  pub take-set_le : (xs : List A) (n i : ℕ) (v : A) → n ≤ i → take n (set xs i v) ≡ take n xs
  take-set_le xs zero i v h = refl
  take-set_le [] (suc n) i v h = refl
  take-set_le (x ∷ xs) (suc n) zero v h = absurd (omega arith)
  take-set_le (x ∷ xs) (suc n) (suc i) v h = ap (◌∷◌ x) (take-set_le xs n i v (omega arith))

  pub take-set : (xs : List A) (n i : ℕ) (v : A) → take n (set xs i v) ≡ set (take n xs) i v
  take-set xs zero i v = refl
  take-set [] (suc n) i v = refl
  take-set (x ∷ xs) (suc n) zero v = refl
  take-set (x ∷ xs) (suc n) (suc i) v = ap (◌∷◌ x) (take-set xs n i v)

  pub take-append_le : (xs ys : List A) (n : ℕ) → n ≤ length xs → take n (xs ++ ys) ≡ take n xs
  take-append_le xs ys zero h = refl
  take-append_le [] ys (suc n) h = absurd (omega arith)
  take-append_le (x ∷ xs) ys (suc n) h = ap (◌∷◌ x) (take-append_le xs ys n (omega arith))

  pub take-length : (xs : List A) → take (length xs) xs ≡ xs
  take-length [] = refl
  take-length (x ∷ xs) = ap (◌∷◌ x) (take-length xs)

  pub take-take : (xs : List A) (m n : ℕ) → m ≤ n → take m (take n xs) ≡ take m xs
  take-take xs zero n h = refl
  take-take xs (suc m) zero h = absurd (omega arith)
  take-take [] (suc m) (suc n) h = refl
  take-take (x ∷ xs) (suc m) (suc n) h = ap (◌∷◌ x) (take-take xs m n (omega arith))

  pub get_elem?-take : (xs : List A) (n i : ℕ) → i < n → get_elem? (take n xs) i ≡ get_elem? xs i
  get_elem?-take xs zero i h = absurd (omega arith)
  get_elem?-take [] (suc n) i h = refl
  get_elem?-take (x ∷ xs) (suc n) zero h = refl
  get_elem?-take (x ∷ xs) (suc n) (suc i) h = get_elem?-take xs n i (omega arith)

  pub get_elem?-some : (xs : List A) (i : ℕ) → i < length xs → (x : A) × (get_elem? xs i ≡ some x)
  get_elem?-some [] i h = absurd (omega arith)
  get_elem?-some (x ∷ xs) zero h = (x, refl)
  get_elem?-some (x ∷ xs) (suc i) h = get_elem?-some xs i (omega arith)

  pub get_elem?-none : (xs : List A) (i : ℕ) → length xs ≤ i → get_elem? xs i ≡ none
  get_elem?-none [] i h = refl
  get_elem?-none (x ∷ xs) zero h = absurd (omega arith)
  get_elem?-none (x ∷ xs) (suc i) h = get_elem?-none xs i (omega arith)

  pub get_elem?-append_length :
      (xs : List A) (x : A) → get_elem? (xs ++ x ∷ []) (length xs) ≡ some x
  get_elem?-append_length [] x = refl
  get_elem?-append_length (y ∷ xs) x = get_elem?-append_length xs x

  pub set-ge : (xs : List A) (i : ℕ) (v : A) → length xs ≤ i → set xs i v ≡ xs
  set-ge [] i v h = refl
  set-ge (x ∷ xs) zero v h = absurd (omega arith)
  set-ge (x ∷ xs) (suc i) v h = ap (◌∷◌ x) (set-ge xs i v (omega arith))

-- A read of a cell: `none` out of the array, and for a cell never written.
abbrev pub cell {ℓ} : {A : Type ℓ} → List (Option A) → ℕ → Option A
cell [] i = none
cell (x ∷ xs) zero = x
cell (x ∷ xs) (suc i) = cell xs i

-- What `realloc` makes of an array: `n` cells, of which the old ones come first.
abbrev pub resize_cells {ℓ} : {A : Type ℓ} → ℕ → List (Option A) → List (Option A)
resize_cells n xs = take n xs ++ replicate (n - length xs) none

module _ {ℓ} {A : Type ℓ} where
  pub cell-get_elem? :
      (xs : List (Option A)) (i : ℕ) {x : Option A} → get_elem? xs i ≡ some x → cell xs i ≡ x
  cell-get_elem? [] i h = ground arith
  cell-get_elem? (y ∷ xs) zero h = ground arith
  cell-get_elem? (y ∷ xs) (suc i) h = cell-get_elem? xs i h

  pub get_elem?-cell :
      (xs : List (Option A)) (i : ℕ) → i < length xs → get_elem? xs i ≡ some (cell xs i)
  get_elem?-cell [] i h = absurd (omega arith)
  get_elem?-cell (x ∷ xs) zero h = refl
  get_elem?-cell (x ∷ xs) (suc i) h = get_elem?-cell xs i (omega arith)

  pub cell-set :
      (xs : List (Option A)) (i j : ℕ) (v : Option A)
      → i < length xs
      → cell (set xs i v) j ≡ (if i == j then v else cell xs j)
  cell-set [] i j v h = absurd (omega arith)
  cell-set (x ∷ xs) zero zero v h = refl
  cell-set (x ∷ xs) (suc i) (suc j) v h = ground (arith, cell-set xs i j v)
  cell-set (x ∷ xs) i j v h = ground arith

  pub cell-take : (xs : List (Option A)) (n i : ℕ) → i < n → cell (take n xs) i ≡ cell xs i
  cell-take xs zero i h = absurd (omega arith)
  cell-take [] (suc n) i h = refl
  cell-take (x ∷ xs) (suc n) zero h = refl
  cell-take (x ∷ xs) (suc n) (suc i) h = cell-take xs n i (omega arith)

  pub length-resize_cells : (n : ℕ) (xs : List (Option A)) → length (resize_cells n xs) ≡ n
  length-resize_cells n xs = omega (
    arith,
    length-append (take n xs) (replicate (n - length xs) none),
    length-take n xs,
    length-replicate {A = Option A} (n - length xs) none,
  )

  -- Growing an array keeps every prefix of it.
  pub take-resize_cells :
      (n k : ℕ) (xs : List (Option A))
      → k ≤ n
      → k ≤ length xs
      → take k (resize_cells n xs) ≡ take k xs
  take-resize_cells n k xs h l = rw (
    take-append_le (take n xs) (replicate (n - length xs) none) k (omega (arith, length-take n xs)),
    take-take xs k n h,
  )

  pub drop-cell :
      (xs : List (Option A)) (i : ℕ) → i < length xs → drop i xs ≡ cell xs i ∷ drop (suc i) xs
  drop-cell [] i h = absurd (omega arith)
  drop-cell (x ∷ xs) zero h = refl
  drop-cell (x ∷ xs) (suc i) h = drop-cell xs i (omega arith)

  pub drop-length : (xs : List (Option A)) (i : ℕ) → length xs ≤ i → drop i xs ≡ []
  drop-length [] zero h = refl
  drop-length [] (suc i) h = refl
  drop-length (x ∷ xs) zero h = absurd (omega arith)
  drop-length (x ∷ xs) (suc i) h = drop-length xs i (omega arith)
