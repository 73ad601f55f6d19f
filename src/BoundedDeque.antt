-- ===== src/BoundedDeque.antt =====
-- The abstract double-ended queue of bounded length that the fixed-capacity containers promise:
-- the elements from front to back, and what each call does to them and answers.
use cdsa.Base.{
  ℕ, ◌≡◌, refl, ap, Option, none, some, List, [], ◌∷◌, ◌++◌, length, ◌==◌, if◌then◌else◌,
}
use cdsa.Error.{Status, ok, full, empty}

pub data Op {ℓ} (A : Type ℓ) : Type ℓ where
  push_front : A → Op A
  push_back : A → Op A
  pop_front : Op A
  pop_back : Op A

module _ {ℓ} {A : Type ℓ} where
  abbrev pub front : List (Option A) → Option A
  front [] = none
  front (x ∷ xs) = x

  abbrev pub back : List (Option A) → Option A
  back [] = none
  back (x ∷ []) = x
  back (x ∷ y ∷ xs) = back (y ∷ xs)

  abbrev pub drop_last : List (Option A) → List (Option A)
  drop_last [] = []
  drop_last (x ∷ []) = []
  drop_last (x ∷ y ∷ xs) = x ∷ drop_last (y ∷ xs)

  unfoldable pub step : ℕ → Op A → List (Option A) → Status × List (Option A)
  step capacity (push_front x) xs = if length xs == capacity then (full, xs) else (ok, some x ∷ xs)
  step capacity (push_back x) xs =
      if length xs == capacity then (full, xs) else (ok, xs ++ some x ∷ [])
  step capacity pop_front [] = (empty, [])
  step capacity pop_front (x ∷ xs) = (ok, xs)
  step capacity pop_back [] = (empty, [])
  step capacity pop_back (x ∷ xs) = (ok, drop_last (x ∷ xs))

-- What a client sees of each call: the status, and both ends afterwards.
abbrev pub Reply {ℓ} : Type ℓ → Type ℓ
Reply A = Status × Option A × Option A

module _ {ℓ} {A : Type ℓ} where
  unfoldable pub replies : ℕ → List (Op A) → List (Option A) → List (Reply A)
  replies capacity [] xs = []
  replies capacity (op ∷ ops) xs =
      let (s, ys) = step capacity op xs in (s, front ys, back ys) ∷ replies capacity ops ys

  pub drop_last-snoc : (xs : List (Option A)) (x : Option A) → drop_last (xs ++ x ∷ []) ≡ xs
  drop_last-snoc [] x = refl
  drop_last-snoc (y ∷ []) x = refl
  drop_last-snoc (y ∷ z ∷ xs) x = ap (◌∷◌ y) (drop_last-snoc (z ∷ xs) x)

  pub back-snoc : (xs : List (Option A)) (x : Option A) → back (xs ++ x ∷ []) ≡ x
  back-snoc [] x = refl
  back-snoc (y ∷ []) x = refl
  back-snoc (y ∷ z ∷ xs) x = back-snoc (z ∷ xs) x

  pub step-pop_back_snoc :
      (capacity : ℕ) (xs : List (Option A)) (x : Option A)
      → step capacity pop_back (xs ++ x ∷ []) ≡ (ok, xs)
  unfolding step
  step-pop_back_snoc capacity [] x = refl
  step-pop_back_snoc capacity (y ∷ xs) x = rw (drop_last-snoc (y ∷ xs) x)
