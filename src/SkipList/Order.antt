-- ===== src/SkipList/Order.antt =====
-- The abstract view of a skip list: its scores and values, in order, and the sorted insertion. Scores
-- are doubles that are numbers, so the comparisons are those of a linear order, given by a rank.
use cdsa.Base.{
  ℕ, ◌≡◌, refl, Bool, true, false, ◌&&◌, ◌||◌, List, [], ◌∷◌, length, ◌+◌, ltb, leb, ◌==◌,
  if◌then◌else◌, inl, inr, Bool-cases, arith,
}
use cdsa.Text.{Key, str_lt}
use cdsa.SkipList.{Doubles}
use cdsa.SkipList.Names.{All, All-map}

pub record IsRanked {ℓ} {S : Type ℓ} (d : Doubles S) (rank : S → ℕ) : Type ℓ where
  pub by_lt : (x y : S) → d.lt x y ≡ ltb (rank x) (rank y)
  pub by_eq : (x y : S) → d.eq x y ≡ (rank x == rank y)
  pub by_le : (x y : S) → d.le x y ≡ leb (rank x) (rank y)

-- The order of texts: not both ways, and what is not after `b` is not after what is not before it.
str_lt_asym : (a b : Key) → str_lt a b ≡ true → str_lt b a ≡ false
str_lt_asym [] [] h = refl
str_lt_asym [] (d ∷ b) h = refl
str_lt_asym (c ∷ a) [] h = absurd (cc h)
str_lt_asym (c ∷ a) (d ∷ b) h = ground (arith, str_lt_asym a b)

str_lt_trans_neg : (a b c : Key) → str_lt b a ≡ false → str_lt c b ≡ false → str_lt c a ≡ false
str_lt_trans_neg [] [] c h k = k
str_lt_trans_neg [] (x ∷ b) [] h k = refl
str_lt_trans_neg [] (x ∷ b) (y ∷ c) h k = refl
str_lt_trans_neg (w ∷ a) [] c h k = absurd (cc h)
str_lt_trans_neg (w ∷ a) (x ∷ b) [] h k = absurd (cc k)
str_lt_trans_neg (w ∷ a) (x ∷ b) (y ∷ c) h k = ground (arith, str_lt_trans_neg a b c)

module _ {ℓ} {S : Type ℓ} (d : Doubles S) where
  -- By score, and by value where scores tie.
  abbrev pub precedes : S × Key → S × Key → Bool
  precedes e f = d.lt e.0 f.0 || (d.eq e.0 f.0 && str_lt e.1 f.1)

  -- No entry precedes one in front of it.
  abbrev pub IsSorted : List (S × Key) → Type 0
  IsSorted [] = Unit
  IsSorted (e ∷ es) = All (λ f. precedes f e ≡ false) es × IsSorted es

  -- In front of the first entry that does not precede the new one.
  abbrev pub insert_sorted : S × Key → List (S × Key) → List (S × Key)
  insert_sorted e [] = e ∷ []
  insert_sorted e (f ∷ es) = if precedes f e then f ∷ insert_sorted e es else e ∷ f ∷ es

  pub length-insert_sorted :
      (e : S × Key) (es : List (S × Key)) → length (insert_sorted e es) ≡ length es + 1
  length-insert_sorted e [] = omega arith
  length-insert_sorted e (f ∷ es) = elim (Bool-cases (precedes f e)) [
    | inl first ↦ rw first (omega (arith, length-insert_sorted e es))
    | inr later ↦ rw later (omega arith)
  ]

  module _ (rank : S → ℕ) (r : IsRanked d rank) where
    precedes_asym : (e f : S × Key) → precedes e f ≡ true → precedes f e ≡ false
    precedes_asym e f h = ground (
      arith,
      r.by_lt e.0 f.0,
      r.by_eq e.0 f.0,
      r.by_lt f.0 e.0,
      r.by_eq f.0 e.0,
      str_lt_asym e.1 f.1,
    )

    precedes_trans_neg :
        (e f g : S × Key) → precedes f e ≡ false → precedes g f ≡ false → precedes g e ≡ false
    precedes_trans_neg e f g h k = ground (
      arith,
      r.by_lt f.0 e.0,
      r.by_eq f.0 e.0,
      r.by_lt g.0 f.0,
      r.by_eq g.0 f.0,
      r.by_lt g.0 e.0,
      r.by_eq g.0 e.0,
      str_lt_trans_neg e.1 f.1 g.1,
    )

    All-insert_sorted :
        (P : S × Key → Type 0) (e : S × Key) (es : List (S × Key))
        → P e
        → All P es
        → All P (insert_sorted e es)
    All-insert_sorted P e [] h k = (h, tt)
    All-insert_sorted P e (f ∷ es) h k = elim (Bool-cases (precedes f e)) [
      | inl first ↦ rw first (k.0, All-insert_sorted P e es h k.1)
      | inr later ↦ rw later (h, k)
    ]

    -- The sorted insertion keeps the order.
    pub insert_sorted-IsSorted :
        (e : S × Key) (es : List (S × Key)) → IsSorted es → IsSorted (insert_sorted e es)
    insert_sorted-IsSorted e [] s = (tt, tt)
    insert_sorted-IsSorted e (f ∷ es) s = elim (Bool-cases (precedes f e)) [
      | inl first ↦ rw first (
        All-insert_sorted (λ g. precedes g f ≡ false) e es (precedes_asym f e first) s.0,
        insert_sorted-IsSorted e es s.1,
      )
      | inr later ↦ rw later ((later, All-map es (λ g h. precedes_trans_neg e f g later h) s.0), s)
    ]

    -- What stands behind an entry that does not precede the new one does not precede it either.
    pub none_precedes :
        (e f : S × Key) (es : List (S × Key))
        → precedes f e ≡ false
        → All (λ g. precedes g f ≡ false) es
        → All (λ g. precedes g e ≡ false) es
    none_precedes e f es h k = All-map es (λ g l. precedes_trans_neg e f g h l) k
