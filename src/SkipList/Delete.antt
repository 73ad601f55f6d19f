-- ===== src/SkipList/Delete.antt =====
-- The abstract deletion from a sorted list, and that only the first entry that does not precede the
-- one looked for can equal it.
use cdsa.Base.{
  ℕ, ◌≡◌, refl, ap, ◌∙◌, Bool, true, false, ◌&&◌, Option, none, some, ◌>>=◌, List, [], ◌∷◌, ◌++◌,
  if◌then◌else◌, inl, inr, Bool-cases, arith,
}
use cdsa.Text.{Key, str_eq→eq, str_eq, str_lt}
use cdsa.SkipList.{Doubles}
use cdsa.SkipList.Names.{All, All-map, All-delete}
use cdsa.SkipList.Order.{IsRanked, precedes, IsSorted}

str_lt→ne : (a b : Key) → str_lt a b ≡ true → str_eq a b ≡ false
str_lt→ne [] [] h = absurd (cc h)
str_lt→ne [] (d ∷ b) h = refl
str_lt→ne (c ∷ a) [] h = refl
str_lt→ne (c ∷ a) (d ∷ b) h = ground (arith, str_lt→ne a b)

-- Of two texts that are not equal one comes first.
str_lt_total : (a b : Key) → str_lt a b ≡ false → str_eq a b ≡ false → str_lt b a ≡ true
str_lt_total [] [] h k = absurd (cc k)
str_lt_total [] (d ∷ b) h k = absurd (cc h)
str_lt_total (c ∷ a) [] h k = refl
str_lt_total (c ∷ a) (d ∷ b) h k = ground (arith, str_lt_total a b)

module _ {ℓ} {S : Type ℓ} (d : Doubles S) where
  -- The same score and the same value.
  abbrev pub equals : S × Key → S × Key → Bool
  equals f e = d.eq f.0 e.0 && str_eq f.1 e.1

  -- The list without its first entry that equals the given one, if there is one.
  abbrev pub delete_sorted : S × Key → List (S × Key) → Option (List (S × Key))
  delete_sorted e [] = none
  delete_sorted e (f ∷ es) =
      if equals f e then some es else (delete_sorted e es >>= λ rest. some (f ∷ rest))

  delete_sorted-none :
      (e : S × Key) (es : List (S × Key))
      → All (λ f. equals f e ≡ false) es
      → delete_sorted e es ≡ none
  delete_sorted-none e [] h = refl
  delete_sorted-none e (f ∷ es) h = rw (h.0, delete_sorted-none e es h.1) refl

  delete_sorted-append :
      (e : S × Key) (es fs : List (S × Key))
      → All (λ f. equals f e ≡ false) es
      → delete_sorted e (es ++ fs) ≡ (delete_sorted e fs >>= λ rest. some (es ++ rest))
  delete_sorted-append e [] fs h = none_or_some (delete_sorted e fs)
    where
      none_or_some : (o : Option (List (S × Key))) → o ≡ (o >>= λ rest. some rest)
      none_or_some none = refl
      none_or_some (some r) = refl
  delete_sorted-append e (f ∷ es) fs h =
      rw (h.0, delete_sorted-append e es fs h.1) (twice (delete_sorted e fs))
    where
      twice :
          (o : Option (List (S × Key)))
          → ((o >>= λ rest. some (es ++ rest)) >>= λ rest. some (f ∷ rest))
            ≡ (o >>= λ rest. some (f ∷ es ++ rest))
      twice none = refl
      twice (some r) = refl

  module _ (rank : S → ℕ) (r : IsRanked d rank) where
    -- What precedes an entry does not equal it.
    precedes-equals : (f e : S × Key) → precedes d f e ≡ true → equals f e ≡ false
    precedes-equals f e h = ground (arith, r.by_lt f.0 e.0, r.by_eq f.0 e.0, str_lt→ne f.1 e.1)

    -- Behind an entry that neither precedes nor equals the one looked for, none equals it.
    equals_behind :
        (g f e : S × Key)
        → precedes d f e ≡ false
        → equals f e ≡ false
        → precedes d g f ≡ false
        → equals g e ≡ false
    equals_behind g f e later other behind = elim (Bool-cases (equals g e)) [
      | inr miss ↦ miss
      | inl hit ↦
          let same : str_eq g.1 e.1 ≡ true = ground (arith, hit) in
          let text : g.1 ≡ e.1 = str_eq→eq g.1 e.1 same in
          let swapped : str_lt g.1 f.1 ≡ str_lt e.1 f.1 = ap (λ t. str_lt t f.1) text in
          absurd (
            ground (
              arith,
              hit,
              later,
              other,
              behind,
              swapped,
              r.by_lt f.0 e.0,
              r.by_eq f.0 e.0,
              r.by_lt g.0 f.0,
              r.by_eq g.0 f.0,
              r.by_eq g.0 e.0,
              str_lt_total f.1 e.1,
            ))
    ]

    -- The first entry that does not precede the one looked for decides: it is deleted, or there is none
    -- to delete.
    pub delete_sorted-hit :
        (e f : S × Key) (es fs : List (S × Key))
        → All (λ g. precedes d g e ≡ true) es
        → equals f e ≡ true
        → delete_sorted e (es ++ f ∷ fs) ≡ some (es ++ fs)
    delete_sorted-hit e f es fs h hit =
        delete_sorted-append e es (f ∷ fs) (All-map es (λ g k. precedes-equals g e k) h)
        ∙ ap
            (λ b.
              (if b then some fs else (delete_sorted e fs >>= λ rest. some (f ∷ rest))) >>= λ rest.
              some (es ++ rest))
            hit

    pub delete_sorted-end :
        (e : S × Key) (es : List (S × Key))
        → All (λ g. precedes d g e ≡ true) es
        → delete_sorted e (es ++ []) ≡ none
    delete_sorted-end e es h =
        delete_sorted-append e es [] (All-map es (λ g k. precedes-equals g e k) h)

    pub delete_sorted-miss :
        (e f : S × Key) (es fs : List (S × Key))
        → All (λ g. precedes d g e ≡ true) es
        → precedes d f e ≡ false
        → equals f e ≡ false
        → All (λ g. precedes d g f ≡ false) fs
        → delete_sorted e (es ++ f ∷ fs) ≡ none
    delete_sorted-miss e f es fs h later miss behind =
        delete_sorted-append e es (f ∷ fs) (All-map es (λ g k. precedes-equals g e k) h)
        ∙ ap (λ o. o >>= λ rest. some (es ++ rest))
            (delete_sorted-none e (f ∷ fs)
              (miss, All-map fs (λ g k. equals_behind g f e later miss k) behind))

  pub IsSorted-append_right : (es fs : List (S × Key)) → IsSorted d (es ++ fs) → IsSorted d fs
  IsSorted-append_right [] fs s = s
  IsSorted-append_right (e ∷ es) fs s = IsSorted-append_right es fs s.1

  pub IsSorted-delete :
      (es fs : List (S × Key)) (f : S × Key) → IsSorted d (es ++ f ∷ fs) → IsSorted d (es ++ fs)
  IsSorted-delete [] fs f s = s.1
  IsSorted-delete (e ∷ es) fs f s =
      (All-delete (λ g. precedes d g e ≡ false) es fs f s.0, IsSorted-delete es fs f s.1)
