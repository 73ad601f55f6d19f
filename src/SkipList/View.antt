-- ===== src/SkipList/View.antt =====
-- What a skip list represents: the nodes in order, and the scores and values that they hold.
use cdsa.Base.{
  size_mod, ◌%◌, ℕ, ◌≤◌, ◌<◌, ◌≡◌, refl, sym, ap, ◌∙◌, Bool, true, false, Option, some, List, [],
  ◌∷◌, ◌++◌, length, inl, inr, Bool-cases,
}
use cdsa.Text.{Key}
use cdsa.SkipList.{Doubles, SkipNode, Nodes, SkipList, max_level, is_before}
use cdsa.SkipList.Names.{All, IsDistinct}
use cdsa.SkipList.Chain.{height, Chain}
use cdsa.SkipList.Search.{Tests}
use cdsa.SkipList.Order.{IsRanked, precedes, IsSorted, insert_sorted, none_precedes}

module _ {ℓ} {S : Type ℓ} where
  -- The nodes hold these scores and values.
  abbrev pub Shows : Nodes S → List ℕ → List (S × Key) → Type ℓ
  Shows nodes [] [] = Unit
  Shows nodes [] (e ∷ es) = ⊥ × Unit {ℓ}
  Shows nodes (p ∷ ps) [] = ⊥ × Unit {ℓ}
  Shows nodes (p ∷ ps) (e ∷ es) =
      ((n : SkipNode S) × (nodes p ≡ some n) × ((n.score, n.value) ≡ e)) × Shows nodes ps es

  pub Shows-append :
      (nodes : Nodes S) (ps qs : List ℕ) (es fs : List (S × Key))
      → Shows nodes ps es
      → Shows nodes qs fs
      → Shows nodes (ps ++ qs) (es ++ fs)
  Shows-append nodes [] qs [] fs h l = l
  Shows-append nodes [] qs (g ∷ es) fs h l = absurd h.0
  Shows-append nodes (q ∷ ps) qs [] fs h l = absurd h.0
  Shows-append nodes (q ∷ ps) qs (g ∷ es) fs h l = (h.0, Shows-append nodes ps qs es fs h.1 l)

  pub Shows-insert :
      (nodes : Nodes S) (ps qs : List ℕ) (es fs : List (S × Key)) (p : ℕ) (e : S × Key)
      → Shows nodes ps es
      → ((n : SkipNode S) × (nodes p ≡ some n) × ((n.score, n.value) ≡ e))
      → Shows nodes qs fs
      → Shows nodes (ps ++ p ∷ qs) (es ++ e ∷ fs)
  Shows-insert nodes ps qs es fs p e h k l = Shows-append nodes ps (p ∷ qs) es (e ∷ fs) h (k, l)

  -- Nodes whose pointers alone have changed hold what they held.
  abbrev pub Same : Nodes S → Nodes S → ℕ → Type ℓ
  Same nodes nodes' p =
      (n : SkipNode S)
      → nodes p ≡ some n
      → (forward : List (Option ℕ)) × (nodes' p ≡ some (record n { forward = forward }))

  pub Shows-Same :
      (nodes nodes' : Nodes S) (ps : List ℕ) (es : List (S × Key))
      → All (Same nodes nodes') ps
      → Shows nodes ps es
      → Shows nodes' ps es
  Shows-Same nodes nodes' [] [] h s = tt
  Shows-Same nodes nodes' [] (e ∷ es) h s = absurd s.0
  Shows-Same nodes nodes' (p ∷ ps) [] h s = absurd s.0
  Shows-Same nodes nodes' (p ∷ ps) (e ∷ es) h ((n, held, same), rest) =
      let (fw, now) = h.0 n held in
      ((record n { forward = fw }, now, same), Shows-Same nodes nodes' ps es h.1 rest)

module _ {ℓ} {S : Type ℓ} (d : Doubles S) where
  -- The list of the nodes from the header on: on each level the pointers lead along those that stand
  -- on it, and the scores and values are sorted.
  pub record Represents (sl : SkipList S) (ids : List ℕ) (es : List (S × Key)) : Type ℓ where
    pub chain : Chain sl.nodes (sl.header ∷ ids)
    pub distinct : IsDistinct (sl.header ∷ ids)
    pub known : All (λ p. p < sl.fresh) (sl.header ∷ ids)
    pub counted : length ids < sl.fresh
    pub low : All (λ p. height sl.nodes p ≤ sl.level) ids
    pub header_tall : height sl.nodes sl.header ≡ max_level
    pub level_bounds : (0 < sl.level) × (sl.level ≤ max_level)
    pub shows : Shows sl.nodes ids es
    pub sized : sl.size ≡ length es % size_mod
    pub sorted : IsSorted d es

  module _ (nodes : Nodes S) (e : S × Key) where
    abbrev pub Passes : Bool → ℕ → Type ℓ
    Passes = Tests nodes (is_before d e.0 e.1)

    Shows-Passes :
        (b : Bool) (ids : List ℕ) (es : List (S × Key))
        → Shows nodes ids es
        → All (λ f. precedes d f e ≡ b) es
        → All (Passes b) ids
    Shows-Passes b [] [] s h = tt
    Shows-Passes b [] (f ∷ es) s h = absurd s.0
    Shows-Passes b (p ∷ ps) [] s h = absurd s.0
    Shows-Passes b (p ∷ ps) (f ∷ es) ((n, held, same), rest) h =
        ((n, held, ap (λ g. precedes d g e) same ∙ h.0), Shows-Passes b ps es rest h.1)

    pub Passes-Shows :
        (b : Bool) (ids : List ℕ) (es : List (S × Key))
        → Shows nodes ids es
        → All (Passes b) ids
        → All (λ f. precedes d f e ≡ b) es
    Passes-Shows b [] [] s h = tt
    Passes-Shows b [] (f ∷ es) s h = absurd s.0
    Passes-Shows b (p ∷ ps) [] s h = absurd s.0
    Passes-Shows b (p ∷ ps) (f ∷ es) ((n, held, same), rest) ((n', held', answer), h) =
        let one : n' ≡ n = cc (held, held') in
        (
          ap (λ g. precedes d g e) (sym same) ∙ ap (is_before d e.0 e.1) (sym one) ∙ answer,
          Passes-Shows b ps es rest h,
        )

    -- The place of an entry in a sorted list.
    pub record Place (ids : List ℕ) (es : List (S × Key)) : Type ℓ where
      pub before : List ℕ
      pub after : List ℕ
      pub entries_before : List (S × Key)
      pub entries_after : List (S × Key)
      pub ids_split : ids ≡ before ++ after
      pub entries_split : es ≡ entries_before ++ entries_after
      pub shows_before : Shows nodes before entries_before
      pub shows_after : Shows nodes after entries_after
      pub passed : All (Passes true) before
      pub failed : All (Passes false) after
      pub inserted : insert_sorted d e es ≡ entries_before ++ e ∷ entries_after

    module _ (rank : S → ℕ) (r : IsRanked d rank) where
      pub place :
          (ids : List ℕ) (es : List (S × Key)) → Shows nodes ids es → IsSorted d es → Place ids es
      place [] [] s h = record {
        before = [];
        after = [];
        entries_before = [];
        entries_after = [];
        ids_split = refl;
        entries_split = refl;
        shows_before = tt;
        shows_after = tt;
        passed = tt;
        failed = tt;
        inserted = refl;
      }
      place [] (f ∷ es) s h = absurd s.0
      place (p ∷ ps) [] s h = absurd s.0
      place (p ∷ ps) (f ∷ es) s h = elim (Bool-cases (precedes d f e)) [
        | inl first ↦
            let rest = place ps es s.1 h.1 in
            record {
              before = p ∷ rest.before;
              after = rest.after;
              entries_before = f ∷ rest.entries_before;
              entries_after = rest.entries_after;
              ids_split = ap (◌∷◌ p) rest.ids_split;
              entries_split = ap (◌∷◌ f) rest.entries_split;
              shows_before = (s.0, rest.shows_before);
              shows_after = rest.shows_after;
              passed = ((s.0.0, s.0.1, ap (λ g. precedes d g e) s.0.2 ∙ first), rest.passed);
              failed = rest.failed;
              inserted = rw first (ap (◌∷◌ f) rest.inserted);
            }
        | inr later ↦ record {
          before = [];
          after = p ∷ ps;
          entries_before = [];
          entries_after = f ∷ es;
          ids_split = refl;
          entries_split = refl;
          shows_before = tt;
          shows_after = s;
          passed = tt;
          failed =
              Shows-Passes false (p ∷ ps) (f ∷ es) s
                (later, none_precedes d rank r e f es later h.0);
          inserted = rw later refl;
        }
      ]
