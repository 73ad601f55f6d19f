-- ===== src/SkipList/Walk.antt =====
-- The iterator of the skip list walks over the entries in order, until the list changes.
use cdsa.Base.{
  ℕ, ◌≡◌, ◌≢◌, refl, ap, subst, ◌∙◌, Bool, true, false, Option, none, some, List, [], ◌∷◌, eq→==,
  ne→==_false, lt→ltb, add_size, arith,
}
use cdsa.Text.{Key}
use cdsa.Error.{Status, ok, not_found, iter_invalidated}
use cdsa.Allocator.{Memory, Pointer, malloc_track}
use cdsa.SkipList.{Doubles, SkipList}
use cdsa.SkipList.Iterator.{
  Iterator, sizeof_iterator, started, create_iterator, has_next, next, Yield,
}
use cdsa.SkipList.Chain.{first, height, Chain, Linked, height-Linked, forward_at-Linked}
use cdsa.SkipList.View.{Shows, Represents}

module _ {ℓ} {S : Type ℓ} (sl : SkipList S) where
  -- The iterator was made since the list last changed, and has these entries in front of it.
  pub record IsAt (it : Iterator) (es : List (S × Key)) : Type ℓ where
    pub ids : List ℕ
    pub chain : Chain sl.nodes ids
    pub shows : Shows sl.nodes ids es
    pub current : it.current ≡ first sl.nodes 0 ids
    pub snapshot : sl.version ≡ it.snapshot_version

  -- The nodes that are there stand on level 0.
  first-Linked : (p : ℕ) (ps : List ℕ) → Linked sl.nodes p ps → first sl.nodes 0 (p ∷ ps) ≡ some p
  first-Linked p ps l =
      rw (lt→ltb 0 (height sl.nodes p) (omega (arith, l.based, height-Linked sl.nodes l))) refl

  -- What `next` answers with these entries in front of it.
  abbrev pub Advanced : Iterator → List (S × Key) → Option (Yield S) → Type ℓ
  Advanced it [] result = result ≡ some (not_found, none, none, some it)
  Advanced it (e ∷ es) result =
      (it' : Iterator) × (result ≡ some (ok, some e.0, some e.1, some it')) × IsAt it' es

  abbrev pub has_entries : List (S × Key) → Bool
  has_entries [] = false
  has_entries (e ∷ es) = true

  module _ (it : Iterator) where
    has_next-Shows :
        (ids : List ℕ) (es : List (S × Key))
        → Chain sl.nodes ids
        → Shows sl.nodes ids es
        → it.current ≡ first sl.nodes 0 ids
        → sl.version ≡ it.snapshot_version
        → has_next (some it) sl ≡ has_entries es
    unfolding has_next
    has_next-Shows [] [] c s here same = rw (eq→== sl.version it.snapshot_version same, here) refl
    has_next-Shows [] (e ∷ es) c s here same = absurd s.0
    has_next-Shows (p ∷ ps) [] c s here same = absurd s.0
    has_next-Shows (p ∷ ps) (e ∷ es) c s here same =
        rw (eq→== sl.version it.snapshot_version same, here ∙ first-Linked p ps c.0) refl

    next-Shows :
        (ids : List ℕ) (es : List (S × Key))
        → Chain sl.nodes ids
        → Shows sl.nodes ids es
        → it.current ≡ first sl.nodes 0 ids
        → sl.version ≡ it.snapshot_version
        → Advanced it es (next (some it) sl true true)
    unfolding next
    next-Shows [] [] c s here same = simp here
    next-Shows [] (e ∷ es) c s here same = absurd s.0
    next-Shows (p ∷ ps) [] c s here same = absurd s.0
    next-Shows (p ∷ ps) (e ∷ es) c s here same = (
      record it { current = first sl.nodes 0 ps },
      rw
          (
            here ∙ first-Linked p ps c.0,
            eq→== sl.version it.snapshot_version same,
            s.0.1,
            forward_at-Linked sl.nodes {p = p} {ps = ps} 0 c.0
                (omega (arith, c.0.based, height-Linked sl.nodes c.0)),
          )
          (ap
            (λ (f : S × Key).
              some (ok, some f.0, some f.1, some (record it { current = first sl.nodes 0 ps })))
            s.0.2),
      record { ids = ps; chain = c.1; shows = s.1; current = refl; snapshot = same },
    )

    -- An iterator of the list as it is says whether there are entries in front of it; `next` yields the
    -- first of them, OK, and the iterator then has the others in front of it, or it returns NOT_FOUND.
    pub next-IsAt :
        (es : List (S × Key))
        → IsAt it es
        → (has_next (some it) sl ≡ has_entries es) × Advanced it es (next (some it) sl true true)
    next-IsAt es at = (
      has_next-Shows at.ids es at.chain at.shows at.current at.snapshot,
      next-Shows at.ids es at.chain at.shows at.current at.snapshot,
    )

  abbrev StartedOrNot : Option ℕ → ℕ → Option Iterator × Memory → Type 0
  StartedOrNot first version (none, m) = Unit
  StartedOrNot first version (some it, m) = (it.current ≡ first) × (version ≡ it.snapshot_version)

  started-StartedOrNot :
      (first : Option ℕ) (version : ℕ) (r : Option Pointer × Memory)
      → StartedOrNot first version (started first version r)
  started-StartedOrNot first version (none, m) = tt
  started-StartedOrNot first version (some p, m) = (refl, refl)

  -- An iterator made on a list that represents entries has all of them in front of it.
  pub create_iterator-IsAt :
      (d : Doubles S) (ids : List ℕ) (es : List (S × Key)) (m : Memory) {it : Iterator}
      {m' : Memory}
      → Represents d sl ids es
      → create_iterator (some sl) m ≡ some (some it, m')
      → IsAt it es
  unfolding create_iterator
  create_iterator-IsAt d ids es m {it} {m'} rep h =
      let l = rep.chain.0 in
      let result = started (first sl.nodes 0 ids) sl.version (malloc_track sizeof_iterator m) in
      let reads =
        forward_at-Linked sl.nodes {p = sl.header} {ps = ids} 0 l
          (omega (arith, l.based, height-Linked sl.nodes l)) in
      let made : result ≡ (some it, m') = cc (rw reads at h) in
      let (here, same) =
        subst (StartedOrNot (first sl.nodes 0 ids) sl.version) made (
          started-StartedOrNot (first sl.nodes 0 ids) sl.version
            (malloc_track sizeof_iterator m)) in
      record { ids = ids; chain = rep.chain.1; shows = rep.shows; current = here; snapshot = same }

  -- The answer of an iterator that is out of date.
  abbrev pub outdated_status : List (S × Key) → Status
  outdated_status [] = not_found
  outdated_status (e ∷ es) = iter_invalidated

  outdated-Shows :
      (it : Iterator) (sl' : SkipList S) (ids : List ℕ) (es : List (S × Key))
      → Chain sl.nodes ids
      → Shows sl.nodes ids es
      → it.current ≡ first sl.nodes 0 ids
      → sl'.version ≢ it.snapshot_version
      → next (some it) sl' true true ≡ some (outdated_status es, none, none, some it)
  unfolding next
  outdated-Shows it sl' [] [] c s here other = simp here
  outdated-Shows it sl' [] (e ∷ es) c s here other = absurd s.0
  outdated-Shows it sl' (p ∷ ps) [] c s here other = absurd s.0
  outdated-Shows it sl' (p ∷ ps) (e ∷ es) c s here other =
      simp (here ∙ first-Linked p ps c.0, ne→==_false sl'.version it.snapshot_version other)

  has_next-outdated :
      (it : Iterator) (sl' : SkipList S)
      → sl'.version ≢ it.snapshot_version
      → has_next (some it) sl' ≡ false
  unfolding has_next
  has_next-outdated it sl' other = rw (ne→==_false sl'.version it.snapshot_version other) refl

  -- Once the version of the list has gone up, an iterator that was made before has no next entry, and
  -- `next` returns ITER_INVALIDATED, or NOT_FOUND if it was at the end, and writes nothing.
  pub next-outdated :
      (it : Iterator) (es : List (S × Key)) (sl' : SkipList S)
      → IsAt it es
      → sl'.version ≡ add_size sl.version 1
      → (has_next (some it) sl' ≡ false)
        × (next (some it) sl' true true ≡ some (outdated_status es, none, none, some it))
  next-outdated it es sl' at changed =
      let other : sl'.version ≢ it.snapshot_version = λ e. omega (arith, e, changed, at.snapshot) in
      (
        has_next-outdated it sl' other,
        outdated-Shows it sl' at.ids es at.chain at.shows at.current other,
      )
