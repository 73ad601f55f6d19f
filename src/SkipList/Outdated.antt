-- ===== src/SkipList/Outdated.antt =====
-- The iterators of a skip list and its insertions and removals.
use cdsa.Base.{ℕ, ◌≡◌, sym, ap, ◌∙◌, false, true, none, some, List, ◌⊎◌, inl, inr, add_size}
use cdsa.Text.{Key}
use cdsa.Error.{ok}
use cdsa.Allocator.{Memory}
use cdsa.SkipList.{Doubles, Random, SkipList, insert_skiplist, remove_skiplist}
use cdsa.SkipList.Iterator.{Iterator, has_next, next}
use cdsa.SkipList.Order.{IsRanked}
use cdsa.SkipList.View.{Represents}
use cdsa.SkipList.Insert.{insert_skiplist-Inserted}
use cdsa.SkipList.Remove.{remove_skiplist-Removed}
use cdsa.SkipList.Walk.{IsAt, outdated_status, next-outdated}

module _ {ℓ} {S : Type ℓ} (d : Doubles S) where
  -- An insertion or a removal that returned OK has made the one list of the other.
  abbrev pub IsChanged : SkipList S → SkipList S → Type ℓ
  IsChanged sl sl' =
      ((e : S × Key) × (m : Memory) × (r : Random) × (m' : Memory) × (r' : Random)
        × (insert_skiplist d (some sl) e.0 (some e.1) m r ≡ some (ok, some sl', m', r')))
      ⊎ ((e : S × Key) × (m : Memory) × (m' : Memory) × (remove_skiplist d (some sl) e.0 (some e.1)
              m
            ≡ some (ok, some sl', m')))

  module _ (rank : S → ℕ) (ranked : IsRanked d rank) where
    version-IsChanged :
        (sl sl' : SkipList S) (ids : List ℕ) (es : List (S × Key))
        → Represents d sl ids es
        → IsChanged sl sl'
        → sl'.version ≡ add_size sl.version 1
    version-IsChanged sl sl' ids es rep (inl (e, m, r, m', r', out)) =
        elim (insert_skiplist-Inserted d rank ranked sl ids es e m r rep) [
          | inl (n, q, short, _) ↦ absurd (cc (short, out))
          | inr (now, ids', n, q, done, _, version) ↦
              let same : now ≡ sl' = cc (done, out) in ap (λ t. t.version) (sym same) ∙ version
        ]
    version-IsChanged sl sl' ids es rep (inr (e, m, m', out)) =
        elim (remove_skiplist-Removed d rank ranked sl ids es e m rep) [
          | inl (missing, _) ↦ absurd (cc (missing, out))
          | inr (now, ids', es', n, done, _, _, version) ↦
              let same : now ≡ sl' = cc (done, out) in ap (λ t. t.version) (sym same) ∙ version
        ]

    -- On a list that represents sorted entries, where the comparisons of scores are those of a rank, an
    -- insertion or a removal that returns OK puts the iterators made before out of action: they have no
    -- next entry, and `next` returns ITER_INVALIDATED, or NOT_FOUND to one at the end, writes nothing and
    -- reads no node.
    pub next-invalidated_skiplist :
        (sl sl' : SkipList S) (ids : List ℕ) (es rest : List (S × Key)) (it : Iterator)
        → Represents d sl ids es
        → IsAt sl it rest
        → IsChanged sl sl'
        → (has_next (some it) sl' ≡ false)
          × (next (some it) sl' true true ≡ some (outdated_status sl rest, none, none, some it))
    next-invalidated_skiplist sl sl' ids es rest it rep at changed =
        next-outdated sl it rest sl' at (version-IsChanged sl sl' ids es rep changed)
