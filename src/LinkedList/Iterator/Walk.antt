-- ===== src/LinkedList/Iterator/Walk.antt =====
-- A client's walk over a list.
use cdsa.Base.{
  ℕ, zero, suc, ◌+◌, ◌<◌, ◌≡◌, refl, ap, ◌∙◌, true, Option, some, List, [], ◌∷◌, map, length, eq→==,
  arith,
}
use cdsa.Error.{Status, ok}
use cdsa.Allocator.{Memory, malloc_track}
use cdsa.LinkedList.{Node, LinkedList}
use cdsa.LinkedList.Chain.{contents}
use cdsa.LinkedList.Iterator.{Iterator, create_iterator, next}

module _ {ℓ} {A : Type ℓ} where
  abbrev visited : (Iterator A → List A) → Status × Option A × Option (Iterator A) → List A
  visited rest (ok, some x, some it) = x ∷ rest it
  visited rest other = []

  -- `while (next(it, &p) == CDSA_OK) visit(p);`, with fuel.
  pub walk : ℕ → LinkedList A → Iterator A → List A
  walk zero l it = []
  walk (suc fuel) l it = visited (walk fuel l) (next (some it) l true)

  walk-from :
      (fuel : ℕ) (l : LinkedList A) (it : Iterator A) (ns : List (Node A))
      → l.version ≡ it.snapshot_version
      → length ns < fuel
      → walk fuel l (record it { current_node = ns }) ≡ map (λ n. n.value) ns
  unfolding walk next
  walk-from zero l it ns e h = absurd (omega arith)
  walk-from (suc fuel) l it [] e h = rw (eq→== l.version it.snapshot_version e) refl
  walk-from (suc fuel) l it (n ∷ ns) e h =
      rw (eq→== l.version it.snapshot_version e)
        (ap (◌∷◌ n.value) (walk-from fuel l it ns e (omega arith)))

  -- A walk with a fresh iterator over a list that nobody changes meanwhile visits exactly its elements,
  -- in order, and ends.
  pub walk_linkedlist :
      (l : LinkedList A) (m m' : Memory) {it : Iterator A}
      → create_iterator (some l) m ≡ (some it, m')
      → walk (length l.head + 1) l it ≡ contents l
  unfolding create_iterator malloc_track
  walk_linkedlist l m m' {it} e =
      let at_start : it.current_node ≡ l.head = ground (arith, e) in
      let same : l.version ≡ it.snapshot_version = ground (arith, e) in
      walk-from (length l.head + 1) l it it.current_node same (omega (arith, ap length at_start))
      ∙ ap (map (λ n. n.value)) at_start
