-- ===== src/HashMap/Iterator/Walk.antt =====
-- A client's walk over a map.
use cdsa.Base.{
  ℕ, zero, suc, ◌+◌, ◌-◌, ◌≤◌, ◌<◌, ◌≡◌, refl, ap, sym, ◌∙◌, true, Option, none, some, List, [],
  ◌∷◌, length, drop, add_size, eq→==, lt→ltb, le→ltb_false, inl, inr, Option-cases, arith,
}
use cdsa.Error.{Status, ok}
use cdsa.Allocator.{Memory, malloc_track}
use cdsa.Text.{Key}
use cdsa.HashMap.{HashMap, Entry, entry_at, if_null}
use cdsa.HashMap.Table.{IsValid}
use cdsa.HashMap.Iterator.{Iterator, create_iterator, skip_empty, found_at, has_next, yielded, next}

module _ {ℓ} {V : Type ℓ} where
  -- The keys and values of the occupied slots, in the order of the table.
  abbrev pub listed : List (Entry V) → List (Key × Option V)
  listed [] = []
  listed (e ∷ es) = if_null e.key (listed es) λ k. (k, e.value) ∷ listed es

  abbrev visited :
      (Iterator → List (Key × Option V))
      → Status × Option Key × Option (Option V) × Option Iterator
      → List (Key × Option V)
  visited rest (ok, some k, some v, some it) = (k, v) ∷ rest it
  visited rest other = []

  -- `while (next(it, &k, &v) == CDSA_OK) visit(k, v);`, with fuel.
  pub walk : ℕ → HashMap V → Iterator → List (Key × Option V)
  walk zero h it = []
  walk (suc fuel) h it = visited (walk fuel h) (next (some it) h true true)

  -- A slot of the table, and the slots from it on.
  drop-entry_at :
      (es : List (Entry V)) (i : ℕ) → i < length es → drop i es ≡ entry_at es i ∷ drop (suc i) es
  drop-entry_at [] i h = absurd (omega arith)
  drop-entry_at (e ∷ es) zero h = refl
  drop-entry_at (e ∷ es) (suc i) h = drop-entry_at es i (omega arith)

  drop-all : (es : List (Entry V)) → drop (length es) es ≡ []
  drop-all [] = refl
  drop-all (e ∷ es) = drop-all es

  -- The walk, by what the loop of `has_next` finds in `n` rounds.
  walk-skip :
      (fuel : ℕ) (h : HashMap V) (it : Iterator) (i n : ℕ)
      → h.version ≡ it.snapshot_version
      → i + n ≡ h.capacity
      → walk (suc fuel) h (record it { current_index = i })
        ≡ visited (walk fuel h) (yielded h true (found_at h it (skip_empty n h i)))
  unfolding walk next has_next skip_empty
  walk-skip fuel h it i n e k =
      let rounds : h.capacity - i ≡ n = omega arith in
      rw (eq→== h.version it.snapshot_version e, rounds) refl

  skip-occupied :
      (n : ℕ) (h : HashMap V) (i : ℕ) (k : Key)
      → (entry_at h.entries i).key ≡ some k
      → skip_empty (suc n) h i ≡ i
  unfolding skip_empty
  skip-occupied n h i k e = rw e refl

  skip-vacant :
      (n : ℕ) (h : HashMap V) (i : ℕ)
      → (entry_at h.entries i).key ≡ none
      → add_size i 1 ≡ suc i
      → skip_empty (suc n) h i ≡ skip_empty n h (suc i)
  unfolding skip_empty
  skip-vacant n h i e s = rw (e, s) refl

  -- What the client sees of an occupied slot inside the table.
  yielded-occupied :
      (fuel : ℕ) (h : HashMap V) (it : Iterator) (i : ℕ) (k : Key)
      → i < h.capacity
      → (entry_at h.entries i).key ≡ some k
      → add_size i 1 ≡ suc i
      → visited (walk fuel h) (yielded h true (found_at h it i))
        ≡ (k, (entry_at h.entries i).value) ∷ walk fuel h (record it { current_index = suc i })
  yielded-occupied fuel h it i k j e s = rw (lt→ltb i h.capacity j, e, s) refl

  yielded-end :
      (fuel : ℕ) (h : HashMap V) (it : Iterator) (i : ℕ)
      → h.capacity ≤ i
      → visited (walk fuel h) (yielded h true (found_at h it i)) ≡ []
  yielded-end fuel h it i j = rw (le→ltb_false i h.capacity j) refl

  walk-from :
      (n fuel : ℕ) (h : HashMap V) (it : Iterator) (i : ℕ)
      → IsValid h
      → h.version ≡ it.snapshot_version
      → i + n ≡ h.capacity
      → n ≤ fuel
      → walk (suc fuel) h (record it { current_index = i }) ≡ listed (drop i h.entries)
  unfolding skip_empty
  walk-from zero fuel h it i v e k j =
      let at_end : i ≡ length h.entries = omega (arith, k, v.stored) in
      walk-skip fuel h it i 0 e k
      ∙ yielded-end fuel h it i (omega (arith, k))
      ∙ ap listed (sym (drop-all h.entries) ∙ ap (λ c. drop c h.entries) (sym at_end))
  walk-from (suc n) zero h it i v e k j = absurd (omega (arith, j))
  walk-from (suc n) (suc fuel) h it i v e k j =
      let inside : i < length h.entries = omega (arith, k, v.stored) in
      let step : add_size i 1 ≡ suc i = omega (arith, k, v.roomy, v.some_room) in
      let split = drop-entry_at h.entries i inside in
      elim (Option-cases (entry_at h.entries i).key) [
        | inl vacant ↦
            walk-skip (suc fuel) h it i (suc n) e k
            ∙ ap (λ c. visited (walk (suc fuel) h) (yielded h true (found_at h it c)))
                (skip-vacant n h i vacant step)
            ∙ sym (walk-skip (suc fuel) h it (suc i) n e (omega (arith, k)))
            ∙ walk-from n (suc fuel) h it (suc i) v e (omega (arith, k)) (omega (arith, j))
            ∙ sym (ap listed split ∙ rw vacant refl)
        | inr (key, held) ↦
            walk-skip (suc fuel) h it i (suc n) e k
            ∙ ap (λ c. visited (walk (suc fuel) h) (yielded h true (found_at h it c)))
                (skip-occupied n h i key held)
            ∙ yielded-occupied (suc fuel) h it i key (omega (arith, k)) held step
            ∙ ap (◌∷◌ (key, (entry_at h.entries i).value))
                (walk-from n fuel h it (suc i) v e (omega (arith, k)) (omega (arith, j)))
            ∙ sym (ap listed split ∙ rw held refl)
      ]

  -- A walk with a fresh iterator over a map in order that nobody changes meanwhile visits each occupied
  -- slot once, in the order of the table, with its key and value, and ends.
  pub walk_hashmap :
      (h : HashMap V) (m m' : Memory) {it : Iterator}
      → IsValid h
      → create_iterator (some h) m ≡ (some it, m')
      → walk (h.capacity + 1) h it ≡ listed h.entries
  unfolding create_iterator malloc_track
  walk_hashmap h m m' {it} v e =
      let at_start : it.current_index ≡ 0 = ground (arith, e) in
      let same : h.version ≡ it.snapshot_version = ground (arith, e) in
      ap (λ c. walk c h it) (omega arith)
      ∙ ap (λ c. walk (suc h.capacity) h (record it { current_index = c })) at_start
      ∙ walk-from h.capacity h.capacity h it 0 v same (omega arith) (omega arith)
