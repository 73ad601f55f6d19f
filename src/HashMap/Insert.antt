-- ===== src/HashMap/Insert.antt =====
-- The insertion loop ends, and counts: a map in order that is not full takes every key.
use native.Mathlib.Nat.{mod-eq_of_lt, mod-lt, add-zero, add-mod_right}
use native.Mathlib.Decide.{dec_le}
use cdsa.Base.{
  ℕ, zero, suc, ◌+◌, ◌-◌, ◌%◌, ◌≤◌, ◌<◌, ◌≡◌, ◌≢◌, refl, ap, sym, ◌∙◌, ◌⊎◌, inl, inr, Option, none,
  some, List, length, set, length-set, add_size, ltb, if◌then◌else◌, if_true, if_false, Bool-cases,
  Option-cases, ne→==_false, arith,
}
use cdsa.RingBuffer.Window.{shift}
use cdsa.Text.{Key}
use cdsa.HashMap.{
  Entry, HashMap, entry_at, matches, next_index, bumped, placed, overwritten, insert_loop,
  internal_insert,
}
use cdsa.HashMap.Table.{weight, occupied-le, occupied-set, entry_at-set, empty_slot, IsValid}

-- How many steps, less than a round, lead from one index to another.
steps_to :
    (i j capacity : ℕ)
    → i < capacity
    → j < capacity
    → (d : ℕ) × (d < capacity) × ((i + d) % capacity ≡ j)
steps_to i j capacity p q = elim (dec_le i j) [
  | yes le ↦ (j - i, omega arith, ap (λ n. n % capacity) {y = j} (omega arith) ∙ mod-eq_of_lt q)
  | no gt ↦ (
    j + capacity - i,
    omega arith,
    ap (λ n. n % capacity) {y = j + capacity} (omega arith)
        ∙ (add-mod_right j capacity ∙ mod-eq_of_lt q),
  )
]

module _ {ℓ} {V : Type ℓ} where
  -- What an insertion leaves: a map in order on the same table, with at most one entry more.
  pub record Grown (h h' : HashMap V) : Type ℓ where
    pub valid : IsValid h'
    pub same_capacity : h'.capacity ≡ h.capacity
    pub same_table : h'.table ≡ h.table
    pub same_handle : h'.handle ≡ h.handle
    pub same_version : h'.version ≡ h.version
    pub size_bounds : (h.size ≤ h'.size) × (h'.size ≤ h.size + 1)

  pub insert_loop-empty :
      (fuel : ℕ) (h : HashMap V) (i : ℕ) (key : Key) (e : Entry V)
      → (entry_at h.entries i).key ≡ none
      → insert_loop (suc fuel) h i key e ≡ some (placed h i e)
  unfolding insert_loop
  insert_loop-empty fuel h i key e q = rw (q, insert_loop) refl

  pub insert_loop-occupied :
      (fuel : ℕ) (h : HashMap V) (i : ℕ) (key k : Key) (e : Entry V)
      → (entry_at h.entries i).key ≡ some k
      → insert_loop (suc fuel) h i key e ≡ (
          if matches (entry_at h.entries i) e.hash key
          then some (overwritten h i e)
          else if ltb (entry_at h.entries i).psl e.psl
          then insert_loop fuel
              (record h { entries = set h.entries i e })
              (next_index h i)
              k
              (bumped (entry_at h.entries i))
          else insert_loop fuel h (next_index h i) key (bumped e))
  unfolding insert_loop
  insert_loop-occupied fuel h i key k e q = rw (q, insert_loop) refl

  -- Writing an occupied entry over an occupied slot keeps the map in order.
  over-IsValid :
      (h : HashMap V) (i : ℕ) (e : Entry V) (k k' : Key)
      → IsValid h
      → i < h.capacity
      → (entry_at h.entries i).key ≡ some k
      → e.key ≡ some k'
      → IsValid (record h { entries = set h.entries i e })
  over-IsValid h i e k k' v lt q q' = record {
    some_room = v.some_room;
    stored = length-set h.entries i e ∙ v.stored;
    counted =
        omega (
          arith,
          v.counted,
          occupied-set h.entries i e (rw v.stored lt),
          ap weight q,
          ap weight q',
        );
    roomy = v.roomy;
  }

  -- Filling an empty slot adds one to the count.
  placed-Grown :
      (h : HashMap V) (i : ℕ) (e : Entry V) (k : Key)
      → IsValid h
      → i < h.capacity
      → (entry_at h.entries i).key ≡ none
      → e.key ≡ some k
      → Grown h (placed h i e)
  placed-Grown h i e k v lt q q' =
      let count = occupied-set h.entries i e (rw v.stored lt) in
      let size = length-set h.entries i e in
      let more : add_size h.size 1 ≡ h.size + 1 = omega (
        arith,
        v.counted,
        count,
        ap weight q,
        ap weight q',
        occupied-le (set h.entries i e),
        size,
        v.stored,
        v.roomy,
        v.some_room,
      ) in
      record {
        valid = record {
          some_room = v.some_room;
          stored = size ∙ v.stored;
          counted = omega (arith, more, v.counted, count, ap weight q, ap weight q');
          roomy = v.roomy;
        };
        same_capacity = refl;
        same_table = refl;
        same_handle = refl;
        same_version = refl;
        size_bounds = omega (arith, more);
      }

  next_index-eq :
      (h : HashMap V) (i : ℕ) → IsValid h → i < h.capacity → next_index h i ≡ (i + 1) % h.capacity
  next_index-eq h i v lt = ap (λ n. n % h.capacity) (omega (arith, v.roomy))

  -- The slot `d` steps on is empty after a write over another, occupied slot.
  still_empty :
      (es : List (Entry V)) (i j : ℕ) (e : Entry V) (k : Key)
      → i < length es
      → (entry_at es i).key ≡ some k
      → (entry_at es j).key ≡ none
      → (entry_at (set es i e) j).key ≡ none
  still_empty es i j e k lt q empty =
      let apart : i ≢ j =
        λ same. absurd (cc (sym q ∙ ap (λ n. (entry_at es n).key) same ∙ empty)) in
      ap (λ x. x.key)
        (entry_at-set es i j e lt
          ∙ ap (λ b. if b then e else entry_at es j) (ne→==_false i j apart))
      ∙ empty

  -- With an empty slot `d` steps ahead and more fuel than that, the loop ends, and leaves the map in
  -- order.
  insert_loop-Grown :
      (fuel d : ℕ) (h : HashMap V) (i : ℕ) (key : Key) (e : Entry V)
      → IsValid h
      → i < h.capacity
      → e.key ≡ some key
      → d < fuel
      → (entry_at h.entries ((i + d) % h.capacity)).key ≡ none
      → (h' : HashMap V) × (insert_loop fuel h i key e ≡ some h') × Grown h h'
  insert_loop-Grown zero d h i key e v lt q f empty = absurd (omega arith)
  insert_loop-Grown (suc fuel) zero h i key e v lt q f empty =
      let here : (entry_at h.entries i).key ≡ none =
        ap (λ n. (entry_at h.entries n).key)
          (sym (ap (λ n. n % h.capacity) (add-zero i) ∙ mod-eq_of_lt lt))
        ∙ empty in
      (placed h i e, insert_loop-empty fuel h i key e here, placed-Grown h i e key v lt here q)
  insert_loop-Grown (suc fuel) (suc d) h i key e v lt q f empty =
      occupied_or_not (Option-cases (entry_at h.entries i).key) (insert_loop-Grown fuel d)
    where
      Ends : Type ℓ
      Ends = (h' : HashMap V) × (insert_loop (suc fuel) h i key e ≡ some h') × Grown h h'

      ahead : (entry_at h.entries ((next_index h i + d) % h.capacity)).key ≡ none
      ahead =
          ap (λ n. (entry_at h.entries n).key)
            (ap (λ n. (n + d) % h.capacity) (next_index-eq h i v lt) ∙ sym (shift h.capacity i d))
          ∙ empty

      next_lt : next_index h i < h.capacity
      next_lt = mod-lt _ v.some_room

      grown_by :
          {es : List (Entry V)}
          → IsValid (record h { entries = es })
          → Grown h (record h { entries = es })
      grown_by w = record {
        valid = w;
        same_capacity = refl;
        same_table = refl;
        same_handle = refl;
        same_version = refl;
        size_bounds = omega arith;
      }

      occupied_or_not :
          ((entry_at h.entries i).key ≡ none) ⊎ ((k : Key) × ((entry_at h.entries i).key ≡ some k))
          → ((g : HashMap V) (j : ℕ) (key' : Key) (e' : Entry V)
              → IsValid g
              → j < g.capacity
              → e'.key ≡ some key'
              → d < fuel
              → (entry_at g.entries ((j + d) % g.capacity)).key ≡ none
              → (g' : HashMap V) × (insert_loop fuel g j key' e' ≡ some g') × Grown g g')
          → Ends
      occupied_or_not (inl here) rec =
          (placed h i e, insert_loop-empty fuel h i key e here, placed-Grown h i e key v lt here q)
      occupied_or_not (inr (k, here)) rec =
          elim (Bool-cases (matches (entry_at h.entries i) e.hash key)) [
            | inl same ↦ (
              overwritten h i e,
              insert_loop-occupied fuel h i key k e here
                  ∙ if_true (matches (entry_at h.entries i) e.hash key) _ _ same,
              grown_by (
                  over-IsValid h i (record (entry_at h.entries i) { value = e.value }) k k v lt here
                    here),
            )
            | inr other ↦ elim (Bool-cases (ltb (entry_at h.entries i).psl e.psl)) [
              | inl poorer ↦
                  let g = record h { entries = set h.entries i e } in
                  let (h', r, gr) =
                    rec g (next_index h i) k (bumped (entry_at h.entries i))
                      (over-IsValid h i e k key v lt here q) next_lt here (omega arith)
                      (still_empty h.entries i ((next_index h i + d) % h.capacity) e k
                        (rw v.stored lt) here ahead) in
                  (
                    h',
                    insert_loop-occupied fuel h i key k e here
                        ∙ if_false (matches (entry_at h.entries i) e.hash key) _ _ other
                        ∙ if_true (ltb (entry_at h.entries i).psl e.psl) _ _ poorer
                        ∙ r,
                    record {
                      valid = gr.valid;
                      same_capacity = gr.same_capacity;
                      same_table = gr.same_table;
                      same_handle = gr.same_handle;
                      same_version = gr.same_version;
                      size_bounds = gr.size_bounds;
                    },
                  )
              | inr richer ↦
                  let (h', r, gr) =
                    rec h (next_index h i) key (bumped e) v next_lt q (omega arith) ahead in
                  (
                    h',
                    insert_loop-occupied fuel h i key k e here
                        ∙ if_false (matches (entry_at h.entries i) e.hash key) _ _ other
                        ∙ if_false (ltb (entry_at h.entries i).psl e.psl) _ _ richer
                        ∙ r,
                    gr,
                  )
            ]
          ]

  -- An insertion into a map in order that is not full ends, within one round of the table, and leaves
  -- a map in order of the same table, which counts at most one entry more.
  pub internal_insert-Grown :
      (h : HashMap V) (key : Key) (value : Option V) (raw_hash : ℕ)
      → IsValid h
      → h.size < h.capacity
      → (h' : HashMap V) × (internal_insert h key value raw_hash ≡ some h') × Grown h h'
  unfolding internal_insert
  internal_insert-Grown h key value raw_hash v room =
      let (j, below, empty) = empty_slot h.entries (omega (arith, v.counted, v.stored)) in
      let home = mod-lt raw_hash v.some_room in
      let (d, near, at) =
        steps_to (raw_hash % h.capacity) j h.capacity home (omega (arith, v.stored)) in
      insert_loop-Grown (suc h.capacity) d h (raw_hash % h.capacity) key
        (record { key = some key; value = value; hash = raw_hash; psl = 0 }) v home refl
        (omega arith) (ap (λ n. (entry_at h.entries n).key) at ∙ empty)
