-- ===== src/SkipList/Tests.antt =====
-- Runs of the skip list, and its theorems at concrete inputs.
use cdsa.Base.{
  ℕ, ◌≡◌, refl, sym, ap, subst, Bool, true, false, Option, none, some, List, [], ◌∷◌, ltb, leb,
  ◌==◌, inl, inr,
}
use cdsa.Text.{Key}
use cdsa.Error.{Status, ok, iter_invalidated}
use cdsa.Allocator.{Memory, malloc_track, calloc_track}
use cdsa.Allocator.Samples.{serving, block}
use cdsa.SkipList.{
  Doubles, Random, SkipList, climb, random_level, safe_strdup, create_node, create_skiplist,
  forward_at, set_forward, advance, descend, splice, find, insert_skiplist, remove_skiplist,
}
use cdsa.SkipList.Iterator.{Iterator, create_iterator, has_next, next}
use cdsa.SkipList.Order.{IsRanked, insert_sorted}
use cdsa.SkipList.View.{Represents}
use cdsa.SkipList.Create.{create_skiplist-Represents}
use cdsa.SkipList.Insert.{InsertedOrNot, insert_skiplist-Inserted}
use cdsa.SkipList.Walk.{IsAt, Advanced, create_iterator-IsAt, next-IsAt}
use cdsa.SkipList.Outdated.{next-invalidated_skiplist}
use cdsa.SkipList.Remove.{RemovedOrNot, remove_skiplist-Removed}

-- Scores that are natural numbers.
abbrev scores : Doubles ℕ
scores = record { lt = ltb; eq = ◌==◌; le = leb; zero_score = 0 }

abbrev itself : ℕ → ℕ
itself x = x

scores-IsRanked : IsRanked scores itself
scores-IsRanked = record { by_lt = λ x y. refl; by_eq = λ x y. refl; by_le = λ x y. refl }

-- Two levels for every node.
abbrev coins : Random
coins = record { rand = λ n. n; drawn = 0 }

abbrev blank : SkipList ℕ
blank = record {
  handle = block 32;
  header = 0;
  level = 1;
  size = 0;
  version = 0;
  nodes = λ q. none;
  fresh = 0;
}

abbrev created : Option (SkipList ℕ) → SkipList ℕ
created none = blank
created (some sl) = sl

abbrev empty : SkipList ℕ
empty = created (create_skiplist scores serving).0

abbrev memory : Memory
memory = (create_skiplist scores serving).1

empty-Represents : Represents scores empty [] []
unfolding create_skiplist create_node safe_strdup malloc_track calloc_track
empty-Represents = create_skiplist-Represents scores serving {sl = empty} {m' = memory} refl

-- A list, a memory and coins after an insertion.
abbrev Answer : Type 0
Answer = Option (Status × Option (SkipList ℕ) × Memory × Random)

abbrev inserted : Answer → SkipList ℕ
inserted none = blank
inserted (some (status, none, m, r)) = blank
inserted (some (status, some sl, m, r)) = sl

abbrev insert_b : Answer
insert_b = insert_skiplist scores (some empty) 7 (some (98 ∷ [])) memory coins

abbrev with_b : SkipList ℕ
with_b = inserted insert_b

-- The score 7 with the value "b".
abbrev b : ℕ × Key
b = (7, 98 ∷ [])

abbrev a : ℕ × Key
a = (7, 97 ∷ [])

abbrev is_ok : Answer → Bool
is_ok none = false
is_ok (some (ok, sl, m, r)) = true
is_ok (some (status, sl, m, r)) = false

insert_b_ok : is_ok insert_b ≡ true
unfolding insert_skiplist create_skiplist create_node safe_strdup malloc_track calloc_track
    random_level climb find descend advance splice forward_at set_forward
insert_b_ok = refl

-- What an insertion that returned OK leaves.
inserted-Represents :
    (sl : SkipList ℕ) (es : List (ℕ × Key)) (e : ℕ × Key) (m : Memory) (o : Answer)
    → InsertedOrNot scores itself scores-IsRanked sl es e m coins o
    → is_ok o ≡ true
    → (ids : List ℕ) × Represents scores (inserted o) ids (insert_sorted scores e es)
inserted-Represents sl es e m o (inl (m', r', out, short)) h = absurd (cc (h, ap is_ok out))
inserted-Represents sl es e m o (inr (sl', ids, m', r', out, rep, changed)) h = (
  ids,
  subst (λ t. Represents scores t ids (insert_sorted scores e es)) (sym (ap inserted out)) rep,
)

with_b-Represents : (ids : List ℕ) × Represents scores with_b ids (b ∷ [])
with_b-Represents =
    inserted-Represents empty [] b memory insert_b
      (insert_skiplist-Inserted scores itself scores-IsRanked empty [] [] b memory coins
        empty-Represents)
      insert_b_ok

insert_skiplist-Inserted_example :
    InsertedOrNot scores itself scores-IsRanked with_b
      (b ∷ [])
      a
      memory
      coins
      (insert_skiplist scores (some with_b) 7 (some (97 ∷ [])) memory coins)
insert_skiplist-Inserted_example =
    insert_skiplist-Inserted scores itself scores-IsRanked with_b with_b-Represents.0 (b ∷ []) a
      memory coins with_b-Represents.1

remove_skiplist-Removed_example :
    RemovedOrNot scores itself scores-IsRanked with_b
      (b ∷ [])
      b
      memory
      (remove_skiplist scores (some with_b) 7 (some (98 ∷ [])) memory)
remove_skiplist-Removed_example =
    remove_skiplist-Removed scores itself scores-IsRanked with_b with_b-Represents.0 (b ∷ []) b
      memory with_b-Represents.1

abbrev memory_after : Memory
memory_after = record serving { used = 24; calls = 1 }

-- An iterator at the entry of the list.
abbrev iterator : Iterator
iterator = record {
  handle = record { addr = 4104; size = 24 };
  current = some 1;
  snapshot_version = 1;
}

iterator-IsAt : IsAt with_b iterator (b ∷ [])
unfolding create_iterator insert_skiplist create_skiplist create_node safe_strdup malloc_track
    calloc_track random_level climb find descend advance splice forward_at set_forward
iterator-IsAt =
    create_iterator-IsAt with_b scores with_b-Represents.0 (b ∷ []) serving {it = iterator}
      {m' = memory_after} with_b-Represents.1 refl

next-IsAt_example :
    (has_next (some iterator) with_b ≡ true)
    × Advanced with_b iterator (b ∷ []) (next (some iterator) with_b true true)
next-IsAt_example = next-IsAt with_b iterator (b ∷ []) iterator-IsAt

abbrev insert_a : Answer
insert_a = insert_skiplist scores (some with_b) 7 (some (97 ∷ [])) memory coins

abbrev memory_of : Answer → Memory
memory_of none = memory
memory_of (some (status, sl, m, r)) = m

abbrev coins_of : Answer → Random
coins_of none = coins
coins_of (some (status, sl, m, r)) = r

insert_a_ok : insert_a ≡ some (ok, some (inserted insert_a), memory_of insert_a, coins_of insert_a)
unfolding insert_skiplist create_skiplist create_node safe_strdup malloc_track calloc_track
    random_level climb find descend advance splice forward_at set_forward
insert_a_ok = refl

next-invalidated_skiplist_example :
    (has_next (some iterator) (inserted insert_a) ≡ false)
    × (next (some iterator) (inserted insert_a) true true
        ≡ some (iter_invalidated, none, none, some iterator))
next-invalidated_skiplist_example =
    next-invalidated_skiplist scores itself scores-IsRanked with_b (inserted insert_a)
      with_b-Represents.0 (b ∷ []) (b ∷ []) iterator with_b-Represents.1 iterator-IsAt
      (inl (a, memory, coins, memory_of insert_a, coins_of insert_a, insert_a_ok))
