-- ===== src/Vector/Tests.antt =====
-- Runs of the vector, and its theorems at concrete inputs.
use cdsa.Base.{true, false, ℕ, ◌≡◌, refl, inl, none, some, [], ◌∷◌, length, arith}
use cdsa.Error.{ok, oom, iter_invalidated}
use cdsa.Allocator.{Memory, malloc_track, realloc_track}
use cdsa.Allocator.Samples.{serving, refusing, block}
use cdsa.Vector.{Vector, created, append, create_vector, push_vector, back_vector, free_vector}
use cdsa.Vector.Inv.{IsValid}
use cdsa.Vector.Contents.{contents, Pushed, push_vector-Pushed}
use cdsa.Vector.Oom.{push_after_oom}
use cdsa.Vector.Life.{creates, pushes, free_vector_restores}
use cdsa.Vector.Iterator.{Iterator, create_iterator, has_next, next}
use cdsa.Vector.Iterator.Walk.{walk, walk_vector, next_vector-invalidated}

abbrev blank : Vector ℕ
blank = created 4 (block 40) (record { addr = 8200; size = 16 })

abbrev after_create : Memory
after_create = record serving { used = 56; calls = 2 }

created_blank : create_vector 4 serving ≡ (some blank, after_create)
unfolding create_vector malloc_track
created_blank = refl

-- Two elements of four, and four of four.
abbrev pair : Vector ℕ
pair = record blank { cells = some 7 ∷ some 8 ∷ none ∷ none ∷ []; size = 2; version = 2 }

abbrev crowd : Vector ℕ
crowd = record blank { cells = some 7 ∷ some 8 ∷ some 9 ∷ some 5 ∷ []; size = 4; version = 4 }

pair-IsValid : IsValid pair
pair-IsValid = record {
  some_bytes = omega arith;
  some_room = omega arith;
  no_overflow = omega arith;
  bytes = refl;
  stored = refl;
  within = omega arith;
}

crowd-IsValid : IsValid crowd
crowd-IsValid = record {
  some_bytes = omega arith;
  some_room = omega arith;
  no_overflow = omega arith;
  bytes = refl;
  stored = refl;
  within = omega arith;
}

push_vector-Pushed_example : Pushed crowd 3 (push_vector (some crowd) (some 3) serving)
push_vector-Pushed_example = push_vector-Pushed crowd 3 serving crowd-IsValid (omega arith)

abbrev deluded : Vector ℕ
deluded = record crowd { capacity = 8 }

crowd_refused :
    push_vector (some crowd) (some 3) refusing ≡ (oom, some deluded, record refusing { calls = 8 })
unfolding push_vector realloc_track
crowd_refused = refl

push_after_oom_example :
    (u : Vector ℕ) × (push_vector (some deluded) (some 2) serving ≡ (ok, some u, serving))
    × (u.size ≡ 5)
    × (back_vector (some u) ≡ some (length u.cells))
    × (u.cells ≡ crowd.cells)
push_after_oom_example =
    push_after_oom crowd deluded 3 2 refusing (record refusing { calls = 8 }) serving crowd-IsValid
      (omega arith) crowd_refused

abbrev single : Vector ℕ
single = append blank 3

single_pushed : push_vector (some blank) (some 3) after_create ≡ (ok, some single, after_create)
unfolding push_vector realloc_track
single_pushed = refl

free_vector_restores_example : (free_vector (some single) after_create).used ≡ 0
free_vector_restores_example =
    free_vector_restores 4 serving (omega arith) (omega arith) (omega arith)
      (pushes 3 (creates created_blank) (omega arith) single_pushed)

abbrev start : Iterator
start = record { handle = block 24; current_index = 0; snapshot_version = 2 }

started :
    create_iterator (some pair) serving ≡ (some start, record serving { used = 24; calls = 1 })
unfolding create_iterator malloc_track
started = refl

walk_vector_example : walk 3 pair start ≡ contents pair
walk_vector_example =
    walk_vector pair serving (record serving { used = 24; calls = 1 }) pair-IsValid started

abbrev trio : Vector ℕ
trio = append pair 1

trio_pushed : push_vector (some pair) (some 1) serving ≡ (ok, some trio, serving)
unfolding push_vector realloc_track
trio_pushed = refl

next_vector-invalidated_example :
    (has_next (some start) trio ≡ false)
    × (next (some start) trio true ≡ (iter_invalidated, none, some start))
next_vector-invalidated_example =
    next_vector-invalidated pair trio 1 serving serving start refl (omega arith) (inl trio_pushed)
