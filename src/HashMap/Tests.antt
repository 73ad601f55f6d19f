-- ===== src/HashMap/Tests.antt =====
-- Runs of the hash map, and its theorems at concrete inputs.
use cdsa.Base.{ℕ, ◌≡◌, refl, Option, none, some, [], ◌∷◌, replicate, arith}
use cdsa.Error.{Status, ok}
use cdsa.Allocator.{malloc_track}
use cdsa.Allocator.Samples.{serving, block}
use cdsa.Text.{Key}
use cdsa.HashMap.{
  HashMap, empty_entry, internal_insert, insert_loop, find, probe, get_raw_hash, get_hashmap,
  remove_hashmap, shift_back, resize_hashmap, insert_hashmap,
}
use cdsa.HashMap.Table.{IsValid}
use cdsa.HashMap.Insert.{Grown, internal_insert-Grown}
use cdsa.HashMap.Resize.{Resized, resize_hashmap-Resized}
use cdsa.HashMap.Lost.{filled, entry, insert_hashmap-lost}
use cdsa.HashMap.Iterator.{Iterator, create_iterator}
use cdsa.HashMap.Iterator.Walk.{walk, walk_hashmap}

-- A key of one byte.
abbrev key_of : ℕ → Key
key_of b = b ∷ []

abbrev fresh : HashMap ℕ
fresh = filled (block 40) (block 256) 0 0 (replicate 8 empty_entry)

abbrev put : ℕ → Option (HashMap ℕ) → Option (HashMap ℕ)
put b none = none
put b (some h) = internal_insert h (key_of b) (some b) (get_raw_hash (key_of b))

abbrev got : ℕ → Option (HashMap ℕ) → Option (Option ℕ)
got b none = none
got b (some h) = get_hashmap (some h) (some (key_of b))

abbrev left : Option (Status × Option (HashMap ℕ)) → Option (HashMap ℕ)
left none = none
left (some (s, h)) = h

abbrev without : ℕ → Option (HashMap ℕ) → Option (HashMap ℕ)
without b none = none
without b (some h) = left (remove_hashmap (some h) (some (key_of b)))

-- Three keys with the home slot 0; the first is removed, and the others shift back.
shifted : got 88 (without 72 (put 88 (put 80 (put 72 (some fresh))))) ≡ some (some 88)
unfolding internal_insert insert_loop get_raw_hash get_hashmap find probe remove_hashmap shift_back
shifted = refl

gone : got 72 (without 72 (put 88 (put 80 (put 72 (some fresh))))) ≡ some none
unfolding internal_insert insert_loop get_raw_hash get_hashmap find probe remove_hashmap shift_back
gone = refl

fresh-IsValid : IsValid fresh
fresh-IsValid = record {
  some_room = omega arith;
  stored = refl;
  counted = refl;
  roomy = omega arith;
}

internal_insert-Grown_example :
    (h : HashMap ℕ) × (internal_insert fresh (key_of 72) (some 5) 72 ≡ some h) × Grown fresh h
internal_insert-Grown_example =
    internal_insert-Grown fresh (key_of 72) (some 5) 72 fresh-IsValid (omega arith)

-- Two keys, at the slots 0 and 2.
abbrev sparse : HashMap ℕ
sparse = filled (block 40) (block 256) 2 0 (
    entry (key_of 72) (some 5) 0 ∷ empty_entry ∷ entry (key_of 74) none 0 ∷ replicate 5 empty_entry)

sparse-IsValid : IsValid sparse
sparse-IsValid = record {
  some_room = omega arith;
  stored = refl;
  counted = refl;
  roomy = omega arith;
}

resize_hashmap-Resized_example : Resized sparse serving (resize_hashmap (some sparse) serving)
resize_hashmap-Resized_example =
    resize_hashmap-Resized sparse serving sparse-IsValid (omega arith) (omega arith)

insert_hashmap-lost_example :
    (h₁ h₂ h₃ h₄ : HashMap ℕ) × (insert_hashmap (some fresh) (some (key_of 72)) (some 1) serving
      ≡ some (ok, some h₁, serving))
    × (insert_hashmap (some h₁) (some (key_of 80)) (some 2) serving ≡ some (ok, some h₂, serving))
    × (insert_hashmap (some h₂) (some (key_of 74)) (some 4) serving ≡ some (ok, some h₃, serving))
    × (insert_hashmap (some h₃) (some (key_of 88)) (some 3) serving ≡ some (ok, some h₄, serving))
    × (get_hashmap (some h₄) (some (key_of 88)) ≡ some none)
unfolding get_raw_hash
insert_hashmap-lost_example =
    insert_hashmap-lost (block 40) (block 256) (key_of 72) (key_of 80) (key_of 88) (key_of 74)
      (some 1) (some 2) (some 3) (some 4) refl refl refl refl refl refl refl refl serving

abbrev start : Iterator
start = record { handle = block 24; current_index = 0; snapshot_version = 0 }

started :
    create_iterator (some sparse) serving ≡ (some start, record serving { used = 24; calls = 1 })
unfolding create_iterator malloc_track
started = refl

walk_hashmap_example : walk 9 sparse start ≡ (key_of 72, some 5) ∷ (key_of 74, none) ∷ []
walk_hashmap_example =
    walk_hashmap sparse serving (record serving { used = 24; calls = 1 }) sparse-IsValid started
