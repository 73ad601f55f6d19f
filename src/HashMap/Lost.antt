-- ===== src/HashMap/Lost.antt =====
-- A key that is put in by a swap is not always counted in the high-water mark, and a lookup that
-- stops at the mark then misses it.
use cdsa.Base.{ℕ, ◌%◌, ◌≡◌, ap, ◌∙◌, false, Option, none, some, List, ◌∷◌, replicate, arith}
use cdsa.Error.{ok}
use cdsa.Allocator.{Memory, Pointer}
use cdsa.Text.{Key, str_eq}
use cdsa.HashMap.{
  Entry, HashMap, empty_entry, created, get_raw_hash, insert_loop, internal_insert, finished,
  insert_hashmap, probe, find, value_of, get_hashmap,
}

module _ {ℓ} {V : Type ℓ} where
  abbrev pub entry : Key → Option V → ℕ → Entry V
  entry k v p = record { key = some k; value = v; hash = get_raw_hash k; psl = p }

  -- A map of capacity 8 with these entries in its first slots.
  abbrev pub filled : Pointer → Pointer → ℕ → ℕ → List (Entry V) → HashMap V
  filled p t size mark entries = record (created 8 p t) {
    size = size;
    max_psl = mark;
    entries = entries;
  }

  module _ (p t : Pointer) (a b c d : Key) (va vb vc vd : Option V)
      (home_a : get_raw_hash a % 8 ≡ 0) (home_b : get_raw_hash b % 8 ≡ 0)
      (home_c : get_raw_hash c % 8 ≡ 0) (home_d : get_raw_hash d % 8 ≡ 2) (ab : str_eq a b ≡ false)
      (ac : str_eq a c ≡ false) (bc : str_eq b c ≡ false) (dc : str_eq d c ≡ false) where
    abbrev pub after_a : HashMap V
    after_a = filled p t 1 0 (entry a va 0 ∷ replicate 7 empty_entry)

    abbrev pub after_b : HashMap V
    after_b = filled p t 2 1 (entry a va 0 ∷ entry b vb 1 ∷ replicate 6 empty_entry)

    abbrev pub after_d : HashMap V
    after_d = filled p t 3 1 (entry a va 0 ∷ entry b vb 1 ∷ entry d vd 0 ∷ replicate 5 empty_entry)

    abbrev pub after_c : HashMap V
    after_c =
        filled p t 4 1
          (entry a va 0 ∷ entry b vb 1 ∷ entry c vc 2 ∷ entry d vd 1 ∷ replicate 4 empty_entry)

    loop_a :
        insert_loop 9 (filled p t 0 0 (replicate 8 empty_entry)) 0 a (entry a va 0) ≡ some after_a
    unfolding insert_loop
    loop_a = ground arith

    put_a :
        internal_insert (filled p t 0 0 (replicate 8 empty_entry)) a va (get_raw_hash a)
        ≡ some after_a
    unfolding internal_insert
    put_a =
        ap (λ i. insert_loop 9 (filled p t 0 0 (replicate 8 empty_entry)) i a (entry a va 0)) home_a
        ∙ loop_a

    loop_b : insert_loop 9 after_a 0 b (entry b vb 0) ≡ some after_b
    unfolding insert_loop
    loop_b = ground arith

    put_b : internal_insert after_a b vb (get_raw_hash b) ≡ some after_b
    unfolding internal_insert
    put_b = ap (λ i. insert_loop 9 after_a i b (entry b vb 0)) home_b ∙ loop_b

    loop_d : insert_loop 9 after_b 2 d (entry d vd 0) ≡ some after_d
    unfolding insert_loop
    loop_d = ground arith

    put_d : internal_insert after_b d vd (get_raw_hash d) ≡ some after_d
    unfolding internal_insert
    put_d = ap (λ i. insert_loop 9 after_b i d (entry d vd 0)) home_d ∙ loop_d

    loop_c : insert_loop 9 after_d 0 c (entry c vc 0) ≡ some after_c
    unfolding insert_loop
    loop_c = ground arith

    put_c : internal_insert after_d c vc (get_raw_hash c) ≡ some after_c
    unfolding internal_insert
    put_c = ap (λ i. insert_loop 9 after_d i c (entry c vc 0)) home_c ∙ loop_c

    probe_c : probe 3 after_c (get_raw_hash c) c 0 0 ≡ some none
    unfolding probe
    probe_c = ground arith

    missed : get_hashmap (some after_c) (some c) ≡ some none
    unfolding get_hashmap find
    missed =
        ap (λ i. value_of after_c (probe 3 after_c (get_raw_hash c) c i 0)) home_c
        ∙ ap (value_of after_c) probe_c

    -- Four keys with the home slots 0, 0, 2 and 0 go into an empty map of capacity 8, one after the
    -- other; each call returns OK, and right after the last one a lookup of its key returns NULL.
    pub insert_hashmap-lost :
        (m : Memory)
        → (h₁ h₂ h₃ h₄ : HashMap V) × (insert_hashmap
              (some (filled p t 0 0 (replicate 8 empty_entry)))
              (some a)
              va
              m
            ≡ some (ok, some h₁, m))
          × (insert_hashmap (some h₁) (some b) vb m ≡ some (ok, some h₂, m))
          × (insert_hashmap (some h₂) (some d) vd m ≡ some (ok, some h₃, m))
          × (insert_hashmap (some h₃) (some c) vc m ≡ some (ok, some h₄, m))
          × (get_hashmap (some h₄) (some c) ≡ some none)
    unfolding insert_hashmap
    insert_hashmap-lost m = (
      after_a,
      after_b,
      after_d,
      after_c,
      ap (finished m) put_a,
      ap (finished m) put_b,
      ap (finished m) put_d,
      ap (finished m) put_c,
      missed,
    )
