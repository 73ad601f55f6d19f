-- ===== src/HashMap/Kept.antt =====
-- An insertion into a hash map keeps what the map holds, with the new item.
use native.Mathlib.Nat.{mod-lt}
use mathlib.Core.List.{Perm}
use mathlib.Core.List.Perm as Perms
use cdsa.Base.{
  ℕ, zero, suc, ◌%◌, ◌<◌, ◌≡◌, refl, sym, ap₂, subst, ◌∙◌, true, Option, none, some, List, ◌∷◌,
  length, set, length-set, ltb, if_true, if_false, Bool-cases, Option-cases, inl, inr, arith,
}
use cdsa.Text.{Key, str_eq→eq, str_eq}
use cdsa.HashMap.{
  Entry, HashMap, empty_entry, entry_at, matches, next_index, bumped, placed, overwritten,
  insert_loop, internal_insert,
}
use cdsa.HashMap.Insert.{insert_loop-empty, insert_loop-occupied}
use cdsa.HashMap.Held.{Item, with_slot, held, held-set, Kept, all, merge, Kept-Perm}

module _ {ℓ} {V : Type ℓ} where
  abbrev item : Key → Entry V → Item V
  item k e = (k, e.hash, e.value)

  -- The writes over a slot with the key `k`, and into an empty one.
  write_over :
      (es : List (Entry V)) (i : ℕ) (e : Entry V) (k key : Key)
      → i < length es
      → (entry_at es i).key ≡ some k
      → e.key ≡ some key
      → Perm (item k (entry_at es i) ∷ held (set es i e)) (item key e ∷ held es)
  write_over es i e k key h q q' =
      subst (λ o. Perm (item k (entry_at es i) ∷ held (set es i e)) (with_slot o e (held es))) q'
        (subst
          (λ o.
            Perm (with_slot o (entry_at es i) (held (set es i e))) (with_slot e.key e (held es)))
          q (held-set es i e h))

  write_empty :
      (es : List (Entry V)) (i : ℕ) (e : Entry V) (key : Key)
      → i < length es
      → (entry_at es i).key ≡ none
      → e.key ≡ some key
      → Perm (held (set es i e)) (item key e ∷ held es)
  write_empty es i e key h q q' =
      subst (λ o. Perm (held (set es i e)) (with_slot o e (held es))) q'
        (subst
          (λ o.
            Perm (with_slot o (entry_at es i) (held (set es i e))) (with_slot e.key e (held es)))
          q (held-set es i e h))

  -- The value of a key that is there is replaced: of the two items with the key the new one is left.
  overwrite :
      (es : List (Entry V)) (i : ℕ) (e : Entry V) (k key : Key)
      → i < length es
      → (entry_at es i).key ≡ some k
      → k ≡ key
      → (entry_at es i).hash ≡ e.hash
      → Kept (item key e ∷ held es) (held (set es i (record (entry_at es i) { value = e.value })))
  overwrite es i e k key h q same hash =
      let old = entry_at es i in
      let new = record old { value = e.value } in
      let rest = held (set es i empty_entry) in
      let out : Perm (item k old ∷ rest) (held es) =
        subst (λ o. Perm (with_slot o old rest) (held es)) q (held-set es i empty_entry h) in
      let left : Perm (held (set es i new)) (item k new ∷ rest) = Perms.cons_inv (
        Perms.trans (write_over es i new k k h q q) (
          Perms.trans (Perms.cons (item k new) (Perms.symm out))
            (Perms.swap (item k old) (item k new) rest))) in
      let one : item k new ≡ item key e = ap₂ (λ n t. (n, t, e.value)) same hash in
      merge (item key e) (item k old) rest (Perms.cons (item key e) (Perms.symm out)) (sym same)
        (sym hash) (all (Perms.symm (subst (λ t. Perm (held (set es i new)) (t ∷ rest)) one left)))

  pub insert_loop-Kept :
      (fuel : ℕ) (h : HashMap V) (i : ℕ) (key : Key) (e : Entry V) {h' : HashMap V}
      → 0 < h.capacity
      → length h.entries ≡ h.capacity
      → i < h.capacity
      → e.key ≡ some key
      → insert_loop fuel h i key e ≡ some h'
      → Kept (item key e ∷ held h.entries) (held h'.entries)
  unfolding insert_loop
  insert_loop-Kept zero h i key e pos full lt q out = absurd (cc out)
  insert_loop-Kept (suc fuel) h i key e {h'} pos full lt q out =
      let slot = entry_at h.entries i in
      let inside : i < length h.entries = omega arith in
      elim (Option-cases slot.key) [
        | inl here ↦
            let same : placed h i e ≡ h' = cc (sym (insert_loop-empty fuel h i key e here), out) in
            subst (λ t. Kept (item key e ∷ held h.entries) (held t.entries)) same
              (all (Perms.symm (write_empty h.entries i e key inside here q)))
        | inr (k, here) ↦
            let step = sym (insert_loop-occupied fuel h i key k e here) ∙ out in
            elim (Bool-cases (matches slot e.hash key)) [
              | inl found ↦
                  let done : some (overwritten h i e) ≡ some h' =
                    sym (if_true (matches slot e.hash key) _ _ found) ∙ step in
                  let same : overwritten h i e ≡ h' = cc done in
                  let texts : str_eq k key ≡ true = ground (arith, found, here) in
                  let hashes : slot.hash ≡ e.hash = ground (arith, found) in
                  subst (λ t. Kept (item key e ∷ held h.entries) (held t.entries)) same
                    (overwrite h.entries i e k key inside here (str_eq→eq k key texts) hashes)
              | inr other ↦
                  let on = sym (if_false (matches slot e.hash key) _ _ other) ∙ step in
                  elim (Bool-cases (ltb slot.psl e.psl)) [
                    | inl poorer ↦
                        Kept-Perm (Perms.symm (write_over h.entries i e k key inside here q)) (
                          insert_loop-Kept fuel (record h { entries = set h.entries i e })
                            (next_index h i) k (bumped slot) pos (length-set h.entries i e ∙ full)
                            (mod-lt _ pos) here
                            (sym (if_true (ltb slot.psl e.psl) _ _ poorer) ∙ on))
                    | inr richer ↦
                        insert_loop-Kept fuel h (next_index h i) key (bumped e) pos full
                          (mod-lt _ pos) q (sym (if_false (ltb slot.psl e.psl) _ _ richer) ∙ on)
                  ]
            ]
      ]

  -- What a map holds after an insertion is what it held and the new item, of those with one key and
  -- hash perhaps one only.
  pub internal_insert-Kept :
      (h : HashMap V) (key : Key) (value : Option V) (raw_hash : ℕ) {h' : HashMap V}
      → 0 < h.capacity
      → length h.entries ≡ h.capacity
      → internal_insert h key value raw_hash ≡ some h'
      → Kept ((key, raw_hash, value) ∷ held h.entries) (held h'.entries)
  unfolding internal_insert
  internal_insert-Kept h key value raw_hash pos full out =
      insert_loop-Kept (suc h.capacity) h (raw_hash % h.capacity) key
        (record { key = some key; value = value; hash = raw_hash; psl = 0 }) pos full
        (mod-lt raw_hash pos) refl out
