-- ===== src/HashMap/Resize.antt =====
-- The resize, and the whole of `insert_hashmap` around it.
use mathlib.Core.List.{Perm, perm_middle, append-nil}
use mathlib.Core.List.Perm as Perms
use cdsa.Base.{
  ℕ, ◌+◌, ◌*◌, ◌/◌, ◌^◌, ◌≤◌, ◌<◌, ◌≡◌, refl, ap, sym, subst, ◌∙◌, ◌⊎◌, inl, inr, Option, none,
  some, List, [], ◌∷◌, ◌++◌, replicate, length-replicate, add_size, mul_size, size_mod, arith,
}
use cdsa.Error.{Status, ok, oom}
use cdsa.Allocator.{Memory, Pointer, calloc_track, free_track}
use cdsa.Allocator.Telemetry.{Balanced, calloc_track-some, calloc_track-none, used-free_track}
use cdsa.Text.{Key}
use cdsa.HashMap.{
  Entry, HashMap, empty_entry, sizeof_entry, get_raw_hash, internal_insert, if_null, then_reinsert,
  reinsert, moved, with_new_table, resize_hashmap,
}
use cdsa.HashMap.Table.{weight, occupied, occupied-le, occupied-replicate, IsValid}
use cdsa.HashMap.Insert.{internal_insert-Grown}
use cdsa.HashMap.Held.{
  Item, with_slot, held, held-replicate, Kept, all, Kept-Perm, Kept-trans, Kept-append,
}
use cdsa.HashMap.Kept.{internal_insert-Kept}

module _ {ℓ} {V : Type ℓ} where
  -- What putting entries in leaves: a map in order on the same table, with at most that many more,
  -- that holds the items put in and what it held.
  pub record Refilled (h : HashMap V) (count : ℕ) (items : List (Item V)) (h' : HashMap V)
      : Type ℓ where
    pub valid : IsValid h'
    pub same_capacity : h'.capacity ≡ h.capacity
    pub same_table : h'.table ≡ h.table
    pub same_handle : h'.handle ≡ h.handle
    pub same_version : h'.version ≡ h.version
    pub size_bound : h'.size ≤ h.size + count
    pub kept : Kept (items ++ held h.entries) (held h'.entries)

  put_one :
      (h : HashMap V) (e : Entry V) (k : Option Key)
      → IsValid h
      → h.size + weight k ≤ h.capacity
      → (h' : HashMap V) × (if_null k (some h) (λ key. internal_insert h key e.value e.hash)
          ≡ some h')
        × Refilled h (weight k) (with_slot k e []) h'
  put_one h e none v room = (
    h,
    refl,
    record {
      valid = v;
      same_capacity = refl;
      same_table = refl;
      same_handle = refl;
      same_version = refl;
      size_bound = omega arith;
      kept = all Perms.rfl;
    },
  )
  put_one h e (some key) v room =
      let (h', q, g) = internal_insert-Grown h key e.value e.hash v (omega arith) in
      (
        h',
        q,
        record {
          valid = g.valid;
          same_capacity = g.same_capacity;
          same_table = g.same_table;
          same_handle = g.same_handle;
          same_version = g.same_version;
          size_bound = g.size_bounds.1;
          kept = internal_insert-Kept h key e.value e.hash v.some_room v.stored q;
        },
      )

  front-middle :
      (k : Option Key) (e : Entry V) (xs ys : List (Item V))
      → Perm (with_slot k e xs ++ ys) (xs ++ (with_slot k e [] ++ ys))
  front-middle none e xs ys = Perms.rfl
  front-middle (some k) e xs ys = Perms.symm (perm_middle {a = (k, e.hash, e.value)} xs ys)

  pub reinsert-Refilled :
      (es : List (Entry V)) (h : HashMap V)
      → IsValid h
      → h.size + occupied es ≤ h.capacity
      → (h' : HashMap V) × (reinsert es h ≡ some h') × Refilled h (occupied es) (held es) h'
  unfolding reinsert
  reinsert-Refilled [] h v room = put_one h empty_entry none v (omega arith)
  reinsert-Refilled (e ∷ es) h v room =
      let (h₁, q₁, g₁) = put_one h e e.key v (omega arith) in
      let (h₂, q₂, g₂) =
        reinsert-Refilled es h₁ g₁.valid (omega (arith, g₁.same_capacity, g₁.size_bound)) in
      (
        h₂,
        ap (then_reinsert (reinsert es)) q₁ ∙ q₂,
        record {
          valid = g₂.valid;
          same_capacity = g₂.same_capacity ∙ g₁.same_capacity;
          same_table = g₂.same_table ∙ g₁.same_table;
          same_handle = g₂.same_handle ∙ g₁.same_handle;
          same_version = g₂.same_version ∙ g₁.same_version;
          size_bound = omega (arith, g₁.size_bound, g₂.size_bound);
          kept =
              Kept-Perm (front-middle e.key e (held es) (held h.entries))
                (Kept-trans (Kept-append (held es) g₁.kept) g₂.kept);
        },
      )

  -- The bytes of the two blocks of a map.
  abbrev pub owned : HashMap V → ℕ
  owned h = h.handle.size + h.table.size

  -- How a resize ends: the doubled table holds the keys, hashes and values of the old one, of those with
  -- one key and hash perhaps one only, the old one is released, and the version has moved; or the C
  -- library refused, and the map is as it was.
  abbrev pub Resized : HashMap V → Memory → Option (Status × Option (HashMap V) × Memory) → Type ℓ
  Resized h m out =
      ((h' : HashMap V) × (m' : Memory) × (out ≡ some (ok, some h', m'))
        × IsValid h'
        × (h'.capacity ≡ 2 * h.capacity)
        × (h'.size ≤ h.size)
        × (h'.version ≡ add_size h.version 1)
        × Kept (held h.entries) (held h'.entries)
        × Balanced m (owned h) m' (owned h'))
      ⊎ ((m' : Memory) × (out ≡ some (oom, some h, m')) × (m'.used ≡ m.used))

  with_new_table-Resized :
      (h : HashMap V) (m : Memory) (r : Option Pointer × Memory)
      → IsValid h
      → h.capacity ≤ 2 ^ 56
      → h.table.size < size_mod
      → calloc_track (mul_size h.capacity 2) sizeof_entry m ≡ r
      → Resized h m (with_new_table h (mul_size h.capacity 2) r)
  with_new_table-Resized h m (none, m₁) v small word e = inr (m₁, refl, calloc_track-none _ _ m e)
  with_new_table-Resized h m (some t, m₁) v small word e =
      let (size, used) = calloc_track-some (mul_size h.capacity 2) sizeof_entry m e in
      let doubled : mul_size h.capacity 2 ≡ 2 * h.capacity = omega arith in
      let slots : t.size / sizeof_entry ≡ 2 * h.capacity = omega (arith, size, doubled) in
      let es = replicate (t.size / sizeof_entry) (empty_entry {V = V}) in
      let none_yet = occupied-replicate V (t.size / sizeof_entry) in
      let room = length-replicate (t.size / sizeof_entry) (empty_entry {V = V}) in
      let fresh = record h {
        table = t;
        entries = es;
        capacity = mul_size h.capacity 2;
        size = 0;
      } in
      let fresh_valid : IsValid fresh = record {
        some_room = omega (arith, doubled, v.some_room);
        stored = room ∙ slots ∙ sym doubled;
        counted = sym none_yet;
        roomy = omega (arith, doubled);
      } in
      let (h', q, g) =
        reinsert-Refilled h.entries fresh fresh_valid
          (omega (arith, doubled, occupied-le h.entries, v.stored)) in
      inl (
        record h' { version = add_size h'.version 1 },
        free_track (some h.table) m₁,
        ap (moved h.table m₁) q,
        record {
          some_room = g.valid.some_room;
          stored = g.valid.stored;
          counted = g.valid.counted;
          roomy = g.valid.roomy;
        },
        g.same_capacity ∙ doubled,
        omega (arith, g.size_bound, v.counted),
        ap (λ n. add_size n 1) g.same_version,
        subst (λ xs. Kept xs (held h'.entries))
            (ap (λ ys. held h.entries ++ ys) (held-replicate {V = V} (t.size / sizeof_entry))
              ∙ append-nil (held h.entries))
            g.kept,
        omega (
          arith,
          used,
          size,
          used-free_track h.table m₁,
          ap (λ p. p.size) g.same_table,
          ap (λ p. p.size) g.same_handle,
        ),
      )

  -- A resize of a map in order, of at most 2 ^ 56 slots, ends; on OK the map is in order with twice the
  -- slots and holds the keys, hashes and values that it held, of those with one key and hash perhaps one
  -- only, the version has moved and the bytes are accounted for, and on OOM nothing has changed.
  pub resize_hashmap-Resized :
      (h : HashMap V) (m : Memory)
      → IsValid h
      → h.capacity ≤ 2 ^ 56
      → h.table.size < size_mod
      → Resized h m (resize_hashmap (some h) m)
  unfolding resize_hashmap
  resize_hashmap-Resized h m v small word =
      with_new_table-Resized h m (calloc_track (mul_size h.capacity 2) sizeof_entry m) v small word
        refl

  -- How an insertion ends: the map is in order and counts at most one entry more, it holds the new key
  -- and value and what it held, of items with one key and hash perhaps one only, and its bytes are
  -- accounted for; or it had to grow, the C library refused, and the map is as it was.
  abbrev pub Inserted :
      HashMap V → Key → Option V → Memory → Option (Status × Option (HashMap V) × Memory) → Type ℓ
  Inserted h key value m out =
      ((h' : HashMap V) × (m' : Memory) × (out ≡ some (ok, some h', m'))
        × IsValid h'
        × (h'.size ≤ h.size + 1)
        × Kept ((key, get_raw_hash key, value) ∷ held h.entries) (held h'.entries)
        × Balanced m (owned h) m' (owned h'))
      ⊎ ((m' : Memory) × (out ≡ some (oom, some h, m'))
          × (h.capacity * 3 / 4 ≤ h.size)
          × (m'.used ≡ m.used))
