-- ===== src/HashMap.antt =====
-- src/hashmap.c: the Robin Hood hash map. A C string is the list of its bytes in front of the
-- terminator; the map keeps the pointers to keys and values, which stay valid and unchanged as the
-- header asks of the caller. An index past the entries reads an empty slot and writes nothing.
pub mod Table
pub mod Insert
pub mod Held
pub mod Kept
pub mod Resize
pub mod Lost
pub mod Iterator
mod Tests
use cdsa.Base.{
  ℕ, zero, suc, ◌+◌, ◌-◌, ◌*◌, ◌/◌, ◌%◌, Bool, true, false, not, ◌&&◌, ◌||◌, Option, none, some,
  List, [], ◌∷◌, set, replicate, add_size, mul_size, sub_size, ltb, leb, ◌==◌, if◌then◌else◌,
}
use cdsa.Text.{Key, str_eq}
use cdsa.Error.{Status, ok, oom, invalid, not_found}
use cdsa.Allocator.{Memory, Pointer, malloc_track, calloc_track, free_track}

-- `HashEntry`; a slot whose key is NULL is empty.
pub record Entry {ℓ} (V : Type ℓ) : Type ℓ where
  pub key : Option Key
  pub value : Option V
  pub hash : ℕ
  pub psl : ℕ

-- `struct cdsa_hashmap`; `table` is the block behind `entries`.
pub record HashMap {ℓ} (V : Type ℓ) : Type ℓ where
  pub handle : Pointer
  pub table : Pointer
  pub capacity : ℕ
  pub size : ℕ
  pub max_psl : ℕ
  pub version : ℕ
  pub entries : List (Entry V)

-- `sizeof(HashEntry)` and `sizeof(cdsa_hashmap)`
abbrev pub sizeof_entry : ℕ
sizeof_entry = 32

abbrev pub sizeof_hashmap : ℕ
sizeof_hashmap = 40

-- A byte as the signed `char` of the usual ABIs, converted to `size_t`.
abbrev pub char_value : ℕ → ℕ
char_value b = if ltb b 128 then b else sub_size b 256

raw_hash_from : ℕ → Key → ℕ
raw_hash_from hash [] = hash
raw_hash_from hash (b ∷ key) = raw_hash_from (add_size (mul_size hash 31) (char_value b)) key

unfoldable pub get_raw_hash : Key → ℕ
unfolding raw_hash_from
get_raw_hash key = raw_hash_from 0 key

-- The test `key == NULL` of a slot, and what goes on with a key that is not NULL.
abbrev pub if_null {ℓ} : {A : Type ℓ} → Option Key → A → (Key → A) → A
if_null none empty occupied = empty
if_null (some k) empty occupied = occupied k

module _ {ℓ} {V : Type ℓ} where
  -- A slot that `calloc` has cleared.
  abbrev pub empty_entry : Entry V
  empty_entry = record { key = none; value = none; hash = 0; psl = 0 }

  abbrev pub entry_at : List (Entry V) → ℕ → Entry V
  entry_at [] i = empty_entry
  entry_at (e ∷ es) zero = e
  entry_at (e ∷ es) (suc i) = entry_at es i

  abbrev pub created : ℕ → Pointer → Pointer → HashMap V
  created capacity p t = record {
    handle = p;
    table = t;
    capacity = capacity;
    size = 0;
    max_psl = 0;
    version = 0;
    entries = replicate (t.size / sizeof_entry) empty_entry;
  }

  abbrev pub with_table : ℕ → Pointer → Option Pointer × Memory → Option (HashMap V) × Memory
  with_table capacity p (none, m) = (none, free_track (some p) m)
  with_table capacity p (some t, m) = (some (created capacity p t), m)

  abbrev pub with_handle : ℕ → Option Pointer × Memory → Option (HashMap V) × Memory
  with_handle capacity (none, m) = (none, m)
  with_handle capacity (some p, m) =
      let capacity' = if capacity == 0 then 1 else capacity in
      with_table capacity' p (calloc_track capacity' sizeof_entry m)

  unfoldable pub create_hashmap : ℕ → Memory → Option (HashMap V) × Memory
  create_hashmap capacity m = with_handle capacity (malloc_track sizeof_hashmap m)

  unfoldable pub free_hashmap : Option (HashMap V) → Memory → Memory
  free_hashmap none m = m
  free_hashmap (some h) m = free_track (some h.handle) (free_track (some h.table) m)

  unfoldable pub size_hashmap : Option (HashMap V) → ℕ
  size_hashmap none = 0
  size_hashmap (some h) = h.size

  -- The slot holds this key: the hashes agree, and then the strings.
  abbrev pub matches : Entry V → ℕ → Key → Bool
  matches e hash key = e.hash == hash && if_null e.key false (λ k. str_eq k key)

  abbrev pub next_index : HashMap V → ℕ → ℕ
  next_index h i = add_size i 1 % h.capacity

  abbrev pub bumped : Entry V → Entry V
  bumped e = record e { psl = add_size e.psl 1 }

  -- An empty slot takes the entry, and the high-water mark is updated.
  abbrev pub placed : HashMap V → ℕ → Entry V → HashMap V
  placed h index incoming = record h {
    entries = set h.entries index incoming;
    size = add_size h.size 1;
    max_psl = if ltb h.max_psl incoming.psl then incoming.psl else h.max_psl;
  }

  -- The key is there: only its value is replaced.
  abbrev pub overwritten : HashMap V → ℕ → Entry V → HashMap V
  overwritten h index incoming = record h {
    entries = set h.entries index (record (entry_at h.entries index) { value = incoming.value });
  }

  -- The loop of `internal_insert`, with fuel; the carried entry's key is given beside it, as it is
  -- never NULL. `none` means that the fuel ran out.
  unfoldable pub insert_loop : ℕ → HashMap V → ℕ → Key → Entry V → Option (HashMap V)
  insert_loop zero h index key incoming = none
  insert_loop (suc fuel) h index key incoming =
      let slot = entry_at h.entries index in
      if_null slot.key (some (placed h index incoming)) λ k.
        let swapped = record h { entries = set h.entries index incoming } in
        let with_old = insert_loop fuel swapped (next_index h index) k (bumped slot) in
        let with_new = insert_loop fuel h (next_index h index) key (bumped incoming) in
        if matches slot incoming.hash key
        then some (overwritten h index incoming)
        else if ltb slot.psl incoming.psl
        then with_old
        else with_new

  unfoldable pub internal_insert : HashMap V → Key → Option V → ℕ → Option (HashMap V)
  internal_insert h key value raw_hash =
      insert_loop (suc h.capacity) h (raw_hash % h.capacity) key
        (record { key = some key; value = value; hash = raw_hash; psl = 0 })

  -- The loop of `recalculate_max_psl` over the entries, from the maximum so far.
  abbrev pub recalculate_max_psl : List (Entry V) → ℕ → ℕ
  recalculate_max_psl [] best = best
  recalculate_max_psl (e ∷ es) best =
      recalculate_max_psl es (if_null e.key best λ k. if ltb best e.psl then e.psl else best)

  -- The loop of `resize_hashmap` over the old entries.
  abbrev then_reinsert : (HashMap V → Option (HashMap V)) → Option (HashMap V) → Option (HashMap V)
  then_reinsert rest none = none
  then_reinsert rest (some h) = rest h

  unfoldable pub reinsert : List (Entry V) → HashMap V → Option (HashMap V)
  reinsert [] h = some h
  reinsert (e ∷ es) h =
      then_reinsert (reinsert es) (if_null e.key (some h) λ k. internal_insert h k e.value e.hash)

  -- `CDSA_FREE(old_entries)` and the version, once the old entries are in the new table.
  abbrev pub moved :
      Pointer → Memory → Option (HashMap V) → Option (Status × Option (HashMap V) × Memory)
  moved old m none = none
  moved old m (some h) =
      some (ok, some (record h { version = add_size h.version 1 }), free_track (some old) m)

  abbrev pub with_new_table :
      HashMap V → ℕ → Option Pointer × Memory → Option (Status × Option (HashMap V) × Memory)
  with_new_table h new_capacity (none, m) = some (oom, some h, m)
  with_new_table h new_capacity (some t, m) = moved h.table m (
      reinsert h.entries (record h {
        table = t;
        entries = replicate (t.size / sizeof_entry) empty_entry;
        capacity = new_capacity;
        size = 0;
      }))

  unfoldable pub resize_hashmap :
      Option (HashMap V) → Memory → Option (Status × Option (HashMap V) × Memory)
  resize_hashmap none m = some (invalid, none, m)
  resize_hashmap (some h) m =
      let new_capacity = mul_size h.capacity 2 in
      with_new_table h new_capacity (calloc_track new_capacity sizeof_entry m)

  abbrev pub finished : Memory → Option (HashMap V) → Option (Status × Option (HashMap V) × Memory)
  finished m none = none
  finished m (some h) = some (ok, some h, m)

  abbrev pub inserted :
      Key → Option V → Memory → HashMap V → Option (Status × Option (HashMap V) × Memory)
  inserted key value m h = finished m (internal_insert h key value (get_raw_hash key))

  -- The insertion goes on only if the resize returned OK.
  abbrev pub after_resize :
      Key
      → Option V
      → Option (Status × Option (HashMap V) × Memory)
      → Option (Status × Option (HashMap V) × Memory)
  after_resize key value none = none
  after_resize key value (some (ok, some h, m)) = inserted key value m h
  after_resize key value (some (status, h, m)) = some (status, h, m)

  unfoldable pub insert_hashmap :
      Option (HashMap V)
      → Option Key
      → Option V
      → Memory
      → Option (Status × Option (HashMap V) × Memory)
  insert_hashmap none key value m = some (invalid, none, m)
  insert_hashmap (some h) none value m = some (invalid, some h, m)
  insert_hashmap (some h) (some key) value m =
      if leb (mul_size h.capacity 3 / 4) h.size
      then after_resize key value (resize_hashmap (some h) m)
      else inserted key value m h

  -- The probe that `get` and `remove` share, with fuel: the index of the key's slot. The outer `none`
  -- means that the fuel ran out.
  unfoldable pub probe : ℕ → HashMap V → ℕ → Key → ℕ → ℕ → Option (Option ℕ)
  probe zero h hash key index distance = none
  probe (suc fuel) h hash key index distance =
      let slot = entry_at h.entries index in
      let rest = probe fuel h hash key (next_index h index) (add_size distance 1) in
      if_null slot.key (some none) λ k.
        if ltb h.max_psl distance
        then some none
        else if matches slot hash key
        then some (some index)
        else rest

  unfoldable pub find : HashMap V → Key → Option (Option ℕ)
  find h key = probe (h.max_psl + 2) h (get_raw_hash key) key (get_raw_hash key % h.capacity) 0

  abbrev pub value_of : HashMap V → Option (Option ℕ) → Option (Option V)
  value_of h none = none
  value_of h (some none) = some none
  value_of h (some (some i)) = some (entry_at h.entries i).value

  unfoldable pub get_hashmap : Option (HashMap V) → Option Key → Option (Option V)
  get_hashmap none key = some none
  get_hashmap (some h) none = some none
  get_hashmap (some h) (some key) = value_of h (find h key)

  -- A key whose value is NULL is not contained.
  abbrev non_null : Option (Option V) → Option Bool
  non_null none = none
  non_null (some none) = some false
  non_null (some (some v)) = some true

  unfoldable pub contains_hashmap : Option (HashMap V) → Option Key → Option Bool
  contains_hashmap h key = non_null (get_hashmap h key)

  -- The backward shift of `remove_hashmap`, with fuel: the entries, the slot left over, and whether
  -- the high-water mark was met.
  unfoldable pub shift_back :
      ℕ → HashMap V → List (Entry V) → ℕ → Bool → Option (List (Entry V) × ℕ × Bool)
  shift_back zero h entries curr affected = none
  shift_back (suc fuel) h entries curr affected =
      let next = next_index h curr in
      let slot = entry_at entries next in
      let rest =
        shift_back fuel h (set entries curr (record slot { psl = slot.psl - 1 })) next
          (slot.psl == h.max_psl || affected) in
      if_null slot.key (some (entries, curr, affected))
        λ k. if ltb 0 slot.psl then rest else some (entries, curr, affected)

  -- The slot that is left over is cleared, and the high-water mark recalculated if it was met.
  abbrev pub cleared : HashMap V → Option (List (Entry V) × ℕ × Bool) → Option (HashMap V)
  cleared h none = none
  cleared h (some (entries, curr, affected)) =
      let entries' = set entries curr empty_entry in
      some (record h {
        entries = entries';
        max_psl = if affected then recalculate_max_psl entries' 0 else h.max_psl;
      })

  abbrev pub counted_out : HashMap V → HashMap V
  counted_out h = record h { size = sub_size h.size 1; version = add_size h.version 1 }

  abbrev pub removed : HashMap V → Option (Option ℕ) → Option (Status × Option (HashMap V))
  removed h none = none
  removed h (some none) = some (not_found, some h)
  removed h (some (some index)) =
      let affected = (entry_at h.entries index).psl == h.max_psl in
      elim (cleared (counted_out h) (shift_back (suc h.capacity) h h.entries index affected)) [
        | none ↦ none
        | some h' ↦ some (ok, some h')
      ]

  unfoldable pub remove_hashmap :
      Option (HashMap V) → Option Key → Option (Status × Option (HashMap V))
  remove_hashmap none key = some (invalid, none)
  remove_hashmap (some h) none = some (invalid, some h)
  remove_hashmap (some h) (some key) = removed h (find h key)
