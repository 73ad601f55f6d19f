-- ===== src/KString/Append.antt =====
-- What `append_kstring` does: the text goes behind the old bytes, and a terminator behind it.
use native.Mathlib.Nat.{pow-suc, add-zero}
use native.Mathlib.Decide.{dec_lt}
use cdsa.Base.{
  ℕ, zero, suc, max, ◌+◌, ◌*◌, ◌^◌, ◌≤◌, ◌<◌, ◌≡◌, refl, ap, sym, subst, ◌∙◌, ◌⊎◌, inl, inr, Option,
  none, some, List, [], ◌∷◌, ◌++◌, map, length, set, take, cell, resize_cells, length-set,
  length-resize_cells, take-resize_cells, take-set_le, take-suc, get_elem?-set, cell-set, add_size,
  mul_size, lt→ltb, le→ltb_false, arith,
}
use mathlib.Core.List.{append-nil, append_assoc}
use cdsa.Error.{Status, ok, oom}
use cdsa.Allocator.{Memory, Pointer, realloc_track}
use cdsa.Allocator.Telemetry.{realloc_track-some}
use cdsa.KString.{KString, copy_bytes, doubled_until, written, reallocated, append_kstring}

-- The storage is as large as the capacity, holds the text and its terminator, and growth does not
-- wrap.
pub record IsValid (s : KString) : Type 0 where
  pub bytes : s.storage.size ≡ s.capacity
  pub stored : length s.cells ≡ s.capacity
  pub within : s.size < s.capacity
  pub roomy : s.capacity ≤ 2 ^ 63
  pub terminated : cell s.cells s.size ≡ some 0

-- The bytes of the string.
abbrev pub contents : KString → List (Option ℕ)
contents s = take s.size s.cells

pub length-copy_bytes :
    (text : List ℕ) (i : ℕ) (cells : List (Option ℕ))
    → length (copy_bytes text i cells) ≡ length cells
unfolding copy_bytes
length-copy_bytes [] i cells = refl
length-copy_bytes (b ∷ text) i cells =
    length-copy_bytes text (i + 1) (set cells i (some b)) ∙ length-set cells i (some b)

-- The copied bytes stand behind those in front of the index.
pub take-copy_bytes :
    (text : List ℕ) (i : ℕ) (cells : List (Option ℕ))
    → i + length text ≤ length cells
    → take (i + length text) (copy_bytes text i cells) ≡ take i cells ++ map some text
unfolding copy_bytes
take-copy_bytes [] i cells h = rw (append-nil, add-zero)
take-copy_bytes (b ∷ text) i cells h =
    let cells' = set cells i (some b) in
    let size = length-set cells i (some b) in
    ap (λ n. take n (copy_bytes text (i + 1) cells')) {y = i + 1 + length text} (omega arith)
    ∙ take-copy_bytes text (i + 1) cells' (omega (arith, size))
    ∙ ap (λ l. l ++ map some text)
        (ap (λ n. take n cells') {y = suc i} (omega arith)
          ∙ take-suc cells' i (some b) (ground (arith, get_elem?-set cells i i (some b)))
          ∙ ap (λ l. l ++ some b ∷ []) (take-set_le cells i i (some b) (omega arith)))
    ∙ append_assoc (take i cells) (some b ∷ []) (map some text)

-- Writing keeps the storage's size, appends the text, and puts the terminator behind it.
written_lem :
    (s : KString) (text : List ℕ)
    → s.storage.size ≡ s.capacity
    → length s.cells ≡ s.capacity
    → s.capacity ≤ 2 ^ 63
    → s.size + length text < s.capacity
    → IsValid (written s text) × (contents (written s text) ≡ contents s ++ map some text)
unfolding written
written_lem s text b st r h =
    let size : add_size s.size (length text) ≡ s.size + length text = omega arith in
    let copied = copy_bytes text s.size s.cells in
    let room : length copied ≡ length s.cells = length-copy_bytes text s.size s.cells in
    rw size (
      record {
        bytes = b;
        stored = length-set copied (s.size + length text) (some 0) ∙ room ∙ st;
        within = h;
        roomy = r;
        terminated = ground (
          arith,
          cell-set copied (s.size + length text) (s.size + length text) (some 0),
          room,
          st,
        );
      },
      take-set_le copied (s.size + length text) (s.size + length text) (some 0) (omega arith)
          ∙ take-copy_bytes text s.size s.cells (omega (arith, st)),
    )

doubled_until-step :
    (fuel required capacity : ℕ)
    → capacity < required
    → doubled_until (suc fuel) required capacity ≡ doubled_until fuel required (mul_size capacity 2)
unfolding doubled_until
doubled_until-step fuel required capacity h = rw (lt→ltb capacity required h) refl

doubled_until-stop :
    (fuel required capacity : ℕ)
    → required ≤ capacity
    → doubled_until (suc fuel) required capacity ≡ some capacity
unfolding doubled_until
doubled_until-stop fuel required capacity h = rw (le→ltb_false capacity required h) refl

-- The growth loop ends: with fuel for enough doublings it returns a capacity that suffices, and no
-- more than twice what is required or the old one.
pub doubled_until_total :
    (fuel required capacity : ℕ)
    → 0 < capacity
    → required ≤ 2 ^ 63
    → required ≤ capacity * 2 ^ fuel
    → (c : ℕ) × (doubled_until (suc fuel) required capacity ≡ some c)
      × (required ≤ c)
      × (capacity ≤ c)
      × (c ≤ max capacity (2 * required))
doubled_until_total zero required capacity pos big enough = (
  capacity,
  doubled_until-stop zero required capacity (omega arith),
  omega arith,
  omega arith,
  omega arith,
)
doubled_until_total (suc fuel) required capacity pos big enough = elim (dec_lt capacity required) [
  | yes p ↦
      let doubled : mul_size capacity 2 ≡ capacity * 2 = omega arith in
      let (c, e, a, b, d) =
        doubled_until_total fuel required (capacity * 2) (omega arith) big
          (omega (arith, ap (λ t. capacity * t) (pow-suc 2 fuel))) in
      (
        c,
        doubled_until-step (suc fuel) required capacity p
            ∙ ap (doubled_until (suc fuel) required) doubled
            ∙ e,
        a,
        omega arith,
        omega arith,
      )
  | no p ↦ (
    capacity,
    doubled_until-stop (suc fuel) required capacity (omega arith),
    omega arith,
    omega arith,
    omega arith,
  )
]

-- How an append on `s` ends: the text stands behind the old bytes and the string is in order, or the
-- C library refused, which leaves the bytes and the storage but not the capacity.
abbrev pub Appended : KString → List ℕ → Option (Status × Option KString × Memory) → Type 0
Appended s text out =
    ((t : KString) × (m : Memory) × (out ≡ some (ok, some t, m))
      × IsValid t
      × (contents t ≡ contents s ++ map some text))
    ⊎ ((c : ℕ) × (m : Memory) × (out ≡ some (oom, some (record s { capacity = c }), m))
        × (s.capacity ≤ s.size + length text)
        × (s.size + length text < c))

reallocated-Appended :
    (s : KString) (text : List ℕ) (c : ℕ) (m : Memory) (r : Option Pointer × Memory)
    → IsValid s
    → s.capacity ≤ s.size + length text
    → s.size + length text < c
    → c ≤ 2 ^ 63
    → realloc_track (some s.storage) c m ≡ r
    → Appended s text (some (reallocated s c text r))
reallocated-Appended s text c m (none, n) v full h small e = inr (c, n, refl, full, h)
reallocated-Appended s text c m (some p, n) v full h small e =
    let size = (realloc_track-some s.storage c m e).0 in
    let fresh = record s { capacity = c; storage = p; cells = resize_cells p.size s.cells } in
    let room = length-resize_cells p.size s.cells in
    let (w, text_behind) = written_lem fresh text size (room ∙ size) small h in
    let kept =
      take-resize_cells p.size s.size s.cells (omega (arith, size))
        (omega (arith, v.stored, v.within)) in
    inl (written fresh text, n, refl, w, text_behind ∙ ap (λ l. l ++ map some text) kept)

-- On every branch, for texts up to a quarter of the address space: the growth loop ends, and `append`
-- returns OK with the text behind the old bytes, a terminator behind it and the string in order, or
-- OOM, which only a string that has to grow can see, with the bytes as they were.
pub append_kstring-Appended :
    (s : KString) (text : List ℕ) (m : Memory)
    → IsValid s
    → s.size + length text + 1 ≤ 2 ^ 62
    → Appended s text (append_kstring (some s) (some text) m)
unfolding append_kstring
append_kstring-Appended s text m v h =
    let required : add_size (add_size s.size (length text)) 1 ≡ s.size + length text + 1 =
      omega arith in
    rw required (elim (dec_lt s.capacity (s.size + length text + 1)) [
      | yes p ↦
          let (c, e, a, b, d) =
            doubled_until_total 64 (s.size + length text + 1) s.capacity (omega (arith, v.within))
              (omega arith) (omega (arith, v.within)) in
          rw (lt→ltb s.capacity (s.size + length text + 1) p, e)
            (reallocated-Appended s text c m (realloc_track (some s.storage) c m) v (omega arith)
              (omega arith) (omega (arith, v.roomy)) refl)
      | no p ↦
          let (w, text_behind) = written_lem s text v.bytes v.stored v.roomy (omega arith) in
          rw (le→ltb_false s.capacity (s.size + length text + 1) (omega arith))
            (inl (written s text, m, refl, w, text_behind))
    ])

append_again :
    (s : KString) (text : List ℕ) (n : Memory) (c : ℕ)
    → IsValid s
    → s.size + length text + 1 ≤ 2 ^ 62
    → s.capacity ≤ s.size + length text
    → s.size + length text < c
    → let w = record s { capacity = c } in
      (append_kstring (some w) (some text) n ≡ some (ok, some (written w text), n))
      × (length (written w text).cells ≤ (written w text).size)
unfolding append_kstring written
append_again s text n c v h full more =
    let size : add_size s.size (length text) ≡ s.size + length text = omega arith in
    let required : add_size (add_size s.size (length text)) 1 ≡ s.size + length text + 1 =
      omega arith in
    (
      rw (le→ltb_false c (add_size (add_size s.size (length text)) 1) (omega arith)) refl,
      omega (
        arith,
        length-copy_bytes text s.size s.cells,
        length-set (copy_bytes text s.size s.cells) (add_size s.size (length text)) (some 0),
        size,
        v.stored,
      ),
    )

-- After a refused growth the string believes in a capacity that its storage has not: the same append
-- again returns OK without growing, and the terminator, if not the text, goes past the storage.
pub append_after_oom :
    (s t : KString) (text : List ℕ) (m m' n : Memory)
    → IsValid s
    → s.size + length text + 1 ≤ 2 ^ 62
    → append_kstring (some s) (some text) m ≡ some (oom, some t, m')
    → (u : KString) × (append_kstring (some t) (some text) n ≡ some (ok, some u, n))
      × (length u.cells ≤ u.size)
append_after_oom s t text m m' n v h e = go (append_kstring-Appended s text m v h)
  where
    go :
        Appended s text (append_kstring (some s) (some text) m)
        → (u : KString) × (append_kstring (some t) (some text) n ≡ some (ok, some u, n))
          × (length u.cells ≤ u.size)
    go (inl (w, k, q, _, _)) = absurd (cc (sym e ∙ q))
    go (inr (c, k, q, full, more)) =
        let same : record s { capacity = c } ≡ t = ground (arith, e, q) in
        let (a, b) = append_again s text n c v h full more in
        (
          written (record s { capacity = c }) text,
          subst
              (λ z.
                append_kstring (some z) (some text) n
                ≡ some (ok, some (written (record s { capacity = c }) text), n))
              same a,
          b,
        )
