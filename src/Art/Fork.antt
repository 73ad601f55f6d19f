-- ===== src/Art/Fork.antt =====
-- The insertion at a leaf, and the search after it.
use cdsa.Base.{
  ℕ, zero, suc, ◌+◌, ◌-◌, ◌≤◌, ◌<◌, ◌≡◌, ◌≢◌, refl, sym, ap, subst, ◌∙◌, true, false, List, [], ◌∷◌,
  ◌++◌, ltb, ◌==◌, ==→eq, ne→==_false, eq→==, none, some, length, take, replicate, if◌then◌else◌,
  inl, inr, Bool-cases, arith,
}
use cdsa.Text.{Key, str_eq}
use cdsa.Art.{
  Leaf, leaf, onward, byte_at, matched, check_prefix, pass_prefix, stored, key_index, find_child,
  search_node,
}
use cdsa.Art.Insertion.{shared, bytes_from, fresh_prefix, fork}

pub str_eq_refl : (a : Key) → str_eq a a ≡ true
str_eq_refl [] = refl
str_eq_refl (c ∷ a) = ground (arith, str_eq_refl a)

-- Where two keys agree, they have the same bytes.
byte_at-shared : (a b : Key) (i : ℕ) → i < shared a b → byte_at a i ≡ byte_at b i
unfolding byte_at shared
byte_at-shared [] b i h = absurd (omega arith)
byte_at-shared (c ∷ a) [] i h = absurd (omega arith)
byte_at-shared (c ∷ a) (d ∷ b) zero h = elim (Bool-cases (c == d)) [
  | inr other ↦ absurd (omega (arith, rw other at h))
  | inl same ↦ ap some (==→eq c d same)
]
byte_at-shared (c ∷ a) (d ∷ b) (suc i) h = elim (Bool-cases (c == d)) [
  | inr other ↦ absurd (omega (arith, rw other at h))
  | inl same ↦ byte_at-shared a b i (omega (arith, rw same at h))
]

-- The bytes that are read are there, and match.
bytes_from-matched :
    (n : ℕ) (key other : Key) (depth : ℕ)
    → depth + n ≤ length key
    → ((i : ℕ) → depth ≤ i → i < depth + n → byte_at key i ≡ byte_at other i)
    → (bytes : List ℕ) × (bytes_from key depth n ≡ some bytes)
      × (length bytes ≡ n)
      × (matched bytes other depth ≡ some n)
unfolding bytes_from matched byte_at
bytes_from-matched zero key other depth h same = ([], refl, refl, refl)
bytes_from-matched (suc n) key other depth h same =
    let (c, here) = byte_at-some key depth (omega arith) in
    let (bytes, read, size, rest) =
      bytes_from-matched n key other (depth + 1) (omega arith)
        (λ i g k. same i (omega arith) (omega arith)) in
    (
      c ∷ bytes,
      rw (here, read) refl,
      ap suc size,
      rw (sym (same depth (omega arith) (omega arith)) ∙ here, eq→== c c refl, rest)
          (ap some (omega arith)),
    )
  where
    byte_at-some : (key : Key) (i : ℕ) → i < length key → (c : ℕ) × (byte_at key i ≡ some c)
    byte_at-some [] i h = absurd (omega arith)
    byte_at-some (c ∷ key) zero h = (c, refl)
    byte_at-some (c ∷ key) (suc i) h = byte_at-some key i (omega arith)

take-append : (n : ℕ) (xs ys : List ℕ) → length xs ≡ n → take n (xs ++ ys) ≡ xs
take-append zero [] ys h = refl
take-append zero (x ∷ xs) ys h = absurd (omega arith)
take-append (suc n) [] ys h = absurd (omega arith)
take-append (suc n) (x ∷ xs) ys h = ap (◌∷◌ x) (take-append n xs ys (omega arith))

pub shared-length : (a b : Key) → (shared a b ≤ length a) × (shared a b ≤ length b)
unfolding shared
shared-length [] b = (omega arith, omega arith)
shared-length (c ∷ a) [] = (omega arith, omega arith)
shared-length (c ∷ a) (d ∷ b) = ground (arith, shared-length a b)

-- A key that has the prefix of a new node passes it.
fork-passes :
    (len depth : ℕ) (bytes : List ℕ) (key : Key)
    → length bytes ≡ stored len
    → matched bytes key depth ≡ some (stored len)
    → depth + len ≤ length key
    → pass_prefix (record { prefix_len = len; prefix = fresh_prefix bytes }) key depth
      ≡ some (onward (depth + len))
unfolding pass_prefix check_prefix
fork-passes len depth bytes key size agrees room = elim (Bool-cases (len == 0)) [
  | inl none_left ↦ rw none_left (ap (λ n. some (onward n)) (ground (arith, none_left)))
  | inr more ↦
      let deep : ltb (length key) (depth + len) ≡ false = ground arith in
      rw
        (
          more,
          take-append (stored len) bytes (replicate (10 - length bytes) 0) size,
          agrees,
          eq→== (stored len) (stored len) refl,
          deep,
        )
        refl
]

module _ {ℓ} {V : Type ℓ} where
  search-child :
      (p len depth : ℕ) (bytes : List ℕ) (b c : ℕ) (l n : Leaf V) (key : Key)
      → pass_prefix (record { prefix_len = len; prefix = fresh_prefix bytes }) key depth
        ≡ some (onward (depth + len))
      → b ≢ c
      → (byte_at key (depth + len) ≡ some b
          → search_node (fork p len bytes b (leaf l) c n) key depth
            ≡ some (if str_eq l.key key then l.value else none))
        × (byte_at key (depth + len) ≡ some c
            → search_node (fork p len bytes b (leaf l) c n) key depth
              ≡ some (if str_eq n.key key then n.value else none))
  unfolding search_node find_child key_index
  search-child p len depth bytes b c l n key past apart =
      let first : (b == b) ≡ true = eq→== b b refl in
      let other : (b == c) ≡ false = ne→==_false b c apart in
      let second : (c == c) ≡ true = eq→== c c refl in
      ((λ here. rw (past, here, first) refl), (λ here. rw (past, here, other, second) refl))

  -- A new node over a leaf and that of another key, with the bytes as its prefix that the two keys share
  -- behind a depth, is there, and a search from that depth finds the value of each under its key.
  pub fork-finds :
      (p depth : ℕ) (l n : Leaf V) (b c : ℕ)
      → let i = shared l.key n.key in
        depth ≤ i
        → byte_at l.key i ≡ some b
        → byte_at n.key i ≡ some c
        → b ≢ c
        → (bytes : List ℕ) × (bytes_from n.key depth (stored (i - depth)) ≡ some bytes)
          × (search_node (fork p (i - depth) bytes b (leaf l) c n) n.key depth ≡ some n.value)
          × (search_node (fork p (i - depth) bytes b (leaf l) c n) l.key depth ≡ some l.value)
  fork-finds p depth l n b c below at_l at_n apart =
      let i = shared l.key n.key in
      let len = i - depth in
      let top : depth + len ≡ i = omega arith in
      let (room_l, room_n) = shared-length l.key n.key in
      let short : stored len ≤ len = ground arith in
      let (bytes, read, size, same) =
        bytes_from-matched (stored len) n.key l.key depth (omega arith)
          (λ j g k. sym (byte_at-shared l.key n.key j (omega arith))) in
      let (bytes', read', size', same') =
        bytes_from-matched (stored len) n.key n.key depth (omega arith) (λ j g k. refl) in
      let one : bytes' ≡ bytes = cc (read, read') in
      let agrees : matched bytes n.key depth ≡ some (stored len) =
        subst (λ t. matched t n.key depth ≡ some (stored len)) one same' in
      let past_n = fork-passes len depth bytes n.key size agrees (omega arith) in
      let past_l = fork-passes len depth bytes l.key size same (omega arith) in
      (
        bytes,
        read,
        (search-child p len depth bytes b c l n n.key past_n apart).1
              (ap (byte_at n.key) top ∙ at_n)
            ∙ ap (λ t. some (if t then n.value else none)) (str_eq_refl n.key),
        (search-child p len depth bytes b c l n l.key past_l apart).0
              (ap (byte_at l.key) top ∙ at_l)
            ∙ ap (λ t. some (if t then l.value else none)) (str_eq_refl l.key),
      )
