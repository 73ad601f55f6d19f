-- ===== src/LinkedList/Life.antt =====
-- The life of a list, from `cdsa_create_linkedlist` through any calls to `cdsa_free_linkedlist`.
use cdsa.Base.{ℕ, ◌+◌, ◌<◌, ◌≡◌, refl, subst, Option, none, some, List, [], ◌∷◌, size_mod, arith}
use cdsa.Allocator.{Memory, Pointer, malloc_track, free_track}
use cdsa.Allocator.Telemetry.{Balanced, malloc_track-some, malloc_track-none, used-free_track}
use cdsa.LinkedList.{
  Node, LinkedList, sizeof_node, sizeof_linkedlist, made, create_linkedlist, with_node,
  with_payload, push_front_linkedlist, unlinked, pop_front_linkedlist, clear_linkedlist, free_chain,
  free_linkedlist,
}

-- A client's call.
pub data Call {ℓ} (A : Type ℓ) : Type ℓ where
  push : A → Call A
  pop : Call A
  clear : Call A

module _ {ℓ} {A : Type ℓ} where
  -- The bytes of the two blocks of each node.
  abbrev pub chain_bytes : List (Node A) → ℕ
  chain_bytes [] = 0
  chain_bytes (n ∷ rest) = n.node.size + n.payload.size + chain_bytes rest

  abbrev pub owned : LinkedList A → ℕ
  owned l = l.handle.size + chain_bytes l.head

  -- Each header in the chain holds a word.
  abbrev pub AreWords : List (Node A) → Type 0
  AreWords [] = Unit
  AreWords (n ∷ rest) = ((n.node.size < size_mod) × (n.payload.size < size_mod)) × AreWords rest

  -- The loop releases the whole chain.
  pub free_chain-Balanced :
      (ns : List (Node A)) (m : Memory)
      → AreWords ns
      → Balanced m (chain_bytes ns) (free_chain ns m) 0
  unfolding free_chain
  free_chain-Balanced [] m h = refl
  free_chain-Balanced (n ∷ rest) m h =
      let m₁ = free_track (some n.payload) m in
      omega (
        arith,
        used-free_track n.payload m,
        used-free_track n.node m₁,
        free_chain-Balanced rest (free_track (some n.node) m₁) h.1,
      )

  -- What holds all along: the counter stands above its first value by what the list owns.
  pub record Accounted (m₀ : Memory) (l : LinkedList A) (m : Memory) : Type 0 where
    pub handle : l.handle.size ≡ sizeof_linkedlist
    pub element : l.elem_size < size_mod
    pub words : AreWords l.head
    pub charged : Balanced m₀ 0 m (owned l)

  -- A call's list and memory are accounted for.
  abbrev pub Keeps : Memory → Option (LinkedList A) × Memory → Type 0
  Keeps m₀ (none, m) = ⊥
  Keeps m₀ (some l, m) = Accounted m₀ l m

  with_payload-Keeps :
      (m₀ m : Memory) (l : LinkedList A) (x : A) (n : Pointer) (r : Option Pointer × Memory)
      → Accounted m₀ l m
      → n.size ≡ sizeof_node
      → (m₁ : Memory) → Balanced m 0 m₁ sizeof_node
      → malloc_track l.elem_size m₁ ≡ r
      → Keeps m₀ (let (s, l', m') = with_payload l x n r in (l', m'))
  with_payload-Keeps m₀ m l x n (none, m₂) a k m₁ b e = record {
    handle = a.handle;
    element = a.element;
    words = a.words;
    charged =
        omega (arith, a.charged, k, b, malloc_track-none l.elem_size m₁ e, used-free_track n m₂);
  }
  with_payload-Keeps m₀ m l x n (some d, m₂) a k m₁ b e =
      let (size, used) = malloc_track-some l.elem_size m₁ e in
      record {
        handle = a.handle;
        element = a.element;
        words = ((omega (arith, k), omega (arith, size, a.element)), a.words);
        charged = omega (arith, a.charged, k, b, size, used);
      }

  with_node-Keeps :
      (m₀ m : Memory) (l : LinkedList A) (x : A) (r : Option Pointer × Memory)
      → Accounted m₀ l m
      → malloc_track sizeof_node m ≡ r
      → Keeps m₀ (let (s, l', m') = with_node l x r in (l', m'))
  with_node-Keeps m₀ m l x (none, m₁) a e = record {
    handle = a.handle;
    element = a.element;
    words = a.words;
    charged = omega (arith, a.charged, malloc_track-none sizeof_node m e);
  }
  with_node-Keeps m₀ m l x (some n, m₁) a e =
      let (size, used) = malloc_track-some sizeof_node m e in
      with_payload-Keeps m₀ m l x n (malloc_track l.elem_size m₁) a size m₁ (omega (arith, used))
        refl

  unlinked-Keeps :
      (m₀ m : Memory) (l : LinkedList A) (ns : List (Node A))
      → Accounted m₀ (record l { head = ns }) m
      → Keeps m₀ (let (s, l', m') = unlinked (record l { head = ns }) ns m in (l', m'))
  unlinked-Keeps m₀ m l [] a = a
  unlinked-Keeps m₀ m l (n ∷ rest) a = record {
    handle = a.handle;
    element = a.element;
    words = a.words.1;
    charged = omega (
      arith,
      a.charged,
      a.words.0,
      used-free_track n.payload m,
      used-free_track n.node (free_track (some n.payload) m),
    );
  }

  clear-Keeps :
      (m₀ m : Memory) (l : LinkedList A) → Accounted m₀ l m → Keeps m₀ (clear_linkedlist (some l) m)
  unfolding clear_linkedlist
  clear-Keeps m₀ m l a = record {
    handle = a.handle;
    element = a.element;
    words = tt;
    charged = omega (arith, a.charged, free_chain-Balanced l.head m a.words);
  }

  -- The list and the memory after a call, whatever its status.
  pub perform : Call A → LinkedList A → Memory → Option (LinkedList A) × Memory
  perform (push x) l m = let (s, l', m') = push_front_linkedlist (some l) (some x) m in (l', m')
  perform pop l m = let (s, l', m') = pop_front_linkedlist (some l) m in (l', m')
  perform clear l m = clear_linkedlist (some l) m

  perform-Keeps :
      (c : Call A) (m₀ m : Memory) (l : LinkedList A) → Accounted m₀ l m → Keeps m₀ (perform c l m)
  unfolding perform push_front_linkedlist pop_front_linkedlist
  perform-Keeps (push x) m₀ m l a = with_node-Keeps m₀ m l x (malloc_track sizeof_node m) a refl
  perform-Keeps pop m₀ m l a = unlinked-Keeps m₀ m l l.head a
  perform-Keeps clear m₀ m l a = clear-Keeps m₀ m l a

  abbrev then_run :
      (LinkedList A → Memory → Option (LinkedList A) × Memory)
      → Option (LinkedList A) × Memory
      → Option (LinkedList A) × Memory
  then_run rest (none, m) = (none, m)
  then_run rest (some l, m) = rest l m

  pub run : List (Call A) → LinkedList A → Memory → Option (LinkedList A) × Memory
  run [] l m = (some l, m)
  run (c ∷ cs) l m = then_run (run cs) (perform c l m)

  run-Keeps :
      (cs : List (Call A)) (m₀ m : Memory) (l : LinkedList A)
      → Accounted m₀ l m
      → Keeps m₀ (run cs l m)
  unfolding run
  run-Keeps [] m₀ m l a = a
  run-Keeps (c ∷ cs) m₀ m l a = go (perform c l m) (perform-Keeps c m₀ m l a) (run-Keeps cs m₀)
    where
      go :
          (r : Option (LinkedList A) × Memory)
          → Keeps m₀ r
          → ((n : Memory) (k : LinkedList A) → Accounted m₀ k n → Keeps m₀ (run cs k n))
          → Keeps m₀ (then_run (run cs) r)
      go (none, n) b rest = b
      go (some k, n) b rest = rest n k b

  made-Accounted :
      (es : ℕ) (m m' : Memory) (r : Option Pointer × Memory) {l : LinkedList A}
      → es < size_mod
      → malloc_track sizeof_linkedlist m ≡ r
      → made es r ≡ (some l, m')
      → Accounted m l m'
  made-Accounted es m m' (none, n) {l} h e f = absurd (cc f)
  made-Accounted es m m' (some p, n) {l} h e f =
      let (size, used) = malloc_track-some sizeof_linkedlist m e in
      let fresh : LinkedList A = record {
        handle = p;
        head = [];
        size = 0;
        elem_size = es;
        version = 0;
      } in
      let same_l : fresh ≡ l = ground (arith, f) in
      let same_m : n ≡ m' = ground (arith, f) in
      subst (λ k. Accounted m k m') same_l
        (subst (Accounted m fresh) same_m
          (record { handle = size; element = h; words = tt; charged = omega (arith, size, used) }))

  freed : Option (LinkedList A) × Memory → Memory
  freed (l, m) = free_linkedlist l m

  freed-restores :
      (m₀ : Memory) (r : Option (LinkedList A) × Memory)
      → m₀.used < size_mod
      → Keeps m₀ r
      → (freed r).used ≡ m₀.used
  unfolding freed free_linkedlist
  freed-restores m₀ (none, m) low a = absurd a
  freed-restores m₀ (some l, m) low a = omega (
    arith,
    a.handle,
    a.charged,
    free_chain-Balanced l.head m a.words,
    used-free_track l.handle (free_chain l.head m),
  )

  -- Nothing leaks: a list that was created, went through any sequence of pushes, served or refused,
  -- pops and clears, and was freed, leaves the counter as it was before.
  pub free_linkedlist_restores :
      (elem_size : ℕ) (m m' : Memory) (cs : List (Call A)) {l : LinkedList A}
      → elem_size < size_mod
      → m.used < size_mod
      → create_linkedlist elem_size m ≡ (some l, m')
      → let (l', m'') = run cs l m' in (free_linkedlist l' m'').used ≡ m.used
  unfolding create_linkedlist
  free_linkedlist_restores es m m' cs {l} h low e =
      let a = made-Accounted es m m' (malloc_track sizeof_linkedlist m) h refl e in
      unfold freed in freed-restores m (run cs l m') low (run-Keeps cs m m' l a)
