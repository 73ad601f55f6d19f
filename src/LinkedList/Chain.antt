-- ===== src/LinkedList/Chain.antt =====
-- What the calls do to the sequence of the list's elements, and to its size.
use cdsa.Base.{
  ◌%◌, ◌≡◌, refl, ◌⊎◌, inl, inr, Option, none, some, List, [], ◌∷◌, map, length, size_mod, add_size,
  arith,
}
use cdsa.Error.{Status, ok, oom, empty}
use cdsa.Allocator.{Memory, Pointer, malloc_track}
use cdsa.LinkedList.{
  Node, LinkedList, sizeof_node, with_node, with_payload, push_front_linkedlist,
  pop_front_linkedlist, front_linkedlist,
}

module _ {ℓ} {A : Type ℓ} where
  -- The elements, first to last.
  abbrev pub contents : LinkedList A → List A
  contents l = map (λ n. n.value) l.head

  -- The counter is the number of nodes, as far as a word can count.
  pub record IsCounted (l : LinkedList A) : Type ℓ where
    pub counted : l.size ≡ length l.head % size_mod

  abbrev pub PushedFront : LinkedList A → A → Status × Option (LinkedList A) × Memory → Type ℓ
  PushedFront l x out =
      ((l' : LinkedList A) × (m' : Memory) × (out ≡ (ok, some l', m'))
        × IsCounted l'
        × (contents l' ≡ x ∷ contents l)
        × (front_linkedlist (some l') ≡ some x)
        × (l'.version ≡ add_size l.version 1))
      ⊎ ((m' : Memory) × (out ≡ (oom, some l, m')))

  with_payload-PushedFront :
      (l : LinkedList A) (x : A) (n : Pointer) (r : Option Pointer × Memory)
      → IsCounted l
      → PushedFront l x (with_payload l x n r)
  unfolding front_linkedlist
  with_payload-PushedFront l x n (none, m) h = inr (_, refl)
  with_payload-PushedFront l x n (some d, m) h =
      inl (_, m, refl, record { counted = omega (arith, h.counted) }, refl, refl, refl)

  with_node-PushedFront :
      (l : LinkedList A) (x : A) (r : Option Pointer × Memory)
      → IsCounted l
      → PushedFront l x (with_node l x r)
  with_node-PushedFront l x (none, m) h = inr (m, refl)
  with_node-PushedFront l x (some n, m) h =
      with_payload-PushedFront l x n (malloc_track l.elem_size m) h

  -- On every branch: `push_front` puts the element first and counts it, or returns OOM and leaves the
  -- list as it was.
  pub push_front-PushedFront :
      (l : LinkedList A) (x : A) (m : Memory)
      → IsCounted l
      → PushedFront l x (push_front_linkedlist (some l) (some x) m)
  unfolding push_front_linkedlist
  push_front-PushedFront l x m h = with_node-PushedFront l x (malloc_track sizeof_node m) h

  -- How a pop ends, by the elements that the list holds.
  abbrev pub PoppedFront :
      LinkedList A → List A → Memory → Status × Option (LinkedList A) × Memory → Type ℓ
  PoppedFront l [] m out = out ≡ (empty, some l, m)
  PoppedFront l (x ∷ xs) m out =
      (l' : LinkedList A) × (m' : Memory) × (out ≡ (ok, some l', m'))
      × IsCounted l'
      × (contents l' ≡ xs)
      × (front_linkedlist (some l) ≡ some x)

  -- `pop_front` takes the first element, which `front` shows, off the list and counts it out; on an
  -- empty list it returns EMPTY and changes nothing.
  pub pop_front-PoppedFront :
      (l : LinkedList A) (m : Memory)
      → IsCounted l
      → PoppedFront l (contents l) m (pop_front_linkedlist (some l) m)
  unfolding pop_front_linkedlist front_linkedlist
  pop_front-PoppedFront l m h = go l.head h
    where
      go :
          (ns : List (Node A))
          → IsCounted (record l { head = ns })
          → let l' = record l { head = ns } in
            PoppedFront l' (contents l') m (pop_front_linkedlist (some l') m)
      go [] k = refl
      go (n ∷ ns) k = (_, _, refl, record { counted = omega (arith, k.counted) }, refl, refl)
