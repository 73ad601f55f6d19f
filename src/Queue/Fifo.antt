-- ===== src/Queue/Fifo.antt =====
-- First in, first out.
use cdsa.Base.{
  ℕ, zero, suc, ◌+◌, ◌≤◌, ◌<◌, ◌≡◌, refl, sym, ap, ap₂, false, ◌==◌, ◌∙◌, Option, none, some, List,
  [], ◌∷◌, ◌++◌, map, length, length-append, cell, ne→==_false, arith,
}
use mathlib.Core.List.{append-nil, append_assoc}
use cdsa.Error.{Status, ok}
use cdsa.BoundedDeque.{push_back, pop_front, step, front}
use cdsa.RingBuffer.{RingBuffer, front_ringbuffer}
use cdsa.RingBuffer.Inv.{IsValid}
use cdsa.RingBuffer.Refine.{contents, apply, apply-Refines, peek, ends_lem}
use cdsa.Queue.{Queue, enqueue, dequeue, front_queue}

module _ {ℓ} {A : Type ℓ} where
  -- The queue stands on a buffer in order that holds these elements, front first.
  abbrev pub Holds : ℕ → List (Option A) → Queue A → Type ℓ
  Holds capacity xs q =
      (rb : RingBuffer A) × (q.rb ≡ some rb)
      × IsValid rb
      × (contents rb ≡ xs)
      × (rb.capacity ≡ capacity)

  abbrev kept : Queue A → Status × Option (Queue A) → Queue A
  kept q (s, none) = q
  kept q (s, some q') = q'

  pub enqueue-Holds :
      (capacity : ℕ) (xs : List (Option A)) (q : Queue A) (x : A)
      → Holds capacity xs q
      → length xs < capacity
      → ((enqueue (some q) (some x)).0 ≡ ok)
        × Holds capacity (xs ++ some x ∷ []) (kept q (enqueue (some q) (some x)))
  unfolding enqueue apply step
  enqueue-Holds capacity xs q x (rb, e, v, c, n) h =
      let (s, rb', out, v', stepped, same) = apply-Refines (push_back x) rb v in
      let room : (length (contents rb) == rb.capacity) ≡ false =
        ne→==_false _ _ (rw (c, n) (λ k. omega (arith, k))) in
      let s_ok : ok ≡ s = ap (λ o. o.0) (rw room at stepped) in
      let grown : contents rb ++ some x ∷ [] ≡ contents rb' = ap (λ o. o.1) (rw room at stepped) in
      rw (e, out) (sym s_ok, (rb', refl, v', sym grown ∙ ap (λ l. l ++ some x ∷ []) c, same ∙ n))

  pub dequeue-Holds :
      (capacity : ℕ) (x : Option A) (xs : List (Option A)) (q : Queue A)
      → Holds capacity (x ∷ xs) q
      → ((dequeue (some q)).0 ≡ ok) × Holds capacity xs (kept q (dequeue (some q)))
  unfolding dequeue apply step
  dequeue-Holds capacity x xs q (rb, e, v, c, n) =
      let (s, rb', out, v', stepped, same) = apply-Refines pop_front rb v in
      let s_ok : ok ≡ s = ap (λ o. o.0) (rw c at stepped) in
      let rest : xs ≡ contents rb' = ap (λ o. o.1) (rw c at stepped) in
      rw (e, out) (sym s_ok, (rb', refl, v', sym rest, same ∙ n))

  -- The element that a pointer into the queue's storage leads to.
  abbrev pub read : Queue A → ℕ → Option A
  read q p = elim q.rb [ none ↦ none | some rb ↦ cell rb.cells p ]

  pub enqueue_all : List A → Queue A → Queue A
  enqueue_all [] q = q
  enqueue_all (x ∷ xs) q = enqueue_all xs (kept q (enqueue (some q) (some x)))

  abbrev drained : Queue A → List (Option A) → Option ℕ → List (Option A)
  drained q rest none = []
  drained q rest (some p) = read q p ∷ rest

  -- `while (n-- && (p = front(q))) { visit(*p); dequeue(q); }`
  pub drain : ℕ → Queue A → List (Option A)
  drain zero q = []
  drain (suc n) q = drained q (drain n (kept q (dequeue (some q)))) (front_queue (some q))

  front-Holds :
      (capacity : ℕ) (x : Option A) (xs : List (Option A)) (q : Queue A)
      → Holds capacity (x ∷ xs) q
      → (p : ℕ) × (front_queue (some q) ≡ some p) × (read q p ≡ x)
  unfolding front_queue
  front-Holds capacity x xs q (rb, e, v, c, n) =
      let (f, _, nil_iff, _) = ends_lem rb v in go (front_ringbuffer (some rb)) refl f nil_iff.0
    where
      go :
          (o : Option ℕ)
          → front_ringbuffer (some rb) ≡ o
          → peek rb (front_ringbuffer (some rb)) ≡ front (contents rb)
          → (front_ringbuffer (some rb) ≡ none → contents rb ≡ [])
          → (p : ℕ) × (front_queue (some q) ≡ some p) × (read q p ≡ x)
      go none o f nil = absurd (cc (sym c ∙ nil o))
      go (some p) o f nil = (p, rw e o, rw e (sym (ap (peek rb) o) ∙ f ∙ ap front c))

  drain-Holds :
      (capacity : ℕ) (xs : List (Option A)) (q : Queue A)
      → Holds capacity xs q
      → drain (length xs) q ≡ xs
  unfolding drain
  drain-Holds capacity [] q h = refl
  drain-Holds capacity (x ∷ xs) q h =
      let (p, at, value) = front-Holds capacity x xs q h in
      let rest = kept q (dequeue (some q)) in
      ap (drained q (drain (length xs) rest)) at
      ∙ ap₂ ◌∷◌ value (drain-Holds capacity xs rest (dequeue-Holds capacity x xs q h).1)

  enqueue_all-Holds :
      (capacity : ℕ) (ys : List A) (xs : List (Option A)) (q : Queue A)
      → Holds capacity xs q
      → length xs + length ys ≤ capacity
      → Holds capacity (xs ++ map some ys) (enqueue_all ys q)
  unfolding enqueue_all
  enqueue_all-Holds capacity [] xs q h k = rw append-nil h
  enqueue_all-Holds capacity (y ∷ ys) xs q h k =
      let next = (enqueue-Holds capacity xs q y h (omega arith)).1 in
      rw append_assoc at (
        enqueue_all-Holds capacity ys (xs ++ some y ∷ []) (kept q (enqueue (some q) (some y))) next
          (omega (arith, length-append xs (some y ∷ []))))

  -- First in, first out: elements enqueued on a queue that has room for them come out, by `front` and
  -- `dequeue`, behind what was there and in the order in which they went in.
  pub drain-enqueue_all :
      (capacity : ℕ) (xs : List (Option A)) (ys : List A) (q : Queue A)
      → Holds capacity xs q
      → length xs + length ys ≤ capacity
      → drain (length (xs ++ map some ys)) (enqueue_all ys q) ≡ xs ++ map some ys
  drain-enqueue_all capacity xs ys q h k =
      drain-Holds capacity (xs ++ map some ys) (enqueue_all ys q)
        (enqueue_all-Holds capacity ys xs q h k)
