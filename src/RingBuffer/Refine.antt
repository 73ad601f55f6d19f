-- ===== src/RingBuffer/Refine.antt =====
-- A ring buffer in order behaves as the bounded deque of the elements that it holds.
use cdsa.Base.{
  ℕ, suc, ◌+◌, ◌-◌, ◌%◌, ◌<◌, ◌≡◌, ◌≢◌, ◌↔◌, refl, ap, ap₂, sym, ◌∙◌, Option, none, some, List, [],
  ◌∷◌, ◌++◌, length, set, length-set, cell, cell-set, add_size, eq→==, ne→==_false, arith,
}
use native.Mathlib.Nat.{mod-lt}
use native.Mathlib.Decide.{ℕ_discrete}
use cdsa.Error.{Status, ok, full, empty}
use cdsa.BoundedDeque.{
  Op, push_front, push_back, pop_front, pop_back, step, front, back, Reply, replies, back-snoc,
  step-pop_back_snoc,
}
use cdsa.RingBuffer.{
  RingBuffer, pushed_back, pushed_front, popped_front, popped_back, step_back, push_back_ringbuffer,
  push_front_ringbuffer, pop_front_ringbuffer, pop_back_ringbuffer, front_ringbuffer,
  back_ringbuffer,
}
use cdsa.RingBuffer.Window.{
  window, length-window, window-snoc, window-set, back_mod, back_then_forward, back_shift, shift,
}
use cdsa.RingBuffer.Inv.{IsValid, tail-lt, tail-forward, tail-back, head-forward, head-back}

module _ {ℓ} {A : Type ℓ} where
  -- The elements in use, front to back.
  abbrev pub contents : RingBuffer A → List (Option A)
  contents rb = window rb.capacity rb.cells rb.head rb.size

  pub length-contents : (rb : RingBuffer A) → length (contents rb) ≡ rb.size
  length-contents rb = length-window rb.capacity rb.cells rb.head rb.size

  -- The call of the library that an operation of the abstract deque stands for.
  unfoldable pub apply : Op A → RingBuffer A → Status × Option (RingBuffer A)
  apply (push_front x) rb = push_front_ringbuffer (some rb) (some x)
  apply (push_back x) rb = push_back_ringbuffer (some rb) (some x)
  apply pop_front rb = pop_front_ringbuffer (some rb)
  apply pop_back rb = pop_back_ringbuffer (some rb)

  -- A call returns the status of the abstract step, and leaves a buffer in order that holds the
  -- elements which the step leaves.
  abbrev pub Refines : RingBuffer A → Op A → Status × Option (RingBuffer A) → Type ℓ
  Refines rb op out =
      (s : Status) × (rb' : RingBuffer A) × (out ≡ (s, some rb'))
      × IsValid rb'
      × (step rb.capacity op (contents rb) ≡ (s, contents rb'))
      × (rb'.capacity ≡ rb.capacity)

  contents-split :
      (rb : RingBuffer A)
      → 0 < rb.size
      → contents rb
        ≡ cell rb.cells rb.head
          ∷ window rb.capacity rb.cells ((rb.head + 1) % rb.capacity) (rb.size - 1)
  contents-split rb h =
      ap (λ n. window rb.capacity rb.cells rb.head n) {y = suc (rb.size - 1)} (omega arith)

  contents-snoc :
      (rb : RingBuffer A)
      → IsValid rb
      → 0 < rb.size
      → contents rb
        ≡ window rb.capacity rb.cells rb.head (rb.size - 1)
          ++ cell rb.cells ((rb.head + (rb.size - 1)) % rb.capacity) ∷ []
  contents-snoc rb v h =
      ap (λ n. window rb.capacity rb.cells rb.head n) {y = suc (rb.size - 1)} (omega arith)
      ∙ window-snoc rb.capacity rb.cells rb.head (rb.size - 1) v.head_in

  module _ (rb : RingBuffer A) (v : IsValid rb) where
    grows : rb.size ≢ rb.capacity → add_size rb.size 1 ≡ suc rb.size
    grows h = omega (arith, v.within, v.roomy, v.some_room)

    written : (x : A) (i : ℕ) → i < rb.capacity → cell (set rb.cells i (some x)) i ≡ some x
    written x i h = ground (arith, cell-set rb.cells i i (some x), v.stored)

    pushed_back-IsValid : (x : A) → rb.size ≢ rb.capacity → IsValid (pushed_back rb x)
    pushed_back-IsValid x e = record {
      some_bytes = v.some_bytes;
      some_room = v.some_room;
      no_overflow = v.no_overflow;
      roomy = v.roomy;
      bytes = v.bytes;
      head_in = v.head_in;
      stored = length-set rb.cells rb.tail (some x) ∙ v.stored;
      within = rw (grows e) (omega (arith, v.within));
      linked = tail-forward rb v ∙ ap (λ n. (rb.head + n) % rb.capacity) (omega (arith, grows e));
    }

    contents-pushed_back :
        (x : A) → rb.size ≢ rb.capacity → contents (pushed_back rb x) ≡ contents rb ++ some x ∷ []
    contents-pushed_back x e =
        ap (λ n. window rb.capacity (set rb.cells rb.tail (some x)) rb.head n) (grows e)
        ∙ window-snoc rb.capacity (set rb.cells rb.tail (some x)) rb.head rb.size v.head_in
        ∙ ap₂ (λ xs y. xs ++ y ∷ [])
            (window-set rb.capacity rb.cells (some x) rb.head rb.size rb.size rb.tail v.stored
              v.head_in (omega arith) (omega (arith, v.within)) v.linked)
            (ap (cell (set rb.cells rb.tail (some x))) (sym v.linked)
              ∙ written x rb.tail (tail-lt rb v))

    push_back-Refines : (x : A) → Refines rb (push_back x) (push_back_ringbuffer (some rb) (some x))
    unfolding push_back_ringbuffer step
    push_back-Refines x = elim (ℕ_discrete rb.size rb.capacity) [
      | yes e ↦ (
        full,
        rb,
        rw (eq→== rb.size rb.capacity e) refl,
        v,
        rw (length-contents rb, eq→== rb.size rb.capacity e) refl,
        refl,
      )
      | no e ↦ (
        ok,
        pushed_back rb x,
        rw (ne→==_false rb.size rb.capacity e) refl,
        pushed_back-IsValid x e,
        rw (length-contents rb, ne→==_false rb.size rb.capacity e, contents-pushed_back x e) refl,
        refl,
      )
    ]

    pushed_front-IsValid : (x : A) → rb.size ≢ rb.capacity → IsValid (pushed_front rb x)
    pushed_front-IsValid x e = record {
      some_bytes = v.some_bytes;
      some_room = v.some_room;
      no_overflow = v.no_overflow;
      roomy = v.roomy;
      bytes = v.bytes;
      stored = length-set rb.cells (step_back rb rb.head) (some x) ∙ v.stored;
      head_in = mod-lt _ v.some_room;
      within = rw (grows e) (omega (arith, v.within));
      linked =
          v.linked
          ∙ sym (back_shift rb.capacity rb.head rb.size v.head_in)
          ∙ ap₂ (λ h n. (h + n) % rb.capacity) (sym (head-back rb v)) (sym (grows e));
    }

    contents-pushed_front :
        (x : A) → rb.size ≢ rb.capacity → contents (pushed_front rb x) ≡ some x ∷ contents rb
    contents-pushed_front x e =
        let h' = step_back rb rb.head in
        let cells' = set rb.cells h' (some x) in
        let came = head-back rb v in
        ap (λ n. window rb.capacity cells' h' n) (grows e)
        ∙ ap₂ ◌∷◌ (written x h' (mod-lt _ v.some_room)) (
            ap (λ h. window rb.capacity cells' h rb.size)
              (ap (λ h. (h + 1) % rb.capacity) came
                ∙ back_then_forward rb.capacity rb.head v.head_in)
            ∙ window-set rb.capacity rb.cells (some x) rb.head rb.size (rb.capacity - 1) h' v.stored
                v.head_in (omega (arith, v.within, e)) (omega (arith, v.some_room))
                (came ∙ back_mod rb.head rb.capacity v.head_in))

    push_front-Refines :
        (x : A) → Refines rb (push_front x) (push_front_ringbuffer (some rb) (some x))
    unfolding push_front_ringbuffer step
    push_front-Refines x = elim (ℕ_discrete rb.size rb.capacity) [
      | yes e ↦ (
        full,
        rb,
        rw (eq→== rb.size rb.capacity e) refl,
        v,
        rw (length-contents rb, eq→== rb.size rb.capacity e) refl,
        refl,
      )
      | no e ↦ (
        ok,
        pushed_front rb x,
        rw (ne→==_false rb.size rb.capacity e) refl,
        pushed_front-IsValid x e,
        rw (length-contents rb, ne→==_false rb.size rb.capacity e, contents-pushed_front x e) refl,
        refl,
      )
    ]

    contents-nil : rb.size ≡ 0 → contents rb ≡ []
    contents-nil e = ap (λ n. window rb.capacity rb.cells rb.head n) e

    popped_front-IsValid : 0 < rb.size → IsValid (popped_front rb)
    popped_front-IsValid h = record {
      some_bytes = v.some_bytes;
      some_room = v.some_room;
      no_overflow = v.no_overflow;
      roomy = v.roomy;
      bytes = v.bytes;
      stored = v.stored;
      head_in = mod-lt _ v.some_room;
      within = omega (arith, v.within);
      linked =
          v.linked
          ∙ ap (λ n. (rb.head + n) % rb.capacity) {y = suc (rb.size - 1)} (omega arith)
          ∙ shift rb.capacity rb.head (rb.size - 1)
          ∙ ap (λ i. (i + (rb.size - 1)) % rb.capacity) (sym (head-forward rb v));
    }

    pop_front-Refines : Refines rb pop_front (pop_front_ringbuffer (some rb))
    unfolding pop_front_ringbuffer step
    pop_front-Refines = elim (ℕ_discrete rb.size 0) [
      | yes e ↦ (empty, rb, rw (eq→== rb.size 0 e) refl, v, rw (contents-nil e) refl, refl)
      | no e ↦
          let pos : 0 < rb.size = omega arith in
          (
            ok,
            popped_front rb,
            rw (ne→==_false rb.size 0 e) refl,
            popped_front-IsValid pos,
            rw (contents-split rb pos, head-forward rb v) refl,
            refl,
          )
    ]

    popped_back-IsValid : 0 < rb.size → IsValid (popped_back rb)
    popped_back-IsValid h = record {
      some_bytes = v.some_bytes;
      some_room = v.some_room;
      no_overflow = v.no_overflow;
      roomy = v.roomy;
      bytes = v.bytes;
      stored = v.stored;
      head_in = v.head_in;
      within = omega (arith, v.within);
      linked = tail-back rb v h;
    }

    pop_back-Refines : Refines rb pop_back (pop_back_ringbuffer (some rb))
    unfolding pop_back_ringbuffer
    pop_back-Refines = elim (ℕ_discrete rb.size 0) [
      | yes e ↦ (
        empty,
        rb,
        rw (eq→== rb.size 0 e) refl,
        v,
        rw (contents-nil e) (unfold step in refl),
        refl,
      )
      | no e ↦
          let pos : 0 < rb.size = omega arith in
          (
            ok,
            popped_back rb,
            rw (ne→==_false rb.size 0 e) refl,
            popped_back-IsValid pos,
            rw (contents-snoc rb v pos) (
                step-pop_back_snoc rb.capacity (window rb.capacity rb.cells rb.head (rb.size - 1))
                  _),
            refl,
          )
    ]

  -- Each of the four calls refines the abstract deque, on every branch.
  pub apply-Refines : (op : Op A) (rb : RingBuffer A) → IsValid rb → Refines rb op (apply op rb)
  unfolding apply
  apply-Refines (push_front x) rb v = push_front-Refines rb v x
  apply-Refines (push_back x) rb v = push_back-Refines rb v x
  apply-Refines pop_front rb v = pop_front-Refines rb v
  apply-Refines pop_back rb v = pop_back-Refines rb v

  -- What the pointer to an end leads to, if it is not NULL.
  abbrev pub peek : RingBuffer A → Option ℕ → Option A
  peek rb none = none
  peek rb (some i) = cell rb.cells i

  -- `front` and `back` point at the two ends of the contents, and are NULL for an empty buffer.
  pub ends_lem :
      (rb : RingBuffer A)
      → IsValid rb
      → (peek rb (front_ringbuffer (some rb)) ≡ front (contents rb))
        × (peek rb (back_ringbuffer (some rb)) ≡ back (contents rb))
        × (front_ringbuffer (some rb) ≡ none ↔ contents rb ≡ [])
        × (back_ringbuffer (some rb) ≡ none ↔ contents rb ≡ [])
  unfolding front_ringbuffer back_ringbuffer
  ends_lem rb v = elim (ℕ_discrete rb.size 0) [
    | yes e ↦
        let gone = contents-nil rb v e in
        rw (eq→== rb.size 0 e, gone) (refl, refl, (λ _. refl, λ _. refl), (λ _. refl, λ _. refl))
    | no e ↦
        let pos : 0 < rb.size = omega arith in
        let filled : contents rb ≢ [] = rw (contents-split rb pos) (λ q. cc q) in
        let last : cell rb.cells (step_back rb rb.tail) ≡ back (contents rb) =
          ap (cell rb.cells) (tail-back rb v pos)
          ∙ sym (back-snoc (window rb.capacity rb.cells rb.head (rb.size - 1)) _)
          ∙ ap back (sym (contents-snoc rb v pos)) in
        rw (ne→==_false rb.size 0 e) (
          ap front (sym (contents-split rb pos)),
          last,
          (λ q. absurd (cc q), λ q. absurd (filled q)),
          (λ q. absurd (cc q), λ q. absurd (filled q)),
        )
  ]

  abbrev answered :
      (RingBuffer A → List (Reply A)) → Status × Option (RingBuffer A) → List (Reply A)
  answered rest (s, none) = []
  answered rest (s, some rb) =
      (s, peek rb (front_ringbuffer (some rb)), peek rb (back_ringbuffer (some rb))) ∷ rest rb

  -- What a client sees of its calls on a buffer.
  pub run : List (Op A) → RingBuffer A → List (Reply A)
  run [] rb = []
  run (op ∷ ops) rb = answered (run ops) (apply op rb)

  -- No sequence of pushes and pops at either end, full and empty buffers included, tells a buffer in
  -- order from the abstract deque of its contents by statuses and ends.
  pub run_refines :
      (ops : List (Op A)) (rb : RingBuffer A)
      → IsValid rb
      → run ops rb ≡ replies rb.capacity ops (contents rb)
  unfolding run replies
  run_refines [] rb v = refl
  run_refines (op ∷ ops) rb v =
      let (s, rb', out, v', stepped, same) = apply-Refines op rb v in
      let (f, b, _, _) = ends_lem rb' v' in
      ap (answered (run ops)) out
      ∙ ap₂ ◌∷◌ (ap₂ {C = Reply A} (λ x y. (s, x, y)) f b)
          (run_refines ops rb' v' ∙ ap (λ n. replies n ops (contents rb')) same)
      ∙ ap (λ o. (o.0, front o.1, back o.1) ∷ replies rb.capacity ops o.1) {x = (s, contents rb')}
          (sym stepped)
