-- ===== src/Deque/Ends.antt =====
-- The deque against the abstract bounded deque.
use cdsa.Base.{ℕ, ◌≡◌, refl, sym, ap, ap₂, ◌∙◌, Option, none, some, List, [], ◌∷◌}
use cdsa.Error.{Status}
use cdsa.BoundedDeque
use cdsa.BoundedDeque.{Op, push_front, push_back, pop_front, pop_back, Reply, replies}
use cdsa.RingBuffer.{RingBuffer}
use cdsa.RingBuffer.Inv.{IsValid}
use cdsa.RingBuffer.Refine
use cdsa.RingBuffer.Refine.{contents, peek}
use cdsa.Deque.{
  Deque, routed, push_front_deque, push_back_deque, pop_front_deque, pop_back_deque, front_deque,
  back_deque,
}

module _ {ℓ} {A : Type ℓ} where
  -- The deque's call that an operation of the abstract deque stands for.
  unfoldable pub apply : Op A → Deque A → Status × Option (Deque A)
  apply (push_front x) d = push_front_deque (some d) (some x)
  apply (push_back x) d = push_back_deque (some d) (some x)
  apply pop_front d = pop_front_deque (some d)
  apply pop_back d = pop_back_deque (some d)

  abbrev pub look : Deque A → Option ℕ → Option A
  look d p = elim d.rb [ none ↦ none | some rb ↦ peek rb p ]

  abbrev answered : (Deque A → List (Reply A)) → Status × Option (Deque A) → List (Reply A)
  answered rest (s, none) = []
  answered rest (s, some d) =
      (s, look d (front_deque (some d)), look d (back_deque (some d))) ∷ rest d

  -- What a client sees of its calls on a deque: statuses, and both ends afterwards.
  pub run : List (Op A) → Deque A → List (Reply A)
  run [] d = []
  run (op ∷ ops) d = answered (run ops) (apply op d)

  apply-routed :
      (op : Op A) (d : Deque A) (rb : RingBuffer A)
      → d.rb ≡ some rb
      → apply op d ≡ routed d (Refine.apply op rb)
  unfolding apply Refine.apply push_front_deque push_back_deque pop_front_deque pop_back_deque
  apply-routed (push_front x) d rb e = rw e refl
  apply-routed (push_back x) d rb e = rw e refl
  apply-routed pop_front d rb e = rw e refl
  apply-routed pop_back d rb e = rw e refl

  -- No sequence of calls tells a deque on a buffer in order from the abstract bounded deque of its
  -- elements.
  pub run_deque_refines :
      (ops : List (Op A)) (d : Deque A) (rb : RingBuffer A)
      → d.rb ≡ some rb
      → IsValid rb
      → run ops d ≡ replies rb.capacity ops (contents rb)
  unfolding run replies front_deque back_deque
  run_deque_refines [] d rb e v = refl
  run_deque_refines (op ∷ ops) d rb e v =
      let (s, rb', out, v', stepped, same) = Refine.apply-Refines op rb v in
      let (f, b, _, _) = Refine.ends_lem rb' v' in
      ap (answered (run ops)) (apply-routed op d rb e ∙ ap (routed d) out)
      ∙ ap₂ ◌∷◌ (ap₂ {C = Reply A} (λ x y. (s, x, y)) f b) (
          run_deque_refines ops (record d { rb = some rb' }) rb' refl v'
          ∙ ap (λ n. replies n ops (contents rb')) same)
      ∙ ap (λ o. (o.0, BoundedDeque.front o.1, BoundedDeque.back o.1) ∷ replies rb.capacity ops o.1)
          {x = (s, contents rb')} (sym stepped)
