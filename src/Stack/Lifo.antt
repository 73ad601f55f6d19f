-- ===== src/Stack/Lifo.antt =====
-- Last in, first out.
use cdsa.Base.{
  ℕ, ◌+◌, ◌-◌, ◌*◌, ◌<◌, ◌≡◌, refl, sym, ap, ◌∙◌, ◌⊎◌, inl, inr, Option, some, List, [], ◌∷◌, ◌++◌,
  cell, size_mod, ne→==_false, arith,
}
use cdsa.Error.{Status, ok, oom}
use cdsa.Allocator.{Memory}
use cdsa.BoundedDeque.{drop_last, back, drop_last-snoc, back-snoc}
use cdsa.Vector.{Vector, push_vector, back_vector}
use cdsa.Vector.Inv.{IsValid}
use cdsa.Vector.Contents.{contents, Pushed, push_vector-Pushed, pop_vector_lem}
use cdsa.Stack.{Stack, push_stack, pop_stack, top_stack}

module _ {ℓ} {A : Type ℓ} where
  -- What holds after a push of `x` that returned OK: `top` leads to `x`, and a pop takes it off and
  -- leaves the elements that were there before.
  pub record OnTop (v : Vector A) (x : A) (s : Stack A) : Type ℓ where
    pub vector : Vector A
    pub holds : s.vec ≡ some vector
    pub valid : IsValid vector
    pub top : (p : ℕ) × (top_stack (some s) ≡ some p) × (cell vector.cells p ≡ some x)
    pub under :
        (w : Vector A) × (pop_stack (some s) ≡ (ok, some (record s { vec = some w })))
        × IsValid w
        × (contents w ≡ contents v)

  top-of :
      (v w : Vector A) (x : A) (s : Stack A)
      → s.vec ≡ some w
      → IsValid w
      → contents w ≡ contents v ++ some x ∷ []
      → w.size ≡ v.size + 1
      → OnTop v x s
  unfolding top_stack pop_stack back_vector
  top-of v w x s e h c n =
      let (u, popped, ok_u, size, rest) = (pop_vector_lem w h).1 (omega arith) in
      let both = rest ∙ c in
      record {
        vector = w;
        holds = e;
        valid = h;
        top = (w.size - 1, rw e (rw (ne→==_false w.size 0 (omega arith)) refl), (snoc_inj both).1);
        under = (u, rw (e, popped) refl, ok_u, (snoc_inj both).0);
      }
    where
      snoc_inj :
          {xs ys : List (Option A)} {y z : Option A}
          → xs ++ y ∷ [] ≡ ys ++ z ∷ []
          → (xs ≡ ys) × (y ≡ z)
      snoc_inj {xs} {ys} {y} {z} q = (
        sym (drop_last-snoc xs y) ∙ ap drop_last q ∙ drop_last-snoc ys z,
        sym (back-snoc xs y) ∙ ap back q ∙ back-snoc ys z,
      )

  -- A push on a stack whose vector is in order, where the doubled storage does not overflow, either
  -- returns OK, and then the element is on top and a pop brings the old elements back, or returns
  -- OOM.
  pub push_stack_lem :
      (s : Stack A) (v : Vector A) (x : A) (m : Memory)
      → s.vec ≡ some v
      → IsValid v
      → v.capacity * 2 * v.elem_size < size_mod
      → ((s' : Stack A) × (m' : Memory) × (push_stack (some s) (some x) m ≡ (ok, some s', m'))
          × OnTop v x s')
        ⊎ ((s' : Stack A) × (m' : Memory) × (push_stack (some s) (some x) m ≡ (oom, some s', m')))
  unfolding push_stack
  push_stack_lem s v x m e h k = go (push_vector-Pushed v x m h k)
    where
      answer :
          {st : Status} {w : Vector A} {n : Memory}
          → push_vector (some v) (some x) m ≡ (st, some w, n)
          → push_stack (some s) (some x) m ≡ (st, some (record s { vec = some w }), n)
      answer q = rw (e, q) refl

      go :
          Pushed v x (push_vector (some v) (some x) m)
          → ((s' : Stack A) × (m' : Memory) × (push_stack (some s) (some x) m ≡ (ok, some s', m'))
              × OnTop v x s')
            ⊎ ((s' : Stack A) × (m' : Memory) × (push_stack (some s) (some x) m
                  ≡ (oom, some s', m')))
      go (inl (w, n, q, ok_w, c, size, _)) = inl (
        record s { vec = some w },
        n,
        answer q,
        top-of v w x (record s { vec = some w }) refl ok_w c size,
      )
      go (inr (w, n, q, _, _, _)) = inr (record s { vec = some w }, n, answer q)
