-- ===== src/PriorityQueue/Cells.antt =====
-- The vector behind a priority queue as a list of elements, all of them written.
use cdsa.Base.{
  ◌>>=◌, ℕ, zero, suc, ◌<◌, ◌≡◌, refl, sym, ap, ◌∙◌, Option, some, List, [], ◌∷◌, map, length, set,
  cell, get_elem?, ltb, inl, inr, Bool-cases, length-set, get_elem?-none, arith,
}
use cdsa.Error.{ok}
use cdsa.Vector.{Vector, get_vector, set_vector}
use cdsa.Vector.Inv.{IsValid}
use cdsa.Vector.Contents.{contents, length-contents, set_vector_lem, pointers_lem}
use cdsa.PriorityQueue.{load, exchange}

module _ {ℓ} {A : Type ℓ} where
  -- A vector in order whose elements, all written, are these.
  pub record Filled (v : Vector A) (xs : List A) : Type ℓ where
    pub valid : IsValid v
    pub holds : contents v ≡ map some xs

  pub length-map-some : (xs : List A) → length (map some xs) ≡ length xs
  length-map-some [] = refl
  length-map-some (x ∷ xs) = ap suc (length-map-some xs)

  get_elem?-map-some :
      (xs : List A) (i : ℕ) (x : Option A) → get_elem? (map some xs) i ≡ some x → get_elem? xs i ≡ x
  get_elem?-map-some [] i x h = ground arith
  get_elem?-map-some (y ∷ xs) zero x h = ground arith
  get_elem?-map-some (y ∷ xs) (suc i) x h = get_elem?-map-some xs i x h

  set-map-some :
      (xs : List A) (i : ℕ) (x : A) → set (map some xs) i (some x) ≡ map some (set xs i x)
  set-map-some [] i x = refl
  set-map-some (y ∷ xs) zero x = refl
  set-map-some (y ∷ xs) (suc i) x = ap (◌∷◌ (some y)) (set-map-some xs i x)

  pub size-Filled : {v : Vector A} {xs : List A} → Filled v xs → v.size ≡ length xs
  size-Filled {v} {xs} f = sym (length-contents v f.valid) ∙ ap length f.holds ∙ length-map-some xs

  -- What a pointer from `get` leads to.
  pub load-get_vector :
      {v : Vector A} {xs : List A} (i : ℕ)
      → Filled v xs
      → load v (get_vector (some v) i) ≡ get_elem? xs i
  unfolding load
  load-get_vector {v} {xs} i f =
      let (g, _, _, at) = pointers_lem v i f.valid in
      let size = size-Filled f in
      elim (Bool-cases (ltb i v.size)) [
        | inl inside ↦
            rw (g, inside)
              (sym (
                get_elem?-map-some xs i (cell v.cells i)
                  (ap (λ l. get_elem? l i) (sym f.holds) ∙ at (ground arith))))
        | inr outside ↦ rw (g, outside) (sym (get_elem?-none xs i (ground arith)))
      ]

  pub set_vector-Filled :
      {v : Vector A} {xs : List A} (i : ℕ) (x : A)
      → Filled v xs
      → i < length xs
      → (w : Vector A) × (set_vector (some v) i (some x) ≡ (ok, some w)) × Filled w (set xs i x)
  set_vector-Filled {v} {xs} i x f h =
      let (w, done, valid, same) =
        (set_vector_lem v i x f.valid).0 (omega (arith, h, size-Filled f)) in
      (
        w,
        done,
        record {
          valid = valid;
          holds = same ∙ ap (λ l. set l i (some x)) f.holds ∙ set-map-some xs i x;
        },
      )

  -- The two writes of a swap.
  pub exchange-Filled :
      {v : Vector A} {xs : List A} (i j : ℕ) (current target : A)
      → Filled v xs
      → i < length xs
      → j < length xs
      → (w : Vector A) × (exchange v i j current target ≡ some w)
        × Filled w (set (set xs i target) j current)
  unfolding exchange
  exchange-Filled {v} {xs} i j current target f hi hj =
      let (u, first, fu) = set_vector-Filled i target f hi in
      let (w, second, fw) =
        set_vector-Filled j current fu (omega (arith, hj, length-set xs i target)) in
      (
        w,
        ap (λ o. o.1 >>= λ u. (set_vector (some u) j (some current)).1) first
            ∙ ap (λ o. o.1) second,
        fw,
      )
