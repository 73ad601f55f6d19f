-- ===== src/SkipList/Lower.antt =====
-- The loop of `remove` that lowers the level of the list.
use cdsa.Base.{
  ℕ, zero, suc, ◌≤◌, ◌<◌, ◌≡◌, refl, ap, ◌∙◌, Option, none, some, ◌⊎◌, inl, inr, Option-cases,
  arith,
}
use cdsa.SkipList.{Nodes, forward_at, lower_level}

module _ {ℓ} {S : Type ℓ} (nodes : Nodes S) (header : ℕ) (next : ℕ → Option ℕ) where
  -- The loop ends on a level from 1 on. If that is lower, no pointer leads on from the header there.
  pub lower_level-bounds :
      (k : ℕ)
      → 0 < k
      → ((j : ℕ) → j < k → forward_at nodes header j ≡ some (next j))
      → (l : ℕ) × (lower_level nodes header k ≡ some l)
        × (0 < l)
        × (l ≤ k)
        × ((l ≡ k) ⊎ (next l ≡ none))
  unfolding lower_level
  lower_level-bounds zero h reads = absurd (omega arith)
  lower_level-bounds (suc zero) h reads = (1, refl, omega arith, omega arith, inl refl)
  lower_level-bounds (suc (suc k)) h reads = elim (Option-cases (next (suc k))) [
    | inr (p, there) ↦ (
      suc (suc k),
      rw (reads (suc k) (omega arith), there) refl,
      omega arith,
      omega arith,
      inl refl,
    )
    | inl end ↦
        let (l, out, least, most, why) =
          lower_level-bounds (suc k) (omega arith) (λ j g. reads j (omega arith)) in
        (
          l,
          rw (reads (suc k) (omega arith), end) out,
          least,
          omega arith,
          elim why [ inl same ↦ inr (ap next same ∙ end) | inr below ↦ inr below ],
        )
  ]
