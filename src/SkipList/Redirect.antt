-- ===== src/SkipList/Redirect.antt =====
-- The loops that redirect the breadcrumbs' pointers: what becomes of one node.
use cdsa.Base.{
  ℕ, suc, ◌<◌, ◌≡◌, ◌≢◌, refl, ap, ◌∙◌, Bool-cases, ◌&&◌, Option, some, List, length, get_elem?,
  get_elem?-set, length-set, set, ltb, ◌==◌, ==→eq, if◌then◌else◌, inl, inr, arith,
}
use cdsa.SkipList.{SkipNode}

-- The breadcrumb of each level, and where its pointer is to lead.
module _ {ℓ} {S : Type ℓ} (mark : ℕ → ℕ) (to : ℕ → Option ℕ) where
  -- A node once the levels below `k` are redirected: on those of which it is the breadcrumb it leads
  -- where it is to, on the others where it did.
  abbrev pub RedirectedTo : ℕ → ℕ → SkipNode S → Option (SkipNode S) → Type ℓ
  RedirectedTo k p n o =
      (forward : List (Option ℕ)) × (o ≡ some (record n { forward = forward }))
      × (length forward ≡ length n.forward)
      × ((j : ℕ)
          → j < n.level
          → get_elem? forward j
            ≡ (if ltb j k && (mark j == p) then some (to j) else get_elem? n.forward j))

  pub redirect_other :
      (i p : ℕ) (n : SkipNode S) (o : Option (SkipNode S))
      → mark i ≢ p
      → RedirectedTo i p n o
      → RedirectedTo (suc i) p n o
  redirect_other i p n o ne (fw, out, size, at) = (
    fw,
    out,
    size,
    λ j h. elim (Bool-cases (j == i)) [
      | inl same ↦ let e = ==→eq j i same in at j h ∙ ground (arith, e, ap mark e)
      | inr other ↦ at j h ∙ ground arith
    ],
  )

  pub redirect_self :
      (i p : ℕ) (n : SkipNode S) (fw : List (Option ℕ))
      → mark i ≡ p
      → i < length fw
      → length fw ≡ length n.forward
      → ((j : ℕ)
          → j < n.level
          → get_elem? fw j
            ≡ (if ltb j i && (mark j == p) then some (to j) else get_elem? n.forward j))
      → RedirectedTo (suc i) p n (some (record n { forward = set fw i (to i) }))
  redirect_self i p n fw same inside size at = (
    set fw i (to i),
    refl,
    length-set fw i (to i) ∙ size,
    λ j h. get_elem?-set fw i j (to i) inside ∙ elim (Bool-cases (i == j)) [
      | inl here ↦ let e = ==→eq i j here in ground (arith, e, ap mark e, ap to e, same)
      | inr other ↦
          ap (λ c. if c then some (to i) else get_elem? fw j) other ∙ at j h ∙ ground arith
    ],
  )
