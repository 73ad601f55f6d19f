-- ===== src/SkipList/Search.antt =====
-- The search of a skip list finds, on each level, the last node in front of the place.
use cdsa.Base.{
  ℕ, zero, suc, ◌≤◌, ◌<◌, ◌≡◌, refl, sym, ap, ap₂, subst, ◌∙◌, Bool, true, false, some, List, [],
  ◌∷◌, ◌++◌, length, ltb, ltb→lt, inl, inr, Bool-cases, Option-cases, arith,
}
use cdsa.SkipList.{SkipNode, Nodes, forward_at, advance, descend}
use cdsa.SkipList.Names.{All}
use cdsa.SkipList.Chain.{
  height, first, Linked, Chain, forward_at-Linked, last_pos, crumb, crumb-tall, crumb-short,
  crumb-below,
}

module _ {ℓ} {S : Type ℓ} (nodes : Nodes S) (test : SkipNode S → Bool) where
  -- The test of a node that is there.
  abbrev pub Tests : Bool → ℕ → Type ℓ
  Tests b p = (n : SkipNode S) × (nodes p ≡ some n) × (test n ≡ b)

  module _ (after : List ℕ) (behind : All (Tests false) after) where
    first-Tests :
        (i : ℕ) (ps : List ℕ) {p : ℕ}
        → All (Tests false) ps
        → first nodes i ps ≡ some p
        → Tests false p
    first-Tests i [] h e = absurd (cc e)
    first-Tests i (q ∷ ps) {p} h e = elim (Bool-cases (ltb i (height nodes q))) [
      | inl tall ↦ let same : q ≡ p = cc (rw tall at e) in subst (Tests false) same h.0
      | inr short ↦ first-Tests i ps h.1 (rw short at e)
    ]

    -- One step of the walk on a level: on to the next node, or no further.
    on :
        (fuel i current p : ℕ)
        → forward_at nodes current i ≡ some (some p)
        → Tests true p
        → advance (suc fuel) nodes i test current ≡ advance fuel nodes i test p
    unfolding advance
    on fuel i current p e (n, held, passed) = rw (e, held, passed) refl

    stop :
        (fuel i current : ℕ)
        → forward_at nodes current i ≡ some (first nodes i after)
        → advance (suc fuel) nodes i test current ≡ some current
    unfolding advance
    stop fuel i current e = elim (Option-cases (first nodes i after)) [
      | inl end ↦ rw (e, end) refl
      | inr (p, there) ↦
          let (n, held, failed) = first-Tests i after behind there in
          rw (e, there, held, failed) refl
    ]

    -- The walk on a level ends at the last node in front of the place that stands on it.
    advance-crumb :
        (fuel i current : ℕ) (mid : List ℕ)
        → forward_at nodes current i ≡ some (first nodes i (mid ++ after))
        → Chain nodes (mid ++ after)
        → All (Tests true) mid
        → length mid < fuel
        → advance fuel nodes i test current ≡ some (crumb nodes i current mid).0
    advance-crumb zero i current mid e c b h = absurd (omega arith)
    advance-crumb (suc fuel) i current [] e c b h = stop fuel i current e
    advance-crumb (suc fuel) i current (q ∷ mid) e c b h =
        elim (Bool-cases (ltb i (height nodes q))) [
          | inl tall ↦
              on fuel i current q (rw tall at e) b.0
              ∙ advance-crumb fuel i q mid (forward_at-Linked nodes i c.0 (ltb→lt i _ tall)) c.1 b.1
                  (omega arith)
              ∙ ap (λ (r : ℕ × List ℕ). some r.0) (sym (crumb-tall nodes i current q mid tall))
          | inr short ↦
              advance-crumb (suc fuel) i current mid (rw short at e) c.1 b.1 (omega arith)
              ∙ ap some (sym (crumb-short nodes i current q mid short))
        ]

    -- A start and the stretch from it to the place.
    pub record IsStart (current : ℕ) (mid : List ℕ) : Type ℓ where
      pub linked : Linked nodes current (mid ++ after)
      pub chain : Chain nodes (mid ++ after)
      pub before : All (Tests true) mid

    last_pos-IsStart :
        (i : ℕ) (mid : List ℕ) {r : ℕ × List ℕ}
        → last_pos nodes i mid ≡ some r
        → Chain nodes (mid ++ after)
        → All (Tests true) mid
        → IsStart r.0 r.1 × (length r.1 ≤ length mid) × (i < height nodes r.0)
    last_pos-IsStart i [] e c b = absurd (cc e)
    last_pos-IsStart i (p ∷ mid) {r} e c b = elim (Option-cases (last_pos nodes i mid)) [
      | inr (t, rest) ↦
          let same : t ≡ r = cc (rw rest at e) in
          let (s, l, h) = last_pos-IsStart i mid (rest ∙ ap some same) c.1 b.1 in
          (s, omega (arith, l), h)
      | inl rest ↦ elim (Bool-cases (ltb i (height nodes p))) [
        | inr short ↦ absurd (cc (rw (rest, short) at e))
        | inl tall ↦
            let same : (p, mid) ≡ r = cc (rw (rest, tall) at e) in
            subst
              (λ (t : ℕ × List ℕ).
                IsStart t.0 t.1 × (length t.1 ≤ length (p ∷ mid)) × (i < height nodes t.0))
              same
              (record { linked = c.0; chain = c.1; before = b.1 }, omega arith, ltb→lt i _ tall)
      ]
    ]

    pub crumb-IsStart :
        (i current : ℕ) (mid : List ℕ)
        → IsStart current mid
        → i < height nodes current
        → let r = crumb nodes i current mid in
          IsStart r.0 r.1 × (length r.1 ≤ length mid) × (i < height nodes r.0)
    crumb-IsStart i current mid s h = elim (Option-cases (last_pos nodes i mid)) [
      | inl e ↦ rw e (s, omega arith, h)
      | inr (r, e) ↦ rw e (last_pos-IsStart i mid e s.chain s.before)
    ]

    -- The breadcrumbs of the levels below `k`, that of level 0 first.
    abbrev pub crumbs : ℕ → ℕ → List ℕ → List ℕ
    crumbs zero start mid = []
    crumbs (suc i) start mid = crumbs i start mid ++ (crumb nodes i start mid).0 ∷ []

    crumbs-below :
        (k j start : ℕ) (mid : List ℕ)
        → k ≤ suc j
        → crumbs k start mid ≡ crumbs k (crumb nodes j start mid).0 (crumb nodes j start mid).1
    crumbs-below zero j start mid h = refl
    crumbs-below (suc k) j start mid h =
        ap₂ (λ us (r : ℕ × List ℕ). us ++ r.0 ∷ []) (crumbs-below k j start mid (omega arith))
          (crumb-below nodes k j start mid (omega arith))

    -- Where the search ends on level 0.
    abbrev pub last_of : ℕ → ℕ → List ℕ → ℕ
    last_of zero start mid = start
    last_of (suc k) start mid = (crumb nodes 0 start mid).0

    -- The search from level `k - 1` down ends, and leaves as breadcrumbs, for each level, the last node
    -- in front of the place that stands on it.
    pub descend-crumbs :
        (k fuel current : ℕ) (mid : List ℕ)
        → IsStart current mid
        → k ≤ height nodes current
        → length mid < fuel
        → descend fuel nodes k test current ≡ some (crumbs k current mid, last_of k current mid)
    unfolding descend
    descend-crumbs zero fuel current mid s h f = refl
    descend-crumbs (suc i) fuel current mid s h f =
        let r = crumb nodes i current mid in
        let (s', l, h') = crumb-IsStart i current mid s (omega arith) in
        let here =
          advance-crumb fuel i current mid (forward_at-Linked nodes i s.linked (omega arith))
            s.chain s.before f in
        let below = descend-crumbs i fuel r.0 r.1 s' (omega arith) (omega (arith, l, f)) in
        rw (here, below)
          (ap₂ (λ us t. some (us ++ r.0 ∷ [], t)) (sym (crumbs-below i i current mid (omega arith)))
            (last-below i))
      where
        last-below :
            (i : ℕ)
            → last_of i (crumb nodes i current mid).0 (crumb nodes i current mid).1
              ≡ (crumb nodes 0 current mid).0
        last-below zero = refl
        last-below (suc k) =
            ap (λ (r : ℕ × List ℕ). r.0)
              (sym (crumb-below nodes 0 (suc k) current mid (omega arith)))
