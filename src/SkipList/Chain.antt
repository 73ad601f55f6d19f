-- ===== src/SkipList/Chain.antt =====
-- The levels of a skip list: which node a pointer should lead to, and the last node of a stretch that
-- stands on a level.
use cdsa.Base.{
  ℕ, ◌≤◌, ◌<◌, ◌≡◌, refl, ap, subst, ◌∙◌, true, false, Option, none, some, List, [], ◌∷◌, ◌++◌,
  length, get_elem?, ltb, if◌then◌else◌, inl, inr, Bool-cases, Option-cases, arith,
}
use cdsa.SkipList.{SkipNode, Nodes, forward_at}
use cdsa.SkipList.Names.{All}

abbrev pub or_else : Option ℕ → Option ℕ → Option ℕ
or_else none o = o
or_else (some p) o = some p

abbrev pub or_start : ℕ → List ℕ → Option (ℕ × List ℕ) → ℕ × List ℕ
or_start start ps none = (start, ps)
or_start start ps (some r) = r

abbrev pub height_of {ℓ} : {S : Type ℓ} → Option (SkipNode S) → ℕ
height_of none = 0
height_of (some n) = n.level

module _ {ℓ} {S : Type ℓ} (nodes : Nodes S) where
  -- On how many levels a node stands.
  abbrev pub height : ℕ → ℕ
  height p = height_of (nodes p)

  -- The first node that stands on a level: what a pointer of that level leads to.
  abbrev pub first : ℕ → List ℕ → Option ℕ
  first i [] = none
  first i (p ∷ ps) = if ltb i (height p) then some p else first i ps

  -- The node's pointers lead, on each of its levels, to the first node behind it there.
  pub record Linked (p : ℕ) (ps : List ℕ) : Type ℓ where
    pub held_node : SkipNode S
    pub held : nodes p ≡ some held_node
    pub tall : length held_node.forward ≡ held_node.level
    pub based : 0 < held_node.level
    pub leads : (i : ℕ) → i < held_node.level → get_elem? held_node.forward i ≡ some (first i ps)

  abbrev pub Chain : List ℕ → Type ℓ
  Chain [] = Unit
  Chain (p ∷ ps) = Linked p ps × Chain ps

  pub height-Linked : {p : ℕ} {ps : List ℕ} (l : Linked p ps) → height p ≡ l.held_node.level
  height-Linked l = ap height_of l.held

  pub forward_at-Linked :
      {p : ℕ} {ps : List ℕ} (i : ℕ)
      → Linked p ps
      → i < height p
      → forward_at nodes p i ≡ some (first i ps)
  unfolding forward_at
  forward_at-Linked i l h = rw l.held (l.leads i (omega (arith, h, height-Linked l)))

  pub Chain-append_right : (ps qs : List ℕ) → Chain (ps ++ qs) → Chain qs
  Chain-append_right [] qs c = c
  Chain-append_right (p ∷ ps) qs c = Chain-append_right ps qs c.1

  -- The last node of a stretch that stands on a level, and those behind it.
  abbrev pub last_pos : ℕ → List ℕ → Option (ℕ × List ℕ)
  last_pos i [] = none
  last_pos i (p ∷ ps) = elim (last_pos i ps) [
    | some r ↦ some r
    | none ↦ if ltb i (height p) then some (p, ps) else none
  ]

  -- The breadcrumb of a level: the last node on it, or else the start of the stretch.
  abbrev pub crumb : ℕ → ℕ → List ℕ → ℕ × List ℕ
  crumb i start ps = or_start start ps (last_pos i ps)

  pub last_pos-none :
      (i : ℕ) (ps qs : List ℕ) → last_pos i ps ≡ none → first i (ps ++ qs) ≡ first i qs
  last_pos-none i [] qs e = refl
  last_pos-none i (p ∷ ps) qs e = elim (Option-cases (last_pos i ps)) [
    | inl rest ↦ elim (Bool-cases (ltb i (height p))) [
      | inl tall ↦ absurd (cc (rw (rest, tall) at e))
      | inr short ↦ rw short (last_pos-none i ps qs rest)
    ]
    | inr (r, rest) ↦ absurd (cc (rw rest at e))
  ]

  -- Where a node stands on the level, the pointers do not lead past the stretch.
  pub last_pos-some :
      (i : ℕ) (ps qs rs : List ℕ) {r : ℕ × List ℕ}
      → last_pos i ps ≡ some r
      → first i (ps ++ qs) ≡ first i (ps ++ rs)
  last_pos-some i [] qs rs e = absurd (cc e)
  last_pos-some i (p ∷ ps) qs rs {r} e = elim (Bool-cases (ltb i (height p))) [
    | inl tall ↦ rw tall refl
    | inr short ↦ elim (Option-cases (last_pos i ps)) [
      | inl rest ↦ absurd (cc (rw (rest, short) at e))
      | inr (t, rest) ↦ rw short (last_pos-some i ps qs rs rest)
    ]
  ]

  -- What stands on a level stands on those below.
  pub last_pos-below :
      (i j : ℕ) (ps : List ℕ) {r : ℕ × List ℕ}
      → i ≤ j
      → last_pos j ps ≡ some r
      → (t : ℕ × List ℕ) × (last_pos i ps ≡ some t)
  last_pos-below i j [] h e = absurd (cc e)
  last_pos-below i j (p ∷ ps) h e = elim (Option-cases (last_pos j ps)) [
    | inr (t, rest) ↦ let (u, lower) = last_pos-below i j ps h rest in (u, rw lower refl)
    | inl rest ↦ elim (Bool-cases (ltb j (height p))) [
      | inr short ↦ absurd (cc (rw (rest, short) at e))
      | inl tall ↦
          let stands : ltb i (height p) ≡ true = ground arith in
          elim (Option-cases (last_pos i ps)) [
            | inl none_left ↦ ((p, ps), rw (none_left, stands) refl)
            | inr (u, lower) ↦ (u, rw lower refl)
          ]
    ]
  ]

  pub crumb-tall :
      (i start p : ℕ) (ps : List ℕ)
      → ltb i (height p) ≡ true
      → crumb i start (p ∷ ps) ≡ crumb i p ps
  crumb-tall i start p ps tall = elim (Option-cases (last_pos i ps)) [
    | inl rest ↦ rw (rest, tall) refl
    | inr (r, rest) ↦ rw rest refl
  ]

  pub crumb-short :
      (i start p : ℕ) (ps : List ℕ)
      → ltb i (height p) ≡ false
      → (crumb i start (p ∷ ps)).0 ≡ (crumb i start ps).0
  crumb-short i start p ps short = elim (Option-cases (last_pos i ps)) [
    | inl rest ↦ rw (rest, short) refl
    | inr (r, rest) ↦ rw rest refl
  ]

  -- The breadcrumb of a level can be looked for from that of a level above.
  pub crumb-below :
      (i j start : ℕ) (ps : List ℕ)
      → i ≤ j
      → crumb i start ps ≡ crumb i (crumb j start ps).0 (crumb j start ps).1
  crumb-below i j start [] h = refl
  crumb-below i j start (p ∷ ps) h = elim (Option-cases (last_pos j ps)) [
    | inr (r, rest) ↦
        let (t, lower) = last_pos-below i j ps h rest in
        let at_p : crumb i p ps ≡ crumb i r.0 r.1 = rw rest at (crumb-below i j p ps h) in
        rw (rest, lower) (rw lower at at_p)
    | inl rest ↦ elim (Bool-cases (ltb j (height p))) [
      | inr short ↦ rw (rest, short) refl
      | inl tall ↦ rw (rest, tall) (crumb-tall i start p ps (ground arith))
    ]
  ]

  -- Behind the last node on a level there is none.
  pub last_pos-rest :
      (i : ℕ) (ps : List ℕ) {r : ℕ × List ℕ} → last_pos i ps ≡ some r → last_pos i r.1 ≡ none
  last_pos-rest i [] e = absurd (cc e)
  last_pos-rest i (p ∷ ps) {r} e = elim (Option-cases (last_pos i ps)) [
    | inr (t, rest) ↦
        let same : t ≡ r = cc (rw rest at e) in last_pos-rest i ps (rest ∙ ap some same)
    | inl rest ↦ elim (Bool-cases (ltb i (height p))) [
      | inr short ↦ absurd (cc (rw (rest, short) at e))
      | inl tall ↦
          let same : (p, ps) ≡ r = cc (rw (rest, tall) at e) in
          subst (λ (t : ℕ × List ℕ). last_pos i t.1 ≡ none) same rest
    ]
  ]

  pub last_pos-All {κ} :
      (P : ℕ → Type κ) (i : ℕ) (ps : List ℕ) {r : ℕ × List ℕ}
      → last_pos i ps ≡ some r
      → All P ps
      → P r.0
  last_pos-All P i [] e h = absurd (cc e)
  last_pos-All P i (p ∷ ps) {r} e h = elim (Option-cases (last_pos i ps)) [
    | inr (t, rest) ↦
        let same : t ≡ r = cc (rw rest at e) in last_pos-All P i ps (rest ∙ ap some same) h.1
    | inl rest ↦ elim (Bool-cases (ltb i (height p))) [
      | inr short ↦ absurd (cc (rw (rest, short) at e))
      | inl tall ↦ let same : p ≡ r.0 = cc (rw (rest, tall) at e) in subst P same h.0
    ]
  ]

  pub first-last_pos : (i : ℕ) (ps : List ℕ) → last_pos i ps ≡ none → first i ps ≡ none
  first-last_pos i [] e = refl
  first-last_pos i (p ∷ ps) e = elim (Option-cases (last_pos i ps)) [
    | inr (t, rest) ↦ absurd (cc (rw rest at e))
    | inl rest ↦ elim (Bool-cases (ltb i (height p))) [
      | inl tall ↦ absurd (cc (rw (rest, tall) at e))
      | inr short ↦ rw short (first-last_pos i ps rest)
    ]
  ]

  pub crumb-none : (i start : ℕ) (ps : List ℕ) → last_pos i (crumb i start ps).1 ≡ none
  crumb-none i start ps = elim (Option-cases (last_pos i ps)) [
    | inl e ↦ rw e e
    | inr (r, e) ↦ rw e (last_pos-rest i ps e)
  ]

  pub last_pos-first :
      (i : ℕ) (ps : List ℕ) {r : ℕ × List ℕ}
      → last_pos i ps ≡ some r
      → (p : ℕ) × (first i ps ≡ some p)
  last_pos-first i [] e = absurd (cc e)
  last_pos-first i (p ∷ ps) e = elim (Bool-cases (ltb i (height p))) [
    | inl tall ↦ (p, rw tall refl)
    | inr short ↦ elim (Option-cases (last_pos i ps)) [
      | inl rest ↦ absurd (cc (rw (rest, short) at e))
      | inr (t, rest) ↦ let (q, there) = last_pos-first i ps rest in (q, rw short there)
    ]
  ]

  pub crumb-All {κ} :
      (P : ℕ → Type κ) (i start : ℕ) (ps : List ℕ) → P start → All P ps → P (crumb i start ps).0
  crumb-All P i start ps h k = elim (Option-cases (last_pos i ps)) [
    | inl e ↦ rw e h
    | inr (r, e) ↦ rw e (last_pos-All P i ps e k)
  ]

  pub first-append :
      (i : ℕ) (ps qs : List ℕ) → first i (ps ++ qs) ≡ or_else (first i ps) (first i qs)
  first-append i [] qs = refl
  first-append i (p ∷ ps) qs = elim (Bool-cases (ltb i (height p))) [
    | inl tall ↦ rw tall refl
    | inr short ↦ rw short (first-append i ps qs)
  ]
