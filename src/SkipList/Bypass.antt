-- ===== src/SkipList/Bypass.antt =====
-- The bypass of a node, level by level, up to the first level that it does not stand on.
use cdsa.Base.{
  ℕ, zero, suc, ◌+◌, ◌≤◌, ◌<◌, ◌≡◌, ◌≢◌, refl, sym, ap, subst, ◌∙◌, true, false, ◌&&◌, Option, some,
  ◌>>=◌, List, [], ◌∷◌, get_elem?, set, ltb, lt→ltb, ◌==◌, ==→eq, eq→==, ne→==_false, if◌then◌else◌,
  inl, inr, Bool-cases, Option-cases, arith,
}
use cdsa.SkipList.{SkipNode, Nodes, write, forward_at, set_forward, bypass}
use cdsa.SkipList.Names.{All}
use cdsa.SkipList.Chain.{height, first, Linked, height-Linked}
use cdsa.SkipList.Redirect.{RedirectedTo, redirect_other, redirect_self}
use cdsa.SkipList.Splice.{mark, marks, IsMark}

module _ {ℓ} {S : Type ℓ} (nodes : Nodes S) (header new : ℕ) (before : List ℕ) (target : ℕ)
    (rest : List ℕ) (fresh_node : SkipNode S) (linked : Linked nodes target rest)
    (alone : All (λ q. q ≢ target) rest) where
  abbrev pub mark_of : ℕ → ℕ
  mark_of = mark nodes header new before (target ∷ rest) fresh_node

  abbrev Mark : ℕ → Type ℓ
  Mark = IsMark nodes header new before (target ∷ rest) fresh_node

  abbrev pub onward : ℕ → Option ℕ
  onward j = first nodes j rest

  -- The levels below `k` are bypassed.
  pub record IsBypassed (k : ℕ) (nodes' : Nodes S) : Type ℓ where
    pub each :
        (p : ℕ) (n : SkipNode S) → nodes p ≡ some n → RedirectedTo mark_of onward k p n (nodes' p)

  module _ (i : ℕ) (nodes' : Nodes S) (m : Mark i) (s : IsBypassed i nodes') where
    redirected : RedirectedTo mark_of onward i (mark_of i) m.node (nodes' (mark_of i))
    redirected = s.each (mark_of i) m.node m.here

    reads : forward_at nodes' (mark_of i) i ≡ some (first nodes i (target ∷ rest))
    unfolding forward_at
    reads =
        let (fw, out, size, at) = redirected in
        ap (λ o. o >>= λ n. get_elem? n.forward i) out ∙ at i m.reaches ∙ ground arith ∙ m.beyond

    -- The step of the loop at a level that the node stands on.
    module _ (stands : i < linked.held_node.level) where
      reads_target : forward_at nodes' (mark_of i) i ≡ some (some target)
      reads_target =
          let tall : ltb i (height nodes target) ≡ true =
            lt→ltb i _ (omega (arith, stands, height-Linked nodes linked)) in
          reads ∙ ap (λ b. some (if b then some target else first nodes i rest)) tall

      reads_onward : forward_at nodes' target i ≡ some (onward i)
      unfolding forward_at
      reads_onward =
          let (fw, out, size, at) = s.each target linked.held_node linked.held in
          ap (λ o. o >>= λ n. get_elem? n.forward i) out
          ∙ at i stands
          ∙ ground arith
          ∙ linked.leads i stands

      abbrev crumb_written : Option (SkipNode S)
      crumb_written = some (record (m.node) { forward = set redirected.0 i (onward i) })

      abbrev stage : Nodes S
      stage = write nodes' (mark_of i) crumb_written

      writes : set_forward nodes' (mark_of i) i (onward i) ≡ some stage
      unfolding set_forward
      writes =
          let (fw, out, size, at) = redirected in
          ap
            (λ o. o >>= λ n.
              some (
                write nodes' (mark_of i)
                  (some (record n { forward = set n.forward i (onward i) }))))
            out

      stage-IsBypassed : IsBypassed (suc i) stage
      stage-IsBypassed =
          let (fw, out, size, at) = redirected in
          record {
            each = λ p n held. elim (Bool-cases (p == mark_of i)) [
              | inl here ↦
                  let e = ==→eq p (mark_of i) here in
                  let same : m.node ≡ n = cc (sym m.here, held, ap nodes e) in
                  subst (λ o. RedirectedTo mark_of onward (suc i) p n o)
                    (sym (ap (λ b. if b then crumb_written else nodes' p) here))
                    (subst
                      (λ t.
                        RedirectedTo mark_of onward (suc i) p t
                          (some (record m.node { forward = set fw i (onward i) })))
                      same
                      (redirect_self mark_of onward i p m.node fw (sym e)
                        (omega (arith, m.reaches, size, m.full)) size
                        (subst
                          (λ q.
                            (j : ℕ)
                            → j < m.node.level
                            → get_elem? fw j ≡ (
                                if ltb j i && (mark_of j == q)
                                then some (onward j)
                                else get_elem? m.node.forward j))
                          (sym e) at)))
              | inr other ↦
                  subst (λ o. RedirectedTo mark_of onward (suc i) p n o)
                    (sym (ap (λ b. if b then crumb_written else nodes' p) other))
                    (redirect_other mark_of onward i p n (nodes' p) (ground (arith, other))
                      (s.each p n held))
            ];
          }

      bypass-step :
          (us : List ℕ) → bypass nodes' target i (mark_of i ∷ us) ≡ bypass stage target (suc i) us
      unfolding bypass
      bypass-step us =
          rw (reads_target, eq→== target target refl, reads_onward, writes)
            (ap (λ k. bypass stage target k us) (omega arith))

    first-apart :
        (ps : List ℕ) {q : ℕ} → All (λ t. t ≢ target) ps → first nodes i ps ≡ some q → q ≢ target
    first-apart [] h e = absurd (cc e)
    first-apart (p ∷ ps) {q} h e = elim (Bool-cases (ltb i (height nodes p))) [
      | inl tall ↦ let same : p ≡ q = cc (rw tall at e) in subst (λ t. t ≢ target) same h.0
      | inr short ↦ first-apart ps h.1 (rw short at e)
    ]

    -- The loop ends at a level that the node does not stand on.
    bypass-stop :
        (us : List ℕ)
        → linked.held_node.level ≤ i
        → bypass nodes' target i (mark_of i ∷ us) ≡ some nodes'
    unfolding bypass
    bypass-stop us above =
        let short : ltb i (height nodes target) ≡ false =
          ground (arith, height-Linked nodes linked) in
        let past = reads ∙ ap (λ b. some (if b then some target else first nodes i rest)) short in
        elim (Option-cases (first nodes i rest)) [
          | inl end ↦ rw (past, end) refl
          | inr (q, there) ↦
              rw (past, there, ne→==_false q target (first-apart rest alone there)) refl
        ]

  -- With the breadcrumbs of the search the bypass reads and writes no node that is not there, and ends
  -- with all the node's levels bypassed.
  pub bypass-IsBypassed :
      (n i : ℕ) (nodes' : Nodes S)
      → ((j : ℕ) → j < i + n → Mark j)
      → i ≤ linked.held_node.level
      → linked.held_node.level ≤ i + n
      → IsBypassed i nodes'
      → (nodes'' : Nodes S) × (bypass nodes' target i
            (marks nodes header new before (target ∷ rest) fresh_node i n)
          ≡ some nodes'')
        × IsBypassed linked.held_node.level nodes''
  unfolding bypass
  bypass-IsBypassed zero i nodes' ms h k s =
      (nodes', refl, subst (λ t. IsBypassed t nodes') (omega arith) s)
  bypass-IsBypassed (suc n) i nodes' ms h k s =
      let m = ms i (omega arith) in
      let us = marks nodes header new before (target ∷ rest) fresh_node (suc i) n in
      elim (Bool-cases (ltb i linked.held_node.level)) [
        | inl below ↦
            let stands : i < linked.held_node.level = ground (arith, below) in
            let (nodes'', out, done) =
              bypass-IsBypassed n (suc i) (stage i nodes' m s stands) (λ j g. ms j (omega arith))
                (omega arith) (omega arith) (stage-IsBypassed i nodes' m s stands) in
            (nodes'', bypass-step i nodes' m s stands us ∙ out, done)
        | inr above ↦
            let top : linked.held_node.level ≡ i = ground (arith, above) in
            (
              nodes',
              bypass-stop i nodes' m s us (omega arith),
              subst (λ t. IsBypassed t nodes') (sym top) s,
            )
      ]

  pub start-IsBypassed : IsBypassed 0 nodes
  start-IsBypassed = record { each = λ p n held. (n.forward, held, refl, λ j h. ground arith) }
