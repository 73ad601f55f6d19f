-- ===== src/SkipList/Splice.antt =====
-- The splice of a new node, level by level.
use cdsa.Base.{
  ℕ, zero, suc, ◌+◌, ◌<◌, ◌≡◌, ◌≢◌, refl, sym, ap, subst, ◌∙◌, false, ◌&&◌, Option, some, ◌>>=◌,
  List, [], ◌∷◌, length, get_elem?, get_elem?-set, length-set, set, ltb, ◌==◌, ==→eq, eq→==,
  ne→==_false, if◌then◌else◌, inl, inr, Bool-cases, arith,
}
use cdsa.SkipList.{SkipNode, Nodes, write, forward_at, set_forward, splice}
use cdsa.SkipList.Chain.{first, crumb}
use cdsa.SkipList.Redirect.{RedirectedTo, redirect_other, redirect_self}

module _ {ℓ} {S : Type ℓ} (nodes : Nodes S) (header new : ℕ) (before after : List ℕ)
    (fresh_node : SkipNode S) where
  -- The breadcrumb of a level.
  abbrev pub mark : ℕ → ℕ
  mark j = (crumb nodes j header before).0

  -- What has become of a node's pointers once the levels below `k` are spliced.
  abbrev pub Redirected : ℕ → ℕ → SkipNode S → Option (SkipNode S) → Type ℓ
  Redirected = RedirectedTo mark (λ j. some new)

  -- The levels below `k` are spliced.
  pub record IsSpliced (k : ℕ) (nodes' : Nodes S) : Type ℓ where
    pub others : (p : ℕ) (n : SkipNode S) → p ≢ new → nodes p ≡ some n → Redirected k p n (nodes' p)
    pub forward : List (Option ℕ)
    pub held : nodes' new ≡ some (record fresh_node { forward = forward })
    pub tall : length forward ≡ fresh_node.level
    pub leads : (j : ℕ) → j < k → get_elem? forward j ≡ some (first nodes j after)

  -- What the breadcrumb of a level is.
  pub record IsMark (i : ℕ) : Type ℓ where
    pub node : SkipNode S
    pub here : nodes (mark i) ≡ some node
    pub reaches : i < node.level
    pub full : length node.forward ≡ node.level
    pub beyond : get_elem? node.forward i ≡ some (first nodes i after)
    pub old : mark i ≢ new

  -- The step of the loop at a breadcrumb.
  module _ (i : ℕ) (nodes' : Nodes S) (m : IsMark i) (s : IsSpliced i nodes')
      (room : i < fresh_node.level) where
    redirected : Redirected i (mark i) m.node (nodes' (mark i))
    redirected = s.others (mark i) m.node m.old m.here

    next_node : Option ℕ
    next_node = first nodes i after

    reads : forward_at nodes' (mark i) i ≡ some (first nodes i after)
    unfolding forward_at
    reads =
        let (fw, out, size, at) = redirected in
        ap (λ o. o >>= λ n. get_elem? n.forward i) out ∙ at i m.reaches ∙ ground arith ∙ m.beyond

    abbrev own_written : SkipNode S
    own_written = record fresh_node { forward = set s.forward i (first nodes i after) }

    abbrev stage₁ : Nodes S
    stage₁ = write nodes' new (some own_written)

    writes₁ : set_forward nodes' new i (first nodes i after) ≡ some stage₁
    unfolding set_forward
    writes₁ =
        ap
          (λ o. o >>= λ n. some (
            write nodes' new (some (record n { forward = set n.forward i (first nodes i after) }))))
          s.held

    abbrev crumb_written : Option (SkipNode S)
    crumb_written = some (record (m.node) { forward = set redirected.0 i (some new) })

    abbrev stage₂ : Nodes S
    stage₂ = write stage₁ (mark i) crumb_written

    writes₂ : set_forward stage₁ (mark i) i (some new) ≡ some stage₂
    unfolding set_forward
    writes₂ =
        let (fw, out, size, at) = redirected in
        let apart : (mark i == new) ≡ false = ground (arith, m.old) in
        ap
          (λ o. o >>= λ n.
            some (write stage₁ (mark i) (some (record n { forward = set n.forward i (some new) }))))
          (ap (λ b. if b then some own_written else nodes' (mark i)) apart ∙ out)

    stage₂-IsSpliced : IsSpliced (suc i) stage₂
    stage₂-IsSpliced =
        let (fw, out, size, at) = redirected in
        record {
          others = λ p n ne held. elim (Bool-cases (p == mark i)) [
            | inl here ↦
                let e = ==→eq p (mark i) here in
                let same : m.node ≡ n = cc (sym m.here, held, ap nodes e) in
                subst (λ o. Redirected (suc i) p n o)
                  (sym (ap (λ b. if b then crumb_written else stage₁ p) here))
                  (subst
                    (λ t.
                      Redirected (suc i) p t
                        (some (record m.node { forward = set fw i (some new) })))
                    same
                    (redirect_self mark (λ t. some new) i p m.node fw (sym e)
                      (omega (arith, m.reaches, size, m.full)) size
                      (subst
                        (λ q.
                          (j : ℕ)
                          → j < m.node.level
                          → get_elem? fw j ≡ (
                              if ltb j i && (mark j == q)
                              then some (some new)
                              else get_elem? m.node.forward j))
                        (sym e) at)))
            | inr other ↦
                let apart : (p == new) ≡ false = ne→==_false p new ne in
                subst (λ o. Redirected (suc i) p n o)
                  (sym (
                    ap (λ b. if b then crumb_written else stage₁ p) other
                    ∙ ap (λ b. if b then some own_written else nodes' p) apart))
                  (redirect_other mark (λ t. some new) i p n (nodes' p) (ground (arith, other))
                    (s.others p n ne held))
          ];
          forward = set s.forward i (first nodes i after);
          held =
              ap (λ b. if b then crumb_written else stage₁ new)
                (ne→==_false new (mark i) (λ e. m.old (sym e)))
              ∙ ap (λ b. if b then some own_written else nodes' new) (eq→== new new refl);
          tall = length-set s.forward i (first nodes i after) ∙ s.tall;
          leads = λ j h.
              get_elem?-set s.forward i j (first nodes i after) (omega (arith, s.tall, room))
              ∙ elim (Bool-cases (i == j)) [
                | inl here ↦
                    ap (λ b. if b then some (first nodes i after) else get_elem? s.forward j) here
                    ∙ ap (λ t. some (first nodes t after)) (==→eq i j here)
                | inr other ↦
                    ap (λ b. if b then some (first nodes i after) else get_elem? s.forward j) other
                    ∙ s.leads j (ground arith)
              ];
        }

    splice-step : (us : List ℕ) → splice nodes' new i (mark i ∷ us) ≡ splice stage₂ new (suc i) us
    unfolding splice
    splice-step us =
        ap
          (λ o. o >>= λ next. set_forward nodes' new i next >>= λ a.
            set_forward a (mark i) i (some new) >>= λ b. splice b new (i + 1) us)
          reads
        ∙ ap (λ o. o >>= λ a. set_forward a (mark i) i (some new) >>= λ b. splice b new (i + 1) us)
            writes₁
        ∙ ap (λ o. o >>= λ b. splice b new (i + 1) us) writes₂
        ∙ ap (λ k. splice stage₂ new k us) (omega arith)

  -- The breadcrumbs from level `i` on, for `n` levels.
  abbrev pub marks : ℕ → ℕ → List ℕ
  marks i zero = []
  marks i (suc n) = mark i ∷ marks (suc i) n

  -- With the breadcrumbs of the search, the splice reads and writes no node that is not there, and
  -- ends with all the new node's levels spliced.
  pub splice-IsSpliced :
      (n i : ℕ) (nodes' : Nodes S)
      → ((j : ℕ) → j < fresh_node.level → IsMark j)
      → i + n ≡ fresh_node.level
      → IsSpliced i nodes'
      → (nodes'' : Nodes S) × (splice nodes' new i (marks i n) ≡ some nodes'')
        × IsSpliced fresh_node.level nodes''
  unfolding splice
  splice-IsSpliced zero i nodes' ms h s =
      (nodes', refl, subst (λ k. IsSpliced k nodes') (omega (arith, h)) s)
  splice-IsSpliced (suc n) i nodes' ms h s =
      let room : i < fresh_node.level = omega (arith, h) in
      let m = ms i room in
      let (nodes'', out, done) =
        splice-IsSpliced n (suc i) (stage₂ i nodes' m s room) ms (omega (arith, h))
          (stage₂-IsSpliced i nodes' m s room) in
      (nodes'', splice-step i nodes' m s room (marks (suc i) n) ∙ out, done)

  -- Before the loop: the new node is there with empty pointers.
  pub start-IsSpliced :
      length fresh_node.forward ≡ fresh_node.level → IsSpliced 0 (write nodes new (some fresh_node))
  start-IsSpliced size = record {
    others = λ p n ne held. (
      n.forward,
      ap (λ b. if b then some fresh_node else nodes p) (ne→==_false p new ne) ∙ held,
      refl,
      λ j h. ground arith,
    );
    forward = fresh_node.forward;
    held = ap (λ b. if b then some fresh_node else nodes new) (eq→== new new refl);
    tall = size;
    leads = λ j h. absurd (omega arith);
  }
