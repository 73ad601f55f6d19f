-- ===== src/SkipList/Relink.antt =====
-- After the splice the pointers lead along the list with the new node in its place.
use cdsa.Base.{
  ℕ, ◌<◌, ◌≡◌, ◌≢◌, refl, sym, ap, ◌∙◌, true, false, ◌&&◌, some, List, [], ◌∷◌, ◌++◌, get_elem?,
  ltb, lt→ltb, ◌==◌, eq→==, ne→==_false, if◌then◌else◌, inl, inr, Bool-cases, Option-cases, arith,
}
use cdsa.SkipList.{SkipNode, Nodes}
use cdsa.SkipList.Names.{All, IsDistinct}
use cdsa.SkipList.Chain.{
  height_of, height, first, Linked, Chain, height-Linked, last_pos, or_start, last_pos-first,
  last_pos-All, first-last_pos, or_else, first-append,
}
use cdsa.SkipList.Splice.{mark, IsSpliced}

module _ {ℓ} {S : Type ℓ} (nodes nodes' : Nodes S) (header new : ℕ) (before after : List ℕ)
    (fresh_node : SkipNode S) (based : 0 < fresh_node.level)
    (s : IsSpliced nodes header new before after fresh_node fresh_node.level nodes') where
  abbrev top : ℕ
  top = fresh_node.level

  abbrev mark_of : ℕ → ℕ
  mark_of = mark nodes header new before after fresh_node

  -- An old node.
  abbrev pub IsOld : ℕ → Type ℓ
  IsOld p = (p ≢ new) × ((n : SkipNode S) × (nodes p ≡ some n))

  pub height-IsOld : (p : ℕ) → IsOld p → height nodes' p ≡ height nodes p
  height-IsOld p (ne, (n, held)) =
      let (fw, out, _, _) = s.others p n ne held in ap height_of out ∙ sym (ap height_of held)

  pub height-new : height nodes' new ≡ top
  height-new = ap height_of s.held

  first-old :
      (j : ℕ) (ps qs : List ℕ)
      → All IsOld ps
      → first nodes' j (ps ++ qs) ≡ or_else (first nodes j ps) (first nodes' j qs)
  first-old j [] qs h = refl
  first-old j (p ∷ ps) qs h = elim (Bool-cases (ltb j (height nodes p))) [
    | inl tall ↦ rw (height-IsOld p h.0, tall) refl
    | inr short ↦ rw (height-IsOld p h.0, short) (first-old j ps qs h.1)
  ]

  first-all_old : (j : ℕ) (ps : List ℕ) → All IsOld ps → first nodes' j ps ≡ first nodes j ps
  first-all_old j [] h = refl
  first-all_old j (p ∷ ps) h = elim (Bool-cases (ltb j (height nodes p))) [
    | inl tall ↦ rw (height-IsOld p h.0, tall) refl
    | inr short ↦ rw (height-IsOld p h.0, short) (first-all_old j ps h.1)
  ]

  -- A node that is no breadcrumb keeps its pointers.
  keep_one :
      (p : ℕ) (ps : List ℕ)
      → IsOld p
      → All IsOld ps
      → ((j : ℕ) → p ≢ mark_of j)
      → Linked nodes p ps
      → Linked nodes' p ps
  keep_one p ps old olds apart l =
      let (fw, out, size, at) = s.others p l.held_node old.0 l.held in
      record {
        held_node = record (l.held_node) { forward = fw };
        held = out;
        tall = size ∙ l.tall;
        based = l.based;
        leads = λ j h.
            let ne : (mark_of j == p) ≡ false = ne→==_false (mark_of j) p (λ e. apart j (sym e)) in
            at j h
            ∙ ap (λ b. if ltb j top && b then some (some new) else get_elem? l.held_node.forward j)
                ne
            ∙ ground arith
            ∙ l.leads j h
            ∙ ap some (sym (first-all_old j ps olds));
      }

  keep :
      (ps : List ℕ)
      → All IsOld ps
      → ((j : ℕ) → All (λ p. p ≢ mark_of j) ps)
      → Chain nodes ps
      → Chain nodes' ps
  keep [] olds apart c = tt
  keep (p ∷ ps) olds apart c =
      (keep_one p ps olds.0 olds.1 (λ j. (apart j).0) c.0, keep ps olds.1 (λ j. (apart j).1) c.1)

  -- Where a breadcrumb stands in a stretch of the list, it is the last node on its level there.
  abbrev Marked : List ℕ → Type 0
  Marked ps = (j : ℕ) (r : ℕ × List ℕ) → last_pos nodes j ps ≡ some r → mark_of j ≡ r.0

  link_one :
      (p : ℕ) (ps : List ℕ)
      → IsOld p
      → All IsOld ps
      → All (λ q. q ≢ p) ps
      → All IsOld after
      → Marked (p ∷ ps)
      → Linked nodes p (ps ++ after)
      → Linked nodes' p (ps ++ new ∷ after)
  link_one p ps old olds apart olds' marked l =
      let (fw, out, size, at) = s.others p l.held_node old.0 l.held in
      record {
        held_node = record (l.held_node) { forward = fw };
        held = out;
        tall = size ∙ l.tall;
        based = l.based;
        leads = λ j h.
            let stands : ltb j (height nodes p) ≡ true =
              lt→ltb j _ (omega (arith, h, height-Linked nodes l)) in
            at j h ∙ elim (Option-cases (last_pos nodes j ps)) [
              | inl e ↦
                  let here : mark_of j ≡ p = marked j (p, ps) (rw (e, stands) refl) in
                  let none_left = first-last_pos nodes j ps e in
                  ap
                    (λ b.
                      if ltb j top && b then some (some new) else get_elem? l.held_node.forward j)
                    (eq→== (mark_of j) p here)
                  ∙ ap (λ o. if ltb j top && true then some (some new) else o)
                      (l.leads j h
                        ∙ ap some (
                            first-append nodes j ps after
                            ∙ ap (λ o. or_else o (first nodes j after)) none_left))
                  ∙ chosen j
                  ∙ ap (λ o. some (or_else o (first nodes' j (new ∷ after)))) (sym none_left)
                  ∙ ap some (sym (first-old j ps (new ∷ after) olds))
              | inr (r, e) ↦
                  let there = marked j r (rw e refl) in
                  let ne : (mark_of j == p) ≡ false =
                    ne→==_false (mark_of j) p
                      (λ q. last_pos-All nodes (λ t. t ≢ p) j ps e apart (sym there ∙ q)) in
                  let (q, f) = last_pos-first nodes j ps e in
                  ap
                    (λ b.
                      if ltb j top && b then some (some new) else get_elem? l.held_node.forward j)
                    ne
                  ∙ ground arith
                  ∙ l.leads j h
                  ∙ ap some
                      (first-append nodes j ps after ∙ ap (λ o. or_else o (first nodes j after)) f)
                  ∙ ap (λ o. some (or_else o (first nodes' j (new ∷ after)))) (sym f)
                  ∙ ap some (sym (first-old j ps (new ∷ after) olds))
            ];
      }
    where
      chosen :
          (j : ℕ)
          → (if ltb j top && true then some (some new) else some (first nodes j after))
            ≡ some (first nodes' j (new ∷ after))
      chosen j = elim (Bool-cases (ltb j top)) [
        | inl tall ↦ rw (height-new, tall) refl
        | inr short ↦ rw (height-new, short) (ap some (sym (first-all_old j after olds')))
      ]

  link_new : All IsOld after → Linked nodes' new after
  link_new olds = record {
    held_node = record fresh_node { forward = s.forward };
    held = s.held;
    tall = s.tall;
    based = based;
    leads = λ j h. s.leads j h ∙ ap some (sym (first-all_old j after olds));
  }

  link_stretch :
      (ps : List ℕ)
      → All IsOld ps
      → IsDistinct ps
      → All IsOld after
      → Marked ps
      → ((j : ℕ) → All (λ p. p ≢ mark_of j) after)
      → Chain nodes (ps ++ after)
      → Chain nodes' (ps ++ new ∷ after)
  link_stretch [] olds d olds' marked apart c = (link_new olds', keep after olds' apart c)
  link_stretch (p ∷ ps) olds d olds' marked apart c = (
    link_one p ps olds.0 olds.1 d.0 olds' marked c.0,
    link_stretch ps olds.1 d.1 olds' (λ j r e. marked j r (rw e refl)) apart c.1,
  )

  header-Marked : Marked before → Marked (header ∷ before)
  header-Marked m j r e = elim (Option-cases (last_pos nodes j before)) [
    | inr (t, rest) ↦
        let same : t ≡ r = cc (rw rest at e) in m j t rest ∙ ap (λ (u : ℕ × List ℕ). u.0) same
    | inl rest ↦ elim (Bool-cases (ltb j (height nodes header))) [
      | inr short ↦ absurd (cc (rw (rest, short) at e))
      | inl tall ↦
          let same : (header, before) ≡ r = cc (rw (rest, tall) at e) in
          ap (λ o. (or_start header before o).0) rest ∙ ap (λ (u : ℕ × List ℕ). u.0) same
    ]
  ]

  before-Marked : Marked before
  before-Marked j r e = ap (λ o. (or_start header before o).0) e

  -- The splice turns the chain of the old list into that of the list with the new node in its place.
  pub Chain-splice :
      All IsOld (header ∷ before)
      → All IsOld after
      → IsDistinct (header ∷ before)
      → ((j : ℕ) → All (λ p. p ≢ mark_of j) after)
      → Chain nodes (header ∷ before ++ after)
      → Chain nodes' (header ∷ before ++ new ∷ after)
  Chain-splice olds olds' d apart c =
      link_stretch (header ∷ before) olds d olds' (header-Marked before-Marked) apart c
