-- ===== src/SkipList/Unlink.antt =====
-- After the bypass, and with the node freed, the pointers lead along the list without the node.
use cdsa.Base.{
  ℕ, ◌≡◌, ◌≢◌, refl, sym, ap, ◌∙◌, true, false, ◌&&◌, none, some, List, [], ◌∷◌, ◌++◌, get_elem?,
  ltb, lt→ltb, ◌==◌, eq→==, ne→==_false, if◌then◌else◌, inl, inr, Bool-cases, Option-cases, arith,
}
use cdsa.SkipList.{SkipNode, Nodes, write}
use cdsa.SkipList.Names.{All, IsDistinct}
use cdsa.SkipList.Chain.{
  height_of, height, first, Linked, Chain, height-Linked, last_pos, last_pos-none, last_pos-some,
  or_start, last_pos-All,
}
use cdsa.SkipList.Redirect.{RedirectedTo}
use cdsa.SkipList.Bypass.{IsBypassed, mark_of}

module _ {ℓ} {S : Type ℓ} (nodes nodes' : Nodes S) (header new : ℕ) (before : List ℕ) (target : ℕ)
    (rest : List ℕ) (fresh_node : SkipNode S) (linked : Linked nodes target rest)
    (alone : All (λ q. q ≢ target) rest)
    (s : IsBypassed nodes header new before target rest fresh_node linked alone
      linked.held_node.level nodes') where
  abbrev crumb_of : ℕ → ℕ
  crumb_of = mark_of nodes header new before target rest fresh_node linked alone

  abbrev top : ℕ
  top = linked.held_node.level

  abbrev pub gone : Nodes S
  gone = write nodes' target none

  -- A node that stays.
  abbrev pub Stays : ℕ → Type ℓ
  Stays p = (p ≢ target) × ((n : SkipNode S) × (nodes p ≡ some n))

  -- What has become of a node that stays.
  pub redirected :
      (p : ℕ) (n : SkipNode S)
      → p ≢ target
      → nodes p ≡ some n
      → RedirectedTo crumb_of (λ j. first nodes j rest) top p n (gone p)
  redirected p n ne held =
      let (fw, out, size, at) = s.each p n held in
      (fw, ap (λ b. if b then none else nodes' p) (ne→==_false p target ne) ∙ out, size, at)

  pub height-Stays : (p : ℕ) → Stays p → height gone p ≡ height nodes p
  height-Stays p (ne, (n, held)) =
      let (fw, out, _, _) = redirected p n ne held in ap height_of out ∙ sym (ap height_of held)

  pub first-Stays : (j : ℕ) (ps : List ℕ) → All Stays ps → first gone j ps ≡ first nodes j ps
  first-Stays j [] h = refl
  first-Stays j (p ∷ ps) h = elim (Bool-cases (ltb j (height nodes p))) [
    | inl tall ↦ rw (height-Stays p h.0, tall) refl
    | inr short ↦ rw (height-Stays p h.0, short) (first-Stays j ps h.1)
  ]

  keep_one :
      (p : ℕ) (ps : List ℕ)
      → Stays p
      → All Stays ps
      → ((j : ℕ) → p ≢ crumb_of j)
      → Linked nodes p ps
      → Linked gone p ps
  keep_one p ps stays all_stay apart l =
      let (fw, out, size, at) = redirected p l.held_node stays.0 l.held in
      record {
        held_node = record (l.held_node) { forward = fw };
        held = out;
        tall = size ∙ l.tall;
        based = l.based;
        leads = λ j h.
            let ne : (crumb_of j == p) ≡ false =
              ne→==_false (crumb_of j) p (λ e. apart j (sym e)) in
            at j h
            ∙ ap
                (λ b.
                  if ltb j top && b
                  then some (first nodes j rest)
                  else get_elem? l.held_node.forward j)
                ne
            ∙ ground arith
            ∙ l.leads j h
            ∙ ap some (sym (first-Stays j ps all_stay));
      }

  keep :
      (ps : List ℕ)
      → All Stays ps
      → ((j : ℕ) → All (λ p. p ≢ crumb_of j) ps)
      → Chain nodes ps
      → Chain gone ps
  keep [] all_stay apart c = tt
  keep (p ∷ ps) all_stay apart c = (
    keep_one p ps all_stay.0 all_stay.1 (λ j. (apart j).0) c.0,
    keep ps all_stay.1 (λ j. (apart j).1) c.1,
  )

  -- Where a breadcrumb stands in a stretch of the list, it is the last node on its level there.
  abbrev Marked : List ℕ → Type 0
  Marked ps = (j : ℕ) (r : ℕ × List ℕ) → last_pos nodes j ps ≡ some r → crumb_of j ≡ r.0

  -- A pointer of a breadcrumb, with the node taken out.
  past :
      (j : ℕ)
      → (if ltb j top && true
          then some (first nodes j rest)
          else some (first nodes j (target ∷ rest)))
        ≡ some (first nodes j rest)
  past j = elim (Bool-cases (ltb j top)) [
    | inl tall ↦ rw tall refl
    | inr short ↦ rw (short, height-Linked nodes linked, short) refl
  ]

  link_one :
      (p : ℕ) (ps : List ℕ)
      → Stays p
      → All Stays (ps ++ rest)
      → All (λ q. q ≢ p) ps
      → Marked (p ∷ ps)
      → Linked nodes p (ps ++ target ∷ rest)
      → Linked gone p (ps ++ rest)
  link_one p ps stays all_stay apart marked l =
      let (fw, out, size, at) = redirected p l.held_node stays.0 l.held in
      record {
        held_node = record (l.held_node) { forward = fw };
        held = out;
        tall = size ∙ l.tall;
        based = l.based;
        leads = λ j h.
            let stands : ltb j (height nodes p) ≡ true =
              lt→ltb j _ (omega (arith, h, height-Linked nodes l)) in
            at j h ∙ elim (Option-cases (last_pos nodes j ps)) [
              | inl e ↦
                  let here : crumb_of j ≡ p = marked j (p, ps) (rw (e, stands) refl) in
                  ap
                    (λ b.
                      if ltb j top && b
                      then some (first nodes j rest)
                      else get_elem? l.held_node.forward j)
                    (eq→== (crumb_of j) p here)
                  ∙ ap (λ o. if ltb j top && true then some (first nodes j rest) else o)
                      (l.leads j h ∙ ap some (last_pos-none nodes j ps (target ∷ rest) e))
                  ∙ past j
                  ∙ ap some (sym (last_pos-none nodes j ps rest e))
                  ∙ ap some (sym (first-Stays j (ps ++ rest) all_stay))
              | inr (r, e) ↦
                  let there = marked j r (rw e refl) in
                  let ne : (crumb_of j == p) ≡ false =
                    ne→==_false (crumb_of j) p
                      (λ q. last_pos-All nodes (λ t. t ≢ p) j ps e apart (sym there ∙ q)) in
                  ap
                    (λ b.
                      if ltb j top && b
                      then some (first nodes j rest)
                      else get_elem? l.held_node.forward j)
                    ne
                  ∙ ground arith
                  ∙ l.leads j h
                  ∙ ap some (last_pos-some nodes j ps (target ∷ rest) rest e)
                  ∙ ap some (sym (first-Stays j (ps ++ rest) all_stay))
            ];
      }

  link_stretch :
      (ps : List ℕ)
      → All Stays (ps ++ rest)
      → IsDistinct ps
      → Marked ps
      → ((j : ℕ) → All (λ p. p ≢ crumb_of j) rest)
      → Chain nodes (ps ++ target ∷ rest)
      → Chain gone (ps ++ rest)
  link_stretch [] all_stay d marked apart c = keep rest all_stay apart c.1
  link_stretch (p ∷ ps) all_stay d marked apart c = (
    link_one p ps all_stay.0 all_stay.1 d.0 marked c.0,
    link_stretch ps all_stay.1 d.1 (λ j r e. marked j r (rw e refl)) apart c.1,
  )

  header-Marked : Marked (header ∷ before)
  header-Marked j r e = elim (Option-cases (last_pos nodes j before)) [
    | inr (t, found) ↦
        let same : t ≡ r = cc (rw found at e) in
        ap (λ o. (or_start header before o).0) found ∙ ap (λ (u : ℕ × List ℕ). u.0) same
    | inl found ↦ elim (Bool-cases (ltb j (height nodes header))) [
      | inr short ↦ absurd (cc (rw (found, short) at e))
      | inl tall ↦
          let same : (header, before) ≡ r = cc (rw (found, tall) at e) in
          ap (λ o. (or_start header before o).0) found ∙ ap (λ (u : ℕ × List ℕ). u.0) same
    ]
  ]

  -- The bypass turns the chain of the old list into that of the list without the node.
  pub Chain-bypass :
      All Stays (header ∷ before ++ rest)
      → IsDistinct (header ∷ before)
      → ((j : ℕ) → All (λ p. p ≢ crumb_of j) rest)
      → Chain nodes (header ∷ before ++ target ∷ rest)
      → Chain gone (header ∷ before ++ rest)
  Chain-bypass all_stay d apart c = link_stretch (header ∷ before) all_stay d header-Marked apart c
