-- ===== src/SkipList/Remove.antt =====
-- `remove_skiplist` is the deletion from the sorted list.
use cdsa.Base.{
  ℕ, ◌≤◌, ◌<◌, ◌≡◌, ◌≢◌, refl, sym, ap, subst, ◌∙◌, true, false, Option, none, some, ◌>>=◌, List,
  [], ◌∷◌, ◌++◌, length-append, ltb, lt→ltb, ne→==_false, get_elem?, if◌then◌else◌, ◌⊎◌, inl, inr,
  Bool-cases, add_size, sub_size, arith,
}
use cdsa.Text.{Key}
use cdsa.Error.{Status, ok, not_found}
use cdsa.Allocator.{Memory}
use cdsa.SkipList.{
  Doubles, SkipNode, Nodes, SkipList, max_level, forward_at, write, free_blocks, is_target, deleted,
  remove_skiplist,
}
use cdsa.SkipList.Names.{
  All, All-append_left, All-append_right, All-map, All-delete, IsDistinct-append_left,
  IsDistinct-apart, IsDistinct-delete, IsDistinct-middle,
}
use cdsa.SkipList.Chain.{
  height, first, Linked, Chain, Chain-append_right, height-Linked, forward_at-Linked, crumb-All,
}
use cdsa.SkipList.Splice.{marks, IsMark}
use cdsa.SkipList.Bypass.{IsBypassed, mark_of, bypass-IsBypassed, start-IsBypassed}
use cdsa.SkipList.Unlink.{gone, Stays, redirected, height-Stays, Chain-bypass}
use cdsa.SkipList.Lower.{lower_level-bounds}
use cdsa.SkipList.Order.{IsRanked}
use cdsa.SkipList.Delete.{
  equals, delete_sorted, delete_sorted-hit, delete_sorted-end, delete_sorted-miss,
  IsSorted-append_right, IsSorted-delete,
}
use cdsa.SkipList.View.{Shows, Shows-append, Shows-Same, Represents, Passes, Passes-Shows, place}
use cdsa.SkipList.Marks.{forward_at-IsMark}
use cdsa.SkipList.Find.{find-marks, find-IsMark}

module _ {ℓ} {S : Type ℓ} (d : Doubles S) (sl : SkipList S) (before rest : List ℕ) (target : ℕ)
    (entries_before entries_rest : List (S × Key)) (f : S × Key)
    (rep : Represents d sl (before ++ target ∷ rest) (entries_before ++ f ∷ entries_rest)) where
  linked : Linked sl.nodes target rest
  linked = (Chain-append_right sl.nodes before (target ∷ rest) rep.chain.1).0

  apart : All (λ q. q ≢ target) (sl.header ∷ before ++ rest)
  apart = IsDistinct-middle (sl.header ∷ before) rest target rep.distinct

  alone : All (λ q. q ≢ target) rest
  alone = All-append_right (λ q. q ≢ target) (sl.header ∷ before) rest apart

  short : linked.held_node.level ≤ sl.level
  short = omega (
    arith,
    (All-append_right (λ p. height sl.nodes p ≤ sl.level) before (target ∷ rest) rep.low).0,
    height-Linked sl.nodes linked,
  )

  module _ (n : SkipNode S) where
    abbrev Bypassed : Nodes S → Type ℓ
    Bypassed =
        IsBypassed sl.nodes sl.header sl.fresh before target rest n linked alone
          linked.held_node.level

    module _ (nodes' : Nodes S) (s : Bypassed nodes') where
      abbrev left : Nodes S
      left = gone sl.nodes nodes' sl.header sl.fresh before target rest n linked alone s

      abbrev Staying : ℕ → Type ℓ
      Staying = Stays sl.nodes nodes' sl.header sl.fresh before target rest n linked alone s

      stays-Chain :
          (ps : List ℕ)
          → All (λ q. q ≢ target) ps
          → All (λ p. (m : SkipNode S) × (sl.nodes p ≡ some m)) ps
          → All Staying ps
      stays-Chain [] h c = tt
      stays-Chain (p ∷ ps) h c = ((h.0, c.0), stays-Chain ps h.1 c.1)

      held-Chain :
          (ps : List ℕ) → Chain sl.nodes ps → All (λ p. (m : SkipNode S) × (sl.nodes p ≡ some m)) ps
      held-Chain [] c = tt
      held-Chain (p ∷ ps) c = ((c.0.held_node, c.0.held), held-Chain ps c.1)

      stays : All Staying (sl.header ∷ before ++ rest)
      stays = stays-Chain (sl.header ∷ before ++ rest) apart (
          All-delete (λ p. (m : SkipNode S) × (sl.nodes p ≡ some m)) (sl.header ∷ before) rest
            target (held-Chain (sl.header ∷ before ++ target ∷ rest) rep.chain))

      crumbs_apart :
          (j : ℕ)
          → All
              (λ p. p ≢ mark_of sl.nodes sl.header sl.fresh before target rest n linked alone j)
              rest
      crumbs_apart j =
          let sides =
            IsDistinct-apart (sl.header ∷ before) rest
              (IsDistinct-delete (sl.header ∷ before) rest target rep.distinct) in
          crumb-All sl.nodes (λ q. All (λ p. p ≢ q) rest) j sl.header before sides.0 sides.1

      chain : Chain left (sl.header ∷ before ++ rest)
      chain =
          Chain-bypass sl.nodes nodes' sl.header sl.fresh before target rest n linked alone s stays
            (IsDistinct-append_left (sl.header ∷ before) (target ∷ rest) rep.distinct) crumbs_apart
            rep.chain

      height-left : (p : ℕ) → Staying p → height left p ≡ height sl.nodes p
      height-left =
          height-Stays sl.nodes nodes' sl.header sl.fresh before target rest n linked alone s

      -- The header is read before the node is freed.
      reads_header :
          (j : ℕ)
          → j < max_level
          → forward_at nodes' sl.header j ≡ some (first left j (before ++ rest))
      unfolding forward_at
      reads_header j h =
          ap (λ o. o >>= λ q. get_elem? q.forward j)
            (sym (
              ap (λ b. if b then none else nodes' sl.header)
                (ne→==_false sl.header target apart.0)))
          ∙ forward_at-Linked left j chain.0
              (omega (arith, h, height-left sl.header stays.0, rep.header_tall))

      low-first : (l : ℕ) (ps : List ℕ) → first left l ps ≡ none → All (λ p. height left p ≤ l) ps
      low-first l [] e = tt
      low-first l (p ∷ ps) e = elim (Bool-cases (ltb l (height left p))) [
        | inl tall ↦ absurd (cc (rw tall at e))
        | inr below ↦ (ground (arith, below), low-first l ps (rw below at e))
      ]

      low-left :
          (ps : List ℕ)
          → All Staying ps
          → All (λ p. height sl.nodes p ≤ sl.level) ps
          → All (λ p. height left p ≤ sl.level) ps
      low-left [] h l = tt
      low-left (p ∷ ps) h l = (omega (arith, height-left p h.0, l.0), low-left ps h.1 l.1)

      -- The list without the node.
      abbrev shrunk : ℕ → SkipList S
      shrunk l = record sl {
        nodes = write nodes' target none;
        level = l;
        size = sub_size sl.size 1;
        version = add_size sl.version 1;
      }

      shrunk-Represents :
          (l : ℕ)
          → (0 < l) × (l ≤ sl.level)
          → ((l ≡ sl.level) ⊎ (first left l (before ++ rest) ≡ none))
          → Shows sl.nodes before entries_before
          → Shows sl.nodes (target ∷ rest) (f ∷ entries_rest)
          → Represents d (shrunk l) (before ++ rest) (entries_before ++ entries_rest)
      shrunk-Represents l (least, most) why shows_before shows_after = record {
        chain = chain;
        distinct = IsDistinct-delete (sl.header ∷ before) rest target rep.distinct;
        known = All-delete (λ p. p < sl.fresh) (sl.header ∷ before) rest target rep.known;
        counted =
            omega
              (arith, rep.counted, length-append before (target ∷ rest), length-append before rest);
        low = elim why [
          | inl same ↦
              subst (λ t. All (λ p. height left p ≤ t) (before ++ rest)) (sym same)
                (low-left (before ++ rest) stays.1
                  (All-delete (λ p. height sl.nodes p ≤ sl.level) before rest target rep.low))
          | inr below ↦ low-first l (before ++ rest) below
        ];
        header_tall = height-left sl.header stays.0 ∙ rep.header_tall;
        level_bounds = (least, omega (arith, most, rep.level_bounds.1));
        shows =
            Shows-append left before rest entries_before entries_rest
              (kept before entries_before (All-append_left Staying before rest stays.1)
                shows_before)
              (kept rest entries_rest (All-append_right Staying before rest stays.1) shows_after.1);
        sized = omega (
          arith,
          rep.sized,
          length-append entries_before (f ∷ entries_rest),
          length-append entries_before entries_rest,
        );
        sorted = IsSorted-delete d entries_before entries_rest f rep.sorted;
      }
        where
          kept :
              (ps : List ℕ) (es : List (S × Key))
              → All Staying ps
              → Shows sl.nodes ps es
              → Shows left ps es
          kept ps es h k =
              Shows-Same sl.nodes left ps es
                (All-map ps
                  (λ p st m held.
                    let (fw, out, _, _) =
                      redirected sl.nodes nodes' sl.header sl.fresh before target rest n linked
                        alone s p m st.0 held in
                    (fw, out))
                  h)
                k

  -- The deletion, with the breadcrumbs of the search: the bypass and the lowering of the level end, and
  -- leave the list without the node.
  deleted-Represents :
      (n : SkipNode S) (m : Memory)
      → ((j : ℕ) → j < max_level → IsMark sl.nodes sl.header sl.fresh before (target ∷ rest) n j)
      → Shows sl.nodes before entries_before
      → Shows sl.nodes (target ∷ rest) (f ∷ entries_rest)
      → (sl' : SkipList S) × (deleted d sl
            (marks sl.nodes sl.header sl.fresh before (target ∷ rest) n 0 sl.level)
            target
            n
            m
          ≡ some (ok, some sl', free_blocks n m))
        × Represents d sl' (before ++ rest) (entries_before ++ entries_rest)
        × (sl'.version ≡ add_size sl.version 1)
  deleted-Represents n m ms shows_before shows_after =
      let (nodes', out, s) =
        bypass-IsBypassed sl.nodes sl.header sl.fresh before target rest n linked alone sl.level 0
          sl.nodes (λ j h. ms j (omega (arith, h, rep.level_bounds.1))) (omega arith)
          (omega (arith, short))
          (start-IsBypassed sl.nodes sl.header sl.fresh before target rest n linked alone) in
      let (l, lowered, least, most, why) =
        lower_level-bounds nodes' sl.header (λ j. first (left n nodes' s) j (before ++ rest))
          sl.level rep.level_bounds.0
          (λ j h. reads_header n nodes' s j (omega (arith, h, rep.level_bounds.1))) in
      (
        shrunk n nodes' s l,
        rw (out, lowered) refl,
        shrunk-Represents n nodes' s l (least, most) why shows_before shows_after,
        refl,
      )

module _ {ℓ} {S : Type ℓ} (d : Doubles S) (rank : S → ℕ) (r : IsRanked d rank) where
  -- Either no entry equals the given one, and nothing is changed, or the list represents the entries
  -- without the first that does.
  abbrev pub RemovedOrNot :
      SkipList S
      → List (S × Key)
      → S × Key
      → Memory
      → Option (Status × Option (SkipList S) × Memory)
      → Type ℓ
  RemovedOrNot sl es e m result =
      ((result ≡ some (not_found, some sl, m)) × (delete_sorted d e es ≡ none))
      ⊎ ((sl' : SkipList S) × (ids : List ℕ) × (es' : List (S × Key)) × (m' : Memory) × (result
            ≡ some (ok, some sl', m'))
          × (delete_sorted d e es ≡ some es')
          × Represents d sl' ids es'
          × (sl'.version ≡ add_size sl.version 1))

  module _ (sl : SkipList S) (e : S × Key) (m : Memory) where
    removed :
        (before after : List ℕ) (eb ea : List (S × Key))
        → Represents d sl (before ++ after) (eb ++ ea)
        → Shows sl.nodes before eb
        → Shows sl.nodes after ea
        → All (Passes d sl.nodes e true) before
        → All (Passes d sl.nodes e false) after
        → RemovedOrNot sl (eb ++ ea) e m (remove_skiplist d (some sl) e.0 (some e.1) m)
    unfolding remove_skiplist
    removed before [] eb [] rep sb sa passed failed =
        let n = rep.chain.0.held_node in
        let found = find-marks d sl before [] (eb ++ []) e rep passed failed n in
        let reads =
          forward_at-IsMark sl.nodes sl.header sl.fresh before [] n 0
            (find-IsMark d sl before [] (eb ++ []) e rep passed failed n 0 (omega arith)) in
        inl (
          rw (found, reads) refl,
          delete_sorted-end d rank r e eb (Passes-Shows d sl.nodes e true before eb sb passed),
        )
    removed before [] eb (f ∷ fs) rep sb sa passed failed = absurd sa.0
    removed before (p ∷ rest) eb [] rep sb sa passed failed = absurd sa.0
    removed before (p ∷ rest) eb (f ∷ fs) rep sb sa passed failed =
        let ((n, held, same), _) = sa in
        let es = eb ++ f ∷ fs in
        let l = linked d sl before rest p eb fs f rep in
        let found = find-marks d sl before (p ∷ rest) es e rep passed failed n in
        let ms = find-IsMark d sl before (p ∷ rest) es e rep passed failed n in
        let reads =
          forward_at-IsMark sl.nodes sl.header sl.fresh before (p ∷ rest) n 0
            (ms 0 (omega arith)) in
        let stands : ltb 0 (height sl.nodes p) ≡ true =
          lt→ltb 0 _ (omega (arith, l.based, height-Linked sl.nodes l)) in
        let precede = Passes-Shows d sl.nodes e true before eb sb passed in
        let follow = Passes-Shows d sl.nodes e false (p ∷ rest) (f ∷ fs) sa failed in
        let answer : is_target d e.0 e.1 n ≡ equals d f e = ap (λ g. equals d g e) same in
        elim (Bool-cases (equals d f e)) [
          | inr miss ↦ inl (
            rw (found, reads, stands, held, answer, miss) refl,
            delete_sorted-miss d rank r e f eb fs precede follow.0 miss
                (IsSorted-append_right d eb (f ∷ fs) rep.sorted).0,
          )
          | inl hit ↦
              let (sl', out, rep', changed) =
                deleted-Represents d sl before rest p eb fs f rep n m ms sb sa in
              inr (
                sl',
                before ++ rest,
                eb ++ fs,
                free_blocks n m,
                rw (found, reads, stands, held, answer, hit) out,
                delete_sorted-hit d rank r e f eb fs precede hit,
                rep',
                changed,
              )
        ]

  -- On a list that represents sorted entries, where the comparisons of scores are those of a rank,
  -- `remove_skiplist` ends and reads no node that is not there. It returns OK, and the list represents
  -- the entries without the first that equals the given one and has the next version, or there is none
  -- that does, and it returns NOT_FOUND and changes nothing.
  pub remove_skiplist-Removed :
      (sl : SkipList S) (ids : List ℕ) (es : List (S × Key)) (e : S × Key) (m : Memory)
      → Represents d sl ids es
      → RemovedOrNot sl es e m (remove_skiplist d (some sl) e.0 (some e.1) m)
  remove_skiplist-Removed sl ids es e m rep =
      let p = place d sl.nodes e rank r ids es rep.shows rep.sorted in
      subst (λ t. RemovedOrNot sl t e m (remove_skiplist d (some sl) e.0 (some e.1) m))
        (sym p.entries_split)
        (removed sl e m p.before p.after p.entries_before p.entries_after
          (subst (λ t. Represents d sl (p.before ++ p.after) t) p.entries_split
            (subst (λ t. Represents d sl t es) p.ids_split rep))
          p.shows_before p.shows_after p.passed p.failed)
