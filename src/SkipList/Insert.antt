-- ===== src/SkipList/Insert.antt =====
-- `insert_skiplist` is the sorted insertion.
use cdsa.Base.{
  ℕ, ◌+◌, ◌-◌, ◌≤◌, ◌<◌, ◌≡◌, ◌≢◌, refl, sym, ap, ap₂, subst, ◌∙◌, Option, none, some, ◌>>=◌, List,
  [], ◌∷◌, ◌++◌, length, replicate, length-replicate, length-append, ◌⊎◌, inl, inr, add_size, arith,
}
use cdsa.Text.{Key}
use cdsa.Error.{Status, ok, oom}
use cdsa.Allocator.{Memory}
use cdsa.SkipList.{
  Doubles, Random, SkipNode, Nodes, SkipList, max_level, random_level, create_node, write, splice,
  find, breadcrumbs, raised, spliced, insert_skiplist,
}
use cdsa.SkipList.Names.{
  All, All-append_left, All-append_right, All-insert, All-map, IsDistinct-append_left,
  IsDistinct-apart, IsDistinct-insert,
}
use cdsa.SkipList.Chain.{height, Chain, crumb-All}
use cdsa.SkipList.Splice.{mark, marks, IsSpliced, start-IsSpliced, splice-IsSpliced}
use cdsa.SkipList.Relink.{IsOld, height-IsOld, height-new, Chain-splice}
use cdsa.SkipList.Order.{IsRanked, insert_sorted, length-insert_sorted, insert_sorted-IsSorted}
use cdsa.SkipList.View.{Shows, Shows-insert, Shows-Same, Same, Represents, Place, place}
use cdsa.SkipList.Made.{MadeOrNot, random_level_bounds, create_node-MadeOrNot}
use cdsa.SkipList.Find.{find-marks, find-IsMark}
use cdsa.SkipList.Marks.{take-marks, mark-low}

module _ {ℓ} {S : Type ℓ} (d : Doubles S) (sl : SkipList S) (ids : List ℕ) (es : List (S × Key))
    (e : S × Key) where
  module _ (rep : Represents d sl ids es) (place : Place d sl.nodes e ids es) where
    split : Represents d sl (place.before ++ place.after) es
    split = subst (λ t. Represents d sl t es) place.ids_split rep

    module _ (n : SkipNode S) where
      abbrev marks_for : ℕ → List ℕ
      marks_for k = marks sl.nodes sl.header sl.fresh place.before place.after n 0 k

      breadcrumbs-marks : (k : ℕ) → breadcrumbs d sl k (marks_for sl.level) ≡ marks_for k
      breadcrumbs-marks k =
          take-marks sl.nodes sl.header sl.fresh place.before place.after n k 0 sl.level
            (k - sl.level)
            (λ j h.
              mark-low sl.nodes sl.header sl.fresh place.before place.after n sl.level j
                (omega arith)
                (All-append_left (λ p. height sl.nodes p ≤ sl.level) place.before place.after
                  split.low))
            (omega arith)

      -- The splice finds every node it reads and writes.
      splice-marks :
          (k : ℕ)
          → n.level ≡ k
          → n.forward ≡ replicate k none
          → k ≤ max_level
          → (nodes' : Nodes S) × (splice
                (write sl.nodes sl.fresh (some n))
                sl.fresh
                0
                (breadcrumbs d sl k (marks_for sl.level))
              ≡ some nodes')
            × IsSpliced sl.nodes sl.header sl.fresh place.before place.after n n.level nodes'
      splice-marks k level forward tall =
          let (nodes', out, done) =
            splice-IsSpliced sl.nodes sl.header sl.fresh place.before place.after n k 0
              (write sl.nodes sl.fresh (some n))
              (λ j h.
                find-IsMark d sl place.before place.after es e split place.passed place.failed n j
                  (omega (arith, h, level, tall)))
              (omega (arith, level))
              (start-IsSpliced sl.nodes sl.header sl.fresh place.before place.after n
                (ap length forward ∙ length-replicate k none ∙ sym level)) in
          (
            nodes',
            ap (λ us. splice (write sl.nodes sl.fresh (some n)) sl.fresh 0 us) (breadcrumbs-marks k)
                ∙ out,
            done,
          )

      -- The list with the new node in it.
      abbrev grown : Nodes S → ℕ → SkipList S
      grown nodes' k = record sl {
        nodes = nodes';
        fresh = sl.fresh + 1;
        level = raised d k sl.level;
        size = add_size sl.size 1;
        version = add_size sl.version 1;
      }

      module _ (nodes' : Nodes S)
          (s : IsSpliced sl.nodes sl.header sl.fresh place.before place.after n n.level nodes')
          (based : 0 < n.level) where
        abbrev Old : ℕ → Type ℓ
        Old = IsOld sl.nodes nodes' sl.header sl.fresh place.before place.after n based s

        olds-Old : (ps : List ℕ) → All (λ p. p < sl.fresh) ps → Chain sl.nodes ps → All Old ps
        olds-Old [] h c = tt
        olds-Old (p ∷ ps) h c =
            ((λ q. omega (arith, h.0, q), (c.0.held_node, c.0.held)), olds-Old ps h.1 c.1)

        olds : All Old (sl.header ∷ place.before ++ place.after)
        olds = olds-Old (sl.header ∷ place.before ++ place.after) split.known split.chain

        Old-Same : (p : ℕ) → Old p → Same sl.nodes nodes' p
        Old-Same p old n' held = let (fw, out, _, _) = s.others p n' old.0 held in (fw, out)

        height-Old : (p : ℕ) → Old p → height nodes' p ≡ height sl.nodes p
        height-Old =
            height-IsOld sl.nodes nodes' sl.header sl.fresh place.before place.after n based s

        height-Fresh : height nodes' sl.fresh ≡ n.level
        height-Fresh =
            height-new sl.nodes nodes' sl.header sl.fresh place.before place.after n based s

        low-Old :
            (ps : List ℕ)
            → All Old ps
            → All (λ p. height sl.nodes p ≤ sl.level) ps
            → All (λ p. height nodes' p ≤ raised d n.level sl.level) ps
        low-Old [] h l = tt
        low-Old (p ∷ ps) h l = (ground (arith, height-Old p h.0, l.0), low-Old ps h.1 l.1)

        new_apart : All (λ p. p ≢ sl.fresh) (sl.header ∷ place.before ++ place.after)
        new_apart = All-map (sl.header ∷ place.before ++ place.after) (λ p old. old.0) olds

        marks_apart :
            (j : ℕ)
            → All
                (λ p. p ≢ mark sl.nodes sl.header sl.fresh place.before place.after n j)
                place.after
        marks_apart j =
            let apart = IsDistinct-apart (sl.header ∷ place.before) place.after split.distinct in
            crumb-All sl.nodes (λ q. All (λ p. p ≢ q) place.after) j sl.header place.before apart.0
              apart.1

        grown-Represents :
            (rank : S → ℕ)
            → IsRanked d rank
            → e ≡ (n.score, n.value)
            → n.level ≤ max_level
            → Represents d
                (grown nodes' n.level)
                (place.before ++ sl.fresh ∷ place.after)
                (insert_sorted d e es)
        grown-Represents rank r same tall = record {
          chain =
              Chain-splice sl.nodes nodes' sl.header sl.fresh place.before place.after n based s
                (olds.0, All-append_left Old place.before place.after olds.1)
                (All-append_right Old place.before place.after olds.1)
                (IsDistinct-append_left (sl.header ∷ place.before) place.after split.distinct)
                marks_apart split.chain;
          distinct =
              IsDistinct-insert (sl.header ∷ place.before) place.after sl.fresh split.distinct
                new_apart;
          known =
              All-insert (λ p. p < sl.fresh + 1) (sl.header ∷ place.before) place.after sl.fresh
                (All-map (sl.header ∷ place.before ++ place.after) (λ p h. omega (arith, h))
                  split.known)
                (omega arith);
          counted = omega (
            arith,
            split.counted,
            length-append place.before place.after,
            length-append place.before (sl.fresh ∷ place.after),
          );
          low =
              All-insert (λ p. height nodes' p ≤ raised d n.level sl.level) place.before place.after
                sl.fresh (low-Old (place.before ++ place.after) olds.1 split.low)
                (ground (arith, height-Fresh));
          header_tall = height-Old sl.header olds.0 ∙ split.header_tall;
          level_bounds = ground (arith, split.level_bounds.0, split.level_bounds.1);
          shows =
              subst (Shows nodes' (place.before ++ sl.fresh ∷ place.after)) (sym place.inserted) (
                Shows-insert nodes' place.before place.after place.entries_before
                  place.entries_after sl.fresh e
                  (Shows-Same sl.nodes nodes' place.before place.entries_before
                    (All-map place.before Old-Same
                      (All-append_left Old place.before place.after olds.1))
                    place.shows_before)
                  (record n { forward = s.forward }, s.held, sym same)
                  (Shows-Same sl.nodes nodes' place.after place.entries_after
                    (All-map place.after Old-Same
                      (All-append_right Old place.before place.after olds.1))
                    place.shows_after));
          sized = omega (arith, split.sized, length-insert_sorted d e es);
          sorted = insert_sorted-IsSorted d rank r e es split.sorted;
        }

module _ {ℓ} {S : Type ℓ} (d : Doubles S) (rank : S → ℕ) (r : IsRanked d rank) where
  -- Either no memory was left for the node, and the list is what it was, or the list represents the
  -- sorted insertion.
  abbrev pub InsertedOrNot :
      SkipList S
      → List (S × Key)
      → S × Key
      → Memory
      → Random
      → Option (Status × Option (SkipList S) × Memory × Random)
      → Type ℓ
  InsertedOrNot sl es e m rnd result =
      ((m' : Memory) × (rnd' : Random) × (result ≡ some (oom, some sl, m', rnd'))
        × ((create_node (random_level rnd).0 e.0 e.1 m).0 ≡ none))
      ⊎ ((sl' : SkipList S) × (ids : List ℕ) × (m' : Memory) × (rnd' : Random) × (result
            ≡ some (ok, some sl', m', rnd'))
          × Represents d sl' ids (insert_sorted d e es)
          × (sl'.version ≡ add_size sl.version 1))

  spliced-InsertedOrNot :
      (sl : SkipList S) (ids : List ℕ) (es : List (S × Key)) (e : S × Key) (m : Memory)
      (rnd : Random)
      → Represents d sl ids es
      → (made : Option (SkipNode S) × Memory) → MadeOrNot (random_level rnd).0 e.0 e.1 made
      → create_node (random_level rnd).0 e.0 e.1 m ≡ made
      → InsertedOrNot sl es e m rnd (do
        (update, last) ← find d sl e.0 e.1
        spliced d sl (random_level rnd).0 update (random_level rnd).1 made)
  spliced-InsertedOrNot sl ids es e m rnd rep (none, m') made_it made =
      let p = place d sl.nodes e rank r ids es rep.shows rep.sorted in
      inl (
        m',
        (random_level rnd).1,
        ap (λ f. f >>= λ u. spliced d sl (random_level rnd).0 u.0 (random_level rnd).1 (none, m'))
            (find-marks d sl p.before p.after es e (split d sl ids es e rep p) p.passed p.failed
              rep.chain.0.held_node),
        ap (λ c. c.0) made,
      )
  spliced-InsertedOrNot sl ids es e m rnd rep (some n, m') (level, score, value, forward) made =
      let k = (random_level rnd).0 in
      let p = place d sl.nodes e rank r ids es rep.shows rep.sorted in
      let (based, tall) = random_level_bounds rnd in
      let (nodes', out, done) = splice-marks d sl ids es e rep p n k level forward tall in
      inr (
        grown d sl ids es e rep p n nodes' k,
        p.before ++ sl.fresh ∷ p.after,
        m',
        (random_level rnd).1,
        ap (λ f. f >>= λ u. spliced d sl k u.0 (random_level rnd).1 (some n, m'))
              (find-marks d sl p.before p.after es e (split d sl ids es e rep p) p.passed p.failed
                n)
            ∙ ap
                (λ o. o >>= λ nodes.
                  some (ok, some (grown d sl ids es e rep p n nodes k), m', (random_level rnd).1))
                out,
        subst
            (λ l.
              Represents d (grown d sl ids es e rep p n nodes' l) (p.before ++ sl.fresh ∷ p.after)
                (insert_sorted d e es))
            level
            (grown-Represents d sl ids es e rep p n nodes' done (omega (arith, based, level)) rank r
              (ap₂ (λ a b. (a, b)) (sym score) (sym value)) (omega (arith, level, tall))),
        refl,
      )

  -- On a list that represents sorted entries, where the comparisons of scores are those of a rank,
  -- `insert_skiplist` ends and reads no node that is not there. It returns OK, and the list represents
  -- the sorted insertion and has the next version, or it returns OOM where `create_node` made no node,
  -- and the list is what it was.
  pub insert_skiplist-Inserted :
      (sl : SkipList S) (ids : List ℕ) (es : List (S × Key)) (e : S × Key) (m : Memory)
      (rnd : Random)
      → Represents d sl ids es
      → InsertedOrNot sl es e m rnd (insert_skiplist d (some sl) e.0 (some e.1) m rnd)
  unfolding insert_skiplist
  insert_skiplist-Inserted sl ids es e m rnd rep =
      spliced-InsertedOrNot sl ids es e m rnd rep (create_node (random_level rnd).0 e.0 e.1 m)
        (create_node-MadeOrNot (random_level rnd).0 e.0 e.1 m) refl
