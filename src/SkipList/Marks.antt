-- ===== src/SkipList/Marks.antt =====
-- The breadcrumbs of a skip list's insertion, and that the splice can use them.
use cdsa.Base.{
  ℕ, zero, suc, ◌+◌, ◌≤◌, ◌<◌, ◌≡◌, refl, sym, ap, ap₂, ◌∙◌, Bool, false, none, some, List, [], ◌∷◌,
  ◌++◌, take, replicate, ltb, arith,
}
use cdsa.SkipList.{SkipNode, Nodes, forward_at}
use cdsa.SkipList.Names.{All}
use cdsa.SkipList.Chain.{
  height, first, height-Linked, last_pos, or_start, crumb, crumb-none, crumb-All, last_pos-none,
}
use cdsa.SkipList.Search.{Tests, IsStart, crumb-IsStart, crumbs}
use cdsa.SkipList.Splice.{mark, marks, IsMark}

module _ {ℓ} {S : Type ℓ} (nodes : Nodes S) (header new : ℕ) (before after : List ℕ)
    (fresh_node : SkipNode S) where
  abbrev mark_of : ℕ → ℕ
  mark_of = mark nodes header new before after fresh_node

  abbrev marks_of : ℕ → ℕ → List ℕ
  marks_of = marks nodes header new before after fresh_node

  marks-suc : (i k : ℕ) → marks_of i (suc k) ≡ marks_of i k ++ mark_of (i + k) ∷ []
  marks-suc i zero = ap (λ t. mark_of t ∷ []) (omega arith)
  marks-suc i (suc k) =
      ap (◌∷◌ (mark_of i))
        (marks-suc (suc i) k ∙ ap (λ t. marks_of (suc i) k ++ mark_of t ∷ []) (omega arith))

  pub crumbs-marks :
      (test : SkipNode S → Bool) (behind : All (Tests nodes test false) after) (k : ℕ)
      → crumbs nodes test after behind k header before ≡ marks_of 0 k
  crumbs-marks test behind zero = refl
  crumbs-marks test behind (suc k) =
      ap (λ us. us ++ mark_of k ∷ []) (crumbs-marks test behind k)
      ∙ sym (marks-suc 0 k ∙ ap (λ t. marks_of 0 k ++ mark_of t ∷ []) (omega arith))

  -- Above the levels of the list the header is the breadcrumb.
  pub take-marks :
      (n i l k : ℕ)
      → ((j : ℕ) → i + l ≤ j → mark_of j ≡ header)
      → n ≤ l + k
      → take n (marks_of i l ++ replicate k header) ≡ marks_of i n
  take-marks zero i l k above h = refl
  take-marks (suc n) i zero zero above h = absurd (omega arith)
  take-marks (suc n) i zero (suc k) above h =
      ap₂ ◌∷◌ (sym (above i (omega arith)))
        (take-marks n (suc i) zero k (λ j g. above j (omega arith)) (omega arith))
  take-marks (suc n) i (suc l) k above h =
      ap (◌∷◌ (mark_of i)) (take-marks n (suc i) l k (λ j g. above j (omega arith)) (omega arith))

  -- A level that no node in front of the place stands on.
  last_pos-low :
      (l j : ℕ) (ps : List ℕ)
      → l ≤ j
      → All (λ p. height nodes p ≤ l) ps
      → last_pos nodes j ps ≡ none
  last_pos-low l j [] h k = refl
  last_pos-low l j (p ∷ ps) h k =
      let short : ltb j (height nodes p) ≡ false = ground (arith, k.0) in
      rw (last_pos-low l j ps h k.1, short) refl

  pub mark-low : (l j : ℕ) → l ≤ j → All (λ p. height nodes p ≤ l) before → mark_of j ≡ header
  mark-low l j h k = ap (λ o. (or_start header before o).0) (last_pos-low l j before h k)

  pub crumb-IsMark :
      (test : SkipNode S → Bool) (behind : All (Tests nodes test false) after)
      → IsStart nodes test after behind header before
      → All (λ p. p < new) (header ∷ before)
      → (j : ℕ) → j < height nodes header
      → IsMark nodes header new before after fresh_node j
  crumb-IsMark test behind s known j h =
      let (start, _, stands) = crumb-IsStart nodes test after behind j header before s h in
      let l = start.linked in
      record {
        node = l.held_node;
        here = l.held;
        reaches = omega (arith, stands, height-Linked nodes l);
        full = l.tall;
        beyond =
            l.leads j (omega (arith, stands, height-Linked nodes l))
            ∙ ap some (
                last_pos-none nodes j (crumb nodes j header before).1 after
                  (crumb-none nodes j header before));
        old =
            let below = crumb-All nodes (λ p. p < new) j header before known.0 known.1 in
            λ e. absurd (omega (arith, below, e));
      }

  -- What the pointer of a breadcrumb leads to.
  pub forward_at-IsMark :
      (j : ℕ)
      → IsMark nodes header new before after fresh_node j
      → forward_at nodes (mark_of j) j ≡ some (first nodes j after)
  unfolding forward_at
  forward_at-IsMark j m = rw m.here m.beyond
