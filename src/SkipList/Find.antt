-- ===== src/SkipList/Find.antt =====
-- The search of a skip list for the place of an entry ends there, with usable breadcrumbs.
use cdsa.Base.{
  ℕ, zero, suc, ◌+◌, ◌<◌, ◌≡◌, refl, ap₂, ◌∙◌, Bool, true, false, some, List, ◌++◌, length-append,
  arith,
}
use cdsa.Text.{Key}
use cdsa.SkipList.{Doubles, SkipNode, SkipList, max_level, is_before, find}
use cdsa.SkipList.Names.{All, All-append_left}
use cdsa.SkipList.Chain.{crumb}
use cdsa.SkipList.Search.{IsStart, last_of, descend-crumbs}
use cdsa.SkipList.Splice.{marks, IsMark}
use cdsa.SkipList.View.{Represents, Passes}
use cdsa.SkipList.Marks.{crumbs-marks, crumb-IsMark}

module _ {ℓ} {S : Type ℓ} (d : Doubles S) (sl : SkipList S) (before after : List ℕ)
    (es : List (S × Key)) (e : S × Key) (rep : Represents d sl (before ++ after) es)
    (passed : All (Passes d sl.nodes e true) before)
    (failed : All (Passes d sl.nodes e false) after) where
  abbrev test : SkipNode S → Bool
  test = is_before d e.0 e.1

  start : IsStart sl.nodes test after failed sl.header before
  start = record { linked = rep.chain.0; chain = rep.chain.1; before = passed }

  last_of-crumb :
      (k : ℕ)
      → 0 < k
      → last_of sl.nodes test after failed k sl.header before
        ≡ (crumb sl.nodes 0 sl.header before).0
  last_of-crumb zero h = absurd (omega arith)
  last_of-crumb (suc k) h = refl

  module _ (n : SkipNode S) where
    abbrev pub marks_for : ℕ → List ℕ
    marks_for k = marks sl.nodes sl.header sl.fresh before after n 0 k

    -- The search ends, with the breadcrumbs of all the list's levels.
    pub find-marks :
        find d sl e.0 e.1 ≡ some (marks_for sl.level, (crumb sl.nodes 0 sl.header before).0)
    unfolding find
    find-marks =
        descend-crumbs sl.nodes test after failed sl.level (sl.fresh + 1) sl.header before start
          (omega (arith, rep.header_tall, rep.level_bounds.1))
          (omega (arith, rep.counted, length-append before after))
        ∙ ap₂ (λ us l. some (us, l))
            (crumbs-marks sl.nodes sl.header sl.fresh before after n test failed sl.level)
            (last_of-crumb sl.level rep.level_bounds.0)

    pub find-IsMark : (j : ℕ) → j < max_level → IsMark sl.nodes sl.header sl.fresh before after n j
    find-IsMark j h =
        crumb-IsMark sl.nodes sl.header sl.fresh before after n test failed start
          (rep.known.0, All-append_left (λ p. p < sl.fresh) before after rep.known.1) j
          (omega (arith, h, rep.header_tall))
