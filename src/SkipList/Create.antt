-- ===== src/SkipList/Create.antt =====
-- `cdsa_create_skiplist` makes an empty list.
use cdsa.Base.{
  ℕ, zero, suc, ◌<◌, ◌≡◌, refl, sym, ap, subst, ◌∙◌, Option, none, some, [], length, get_elem?,
  replicate, length-replicate, arith,
}
use cdsa.Allocator.{Memory, Pointer, malloc_track}
use cdsa.SkipList.{
  Doubles, SkipNode, SkipList, max_level, sizeof_skiplist, create_node, with_header, with_handle,
  create_skiplist,
}
use cdsa.SkipList.Made.{MadeOrNot, create_node-MadeOrNot}
use cdsa.SkipList.View.{Represents}

get_elem?-replicate {ℓ} :
    {A : Type ℓ} (n i : ℕ) (a : A) → i < n → get_elem? (replicate n a) i ≡ some a
get_elem?-replicate zero i a h = absurd (omega arith)
get_elem?-replicate (suc n) zero a h = refl
get_elem?-replicate (suc n) (suc i) a h = get_elem?-replicate n i a (omega arith)

module _ {ℓ} {S : Type ℓ} (d : Doubles S) where
  -- A list that was made represents no entries.
  abbrev EmptyOrNot : Option (SkipList S) × Memory → Type ℓ
  EmptyOrNot (none, m) = Unit
  EmptyOrNot (some sl, m) = Represents d sl [] []

  with_header-EmptyOrNot :
      (p : Pointer) (made : Option (SkipNode S) × Memory)
      → MadeOrNot max_level d.zero_score [] made
      → EmptyOrNot (with_header d p made)
  with_header-EmptyOrNot p (none, m) h = tt
  with_header-EmptyOrNot p (some n, m) (level, score, value, forward) = record {
    chain = (
      record {
        held_node = n;
        held = refl;
        tall = ap length forward ∙ length-replicate {A = Option ℕ} max_level none ∙ sym level;
        based = omega (arith, level);
        leads = λ i h.
            ap (λ f. get_elem? f i) forward
            ∙ get_elem?-replicate max_level i none (omega (arith, level, h));
      },
      tt,
    );
    distinct = (tt, tt);
    known = (omega arith, tt);
    counted = omega arith;
    low = tt;
    header_tall = level;
    level_bounds = (omega arith, omega arith);
    shows = tt;
    sized = refl;
    sorted = tt;
  }

  with_handle-EmptyOrNot : (r : Option Pointer × Memory) → EmptyOrNot (with_handle d r)
  with_handle-EmptyOrNot (none, m) = tt
  with_handle-EmptyOrNot (some p, m) =
      with_header-EmptyOrNot p (create_node max_level d.zero_score [] m)
        (create_node-MadeOrNot max_level d.zero_score [] m)

  -- A created list represents no entries.
  pub create_skiplist-Represents :
      (m : Memory) {sl : SkipList S} {m' : Memory}
      → create_skiplist d m ≡ (some sl, m')
      → Represents d sl [] []
  unfolding create_skiplist
  create_skiplist-Represents m h =
      subst EmptyOrNot h (with_handle-EmptyOrNot (malloc_track sizeof_skiplist m))
