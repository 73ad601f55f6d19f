-- ===== src/SkipList/Names.antt =====
-- Lists of names: what all of them satisfy, and that none stands twice.
use cdsa.Base.{ℕ, ◌≢◌, sym, List, [], ◌∷◌, ◌++◌}

-- Every element satisfies the predicate.
abbrev pub All {ℓ κ} : {A : Type ℓ} → (A → Type κ) → List A → Type κ
All P [] = Unit
All P (x ∷ xs) = P x × All P xs

pub All-append {ℓ κ} :
    {A : Type ℓ} (P : A → Type κ) (xs ys : List A) → All P xs → All P ys → All P (xs ++ ys)
All-append P [] ys h k = k
All-append P (x ∷ xs) ys h k = (h.0, All-append P xs ys h.1 k)

pub All-append_left {ℓ κ} :
    {A : Type ℓ} (P : A → Type κ) (xs ys : List A) → All P (xs ++ ys) → All P xs
All-append_left P [] ys h = tt
All-append_left P (x ∷ xs) ys h = (h.0, All-append_left P xs ys h.1)

pub All-append_right {ℓ κ} :
    {A : Type ℓ} (P : A → Type κ) (xs ys : List A) → All P (xs ++ ys) → All P ys
All-append_right P [] ys h = h
All-append_right P (x ∷ xs) ys h = All-append_right P xs ys h.1

pub All-map {ℓ κ μ} :
    {A : Type ℓ} {P : A → Type κ} {Q : A → Type μ} (xs : List A)
    → ((x : A) → P x → Q x)
    → All P xs
    → All Q xs
All-map [] f h = tt
All-map (x ∷ xs) f h = (f x h.0, All-map xs f h.1)

-- No name stands twice.
abbrev pub IsDistinct : List ℕ → Type 0
IsDistinct [] = Unit
IsDistinct (p ∷ ps) = All (λ q. q ≢ p) ps × IsDistinct ps

pub All-insert {ℓ κ} :
    {A : Type ℓ} (P : A → Type κ) (xs ys : List A) (x : A)
    → All P (xs ++ ys)
    → P x
    → All P (xs ++ x ∷ ys)
All-insert P [] ys x h k = (k, h)
All-insert P (z ∷ xs) ys x h k = (h.0, All-insert P xs ys x h.1 k)

pub IsDistinct-append_left : (ps qs : List ℕ) → IsDistinct (ps ++ qs) → IsDistinct ps
IsDistinct-append_left [] qs d = tt
IsDistinct-append_left (p ∷ ps) qs d =
    (All-append_left (λ q. q ≢ p) ps qs d.0, IsDistinct-append_left ps qs d.1)

-- The names of the one part are not among those of the other.
pub IsDistinct-apart : (ps qs : List ℕ) → IsDistinct (ps ++ qs) → All (λ p. All (λ q. q ≢ p) qs) ps
IsDistinct-apart [] qs d = tt
IsDistinct-apart (p ∷ ps) qs d =
    (All-append_right (λ q. q ≢ p) ps qs d.0, IsDistinct-apart ps qs d.1)

-- A name that is not there can be put anywhere.
pub IsDistinct-insert :
    (ps qs : List ℕ) (x : ℕ)
    → IsDistinct (ps ++ qs)
    → All (λ q. q ≢ x) (ps ++ qs)
    → IsDistinct (ps ++ x ∷ qs)
IsDistinct-insert [] qs x d h = (h, d)
IsDistinct-insert (p ∷ ps) qs x d h =
    (All-insert (λ q. q ≢ p) ps qs x d.0 (λ e. h.0 (sym e)), IsDistinct-insert ps qs x d.1 h.1)

pub All-delete {ℓ κ} :
    {A : Type ℓ} (P : A → Type κ) (xs ys : List A) (x : A) → All P (xs ++ x ∷ ys) → All P (xs ++ ys)
All-delete P [] ys x h = h.1
All-delete P (z ∷ xs) ys x h = (h.0, All-delete P xs ys x h.1)

pub IsDistinct-delete : (ps qs : List ℕ) (x : ℕ) → IsDistinct (ps ++ x ∷ qs) → IsDistinct (ps ++ qs)
IsDistinct-delete [] qs x d = d.1
IsDistinct-delete (p ∷ ps) qs x d =
    (All-delete (λ q. q ≢ p) ps qs x d.0, IsDistinct-delete ps qs x d.1)

-- A name that stands in the middle stands nowhere else.
pub IsDistinct-middle :
    (ps qs : List ℕ) (x : ℕ) → IsDistinct (ps ++ x ∷ qs) → All (λ q. q ≢ x) (ps ++ qs)
IsDistinct-middle [] qs x d = d.0
IsDistinct-middle (p ∷ ps) qs x d = (
  (λ e. (All-append_right (λ q. q ≢ p) ps (x ∷ qs) d.0).0 (sym e)),
  IsDistinct-middle ps qs x d.1,
)
