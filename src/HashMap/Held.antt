-- ===== src/HashMap/Held.antt =====
-- What a hash map holds: the keys with their hashes and values, in any order, and what is left of them
-- where two have the same key.
use mathlib.Core.List.{Perm}
use mathlib.Core.List.Perm as Perms
use cdsa.Base.{
  ℕ, zero, suc, ◌<◌, ◌≡◌, refl, Option, none, some, List, [], ◌∷◌, ◌++◌, length, set, replicate,
  arith,
}
use cdsa.Text.{Key}
use cdsa.HashMap.{Entry, empty_entry, entry_at}

-- A key, its hash and its value.
abbrev pub Item {ℓ} : Type ℓ → Type ℓ
Item V = Key × ℕ × Option V

module _ {ℓ} {V : Type ℓ} where
  -- The items of an occupied slot and of the others.
  abbrev pub with_slot : Option Key → Entry V → List (Item V) → List (Item V)
  with_slot none e items = items
  with_slot (some k) e items = (k, e.hash, e.value) ∷ items

  abbrev pub held : List (Entry V) → List (Item V)
  held [] = []
  held (e ∷ es) = with_slot e.key e (held es)

  with_slot-cong :
      (k : Option Key) (e : Entry V) {xs ys : List (Item V)}
      → Perm xs ys
      → Perm (with_slot k e xs) (with_slot k e ys)
  with_slot-cong none e p = p
  with_slot-cong (some k) e p = Perms.cons (k, e.hash, e.value) p

  with_slot-swap :
      (k l : Option Key) (d e : Entry V) (xs : List (Item V))
      → Perm (with_slot k d (with_slot l e xs)) (with_slot l e (with_slot k d xs))
  with_slot-swap none l d e xs = Perms.rfl
  with_slot-swap (some k) none d e xs = Perms.rfl
  with_slot-swap (some k) (some l) d e xs = Perms.swap (l, e.hash, e.value) (k, d.hash, d.value) xs

  -- A write puts the new entry's item in place of the old one's.
  pub held-set :
      (es : List (Entry V)) (i : ℕ) (e : Entry V)
      → i < length es
      → Perm
          (with_slot (entry_at es i).key (entry_at es i) (held (set es i e)))
          (with_slot e.key e (held es))
  held-set [] i e h = absurd (omega arith)
  held-set (x ∷ es) zero e h = with_slot-swap x.key e.key x e (held es)
  held-set (x ∷ es) (suc i) e h =
      let s = entry_at es i in
      Perms.trans (with_slot-swap s.key x.key s x (held (set es i e))) (
        Perms.trans (with_slot-cong x.key x (held-set es i e (omega arith)))
          (with_slot-swap x.key e.key x e (held es)))

  pub held-replicate : (n : ℕ) → held (replicate n (empty_entry {V = V})) ≡ []
  held-replicate zero = refl
  held-replicate (suc n) = held-replicate n

  -- Of the items `xs`, the items `ys` are left: all of them, but for items of which another has the same
  -- key and hash.
  pub data Kept : List (Item V) → List (Item V) → Type ℓ where
    all : {xs ys : List (Item V)} → Perm xs ys → Kept xs ys
    merge :
        {xs ys : List (Item V)} (c s : Item V) (rest : List (Item V))
        → Perm xs (c ∷ s ∷ rest)
        → c.0 ≡ s.0
        → c.1 ≡ s.1
        → Kept (c ∷ rest) ys
        → Kept xs ys

  pub Kept-Perm : {xs ys zs : List (Item V)} → Perm xs ys → Kept ys zs → Kept xs zs
  Kept-Perm p (all q) = all (Perms.trans p q)
  Kept-Perm p (merge c s rest q k h t) = merge c s rest (Perms.trans p q) k h t

  pub Kept-trans : {xs ys zs : List (Item V)} → Kept xs ys → Kept ys zs → Kept xs zs
  Kept-trans (all p) t = Kept-Perm p t
  Kept-trans (merge c s rest q k h r) t = merge c s rest q k h (Kept-trans r t)

  pub Kept-cons : (x : Item V) {xs ys : List (Item V)} → Kept xs ys → Kept (x ∷ xs) (x ∷ ys)
  Kept-cons x (all p) = all (Perms.cons x p)
  Kept-cons x (merge c s rest q k h t) =
      merge c s (x ∷ rest)
        (Perms.trans (Perms.cons x q)
          (Perms.trans (Perms.swap c x (s ∷ rest)) (Perms.cons c (Perms.swap s x rest))))
        k h (Kept-Perm (Perms.swap x c rest) (Kept-cons x t))

  pub Kept-append :
      (ws : List (Item V)) {xs ys : List (Item V)} → Kept xs ys → Kept (ws ++ xs) (ws ++ ys)
  Kept-append [] t = t
  Kept-append (w ∷ ws) t = Kept-cons w (Kept-append ws t)
