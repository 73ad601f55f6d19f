-- ===== src/Text.antt =====
-- C strings, as the lists of their bytes in front of the terminator, and the C library's comparison
-- of them. `strlen` is `length`.
use cdsa.Base.{ℕ, Bool, true, false, ◌&&◌, ◌||◌, List, [], ◌∷◌, ltb, ◌==◌, ◌≡◌, refl, arith}

abbrev pub Key : Type 0
Key = List ℕ

-- `strcmp(a, b) == 0`
abbrev pub str_eq : Key → Key → Bool
str_eq [] [] = true
str_eq [] (c ∷ b) = false
str_eq (c ∷ a) [] = false
str_eq (c ∷ a) (d ∷ b) = (c == d) && str_eq a b

-- `strcmp(a, b) < 0`
abbrev pub str_lt : Key → Key → Bool
str_lt [] [] = false
str_lt [] (c ∷ b) = true
str_lt (c ∷ a) [] = false
str_lt (c ∷ a) (d ∷ b) = ltb c d || ((c == d) && str_lt a b)

-- Texts that `strcmp` finds equal are.
pub str_eq→eq : (a b : Key) → str_eq a b ≡ true → a ≡ b
str_eq→eq [] [] h = refl
str_eq→eq [] (d ∷ b) h = absurd (cc h)
str_eq→eq (c ∷ a) [] h = absurd (cc h)
str_eq→eq (c ∷ a) (d ∷ b) h = ground (arith, str_eq→eq a b)
