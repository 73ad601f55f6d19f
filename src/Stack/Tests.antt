-- ===== src/Stack/Tests.antt =====
-- The stack's theorem at a concrete input.
use cdsa.Base.{ℕ, ◌≡◌, ◌⊎◌, refl, some, [], ◌∷◌, arith}
use cdsa.Error.{ok, oom}
use cdsa.Allocator.{Memory}
use cdsa.Allocator.Samples.{serving, block}
use cdsa.Vector.{Vector}
use cdsa.Vector.Inv.{IsValid}
use cdsa.Stack.{Stack, push_stack}
use cdsa.Stack.Lifo.{OnTop, push_stack_lem}

-- Four elements in the four cells there are.
abbrev crowd : Vector ℕ
crowd = record {
  handle = block 40;
  storage = record { addr = 8200; size = 16 };
  cells = some 7 ∷ some 8 ∷ some 9 ∷ some 5 ∷ [];
  size = 4;
  capacity = 4;
  elem_size = 4;
  version = 4;
}

crowd-IsValid : IsValid crowd
crowd-IsValid = record {
  some_bytes = omega arith;
  some_room = omega arith;
  no_overflow = omega arith;
  bytes = refl;
  stored = refl;
  within = omega arith;
}

abbrev pile : Stack ℕ
pile = record { handle = block 8; vec = some crowd }

push_stack_lem_example :
    ((s' : Stack ℕ) × (m' : Memory) × (push_stack (some pile) (some 3) serving ≡ (ok, some s', m'))
      × OnTop crowd 3 s')
    ⊎ ((s' : Stack ℕ) × (m' : Memory) × (push_stack (some pile) (some 3) serving
          ≡ (oom, some s', m')))
push_stack_lem_example = push_stack_lem pile crowd 3 serving refl crowd-IsValid (omega arith)
