-- ===== src/KString/Tests.antt =====
-- Runs of the string, and its theorems at concrete inputs.
use cdsa.Base.{ℕ, ◌≡◌, ◌≤◌, refl, none, some, List, ◌∷◌, replicate, length, arith}
use cdsa.Error.{ok, oom}
use cdsa.Allocator.{realloc_track}
use cdsa.Allocator.Samples.{serving, refusing, block}
use cdsa.KString.{KString, append_kstring, doubled_until}
use cdsa.KString.Append.{IsValid, Appended, append_kstring-Appended, append_after_oom}

-- "AB" in sixteen bytes.
abbrev greeting : KString
greeting = record {
  handle = block 24;
  storage = record { addr = 8200; size = 16 };
  cells = some 65 ∷ some 66 ∷ some 0 ∷ replicate 13 none;
  size = 2;
  capacity = 16;
}

greeting-IsValid : IsValid greeting
greeting-IsValid = record {
  bytes = refl;
  stored = refl;
  within = omega arith;
  roomy = omega arith;
  terminated = refl;
}

-- Forty times "a".
abbrev long_text : List ℕ
long_text = replicate 40 97

append_kstring-Appended_example :
    Appended greeting long_text (append_kstring (some greeting) (some long_text) serving)
append_kstring-Appended_example =
    append_kstring-Appended greeting long_text serving greeting-IsValid (omega arith)

abbrev deluded : KString
deluded = record greeting { capacity = 64 }

greeting_refused :
    append_kstring (some greeting) (some long_text) refusing
    ≡ some (oom, some deluded, record refusing { calls = 8 })
unfolding append_kstring doubled_until realloc_track
greeting_refused = refl

append_after_oom_example :
    (u : KString) × (append_kstring (some deluded) (some long_text) serving
      ≡ some (ok, some u, serving))
    × (length u.cells ≤ u.size)
append_after_oom_example =
    append_after_oom greeting deluded long_text refusing (record refusing { calls = 8 }) serving
      greeting-IsValid (omega arith) greeting_refused
