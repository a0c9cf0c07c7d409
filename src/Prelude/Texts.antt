-- ===== src/Prelude/Texts.antt =====
-- `format!` of pieces of text and of numbers, and the search for a text.
use Prim.Native.Nat.{ℕ, zero, suc, ◌+◌, ◌/◌, ◌%◌}
use Prim.Native.String
use Prim.Native.String.{String}
use mathlib.Core.Bool.{Bool}
use mathlib.Core.List.{List, [], ◌∷◌}
use r_mini_k8s.Prelude.Tests.{leb, ltb, if◌then◌else◌}

abbrev pub text : List String → String
text [] = ""
text (s ∷ ss) = String.◌++◌ s (text ss)

abbrev pub digit : ℕ → String
digit d = String.slice "0123456789" d (d + 1)

abbrev pub digits : ℕ → ℕ → String
digits zero n = ""
digits (suc fuel) n =
    if ltb n 10 then digit n else String.◌++◌ (digits fuel (n / 10)) (digit (n % 10))

-- As many rounds as the number are enough, since each divides by 10.
unfoldable pub decimal : ℕ → String
decimal n = digits (suc n) n

-- `str::contains`
abbrev pub has_text : String → String → Bool
has_text s t = leb (String.find s t) (String.len s)
