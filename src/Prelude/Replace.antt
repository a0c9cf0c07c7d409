-- ===== src/Prelude/Replace.antt =====
-- `str::replace` for a pattern that is not empty, and what it makes of a text in pieces.
use Prim.Native.Nat.{ℕ, zero, suc, ◌<◌, ◌/◌, ◌%◌}
use Prim.Native.Char.{Char, code}
use Prim.Native.String
use Prim.Native.String.{String}
use mathlib.Core.Path.{◌≡◌, refl, sym, ap, ◌∙◌}
use mathlib.Core.Bool.{Bool, true, false, not, ◌&&◌}
use mathlib.Core.Logic.{inl, inr}
use native.Mathlib.Omega.{arith}
use text.Mathlib.TextLemmas.{nil-append, cons-append}
use r_mini_k8s.Prelude.Tests.{nat_beq, nat_beq_iff, ltb, Bool-cases}
use r_mini_k8s.Prelude.Texts.{digit, digits, decimal}

unfoldable pub is_prefix : String → String → Bool
is_prefix String.[] s = true
is_prefix (String.◌∷◌ c p) String.[] = false
is_prefix (String.◌∷◌ c p) (String.◌∷◌ d s) = nat_beq (code c) (code d) && is_prefix p s

abbrev chars : String → ℕ
chars String.[] = 0
chars (String.◌∷◌ c s) = suc (chars s)

-- The characters of a pattern but the first
abbrev others : String → ℕ
others String.[] = 0
others (String.◌∷◌ c p) = chars p

-- From left to right; `skip` characters belong to an occurrence that has been replaced.
unfoldable pub scan : String → String → ℕ → String → String
unfolding is_prefix
scan pattern new skip String.[] = ""
scan pattern new (suc skip) (String.◌∷◌ c s) = scan pattern new skip s
scan pattern new zero (String.◌∷◌ c s) = elim (is_prefix pattern (String.◌∷◌ c s)) [
  | true ↦ String.◌++◌ new (scan pattern new (others pattern) s)
  | false ↦ String.◌∷◌ c (scan pattern new zero s)
]

unfoldable pub replace : String → String → String → String
unfolding scan
replace s pattern new = scan pattern new 0 s

-- The text does not have the character of the code.
unfoldable pub lacks : ℕ → String → Bool
lacks n String.[] = true
lacks n (String.◌∷◌ c s) = not (nat_beq n (code c)) && lacks n s

pub lacks-append :
    (n : ℕ) (s t : String) → lacks n s ≡ true → lacks n t ≡ true → lacks n (String.◌++◌ s t) ≡ true
unfolding lacks
lacks-append n String.[] t hs ht = rw (nil-append t) ht
lacks-append n (String.◌∷◌ c s) t hs ht =
    rw (cons-append c s t) (ground (arith, lacks-append n s t))

scan-hit :
    (pattern new : String) (c : Char) (s : String)
    → is_prefix pattern (String.◌∷◌ c s) ≡ true
    → scan pattern new 0 (String.◌∷◌ c s) ≡ String.◌++◌ new (scan pattern new (others pattern) s)
unfolding scan
scan-hit pattern new c s h = rw (h, scan) refl

scan-miss :
    (pattern new : String) (c : Char) (s : String)
    → is_prefix pattern (String.◌∷◌ c s) ≡ false
    → scan pattern new 0 (String.◌∷◌ c s) ≡ String.◌∷◌ c (scan pattern new 0 s)
unfolding scan
scan-miss pattern new c s h = rw (h, scan) refl

scan-skip :
    (pattern new a s : String) → scan pattern new (chars a) (String.◌++◌ a s) ≡ scan pattern new 0 s
unfolding scan
scan-skip pattern new String.[] s = rw (nil-append s) refl
scan-skip pattern new (String.◌∷◌ c a) s = rw (cons-append c a s) (scan-skip pattern new a s)

is_prefix-append : (p s : String) → is_prefix p (String.◌++◌ p s) ≡ true
unfolding is_prefix
is_prefix-append String.[] s = refl
is_prefix-append (String.◌∷◌ c p) s =
    rw (cons-append c p s) (ground (arith, is_prefix-append p s, nat_beq_iff (code c) (code c)))

-- A piece without the first character of the pattern stays as it is.
pub replace-lacks :
    (c : Char) (p new a s : String)
    → lacks (code c) a ≡ true
    → replace (String.◌++◌ a s) (String.◌∷◌ c p) new
      ≡ String.◌++◌ a (replace s (String.◌∷◌ c p) new)
unfolding replace scan lacks is_prefix
replace-lacks c p new String.[] s h =
    rw (nil-append s, nil-append (scan (String.◌∷◌ c p) new 0 s)) refl
replace-lacks c p new (String.◌∷◌ d a) s h =
    let rest : lacks (code c) a ≡ true = ground arith in
    let missed : is_prefix (String.◌∷◌ c p) (String.◌∷◌ d (String.◌++◌ a s)) ≡ false =
      ground arith in
    rw (cons-append d a s, cons-append d a (scan (String.◌∷◌ c p) new 0 s))
      (scan-miss (String.◌∷◌ c p) new d (String.◌++◌ a s) missed
        ∙ ap (λ t. String.◌∷◌ d t) (replace-lacks c p new a s rest))

-- An occurrence is replaced.
pub replace-occurs :
    (c : Char) (p new s : String)
    → replace (String.◌++◌ (String.◌∷◌ c p) s) (String.◌∷◌ c p) new
      ≡ String.◌++◌ new (replace s (String.◌∷◌ c p) new)
unfolding replace scan
replace-occurs c p new s =
    let found : is_prefix (String.◌∷◌ c p) (String.◌∷◌ c (String.◌++◌ p s)) ≡ true =
      ap (is_prefix (String.◌∷◌ c p)) (sym (cons-append c p s))
      ∙ is_prefix-append (String.◌∷◌ c p) s in
    rw (cons-append c p s) (
      scan-hit (String.◌∷◌ c p) new c (String.◌++◌ p s) found
      ∙ ap (String.◌++◌ new) (scan-skip (String.◌∷◌ c p) new p s))

digit-lacks : (d : ℕ) → d < 10 → lacks 80 (digit d) ≡ true
unfolding lacks
digit-lacks zero h = refl
digit-lacks (suc zero) h = refl
digit-lacks (suc (suc zero)) h = refl
digit-lacks (suc (suc (suc zero))) h = refl
digit-lacks (suc (suc (suc (suc zero)))) h = refl
digit-lacks (suc (suc (suc (suc (suc zero))))) h = refl
digit-lacks (suc (suc (suc (suc (suc (suc zero)))))) h = refl
digit-lacks (suc (suc (suc (suc (suc (suc (suc zero))))))) h = refl
digit-lacks (suc (suc (suc (suc (suc (suc (suc (suc zero)))))))) h = refl
digit-lacks (suc (suc (suc (suc (suc (suc (suc (suc (suc zero))))))))) h = refl
digit-lacks (suc (suc (suc (suc (suc (suc (suc (suc (suc (suc d)))))))))) h = absurd (omega arith)

digits-lacks : (fuel n : ℕ) → lacks 80 (digits fuel n) ≡ true
unfolding lacks
digits-lacks zero n = refl
digits-lacks (suc fuel) n = elim (Bool-cases (ltb n 10)) [
  | inl e ↦ rw (e) (digit-lacks n (ground (arith, e)))
  | inr e ↦ rw (e) (
      lacks-append 80 (digits fuel (n / 10)) (digit (n % 10)) (digits-lacks fuel (n / 10))
        (digit-lacks (n % 10) (omega arith)))
]

-- A number has no letter P.
pub decimal-lacks : (n : ℕ) → lacks 80 (decimal n) ≡ true
unfolding decimal
decimal-lacks n = digits-lacks (suc n) n
