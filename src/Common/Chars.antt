-- ===== src/Common/Chars.antt =====
-- Texts as lists of character codes: the parts of the language's string library that the program uses.
use atm_xfs_simulator.Common.Lists.{length, replicate}
use atm_xfs_simulator.Common.Tests.{ltb, leb, ◌==◌, if◌then◌else◌}
use Prim.Native.Nat.{ℕ, zero, suc, ◌+◌, ◌-◌, ◌/◌, ◌%◌, ◌≤◌, ◌<◌}
use mathlib.Core.Path.{◌≡◌, refl, ap, ◌∙◌}
use mathlib.Core.Bool.{Bool}
unfoldable use mathlib.Core.Bool.{◌&&◌, ◌||◌}
use mathlib.Core.List.{List, [], ◌∷◌, ◌++◌}
use native.Mathlib.Omega.{arith}

-- The class `\s`, which `trimEnd` and `parseInt` skip too.
abbrev pub is_space : ℕ → Bool
is_space c =
    (leb 9 c && leb c 13)
    || c == 32
    || c == 160
    || c == 0x1680
    || (leb 0x2000 c && leb c 0x200a)
    || c == 0x2028
    || c == 0x2029
    || c == 0x202f
    || c == 0x205f
    || c == 0x3000
    || c == 0xfeff

abbrev pub is_digit : ℕ → Bool
is_digit c = leb 48 c && leb c 57

-- A digit in upper case.
abbrev pub hex_digit : ℕ → ℕ
hex_digit n = if ltb n 10 then 48 + n else 55 + n

-- The digits of a number to a base, the lowest last; `n` digits at most.
unfoldable pub digits : (base n x : ℕ) → List ℕ
digits base zero x = []
digits base (suc n) x =
    let higher = digits base n (x / base) in
    (if x / base == 0 then [] else higher) ++ (hex_digit (x % base) ∷ [])

-- `String(x)`; an integer of JavaScript has 16 digits at most.
abbrev pub decimal : ℕ → List ℕ
decimal x = digits 10 16 x

abbrev pub pad_start : ℕ → ℕ → List ℕ → List ℕ
pad_start n c s = replicate (n - length s) c ++ s

abbrev pub pad_end : ℕ → ℕ → List ℕ → List ℕ
pad_end n c s = s ++ replicate (n - length s) c

abbrev pub trim_from : ℕ → List ℕ → List ℕ
trim_from c [] = if is_space c then [] else c ∷ []
trim_from c (d ∷ s) = c ∷ d ∷ s

-- `trimEnd`
abbrev pub trim_end : List ℕ → List ℕ
trim_end [] = []
trim_end (c ∷ s) = trim_from c (trim_end s)

trim_end-spaces : (n : ℕ) → trim_end (replicate n 32) ≡ []
trim_end-spaces zero = refl
trim_end-spaces (suc n) = ap (trim_from 32) (trim_end-spaces n)

pub trim_end-append : (s : List ℕ) (n : ℕ) → trim_end (s ++ replicate n 32) ≡ trim_end s
trim_end-append [] n = trim_end-spaces n
trim_end-append (c ∷ s) n = ap (trim_from c) (trim_end-append s n)

digits_one : (n x : ℕ) → x < 10 → digits 10 (suc n) x ≡ (48 + x) ∷ []
unfolding digits
digits_one n x h = ground arith

digits_more :
    (n x : ℕ) → 10 ≤ x → digits 10 (suc n) x ≡ digits 10 n (x / 10) ++ ((48 + x % 10) ∷ [])
unfolding digits
digits_more n x h = ground arith

pub decimal_one : (x : ℕ) → x < 10 → decimal x ≡ (48 + x) ∷ []
decimal_one x h = digits_one 15 x h

pub decimal_two : (x : ℕ) → 10 ≤ x → x < 100 → decimal x ≡ (48 + x / 10) ∷ (48 + x % 10) ∷ []
decimal_two x low h =
    digits_more 15 x low
    ∙ ap (λ z. z ++ ((48 + x % 10) ∷ [])) (digits_one 14 (x / 10) (omega arith))

pub decimal_three :
    (x : ℕ)
    → 100 ≤ x
    → x < 1000
    → decimal x ≡ (48 + x / 100) ∷ (48 + x / 10 % 10) ∷ (48 + x % 10) ∷ []
decimal_three x low h =
    let hundreds : x / 10 / 10 ≡ x / 100 = omega arith in
    digits_more 15 x (omega arith)
    ∙ ap (λ z. z ++ ((48 + x % 10) ∷ []))
        (digits_more 14 (x / 10) (omega arith)
          ∙ ap (λ z. z ++ ((48 + x / 10 % 10) ∷ [])) (digits_one 13 (x / 10 / 10) (omega arith)))
    ∙ ap (λ (d : ℕ). (48 + d) ∷ (48 + x / 10 % 10) ∷ (48 + x % 10) ∷ []) hundreds
