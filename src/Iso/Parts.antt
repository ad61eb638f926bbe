-- ===== src/Iso/Parts.antt =====
-- packages/iso8583/src/codec.ts: one part of a message, read at its position, and the length before it.
use atm_xfs_simulator.Common.{
  ℕ, ◌+◌, ◌-◌, ◌*◌, ◌/◌, ◌%◌, ◌≡◌, ◌<◌, ◌≤◌, refl, sym, ap, ◌∙◌, subst, true, inl, inr, List, [],
  ◌∷◌, ◌++◌, ltb, length, take, drop, min, arith, Bool-cases, take-append, drop-append, drop-drop,
  length-append, length-drop,
}
use atm_xfs_simulator.Common.Int.{pos, ◌+ℤ◌}
use atm_xfs_simulator.Common.Chars.{
  is_digit, decimal, decimal_one, decimal_two, decimal_three, pad_start,
}
use atm_xfs_simulator.Iso.Codec.{at, ◌+p◌, slice_text, parse_int, digits_from, decode_var}

pub position_add : (c n : ℕ) → at (pos c) +p at (pos n) ≡ at (pos (c + n))
unfolding ◌+ℤ◌
position_add c n = ground arith

slice_text-drop :
    (wire : List ℕ) (c n : ℕ)
    → c + n ≤ length wire
    → slice_text wire (at (pos c)) (at (pos c) +p at (pos n)) ≡ take n (drop c wire)
unfolding ◌+ℤ◌
slice_text-drop wire c n h =
    let start : min c (length wire) ≡ c = omega (arith, h) in
    let size : min (c + n) (length wire) - c ≡ n = omega (arith, h) in
    (λ i. slice_text wire (at (pos c)) (position_add c n i))
    ∙ (λ i. take (min (c + n) (length wire) - start i) (drop (start i) wire))
    ∙ ap (λ (k : ℕ). take k (drop c wire)) size

digits_from-digit :
    (acc d : ℕ) (s : List ℕ)
    → d < 10
    → digits_from acc ((48 + d) ∷ s) ≡ digits_from (acc * 10 + d) s
unfolding digits_from
digits_from-digit acc d s h =
    let test : is_digit (48 + d) ≡ true = ground (arith, h) in
    let same : 48 + d - 48 ≡ d = omega arith in rw (test, same) refl

parse_int-digit :
    (d : ℕ) (s : List ℕ) → d < 10 → parse_int ((48 + d) ∷ s) ≡ at (pos (digits_from d s))
parse_int-digit d s h =
    let first : parse_int ((48 + d) ∷ s) ≡ at (pos (digits_from 0 ((48 + d) ∷ s))) =
      ground (arith, h) in
    first
    ∙ ap (λ (k : ℕ). at (pos k))
        (digits_from-digit 0 d s h ∙ ap (λ (k : ℕ). digits_from k s) (omega arith))

parse_two :
    (a b : ℕ) → a < 10 → b < 10 → parse_int ((48 + a) ∷ (48 + b) ∷ []) ≡ at (pos (a * 10 + b))
unfolding digits_from
parse_two a b ha hb =
    parse_int-digit a ((48 + b) ∷ []) ha ∙ ap (λ (k : ℕ). at (pos k)) (digits_from-digit a b [] hb)

parse_three :
    (a b c : ℕ)
    → a < 10
    → b < 10
    → c < 10
    → parse_int ((48 + a) ∷ (48 + b) ∷ (48 + c) ∷ []) ≡ at (pos ((a * 10 + b) * 10 + c))
unfolding digits_from
parse_three a b c ha hb hc =
    parse_int-digit a ((48 + b) ∷ (48 + c) ∷ []) ha
    ∙ ap (λ (k : ℕ). at (pos k))
        (digits_from-digit a b ((48 + c) ∷ []) hb ∙ digits_from-digit (a * 10 + b) c [] hc)

-- A prefix of `k` digits that reads as `n`.
abbrev pub IsPrefix : (k n : ℕ) → List ℕ → Type 0
IsPrefix k n s = (length s ≡ k) × (parse_int s ≡ at (pos n))

pub IsPrefix-two : (n : ℕ) → n < 100 → IsPrefix 2 n (pad_start 2 48 (decimal n))
IsPrefix-two n h = elim (Bool-cases (ltb n 10)) [
  | inl one ↦
      subst (λ z. IsPrefix 2 n (pad_start 2 48 z)) (sym (decimal_one n (ground (arith, one))))
        (
          refl,
          parse_two 0 n (omega arith) (ground (arith, one))
              ∙ ap (λ (k : ℕ). at (pos k)) (omega arith),
        )
  | inr two ↦
      subst (λ z. IsPrefix 2 n (pad_start 2 48 z)) (sym (decimal_two n (ground (arith, two)) h))
        (
          refl,
          parse_two (n / 10) (n % 10) (omega arith) (omega arith)
              ∙ ap (λ (k : ℕ). at (pos k)) (omega arith),
        )
]

pub IsPrefix-three : (n : ℕ) → n < 1000 → IsPrefix 3 n (pad_start 3 48 (decimal n))
IsPrefix-three n h = elim (Bool-cases (ltb n 10)) [
  | inl one ↦
      subst (λ z. IsPrefix 3 n (pad_start 3 48 z)) (sym (decimal_one n (ground (arith, one))))
        (
          refl,
          parse_three 0 0 n (omega arith) (omega arith) (ground (arith, one))
              ∙ ap (λ (k : ℕ). at (pos k)) (omega arith),
        )
  | inr more ↦ elim (Bool-cases (ltb n 100)) [
    | inl two ↦
        subst (λ z. IsPrefix 3 n (pad_start 3 48 z))
          (sym (decimal_two n (ground (arith, more)) (ground (arith, two))))
          (
            refl,
            parse_three 0 (n / 10) (n % 10) (omega arith) (ground (arith, two)) (omega arith)
                ∙ ap (λ (k : ℕ). at (pos k)) (omega arith),
          )
    | inr three ↦
        subst (λ z. IsPrefix 3 n (pad_start 3 48 z))
          (sym (decimal_three n (ground (arith, three)) h))
          (
            refl,
            parse_three (n / 100) (n / 10 % 10) (n % 10) (omega arith) (omega arith) (omega arith)
                ∙ ap (λ (k : ℕ). at (pos k)) (omega arith),
          )
  ]
]

pub drop-next :
    (c : ℕ) (wire part rest : List ℕ)
    → drop c wire ≡ part ++ rest
    → drop (c + length part) wire ≡ rest
drop-next c wire part rest e =
    sym (drop-drop (length part) c wire) ∙ ap (drop (length part)) e ∙ drop-append part rest

pub part-inside :
    (c : ℕ) (wire part rest : List ℕ)
    → c ≤ length wire
    → drop c wire ≡ part ++ rest
    → c + length part ≤ length wire
part-inside c wire part rest h e =
    omega (arith, h, ap length e, length-drop c wire, length-append part rest)

pub slice_text-part :
    (c : ℕ) (wire part rest : List ℕ)
    → c ≤ length wire
    → drop c wire ≡ part ++ rest
    → slice_text wire (at (pos c)) (at (pos c) +p at (pos (length part))) ≡ part
slice_text-part c wire part rest h e =
    slice_text-drop wire c (length part) (part-inside c wire part rest h e)
    ∙ ap (take (length part)) e
    ∙ take-append part rest

pub decode_var-prefix :
    (k c : ℕ) (wire s v rest : List ℕ)
    → IsPrefix k (length v) s
    → c ≤ length wire
    → drop c wire ≡ s ++ (v ++ rest)
    → decode_var k wire (at (pos c)) ≡ (v, at (pos (c + length (s ++ v))))
decode_var-prefix k c wire s v rest (size, number) h e =
    let from = c + length s in
    let here : slice_text wire (at (pos c)) (at (pos c) +p at (pos k)) ≡ s =
      subst (λ j. slice_text wire (at (pos c)) (at (pos c) +p at (pos j)) ≡ s) size
        (slice_text-part c wire s (v ++ rest) h e) in
    let read = ap parse_int here ∙ number in
    let start : at (pos c) +p at (pos k) ≡ at (pos from) =
      subst (λ j. at (pos c) +p at (pos j) ≡ at (pos from)) size (position_add c (length s)) in
    let value =
      slice_text-part from wire v rest (part-inside c wire s (v ++ rest) h e)
        (drop-next c wire s (v ++ rest) e) in
    let total : from + length v ≡ c + length (s ++ v) = omega (arith, length-append s v) in
    (λ i. (slice_text wire (start i) (start i +p read i), start i +p read i))
    ∙ (λ i. (value i, position_add from (length v) i))
    ∙ ap (λ (n : ℕ). (v, at (pos n))) total
