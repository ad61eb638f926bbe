-- ===== src/Emv/Apdu.antt =====
-- packages/emv/src/apdu.ts, `parseApdu`, on bytes.
use atm_xfs_simulator.Common.{
  ℕ, List, [], ◌∷◌, Result, ok, err, if◌then◌else◌, ltb, length, take, drop,
}

pub record ParsedApdu : Type 0 where
  pub cla : ℕ
  pub ins : ℕ
  pub p1 : ℕ
  pub p2 : ℕ
  pub lc : ℕ
  pub data_bytes : List ℕ
  pub le : ℕ

pub data ApduError : Type 0 where
  too_short : ℕ → ApduError
  truncated : (lc have : ℕ) → ApduError

-- `bytes[5 + lc]`, if there is one.
abbrev pub le_of : List ℕ → ℕ
le_of [] = 0
le_of (b ∷ bs) = b

abbrev pub parse_body : (cla ins p1 p2 : ℕ) → List ℕ → Result ApduError ParsedApdu
parse_body cla ins p1 p2 [] =
    ok (record { cla = cla; ins = ins; p1 = p1; p2 = p2; lc = 0; data_bytes = []; le = 0 })
parse_body cla ins p1 p2 (le ∷ []) =
    ok (record { cla = cla; ins = ins; p1 = p1; p2 = p2; lc = 0; data_bytes = []; le = le })
parse_body cla ins p1 p2 (lc ∷ b ∷ bs) =
    if ltb (length (b ∷ bs)) lc
    then err (truncated lc (length (b ∷ bs)))
    else ok (record {
      cla = cla;
      ins = ins;
      p1 = p1;
      p2 = p2;
      lc = lc;
      data_bytes = take lc (b ∷ bs);
      le = le_of (drop lc (b ∷ bs));
    })

unfoldable pub parse_apdu : List ℕ → Result ApduError ParsedApdu
parse_apdu (cla ∷ ins ∷ p1 ∷ p2 ∷ body) = parse_body cla ins p1 p2 body
parse_apdu bytes = err (too_short (length bytes))
