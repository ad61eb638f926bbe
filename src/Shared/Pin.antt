-- ===== src/Shared/Pin.antt =====
-- packages/shared/src/crypto.ts: PIN hashes. Texts are lists of character codes, and buffers lists
-- of bytes; node's SHA-256 and hex codec are the parameter `Crypto`.
use Prim.Native.Char.{code}
use atm_xfs_simulator.Common.{
  ℕ, String, Bool, true, false, ◌&&◌, List, [], ◌∷◌, ◌++◌, Option, none, some, ◌==◌, if◌then◌else◌,
}

pub record Crypto : Type 0 where
  pub sha256 : (salt pin : List ℕ) → List ℕ
  pub from_hex : List ℕ → List ℕ
  pub to_hex : List ℕ → List ℕ

abbrev pub codes : String → List ℕ
codes String.[] = []
codes (String.◌∷◌ c s) = code c ∷ codes s

unfoldable pub list_eq : List ℕ → List ℕ → Bool
list_eq [] [] = true
list_eq (x ∷ xs) (y ∷ ys) = x == y && list_eq xs ys
list_eq _ _ = false

abbrev pub dollar : ℕ
dollar = 36

abbrev pub prefix : List ℕ
prefix = codes "sha256$"

unfoldable pub strip_prefix : List ℕ → List ℕ → Option (List ℕ)
strip_prefix [] s = some s
strip_prefix (p ∷ ps) [] = none
strip_prefix (p ∷ ps) (c ∷ s) = if p == c then strip_prefix ps s else none

abbrev pub add_to_first : ℕ → List (List ℕ) → List (List ℕ)
add_to_first c [] = (c ∷ []) ∷ []
add_to_first c (part ∷ parts) = (c ∷ part) ∷ parts

-- `split('$')`
unfoldable pub split_dollar : List ℕ → List (List ℕ)
split_dollar [] = [] ∷ []
split_dollar (c ∷ s) =
    let rest = split_dollar s in if c == dollar then [] ∷ rest else add_to_first c rest

module _ (k : Crypto) where
  unfoldable pub hash_pin : (salt pin : List ℕ) → List ℕ
  hash_pin salt pin = prefix ++ k.to_hex salt ++ dollar ∷ k.to_hex (k.sha256 salt pin)

  -- The comparison of two digests, whose lengths are compared first.
  unfoldable pub compare_digest : List ℕ → List (List ℕ) → Bool
  compare_digest pin ((s ∷ salt) ∷ (h ∷ hash) ∷ []) =
      list_eq (k.sha256 (k.from_hex (s ∷ salt)) pin) (k.from_hex (h ∷ hash))
  compare_digest pin _ = false

  abbrev pub check_rest : List ℕ → Option (List ℕ) → Bool
  check_rest pin none = false
  check_rest pin (some rest) = compare_digest pin (split_dollar rest)

  unfoldable pub verify_pin : (pin stored : List ℕ) → Bool
  verify_pin pin stored = check_rest pin (strip_prefix prefix stored)
