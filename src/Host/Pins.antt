-- ===== src/Host/Pins.antt =====
-- apps/xfs-server/src/host/host-emulator.service.ts, `authenticate` and `verifyPin`, with
-- packages/shared/src/crypto.ts.
use atm_xfs_simulator.Common.{
  ℕ, ◌+◌, ◌-◌, ◌*◌, ◌<◌, ◌≤◌, ◌≡◌, refl, ◌≢◌, ◌⊎◌, ◌↔◌, String, true, false, Option, none, some,
  List, [], ◌∷◌, ◌++◌, Result, ok, arith, All, inl, inr, Option-cases, Bool-cases, str_eq, leb, ap,
}
use atm_xfs_simulator.Iso.{IsoResponseCode}
use atm_xfs_simulator.Shared.Pin.{
  Crypto, dollar, prefix, strip_prefix, split_dollar, compare_digest, list_eq, hash_pin, verify_pin,
}
use atm_xfs_simulator.Host.Tables.{
  Db, CardRow, CardStatus, AccountRow, AccountStatus, card_in, find_card, find_account, update_in,
  update_card,
}
use atm_xfs_simulator.Host.Card.{Now, is_expired}
use atm_xfs_simulator.Host.{
  Host, Env, AuthResult, authenticate, check_card, accepted, verify_card_pin, refused, failure_code,
  clear_failures, count_failure, HostError,
}

strip-append : (ps s : List ℕ) → strip_prefix ps (ps ++ s) ≡ some s
unfolding strip_prefix
strip-append [] s = refl
strip-append (p ∷ ps) s = ground (arith, strip-append ps s)

-- The text holds no `$`.
abbrev pub IsPlain : List ℕ → Type 0
IsPlain s = All (λ c. c ≢ dollar) s

split-plain : (s : List ℕ) → IsPlain s → split_dollar s ≡ s ∷ []
unfolding split_dollar
split-plain [] h = refl
split-plain (c ∷ s) (ne, h) = ground (arith, split-plain s h)

split-two : (s t : List ℕ) → IsPlain s → IsPlain t → split_dollar (s ++ dollar ∷ t) ≡ s ∷ t ∷ []
unfolding split_dollar
split-two [] t h p = ground (arith, split-plain t p)
split-two (c ∷ s) t (ne, h) p = ground (arith, split-two s t h p)

-- What is documented of the hex codec: it decodes what it has encoded, its texts are free of `$`,
-- and only the empty buffer has the empty text.
pub record IsHexCodec (k : Crypto) : Type 0 where
  pub decodes : (bytes : List ℕ) → k.from_hex (k.to_hex bytes) ≡ bytes
  pub plain : (bytes : List ℕ) → IsPlain (k.to_hex bytes)
  pub inhabited : (bytes : List ℕ) → bytes ≢ [] → k.to_hex bytes ≢ []

compare_two :
    (k : Crypto) (pin s t : List ℕ)
    → s ≢ []
    → t ≢ []
    → compare_digest k pin (s ∷ t ∷ []) ≡ list_eq (k.sha256 (k.from_hex s) pin) (k.from_hex t)
unfolding compare_digest
compare_two k pin [] t h g = absurd (h refl)
compare_two k pin (x ∷ s) [] h g = absurd (g refl)
compare_two k pin (x ∷ s) (y ∷ t) h g = refl

-- Checking a PIN against the stored hash of another compares the two digests under the stored
-- salt: for a codec that decodes what it encodes, without `$` and with text for what is not
-- empty, and for a salt and a digest that are not empty.
pub verify_pin-hash_pin :
    (k : Crypto) (salt pin entered : List ℕ)
    → IsHexCodec k
    → salt ≢ []
    → k.sha256 salt pin ≢ []
    → verify_pin k entered (hash_pin k salt pin)
      ≡ list_eq (k.sha256 salt entered) (k.sha256 salt pin)
unfolding verify_pin hash_pin
verify_pin-hash_pin k salt pin entered codec hs hd = rw (
  strip-append prefix (k.to_hex salt ++ dollar ∷ k.to_hex (k.sha256 salt pin)),
  split-two (k.to_hex salt) (k.to_hex (k.sha256 salt pin)) (codec.plain salt)
      (codec.plain (k.sha256 salt pin)),
  compare_two k entered (k.to_hex salt) (k.to_hex (k.sha256 salt pin)) (codec.inhabited salt hs)
      (codec.inhabited (k.sha256 salt pin) hd),
  codec.decodes salt,
  codec.decodes (k.sha256 salt pin),
)

abbrev pub IsDigitCode : ℕ → Type 0
IsDigitCode x = (48 ≤ x) × (x ≤ 57)

-- The date is four digits, YYMM, of a month of this century that is not past.
abbrev pub IsCurrent : Now → List ℕ → Type 0
IsCurrent now (a ∷ b ∷ c ∷ d ∷ []) =
    (IsDigitCode a × IsDigitCode b × IsDigitCode c × IsDigitCode d)
    × ((now.year < 2000 + (10 * (a - 48) + (b - 48)))
        ⊎ ((now.year ≡ 2000 + (10 * (a - 48) + (b - 48))) × (now.month ≤ 10 * (c - 48) + (d - 48))))
IsCurrent now _ = ⊥

is_expired-IsCurrent :
    (now : Now) (date : List ℕ) → is_expired now date ≡ false → IsCurrent now date
unfolding is_expired
is_expired-IsCurrent now [] e = cc
is_expired-IsCurrent now (a ∷ []) e = cc
is_expired-IsCurrent now (a ∷ b ∷ []) e = cc
is_expired-IsCurrent now (a ∷ b ∷ c ∷ []) e = cc
is_expired-IsCurrent now (a ∷ b ∷ c ∷ d ∷ []) e = ground arith
is_expired-IsCurrent now (a ∷ b ∷ c ∷ d ∷ x ∷ xs) e = cc

IsCurrent-is_expired :
    (now : Now) (date : List ℕ) → IsCurrent now date → is_expired now date ≡ false
unfolding is_expired
IsCurrent-is_expired now [] h = absurd h
IsCurrent-is_expired now (a ∷ []) h = absurd h
IsCurrent-is_expired now (a ∷ b ∷ []) h = absurd h
IsCurrent-is_expired now (a ∷ b ∷ c ∷ []) h = absurd h
IsCurrent-is_expired now (a ∷ b ∷ c ∷ d ∷ []) h = ground arith
IsCurrent-is_expired now (a ∷ b ∷ c ∷ d ∷ x ∷ xs) h = absurd h

-- The tests that a card and its account have to pass.
abbrev pub IsAccepted : Env → Db → CardRow → AccountRow → String → Type 0
IsAccepted env db card a account =
    (card.status ≢ CardStatus.blocked)
    × (card.status ≢ CardStatus.retained)
    × IsCurrent env.now card.expiry_date
    × (find_account card.account_id db ≡ some a)
    × (a.status ≡ AccountStatus.active)
    × (card.account_id ≡ account)

check_account_cases :
    (env : Env) (db : Db) (card : CardRow) (account : String)
    → check_card env.now db (some card) ≡ accepted (some account)
    → (a : AccountRow) × (find_account card.account_id db ≡ some a)
check_account_cases env db card account h = elim (Option-cases (find_account card.account_id db)) [
  | inr found ↦ found
  | inl missing ↦ absurd (ground arith)
]

check_card_sound :
    (env : Env) (db : Db) (card : CardRow) (a : AccountRow) (account : String)
    → find_account card.account_id db ≡ some a
    → check_card env.now db (some card) ≡ accepted (some account)
    → IsAccepted env db card a account
check_card_sound env db card a account found h =
    let current : is_expired env.now card.expiry_date ≡ false = ground arith in
    (
      λ e. ground arith,
      λ e. ground arith,
      is_expired-IsCurrent env.now card.expiry_date current,
      found,
      ground arith,
      ground arith,
    )

check_card_complete :
    (env : Env) (db : Db) (card : CardRow) (a : AccountRow) (account : String)
    → IsAccepted env db card a account
    → check_card env.now db (some card) ≡ accepted (some account)
check_card_complete env db card a account (open_card, kept, current, found, live, same) =
    let dated = IsCurrent-is_expired env.now card.expiry_date current in ground (arith, dated)

-- A card is accepted exactly when the database answers, the card is there with a status other than
-- BLOCKED and RETAINED, its expiry date is four digits of a month that is not past, and its account is
-- there and active. A status EXPIRED is not looked at.
pub authenticate_iff :
    (env : Env) (pan : String) (h : Host) (account : String)
    → (authenticate env pan h ≡ ok (accepted (some account))) ↔ (
        (card : CardRow) × (a : AccountRow) × (env.db_up ≡ true)
        × (find_card pan h.db ≡ some card)
        × IsAccepted env h.db card a account)
unfolding authenticate
authenticate_iff env pan h account = (
  λ e. elim (Bool-cases env.db_up) [
    | inr down ↦ absurd (ground arith)
    | inl up ↦ elim (Option-cases (find_card pan h.db)) [
      | inl unknown ↦ absurd (ground arith)
      | inr (card, known) ↦
          let passed : check_card env.now h.db (some card) ≡ accepted (some account) =
            ground arith in
          let (a, found) = check_account_cases env h.db card account passed in
          (card, a, up, known, check_card_sound env h.db card a account found passed)
    ]
  ],
  λ (card, a, up, known, tests).
      rw (up, authenticate, known)
        (ap (λ (x : AuthResult). ok x) (check_card_complete env h.db card a account tests)),
)

-- The failures that the card row shows.
abbrev pub failures : String → Db → Option ℕ
failures pan db = elim (find_card pan db) [ none ↦ none | some c ↦ some c.failed_pin_count ]

found_after :
    (pan : String) (f : CardRow → CardRow) (rows : List CardRow) (c : CardRow)
    → ((b : CardRow) → (f b).pan ≡ b.pan)
    → card_in pan rows ≡ some c
    → card_in pan (update_in pan f rows) ≡ some (f c)
unfolding card_in update_in
found_after pan f [] c same e = cc
found_after pan f (b ∷ rows) c same e = elim (Bool-cases (str_eq b.pan pan)) [
  | inl hit ↦
      let here : str_eq (f b).pan pan ≡ true = rw (same b) hit in
      let one : b ≡ c = ground arith in
      rw (hit, update_in) (rw here (ap (λ (x : CardRow). some (f x)) one))
  | inr miss ↦ rw (miss, update_in, miss) (found_after pan f rows c same (ground arith))
]

failures_after :
    (pan : String) (f : CardRow → CardRow) (db : Db) (c : CardRow)
    → ((b : CardRow) → (f b).pan ≡ b.pan)
    → find_card pan db ≡ some c
    → failures pan (update_card pan f db) ≡ some (f c).failed_pin_count
failures_after pan f db c same known = rw (failures, found_after pan f db.cards c same known)

failure_code_lem :
    (n : ℕ)
    → ((n + 1 ≤ 2)
        × (◌≡◌ {A = Result HostError AuthResult}
            (ok (refused (failure_code n)))
            (ok (refused IsoResponseCode.incorrect_pin))))
      ⊎ ((3 ≤ n + 1)
          × (◌≡◌ {A = Result HostError AuthResult}
              (ok (refused (failure_code n)))
              (ok (refused IsoResponseCode.pin_tries_exceeded))))
failure_code_lem n = elim (Bool-cases (leb 3 (n + 1))) [
  | inl late ↦ inr (ground arith, rw late)
  | inr early ↦ inl (ground arith, rw early)
]

-- For a card in the database, and a database that answers: a right PIN is accepted and clears the
-- card's count of failures. A wrong one adds one to it, and is answered as incorrect below the
-- third failure and as tries exceeded from the third on.
pub verify_card_pin-failures :
    (k : Crypto) (env : Env) (pan : String) (pin : List ℕ) (card : CardRow) (h : Host)
    → env.db_up ≡ true
    → find_card pan h.db ≡ some card
    → let (answer, h') = verify_card_pin k env pan pin h in
      ((verify_pin k pin card.pin ≡ true)
        × (answer ≡ ok (accepted none))
        × (failures pan h'.db ≡ some 0))
      ⊎ ((verify_pin k pin card.pin ≡ false)
          × (failures pan h'.db ≡ some (card.failed_pin_count + 1))
          × (((card.failed_pin_count + 1 ≤ 2)
                × (answer ≡ ok (refused IsoResponseCode.incorrect_pin)))
              ⊎ ((3 ≤ card.failed_pin_count + 1)
                  × (answer ≡ ok (refused IsoResponseCode.pin_tries_exceeded)))))
unfolding verify_card_pin
verify_card_pin-failures k env pan pin card h up found =
    elim (Bool-cases (verify_pin k pin card.pin)) [
      | inl good ↦ inl (
        good,
        rw (up, verify_card_pin, found, good),
        rw (up, verify_card_pin, found, good)
            (failures_after pan clear_failures h.db card (λ _. refl) found),
      )
      | inr bad ↦ inr (
        bad,
        rw (up, verify_card_pin, found, bad)
            (failures_after pan count_failure h.db card (λ _. refl) found),
        rw (up, verify_card_pin, found, bad) (failure_code_lem card.failed_pin_count),
      )
    ]
