-- ===== src/Host/Accounts.antt =====
-- apps/xfs-server/src/host/host-emulator.service.ts: the rows of accounts, and an update of one of them.
use atm_xfs_simulator.Common.{
  true, ◌≡◌, refl, ◌≢◌, String, some, List, [], ◌∷◌, arith, All, inl, inr, Bool-cases, str_eq,
  eq_iff, ap,
}
use atm_xfs_simulator.Host.Tables.{AccountRow, account_in, update_account}

-- No account id stands twice.
abbrev pub IsUnique : List AccountRow → Type 0
IsUnique [] = Unit
IsUnique (a ∷ rows) = All (λ b. b.id ≢ a.id) rows × IsUnique rows

All-others :
    (P Q : AccountRow → Type 0) (id : String) (rows : List AccountRow)
    → All (λ b. b.id ≢ id) rows
    → All P rows
    → ((a : AccountRow) → a.id ≢ id → P a → Q a)
    → All Q rows
All-others P Q id [] ne h others = tt
All-others P Q id (a ∷ rows) (n, ne) (now, later) others =
    (others a n now, All-others P Q id rows ne later others)

-- An update of one account: the others have other ids.
pub update_account-All :
    (P Q : AccountRow → Type 0) (id : String) (f : AccountRow → AccountRow) (rows : List AccountRow)
    → IsUnique rows
    → All P rows
    → ((a : AccountRow) → a.id ≢ id → P a → Q a)
    → ((a : AccountRow) → account_in id rows ≡ some a → a.id ≡ id → P a → Q (f a))
    → All Q (update_account id f rows)
unfolding account_in update_account
update_account-All P Q id f [] u h others self = tt
update_account-All P Q id f (a ∷ rows) (ne, u) (now, later) others self =
    elim (Bool-cases (str_eq a.id id)) [
      | inl hit ↦
          let same = (eq_iff a.id id).0 hit in
          rw (hit, update_account)
            (self a (ground arith) same now, All-others P Q id rows (rw (← same) ne) later others)
      | inr miss ↦
          rw (miss, update_account)
            (
              others a (λ e. cc ((eq_iff a.id id).1 e)) now,
              update_account-All P Q id f rows u later others (λ b found. self b (ground arith)),
            )
    ]

pub update_account-IsUnique :
    (id : String) (f : AccountRow → AccountRow) (rows : List AccountRow)
    → ((a : AccountRow) → (f a).id ≡ a.id)
    → IsUnique rows
    → IsUnique (update_account id f rows)
unfolding update_account
update_account-IsUnique id f [] same u = tt
update_account-IsUnique id f (a ∷ rows) same (ne, u) = elim (Bool-cases (str_eq a.id id)) [
  | inl hit ↦ rw (hit, update_account, same a) (ne, u)
  | inr miss ↦
      rw (miss, update_account)
        (
          update_account-All (λ b. b.id ≢ a.id) (λ b. b.id ≢ a.id) id f rows u ne (λ b _ n. n)
              (λ b _ _ n. rw (same b) n),
          update_account-IsUnique id f rows same u,
        )
]

pub found_after :
    (id : String) (f : AccountRow → AccountRow) (rows : List AccountRow) (a : AccountRow)
    → ((b : AccountRow) → (f b).id ≡ b.id)
    → account_in id rows ≡ some a
    → account_in id (update_account id f rows) ≡ some (f a)
unfolding account_in update_account
found_after id f [] a same e = cc
found_after id f (b ∷ rows) a same e = elim (Bool-cases (str_eq b.id id)) [
  | inl hit ↦
      let here : str_eq (f b).id id ≡ true = rw (same b) hit in
      let one : b ≡ a = ground arith in
      rw (hit, update_account) (rw here (ap (λ (x : AccountRow). some (f x)) one))
  | inr miss ↦ rw (miss, update_account, miss) (found_after id f rows a same (ground arith))
]

pub account_in-other :
    (id j : String) (f : AccountRow → AccountRow) (rows : List AccountRow)
    → id ≢ j
    → ((b : AccountRow) → (f b).id ≡ b.id)
    → account_in id (update_account j f rows) ≡ account_in id rows
unfolding account_in update_account
account_in-other id j f [] ne same = refl
account_in-other id j f (b ∷ rows) ne same =
    ground (arith, eq_iff b.id j, eq_iff b.id id, same b, account_in-other id j f rows ne same)
