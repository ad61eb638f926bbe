-- ===== src/Ptr/Paper.antt =====
-- packages/xfs-devices/src/ptr/ptr.service.ts: the paper and the rolling history.
use atm_xfs_simulator.Common.{
  ℕ, zero, suc, ◌-◌, ◌≡◌, ◌≤◌, min, refl, sym, ap, none, List, [], ◌∷◌, ◌++◌, ok, err, arith,
  length, take, drop, length-append, length-drop, Bool-cases, ltb, inl, inr, ◌∙◌,
}
use atm_xfs_simulator.Xfs.Device.{Device}
use atm_xfs_simulator.Xfs.Device
use atm_xfs_simulator.Ptr.{
  Ptr, Env, PtrPrintFormPayload, PrintedReceipt, PtrCommand, record_receipt, receipt_of, print_form,
  execute_command, dispatch, out_of_paper, printed,
}

-- The last `n` items.
abbrev pub last {ℓ} : {A : Type ℓ} → ℕ → List A → List A
last n xs = drop (length xs - n) xs

drop-append {ℓ} :
    {A : Type ℓ} (k : ℕ) (xs ys : List A) → k ≤ length xs → drop k (xs ++ ys) ≡ drop k xs ++ ys
drop-append zero xs ys h = refl
drop-append (suc k) [] ys h = absurd (omega (arith, h))
drop-append (suc k) (x ∷ xs) ys h = drop-append k xs ys (omega arith)

drop-drop {ℓ} : {A : Type ℓ} (k : ℕ) (xs : List A) → drop 1 (drop k xs) ≡ drop (suc k) xs
drop-drop zero xs = refl
drop-drop (suc k) [] = refl
drop-drop (suc k) (x ∷ xs) = drop-drop k xs

record_receipt-last :
    (r : PrintedReceipt) (all : List PrintedReceipt)
    → record_receipt r (last 200 all) ≡ last 200 (all ++ r ∷ [])
unfolding record_receipt
record_receipt-last r all =
    let tail : drop (length all - 200) (all ++ r ∷ []) ≡ last 200 all ++ r ∷ [] =
      drop-append (length all - 200) all (r ∷ []) (omega arith) in
    let added = length-append (last 200 all) (r ∷ []) in
    let kept = length-drop (length all - 200) all in
    let grown = length-append all (r ∷ []) in
    elim (Bool-cases (ltb 200 (length (last 200 all ++ r ∷ [])))) [
      | inl full ↦
          let e : suc (length all - 200) ≡ length (all ++ r ∷ []) - 200 =
            ground (arith, full, added, kept, grown) in
          rw full (
            ap (drop 1) (sym tail)
            ∙ drop-drop (length all - 200) (all ++ r ∷ [])
            ∙ ap (λ k. drop k (all ++ r ∷ [])) e)
      | inr room ↦
          let e : length all - 200 ≡ length (all ++ r ∷ []) - 200 =
            ground (arith, room, added, kept, grown) in
          rw room (sym tail ∙ ap (λ k. drop k (all ++ r ∷ [])) e)
    ]

-- PRINT_FORM for each form in turn, and how many of them were printed.
unfoldable pub print_forms : List (Env × PtrPrintFormPayload) → Ptr → ℕ × Ptr
print_forms [] p = (0, p)
print_forms ((env, payload) ∷ forms) p =
    let (answer, q) = execute_command env (PtrCommand.form payload) p in
    let (n, q') = print_forms forms q in (elim answer [ ok a ↦ suc n | err e ↦ n ], q')

abbrev pub receipts_of : List (Env × PtrPrintFormPayload) → List PrintedReceipt
receipts_of [] = []
receipts_of ((env, payload) ∷ forms) = receipt_of env payload ∷ receipts_of forms

abbrev pub IsPrinted :
    List (Env × PtrPrintFormPayload) → List PrintedReceipt → Ptr → ℕ × Ptr → Type 0
IsPrinted forms all p (n, q) =
    (n ≡ min p.paper_level (length forms))
    × (q.paper_level ≡ p.paper_level - length forms)
    × (q.history ≡ last 200 (all ++ take p.paper_level (receipts_of forms)))

append_nil : {A : Type 0} (xs : List A) → xs ++ [] ≡ xs
append_nil [] = refl
append_nil (x ∷ xs) = ap (λ ys. x ∷ ys) (append_nil xs)

take_nil : (n : ℕ) → take {A = PrintedReceipt} n [] ≡ []
take_nil zero = refl
take_nil (suc n) = refl

append_assoc : {A : Type 0} (xs ys zs : List A) → (xs ++ ys) ++ zs ≡ xs ++ (ys ++ zs)
append_assoc [] ys zs = refl
append_assoc (x ∷ xs) ys zs = ap (λ ws. x ∷ ws) (append_assoc xs ys zs)

-- One form on paper: it is printed, takes one sheet, and is the newest receipt.
print_one :
    (env : Env) (payload : PtrPrintFormPayload) (p : Ptr) (n : ℕ)
    → p.device.injected_error ≡ none
    → p.paper_level ≡ suc n
    → let (answer, q) = execute_command env (PtrCommand.form payload) p in
      (answer ≡ ok (printed (receipt_of env payload).receipt_id))
      × (q.device.injected_error ≡ none)
      × (q.paper_level ≡ n)
      × (q.history ≡ record_receipt (receipt_of env payload) p.history)
unfolding execute_command dispatch print_form Device.check_injected_error
print_one env payload p n calm e = ground (arith, calm, e)

print_none :
    (env : Env) (payload : PtrPrintFormPayload) (p : Ptr)
    → p.device.injected_error ≡ none
    → p.paper_level ≡ 0
    → let (answer, q) = execute_command env (PtrCommand.form payload) p in
      (answer ≡ err out_of_paper)
      × (q.device.injected_error ≡ none)
      × (q.paper_level ≡ 0)
      × (q.history ≡ p.history)
unfolding execute_command dispatch print_form Device.check_injected_error
print_none env payload p calm e = ground (arith, calm, e)

print_rest :
    (env : Env) (payload : PtrPrintFormPayload) (forms : List (Env × PtrPrintFormPayload))
    (all : List PrintedReceipt) (p : Ptr) (l : ℕ)
    → p.paper_level ≡ l
    → p.device.injected_error ≡ none
    → p.history ≡ last 200 all
    → ((more : List PrintedReceipt) (q : Ptr)
        → q.device.injected_error ≡ none
        → q.history ≡ last 200 more
        → IsPrinted forms more q (print_forms forms q))
    → IsPrinted ((env, payload) ∷ forms) all p (print_forms ((env, payload) ∷ forms) p)
unfolding print_forms
print_rest env payload forms all p zero e calm h rest =
    let (refused, calm', level, history) = print_none env payload p calm e in
    let (n, paper, q) =
      rest all (execute_command env (PtrCommand.form payload) p).1 calm' (history ∙ h) in
    (
      ground (arith, refused, n, level, e),
      ground (arith, paper, level, e),
      q
          ∙ ap (λ k. last 200 (all ++ take k (receipts_of forms))) level
          ∙ sym (ap (λ k. last 200 (all ++ take k (receipt_of env payload ∷ receipts_of forms))) e),
    )
print_rest env payload forms all p (suc l) e calm h rest =
    let r = receipt_of env payload in
    let (answer, calm', level, history) = print_one env payload p l calm e in
    let (n, paper, q) =
      rest (all ++ r ∷ []) (execute_command env (PtrCommand.form payload) p).1 calm'
        (history ∙ ap (record_receipt r) h ∙ record_receipt-last r all) in
    (
      ground (arith, answer, n, level, e),
      ground (arith, paper, level, e),
      q
          ∙ ap (λ k. last 200 ((all ++ r ∷ []) ++ take k (receipts_of forms))) level
          ∙ ap (last 200) (append_assoc all (r ∷ []) (take l (receipts_of forms)))
          ∙ sym (ap (λ k. last 200 (all ++ take k (r ∷ receipts_of forms))) e),
    )

-- Any number of forms in turn, on a printer with no error waiting whose history is the last 200 of
-- `all`: as many are printed as there are sheets, the paper goes down by one for each and stops at
-- zero, and the history is the last 200 of `all` and the receipts that were printed, in their order.
pub print_forms-IsPrinted :
    (forms : List (Env × PtrPrintFormPayload)) (all : List PrintedReceipt) (p : Ptr)
    → p.device.injected_error ≡ none
    → p.history ≡ last 200 all
    → IsPrinted forms all p (print_forms forms p)
unfolding print_forms
print_forms-IsPrinted [] all p calm h = (
  omega arith,
  omega arith,
  h
      ∙ ap (last 200) (sym (append_nil all))
      ∙ sym (ap (λ rs. last 200 (all ++ rs)) (take_nil p.paper_level)),
)
print_forms-IsPrinted ((env, payload) ∷ forms) all p calm h =
    print_rest env payload forms all p p.paper_level refl calm h (print_forms-IsPrinted forms)
