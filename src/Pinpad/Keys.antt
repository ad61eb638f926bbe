-- ===== src/Pinpad/Keys.antt =====
-- packages/xfs-devices/src/pin/pin.service.ts, `pressKey`: what one key does to an open entry.
use atm_xfs_simulator.Common.{
  ℕ, ◌+◌, ◌≡◌, ◌≢◌, ◌≤◌, ◌<◌, Bool-cases, ◌⊎◌, inl, inr, refl, sym, subst, Bool, true, false,
  Option, none, some, List, [], ◌∷◌, ◌++◌, arith, ltb, leb, ◌==◌, length, if◌then◌else◌, ◌&&◌,
}
use atm_xfs_simulator.Pinpad.{
  Pinpad, Key, EntrySpec, Mode, Settled, digit, text, includes, key, pin_length, entered_data,
  rejected, user_cancelled, press_key, press_active, handle, push, cancel_entry, terminate_entry,
  emit, data_ready, finish,
}

-- The answer of an entry with the digits `buffer`.
abbrev pub answer : Mode → List ℕ → Settled
answer Mode.pin buffer = pin_length (length buffer)
answer Mode.data_entry buffer = entered_data buffer

abbrev pub IsCancelled : Pinpad → Pinpad → Type 0
IsCancelled p q =
    (q.active ≡ none)
    × (q.settled ≡ p.settled ++ rejected user_cancelled ∷ [])
    × (q.pin_buffer ≡ [])

-- The entry is open, unanswered, with this buffer.
abbrev pub IsOpen : EntrySpec → Pinpad → List ℕ → Pinpad → Type 0
IsOpen e p buffer q = (q.active ≡ some e) × (q.settled ≡ p.settled) × (q.pin_buffer ≡ buffer)

-- The entry is over, and answered once, with this buffer.
abbrev pub IsAnsweredWith : EntrySpec → Pinpad → List ℕ → Pinpad → Type 0
IsAnsweredWith e p buffer q =
    (q.active ≡ none) × (q.settled ≡ p.settled ++ answer e.mode buffer ∷ [])

-- A key that ends the entry, when there are enough digits.
abbrev pub FinalOutcome : EntrySpec → Pinpad → Pinpad → Type 0
FinalOutcome e p q =
    ((length p.pin_buffer < e.spec.min_len) × IsOpen e p p.pin_buffer q)
    ⊎ ((e.spec.min_len ≤ length p.pin_buffer) × IsAnsweredWith e p p.pin_buffer q)

-- A digit that was taken into the buffer: `grown` is the buffer with it.
abbrev pub GrownOutcome : EntrySpec → Pinpad → List ℕ → Pinpad → Type 0
GrownOutcome e p grown q =
    ((e.spec.auto_end ≡ true) × (length grown ≡ e.spec.max_len) × IsAnsweredWith e p grown q)
    ⊎ (((e.spec.auto_end ≡ false) ⊎ (length grown ≢ e.spec.max_len)) × IsOpen e p grown q)

abbrev pub TypedOutcome : Key → EntrySpec → Pinpad → Pinpad → Type 0
TypedOutcome (digit d) e p q =
    ((d ≤ 9)
      × (length p.pin_buffer < e.spec.max_len)
      × GrownOutcome e p (p.pin_buffer ++ (48 + d) ∷ []) q)
    ⊎ (((9 < d) ⊎ (e.spec.max_len ≤ length p.pin_buffer)) × IsOpen e p p.pin_buffer q)
TypedOutcome _ e p q = IsOpen e p p.pin_buffer q

abbrev pub KeyOutcome : Key → EntrySpec → Pinpad → Pinpad → Type 0
KeyOutcome Key.cancel e p q = IsCancelled p q
KeyOutcome Key.clear e p q = IsOpen e p [] q
KeyOutcome Key.enter e p q = FinalOutcome e p q
KeyOutcome k e p q =
    ((includes e.spec.terminate_keys k ≡ true) × FinalOutcome e p q)
    ⊎ ((includes e.spec.terminate_keys k ≡ false) × TypedOutcome k e p q)

if_holds :
    (P : Pinpad → Type 0) (b : Bool) (q r : Pinpad)
    → (b ≡ true → P q)
    → (b ≡ false → P r)
    → P (if b then q else r)
if_holds P true q r on off = on refl
if_holds P false q r on off = off refl

finish-answer :
    (mode : Mode) (p : Pinpad)
    → (finish mode p).settled ≡ p.settled ++ answer mode p.pin_buffer ∷ []
finish-answer Mode.pin p = refl
finish-answer Mode.data_entry p = refl

finish-active : (mode : Mode) (p : Pinpad) → (finish mode p).active ≡ p.active
finish-active Mode.pin p = refl
finish-active Mode.data_entry p = refl

terminate-IsAnsweredWith :
    (e : EntrySpec) (p : Pinpad)
    → p.active ≡ some e
    → IsAnsweredWith e p p.pin_buffer (terminate_entry p)
unfolding terminate_entry
terminate-IsAnsweredWith e p a =
    let q = emit (data_ready (length p.pin_buffer)) (record p { active = none }) in
    rw a (finish-active e.mode q, finish-answer e.mode q)

final-FinalOutcome :
    (e : EntrySpec) (p : Pinpad)
    → p.active ≡ some e
    → FinalOutcome e p (if ltb (length p.pin_buffer) e.spec.min_len then p else terminate_entry p)
final-FinalOutcome e p a =
    if_holds (FinalOutcome e p) (ltb (length p.pin_buffer) e.spec.min_len) p (terminate_entry p)
      (λ short. inl (ground arith, (a, refl, refl)))
      (λ enough. inr (ground arith, terminate-IsAnsweredWith e p a))

not_full : (auto : Bool) (n m : ℕ) → (auto && n == m) ≡ false → (auto ≡ false) ⊎ (n ≢ m)
not_full false n m h = inl refl
not_full true n m h = inr (λ same. ground arith)

no_room : (d n m : ℕ) → (leb d 9 && ltb n m) ≡ false → (9 < d) ⊎ (m ≤ n)
no_room d n m h = elim (Bool-cases (leb d 9)) [
  | inl small ↦ inr (ground arith)
  | inr large ↦ inl (ground arith)
]

push-TypedOutcome :
    (k : Key) (e : EntrySpec) (p : Pinpad)
    → p.active ≡ some e
    → TypedOutcome k e p (push k e.spec p)
push-TypedOutcome (digit d) e p a =
    let grown = p.pin_buffer ++ (48 + d) ∷ [] in
    let q = record p { pin_buffer = grown } in
    if_holds (TypedOutcome (digit d) e p) (leb d 9 && ltb (length p.pin_buffer) e.spec.max_len)
      (if e.spec.auto_end && length grown == e.spec.max_len then terminate_entry q else q) p
      (λ room. inl (
        ground arith,
        ground arith,
        if_holds (GrownOutcome e p grown) (e.spec.auto_end && length grown == e.spec.max_len)
            (terminate_entry q) q
            (λ full. inl (ground arith, ground arith, terminate-IsAnsweredWith e q a))
            (λ rest.
              inr (not_full e.spec.auto_end (length grown) e.spec.max_len rest, (a, refl, refl))),
      ))
      (λ refused. inr (no_room d (length p.pin_buffer) e.spec.max_len refused, (a, refl, refl)))
push-TypedOutcome _ e p a = (a, refl, refl)

cancel-IsCancelled :
    (e : EntrySpec) (p : Pinpad) → p.active ≡ some e → IsCancelled p (cancel_entry user_cancelled p)
unfolding cancel_entry
cancel-IsCancelled e p a = rw a (refl, refl, refl)

-- A key that is not one of the three.
other-KeyOutcome :
    (k : Key) (e : EntrySpec) (p : Pinpad)
    → p.active ≡ some e
    → let q =
        if includes e.spec.terminate_keys k
        then (if ltb (length p.pin_buffer) e.spec.min_len then p else terminate_entry p)
        else push k e.spec p in
      ((includes e.spec.terminate_keys k ≡ true) × FinalOutcome e p q)
      ⊎ ((includes e.spec.terminate_keys k ≡ false) × TypedOutcome k e p q)
other-KeyOutcome k e p a =
    if_holds
      (λ q.
        ((includes e.spec.terminate_keys k ≡ true) × FinalOutcome e p q)
        ⊎ ((includes e.spec.terminate_keys k ≡ false) × TypedOutcome k e p q))
      (includes e.spec.terminate_keys k)
      (if ltb (length p.pin_buffer) e.spec.min_len then p else terminate_entry p) (push k e.spec p)
      (λ final. inl (final, final-FinalOutcome e p a))
      (λ typed. inr (typed, push-TypedOutcome k e p a))

handle-KeyOutcome :
    (k : Key) (e : EntrySpec) (p : Pinpad)
    → p.active ≡ some e
    → KeyOutcome k e p (handle k e.spec p)
handle-KeyOutcome Key.cancel e p a = cancel-IsCancelled e p a
handle-KeyOutcome Key.clear e p a = (a, refl, refl)
handle-KeyOutcome Key.enter e p a = final-FinalOutcome e p a
handle-KeyOutcome (digit d) e p a = other-KeyOutcome (digit d) e p a
handle-KeyOutcome (text t) e p a = other-KeyOutcome (text t) e p a

moved :
    (k : Key) (e : EntrySpec) (p q : Pinpad)
    → KeyOutcome k e (emit (key k) p) q
    → KeyOutcome k e p q
moved Key.cancel e p q h = h
moved Key.clear e p q h = h
moved Key.enter e p q h = h
moved (digit d) e p q h = h
moved (text t) e p q h = h

-- What a key does to an open entry. CANCEL refuses it as cancelled and drops its digits. CLEAR drops the
-- digits, and the entry stays open. ENTER and the entry's other final keys answer it with its buffer when
-- that has no fewer than `min_len` digits, and change nothing otherwise. Any other key is added to the
-- buffer when it is a digit and the buffer has fewer than `max_len`, and changes nothing otherwise; when
-- it fills the buffer and the entry ends by itself, the entry is answered with the buffer, and else it
-- stays open.
pub press_key-KeyOutcome :
    (k : Key) (e : EntrySpec) (p : Pinpad) → p.active ≡ some e → KeyOutcome k e p (press_key k p)
unfolding press_key
press_key-KeyOutcome k e p a =
    subst (λ (x : Option EntrySpec). KeyOutcome k e p (press_active x k p)) (sym a)
      (moved k e p (handle k e.spec (emit (key k) p)) (handle-KeyOutcome k e (emit (key k) p) a))
