-- ===== src/Macros/Recorder/Pin.antt =====
-- apps/xfs-server/src/macros/macro-recorder.service.ts: what becomes of a PIN that is typed.
use atm_xfs_simulator.Common.{
  ℕ, ◌≡◌, ◌≤◌, refl, sym, ap, ◌∙◌, String, Bool, true, false, some, List, [], ◌∷◌, ◌++◌, arith,
  length, if◌then◌else◌,
}
use mathlib.Core.List.{append_assoc, append-nil}
use atm_xfs_simulator.Macros.{key_press, digit, enter, action, pin_pad, digits, string_type}
use atm_xfs_simulator.Macros.Recorder.{
  Recording, push_step, with_buffer, with_absorb, flush_digits, flush_digit_buffer, press_enter,
  on_action, on_user_action, is_pin_shape, pin_parameter, pin_label, parameter,
}
use atm_xfs_simulator.Macros.Recorder.Keeps.{Input, user, record_all}

-- The keys of a PIN, and ENTER.
abbrev pub typed : List ℕ → List Input
typed [] = user (key_press enter) ∷ []
typed (d ∷ ds) = user (key_press (digit d)) ∷ typed ds

-- A recording with one more step, "EnterPin" with the variable `Card.pin`.
abbrev pub with_pin : (ℕ → String) → List ℕ → Recording → Recording
with_pin uuid ds r =
    with_absorb false
      (with_buffer [] (push_step uuid action pin_pad "EnterPin" (pin_parameter ds ∷ []) r))

module _ (uuid : ℕ → String) where
  record_all-typed :
      (ds : List ℕ) (r : Recording)
      → record_all uuid (some r) (typed ds)
        ≡ some (
            press_enter uuid
              (flush_digits uuid (r.digit_buffer ++ ds) (with_buffer (r.digit_buffer ++ ds) r)))
  unfolding on_user_action on_action flush_digit_buffer
  record_all-typed [] r =
      ap (λ ds. some (press_enter uuid (flush_digits uuid ds (with_buffer ds r))))
        (sym (append-nil r.digit_buffer))
  record_all-typed (d ∷ ds) r =
      record_all-typed ds (with_buffer (r.digit_buffer ++ (d ∷ [])) r)
      ∙ ap (λ es. some (press_enter uuid (flush_digits uuid es (with_buffer es r))))
          (append_assoc r.digit_buffer (d ∷ []) ds)

  flush_digits-pin :
      (ds : List ℕ) (r : Recording)
      → is_pin_shape ds ≡ true
      → press_enter uuid (flush_digits uuid ds (with_buffer ds r)) ≡ with_pin uuid ds r
  flush_digits-pin [] r h = absurd (ground (arith, h))
  flush_digits-pin (d ∷ ds) r h =
      ap
        (λ (b : Bool). press_enter uuid (
          if b
          then with_absorb true (
              push_step uuid action pin_pad "EnterPin" (pin_parameter (d ∷ ds) ∷ [])
                (with_buffer [] r))
          else push_step uuid action pin_pad "KeyPressed"
              (parameter "key" string_type (digits (d ∷ ds)) ∷ []) (with_buffer [] r)))
        h

  -- Four to twelve digits and ENTER, typed when no digits are waiting, are recorded as one step, which
  -- enters the PIN of the selected card: the recording does not depend on the digits, only on their number.
  -- The ENTER gets no step of its own, and the next one is not swallowed.
  pub record_all-pin :
      (ds : List ℕ) (r : Recording)
      → r.digit_buffer ≡ []
      → 4 ≤ length ds
      → length ds ≤ 12
      → (es : List ℕ) → length es ≡ length ds
      → (record_all uuid (some r) (typed ds) ≡ some (with_pin uuid ds r))
        × (record_all uuid (some r) (typed es) ≡ record_all uuid (some r) (typed ds))
  record_all-pin ds r empty low high es same =
      let shape : (zs : List ℕ) → length zs ≡ length ds → is_pin_shape zs ≡ true =
        λ (zs : List ℕ) e. ground (arith, e, low, high) in
      let one : (zs : List ℕ)
          → length zs ≡ length ds
          → record_all uuid (some r) (typed zs) ≡ some (with_pin uuid zs r) =
        λ (zs : List ℕ) e.
          record_all-typed zs r
          ∙ ap
              (λ (b : List ℕ).
                some (press_enter uuid (flush_digits uuid (b ++ zs) (with_buffer (b ++ zs) r))))
              empty
          ∙ ap some (flush_digits-pin zs r (shape zs e)) in
      let same_pin : with_pin uuid es r ≡ with_pin uuid ds r =
        ap
          (λ (n : ℕ).
            with_absorb false
              (with_buffer [] (push_step uuid action pin_pad "EnterPin" (pin_label n ∷ []) r)))
          same in
      (one ds refl, one es same ∙ ap some same_pin ∙ sym (one ds refl))
