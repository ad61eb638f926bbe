-- ===== src/Macros/Op.antt =====
-- Asynchronous operations that may throw: they change a world, also when they throw. A thrown error is
-- its message.
use atm_xfs_simulator.Common.{String, Result, ok, err}

abbrev pub Op : Type 0 → Type 0 → Type 0
Op W A = W → Result String A × W

abbrev pub and_then : {W A B : Type 0} → Result String A × W → (A → Op W B) → Result String B × W
and_then (ok a, w) f = f a w
and_then (err e, w) f = (err e, w)

infixl 5 ◌>>=◌
abbrev pub ◌>>=◌ : {W A B : Type 0} → Op W A → (A → Op W B) → Op W B
m >>= f = λ w. and_then (m w) f

abbrev pub pure : {W A : Type 0} → A → Op W A
pure a w = (ok a, w)

abbrev pub throw : {W A : Type 0} → String → Op W A
throw e w = (err e, w)

-- A change that does not throw, and a look at the world.
abbrev pub change : {W A : Type 0} → (W → W) → A → Op W A
change f a w = (ok a, f w)

abbrev pub look : {W A : Type 0} → (W → A) → Op W A
look f w = (ok (f w), w)
