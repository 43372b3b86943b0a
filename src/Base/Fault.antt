-- ===== src/Base/Fault.antt =====
-- What a call returns: a value, a run-time fault of the program, or no more fuel.
use mathlib.Core.Option.{Option, none, some}
use mathlib.Core.Path.{◌≡◌}

-- `wtf` and `why` are the two panics that the assembler writes out.
pub data Fault : Type 0 where
  wtf why nil_dereference index_out_of_range closed_channel out_of_fuel : Fault

pub data Result {ℓ} (A : Type ℓ) : Type ℓ where
  ok : A → Result A
  err : Fault → Result A

infixl 5 ◌>>=◌
abbrev pub ◌>>=◌ {ℓ κ} : {A : Type ℓ} {B : Type κ} → Result A → (A → Result B) → Result B
ok a >>= f = f a
err e >>= f = err e

-- A pointer is followed only if it is not nil.
abbrev pub or_fault {ℓ} : {A : Type ℓ} → Option A → Fault → Result A
or_fault none e = err e
or_fault (some a) e = ok a

pub ok_inj {ℓ} : {A : Type ℓ} (x y : A) → ok x ≡ ok y → x ≡ y
ok_inj x y e = cc
