-- ===== src/Run.antt =====
-- How a run of the boot code ends. The code is C on a machine with no operating system: it returns,
-- or a failed CHECK of bios/main.c stops it in `while (true);`, or an access leaves its buffer.
use bios_qemu_tz_arm.Prelude.{◌≡◌, refl, Bool, true, false, Option, none, some}

-- `hang` is the endless loop of `check` after its message. `fault` is an access outside the buffer,
-- which C leaves undefined. `out_of_fuel` is no run of the program: the fuel of a loop was too small.
pub data Run {ℓ} (A : Type ℓ) : Type ℓ where
  ok : A → Run A
  hang fault out_of_fuel : Run A

infixl 5 ◌>>=◌ ◌>>◌
-- A run that does not return ends the runs behind it.
abbrev pub ◌>>=◌ {ℓ κ} : {A : Type ℓ} {B : Type κ} → Run A → (A → Run B) → Run B
ok result >>= next = next result
hang >>= next = hang
fault >>= next = fault
out_of_fuel >>= next = out_of_fuel

-- `CHECK(x)`: `check` is called, and does not return, if `x` is not 0.
abbrev pub check : Bool → Run (Unit {0})
check true = hang
check false = ok tt

-- A read whose index may leave the buffer.
abbrev pub or_fault {ℓ} : {A : Type ℓ} → Option A → Run A
or_fault none = fault
or_fault (some a) = ok a

abbrev pub ◌>>◌ {κ} : {B : Type κ} → Run (Unit {0}) → Run B → Run B
first >> next = first >>= λ _. next

-- The run returns, with a result that satisfies `P`.
abbrev pub Returns {ℓ} : {A : Type ℓ} → (A → Type 0) → Run A → Type 0
Returns P (ok a) = P a
Returns P hang = ⊥
Returns P fault = ⊥
Returns P out_of_fuel = ⊥

pub >>=-ok {ℓ} : {A : Type ℓ} (m : Run A) → (m >>= ok) ≡ m
>>=-ok (ok a) = refl
>>=-ok hang = refl
>>=-ok fault = refl
>>=-ok out_of_fuel = refl
