-- ===== src/Strings/Examples.antt =====
-- The theorems on the string functions at concrete inputs.
use bios_qemu_tz_arm.Prelude.{ℕ, ◌+◌, ◌≡◌, inr, refl, ◌↔◌, ◌||◌, ◌==◌, if◌then◌else◌, arith}
use bios_qemu_tz_arm.Run.{ok}
use bios_qemu_tz_arm.Memory.{Memory}
use bios_qemu_tz_arm.Strings.{strlcpy, strlcat, buf_compare_ct}
use bios_qemu_tz_arm.Strings.Text.{IsString, terminated}
use bios_qemu_tz_arm.Strings.Copy.{strlcpy_lem}
use bios_qemu_tz_arm.Strings.Append.{strlcat_lem}
use bios_qemu_tz_arm.Strings.Compare.{Agree, buf_compare_ct-Agree}

-- "aaa" at 100 and "a" at 200.
abbrev mem : Memory
mem i = if (i == 103) || (i == 201) then 0 else 97

long-IsString : IsString mem 100 3
long-IsString = record { bytes = λ i h z. ground (arith, z); end = refl }

short-IsString : IsString mem 200 1
short-IsString = record { bytes = λ i h z. ground (arith, z); end = refl }

strlcpy_lem_example : strlcpy 4 300 100 3 mem ≡ ok (3, terminated 300 100 2 mem)
strlcpy_lem_example = strlcpy_lem 4 300 100 3 3 mem long-IsString (omega arith) (inr (omega arith))

-- A `strlen` for strings of up to three bytes.
abbrev strlen : ℕ → Memory → ℕ
strlen s m = if m s == 0 then 0 else if m (s + 1) == 0 then 1 else if m (s + 2) == 0 then 2 else 3

strlcat_lem_example : strlcat strlen 4 200 100 4 mem ≡ ok (4, terminated 201 100 2 mem)
strlcat_lem_example =
    strlcat_lem strlen 4 200 100 4 1 3 mem short-IsString long-IsString (omega arith) (omega arith)
      (inr (omega arith))

buf_compare_ct-Agree_example : (buf_compare_ct 100 200 3 mem ≡ 0) ↔ Agree mem 100 200 3
buf_compare_ct-Agree_example = buf_compare_ct-Agree 100 200 3 mem

-- A `malloc` that hands out one block behind the other.
abbrev bump : ℕ → ℕ → Memory → ℕ × ℕ × Memory
bump n s m = (s, s + n, m)
