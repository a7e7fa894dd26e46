-- ===== src/Memory.antt =====
-- The memory of the machine as a function from addresses to bytes, with the standard functions
-- `memcpy` and `memset` and little-endian words.
pub mod Words
use bios_qemu_tz_arm.Prelude.{ℕ, ◌+◌, ◌-◌, ◌*◌, ◌/◌, ◌%◌, ◌^◌, ◌&&◌, ◌==◌, ltb, leb, if◌then◌else◌}

abbrev pub Memory : Type 0
Memory = ℕ → ℕ

unfoldable pub memcpy : ℕ → ℕ → ℕ → Memory → Memory
memcpy dst src l mem i = if leb dst i && ltb i (dst + l) then mem (src + (i - dst)) else mem i

unfoldable pub memset : ℕ → ℕ → ℕ → Memory → Memory
memset dst c l mem i = if leb dst i && ltb i (dst + l) then c else mem i

-- A byte stored through a `char *`.
unfoldable pub store8 : ℕ → ℕ → Memory → Memory
store8 a c mem i = if i == a then c else mem i

unfoldable pub load32 : Memory → ℕ → ℕ
load32 mem a = mem a + mem (a + 1) * 2 ^ 8 + mem (a + 2) * 2 ^ 16 + mem (a + 3) * 2 ^ 24

unfoldable pub store32 : ℕ → ℕ → Memory → Memory
store32 a v mem i = if leb a i && ltb i (a + 4) then v / 2 ^ (8 * (i - a)) % 2 ^ 8 else mem i
