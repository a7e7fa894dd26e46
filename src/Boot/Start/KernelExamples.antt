-- ===== src/Boot/Start/KernelExamples.antt =====
-- `main_init_ns` behind the boot of Examples, with what its libfdt keeps of "/chosen".
use Prim.Native.String.{len}
use bios_qemu_tz_arm.Prelude.{ℕ, ◌+◌, ◌^◌, ◌≤◌, ◌<◌, ◌≡◌, ◌≢◌, ◌⊎◌, refl, ap, ◌∙◌, arith, some}
use bios_qemu_tz_arm.Run.{ok}
use bios_qemu_tz_arm.Memory.{Memory, load32, store8, store32}
use bios_qemu_tz_arm.Memory.Words.{load32-store32, store32_outside, store8_self, store8_other}
use bios_qemu_tz_arm.Cells.{fdt32_to_cpu, load, advance, get_val}
use bios_qemu_tz_arm.Cells.Bytes.{fdt32_to_cpu-lt, fdt32_to_cpu-fdt32_to_cpu}
use bios_qemu_tz_arm.Boot.Start.Edits.{Around}
use bios_qemu_tz_arm.Boot.Start.Kernel.{
  Chosen, initrd_start, initrd_end, bootargs, property, HasNumber, KeepsOthers, Chooser,
}
use bios_qemu_tz_arm.Boot.Start.Examples.{lib, bytes_at, text_of_length}

number-HasNumber :
    (dtb slot v : ℕ) (mem : Memory)
    → v < 2 ^ 32
    → get_val (bytes_at (dtb + slot) (store32 (dtb + slot) (fdt32_to_cpu v) mem)) 0 1 ≡ ok (v, 4)
unfolding get_val load advance load32
number-HasNumber dtb slot v mem h = ground (
  arith,
  load32-store32 (dtb + slot) (fdt32_to_cpu v) mem (fdt32_to_cpu-lt v),
  fdt32_to_cpu-fdt32_to_cpu v h,
)

module _ (dtb : ℕ) where
  -- Where the value is stored.
  abbrev slot : Chosen → ℕ
  slot initrd_start = dtb + 16
  slot initrd_end = dtb + 32
  slot bootargs = dtb + 64

  abbrev Beside : Chosen → Memory → Memory → Type 0
  Beside k mem mem' = (i : ℕ) → (i < slot k) ⊎ (slot k + 4 ≤ i) → mem' i ≡ mem i

  bytes_at-same :
      (a : ℕ) (mem mem' : Memory)
      → ((i : ℕ) → a ≤ i → i < a + 4 → mem' i ≡ mem i)
      → bytes_at a mem' ≡ bytes_at a mem
  bytes_at-same a mem mem' same =
      rw
        (
          same a (omega arith) (omega arith),
          same (a + 1) (omega arith) (omega arith),
          same (a + 2) (omega arith) (omega arith),
          same (a + 3) (omega arith) (omega arith),
        )
        refl

  away :
      (k : Chosen) {other : Chosen}
      → other ≢ k
      → (i : ℕ) → slot other ≤ i
      → i < slot other + 4
      → (i < slot k) ⊎ (slot k + 4 ≤ i)
  away initrd_start {other = initrd_start} apart i lo hi = absurd (apart refl)
  away initrd_start {other = initrd_end} apart i lo hi = ground arith
  away initrd_start {other = bootargs} apart i lo hi = ground arith
  away initrd_end {other = initrd_start} apart i lo hi = ground arith
  away initrd_end {other = initrd_end} apart i lo hi = absurd (apart refl)
  away initrd_end {other = bootargs} apart i lo hi = ground arith
  away bootargs {other = initrd_start} apart i lo hi = ground arith
  away bootargs {other = initrd_end} apart i lo hi = ground arith
  away bootargs {other = bootargs} apart i lo hi = absurd (apart refl)

  keep : (k : Chosen) (mem mem' : Memory) → Beside k mem mem' → KeepsOthers lib dtb k mem mem'
  keep k mem mem' beside initrd_start content apart (offs, at, e) = (
    12,
    refl,
    ap some (bytes_at-same (dtb + 16) mem mem' (λ i lo hi. beside i (away k apart i lo hi))) ∙ e,
  )
  keep k mem mem' beside initrd_end content apart (offs, at, e) = (
    12,
    refl,
    ap some (bytes_at-same (dtb + 32) mem mem' (λ i lo hi. beside i (away k apart i lo hi))) ∙ e,
  )
  keep k mem mem' beside bootargs content apart (offs, at, e) = (
    12,
    refl,
    ap (λ n. some (text_of_length n))
          (beside (dtb + 64) (away k apart (dtb + 64) (omega arith) (omega arith)))
        ∙ e,
  )

  put_number :
      (k : Chosen) (v : ℕ) (mem : Memory)
      → k ≢ bootargs
      → v < 2 ^ 32
      → (mem' : Memory) × (lib.setprop_cell dtb 12 (property k) v mem ≡ some mem')
        × Unit {0}
        × HasNumber lib dtb k v mem'
        × KeepsOthers lib dtb k mem mem'
        × Around dtb mem mem'
  put_number initrd_start v mem other h = (
    store32 (dtb + 16) (fdt32_to_cpu v) mem,
    refl,
    tt,
    (
      bytes_at (dtb + 16) (store32 (dtb + 16) (fdt32_to_cpu v) mem),
      (12, refl, refl),
      number-HasNumber dtb 16 v mem h,
    ),
    keep initrd_start mem (store32 (dtb + 16) (fdt32_to_cpu v) mem)
        (λ i far. store32_outside (dtb + 16) (fdt32_to_cpu v) mem i far),
    λ i far. store32_outside (dtb + 16) (fdt32_to_cpu v) mem i (ground arith),
  )
  put_number initrd_end v mem other h = (
    store32 (dtb + 32) (fdt32_to_cpu v) mem,
    refl,
    tt,
    (
      bytes_at (dtb + 32) (store32 (dtb + 32) (fdt32_to_cpu v) mem),
      (12, refl, refl),
      number-HasNumber dtb 32 v mem h,
    ),
    keep initrd_end mem (store32 (dtb + 32) (fdt32_to_cpu v) mem)
        (λ i far. store32_outside (dtb + 32) (fdt32_to_cpu v) mem i far),
    λ i far. store32_outside (dtb + 32) (fdt32_to_cpu v) mem i (ground arith),
  )
  put_number bootargs v mem other h = absurd (other refl)

  chooser : Chooser lib dtb
  chooser = record {
    Holds = λ n mem. Unit;
    c_string = λ s. text_of_length (len s);
    node = λ n mem h. (12, refl);
    cells = λ k v n offs mem other small h at. put_number k v mem other small;
    strings = λ value n offs mem h at. (
      store8 (dtb + 64) (len value) mem,
      refl,
      tt,
      (12, refl, ap (λ n. some (text_of_length n)) (store8_self (dtb + 64) (len value) mem)),
      keep bootargs mem (store8 (dtb + 64) (len value) mem)
          (λ i far. store8_other (dtb + 64) (len value) mem i (ground arith)),
      λ i far. store8_other (dtb + 64) (len value) mem i (ground arith),
    );
    packs = λ n mem h. (mem, refl, (λ k content has. has), λ i far. refl);
  }
