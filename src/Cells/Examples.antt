-- ===== src/Cells/Examples.antt =====
-- Tests of the cells.
use bios_qemu_tz_arm.Prelude.{◌≡◌, inr, refl, arith, [], ◌∷◌, replicate}
use bios_qemu_tz_arm.Run.{ok}
use bios_qemu_tz_arm.Cells.{put_val, store, cpu_to_fdt64, fdt64_to_cpu}
use bios_qemu_tz_arm.Cells.RoundTrip.{IsPut, put_val-IsPut}

put_val-IsPut_example :
    IsPut (replicate 12 0) 4 2 0x1_2345_6789 (put_val (replicate 12 0) 4 2 0x1_2345_6789)
put_val-IsPut_example =
    put_val-IsPut (replicate 12 0) 4 2 0x1_2345_6789 (inr refl) (omega arith) (omega arith)

put_val_runs :
    put_val (replicate 12 0) 4 2 0x1_2345_6789
    ≡ ok (0 ∷ 0 ∷ 0 ∷ 0 ∷ 0 ∷ 0 ∷ 0 ∷ 0 ∷ 0x23 ∷ 0x45 ∷ 0x67 ∷ 0x89 ∷ [], 12)
unfolding put_val store cpu_to_fdt64 fdt64_to_cpu
put_val_runs = refl
