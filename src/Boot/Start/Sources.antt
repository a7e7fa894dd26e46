-- ===== src/Boot/Start/Sources.antt =====
-- What `main_init_sec` starts from: where `open_fdt` takes the device tree from, and the secure image in the
-- flash, which the edits of the tree leave alone.
use bios_qemu_tz_arm.Prelude.{
  ℕ, ◌+◌, ◌≤◌, ◌<◌, ◌≡◌, inl, inr, refl, ap, ◌∙◌, false, some, ◌==◌, ltb, Bool-cases, arith,
  if◌then◌else◌,
}
use bios_qemu_tz_arm.Run.{ok}
use bios_qemu_tz_arm.Platform.{Flavor, dtb_max_size}
use bios_qemu_tz_arm.Memory.{Memory, load32}
use bios_qemu_tz_arm.Memory.Words.{load32-congr}
use bios_qemu_tz_arm.Boot.Images.{
  Linker, OpenInto, sub32, header_size, read_header, unreloc, open_fdt,
}
use bios_qemu_tz_arm.Boot.Secure.{header, flash, IsValid, Fits}

-- Where the device tree is taken from: behind the images in the flash, or from its buffer if it was not
-- linked.
abbrev pub source : Linker → ℕ → ℕ
source link dst =
    if link.nsec_dtb_start == link.nsec_dtb_end then dst else unreloc link link.nsec_dtb_start

pub open_fdt-Opens :
    (link : Linker) (open_into : OpenInto) (dst : ℕ) (mem out : Memory)
    → open_into (source link dst) dst dtb_max_size mem ≡ some out
    → sub32 link.nsec_dtb_end link.nsec_dtb_start ≤ dtb_max_size
    → open_fdt link open_into dst link.nsec_dtb_start link.nsec_dtb_end mem ≡ ok (dst, out)
unfolding open_fdt
open_fdt-Opens link open_into dst mem out opens h =
    let small : ltb dtb_max_size (sub32 link.nsec_dtb_end link.nsec_dtb_start) ≡ false =
      ground arith in
    elim (Bool-cases (link.nsec_dtb_start == link.nsec_dtb_end)) [
      | inl same ↦ rw (same, rw same at opens) refl
      | inr apart ↦ rw (apart, small, rw apart at opens) refl
    ]

-- The secure image is the same in two memories that agree on the flash.
module _ (p : Flavor) (link : Linker) (mem mem' : Memory)
    (same : (i : ℕ) → i < 0x40000000 → mem' i ≡ mem i) (v : IsValid p link mem)
    (f : Fits p link mem) where
  word :
      (a : ℕ)
      → flash p link mem ≤ a
      → a + 4 ≤ flash p link mem + header_size
      → load32 mem' a ≡ load32 mem a
  word a lo hi =
      load32-congr mem' mem a (λ i lo' hi'. same i (omega (arith, f.in_flash, v.has_header)))

  pub header_same : header p link mem' ≡ header p link mem
  unfolding read_header
  header_same =
      let fl = flash p link mem in
      rw
        (
          word fl (omega arith) (omega arith),
          same (fl + 4) (omega (arith, f.in_flash, v.has_header)),
          word (fl + 8) (omega arith) (omega arith),
          word (fl + 12) (omega arith) (omega arith),
          word (fl + 16) (omega arith) (omega arith),
        )
        refl

  pub IsValid_same : IsValid p link mem'
  IsValid_same = record {
    has_header = v.has_header;
    positive = v.positive;
    magic = ap (λ h. h.magic) header_same ∙ v.magic;
    version = ap (λ h. h.version) header_same ∙ v.version;
    low_address = ap (λ h. h.init_load_addr_hi) header_same ∙ v.low_address;
  }

  pub Fits_same : Fits p link mem'
  Fits_same = record {
    text_word = f.text_word;
    start_word = f.start_word;
    end_word = f.end_word;
    in_flash = f.in_flash;
    parts = rw header_same f.parts;
    above = rw header_same f.above;
    room = rw header_same f.room;
  }
