-- ===== src/Boot/Images.antt =====
-- The images that bios/main.c copies: `copy_bios_image`, `copy_dtb`, `copy_ns_images`, and the header
-- and the two parts of the secure image in `main_init_sec`. Addresses are 32-bit words. The memory is
-- a function from addresses to bytes; the flash is part of it. The places that the linker chose and
-- the functions of libfdt are parameters. A failing libfdt call, whose result is negative, is `none`.
-- `unreloc` takes the link address of the text off, since the flash is at address 0.
use Prim.Native.Nat.{bit_and}
use bios_qemu_tz_arm.Prelude.{
  ℕ, ◌+◌, ◌-◌, ◌*◌, ◌%◌, ◌^◌, ◌||◌, not, Option, none, some, ◌==◌, ltb, leb, if◌then◌else◌,
}
use bios_qemu_tz_arm.Run.{Run, ok, hang, check, ◌>>=◌, ◌>>◌}
use bios_qemu_tz_arm.Memory.{Memory, memcpy, load32}
use bios_qemu_tz_arm.Platform.{
  Flavor, dram_start, dtb_start, dtb_max_size, tz_res_mem_start, tz_res_mem_size,
}

-- The symbols of the linker script.
pub record Linker : Type 0 where
  pub text_start : ℕ
  pub secure_blob_start : ℕ
  pub secure_blob_end : ℕ
  pub nsec_blob_start : ℕ
  pub nsec_blob_end : ℕ
  pub nsec_dtb_start : ℕ
  pub nsec_dtb_end : ℕ
  pub nsec_rootfs_start : ℕ
  pub nsec_rootfs_end : ℕ

-- `fdt_open_into(src, dst, size)`
abbrev pub OpenInto : Type 0
OpenInto = ℕ → ℕ → ℕ → Memory → Option Memory

-- CHECK(r < 0)
abbrev pub need {ℓ} : {A : Type ℓ} → Option A → Run A
need none = hang
need (some a) = ok a

abbrev pub add32 : ℕ → ℕ → ℕ
add32 a b = (a + b) % 2 ^ 32

-- a - b
abbrev pub sub32 : ℕ → ℕ → ℕ
sub32 a b = (a + (2 ^ 32 - b)) % 2 ^ 32

abbrev pub page_size : ℕ
page_size = 4096

-- `(v + (size - 1)) & ~(size - 1)`: the bits of the mask are taken off.
unfoldable pub roundup : ℕ → ℕ → ℕ
roundup v size = let sum = add32 v (size - 1) in sum - bit_and sum (size - 1)

-- struct optee_header, without the fields that the code does not read
pub record Header : Type 0 where
  pub magic : ℕ
  pub version : ℕ
  pub init_size : ℕ
  pub init_load_addr_hi : ℕ
  pub init_load_addr_lo : ℕ

abbrev pub optee_magic : ℕ
optee_magic = 0x4554504f

abbrev pub optee_version : ℕ
optee_version = 1

-- sizeof(struct optee_header)
abbrev pub header_size : ℕ
header_size = 28

-- The header behind its copy into `hdr` on the stack: the fields at their offsets.
unfoldable pub read_header : Memory → ℕ → Header
read_header mem a = record {
  magic = load32 mem a;
  version = mem (a + 4);
  init_size = load32 mem (a + 8);
  init_load_addr_hi = load32 mem (a + 12);
  init_load_addr_lo = load32 mem (a + 16);
}

-- What `main_init_sec` leaves in its argument and in the static variables.
pub record Handover : Type 0 where
  pub entry : ℕ
  pub paged_part : ℕ

pub record NsImages : Type 0 where
  pub kernel_entry : ℕ
  pub dtb_addr : ℕ
  pub rootfs_start : ℕ
  pub rootfs_end : ℕ

module _ (link : Linker) where
  unfoldable pub unreloc : ℕ → ℕ
  unreloc addr = sub32 addr link.text_start

  -- The memory with the image, and the address behind it.
  unfoldable pub copy_bios_image : ℕ → ℕ → ℕ → Memory → ℕ × Memory
  copy_bios_image dst start end mem =
      let l = sub32 end start in (add32 dst l, memcpy dst (unreloc start) l mem)

  -- From "Look for a header first" to the copy of the secure image. A difference of the pointers that
  -- is negative as an `intptr_t` fails the first check, too.
  unfoldable pub load_secure : Flavor → Memory → Run (Handover × Memory)
  load_secure p mem = do
    let sblob_start = link.secure_blob_start
    let sblob_end = link.secure_blob_end
    let total = sub32 sblob_end sblob_start
    check (leb (2 ^ 31) total || ltb total header_size)
    let hdr = read_header mem (unreloc sblob_start)
    check (not (hdr.magic == optee_magic) || not (hdr.version == optee_version))
    let body = add32 sblob_start header_size
    check (not (hdr.init_load_addr_hi == 0))
    let pg_part_size = sub32 (sub32 sblob_end body) hdr.init_size
    let pg_part_dst = sub32 (add32 (tz_res_mem_start p) tz_res_mem_size) pg_part_size
    let (after_paged, mem1) = copy_bios_image pg_part_dst (add32 body hdr.init_size) sblob_end mem
    let (after_blob, mem2) =
        copy_bios_image hdr.init_load_addr_lo body (sub32 sblob_end pg_part_size) mem1
    ok (record { entry = hdr.init_load_addr_lo; paged_part = pg_part_dst }, mem2)

  module _ (open_into : OpenInto) where
    unfoldable pub open_fdt : ℕ → ℕ → ℕ → Memory → Run (ℕ × Memory)
    open_fdt dst start end mem =
        if not (start == end)
        then (do
          check (ltb dtb_max_size (sub32 end start))
          mem' ← need (open_into (unreloc start) dst dtb_max_size mem)
          ok (dst, mem'))
        else do mem' ← need (open_into dst dst dtb_max_size mem); ok (dst, mem')

    unfoldable pub copy_dtb : ℕ → ℕ → Memory → Run (ℕ × Memory)
    copy_dtb dst src mem = do
      mem' ← need (open_into src dst dtb_max_size mem)
      ok (add32 dst dtb_max_size, mem')

    unfoldable pub copy_ns_images : Flavor → Memory → Run (NsImages × Memory)
    copy_ns_images p mem = do
      let kernel_entry = add32 (dram_start p) (32 * 1024 * 1024)
      let (dst, mem1) = copy_bios_image kernel_entry link.nsec_blob_start link.nsec_blob_end mem
      let dtb_addr = add32 (roundup dst page_size) (96 * 1024 * 1024)
      (dst', mem2) ← copy_dtb dtb_addr (dtb_start p) mem1
      let rootfs_start = roundup (add32 dst' dtb_max_size) page_size
      let (rootfs_end, mem3) =
          copy_bios_image rootfs_start link.nsec_rootfs_start link.nsec_rootfs_end mem2
      ok (
        record {
          kernel_entry = kernel_entry;
          dtb_addr = dtb_addr;
          rootfs_start = rootfs_start;
          rootfs_end = rootfs_end;
        },
        mem3,
      )
