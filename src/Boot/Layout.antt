-- ===== src/Boot/Layout.antt =====
-- Where `copy_ns_images` of bios/main.c puts the images of the non-secure world.
use bios_qemu_tz_arm.Prelude.{
  ℕ, ◌+◌, ◌-◌, ◌*◌, ◌%◌, ◌^◌, ◌≤◌, ◌<◌, ◌≡◌, ◌⊎◌, inl, refl, ◌∙◌, some, arith, Bits.bit_and_low,
}
use bios_qemu_tz_arm.Run.{Run, ok}
use bios_qemu_tz_arm.Platform.{
  Flavor, vexpress, virt, dram_start, dtb_start, dtb_max_size, tz_res_mem_start,
}
use bios_qemu_tz_arm.Memory.{Memory, memcpy}
use bios_qemu_tz_arm.Memory.Words.{memcpy_inside, memcpy_outside}
use bios_qemu_tz_arm.Boot.Images.{
  Linker, OpenInto, add32, sub32, page_size, roundup, NsImages, unreloc, copy_bios_image, copy_dtb,
  copy_ns_images,
}

-- What libfdt documents of `fdt_open_into`: from a memory that holds at `src` a valid tree of at most `size`
-- bytes, with its blocks in their order, it succeeds, and writes to the buffer only. Whether it holds such
-- a tree depends on those bytes alone.
pub record Opens (open_into : OpenInto) (src size : ℕ) : Type 1 where
  pub IsTree : Memory → Type 0
  pub local :
      (mem mem' : Memory)
      → IsTree mem
      → ((i : ℕ) → src ≤ i → i < src + size → mem' i ≡ mem i)
      → IsTree mem'
  pub succeeds :
      (dst : ℕ) (mem : Memory)
      → IsTree mem
      → dst + size ≤ 2 ^ 32
      → (out : Memory) × (open_into src dst size mem ≡ some out)
        × ((i : ℕ) → (i < dst) ⊎ (dst + size ≤ i) → out i ≡ mem i)

-- `roundup` gives the next multiple of a page.
pub roundup_lem :
    (v : ℕ)
    → v + page_size < 2 ^ 32
    → (roundup v page_size % page_size ≡ 0)
      × (v ≤ roundup v page_size)
      × (roundup v page_size < v + page_size)
unfolding roundup
roundup_lem v h =
    let e : add32 v (page_size - 1) ≡ v + 4095 = omega arith in
    rw (e, bit_and_low 12 (v + 4095)) (omega arith, omega arith, omega arith)

-- An image of that many bytes at that place in the flash, which lies below the RAM of both boards.
abbrev pub InFlash : Linker → ℕ → ℕ → Type 0
InFlash link start end = unreloc link start + sub32 end start ≤ 0x40000000

-- The images follow each other without overlap, the device tree and the root file system on page
-- boundaries, and hold what the flash holds.
pub record Placed (p : Flavor) (link : Linker) (mem : Memory) (result : Run (NsImages × Memory))
    : Type 0 where
  pub images : NsImages
  pub out : Memory
  pub returns : result ≡ ok (images, out)
  pub in_ram : dram_start p + dtb_max_size ≤ images.kernel_entry
  pub kernel_ends :
      images.kernel_entry + sub32 link.nsec_blob_end link.nsec_blob_start ≤ images.dtb_addr
  pub dtb_aligned : images.dtb_addr % page_size ≡ 0
  pub dtb_ends : images.dtb_addr + dtb_max_size ≤ images.rootfs_start
  pub rootfs_aligned : images.rootfs_start % page_size ≡ 0
  pub rootfs_ends :
      images.rootfs_end ≡ images.rootfs_start + sub32 link.nsec_rootfs_end link.nsec_rootfs_start
  pub below_secure : images.rootfs_end ≤ tz_res_mem_start p
  pub kernel :
      (i : ℕ)
      → i < sub32 link.nsec_blob_end link.nsec_blob_start
      → out (images.kernel_entry + i) ≡ mem (unreloc link link.nsec_blob_start + i)
  pub rootfs :
      (i : ℕ)
      → i < sub32 link.nsec_rootfs_end link.nsec_rootfs_start
      → out (images.rootfs_start + i) ≡ mem (unreloc link link.nsec_rootfs_start + i)
  pub outside : (i : ℕ) → (i < images.kernel_entry) ⊎ (images.rootfs_end ≤ i) → out i ≡ mem i

ram_bounds :
    (p : Flavor)
    → (0x40000000 ≤ dram_start p)
      × (dram_start p ≤ 0x80000000)
      × (dram_start p + 0x3DF00000 ≡ tz_res_mem_start p)
ram_bounds vexpress = (omega arith, omega arith, refl)
ram_bounds virt = (omega arith, omega arith, refl)

tree_at : (p : Flavor) → dtb_start p + dtb_max_size ≤ dram_start p + 0x2000000
tree_at vexpress = omega arith
tree_at virt = omega arith

-- Let the kernel and the root file system lie in the flash, below the RAM, and be no longer than 848 MiB
-- together, and let the memory hold at the start of the RAM a device tree that libfdt opens as documented:
-- valid, with its blocks in their order and no longer than its buffer. Then `copy_ns_images` returns; the kernel, the device
-- tree and the root file system do not overlap and end below the secure memory, the device
-- tree and the root file system start on pages, the kernel and the root file system are complete, and
-- no byte below the kernel or above the root file system has changed.
pub copy_ns_images-Placed :
    (p : Flavor) (link : Linker) (open_into : OpenInto) (mem : Memory)
    → (opens : Opens open_into (dtb_start p) dtb_max_size) → opens.IsTree mem
    → InFlash link link.nsec_blob_start link.nsec_blob_end
    → InFlash link link.nsec_rootfs_start link.nsec_rootfs_end
    → sub32 link.nsec_blob_end link.nsec_blob_start
        + sub32 link.nsec_rootfs_end link.nsec_rootfs_start
      ≤ 0x35000000
    → Placed p link mem (copy_ns_images link open_into p mem)
unfolding copy_ns_images copy_dtb copy_bios_image
copy_ns_images-Placed p link open_into mem opens is_tree fk fr small =
    let lk = sub32 link.nsec_blob_end link.nsec_blob_start in
    let lr = sub32 link.nsec_rootfs_end link.nsec_rootfs_start in
    let (low, high, secure) = ram_bounds p in
    let kernel = add32 (dram_start p) (32 * 1024 * 1024) in
    let k : kernel ≡ dram_start p + 0x2000000 = omega (arith, low, high, secure) in
    let v = add32 kernel lk in
    let v_is : v ≡ kernel + lk = omega (arith, low, high, secure) in
    let (a1, a2, a3) = roundup_lem v (omega (arith, low, high, secure)) in
    let dtb = add32 (roundup v page_size) (96 * 1024 * 1024) in
    let d : dtb ≡ roundup v page_size + 0x6000000 = omega (arith, low, high, secure) in
    let w = add32 (add32 dtb dtb_max_size) dtb_max_size in
    let w_is : w ≡ dtb + 0x20000 = omega (arith, low, high, secure) in
    let (b1, b2, b3) = roundup_lem w (omega (arith, low, high, secure)) in
    let r = roundup w page_size in
    let end : add32 r lr ≡ r + lr = omega (arith, low, high, secure) in
    let mem1 = memcpy kernel (unreloc link link.nsec_blob_start) lk mem in
    let kept = opens.local mem mem1 is_tree (λ i lo hi.
      memcpy_outside kernel (unreloc link link.nsec_blob_start) lk mem i
        (inl (omega (arith, low, high, secure, tree_at p)))) in
    let (mem2, opened, within) = opens.succeeds dtb mem1 kept (omega (arith, low, high, secure)) in
    record {
      images = record {
        kernel_entry = kernel;
        dtb_addr = dtb;
        rootfs_start = r;
        rootfs_end = add32 r lr;
      };
      out = memcpy r (unreloc link link.nsec_rootfs_start) lr mem2;
      returns = rw opened refl;
      in_ram = omega arith;
      kernel_ends = omega arith;
      dtb_aligned = omega arith;
      dtb_ends = omega arith;
      rootfs_aligned = b1;
      rootfs_ends = end;
      below_secure = omega (arith, low, high, secure);
      kernel = λ i h.
          memcpy_outside r (unreloc link link.nsec_rootfs_start) lr mem2 (kernel + i)
            (inl (omega arith))
          ∙ within (kernel + i) (inl (omega arith))
          ∙ memcpy_inside kernel (unreloc link link.nsec_blob_start) lk mem i h;
      rootfs = λ i h.
          memcpy_inside r (unreloc link link.nsec_rootfs_start) lr mem2 i h
          ∙ within (unreloc link link.nsec_rootfs_start + i) (inl (omega (arith, low)))
          ∙ memcpy_outside kernel (unreloc link link.nsec_blob_start) lk mem
              (unreloc link link.nsec_rootfs_start + i) (inl (omega (arith, low)));
      outside = λ i h.
          memcpy_outside r (unreloc link link.nsec_rootfs_start) lr mem2 i (ground arith)
          ∙ within i (ground arith)
          ∙ memcpy_outside kernel (unreloc link link.nsec_blob_start) lk mem i (ground arith);
    }
