-- ===== src/Boot/Start/Whole.antt =====
-- `main_init_sec` of bios/main.c as a whole.
use bios_qemu_tz_arm.Prelude.{ℕ, ◌+◌, ◌*◌, ◌≤◌, ◌<◌, ◌≡◌, some, List, length}
use bios_qemu_tz_arm.Run.{Run, ok, ◌>>=◌}
use bios_qemu_tz_arm.Platform.{Flavor, dtb_start, dtb_max_size, tz_res_mem_start, tz_res_mem_size}
use bios_qemu_tz_arm.Memory.{Memory}
use bios_qemu_tz_arm.Cells.RoundTrip.{IsLength}
use bios_qemu_tz_arm.ResMem.{tz_res_end}
use bios_qemu_tz_arm.ResMem.Avail.{AllCovered}
use bios_qemu_tz_arm.Boot.Images.{
  need, Linker, sub32, Handover, NsImages, header_size, unreloc, load_secure, copy_ns_images,
}
use bios_qemu_tz_arm.Boot.Layout.{Opens, InFlash}
use bios_qemu_tz_arm.Boot.Secure.{header, flash, paged_size, IsValid, Fits}
use bios_qemu_tz_arm.Boot.Tree.{Libfdt, tz_res_mem, tz_res_uart, tz_add_optee_node}
use bios_qemu_tz_arm.Boot.Tree.Reserve.{Tree, Reduced}
use bios_qemu_tz_arm.Boot.Start.Sources.{source}
use bios_qemu_tz_arm.Boot.Start.Edits.{Around, Editor, Nodes}

-- The machine can boot: there is a valid tree that libfdt opens and that fits; its memory node covers the
-- secure memory, and however the property of that node is rewritten, with one entry more at most, the tree
-- stays valid, with room for the other edits and without a node "/firmware", and its nodes stay listed; what
-- is packed is a valid tree; the secure image is valid and fits; the kernel and the root file system lie in
-- the flash and are no longer than 848 MiB together.
pub record Bootable (p : Flavor) (link : Linker) (lib : Libfdt) (stack : List ℕ) (fuel : ℕ)
    (mem : Memory) : Type 1 where
  pub opens : Opens lib.open_into (source link (dtb_start p)) dtb_max_size
  pub is_tree : opens.IsTree mem
  pub reopens : Opens lib.open_into (dtb_start p) dtb_max_size
  pub opened : Memory
  pub is_opened :
      lib.open_into (source link (dtb_start p)) (dtb_start p) dtb_max_size mem ≡ some opened
  pub dtb_fits : sub32 link.nsec_dtb_end link.nsec_dtb_start ≤ dtb_max_size
  pub tree : Tree lib (dtb_start p) (opened)
  pub covered : AllCovered tree.regs (tz_res_mem_start p) (tz_res_end p)
  pub room : length tree.prop + (tree.addr_size + tree.len_size) * 4 ≤ length stack
  pub short : IsLength (length tree.prop + (tree.addr_size + tree.len_size) * 4)
  pub editor : Editor lib (dtb_start p)
  pub rewritten :
      (content : List ℕ) (mem' : Memory)
      → length content ≤ length tree.prop + (tree.addr_size + tree.len_size) * 4
      → lib.setprop (dtb_start p) tree.offs "reg" content (opened) ≡ some mem'
      → editor.Holds 256 mem'
        × editor.Lacks "firmware" mem'
        × Nodes lib (dtb_start p) fuel mem'
        × Around (dtb_start p) (opened) mem'
  pub packed_is_tree : (packed : Memory) → editor.IsPacked packed → reopens.IsTree packed
  pub valid : IsValid p link mem
  pub fits : Fits p link mem
  pub kernel_flash : InFlash link link.nsec_blob_start link.nsec_blob_end
  pub rootfs_flash : InFlash link link.nsec_rootfs_start link.nsec_rootfs_end
  pub small :
      sub32 link.nsec_blob_end link.nsec_blob_start
        + sub32 link.nsec_rootfs_end link.nsec_rootfs_start
      ≤ 0x35000000

module _ (p : Flavor) (link : Linker) (lib : Libfdt) (stack : List ℕ) (fuel : ℕ) (mem : Memory)
    (b : Bootable p link lib stack fuel mem) where
  abbrev opened : Memory
  opened = b.opened

  -- The edits behind `tz_res_mem`.
  abbrev pub edits : Memory → Run Memory
  edits mem2 = do
    mem3 ← tz_res_uart lib p fuel (dtb_start p) mem2
    mem4 ← tz_add_optee_node lib (dtb_start p) mem3
    need (lib.pack (dtb_start p) mem4)

  -- Both worlds are ready to start from what the flash held at first.
  pub record Started (result : Run ((Handover × NsImages) × Memory)) : Type 0 where
    pub handover : Handover
    pub images : NsImages
    pub out : Memory
    pub returns : result ≡ ok ((handover, images), out)
    pub reduced :
        Reduced lib p (dtb_start p) opened b.tree (tz_res_mem lib p stack (dtb_start p) opened)
    -- The tree in its first buffer, edited once more and packed.
    pub packed : Memory
    pub edited : edits reduced.mem' ≡ ok packed
    pub buffer : (i : ℕ) → dtb_start p ≤ i → i < dtb_start p + dtb_max_size → out i ≡ packed i
    pub entry : handover.entry ≡ (header p link mem).init_load_addr_lo
    pub init :
        (i : ℕ)
        → i < (header p link mem).init_size
        → out (handover.entry + i) ≡ mem (flash p link mem + header_size + i)
    pub paged_ends :
        handover.paged_part + paged_size p link mem ≡ tz_res_mem_start p + tz_res_mem_size
    pub paged :
        (i : ℕ)
        → i < paged_size p link mem
        → out (handover.paged_part + i)
          ≡ mem (flash p link mem + header_size + (header p link mem).init_size + i)
    pub kernel :
        (i : ℕ)
        → i < sub32 link.nsec_blob_end link.nsec_blob_start
        → out (images.kernel_entry + i) ≡ mem (unreloc link link.nsec_blob_start + i)
    pub rootfs :
        (i : ℕ)
        → i < sub32 link.nsec_rootfs_end link.nsec_rootfs_start
        → out (images.rootfs_start + i) ≡ mem (unreloc link link.nsec_rootfs_start + i)
    pub above_tree : dtb_start p + dtb_max_size ≤ images.kernel_entry
    pub kernel_ends :
        images.kernel_entry + sub32 link.nsec_blob_end link.nsec_blob_start ≤ images.dtb_addr
    pub dtb_ends : images.dtb_addr + dtb_max_size ≤ images.rootfs_start
    pub rootfs_ends :
        images.rootfs_end ≡ images.rootfs_start + sub32 link.nsec_rootfs_end link.nsec_rootfs_start
    pub below_secure : images.rootfs_end ≤ tz_res_mem_start p

  -- The copies behind the edits of the tree.
  copied : Memory → Run ((Handover × NsImages) × Memory)
  copied mem5 = do
    (handover, mem6) ← load_secure link p mem5
    (images, mem7) ← copy_ns_images link lib.open_into p mem6
    ok ((handover, images), mem7)
