-- ===== src/Boot/Start/Kernel.antt =====
-- `main_init_ns` and `call_kernel` of bios/main.c: what the kernel is given.
use Prim.Native.String.{String, len}
use bios_qemu_tz_arm.Prelude.{ℕ, ◌+◌, ◌^◌, ◌<◌, ◌≡◌, ◌≢◌, refl, ◌∙◌, some, List}
use bios_qemu_tz_arm.Run.{Run, ok}
use bios_qemu_tz_arm.Platform.{Flavor, dtb_max_size}
use bios_qemu_tz_arm.Memory.{Memory}
use bios_qemu_tz_arm.Cells.{get_val}
use bios_qemu_tz_arm.Boot.Images.{Linker, sub32, NsImages, unreloc}
use bios_qemu_tz_arm.Boot.Tree.{Libfdt, call_kernel, setprop_cell, setprop_string, main_init_sec}
use bios_qemu_tz_arm.Boot.Start.Edits.{Around}
use bios_qemu_tz_arm.Boot.Start.Whole.{Bootable, Started}

-- The properties that the kernel reads from the node "/chosen".
pub data Chosen : Type 0 where
  initrd_start initrd_end bootargs : Chosen

abbrev pub property : Chosen → String
property initrd_start = "linux,initrd-start"
property initrd_end = "linux,initrd-end"
property bootargs = "bootargs"

-- What the node "/chosen" of the tree at `dtb` has.
module _ (lib : Libfdt) (dtb : ℕ) where
  abbrev pub HasProp : Chosen → List ℕ → Memory → Type 0
  HasProp k content mem =
      (offs : ℕ) × (lib.path_offset dtb "/chosen" mem ≡ some offs)
      × (lib.getprop dtb offs (property k) mem ≡ some content)

  abbrev pub HasNumber : Chosen → ℕ → Memory → Type 0
  HasNumber k v mem = (content : List ℕ) × HasProp k content mem × (get_val content 0 1 ≡ ok (v, 4))

  -- The properties but one are kept.
  abbrev pub KeepsOthers : Chosen → Memory → Memory → Type 0
  KeepsOthers k mem mem' =
      (other : Chosen) (content : List ℕ)
      → other ≢ k
      → HasProp other content mem
      → HasProp other content mem'

  -- What libfdt documents of the calls in `call_kernel`: `Holds n mem` says that the buffer holds a valid
  -- tree with a node "/chosen" and has room for `n` more bytes, and `c_string` gives the bytes of a string with
  -- its NUL. A property takes 64 bytes and its string of the room at most.
  pub record Chooser : Type 1 where
    pub Holds : ℕ → Memory → Type 0
    pub c_string : String → List ℕ
    pub node :
        (n : ℕ) (mem : Memory)
        → Holds n mem
        → (offs : ℕ) × (lib.path_offset dtb "/chosen" mem ≡ some offs)
    pub cells :
        (k : Chosen) (v n offs : ℕ) (mem : Memory)
        → k ≢ bootargs
        → v < 2 ^ 32
        → Holds (n + 64) mem
        → lib.path_offset dtb "/chosen" mem ≡ some offs
        → (mem' : Memory) × (lib.setprop_cell dtb offs (property k) v mem ≡ some mem')
          × Holds n mem'
          × HasNumber k v mem'
          × KeepsOthers k mem mem'
          × Around dtb mem mem'
    pub strings :
        (value : String) (n offs : ℕ) (mem : Memory)
        → Holds (n + 64 + len value) mem
        → lib.path_offset dtb "/chosen" mem ≡ some offs
        → (mem' : Memory) × (lib.setprop_string dtb offs (property bootargs) value mem ≡ some mem')
          × Holds n mem'
          × HasProp bootargs (c_string value) mem'
          × KeepsOthers bootargs mem mem'
          × Around dtb mem mem'
    pub packs :
        (n : ℕ) (mem : Memory)
        → Holds n mem
        → (mem' : Memory) × (lib.pack dtb mem ≡ some mem')
          × ((k : Chosen) (content : List ℕ) → HasProp k content mem → HasProp k content mem')
          × Around dtb mem mem'

  -- `fdt_open_into` of the tree onto itself, which makes the buffer's room usable.
  pub record Reopens (chooser : Chooser) (n : ℕ) (mem : Memory) : Type 0 where
    pub out : Memory
    pub succeeds : lib.open_into dtb dtb dtb_max_size mem ≡ some out
    pub holds : chooser.Holds n out
    pub around : Around dtb mem out

  module _ (chooser : Chooser) (cmdline : String) (entry initrd end : ℕ) (mem : Memory) where
    -- The kernel is called with the address of the tree; the tree has the place of the root file system
    -- and the command line, and nothing else has changed.
    pub record Called (result : Run ((ℕ × ℕ × ℕ × ℕ) × Memory)) : Type 0 where
      pub out : Memory
      pub returns : result ≡ ok ((entry, 0, 2272, dtb), out)
      pub from : HasNumber initrd_start initrd out
      pub to : HasNumber initrd_end end out
      pub args : HasProp bootargs (chooser.c_string cmdline) out
      pub around : Around dtb mem out

    -- With room for three properties and the command line `call_kernel` returns, and the three properties
    -- are in the tree.
    pub call_kernel-Called :
        Reopens chooser (64 + len cmdline + 64 + 64) mem
        → initrd < 2 ^ 32
        → end < 2 ^ 32
        → Called (call_kernel lib cmdline entry dtb initrd end mem)
    unfolding call_kernel setprop_cell setprop_string
    call_kernel-Called r h h' =
        let room = 64 + len cmdline in
        let (n1, at1) = chooser.node (room + 64 + 64) r.out r.holds in
        let (m2, e2, holds2, (c2, has2, v2), keeps2, a2) =
          chooser.cells initrd_start initrd (room + 64) n1 r.out (λ e. cc) h r.holds at1 in
        let (n2, at2) = chooser.node (room + 64) m2 holds2 in
        let (m3, e3, holds3, (c3, has3, v3), keeps3, a3) =
          chooser.cells initrd_end end room n2 m2 (λ e. cc) h' holds2 at2 in
        let (n3, at3) = chooser.node room m3 holds3 in
        let (m4, e4, holds4, has4, keeps4, a4) = chooser.strings cmdline 0 n3 m3 holds3 at3 in
        let (m5, e5, keeps5, a5) = chooser.packs 0 m4 holds4 in
        record {
          out = m5;
          returns = rw (r.succeeds, at1, e2, at2, e3, at3, e4, e5) refl;
          from = (
            c2,
            keeps5 initrd_start c2
                (keeps4 initrd_start c2 (λ e. cc) (keeps3 initrd_start c2 (λ e. cc) has2)),
            v2,
          );
          to = (c3, keeps5 initrd_end c3 (keeps4 initrd_end c3 (λ e. cc) has3), v3);
          args = keeps5 bootargs (chooser.c_string cmdline) has4;
          around = λ i far. a5 i far ∙ a4 i far ∙ a3 i far ∙ a2 i far ∙ r.around i far;
        }

-- The kernel starts with what the flash held at first.
module _ (p : Flavor) (link : Linker) (lib : Libfdt) (stack : List ℕ) (fuel : ℕ) (mem : Memory)
    (b : Bootable p link lib stack fuel mem)
    (s : Started p link lib stack fuel mem b (main_init_sec lib p link stack fuel mem))
    (cmdline : String) (mem' : Memory) where
  abbrev images : NsImages
  images = s.images

  -- The kernel, the root file system and what `/chosen` says.
  pub record Booted (chooser : Chooser lib images.dtb_addr)
      (result : Run ((ℕ × ℕ × ℕ × ℕ) × Memory)) : Type 0 where
    pub out : Memory
    pub returns : result ≡ ok ((images.kernel_entry, 0, 2272, images.dtb_addr), out)
    pub from : HasNumber lib images.dtb_addr initrd_start images.rootfs_start out
    pub to : HasNumber lib images.dtb_addr initrd_end images.rootfs_end out
    pub args : HasProp lib images.dtb_addr bootargs (chooser.c_string cmdline) out
    pub kernel :
        (i : ℕ)
        → i < sub32 link.nsec_blob_end link.nsec_blob_start
        → out (images.kernel_entry + i) ≡ mem (unreloc link link.nsec_blob_start + i)
    pub rootfs :
        (i : ℕ)
        → i < sub32 link.nsec_rootfs_end link.nsec_rootfs_start
        → out (images.rootfs_start + i) ≡ mem (unreloc link link.nsec_rootfs_start + i)
