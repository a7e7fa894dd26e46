-- ===== src/Boot/Tree/Reserve.antt =====
-- `tz_res_mem` of bios/main.c as a whole: the check, the carving and the property that it writes.
use bios_qemu_tz_arm.Prelude.{
  ℕ, suc, ◌+◌, ◌*◌, ◌≤◌, ◌≡◌, ◌⊎◌, inl, inr, refl, sym, ap, ◌∙◌, some, List, length, take,
  length-take, arith,
}
use bios_qemu_tz_arm.Run.{Run, ok, hang, ◌>>=◌, ◌>>◌}
use bios_qemu_tz_arm.Platform.{Flavor, tz_res_mem_start}
use bios_qemu_tz_arm.Memory.{Memory}
use bios_qemu_tz_arm.Cells.RoundTrip.{IsLength}
use bios_qemu_tz_arm.ResMem.{
  Region, print_regions, tz_res_end, tz_res_mem_check_avail, tz_res_mem_carve,
}
use bios_qemu_tz_arm.ResMem.Regions.{IsMemory}
use bios_qemu_tz_arm.ResMem.Avail.{Covered, AllCovered, SomeUncovered, check_avail_decides}
use bios_qemu_tz_arm.ResMem.Carve.{Disjoint}
use bios_qemu_tz_arm.ResMem.Carve.Exact.{All, IsSecure, Fits32, carve-IsSecure}
use bios_qemu_tz_arm.Boot.Images.{need}
use bios_qemu_tz_arm.Boot.Tree.{Libfdt, get_cells_size, tz_res_mem}

-- What `tz_res_mem` finds in the tree: a memory node whose property is whole entries, which list
-- disjoint regions of the 32-bit address space, and room for a property with one entry more.
pub record Tree (lib : Libfdt) (fdt : ℕ) (mem : Memory) : Type 0 where
  pub offs : ℕ
  pub prop : List ℕ
  pub addr_size : ℕ
  pub len_size : ℕ
  pub regs : List Region
  pub node : lib.subnode_offset fdt 0 "memory" mem ≡ some offs
  pub reg : lib.getprop fdt offs "reg" mem ≡ some prop
  pub addr : get_cells_size lib fdt 0 "#address-cells" mem ≡ ok addr_size
  pub len : get_cells_size lib fdt 0 "#size-cells" mem ≡ ok len_size
  pub memory : IsMemory prop (length prop) addr_size len_size
  pub printed : print_regions prop (length prop) addr_size len_size (suc (length prop)) 0 ≡ ok regs
  pub disjoint : Disjoint regs
  pub small : All Fits32 regs
  pub writes :
      (content : List ℕ)
      → length content ≤ length prop + (addr_size + len_size) * 4
      → (mem' : Memory) × (lib.setprop fdt offs "reg" content mem ≡ some mem')

-- The run wrote a property to the memory node from which the printing loop reads the regions `out`, and
-- none of them has an address of the secure memory.
pub record Reduced (lib : Libfdt) (p : Flavor) (fdt : ℕ) (mem : Memory) (t : Tree lib fdt mem)
    (result : Run Memory) : Type 0 where
  pub buf : List ℕ
  pub used : ℕ
  pub out : List Region
  pub mem' : Memory
  pub returns : result ≡ ok mem'
  pub written : lib.setprop fdt t.offs "reg" (take used buf) mem ≡ some mem'
  pub short : length (take used buf) ≤ length t.prop + (t.addr_size + t.len_size) * 4
  pub holds : print_regions buf used t.addr_size t.len_size (suc used) 0 ≡ ok out
  pub secure : (x : ℕ) → Covered x out → IsSecure p x → ⊥

module _ (lib : Libfdt) (p : Flavor) (stack : List ℕ) (fdt : ℕ) (mem : Memory)
    (t : Tree lib fdt mem) where
  abbrev dlen : ℕ
  dlen = length t.prop + (t.addr_size + t.len_size) * 4

  -- `tz_res_mem` behind the reads of the tree.
  abbrev behind : Run (Unit {0}) → Run (List ℕ × ℕ) → Run Memory
  behind checked carved = do
    checked
    (content, used) ← carved
    need (lib.setprop fdt t.offs "reg" (take used content) mem)

  abbrev checked : Run (Unit {0})
  checked = tz_res_mem_check_avail p t.prop (length t.prop) t.addr_size t.len_size

  tz_res_mem-behind :
      tz_res_mem lib p stack fdt mem
      ≡ behind checked
          (tz_res_mem_carve p t.prop (length t.prop) t.addr_size t.len_size (take dlen stack) dlen)
  unfolding tz_res_mem
  tz_res_mem-behind = rw (t.node, t.reg, t.addr, t.len) refl

  -- Take a tree whose memory node lists, in whole entries, disjoint regions of the 32-bit address
  -- space, and a libfdt that writes a property with one entry more. With room for that entry in its array,
  -- `tz_res_mem` stops in the failed CHECK if some address of the secure memory lies in no region
  -- of the node. Otherwise it returns, and the property that it has written to the node lists no
  -- address of the secure memory.
  pub tz_res_mem-Reduced :
      dlen ≤ length stack
      → IsLength dlen
      → (tz_res_mem lib p stack fdt mem ≡ hang)
          × SomeUncovered t.regs (tz_res_mem_start p) (tz_res_end p)
        ⊎ AllCovered t.regs (tz_res_mem_start p) (tz_res_end p)
          × Reduced lib p fdt mem t (tz_res_mem lib p stack fdt mem)
  tz_res_mem-Reduced room short =
      let buf = take dlen stack in
      let size : length buf ≡ dlen = omega (arith, length-take dlen stack) in
      let c =
        carve-IsSecure p t.prop (length t.prop) t.addr_size t.len_size t.regs buf t.memory t.printed
          t.disjoint (omega (arith, size)) (omega (arith, size)) t.small in
      let carve : ℕ → Run (List ℕ × ℕ) =
        tz_res_mem_carve p t.prop (length t.prop) t.addr_size t.len_size buf in
      let carved : carve dlen ≡ ok (c.buf, c.dlen) = ap carve (sym size) ∙ c.returns in
      let short : length (take c.dlen c.buf) ≤ dlen =
        omega (arith, length-take c.dlen c.buf, c.inside, size) in
      let (mem', written) = t.writes (take c.dlen c.buf) short in
      elim (check_avail_decides p t.prop (length t.prop) t.addr_size t.len_size t.regs t.memory
        t.printed) [
          | inl (passed, all) ↦ inr (
            all,
            record {
              buf = c.buf;
              used = c.dlen;
              out = c.out;
              mem' = mem';
              returns =
                  tz_res_mem-behind
                  ∙ ap (λ r. behind r (carve dlen)) passed
                  ∙ ap (behind (ok tt)) carved
                  ∙ ap need written;
              written = written;
              short = short;
              holds = c.holds;
              secure = c.meaning;
            },
          )
          | inr (failed, some_out) ↦
              inl (tz_res_mem-behind ∙ ap (λ r. behind r (carve dlen)) failed, some_out)
        ]
