-- ===== src/Boot/Start/Edits.antt =====
-- The edits of the device tree in `main_init_sec`, up to `fdt_pack`: they return, and change the buffer
-- of the tree only.
use Prim.Native.String.{String, len}
use bios_qemu_tz_arm.Prelude.{
  ℕ, ◌+◌, ◌≤◌, ◌<◌, ◌≡◌, ◌⊎◌, inl, inr, refl, ap, ◌∙◌, some, List, [], ◌∷◌, length, Bool-cases,
  Option-cases, arith,
}
use bios_qemu_tz_arm.Run.{Run, ok}
use bios_qemu_tz_arm.Platform.{Flavor, uart1_base, dtb_max_size}
use bios_qemu_tz_arm.Memory.{Memory}
use bios_qemu_tz_arm.Boot.Images.{need}
use bios_qemu_tz_arm.Boot.Tree.{Libfdt, get_cells_size, tz_res_uart, tz_add_optee_node}
use bios_qemu_tz_arm.Boot.Tree.Shared.{
  Node, Chain, first_shared, is_shared, removed, tz_res_uart-first,
}

-- Outside the buffer of the tree the two memories agree.
abbrev pub Around : ℕ → Memory → Memory → Type 0
Around fdt mem mem' = (i : ℕ) → (i < fdt) ⊎ (fdt + dtb_max_size ≤ i) → mem' i ≡ mem i

-- What libfdt documents of the calls that edit a tree: `Holds n mem` says that the buffer holds a valid
-- tree and has room for `n` more bytes, `IsNode offs mem` that the tree has a node at that offset, `IsInner`
-- that it has one that is not the root, `IsFree offs name mem` that the node there has no subnode of that name, `Lacks
-- name mem` that the root has none, and `IsPacked` that the buffer holds a valid tree that was packed. A
-- call with short names that has room succeeds, if it adds no name that is there already, writes to the
-- buffer only, and takes 64 bytes of the room at most; a node that is deleted takes none. The root is at
-- offset 0, and the node behind a node is not the root. A new node has no subnodes, and a deletion adds
-- none to the root.
pub record Editor (lib : Libfdt) (fdt : ℕ) : Type 1 where
  pub Holds : ℕ → Memory → Type 0
  pub IsNode : ℕ → Memory → Type 0
  pub IsInner : ℕ → Memory → Type 0
  pub IsFree : ℕ → String → Memory → Type 0
  pub Lacks : String → Memory → Type 0
  pub IsPacked : Memory → Type 0
  pub root :
      (n : ℕ) (mem : Memory)
      → Holds n mem
      → (offs : ℕ) × (lib.path_offset fdt "/" mem ≡ some offs)
        × IsNode offs mem
        × ((name : String) → Lacks name mem → IsFree offs name mem)
  pub starts : (n : ℕ) (mem : Memory) → Holds n mem → IsNode 0 mem
  pub next :
      (n offs node : ℕ) (mem : Memory)
      → Holds n mem
      → IsNode offs mem
      → lib.next_node fdt offs mem ≡ some node
      → IsNode node mem × IsInner node mem
  pub deletes :
      (n offs : ℕ) (mem : Memory)
      → Holds n mem
      → IsInner offs mem
      → (mem' : Memory) × (lib.del_node fdt offs mem ≡ some mem')
        × Holds n mem'
        × ((name : String) → Lacks name mem → Lacks name mem')
        × Around fdt mem mem'
  pub adds :
      (n offs : ℕ) (name : String) (mem : Memory)
      → len name ≤ 16
      → Holds (n + 64) mem
      → IsNode offs mem
      → IsFree offs name mem
      → (new : ℕ) × (mem' : Memory) × (lib.add_subnode fdt offs name mem ≡ some (new, mem'))
        × IsNode new mem'
        × ((other : String) → IsFree new other mem')
        × Holds n mem'
        × Around fdt mem mem'
  pub strings :
      (n offs : ℕ) (name value : String) (mem : Memory)
      → len name ≤ 16
      → len value ≤ 16
      → Holds (n + 64) mem
      → IsNode offs mem
      → (mem' : Memory) × (lib.setprop_string fdt offs name value mem ≡ some mem')
        × IsNode offs mem'
        × Holds n mem'
        × Around fdt mem mem'
  pub packs :
      (n : ℕ) (mem : Memory)
      → Holds n mem
      → (mem' : Memory) × (lib.pack fdt mem ≡ some mem') × IsPacked mem' × Around fdt mem mem'

-- The nodes of the tree, fewer than the rounds that the search is given.
pub record Nodes (lib : Libfdt) (fdt fuel : ℕ) (mem : Memory) : Type 0 where
  pub addr_size : ℕ
  pub nodes : List Node
  pub cells : get_cells_size lib fdt 0 "#address-cells" mem ≡ ok addr_size
  pub chain : Chain lib fdt addr_size mem 0 nodes
  pub few : length nodes < fuel

module _ (lib : Libfdt) (fdt : ℕ) (editor : Editor lib fdt) where
  -- The run returns, has changed the buffer of the tree only, and leaves a tree with that much room.
  abbrev pub Edited : ℕ → Memory → Run Memory → Type 0
  Edited n mem result =
      (mem' : Memory) × (result ≡ ok mem') × editor.Holds n mem' × Around fdt mem mem'

  first_shared-IsInner :
      (addr_size uart n offs place : ℕ) (mem : Memory) (ns : List Node)
      → editor.Holds n mem
      → editor.IsNode offs mem
      → Chain lib fdt addr_size mem offs ns
      → first_shared uart ns ≡ some place
      → editor.IsInner place mem
  unfolding first_shared
  first_shared-IsInner addr_size uart n offs place mem [] holds is c h = ground arith
  first_shared-IsInner addr_size uart n offs place mem (node ∷ ns) holds is (next, d, c) h =
      elim (Bool-cases (is_shared uart node)) [
        | inl shared ↦ (editor.next n offs place mem holds is (next ∙ rw shared at h)).1
        | inr other ↦
            let (is_next, inner) = editor.next n offs node.place mem holds is next in
            first_shared-IsInner addr_size uart n node.place place mem ns holds is_next c
              (rw other at h)
      ]

  pub tz_res_uart-Edited :
      (p : Flavor) (fuel n : ℕ) (mem : Memory)
      → editor.Holds n mem
      → Nodes lib fdt fuel mem
      → editor.Lacks "firmware" mem
      → (mem' : Memory) × (tz_res_uart lib p fuel fdt mem ≡ ok mem')
        × editor.Holds n mem'
        × editor.Lacks "firmware" mem'
        × Around fdt mem mem'
  tz_res_uart-Edited p fuel n mem holds t lacks =
      let first = tz_res_uart-first lib fdt t.addr_size mem p fuel t.nodes t.cells t.chain t.few in
      elim (Option-cases (first_shared (uart1_base p) t.nodes)) [
        | inl none_is ↦
            (mem, first ∙ ap (removed lib fdt t.addr_size mem) none_is, holds, lacks, λ i h. refl)
        | inr (place, is) ↦
            let node =
              first_shared-IsInner t.addr_size (uart1_base p) n 0 place mem t.nodes holds
                (editor.starts n mem holds) t.chain is in
            let (mem', e, holds', keeps, around) = editor.deletes n place mem holds node in
            (
              mem',
              first ∙ ap (removed lib fdt t.addr_size mem) is ∙ ap need e,
              holds',
              keeps "firmware" lacks,
              around,
            )
      ]

  pub tz_add_optee_node-Edited :
      (n : ℕ) (mem : Memory)
      → editor.Holds (n + 64 + 64 + 64 + 64) mem
      → editor.Lacks "firmware" mem
      → Edited n mem (tz_add_optee_node lib fdt mem)
  unfolding tz_add_optee_node
  tz_add_optee_node-Edited n mem h0 lacks =
      let (root, at, is_root, free) = editor.root (n + 64 + 64 + 64 + 64) mem h0 in
      let (firmware, m1, e1, is1, free1, h1, a1) =
        editor.adds (n + 64 + 64 + 64) root "firmware" mem (omega arith) h0 is_root
          (free "firmware" lacks) in
      let (optee, m2, e2, is2, free2, h2, a2) =
        editor.adds (n + 64 + 64) firmware "optee" m1 (omega arith) h1 is1 (free1 "optee") in
      let (m3, e3, is3, h3, a3) =
        editor.strings (n + 64) optee "compatible" "linaro,optee-tz" m2 (omega arith) (omega arith)
          h2 is2 in
      let (m4, e4, is4, h4, a4) =
        editor.strings n optee "method" "smc" m3 (omega arith) (omega arith) h3 is3 in
      (m4, rw (at, e1, e2, e3, e4) refl, h4, λ i h. a4 i h ∙ a3 i h ∙ a2 i h ∙ a1 i h)
