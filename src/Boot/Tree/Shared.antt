-- ===== src/Boot/Tree/Shared.antt =====
-- Which node `tz_res_uart` of bios/main.c takes out of the tree.
use bios_qemu_tz_arm.Prelude.{
  ℕ, zero, suc, ◌%◌, ◌^◌, ◌<◌, ◌≡◌, ◌⊎◌, inl, inr, refl, Bool, false, ◌&&◌, Option, none, some,
  List, [], ◌∷◌, ◌==◌, length, Bool-cases, arith, if◌then◌else◌,
}
use bios_qemu_tz_arm.Run.{Run, ok}
use bios_qemu_tz_arm.Platform.{Flavor, uart1_base}
use bios_qemu_tz_arm.Memory.{Memory}
use bios_qemu_tz_arm.Cells.{get_val}
use bios_qemu_tz_arm.Boot.Images.{need}
use bios_qemu_tz_arm.Boot.Tree.{
  Libfdt, pl011, get_cells_size, node_is_compatible, has_reg_base, uart_loop, tz_res_uart,
}
use bios_qemu_tz_arm.Boot.Tree.Compatible.{
  IsText, AllTexts, stringlist, lists, compatible_loop-lists,
}

-- "arm,pl011", without its NUL
abbrev pub pl011_text : List ℕ
pl011_text = b'a' ∷ b'r' ∷ b'm' ∷ b',' ∷ b'p' ∷ b'l' ∷ b'0' ∷ b'1' ∷ b'1' ∷ []

pl011-IsText : IsText pl011_text
unfolding IsText
pl011-IsText = ground arith

-- A node: its place, the strings of its "compatible" property and the base of its "reg" property, if
-- it has one.
pub record Node : Type 0 where
  pub place : ℕ
  pub compatible : List (List ℕ)
  pub base : Option ℕ

abbrev pub based : ℕ → Option ℕ → Bool
based uart none = false
based uart (some base) = base % 2 ^ 32 == uart

-- The node is a PL011 at the base of the secure UART.
abbrev pub is_shared : ℕ → Node → Bool
is_shared uart n = lists n.compatible pl011_text && based uart n.base

-- The place of the first such node.
unfoldable pub first_shared : ℕ → List Node → Option ℕ
first_shared uart [] = none
first_shared uart (n ∷ ns) = if is_shared uart n then some n.place else first_shared uart ns

module _ (lib : Libfdt) (fdt addr_size : ℕ) (mem : Memory) where
  -- What the tree has at the place of the node.
  pub record Describes (n : Node) : Type 0 where
    pub texts : AllTexts n.compatible
    pub strings :
        ((lib.getprop fdt n.place "compatible" mem ≡ none) × (n.compatible ≡ []))
        ⊎ (lib.getprop fdt n.place "compatible" mem ≡ some (stringlist n.compatible))
    pub reg :
        ((lib.getprop fdt n.place "reg" mem ≡ none) × (n.base ≡ none))
        ⊎ ((prop : List ℕ) × (v : ℕ) × (poffs : ℕ) × (lib.getprop fdt n.place "reg" mem ≡ some prop)
            × (get_val prop 0 addr_size ≡ ok (v, poffs))
            × (n.base ≡ some v))

  -- The nodes behind an offset, in the order of `fdt_next_node`.
  abbrev pub Chain : ℕ → List Node → Type 0
  Chain offs [] = lib.next_node fdt offs mem ≡ none
  Chain offs (n ∷ ns) = (lib.next_node fdt offs mem ≡ some n.place) × Describes n × Chain n.place ns

  compatible-lists :
      (n : Node)
      → Describes n
      → node_is_compatible lib fdt n.place pl011 mem ≡ ok (lists n.compatible pl011_text)
  unfolding node_is_compatible lists
  compatible-lists n d = elim d.strings [
    | inl (e, z) ↦ rw (node_is_compatible, e, z) refl
    | inr e ↦
        rw (node_is_compatible, e)
          (compatible_loop-lists (suc (length (stringlist n.compatible))) n.compatible pl011_text
            d.texts pl011-IsText (omega arith))
  ]

  reg-based :
      (uart : ℕ) (n : Node)
      → Describes n
      → has_reg_base lib fdt n.place addr_size uart mem ≡ ok (based uart n.base)
  unfolding has_reg_base
  reg-based uart n d = elim d.reg [
    | inl (e, z) ↦ rw (has_reg_base, e, z) refl
    | inr (prop, v, poffs, e, g, z) ↦ rw (has_reg_base, e, z, g) refl
  ]

  -- The run that takes the node at the place out, if there is one.
  abbrev pub removed : Option ℕ → Run Memory
  removed none = ok mem
  removed (some place) = need (lib.del_node fdt place mem)

  loop-first :
      (p : Flavor) (fuel offs : ℕ) (ns : List Node)
      → Chain offs ns
      → length ns < fuel
      → uart_loop lib p addr_size fuel fdt offs mem ≡ removed (first_shared (uart1_base p) ns)
  unfolding uart_loop first_shared
  loop-first p zero offs ns c h = absurd (omega arith)
  loop-first p (suc fuel) offs [] c h = rw (uart_loop, c) refl
  loop-first p (suc fuel) offs (n ∷ ns) (next, d, c) h =
      let rest = loop-first p fuel n.place ns c (omega arith) in
      elim (Bool-cases (lists n.compatible pl011_text)) [
        | inr other ↦ rw (uart_loop, next, compatible-lists n d, other) rest
        | inl uart ↦ elim (Bool-cases (based (uart1_base p) n.base)) [
          | inr away ↦
              rw (uart_loop, next, compatible-lists n d, uart, reg-based (uart1_base p) n d, away)
                rest
          | inl here ↦
              rw (uart_loop, next, compatible-lists n d, uart, reg-based (uart1_base p) n d, here)
                refl
        ]
      ]

  -- Take a tree whose nodes have strings with their NULs as "compatible", or nothing, and a whole
  -- number at the start of "reg", or nothing. With one round more than the tree has nodes,
  -- `tz_res_uart` returns: it takes out the first node that lists "arm,pl011" and starts at the
  -- base of the secure UART, or stops if libfdt refuses; with no such node it leaves the tree as it
  -- is.
  pub tz_res_uart-first :
      (p : Flavor) (fuel : ℕ) (ns : List Node)
      → get_cells_size lib fdt 0 "#address-cells" mem ≡ ok addr_size
      → Chain 0 ns
      → length ns < fuel
      → tz_res_uart lib p fuel fdt mem ≡ removed (first_shared (uart1_base p) ns)
  unfolding tz_res_uart
  tz_res_uart-first p fuel ns cells c h = rw (tz_res_uart, cells) (loop-first p fuel 0 ns c h)
