-- ===== src/Uart.antt =====
-- The PL011 serial port: drivers/uart.c, the 32-bit accesses of include/io.h, and the body of the
-- loop of `msg` in bios/main.c. The hardware is a parameter: what a read gives and what an access
-- changes. A `vaddr_t` is 32 bits wide. The loops that poll have no bound in the code: the fuel is
-- the number of reads, and that the hardware answers within it is a hypothesis of the theorems.
pub mod Poll
pub mod Send
pub mod Examples
use Prim.Native.Nat.{bit_and, bit_or}
use bios_qemu_tz_arm.Prelude.{
  ℕ, zero, suc, ◌+◌, ◌*◌, ◌%◌, ◌^◌, Bool, true, false, not, List, [], ◌∷◌, ◌==◌, if◌then◌else◌,
}
use bios_qemu_tz_arm.Run.{Run, ok, out_of_fuel, ◌>>=◌}

-- The registers, by their offset.
abbrev pub uart_dr : ℕ
uart_dr = 0x00

abbrev pub uart_rsr_ecr : ℕ
uart_rsr_ecr = 0x04

abbrev pub uart_fr : ℕ
uart_fr = 0x18

abbrev pub uart_lcrh_tx : ℕ
uart_lcrh_tx = 0x2C

abbrev pub uart_cr : ℕ
uart_cr = 0x30

abbrev pub uart_imsc : ℕ
uart_imsc = 0x38

-- The bits of the flag register that the code reads.
abbrev pub uart_fr_txfe : ℕ
uart_fr_txfe = 2 ^ 7

abbrev pub uart_fr_txff : ℕ
uart_fr_txff = 2 ^ 5

abbrev pub uart_fr_rxfe : ℕ
uart_fr_rxfe = 2 ^ 4

-- The bits that `uart_init` writes.
abbrev pub uart_lcrh_wlen_8 : ℕ
uart_lcrh_wlen_8 = 3 * 2 ^ 5

abbrev pub uart_lcrh_fen : ℕ
uart_lcrh_fen = 2 ^ 4

abbrev pub uart_cr_rxe : ℕ
uart_cr_rxe = 2 ^ 9

abbrev pub uart_cr_txe : ℕ
uart_cr_txe = 2 ^ 8

abbrev pub uart_cr_uarten : ℕ
uart_cr_uarten = 2 ^ 0

abbrev pub uart_imsc_rxim : ℕ
uart_imsc_rxim = 2 ^ 4

-- A volatile access: what was read where, or what was written where.
pub data Access : Type 0 where
  got wrote : ℕ → ℕ → Access

-- The hardware: a read has an effect, too.
pub record Device (D : Type 0) : Type 0 where
  pub read : ℕ → D → ℕ × D
  pub write : ℕ → ℕ → D → D

-- The hardware and the accesses so far, the last one first.
pub record Bus (D : Type 0) : Type 0 where
  pub dev : D
  pub log : List Access

-- base + UART_x
abbrev pub at : ℕ → ℕ → ℕ
at base offs = (base + offs) % 2 ^ 32

-- `read32(..) & mask` as a condition
abbrev pub has_flag : ℕ → ℕ → Bool
has_flag mask v = not (bit_and v mask == 0)

module _ {D : Type 0} (hw : Device D) where
  unfoldable pub read32 : Bus D → ℕ → ℕ × Bus D
  read32 bus addr =
      let (v, dev) = hw.read addr bus.dev in
      (v % 2 ^ 32, record { dev = dev; log = got (v % 2 ^ 32) addr ∷ bus.log })

  unfoldable pub write32 : ℕ → ℕ → Bus D → Bus D
  write32 val addr bus = record {
    dev = hw.write (val % 2 ^ 32) addr bus.dev;
    log = wrote (val % 2 ^ 32) addr ∷ bus.log;
  }

  -- `while (!stop(read32(addr)));`
  unfoldable pub poll : (ℕ → Bool) → ℕ → ℕ → Bus D → Run (Bus D)
  poll stop addr zero bus = out_of_fuel
  poll stop addr (suc fuel) bus =
      let (v, bus') = read32 bus addr in
      elim (stop v) [ true ↦ ok bus' | false ↦ poll stop addr fuel bus' ]

  module _ (fuel : ℕ) (base : ℕ) where
    unfoldable pub uart_flush_tx_fifo : Bus D → Run (Bus D)
    uart_flush_tx_fifo bus = poll (has_flag uart_fr_txfe) (at base uart_fr) fuel bus

    unfoldable pub uart_init : Bus D → Run (Bus D)
    uart_init bus =
        let b1 = write32 0 (at base uart_rsr_ecr) bus in
        let b2 = write32 (bit_or uart_lcrh_wlen_8 uart_lcrh_fen) (at base uart_lcrh_tx) b1 in
        let b3 = write32 uart_imsc_rxim (at base uart_imsc) b2 in
        let enable = bit_or (bit_or uart_cr_uarten uart_cr_txe) uart_cr_rxe in
        let b4 = write32 enable (at base uart_cr) b3 in uart_flush_tx_fifo b4

    unfoldable pub uart_putc : ℕ → Bus D → Run (Bus D)
    uart_putc ch bus = do
      ready ← poll (λ v. not (has_flag uart_fr_txff v)) (at base uart_fr) fuel bus
      ok (write32 ch (at base uart_dr) ready)

    -- The body of the loop of `msg`.
    unfoldable pub send_char : ℕ → Bus D → Run (Bus D)
    send_char c bus = do
      sent ← uart_putc c bus
      elim (c == 10) [ true ↦ uart_putc 13 sent | false ↦ ok sent ]

  unfoldable pub uart_have_rx_data : ℕ → Bus D → Bool × Bus D
  uart_have_rx_data base bus =
      let (v, bus') = read32 bus (at base uart_fr) in (not (has_flag uart_fr_rxfe v), bus')

  -- while (!uart_have_rx_data(base));
  unfoldable pub await_rx : ℕ → ℕ → Bus D → Run (Bus D)
  await_rx zero base bus = out_of_fuel
  await_rx (suc fuel) base bus =
      let (have, bus') = uart_have_rx_data base bus in
      elim have [ true ↦ ok bus' | false ↦ await_rx fuel base bus' ]

  unfoldable pub uart_getchar : ℕ → ℕ → Bus D → Run (ℕ × Bus D)
  uart_getchar fuel base bus = do
    ready ← await_rx fuel base bus
    let (v, bus') = read32 ready (at base uart_dr)
    ok (bit_and v 0xff, bus')
