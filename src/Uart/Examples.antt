-- ===== src/Uart/Examples.antt =====
-- A port that is busy at every other read of its flag register, and has received data.
use bios_qemu_tz_arm.Prelude.{not, ◌%◌, ℕ, ◌≡◌, refl, List, [], ◌∷◌, true, false}
use bios_qemu_tz_arm.Run.{ok}
use bios_qemu_tz_arm.Uart.{
  Device, Bus, Access, got, at, has_flag, uart_fr, uart_rsr_ecr, uart_lcrh_tx, uart_imsc, uart_cr,
  uart_fr_txfe, uart_fr_rxfe, uart_dr, uart_getchar, uart_init,
}
use bios_qemu_tz_arm.Uart.Poll.{Answers, writes}
use bios_qemu_tz_arm.Uart.Send.{DrainsFifo, on_the_line, uart_init-Polled, uart_getchar-byte}

-- The state is whether the next read of the flags shows a full transmit FIFO and no data.
pub data Port : Type 0 where
  busy idle : Port

pub read_port : ℕ → Port → ℕ × Port
read_port addr busy = (0x30, idle)
read_port addr idle = (0x80, busy)

abbrev pub port : Device Port
port = record { read = read_port; write = λ v addr d. busy }

abbrev pub start : Bus Port
start = record { dev = busy; log = [] }

pub drains_fifo : DrainsFifo port 2 0x1c090000
unfolding Answers read_port
drains_fifo busy = tt
drains_fifo idle = tt

runs_empty : (d : Port) → Answers port (has_flag uart_fr_txfe) (at 0x1c090000 uart_fr) 2 d
unfolding Answers read_port
runs_empty busy = tt
runs_empty idle = tt

-- "A\n", and a character behind the NUL.
abbrev text : List ℕ
text = 65 ∷ 10 ∷ 0 ∷ 66 ∷ []

text_on_the_line : on_the_line text ≡ 65 ∷ 10 ∷ 13 ∷ []
unfolding on_the_line
text_on_the_line = refl

uart_init-Polled_example :
    (out : Bus Port) × (last : ℕ) × (before : List Access) × (uart_init port 2 0x1c090000 start
      ≡ ok out)
    × (out.log ≡ got last (at 0x1c090000 uart_fr) ∷ before)
    × (has_flag uart_fr_txfe last ≡ true)
    × (writes out.log
        ≡ (0x301, at 0x1c090000 uart_cr)
          ∷ (0x10, at 0x1c090000 uart_imsc)
          ∷ (0x70, at 0x1c090000 uart_lcrh_tx)
          ∷ (0, at 0x1c090000 uart_rsr_ecr)
          ∷ writes [])
uart_init-Polled_example = uart_init-Polled port 2 0x1c090000 runs_empty start

receives : Answers port (λ v. not (has_flag uart_fr_rxfe v)) (at 0x1c090000 uart_fr) 2 busy
unfolding Answers read_port
receives = tt

uart_getchar-byte_example :
    (v : ℕ) × (flags : ℕ) × (out : Bus Port) × (before : List Access) × (uart_getchar port 2
        0x1c090000 start
      ≡ ok (v % 256, out))
    × (out.log ≡ got v (at 0x1c090000 uart_dr) ∷ got flags (at 0x1c090000 uart_fr) ∷ before)
    × (has_flag uart_fr_rxfe flags ≡ false)
    × (writes out.log ≡ writes [])
uart_getchar-byte_example = uart_getchar-byte port 0x1c090000 2 start receives
