-- ===== src/Msg.antt =====
-- `msg_init`, `msg` and the message of `check` in bios/main.c: a text is printed into a buffer of 128 bytes,
-- and the buffer is sent up to its NUL. The buffer holds anything before. No
-- call of `msg` has a `%n`, whose stores are left out. `fuel` bounds the reads of
-- the port for one character.
pub mod Line
pub mod Calls
pub mod Messages
mod Examples
use bios_qemu_tz_arm.Prelude.{ℕ, zero, suc, true, false, some, none, Option, List, ◌==◌}
use bios_qemu_tz_arm.Run.{Run, ok, fault, ◌>>=◌}
use bios_qemu_tz_arm.Platform.{Flavor, console_uart_base}
use bios_qemu_tz_arm.Printf.Args.{Arg}
use bios_qemu_tz_arm.Printf.Format.{vsnprintf}
use bios_qemu_tz_arm.Uart.{Device, Bus, send_char, uart_init}

-- sizeof(buf)
abbrev pub buf_size : ℕ
buf_size = 128

module _ {D : Type 0} (hw : Device D) (fuel : ℕ) (p : Flavor) where
  unfoldable pub msg_init : Bus D → Run (Bus D)
  msg_init bus = uart_init hw fuel (console_uart_base p) bus

  -- `for (p = buf; *p; p++)` from `buf[at]` on, where `left` bytes of the buffer are left.
  unfoldable pub send_buffer : ℕ → (ℕ → ℕ) → ℕ → Bus D → Run (Bus D)
  send_buffer zero buf at bus = fault
  send_buffer (suc left) buf at bus = elim (buf at == 0) [
    | true ↦ ok bus
    | false ↦ do
      next ← send_char hw fuel (console_uart_base p) (buf at) bus
      send_buffer left buf (suc at) next
  ]

  unfoldable pub msg : (ℕ → ℕ) → List ℕ → List Arg → Bus D → Run (Bus D)
  msg buf fmt args bus = do
    (printed, ret, stored) ← vsnprintf (some buf) buf_size fmt args
    elim printed [ none ↦ fault | some text ↦ send_buffer buf_size text 0 bus ]
