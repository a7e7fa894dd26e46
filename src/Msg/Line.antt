-- ===== src/Msg/Line.antt =====
-- What `msg` of bios/main.c sends.
use Prim.Native.Nat.{min}
use bios_qemu_tz_arm.Prelude.{
  ℕ, zero, suc, ◌+◌, ◌-◌, ◌≤◌, ◌<◌, ◌≡◌, refl, sym, ap, ◌∙◌, List, [], ◌∷◌, ◌==◌, length, arith,
  Bool-cases, inl, inr, if◌then◌else◌,
}
use bios_qemu_tz_arm.Run.{ok}
use bios_qemu_tz_arm.Platform.{Flavor, console_uart_base}
use bios_qemu_tz_arm.Printf.Args.{Arg}
use bios_qemu_tz_arm.Printf.Format.{Printed, kprintf}
use bios_qemu_tz_arm.Printf.Format.Sink.{text_sink}
use bios_qemu_tz_arm.Printf.Format.Bounded.{char_at, vsnprintf-Truncated}
use bios_qemu_tz_arm.Uart.{Device, Bus}
use bios_qemu_tz_arm.Uart.Poll.{NoOverrun}
use bios_qemu_tz_arm.Uart.Send.{
  on_the_line, push_all, Sends, DrainsFifo, Sends-then, send_char-Sends,
}
use bios_qemu_tz_arm.Msg.{buf_size, msg, send_buffer}

-- So many characters from a place on.
unfoldable pub characters : ℕ → (ℕ → ℕ) → ℕ → List ℕ
characters zero text at = []
characters (suc n) text at = text at ∷ characters n text (suc at)

characters-congr :
    (n : ℕ) (f g : ℕ → ℕ) (at : ℕ)
    → ((i : ℕ) → at ≤ i → i < at + n → f i ≡ g i)
    → characters n f at ≡ characters n g at
unfolding characters
characters-congr zero f g at same = refl
characters-congr (suc n) f g at same = rw (same at (omega arith) (omega arith)) (
    ap (λ rest. g at ∷ rest)
      (characters-congr n f g (suc at) (λ i lo hi. same i (omega arith) (omega arith))))

-- What fits into the buffer in front of the NUL, of a text whose last character stands first.
abbrev pub said : List ℕ → List ℕ
said text = characters (min (length text) (buf_size - 1)) (char_at text) 0

module _ {D : Type 0} (hw : Device D) (fuel : ℕ) (p : Flavor)
    (drains : DrainsFifo hw fuel (console_uart_base p)) where
  abbrev base : ℕ
  base = console_uart_base p

  nothing : (bus : Bus D) → NoOverrun base bus.log → Sends base [] bus (ok bus)
  unfolding push_all
  nothing bus safe = record { out = bus; returns = refl; sent = refl; safe = safe }

  send_buffer-Sends :
      (n left : ℕ) (buf : ℕ → ℕ) (at : ℕ) (bus : Bus D)
      → n < left
      → buf (at + n) ≡ 0
      → NoOverrun base bus.log
      → Sends base (on_the_line (characters n buf at)) bus (send_buffer hw fuel p left buf at bus)
  unfolding send_buffer on_the_line characters
  send_buffer-Sends n zero buf at bus room ends safe = absurd (omega arith)
  send_buffer-Sends zero (suc left) buf at bus room ends safe =
      let same : at ≡ at + 0 = omega arith in
      let here : buf at ≡ 0 = ap buf same ∙ ends in rw (send_buffer, here) (nothing bus safe)
  send_buffer-Sends (suc n) (suc left) buf at bus room ends safe =
      let c = buf at in
      let moved : suc at + n ≡ at + suc n = omega arith in
      let s = send_char-Sends hw fuel base drains c bus safe in
      elim (Bool-cases (c == 0)) [
        | inl e ↦ rw (e, send_buffer, on_the_line) (nothing bus safe)
        | inr e ↦
            rw (e, send_buffer, on_the_line)
              (Sends-then hw fuel base (if c == 10 then c ∷ 13 ∷ [] else c ∷ [])
                (on_the_line (characters n buf (suc at))) bus
                (send_buffer hw fuel p left buf (suc at)) s
                (send_buffer-Sends n left buf (suc at) s.out (omega arith) (ap buf moved ∙ ends)
                  s.safe))
      ]

  -- Take a format and arguments for which `kprintf` prints a text, with no `int` that overflows and with no
  -- store by `%n`, and a transmit FIFO that gets room within
  -- `fuel` reads from every state of the port. Then `msg` returns. It sends the first 127 characters
  -- of the text, up to the first NUL among them if there is one, with a carriage return behind each line feed,
  -- and each character behind a read that shows room.
  pub msg-Sends :
      (fmt : List ℕ) (args : List Arg) (printed : Printed (List ℕ)) (buf : ℕ → ℕ) (bus : Bus D)
      → kprintf text_sink fmt args [] ≡ ok printed
      → printed.stored ≡ []
      → NoOverrun base bus.log
      → Sends base (on_the_line (said printed.sink)) bus (msg hw fuel p buf fmt args bus)
  unfolding msg
  msg-Sends fmt args printed buf bus prints none_stored safe =
      let t = vsnprintf-Truncated fmt args printed buf_size buf prints none_stored in
      let n = min (length printed.sink) (buf_size - 1) in
      let start : 0 + n ≡ n = omega arith in
      let same : characters n t.memory 0 ≡ said printed.sink =
        characters-congr n t.memory (char_at printed.sink) 0
          (λ i lo hi. t.written i (omega arith) (omega arith)) in
      rw (t.returns, sym same)
        (send_buffer-Sends n buf_size t.memory 0 bus (omega arith)
          (ap t.memory start ∙ t.ends (omega arith)) safe)
