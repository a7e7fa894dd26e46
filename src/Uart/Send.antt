-- ===== src/Uart/Send.antt =====
-- What the serial port is given: `uart_init`, `uart_putc`, the loop of `msg`, and `uart_getchar`.
use bios_qemu_tz_arm.Prelude.{
  ℕ, zero, suc, ◌%◌, ◌^◌, ◌≡◌, refl, sym, ◌∙◌, Bool, true, false, not, List, [], ◌∷◌, ◌++◌, ◌==◌,
  if◌then◌else◌, arith, Bool-cases, inl, inr, Bits.bit_and_low,
}
use bios_qemu_tz_arm.Run.{Run, ok, ◌>>=◌}
use bios_qemu_tz_arm.Uart.{
  Access, got, wrote, Device, Bus, read32, write32, poll, at, has_flag, uart_dr, uart_fr,
  uart_rsr_ecr, uart_lcrh_tx, uart_imsc, uart_cr, uart_fr_txfe, uart_fr_txff, uart_fr_rxfe,
  uart_init, uart_putc, send_char, uart_flush_tx_fifo, uart_have_rx_data, await_rx, uart_getchar,
}
use bios_qemu_tz_arm.Uart.Poll.{writes, NoOverrun, Answers, poll-Polled}

-- The text on the line: up to its NUL, with a carriage return behind each line feed.
unfoldable pub on_the_line : List ℕ → List ℕ
on_the_line [] = []
on_the_line (c ∷ text) = elim (c == 0) [
  | true ↦ []
  | false ↦ (if c == 10 then c ∷ 13 ∷ [] else c ∷ []) ++ on_the_line text
]

-- Writes of these values to one register, in order, on top of earlier ones.
unfoldable pub push_all : ℕ → List ℕ → List (ℕ × ℕ) → List (ℕ × ℕ)
push_all addr [] done = done
push_all addr (v ∷ vs) done = push_all addr vs ((v % 2 ^ 32, addr) ∷ done)

-- The run returns, its writes are these, and no character overran the FIFO.
pub record Sends {D : Type 0} (base : ℕ) (text : List ℕ) (bus : Bus D) (result : Run (Bus D))
    : Type 0 where
  pub out : Bus D
  pub returns : result ≡ ok out
  pub sent : writes out.log ≡ push_all (at base uart_dr) text (writes bus.log)
  pub safe : NoOverrun base out.log

not-true : (b : Bool) → not b ≡ true → b ≡ false
not-true b h = ground arith

push_all-append :
    (addr : ℕ) (vs ws : List ℕ) (done : List (ℕ × ℕ))
    → push_all addr (vs ++ ws) done ≡ push_all addr ws (push_all addr vs done)
unfolding push_all
push_all-append addr [] ws done = refl
push_all-append addr (v ∷ vs) ws done = push_all-append addr vs ws ((v % 2 ^ 32, addr) ∷ done)

module _ {D : Type 0} (hw : Device D) (fuel base : ℕ) where
  -- From every state the transmit FIFO gets room within so many reads.
  abbrev pub DrainsFifo : Type 0
  DrainsFifo = (d : D) → Answers hw (λ v. not (has_flag uart_fr_txff v)) (at base uart_fr) fuel d

  uart_putc-Sends :
      DrainsFifo
      → (ch : ℕ) (bus : Bus D) → NoOverrun base bus.log
      → Sends base (ch ∷ []) bus (uart_putc hw fuel base ch bus)
  unfolding uart_putc write32 push_all writes NoOverrun
  uart_putc-Sends drains ch bus safe =
      let p =
        poll-Polled hw (λ v. not (has_flag uart_fr_txff v)) (at base uart_fr) fuel bus
          (drains bus.dev) in
      record {
        out = record {
          dev = hw.write (ch % 2 ^ 32) (at base uart_dr) p.dev;
          log = wrote (ch % 2 ^ 32) (at base uart_dr) ∷ got p.last (at base uart_fr) ∷ p.before;
        };
        returns = rw p.returns refl;
        sent = rw p.quiet refl;
        safe = (λ e. (refl, not-true _ p.stops), p.calm base safe);
      }

  -- One more text behind another.
  pub Sends-then :
      (text text' : List ℕ) (bus : Bus D) {r : Run (Bus D)} (f : Bus D → Run (Bus D))
      → (s : Sends base text bus r) → Sends base text' s.out (f s.out)
      → Sends base (text ++ text') bus (r >>= f)
  Sends-then text text' bus f s s' = record {
    out = s'.out;
    returns = rw s.returns s'.returns;
    sent =
        s'.sent ∙ (rw s.sent (sym (push_all-append (at base uart_dr) text text' (writes bus.log))));
    safe = s'.safe;
  }

  pub send_char-Sends :
      DrainsFifo
      → (c : ℕ) (bus : Bus D) → NoOverrun base bus.log
      → Sends base (if c == 10 then c ∷ 13 ∷ [] else c ∷ []) bus (send_char hw fuel base c bus)
  unfolding send_char
  send_char-Sends drains c bus safe =
      let s = uart_putc-Sends drains c bus safe in
      elim (Bool-cases (c == 10)) [
        | inl e ↦ rw (e) (
            Sends-then (c ∷ []) (13 ∷ []) bus (uart_putc hw fuel base 13) s
              (uart_putc-Sends drains 13 s.out s.safe))
        | inr e ↦
            rw (e, s.returns) (record { out = s.out; returns = refl; sent = s.sent; safe = s.safe })
      ]

  -- If the transmit FIFO runs empty within `fuel` reads of the flag register from every state, then
  -- `uart_init` returns, behind a read that shows the FIFO empty. Its writes are, in this order: the
  -- errors cleared, eight bits with the FIFO on, the receive interrupt, and the port, the transmitter
  -- and the receiver enabled.
  pub uart_init-Polled :
      ((d : D) → Answers hw (has_flag uart_fr_txfe) (at base uart_fr) fuel d)
      → (bus : Bus D)
      → (out : Bus D) × (last : ℕ) × (before : List Access) × (uart_init hw fuel base bus ≡ ok out)
        × (out.log ≡ got last (at base uart_fr) ∷ before)
        × (has_flag uart_fr_txfe last ≡ true)
        × (writes out.log
            ≡ (0x301, at base uart_cr)
              ∷ (0x10, at base uart_imsc)
              ∷ (0x70, at base uart_lcrh_tx)
              ∷ (0, at base uart_rsr_ecr)
              ∷ writes bus.log)
  unfolding uart_init uart_flush_tx_fifo write32 writes
  uart_init-Polled drains bus =
      let p = poll-Polled hw (has_flag uart_fr_txfe) (at base uart_fr) fuel _ (drains _) in
      (_, p.last, p.before, p.returns, refl, p.stops, p.quiet)

module _ {D : Type 0} (hw : Device D) (base : ℕ) where
  await_rx-poll :
      (fuel : ℕ) (bus : Bus D)
      → await_rx hw fuel base bus
        ≡ poll hw (λ v. not (has_flag uart_fr_rxfe v)) (at base uart_fr) fuel bus
  unfolding await_rx poll uart_have_rx_data read32
  await_rx-poll zero bus = refl
  await_rx-poll (suc fuel) bus =
      let v = (hw.read (at base uart_fr) bus.dev).0 % 2 ^ 32 in
      elim (Bool-cases (not (has_flag uart_fr_rxfe v))) [
        | inl e ↦ rw (e, await_rx, poll) refl
        | inr e ↦ rw (e, await_rx, poll) (await_rx-poll fuel (uart_have_rx_data hw base bus).1)
      ]

  -- If the flag register shows received data within `fuel` reads, `uart_getchar` returns the low byte
  -- of what it then reads from the data register, behind a read that shows that there is data. It
  -- writes nothing.
  pub uart_getchar-byte :
      (fuel : ℕ) (bus : Bus D)
      → Answers hw (λ v. not (has_flag uart_fr_rxfe v)) (at base uart_fr) fuel bus.dev
      → (v : ℕ) × (flags : ℕ) × (out : Bus D) × (before : List Access) × (uart_getchar hw fuel base
            bus
          ≡ ok (v % 256, out))
        × (out.log ≡ got v (at base uart_dr) ∷ got flags (at base uart_fr) ∷ before)
        × (has_flag uart_fr_rxfe flags ≡ false)
        × (writes out.log ≡ writes bus.log)
  unfolding uart_getchar read32 writes
  uart_getchar-byte fuel bus h =
      let p = poll-Polled hw (λ v. not (has_flag uart_fr_rxfe v)) (at base uart_fr) fuel bus h in
      let ready : Bus D = record { dev = p.dev; log = got p.last (at base uart_fr) ∷ p.before } in
      let v = (read32 hw ready (at base uart_dr)).0 in
      let out = (read32 hw ready (at base uart_dr)).1 in
      let returns : uart_getchar hw fuel base bus ≡ ok (v % 256, out) =
        rw (await_rx-poll fuel bus, p.returns, sym (bit_and_low 8 v)) refl in
      (v, p.last, out, p.before, returns, refl, not-true _ p.stops, p.quiet)
