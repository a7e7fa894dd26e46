-- ===== src/Uart/Poll.antt =====
-- The loops that poll a register, up to the read that ends them.
use bios_qemu_tz_arm.Prelude.{
  ℕ, zero, suc, ◌%◌, ◌^◌, ◌≡◌, ◌≢◌, refl, Bool, true, false, Bool-cases, List, [], ◌∷◌, inl, inr,
}
use bios_qemu_tz_arm.Run.{Run, ok}
use bios_qemu_tz_arm.Uart.{
  at, has_flag, uart_dr, uart_fr, uart_fr_txff, Access, got, wrote, Device, Bus, read32, poll,
}

-- What was written, the last one first: values and addresses.
unfoldable pub writes : List Access → List (ℕ × ℕ)
writes [] = []
writes (got v a ∷ log) = writes log
writes (wrote v a ∷ log) = (v, a) ∷ writes log

-- Each write to the data register stands directly behind a read of the flag register that shows
-- room in the transmit FIFO.
unfoldable pub NoOverrun : ℕ → List Access → Type 0
NoOverrun base [] = Unit {0}
NoOverrun base (got v a ∷ log) = NoOverrun base log
NoOverrun base (wrote v a ∷ []) = a ≢ at base uart_dr
NoOverrun base (wrote v a ∷ wrote w b ∷ log) =
    (a ≢ at base uart_dr) × NoOverrun base (wrote w b ∷ log)
NoOverrun base (wrote v a ∷ got w b ∷ log) =
    (a ≡ at base uart_dr → (b ≡ at base uart_fr) × (has_flag uart_fr_txff w ≡ false))
    × NoOverrun base log

-- The hardware gives a value that stops the loop within so many reads.
unfoldable pub Answers : {D : Type 0} → Device D → (ℕ → Bool) → ℕ → ℕ → D → Type 0
Answers hw stop addr zero d = ⊥
Answers hw stop addr (suc n) d =
    let (v, d') = hw.read addr d in
    elim (stop (v % 2 ^ 32)) [ true ↦ Unit {0} | false ↦ Answers hw stop addr n d' ]

-- The loop returned behind a read of the register that stops it, and wrote nothing.
pub record Polled {D : Type 0} (stop : ℕ → Bool) (addr : ℕ) (bus : Bus D) (result : Run (Bus D))
    : Type 0 where
  pub dev : D
  pub last : ℕ
  pub before : List Access
  pub returns : result ≡ ok (record { dev = dev; log = got last addr ∷ before })
  pub stops : stop last ≡ true
  pub quiet : writes before ≡ writes bus.log
  pub calm : (base : ℕ) → NoOverrun base bus.log → NoOverrun base before

Answers-later :
    {D : Type 0} (hw : Device D) (stop : ℕ → Bool) (addr n : ℕ) (d : D)
    → stop ((hw.read addr d).0 % 2 ^ 32) ≡ false
    → Answers hw stop addr (suc n) d
    → Answers hw stop addr n (hw.read addr d).1
unfolding Answers
Answers-later hw stop addr n d e h = rw (e, Answers) at h

pub poll-Polled :
    {D : Type 0} (hw : Device D) (stop : ℕ → Bool) (addr fuel : ℕ) (bus : Bus D)
    → Answers hw stop addr fuel bus.dev
    → Polled stop addr bus (poll hw stop addr fuel bus)
unfolding poll read32 writes NoOverrun
poll-Polled hw stop addr zero bus h = unfold Answers in elim h [ ]
poll-Polled {D = D} hw stop addr (suc fuel) bus h =
    let v = (hw.read addr bus.dev).0 % 2 ^ 32 in
    let d' = (hw.read addr bus.dev).1 in
    let bus' : Bus D = record { dev = d'; log = got v addr ∷ bus.log } in
    elim (Bool-cases (stop v)) [
      | inl e ↦ record {
        dev = d';
        last = v;
        before = bus.log;
        returns = rw (e, poll) refl;
        stops = e;
        quiet = refl;
        calm = λ base before. before;
      }
      | inr e ↦
          let rest =
            poll-Polled hw stop addr fuel bus' (Answers-later hw stop addr fuel bus.dev e h) in
          record {
            dev = rest.dev;
            last = rest.last;
            before = rest.before;
            returns = rw (e, poll) rest.returns;
            stops = rest.stops;
            quiet = rest.quiet;
            calm = rest.calm;
          }
    ]
