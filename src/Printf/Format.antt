-- ===== src/Printf/Format.antt =====
-- The loop of `kprintf` over the format, the padding of a field, and `vsnprintf`, in
-- libutils/isoc/snprintf.c. What KPRINTF_PUTCHAR does with a character is a parameter of the loop,
-- which `vsnprintf` fills with the bounded buffer. The buffer is the memory from `bf` on, byte by byte.
-- Each round of the loop takes a character of the format, so one more than its length is enough.
-- `ret`, `size` and `realsz` are `int`s: one that does not fit is a fault, for C leaves an overflow
-- undefined. What `%n` stored comes with the result; its pointers point to no byte of the buffer.
pub mod Sink
pub mod Bounded
use bios_qemu_tz_arm.Prelude.{
  ℕ, zero, suc, ◌+◌, ◌-◌, ◌*◌, Bool, true, false, ◌&&◌, ◌||◌, not, Option, none, some, List, [],
  ◌∷◌, ◌==◌, ltb, leb, length, if◌then◌else◌,
}
use bios_qemu_tz_arm.Run.{Run, ok, out_of_fuel, ◌>>=◌}
use bios_qemu_tz_arm.Printf.Args.{int, Arg, Conv, Flags, fresh, next_char}
use bios_qemu_tz_arm.Printf.Fields.{Field, Stored, Outcome, field, store, done}
use bios_qemu_tz_arm.Printf.Directive.{directive}

-- int dprec, where -1 prints as 0 does
abbrev pub or_zero : Option ℕ → ℕ
or_zero none = 0
or_zero (some n) = n

-- `size`, expanded by `dprec` and by what stands in front
unfoldable pub expanded : Field → ℕ
expanded f =
    let size = length f.text in
    let digits = if ltb size (or_zero f.dprec) then or_zero f.dprec else size in
    if not (f.conv.sign == 0)
    then digits + 1
    else if f.conv.flags.hexprefix
    then digits + 2
    else digits

-- `realsz`, for an `int size`
unfoldable pub real_size : Field → Run ℕ
real_size f = int (length f.text) >>= λ size. int (expanded f)

-- What `kprintf` leaves behind: the sink, `ret`, and the values that `%n` stored, the last one first.
pub record Printed (S : Type 0) : Type 0 where
  pub sink : S
  pub ret : ℕ
  pub stored : List Stored

module _ {S : Type 0} (put : ℕ → S → S) where
  -- while (n-- > 0) KPRINTF_PUTCHAR(c);
  unfoldable pub put_n : ℕ → ℕ → S → S
  put_n zero c s = s
  put_n (suc n) c s = put_n n c (put c s)

  -- for (; size--; cp++) KPRINTF_PUTCHAR(*cp);
  unfoldable pub put_text : List ℕ → S → S
  put_text [] s = s
  put_text (c ∷ text) s = put_text text (put c s)

  -- From the blank padding to the end of the loop's body.
  unfoldable pub put_field : Field → S → S
  put_field f s =
      let flags = f.conv.flags in
      let pad = f.conv.width - expanded f in
      let s1 = if not flags.ladjust && not flags.zeropad then put_n pad 32 s else s in
      let s2 =
        if not (f.conv.sign == 0)
        then put f.conv.sign s1
        else if flags.hexprefix
        then put f.ch (put 48 s1)
        else s1 in
      let s3 = if not flags.ladjust && flags.zeropad then put_n pad 48 s2 else s2 in
      let s4 = put_n (or_zero f.dprec - length f.text) 48 s3 in
      let s5 = put_text f.text s4 in if flags.ladjust then put_n pad 32 s5 else s5

  -- The field in the sink, and `ret` with its width.
  unfoldable pub put_result : Field → Printed S → Run (Printed S)
  put_result f p = do
    size ← real_size f
    ret ← int (p.ret + (if ltb size f.conv.width then f.conv.width else size))
    ok (record p { sink = put_field f p.sink; ret = ret })

  -- The end of the loop's body: what the conversion came to, and the next round.
  unfoldable pub conclude :
      (List ℕ → List Arg → Printed S → Run (Printed S))
      → Printed S
      → Outcome × List ℕ × List Arg
      → Run (Printed S)
  conclude next p (field f, fmt, args) = put_result f p >>= next fmt args
  conclude next p (store v, fmt, args) = next fmt args (record p { stored = v ∷ p.stored })
  conclude next p (done, fmt, args) = ok p

  -- for (;;)
  unfoldable pub format_loop : ℕ → List ℕ → List Arg → Printed S → Run (Printed S)
  format_loop zero fmt args p = out_of_fuel
  format_loop (suc fuel) [] args p = ok p
  format_loop (suc fuel) (c ∷ fmt) args p = elim (c == 0) [
    | true ↦ ok p
    | false ↦ elim (c == 37) [
      | false ↦ do
        ret ← int (p.ret + 1)
        format_loop fuel fmt args (record p { sink = put c p.sink; ret = ret })
      | true ↦
          let (ch, fmt') = next_char fmt in
          directive (suc (length fmt)) p.ret ch fresh fmt' args >>= conclude (format_loop fuel) p
    ]
  ]

  unfoldable pub kprintf : List ℕ → List Arg → S → Run (Printed S)
  kprintf fmt args s =
      format_loop (suc (length fmt)) fmt args (record { sink = s; ret = 0; stored = [] })

-- `bf`, or NULL, and where `sbuf` stands in it.
pub record Buffer : Type 0 where
  pub memory : Option (ℕ → ℕ)
  pub sbuf : ℕ

unfoldable pub write : (ℕ → ℕ) → ℕ → ℕ → ℕ → ℕ
write memory at c i = if i == at then c else memory i

-- KPRINTF_PUTCHAR for a buffer that ends at `tailp`
unfoldable pub put_buffer : ℕ → ℕ → Buffer → Buffer
put_buffer tailp c b = elim b.memory [
  | none ↦ b
  | some memory ↦
      if ltb b.sbuf tailp
      then record { memory = some (write memory b.sbuf c); sbuf = b.sbuf + 1 }
      else b
]

-- The memory, the result, and what `%n` stored.
unfoldable pub vsnprintf :
    Option (ℕ → ℕ) → ℕ → List ℕ → List Arg → Run (Option (ℕ → ℕ) × ℕ × List Stored)
vsnprintf bf size fmt args = do
  p ← kprintf (put_buffer size) fmt args (record { memory = bf; sbuf = 0 })
  let ended : Option (ℕ → ℕ) = elim p.sink.memory [
    | none ↦ none
    | some memory ↦
        if ltb 0 size
        then some (write memory (if leb size p.ret then size - 1 else p.ret) 0)
        else some memory
  ]
  ok (ended, p.ret, p.stored)

unfoldable pub snprintf :
    Option (ℕ → ℕ) → ℕ → List ℕ → List Arg → Run (Option (ℕ → ℕ) × ℕ × List Stored)
snprintf = vsnprintf
