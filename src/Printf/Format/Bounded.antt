-- ===== src/Printf/Format/Bounded.antt =====
-- `vsnprintf` and its bounded buffer.
use bios_qemu_tz_arm.Prelude.{
  ℕ, suc, ◌+◌, ◌-◌, ◌≡◌, ◌≤◌, ◌<◌, refl, sym, ap, ◌∙◌, true, false, Bool-cases, inl, inr, Option,
  some, List, [], ◌∷◌, ◌==◌, ltb, leb, length, get_or, if◌then◌else◌, arith,
}
use Prim.Native.Nat.{min}
use bios_qemu_tz_arm.Run.{Run, ok}
use bios_qemu_tz_arm.Printf.Fields.{Stored}
use bios_qemu_tz_arm.Printf.Args.{Arg}
use bios_qemu_tz_arm.Printf.Format.{Printed, kprintf, Buffer, write, put_buffer, vsnprintf}
use bios_qemu_tz_arm.Printf.Format.Sink.{
  map_printed, map_run, format_loop-map, text_sink, kprintf-length,
}

-- Character `i` of a text whose last character stands first.
abbrev pub char_at : List ℕ → ℕ → ℕ
char_at text i = get_or text (length text - suc i) 0

-- The buffer behind these characters.
unfoldable pub feed : ℕ → Buffer → List ℕ → Buffer
feed size b [] = b
feed size b (c ∷ text) = put_buffer size c (feed size b text)

-- The memory behind these characters, of which those below `size` are in it.
record Fed (size : ℕ) (start : ℕ → ℕ) (text : List ℕ) : Type 0 where
  pub memory : ℕ → ℕ
  pub is :
      feed size (record { memory = some start; sbuf = 0 }) text
      ≡ record { memory = some memory; sbuf = min (length text) size }
  pub written : (i : ℕ) → i < length text → i < size → memory i ≡ char_at text i
  pub kept : (i : ℕ) → size ≤ i → memory i ≡ start i

pub char_at-cons :
    (c : ℕ) (text : List ℕ) (i : ℕ) → i < length text → char_at (c ∷ text) i ≡ char_at text i
char_at-cons c text i h =
    let e : suc (length text) - suc i ≡ suc (length text - suc i) = omega arith in rw e refl

pub char_at-last : (c : ℕ) (text : List ℕ) → char_at (c ∷ text) (length text) ≡ c
char_at-last c text = let e : suc (length text) - suc (length text) ≡ 0 = omega arith in rw e refl

put_buffer-room :
    (size c n : ℕ) (m : ℕ → ℕ)
    → ltb n size ≡ true
    → put_buffer size c (record { memory = some m; sbuf = n })
      ≡ record { memory = some (write m n c); sbuf = n + 1 }
unfolding put_buffer
put_buffer-room size c n m e = rw e refl

put_buffer-full :
    (size c n : ℕ) (m : ℕ → ℕ)
    → ltb n size ≡ false
    → put_buffer size c (record { memory = some m; sbuf = n })
      ≡ record { memory = some m; sbuf = n }
unfolding put_buffer
put_buffer-full size c n m e = rw e refl

feed-Fed : (size : ℕ) (start : ℕ → ℕ) (text : List ℕ) → Fed size start text
unfolding feed write
feed-Fed size start [] = record {
  memory = start;
  is = ap (λ n. record { memory = some start; sbuf = n }) (omega arith);
  written = λ i h h'. absurd (omega arith);
  kept = λ i h. refl;
}
feed-Fed size start (c ∷ text) =
    let f = feed-Fed size start text in
    elim (Bool-cases (ltb (length text) size)) [
      | inl e ↦
          let m : min (length text) size ≡ length text = ground arith in
          let m' : min (suc (length text)) size ≡ length text + 1 = ground arith in
          record {
            memory = write f.memory (length text) c;
            is = rw (f.is, m, m', put_buffer-room size c (length text) f.memory e) refl;
            written = λ i h h'. elim (Bool-cases (i == length text)) [
              | inl q ↦ ground (arith, char_at-last c text)
              | inr q ↦ ground (
                arith,
                write,
                f.written i (ground arith) h',
                char_at-cons c text i (ground arith),
              )
            ];
            kept = λ i h. ground (arith, f.kept i h);
          }
      | inr e ↦
          let m : min (length text) size ≡ size = ground arith in
          let m' : min (suc (length text)) size ≡ size = ground arith in
          let stop : ltb size size ≡ false = ground arith in
          record {
            memory = f.memory;
            is = rw (f.is, m, m', put_buffer-full size c size f.memory stop) refl;
            written = λ i h h'.
                f.written i (ground arith) h' ∙ sym (char_at-cons c text i (ground arith));
            kept = f.kept;
          }
    ]

-- The result of `vsnprintf` for a text of that many characters, the last one first.
pub record Truncated (size : ℕ) (start : ℕ → ℕ) (text : List ℕ)
    (result : Run (Option (ℕ → ℕ) × ℕ × List Stored)) : Type 0 where
  pub memory : ℕ → ℕ
  pub returns : result ≡ ok (some memory, length text, [])
  pub written : (i : ℕ) → i < length text → i < size - 1 → memory i ≡ char_at text i
  pub ends : 0 < size → memory (min (length text) (size - 1)) ≡ 0
  pub kept : (i : ℕ) → size ≤ i → memory i ≡ start i

kprintf-feed :
    (size : ℕ) (b : Buffer) (fmt : List ℕ) (args : List Arg) (p : Printed (List ℕ))
    → kprintf text_sink fmt args [] ≡ ok p
    → kprintf (put_buffer size) fmt args b ≡ ok (map_printed (feed size b) p)
unfolding kprintf feed
kprintf-feed size b fmt args p h =
    format_loop-map text_sink (put_buffer size) (feed size b) (λ c s. refl) (suc (length fmt)) fmt
      args (record { sink = []; ret = 0; stored = [] })
    ∙ ap (map_run (map_printed (feed size b))) h

-- Take a format and arguments for which `kprintf` prints a text, with no `int` that overflows and with
-- no store by `%n`. Then `vsnprintf` returns the length of the whole text, whatever the size of the buffer
-- is, and stores nothing by `%n`. The buffer holds the text up to its first `size - 1` characters and a NUL
-- behind them, and no byte at `size` or behind it has changed.
pub vsnprintf-Truncated :
    (fmt : List ℕ) (args : List Arg) (p : Printed (List ℕ)) (size : ℕ) (start : ℕ → ℕ)
    → kprintf text_sink fmt args [] ≡ ok p
    → p.stored ≡ []
    → Truncated size start p.sink (vsnprintf (some start) size fmt args)
unfolding vsnprintf write
vsnprintf-Truncated fmt args p size start h none_stored =
    let f = feed-Fed size start p.sink in
    let ret = kprintf-length fmt args p h in
    let run = kprintf-feed size (record { memory = some start; sbuf = 0 }) fmt args p h in
    elim (Bool-cases (ltb 0 size)) [
      | inl e ↦ record {
        memory = write f.memory (if leb size (length p.sink) then size - 1 else length p.sink) 0;
        returns = rw (run, f.is, e, ret, none_stored) refl;
        written = λ i a b. ground (arith, f.written i a (omega arith));
        ends = λ a. ground arith;
        kept = λ i a. ground (arith, f.kept i a);
      }
      | inr e ↦ record {
        memory = f.memory;
        returns = rw (run, f.is, e, ret, none_stored) refl;
        written = λ i a b. f.written i a (omega arith);
        ends = λ a. absurd (ground arith);
        kept = f.kept;
      }
    ]
