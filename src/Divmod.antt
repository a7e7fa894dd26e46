-- ===== src/Divmod.antt =====
-- libutils/isoc/arch/arm32/aeabi_divmod.c and aeabi_ldivmod.c: division for a processor with no
-- divide instruction. The two files have one algorithm, at 32 and at 64 bits. It stands here once, for
-- words whose highest bit has the number `top`, 31 or 63. A signed word is its two's complement
-- pattern. `-x` of a signed word wraps, as the machine does (C leaves only -INT_MIN undefined).
-- The loops take fuel: a round for each bit, and one for the test that ends them.
-- `ret_idivmod_values` and `ret_uidivmod_values`, in assembly, put two words in two registers: a pair.
pub mod Loops
pub mod Unsigned
pub mod Signed
pub mod Modulo
mod Examples
use bios_qemu_tz_arm.Prelude.{
  ℕ, zero, suc, ◌+◌, ◌-◌, ◌*◌, ◌/◌, ◌%◌, ◌^◌, Bool, true, false, ◌&&◌, ◌||◌, not, ltb, leb, ◌==◌,
  if◌then◌else◌,
}
use bios_qemu_tz_arm.Run.{Run, ok, out_of_fuel, ◌>>=◌}

-- `struct qr` and `struct lqr`.
pub record Qr : Type 0 where
  pub q : ℕ
  pub r : ℕ
  pub q_n : Bool
  pub r_n : Bool

-- `{ .q_n = ..., .r_n = ... }` sets the members that it does not name to 0.
abbrev pub init_qr : Bool → Bool → Qr
init_qr q_n r_n = record { q = 0; r = 0; q_n = q_n; r_n = r_n }

module _ (top : ℕ) where
  abbrev pub word : ℕ
  word = 2 ^ suc top

  -- -x
  abbrev pub negate : ℕ → ℕ
  negate x = (word - x) % word

  -- x < 0 and x > 0, of a signed word.
  abbrev pub is_negative : ℕ → Bool
  is_negative x = leb (2 ^ top) x

  abbrev pub is_positive : ℕ → Bool
  is_positive x = ltb 0 x && ltb x (2 ^ top)

  -- while ((p >> 31) == 0)
  unfoldable pub align : ℕ → ℕ → ℕ → Run (ℕ × ℕ)
  align zero i p = out_of_fuel
  align (suc fuel) i p =
      let next = align fuel (i * 2 % word) (p * 2 % word) in
      if p / 2 ^ top == 0 then next else ok (i, p)

  -- while (i > 0)
  unfoldable pub subtract : ℕ → ℕ → ℕ → ℕ → ℕ → Run (ℕ × ℕ)
  subtract zero n p i q = out_of_fuel
  subtract (suc fuel) n p i q =
      let q' = q * 2 % word in
      let next =
        subtract fuel (if leb p n then n - p else n) (p / 2) (i / 2)
          (if leb p n then (q' + 1) % word else q') in
      if ltb 0 i then next else ok (n, q)

  -- `division_qr` and `division_lqr`
  unfoldable pub divide : ℕ → ℕ → Qr → Run Qr
  divide n p qr = if p == 0 then ok (record qr { r = word - 1 }) else do
    (i, p') ← align (suc (suc top)) 1 p
    (n', q) ← subtract (suc (suc top)) n p' i 0
    ok (record qr { r = n'; q = q })

  -- `uint_div_qr` and `ul_div_qr`
  unfoldable pub divide_signs : ℕ → ℕ → Qr → Run Qr
  divide_signs numerator denominator qr = do
    d ← divide numerator denominator qr
    let e = if d.q_n then record d { q = negate d.q } else d
    ok (if e.r_n then record e { r = negate e.r } else e)

  -- What the signed functions put into the structure.
  abbrev pub signs : ℕ → ℕ → Qr
  signs numerator denominator =
      init_qr
        (is_negative numerator && is_positive denominator
          || is_positive numerator && is_negative denominator)
        (is_negative numerator)

  -- `if (x < 0) x = -x;`
  abbrev pub magnitude : ℕ → ℕ
  magnitude x = if is_negative x then negate x else x

  unfoldable pub divide_signed : ℕ → ℕ → Run Qr
  divide_signed numerator denominator =
      divide_signs (magnitude numerator) (magnitude denominator) (signs numerator denominator)

unfoldable pub division_qr : ℕ → ℕ → Qr → Run Qr
unfolding divide
division_qr = divide 31

unfoldable pub uint_div_qr : ℕ → ℕ → Qr → Run Qr
uint_div_qr = divide_signs 31

unfoldable pub aeabi_uidiv : ℕ → ℕ → Run ℕ
unfolding uint_div_qr
aeabi_uidiv numerator denominator = do
  qr ← uint_div_qr numerator denominator (init_qr false false)
  ok qr.q

unfoldable pub aeabi_uimod : ℕ → ℕ → Run ℕ
unfolding uint_div_qr
aeabi_uimod numerator denominator = do
  qr ← uint_div_qr numerator denominator (init_qr false false)
  ok qr.r

unfoldable pub aeabi_uidivmod : ℕ → ℕ → Run (ℕ × ℕ)
unfolding uint_div_qr
aeabi_uidivmod numerator denominator = do
  qr ← uint_div_qr numerator denominator (init_qr false false)
  ok (qr.q, qr.r)

unfoldable pub aeabi_idiv : ℕ → ℕ → Run ℕ
aeabi_idiv numerator denominator = do qr ← divide_signed 31 numerator denominator; ok qr.q

unfoldable pub aeabi_idivmod : ℕ → ℕ → Run (ℕ × ℕ)
aeabi_idivmod numerator denominator = do
  qr ← divide_signed 31 numerator denominator
  ok (qr.q, qr.r)

-- s >> k of a signed word, which the compiler makes an arithmetic shift.
abbrev pub shift_right : ℕ → ℕ → ℕ
shift_right s k = if is_negative 31 s then s / 2 ^ k + (2 ^ 32 - 2 ^ 32 / 2 ^ k) else s / 2 ^ k

-- The loop that looks for a power of two, in the state (i, j, h, s): the number of the bit, that of
-- the last bit set, how many are set, and what is left of the denominator.
unfoldable pub count_bits : ℕ → ℕ → ℕ → ℕ → ℕ → Run (ℕ × ℕ)
count_bits zero i j h s = out_of_fuel
count_bits (suc fuel) i j h s =
    let odd = s % 2 == 1 in
    let next =
      count_bits fuel (i + 1) (if odd then i else j) (if odd then h + 1 else h) (shift_right s 1) in
    if not (s == 0) || ltb 1 h then next else ok (j, h)

-- The fuel of that loop is an argument: the theorems say when none is enough.
unfoldable pub aeabi_imod : ℕ → ℕ → ℕ → Run ℕ
aeabi_imod fuel numerator denominator = do
  (j, h) ← count_bits fuel 0 0 0 denominator
  if h == 1
      then ok (shift_right numerator j)
      else do qr ← divide_signed 31 numerator denominator; ok qr.r

unfoldable pub division_lqr : ℕ → ℕ → Qr → Run Qr
unfolding divide
division_lqr = divide 63

unfoldable pub ul_div_qr : ℕ → ℕ → Qr → Run Qr
ul_div_qr = divide_signs 63

-- `__ul_divmod` and `__l_divmod`: the structure that they overwrite, as a pair in and a pair out.
unfoldable pub ul_divmod : ℕ × ℕ → Run (ℕ × ℕ)
unfolding ul_div_qr
ul_divmod (v0, v1) = do qr ← ul_div_qr v0 v1 (init_qr false false); ok (qr.q, qr.r)

unfoldable pub l_divmod : ℕ × ℕ → Run (ℕ × ℕ)
l_divmod (v0, v1) = do qr ← divide_signed 63 v0 v1; ok (qr.q, qr.r)
