-- ===== src/ResMem.antt =====
-- `tz_res_mem_check_avail` and `tz_res_mem_carve` of bios/main.c, on the bytes of the "reg" property
-- of the memory node. A `uint64_t` sum wraps at 2 ^ 64. The texts that `msg` prints are left out, but
-- the loops that print read the property, and so they are here, with what they read as the result.
-- A loop over a property takes fuel: it moves on at least one byte each round, so one more than the
-- length is enough. The loop around the scans takes at least one byte off the range each round.
pub mod Regions
pub mod Avail
pub mod Carve
mod Examples
use bios_qemu_tz_arm.Prelude.{
  ℕ, zero, suc, ◌+◌, ◌-◌, ◌*◌, ◌%◌, ◌^◌, Bool, true, false, ◌&&◌, ◌||◌, not, List, [], ◌∷◌, ltb,
  leb, ◌==◌, if◌then◌else◌,
}
use bios_qemu_tz_arm.Run.{Run, ok, hang, out_of_fuel, check, ◌>>=◌, ◌>>◌}
use bios_qemu_tz_arm.Platform.{Flavor, tz_res_mem_start, tz_res_mem_size}
use bios_qemu_tz_arm.Cells.{get_val, put_val}

-- `uint64_t` addition.
abbrev pub add64 : ℕ → ℕ → ℕ
add64 a b = (a + b) % 2 ^ 64

-- TZ_RES_MEM_START + TZ_RES_MEM_SIZE
abbrev pub tz_res_end : Flavor → ℕ
tz_res_end p = add64 (tz_res_mem_start p) tz_res_mem_size

-- A region of memory as the property has it.
pub record Region : Type 0 where
  pub start : ℕ
  pub len : ℕ

-- What the availability check still looks for, or that it has found everything.
pub data Verdict : Type 0 where
  mem_avail : Verdict
  looking : ℕ → ℕ → Verdict

-- The body of the scan over one memory block, from the test for `goto mem_avail` on. The macros MIN
-- and MAX compare with `<` and `>`.
unfoldable pub account : ℕ → ℕ → ℕ → ℕ → Verdict
account start end res_start res_end =
    if leb start res_start && leb res_end end
    then mem_avail
    else if leb start res_start && ltb res_start end
    then looking (if ltb end res_end then end else res_end) res_end
    else if leb res_end end && ltb start res_end
    then looking res_start (if ltb res_start start then start else res_start)
    else looking res_start res_end

-- `start = get_val(...); len = get_val(...);` and the offset behind them.
unfoldable pub next_region : List ℕ → ℕ → ℕ → ℕ → Run (Region × ℕ)
next_region prop addr_size len_size offs = do
  (start, offs') ← get_val prop offs addr_size
  (len, offs'') ← get_val prop offs' len_size
  ok (record { start = start; len = len }, offs'')

module _ (prop : List ℕ) (plen addr_size len_size : ℕ) where
  -- The loops that print a memory property: the regions that they print, in order.
  unfoldable pub print_regions : ℕ → ℕ → Run (List Region)
  print_regions zero offs = out_of_fuel
  print_regions (suc fuel) offs =
      if ltb offs plen
      then (do
        (r, offs') ← next_region prop addr_size len_size offs
        rest ← print_regions fuel offs'
        ok (r ∷ rest))
      else ok []

  -- while (offs < plen && res_start != res_end)
  unfoldable pub scan : ℕ → ℕ → ℕ → ℕ → Run Verdict
  scan zero offs res_start res_end = out_of_fuel
  scan (suc fuel) offs res_start res_end =
      if ltb offs plen && not (res_start == res_end)
      then (do
        (r, offs') ← next_region prop addr_size len_size offs
        elim (account r.start (add64 r.start r.len) res_start res_end) [
          | mem_avail ↦ ok mem_avail
          | looking res_start' res_end' ↦ scan fuel offs' res_start' res_end'
        ])
      else ok (looking res_start res_end)

  -- do { ... } while (last_res_start != res_start || last_res_end != res_end), and the failed CHECK
  -- behind it. To return is to reach the label `mem_avail`.
  unfoldable pub search_loop : ℕ → ℕ → ℕ → Run (Unit {0})
  search_loop zero last_res_start last_res_end = out_of_fuel
  search_loop (suc fuel) last_res_start last_res_end = do
    v ← scan (suc plen) 0 last_res_start last_res_end
    elim v [
      | mem_avail ↦ ok tt
      | looking res_start res_end ↦
          if res_start == res_end
          then ok tt
          else elim (not (last_res_start == res_start) || not (last_res_end == res_end)) [
            | true ↦ search_loop fuel res_start res_end
            | false ↦ check true
          ]
    ]

unfoldable pub tz_res_mem_check_avail : Flavor → List ℕ → ℕ → ℕ → ℕ → Run (Unit {0})
tz_res_mem_check_avail p prop plen addr_size len_size = do
  _ ← print_regions prop plen addr_size len_size (suc plen) 0
  search_loop prop plen addr_size len_size (suc tz_res_mem_size) (tz_res_mem_start p) (tz_res_end p)

-- put_val(data, &doffs, addr_size, start); put_val(data, &doffs, len_size, len);
unfoldable pub put_region : ℕ → ℕ → List ℕ × ℕ → ℕ → ℕ → Run (List ℕ × ℕ)
put_region addr_size len_size (buf, doffs) start len = do
  (buf', doffs') ← put_val buf doffs addr_size start
  put_val buf' doffs' len_size len

module _ (p : Flavor) (addr_size len_size : ℕ) where
  -- The body of the carving loop on one region.
  unfoldable pub carve_region : Region → List ℕ × ℕ → Run (List ℕ × ℕ)
  carve_region r out =
      let end = add64 r.start r.len in
      if (tz_res_mem_start p == r.start) && (tz_res_mem_size == r.len)
      then ok out
      else if ltb r.start (tz_res_mem_start p) && ltb (tz_res_end p) end
      then (do
        out' ← put_region addr_size len_size out r.start (tz_res_mem_start p - r.start)
        put_region addr_size len_size out' (tz_res_end p) (end - tz_res_end p))
      else if ltb r.start (tz_res_mem_start p) && ltb (tz_res_mem_start p) end
      then put_region addr_size len_size out r.start (tz_res_mem_start p - r.start)
      else if ltb (tz_res_end p) end
      then put_region addr_size len_size out (tz_res_end p) (end - tz_res_end p)
      else ok out

  -- while (poffs < plen)
  unfoldable pub carve_loop : List ℕ → ℕ → ℕ → ℕ → List ℕ × ℕ → Run (List ℕ × ℕ)
  carve_loop prop plen zero poffs out = out_of_fuel
  carve_loop prop plen (suc fuel) poffs out =
      if ltb poffs plen
      then (do
        (r, poffs') ← next_region prop addr_size len_size poffs
        out' ← carve_region r out
        carve_loop prop plen fuel poffs' out')
      else ok out

-- `buf` is what the buffer `data` holds at the call, and `dlen` is what `*dlen` holds. The result is
-- the buffer and `*dlen` after the call.
unfoldable pub tz_res_mem_carve : Flavor → List ℕ → ℕ → ℕ → ℕ → List ℕ → ℕ → Run (List ℕ × ℕ)
tz_res_mem_carve p prop plen addr_size len_size buf dlen = do
  _ ← print_regions prop plen addr_size len_size (suc plen) 0
  (buf', doffs) ← carve_loop p addr_size len_size prop plen (suc plen) 0 (buf, 0)
  check (ltb dlen doffs)
  _ ← print_regions buf' doffs addr_size len_size (suc doffs) 0
  ok (buf', doffs)
