-- ===== src/Cells/RoundTrip.antt =====
-- `get_val` and `put_val` of bios/main.c together, at the cell sizes that `get_cells_size` admits.
use bios_qemu_tz_arm.Prelude.{
  ℕ, zero, suc, ◌+◌, ◌*◌, ◌%◌, ◌^◌, ◌≤◌, ◌<◌, ◌≡◌, ◌⊎◌, inl, inr, refl, arith, List, length,
  get_elem?, get_elem?-of_lt,
}
use bios_qemu_tz_arm.Run.{Run, ok}
use bios_qemu_tz_arm.Cells.{
  fdt32_to_cpu, fdt64_to_cpu, cpu_to_fdt32, cpu_to_fdt64, load, advance, get_val, put_val,
}
use bios_qemu_tz_arm.Cells.Bytes.{
  fdt32_to_cpu-fdt32_to_cpu, fdt64_to_cpu-fdt64_to_cpu, fdt32_to_cpu-lt, fdt64_to_cpu-lt,
  store-Stored,
}

-- The cell sizes that `get_cells_size` lets through.
abbrev pub IsCellSize : ℕ → Type 0
IsCellSize n = (n ≡ 1) ⊎ (n ≡ 2)

-- The length of a property is a non-negative `int`.
abbrev pub IsLength : ℕ → Type 0
IsLength n = n < 2 ^ 31

pub advance_exact : (offs n : ℕ) → offs < 2 ^ 31 → IsCellSize n → advance offs n ≡ offs + 4 * n
unfolding advance
advance_exact offs n h c = omega arith

-- A word can be read wherever its bytes are in the buffer.
pub load_total :
    (n : ℕ) (buf : List ℕ) (offs : ℕ) → offs + n ≤ length buf → (v : ℕ) × (load n buf offs ≡ ok v)
unfolding load
load_total zero buf offs h = (0, refl)
load_total (suc n) buf offs h =
    let (rest, e) = load_total n buf (suc offs) (omega arith) in
    let (b, here) = get_elem?-of_lt buf offs (omega arith) in (b + rest * 256, ground arith)

-- A read sees the bytes in its range only.
pub load-congr :
    (n : ℕ) (xs ys : List ℕ) (offs hi : ℕ)
    → offs + n ≤ hi
    → ((i : ℕ) → i < hi → get_elem? xs i ≡ get_elem? ys i)
    → load n xs offs ≡ load n ys offs
unfolding load
load-congr zero xs ys offs hi h same = refl
load-congr (suc n) xs ys offs hi h same =
    rw (same offs (omega arith), load-congr n xs ys (suc offs) hi (omega arith) same)

pub get_val_total :
    (prop : List ℕ) (offs n : ℕ)
    → IsCellSize n
    → IsLength (length prop)
    → offs + 4 * n ≤ length prop
    → (v : ℕ) × (v < 2 ^ 64) × (get_val prop offs n ≡ ok (v, offs + 4 * n))
unfolding get_val
get_val_total prop offs n (inl one) l h =
    let (v, e) = load_total 4 prop offs (omega arith) in
    (fdt32_to_cpu v, omega (arith, fdt32_to_cpu-lt v), ground (arith, e, advance_exact offs n))
get_val_total prop offs n (inr two) l h =
    let (v, e) = load_total 8 prop offs (omega arith) in
    (fdt64_to_cpu v, fdt64_to_cpu-lt v, ground (arith, e, advance_exact offs n))

pub get_val-congr :
    (xs ys : List ℕ) (offs n hi : ℕ)
    → IsCellSize n
    → offs + 4 * n ≤ hi
    → ((i : ℕ) → i < hi → get_elem? xs i ≡ get_elem? ys i)
    → get_val xs offs n ≡ get_val ys offs n
unfolding get_val
get_val-congr xs ys offs n hi (inl one) h same =
    ground (arith, load-congr 4 xs ys offs hi (omega arith) same)
get_val-congr xs ys offs n hi (inr two) h same =
    ground (arith, load-congr 8 xs ys offs hi (omega arith) same)

-- What `put_val` leaves: the low 32 bits of the value, read back by `get_val` at the same offset,
-- the offset behind it, and nothing changed before it.
pub record IsPut (prop : List ℕ) (offs n val : ℕ) (result : Run (List ℕ × ℕ)) : Type 0 where
  pub out : List ℕ
  pub returns : result ≡ ok (out, offs + 4 * n)
  pub same_length : length out ≡ length prop
  pub below : (i : ℕ) → i < offs → get_elem? out i ≡ get_elem? prop i
  pub reads : get_val out offs n ≡ ok (val % 2 ^ 32, offs + 4 * n)

-- At a cell size of 1 or 2, where the buffer has room, `put_val` returns: `get_val` reads back the low
-- 32 bits of the value at the same offset, both move the offset on by the size of the number, and no
-- byte below the offset changes.
pub put_val-IsPut :
    (prop : List ℕ) (offs n val : ℕ)
    → IsCellSize n
    → IsLength (length prop)
    → offs + 4 * n ≤ length prop
    → IsPut prop offs n val (put_val prop offs n val)
unfolding get_val put_val cpu_to_fdt32 cpu_to_fdt64
put_val-IsPut prop offs n val (inl one) l h =
    let w = val % 2 ^ 32 in
    let s = store-Stored 4 prop offs (cpu_to_fdt32 w) (omega arith) in
    record {
      out = s.out;
      returns = ground (arith, s.returns, advance_exact offs n);
      same_length = s.same_length;
      below = s.below;
      reads =
          ground
            (arith, s.reads, advance_exact offs n, fdt32_to_cpu-lt w, fdt32_to_cpu-fdt32_to_cpu w);
    }
put_val-IsPut prop offs n val (inr two) l h =
    let w = val % 2 ^ 32 in
    let s = store-Stored 8 prop offs (cpu_to_fdt64 w) (omega arith) in
    record {
      out = s.out;
      returns = ground (arith, s.returns, advance_exact offs n);
      same_length = s.same_length;
      below = s.below;
      reads =
          ground
            (arith, s.reads, advance_exact offs n, fdt64_to_cpu-lt w, fdt64_to_cpu-fdt64_to_cpu w);
    }
