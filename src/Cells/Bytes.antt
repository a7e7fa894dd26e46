-- ===== src/Cells/Bytes.antt =====
-- The byte order and the copies of a word into and out of a buffer.
use bios_qemu_tz_arm.Prelude.{
  ℕ, zero, suc, ◌+◌, ◌*◌, ◌/◌, ◌%◌, ◌^◌, ◌≤◌, ◌<◌, ◌≡◌, refl, arith, List, get_elem?, set, length,
  length-set, get_elem?-set_self, get_elem?-set_ne,
}
use bios_qemu_tz_arm.Prelude.Bits.{bit_or_add}
use bios_qemu_tz_arm.Prelude.Quotients.{mod-bytes}
use bios_qemu_tz_arm.Run.{Run, ok}
use bios_qemu_tz_arm.Cells.{fdt32_to_cpu, fdt64_to_cpu, load, store}

-- Each field is disjoint from those above it, so the `|` are sums.
pub fdt32_to_cpu_sum :
    (x : ℕ)
    → fdt32_to_cpu x
      ≡ x % 256 * 2 ^ 24 + x / 2 ^ 8 % 256 * 2 ^ 16 + x / 2 ^ 16 % 256 * 2 ^ 8 + x / 2 ^ 24 % 256
unfolding fdt32_to_cpu
fdt32_to_cpu_sum x = ground (
  arith,
  bit_or_add 24 (x % 256) (x / 2 ^ 8 % 256 * 2 ^ 16),
  bit_or_add 16 (x % 256 * 256 + x / 2 ^ 8 % 256) (x / 2 ^ 16 % 256 * 2 ^ 8),
  bit_or_add 8 (x % 256 * 65536 + x / 2 ^ 8 % 256 * 256 + x / 2 ^ 16 % 256) (x / 2 ^ 24 % 256),
)

pub fdt64_to_cpu_sum :
    (x : ℕ)
    → fdt64_to_cpu x
      ≡ x % 256 * 2 ^ 56
        + x / 2 ^ 8 % 256 * 2 ^ 48
        + x / 2 ^ 16 % 256 * 2 ^ 40
        + x / 2 ^ 24 % 256 * 2 ^ 32
        + x / 2 ^ 32 % 256 * 2 ^ 24
        + x / 2 ^ 40 % 256 * 2 ^ 16
        + x / 2 ^ 48 % 256 * 2 ^ 8
        + x / 2 ^ 56 % 256
unfolding fdt64_to_cpu
fdt64_to_cpu_sum x =
    let a = x % 256 * 256 + x / 2 ^ 8 % 256 in
    let b = a * 256 + x / 2 ^ 16 % 256 in
    let c = b * 256 + x / 2 ^ 24 % 256 in
    let d = c * 256 + x / 2 ^ 32 % 256 in
    let e = d * 256 + x / 2 ^ 40 % 256 in
    ground (
      arith,
      bit_or_add 56 (x % 256) (x / 2 ^ 8 % 256 * 2 ^ 48),
      bit_or_add 48 a (x / 2 ^ 16 % 256 * 2 ^ 40),
      bit_or_add 40 b (x / 2 ^ 24 % 256 * 2 ^ 32),
      bit_or_add 32 c (x / 2 ^ 32 % 256 * 2 ^ 24),
      bit_or_add 24 d (x / 2 ^ 40 % 256 * 2 ^ 16),
      bit_or_add 16 e (x / 2 ^ 48 % 256 * 2 ^ 8),
      bit_or_add 8 (e * 256 + x / 2 ^ 48 % 256) (x / 2 ^ 56 % 256),
    )

-- Swapping the bytes twice is the identity on words.
pub fdt32_to_cpu-fdt32_to_cpu : (x : ℕ) → x < 2 ^ 32 → fdt32_to_cpu (fdt32_to_cpu x) ≡ x
fdt32_to_cpu-fdt32_to_cpu x h = omega (arith, fdt32_to_cpu_sum x, fdt32_to_cpu_sum (fdt32_to_cpu x))

pub fdt64_to_cpu-fdt64_to_cpu : (x : ℕ) → x < 2 ^ 64 → fdt64_to_cpu (fdt64_to_cpu x) ≡ x
fdt64_to_cpu-fdt64_to_cpu x h = omega (arith, fdt64_to_cpu_sum x, fdt64_to_cpu_sum (fdt64_to_cpu x))

pub fdt32_to_cpu-lt : (x : ℕ) → fdt32_to_cpu x < 2 ^ 32
fdt32_to_cpu-lt x = omega (arith, fdt32_to_cpu_sum x)

pub fdt64_to_cpu-lt : (x : ℕ) → fdt64_to_cpu x < 2 ^ 64
fdt64_to_cpu-lt x = omega (arith, fdt64_to_cpu_sum x)

-- What a copy of a word into a buffer leaves: the length, the bytes elsewhere, and the word.
pub record Stored (n : ℕ) (buf : List ℕ) (offs v : ℕ) (result : Run (List ℕ)) : Type 0 where
  pub out : List ℕ
  pub returns : result ≡ ok out
  pub same_length : length out ≡ length buf
  pub below : (i : ℕ) → i < offs → get_elem? out i ≡ get_elem? buf i
  pub reads : load n out offs ≡ ok (v % 256 ^ n)

pub store-Stored :
    (n : ℕ) (buf : List ℕ) (offs v : ℕ)
    → offs + n ≤ length buf
    → Stored n buf offs v (store n buf offs v)
unfolding store load
store-Stored zero buf offs v h = record {
  out = buf;
  returns = refl;
  same_length = refl;
  below = λ i p. refl;
  reads = ground arith;
}
store-Stored (suc n) buf offs v h =
    let wrote = set buf offs (v % 256) in
    let rest =
      store-Stored n wrote (suc offs) (v / 256) (omega (arith, length-set buf offs (v % 256))) in
    record {
      out = rest.out;
      returns = ground (arith, rest.returns);
      same_length = omega (arith, rest.same_length, length-set buf offs (v % 256));
      below =
          λ i p. ground (arith, rest.below i, get_elem?-set_ne buf {i = offs} {j = i} (v % 256));
      reads = ground (
        arith,
        rest.reads,
        rest.below offs,
        get_elem?-set_self buf offs (v % 256),
        mod-bytes n v,
      );
    }
