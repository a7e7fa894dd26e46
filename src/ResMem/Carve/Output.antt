-- ===== src/ResMem/Carve/Output.antt =====
-- The buffer that the carving writes, as a growing list of regions.
use bios_qemu_tz_arm.Prelude.{
  ℕ, ◌+◌, ◌*◌, ◌%◌, ◌^◌, ◌≤◌, ◌<◌, ◌≡◌, refl, sym, ◌∙◌, arith, List, [], ◌∷◌, ◌++◌, length,
  get_elem?, length-append,
}
use bios_qemu_tz_arm.Run.{Run, ok}
use bios_qemu_tz_arm.Cells.{get_val}
use bios_qemu_tz_arm.Cells.RoundTrip.{IsCellSize, IsLength, put_val-IsPut, get_val-congr}
use bios_qemu_tz_arm.ResMem.{Region, next_region, put_region}
use bios_qemu_tz_arm.ResMem.Regions.{Decodes, Decodes-snoc, entry_size}

-- A region as `put_val` stores it, through the cast to `uint32_t`.
abbrev pub cast32 : Region → Region
cast32 r = record { start = r.start % 2 ^ 32; len = r.len % 2 ^ 32 }

module _ (addr_size len_size cap : ℕ) where
  -- The first `doffs` bytes of the buffer hold these regions, and the buffer has its size.
  pub record Written (regs : List Region) (out : List ℕ × ℕ) : Type 0 where
    pub same_length : length out.0 ≡ cap
    pub whole : length regs * entry_size addr_size len_size ≡ out.1
    pub decodes : Decodes out.0 out.1 addr_size len_size 0 regs

  -- The run returns such a buffer.
  pub record Writes (regs : List Region) (result : Run (List ℕ × ℕ)) : Type 0 where
    pub out : List ℕ × ℕ
    pub returns : result ≡ ok out
    pub written : Written regs out

module _ (addr_size len_size cap : ℕ) (ca : IsCellSize addr_size) (cl : IsCellSize len_size)
    (small : IsLength cap) where
  -- One region more.
  pub put_region-Writes :
      (regs : List Region) (out : List ℕ × ℕ) (r : Region)
      → Written addr_size len_size cap regs out
      → (length regs + 1) * entry_size addr_size len_size ≤ cap
      → Writes addr_size len_size cap
          (regs ++ cast32 r ∷ [])
          (put_region addr_size len_size out r.start r.len)
  unfolding put_region
  put_region-Writes regs (buf, doffs) r w room =
      let first =
        put_val-IsPut buf doffs addr_size r.start ca (omega (arith, w.same_length))
          (omega (arith, w.same_length, w.whole)) in
      let second =
        put_val-IsPut first.out (doffs + 4 * addr_size) len_size r.len cl
          (omega (arith, w.same_length, first.same_length))
          (omega (arith, w.same_length, w.whole, first.same_length)) in
      let still : get_val second.out doffs addr_size ≡ get_val first.out doffs addr_size =
        get_val-congr second.out first.out doffs addr_size (doffs + 4 * addr_size) ca (omega arith)
          second.below in
      let read : next_region second.out addr_size len_size doffs
          ≡ ok (cast32 r, doffs + entry_size addr_size len_size) =
        unfold next_region in ground (arith, still, first.reads, second.reads) in
      let total : length second.out ≡ cap =
        omega (arith, w.same_length, first.same_length, second.same_length) in
      let small' : IsLength (length second.out) = omega arith in
      let fits : doffs ≤ length second.out = omega (arith, w.whole) in
      let same : (i : ℕ) → i < doffs → get_elem? buf i ≡ get_elem? second.out i =
        λ i h. sym (first.below i h) ∙ sym (second.below i (omega arith)) in
      record {
        out = (second.out, doffs + entry_size addr_size len_size);
        returns = ground (arith, first.returns, second.returns);
        written = record {
          same_length = total;
          whole = rw length-append (omega (arith, w.whole));
          decodes =
              Decodes-snoc buf second.out addr_size len_size doffs
                (doffs + entry_size addr_size len_size) ca cl small' fits same (length regs)
                (cast32 r) (omega (arith, w.whole)) refl read w.decodes;
        };
      }
