-- ===== src/Boot/Secure.antt =====
-- How `main_init_sec` of bios/main.c loads the secure image.
use bios_qemu_tz_arm.Prelude.{
  ℕ, ◌+◌, ◌-◌, ◌^◌, ◌≤◌, ◌<◌, ◌≡◌, ◌≢◌, ◌⊎◌, inl, inr, refl, ◌∙◌, false, ◌||◌, ltb, leb, arith,
}
use bios_qemu_tz_arm.Run.{Run, ok, hang}
use bios_qemu_tz_arm.Platform.{Flavor, vexpress, virt, tz_res_mem_start, tz_res_mem_size}
use bios_qemu_tz_arm.Boot.Images.{
  Linker, add32, sub32, Header, optee_magic, optee_version, header_size, read_header, Handover,
  unreloc, copy_bios_image, load_secure,
}
use bios_qemu_tz_arm.Memory.{Memory, memcpy}
use bios_qemu_tz_arm.Memory.Words.{memcpy_inside, memcpy_outside}

-- The pointers of the code, for an image from `a` to `e` whose first part has `n` bytes.
module _ (a e t n : ℕ) (ha : a < 2 ^ 32) (he : e < 2 ^ 32) (ht : t < 2 ^ 32)
    (parts : header_size + n ≤ sub32 e a) where
  paged_size_lem : sub32 (sub32 e (add32 a header_size)) n ≡ sub32 e a - header_size - n
  paged_size_lem = omega arith

  paged_length : sub32 e (add32 (add32 a header_size) n) ≡ sub32 e a - header_size - n
  paged_length = omega arith

  init_length : sub32 (sub32 e (sub32 e a - header_size - n)) (add32 a header_size) ≡ n
  init_length = omega arith

  init_source :
      sub32 a t + sub32 e a < 2 ^ 32 → sub32 (add32 a header_size) t ≡ sub32 a t + header_size
  init_source h = omega arith

  paged_source :
      sub32 a t + sub32 e a < 2 ^ 32
      → sub32 (add32 (add32 a header_size) n) t ≡ sub32 a t + header_size + n
  paged_source h = omega arith

paged_place : (r s q : ℕ) → r + s < 2 ^ 32 → q ≤ r + s → sub32 (add32 r s) q ≡ r + s - q
paged_place r s q h h' = omega arith

module _ (p : Flavor) (link : Linker) (mem : Memory) where
  -- The size of the secure image with its header, and its place in the flash.
  abbrev pub total : ℕ
  total = sub32 link.secure_blob_end link.secure_blob_start

  abbrev pub flash : ℕ
  flash = unreloc link link.secure_blob_start

  abbrev pub header : Header
  header = read_header mem flash

  -- The size of the part that is paged.
  abbrev pub paged_size : ℕ
  paged_size = total - header_size - header.init_size

  -- The header is valid.
  pub record IsValid : Type 0 where
    pub has_header : header_size ≤ total
    pub positive : total < 2 ^ 31
    pub magic : header.magic ≡ optee_magic
    pub version : header.version ≡ optee_version
    pub low_address : header.init_load_addr_hi ≡ 0

  -- The image lies in the flash below the RAM, the header fits its sizes, and the part that is loaded
  -- at its address and the paged part behind it have room in the secure memory.
  pub record Fits : Type 0 where
    pub text_word : link.text_start < 2 ^ 32
    pub start_word : link.secure_blob_start < 2 ^ 32
    pub end_word : link.secure_blob_end < 2 ^ 32
    pub in_flash : flash + total ≤ 0x40000000
    pub parts : header_size + header.init_size ≤ total
    pub above : tz_res_mem_start p ≤ header.init_load_addr_lo
    pub room :
        header.init_load_addr_lo + header.init_size + paged_size
        ≤ tz_res_mem_start p + tz_res_mem_size

  -- Both parts are in place, and only the secure memory has changed.
  pub record Loaded (result : Run (Handover × Memory)) : Type 0 where
    pub handover : Handover
    pub out : Memory
    pub returns : result ≡ ok (handover, out)
    pub entry : handover.entry ≡ header.init_load_addr_lo
    pub at_end : handover.paged_part + paged_size ≡ tz_res_mem_start p + tz_res_mem_size
    pub init :
        (i : ℕ) → i < header.init_size → out (handover.entry + i) ≡ mem (flash + header_size + i)
    pub paged :
        (i : ℕ)
        → i < paged_size
        → out (handover.paged_part + i) ≡ mem (flash + header_size + header.init_size + i)
    pub outside :
        (i : ℕ)
        → (i < tz_res_mem_start p) ⊎ (tz_res_mem_start p + tz_res_mem_size ≤ i)
        → out i ≡ mem i

  -- An image that is shorter than a header, or whose header has another magic number or version or a
  -- load address above 32 bits, stops the machine.
  pub load_secure_hangs :
      (total < header_size)
        ⊎ ((header.magic ≢ optee_magic)
            ⊎ ((header.version ≢ optee_version) ⊎ (header.init_load_addr_hi ≢ 0)))
      → load_secure link p mem ≡ hang
  unfolding load_secure
  load_secure_hangs h = ground arith

ram_end :
    (p : Flavor)
    → (tz_res_mem_start p + tz_res_mem_size < 2 ^ 32) × (0x40000000 ≤ tz_res_mem_start p)
ram_end vexpress = (omega arith, omega arith)
ram_end virt = (omega arith, omega arith)

-- Suppose that the header is valid, the image lies in the flash, and both parts have room in the
-- secure memory. Then the code returns; the first part is at its load address, which is the entry, the
-- paged part ends at the end of the secure memory, both as they are in the flash, and no byte outside
-- the secure memory has changed.
pub load_secure-Loaded :
    (p : Flavor) (link : Linker) (mem : Memory)
    → IsValid p link mem
    → Fits p link mem
    → Loaded p link mem (load_secure link p mem)
unfolding load_secure copy_bios_image unreloc
load_secure-Loaded p link mem v f =
    let hdr = header p link mem in
    let n = hdr.init_size in
    let load = hdr.init_load_addr_lo in
    let fl = flash p link mem in
    let size = paged_size p link mem in
    let a = link.secure_blob_start in
    let e = link.secure_blob_end in
    let t = link.text_start in
    let (secure, low) = ram_end p in
    let dst = tz_res_mem_start p + tz_res_mem_size - size in
    let small : fl + total p link mem < 2 ^ 32 = omega (arith, f.in_flash) in
    let parts = f.parts in
    let ha = f.start_word in
    let he = f.end_word in
    let ht = f.text_word in
    let sound : (leb (2 ^ 31) (total p link mem) || ltb (total p link mem) header_size) ≡ false =
      ground (arith, v.has_header, v.positive) in
    let place =
      paged_place (tz_res_mem_start p) tz_res_mem_size size secure (omega (arith, f.room)) in
    let mem1 = memcpy dst (fl + header_size + n) size mem in
    let out = memcpy load (fl + header_size) n mem1 in
    record {
      handover = record { entry = load; paged_part = dst };
      out = out;
      returns =
          rw
            (
              sound,
              v.magic,
              v.version,
              v.low_address,
              paged_size_lem a e t n ha he ht parts,
              place,
              paged_length a e t n ha he ht parts,
              init_length a e t n ha he ht parts,
              paged_source a e t n ha he ht parts small,
              init_source a e t n ha he ht parts small,
            )
            refl;
      entry = refl;
      at_end = omega (arith, f.room);
      init = λ i h.
          memcpy_inside load (fl + header_size) n mem1 i h
          ∙ memcpy_outside dst (fl + header_size + n) size mem (fl + header_size + i)
              (inl (omega (arith, f.in_flash, f.parts, f.room, f.above, low)));
      paged = λ i h.
          memcpy_outside load (fl + header_size) n mem1 (dst + i) (inr (omega (arith, f.room)))
          ∙ memcpy_inside dst (fl + header_size + n) size mem i h;
      outside = λ i h.
          memcpy_outside load (fl + header_size) n mem1 i (ground (arith, f.room, f.above))
          ∙ memcpy_outside dst (fl + header_size + n) size mem i (ground (arith, f.room, f.above));
    }
