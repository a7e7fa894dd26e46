-- ===== src/Msg/Calls.antt =====
-- The calls of `msg` in bios/main.c, each with its format and its arguments. `PRIx64` is "llx"
-- (libutils/isoc/include/inttypes.h). A text is its characters; the ones that are no literals have the
-- bytes behind their NUL.
use bios_qemu_tz_arm.Prelude.{ℕ, some, List, [], ◌∷◌, ◌++◌, codes}
use bios_qemu_tz_arm.Printf.Args.{Arg, word, dword, bytes}

-- What a call gives to `msg`.
pub record Call : Type 0 where
  pub fmt : List ℕ
  pub args : List Arg

abbrev c_string : List ℕ → List ℕ → Arg
c_string s behind = bytes (some (s ++ 0 ∷ behind))

abbrev pub check_message : List ℕ → List ℕ → ℕ → Call
check_message expr file line = record {
  fmt = codes "Check \"%s\": %s:%d\n";
  args = c_string expr [] ∷ c_string file [] ∷ word line ∷ [];
}

abbrev pub copy_image_message : List ℕ → ℕ → ℕ → ℕ → Call
copy_image_message name len source dst = record {
  fmt = codes "Copy image \"%s\" size %#zx, from %p to %p\n";
  args = c_string name [] ∷ word len ∷ word source ∷ word dst ∷ [];
}

abbrev pub hardcoded_dtb_message : Call
hardcoded_dtb_message = record { fmt = codes "Using hardcoded DTB\n"; args = [] }

abbrev pub copy_dtb_message : ℕ → ℕ → Call
copy_dtb_message source dst = record {
  fmt = codes "Copy dtb from %p to %p\n";
  args = word source ∷ word dst ∷ [];
}

abbrev pub given_dtb_message : ℕ → Call
given_dtb_message source = record {
  fmt = codes "Using QEMU provided DTB at %p\n";
  args = word source ∷ [];
}

abbrev pub checking_message : Call
checking_message = record { fmt = codes "Checking that secure memory is available\n"; args = [] }

abbrev pub range_message : ℕ → ℕ → Call
range_message first last = record {
  fmt = codes "0x%llx .. 0x%llx\n";
  args = dword first ∷ dword last ∷ [];
}

abbrev pub available_message : Call
available_message = record { fmt = codes "Available memory\n"; args = [] }

abbrev pub not_found_message : Call
not_found_message = record { fmt = codes "Can't find secure memory\n"; args = [] }

abbrev pub found_message : Call
found_message = record { fmt = codes "Secure memory is available\n"; args = [] }

abbrev pub original_message : Call
original_message = record { fmt = codes "Original DTB memory: start len\n"; args = [] }

abbrev pub start_len_message : ℕ → ℕ → Call
start_len_message start len = record {
  fmt = codes "0x%llx 0x%llx\n";
  args = dword start ∷ dword len ∷ [];
}

abbrev pub carved_message : Call
carved_message = record {
  fmt = codes "Carved out TZ memory from DTB memory: start len\n";
  args = [];
}

abbrev pub shared_uart_message : Call
shared_uart_message = record {
  fmt = codes "Uart shared between secure and non-secure world\n";
  args = [];
}

abbrev pub removing_message : List ℕ → List ℕ → Call
removing_message name behind = record {
  fmt = codes "Removing node \"%s\" from DTB passed to kernel\n";
  args = c_string name behind ∷ [];
}

abbrev pub relocating_message : ℕ → Call
relocating_message dst = record {
  fmt = codes "Relocating DTB for kernel use at %p\n";
  args = word dst ∷ [];
}

abbrev pub secure_header_message : Call
secure_header_message = record { fmt = codes "found secure header\n"; args = [] }

abbrev pub secure_world_message : Call
secure_world_message = record { fmt = codes "Initializing secure world\n"; args = [] }

abbrev pub command_line_message : List ℕ → List ℕ → Call
command_line_message cmdline behind = record {
  fmt = codes "kernel command line: \"%s\"\n";
  args = c_string cmdline behind ∷ [];
}

abbrev pub entering_message : ℕ → ℕ → ℕ → ℕ → Call
entering_message entry a0 a1 dtb = record {
  fmt = codes "Entering kernel at 0x%x with r0=0x%x r1=0x%x r2=0x%x\n";
  args = word entry ∷ word a0 ∷ word a1 ∷ word dtb ∷ [];
}
