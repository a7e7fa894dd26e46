-- ===== src/Msg/Messages.antt =====
-- The messages of bios/main.c as data: the call of each, and the pieces that its format stands for. Sent
-- is about what the messages send.
pub mod Sent
mod Examples
use Prim.Native.String.{String}
use bios_qemu_tz_arm.Prelude.{ℕ, Option, some, List, [], ◌∷◌, ◌++◌, map, codes}
use bios_qemu_tz_arm.Printf.Args.{Arg, word, dword, bytes}
use bios_qemu_tz_arm.Printf.Values.{Value, string, signed, hex, size, quad, pointer}
use bios_qemu_tz_arm.Printf.Pieces.{unpadded, Piece, plain, converted}
use bios_qemu_tz_arm.Msg.Calls.{
  Call, check_message, copy_image_message, hardcoded_dtb_message, copy_dtb_message,
  given_dtb_message, checking_message, range_message, available_message, not_found_message,
  found_message, original_message, start_len_message, carved_message, shared_uart_message,
  removing_message, relocating_message, secure_header_message, secure_world_message,
  command_line_message, entering_message,
}

-- The messages with what they show.
pub data Message : Type 0 where
  check_failed : List ℕ → List ℕ → ℕ → Message
  copying_image : List ℕ → ℕ → ℕ → ℕ → Message
  using_hardcoded : Message
  copying_dtb : ℕ → ℕ → Message
  using_given : ℕ → Message
  checking_memory : Message
  memory_range : ℕ → ℕ → Message
  available_memory : Message
  memory_not_found : Message
  memory_found : Message
  original_memory : Message
  memory_start_len : ℕ → ℕ → Message
  carved_memory : Message
  sharing_uart : Message
  removing_node : List ℕ → List ℕ → Message
  relocating_dtb : ℕ → Message
  found_header : Message
  initializing_secure : Message
  kernel_command : List ℕ → List ℕ → Message
  entering_kernel : ℕ → ℕ → ℕ → ℕ → Message

unfoldable pub message : Message → Call
message (check_failed expr file line) = check_message expr file line
message (copying_image name len source dst) = copy_image_message name len source dst
message using_hardcoded = hardcoded_dtb_message
message (copying_dtb source dst) = copy_dtb_message source dst
message (using_given source) = given_dtb_message source
message checking_memory = checking_message
message (memory_range first last) = range_message first last
message available_memory = available_message
message memory_not_found = not_found_message
message memory_found = found_message
message original_memory = original_message
message (memory_start_len start len) = start_len_message start len
message carved_memory = carved_message
message sharing_uart = shared_uart_message
message (removing_node name behind) = removing_message name behind
message (relocating_dtb dst) = relocating_message dst
message found_header = secure_header_message
message initializing_secure = secure_world_message
message (kernel_command cmdline behind) = command_line_message cmdline behind
message (entering_kernel entry a0 a1 dtb) = entering_message entry a0 a1 dtb

-- Characters, and a conversion without a width.
abbrev pub literal : String → List Piece
literal s = map plain (codes s)

abbrev pub shown : Value → List Piece
shown v = converted unpadded v ∷ []

-- The same messages as pieces.
unfoldable pub message_pieces : Message → List Piece
message_pieces (check_failed expr file line) =
    literal "Check \""
    ++ shown (string expr [])
    ++ literal "\": "
    ++ shown (string file [])
    ++ literal ":"
    ++ shown (signed line)
    ++ literal "\n"
message_pieces (copying_image name len source dst) =
    literal "Copy image \""
    ++ shown (string name [])
    ++ literal "\" size "
    ++ shown (size len)
    ++ literal ", from "
    ++ shown (pointer source)
    ++ literal " to "
    ++ shown (pointer dst)
    ++ literal "\n"
message_pieces using_hardcoded = literal "Using hardcoded DTB\n"
message_pieces (copying_dtb source dst) =
    literal "Copy dtb from "
    ++ shown (pointer source)
    ++ literal " to "
    ++ shown (pointer dst)
    ++ literal "\n"
message_pieces (using_given source) =
    literal "Using QEMU provided DTB at " ++ shown (pointer source) ++ literal "\n"
message_pieces checking_memory = literal "Checking that secure memory is available\n"
message_pieces (memory_range first last) =
    literal "0x" ++ shown (quad first) ++ literal " .. 0x" ++ shown (quad last) ++ literal "\n"
message_pieces available_memory = literal "Available memory\n"
message_pieces memory_not_found = literal "Can't find secure memory\n"
message_pieces memory_found = literal "Secure memory is available\n"
message_pieces original_memory = literal "Original DTB memory: start len\n"
message_pieces (memory_start_len start len) =
    literal "0x" ++ shown (quad start) ++ literal " 0x" ++ shown (quad len) ++ literal "\n"
message_pieces carved_memory = literal "Carved out TZ memory from DTB memory: start len\n"
message_pieces sharing_uart = literal "Uart shared between secure and non-secure world\n"
message_pieces (removing_node name behind) =
    literal "Removing node \""
    ++ shown (string name behind)
    ++ literal "\" from DTB passed to kernel\n"
message_pieces (relocating_dtb dst) =
    literal "Relocating DTB for kernel use at " ++ shown (pointer dst) ++ literal "\n"
message_pieces found_header = literal "found secure header\n"
message_pieces initializing_secure = literal "Initializing secure world\n"
message_pieces (kernel_command cmdline behind) =
    literal "kernel command line: \"" ++ shown (string cmdline behind) ++ literal "\"\n"
message_pieces (entering_kernel entry a0 a1 dtb) =
    literal "Entering kernel at 0x"
    ++ shown (hex entry)
    ++ literal " with r0=0x"
    ++ shown (hex a0)
    ++ literal " r1=0x"
    ++ shown (hex a1)
    ++ literal " r2=0x"
    ++ shown (hex dtb)
    ++ literal "\n"
