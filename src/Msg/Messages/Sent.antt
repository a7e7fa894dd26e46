-- ===== src/Msg/Messages/Sent.antt =====
-- What the messages of bios/main.c put on the serial line.
use Prim.Native.Nat.{min}
use bios_qemu_tz_arm.Prelude.{
  ◌^◌, ℕ, zero, suc, ◌+◌, ◌-◌, ◌≤◌, ◌<◌, ◌≡◌, refl, sym, ap, ◌∙◌, Bool, true, false, ◌&&◌, not,
  List, [], ◌∷◌, ◌==◌, length, get_or, take, arith,
}
use bios_qemu_tz_arm.Platform.{Flavor, console_uart_base}
use bios_qemu_tz_arm.Printf.Format.{put_text}
use bios_qemu_tz_arm.Printf.Format.Sink.{text_sink}
use bios_qemu_tz_arm.Printf.Format.Bounded.{char_at, char_at-cons, char_at-last}
use bios_qemu_tz_arm.Printf.Values.{IsValue}
use bios_qemu_tz_arm.Printf.Pieces.{
  Piece, plain, converted, unpadded, format, arguments, text, ArePieces,
}
use bios_qemu_tz_arm.Printf.Pieces.Whole.{kprintf-Pieces}
use bios_qemu_tz_arm.Uart.{Device, Bus}
use bios_qemu_tz_arm.Uart.Poll.{NoOverrun}
use bios_qemu_tz_arm.Uart.Send.{on_the_line, Sends, DrainsFifo}
use bios_qemu_tz_arm.Msg.{buf_size, msg}
use bios_qemu_tz_arm.Msg.Line.{characters, said, msg-Sends}
use bios_qemu_tz_arm.Msg.Messages.{
  Message, message, message_pieces, check_failed, copying_image, using_hardcoded, copying_dtb,
  using_given, checking_memory, memory_range, available_memory, memory_not_found, memory_found,
  original_memory, memory_start_len, carved_memory, sharing_uart, removing_node, relocating_dtb,
  found_header, initializing_secure, kernel_command, entering_kernel,
}

-- The text in the sink, which has its last character first.
char_at-older :
    (t s : List ℕ) (i : ℕ) → i < length s → char_at (put_text text_sink t s) i ≡ char_at s i
unfolding put_text
char_at-older [] s i h = refl
char_at-older (c ∷ t) s i h = char_at-older t (c ∷ s) i (omega arith) ∙ char_at-cons c s i h

char_at-put_text :
    (t s : List ℕ) (i : ℕ)
    → i < length t
    → char_at (put_text text_sink t s) (length s + i) ≡ get_or t i 0
unfolding put_text
char_at-put_text [] s i h = absurd (omega arith)
char_at-put_text (c ∷ t) s zero h =
    let e : length s + 0 ≡ length s = omega arith in
    ap (char_at (put_text text_sink (c ∷ t) s)) e
    ∙ char_at-older t (c ∷ s) (length s) (omega arith)
    ∙ char_at-last c s
char_at-put_text (c ∷ t) s (suc i) h =
    let e : length s + suc i ≡ suc (length s) + i = omega arith in
    ap (char_at (put_text text_sink (c ∷ t) s)) e ∙ char_at-put_text t (c ∷ s) i (omega arith)

characters-take :
    (n : ℕ) (f : ℕ → ℕ) (t : List ℕ) (at : ℕ)
    → n ≤ length t
    → ((i : ℕ) → i < length t → f (at + i) ≡ get_or t i 0)
    → characters n f at ≡ take n t
unfolding characters
characters-take zero f t at room same = refl
characters-take (suc n) f [] at room same = absurd (omega arith)
characters-take (suc n) f (c ∷ t) at room same =
    let here : at ≡ at + 0 = omega arith in
    let rest = characters-take n f t (suc at) (omega arith) (λ i h.
      let e : suc at + i ≡ at + suc i = omega arith in ap f e ∙ same (suc i) (omega arith)) in
    rw (ap f here ∙ same 0 (omega arith), rest) refl

take-min : (t : List ℕ) (n : ℕ) → take (min (length t) n) t ≡ take n t
take-min [] zero = refl
take-min [] (suc n) = let e : min 0 (suc n) ≡ 0 = omega arith in rw e refl
take-min (c ∷ t) zero = let e : min (suc (length t)) 0 ≡ 0 = omega arith in rw e refl
take-min (c ∷ t) (suc n) =
    let e : min (suc (length t)) (suc n) ≡ suc (min (length t) n) = omega arith in
    rw (e, take-min t n) refl

length-put_text : (t s : List ℕ) → length (put_text text_sink t s) ≡ length s + length t
unfolding put_text
length-put_text [] s = omega arith
length-put_text (c ∷ t) s = omega (arith, length-put_text t (c ∷ s))

-- What fits of a text, in its order.
said-put_text : (t : List ℕ) → said (put_text text_sink t []) ≡ take (buf_size - 1) t
said-put_text t =
    let all : 0 + length t ≡ length t = omega arith in
    rw (length-put_text t [], all)
      (characters-take (min (length t) (buf_size - 1)) (char_at (put_text text_sink t [])) t 0
          (omega arith) (char_at-put_text t [])
        ∙ take-min t (buf_size - 1))

-- The characters are no NUL and no `%`, and no width is given.
abbrev is_plain : Piece → Bool
is_plain (plain c) = not (c == 0) && not (c == 37)
is_plain (converted unpadded v) = true
is_plain piece = false

abbrev are_plain : List Piece → Bool
are_plain [] = true
are_plain (piece ∷ pieces) = is_plain piece && are_plain pieces

-- The strings have no NUL before their end.
abbrev pub AreValues : List Piece → Type 0
AreValues [] = Unit {0}
AreValues (plain c ∷ pieces) = AreValues pieces
AreValues (converted padding v ∷ pieces) = IsValue v × AreValues pieces

are_plain-ArePieces :
    (pieces : List Piece) → are_plain pieces ≡ true → AreValues pieces → ArePieces pieces
are_plain-ArePieces [] e h = tt
are_plain-ArePieces (plain c ∷ pieces) e h =
    ((ground (arith, e), ground (arith, e)), are_plain-ArePieces pieces (ground (arith, e)) h)
are_plain-ArePieces (converted unpadded v ∷ pieces) e h =
    ((tt, h.0), are_plain-ArePieces pieces e h.1)
are_plain-ArePieces (converted padding v ∷ pieces) e h = absurd (cc e)

-- The pieces are what the call gives.
abbrev AreOf : Message → Type 0
AreOf m =
    (format (message_pieces m) ≡ (message m).fmt)
    × (arguments (message_pieces m) ≡ (message m).args)
    × (are_plain (message_pieces m) ≡ true)

message_pieces-AreOf : (m : Message) → AreOf m
unfolding message message_pieces format arguments
message_pieces-AreOf (check_failed expr file line) = (refl, refl, refl)
message_pieces-AreOf (copying_image name len source dst) = (refl, refl, refl)
message_pieces-AreOf using_hardcoded = (refl, refl, refl)
message_pieces-AreOf (copying_dtb source dst) = (refl, refl, refl)
message_pieces-AreOf (using_given source) = (refl, refl, refl)
message_pieces-AreOf checking_memory = (refl, refl, refl)
message_pieces-AreOf (memory_range first last) = (refl, refl, refl)
message_pieces-AreOf available_memory = (refl, refl, refl)
message_pieces-AreOf memory_not_found = (refl, refl, refl)
message_pieces-AreOf memory_found = (refl, refl, refl)
message_pieces-AreOf original_memory = (refl, refl, refl)
message_pieces-AreOf (memory_start_len start len) = (refl, refl, refl)
message_pieces-AreOf carved_memory = (refl, refl, refl)
message_pieces-AreOf sharing_uart = (refl, refl, refl)
message_pieces-AreOf (removing_node name behind) = (refl, refl, refl)
message_pieces-AreOf (relocating_dtb dst) = (refl, refl, refl)
message_pieces-AreOf found_header = (refl, refl, refl)
message_pieces-AreOf initializing_secure = (refl, refl, refl)
message_pieces-AreOf (kernel_command cmdline behind) = (refl, refl, refl)
message_pieces-AreOf (entering_kernel entry a0 a1 dtb) = (refl, refl, refl)

module _ {D : Type 0} (hw : Device D) (fuel : ℕ) (p : Flavor)
    (drains : DrainsFifo hw fuel (console_uart_base p)) where
  -- Take a transmit FIFO that gets room within `fuel` reads from every state of the port, and a message
  -- of bios/main.c, that of a failed CHECK among them, whose strings have no NUL before their end and whose text is shorter than 2 ^ 31 characters. Then
  -- `msg` with its format and arguments returns. It sends the first 127 characters of the text, where
  -- strings stand as they are, an `int` in decimal and every other number in hexadecimal digits, with a
  -- carriage return behind each line feed, and each character behind a read that shows room.
  pub message-Sends :
      (m : Message) (buf : ℕ → ℕ) (bus : Bus D)
      → AreValues (message_pieces m)
      → length (text (message_pieces m)) < 2 ^ 31
      → NoOverrun (console_uart_base p) bus.log
      → Sends
          (console_uart_base p)
          (on_the_line (take (buf_size - 1) (text (message_pieces m))))
          bus
          (msg hw fuel p buf (message m).fmt (message m).args bus)
  message-Sends m buf bus values short safe =
      let pieces = message_pieces m in
      let (same_fmt, same_args, are) = message_pieces-AreOf m in
      rw (sym same_fmt, sym same_args, sym (said-put_text (text pieces)))
        (msg-Sends hw fuel p drains (format pieces) (arguments pieces) _ buf bus
          (kprintf-Pieces text_sink pieces [] (are_plain-ArePieces pieces are values) short) refl
          safe)
