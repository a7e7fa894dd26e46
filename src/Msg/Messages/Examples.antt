-- ===== src/Msg/Messages/Examples.antt =====
-- A failed CHECK(r < 0) on line 153 of bios/main.c, on the port of Uart/Examples.
use bios_qemu_tz_arm.Prelude.{arith, refl, codes}
use bios_qemu_tz_arm.Platform.{vexpress}
use bios_qemu_tz_arm.Printf.Values.{numeral}
use bios_qemu_tz_arm.Printf.Pieces.{text}
use bios_qemu_tz_arm.Uart.Examples.{port, start, drains_fifo}
use bios_qemu_tz_arm.Uart.Poll.{NoOverrun}
use bios_qemu_tz_arm.Uart.Send.{on_the_line, Sends}
use bios_qemu_tz_arm.Msg.{msg}
use bios_qemu_tz_arm.Msg.Calls.{check_message}
use bios_qemu_tz_arm.Msg.Messages.{check_failed, message, message_pieces}
use bios_qemu_tz_arm.Msg.Messages.Sent.{message-Sends}

message-Sends_example :
    let call = check_message (codes "r < 0") (codes "bios/main.c") 153 in
    Sends 0x1c090000
      (on_the_line (codes "Check \"r < 0\": bios/main.c:153\n"))
      start
      (msg port 2 vexpress (λ i. 255) call.fmt call.args start)
unfolding message message_pieces text numeral
message-Sends_example =
    message-Sends port 2 vexpress drains_fifo
      (check_failed (codes "r < 0") (codes "bios/main.c") 153) (λ i. 255) start
      (refl, (refl, (tt, tt))) (omega arith) (unfold NoOverrun in tt)
