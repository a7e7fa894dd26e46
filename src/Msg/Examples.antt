-- ===== src/Msg/Examples.antt =====
-- The message of Printf/Examples on the port of Uart/Examples.
use bios_qemu_tz_arm.Prelude.{refl}
use bios_qemu_tz_arm.Platform.{vexpress}
use bios_qemu_tz_arm.Printf.Examples.{fmt, args, printed, prints}
use bios_qemu_tz_arm.Uart.Examples.{port, start, drains_fifo}
use bios_qemu_tz_arm.Uart.Poll.{NoOverrun}
use bios_qemu_tz_arm.Uart.Send.{on_the_line, Sends}
use bios_qemu_tz_arm.Msg.{msg}
use bios_qemu_tz_arm.Msg.Line.{said, msg-Sends}

msg-Sends_example :
    Sends 0x1c090000
      (on_the_line (said printed.sink))
      start
      (msg port 2 vexpress (λ i. 255) fmt args start)
msg-Sends_example =
    msg-Sends port 2 vexpress drains_fifo fmt args printed (λ i. 255) start prints refl
      (unfold NoOverrun in tt)
