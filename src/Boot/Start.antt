-- ===== src/Boot/Start.antt =====
-- `main_init_sec` and `main_init_ns` of bios/main.c from their first call to their last.
pub mod Edits
pub mod Kernel
pub mod Sources
pub mod Whole
mod Examples
mod KernelExamples
