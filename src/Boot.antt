-- ===== src/Boot.antt =====
-- The boot sequence of bios/main.c behind the checks of the memory: Images copies the images of the
-- secure and the non-secure world, Tree edits the device tree.
pub mod Images
pub mod Layout
pub mod Secure
pub mod Tree
pub mod Start
mod Examples
