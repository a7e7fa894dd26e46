-- ===== src/Printf.antt =====
-- `snprintf` and `vsnprintf` of libutils/isoc/snprintf.c, with the `kprintf` behind them. `kprintf` is
-- only called for a buffer (TOBUFONLY), so the other sink, a macro without effect, is left out.
pub mod Digits
pub mod Args
pub mod Fields
pub mod Directive
pub mod Format
pub mod Values
pub mod Pieces
pub mod Examples
