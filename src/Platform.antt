-- ===== src/Platform.antt =====
-- bios/platform_config.h: the memory map of the two boards, and bios/conf.mk's default choice.
use bios_qemu_tz_arm.Prelude.{ℕ, ◌+◌}

-- PLATFORM_FLAVOR
pub data Flavor : Type 0 where
  vexpress virt : Flavor

abbrev pub tz_ram_start : Flavor → ℕ
tz_ram_start vexpress = 0xBDF00000
tz_ram_start virt = 0x7DF00000

-- TZ_RES_MEM_START, TZ_RES_MEM_SIZE
abbrev pub tz_res_mem_start : Flavor → ℕ
tz_res_mem_start = tz_ram_start

abbrev pub tz_res_mem_size : ℕ
tz_res_mem_size = 0x02000000 + 0x100000

abbrev pub dram_start : Flavor → ℕ
dram_start vexpress = 0x80000000
dram_start virt = 0x40000000

abbrev pub uart0_base : Flavor → ℕ
uart0_base vexpress = 0x1c090000
uart0_base virt = 0x09000000

abbrev pub uart1_base : Flavor → ℕ
uart1_base vexpress = 0x1c0a0000
uart1_base virt = 0x09040000

abbrev pub console_uart_base : Flavor → ℕ
console_uart_base = uart0_base

abbrev pub dtb_max_size : ℕ
dtb_max_size = 0x10000

abbrev pub dtb_start : Flavor → ℕ
dtb_start = dram_start

abbrev pub bios_ram_start : Flavor → ℕ
bios_ram_start p = dram_start p + 0x100000
