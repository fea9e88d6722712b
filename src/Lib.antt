-- ===== src/Lib.antt =====
-- A verification library of the trusty sand platform, the x86 platform layer of a trusted operating
-- system: it reads a keybox from the security engine, gives the device's secrets to the trusted
-- applications that may have them, and dispatches interrupts between the secure and the normal
-- side.
--
-- Parts and files
-- - Base: shared names. Base/Lists and Base/Int hold lists and integers over the native numbers,
--   Base/Tests the Boolean tests. Base/Io is the monad of the code that touches hardware: the
--   history of the accesses (reads and writes of registers and ports) is passed through, and a
--   device is any function from the history to the next answer. A run ends, leaves an object's
--   memory (`fault`), or runs out of the fuel of its loops (`stuck`).
-- - Heci (lib/heci/heci.c, heci_impl.h, cse_msg.h): the registers are in Heci/Regs, `cse_init`
--   in Heci/Init, `wait_event` and its polls in Heci/Wait, `heci_send_impl` in Heci/Send,
--   `heci_receive_impl` and `HeciSendwACK` in Heci/Receive, `get_attkb_size` and
--   `get_attkb` in Heci/Attkb. The keybox code works over any exchange of a request for a response; `heci_exchange` is the one of the
--   transport, and Heci/Attkb/Engine fills the interface of the keybox code with it, for a device
--   that answers over the registers (Heci/Attkb/Transport). Heci/Taken counts the words that the
--   device has given since it was last written to.
-- - Pci (lib/pci/pci_config.c, include/platform/pci_config.h): the accesses through the address
--   and data ports.
-- - DeviceInfo (lib/syscall/syscall_x86.c, include/shared): `get_ta_permission` is in
--   DeviceInfo/Permission, `copy_attkb_to_user` and `sys_get_device_info` in DeviceInfo/Serve. It
--   uses `get_attkb` of Heci and `pci_read32` of Pci; DeviceInfo/Registers puts it over the
--   transport. Copies to the user and freed blocks are kept in the kernel's state with what they
--   hold.
-- - Irq (interrupts.c, include/platform/sand_defs.h): the handler table, `platform_irq` and
--   `smc_intc_get_next_irq`; the masks of the two 8259 controllers are in Irq/Pic.
-- - Uart (debug.c, include/platform/uart.h): `uart_putc` with its ring, and `platform_dputc`, with
--   PRINT_USE_MMIO set. Uart/Init has `init_uart` and `uart_remap`, over `pci_read32` of Pci;
--   Uart/BootLog follows the output from before `init_uart` to after it.
-- - Timer (timer.c): the one-shot timer, its item on the wall and the tick, which is a handler of
--   the table of Irq.
-- - Spi (lib/spi/spi.c, include/platform/spi.h, lpss_spi.h): the transfers of bytes, with
--   both directions of the line in Spi/Exchange and Spi/FullDuplex. Spi/Setup (spi_reg_access.c) has
--   `spi_mmu_init`, and Spi/Wide the functions for wider words, which the code never selects.
--   Spi/Syscall (lib/syscall/syscall_x86.c) has the `sys_trusty_spi_*` calls of an application over
--   them.
-- - Migration (lib/hwkey_migration/hwkey_migration.c, trusty_key_migration.h): `send_req` and the
--   three requests to the hwkey server. What each IPC call answers is a function of the calls
--   before it.
-- - Crypt (lib/hwkey_crypt/hwkey_crypt.c, trusty_key_crypt.h): `aes_256_gcm_encrypt` and
--   `aes_256_gcm_decrypt`. Crypt/Flow has the state and the steps with their jumps to `exit`;
--   Crypt/Gcm states what a library that does AES-GCM answers.
-- - Monitor (entry.c, lib/smc/smc_x86.c): `sm_sched_nonsecure`, which switches to the normal world
--   until it makes a standard call, and `smc_fastcall_secure_monitor`. The normal world is any
--   function of the switches so far; Monitor/Vmcall (vmcall.c) has the hypervisor calls that it is
--   reached by, as registers.
-- - Mp (mp.c, utilities.c): `arch_mp_send_ipi`, the handler and the end of the boot. Mp/Start
--   (mp_init.c): `startup_hotpatch` and `x86_mp_init`; Mp/Delay has `wait_us`.
-- - Boot (platform.c): `platform_update_pagetable`, `heap_arena_init`, `clear_sensitive_data`, and
--   `platform_init` with its checks of the hypervisor and the processor. Boot/Early has
--   `platform_early_init`, which starts Irq, Timer and Uart; Boot/Started has the state they are in.
--   Boot/TimerRound joins the standard call of lib/smc/smc_x86.c, the dispatch of Irq and the tick
--   of Timer.
--
-- Fuel: `wait_loop` and `receive_loop` wait on a device and need not end, so they take fuel;
-- `send_loop` has the fuel of the words of its message, one per packet at least. The theorem on
-- `get_attkb` gives the fuel as the size of the file, since every answer holds a byte at least.
-- `wait_us` has one for each read of the counter.
-- `sm_sched_nonsecure` and `wait_for_cpus` have one for each switch and each read of the counter;
-- their theorems give enough. `drain` has a round for each place of its buffer and one more;
-- `wait_thre` waits on the device.
--
-- Not modelled: assembly, linker scripts, build files, the vendored XML parser, the log output
-- (DEBUG and dprintf, whose register reads are compiled out), the flush of the TLB, the registration
-- of handlers with the kernel (LK_INIT_HOOK, `smc_x86_init`), and the functions that return 0 only.
-- The heap, `memcpy_s` and `copy_to_user` are parameters of DeviceInfo, the handlers and
-- `sm_handle_irq` of Irq.
pub mod Base
pub mod Irq
pub mod Heci
pub mod Pci
pub mod DeviceInfo
pub mod Uart
pub mod Timer
pub mod Spi
pub mod Migration
pub mod Crypt
pub mod Monitor
pub mod Mp
pub mod Boot
