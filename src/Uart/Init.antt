-- ===== src/Uart/Init.antt =====
-- debug.c: `init_uart` and `uart_remap`, which find the UART in the configuration space and set the
-- base address of its registers. The place of the serial port, KERNEL_ASPACE_BASE and the mapping
-- of a physical page are a parameter.
use trusty_platform_sand.Base.{ℕ, ◌+◌, ◌*◌, ◌/◌, ◌%◌, ◌^◌, Option, none, some}
use trusty_platform_sand.Base.Io.{Trace, Device, Io, pure, ◌>>=◌}
use trusty_platform_sand.Pci.{pci_read32}
use trusty_platform_sand.Uart.{Uart, uart_putc}

-- SERIAL_PCI_BUS, SERIAL_PCI_DEV, SERIAL_PCI_FUN, KERNEL_ASPACE_BASE and `vmm_alloc_physical`
pub record Board : Type 0 where
  pub serial_bus : ℕ
  pub serial_dev : ℕ
  pub serial_fun : ℕ
  pub kernel_aspace_base : ℕ
  pub vmm_alloc_physical : Trace → ℕ → Option ℕ

-- `mmio_base_addr` and the variables of `uart_putc`
pub record Console : Type 0 where
  pub mmio_base_addr : ℕ
  pub uart : Uart

module _ (dev ports : Device) (board : Board) (fuel : ℕ) where
  -- `pci_read32(...) & ~0xF`
  unfoldable pub uart_io_base : Io ℕ
  uart_io_base = do
    bar ← pci_read32 ports board.serial_bus board.serial_dev board.serial_fun 0x10
    pure (bar / 16 * 16)

  unfoldable pub init_uart : Console → Io Console
  unfolding uart_io_base
  init_uart c = do
    io_base ← uart_io_base
    let mmio_base_addr = (board.kernel_aspace_base + io_base) % 2 ^ 64
    uart ← uart_putc dev fuel mmio_base_addr 0x0A c.uart
    pure (record { mmio_base_addr = mmio_base_addr; uart = uart })

  unfoldable pub uart_remap : Console → Io Console
  unfolding uart_io_base
  uart_remap c = do
    io_base ← uart_io_base
    λ t. elim (board.vmm_alloc_physical t io_base) [
      | none ↦ pure c t
      | some va ↦ pure (record c { mmio_base_addr = va }) t
    ]
