-- ===== src/Spi/Setup.antt =====
-- lib/spi/spi_reg_access.c: `spi_mmu_init`, which finds the controller in the configuration space and
-- maps its registers. The place of the controller is a parameter.
use trusty_platform_sand.Base.{ℕ, ◌+◌, ◌*◌, ◌/◌, ◌%◌, ◌^◌}
use trusty_platform_sand.Base.Io.{Device, Io, pure, ◌>>=◌}
use trusty_platform_sand.Pci.{pci_read32}

-- The range of the call of `x86_mmu_map_range`, not executable, not cached and for the user
pub record MapRange : Type 0 where
  pub start_vaddr : ℕ
  pub start_paddr : ℕ
  pub size : ℕ

-- The call, and `spi_mmio_base_addr`; the arguments are SPI_BUS, SPI_DEV, SPI_FUN and PAGE_SIZE.
unfoldable pub spi_mmu_init : Device → ℕ → ℕ → ℕ → ℕ → Io (MapRange × ℕ)
spi_mmu_init ports spi_bus spi_dev spi_fun page_size = do
  bar ← pci_read32 ports spi_bus spi_dev spi_fun 0x10
  let io_base = bar / 16 * 16
  let start_vaddr = (0xFFFFFFFF00000000 + io_base) % 2 ^ 64
  pure (record { start_vaddr = start_vaddr; start_paddr = io_base; size = page_size }, start_vaddr)
