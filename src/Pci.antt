-- ===== src/Pci.antt =====
-- lib/pci/pci_config.c: the configuration space through the address and data ports, with the
-- constants and the address word of include/platform/pci_config.h.
pub mod Select
mod Tests
use trusty_platform_sand.Base.{ℕ, ◌+◌, ◌*◌, ◌/◌, ◌%◌, ◌^◌, bit_or, ◌==◌, if◌then◌else◌}
use trusty_platform_sand.Base.Io.{Device, Io, pure, read_port, write_port, ◌>>=◌, ◌>>◌}

-- PCI_CONFIG_ADDRESS_REGISTER, PCI_CONFIG_DATA_REGISTER, PCI_CONFIG_BAR_OFFSET
abbrev pub config_address_register : ℕ
config_address_register = 0xCF8

abbrev pub config_data_register : ℕ
config_data_register = 0xCFC

abbrev pub config_bar_offset : ℕ
config_bar_offset = 0x10

-- `pci_config_address_t`: an assignment keeps the low bits of a value.
pub record ConfigAddress : Type 0 where
  pub reg : ℕ
  pub function : ℕ
  pub device : ℕ
  pub bus : ℕ
  pub reserved : ℕ
  pub enable : ℕ

unfoldable pub config_address : ℕ → ℕ → ℕ → ℕ → ConfigAddress
config_address bus device function reg = record {
  reg = reg % 2 ^ 8;
  function = function % 2 ^ 3;
  device = device % 2 ^ 5;
  bus = bus % 2 ^ 8;
  reserved = 0;
  enable = 1;
}

unfoldable pub config_address_word : ConfigAddress → ℕ
config_address_word a =
    a.reg
    + a.function * 2 ^ 8
    + a.device * 2 ^ 11
    + a.bus * 2 ^ 16
    + a.reserved * 2 ^ 24
    + a.enable * 2 ^ 31

-- `w & ~0x3`, and `w & 0x2`
abbrev pub clear_low : ℕ → ℕ
clear_low w = w / 4 * 4

abbrev pub second_bit : ℕ → ℕ
second_bit w = w / 2 % 2 * 2

abbrev address_word : ℕ → ℕ → ℕ → ℕ → ℕ
address_word bus device function reg = config_address_word (config_address bus device function reg)

-- `addr.uint32` and the write of the address port.
select : ℕ → Io (Unit {0})
select w = write_port 32 config_address_register (clear_low w)

module _ (ports : Device) (bus device function reg : ℕ) where
  unfoldable pub pci_read8 : Io ℕ
  unfolding select config_address config_address_word
  pci_read8 = do
    let w = address_word bus device function reg
    select w
    read_port ports 8 (bit_or config_data_register (w % 4))

  unfoldable pub pci_read16 : Io ℕ
  unfolding select config_address config_address_word
  pci_read16 = do
    let w = address_word bus device function reg
    select w
    read_port ports 16 (bit_or config_data_register (w % 4))

  unfoldable pub pci_read32 : Io ℕ
  unfolding select config_address config_address_word
  pci_read32 = do
    let w = address_word bus device function reg
    select w
    read_port ports 32 config_data_register

  unfoldable pub pci_write8 : ℕ → Io (Unit {0})
  unfolding select config_address config_address_word
  pci_write8 value = do
    let w = address_word bus device function reg
    select w
    write_port 8 (bit_or config_data_register (w % 4)) value

  unfoldable pub pci_write16 : ℕ → Io (Unit {0})
  unfolding select config_address config_address_word
  pci_write16 value = do
    let w = address_word bus device function reg
    select w
    write_port 16 (bit_or config_data_register (second_bit w)) value

  unfoldable pub pci_write32 : ℕ → Io (Unit {0})
  unfolding select config_address config_address_word
  pci_write32 value = do
    let w = address_word bus device function reg
    select w
    write_port 32 config_data_register value

-- GET_PCI_BUS, GET_PCI_DEVICE, GET_PCI_FUNCTION and PCI_GET_ADDRESS
unfoldable pub pci_bus : ℕ → ℕ
pci_bus addr = addr / 2 ^ 8 % 2 ^ 8

unfoldable pub pci_device : ℕ → ℕ
pci_device addr = addr / 2 ^ 3 % 2 ^ 5

unfoldable pub pci_function : ℕ → ℕ
pci_function addr = addr % 2 ^ 3

-- MAKE64
unfoldable pub make64 : ℕ → ℕ → ℕ
make64 high low = high * 2 ^ 32 + low % 2 ^ 32

-- The bits 2:1 of the register are 10 for a base address of 64 bits.
unfoldable pub pci_read_bar0 : Device → ℕ → Io ℕ
unfolding pci_bus pci_device pci_function make64
pci_read_bar0 ports pci_addr = do
  let bus = pci_bus pci_addr
  let device = pci_device pci_addr
  let function = pci_function pci_addr
  low ← pci_read32 ports bus device function config_bar_offset
  if low / 2 % 4 == 2
      then (do
        high ← pci_read32 ports bus device function (config_bar_offset + 0x4)
        pure (make64 high low))
      else pure (make64 0 low)
