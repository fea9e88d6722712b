-- ===== src/Pci/Tests.antt =====
-- A read of the command register of the device at bus 0, device 15, function 0.
use trusty_platform_sand.Base.{ℕ, ◌≡◌, [], ◌∷◌, arith}
use trusty_platform_sand.Base.Io.{Device, outp, done, read_port}
use trusty_platform_sand.Pci.{
  config_address_register, config_data_register, pci_read8, pci_read16, pci_read32, pci_write8,
  pci_write16, pci_write32,
}
use trusty_platform_sand.Pci.Select.{IsPlace, decode, pci_access-decode}

abbrev ports : Device
ports t w p = 0x1234

heci-IsPlace : IsPlace 0 15 0 5
heci-IsPlace = omega arith

pci_access-decode_example :
    (w : ℕ) × (decode w ≡ (1, 0, 15, 0, 1))
    × (pci_read8 ports 0 15 0 5 []
        ≡ read_port ports 8 0xCFD (outp 32 config_address_register w ∷ []))
    × (pci_read16 ports 0 15 0 5 []
        ≡ read_port ports 16 0xCFD (outp 32 config_address_register w ∷ []))
    × (pci_read32 ports 0 15 0 5 []
        ≡ read_port ports 32 config_data_register (outp 32 config_address_register w ∷ []))
    × (pci_write8 ports 0 15 0 5 6 []
        ≡ done tt (outp 8 0xCFD 6 ∷ outp 32 config_address_register w ∷ []))
    × (pci_write16 ports 0 15 0 5 6 []
        ≡ done tt (outp 16 0xCFC 6 ∷ outp 32 config_address_register w ∷ []))
    × (pci_write32 ports 0 15 0 5 6 []
        ≡ done tt (outp 32 config_data_register 6 ∷ outp 32 config_address_register w ∷ []))
pci_access-decode_example = pci_access-decode ports 0 15 0 5 heci-IsPlace [] 6
