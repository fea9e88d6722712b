-- ===== src/Pci/Select.antt =====
-- Which configuration register each access reaches.
use trusty_platform_sand.Base.{
  ℕ, ◌+◌, ◌*◌, ◌/◌, ◌%◌, ◌^◌, ◌<◌, ◌≡◌, refl, ap, ◌∙◌, bit_or, ◌∷◌, arith, ◌⊎◌, inl, inr,
}
use trusty_platform_sand.Base.Io.{Device, Trace, outp, done, read_port, write_port}
use trusty_platform_sand.Pci.{
  config_address, config_address_word, clear_low, second_bit, config_address_register,
  config_data_register, pci_read8, pci_read16, pci_read32, pci_write8, pci_write16, pci_write32,
}

-- A place in the configuration space.
pub record IsPlace (bus device function reg : ℕ) : Type 0 where
  pub bus_in : bus < 256
  pub device_in : device < 32
  pub function_in : function < 8
  pub reg_in : reg < 256

-- What the host bridge decodes from the address port: the enable bit, the bus, the device, the
-- function and the 32-bit register.
abbrev pub decode : ℕ → ℕ × ℕ × ℕ × ℕ × ℕ
decode w = (w / 2 ^ 31, w / 2 ^ 16 % 256, w / 2 ^ 11 % 32, w / 2 ^ 8 % 8, w / 4 % 64)

-- The port of a byte of the data register.
bit_or-data : (r : ℕ) → r < 4 → bit_or config_data_register r ≡ config_data_register + r
bit_or-data r h = small r (ground arith)
  where
    small :
        (r : ℕ)
        → (r ≡ 0) ⊎ ((r ≡ 1) ⊎ ((r ≡ 2) ⊎ (r ≡ 3)))
        → bit_or config_data_register r ≡ config_data_register + r
    small r (inl e) = rw e refl
    small r (inr (inl e)) = rw e refl
    small r (inr (inr (inl e))) = rw e refl
    small r (inr (inr (inr e))) = rw e refl

module _ (bus device function reg : ℕ) (place : IsPlace bus device function reg) where
  abbrev word : ℕ
  word = config_address_word (config_address bus device function reg)

  word-sum : word ≡ reg + function * 256 + device * 2048 + bus * 65536 + 2147483648
  unfolding config_address config_address_word
  word-sum = omega (arith, place.bus_in, place.device_in, place.function_in, place.reg_in)

  word-mod : word % 4 ≡ reg % 4
  word-mod = omega (arith, word-sum)

  top-word : clear_low word % 2 ^ 32 / 2 ^ 31 ≡ 1
  top-word = omega (arith, word-sum, place.bus_in, place.device_in, place.function_in, place.reg_in)

  bus-word : clear_low word % 2 ^ 32 / 2 ^ 16 % 256 ≡ bus
  bus-word = omega (arith, word-sum, place.bus_in, place.device_in, place.function_in, place.reg_in)

  device-word : clear_low word % 2 ^ 32 / 2 ^ 11 % 32 ≡ device
  device-word =
      omega (arith, word-sum, place.bus_in, place.device_in, place.function_in, place.reg_in)

  function-word : clear_low word % 2 ^ 32 / 2 ^ 8 % 8 ≡ function
  function-word =
      omega (arith, word-sum, place.bus_in, place.device_in, place.function_in, place.reg_in)

  reg-word : clear_low word % 2 ^ 32 / 4 % 64 ≡ reg / 4
  reg-word = omega (arith, word-sum, place.bus_in, place.device_in, place.function_in, place.reg_in)

  decode-word : decode (clear_low word % 2 ^ 32) ≡ (1, bus, device, function, reg / 4)
  decode-word = rw (top-word, bus-word, device-word, function-word, reg-word) refl

  word-port : bit_or config_data_register (word % 4) ≡ config_data_register + reg % 4
  word-port = ap (bit_or config_data_register) word-mod ∙ bit_or-data (reg % 4) (omega arith)

  word-port16 :
      bit_or config_data_register (second_bit word) ≡ config_data_register + second_bit reg
  word-port16 =
      ap (bit_or config_data_register) (omega (arith, word-sum))
      ∙ bit_or-data (second_bit reg) (omega arith)

module _ (ports : Device) (bus device function reg : ℕ)
    (place : IsPlace bus device function reg) where
  -- Each access of a place writes a word that decodes to that place to the address port, and
  -- then reads or writes once, with its own width: the byte port of the register (8 bits), the
  -- data port (32 bits), and at 16 bits the byte port for a read but the port of the even
  -- register for a write.
  pub pci_access-decode :
      (t : Trace) (v : ℕ)
      → (w : ℕ) × (decode w ≡ (1, bus, device, function, reg / 4))
        × (pci_read8 ports bus device function reg t
            ≡ read_port ports 8
                (config_data_register + reg % 4)
                (outp 32 config_address_register w ∷ t))
        × (pci_read16 ports bus device function reg t
            ≡ read_port ports 16
                (config_data_register + reg % 4)
                (outp 32 config_address_register w ∷ t))
        × (pci_read32 ports bus device function reg t
            ≡ read_port ports 32 config_data_register (outp 32 config_address_register w ∷ t))
        × (pci_write8 ports bus device function reg v t
            ≡ done tt (
                outp 8 (config_data_register + reg % 4) (v % 2 ^ 8)
                ∷ outp 32 config_address_register w
                ∷ t))
        × (pci_write16 ports bus device function reg v t
            ≡ done tt (
                outp 16 (config_data_register + second_bit reg) (v % 2 ^ 16)
                ∷ outp 32 config_address_register w
                ∷ t))
        × (pci_write32 ports bus device function reg v t
            ≡ done tt
                (outp 32 config_data_register (v % 2 ^ 32) ∷ outp 32 config_address_register w ∷ t))
  unfolding pci_read8 pci_read16 pci_read32 pci_write8 pci_write16 pci_write32
  pci_access-decode t v = (
    clear_low (word bus device function reg place) % 2 ^ 32,
    decode-word bus device function reg place,
    ap (λ p. read_port ports 8 p (after t)) (word-port bus device function reg place),
    ap (λ p. read_port ports 16 p (after t)) (word-port bus device function reg place),
    refl,
    ap (λ p. write_port 8 p v (after t)) (word-port bus device function reg place),
    ap (λ p. write_port 16 p v (after t)) (word-port16 bus device function reg place),
    refl,
  )
    where
      after : Trace → Trace
      after t =
          outp 32 config_address_register (clear_low (word bus device function reg place) % 2 ^ 32)
          ∷ t
