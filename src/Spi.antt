-- ===== src/Spi.antt =====
-- lib/spi/spi.c: transfers over the SPI controller, with the registers of
-- include/platform/lpss_spi.h. `bits_per_word` is 0 or 8, so the functions for 8 bits are the ones
-- that run. `spi_mmu_init` is done before: the base address is a parameter.
pub mod Release
pub mod Line
pub mod Exchange
pub mod FullDuplex
pub mod Setup
pub mod Wide
pub mod Syscall
mod Tests
use Prim.Native.Nat.{bit_and, bit_or}
use trusty_platform_sand.Base.{
  ℕ, zero, suc, ◌+◌, ◌-◌, ◌*◌, ◌/◌, ◌%◌, ◌^◌, Bool, true, false, ◌||◌, Option, none, some, List,
  ltb, ◌==◌, if◌then◌else◌, get_elem?, set, length,
}
use trusty_platform_sand.Base.Io.{Device, Io, pure, out_of_bounds, read, write, ◌>>=◌, ◌>>◌}
use trusty_platform_sand.Heci.Regs.{address}

-- SPI_SR, SPI_DR, SPI_CC
abbrev pub spi_sr : ℕ
spi_sr = 0x08

abbrev pub spi_dr : ℕ
spi_dr = 0x10

abbrev pub spi_cc : ℕ
spi_cc = 0x224

-- SPI_CR0, SPI_CR1, SPI_CLK, SPI_RESET
abbrev pub spi_cr0 : ℕ
spi_cr0 = 0x00

abbrev pub spi_cr1 : ℕ
spi_cr1 = 0x04

abbrev pub spi_clk : ℕ
spi_clk = 0x200

abbrev pub spi_reset : ℕ
spi_reset = 0x204

-- SPI_SR_TNF, SPI_SR_RNE, SPI_SR_BSY
abbrev pub spi_sr_tnf : ℕ
spi_sr_tnf = 4

abbrev pub spi_sr_rne : ℕ
spi_sr_rne = 8

abbrev pub spi_sr_bsy : ℕ
spi_sr_bsy = 16

-- TIMEOUT
abbrev pub timeout : ℕ
timeout = 400000

-- ERR_NO_MEMORY is the system calls'; `err_fault` is what a copy from or to the user returns.
pub data Status : Type 0 where
  no_error err_timed_out err_invalid_args err_busy err_no_memory err_fault : Status

-- `rc < 0`
abbrev pub is_error : Status → Bool
is_error no_error = false
is_error err_timed_out = true
is_error err_invalid_args = true
is_error err_busy = true
is_error err_no_memory = true
is_error err_fault = true

-- `struct spi_tran_data`: the buffers and how far the pointers went. The ends are in the number of
-- rounds of a transfer.
pub record SpiTranData : Type 0 where
  pub tx : List ℕ
  pub tx_pos : ℕ
  pub tx_length : ℕ
  pub rx : List ℕ
  pub rx_pos : ℕ
  pub rx_length : ℕ

-- A function of `struct spi_tran_data` that writes or reads.
abbrev pub Half : Type 0
Half = SpiTranData → Io (Status × SpiTranData)

module _ (dev : Device) (spi_mmio_base_addr : ℕ) where
  abbrev pub lpss_spi_read : ℕ → Io ℕ
  lpss_spi_read reg = read dev 32 (address spi_mmio_base_addr reg)

  abbrev pub lpss_spi_write : ℕ → ℕ → Io (Unit {0})
  lpss_spi_write reg val = write 32 (address spi_mmio_base_addr reg) val

  -- check_tx_fifo and check_rx_fifo, with the bit of each; the first argument is `timeout`.
  unfoldable pub check_fifo : ℕ → ℕ → Io Status
  check_fifo zero bit = pure err_timed_out
  check_fifo (suc left) bit =
      let again : Io Status = check_fifo left bit in
      do sr ← lpss_spi_read spi_sr; if bit_and sr bit == 0 then again else pure no_error

  unfoldable pub null_writer : Half
  null_writer drv = do
    ret ← check_fifo timeout spi_sr_tnf
    if is_error ret then pure (ret, drv) else do lpss_spi_write spi_dr 0; pure (ret, drv)

  unfoldable pub null_reader : Half
  null_reader drv = do
    ret ← check_fifo timeout spi_sr_rne
    if is_error ret
        then pure (ret, drv)
        else do lpss_spi_read spi_dr >>= λ _. pure tt; pure (ret, drv)

  -- The byte that is sent, and the pointer after it.
  unfoldable pub send_byte : Half
  send_byte drv = elim (get_elem? drv.tx drv.tx_pos) [
    | none ↦ out_of_bounds
    | some b ↦ (do
      lpss_spi_write spi_dr b
      pure (
        no_error,
        record drv { tx_pos = drv.tx_pos + 1; tx_length = (drv.tx_length + 2 ^ 32 - 1) % 2 ^ 32 },
      ))
  ]

  unfoldable pub u8_writer : Half
  u8_writer drv = do
    ret ← check_fifo timeout spi_sr_tnf
    if is_error ret then pure (ret, drv) else send_byte drv

  -- The byte that is stored, and the pointer after it.
  unfoldable pub receive_byte : Half
  receive_byte drv = do
    v ← lpss_spi_read spi_dr
    if ltb drv.rx_pos (length drv.rx)
        then pure (
          no_error,
          record drv {
            rx = set drv.rx drv.rx_pos (v % 2 ^ 8);
            rx_pos = drv.rx_pos + 1;
            rx_length = (drv.rx_length + 2 ^ 32 - 1) % 2 ^ 32;
          },
        )
        else out_of_bounds

  unfoldable pub u8_reader : Half
  u8_reader drv = do
    ret ← check_fifo timeout spi_sr_rne
    if is_error ret then pure (ret, drv) else receive_byte drv

  -- A flag asserts the chip select, whose bit is then low.
  unfoldable pub spi_set_cs : Bool → Io (Unit {0})
  spi_set_cs flag = do
    val ← lpss_spi_read spi_cc
    lpss_spi_write spi_cc (val - val / 2 % 2 * 2 + (if flag then 0 else 2))

  -- `spi_check_busy`; the argument is `timeout`, and the answer what is left of it.
  unfoldable pub spi_check_busy : ℕ → Io ℕ
  spi_check_busy zero = pure 0
  spi_check_busy (suc left) =
      let again : Io ℕ = spi_check_busy left in
      do sr ← lpss_spi_read spi_sr; if bit_and sr spi_sr_bsy == 0 then pure (suc left) else again

  -- The loop of a transfer, with its number of rounds.
  unfoldable pub transfer : Half → Half → ℕ → Half
  transfer write_one read_one zero drv = pure (no_error, drv)
  transfer write_one read_one (suc left) drv =
      let again : Half = transfer write_one read_one left in
      do
        written ← write_one drv
        if is_error written.0
            then pure written
            else do got ← read_one written.1; if is_error got.0 then pure got else again got.1

  -- The transfer between the two changes of the chip select.
  unfoldable pub with_cs : Half → Half
  with_cs body drv = do spi_set_cs true; r ← body drv; spi_set_cs false; pure r

  abbrev pub unless_busy : Io (Status × SpiTranData) → Half
  unless_busy m drv = do
    left ← spi_check_busy timeout
    if left == 0 then pure (err_busy, drv) else m

  unfoldable pub spi_read : Option (List ℕ) → ℕ → Half
  spi_read none rx_bytes drv = pure (err_invalid_args, drv)
  spi_read (some rx) rx_bytes drv =
      if rx_bytes == 0
      then pure (err_invalid_args, drv)
      else unless_busy
          (with_cs (transfer null_writer u8_reader rx_bytes)
            (record drv { rx = rx; rx_pos = 0; rx_length = rx_bytes }))
          drv

  unfoldable pub spi_write : Option (List ℕ) → ℕ → Half
  spi_write none tx_bytes drv = pure (err_invalid_args, drv)
  spi_write (some tx) tx_bytes drv =
      if tx_bytes == 0
      then pure (err_invalid_args, drv)
      else unless_busy
          (with_cs (transfer u8_writer null_reader tx_bytes)
            (record drv { tx = tx; tx_pos = 0; tx_length = tx_bytes }))
          drv

  unfoldable pub spi_writeread : Option (List ℕ) → ℕ → Option (List ℕ) → ℕ → Half
  spi_writeread none tx_bytes rx rx_bytes drv = pure (err_invalid_args, drv)
  spi_writeread (some tx) tx_bytes none rx_bytes drv = pure (err_invalid_args, drv)
  spi_writeread (some tx) tx_bytes (some rx) rx_bytes drv =
      let total = (tx_bytes + rx_bytes) % 2 ^ 32 in
      if tx_bytes == 0 || rx_bytes == 0
      then pure (err_invalid_args, drv)
      else unless_busy
          (with_cs (transfer u8_writer u8_reader total) (record {
            tx = tx;
            tx_pos = 0;
            tx_length = total;
            rx = rx;
            rx_pos = 0;
            rx_length = total;
          }))
          drv

  -- Eight bits for each word.
  unfoldable pub spi_init : Io (Unit {0})
  spi_init = do
    lpss_spi_write spi_reset 0x7
    lpss_spi_write spi_clk 0x1003
    lpss_spi_write spi_cr0 0
    lpss_spi_write spi_cr1 0
    scc ← lpss_spi_read spi_cc
    lpss_spi_write spi_cc (bit_or scc 1)
    lpss_spi_write spi_cr0 (bit_or (bit_or 0x1300 (8 - 1)) 0x80)
