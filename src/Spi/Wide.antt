-- ===== src/Spi/Wide.antt =====
-- lib/spi/spi.c: the functions for words of 16 and 32 bits, and the choice by `bits_per_word`.
use trusty_platform_sand.Base.{
  ℕ, zero, suc, ◌+◌, ◌-◌, ◌*◌, ◌/◌, ◌%◌, ◌^◌, ◌≤◌, ◌≡◌, refl, Option, none, some, true, arith, List,
  [], ◌∷◌, leb, if◌then◌else◌, get_or, length,
}
use trusty_platform_sand.Base.Io.{Device, pure, out_of_bounds, ◌>>=◌, ◌>>◌}
use trusty_platform_sand.Base.Stored.{stored}
use trusty_platform_sand.Spi.{
  Half, no_error, is_error, check_fifo, timeout, spi_dr, spi_sr_tnf, spi_sr_rne, lpss_spi_read,
  lpss_spi_write, u8_writer, u8_reader,
}

-- The `n` bytes of a word from a place in a buffer on, the low byte first
unfoldable pub load : ℕ → ℕ → List ℕ → ℕ
load zero pos buf = 0
load (suc n) pos buf = get_or buf pos 0 + 256 * load n (pos + 1) buf

unfoldable pub bytes_of : ℕ → ℕ → List ℕ
bytes_of zero w = []
bytes_of (suc n) w = w % 256 ∷ bytes_of n (w / 256)

module _ (dev : Device) (spi_mmio_base_addr n : ℕ) where
  -- The word that is sent, and the pointer after it
  unfoldable pub send_word : Half
  unfolding load
  send_word drv =
      if leb (drv.tx_pos + n) (length drv.tx)
      then (do
        lpss_spi_write dev spi_mmio_base_addr spi_dr (load n drv.tx_pos drv.tx)
        pure (
          no_error,
          record drv { tx_pos = drv.tx_pos + n; tx_length = (drv.tx_length + 2 ^ 32 - n) % 2 ^ 32 },
        ))
      else out_of_bounds

  -- u16_writer and u32_writer
  unfoldable pub wide_writer : Half
  wide_writer drv = do
    ret ← check_fifo dev spi_mmio_base_addr timeout spi_sr_tnf
    if is_error ret then pure (ret, drv) else send_word drv

  -- The word that is stored, and the pointer after it
  unfoldable pub receive_word : Half
  unfolding bytes_of stored
  receive_word drv = do
    v ← lpss_spi_read dev spi_mmio_base_addr spi_dr
    if leb (drv.rx_pos + n) (length drv.rx)
        then pure (
          no_error,
          record drv {
            rx = stored (bytes_of n v) drv.rx_pos drv.rx;
            rx_pos = drv.rx_pos + n;
            rx_length = (drv.rx_length + 2 ^ 32 - n) % 2 ^ 32;
          },
        )
        else out_of_bounds

  -- u16_reader and u32_reader
  unfoldable pub wide_reader : Half
  wide_reader drv = do
    ret ← check_fifo dev spi_mmio_base_addr timeout spi_sr_rne
    if is_error ret then pure (ret, drv) else receive_word drv

module _ (dev : Device) (spi_mmio_base_addr : ℕ) where
  -- `none` leaves the function of the transfer before.
  unfoldable pub writer_for : ℕ → Option Half
  unfolding wide_writer
  writer_for bits_per_word =
      if leb bits_per_word 8
      then some (u8_writer dev spi_mmio_base_addr)
      else if leb bits_per_word 16
      then some (wide_writer dev spi_mmio_base_addr 2)
      else if leb bits_per_word 32
      then some (wide_writer dev spi_mmio_base_addr 4)
      else none

  unfoldable pub reader_for : ℕ → Option Half
  unfolding wide_reader
  reader_for bits_per_word =
      if leb bits_per_word 8
      then some (u8_reader dev spi_mmio_base_addr)
      else if leb bits_per_word 16
      then some (wide_reader dev spi_mmio_base_addr 2)
      else if leb bits_per_word 32
      then some (wide_reader dev spi_mmio_base_addr 4)
      else none

  -- Up to 8 bits for each word, as `spi_init` sets, the functions for bytes are chosen.
  pub bytes_chosen :
      (bits_per_word : ℕ)
      → bits_per_word ≤ 8
      → (writer_for bits_per_word ≡ some (u8_writer dev spi_mmio_base_addr))
        × (reader_for bits_per_word ≡ some (u8_reader dev spi_mmio_base_addr))
  unfolding writer_for reader_for
  bytes_chosen bits_per_word h =
      let small : leb bits_per_word 8 ≡ true = ground arith in (rw small refl, rw small refl)
