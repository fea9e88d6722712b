-- ===== src/Spi/FullDuplex.antt =====
-- What `spi_writeread` sends and what it stores, on a controller that is ready at every read of its
-- status.
use trusty_platform_sand.Base.{
  Bool, ℕ, ◌+◌, ◌%◌, ◌^◌, ◌≤◌, ◌<◌, ◌≡◌, ◌≢◌, refl, ap, ◌∙◌, true, false, some, List, ◌++◌, map,
  arith, ◌==◌, ◌||◌, length, take, drop,
}
use trusty_platform_sand.Base.Stored.{stored-append}
use trusty_platform_sand.Base.Io.{Device, Trace, done}
use trusty_platform_sand.Base.Io.Spec.{bind-done}
use trusty_platform_sand.Base.Io.Writes.{u32, writes_to-rd, reads_from, reads_from-rd_ne}
use trusty_platform_sand.Heci.Regs.{address}
use trusty_platform_sand.Spi.{
  no_error, SpiTranData, spi_sr, spi_dr, spi_cc, spi_set_cs, spi_check_busy, with_cs, spi_writeread,
  timeout,
}
use trusty_platform_sand.Spi.Line.{IsReady, line, after_read, spi_check_busy-ready, line-cc}
use trusty_platform_sand.Spi.Exchange.{
  low_bytes, came, length-map, both, Exchanged, transfer-Exchanged,
}

module _ (dev : Device) (base : ℕ) (ready : IsReady dev base) where
  -- A write of the chip select takes nothing from the line.
  spi_set_cs-came :
      (flag : Bool) (t : Trace)
      → (u : Trace) × (spi_set_cs dev base flag t ≡ done tt u)
        × (line base u ≡ line base t)
        × (came base u ≡ came base t)
  unfolding spi_set_cs reads_from
  spi_set_cs-came flag t =
      let cc_ne : address base spi_cc ≢ address base spi_dr = omega arith in
      (
        _,
        refl,
        line-cc dev base ready _ t,
        reads_from-rd_ne (address base spi_dr) 32 (address base spi_cc) _ t cc_ne,
      )

  abbrev start : List ℕ → List ℕ → ℕ → SpiTranData
  start tx rx n = record { tx = tx; tx_pos = 0; tx_length = n; rx = rx; rx_pos = 0; rx_length = n }

  spi_writeread_ends :
      (tx rx : List ℕ) (tx_bytes rx_bytes n : ℕ) (drv drv' : SpiTranData) (t u1 u2 u3 : Trace)
      → (tx_bytes == 0 || rx_bytes == 0) ≡ false
      → (tx_bytes + rx_bytes) % 2 ^ 32 ≡ n
      → spi_set_cs dev base true (after_read dev base ready spi_sr t) ≡ done tt u1
      → both dev base ready n (start tx rx n) u1 ≡ done (no_error, drv') u2
      → spi_set_cs dev base false u2 ≡ done tt u3
      → spi_writeread dev base (some tx) tx_bytes (some rx) rx_bytes drv t
        ≡ done (no_error, drv') u3
  unfolding spi_writeread with_cs
  spi_writeread_ends tx rx tx_bytes rx_bytes n drv drv' t u1 u2 u3 some_bytes total e1 e2 e3 =
      let t0 : Trace = after_read dev base ready spi_sr t in
      rw (some_bytes, total)
        (bind-done (spi_check_busy dev base timeout) _ t t0 timeout
            (spi_check_busy-ready dev base ready 399999 t)
          ∙ bind-done (spi_set_cs dev base true) _ t0 u1 tt e1
          ∙ bind-done (both dev base ready n (start tx rx n)) _ u1 u2 (no_error, drv') e2
          ∙ bind-done (spi_set_cs dev base false) _ u2 u3 tt e3)

  -- On a controller that is ready at every read of its status, with two numbers of bytes that are
  -- not 0 and whose sum fits 32 bits, and two buffers that hold so many bytes together,
  -- `spi_writeread` succeeds: the words written to the data register since are the first bytes of
  -- the one buffer in their order, as many words were read from it, and their low bytes are at the
  -- start of the other buffer, whose rest is as it was.
  pub spi_writeread-line :
      (tx rx : List ℕ) (tx_bytes rx_bytes : ℕ) (drv : SpiTranData) (t : Trace)
      → 0 < tx_bytes
      → 0 < rx_bytes
      → tx_bytes + rx_bytes < 2 ^ 32
      → tx_bytes + rx_bytes ≤ length tx
      → tx_bytes + rx_bytes ≤ length rx
      → (drv' : SpiTranData) × (u : Trace) × (got : List ℕ) × (spi_writeread dev base
            (some tx)
            tx_bytes
            (some rx)
            rx_bytes
            drv
            t
          ≡ done (no_error, drv') u)
        × (line base u ≡ line base t ++ map u32 (take (tx_bytes + rx_bytes) tx))
        × (came base u ≡ came base t ++ got)
        × (length got ≡ tx_bytes + rx_bytes)
        × (drv'.rx ≡ low_bytes got ++ drop (tx_bytes + rx_bytes) rx)
  spi_writeread-line tx rx tx_bytes rx_bytes drv t some_tx some_rx small fits_tx fits_rx =
      let n : ℕ = tx_bytes + rx_bytes in
      let t0 : Trace = after_read dev base ready spi_sr t in
      let (u1, e1, l1, c1) = spi_set_cs-came true t0 in
      let x : Exchanged dev base ready n (start tx rx n) u1 =
        transfer-Exchanged dev base ready n (start tx rx n) u1 (omega arith) (omega arith) in
      let (u3, e3, l3, c3) = spi_set_cs-came false x.after in
      let poll : came base t0 ≡ came base t =
        reads_from-rd_ne (address base spi_dr) 32 (address base spi_sr) _ t (omega arith) in
      let quiet : line base t0 ≡ line base t =
        writes_to-rd (address base spi_dr) 32 (address base spi_sr) _ t in
      let size : length (low_bytes x.got) ≡ n = length-map (λ w. w % 2 ^ 8) x.got ∙ x.count in
      (
        x.drv',
        u3,
        x.got,
        spi_writeread_ends tx rx tx_bytes rx_bytes n drv x.drv' t u1 x.after u3 (ground arith)
            (omega arith) e1 x.ends e3,
        l3 ∙ x.sent ∙ ap (λ (l : List ℕ). l ++ map u32 (take n tx)) (l1 ∙ quiet),
        c3 ∙ x.received ∙ ap (λ (l : List ℕ). l ++ x.got) (c1 ∙ poll),
        x.count,
        x.buffer
            ∙ stored-append (low_bytes x.got) 0 rx (omega (arith, size))
            ∙ ap (λ k. low_bytes x.got ++ drop k rx) (omega (arith, size)),
      )
