-- ===== src/Spi/Line.antt =====
-- What goes over the line to a controller that is ready at every read of its status.
use Prim.Native.Nat.{bit_and}
use trusty_platform_sand.Base.{
  Bool, ℕ, zero, suc, ◌+◌, ◌-◌, ◌%◌, ◌^◌, ◌≤◌, ◌<◌, ◌≡◌, ◌≢◌, refl, ap, sym, ◌∙◌, true, false, none,
  some, List, [], ◌∷◌, ◌++◌, map, arith, ◌==◌, length, take, drop, get_elem?, get_elem?-ne-none,
  Option-cases, drop-get_elem?, ◌⊎◌, inl, inr,
}
use mathlib.Core.List.{append-nil, append_assoc}
use trusty_platform_sand.Base.Io.{Device, Trace, rd, wr, done}
use trusty_platform_sand.Base.Io.Spec.{bind-done}
use trusty_platform_sand.Base.Io.Writes.{
  u32, writes_to, writes_to-rd, writes_to-wr_self, writes_to-wr_ne,
}
use trusty_platform_sand.Heci.Regs.{address}
use trusty_platform_sand.Spi.{
  no_error, SpiTranData, check_fifo, spi_sr, spi_dr, spi_cc, spi_sr_tnf, spi_sr_rne, spi_sr_bsy,
  send_byte, u8_writer, null_reader, spi_set_cs, spi_check_busy, transfer, with_cs, spi_write,
  timeout,
}

-- Both queues are ready and the bus is not busy.
pub record IsReady (dev : Device) (base : ℕ) : Type 0 where
  pub tnf : (t : Trace) → bit_and (u32 (dev t 32 (address base spi_sr))) spi_sr_tnf ≢ 0
  pub rne : (t : Trace) → bit_and (u32 (dev t 32 (address base spi_sr))) spi_sr_rne ≢ 0
  pub bsy : (t : Trace) → bit_and (u32 (dev t 32 (address base spi_sr))) spi_sr_bsy ≡ 0

-- The words written to the data register
abbrev pub line : ℕ → Trace → List ℕ
line base t = writes_to (address base spi_dr) t

module _ (dev : Device) (base : ℕ) (ready : IsReady dev base) where
  -- The history after a read of a register
  abbrev pub after_read : ℕ → Trace → Trace
  after_read reg t = rd 32 (address base reg) (u32 (dev t 32 (address base reg))) ∷ t

  pub check_fifo-ready :
      (left bit : ℕ) (t : Trace)
      → bit_and (u32 (dev t 32 (address base spi_sr))) bit ≢ 0
      → check_fifo dev base (suc left) bit t ≡ done no_error (after_read spi_sr t)
  unfolding check_fifo
  check_fifo-ready left bit t h =
      let set : (bit_and (u32 (dev t 32 (address base spi_sr))) bit == 0) ≡ false = ground arith in
      rw set refl

  -- What is left after a byte is sent
  abbrev pub next : SpiTranData → SpiTranData
  next drv = record drv {
    tx_pos = drv.tx_pos + 1;
    tx_length = (drv.tx_length + 2 ^ 32 - 1) % 2 ^ 32;
  }

  pub u8_writer-ready :
      (drv : SpiTranData) (b : ℕ) (t : Trace)
      → get_elem? drv.tx drv.tx_pos ≡ some b
      → u8_writer dev base drv t
        ≡ done (no_error, next drv) (wr 32 (address base spi_dr) (u32 b) ∷ after_read spi_sr t)
  unfolding u8_writer send_byte
  u8_writer-ready drv b t e =
      bind-done (check_fifo dev base timeout spi_sr_tnf) _ t (after_read spi_sr t) no_error
        (check_fifo-ready 399999 spi_sr_tnf t (ready.tnf t))
      ∙ rw (e, send_byte) refl

  null_reader-ready :
      (drv : SpiTranData) (t : Trace)
      → null_reader dev base drv t ≡ done (no_error, drv) (after_read spi_dr (after_read spi_sr t))
  unfolding null_reader
  null_reader-ready drv t =
      bind-done (check_fifo dev base timeout spi_sr_rne) _ t (after_read spi_sr t) no_error
        (check_fifo-ready 399999 spi_sr_rne t (ready.rne t))

  -- The history after a round that sends a byte
  abbrev after_round : ℕ → Trace → Trace
  after_round b t =
      after_read spi_dr
        (after_read spi_sr (wr 32 (address base spi_dr) (u32 b) ∷ after_read spi_sr t))

  line-after_round : (b : ℕ) (t : Trace) → line base (after_round b t) ≡ line base t ++ (u32 b ∷ [])
  unfolding writes_to
  line-after_round b t = writes_to-wr_self (address base spi_dr) 32 (u32 b) (after_read spi_sr t)

  round-ready :
      (n : ℕ) (drv : SpiTranData) (b : ℕ) (t : Trace)
      → get_elem? drv.tx drv.tx_pos ≡ some b
      → transfer dev base (u8_writer dev base) (null_reader dev base) (suc n) drv t
        ≡ transfer dev base
            (u8_writer dev base)
            (null_reader dev base)
            n
            (next drv)
            (after_round b t)
  unfolding transfer
  round-ready n drv b t e =
      bind-done (u8_writer dev base drv) _ t _ (no_error, next drv) (u8_writer-ready drv b t e)
      ∙ bind-done (null_reader dev base (next drv)) _ _ _ (no_error, next drv)
          (null_reader-ready (next drv) _)

  -- The rounds of a transfer send the bytes from the place in the buffer on.
  transfer-line :
      (n : ℕ) (drv : SpiTranData) (t : Trace)
      → drv.tx_pos + n ≤ length drv.tx
      → (drv' : SpiTranData) × (u : Trace) × (transfer dev base
            (u8_writer dev base)
            (null_reader dev base)
            n
            drv
            t
          ≡ done (no_error, drv') u)
        × (line base u ≡ line base t ++ map u32 (take n (drop drv.tx_pos drv.tx)))
  transfer-line zero drv t h = (drv, t, unfold transfer in refl, sym (append-nil (line base t)))
  transfer-line (suc n) drv t h =
      send (Option-cases (get_elem? drv.tx drv.tx_pos))
        (λ b. transfer-line n (next drv) (after_round b t) (omega arith))
    where
      send :
          (get_elem? drv.tx drv.tx_pos ≡ none) ⊎ ((b : ℕ) × (get_elem? drv.tx drv.tx_pos ≡ some b))
          → ((b : ℕ)
              → (drv' : SpiTranData) × (u : Trace) × (transfer dev base
                    (u8_writer dev base)
                    (null_reader dev base)
                    n
                    (next drv)
                    (after_round b t)
                  ≡ done (no_error, drv') u)
                × (line base u
                    ≡ line base (after_round b t)
                      ++ map u32 (take n (drop (drv.tx_pos + 1) drv.tx))))
          → (drv' : SpiTranData) × (u : Trace) × (transfer dev base
                (u8_writer dev base)
                (null_reader dev base)
                (suc n)
                drv
                t
              ≡ done (no_error, drv') u)
            × (line base u ≡ line base t ++ map u32 (take (suc n) (drop drv.tx_pos drv.tx)))
      send (inl e) ih = absurd (get_elem?-ne-none drv.tx drv.tx_pos (omega arith) e)
      send (inr (b, e)) ih =
          let (drv', u, ends, bytes) = ih b in
          (
            drv',
            u,
            round-ready n drv b t e ∙ ends,
            bytes
                ∙ ap (λ (l : List ℕ). l ++ map u32 (take n (drop (drv.tx_pos + 1) drv.tx)))
                    (line-after_round b t)
                ∙ append_assoc (line base t) (u32 b ∷ [])
                    (map u32 (take n (drop (drv.tx_pos + 1) drv.tx)))
                ∙ ap (λ (l : List ℕ). line base t ++ map u32 (take (suc n) l))
                    (sym (drop-get_elem? drv.tx drv.tx_pos b e)),
          )

  pub spi_check_busy-ready :
      (left : ℕ) (t : Trace)
      → spi_check_busy dev base (suc left) t ≡ done (suc left) (after_read spi_sr t)
  unfolding spi_check_busy
  spi_check_busy-ready left t = rw (ready.bsy t) refl

  -- A write of the chip select is not on the line.
  pub line-cc :
      (v : ℕ) (t : Trace)
      → line base (wr 32 (address base spi_cc) v ∷ after_read spi_cc t) ≡ line base t
  line-cc v t =
      writes_to-wr_ne (address base spi_dr) 32 (address base spi_cc) v (after_read spi_cc t)
        (omega arith)
      ∙ writes_to-rd (address base spi_dr) 32 (address base spi_cc) _ t

  spi_set_cs-line :
      (flag : Bool) (t : Trace)
      → (u : Trace) × (spi_set_cs dev base flag t ≡ done tt u) × (line base u ≡ line base t)
  unfolding spi_set_cs
  spi_set_cs-line flag t = (_, refl, line-cc _ t)

  -- On a controller that is ready at every read of its status, with a buffer that holds the number
  -- of bytes given, which is not 0, `spi_write` succeeds, and the words written to the data register
  -- since are those bytes in their order.
  pub spi_write-line :
      (tx : List ℕ) (tx_bytes : ℕ) (drv : SpiTranData) (t : Trace)
      → 0 < tx_bytes
      → tx_bytes ≤ length tx
      → (drv' : SpiTranData) × (u : Trace) × (spi_write dev base (some tx) tx_bytes drv t
          ≡ done (no_error, drv') u)
        × (line base u ≡ line base t ++ map u32 (take tx_bytes tx))
  unfolding spi_write with_cs writes_to
  spi_write-line tx tx_bytes drv t some_bytes fits =
      let start : SpiTranData = record drv { tx = tx; tx_pos = 0; tx_length = tx_bytes } in
      let body = transfer dev base (u8_writer dev base) (null_reader dev base) tx_bytes in
      let (u1, e1, l1) = spi_set_cs-line true (after_read spi_sr t) in
      let (drv', u2, e2, l2) = transfer-line tx_bytes start u1 (omega arith) in
      let (u3, e3, l3) = spi_set_cs-line false u2 in
      let more : (tx_bytes == 0) ≡ false = ground arith in
      (
        drv',
        u3,
        rw more (
            bind-done (spi_check_busy dev base timeout) _ t (after_read spi_sr t) timeout
              (spi_check_busy-ready 399999 t)
            ∙ bind-done (spi_set_cs dev base true) _ (after_read spi_sr t) u1 tt e1
            ∙ bind-done (body start) _ u1 u2 (no_error, drv') e2
            ∙ bind-done (spi_set_cs dev base false) _ u2 u3 tt e3),
        l3 ∙ l2 ∙ ap (λ (l : List ℕ). l ++ map u32 (take tx_bytes tx)) l1,
      )
