-- ===== src/Spi/Exchange.antt =====
-- The rounds that send a byte and store one, on a controller that is ready at every read of its
-- status.
use mathlib.Core.List.{append-nil, append_assoc}
use trusty_platform_sand.Base.{
  ℕ, zero, suc, ◌+◌, ◌-◌, ◌%◌, ◌^◌, ◌≤◌, ◌<◌, ◌≡◌, ◌≢◌, refl, ap, sym, ◌∙◌, true, none, some, List,
  [], ◌∷◌, ◌++◌, map, arith, ltb, length, set, take, drop, length-set, get_elem?, get_elem?-ne-none,
  Option-cases, drop-get_elem?, ◌⊎◌, inl, inr,
}
use trusty_platform_sand.Base.Stored.{stored}
use trusty_platform_sand.Base.Io.{Device, Trace, Io, wr, done}
use trusty_platform_sand.Base.Io.Spec.{bind-done}
use trusty_platform_sand.Base.Io.Writes.{u32, writes_to, writes_to-wr_self, reads_from}
use trusty_platform_sand.Heci.Regs.{address}
use trusty_platform_sand.Spi.{
  Status, no_error, SpiTranData, check_fifo, spi_sr, spi_dr, spi_sr_rne, u8_writer, u8_reader,
  receive_byte, transfer, timeout,
}
use trusty_platform_sand.Spi.Line.{
  IsReady, line, after_read, check_fifo-ready, next, u8_writer-ready,
}

-- The low bytes of the words that came from the line
abbrev pub low_bytes : List ℕ → List ℕ
low_bytes ws = map (λ w. w % 2 ^ 8) ws

abbrev pub came : ℕ → Trace → List ℕ
came base t = reads_from (address base spi_dr) t

pub length-map : (f : ℕ → ℕ) (xs : List ℕ) → length (map f xs) ≡ length xs
length-map f [] = refl
length-map f (x ∷ xs) = ap suc (length-map f xs)

module _ (dev : Device) (base : ℕ) (ready : IsReady dev base) where
  -- The word that the data register gives
  abbrev given : Trace → ℕ
  given t = u32 (dev t 32 (address base spi_dr))

  -- What is left after a word is stored
  abbrev kept : ℕ → SpiTranData → SpiTranData
  kept v drv = record drv {
    rx = set drv.rx drv.rx_pos (v % 2 ^ 8);
    rx_pos = drv.rx_pos + 1;
    rx_length = (drv.rx_length + 2 ^ 32 - 1) % 2 ^ 32;
  }

  u8_reader-ready :
      (drv : SpiTranData) (t : Trace)
      → drv.rx_pos < length drv.rx
      → u8_reader dev base drv t
        ≡ done
            (no_error, kept (given (after_read dev base ready spi_sr t)) drv)
            (after_read dev base ready spi_dr (after_read dev base ready spi_sr t))
  unfolding u8_reader receive_byte
  u8_reader-ready drv t fits =
      let room : ltb drv.rx_pos (length drv.rx) ≡ true = ground arith in
      bind-done (check_fifo dev base timeout spi_sr_rne) _ t (after_read dev base ready spi_sr t)
        no_error (check_fifo-ready dev base ready 399999 spi_sr_rne t (ready.rne t))
      ∙ rw room refl

  -- The history after a round that sends `b`, and the word that the round receives
  abbrev polled : ℕ → Trace → Trace
  polled b t =
      after_read dev base ready spi_sr
        (wr 32 (address base spi_dr) (u32 b) ∷ after_read dev base ready spi_sr t)

  abbrev after_round : ℕ → Trace → Trace
  after_round b t = after_read dev base ready spi_dr (polled b t)

  line-after_round : (b : ℕ) (t : Trace) → line base (after_round b t) ≡ line base t ++ (u32 b ∷ [])
  unfolding writes_to
  line-after_round b t =
      writes_to-wr_self (address base spi_dr) 32 (u32 b) (after_read dev base ready spi_sr t)

  came-after_round :
      (b : ℕ) (t : Trace) → came base (after_round b t) ≡ came base t ++ (given (polled b t) ∷ [])
  unfolding reads_from
  came-after_round b t =
      let sr_ne : address base spi_sr ≢ address base spi_dr = omega arith in ground (arith, sr_ne)

  round-ready :
      (n : ℕ) (drv : SpiTranData) (b : ℕ) (t : Trace)
      → get_elem? drv.tx drv.tx_pos ≡ some b
      → drv.rx_pos < length drv.rx
      → transfer dev base (u8_writer dev base) (u8_reader dev base) (suc n) drv t
        ≡ transfer dev base
            (u8_writer dev base)
            (u8_reader dev base)
            n
            (kept (given (polled b t)) (next dev base ready drv))
            (after_round b t)
  unfolding transfer
  round-ready n drv b t e fits =
      bind-done (u8_writer dev base drv) _ t _ (no_error, next dev base ready drv)
        (u8_writer-ready dev base ready drv b t e)
      ∙ bind-done (u8_reader dev base (next dev base ready drv)) _ _ _
          (no_error, kept (given (polled b t)) (next dev base ready drv))
          (u8_reader-ready (next dev base ready drv) _ fits)

  abbrev pub both : ℕ → SpiTranData → Io (Status × SpiTranData)
  both n = transfer dev base (u8_writer dev base) (u8_reader dev base) n

  -- The rounds of a transfer sent the bytes from the place in the one buffer on, and stored what
  -- came from the place in the other on.
  pub record Exchanged (n : ℕ) (drv : SpiTranData) (t : Trace) : Type 0 where
    pub drv' : SpiTranData
    pub after : Trace
    pub got : List ℕ
    pub ends : both n drv t ≡ done (no_error, drv') after
    pub sent : line base after ≡ line base t ++ map u32 (take n (drop drv.tx_pos drv.tx))
    pub received : came base after ≡ came base t ++ got
    pub count : length got ≡ n
    pub buffer : drv'.rx ≡ stored (low_bytes got) drv.rx_pos drv.rx

  exchange_round :
      (n : ℕ) (drv : SpiTranData) (b : ℕ) (t : Trace)
      → get_elem? drv.tx drv.tx_pos ≡ some b
      → drv.rx_pos < length drv.rx
      → Exchanged n (kept (given (polled b t)) (next dev base ready drv)) (after_round b t)
      → Exchanged (suc n) drv t
  unfolding stored
  exchange_round n drv b t e fits ih =
      let rest : List ℕ = map u32 (take n (drop (drv.tx_pos + 1) drv.tx)) in
      let v : ℕ = given (polled b t) in
      record {
        drv' = ih.drv';
        after = ih.after;
        got = v ∷ ih.got;
        ends = round-ready n drv b t e fits ∙ ih.ends;
        sent =
            ih.sent
            ∙ ap (λ (l : List ℕ). l ++ rest) (line-after_round b t)
            ∙ append_assoc (line base t) (u32 b ∷ []) rest
            ∙ ap (λ (l : List ℕ). line base t ++ map u32 (take (suc n) l))
                (sym (drop-get_elem? drv.tx drv.tx_pos b e));
        received =
            ih.received
            ∙ ap (λ (l : List ℕ). l ++ ih.got) (came-after_round b t)
            ∙ append_assoc (came base t) (v ∷ []) ih.got;
        count = ap suc ih.count;
        buffer = ih.buffer;
      }

  pub transfer-Exchanged :
      (n : ℕ) (drv : SpiTranData) (t : Trace)
      → drv.tx_pos + n ≤ length drv.tx
      → drv.rx_pos + n ≤ length drv.rx
      → Exchanged n drv t
  unfolding transfer stored
  transfer-Exchanged zero drv t h k = record {
    drv' = drv;
    after = t;
    got = [];
    ends = refl;
    sent = sym (append-nil (line base t));
    received = sym (append-nil (came base t));
    count = refl;
    buffer = refl;
  }
  transfer-Exchanged (suc n) drv t h k = send (Option-cases (get_elem? drv.tx drv.tx_pos)) λ b.
      transfer-Exchanged n (kept (given (polled b t)) (next dev base ready drv)) (after_round b t)
        (omega arith) (omega (arith, length-set drv.rx drv.rx_pos (given (polled b t) % 2 ^ 8)))
    where
      send :
          (get_elem? drv.tx drv.tx_pos ≡ none) ⊎ ((b : ℕ) × (get_elem? drv.tx drv.tx_pos ≡ some b))
          → ((b : ℕ)
              → Exchanged n (kept (given (polled b t)) (next dev base ready drv)) (after_round b t))
          → Exchanged (suc n) drv t
      send (inl e) ih = absurd (get_elem?-ne-none drv.tx drv.tx_pos (omega arith) e)
      send (inr (b, e)) ih = exchange_round n drv b t e (omega arith) (ih b)
