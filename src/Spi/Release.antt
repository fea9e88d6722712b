-- ===== src/Spi/Release.antt =====
-- What every transfer leaves: the buffers' bounds, and the chip select.
use trusty_platform_sand.Base.{
  ℕ, zero, suc, ◌+◌, ◌/◌, ◌%◌, ◌^◌, ◌≤◌, ◌<◌, ◌≡◌, ◌⊎◌, inl, inr, refl, ◌∙◌, true, false, ◌||◌,
  none, some, List, ◌∷◌, arith, ltb, ◌==◌, length, length-set, get_elem?, get_elem?-ne-none,
  Option-cases,
}
use trusty_platform_sand.Base.Io.{Device, Trace, wr, pure}
use trusty_platform_sand.Base.Io.Spec.{IsSafe, Spec-bind, Spec-if, Spec-weaken}
use trusty_platform_sand.Heci.Regs.{address}
use trusty_platform_sand.Spi.{
  Status, no_error, err_busy, err_invalid_args, SpiTranData, Half, is_error, check_fifo, spi_cc,
  send_byte, u8_writer, receive_byte, u8_reader, spi_set_cs, spi_check_busy, transfer, with_cs,
  spi_writeread, timeout, spi_sr_tnf, spi_sr_rne,
}

-- Both buffers hold as many bytes more as the rounds that are left, and the second has `m`.
pub record HasRoom (m n : ℕ) (drv : SpiTranData) : Type 0 where
  pub tx_room : drv.tx_pos + n ≤ length drv.tx
  pub rx_room : drv.rx_pos + n ≤ length drv.rx
  pub rx_size : length drv.rx ≡ m

-- A transfer failed, or the buffer that it filled has `m` bytes.
abbrev pub Filled : ℕ → Status × SpiTranData → Trace → Type 0
Filled m (rc, drv) u = (is_error rc ≡ true) ⊎ (length drv.rx ≡ m)

-- The last access releases the chip select: it writes the register with the bit set.
pub record IsReleased (base : ℕ) (u : Trace) : Type 0 where
  pub value : ℕ
  pub before : Trace
  pub last : u ≡ wr 32 (address base spi_cc) value ∷ before
  pub high : value / 2 % 2 ≡ 1

abbrev Anything : {A : Type 0} → A → Trace → Type 0
Anything a u = Unit {0}

module _ (dev : Device) (base : ℕ) where
  check_fifo-IsSafe :
      (left bit : ℕ) (t : Trace) → IsSafe (Anything {A = Status}) (check_fifo dev base left bit t)
  unfolding check_fifo
  check_fifo-IsSafe zero bit t = tt
  check_fifo-IsSafe (suc left) bit t =
      Spec-if ⊥ (Anything {A = Status}) _ (check_fifo dev base left bit) (pure no_error) _
        (λ _. check_fifo-IsSafe left bit _) (λ _. tt)

  spi_check_busy-IsSafe :
      (left : ℕ) (t : Trace) → IsSafe (Anything {A = ℕ}) (spi_check_busy dev base left t)
  unfolding spi_check_busy
  spi_check_busy-IsSafe zero t = tt
  spi_check_busy-IsSafe (suc left) t =
      Spec-if ⊥ (Anything {A = ℕ}) _ (pure (suc left)) (spi_check_busy dev base left) _ (λ _. tt)
        (λ _. spi_check_busy-IsSafe left _)

  -- A write keeps the bounds, and takes one from the room of the first buffer if it succeeds.
  abbrev Written : ℕ → ℕ → Status × SpiTranData → Trace → Type 0
  Written m n (rc, drv) u =
      (is_error rc ≡ true)
      ⊎ ((drv.tx_pos + n ≤ length drv.tx)
          × (drv.rx_pos + suc n ≤ length drv.rx)
          × (length drv.rx ≡ m))

  abbrev Both : ℕ → ℕ → Status × SpiTranData → Trace → Type 0
  Both m n (rc, drv) u = (is_error rc ≡ true) ⊎ HasRoom m n drv

  send_byte-Written :
      (m n : ℕ) (drv : SpiTranData) (t : Trace)
      → HasRoom m (suc n) drv
      → IsSafe (Written m n) (send_byte dev base drv t)
  unfolding send_byte
  send_byte-Written m n drv t h = look (Option-cases (get_elem? drv.tx drv.tx_pos))
    where
      look :
          (get_elem? drv.tx drv.tx_pos ≡ none) ⊎ ((b : ℕ) × (get_elem? drv.tx drv.tx_pos ≡ some b))
          → IsSafe (Written m n) (send_byte dev base drv t)
      look (inl e) = absurd (get_elem?-ne-none drv.tx drv.tx_pos (omega (arith, h.tx_room)) e)
      look (inr (b, e)) =
          rw (e, send_byte) (inr (omega (arith, h.tx_room), omega (arith, h.rx_room), h.rx_size))

  u8_writer-Written :
      (m n : ℕ) (drv : SpiTranData) (t : Trace)
      → HasRoom m (suc n) drv
      → IsSafe (Written m n) (u8_writer dev base drv t)
  unfolding u8_writer
  u8_writer-Written m n drv t h =
      Spec-bind ⊥ (Anything {A = Status}) (Written m n) (check_fifo dev base timeout spi_sr_tnf) _ t
        (check_fifo-IsSafe timeout spi_sr_tnf t)
        λ ret u _.
          Spec-if ⊥ (Written m n) (is_error ret) (pure (ret, drv)) (send_byte dev base drv) u
            (λ e. inl e) (λ _. send_byte-Written m n drv u h)

  receive_byte-Both :
      (m n : ℕ) (drv : SpiTranData) (t : Trace)
      → drv.tx_pos + n ≤ length drv.tx
      → drv.rx_pos + suc n ≤ length drv.rx
      → length drv.rx ≡ m
      → IsSafe (Both m n) (receive_byte dev base drv t)
  unfolding receive_byte
  receive_byte-Both m n drv t a b c =
      let inside : ltb drv.rx_pos (length drv.rx) ≡ true = ground arith in
      rw inside (
        inr (record {
          tx_room = a;
          rx_size =
              length-set drv.rx drv.rx_pos (dev t 32 (address base 0x10) % 2 ^ 32 % 2 ^ 8) ∙ c;
          rx_room =
              omega (
                arith,
                length-set drv.rx drv.rx_pos (dev t 32 (address base 0x10) % 2 ^ 32 % 2 ^ 8),
              );
        }))

  u8_reader-Both :
      (m n : ℕ) (drv : SpiTranData) (t : Trace)
      → drv.tx_pos + n ≤ length drv.tx
      → drv.rx_pos + suc n ≤ length drv.rx
      → length drv.rx ≡ m
      → IsSafe (Both m n) (u8_reader dev base drv t)
  unfolding u8_reader
  u8_reader-Both m n drv t a b c =
      Spec-bind ⊥ (Anything {A = Status}) (Both m n) (check_fifo dev base timeout spi_sr_rne) _ t
        (check_fifo-IsSafe timeout spi_sr_rne t)
        λ ret u _.
          Spec-if ⊥ (Both m n) (is_error ret) (pure (ret, drv)) (receive_byte dev base drv) u
            (λ e. inl e) (λ _. receive_byte-Both m n drv u a b c)

  transfer-IsSafe :
      (m n : ℕ) (drv : SpiTranData) (t : Trace)
      → HasRoom m n drv
      → IsSafe (Filled m) (transfer dev base (u8_writer dev base) (u8_reader dev base) n drv t)
  unfolding transfer
  transfer-IsSafe m zero drv t h = inr h.rx_size
  transfer-IsSafe m (suc n) drv t h =
      let again : Half = transfer dev base (u8_writer dev base) (u8_reader dev base) n in
      Spec-bind ⊥ (Written m n) (Filled m) (u8_writer dev base drv) _ t
        (u8_writer-Written m n drv t h)
        λ written u w.
          Spec-if ⊥ (Filled m) (is_error written.0) (pure written) _ u (λ e. inl e)
            λ fine.
              Spec-bind ⊥ (Both m n) (Filled m) (u8_reader dev base written.1) _ u
                (read_half written u w fine)
                λ got v g.
                  Spec-if ⊥ (Filled m) (is_error got.0) (pure got) (again got.1) v (λ e. inl e)
                    λ good. transfer-IsSafe m n got.1 v (room got good g)
    where
      read_half :
          (written : Status × SpiTranData) (u : Trace)
          → Written m n written u
          → is_error written.0 ≡ false
          → IsSafe (Both m n) (u8_reader dev base written.1 u)
      read_half written u (inl e) fine = absurd cc
      read_half written u (inr (a, b, c)) fine = u8_reader-Both m n written.1 u a b c

      room :
          (got : Status × SpiTranData)
          → is_error got.0 ≡ false
          → (is_error got.0 ≡ true) ⊎ HasRoom m n got.1
          → HasRoom m n got.1
      room got good (inl e) = absurd cc
      room got good (inr r) = r

  with_cs-IsReleased :
      (m : ℕ) (body : Half) (drv : SpiTranData) (t : Trace)
      → ((u : Trace) → IsSafe (Filled m) (body drv u))
      → IsSafe (λ r u. IsReleased base u × Filled m r u) (with_cs dev base body drv t)
  unfolding with_cs spi_set_cs
  with_cs-IsReleased m body drv t safe =
      Spec-bind ⊥ (Filled m) (λ r u. IsReleased base u × Filled m r u) (body drv) _ _ (safe _)
        λ r u f. (record { value = _; before = _; last = refl; high = omega arith }, f)

  -- The same, with the size of the buffer that is filled.
  pub spi_writeread-Filled :
      (tx rx : List ℕ) (tx_bytes rx_bytes : ℕ) (drv : SpiTranData) (t : Trace)
      → 0 < tx_bytes
      → 0 < rx_bytes
      → tx_bytes + rx_bytes < 2 ^ 32
      → tx_bytes + rx_bytes ≤ length tx
      → tx_bytes + rx_bytes ≤ length rx
      → IsSafe
          (λ r u. (r.0 ≡ err_busy) ⊎ (IsReleased base u × Filled (length rx) r u))
          (spi_writeread dev base (some tx) tx_bytes (some rx) rx_bytes drv t)
  unfolding spi_writeread
  spi_writeread-Filled tx rx tx_bytes rx_bytes drv t a b small tx_fits rx_fits =
      let total : ℕ = (tx_bytes + rx_bytes) % 2 ^ 32 in
      let start : SpiTranData = record {
        tx = tx;
        tx_pos = 0;
        tx_length = total;
        rx = rx;
        rx_pos = 0;
        rx_length = total;
      } in
      let P : Status × SpiTranData → Trace → Type 0 =
        λ r u. (r.0 ≡ err_busy) ⊎ (IsReleased base u × Filled (length rx) r u) in
      Spec-if ⊥ P (tx_bytes == 0 || rx_bytes == 0) (pure (err_invalid_args, drv)) _ t
        (λ e. absurd (ground arith))
        λ _.
          Spec-bind ⊥ (Anything {A = ℕ}) P (spi_check_busy dev base timeout) _ t
            (spi_check_busy-IsSafe timeout t)
            λ left u _.
              Spec-if ⊥ P (left == 0) (pure (err_busy, drv)) _ u (λ _. inl refl)
                λ _.
                  Spec-weaken ⊥ (λ r v. IsReleased base v × Filled (length rx) r v) P
                    (with_cs dev base
                      (transfer dev base (u8_writer dev base) (u8_reader dev base) total) start u)
                    (with_cs-IsReleased (length rx)
                      (transfer dev base (u8_writer dev base) (u8_reader dev base) total) start u
                      λ v.
                        transfer-IsSafe (length rx) total start v
                          (record { tx_room = omega arith; rx_room = omega arith; rx_size = refl }))
                    (λ r v released. inr released)

  -- With buffers that hold both numbers of bytes together, which are not 0 and do not wrap,
  -- `spi_writeread` stays inside the buffers, whatever the controller answers, and if it does not
  -- find the controller busy its last access releases the chip select, timeouts included.
  pub spi_writeread-IsReleased :
      (tx rx : List ℕ) (tx_bytes rx_bytes : ℕ) (drv : SpiTranData) (t : Trace)
      → 0 < tx_bytes
      → 0 < rx_bytes
      → tx_bytes + rx_bytes < 2 ^ 32
      → tx_bytes + rx_bytes ≤ length tx
      → tx_bytes + rx_bytes ≤ length rx
      → IsSafe
          (λ r u. (r.0 ≡ err_busy) ⊎ IsReleased base u)
          (spi_writeread dev base (some tx) tx_bytes (some rx) rx_bytes drv t)
  spi_writeread-IsReleased tx rx tx_bytes rx_bytes drv t a b small tx_fits rx_fits =
      Spec-weaken ⊥ _ _ (spi_writeread dev base (some tx) tx_bytes (some rx) rx_bytes drv t)
        (spi_writeread-Filled tx rx tx_bytes rx_bytes drv t a b small tx_fits rx_fits)
        λ r u c. released r u c
    where
      released :
          (r : Status × SpiTranData) (u : Trace)
          → (r.0 ≡ err_busy) ⊎ (IsReleased base u × Filled (length rx) r u)
          → (r.0 ≡ err_busy) ⊎ IsReleased base u
      released r u (inl e) = inl e
      released r u (inr (x, f)) = inr x
