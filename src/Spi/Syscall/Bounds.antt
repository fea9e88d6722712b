-- ===== src/Spi/Syscall/Bounds.antt =====
-- When `sys_trusty_spi_writeread` stays inside its blocks.
use trusty_platform_sand.Base.{
  ℕ, ◌+◌, ◌%◌, ◌^◌, ◌≤◌, ◌<◌, ◌≡◌, ◌⊎◌, inl, inr, refl, ◌∙◌, true, false, none, some, List, ◌∷◌,
  ◌++◌, arith, leb, length, take, drop, length-append, length-take, length-drop, Option-cases,
  Bool-cases,
}
use trusty_platform_sand.Base.Io.{Device, Trace, pure}
use trusty_platform_sand.Base.Io.Spec.{IsSafe, Spec-bind, Spec-if}
use trusty_platform_sand.Spi.{Status, err_busy, is_error, SpiTranData, spi_writeread}
use trusty_platform_sand.Spi.Release.{IsReleased, Filled, spi_writeread-Filled}
use trusty_platform_sand.Spi.Syscall.{
  Env, Kernel, send_to_user, reply, exchange_blocks, sys_trusty_spi_writeread,
}

-- A block of the heap has the size asked for.
abbrev pub Allocates : Env → Type 0
Allocates env = (i n : ℕ) (block : List ℕ) → env.malloc i n ≡ some block → length block ≡ n

-- A copy from the user changes the bytes of its destination only.
abbrev pub CopiesInPlace : Env → Type 0
CopiesInPlace env = (a : ℕ) (bytes : List ℕ) → length (env.copy_from_user a bytes).1 ≡ length bytes

-- The call failed, or `size` bytes went to an address of the user, before all that went there.
abbrev pub Delivered : ℕ → ℕ → Kernel → Status × Kernel → Trace → Type 0
Delivered place size k (rc, k') u =
    (is_error rc ≡ true)
    ⊎ ((bytes : List ℕ) × (k'.copied ≡ (place, bytes) ∷ k.copied) × (length bytes ≡ size))

module _ (env : Env) (dev : Device) (base : ℕ) where
  reply-Delivered :
      (rx_buff offset size : ℕ) (k : Kernel) (r : Status × SpiTranData) (t : Trace)
      → Filled (offset + size) r t
      → IsSafe (Delivered rx_buff size k) (reply env dev base rx_buff offset size k r t)
  unfolding reply
  reply-Delivered rx_buff offset size k (ret, drv) t filled =
      Spec-if ⊥ (Delivered rx_buff size k) (is_error ret) (pure (ret, record k { drv = drv })) _ t
        (λ e. inl e) λ fine. send (size_of filled fine)
    where
      size_of :
          (is_error ret ≡ true) ⊎ (length drv.rx ≡ offset + size)
          → is_error ret ≡ false
          → length drv.rx ≡ offset + size
      size_of (inl e) fine = absurd cc
      size_of (inr e) fine = e

      send :
          length drv.rx ≡ offset + size
          → IsSafe
              (Delivered rx_buff size k)
              (send_to_user env dev base rx_buff offset size drv.rx (record k { drv = drv }) t)
      send e =
          let inside : leb (offset + size) (length drv.rx) ≡ true = ground arith in
          rw inside (elim (Bool-cases (env.copy_to_user rx_buff size)) [
            | inl good ↦ rw good (
                inr (
                  take size (drop offset drv.rx),
                  refl,
                  omega (arith, length-take size (drop offset drv.rx), length-drop offset drv.rx),
                ))
            | inr bad ↦ rw bad (inl refl)
          ])

  exchange_blocks-Delivered :
      (tx_buff tx_bytes rx_buff rx_bytes : ℕ) (krx_buf ktx_buf : List ℕ) (k : Kernel) (t : Trace)
      → CopiesInPlace env
      → 0 < tx_bytes
      → 0 < rx_bytes
      → tx_bytes + rx_bytes < 2 ^ 32
      → length krx_buf ≡ tx_bytes + rx_bytes
      → length ktx_buf ≡ tx_bytes + rx_bytes
      → IsSafe
          (Delivered (rx_buff + tx_bytes) rx_bytes k)
          (exchange_blocks env dev base tx_buff tx_bytes rx_buff rx_bytes krx_buf ktx_buf k t)
  unfolding exchange_blocks
  exchange_blocks-Delivered tx_buff tx_bytes rx_buff rx_bytes krx_buf ktx_buf k t in_place a b small
        rx_size tx_size =
      let inside : leb tx_bytes (length ktx_buf) ≡ true = ground arith in
      let sent : List ℕ = (env.copy_from_user tx_buff (take tx_bytes ktx_buf)).1 in
      let tx : List ℕ = sent ++ drop tx_bytes ktx_buf in
      let total : tx_bytes + rx_bytes ≤ length tx = omega (
        arith,
        length-append sent (drop tx_bytes ktx_buf),
        in_place tx_buff (take tx_bytes ktx_buf),
        length-take tx_bytes ktx_buf,
        length-drop tx_bytes ktx_buf,
      ) in
      let P : Status × Kernel → Trace → Type 0 = Delivered (rx_buff + tx_bytes) rx_bytes k in
      rw inside (
        Spec-bind ⊥ _ P (spi_writeread dev base (some tx) tx_bytes (some krx_buf) rx_bytes k.drv) _
          t
          (spi_writeread-Filled dev base tx krx_buf tx_bytes rx_bytes k.drv t a b small total
            (omega (arith, rx_size)))
          λ r u done.
            reply-Delivered (rx_buff + tx_bytes) tx_bytes rx_bytes k r u (filled r u done))
    where
      filled :
          (r : Status × SpiTranData) (u : Trace)
          → (r.0 ≡ err_busy) ⊎ (IsReleased base u × Filled (length krx_buf) r u)
          → Filled (tx_bytes + rx_bytes) r u
      filled r u (inl e) = inl (rw e refl)
      filled r u (inr (x, inl e)) = inl e
      filled r u (inr (x, inr e)) = inr (e ∙ rx_size)

  -- With sizes that are not 0 and whose sum fits 32 bits, a heap that gives blocks of the size
  -- asked for and copies from the user that change their destination only, the call stays inside
  -- its blocks, whatever the controller answers, and if it succeeds the user has received as many
  -- bytes as asked for, in one copy to the address given plus the number of bytes sent.
  pub sys_trusty_spi_writeread-Delivered :
      (tx_buff tx_bytes rx_buff rx_bytes : ℕ) (k : Kernel) (t : Trace)
      → Allocates env
      → CopiesInPlace env
      → 0 < tx_bytes
      → 0 < rx_bytes
      → tx_bytes + rx_bytes < 2 ^ 32
      → IsSafe
          (Delivered (rx_buff + tx_bytes) rx_bytes k)
          (sys_trusty_spi_writeread env dev base tx_buff tx_bytes rx_buff rx_bytes k t)
  unfolding sys_trusty_spi_writeread
  sys_trusty_spi_writeread-Delivered tx_buff tx_bytes rx_buff rx_bytes k t sized in_place a b
        small =
      blocks (Option-cases (env.malloc 0 total)) (Option-cases (env.malloc 1 total))
    where
      total : ℕ
      total = (tx_bytes + rx_bytes) % 2 ^ 32

      blocks :
          (env.malloc 0 total ≡ none) ⊎ ((x : List ℕ) × (env.malloc 0 total ≡ some x))
          → (env.malloc 1 total ≡ none) ⊎ ((x : List ℕ) × (env.malloc 1 total ≡ some x))
          → IsSafe
              (Delivered (rx_buff + tx_bytes) rx_bytes k)
              (sys_trusty_spi_writeread env dev base tx_buff tx_bytes rx_buff rx_bytes k t)
      blocks (inl e) _ = rw (e, sys_trusty_spi_writeread) (inl refl)
      blocks (inr (x, e)) (inl f) = rw (e, sys_trusty_spi_writeread, f) (inl refl)
      blocks (inr (x, e)) (inr (y, f)) =
          rw (e, sys_trusty_spi_writeread, f)
            (exchange_blocks-Delivered tx_buff tx_bytes rx_buff rx_bytes x y k t in_place a b small
              (omega (arith, sized 0 total x e)) (omega (arith, sized 1 total y f)))
