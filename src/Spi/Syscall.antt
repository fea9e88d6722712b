-- ===== src/Spi/Syscall.antt =====
-- lib/syscall/syscall_x86.c: the system calls of the fingerprint application over lib/spi. The
-- heap and the copies from and to the user's memory are the kernel's, and a parameter.
pub mod Bounds
pub mod Line
pub mod Exchange
mod Tests
use trusty_platform_sand.Base.{
  ℕ, ◌+◌, ◌*◌, ◌%◌, ◌^◌, Bool, Option, none, some, List, ◌∷◌, ◌++◌, leb, if◌then◌else◌, length,
  take, drop,
}
use trusty_platform_sand.Base.Io.{Device, Io, pure, out_of_bounds, ◌>>=◌}
use trusty_platform_sand.Spi.{
  Status, no_error, err_no_memory, err_fault, is_error, SpiTranData, Half, spi_init, spi_set_cs,
  spi_read, spi_write, spi_writeread,
}

-- `malloc` takes which block of the call it is and its size, and gives what the memory holds.
-- `copy_from_user` takes the address and the bytes of the destination, and answers whether it
-- succeeded, with the bytes that are then there; `copy_to_user` takes the address and the size.
pub record Env : Type 0 where
  pub malloc : ℕ → ℕ → Option (List ℕ)
  pub copy_from_user : ℕ → List ℕ → Bool × List ℕ
  pub copy_to_user : ℕ → ℕ → Bool

-- The driver's data, and the bytes that went to the user with their address, the latest first.
pub record Kernel : Type 0 where
  pub drv : SpiTranData
  pub copied : List (ℕ × List ℕ)

module _ (env : Env) (dev : Device) (base : ℕ) where
  unfoldable pub sys_trusty_spi_init : Io (Unit {0})
  sys_trusty_spi_init = spi_init dev base

  unfoldable pub sys_trusty_spi_set_cs : Bool → Io (Unit {0})
  sys_trusty_spi_set_cs flag = spi_set_cs dev base flag

  -- The destination of `copy_from_user` when it takes the first `size` bytes of a block. A size past
  -- the block counts as out of bounds also where `copy_from_user` would refuse the user's range
  -- before it writes: the caller has not compared the size with the block in either case.
  unfoldable pub fill_from_user : ℕ → ℕ → List ℕ → Io (List ℕ)
  fill_from_user tx_buff size buf =
      if leb size (length buf)
      then pure ((env.copy_from_user tx_buff (take size buf)).1 ++ drop size buf)
      else out_of_bounds

  -- `copy_to_user` from an offset of a block, and the status that is returned.
  unfoldable pub send_to_user : ℕ → ℕ → ℕ → List ℕ → Kernel → Io (Status × Kernel)
  send_to_user rx_buff offset size buf k =
      if leb (offset + size) (length buf)
      then (if env.copy_to_user rx_buff size
          then pure
              (no_error, record k { copied = (rx_buff, take size (drop offset buf)) ∷ k.copied })
          else pure (err_fault, k))
      else out_of_bounds

  -- What follows a transfer that fills a block.
  unfoldable pub reply : ℕ → ℕ → ℕ → Kernel → Status × SpiTranData → Io (Status × Kernel)
  unfolding send_to_user
  reply rx_buff offset size k (ret, drv) =
      if is_error ret
      then pure (ret, record k { drv = drv })
      else send_to_user rx_buff offset size drv.rx (record k { drv = drv })

  unfoldable pub sys_trusty_spi_read : ℕ → ℕ → Kernel → Io (Status × Kernel)
  unfolding reply
  sys_trusty_spi_read rx_buff rx_bytes k = elim (env.malloc 0 rx_bytes) [
    | none ↦ pure (err_no_memory, k)
    | some buf ↦ (do r ← spi_read dev base (some buf) rx_bytes k.drv; reply rx_buff 0 rx_bytes k r)
  ]

  -- The result of the copy is only logged.
  unfoldable pub sys_trusty_spi_write : ℕ → ℕ → Kernel → Io (Status × Kernel)
  unfolding fill_from_user
  sys_trusty_spi_write tx_buff tx_bytes k = elim (env.malloc 0 tx_bytes) [
    | none ↦ pure (err_no_memory, k)
    | some buf ↦ (do
      tx ← fill_from_user tx_buff tx_bytes buf
      r ← spi_write dev base (some tx) tx_bytes k.drv
      pure (r.0, record k { drv = r.1 }))
  ]

  -- The transfer over two blocks.
  unfoldable pub exchange_blocks : ℕ → ℕ → ℕ → ℕ → List ℕ → List ℕ → Kernel → Io (Status × Kernel)
  unfolding fill_from_user reply
  exchange_blocks tx_buff tx_bytes rx_buff rx_bytes krx_buf ktx_buf k = do
    tx ← fill_from_user tx_buff tx_bytes ktx_buf
    r ← spi_writeread dev base (some tx) tx_bytes (some krx_buf) rx_bytes k.drv
    reply (rx_buff + tx_bytes) tx_bytes rx_bytes k r

  unfoldable pub sys_trusty_spi_writeread : ℕ → ℕ → ℕ → ℕ → Kernel → Io (Status × Kernel)
  unfolding exchange_blocks
  sys_trusty_spi_writeread tx_buff tx_bytes rx_buff rx_bytes k =
      let total_length = (tx_bytes + rx_bytes) % 2 ^ 32 in
      elim (env.malloc 0 total_length) [
        | none ↦ pure (err_no_memory, k)
        | some krx_buf ↦ elim (env.malloc 1 total_length) [
          | none ↦ pure (err_no_memory, k)
          | some ktx_buf ↦ exchange_blocks tx_buff tx_bytes rx_buff rx_bytes krx_buf ktx_buf k
        ]
      ]
