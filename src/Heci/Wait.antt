-- ===== src/Heci/Wait.antt =====
-- heci.c: the timer, the polls of the device and `wait_event`.
pub mod Verdict
pub mod Ready
use Prim.Native.Nat.{bit_or}
use trusty_platform_sand.Base.{
  refl, ℕ, zero, suc, ◌+◌, ◌-◌, ◌*◌, ◌%◌, ◌^◌, ◌≡◌, ◌≢◌, ℤ, pos, negsuc, is_nonzero, Bool, true,
  false, Option, none, some, leb, ◌==◌, if◌then◌else◌, arith,
}
use trusty_platform_sand.Base.Io.{
  Device, Trace, Io, Outcome, done, fault, stuck, pure, no_fuel, read, write, ◌>>=◌, ◌>>◌,
}
use trusty_platform_sand.Base.Io.Spec.{Ensures, Spec-bind, Spec-if, Spec_by_done}
use trusty_platform_sand.Heci.Regs.{address, h_csr, sec_csr_ha, dev_ctrl, host_ctrl}

-- CPMS, the clock cycles of a millisecond
abbrev pub cpms : ℕ
cpms = 19200

-- `r > 0`
abbrev pub is_positive : ℤ → Bool
is_positive (pos zero) = false
is_positive (pos (suc n)) = true
is_positive (negsuc n) = false

module _ (dev : Device) where
  abbrev pub heci_reg_read : ℕ → ℕ → Io ℕ
  heci_reg_read base offset = read dev 32 (address base offset)

  unfoldable pub is_dev_ready : ℕ → Io ℤ
  unfolding dev_ctrl
  is_dev_ready base = do
    data_word ← heci_reg_read base sec_csr_ha
    pure (if (dev_ctrl data_word).sec_rdy_hra == 0 then pos 0 else pos 1)

  unfoldable pub is_dev_data_ready : ℕ → Io ℤ
  unfolding dev_ctrl
  is_dev_data_ready base = do
    data_word ← heci_reg_read base sec_csr_ha
    pure (
        if (dev_ctrl data_word).sec_cbrp_hra == (dev_ctrl data_word).sec_cbwp_hra
        then pos 0
        else pos 1)

  unfoldable pub is_interrupt_raised : ℕ → Io ℤ
  unfolding host_ctrl
  is_interrupt_raised base = do
    data_word ← heci_reg_read base h_csr
    pure (if (host_ctrl data_word).h_is == 0 then pos 0 else pos 1)

module _ (dev : Device) (hpet_mmio_base_va : ℕ) where
  unfoldable pub init_timer : Io (Unit {0})
  init_timer = do
    write 32 (address hpet_mmio_base_va 0x108) 0
    write 32 (address hpet_mmio_base_va 0x10c) 0
    reg ← read dev 32 (address hpet_mmio_base_va 0x10)
    write 32 (address hpet_mmio_base_va 0x10c) (bit_or reg 1)

  -- ClockCycles()
  abbrev pub clock_cycles : Io ℕ
  clock_cycles = read dev 32 (address hpet_mmio_base_va 0xf0)

  -- The call of `fun`, if it is not NULL.
  abbrev pub poll : Option (Io ℤ) → Io ℤ
  poll none = pure (pos 0)
  poll (some fun) = fun

  -- The loop, with as many rounds as the fuel. `timeout` is in clock cycles.
  unfoldable pub wait_loop : ℕ → ℕ → ℕ → Option (Io ℤ) → Io ℤ
  wait_loop zero timeout t0 fun = no_fuel
  wait_loop (suc fuel) timeout t0 fun =
      let again : Io ℤ = wait_loop fuel timeout t0 fun in
      do
        res ← poll fun
        if is_positive res then pure res else if timeout == 0 then again else do
          now ← clock_cycles
          let elapsed = (now + 2 ^ 32 - t0) % 2 ^ 32
          if leb timeout elapsed then pure (negsuc 0) else again

  unfoldable pub wait_event : ℕ → ℕ → Option (Io ℤ) → Io ℤ
  wait_event fuel timeout fun = do
    init_timer
    t0 ← clock_cycles
    wait_loop fuel (timeout * cpms % 2 ^ 32) t0 fun
