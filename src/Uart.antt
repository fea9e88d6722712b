-- ===== src/Uart.antt =====
-- debug.c: the output of characters over the UART, with PRINT_USE_MMIO set, and the registers of
-- include/platform/uart.h. The spin lock makes a call of `platform_dputc` one step.
pub mod Lag
pub mod Flush
pub mod Init
pub mod Replay
pub mod BootLog
mod Tests
use trusty_platform_sand.Base.{
  ℕ, zero, suc, ◌+◌, ◌*◌, ◌%◌, ◌≡◌, Bool, List, ◌==◌, if◌then◌else◌, get_or, set, zeros,
}
use trusty_platform_sand.Base.Io.{Device, Io, pure, no_fuel, read, write, ◌>>=◌, ◌>>◌}
use trusty_platform_sand.Heci.Regs.{bits, address}

-- BUF_SIZE
abbrev pub buf_size : ℕ
buf_size = 4096

-- UART_REGISTER_THR, UART_REGISTER_LSR
abbrev pub uart_register_thr : ℕ
uart_register_thr = 0

abbrev pub uart_register_lsr : ℕ
uart_register_lsr = 5

-- The static variables: `uart_early_buf`, `put_idx` and `get_idx`.
pub record Uart : Type 0 where
  pub buf : List ℕ
  pub put_idx : ℕ
  pub get_idx : ℕ

pub initial : Uart
initial = record { buf = zeros buf_size; put_idx = 0; get_idx = 0 }

-- `lsr.bits.thre`
abbrev pub thre : ℕ → ℕ
thre lsr = bits lsr 5 1

-- The character goes behind the put index; a full buffer loses its oldest one.
unfoldable pub store_char : ℕ → Uart → Uart
store_char c u =
    let put = (u.put_idx + 1) % buf_size in
    let get = if put == u.get_idx then (u.get_idx + 1) % buf_size else u.get_idx in
    record { buf = set u.buf put c; put_idx = put; get_idx = get }

-- `mmio_base_addr` is 0 before `init_uart`.
module _ (dev : Device) (fuel mmio_base_addr : ℕ) where
  -- uart_mmio_get_reg, uart_mmio_set_reg
  abbrev pub uart_mmio_get_reg : ℕ → Io ℕ
  uart_mmio_get_reg reg_id = read dev 8 (address mmio_base_addr (reg_id * 4))

  abbrev pub uart_mmio_set_reg : ℕ → ℕ → Io (Unit {0})
  uart_mmio_set_reg reg_id val = write 8 (address mmio_base_addr (reg_id * 4)) val

  -- The wait for an empty holding register, with as many reads as the fuel
  unfoldable pub wait_thre : ℕ → Io (Unit {0})
  wait_thre zero = no_fuel
  wait_thre (suc rounds) =
      let again : Io (Unit {0}) = wait_thre rounds in
      do lsr ← uart_mmio_get_reg uart_register_lsr; if thre lsr == 0 then again else pure tt

  -- `while (put_idx != get_idx)`, with as many rounds as the first argument
  unfoldable pub drain : ℕ → Uart → Io Uart
  drain zero u = no_fuel
  drain (suc rounds) u = if u.put_idx == u.get_idx then pure u else do
    wait_thre fuel
    uart_mmio_set_reg uart_register_thr (get_or u.buf u.get_idx 0)
    drain rounds (record u { get_idx = (u.get_idx + 1) % buf_size })

  unfoldable pub uart_putc : ℕ → Uart → Io Uart
  uart_putc c u =
      if mmio_base_addr == 0 then pure (store_char c u) else drain (suc buf_size) (store_char c u)

  -- The first argument is `having_print_cb`.
  unfoldable pub platform_dputc : Bool → ℕ → Uart → Io Uart
  platform_dputc having_print_cb c u =
      if having_print_cb
      then pure u
      else if c == 0x0A
      then (uart_putc 0x0D u >>= λ v. uart_putc c v)
      else uart_putc c u
