-- ===== src/Uart/Tests.antt =====
-- The UART on a line that is always ready.
use trusty_platform_sand.Base.{ℕ, ◌+◌, ◌≡◌, refl, [], ◌∷◌, ◌++◌, map, arith, length-replicate}
use trusty_platform_sand.Base.Io.{Device, Trace, done}
use trusty_platform_sand.Base.Io.Writes.{writes_to}
use trusty_platform_sand.Base.Io.Spec.{Ends}
use mathlib.Core.Option.{none}
use trusty_platform_sand.Uart.Init.{Board, Console}
use trusty_platform_sand.Uart.BootLog.{boot_log, boot_log_lem}
use trusty_platform_sand.Base.{zeros, min}
use trusty_platform_sand.Uart.{Uart, initial, store_char, uart_putc}
use trusty_platform_sand.Uart.Flush.{IsValid, pending, store_char-IsValid, uart_putc_total}
use trusty_platform_sand.Uart.Lag.{IsDrained, IsIdle, last_put, u8, on_line, print, print_is_behind}

abbrev line_ready : Device
line_ready t w a = 32

line_ready-IsIdle : IsIdle line_ready 0x9000
line_ready-IsIdle t = refl

initial-IsDrained : IsDrained initial
unfolding initial
initial-IsDrained = record {
  size = length-replicate {A = ℕ} 4096 0;
  index = omega arith;
  empty = refl;
}

-- "Hi" and a line feed
print_is_behind_example :
    (v : Uart) × (w : Trace) × (print line_ready 1 0x9000 (72 ∷ 105 ∷ 10 ∷ []) initial []
      ≡ done v w)
    × IsDrained v
    × (writes_to 0x9000 w ++ (u8 (last_put v) ∷ [])
        ≡ writes_to 0x9000 [] ++ (u8 (last_put initial) ∷ map u8 (on_line (72 ∷ 105 ∷ 10 ∷ []))))
print_is_behind_example =
    print_is_behind line_ready 0 0x9000 line_ready-IsIdle (omega arith) (72 ∷ 105 ∷ 10 ∷ []) initial
      [] initial-IsDrained

-- A buffer with two characters to send.
abbrev waiting : Uart
waiting = record { buf = zeros 4096; put_idx = 1; get_idx = 4095 }

waiting-IsValid : IsValid waiting
waiting-IsValid = record {
  size = length-replicate {A = ℕ} 4096 0;
  put_in = omega arith;
  get_in = omega arith;
}

store_char-IsValid_example :
    IsValid (store_char 72 waiting) × (pending (store_char 72 waiting) ≡ min (2 + 1) 4095)
store_char-IsValid_example = store_char-IsValid 72 waiting waiting-IsValid

uart_putc_total_example :
    Ends
      (record (store_char 72 waiting) { get_idx = (store_char 72 waiting).put_idx })
      (uart_putc line_ready 1 0x9000 72 waiting [])
uart_putc_total_example =
    uart_putc_total line_ready 0 0x9000 line_ready-IsIdle (omega arith) 72 waiting []
      waiting-IsValid

-- The configuration space shows the registers at 0x9000.
abbrev ports : Device
ports t w a = 0x9004

abbrev board : Board
board = record {
  serial_bus = 0;
  serial_dev = 0x18;
  serial_fun = 0;
  kernel_aspace_base = 0;
  vmm_alloc_physical = λ t p. none;
}

boot_log_lem_example :
    (c : Console) × (w : Trace) × (boot_log line_ready ports board 1 (72 ∷ 105 ∷ []) (10 ∷ []) []
      ≡ done c w)
    × (c.mmio_base_addr ≡ 0x9000)
    × (writes_to 0x9000 w ++ (u8 (last_put c.uart) ∷ [])
        ≡ writes_to 0x9000 []
          ++ map u8 (0 ∷ (on_line (72 ∷ 105 ∷ []) ++ (0x0A ∷ on_line (10 ∷ [])))))
boot_log_lem_example =
    boot_log_lem line_ready ports board 0 0x9004 (λ t. refl) line_ready-IsIdle (omega arith)
      (72 ∷ 105 ∷ []) (10 ∷ []) [] (unfold on_line in omega arith)
