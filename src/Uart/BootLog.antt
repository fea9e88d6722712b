-- ===== src/Uart/BootLog.antt =====
-- The output of the start: what is put before `init_uart`, the call, and what is put after it.
use mathlib.Core.List.{append_assoc, map-append}
use trusty_platform_sand.Base.{
  ℕ, suc, ◌+◌, ◌*◌, ◌/◌, ◌%◌, ◌^◌, ◌<◌, ◌≡◌, ◌≢◌, refl, ap, sym, ◌∙◌, List, [], ◌∷◌, ◌++◌, length,
  arith, map,
}
use trusty_platform_sand.Base.Io.{Device, Trace, inp, outp, Io, done, pure, ◌>>=◌}
use trusty_platform_sand.Base.Io.Spec.{EndsIn, bind-done}
use trusty_platform_sand.Base.Io.Writes.{writes_to}
use trusty_platform_sand.Heci.Regs.{address}
use trusty_platform_sand.Uart.{Uart, initial, buf_size, store_char, uart_putc}
use trusty_platform_sand.Pci.{
  config_data_register, config_address_register, config_address, config_address_word, clear_low,
  pci_read32,
}
use trusty_platform_sand.Uart.Init.{Board, Console, uart_io_base, init_uart}
use trusty_platform_sand.Uart.Lag.{print_is_behind, IsDrained, IsIdle, last_put, u8, on_line, print}
use trusty_platform_sand.Uart.Replay.{IsEarly, initial-IsEarly, print-IsEarly, putc_flushes}

-- The output before `init_uart`, the call, and the output after it.
unfoldable pub boot_log : Device → Device → Board → ℕ → List ℕ → List ℕ → Io Console
boot_log dev ports board fuel cs ds = do
  early ← print dev fuel 0 cs initial
  c ← init_uart dev ports board fuel (record { mmio_base_addr = 0; uart = early })
  uart ← print dev fuel c.mmio_base_addr ds c.uart
  pure (record c { uart = uart })

-- Where the registers are when the configuration space answers `bar`.
abbrev pub uart_base : Board → ℕ → ℕ
uart_base board bar = (board.kernel_aspace_base + bar / 16 * 16) % 2 ^ 64

-- Every read of the data port answers `bar`.
abbrev pub Shows : Device → ℕ → Type 0
Shows ports bar = (t : Trace) → ports t 32 config_data_register % 2 ^ 32 ≡ bar

module _ (dev ports : Device) (board : Board) (fuel bar : ℕ) (shows : Shows ports bar) where
  abbrev base : ℕ
  base = uart_base board bar

  module _ (idle : IsIdle dev base) (mapped : base ≢ 0) where
    abbrev on : Trace → List ℕ
    on t = writes_to (address base 0) t

    uart_io_base-Shows :
        (t : Trace)
        → EndsIn (λ w. on w ≡ on t) (bar / 16 * 16) (uart_io_base dev ports board (suc fuel) t)
    unfolding uart_io_base pci_read32 writes_to
    uart_io_base-Shows t =
        let w : ℕ =
          config_address_word
            (config_address board.serial_bus board.serial_dev board.serial_fun 0x10) in
        let u : Trace = outp 32 config_address_register (clear_low w % 2 ^ 32) ∷ t in
        (
          inp 32 config_data_register bar ∷ u,
          ap (λ n. done (n / 16 * 16) (inp 32 config_data_register n ∷ u)) (shows u),
          refl,
        )

    pub init_uart-IsEarly :
        (cs : List ℕ) (u : Uart) (t : Trace)
        → length cs + 1 < buf_size
        → IsEarly cs u
        → (v : Uart) × IsDrained v
          × (last_put v ≡ 0x0A)
          × EndsIn
              (λ w. on w ≡ on t ++ map u8 (0 ∷ cs))
              (record { mmio_base_addr = base; uart = v })
              (init_uart dev ports board (suc fuel) (record { mmio_base_addr = 0; uart = u }) t)
    unfolding init_uart
    init_uart-IsEarly cs u t room h =
        let (x, e, same) = uart_io_base-Shows t in
        let (drained, last, (w, d, p)) =
          putc_flushes dev fuel base idle mapped 0x0A cs u x room h in
        let v : Uart = record (store_char 0x0A u) { get_idx = (store_char 0x0A u).put_idx } in
        (
          v,
          drained,
          last,
          (
            w,
            bind-done (uart_io_base dev ports board (suc fuel)) _ t x (bar / 16 * 16) e
                ∙ bind-done (uart_putc dev (suc fuel) base 0x0A u) _ x w v d,
            p ∙ ap (λ (l : List ℕ). l ++ map u8 (0 ∷ cs)) same,
          ),
        )

    -- On a device whose base address is not 0 after `init_uart` and whose holding register is
    -- empty at every read, with fuel for one read and early output of less than 4095 characters on
    -- the line: the run of the early output, `init_uart` and the later output ends, at the base
    -- address that the configuration space told, and the line has received since a NUL and every
    -- character of the early output, a line feed and the later output, but for the last one, which
    -- is still to be sent.
    pub boot_log_lem :
        (cs ds : List ℕ) (t : Trace)
        → length (on_line cs) + 1 < buf_size
        → (c : Console) × (w : Trace) × (boot_log dev ports board (suc fuel) cs ds t ≡ done c w)
          × (c.mmio_base_addr ≡ base)
          × (writes_to (address base 0) w ++ (u8 (last_put c.uart) ∷ [])
              ≡ writes_to (address base 0) t ++ map u8 (0 ∷ (on_line cs ++ (0x0A ∷ on_line ds))))
    unfolding boot_log
    boot_log_lem cs ds t room =
        let (u, e, h) =
          print-IsEarly dev (suc fuel) cs [] initial t (omega arith) initial-IsEarly in
        let (v, drained, last, (x, d, p)) = init_uart-IsEarly (on_line cs) u t room h in
        let (v', w, f, _, bytes) = print_is_behind dev fuel base idle mapped ds v x drained in
        let all : List ℕ = on_line ds in
        (
          record { mmio_base_addr = base; uart = v' },
          w,
          bind-done (print dev (suc fuel) 0 cs initial) _ t t u e
              ∙ bind-done
                  (init_uart dev ports board (suc fuel) (record { mmio_base_addr = 0; uart = u })) _
                  t x (record { mmio_base_addr = base; uart = v }) d
              ∙ bind-done (print dev (suc fuel) base ds v) _ x w v' f,
          refl,
          bytes
              ∙ ap (λ n. on x ++ (u8 n ∷ map u8 all)) last
              ∙ ap (λ (l : List ℕ). l ++ map u8 (0x0A ∷ all)) p
              ∙ append_assoc (on t) (map u8 (0 ∷ on_line cs)) (map u8 (0x0A ∷ all))
              ∙ ap (λ (l : List ℕ). on t ++ l) (sym (map-append u8 (0 ∷ on_line cs) (0x0A ∷ all))),
        )
