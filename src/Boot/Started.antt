-- ===== src/Boot/Started.antt =====
-- The state in which `platform_early_init` leaves the parts of the platform.
use mathlib.Core.List.{append_assoc}
use trusty_platform_sand.Base.{
  ℕ, suc, ◌%◌, ◌^◌, ◌<◌, ◌≡◌, ◌≢◌, refl, ap, ◌∙◌, true, Option, none, some, [], ◌∷◌, ◌++◌,
  if◌then◌else◌, arith, pos, negsuc, leb,
}
use trusty_platform_sand.Base.Io.{Device, Trace, inp, outp, done, pure, ◌>>=◌}
use trusty_platform_sand.Base.Io.Spec.{bind-done}
use trusty_platform_sand.Irq.{
  Table, HandlerReturn, int_pit, int_vectors, int_handler_table, platform_irq,
  smc_intc_get_next_irq,
}
use trusty_platform_sand.Irq.Fresh.{timer_table, register_tick, routed, timer_irq, timer_table_scan}
use trusty_platform_sand.Irq.Pic.{Pic, pic1_data, pic2_data, disable_pic}
use trusty_platform_sand.Timer.{Timer, current_time, platform_init_timer}
use trusty_platform_sand.Uart.{initial}
use trusty_platform_sand.Uart.Init.{init_uart}
use trusty_platform_sand.Uart.Lag.{IsDrained, IsIdle}
use trusty_platform_sand.Uart.Replay.{initial-IsEarly}
use trusty_platform_sand.Uart.BootLog.{Shows, uart_base, init_uart-IsEarly}
use trusty_platform_sand.Boot.{heap_arena_init, platform_heap_init}
use trusty_platform_sand.Boot.Early.{
  x86_set_cr8, pmm_add_arena, local_apic_init, Setup, Platform, platform_early_init,
  platform_init_interrupts, start_memory,
}

-- The parts as the first instruction finds them
pub record IsUnstarted (s : Platform) : Type 0 where
  pub table : s.table ≡ int_handler_table
  pub console : s.console ≡ record { mmio_base_addr = 0; uart = initial }

-- What the masks of the interrupt controllers are when the history is `t`.
abbrev pub masks : Device → Trace → Pic
masks ports t =
    let a : ℕ = ports t 8 pic1_data % 2 ^ 8 in
    record { master_pic = a; slave_pic = ports (inp 8 pic1_data a ∷ t) 8 pic2_data % 2 ^ 8 }

-- The parts after the start: where interrupts go once the boot is complete, what the scan finds, the
-- saved masks, the UART, the arena, and the calls.
pub record IsStarted (setup : Setup) (bar : ℕ) (t : Trace) (s p : Platform) : Type 0 where
  pub irq :
      (run : ℕ → ℕ → HandlerReturn) (sm_handle_irq : HandlerReturn) (w : ℕ)
      → w < int_vectors
      → platform_irq run sm_handle_irq true p.table w ≡ some (routed run sm_handle_irq setup.tick w)
  pub scan :
      (start : ℕ)
      → smc_intc_get_next_irq p.table start ≡ (if leb start int_pit then pos int_pit else negsuc 0)
  pub pic : p.pic ≡ masks setup.ports t
  pub console_base : p.console.mmio_base_addr ≡ uart_base setup.board bar
  pub console_drained : IsDrained p.console.uart
  pub arena : p.heap_arena ≡ heap_arena_init setup.image p.kernel
  pub calls :
      p.calls
      ≡ s.calls
        ++ (x86_set_cr8 0xF ∷ pmm_add_arena p.heap_arena.0 p.heap_arena.1 ∷ local_apic_init ∷ [])

module _ (setup : Setup) (fuel bar : ℕ) (shows : Shows setup.ports bar)
    (idle : IsIdle setup.dev (uart_base setup.board bar))
    (mapped : uart_base setup.board bar ≢ 0) where
  -- The platform with its timer started
  abbrev timed : Platform → Trace → Platform
  timed s t =
      let (kernel, all) = platform_heap_init setup.image setup.entry_phys s.kernel s.all in
      record s {
        kernel = kernel;
        all = all;
        pic = masks setup.ports t;
        calls = s.calls ++ (x86_set_cr8 0xF ∷ []);
        timer = record s.timer { timer_current_time = (current_time setup.tsc s.timer).0 };
        table = timer_table setup.tick;
      }

  platform_init_timer-fresh :
      (s : Timer)
      → platform_init_timer setup.tick setup.tsc s int_handler_table
        ≡ some
            (record s { timer_current_time = (current_time setup.tsc s).0 }, timer_table setup.tick)
  unfolding platform_init_timer
  platform_init_timer-fresh s =
      ap
        (λ (o : Option Table). elim o [
          | none ↦ none
          | some table ↦
              some (record s { timer_current_time = (current_time setup.tsc s).0 }, table)
        ])
        (register_tick setup.tick)

  -- What `disable_pic` leaves of the ports
  abbrev disabled : Trace → Trace
  disabled t =
      outp 8 pic2_data 0xff
      ∷ outp 8 pic1_data 0xff
      ∷ inp 8 pic2_data (masks setup.ports t).slave_pic
      ∷ inp 8 pic1_data (masks setup.ports t).master_pic
      ∷ t

  platform_early_init-timed :
      (s : Platform) (t : Trace)
      → IsUnstarted s
      → platform_early_init setup (suc fuel) s t
        ≡ (start_memory setup (suc fuel) (timed s t) >>= λ s2. pure (some s2)) (disabled t)
  unfolding platform_early_init platform_init_interrupts disable_pic
  platform_early_init-timed s t start =
      let timer : platform_init_timer setup.tick setup.tsc s.timer s.table
          ≡ some (
            record s.timer { timer_current_time = (current_time setup.tsc s.timer).0 },
            timer_table setup.tick,
          ) =
        ap (platform_init_timer setup.tick setup.tsc s.timer) start.table
        ∙ platform_init_timer-fresh s.timer in
      let masked : Platform = record (timed s t) { timer = s.timer; table = s.table } in
      ap
        (λ (o : Option (Timer × Table)). elim o [
          | none ↦ pure none (disabled t)
          | some started ↦
              (start_memory setup (suc fuel)
                    (record masked { timer = started.0; table = started.1 })
                  >>= λ s2. pure (some s2))
                (disabled t)
        ])
        timer

  -- When the configuration space shows the UART at an address that is not 0 and the UART's holding
  -- register is empty at every read, `platform_early_init` with fuel for one read does not panic,
  -- from the parts as they are before the start. Then, once the boot is complete and whatever the
  -- handlers answer, the timer's interrupt runs its handler and every other vector in the table is
  -- forwarded; the scan finds the timer's vector from every start up to it and nothing from behind
  -- it; the saved masks are those that the controllers had; the UART has its base address and an
  -- empty buffer; and CR8 is set before the arena is added and the local APIC started.
  pub platform_early_init-IsStarted :
      (s : Platform) (t : Trace)
      → IsUnstarted s
      → (p : Platform) × (u : Trace) × (platform_early_init setup (suc fuel) s t ≡ done (some p) u)
        × IsStarted setup bar t s p
  unfolding start_memory
  platform_early_init-IsStarted s t start =
      let q : Platform = timed s t in
      let (v, drained, _, (u, e, _)) =
        init_uart-IsEarly setup.dev setup.ports setup.board fuel bar shows idle mapped [] initial
          (disabled t) (omega arith) initial-IsEarly in
      let arena : ℕ × ℕ = heap_arena_init setup.image q.kernel in
      let p : Platform = record q {
        heap_arena = arena;
        console = record { mmio_base_addr = uart_base setup.board bar; uart = v };
        calls = q.calls ++ (pmm_add_arena arena.0 arena.1 ∷ []) ++ (local_apic_init ∷ []);
      } in
      (
        p,
        u,
        platform_early_init-timed s t start
            ∙ bind-done (start_memory setup (suc fuel) q) (λ s2. pure (some s2)) (disabled t) u p
                (bind-done (init_uart setup.dev setup.ports setup.board (suc fuel) s.console) _
                  (disabled t) u p.console
                  (ap (λ c. init_uart setup.dev setup.ports setup.board (suc fuel) c (disabled t))
                      start.console
                    ∙ e)),
        record {
          irq = λ run handle w h. timer_irq run handle setup.tick w h;
          scan = λ from. timer_table_scan setup.tick from;
          pic = refl;
          console_base = refl;
          console_drained = drained;
          arena = refl;
          calls =
              append_assoc q.calls (pmm_add_arena arena.0 arena.1 ∷ []) (local_apic_init ∷ [])
              ∙ append_assoc s.calls (x86_set_cr8 0xF ∷ [])
                  (pmm_add_arena arena.0 arena.1 ∷ local_apic_init ∷ []);
        },
      )
