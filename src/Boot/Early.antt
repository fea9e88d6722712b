-- ===== src/Boot/Early.antt =====
-- platform.c: `platform_early_init`, which starts the parts of the platform in order, and
-- interrupts.c: `platform_init_interrupts`.
use trusty_platform_sand.Base.{ℕ, Option, none, some, List, [], ◌∷◌, ◌++◌}
use trusty_platform_sand.Base.Io.{Device, Io, pure, ◌>>=◌}
use trusty_platform_sand.Irq.{Table}
use trusty_platform_sand.Irq.Pic.{Pic, disable_pic}
use trusty_platform_sand.Timer.{Timer, platform_init_timer}
use trusty_platform_sand.Uart.Init.{Board, Console, init_uart}
use trusty_platform_sand.Boot.{Image, InitialMapping, platform_heap_init, heap_arena_init}

-- The calls of the kernel and the processor, in order.
pub data Call : Type 0 where
  x86_set_cr8 : ℕ → Call
  pmm_add_arena : ℕ → ℕ → Call
  local_apic_init : Call

-- What the start reads: the linker's symbols, the entry's address, the time stamp counter, the
-- place of the serial port, and the devices. The handler `os_timer_tick` is named by `tick`.
pub record Setup : Type 0 where
  pub image : Image
  pub entry_phys : ℕ
  pub tsc : ℕ
  pub tick : ℕ
  pub board : Board
  pub dev : Device
  pub ports : Device

-- The static variables of the parts
pub record Platform : Type 0 where
  pub kernel : InitialMapping
  pub all : InitialMapping
  pub pic : Pic
  pub timer : Timer
  pub table : Table
  pub heap_arena : ℕ × ℕ
  pub console : Console
  pub calls : List Call

abbrev call : Call → Platform → Platform
call c s = record s { calls = s.calls ++ (c ∷ []) }

module _ (setup : Setup) (fuel : ℕ) where
  unfoldable pub platform_init_interrupts : Platform → Io Platform
  platform_init_interrupts s = do
    pic ← disable_pic setup.ports
    pure (call (x86_set_cr8 0xF) (record s { pic = pic }))

  -- The steps behind the timer
  unfoldable pub start_memory : Platform → Io Platform
  start_memory s = do
    let arena = heap_arena_init setup.image s.kernel
    console ← init_uart setup.dev setup.ports setup.board fuel s.console
    pure (
        call local_apic_init (record (call (pmm_add_arena arena.0 arena.1) s) {
          heap_arena = arena;
          console = console;
        }))

  -- `none` is the panic of `platform_init_timer`.
  unfoldable pub platform_early_init : Platform → Io (Option Platform)
  unfolding platform_init_interrupts start_memory
  platform_early_init s = do
    let (kernel, all) = platform_heap_init setup.image setup.entry_phys s.kernel s.all
    s1 ← platform_init_interrupts (record s { kernel = kernel; all = all })
    λ t. elim (platform_init_timer setup.tick setup.tsc s1.timer s1.table) [
      | none ↦ pure none t
      | some started ↦
          (start_memory (record s1 { timer = started.0; table = started.1 }) >>= λ s2.
          pure (some s2))
            t
    ]
