-- ===== src/Boot/Tests.antt =====
-- An image at 2 MB of a mapping of 16 MB, whose last section ends inside a page.
mod Round
use Prim.Native.Nat.{bit_and}
use trusty_platform_sand.Base.{
  ℕ, ◌+◌, ◌*◌, ◌/◌, ◌%◌, ◌<◌, ◌≤◌, ◌≡◌, ◌≢◌, ◌↔◌, ◌⊎◌, refl, true, some, [], ◌∷◌, arith,
}
use trusty_platform_sand.Boot.{
  InitialMapping, Image, Machine, ready, acrn, vmm_signature, platform_update_pagetable,
  heap_arena_init, clear_sensitive_data, platform_init, is_sysenter_support,
}
use trusty_platform_sand.Boot.Mappings.{
  is_protected, is_non_secure, IsInside, platform_update_pagetable-protects,
}
use trusty_platform_sand.Boot.Arena.{RoundsUp, reserved, heap_arena_init-end}
use trusty_platform_sand.Base.{none}
use trusty_platform_sand.Base.Io.{Trace, done}
use trusty_platform_sand.Irq.{int_handler_table}
use trusty_platform_sand.Uart.{initial}
use trusty_platform_sand.Boot.Early.{Setup, Platform, platform_early_init}
use trusty_platform_sand.Boot.Started.{IsUnstarted, IsStarted, platform_early_init-IsStarted}
use trusty_platform_sand.Boot.Ready.{IsOld, platform_init-ready}

abbrev pub round_up : ℕ → ℕ
round_up x = (x + 4095) / 4096 * 4096

abbrev pub image : Image
image = record {
  start = 0x200000;
  end_ = 0x20A000;
  code_start = 0x201000;
  code_end = 0x202000;
  rodata_start = 0x202000;
  rodata_end = 0x203000;
  data_start = 0x203000;
  data_end = 0x204000;
  bss_start = 0x204000;
  bss_end = 0x209100;
  kernel_load_offset = 0x200000;
  vaddr_to_paddr = λ v. v + 0x1000000;
  paddr_to_kvaddr = λ p. p;
  page_align = round_up;
}

abbrev pub mapping : InitialMapping
mapping = record { phys = 0x1000000; virt = 0x200000; size = 0x1000000 }

round_up-RoundsUp : RoundsUp round_up
round_up-RoundsUp = record {
  aligned = λ x. omega arith;
  least = λ x. omega arith;
  close = λ x. omega arith;
}

mapping-IsInside : IsInside image mapping
mapping-IsInside = record {
  below = omega arith;
  ordered = omega arith;
  above = omega arith;
  small = omega arith;
}

platform_update_pagetable-protects_example :
    (is_protected (platform_update_pagetable image mapping) ≡ true)
    × ((is_non_secure 0x1200500 (platform_update_pagetable image mapping) ≡ true) ↔ (
        ((0x1000000 ≤ 0x1200500) × (0x1200500 < 0x1200000))
        ⊎ ((0x120A000 ≤ 0x1200500) × (0x1200500 < 0x2000000))))
platform_update_pagetable-protects_example =
    platform_update_pagetable-protects image mapping 0x1200500 mapping-IsInside

-- The arena ends one page past the mapping.
arena_is_too_large : heap_arena_init image mapping ≡ (0x120A000, 0xDF7000)
unfolding heap_arena_init
arena_is_too_large = refl

heap_arena_init-end_example :
    (reserved image mapping % 4096 ≡ 0
      → (heap_arena_init image mapping).0 + (heap_arena_init image mapping).1 ≡ 0x2000000)
    × (reserved image mapping % 4096 ≢ 0
        → (heap_arena_init image mapping).0 + (heap_arena_init image mapping).1 ≡ 0x2001000)
heap_arena_init-end_example =
    heap_arena_init-end image mapping round_up-RoundsUp refl refl (omega arith) (omega arith)

-- EDX has bit 0, but not bit 11.
sysenter_without_its_bit : is_sysenter_support 0x806EA 1 ≡ true
unfolding is_sysenter_support
sysenter_without_its_bit = refl

abbrev machine : Machine
machine = record { signature = vmm_signature acrn; eax = 0x806EA; edx = 1; vmm_alloc = some 0x5000 }

platform_init-ready_example :
    (platform_init image machine mapping
      ≡ ready 0x5000 acrn (platform_update_pagetable image mapping))
    ↔ ((machine.vmm_alloc ≡ some 0x5000)
        × (vmm_signature acrn ≡ vmm_signature acrn)
        × (bit_and 1 11 ≢ 0)
        × (IsOld 0x806EA → ⊥))
platform_init-ready_example = platform_init-ready image machine mapping 0x5000 acrn

-- The size of the block is its first four bytes.
secrets_are_cleared :
    clear_sensitive_data (6 ∷ 0 ∷ 0 ∷ 0 ∷ 7 ∷ 8 ∷ 9 ∷ [])
    ≡ some (0 ∷ 0 ∷ 0 ∷ 0 ∷ 0 ∷ 0 ∷ 9 ∷ [], true)
unfolding clear_sensitive_data
secrets_are_cleared = refl

-- A port that is empty, and a line that is ready.
abbrev pub setup : Setup
setup = record {
  image = image;
  entry_phys = 0x1000000;
  tsc = 2200000;
  tick = 3;
  board = record {
    serial_bus = 0;
    serial_dev = 0x18;
    serial_fun = 0;
    kernel_aspace_base = 0x100000;
    vmm_alloc_physical = λ t p. none;
  };
  dev = λ t w a. 32;
  ports = λ t w a. 0x9004;
}

abbrev pub unstarted : Platform
unstarted = record {
  kernel = mapping;
  all = mapping;
  pic = record { master_pic = 0; slave_pic = 0 };
  timer = record {
    back_timer = record { tv_ns = 0; cv_ns = 0 };
    timer_current_time = 0;
    timer_delta_time = 0;
    t_callback = none;
    callback_arg = 0;
  };
  table = int_handler_table;
  heap_arena = (0, 0);
  console = record { mmio_base_addr = 0; uart = initial };
  calls = [];
}

pub unstarted-IsUnstarted : IsUnstarted unstarted
unstarted-IsUnstarted = record { table = refl; console = refl }

platform_early_init-IsStarted_example :
    (p : Platform) × (u : Trace) × (platform_early_init setup 1 unstarted [] ≡ done (some p) u)
    × IsStarted setup 0x9004 [] unstarted p
platform_early_init-IsStarted_example =
    platform_early_init-IsStarted setup 0 0x9004 (λ t. refl) (λ t. refl) (omega arith) unstarted []
      unstarted-IsUnstarted
