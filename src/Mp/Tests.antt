-- ===== src/Mp/Tests.antt =====
-- Four processors, and code whose table register's image is at 0x30 of its page.
use trusty_platform_sand.Base.{◌+◌, ◌*◌, ◌≡◌, ◌≢◌, refl, true, false, some, [], ◌∷◌, ◌++◌, arith}
use trusty_platform_sand.Irq.{no_reschedule, int_resch}
use trusty_platform_sand.Mp.{
  bit_get, ipi_excluding_self, ipi_to_cpu, System, Arch, uint32_max, log, arch_mp_send_ipi,
  x86_ipi_reschedule_handler, set_lk_boot_complete,
}
use trusty_platform_sand.Mp.Targets.{members, interrupts, arch_mp_send_ipi-members}
use trusty_platform_sand.Mp.Quiet.{
  sent_to_others, sends, handles, start, then_, IsQuiet, set_lk_boot_complete-IsQuiet,
}
use trusty_platform_sand.Mp.Start.{
  copied, get, Symbols, Env, all_up, too_large, map_range, broadcast_startup, unmap,
  startup_hotpatch, x86_mp_init,
}
use trusty_platform_sand.Mp.Start.Patch.{startup_hotpatch_lem}
use trusty_platform_sand.Mp.Start.Wakes.{Outcome, x86_mp_init-Outcome}

abbrev arch : Arch
arch = record {
  smp_max_cpus = 4;
  all_but_local = uint32_max;
  get_lapic_id = λ c. 2 * c;
  sm_handle_irq = no_reschedule;
}

abbrev booting : System
booting = record { lk_boot_complete = false; events = [] }

-- The processors 1 and 3
mask_is_sent :
    (arch_mp_send_ipi arch 10 booting).events ≡ ipi_to_cpu 2 int_resch ∷ ipi_to_cpu 6 int_resch ∷ []
unfolding arch_mp_send_ipi
mask_is_sent = refl

arch_mp_send_ipi-members_example :
    (false ≡ false
      → 10 ≢ uint32_max
      → arch_mp_send_ipi arch 10 booting
        ≡ record booting { events = [] ++ interrupts arch (members (bit_get 10) 4 0) })
    × (false ≡ false
        → 10 ≡ uint32_max
        → arch_mp_send_ipi arch 10 booting ≡ log (ipi_excluding_self int_resch) booting)
    × (false ≡ true → arch_mp_send_ipi arch 10 booting ≡ booting)
arch_mp_send_ipi-members_example = arch_mp_send_ipi-members arch 10 booting refl (omega arith)

-- An interrupt is asked for and one is handled after the boot.
abbrev booted : System
booted = set_lk_boot_complete arch booting

abbrev asked : System
asked = arch_mp_send_ipi arch 10 booted

set_lk_boot_complete-IsQuiet_example :
    IsQuiet (sent_to_others []) (x86_ipi_reschedule_handler arch asked).1
set_lk_boot_complete-IsQuiet_example =
    set_lk_boot_complete-IsQuiet arch booting (x86_ipi_reschedule_handler arch asked).1
      (then_ (then_ start (sends 10 booted)) (handles asked))

abbrev symbols : Symbols
symbols = record {
  ap_entry_16 = 0x1000;
  ap_entry_32 = 0x1060;
  ap_gdtr = 0x1030;
  ap_gdt_table = 0x1040;
  ap_gdt_table_end = 0x1058;
  bytes = λ i. 0;
  real_run_addr = 0x400000;
  kernel_load_offset = 0x200000;
}

startup_hotpatch_lem_example :
    (16 * get 2 1 (startup_hotpatch symbols 0x97000 symbols.bytes) ≡ 0x97000)
    × (get 2 7 (startup_hotpatch symbols 0x97000 symbols.bytes) ≡ 0x30)
    × (get 2 0x30 (startup_hotpatch symbols 0x97000 symbols.bytes) ≡ 0x17)
    × (get 4 0x32 (startup_hotpatch symbols 0x97000 symbols.bytes) ≡ 0x97040)
    × (get 4 0x17 (startup_hotpatch symbols 0x97000 symbols.bytes) ≡ 0x97060)
    × (get 2 0x1B (startup_hotpatch symbols 0x97000 symbols.bytes) ≡ 8)
    × (get 4 0x1E (startup_hotpatch symbols 0x97000 symbols.bytes) ≡ 0x200000)
startup_hotpatch_lem_example =
    startup_hotpatch_lem symbols 0x97000 (omega arith) symbols.bytes (omega arith) refl
      (omega arith) (omega arith) (omega arith) (omega arith) (omega arith)

-- Every read of the counter finds one processor more.
abbrev env : Env
env = record {
  page = λ i. 0x90;
  maps = true;
  unmaps = true;
  page_size = 4096;
  smp_max_cpus = 4;
  cpu_waken_up = λ n. n + 1;
}

x86_mp_init-Outcome_example : Outcome env symbols 0x97000 3 (x86_mp_init env symbols 4 0x97000)
x86_mp_init-Outcome_example =
    x86_mp_init-Outcome env symbols 0x97000 3 (omega arith) (omega arith)
      (omega arith, omega arith, omega arith, omega arith, omega arith, omega arith)

-- It ends with the fourth read, with the processors up.
fourth_read_ends :
    x86_mp_init env symbols 4 0x97000
    ≡ some (
      all_up,
      map_range 0x97000 0xFFFFFFFF00097000
          ∷ broadcast_startup 0x97 (startup_hotpatch symbols 0x97000 (copied env symbols))
          ∷ unmap 0xFFFFFFFF00097000
          ∷ [],
    )
unfolding x86_mp_init
fourth_read_ends = refl

-- Code of more than a page: the page stays mapped.
too_large_stays_mapped :
    x86_mp_init env (record symbols { ap_gdt_table_end = 0x2001 }) 4 0x97000
    ≡ some (too_large, map_range 0x97000 0xFFFFFFFF00097000 ∷ [])
unfolding x86_mp_init
too_large_stays_mapped = refl
