-- ===== src/Mp.antt =====
-- mp.c and utilities.c: the interrupts that a processor sends to the others, and the end of the
-- boot. The local APIC is seen through the calls that were made on it, the latest last.
pub mod Targets
pub mod Quiet
pub mod Delay
pub mod Start
mod Tests
use trusty_platform_sand.Base.{
  Option, some, ◌/◌, ◌%◌, ℕ, zero, suc, ◌+◌, ◌-◌, ◌^◌, Bool, true, false, List, [], ◌∷◌, ◌++◌, ◌==◌,
  if◌then◌else◌,
}
use trusty_platform_sand.Irq.{
  HandlerReturn, reschedule, no_reschedule, Table, register_int_handler, int_resch,
}

pub data Event : Type 0 where
  ipi_excluding_self : ℕ → Event
  ipi_to_cpu : ℕ → ℕ → Event
  self_ipi : ℕ → Event
  eoi handled_irq software_disabled : Event
  set_cr8 : ℕ → Event

pub record System : Type 0 where
  pub lk_boot_complete : Bool
  pub events : List Event

-- SMP_MAX_CPUS, MP_CPU_ALL_BUT_LOCAL, `get_lapic_id` and `sm_handle_irq`.
pub record Arch : Type 0 where
  pub smp_max_cpus : ℕ
  pub all_but_local : ℕ
  pub get_lapic_id : ℕ → ℕ
  pub sm_handle_irq : HandlerReturn

abbrev pub uint32_max : ℕ
uint32_max = 2 ^ 32 - 1

abbrev pub log : Event → System → System
log e s = record s { events = s.events ++ (e ∷ []) }

-- BIT_GET, which the code uses for the processors of a mask of 32 bits. The shift has no meaning in
-- C for a bit number from 32 on; here such a bit of a mask is clear.
abbrev pub bit_get : ℕ → ℕ → Bool
bit_get word bitno = word / 2 ^ bitno % 2 == 1

module _ (arch : Arch) where
  unfoldable pub send_reschedule_ipi : ℕ → System → System
  send_reschedule_ipi cpuid s =
      if s.lk_boot_complete
      then s
      else if cpuid == uint32_max
      then log (ipi_excluding_self int_resch) s
      else log (ipi_to_cpu (arch.get_lapic_id cpuid) int_resch) s

  -- The processors from `cpu_id` on
  unfoldable pub send_to_mask : ℕ → ℕ → ℕ → System → System
  unfolding send_reschedule_ipi
  send_to_mask zero cpu_id target s = s
  send_to_mask (suc left) cpu_id target s =
      send_to_mask left (cpu_id + 1) target
        (if bit_get target cpu_id then send_reschedule_ipi cpu_id s else s)

  unfoldable pub arch_mp_send_ipi : ℕ → System → System
  unfolding send_to_mask send_reschedule_ipi
  arch_mp_send_ipi target s =
      if target == arch.all_but_local
      then send_reschedule_ipi arch.all_but_local s
      else send_to_mask arch.smp_max_cpus 0 target s

  unfoldable pub x86_ipi_reschedule_handler : System → HandlerReturn × System
  x86_ipi_reschedule_handler s =
      let s' = log eoi s in
      if s'.lk_boot_complete
      then (arch.sm_handle_irq, log handled_irq (log (self_ipi int_resch) s'))
      else (reschedule, s')

  abbrev pub x86_ipi_generic_handler : HandlerReturn
  x86_ipi_generic_handler = no_reschedule

  -- WITH_SMP is set.
  unfoldable pub set_lk_boot_complete : System → System
  set_lk_boot_complete s =
      log software_disabled (log (set_cr8 0) (record s { lk_boot_complete = true }))

-- `arch_mp_init_percpu` after `lapic_id_init`; the handler is named by the first argument, and
-- `none` is the panic of `register_int_handler`.
unfoldable pub arch_mp_init_percpu : ℕ → Table → Option Table
arch_mp_init_percpu x86_ipi_reschedule_handler table =
    register_int_handler table int_resch (some x86_ipi_reschedule_handler) 0
