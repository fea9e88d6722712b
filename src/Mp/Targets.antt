-- ===== src/Mp/Targets.antt =====
-- Which processors an interrupt goes to.
use mathlib.Core.List.{append-nil, append_assoc}
use trusty_platform_sand.Base.{
  ℕ, zero, suc, ◌+◌, ◌≤◌, ◌≡◌, ◌≢◌, refl, ◌∙◌, ap, sym, Bool, true, false, List, [], ◌∷◌, ◌++◌, map,
  ◌==◌, arith, if◌then◌else◌, Bool-cases, inl, inr,
}
use trusty_platform_sand.Irq.{int_resch}
use trusty_platform_sand.Mp.{
  bit_get, Event, ipi_excluding_self, ipi_to_cpu, System, Arch, uint32_max, log,
  send_reschedule_ipi, send_to_mask, arch_mp_send_ipi,
}

-- The processors of a mask, of `n` from a number on.
abbrev pub members : (ℕ → Bool) → ℕ → ℕ → List ℕ
members in_mask zero i = []
members in_mask (suc n) i =
    if in_mask i then i ∷ members in_mask n (i + 1) else members in_mask n (i + 1)

module _ (arch : Arch) where
  -- An interrupt to each processor of the mask
  abbrev pub interrupts : List ℕ → List Event
  interrupts cpus = map (λ c. ipi_to_cpu (arch.get_lapic_id c) int_resch) cpus

  pub send_complete :
      (cpuid : ℕ) (s : System) → s.lk_boot_complete ≡ true → send_reschedule_ipi arch cpuid s ≡ s
  unfolding send_reschedule_ipi
  send_complete cpuid s e =
      ap
        (λ (b : Bool).
          if b
          then s
          else if cpuid == uint32_max
          then log (ipi_excluding_self int_resch) s
          else log (ipi_to_cpu (arch.get_lapic_id cpuid) int_resch) s)
        e

  send-boots :
      (cpuid : ℕ) (s : System)
      → s.lk_boot_complete ≡ false
      → send_reschedule_ipi arch cpuid s ≡ (
          if cpuid == uint32_max
          then log (ipi_excluding_self int_resch) s
          else log (ipi_to_cpu (arch.get_lapic_id cpuid) int_resch) s)
  unfolding send_reschedule_ipi
  send-boots cpuid s e =
      ap
        (λ (b : Bool).
          if b
          then s
          else if cpuid == uint32_max
          then log (ipi_excluding_self int_resch) s
          else log (ipi_to_cpu (arch.get_lapic_id cpuid) int_resch) s)
        e

  send_to_mask-members :
      (left cpu_id target : ℕ) (s : System)
      → s.lk_boot_complete ≡ false
      → cpu_id + left ≤ uint32_max
      → send_to_mask arch left cpu_id target s
        ≡ record s { events = s.events ++ interrupts (members (bit_get target) left cpu_id) }
  unfolding send_to_mask
  send_to_mask-members zero cpu_id target s boots small =
      ap (λ (l : List Event). record s { events = l }) (sym (append-nil s.events))
  send_to_mask-members (suc left) cpu_id target s boots small =
      elim (Bool-cases (bit_get target cpu_id)) [
        | inr no_bit ↦
            rw no_bit (send_to_mask-members left (cpu_id + 1) target s boots (omega arith))
        | inl bit ↦
            let not_all : (cpu_id == uint32_max) ≡ false = ground arith in
            let e : Event = ipi_to_cpu (arch.get_lapic_id cpu_id) int_resch in
            let rest : List ℕ = members (bit_get target) left (cpu_id + 1) in
            rw (bit, send-boots cpu_id s boots, not_all)
              (send_to_mask-members left (cpu_id + 1) target (log e s) boots (omega arith)
                ∙ ap (λ (l : List Event). record s { events = l })
                    (append_assoc s.events (e ∷ []) (interrupts rest)))
      ]

  pub send_to_mask_complete :
      (left cpu_id target : ℕ) (s : System)
      → s.lk_boot_complete ≡ true
      → send_to_mask arch left cpu_id target s ≡ s
  unfolding send_to_mask
  send_to_mask_complete zero cpu_id target s e = refl
  send_to_mask_complete (suc left) cpu_id target s e = elim (Bool-cases (bit_get target cpu_id)) [
    | inl bit ↦
        rw (bit, send_complete cpu_id s e) (send_to_mask_complete left (cpu_id + 1) target s e)
    | inr bit ↦ rw bit (send_to_mask_complete left (cpu_id + 1) target s e)
  ]

  -- During the boot, with fewer than 2 ^ 32 processors, `arch_mp_send_ipi` sends one interrupt to
  -- each processor of the mask in their order, or to all others if the target is
  -- MP_CPU_ALL_BUT_LOCAL and that is UINT32_MAX; after the boot it sends none.
  pub arch_mp_send_ipi-members :
      (target : ℕ) (s : System)
      → arch.all_but_local ≡ uint32_max
      → arch.smp_max_cpus ≤ uint32_max
      → (s.lk_boot_complete ≡ false
          → target ≢ arch.all_but_local
          → arch_mp_send_ipi arch target s ≡ record s {
            events = s.events ++ interrupts (members (bit_get target) arch.smp_max_cpus 0);
          })
        × (s.lk_boot_complete ≡ false
            → target ≡ arch.all_but_local
            → arch_mp_send_ipi arch target s ≡ log (ipi_excluding_self int_resch) s)
        × (s.lk_boot_complete ≡ true → arch_mp_send_ipi arch target s ≡ s)
  unfolding arch_mp_send_ipi
  arch_mp_send_ipi-members target s all small = (
    λ boots some_cpus.
        let mask : (target == arch.all_but_local) ≡ false = ground arith in
        rw mask (send_to_mask-members arch.smp_max_cpus 0 target s boots (omega arith)),
    λ boots e.
        let others : (target == arch.all_but_local) ≡ true = ground arith in
        let is_max : (arch.all_but_local == uint32_max) ≡ true = ground arith in
        rw (others, send-boots arch.all_but_local s boots, is_max) refl,
    λ complete. elim (Bool-cases (target == arch.all_but_local)) [
      | inl e ↦ rw (e, send_complete arch.all_but_local s complete) refl
      | inr e ↦ rw e (send_to_mask_complete arch.smp_max_cpus 0 target s complete)
    ],
  )
