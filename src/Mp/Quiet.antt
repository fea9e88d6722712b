-- ===== src/Mp/Quiet.antt =====
-- No processor interrupts another one after the boot.
use mathlib.Core.List.{append-nil}
use trusty_platform_sand.Base.{
  ℕ, ◌≡◌, refl, ◌∙◌, ap, Bool, true, false, List, [], ◌∷◌, ◌++◌, if◌then◌else◌, ◌==◌, Bool-cases,
  inl, inr,
}
use trusty_platform_sand.Irq.{HandlerReturn, reschedule, int_resch}
use trusty_platform_sand.Mp.{
  Event, ipi_excluding_self, ipi_to_cpu, self_ipi, eoi, handled_irq, software_disabled, set_cr8,
  System, Arch, log, arch_mp_send_ipi, x86_ipi_reschedule_handler, set_lk_boot_complete,
}
use trusty_platform_sand.Mp.Targets.{send_complete, send_to_mask_complete}

-- The interrupts that went to other processors
pub sent_to_others : List Event → List Event
sent_to_others [] = []
sent_to_others (ipi_excluding_self v ∷ es) = ipi_excluding_self v ∷ sent_to_others es
sent_to_others (ipi_to_cpu c v ∷ es) = ipi_to_cpu c v ∷ sent_to_others es
sent_to_others (self_ipi v ∷ es) = sent_to_others es
sent_to_others (eoi ∷ es) = sent_to_others es
sent_to_others (handled_irq ∷ es) = sent_to_others es
sent_to_others (software_disabled ∷ es) = sent_to_others es
sent_to_others (set_cr8 v ∷ es) = sent_to_others es

-- A request to send an interrupt, an interrupt that is handled, and the end of the boot.
pub data Move (arch : Arch) : System → System → Type 0 where
  sends : (target : ℕ) (s : System) → Move arch s (arch_mp_send_ipi arch target s)
  handles : (s : System) → Move arch s (x86_ipi_reschedule_handler arch s).1
  completes : (s : System) → Move arch s (set_lk_boot_complete arch s)

pub data Moves (arch : Arch) : System → System → Type 0 where
  start : {s : System} → Moves arch s s
  then_ : {s s' s'' : System} → Moves arch s s' → Move arch s' s'' → Moves arch s s''

-- The boot is complete, and others got the interrupts `es`.
abbrev pub IsQuiet : List Event → System → Type 0
IsQuiet es s = (s.lk_boot_complete ≡ true) × (sent_to_others s.events ≡ es)

sent_to_others-append :
    (es fs : List Event) → sent_to_others (es ++ fs) ≡ sent_to_others es ++ sent_to_others fs
unfolding sent_to_others
sent_to_others-append [] fs = refl
sent_to_others-append (ipi_excluding_self v ∷ es) fs =
    ap (λ (l : List Event). ipi_excluding_self v ∷ l) (sent_to_others-append es fs)
sent_to_others-append (ipi_to_cpu c v ∷ es) fs =
    ap (λ (l : List Event). ipi_to_cpu c v ∷ l) (sent_to_others-append es fs)
sent_to_others-append (self_ipi v ∷ es) fs = sent_to_others-append es fs
sent_to_others-append (eoi ∷ es) fs = sent_to_others-append es fs
sent_to_others-append (handled_irq ∷ es) fs = sent_to_others-append es fs
sent_to_others-append (software_disabled ∷ es) fs = sent_to_others-append es fs
sent_to_others-append (set_cr8 v ∷ es) fs = sent_to_others-append es fs

-- An event that goes to no other processor
log-quiet :
    (e : Event) (s : System)
    → sent_to_others (e ∷ []) ≡ []
    → sent_to_others (log e s).events ≡ sent_to_others s.events
log-quiet e s q =
    sent_to_others-append s.events (e ∷ [])
    ∙ ap (λ (l : List Event). sent_to_others s.events ++ l) q
    ∙ append-nil (sent_to_others s.events)

module _ (arch : Arch) (es : List Event) where
  arch_mp_send_ipi-IsQuiet :
      (target : ℕ) (s : System) → IsQuiet es s → IsQuiet es (arch_mp_send_ipi arch target s)
  unfolding arch_mp_send_ipi
  arch_mp_send_ipi-IsQuiet target s (complete, q) =
      elim (Bool-cases (target == arch.all_but_local)) [
        | inl e ↦ rw (e, send_complete arch arch.all_but_local s complete) (complete, q)
        | inr e ↦
            rw (e, send_to_mask_complete arch arch.smp_max_cpus 0 target s complete) (complete, q)
      ]

  handler-IsQuiet : (s : System) → IsQuiet es s → IsQuiet es (x86_ipi_reschedule_handler arch s).1
  unfolding x86_ipi_reschedule_handler sent_to_others
  handler-IsQuiet s (complete, q) = go s.lk_boot_complete complete
    where
      after : System
      after = log eoi s

      -- Both ends of the handler
      go :
          (b : Bool)
          → b ≡ true
          → IsQuiet es
              (if◌then◌else◌ {A = HandlerReturn × System} b
                (arch.sm_handle_irq, log handled_irq (log (self_ipi int_resch) after))
                (reschedule, after)).1
      go true e = (
        complete,
        log-quiet handled_irq (log (self_ipi int_resch) after) refl
            ∙ log-quiet (self_ipi int_resch) after refl
            ∙ log-quiet eoi s refl
            ∙ q,
      )
      go false e = (complete, log-quiet eoi s refl ∙ q)

  completes-IsQuiet :
      (s : System) → sent_to_others s.events ≡ es → IsQuiet es (set_lk_boot_complete arch s)
  unfolding set_lk_boot_complete sent_to_others
  completes-IsQuiet s q = (
    refl,
    log-quiet software_disabled (log (set_cr8 0) s) refl ∙ log-quiet (set_cr8 0) s refl ∙ q,
  )

  moves-IsQuiet : {s s' : System} → Moves arch s s' → IsQuiet es s → IsQuiet es s'
  moves-IsQuiet start q = q
  moves-IsQuiet (then_ ms (sends target s)) q =
      arch_mp_send_ipi-IsQuiet target s (moves-IsQuiet ms q)
  moves-IsQuiet (then_ ms (handles s)) q = handler-IsQuiet s (moves-IsQuiet ms q)
  moves-IsQuiet (then_ ms (completes s)) q = completes-IsQuiet s (moves-IsQuiet ms q).1

-- After `set_lk_boot_complete`, whatever interrupts are asked for or handled, the boot stays
-- complete, and no other processor has got an interrupt that it had not got before.
pub set_lk_boot_complete-IsQuiet :
    (arch : Arch) (s s' : System)
    → Moves arch (set_lk_boot_complete arch s) s'
    → IsQuiet (sent_to_others s.events) s'
set_lk_boot_complete-IsQuiet arch s s' ms =
    moves-IsQuiet arch (sent_to_others s.events) ms
      (completes-IsQuiet arch (sent_to_others s.events) s refl)
