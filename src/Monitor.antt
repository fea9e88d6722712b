-- ===== src/Monitor.antt =====
-- entry.c and lib/smc/smc_x86.c: the switch to the normal world and the calls that it makes. The
-- normal world behind the hypervisor call, the tables of the handlers and the fields of a call's
-- number are a parameter.
pub mod Answers
pub mod Vmcall
mod Tests
use trusty_platform_sand.Base.{
  ℕ, zero, suc, ℤ, pos, Bool, true, false, not, ◌&&◌, Option, none, some, List, [], ◌∷◌, ltb, ◌==◌,
  if◌then◌else◌, get_elem?,
}

-- `smc32_args_t`
pub record Args : Type 0 where
  pub smc_nr : ℕ
  pub params : List ℕ

-- A handler returns a result and can change the arguments.
abbrev pub Handler : Type 0
Handler = Args → ℤ × Args

-- A switch to the normal world: the result that it gets, and the call that it makes then.
pub record Switch : Type 0 where
  pub retval : ℤ
  pub made : Args

-- `world` takes the switches so far, the latest first, the result and the arguments.
pub record Sm : Type 0 where
  pub world : List Switch → ℤ → Args → Args
  pub is_smc64 : ℕ → Bool
  pub is_fastcall : ℕ → Bool
  pub entity : ℕ → ℕ
  pub function : ℕ → ℕ
  pub fastcall_table : ℕ → Handler
  pub smc_undefined : Handler
  pub err_not_supported : ℤ
  pub err_undefined_smc : ℤ

module _ (sm : Sm) where
  -- The call is for the secure world's scheduler.
  abbrev pub is_stdcall : ℕ → Bool
  is_stdcall nr = not (sm.is_smc64 nr) && not (sm.is_fastcall nr)

  -- The result of a call that stays in the loop
  unfoldable pub answer : Handler
  answer args =
      if sm.is_smc64 args.smc_nr
      then (sm.err_not_supported, args)
      else sm.fastcall_table (sm.entity args.smc_nr) args

  -- The loop on fuel, one for each switch
  unfoldable pub sm_sched_nonsecure : ℕ → ℤ → Args → List Switch → Option (Args × List Switch)
  unfolding answer
  sm_sched_nonsecure zero retval args h = none
  sm_sched_nonsecure (suc fuel) retval args h =
      let made = sm.world h retval args in
      let h' = record { retval = retval; made = made } ∷ h in
      let rest = sm_sched_nonsecure fuel (answer made).0 (answer made).1 h' in
      if is_stdcall made.smc_nr then some (made, h') else rest

  -- The table holds NULL for a function that is not there; `none` is a read outside it.
  unfoldable pub smc_fastcall_secure_monitor : List (Option Handler) → ℕ → Args → Option (ℤ × Args)
  smc_fastcall_secure_monitor table sm_nr_fastcall_functions args =
      let function = sm.function args.smc_nr in
      if ltb function sm_nr_fastcall_functions
      then elim (get_elem? table function) [
        | none ↦ none
        | some entry ↦ elim entry [
          | none ↦ some (sm.smc_undefined args)
          | some handler_fn ↦ some (handler_fn args)
        ]
      ]
      else some (sm.smc_undefined args)

  -- The result, and whether the interrupt of the timer was raised
  unfoldable pub smc_x86_stdcall : ℕ → Args → ℤ × Bool
  smc_x86_stdcall smc_sc_lk_timer args =
      if args.smc_nr == smc_sc_lk_timer then (pos 0, true) else (sm.err_undefined_smc, false)
