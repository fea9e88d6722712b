-- ===== src/Timer.antt =====
-- timer.c: the timer of the secure side, with WITH_SM_WALL and PLATFORM_HAS_DYNAMIC_TIMER set. The
-- normal side runs the timer from `back_timer`, which the wall shows it. A callback is named by a
-- number, and what it, the time stamp counter and `sm_handle_irq` answer is a parameter.
pub mod Tick
mod Tests
use trusty_platform_sand.Base.{
  ℕ, ◌+◌, ◌*◌, ◌/◌, ◌%◌, ◌^◌, Bool, Option, none, some, List, [], ◌∷◌, ◌++◌, if◌then◌else◌,
}
use trusty_platform_sand.Irq.{
  HandlerReturn, no_reschedule, Effect, run_handler, handle_irq, fw_int_to_ns, int_pit, Table,
  register_int_handler,
}

-- `struct bakcup_timer_t`
pub record BackupTimer : Type 0 where
  pub tv_ns : ℕ
  pub cv_ns : ℕ

-- MS_TO_NS, in a 64-bit word
unfoldable pub ms_to_ns : ℕ → ℕ
ms_to_ns ms = ms * 1000000 % 2 ^ 64

-- TSC_PER_MS
abbrev pub tsc_per_ms : ℕ
tsc_per_ms = 2200000

-- The static variables
pub record Timer : Type 0 where
  pub back_timer : BackupTimer
  pub timer_current_time : ℕ
  pub timer_delta_time : ℕ
  pub t_callback : Option ℕ
  pub callback_arg : ℕ

-- The argument is what `rdtsc` answers.
unfoldable pub current_time : ℕ → Timer → ℕ × Timer
current_time tsc s =
    let now = tsc % 2 ^ 64 / tsc_per_ms in (now % 2 ^ 32, record s { timer_current_time = now })

unfoldable pub current_time_hires : Timer → ℕ
current_time_hires s = s.timer_current_time * 1000 % 2 ^ 64

unfoldable pub update_bakcup_timer : ℕ → ℕ → Timer → Timer
unfolding ms_to_ns
update_bakcup_timer tv cv s = record s {
  back_timer = record { tv_ns = ms_to_ns tv; cv_ns = ms_to_ns cv };
}

unfoldable pub set_backup_timer : ℕ → Timer → Timer
unfolding update_bakcup_timer
set_backup_timer interval s = update_bakcup_timer 0 interval s

unfoldable pub stop_backup_timer : Timer → Timer
unfolding update_bakcup_timer
stop_backup_timer s = update_bakcup_timer 1 0 s

-- What the item of the wall holds after the callback
unfoldable pub update_wall_cb : Timer → BackupTimer
update_wall_cb s = record { tv_ns = s.back_timer.tv_ns; cv_ns = s.back_timer.cv_ns }

-- The first argument is `is_lk_boot_complete()`. The answer is always NO_ERROR.
unfoldable pub platform_set_oneshot_timer : Bool → Option ℕ → ℕ → ℕ → Timer → Timer
unfolding set_backup_timer
platform_set_oneshot_timer boot callback arg interval s =
    let s' = record s { t_callback = callback; callback_arg = arg; timer_delta_time = interval } in
    if boot then set_backup_timer interval s' else s'

unfoldable pub platform_stop_timer : Bool → Timer → Timer
unfolding stop_backup_timer
platform_stop_timer boot s = if boot then stop_backup_timer s else s

module _ (call : ℕ → ℕ → ℕ → HandlerReturn) (sm_handle_irq : HandlerReturn) where
  -- The first argument is `local_apic_vector_in_service(INT_PIT)`, the second the time stamp.
  unfoldable pub os_timer_tick : Bool → ℕ → Timer → (HandlerReturn × List Effect) × Timer
  unfolding current_time
  os_timer_tick in_service tsc s =
      if in_service
      then ((sm_handle_irq, fw_int_to_ns int_pit ++ (handle_irq ∷ [])), s)
      else elim s.t_callback [
        | none ↦ ((no_reschedule, []), s)
        | some callback ↦
            let (time, s') = current_time tsc s in
            ((call callback s.callback_arg time, run_handler callback s.callback_arg ∷ []), s')
      ]

-- `reg_timer_wall_item` on a processor: the items that are registered, by their processors
unfoldable pub reg_timer_wall_item : ℕ → List ℕ → List ℕ
reg_timer_wall_item arch_curr_cpu_num registered = registered ++ (arch_curr_cpu_num ∷ [])

-- `platform_init_timer`; a handler is named by a number, that of `os_timer_tick` the first
-- argument. `none` is the panic of `register_int_handler`.
unfoldable pub platform_init_timer : ℕ → ℕ → Timer → Table → Option (Timer × Table)
unfolding current_time
platform_init_timer tick tsc s table = elim (register_int_handler table int_pit (some tick) 0) [
  | none ↦ none
  | some table' ↦ some (record s { timer_current_time = (current_time tsc s).0 }, table')
]
