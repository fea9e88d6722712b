-- ===== src/Timer/Tick.antt =====
-- What the normal side sees of the timer, and when its tick reaches the callback.
use trusty_platform_sand.Base.{
  ℕ, ◌*◌, ◌/◌, ◌%◌, ◌^◌, ◌<◌, ◌≡◌, ap, Bool, true, false, some, [], ◌∷◌, arith,
}
use trusty_platform_sand.Irq.{HandlerReturn, run_handler}
use trusty_platform_sand.Timer.{
  Timer, BackupTimer, platform_set_oneshot_timer, platform_stop_timer, update_wall_cb,
  os_timer_tick, tsc_per_ms, ms_to_ns, current_time,
}

-- The wall shows a time that is past the event.
abbrev pub IsStopped : BackupTimer → Type 0
IsStopped b = b.cv_ns < b.tv_ns

module _ (call : ℕ → ℕ → ℕ → HandlerReturn) (sm_handle_irq : HandlerReturn) where
  -- For an interval that fits 64 bits in nanoseconds and a counter of 64 bits: after the boot, a
  -- one-shot timer shows its event on the wall with the time 0, and a stop shows a time that is
  -- past the event; but a stop, before the end of the boot or after it, does not take the callback
  -- away: a tick whose vector is not in service still calls it, with its argument and the low
  -- 32 bits of the counter's milliseconds.
  pub os_timer_tick-set_stop :
      (boot : Bool) (callback arg interval tsc : ℕ) (s : Timer)
      → interval * 1000000 < 2 ^ 64
      → tsc < 2 ^ 64
      → (update_wall_cb (platform_set_oneshot_timer true (some callback) arg interval s)
          ≡ record { tv_ns = 0; cv_ns = interval * 1000000 })
        × IsStopped (update_wall_cb (platform_stop_timer true s))
        × ((os_timer_tick call sm_handle_irq false tsc (
              platform_stop_timer boot
                (platform_set_oneshot_timer boot (some callback) arg interval s))).0
            ≡ (call callback arg (tsc / tsc_per_ms % 2 ^ 32), run_handler callback arg ∷ []))
  unfolding update_wall_cb platform_set_oneshot_timer platform_stop_timer os_timer_tick ms_to_ns
      current_time
  os_timer_tick-set_stop false callback arg interval tsc s fits small = (
    ap (λ (n : ℕ). record { tv_ns = 0; cv_ns = n }) (omega arith),
    omega arith,
    ap (λ (n : ℕ). (call callback arg (n / tsc_per_ms % 2 ^ 32), run_handler callback arg ∷ []))
        (omega arith),
  )
  os_timer_tick-set_stop true callback arg interval tsc s fits small = (
    ap (λ (n : ℕ). record { tv_ns = 0; cv_ns = n }) (omega arith),
    omega arith,
    ap (λ (n : ℕ). (call callback arg (n / tsc_per_ms % 2 ^ 32), run_handler callback arg ∷ []))
        (omega arith),
  )
