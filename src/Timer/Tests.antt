-- ===== src/Timer/Tests.antt =====
-- A one-shot timer of five milliseconds.
use trusty_platform_sand.Base.{ℕ, ◌≡◌, true, false, some, none, [], ◌∷◌, arith}
use trusty_platform_sand.Irq.{HandlerReturn, no_reschedule, reschedule, run_handler}
use trusty_platform_sand.Timer.{
  Timer, platform_set_oneshot_timer, platform_stop_timer, update_wall_cb, os_timer_tick,
}
use trusty_platform_sand.Timer.Tick.{IsStopped, os_timer_tick-set_stop}

abbrev fresh : Timer
fresh = record {
  back_timer = record { tv_ns = 0; cv_ns = 0 };
  timer_current_time = 0;
  timer_delta_time = 0;
  t_callback = none;
  callback_arg = 0;
}

abbrev call : ℕ → ℕ → ℕ → HandlerReturn
call f a time = reschedule

os_timer_tick-set_stop_example :
    (update_wall_cb (platform_set_oneshot_timer true (some 7) 8 5 fresh)
      ≡ record { tv_ns = 0; cv_ns = 5000000 })
    × IsStopped (update_wall_cb (platform_stop_timer true fresh))
    × ((os_timer_tick call no_reschedule false 6600000
          (platform_stop_timer true (platform_set_oneshot_timer true (some 7) 8 5 fresh))).0
        ≡ (reschedule, run_handler 7 8 ∷ []))
os_timer_tick-set_stop_example =
    os_timer_tick-set_stop call no_reschedule true 7 8 5 6600000 fresh (omega arith) (omega arith)
