-- ===== src/Boot/Tests/Round.antt =====
-- The timer of the started platform: its call, with a callback that asks for a new schedule.
use trusty_platform_sand.Base.{◌≡◌, refl, true, false, pos, negsuc, some, [], ◌∷◌, arith}
use trusty_platform_sand.Irq.{no_reschedule, reschedule, run_handler}
use trusty_platform_sand.Monitor.{Sm}
use trusty_platform_sand.Timer.{Timer, platform_set_oneshot_timer, update_wall_cb}
use trusty_platform_sand.Boot.Early.{Platform}
use trusty_platform_sand.Boot.Started.{IsStarted, platform_early_init-IsStarted}
use trusty_platform_sand.Boot.TimerRound.{World, stdcall, stdcall-IsStarted}
use trusty_platform_sand.Boot.Tests.{setup, unstarted, unstarted-IsUnstarted}

abbrev platform : Platform
platform =
    (platform_early_init-IsStarted setup 0 0x9004 (λ t. refl) (λ t. refl) (omega arith) unstarted []
      unstarted-IsUnstarted).0

platform-IsStarted : IsStarted setup 0x9004 [] unstarted platform
platform-IsStarted =
    (platform_early_init-IsStarted setup 0 0x9004 (λ t. refl) (λ t. refl) (omega arith) unstarted []
      unstarted-IsUnstarted).3

-- Five milliseconds after the start of the counter
abbrev world : World
world = record {
  callback = λ f arg time. reschedule;
  handler = λ f arg. no_reschedule;
  sm_handle_irq = no_reschedule;
  in_service = false;
  tsc = 11000000;
}

abbrev sm : Sm
sm = record {
  world = λ h r a. a;
  is_smc64 = λ n. false;
  is_fastcall = λ n. false;
  entity = λ n. n;
  function = λ n. n;
  fastcall_table = λ n a. (pos 0, a);
  smc_undefined = λ a. (negsuc 0, a);
  err_not_supported = negsuc 3;
  err_undefined_smc = negsuc 0;
}

abbrev timer_set : Timer
timer_set = platform_set_oneshot_timer true (some 4) 8 10 unstarted.timer

stdcall-IsStarted_example :
    (s' : Timer) × (stdcall world 3 true sm 0x3F000000
        (record { smc_nr = 0x3F000000; params = [] })
        platform.table
        timer_set
      ≡ some (pos 0, some (reschedule, run_handler 4 8 ∷ []), s'))
    × (update_wall_cb s' ≡ update_wall_cb timer_set)
stdcall-IsStarted_example =
    stdcall-IsStarted setup 0x9004 [] unstarted platform platform-IsStarted world sm 0x3F000000
      (record { smc_nr = 0x3F000000; params = [] }) true 4 8 10 unstarted.timer
