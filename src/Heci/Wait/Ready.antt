-- ===== src/Heci/Wait/Ready.antt =====
-- A poll that succeeds at once ends the wait.
use trusty_platform_sand.Base.{ℕ, suc, ℤ, pos, some, refl}
use trusty_platform_sand.Base.Io.{Device, Trace, Io}
use trusty_platform_sand.Base.Io.Spec.{Ends, Ends-bind}
use trusty_platform_sand.Heci.Wait.{wait_event, wait_loop, init_timer}

module _ (dev : Device) (hpet fuel timeout : ℕ) (fun : Io ℤ) where
  pub wait_event-Ends :
      ((t : Trace) → Ends (pos 1) (fun t))
      → (t : Trace) → Ends (pos 1) (wait_event dev hpet (suc fuel) timeout (some fun) t)
  unfolding wait_event init_timer wait_loop
  wait_event-Ends polls t = Ends-bind fun _ _ (pos 1) (pos 1) (polls _) (λ u. (u, refl))
