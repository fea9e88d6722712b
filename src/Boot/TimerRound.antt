-- ===== src/Boot/TimerRound.antt =====
-- The way of the secure timer's interrupt: the normal side makes the standard call of
-- lib/smc/smc_x86.c, which raises the interrupt; interrupts.c dispatches it, and timer.c serves it.
use mathlib.Core.List.{append-nil}
use trusty_platform_sand.Base.{
  ℕ, ◌/◌, ◌%◌, ◌^◌, ◌≡◌, refl, ap, ◌∙◌, ℤ, pos, Bool, true, false, Option, none, some, List, [],
  ◌∷◌, ◌++◌, ◌==◌, Bool-cases, inl, inr, if◌then◌else◌, arith,
}
use trusty_platform_sand.Base.Io.{Trace}
use trusty_platform_sand.Irq.{
  HandlerReturn, Effect, eoi, self_ipi, run_handler, handle_irq, fw_int_to_ns, Table, int_pit,
  platform_irq,
}
use trusty_platform_sand.Monitor.{Args, Sm, smc_x86_stdcall}
use trusty_platform_sand.Timer.{
  Timer, BackupTimer, os_timer_tick, platform_set_oneshot_timer, update_wall_cb, current_time,
  tsc_per_ms,
}
use trusty_platform_sand.Boot.Early.{Setup, Platform}
use trusty_platform_sand.Boot.Started.{IsStarted}

-- What the environment answers: the callbacks, the other handlers, `sm_handle_irq`, whether the
-- vector of the timer is in service, and the time stamp counter.
pub record World : Type 0 where
  pub callback : ℕ → ℕ → ℕ → HandlerReturn
  pub handler : ℕ → ℕ → HandlerReturn
  pub sm_handle_irq : HandlerReturn
  pub in_service : Bool
  pub tsc : ℕ

module _ (w : World) (tick : ℕ) (boot : Bool) where
  abbrev ticked : Timer → (HandlerReturn × List Effect) × Timer
  ticked s = os_timer_tick w.callback w.sm_handle_irq w.in_service w.tsc s

  -- The handlers, of which the one named `tick` is `os_timer_tick`
  abbrev pub run : Timer → ℕ → ℕ → HandlerReturn
  run s f arg = if f == tick then (ticked s).0.0 else w.handler f arg

  -- The effects, with those of `os_timer_tick` in the place of its call, and the timer behind them
  unfoldable pub perform : List Effect → Timer → List Effect × Timer
  perform [] s = ([], s)
  perform (run_handler f arg ∷ es) s =
      let here = perform es (ticked s).1 in
      let other = perform es s in
      if f == tick
      then ((ticked s).0.1 ++ here.0, here.1)
      else (run_handler f arg ∷ other.0, other.1)
  perform (eoi ∷ es) s = let rest = perform es s in (eoi ∷ rest.0, rest.1)
  perform (self_ipi v ∷ es) s = let rest = perform es s in (self_ipi v ∷ rest.0, rest.1)
  perform (handle_irq ∷ es) s = let rest = perform es s in (handle_irq ∷ rest.0, rest.1)

  -- An interrupt; `none` is a read outside the table.
  unfoldable pub interrupt : Table → ℕ → Timer → Option ((HandlerReturn × List Effect) × Timer)
  unfolding perform
  interrupt table vector s = elim (platform_irq (run s) w.sm_handle_irq boot table vector) [
    | none ↦ none
    | some served ↦ let (effects, s') = perform served.1 s in some ((served.0, effects), s')
  ]

  -- What follows the result of the call: the interrupt, if it was raised
  unfoldable pub raise :
      ℤ × Bool → Table → Timer → Option (ℤ × Option (HandlerReturn × List Effect) × Timer)
  unfolding interrupt
  raise (retval, true) table s = elim (interrupt table int_pit s) [
    | none ↦ none
    | some done_ ↦ some (retval, some done_.0, done_.1)
  ]
  raise (retval, false) table s = some (retval, none, s)

  -- The standard call, with the interrupt that it raises
  unfoldable pub stdcall :
      Sm → ℕ → Args → Table → Timer → Option (ℤ × Option (HandlerReturn × List Effect) × Timer)
  unfolding raise
  stdcall sm smc_sc_lk_timer args table s = raise (smc_x86_stdcall sm smc_sc_lk_timer args) table s

-- What the timer's interrupt does for a callback: it is called with its argument and the low 32 bits
-- of the counter's milliseconds, or the interrupt goes to the normal side, whose it was.
abbrev pub timer_served : World → ℕ → ℕ → HandlerReturn × List Effect
timer_served w callback arg =
    if w.in_service then (w.sm_handle_irq, fw_int_to_ns int_pit ++ (handle_irq ∷ [])) else (
      w.callback callback arg (w.tsc % 2 ^ 64 / tsc_per_ms % 2 ^ 32),
      run_handler callback arg ∷ [],
    )

-- The tick when the variables name a callback.
os_timer_tick-callback :
    (w : World) (tick callback : ℕ) (s : Timer)
    → s.t_callback ≡ some callback
    → ((ticked w tick true s).0 ≡ timer_served w callback s.callback_arg)
      × ((ticked w tick true s).1.back_timer ≡ s.back_timer)
unfolding os_timer_tick current_time
os_timer_tick-callback w tick callback s set = elim (Bool-cases w.in_service) [
  | inl e ↦ rw e (refl, refl)
  | inr e ↦ rw (e, set) (refl, refl)
]

-- After a one-shot timer is set, the callback and its argument are in the variables.
set_callback :
    (boot : Bool) (callback arg interval : ℕ) (s : Timer)
    → ((platform_set_oneshot_timer boot (some callback) arg interval s).t_callback ≡ some callback)
      × ((platform_set_oneshot_timer boot (some callback) arg interval s).callback_arg ≡ arg)
unfolding platform_set_oneshot_timer
set_callback true callback arg interval s = (refl, refl)
set_callback false callback arg interval s = (refl, refl)

perform-tick :
    (w : World) (tick : ℕ) (s : Timer)
    → (
      (run w tick true s tick 0, (perform w tick true (run_handler tick 0 ∷ []) s).0),
      (perform w tick true (run_handler tick 0 ∷ []) s).1,
    )
      ≡ ticked w tick true s
unfolding perform
perform-tick w tick s =
    let itself : (tick == tick) ≡ true = ground arith in
    rw (itself, append-nil (ticked w tick true s).0.1) refl

abbrev after_interrupt :
    Option ((HandlerReturn × List Effect) × Timer)
    → Option (ℤ × Option (HandlerReturn × List Effect) × Timer)
after_interrupt o = elim o [ none ↦ none | some done_ ↦ some (pos 0, some done_.0, done_.1) ]

module _ (setup : Setup) (bar : ℕ) (t : Trace) (unstarted p : Platform)
    (started : IsStarted setup bar t unstarted p) (w : World) where
  -- On a started platform, the timer's interrupt is the tick.
  interrupt-int_pit :
      (s : Timer)
      → interrupt w setup.tick true p.table int_pit s ≡ some (ticked w setup.tick true s)
  unfolding interrupt
  interrupt-int_pit s =
      ap
        (λ (o : Option (HandlerReturn × List Effect)). elim o [
          | none ↦ none
          | some served ↦ some (
            (served.0, (perform w setup.tick true served.1 s).0),
            (perform w setup.tick true served.1 s).1,
          )
        ])
        (started.irq (run w setup.tick true s) w.sm_handle_irq int_pit (omega arith))
      ∙ ap (λ r. some r) (perform-tick w setup.tick s)

  -- On a started platform, once the boot is complete, the standard call for the timer returns 0 and
  -- raises the timer's interrupt, which, after a one-shot timer was set at any time before, calls
  -- its callback with the argument and the low 32 bits of the counter's milliseconds, or goes back
  -- to the normal side when its vector is in service; every other standard call is refused with an
  -- error and raises nothing. The normal side finds on the wall what it found there before.
  pub stdcall-IsStarted :
      (sm : Sm) (smc_sc_lk_timer : ℕ) (args : Args) (before : Bool) (callback arg interval : ℕ)
      (s : Timer)
      → (s' : Timer) × (stdcall w setup.tick true sm smc_sc_lk_timer args p.table
            (platform_set_oneshot_timer before (some callback) arg interval s)
          ≡ some (
              if args.smc_nr == smc_sc_lk_timer
              then (pos 0, some (timer_served w callback arg), s')
              else (sm.err_undefined_smc, none, s')))
        × (update_wall_cb s'
            ≡ update_wall_cb (platform_set_oneshot_timer before (some callback) arg interval s))
  unfolding stdcall raise smc_x86_stdcall update_wall_cb
  stdcall-IsStarted sm smc_sc_lk_timer args before callback arg interval s =
      let set : Timer = platform_set_oneshot_timer before (some callback) arg interval s in
      let (c, a) = set_callback before callback arg interval s in
      let (served, wall) = os_timer_tick-callback w setup.tick callback set c in
      elim (Bool-cases (args.smc_nr == smc_sc_lk_timer)) [
        | inl e ↦
            let s' : Timer = (ticked w setup.tick true set).1 in
            let raised : smc_x86_stdcall sm smc_sc_lk_timer args ≡ (pos 0, true) = rw e refl in
            (
              s',
              ap (λ r. raise w setup.tick true r p.table set) raised
                  ∙ ap after_interrupt (interrupt-int_pit set)
                  ∙ ap (λ r. some (pos 0, some r, s')) (served ∙ ap (timer_served w callback) a)
                  ∙ rw e refl,
              ap (λ (b : BackupTimer). record { tv_ns = b.tv_ns; cv_ns = b.cv_ns }) wall,
            )
        | inr e ↦
            let refused : smc_x86_stdcall sm smc_sc_lk_timer args ≡ (sm.err_undefined_smc, false) =
              rw e refl in
            (set, ap (λ r. raise w setup.tick true r p.table set) refused ∙ rw e refl, refl)
      ]
