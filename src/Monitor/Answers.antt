-- ===== src/Monitor/Answers.antt =====
-- What the normal world gets for its calls, and when the loop ends.
use trusty_platform_sand.Base.{
  ℕ, zero, suc, ◌+◌, ◌<◌, ◌≤◌, ◌≡◌, ◌≢◌, inl, inr, refl, ◌∙◌, ap, sym, ℤ, true, false, Option, none,
  some, List, [], ◌∷◌, arith, ltb, length, get_elem?, get_elem?-ne-none, get_elem?-eq-none,
  Bool-cases, Option-cases,
}
use mathlib.Core.Option.{some-injective}
use mathlib.Core.Path.{subst}
use trusty_platform_sand.Monitor.{
  Args, Handler, Switch, Sm, is_stdcall, answer, sm_sched_nonsecure, smc_fastcall_secure_monitor,
}

module _ (sm : Sm) where
  -- The result and the arguments of a call that is not standard: one of 64 bits gets an error, and a
  -- fast one gets what the handler of its entity leaves.
  pub data Result : Args → ℤ → Args → Type 0 where
    of_smc64 :
        {made : Args} → sm.is_smc64 made.smc_nr ≡ true → Result made sm.err_not_supported made
    of_fastcall :
        {made args : Args} {retval : ℤ}
        → sm.is_smc64 made.smc_nr ≡ false
        → sm.is_fastcall made.smc_nr ≡ true
        → sm.fastcall_table (sm.entity made.smc_nr) made ≡ (retval, args)
        → Result made retval args

  -- The switches of a run that starts with a result and arguments, the latest first: the normal
  -- world answers each, and gets at the next one the result of the call that it made.
  pub data Run (retval : ℤ) (args : Args) : List Switch → Type 0 where
    first : Run retval args (record { retval = retval; made = sm.world [] retval args } ∷ [])
    next :
        {s : Switch} {h : List Switch} {r : ℤ} {a : Args}
        → Run retval args (s ∷ h)
        → Result s.made r a
        → Run retval args (record { retval = r; made = sm.world (s ∷ h) r a } ∷ s ∷ h)

  -- A call that is neither of 64 bits nor fast
  abbrev pub IsStandard : Args → Type 0
  IsStandard args = (sm.is_smc64 args.smc_nr ≡ false) × (sm.is_fastcall args.smc_nr ≡ false)

  -- The loop ended with a run whose latest call is standard, and which has at most `n` switches.
  abbrev pub Served : ℕ → ℤ → Args → Option (Args × List Switch) → Type 0
  Served n retval args r =
      (last : Args) × (s : Switch) × (h : List Switch) × (r ≡ some (last, s ∷ h))
      × (s.made ≡ last)
      × IsStandard last
      × Run retval args (s ∷ h)
      × (length (s ∷ h) ≤ n)

  is_stdcall-IsStandard : (args : Args) → is_stdcall sm args.smc_nr ≡ true → IsStandard args
  is_stdcall-IsStandard args e = ground (arith, e)

  IsStandard-is_stdcall : (args : Args) → IsStandard args → is_stdcall sm args.smc_nr ≡ true
  IsStandard-is_stdcall args (a, b) = rw (a, b) refl

  answer-Result :
      (made : Args)
      → is_stdcall sm made.smc_nr ≡ false
      → Result made (answer sm made).0 (answer sm made).1
  unfolding answer
  answer-Result made stays = elim (Bool-cases (sm.is_smc64 made.smc_nr)) [
    | inl wide ↦ rw wide (of_smc64 wide)
    | inr narrow ↦
        let fast : sm.is_fastcall made.smc_nr ≡ true = ground (arith, stays, narrow) in
        rw narrow (of_fastcall narrow fast refl)
  ]

  -- What the next switch of a run is made with: at first the result and the arguments that the run
  -- starts with, and later the result of the latest call.
  Pending : ℤ → Args → List Switch → ℤ → Args → Type 0
  Pending retval args [] r a = (r ≡ retval) × (a ≡ args)
  Pending retval args (s ∷ h) r a = Run retval args (s ∷ h) × Result s.made r a

  switch-Run :
      (retval : ℤ) (args : Args) (h : List Switch) (r : ℤ) (a : Args)
      → Pending retval args h r a
      → Run retval args (record { retval = r; made = sm.world h r a } ∷ h)
  unfolding Pending
  switch-Run retval args [] r a (e, f) = rw (e, f) first
  switch-Run retval args (s ∷ h) r a (run, result) = next run result

  ended :
      (n : ℕ) (retval : ℤ) (args : Args) (left : ℕ) (r : ℤ) (a : Args) (h : List Switch)
      → Pending retval args h r a
      → length h ≤ n
      → is_stdcall sm (sm.world h r a).smc_nr ≡ true
      → Served (n + 1) retval args (sm_sched_nonsecure sm (suc left) r a h)
  unfolding sm_sched_nonsecure
  ended n retval args left r a h p e std = (
    sm.world h r a,
    record { retval = r; made = sm.world h r a },
    h,
    rw std refl,
    refl,
    is_stdcall-IsStandard (sm.world h r a) std,
    switch-Run retval args h r a p,
    omega arith,
  )

  goes_on :
      (left : ℕ) (r : ℤ) (a : Args) (h : List Switch)
      → is_stdcall sm (sm.world h r a).smc_nr ≡ false
      → sm_sched_nonsecure sm (suc left) r a h
        ≡ sm_sched_nonsecure sm left
            (answer sm (sm.world h r a)).0
            (answer sm (sm.world h r a)).1
            (record { retval = r; made = sm.world h r a } ∷ h)
  unfolding sm_sched_nonsecure
  goes_on left r a h e = rw e refl

  -- If the normal world makes a standard call once it has been answered `n` times, whatever it got,
  -- then the loop started with a result and arguments ends, after at most `n + 1` switches, with the
  -- first standard call: every call before it was one of 64 bits, which got the error and its own
  -- arguments at the next switch, or a fast one, which got there the result and the arguments that
  -- the handler of its entity gave.
  pub sm_sched_nonsecure-Served :
      (n : ℕ) (retval : ℤ) (args : Args)
      → ((h : List Switch) (r : ℤ) (a : Args) → n ≤ length h → IsStandard (sm.world h r a))
      → Served (n + 1) retval args (sm_sched_nonsecure sm (suc n) retval args [])
  unfolding Pending
  sm_sched_nonsecure-Served n retval args ends = loop n retval args [] (refl, refl) (omega arith)
    where
      loop :
          (left : ℕ) (r : ℤ) (a : Args) (h : List Switch)
          → Pending retval args h r a
          → length h + left ≡ n
          → Served (n + 1) retval args (sm_sched_nonsecure sm (suc left) r a h)
      loop zero r a h p e =
          ended n retval args zero r a h p (omega arith)
            (IsStandard-is_stdcall (sm.world h r a) (ends h r a (omega arith)))
      loop (suc left) r a h p e =
          let made : Args = sm.world h r a in
          let latest : Switch = record { retval = r; made = made } in
          let rest = loop left (answer sm made).0 (answer sm made).1 (latest ∷ h) in
          elim (Bool-cases (is_stdcall sm made.smc_nr)) [
            | inl std ↦ ended n retval args (suc left) r a h p (omega arith) std
            | inr go_on ↦
                subst (Served (n + 1) retval args) (sym (goes_on (suc left) r a h go_on))
                  (rest (switch-Run retval args h r a p, answer-Result made go_on) (omega arith))
          ]

  -- With a table of as many entries as its length says, the monitor reads only inside it: it runs
  -- the handler of the function that the call names, and `smc_undefined` for a function that is
  -- past the table or has no handler.
  pub smc_fastcall_secure_monitor-inside :
      (table : List (Option Handler)) (args : Args)
      → ((handler_fn : Handler)
          → get_elem? table (sm.function args.smc_nr) ≡ some (some handler_fn)
          → smc_fastcall_secure_monitor sm table (length table) args ≡ some (handler_fn args))
        × (((handler_fn : Handler)
              → get_elem? table (sm.function args.smc_nr) ≢ some (some handler_fn))
            → smc_fastcall_secure_monitor sm table (length table) args
              ≡ some (sm.smc_undefined args))
  unfolding smc_fastcall_secure_monitor
  smc_fastcall_secure_monitor-inside table args =
      elim (Bool-cases (ltb (sm.function args.smc_nr) (length table))) [
        | inl inside ↦
            let within : sm.function args.smc_nr < length table = ground arith in
            elim (Option-cases (get_elem? table (sm.function args.smc_nr))) [
              | inl e ↦ absurd (get_elem?-ne-none table (sm.function args.smc_nr) within e)
              | inr (none, e) ↦ (λ handler_fn f. absurd (cc (e, f)), λ missing. rw (inside, e) refl)
              | inr (some entry, e) ↦ (
                λ handler_fn f.
                    let same : some entry ≡ some handler_fn = some-injective _ _ (sym e ∙ f) in
                    rw (inside, e) (ap (λ (r : Handler). some (r args)) (some-injective _ _ same)),
                λ missing. absurd (missing entry e),
              )
            ]
        | inr outside ↦
            let past : length table ≤ sm.function args.smc_nr = ground arith in
            let nothing : get_elem? table (sm.function args.smc_nr) ≡ none =
              get_elem?-eq-none table (sm.function args.smc_nr) past in
            (λ handler_fn f. absurd (cc (nothing, f)), λ missing. rw outside refl)
      ]
