-- ===== src/Heci/Wait/Verdict.antt =====
-- What `wait_event` returns, and what it leaves as it was.
use trusty_platform_sand.Base.{
  ℕ, zero, suc, ◌≡◌, refl, ℤ, pos, negsuc, is_nonzero, true, Option, ◌∷◌, ◌==◌,
}
use trusty_platform_sand.Base.Io.{rd, wr, Device, Trace, Io, pure}
use trusty_platform_sand.Base.Io.Spec.{Spec, Spec-bind, Spec-if}
use trusty_platform_sand.Heci.Regs.{address}
use trusty_platform_sand.Heci.Wait.{
  is_positive, poll, wait_loop, wait_event, init_timer, is_dev_ready, is_dev_data_ready,
  is_interrupt_raised,
}

-- A result that is not 0: a positive result of the poll, or -1.
abbrev pub IsVerdict : ℤ → Type 0
IsVerdict r = is_nonzero r ≡ true

is_positive-IsVerdict : (r : ℤ) → is_positive r ≡ true → IsVerdict r
is_positive-IsVerdict (pos zero) h = cc
is_positive-IsVerdict (pos (suc n)) h = refl
is_positive-IsVerdict (negsuc n) h = refl

-- A property of the history that reads keep.
abbrev pub Reads : (Trace → Type 0) → Type 0
Reads I = (w a v : ℕ) (t : Trace) → I t → I (rd w a v ∷ t)

-- A property of the history that the writes to the timer keep.
abbrev pub Ticks : ℕ → (Trace → Type 0) → Type 0
Ticks hpet I =
    (v : ℕ) (t : Trace)
    → I t
    → I (wr 32 (address hpet 0x108) v ∷ t) × I (wr 32 (address hpet 0x10c) v ∷ t)

module _ (F : Type 0) (I : Trace → Type 0) (reads : Reads I) (dev : Device) where
  module _ (hpet : ℕ) (fun : Option (Io ℤ)) where
    -- The poll keeps the property.
    abbrev pub Polls : Type 0
    Polls = (t : Trace) → I t → Spec F (λ _ u. I u) (poll dev hpet fun t)

    wait_loop-IsVerdict :
        (fuel timeout t0 : ℕ) (t : Trace)
        → Polls
        → I t
        → Spec F (λ r u. IsVerdict r × I u) (wait_loop dev hpet fuel timeout t0 fun t)
    unfolding wait_loop
    wait_loop-IsVerdict zero timeout t0 t polls i = tt
    wait_loop-IsVerdict (suc fuel) timeout t0 t polls i =
        Spec-bind F (λ _ u. I u) (λ r u. IsVerdict r × I u) (poll dev hpet fun) _ t (polls t i)
          λ r u j.
            Spec-if F _ (is_positive r) _ _ u (λ p. (is_positive-IsVerdict r p, j))
              λ _.
                Spec-if F _ (timeout == 0) _ _ u
                  (λ _. wait_loop-IsVerdict fuel timeout t0 u polls j)
                  λ _.
                    Spec-if F (λ r u. IsVerdict r × I u) _ (pure (negsuc 0))
                      (wait_loop dev hpet fuel timeout t0 fun) _ (λ _. (refl, reads _ _ _ u j))
                      (λ _. wait_loop-IsVerdict fuel timeout t0 _ polls (reads _ _ _ u j))

    -- `wait_event` never returns 0, and keeps what reads, the writes to the timer and the poll keep.
    pub wait_event-IsVerdict :
        (fuel timeout : ℕ) (t : Trace)
        → Ticks hpet I
        → Polls
        → I t
        → Spec F (λ r u. IsVerdict r × I u) (wait_event dev hpet fuel timeout fun t)
    unfolding wait_event init_timer
    wait_event-IsVerdict fuel timeout t ticks polls i =
        wait_loop-IsVerdict fuel _ _ _ polls
          (reads _ _ _ _ ((ticks _ _ (reads _ _ _ _ ((ticks _ _ (ticks _ _ i).0).1))).1))

  -- The polls of the device only read.
  pub is_dev_ready-keeps :
      (base : ℕ) (t : Trace) → I t → Spec F (λ _ u. I u) (is_dev_ready dev base t)
  unfolding is_dev_ready
  is_dev_ready-keeps base t i = reads _ _ _ t i

  pub is_dev_data_ready-keeps :
      (base : ℕ) (t : Trace) → I t → Spec F (λ _ u. I u) (is_dev_data_ready dev base t)
  unfolding is_dev_data_ready
  is_dev_data_ready-keeps base t i = reads _ _ _ t i

  pub is_interrupt_raised-keeps :
      (base : ℕ) (t : Trace) → I t → Spec F (λ _ u. I u) (is_interrupt_raised dev base t)
  unfolding is_interrupt_raised
  is_interrupt_raised-keeps base t i = reads _ _ _ t i
