-- ===== src/Mp/Delay.antt =====
-- mp_init.c: `wait_us`, which reads the time stamp counter until a time has passed. What the reads
-- find is a parameter.
use native.Mathlib.Decide.{dec_lt}
use trusty_platform_sand.Base.{
  ℕ, zero, suc, ◌+◌, ◌*◌, ◌/◌, ◌%◌, ◌^◌, ◌≤◌, ◌<◌, ◌≡◌, ◌≢◌, refl, true, false, Option, none, some,
  ltb, if◌then◌else◌, arith,
}

-- TSC_PER_MS of this file
abbrev pub tsc_per_ms : ℕ
tsc_per_ms = 2000000

-- `end_tsc`
abbrev pub end_tsc : ℕ → ℕ → ℕ
end_tsc val us = (val + us * tsc_per_ms % 2 ^ 64 / 1000) % 2 ^ 64

module _ (tsc : ℕ → ℕ) where
  -- `while (val < end_tsc)` from the given read on, on fuel; the answer is the last value read.
  unfoldable pub wait_loop : ℕ → ℕ → ℕ → Option ℕ
  wait_loop zero until read = none
  wait_loop (suc fuel) until read =
      let rest = wait_loop fuel until (read + 1) in
      if ltb (tsc read % 2 ^ 64) until then rest else some (tsc read % 2 ^ 64)

  unfoldable pub wait_us : ℕ → ℕ → Option ℕ
  unfolding wait_loop
  wait_us fuel us = wait_loop fuel (end_tsc (tsc 0 % 2 ^ 64) us) 0

  wait_loop-ends :
      (fuel until read n : ℕ)
      → read ≤ n
      → n < read + fuel
      → until ≤ tsc n % 2 ^ 64
      → (v : ℕ) × (wait_loop fuel until read ≡ some v) × (until ≤ v)
  unfolding wait_loop
  wait_loop-ends zero until read n lo hi late = absurd (omega arith)
  wait_loop-ends (suc fuel) until read n lo hi late = elim (dec_lt (tsc read % 2 ^ 64) until) [
    | yes early ↦
        let again : ltb (tsc read % 2 ^ 64) until ≡ true = ground arith in
        let not_here : read ≢ n = λ e. absurd (later e early) in
        let (v, e, p) =
          wait_loop-ends fuel until (read + 1) n (omega (arith, not_here)) (omega arith) late in
        (v, rw again e, p)
    | no here ↦
        let stop : ltb (tsc read % 2 ^ 64) until ≡ false = ground arith in
        (tsc read % 2 ^ 64, rw stop refl, omega arith)
  ]
    where
      later : read ≡ n → tsc read % 2 ^ 64 < until → ⊥
      later e early = ground (arith, e, late)

  -- When some read finds the end of the wait, the wait ends with fuel for the reads up to it, and on
  -- a time that is not before the end.
  pub wait_us-ends :
      (us n : ℕ)
      → end_tsc (tsc 0 % 2 ^ 64) us ≤ tsc n % 2 ^ 64
      → (v : ℕ) × (wait_us (n + 1) us ≡ some v) × (end_tsc (tsc 0 % 2 ^ 64) us ≤ v)
  unfolding wait_us
  wait_us-ends us n late =
      wait_loop-ends (n + 1) (end_tsc (tsc 0 % 2 ^ 64) us) 0 n (omega arith) (omega arith) late
