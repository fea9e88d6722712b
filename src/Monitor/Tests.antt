-- ===== src/Monitor/Tests.antt =====
-- A normal world that makes a call of 64 bits, then a fast call, then a standard call.
use trusty_platform_sand.Base.{
  ℕ, ◌≤◌, ◌≡◌, ◌≢◌, refl, ℤ, pos, negsuc, ◌==◌, none, some, List, [], ◌∷◌, length, get_elem?, arith,
}
use trusty_platform_sand.Monitor.{
  Args, Handler, Switch, Sm, sm_sched_nonsecure, smc_fastcall_secure_monitor,
}
use trusty_platform_sand.Monitor.Answers.{
  IsStandard, Served, sm_sched_nonsecure-Served, smc_fastcall_secure_monitor-inside,
}

abbrev call_of : ℕ → Args
call_of nr = record { smc_nr = nr; params = [] }

abbrev calls : List Switch → ℤ → Args → Args
calls [] r a = call_of 64
calls (s ∷ []) r a = call_of 32
calls (s ∷ s' ∷ h) r a = call_of 1

abbrev sm : Sm
sm = record {
  world = calls;
  is_smc64 = λ n. n == 64;
  is_fastcall = λ n. n == 32;
  entity = λ n. n;
  function = λ n. n;
  fastcall_table = λ n a. (pos 7, a);
  smc_undefined = λ a. (negsuc 0, a);
  err_not_supported = negsuc 3;
  err_undefined_smc = negsuc 0;
}

-- The results that the three switches give: the latest is the one of the fast call.
results_are_given :
    sm_sched_nonsecure sm 3 (pos 0) (call_of 0) []
    ≡ some (
      call_of 1,
      record { retval = pos 7; made = call_of 1 }
          ∷ record { retval = negsuc 3; made = call_of 32 }
          ∷ record { retval = pos 0; made = call_of 64 }
          ∷ [],
    )
unfolding sm_sched_nonsecure
results_are_given = refl

calls-IsStandard : (h : List Switch) (r : ℤ) (a : Args) → 2 ≤ length h → IsStandard sm (calls h r a)
calls-IsStandard [] r a long = absurd (omega arith)
calls-IsStandard (s ∷ []) r a long = absurd (omega arith)
calls-IsStandard (s ∷ s' ∷ h) r a long = (refl, refl)

sm_sched_nonsecure-Served_example :
    Served sm 3 (pos 0) (call_of 0) (sm_sched_nonsecure sm 3 (pos 0) (call_of 0) [])
sm_sched_nonsecure-Served_example =
    sm_sched_nonsecure-Served sm 2 (pos 0) (call_of 0) calls-IsStandard

abbrev reply : Handler
reply a = (pos 9, a)

smc_fastcall_secure_monitor-inside_example :
    ((handler_fn : Handler)
      → get_elem? (some reply ∷ none ∷ []) 5 ≡ some (some handler_fn)
      → smc_fastcall_secure_monitor sm (some reply ∷ none ∷ []) 2 (call_of 5)
        ≡ some (handler_fn (call_of 5)))
    × (((handler_fn : Handler) → get_elem? (some reply ∷ none ∷ []) 5 ≢ some (some handler_fn))
        → smc_fastcall_secure_monitor sm (some reply ∷ none ∷ []) 2 (call_of 5)
          ≡ some (negsuc 0, call_of 5))
smc_fastcall_secure_monitor-inside_example =
    smc_fastcall_secure_monitor-inside sm (some reply ∷ none ∷ []) (call_of 5)
