-- ===== src/Irq/Tests.antt =====
-- Interrupts on a table with two handlers.
use trusty_platform_sand.Base.{
  pos, ℕ, ◌≤◌, ◌≡◌, ◌↔◌, refl, true, none, some, [], ◌∷◌, ◌==◌, if◌then◌else◌, length, length-set,
  set, ◌∙◌,
}
use trusty_platform_sand.Irq.{
  HandlerReturn, no_reschedule, reschedule, run_handler, Table, int_vectors, int_pit,
  int_handler_table, register_int_handler, platform_irq, smc_intc_get_next_irq, next_irq_from,
  is_secure_irq,
}
use trusty_platform_sand.Irq.Dispatch.{
  length-int_handler_table, platform_irq-register_int_handler, platform_irq_out_of_bounds,
}
use trusty_platform_sand.Irq.Scan.{Found, smc_intc_get_next_irq-Found}

-- A handler returns `reschedule`.
abbrev call : ℕ → ℕ → HandlerReturn
call f a = reschedule

-- The timer's handler, number 5.
abbrev with_timer : Table
with_timer = set int_handler_table int_pit (record { handler = some 5; arg = 6 })

length-with_timer : length with_timer ≡ int_vectors
length-with_timer =
    length-set int_handler_table int_pit (record { handler = some 5; arg = 6 })
    ∙ length-int_handler_table

platform_irq-register_int_handler_example :
    (platform_irq call no_reschedule true with_timer int_pit ≡ (
      if int_pit == int_pit
      then some (reschedule, run_handler 5 6 ∷ [])
      else platform_irq call no_reschedule true int_handler_table int_pit))
    × (length with_timer ≡ int_vectors)
platform_irq-register_int_handler_example =
    platform_irq-register_int_handler call no_reschedule int_handler_table with_timer int_pit
      int_pit 5 6 length-int_handler_table (unfold register_int_handler in refl)

platform_irq_out_of_bounds_example :
    (platform_irq call no_reschedule true with_timer 255 ≡ none)
    ↔ ((true ≡ true) × (int_vectors ≤ 255))
platform_irq_out_of_bounds_example =
    platform_irq_out_of_bounds call no_reschedule true with_timer 255 length-with_timer

smc_intc_get_next_irq-Found_example :
    Found with_timer 3 int_vectors (smc_intc_get_next_irq with_timer 3)
smc_intc_get_next_irq-Found_example = smc_intc_get_next_irq-Found with_timer 3 length-with_timer

smc_intc_get_next_irq-with_timer : (smc_intc_get_next_irq with_timer 3 ≡ pos int_pit)
unfolding smc_intc_get_next_irq next_irq_from is_secure_irq int_handler_table
smc_intc_get_next_irq-with_timer = refl
