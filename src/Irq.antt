-- ===== src/Irq.antt =====
-- interrupts.c: the table of interrupt handlers, the dispatch of an interrupt, and the scan for
-- the next interrupt that the secure side serves. The constants are those of
-- include/platform/sand_defs.h. A handler is named by a number, and NULL is `none`.
pub mod Dispatch
pub mod Scan
pub mod Pic
pub mod Fresh
mod Tests
use trusty_platform_sand.Base.{
  ℕ, zero, suc, ◌+◌, ◌-◌, ℤ, pos, negsuc, Bool, true, false, ◌&&◌, not, Option, none, some, List,
  [], ◌∷◌, leb, ◌==◌, if◌then◌else◌, get_elem?, set, replicate,
}

-- INT_VECTORS
abbrev pub int_vectors : ℕ
int_vectors = 0xFF

-- INT_PIT
abbrev pub int_pit : ℕ
int_pit = 0x31

-- INT_RESCH
abbrev pub int_resch : ℕ
int_resch = 0xF7

-- `enum handler_return`
pub data HandlerReturn : Type 0 where
  no_reschedule reschedule : HandlerReturn

-- What a handler does to the world outside, in order.
pub data Effect : Type 0 where
  eoi : Effect
  self_ipi : ℕ → Effect
  run_handler : ℕ → ℕ → Effect
  handle_irq : Effect

-- `struct int_handler_struct`
pub record IntHandler : Type 0 where
  pub handler : Option ℕ
  pub arg : ℕ

abbrev pub Table : Type 0
Table = List IntHandler

-- A static array starts with zeros.
pub int_handler_table : Table
int_handler_table = replicate int_vectors (record { handler = none; arg = 0 })

-- `none` is the error ERR_INVALID_ARGS; `mask_interrupt` and `unmask_interrupt` change nothing.
pub mask_interrupt : ℕ → Option (Unit {0})
mask_interrupt vector = if leb int_vectors vector then none else some tt

pub unmask_interrupt : ℕ → Option (Unit {0})
unmask_interrupt vector = if leb int_vectors vector then none else some tt

-- `none` is the panic. The spin lock makes the two stores one step.
pub register_int_handler : Table → ℕ → Option ℕ → ℕ → Option Table
register_int_handler table vector handler arg =
    if leb int_vectors vector
    then none
    else some (set table vector (record { handler = handler; arg = arg }))

-- FW_INT_TO_NS of include/platform/sand.h
abbrev pub fw_int_to_ns : ℕ → List Effect
fw_int_to_ns vector = eoi ∷ self_ipi vector ∷ []

-- What the handlers and `sm_handle_irq` return is the environment's.
module _ (call : ℕ → ℕ → HandlerReturn) (sm_handle_irq : HandlerReturn) where
  deliver : ℕ → IntHandler → HandlerReturn × List Effect
  deliver vector entry = elim entry.handler [
    | some f ↦ (call f entry.arg, run_handler f entry.arg ∷ [])
    | none ↦ (sm_handle_irq, eoi ∷ self_ipi vector ∷ handle_irq ∷ [])
  ]

  -- The first argument is `is_lk_boot_complete()`. `none` is a read outside the table.
  pub platform_irq : Bool → Table → ℕ → Option (HandlerReturn × List Effect)
  unfolding deliver
  platform_irq false table vector = some (no_reschedule, eoi ∷ [])
  platform_irq true table vector = elim (get_elem? table vector) [
    | some entry ↦ some (deliver vector entry)
    | none ↦ none
  ]

-- `int_handler_table[vector].handler && (INT_RESCH != vector)`
is_secure_irq : IntHandler → ℕ → Bool
is_secure_irq entry vector = elim entry.handler [
  | some f ↦ not (int_resch == vector)
  | none ↦ false
]

-- The rounds left are those up to INT_VECTORS.
next_irq_from : ℕ → Table → ℕ → ℤ
next_irq_from zero table vector = negsuc 0
next_irq_from (suc left) table vector =
    let rest = next_irq_from left table (vector + 1) in
    elim (get_elem? table vector) [
      | none ↦ negsuc 0
      | some entry ↦ if is_secure_irq entry vector then pos vector else rest
    ]

-- The argument is `args->params[0]`.
pub smc_intc_get_next_irq : Table → ℕ → ℤ
unfolding next_irq_from is_secure_irq
smc_intc_get_next_irq table start = next_irq_from (int_vectors - start) table start
