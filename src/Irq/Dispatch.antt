-- ===== src/Irq/Dispatch.antt =====
-- Which handler an interrupt reaches, and where the table is read outside its bounds.
use trusty_platform_sand.Base.{
  ℕ, ◌≤◌, ◌≡◌, ◌↔◌, Bool, true, false, Option, none, some, List, [], ◌∷◌, arith, ◌==◌,
  if◌then◌else◌, length, get_elem?-set, get_elem?-eq-none, get_elem?-ne-none, length-set,
  length-replicate,
}
use trusty_platform_sand.Irq.{
  IntHandler, Table, HandlerReturn, Effect, run_handler, int_vectors, register_int_handler,
  platform_irq, int_handler_table,
}

pub length-int_handler_table : length int_handler_table ≡ int_vectors
unfolding int_handler_table
length-int_handler_table =
    length-replicate {A = IntHandler} int_vectors (record { handler = none; arg = 0 })

module _ (call : ℕ → ℕ → HandlerReturn) (sm_handle_irq : HandlerReturn) where
  abbrev irq : Bool → Table → ℕ → Option (HandlerReturn × List Effect)
  irq = platform_irq call sm_handle_irq

  -- Once the boot is complete, a table of INT_VECTORS entries that took a handler for a vector
  -- sends that vector to the handler with its argument, sends every other vector where it went
  -- before, and keeps its size.
  pub platform_irq-register_int_handler :
      (t t' : Table) (v w f a : ℕ)
      → length t ≡ int_vectors
      → register_int_handler t v (some f) a ≡ some t'
      → (irq true t' w ≡ (if v == w then some (call f a, run_handler f a ∷ []) else irq true t w))
        × (length t' ≡ int_vectors)
  unfolding register_int_handler platform_irq
  platform_irq-register_int_handler t t' v w f a size h = (
    ground (arith, get_elem?-set t v w (record { handler = some f; arg = a })),
    ground (arith, length-set t v (record { handler = some f; arg = a })),
  )

  -- With a table of INT_VECTORS entries, `platform_irq` reads outside the table exactly when
  -- the boot is complete and the vector is INT_VECTORS or more.
  pub platform_irq_out_of_bounds :
      (boot : Bool) (t : Table) (v : ℕ)
      → length t ≡ int_vectors
      → (irq boot t v ≡ none) ↔ ((boot ≡ true) × (int_vectors ≤ v))
  unfolding platform_irq
  platform_irq_out_of_bounds false t v size = ground arith
  platform_irq_out_of_bounds true t v size =
      ground (arith, get_elem?-eq-none t v, get_elem?-ne-none t v)
