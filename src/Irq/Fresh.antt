-- ===== src/Irq/Fresh.antt =====
-- The table in which only the timer's vector has a handler: where interrupts go, and what the scan
-- finds.
use mathlib.Core.Option.{some-injective}
use native.Mathlib.Decide.{ℕ_discrete, dec_le}
use trusty_platform_sand.Base.{
  ℕ, zero, suc, ◌<◌, ◌≡◌, ◌≢◌, refl, ap, sym, ◌∙◌, true, false, none, some, List, [], ◌∷◌, ◌++◌,
  ◌==◌, if◌then◌else◌, arith, pos, negsuc, length, replicate, get_elem?, get_elem?-set, length-set,
  leb, set,
}
use trusty_platform_sand.Irq.{
  Table, IntHandler, HandlerReturn, Effect, run_handler, handle_irq, fw_int_to_ns, int_pit,
  int_vectors, int_handler_table, register_int_handler, platform_irq, smc_intc_get_next_irq,
}
use trusty_platform_sand.Irq.Dispatch.{length-int_handler_table, platform_irq-register_int_handler}
use trusty_platform_sand.Irq.Scan.{Serves, Found, first, nothing, smc_intc_get_next_irq-Found}

get_elem?-replicate : (n i : ℕ) (e : IntHandler) → i < n → get_elem? (replicate n e) i ≡ some e
get_elem?-replicate zero i e h = absurd (omega arith)
get_elem?-replicate (suc n) zero e h = refl
get_elem?-replicate (suc n) (suc i) e h = get_elem?-replicate n i e (omega arith)

abbrev nobody : IntHandler
nobody = record { handler = none; arg = 0 }

empty_table : (w : ℕ) → w < int_vectors → get_elem? int_handler_table w ≡ some nobody
unfolding int_handler_table
empty_table w h = get_elem?-replicate int_vectors w nobody h

-- The table with the handler of the timer
abbrev pub timer_table : ℕ → Table
timer_table tick = set int_handler_table int_pit (record { handler = some tick; arg = 0 })

pub register_tick :
    (tick : ℕ)
    → register_int_handler int_handler_table int_pit (some tick) 0 ≡ some (timer_table tick)
unfolding register_int_handler
register_tick tick = refl

module _ (call : ℕ → ℕ → HandlerReturn) (sm_handle_irq : HandlerReturn) where
  -- Where an interrupt goes after the start
  abbrev pub routed : ℕ → ℕ → HandlerReturn × List Effect
  routed tick w =
      if int_pit == w
      then (call tick 0, run_handler tick 0 ∷ [])
      else (sm_handle_irq, fw_int_to_ns w ++ (handle_irq ∷ []))

  empty_irq :
      (w : ℕ)
      → w < int_vectors
      → platform_irq call sm_handle_irq true int_handler_table w
        ≡ some (sm_handle_irq, fw_int_to_ns w ++ (handle_irq ∷ []))
  unfolding platform_irq int_handler_table
  empty_irq w h = rw (empty_table w h) refl

  pub timer_irq :
      (tick w : ℕ)
      → w < int_vectors
      → platform_irq call sm_handle_irq true (timer_table tick) w ≡ some (routed tick w)
  timer_irq tick w h =
      let (irq, size) =
        platform_irq-register_int_handler call sm_handle_irq int_handler_table (timer_table tick)
          int_pit w tick 0 length-int_handler_table (register_tick tick) in
      ground (arith, irq, empty_irq w h)

lookup_other :
    (t : Table) (i j : ℕ) (e : IntHandler)
    → i < length t
    → i ≢ j
    → get_elem? (set t i e) j ≡ get_elem? t j
lookup_other t i j e h ne =
    let other : (i == j) ≡ false = ground arith in get_elem?-set t i j e h ∙ rw other refl

-- Only the timer's vector is served by the table.
timer_table-Serves : (tick w : ℕ) → w < int_vectors → Serves (timer_table tick) w → w ≡ int_pit
timer_table-Serves tick w h s = elim (ℕ_discrete w int_pit) [
  | yes e ↦ e
  | no ne ↦
      let at : get_elem? (timer_table tick) w ≡ some nobody =
        lookup_other int_handler_table int_pit w (record { handler = some tick; arg = 0 })
          (omega (arith, length-int_handler_table)) (λ e. ne (sym e))
        ∙ empty_table w h in
      let no_handler : none ≡ some s.function =
        ap (λ (e : IntHandler). e.handler) (some-injective _ _ (sym at ∙ s.present)) ∙ s.set_up in
      absurd (ground (arith, no_handler))
]

int_pit-Serves : (tick : ℕ) → Serves (timer_table tick) int_pit
unfolding int_handler_table
int_pit-Serves tick = record {
  entry = record { handler = some tick; arg = 0 };
  function = tick;
  present = refl;
  set_up = refl;
  not_resch = omega arith;
}

-- The scan finds the timer's vector up to it, and nothing behind it.
pub timer_table_scan :
    (tick start : ℕ)
    → smc_intc_get_next_irq (timer_table tick) start
      ≡ (if leb start int_pit then pos int_pit else negsuc 0)
timer_table_scan tick start =
    let size : length (timer_table tick) ≡ int_vectors =
      length-set int_handler_table int_pit _ ∙ length-int_handler_table in
    found (smc_intc_get_next_irq-Found (timer_table tick) start size)
  where
    found :
        Found (timer_table tick) start int_vectors (smc_intc_get_next_irq (timer_table tick) start)
        → smc_intc_get_next_irq (timer_table tick) start
          ≡ (if leb start int_pit then pos int_pit else negsuc 0)
    found (first v e lo hi serves least) =
        let at : v ≡ int_pit = timer_table-Serves tick v hi serves in
        let within : leb start int_pit ≡ true = ground arith in rw within (e ∙ ap pos at)
    found (nothing e none_left) = elim (dec_le start int_pit) [
      | yes h ↦ absurd (none_left int_pit h (omega arith) (int_pit-Serves tick))
      | no h ↦ let past : leb start int_pit ≡ false = ground arith in rw past e
    ]
