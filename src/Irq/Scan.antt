-- ===== src/Irq/Scan.antt =====
-- `smc_intc_get_next_irq` finds the least vector that has a handler.
use mathlib.Core.Option.{some-injective}
use mathlib.Core.Path.{subst}
use native.Mathlib.Decide.{ℕ_discrete, dec_lt}
use trusty_platform_sand.Base.{
  sym, ◌∙◌, refl, ◌⊎◌, inl, inr, Option-cases, Bool-cases, get_elem?-ne-none, ℕ, zero, suc, ◌+◌,
  ◌-◌, ◌≤◌, ◌<◌, ◌≡◌, ◌≢◌, ℤ, pos, negsuc, none, some, true, false, arith, length, get_elem?,
}
use trusty_platform_sand.Irq.{
  IntHandler, Table, int_vectors, int_resch, is_secure_irq, next_irq_from, smc_intc_get_next_irq,
}

-- The vector has a handler in the table and is not INT_RESCH.
pub record Serves (t : Table) (v : ℕ) : Type 0 where
  pub entry : IntHandler
  pub function : ℕ
  pub present : get_elem? t v ≡ some entry
  pub set_up : entry.handler ≡ some function
  pub not_resch : v ≢ int_resch

-- What a scan of the vectors from `start` up to `stop` may answer.
pub data Found (t : Table) (start stop : ℕ) (answer : ℤ) : Type 0 where
  first :
      (v : ℕ)
      → answer ≡ pos v
      → start ≤ v
      → v < stop
      → Serves t v
      → ((w : ℕ) → start ≤ w → w < v → ¬ Serves t w)
      → Found t start stop answer
  nothing :
      answer ≡ negsuc 0
      → ((w : ℕ) → start ≤ w → w < stop → ¬ Serves t w)
      → Found t start stop answer

is_secure_irq-Serves :
    (t : Table) (v : ℕ) (e : IntHandler)
    → get_elem? t v ≡ some e
    → is_secure_irq e v ≡ true
    → Serves t v
is_secure_irq-Serves t v e at h = secure (Option-cases e.handler)
  where
    secure : (e.handler ≡ none) ⊎ ((f : ℕ) × (e.handler ≡ some f)) → Serves t v
    secure (inl p) = absurd (unfold is_secure_irq in ground arith)
    secure (inr (f, p)) = record {
      entry = e;
      function = f;
      present = at;
      set_up = p;
      not_resch = unfold is_secure_irq in ground arith;
    }

not-Serves :
    (t : Table) (v : ℕ) (e : IntHandler)
    → get_elem? t v ≡ some e
    → is_secure_irq e v ≡ false
    → ¬ Serves t v
unfolding is_secure_irq
not-Serves t v e at h s =
    ground (arith, s.present, s.set_up, s.not_resch, some-injective (sym at ∙ s.present))

extend :
    (t : Table) (v stop : ℕ) (answer : ℤ)
    → ¬ Serves t v
    → Found t (v + 1) stop answer
    → Found t v stop answer
extend t v stop answer skip (first u e lo hi s least) = first u e (omega arith) hi s λ w a b.
    elim (ℕ_discrete w v) [
      | yes p ↦ subst (λ x. ¬ Serves t x) (sym p) skip
      | no p ↦ least w (omega arith) b
    ]
extend t v stop answer skip (nothing e none_left) = nothing e λ w a b. elim (ℕ_discrete w v) [
  | yes p ↦ subst (λ x. ¬ Serves t x) (sym p) skip
  | no p ↦ none_left w (omega arith) b
]

next_irq_from-step :
    (left v stop : ℕ) (t : Table)
    → v < stop
    → stop ≤ length t
    → Found t (v + 1) stop (next_irq_from left t (v + 1))
    → Found t v stop (next_irq_from (suc left) t v)
unfolding next_irq_from
next_irq_from-step left v stop t below fits rest = look (Option-cases (get_elem? t v))
  where
    look :
        (get_elem? t v ≡ none) ⊎ ((x : IntHandler) × (get_elem? t v ≡ some x))
        → Found t v stop (next_irq_from (suc left) t v)
    look (inl p) = absurd (get_elem?-ne-none t v (omega arith) p)
    look (inr (x, p)) = elim (Bool-cases (is_secure_irq x v)) [
      | inl is_here ↦
          first v (rw (p, next_irq_from, is_here)) (omega arith) (omega arith)
            (is_secure_irq-Serves t v x p is_here) (λ w a b. absurd (omega arith))
      | inr not_here ↦
          rw (p, next_irq_from, not_here) (extend t v stop _ (not-Serves t v x p not_here) rest)
    ]

next_irq_from-Found :
    (left v stop : ℕ) (t : Table)
    → v + left ≡ stop
    → stop ≤ length t
    → Found t v stop (next_irq_from left t v)
next_irq_from-Found zero v stop t e fits =
    nothing (unfold next_irq_from in refl) (λ w a b. absurd (omega arith))
next_irq_from-Found (suc left) v stop t e fits =
    next_irq_from-step left v stop t (omega arith) fits
      (next_irq_from-Found left (v + 1) stop t (omega arith) fits)

-- A scan that starts past the last vector makes no round.
next_irq_from-zero : (left v : ℕ) (t : Table) → left ≡ 0 → next_irq_from left t v ≡ negsuc 0
unfolding next_irq_from
next_irq_from-zero zero v t e = refl
next_irq_from-zero (suc left) v t e = absurd (omega arith)

-- Over a table of INT_VECTORS entries the scan answers the least vector from `start` on that has
-- a handler and is not INT_RESCH, and -1 exactly when there is none below INT_VECTORS.
pub smc_intc_get_next_irq-Found :
    (t : Table) (start : ℕ)
    → length t ≡ int_vectors
    → Found t start int_vectors (smc_intc_get_next_irq t start)
unfolding smc_intc_get_next_irq
smc_intc_get_next_irq-Found t start size = elim (dec_lt start int_vectors) [
  | yes p ↦
      next_irq_from-Found (int_vectors - start) start int_vectors t (omega arith) (omega arith)
  | no p ↦
      nothing (next_irq_from-zero (int_vectors - start) start t (omega arith))
        (λ w a b. absurd (omega arith))
]
