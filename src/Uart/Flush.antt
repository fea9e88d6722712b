-- ===== src/Uart/Flush.antt =====
-- The buffer before the UART is mapped, and the loop that empties it.
use trusty_platform_sand.Base.{
  ℕ, zero, suc, ◌+◌, ◌-◌, ◌%◌, ◌<◌, ◌≡◌, ◌≢◌, ap, sym, ◌∙◌, min, true, false, set, ◌==◌, arith,
  length, length-set,
}
use native.Mathlib.Decide.{ℕ_discrete}
use trusty_platform_sand.Base.Io.{Device, Trace, done}
use trusty_platform_sand.Base.Io.Spec.{Ends}
use trusty_platform_sand.Uart.{Uart, buf_size, store_char, drain, uart_putc}
use trusty_platform_sand.Uart.Lag.{IsIdle, sent, drain-stop, drain-step, uart_putc_mapped}

-- The indices stay inside the buffer.
pub record IsValid (u : Uart) : Type 0 where
  pub size : length u.buf ≡ buf_size
  pub put_in : u.put_idx < buf_size
  pub get_in : u.get_idx < buf_size

-- How many characters the loop sends.
abbrev pub pending : Uart → ℕ
pending u = (u.put_idx + buf_size - u.get_idx) % buf_size

-- A stored character keeps the indices inside the buffer, and adds one to the characters to send
-- until there are 4095, whose number it keeps.
pub store_char-IsValid :
    (c : ℕ) (u : Uart)
    → IsValid u
    → IsValid (store_char c u) × (pending (store_char c u) ≡ min (pending u + 1) 4095)
unfolding store_char
store_char-IsValid c u h =
    let put : ℕ = (u.put_idx + 1) % buf_size in
    let size : length (set u.buf put c) ≡ buf_size = length-set u.buf put c ∙ h.size in
    elim (ℕ_discrete put u.get_idx) [
      | yes full ↦
          let is_full : (put == u.get_idx) ≡ true = ground arith in
          rw is_full (
            record { size = size; put_in = omega arith; get_in = omega arith },
            omega (arith, full, h.put_in, h.get_in),
          )
      | no space ↦
          let has_space : (put == u.get_idx) ≡ false = ground arith in
          rw has_space (
            record { size = size; put_in = omega arith; get_in = h.get_in },
            omega (arith, space, h.put_in, h.get_in),
          )
    ]

module _ (dev : Device) (fuel base : ℕ) (idle : IsIdle dev base) (mapped : base ≢ 0) where
  drain-Ends :
      (rounds : ℕ) (u : Uart) (t : Trace)
      → IsValid u
      → pending u < rounds
      → Ends (record u { get_idx = u.put_idx }) (drain dev (suc fuel) base rounds u t)
  drain-Ends zero u t h enough = absurd (omega arith)
  drain-Ends (suc rounds) u t h enough = elim (ℕ_discrete u.put_idx u.get_idx) [
    | yes e ↦ (
      t,
      drain-stop dev fuel base idle mapped rounds u t e
          ∙ ap (λ (n : ℕ). done (record u { get_idx = n }) t) (sym e),
    )
    | no more ↦
        let next : Uart = record u { get_idx = (u.get_idx + 1) % buf_size } in
        let valid : IsValid next = record {
          size = h.size;
          put_in = h.put_in;
          get_in = omega arith;
        } in
        let (w, e) =
          drain-Ends rounds next (sent dev base _ t) valid (omega (arith, h.put_in, h.get_in)) in
        (w, drain-step dev fuel base idle mapped rounds u t more ∙ e)
  ]

  -- On a mapped device whose holding register is empty at every read, with fuel for one read,
  -- the put of a character, from any state with its indices inside the buffer, ends with the
  -- character stored and the get index at the put index.
  pub uart_putc_total :
      (c : ℕ) (u : Uart) (t : Trace)
      → IsValid u
      → Ends
          (record (store_char c u) { get_idx = (store_char c u).put_idx })
          (uart_putc dev (suc fuel) base c u t)
  uart_putc_total c u t h =
      let (valid, size) = store_char-IsValid c u h in
      let (w, e) = drain-Ends (suc buf_size) (store_char c u) t valid (omega arith) in
      (w, uart_putc_mapped dev fuel base idle mapped c u t ∙ e)
