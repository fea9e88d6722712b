-- ===== src/Uart/Replay.antt =====
-- The characters that are put before the UART is mapped, and what the line takes when it is.
use mathlib.Core.List.{append_assoc, append-nil}
use native.Mathlib.Decide.{ℕ_discrete}
use trusty_platform_sand.Base.{
  ℕ, zero, suc, ◌+◌, ◌%◌, ◌<◌, ◌≡◌, ◌≢◌, refl, ap, sym, ◌∙◌, true, false, List, [], ◌∷◌, ◌++◌, ◌==◌,
  get_or, length, arith, map, set, length-set, length-append, length-zeros, take, drop, take-set,
  take-drop, drop-cons,
}
use trusty_platform_sand.Base.Io.{Device, Trace, done}
use trusty_platform_sand.Base.Io.Spec.{EndsIn, bind-done}
use trusty_platform_sand.Base.Io.Writes.{writes_to}
use trusty_platform_sand.Heci.Regs.{address}
use trusty_platform_sand.Uart.{
  Uart, initial, buf_size, store_char, drain, uart_putc, platform_dputc,
}
use trusty_platform_sand.Uart.Lag.{
  IsDrained, IsIdle, last_put, sent, u8, on_line, print, drain-stop, drain-step, uart_putc_mapped,
}

-- The buffer holds a NUL and the characters, and nothing was sent.
pub record IsEarly (cs : List ℕ) (u : Uart) : Type 0 where
  pub size : length u.buf ≡ buf_size
  pub put : u.put_idx ≡ length cs
  pub get : u.get_idx ≡ 0
  pub held : take (suc (length cs)) u.buf ≡ 0 ∷ cs

pub initial-IsEarly : IsEarly [] initial
unfolding initial
initial-IsEarly = record { size = length-zeros 4096; put = refl; get = refl; held = refl }

store_char-IsEarly :
    (c : ℕ) (cs : List ℕ) (u : Uart)
    → length cs + 1 < buf_size
    → IsEarly cs u
    → IsEarly (cs ++ (c ∷ [])) (store_char c u)
unfolding store_char
store_char-IsEarly c cs u room h =
    let put : ℕ = (u.put_idx + 1) % buf_size in
    let next : put ≡ suc (length cs) = omega (arith, h.put) in
    let longer : length (cs ++ (c ∷ [])) ≡ suc (length cs) =
      omega (arith, length-append cs (c ∷ [])) in
    let space : (put == u.get_idx) ≡ false = ground (arith, next, h.get) in
    record {
      size = length-set u.buf put c ∙ h.size;
      put = next ∙ sym longer;
      get = rw space h.get;
      held =
          ap (λ n. take (suc n) (set u.buf put c)) longer
          ∙ ap (λ n. take (suc (suc (length cs))) (set u.buf n c)) next
          ∙ take-set (suc (length cs)) c u.buf (omega (arith, h.size))
          ∙ ap (λ (l : List ℕ). l ++ (c ∷ [])) h.held;
    }

get_or-append_here :
    (cs : List ℕ) (c : ℕ) (ds : List ℕ) (d : ℕ) → get_or (cs ++ (c ∷ ds)) (length cs) d ≡ c
get_or-append_here [] c ds d = refl
get_or-append_here (x ∷ cs) c ds d = get_or-append_here cs c ds d

-- Before the UART is mapped, a string goes behind what is in the buffer.
module _ (dev : Device) (fuel : ℕ) where
  putc-IsEarly :
      (c : ℕ) (cs : List ℕ) (u : Uart) (t : Trace)
      → length cs + 1 < buf_size
      → IsEarly cs u
      → (v : Uart) × (uart_putc dev fuel 0 c u t ≡ done v t) × IsEarly (cs ++ (c ∷ [])) v
  unfolding uart_putc
  putc-IsEarly c cs u t room h = (store_char c u, refl, store_char-IsEarly c cs u room h)

  dputc-IsEarly :
      (c : ℕ) (cs : List ℕ) (u : Uart) (t : Trace)
      → length cs + length (on_line (c ∷ [])) < buf_size
      → IsEarly cs u
      → (v : Uart) × (platform_dputc dev fuel 0 false c u t ≡ done v t)
        × IsEarly (cs ++ on_line (c ∷ [])) v
  unfolding platform_dputc on_line
  dputc-IsEarly c cs u t room h = elim (ℕ_discrete c 0x0A) [
    | yes e ↦
        let newline : (c == 0x0A) ≡ true = ground arith in
        let two : 2 ≡ length (on_line (c ∷ [])) = rw newline refl in
        let (v, d, k) = putc-IsEarly 0x0D cs u t (omega (arith, two)) h in
        let (w, e', k') =
          putc-IsEarly c (cs ++ (0x0D ∷ [])) v t (omega (arith, two, length-append cs (0x0D ∷ [])))
            k in
        let same : (cs ++ (0x0D ∷ [])) ++ (c ∷ []) ≡ cs ++ (0x0D ∷ c ∷ []) =
          append_assoc cs (0x0D ∷ []) (c ∷ []) in
        (
          w,
          rw newline (bind-done (uart_putc dev fuel 0 0x0D u) _ t t v d ∙ e'),
          rw (newline, sym same) k',
        )
    | no e ↦
        let other : (c == 0x0A) ≡ false = ground arith in
        let one : 1 ≡ length (on_line (c ∷ [])) = rw other refl in
        let (v, d, k) = putc-IsEarly c cs u t (omega (arith, one)) h in (v, rw other d, rw other k)
  ]

  on_line-cons : (c : ℕ) (ds : List ℕ) → on_line (c ∷ ds) ≡ on_line (c ∷ []) ++ on_line ds
  unfolding on_line
  on_line-cons c ds = ground arith

  pub print-IsEarly :
      (ds cs : List ℕ) (u : Uart) (t : Trace)
      → length cs + length (on_line ds) < buf_size
      → IsEarly cs u
      → (v : Uart) × (print dev fuel 0 ds u t ≡ done v t) × IsEarly (cs ++ on_line ds) v
  unfolding print on_line
  print-IsEarly [] cs u t room h = (u, refl, rw (append-nil cs) h)
  print-IsEarly (c ∷ ds) cs u t room h =
      let first : List ℕ = on_line (c ∷ []) in
      let count : length (on_line (c ∷ ds)) ≡ length first + length (on_line ds) =
        ap length (on_line-cons c ds) ∙ length-append first (on_line ds) in
      let (v, d, k) = dputc-IsEarly c cs u t (omega (arith, count)) h in
      let (w, e, k') =
        print-IsEarly ds (cs ++ first) v t (omega (arith, count, length-append cs first)) k in
      let same : (cs ++ first) ++ on_line ds ≡ cs ++ on_line (c ∷ ds) =
        append_assoc cs first (on_line ds) ∙ ap (λ l. cs ++ l) (sym (on_line-cons c ds)) in
      (w, bind-done (platform_dputc dev fuel 0 false c u) _ t t v d ∙ e, rw (sym same) k')

module _ (dev : Device) (fuel base : ℕ) (idle : IsIdle dev base) (mapped : base ≢ 0) where
  abbrev received : Trace → List ℕ
  received t = writes_to (address base 0) t

  received-sent : (x : ℕ) (t : Trace) → received (sent dev base x t) ≡ received t ++ (u8 x ∷ [])
  unfolding writes_to
  received-sent x t = ground arith

  -- The loop sends the characters between the indices in their order.
  drain-Writes :
      (cs behind : List ℕ) (rounds : ℕ) (u : Uart) (t : Trace)
      → drop u.get_idx u.buf ≡ cs ++ behind
      → u.get_idx + length cs ≡ u.put_idx
      → u.put_idx < buf_size
      → length cs < rounds
      → EndsIn
          (λ w. received w ≡ received t ++ map u8 cs)
          (record u { get_idx = u.put_idx })
          (drain dev (suc fuel) base rounds u t)
  drain-Writes cs behind zero u t held count inside enough = absurd (omega arith)
  drain-Writes [] behind (suc rounds) u t held count inside enough =
      let stop : u.get_idx ≡ u.put_idx = omega (arith, count) in
      (
        t,
        drain-stop dev fuel base idle mapped rounds u t (sym stop)
            ∙ ap (λ (n : ℕ). done (record u { get_idx = n }) t) stop,
        sym (append-nil (received t)),
      )
  drain-Writes (c ∷ cs) behind (suc rounds) u t held count inside enough =
      let (within, value, rest) = drop-cons u.buf u.get_idx c 0 (cs ++ behind) held in
      let next : (u.get_idx + 1) % buf_size ≡ suc u.get_idx = omega (arith, count) in
      let u' : Uart = record u { get_idx = (u.get_idx + 1) % buf_size } in
      let t' : Trace = sent dev base (get_or u.buf u.get_idx 0) t in
      let (w, e, p) =
        drain-Writes cs behind rounds u' t' (ap (λ n. drop n u.buf) next ∙ rest)
          (omega (arith, next, count)) inside (omega arith) in
      (
        w,
        drain-step dev fuel base idle mapped rounds u t (omega (arith, count)) ∙ e,
        p
            ∙ ap (λ (l : List ℕ). l ++ map u8 cs)
                (received-sent (get_or u.buf u.get_idx 0) t
                  ∙ ap (λ x. received t ++ (u8 x ∷ [])) value)
            ∙ append_assoc (received t) (u8 c ∷ []) (map u8 cs),
      )

  -- What is left after the loop when the characters and one more were put.
  abbrev flushed : Uart → Uart
  flushed u = record u { get_idx = u.put_idx }

  pub putc_flushes :
      (c : ℕ) (cs : List ℕ) (u : Uart) (t : Trace)
      → length cs + 1 < buf_size
      → IsEarly cs u
      → IsDrained (flushed (store_char c u))
        × (last_put (store_char c u) ≡ c)
        × EndsIn
            (λ w. received w ≡ received t ++ map u8 (0 ∷ cs))
            (flushed (store_char c u))
            (uart_putc dev (suc fuel) base c u t)
  putc_flushes c cs u t room h =
      let v : Uart = store_char c u in
      let k : IsEarly (cs ++ (c ∷ [])) v = store_char-IsEarly c cs u room h in
      let put : v.put_idx ≡ suc (length cs) = k.put ∙ length-append cs (c ∷ []) ∙ omega arith in
      let longer : suc (length (cs ++ (c ∷ []))) ≡ suc (suc (length cs)) =
        ap suc (sym k.put ∙ put) in
      let behind : List ℕ = drop (suc (suc (length cs))) v.buf in
      let held : v.buf ≡ (0 ∷ cs) ++ (c ∷ behind) =
        sym (take-drop (suc (suc (length cs))) v.buf)
        ∙ ap (λ (l : List ℕ). l ++ behind) (sym (ap (λ n. take n v.buf) longer) ∙ k.held)
        ∙ append_assoc (0 ∷ cs) (c ∷ []) behind in
      let (w, e, p) =
        drain-Writes (0 ∷ cs) (c ∷ behind) (suc buf_size) v t (ap (λ n. drop n v.buf) k.get ∙ held)
          (omega (arith, k.get, put)) (omega (arith, put)) (omega arith) in
      (
        record { size = k.size; index = omega (arith, put); empty = refl },
        ap (λ n. get_or v.buf n 0) put
            ∙ ap (λ (l : List ℕ). get_or l (suc (length cs)) 0) held
            ∙ get_or-append_here cs c behind 0,
        (w, uart_putc_mapped dev fuel base idle mapped c u t ∙ e, p),
      )
