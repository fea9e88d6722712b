-- ===== src/Uart/Lag.antt =====
-- What the line receives: each character is sent when the next one is put.
use mathlib.Core.List.{append_assoc, append-nil, map-append}
use native.Mathlib.Decide.{ℕ_discrete}
use trusty_platform_sand.Base.{
  ℕ, suc, ◌+◌, ◌*◌, ◌%◌, ◌^◌, ◌<◌, ◌≡◌, ◌≢◌, refl, ap, sym, ◌∙◌, true, false, List, [], ◌∷◌, ◌++◌,
  ◌==◌, if◌then◌else◌, get_or, length, arith, map, get_or-set_self, get_or-set_ne, length-set,
}
use trusty_platform_sand.Base.Io.Writes.{writes_to, writes_to-rd, writes_to-wr_self}
use trusty_platform_sand.Base.Io.{Outcome, Device, Trace, Io, done, rd, wr, pure, ◌>>=◌}
use trusty_platform_sand.Base.Io.Spec.{bind-done}
use trusty_platform_sand.Heci.Regs.{address}
use trusty_platform_sand.Uart.{
  Uart, buf_size, thre, store_char, wait_thre, drain, uart_putc, platform_dputc,
}

-- Nothing is left to send but the last character.
pub record IsDrained (u : Uart) : Type 0 where
  pub size : length u.buf ≡ buf_size
  pub index : u.put_idx < buf_size
  pub empty : u.get_idx ≡ u.put_idx

-- The last character put.
abbrev pub last_put : Uart → ℕ
last_put u = get_or u.buf u.put_idx 0

-- The holding register is empty at every read.
abbrev pub IsIdle : Device → ℕ → Type 0
IsIdle dev base = (t : Trace) → thre (dev t 8 (address base (5 * 4)) % 2 ^ 8) ≡ 1

-- The history after the line took a byte.
abbrev pub sent : Device → ℕ → ℕ → Trace → Trace
sent dev base c t =
    wr 8 (address base 0) (c % 2 ^ 8)
    ∷ rd 8 (address base (5 * 4)) (dev t 8 (address base (5 * 4)) % 2 ^ 8)
    ∷ t

module _ (dev : Device) (fuel base : ℕ) (idle : IsIdle dev base) (mapped : base ≢ 0) where
  wait_thre-IsIdle :
      (t : Trace)
      → wait_thre dev (suc fuel) base (suc fuel) t
        ≡ done tt (rd 8 (address base (5 * 4)) (dev t 8 (address base (5 * 4)) % 2 ^ 8) ∷ t)
  unfolding wait_thre
  wait_thre-IsIdle t = ground (arith, idle t)

  pub drain-stop :
      (rounds : ℕ) (u : Uart) (t : Trace)
      → u.put_idx ≡ u.get_idx
      → drain dev (suc fuel) base (suc rounds) u t ≡ done u t
  unfolding drain
  drain-stop rounds u t e =
      let stop : (u.put_idx == u.get_idx) ≡ true = ground arith in rw stop refl

  pub drain-step :
      (rounds : ℕ) (u : Uart) (t : Trace)
      → u.put_idx ≢ u.get_idx
      → drain dev (suc fuel) base (suc rounds) u t
        ≡ drain dev
            (suc fuel)
            base
            rounds
            (record u { get_idx = (u.get_idx + 1) % buf_size })
            (sent dev base (get_or u.buf u.get_idx 0) t)
  unfolding drain
  drain-step rounds u t more =
      let go : (u.put_idx == u.get_idx) ≡ false = ground arith in
      rw go (bind-done (wait_thre dev (suc fuel) base (suc fuel)) _ t _ tt (wait_thre-IsIdle t))

  store_char-IsDrained :
      (c : ℕ) (u : Uart)
      → IsDrained u
      → (last_put (store_char c u) ≡ c)
        × (length (store_char c u).buf ≡ buf_size)
        × ((store_char c u).put_idx ≡ (u.put_idx + 1) % buf_size)
        × ((store_char c u).get_idx ≡ u.put_idx)
        × (get_or (store_char c u).buf u.put_idx 0 ≡ last_put u)
  unfolding store_char
  store_char-IsDrained c u h =
      let put : ℕ = (u.put_idx + 1) % buf_size in
      let differs : (put == u.get_idx) ≡ false = ground (arith, h.empty, h.index) in
      (
        get_or-set_self u.buf put c 0 (omega (arith, h.size)),
        length-set u.buf put c ∙ h.size,
        refl,
        rw differs h.empty,
        get_or-set_ne u.buf put u.put_idx c 0 (omega (arith, h.index)),
      )

  pub uart_putc_mapped :
      (c : ℕ) (u : Uart) (t : Trace)
      → uart_putc dev (suc fuel) base c u t
        ≡ drain dev (suc fuel) base (suc buf_size) (store_char c u) t
  unfolding uart_putc
  uart_putc_mapped c u t = let on : (base == 0) ≡ false = ground arith in rw on refl

  -- A character that is put when all before it but the last are sent: the line takes the last.
  uart_putc-IsDrained :
      (c : ℕ) (u : Uart) (t : Trace)
      → IsDrained u
      → (v : Uart) × (uart_putc dev (suc fuel) base c u t ≡ done v (sent dev base (last_put u) t))
        × IsDrained v
        × (last_put v ≡ c)
  uart_putc-IsDrained c u t h =
      let (put_c, size, next, get, kept) = store_char-IsDrained c u h in
      let s : Uart = store_char c u in
      let v : Uart = record s { get_idx = (s.get_idx + 1) % buf_size } in
      (
        v,
        uart_putc_mapped c u t
            ∙ drain-step 4096 s t (omega (arith, next, get, h.index))
            ∙ drain-stop 4095 v _ (omega (arith, next, get))
            ∙ ap (λ (b : ℕ). done v (sent dev base b t))
                (ap (λ (n : ℕ). get_or s.buf n 0) get ∙ kept),
        record { size = size; index = omega (arith, next); empty = omega (arith, next, get) },
        put_c,
      )

-- The characters that go over the line for a string: a return before each line feed.
abbrev pub u8 : ℕ → ℕ
u8 c = c % 2 ^ 8

unfoldable pub on_line : List ℕ → List ℕ
on_line [] = []
on_line (c ∷ cs) = let rest = on_line cs in if c == 0x0A then 0x0D ∷ c ∷ rest else c ∷ rest

-- The calls of `platform_dputc` for a string, before the callback for the log is registered.
unfoldable pub print : Device → ℕ → ℕ → List ℕ → Uart → Io Uart
print dev fuel base [] u = pure u
print dev fuel base (c ∷ cs) u = platform_dputc dev fuel base false c u >>= print dev fuel base cs

-- The bytes that the line received, and behind them the last character put.
abbrev line : ℕ → Uart → Trace → List ℕ
line base u t = writes_to (address base 0) t ++ (u8 (last_put u) ∷ [])

-- The run ends, with the characters on the line and the last of them still to send.
record Puts (base : ℕ) (u : Uart) (t : Trace) (cs : List ℕ) (o : Outcome Uart) : Type 0 where
  pub uart : Uart
  pub after : Trace
  pub ends : o ≡ done uart after
  pub drained : IsDrained uart
  pub bytes : line base uart after ≡ line base u t ++ map u8 cs

Puts-bind :
    (base : ℕ) (u : Uart) (t : Trace) (cs ds : List ℕ) (m : Io Uart) (f : Uart → Io Uart)
    → Puts base u t cs (m t)
    → ((v : Uart) (w : Trace) → IsDrained v → Puts base v w ds (f v w))
    → Puts base u t (cs ++ ds) ((m >>= f) t)
Puts-bind base u t cs ds m f p next =
    let q : Puts base p.uart p.after ds (f p.uart p.after) = next p.uart p.after p.drained in
    record {
      uart = q.uart;
      after = q.after;
      ends = bind-done m f t p.after p.uart p.ends ∙ q.ends;
      drained = q.drained;
      bytes =
          q.bytes
          ∙ ap (λ (l : List ℕ). l ++ map u8 ds) p.bytes
          ∙ append_assoc (line base u t) (map u8 cs) (map u8 ds)
          ∙ ap (λ (l : List ℕ). line base u t ++ l) (sym (map-append u8 cs ds));
    }

module _ (dev : Device) (fuel base : ℕ) (idle : IsIdle dev base) (mapped : base ≢ 0) where
  uart_putc-Puts :
      (c : ℕ) (u : Uart) (t : Trace)
      → IsDrained u
      → Puts base u t (c ∷ []) (uart_putc dev (suc fuel) base c u t)
  uart_putc-Puts c u t h =
      let (v, ends, drained, last) = uart_putc-IsDrained dev fuel base idle mapped c u t h in
      record {
        uart = v;
        after = sent dev base (last_put u) t;
        ends = ends;
        drained = drained;
        bytes =
            ap (λ (l : List ℕ). l ++ (u8 (last_put v) ∷ []))
              (writes_to-wr_self (address base 0) 8 (u8 (last_put u)) _
                ∙ ap (λ (l : List ℕ). l ++ (u8 (last_put u) ∷ []))
                    (writes_to-rd (address base 0) 8 (address base (5 * 4)) _ t))
            ∙ ap (λ (n : ℕ). line base u t ++ (u8 n ∷ [])) last;
      }

  platform_dputc-Puts :
      (c : ℕ) (cs : List ℕ) (u : Uart) (t : Trace) (next : Uart → Io Uart)
      → IsDrained u
      → ((v : Uart) (w : Trace) → IsDrained v → Puts base v w (on_line cs) (next v w))
      → Puts base u t (on_line (c ∷ cs)) ((platform_dputc dev (suc fuel) base false c u >>= next) t)
  unfolding platform_dputc on_line
  platform_dputc-Puts c cs u t next h rest = elim (ℕ_discrete c 0x0A) [
    | yes e ↦
        let newline : (c == 0x0A) ≡ true = ground arith in
        let putc : ℕ → Uart → Io Uart = uart_putc dev (suc fuel) base in
        rw newline (
          Puts-bind base u t (0x0D ∷ c ∷ []) (on_line cs) (putc 0x0D u >>= putc c) next
            (Puts-bind base u t (0x0D ∷ []) (c ∷ []) (putc 0x0D u) (putc c)
              (uart_putc-Puts 0x0D u t h) (λ v w g. uart_putc-Puts c v w g))
            rest)
    | no e ↦
        let other : (c == 0x0A) ≡ false = ground arith in
        rw other (
          Puts-bind base u t (c ∷ []) (on_line cs) (uart_putc dev (suc fuel) base c u) next
            (uart_putc-Puts c u t h) rest)
  ]

  print-Puts :
      (cs : List ℕ) (u : Uart) (t : Trace)
      → IsDrained u
      → Puts base u t (on_line cs) (print dev (suc fuel) base cs u t)
  unfolding print on_line
  print-Puts [] u t h = record {
    uart = u;
    after = t;
    ends = refl;
    drained = h;
    bytes = sym (append-nil (line base u t));
  }
  print-Puts (c ∷ cs) u t h =
      platform_dputc-Puts c cs u t (print dev (suc fuel) base cs) h (λ v w g. print-Puts cs v w g)

  -- From a state in which all but the last character are sent, on a mapped device whose holding
  -- register is empty at every read, with fuel for one read, the output of a string ends in such a
  -- state, and the bytes the line received since, followed by the last character put, are the
  -- character that was left and the string, with a return before each line feed: the line is one
  -- character behind.
  pub print_is_behind :
      (cs : List ℕ) (u : Uart) (t : Trace)
      → IsDrained u
      → (v : Uart) × (w : Trace) × (print dev (suc fuel) base cs u t ≡ done v w)
        × IsDrained v
        × (writes_to (address base 0) w ++ (u8 (last_put v) ∷ [])
            ≡ writes_to (address base 0) t ++ (u8 (last_put u) ∷ map u8 (on_line cs)))
  print_is_behind cs u t h =
      let p : Puts base u t (on_line cs) (print dev (suc fuel) base cs u t) = print-Puts cs u t h in
      (
        p.uart,
        p.after,
        p.ends,
        p.drained,
        p.bytes
            ∙ append_assoc (writes_to (address base 0) t) (u8 (last_put u) ∷ [])
                (map u8 (on_line cs)),
      )
