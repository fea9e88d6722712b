-- ===== src/Base/Io.antt =====
-- Memory-mapped registers. A program sees a device through what it reads and writes: the history
-- of accesses, the latest first. The device itself is code that the repository does not hold, so
-- it is an arbitrary function from the history to the value that the next read returns.
pub mod Spec
pub mod Writes
use Prim.Native.Nat.{ℕ, ◌%◌, ◌^◌}
use mathlib.Core.List.{List, ◌∷◌}

-- Reads and writes of memory-mapped registers and of ports: the width in bits, the address and
-- the value.
pub data Access : Type 0 where
  rd : ℕ → ℕ → ℕ → Access
  wr : ℕ → ℕ → ℕ → Access
  inp : ℕ → ℕ → ℕ → Access
  outp : ℕ → ℕ → ℕ → Access

abbrev pub Trace : Type 0
Trace = List Access

-- What a read of the given width at the given address returns after the history.
abbrev pub Device : Type 0
Device = Trace → ℕ → ℕ → ℕ

-- A run of code with loops: it ends with a value and a history, or it reads or writes memory
-- outside an object (undefined in C), or the fuel given for its loops runs out.
pub data Outcome (A : Type 0) : Type 0 where
  done : A → Trace → Outcome A
  fault : Outcome A
  stuck : Outcome A

abbrev pub Io : Type 0 → Type 0
Io A = Trace → Outcome A

abbrev pub pure : {A : Type 0} → A → Io A
pure a t = done a t

abbrev pub out_of_bounds : {A : Type 0} → Io A
out_of_bounds t = fault

abbrev pub no_fuel : {A : Type 0} → Io A
no_fuel t = stuck

infixl 5 ◌>>=◌ ◌>>◌
abbrev pub ◌>>=◌ : {A B : Type 0} → Io A → (A → Io B) → Io B
◌>>=◌ m f t = elim (m t) [ done a t' ↦ f a t' | fault ↦ fault | stuck ↦ stuck ]

abbrev pub ◌>>◌ : {B : Type 0} → Io (Unit {0}) → Io B → Io B
m >> k = m >>= λ _. k

-- A read of `w` bits: the device's answer, cut to the width.
abbrev pub read : Device → ℕ → ℕ → Io ℕ
read dev w a t = let v = dev t w a % 2 ^ w in done v (rd w a v ∷ t)

abbrev pub write : ℕ → ℕ → ℕ → Io (Unit {0})
write w a v t = done tt (wr w a (v % 2 ^ w) ∷ t)

-- The instructions `in` and `out`. Ports are a device of their own.
abbrev pub read_port : Device → ℕ → ℕ → Io ℕ
read_port ports w p t = let v = ports t w p % 2 ^ w in done v (inp w p v ∷ t)

abbrev pub write_port : ℕ → ℕ → ℕ → Io (Unit {0})
write_port w p v t = done tt (outp w p (v % 2 ^ w) ∷ t)
