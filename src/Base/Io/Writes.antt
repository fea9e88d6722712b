-- ===== src/Base/Io/Writes.antt =====
-- The values that a program wrote to one address or read from it, in order.
use Prim.Native.Nat.{ℕ, ◌%◌, ◌^◌}
use mathlib.Core.Path.{◌≡◌, refl}
use mathlib.Core.Logic.{◌≢◌}
use mathlib.Core.List.{List, [], ◌∷◌, ◌++◌}
use native.Mathlib.Omega.{arith}
use trusty_platform_sand.Base.Tests.{◌==◌, if◌then◌else◌}
use trusty_platform_sand.Base.Io.{Trace, rd, wr, inp, outp}

abbrev pub u32 : ℕ → ℕ
u32 n = n % 2 ^ 32

unfoldable pub writes_to : ℕ → Trace → List ℕ
writes_to a [] = []
writes_to a (rd w x v ∷ t) = writes_to a t
writes_to a (inp w x v ∷ t) = writes_to a t
writes_to a (outp w x v ∷ t) = writes_to a t
writes_to a (wr w x v ∷ t) = if x == a then writes_to a t ++ (v ∷ []) else writes_to a t

pub writes_to-rd : (a w x v : ℕ) (t : Trace) → writes_to a (rd w x v ∷ t) ≡ writes_to a t
unfolding writes_to
writes_to-rd a w x v t = refl

pub writes_to-wr_self :
    (a w v : ℕ) (t : Trace) → writes_to a (wr w a v ∷ t) ≡ writes_to a t ++ (v ∷ [])
unfolding writes_to
writes_to-wr_self a w v t = ground arith

pub writes_to-wr_ne : (a w x v : ℕ) (t : Trace) → x ≢ a → writes_to a (wr w x v ∷ t) ≡ writes_to a t
unfolding writes_to
writes_to-wr_ne a w x v t ne = ground arith

pub ruleset writes_laws = (writes_to-rd, writes_to-wr_self, writes_to-wr_ne)

unfoldable pub reads_from : ℕ → Trace → List ℕ
reads_from a [] = []
reads_from a (wr w x v ∷ t) = reads_from a t
reads_from a (inp w x v ∷ t) = reads_from a t
reads_from a (outp w x v ∷ t) = reads_from a t
reads_from a (rd w x v ∷ t) = if x == a then reads_from a t ++ (v ∷ []) else reads_from a t

pub reads_from-rd_self :
    (a w v : ℕ) (t : Trace) → reads_from a (rd w a v ∷ t) ≡ reads_from a t ++ (v ∷ [])
unfolding reads_from
reads_from-rd_self a w v t = ground arith

pub reads_from-rd_ne :
    (a w x v : ℕ) (t : Trace) → x ≢ a → reads_from a (rd w x v ∷ t) ≡ reads_from a t
unfolding reads_from
reads_from-rd_ne a w x v t ne = ground arith
