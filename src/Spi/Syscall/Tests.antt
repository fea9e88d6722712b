-- ===== src/Spi/Syscall/Tests.antt =====
-- The system calls on a heap of nines, with a user's memory of sevens.
use trusty_platform_sand.Base.{
  ℕ, ◌≡◌, refl, true, some, List, [], ◌∷◌, ◌++◌, map, arith, length, replicate, length-replicate,
  ◌∙◌, ap, sym,
}
use mathlib.Core.Option.{some-injective}
use trusty_platform_sand.Base.Io.{Device, Trace, done}
use trusty_platform_sand.Base.Io.Spec.{IsSafe}
use trusty_platform_sand.Base.Io.Writes.{u32}
use trusty_platform_sand.Spi.{SpiTranData, no_error, spi_write}
use trusty_platform_sand.Spi.Exchange.{low_bytes, came}
use trusty_platform_sand.Base.{drop}
use trusty_platform_sand.Spi.Syscall.Exchange.{sys_trusty_spi_writeread-line}
use trusty_platform_sand.Spi.Line.{IsReady, line, spi_write-line}
use trusty_platform_sand.Spi.Syscall.{Env, Kernel, sys_trusty_spi_write, sys_trusty_spi_writeread}
use trusty_platform_sand.Spi.Syscall.Bounds.{
  Allocates, CopiesInPlace, Delivered, sys_trusty_spi_writeread-Delivered,
}
use trusty_platform_sand.Spi.Syscall.Line.{sys_trusty_spi_write-line}

abbrev sevens : List ℕ → List ℕ
sevens [] = []
sevens (x ∷ xs) = 7 ∷ sevens xs

length-sevens : (xs : List ℕ) → length (sevens xs) ≡ length xs
length-sevens [] = refl
length-sevens (x ∷ xs) = omega (arith, length-sevens xs)

abbrev env : Env
env = record {
  malloc = λ i n. some (replicate n 9);
  copy_from_user = λ a bytes. (true, sevens bytes);
  copy_to_user = λ a n. true;
}

env-Allocates : Allocates env
env-Allocates i n block e =
    ap (length {A = ℕ}) (sym (some-injective _ _ e)) ∙ length-replicate {A = ℕ} n 9

env-CopiesInPlace : CopiesInPlace env
env-CopiesInPlace a bytes = length-sevens bytes

abbrev kernel : Kernel
kernel = record {
  drv = record { tx = []; tx_pos = 0; tx_length = 0; rx = []; rx_pos = 0; rx_length = 0 };
  copied = [];
}

-- Both queues are ready, and every word that is read is 12.
abbrev controller : Device
controller t w a = 12

controller-IsReady : IsReady controller 0x8000
controller-IsReady = record { tnf = λ t. omega arith; rne = λ t. omega arith; bsy = λ t. refl }

spi_write-line_example :
    (drv' : SpiTranData) × (u : Trace) × (spi_write controller 0x8000
        (some (1 ∷ 2 ∷ []))
        2
        kernel.drv
        []
      ≡ done (no_error, drv') u)
    × (line 0x8000 u ≡ line 0x8000 [] ++ (1 ∷ 2 ∷ []))
spi_write-line_example =
    spi_write-line controller 0x8000 controller-IsReady (1 ∷ 2 ∷ []) 2 kernel.drv [] (omega arith)
      (omega arith)

sys_trusty_spi_write-line_example :
    (k' : Kernel) × (u : Trace) × (sys_trusty_spi_write env controller 0x8000 100 2 kernel []
      ≡ done (no_error, k') u)
    × (line 0x8000 u ≡ line 0x8000 [] ++ map u32 (7 ∷ 7 ∷ []))
sys_trusty_spi_write-line_example =
    sys_trusty_spi_write-line env controller 0x8000 100 2 (9 ∷ 9 ∷ []) kernel [] controller-IsReady
      env-Allocates env-CopiesInPlace (omega arith) refl

sys_trusty_spi_writeread-Delivered_example :
    IsSafe
      (Delivered 101 2 kernel)
      (sys_trusty_spi_writeread env controller 0x8000 50 1 100 2 kernel [])
sys_trusty_spi_writeread-Delivered_example =
    sys_trusty_spi_writeread-Delivered env controller 0x8000 50 1 100 2 kernel [] env-Allocates
      env-CopiesInPlace (omega arith) (omega arith) (omega arith)

sys_trusty_spi_writeread-line_example :
    (k' : Kernel) × (u : Trace) × (got : List ℕ) × (sys_trusty_spi_writeread env controller 0x8000
        50 2 100 1 kernel []
      ≡ done (no_error, k') u)
    × (line 0x8000 u ≡ line 0x8000 [] ++ map u32 (7 ∷ 7 ∷ 9 ∷ []))
    × (came 0x8000 u ≡ came 0x8000 [] ++ got)
    × (length got ≡ 3)
    × (k'.copied ≡ (102, drop 2 (low_bytes got)) ∷ [])
sys_trusty_spi_writeread-line_example =
    sys_trusty_spi_writeread-line env controller 0x8000 50 2 100 1 (9 ∷ 9 ∷ 9 ∷ []) (9 ∷ 9 ∷ 9 ∷ [])
      kernel [] controller-IsReady env-Allocates env-CopiesInPlace (omega arith) (omega arith)
      (omega arith) refl refl refl
