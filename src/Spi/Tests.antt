-- ===== src/Spi/Tests.antt =====
-- A transfer of three bytes over a controller that is always ready.
use trusty_platform_sand.Base.{ℕ, ◌≡◌, refl, ◌⊎◌, some, List, [], ◌∷◌, arith}
use trusty_platform_sand.Base.Io.{Device, done, rd}
use trusty_platform_sand.Base.Io.Spec.{IsSafe}
use trusty_platform_sand.Spi.{
  SpiTranData, err_busy, spi_writeread, check_fifo, spi_sr_tnf, err_timed_out,
}
use trusty_platform_sand.Spi.Release.{IsReleased, spi_writeread-IsReleased}

-- Both queues are ready, and every word that is read is 12.
abbrev ready_controller : Device
ready_controller t w a = 12

abbrev stopped : SpiTranData
stopped = record { tx = []; tx_pos = 0; tx_length = 0; rx = []; rx_pos = 0; rx_length = 0 }

abbrev three : List ℕ
three = 1 ∷ 2 ∷ 3 ∷ []

spi_writeread-IsReleased_example :
    IsSafe
      (λ r u. (r.0 ≡ err_busy) ⊎ IsReleased 0x8000 u)
      (spi_writeread ready_controller 0x8000 (some three) 1 (some three) 2 stopped [])
spi_writeread-IsReleased_example =
    spi_writeread-IsReleased ready_controller 0x8000 three three 1 2 stopped [] (omega arith)
      (omega arith) (omega arith) (omega arith) (omega arith)

-- A queue that never has room: two reads, and the timeout.
check_fifo_times_out :
    check_fifo (λ t w a. 0) 0x8000 2 spi_sr_tnf []
    ≡ done err_timed_out (rd 32 0x8008 0 ∷ rd 32 0x8008 0 ∷ [])
unfolding check_fifo
check_fifo_times_out = refl
