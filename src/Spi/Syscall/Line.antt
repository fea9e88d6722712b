-- ===== src/Spi/Syscall/Line.antt =====
-- What an application sends when it calls `sys_trusty_spi_write`.
use trusty_platform_sand.Base.{
  ℕ, ◌≤◌, ◌<◌, ◌≡◌, ap, ◌∙◌, true, some, List, ◌++◌, map, arith, leb, length, take, drop,
  length-append, length-take, take_all, take-append_all,
}
use trusty_platform_sand.Base.Io.{Device, Trace, done}
use trusty_platform_sand.Base.Io.Spec.{bind-done}
use trusty_platform_sand.Base.Io.Writes.{u32}
use trusty_platform_sand.Spi.{no_error, spi_write}
use trusty_platform_sand.Spi.Line.{IsReady, line, spi_write-line}
use trusty_platform_sand.Spi.Syscall.{Env, Kernel, sys_trusty_spi_write}
use trusty_platform_sand.Spi.Syscall.Bounds.{Allocates, CopiesInPlace}

-- On a controller that is ready at every read of its status, with a number of bytes that is not 0
-- and a heap that gives a block of that size, the call succeeds, and the words written to the data
-- register since are what the block holds after the copy from the user, whether or not the copy
-- succeeds: a failing one sends what it left of the heap.
pub sys_trusty_spi_write-line :
    (env : Env) (dev : Device) (base : ℕ) (tx_buff tx_bytes : ℕ) (buf : List ℕ) (k : Kernel)
    (t : Trace)
    → IsReady dev base
    → Allocates env
    → CopiesInPlace env
    → 0 < tx_bytes
    → env.malloc 0 tx_bytes ≡ some buf
    → (k' : Kernel) × (u : Trace) × (sys_trusty_spi_write env dev base tx_buff tx_bytes k t
        ≡ done (no_error, k') u)
      × (line base u ≡ line base t ++ map u32 (env.copy_from_user tx_buff buf).1)
unfolding sys_trusty_spi_write
sys_trusty_spi_write-line env dev base tx_buff tx_bytes buf k t ready sized in_place some_bytes e =
    let inside : leb tx_bytes (length buf) ≡ true = ground (arith, sized 0 tx_bytes buf e) in
    let sent : List ℕ = (env.copy_from_user tx_buff (take tx_bytes buf)).1 in
    let tx : List ℕ = sent ++ drop tx_bytes buf in
    let fits : tx_bytes ≤ length tx = omega (
      arith,
      sized 0 tx_bytes buf e,
      length-append sent (drop tx_bytes buf),
      in_place tx_buff (take tx_bytes buf),
      length-take tx_bytes buf,
    ) in
    let whole : take tx_bytes buf ≡ buf = take_all buf tx_bytes (sized 0 tx_bytes buf e) in
    let only_sent : take tx_bytes tx ≡ (env.copy_from_user tx_buff buf).1 =
      take-append_all sent (drop tx_bytes buf) tx_bytes (
        omega (
          arith,
          in_place tx_buff (take tx_bytes buf),
          length-take tx_bytes buf,
          sized 0 tx_bytes buf e,
        ))
      ∙ ap (λ (l : List ℕ). (env.copy_from_user tx_buff l).1) whole in
    let (drv', u, ends, bytes) =
      spi_write-line dev base ready tx tx_bytes k.drv t some_bytes fits in
    (
      record k { drv = drv' },
      u,
      rw (e, sys_trusty_spi_write, inside)
          (bind-done (spi_write dev base (some tx) tx_bytes k.drv) _ t u (no_error, drv') ends),
      bytes ∙ ap (λ (l : List ℕ). line base t ++ map u32 l) only_sent,
    )
