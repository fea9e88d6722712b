-- ===== src/Spi/Syscall/Exchange.antt =====
-- What an application sends and receives when it calls `sys_trusty_spi_writeread`.
use trusty_platform_sand.Base.{
  ℕ, zero, suc, [], ◌+◌, ◌≤◌, ◌<◌, ◌≡◌, refl, ap, ◌∙◌, true, some, List, ◌∷◌, ◌++◌, map, arith, leb,
  length, take, drop, length-append, length-take, length-drop, take_all, ◌%◌, ◌^◌,
}
use mathlib.Core.List.{append-nil}
use trusty_platform_sand.Base.Io.{Device, Trace, done}
use trusty_platform_sand.Base.Io.Spec.{bind-done}
use trusty_platform_sand.Base.Io.Writes.{u32}
use trusty_platform_sand.Spi.{no_error, SpiTranData, spi_writeread}
use trusty_platform_sand.Spi.Line.{IsReady, line}
use trusty_platform_sand.Spi.Exchange.{low_bytes, came, length-map}
use trusty_platform_sand.Spi.FullDuplex.{spi_writeread-line}
use trusty_platform_sand.Spi.Syscall.{
  Env, Kernel, fill_from_user, reply, send_to_user, exchange_blocks, sys_trusty_spi_writeread,
}
use trusty_platform_sand.Spi.Syscall.Bounds.{Allocates, CopiesInPlace}

drop_all : (xs : List ℕ) (n : ℕ) → length xs ≡ n → drop n xs ≡ []
drop_all [] zero e = refl
drop_all [] (suc n) e = refl
drop_all (x ∷ xs) zero e = absurd (omega arith)
drop_all (x ∷ xs) (suc n) e = drop_all xs n (omega arith)

module _ (env : Env) (dev : Device) (base : ℕ) where
  -- The bytes that follow the first `a` of a full block go to the user.
  reply-ends :
      (place a b : ℕ) (k : Kernel) (drv : SpiTranData) (t : Trace)
      → length drv.rx ≡ a + b
      → env.copy_to_user place b ≡ true
      → reply env dev base place a b k (no_error, drv) t
        ≡ done (no_error, record k { drv = drv; copied = (place, drop a drv.rx) ∷ k.copied }) t
  unfolding reply send_to_user
  reply-ends place a b k drv t size users =
      let inside : leb (a + b) (length drv.rx) ≡ true = ground arith in
      let all : take b (drop a drv.rx) ≡ drop a drv.rx =
        take_all (drop a drv.rx) b (omega (arith, length-drop a drv.rx)) in
      rw (inside, users, all) refl

  fill_from_user-ends :
      (tx_buff size : ℕ) (buf : List ℕ) (t : Trace)
      → size ≤ length buf
      → fill_from_user env dev base tx_buff size buf t
        ≡ done ((env.copy_from_user tx_buff (take size buf)).1 ++ drop size buf) t
  unfolding fill_from_user
  fill_from_user-ends tx_buff size buf t h =
      let inside : leb size (length buf) ≡ true = ground arith in rw inside refl

  blocks_given :
      (tx_buff tx_bytes rx_buff rx_bytes : ℕ) (krx_buf ktx_buf : List ℕ) (k : Kernel) (t : Trace)
      → env.malloc 0 ((tx_bytes + rx_bytes) % 2 ^ 32) ≡ some krx_buf
      → env.malloc 1 ((tx_bytes + rx_bytes) % 2 ^ 32) ≡ some ktx_buf
      → sys_trusty_spi_writeread env dev base tx_buff tx_bytes rx_buff rx_bytes k t
        ≡ exchange_blocks env dev base tx_buff tx_bytes rx_buff rx_bytes krx_buf ktx_buf k t
  unfolding sys_trusty_spi_writeread
  blocks_given tx_buff tx_bytes rx_buff rx_bytes krx_buf ktx_buf k t e f =
      rw (e, sys_trusty_spi_writeread, f) refl

  -- On a controller that is ready at every read of its status, with two numbers of bytes that are
  -- not 0 and whose sum fits 32 bits, a heap that gives both blocks and a place that is the user's,
  -- the call succeeds: the words written to the data register since are the user's bytes and then
  -- the bytes that the heap left behind them, as many words were read from it, and the user
  -- receives the low bytes of those behind the first, as many as were asked for, at an address
  -- that is behind the given one by the number of bytes sent.
  pub sys_trusty_spi_writeread-line :
      (tx_buff tx_bytes rx_buff rx_bytes : ℕ) (krx_buf ktx_buf : List ℕ) (k : Kernel) (t : Trace)
      → IsReady dev base
      → Allocates env
      → CopiesInPlace env
      → 0 < tx_bytes
      → 0 < rx_bytes
      → tx_bytes + rx_bytes < 2 ^ 32
      → env.malloc 0 (tx_bytes + rx_bytes) ≡ some krx_buf
      → env.malloc 1 (tx_bytes + rx_bytes) ≡ some ktx_buf
      → env.copy_to_user (rx_buff + tx_bytes) rx_bytes ≡ true
      → (k' : Kernel) × (u : Trace) × (got : List ℕ) × (sys_trusty_spi_writeread env dev base
            tx_buff tx_bytes rx_buff rx_bytes k t
          ≡ done (no_error, k') u)
        × (line base u
            ≡ line base t
              ++ map u32
                  ((env.copy_from_user tx_buff (take tx_bytes ktx_buf)).1 ++ drop tx_bytes ktx_buf))
        × (came base u ≡ came base t ++ got)
        × (length got ≡ tx_bytes + rx_bytes)
        × (k'.copied ≡ (rx_buff + tx_bytes, drop tx_bytes (low_bytes got)) ∷ k.copied)
  unfolding exchange_blocks
  sys_trusty_spi_writeread-line tx_buff tx_bytes rx_buff rx_bytes krx_buf ktx_buf k t ready sized
        in_place some_tx some_rx small e f users =
      let n : ℕ = tx_bytes + rx_bytes in
      let total : (tx_bytes + rx_bytes) % 2 ^ 32 ≡ n = omega arith in
      let rx_size : length krx_buf ≡ n = sized 0 n krx_buf e in
      let tx_size : length ktx_buf ≡ n = sized 1 n ktx_buf f in
      let sent : List ℕ = (env.copy_from_user tx_buff (take tx_bytes ktx_buf)).1 in
      let tx : List ℕ = sent ++ drop tx_bytes ktx_buf in
      let whole : length tx ≡ n = omega (
        arith,
        length-append sent (drop tx_bytes ktx_buf),
        in_place tx_buff (take tx_bytes ktx_buf),
        length-take tx_bytes ktx_buf,
        length-drop tx_bytes ktx_buf,
        tx_size,
      ) in
      let (drv', u, got, ends, bytes, words, count, buffer) =
        spi_writeread-line dev base ready tx krx_buf tx_bytes rx_bytes k.drv t some_tx some_rx small
          (omega (arith, whole)) (omega (arith, rx_size)) in
      let size : length (low_bytes got) ≡ n = length-map (λ w. w % 2 ^ 8) got ∙ count in
      let full : length drv'.rx ≡ n =
        ap length buffer
        ∙ omega (
          arith,
          length-append (low_bytes got) (drop n krx_buf),
          length-drop n krx_buf,
          size,
          rx_size,
        ) in
      let k' : Kernel = record k {
        drv = drv';
        copied = (rx_buff + tx_bytes, drop tx_bytes drv'.rx) ∷ k.copied;
      } in
      let none_left : drop n krx_buf ≡ [] = drop_all krx_buf n rx_size in
      (
        k',
        u,
        got,
        blocks_given tx_buff tx_bytes rx_buff rx_bytes krx_buf ktx_buf k t
              (ap (env.malloc 0) total ∙ e) (ap (env.malloc 1) total ∙ f)
            ∙ bind-done (fill_from_user env dev base tx_buff tx_bytes ktx_buf) _ t t tx
                (fill_from_user-ends tx_buff tx_bytes ktx_buf t (omega (arith, tx_size)))
            ∙ bind-done (spi_writeread dev base (some tx) tx_bytes (some krx_buf) rx_bytes k.drv) _
                t u (no_error, drv') ends
            ∙ reply-ends (rx_buff + tx_bytes) tx_bytes rx_bytes k drv' u full users,
        bytes ∙ ap (λ (l : List ℕ). line base t ++ map u32 l) (take_all tx n whole),
        words,
        count,
        ap (λ (l : List ℕ). (rx_buff + tx_bytes, drop tx_bytes l) ∷ k.copied)
            (buffer
              ∙ ap (λ (l : List ℕ). low_bytes got ++ l) none_left
              ∙ append-nil (low_bytes got)),
      )
