-- ===== src/Heci/Attkb/Faults.antt =====
-- Two ways in which `get_attkb` goes wrong: a keybox that the buffer does not hold, and a transport
-- that fails.
use mathlib.Core.Path.{subst}
use native.Mathlib.Decide.{dec_le}
use trusty_platform_sand.Base.{
  ℕ, zero, suc, ◌+◌, ◌-◌, ◌≤◌, ◌<◌, ◌≡◌, refl, sym, ◌∙◌, pos, ◌||◌, some, List, ◌++◌, arith, ltb,
  ◌==◌, length, take, drop, slice, zeros, length-zeros, length-take, length-drop,
}
use trusty_platform_sand.Base.Io.{Trace, fault, Io, pure}
use trusty_platform_sand.Base.Io.Spec.{Ends, fault-bind, bind-fault, fault-if}
use trusty_platform_sand.Heci.Attkb.{
  Exchange, Keybox, request, result, total_file_size, read_size, file_data, copy_bytes, failed,
  get_attkb_size, attkb_loop, get_attkb, aligned_max_transfer_buffer,
}
use trusty_platform_sand.Heci.Attkb.Serves.{Answered, Piece, Serves}
use trusty_platform_sand.Heci.Attkb.Retrieve.{
  partly, copy_bytes-partly, length-partly, get_attkb_size-Serves, get_attkb-Serves, asked,
}

module _ (exchange : Exchange) (file attkb : List ℕ) (serves : Serves exchange file) where
  abbrev loop : ℕ → ℕ → ℕ → List ℕ → Io Keybox
  loop = attkb_loop exchange (length file)

  copy_bytes_too_long :
      (o k : ℕ) (t : Trace)
      → o + k ≤ length file
      → o ≤ length attkb
      → length attkb < o + k
      → copy_bytes (partly file attkb o) o (slice o k file) t ≡ fault
  unfolding copy_bytes
  copy_bytes_too_long o k t inside start over =
      ground (arith, length-take k (drop o file), length-drop o file, length-partly file attkb o)

  overflow-step :
      (rounds remaining offset : ℕ) (t : Trace)
      → offset + remaining ≡ length file
      → offset ≤ length attkb
      → 0 < remaining
      → (p : Piece exchange file offset (asked exchange file attkb serves remaining) t)
      → ((u : Trace)
          → offset + read_size p.answer.buf ≤ length attkb
          → loop rounds
              (remaining - read_size p.answer.buf)
              (offset + read_size p.answer.buf)
              (partly file attkb (offset + read_size p.answer.buf))
              u
            ≡ fault)
      → loop (suc rounds) remaining offset (partly file attkb offset) t ≡ fault
  unfolding attkb_loop
  overflow-step rounds remaining offset t e start more p ih =
      let k : ℕ = read_size p.answer.buf in
      let next : List ℕ → Io Keybox = λ attkb'. loop rounds (remaining - k) (offset + k) attkb' in
      let n : ℕ = asked exchange file attkb serves remaining in
      fault-if (remaining == 0) (pure (length file, partly file attkb offset)) _ t (ground arith) (
        fault-bind (exchange (request offset n)) _ t (pos p.answer.status, p.answer.buf)
          (p.answer.after, p.answer.answers)
          λ u.
            fault-if
              (failed exchange (pos p.answer.status) p.answer.buf || (ltb remaining k || ltb n k))
              (pure (0, partly file attkb offset)) _ u (ground (arith, p.answer.accepted, p.fits))
              (elim (dec_le (offset + k) (length attkb)) [
                | yes room ↦
                    fault-bind
                      (copy_bytes (partly file attkb offset) offset
                        (take k (file_data p.answer.buf)))
                      next u (partly file attkb (offset + k))
                      (
                        u,
                        rw p.holds
                            (copy_bytes-partly file attkb offset k u (omega (arith, p.fits)) room),
                      )
                      (λ v. ih v room)
                | no over ↦
                    bind-fault
                      (copy_bytes (partly file attkb offset) offset
                        (take k (file_data p.answer.buf)))
                      next u
                      (rw p.holds (
                        copy_bytes_too_long offset k u (omega (arith, p.fits)) start (omega arith)))
              ]))

  overflow-loop :
      (rounds remaining offset : ℕ) (t : Trace)
      → offset + remaining ≡ length file
      → offset ≤ length attkb
      → length attkb < length file
      → remaining < rounds
      → loop rounds remaining offset (partly file attkb offset) t ≡ fault
  overflow-loop zero remaining offset t e start over enough = absurd (omega arith)
  overflow-loop (suc rounds) remaining offset t e start over enough =
      let p : Piece exchange file offset (asked exchange file attkb serves remaining) t =
        serves.piece offset (asked exchange file attkb serves remaining) t (omega arith)
          (omega arith) (omega arith) in
      overflow-step rounds remaining offset t e start (omega arith) p (λ u room.
        overflow-loop rounds (remaining - read_size p.answer.buf) (offset + read_size p.answer.buf)
          u (omega (arith, p.fits)) room over (omega (arith, p.not_empty)))

  -- From an engine that serves a file which is longer than the keybox buffer, with more fuel than
  -- the file has bytes, `get_attkb` writes outside the buffer: the size that the engine reports is
  -- not compared with the size of the buffer.
  pub get_attkb_overflow :
      (fuel : ℕ) (t : Trace)
      → length attkb < length file
      → length file < fuel
      → get_attkb exchange fuel (some attkb) t ≡ fault
  unfolding get_attkb
  get_attkb_overflow fuel t over enough =
      fault-bind (get_attkb_size exchange) _ t (length file)
        (get_attkb_size-Serves exchange file attkb serves t)
        λ u. fault-if (length file == 0) (pure (0, some attkb)) _ u (ground arith) (
          bind-fault (attkb_loop exchange (length file) fuel (length file) 0 attkb) _ u
            (overflow-loop fuel (length file) 0 u (omega arith) (omega arith) over enough))

-- The size request is answered, and the exchange of every request for a piece fails: HeciSendwACK
-- returns 1 and the buffer still holds the request.
pub record Fails (exchange : Exchange) (n : ℕ) : Type 0 where
  pub size : (t : Trace) → Answered exchange 0 0 t
  pub size_is : (t : Trace) → total_file_size (size t).buf ≡ n
  pub piece :
      (offset m : ℕ) (t : Trace)
      → 0 < m
      → m ≤ aligned_max_transfer_buffer
      → Ends (pos 1, request offset m) (exchange (request offset m) t)

slice-zeros : (n o : ℕ) → o + 1 ≤ n → slice o 1 (zeros n) ≡ zeros 1
slice-zeros zero o h = absurd (omega arith)
slice-zeros (suc n) zero h = refl
slice-zeros (suc n) (suc o) h = slice-zeros n o (omega arith)

module _ (exchange : Exchange) (n : ℕ) (fails : Fails exchange n) where
  request-Piece :
      (offset m : ℕ) (t : Trace)
      → 0 < m
      → m ≤ aligned_max_transfer_buffer
      → offset + m ≤ length (zeros n)
      → Piece exchange (zeros n) offset m t
  unfolding request read_size result file_data
  request-Piece offset m t p small inside = record {
    answer = record {
      status = 1;
      buf = request offset m;
      after = (fails.piece offset m t p small).0;
      answers = (fails.piece offset m t p small).1;
      accepted = refl;
    };
    not_empty = omega arith;
    fits = omega arith;
    holds = sym (slice-zeros n offset (omega (arith, length-zeros n)));
  }

  Fails-Serves : Serves exchange (zeros n)
  Fails-Serves = record {
    size = fails.size;
    size_is = λ t. fails.size_is t ∙ sym (length-zeros n);
    piece = λ offset m t p small inside. request-Piece offset m t p small inside;
  }

  -- When only the request for the size is answered and every later exchange fails, `get_attkb`,
  -- with a buffer for the size and more fuel than it, reports success all the same: it returns
  -- the size, over zeros that no engine sent.
  pub get_attkb_silent_failure :
      (attkb : List ℕ) (fuel : ℕ) (t : Trace)
      → 0 < n
      → n ≤ length attkb
      → n < fuel
      → Ends (n, some (zeros n ++ drop n attkb)) (get_attkb exchange fuel (some attkb) t)
  get_attkb_silent_failure attkb fuel t p room enough =
      subst (λ k. Ends (k, some (zeros n ++ drop k attkb)) (get_attkb exchange fuel (some attkb) t))
        (length-zeros n)
        (get_attkb-Serves exchange (zeros n) attkb Fails-Serves fuel t
          (omega (arith, length-zeros n)) (omega (arith, length-zeros n))
          (omega (arith, length-zeros n)))
