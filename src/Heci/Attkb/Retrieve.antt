-- ===== src/Heci/Attkb/Retrieve.antt =====
-- From an engine that serves a keybox, `get_attkb` retrieves the keybox.
use mathlib.Core.Path.{ap₂}
use mathlib.Core.List.{append_assoc, append-nil}
use native.Mathlib.Decide.{ℕ_discrete}
use trusty_platform_sand.Base.{
  ℕ, zero, suc, ◌+◌, ◌-◌, ◌%◌, ◌^◌, ◌≤◌, ◌<◌, ◌≡◌, refl, ap, sym, ◌∙◌, min, pos, true, ◌||◌, some,
  List, [], ◌++◌, arith, ltb, leb, ◌==◌, length, take, drop, slice, length-append, length-take,
  length-drop, take_add, drop-drop, take-append-length, drop-append_add,
}
use trusty_platform_sand.Base.Io.{Trace, Outcome, done, Io, pure}
use trusty_platform_sand.Base.Io.Spec.{Ends, Ends-if, Ends-bind}
use trusty_platform_sand.Heci.Attkb.{
  Exchange, Keybox, request, total_file_size, read_size, file_data, aligned_max_transfer_buffer,
  copy_bytes, failed, get_attkb_size, attkb_loop, get_attkb,
}
use trusty_platform_sand.Heci.Attkb.Serves.{Answered, Piece, Serves}

module _ {ℓ} {A : Type ℓ} (xs ys : List A) (o : ℕ) (inside : o ≤ length xs) where
  length-prefix : length (take o xs) ≡ o
  length-prefix = omega (arith, length-take o xs)

  take-prefix : take o (take o xs ++ ys) ≡ take o xs
  take-prefix =
      ap (λ k. take k (take o xs ++ ys)) (sym length-prefix) ∙ take-append-length (take o xs) ys

  drop-prefix : (n : ℕ) → drop (o + n) (take o xs ++ ys) ≡ drop n ys
  drop-prefix n =
      ap (λ k. drop (k + n) (take o xs ++ ys)) (sym length-prefix)
      ∙ drop-append_add (take o xs) ys n

module _ (file attkb : List ℕ) where
  -- The buffer when the first `o` bytes of the file are in it.
  abbrev pub partly : ℕ → List ℕ
  partly o = take o file ++ drop o attkb

  pub length-partly :
      (o : ℕ) → o ≤ length file → o ≤ length attkb → length (partly o) ≡ length attkb
  length-partly o h k =
      omega
        (arith, length-append (take o file) (drop o attkb), length-take o file, length-drop o attkb)

  pub copy_bytes-partly :
      (o k : ℕ) (t : Trace)
      → o + k ≤ length file
      → o + k ≤ length attkb
      → copy_bytes (partly o) o (slice o k file) t ≡ done (partly (o + k)) t
  unfolding copy_bytes
  copy_bytes-partly o k t inside room = rw guard (ap (λ l. done l t) copied)
    where
      length-slice : length (slice o k file) ≡ k
      length-slice = omega (arith, length-take k (drop o file), length-drop o file)

      guard : leb (o + length (slice o k file)) (length (partly o)) ≡ true
      guard = ground (arith, length-slice, length-partly o)

      copied :
          take o (partly o) ++ (slice o k file ++ drop (o + length (slice o k file)) (partly o))
          ≡ partly (o + k)
      copied =
          ap₂ ◌++◌ (take-prefix file (drop o attkb) o (omega arith)) (
            ap (λ l. slice o k file ++ l)
              (drop-prefix file (drop o attkb) o (omega arith) _
                ∙ ap (λ n. drop n (drop o attkb)) length-slice
                ∙ drop-drop o k attkb))
          ∙ sym (append_assoc (take o file) (slice o k file) (drop (o + k) attkb))
          ∙ ap (λ l. l ++ drop (o + k) attkb) (sym (take_add o k file))

  partly-length :
      length file ≤ length attkb → partly (length file) ≡ file ++ drop (length file) attkb
  partly-length room =
      ap (λ l. l ++ drop (length file) attkb)
        (ap (take (length file)) (sym (append-nil file)) ∙ take-append-length file [])

module _ (exchange : Exchange) (file attkb : List ℕ) (serves : Serves exchange file) where
  abbrev Whole : Outcome Keybox → Type 0
  Whole = Ends (length file, file ++ drop (length file) attkb)

  abbrev loop : ℕ → ℕ → ℕ → List ℕ → Io Keybox
  loop = attkb_loop exchange (length file)

  attkb_loop-zero :
      (rounds remaining offset : ℕ) (t : Trace)
      → length file ≤ length attkb
      → offset ≡ length file
      → remaining ≡ 0
      → Whole (loop (suc rounds) remaining offset (partly file attkb offset) t)
  unfolding attkb_loop
  attkb_loop-zero rounds remaining offset t room e z = (
    t,
    rw z (
        ap (λ l. done (length file, l) t)
          (ap (partly file attkb) e ∙ partly-length file attkb room)),
  )

  abbrev pub asked : ℕ → ℕ
  asked remaining = min remaining aligned_max_transfer_buffer % 2 ^ 16

  attkb_loop-step :
      (rounds remaining offset : ℕ) (t : Trace)
      → length file ≤ length attkb
      → offset + remaining ≡ length file
      → 0 < remaining
      → (p : Piece exchange file offset (asked remaining) t)
      → ((u : Trace)
          → Whole (
              loop rounds
                (remaining - read_size p.answer.buf)
                (offset + read_size p.answer.buf)
                (partly file attkb (offset + read_size p.answer.buf))
                u))
      → Whole (loop (suc rounds) remaining offset (partly file attkb offset) t)
  unfolding attkb_loop
  attkb_loop-step rounds remaining offset t room e more p ih =
      let k : ℕ = read_size p.answer.buf in
      Ends-if (remaining == 0) (pure (length file, partly file attkb offset)) _ t _ (ground arith) (
        Ends-bind (exchange (request offset (asked remaining))) _ t
          (pos p.answer.status, p.answer.buf) _ (p.answer.after, p.answer.answers)
          λ u.
            Ends-if
              (failed exchange (pos p.answer.status) p.answer.buf
                || (ltb remaining k || ltb (asked remaining) k))
              (pure (0, partly file attkb offset)) _ u _ (ground (arith, p.answer.accepted, p.fits))
              (Ends-bind
                (copy_bytes (partly file attkb offset) offset (take k (file_data p.answer.buf)))
                (λ attkb'. loop rounds (remaining - k) (offset + k) attkb') u
                (partly file attkb (offset + k)) _
                (
                  u,
                  rw p.holds (
                      copy_bytes-partly file attkb offset k u (omega (arith, p.fits))
                        (omega (arith, p.fits))),
                )
                ih))

  attkb_loop-Serves :
      (rounds remaining offset : ℕ) (t : Trace)
      → length file ≤ length attkb
      → offset + remaining ≡ length file
      → remaining < rounds
      → Whole (loop rounds remaining offset (partly file attkb offset) t)
  attkb_loop-Serves zero remaining offset t room e enough = absurd (omega arith)
  attkb_loop-Serves (suc rounds) remaining offset t room e enough = elim (ℕ_discrete remaining 0) [
    | yes z ↦ attkb_loop-zero rounds remaining offset t room (omega arith) z
    | no more ↦
        let p : Piece exchange file offset (asked remaining) t =
          serves.piece offset (asked remaining) t (omega arith) (omega arith) (omega arith) in
        attkb_loop-step rounds remaining offset t room e (omega arith) p (λ u.
          attkb_loop-Serves rounds (remaining - read_size p.answer.buf)
            (offset + read_size p.answer.buf) u room (omega (arith, p.fits))
            (omega (arith, p.not_empty)))
  ]

  pub get_attkb_size-Serves : (t : Trace) → Ends (length file) (get_attkb_size exchange t)
  unfolding get_attkb_size
  get_attkb_size-Serves t =
      let a : Answered exchange 0 0 t = serves.size t in
      Ends-bind (exchange (request 0 0)) _ t (pos a.status, a.buf) (length file)
        (a.after, a.answers)
        λ u.
          Ends-if (failed exchange (pos a.status) a.buf) (pure 0) (pure (total_file_size a.buf)) u _
            (ground (arith, a.accepted)) (u, ap (λ n. done n u) (serves.size_is t))

  -- From an engine that serves a file which is not empty and fits the keybox buffer, with more
  -- fuel than the file has bytes, `get_attkb` returns the size of the file and leaves the file at
  -- the start of the buffer and the other bytes as they were.
  pub get_attkb-Serves :
      (fuel : ℕ) (t : Trace)
      → 0 < length file
      → length file ≤ length attkb
      → length file < fuel
      → (u : Trace) × (get_attkb exchange fuel (some attkb) t
          ≡ done (length file, some (file ++ drop (length file) attkb)) u)
  unfolding get_attkb
  get_attkb-Serves fuel t some_bytes room enough =
      Ends-bind (get_attkb_size exchange) _ t (length file) _ (get_attkb_size-Serves t) λ u.
        Ends-if (length file == 0) (pure (0, some attkb)) _ u _ (ground arith) (
          Ends-bind (attkb_loop exchange (length file) fuel (length file) 0 attkb) _ u
            (length file, file ++ drop (length file) attkb) _
            (attkb_loop-Serves fuel (length file) 0 u room (omega arith) enough) (λ v. (v, refl)))
