-- ===== src/Heci/Attkb/Engine.antt =====
-- An engine that holds a keybox and answers the requests over the registers: its body for a request
-- has the header of a MCA_BOOTLOADER_READ_ATTKB_EX_Response and a piece of the keybox.
use mathlib.Core.Path.{ap₂}
use trusty_platform_sand.Base.{
  ℕ, suc, ◌+◌, ◌*◌, ◌^◌, ◌≤◌, ◌<◌, ◌≡◌, refl, ap, sym, ◌∙◌, some, List, [], ◌∷◌, ◌++◌, arith,
  length, get_or, take, take-append_within, drop, slice,
}
use trusty_platform_sand.Base.Io.{Trace, done}
use trusty_platform_sand.Heci.Regs.{bits}
use trusty_platform_sand.Heci.Receive.{Machine}
use trusty_platform_sand.Heci.Attkb.{
  request, result, total_file_size, read_size, word_bytes, file_data, aligned_max_transfer_buffer,
  heci_exchange, get_attkb,
}
use trusty_platform_sand.Heci.Attkb.Serves.{Answered, Piece, Serves}
use trusty_platform_sand.Heci.Attkb.Retrieve.{get_attkb-Serves}
use trusty_platform_sand.Heci.Attkb.Transport.{IsEngine, over_request, heci_exchange-IsEngine}

-- The bodies report the size of the file, and give a piece that is not empty of what is asked for.
pub record Responds (respond : ℕ → ℕ → List ℕ) (file : List ℕ) : Type 0 where
  pub header : (offset size : ℕ) → 3 ≤ length (respond offset size)
  pub accepted : (offset size : ℕ) → result (respond offset size) ≡ 0
  pub size_is : total_file_size (respond 0 0) ≡ length file
  pub piece :
      (offset n : ℕ)
      → 0 < n
      → n ≤ aligned_max_transfer_buffer
      → offset + n ≤ length file
      → (0 < read_size (respond offset n))
        × (read_size (respond offset n) ≤ n)
        × (read_size (respond offset n) + 12 ≤ 4 * length (respond offset n))
        × (take (read_size (respond offset n)) (file_data (respond offset n))
            ≡ slice offset (read_size (respond offset n)) file)

word_bytes-append : (xs ys : List ℕ) → word_bytes (xs ++ ys) ≡ word_bytes xs ++ word_bytes ys
unfolding word_bytes
word_bytes-append [] ys = refl
word_bytes-append (x ∷ xs) ys = rw (word_bytes-append xs ys) refl

length-word_bytes : (xs : List ℕ) → length (word_bytes xs) ≡ 4 * length xs
unfolding word_bytes
length-word_bytes [] = refl
length-word_bytes (x ∷ xs) = omega (arith, length-word_bytes xs)

-- What lies behind a body with a whole header does not change its fields, and is behind its data.
module _ (rest : List ℕ) where
  result-append : (body : List ℕ) → 3 ≤ length body → result (body ++ rest) ≡ result body
  unfolding result
  result-append [] h = absurd (omega arith)
  result-append (x ∷ body) h = refl

  total_file_size-append :
      (body : List ℕ) → 3 ≤ length body → total_file_size (body ++ rest) ≡ total_file_size body
  unfolding total_file_size
  total_file_size-append [] h = absurd (omega arith)
  total_file_size-append (x ∷ []) h = absurd (omega arith)
  total_file_size-append (x ∷ y ∷ body) h = refl

  read_size-append : (body : List ℕ) → 3 ≤ length body → read_size (body ++ rest) ≡ read_size body
  unfolding read_size
  read_size-append [] h = absurd (omega arith)
  read_size-append (x ∷ []) h = absurd (omega arith)
  read_size-append (x ∷ y ∷ []) h = absurd (omega arith)
  read_size-append (x ∷ y ∷ z ∷ body) h = refl

  take-file_data :
      (body : List ℕ) (n : ℕ)
      → 3 ≤ length body
      → n + 12 ≤ 4 * length body
      → take n (file_data (body ++ rest)) ≡ take n (file_data body)
  unfolding file_data
  take-file_data [] n h e = absurd (omega arith)
  take-file_data (x ∷ []) n h e = absurd (omega arith)
  take-file_data (x ∷ y ∷ []) n h e = absurd (omega arith)
  take-file_data (x ∷ y ∷ z ∷ body) n h e =
      ap (take n) (word_bytes-append body rest)
      ∙ take-append_within n (word_bytes body) (word_bytes rest)
          (omega (arith, length-word_bytes body))

module _ (m : Machine) (fuel base : ℕ) (respond : ℕ → ℕ → List ℕ) (file : List ℕ)
    (engine : IsEngine m base respond) (responds : Responds respond file) where
  abbrev over : ℕ → ℕ → List ℕ
  over = over_request m (suc fuel) base respond engine

  -- The fields of the answer are those of the body.
  engine-Answered :
      (offset size : ℕ) (t : Trace)
      → offset < 2 ^ 16
      → size < 2 ^ 16
      → (a : Answered (heci_exchange m (suc fuel)) offset size t) × (a.buf ≡ over offset size)
  engine-Answered offset size t o s =
      let (u, e, x) = heci_exchange-IsEngine m fuel base respond engine offset size t o s in
      (
        record {
          status = 0;
          buf = over offset size;
          after = u;
          answers = e;
          accepted =
              result-append _ (respond offset size) (responds.header offset size)
              ∙ responds.accepted offset size;
        },
        refl,
      )

  file_short : length file < 2 ^ 16
  unfolding total_file_size
  file_short =
      let whole : bits (get_or (respond 0 0) 1 0) 0 16 ≡ length file = responds.size_is in
      omega (arith, whole)

  engine-Piece :
      (offset n : ℕ) (t : Trace)
      → 0 < n
      → n ≤ aligned_max_transfer_buffer
      → offset + n ≤ length file
      → Piece (heci_exchange m (suc fuel)) file offset n t
  engine-Piece offset n t some_bytes small inside =
      let body : List ℕ = respond offset n in
      let header : 3 ≤ length body = responds.header offset n in
      let (not_empty, fits, whole, holds) = responds.piece offset n some_bytes small inside in
      let (a, is_over) = engine-Answered offset n t (omega (arith, file_short)) (omega arith) in
      let behind : List ℕ = drop (length body) (request offset n) in
      let same : read_size a.buf ≡ read_size body =
        ap read_size is_over ∙ read_size-append behind body header in
      record {
        answer = a;
        not_empty = omega (arith, same);
        fits = omega (arith, same);
        holds =
            ap₂ (λ k buf. take k (file_data buf)) same is_over
            ∙ take-file_data behind body (read_size body) header whole
            ∙ holds
            ∙ ap (λ k. slice offset k file) (sym same);
      }

  pub heci_exchange-Serves : Serves (heci_exchange m (suc fuel)) file
  heci_exchange-Serves = record {
    size = λ t. (engine-Answered 0 0 t (omega arith) (omega arith)).0;
    size_is = λ t.
        ap total_file_size (engine-Answered 0 0 t (omega arith) (omega arith)).1
        ∙ total_file_size-append _ (respond 0 0) (responds.header 0 0)
        ∙ responds.size_is;
    piece = λ offset n t some_bytes small inside. engine-Piece offset n t some_bytes small inside;
  }

  -- Over the registers of a device that answers every request at once with one packet, whose
  -- bodies report the size of a file that is not empty and give pieces of it, `get_attkb` with a
  -- buffer that holds the file and more fuel than its bytes returns the size of the file, and
  -- leaves the file at the start of the buffer and the other bytes as they were.
  pub get_attkb-heci_exchange :
      (attkb : List ℕ) (rounds : ℕ) (t : Trace)
      → 0 < length file
      → length file ≤ length attkb
      → length file < rounds
      → (u : Trace) × (get_attkb (heci_exchange m (suc fuel)) rounds (some attkb) t
          ≡ done (length file, some (file ++ drop (length file) attkb)) u)
  get_attkb-heci_exchange attkb rounds t some_bytes room enough =
      get_attkb-Serves (heci_exchange m (suc fuel)) file attkb heci_exchange-Serves rounds t
        some_bytes room enough
