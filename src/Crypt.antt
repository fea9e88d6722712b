-- ===== src/Crypt.antt =====
-- lib/hwkey_crypt/hwkey_crypt.c: the encryption of a blob and its tag. The EVP calls of the crypto
-- library are a parameter: a context is the calls that were made on it, the latest first, and the
-- library is a function of them. So are `malloc` and `memcpy_s`.
pub mod Flow
pub mod Made
pub mod Verified
pub mod Clean
pub mod Gcm
pub mod SetUp
pub mod Open
pub mod Seal
pub mod RoundTrip
mod Tests
pub use Flow.*
use trusty_platform_sand.Base.{
  ℕ, ◌+◌, ◌-◌, ◌*◌, ◌%◌, ◌^◌, ◌≤◌, ℤ, pos, negsuc, Bool, true, false, not, Option, none, some, List,
  [], ◌∷◌, ◌++◌, ltb, leb, ◌==◌, if◌then◌else◌, length, take, drop, slice, zeros,
}

-- sizeof(struct gcm_tag)
abbrev pub gcm_tag_size : ℕ
gcm_tag_size = 16

-- A size_t passed as an int
abbrev pub to_int : ℕ → ℤ
to_int n = let m = n % 2 ^ 32 in if ltb m (2 ^ 31) then pos m else negsuc (2 ^ 32 - 1 - m)

abbrev pub splice : ℕ → List ℕ → List ℕ → List ℕ
splice offset bytes mem = take offset mem ++ bytes ++ drop (offset + length bytes) mem

-- The bytes of the source from an offset that can be negative, if they are inside it.
abbrev pub bytes_at : ℤ → ℕ → List ℕ → Option (List ℕ)
bytes_at (pos m) n mem = if leb (m + n) (length mem) then some (slice m n mem) else none
bytes_at (negsuc m) n mem = none

module _ (evp : Evp) where
  abbrev pub create_ctx : Op (Unit {0})
  create_ctx w = if evp.ctx_new then next tt w else exit err_generic w

  -- A call on the context; the function ends with the result given when the call fails.
  unfoldable pub call : Call → Rc → Op (Unit {0})
  call c rc w =
      let w' = record w { calls = c ∷ w.calls } in
      if evp.succeeds w'.calls then next tt w' else exit rc w'

  -- A call that stores bytes in `out_buf` at an offset, and their number.
  unfoldable pub call_storing : ℕ → Call → Rc → Op ℕ
  unfolding call
  call_storing offset c rc w =
      let bytes = evp.stores (c ∷ w.calls) in
      if leb (offset + length bytes) (length w.out_buf)
      then (call c rc >> ret (length bytes)) (record w { out_buf = splice offset bytes w.out_buf })
      else fault

  -- `memcpy_s` from the start of `out_buf` to `out` at an offset, with the same size for both.
  unfoldable pub copy_out : ℕ → ℕ → Op (Unit {0})
  copy_out offset n w =
      let (copied, bytes) = evp.memcpy_s (slice offset n w.out) (take n w.out_buf) in
      let w' = record w { out = splice offset bytes w.out } in
      if not (leb (offset + n) (length w.out))
      then fault
      else if not (leb n (length w.out_buf))
      then fault
      else if copied
      then next tt w'
      else exit err_generic w'

  abbrev pub set_out_size : ℕ → Op (Unit {0})
  set_out_size n w = next tt (record w { out_size = n })

  unfoldable pub set_aad : Option (List ℕ) → ℕ → Op (Unit {0})
  unfolding call
  set_aad none aad_size = ret tt
  set_aad (some aad) aad_size = call (add_aad aad (to_int aad_size)) err_generic

  unfoldable pub encrypt_body :
      List ℕ → List ℕ → ℕ → Option (List ℕ) → ℕ → List ℕ → ℕ → Op (Unit {0})
  unfolding call call_storing copy_out set_aad
  encrypt_body key iv iv_size aad aad_size plain plain_size = do
    create_ctx
    call (encrypt_init key iv) err_generic
    call (set_ivlen (to_int iv_size)) err_generic
    set_aad aad aad_size
    out_len ← call_storing 0 (crypt plain (to_int plain_size)) err_generic
    cur_len ← call_storing out_len finish err_generic
    copy_out 0 (out_len + cur_len)
    n ← call_storing 0 (get_tag gcm_tag_size) err_auth_failed
    copy_out (out_len + cur_len) gcm_tag_size
    set_out_size (out_len + cur_len + gcm_tag_size)

  -- The tag is passed to the library from the end of the data.
  unfoldable pub pass_tag : Option (List ℕ) → Op (Unit {0})
  unfolding call
  pass_tag none w = fault
  pass_tag (some tag) w = call (set_tag tag) err_generic w

  unfoldable pub decrypt_body :
      List ℕ → List ℕ → ℕ → Option (List ℕ) → ℕ → List ℕ → ℕ → Op (Unit {0})
  unfolding call call_storing copy_out set_aad pass_tag
  decrypt_body key iv iv_size aad aad_size cipher cipher_size =
      let data_len = to_int (cipher_size + 2 ^ 64 - gcm_tag_size) in
      (do
        create_ctx
        call (decrypt_init key iv) err_generic
        call (set_ivlen (to_int iv_size)) err_generic
        set_aad aad aad_size
        out_len ← call_storing 0 (crypt cipher data_len) err_generic
        copy_out 0 out_len
        pass_tag (bytes_at data_len gcm_tag_size cipher)
        n ← call_storing 0 finish err_auth_failed
        set_out_size out_len)

  -- The label `exit`: the buffer is cleared and freed.
  abbrev pub clean_up : ℕ → Rc → Work → Result
  clean_up size rc w = record {
    rc = rc;
    out = some w.out;
    out_size = some w.out_size;
    freed = (zeros size ++ drop size w.out_buf) ∷ [];
  }

  unfoldable pub run : ℕ → Step (Unit {0}) → Option Result
  run size (next _ w) = some (clean_up size no_error w)
  run size (exit rc w) = some (clean_up size rc w)
  run size fault = none

  abbrev pub invalid : Option (List ℕ) → Option ℕ → Option Result
  invalid out out_size =
      some (record { rc = err_generic; out = out; out_size = out_size; freed = [] })

  abbrev pub start : List ℕ → ℕ → List ℕ → Work
  start out out_size out_buf = record {
    calls = [];
    out_buf = out_buf;
    out = out;
    out_size = out_size;
  }

  -- `none` is memory outside an object.
  unfoldable pub with_buffer : ℕ → List ℕ → ℕ → Op (Unit {0}) → Option Result
  unfolding run
  with_buffer size out out_size body = elim (evp.malloc size) [
    | none ↦ invalid (some out) (some out_size)
    | some out_buf ↦ run size (body (start out out_size out_buf))
  ]

  unfoldable pub aes_256_gcm_encrypt :
      Option (List ℕ)
      → Option (List ℕ)
      → ℕ
      → Option (List ℕ)
      → ℕ
      → Option (List ℕ)
      → ℕ
      → Option (List ℕ)
      → Option ℕ
      → Option Result
  unfolding with_buffer encrypt_body
  aes_256_gcm_encrypt (some key) (some iv) iv_size aad aad_size (some plain) plain_size (some out)
        (some out_size) =
      if iv_size == 0
      then invalid (some out) (some out_size)
      else with_buffer ((plain_size + gcm_tag_size) % 2 ^ 64) out out_size
          (encrypt_body key iv iv_size aad aad_size plain plain_size)
  aes_256_gcm_encrypt key iv iv_size aad aad_size plain plain_size out out_size =
      invalid out out_size

  unfoldable pub aes_256_gcm_decrypt :
      Option (List ℕ)
      → Option (List ℕ)
      → ℕ
      → Option (List ℕ)
      → ℕ
      → Option (List ℕ)
      → ℕ
      → Option (List ℕ)
      → Option ℕ
      → Option Result
  unfolding with_buffer decrypt_body
  aes_256_gcm_decrypt (some key) (some iv) iv_size aad aad_size (some cipher) cipher_size (some out)
        (some out_size) =
      if iv_size == 0
      then invalid (some out) (some out_size)
      else with_buffer ((cipher_size + 2 ^ 64 - gcm_tag_size) % 2 ^ 64) out out_size
          (decrypt_body key iv iv_size aad aad_size cipher cipher_size)
  aes_256_gcm_decrypt key iv iv_size aad aad_size cipher cipher_size out out_size =
      invalid out out_size
