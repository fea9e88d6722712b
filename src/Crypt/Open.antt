-- ===== src/Crypt/Open.antt =====
-- A decryption with a library that does AES-GCM.
use trusty_platform_sand.Base.{
  ℕ, ◌+◌, ◌-◌, ◌%◌, ◌^◌, ◌<◌, ◌≤◌, ◌≡◌, ◌≢◌, refl, ◌∙◌, ap, true, false, pos, Option, some, List,
  [], ◌∷◌, ◌++◌, arith, ltb, leb, length, take, drop, slice, zeros, ◌==◌, length-take,
}
use trusty_platform_sand.Crypt.{
  no_error, err_generic, err_auth_failed, Call, decrypt_init, crypt, finish, set_tag, Evp, Work,
  Step, next, ◌>>=◌, to_int, splice, bytes_at, gcm_tag_size, call_storing, copy_out, set_out_size,
  pass_tag, decrypt_body, run, start, with_buffer, aes_256_gcm_decrypt,
}
use trusty_platform_sand.Crypt.Clean.{cleared_by}
use trusty_platform_sand.Crypt.Made.{length-splice}
use trusty_platform_sand.Crypt.Gcm.{
  IsGcm, prepared, bind-next, bind-exit, called, call-next, call_storing-next, call_storing-none,
  call_storing-none_exit, copy_out-next, take-splice,
}
use trusty_platform_sand.Crypt.SetUp.{set_up-next}

pub to_int-pos : (m : ℕ) → m < 2 ^ 31 → to_int m ≡ pos m
to_int-pos m h =
    let small : m % 2 ^ 32 ≡ m = omega arith in
    let half : ltb m (2 ^ 31) ≡ true = ground arith in rw (small, half) refl

to_int-data : (m : ℕ) → m < 2 ^ 31 → to_int (m + 16 + 2 ^ 64 - gcm_tag_size) ≡ pos m
to_int-data m h =
    let small : (m + 16 + 2 ^ 64 - gcm_tag_size) % 2 ^ 32 ≡ m = omega arith in
    let half : ltb m (2 ^ 31) ≡ true = ground arith in rw (small, half) refl

module _ (evp : Evp) (key iv : List ℕ) (iv_size : ℕ) (aad : Option (List ℕ)) (aad_size : ℕ)
    (gcm : IsGcm evp key iv iv_size aad aad_size) (cipher : List ℕ) (m : ℕ) (some_bytes : 0 < m)
    (whole : m + 16 ≤ length cipher) where
  abbrev plain : List ℕ
  plain = gcm.stream (take m cipher)

  length-plain : length plain ≡ m
  length-plain = gcm.stream_length (take m cipher) ∙ omega (arith, length-take m cipher)

  abbrev calls : List Call
  calls =
      set_tag (slice m 16 cipher)
      ∷ crypt cipher (pos m)
      ∷ prepared (decrypt_init key iv) iv_size aad aad_size

  -- What is there before the tag is checked
  abbrev unchecked : List ℕ → ℕ → List ℕ → Work
  unchecked out out_size buf = record {
    calls = calls;
    out_buf = splice 0 plain buf;
    out = splice 0 plain out;
    out_size = out_size;
  }

  -- The start of the memory that the plain text is stored in
  abbrev with_plain : List ℕ → ℕ → List ℕ → Work
  with_plain out out_size buf = record {
    calls = crypt cipher (pos m) ∷ prepared (decrypt_init key iv) iv_size aad aad_size;
    out_buf = splice 0 plain buf;
    out = out;
    out_size = out_size;
  }

  copy-plain :
      (out : List ℕ) (out_size : ℕ) (buf : List ℕ)
      → m ≤ length out
      → length buf ≡ m
      → copy_out evp 0 (length plain) (with_plain out out_size buf)
        ≡ next tt (record (with_plain out out_size buf) { out = splice 0 plain out })
  copy-plain out out_size buf fits room =
      copy_out-next evp 0 (length plain) plain (with_plain out out_size buf)
        (take-splice plain buf (length plain) refl)
        (gcm.copies (slice 0 (length plain) out) plain
          (omega (arith, length-take (length plain) out, length-plain))
          (omega (arith, length-plain)))
        (omega (arith, length-plain))
        (omega (arith, length-plain, length-splice 0 plain buf (omega (arith, length-plain))))

  pass-tag :
      (w : Work)
      → w.calls ≡ crypt cipher (pos m) ∷ prepared (decrypt_init key iv) iv_size aad aad_size
      → pass_tag evp (bytes_at (pos m) gcm_tag_size cipher) w ≡ next tt (record w { calls = calls })
  unfolding pass_tag
  pass-tag w e =
      let c : Call = set_tag (slice m 16 cipher) in
      let inside : leb (m + 16) (length cipher) ≡ true = ground arith in
      let good : evp.succeeds (c ∷ w.calls) ≡ true =
        rw e (gcm.takes_tag (slice m 16 cipher) cipher m) in
      rw (inside, pass_tag)
        (call-next evp c err_generic w good
          ∙ ap (λ (h : List Call). next tt (record w { calls = c ∷ h })) e)

  decrypt_body-unchecked :
      (out : List ℕ) (out_size : ℕ) (buf : List ℕ)
      → m < 2 ^ 31
      → m ≤ length out
      → length buf ≡ m
      → decrypt_body evp key iv iv_size aad aad_size cipher (m + 16) (start evp out out_size buf)
        ≡ (call_storing evp 0 finish err_auth_failed >>= λ n. set_out_size evp (length plain))
            (unchecked out out_size buf)
  unfolding decrypt_body
  decrypt_body-unchecked out out_size buf small fits room =
      let data_len : to_int (m + 16 + 2 ^ 64 - gcm_tag_size) ≡ pos m = to_int-data m small in
      let c : Call = crypt cipher (pos m) in
      let w : Work = record (start evp out out_size buf) {
        calls = prepared (decrypt_init key iv) iv_size aad aad_size;
      } in
      set_up-next evp key iv iv_size aad_size false aad _ out out_size buf gcm
      ∙ rw data_len (
          bind-next (call_storing evp 0 c err_generic) _ w (with_plain out out_size buf)
            (length plain)
            (call_storing-next evp 0 c err_generic plain w (gcm.crypted false cipher m)
              (omega (arith, length-plain)) (gcm.crypts false cipher m))
          ∙ bind-next (copy_out evp 0 (length plain)) _ (with_plain out out_size buf) _ tt
              (copy-plain out out_size buf fits room)
          ∙ bind-next (pass_tag evp (bytes_at (pos m) gcm_tag_size cipher)) _
              (record (with_plain out out_size buf) { out = splice 0 plain out })
              (unchecked out out_size buf) tt (pass-tag _ refl))

  -- The caller's memory with the plain text
  abbrev pub with_text : List ℕ → List ℕ
  with_text out = plain ++ drop m out

  splice-plain : (out : List ℕ) → splice 0 plain out ≡ with_text out
  splice-plain out = ap (λ (k : ℕ). plain ++ drop k out) (omega (arith, length-plain))

  -- The function returns once its body is at an end.
  decrypt-run :
      (out : List ℕ) (out_size : ℕ) (buf : List ℕ) (s : Step (Unit {0}))
      → 0 < iv_size
      → m < 2 ^ 31
      → evp.malloc m ≡ some buf
      → decrypt_body evp key iv iv_size aad aad_size cipher (m + 16) (start evp out out_size buf)
        ≡ s
      → aes_256_gcm_decrypt evp
          (some key)
          (some iv)
          iv_size
          aad
          aad_size
          (some cipher)
          (m + 16)
          (some out)
          (some out_size)
        ≡ run evp m s
  unfolding aes_256_gcm_decrypt
  decrypt-run out out_size buf s long small block e =
      let size : (m + 16 + 2 ^ 64 - gcm_tag_size) % 2 ^ 64 ≡ m = omega arith in
      let some_iv : (iv_size == 0) ≡ false = ground arith in
      rw (some_iv, size, with_buffer, block, size) (ap (run evp m) e)

  -- With such a library, pointers that are not NULL, a vector with a length, a cipher text of
  -- between 1 and 2 ^ 31 - 1 bytes with its tag, room for the plain text and a heap with the block:
  -- with the right tag `aes_256_gcm_decrypt` returns AES_GCM_NO_ERROR and the number of bytes, with
  -- another tag AES_GCM_ERR_AUTH_FAILED and the caller's number as it was, and in both cases the
  -- caller's memory holds the decrypted bytes.
  pub aes_256_gcm_decrypt_lem :
      (out : List ℕ) (out_size : ℕ) (buf : List ℕ)
      → 0 < iv_size
      → m < 2 ^ 31
      → m ≤ length out
      → evp.malloc m ≡ some buf
      → length buf ≡ m
      → (slice m 16 cipher ≡ gcm.mac (take m cipher)
          → aes_256_gcm_decrypt evp
              (some key)
              (some iv)
              iv_size
              aad
              aad_size
              (some cipher)
              (m + 16)
              (some out)
              (some out_size)
            ≡ some (record {
              rc = no_error;
              out = some (with_text out);
              out_size = some m;
              freed = zeros m ∷ [];
            }))
        × (slice m 16 cipher ≢ gcm.mac (take m cipher)
            → aes_256_gcm_decrypt evp
                (some key)
                (some iv)
                iv_size
                aad
                aad_size
                (some cipher)
                (m + 16)
                (some out)
                (some out_size)
              ≡ some (record {
                rc = err_auth_failed;
                out = some (with_text out);
                out_size = some out_size;
                freed = zeros m ∷ [];
              }))
  unfolding run
  aes_256_gcm_decrypt_lem out out_size buf long small fits block room =
      let w : Work = unchecked out out_size buf in
      let body = decrypt_body-unchecked out out_size buf small fits room in
      let tag : List ℕ = slice m 16 cipher in
      let clear : (zeros m ++ drop m (splice 0 plain buf)) ∷ [] ≡ zeros m ∷ [] =
        cleared_by m (splice 0 plain buf)
          (length-splice 0 plain buf (omega (arith, length-plain)) ∙ room) in
      (
        λ e.
            decrypt-run out out_size buf _ long small block (
              body
              ∙ bind-next (call_storing evp 0 finish err_auth_failed) _ w (called evp finish w) 0 (
                  call_storing-none evp 0 finish err_auth_failed w (gcm.finished calls)
                    (omega arith) (gcm.accepts tag cipher m e)))
            ∙ rw (clear, splice-plain out, length-plain) refl,
        λ ne.
            decrypt-run out out_size buf _ long small block (
              body
              ∙ bind-exit (call_storing evp 0 finish err_auth_failed) _ w (called evp finish w)
                  err_auth_failed
                  (call_storing-none_exit evp 0 finish err_auth_failed w (gcm.finished calls)
                    (omega arith) (gcm.rejects tag cipher m ne)))
            ∙ rw (clear, splice-plain out) refl,
      )
