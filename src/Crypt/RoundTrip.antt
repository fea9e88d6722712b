-- ===== src/Crypt/RoundTrip.antt =====
-- What an encryption makes is what a decryption takes.
use mathlib.Core.List.{append_assoc}
use trusty_platform_sand.Base.{
  ℕ, ◌+◌, ◌%◌, ◌^◌, ◌<◌, ◌≤◌, ◌≡◌, refl, ◌∙◌, ap, sym, false, Option, some, List, [], ◌∷◌, ◌++◌,
  arith, length, take, drop, slice, zeros, ◌==◌, length-append, take-append_all, drop-append_add,
}
use trusty_platform_sand.Crypt.{
  no_error, Evp, splice, gcm_tag_size, run, with_buffer, aes_256_gcm_encrypt, aes_256_gcm_decrypt,
}
use trusty_platform_sand.Crypt.Clean.{cleared_by}
use trusty_platform_sand.Crypt.Made.{length-splice}
use trusty_platform_sand.Crypt.Gcm.{IsGcm}
use trusty_platform_sand.Crypt.Open.{aes_256_gcm_decrypt_lem}
use trusty_platform_sand.Crypt.Seal.{sealed, splice-splice, encrypt_body-sealed}

module _ (evp : Evp) (key iv : List ℕ) (iv_size : ℕ) (aad : Option (List ℕ)) (aad_size : ℕ)
    (gcm : IsGcm evp key iv iv_size aad aad_size) (plain : List ℕ)
    (some_bytes : 0 < length plain) where
  encrypt-sealed :
      (out : List ℕ) (out_size : ℕ) (buf : List ℕ)
      → 0 < iv_size
      → length plain < 2 ^ 31
      → length plain + 16 ≤ length out
      → evp.malloc (length plain + 16) ≡ some buf
      → length buf ≡ length plain + 16
      → aes_256_gcm_encrypt evp
          (some key)
          (some iv)
          iv_size
          aad
          aad_size
          (some plain)
          (length plain)
          (some out)
          (some out_size)
        ≡ some (record {
          rc = no_error;
          out = some (sealed evp key iv iv_size aad aad_size gcm plain some_bytes out);
          out_size = some (length plain + 16);
          freed = zeros (length plain + 16) ∷ [];
        })
  unfolding aes_256_gcm_encrypt run
  encrypt-sealed out out_size buf long small fits block room =
      let m : ℕ = length plain in
      let cipher : List ℕ = gcm.stream plain in
      let tag : List ℕ = gcm.mac cipher in
      let size : (m + gcm_tag_size) % 2 ^ 64 ≡ m + 16 = omega arith in
      let some_iv : (iv_size == 0) ≡ false = ground arith in
      let lc : length cipher ≡ m = gcm.stream_length plain in
      let lt : length tag ≡ 16 = gcm.mac_length cipher in
      let r1 = length-splice 0 cipher buf (omega arith) in
      let clear : (zeros (m + 16) ++ drop (m + 16) (splice 0 tag (splice 0 cipher buf))) ∷ []
          ≡ zeros (m + 16) ∷ [] =
        cleared_by (m + 16) (splice 0 tag (splice 0 cipher buf))
          (length-splice 0 tag (splice 0 cipher buf) (omega arith) ∙ r1 ∙ room) in
      let stored : splice (length cipher + 0) tag (splice 0 cipher out)
          ≡ cipher ++ tag ++ drop (m + 16) out =
        splice-splice cipher tag out (length cipher + 0) (omega arith)
        ∙ ap (λ (k : ℕ). cipher ++ tag ++ drop k out) (omega arith) in
      let count : length cipher + 0 + 16 ≡ m + 16 = omega arith in
      rw (some_iv, size, with_buffer, block, size)
        (ap (run evp (m + 16)) (
            encrypt_body-sealed evp key iv iv_size aad aad_size gcm plain some_bytes out out_size
              buf fits room small)
          ∙ rw (clear, stored, count) refl)

  -- The pieces of what was sealed
  sealed-cipher :
      (out : List ℕ)
      → take (length plain) (sealed evp key iv iv_size aad aad_size gcm plain some_bytes out)
        ≡ gcm.stream plain
  sealed-cipher out =
      let cipher : List ℕ = gcm.stream plain in
      let tag : List ℕ = gcm.mac cipher in
      ap (take (length plain)) (append_assoc cipher tag (drop (length plain + 16) out))
      ∙ take-append_all cipher (tag ++ drop (length plain + 16) out) (length plain)
          (gcm.stream_length plain)

  sealed-tag :
      (out : List ℕ)
      → slice (length plain) 16 (sealed evp key iv iv_size aad aad_size gcm plain some_bytes out)
        ≡ gcm.mac (gcm.stream plain)
  sealed-tag out =
      let cipher : List ℕ = gcm.stream plain in
      let tag : List ℕ = gcm.mac cipher in
      let rest : List ℕ = tag ++ drop (length plain + 16) out in
      let same : length plain ≡ length cipher + 0 = omega (arith, gcm.stream_length plain) in
      ap (slice (length plain) 16) (append_assoc cipher tag (drop (length plain + 16) out))
      ∙ ap (λ (k : ℕ). take 16 (drop k (cipher ++ rest))) same
      ∙ ap (take 16) (drop-append_add cipher rest 0)
      ∙ take-append_all tag (drop (length plain + 16) out) 16 (gcm.mac_length cipher)

  -- With a library that does AES-GCM, pointers that are not NULL, a vector with a length, a text of
  -- between 1 and 2 ^ 31 - 1 bytes, room for the results and a heap with the blocks,
  -- `aes_256_gcm_encrypt` returns AES_GCM_NO_ERROR and the size of the text and a tag, and
  -- `aes_256_gcm_decrypt` of so many bytes of what it stored returns AES_GCM_NO_ERROR, the size of
  -- the text and the text.
  pub decrypt-encrypt :
      (out : List ℕ) (out_size : ℕ) (buf : List ℕ) (back : List ℕ) (back_size : ℕ)
      (back_buf : List ℕ)
      → 0 < iv_size
      → length plain < 2 ^ 31
      → length plain + 16 ≤ length out
      → evp.malloc (length plain + 16) ≡ some buf
      → length buf ≡ length plain + 16
      → length plain ≤ length back
      → evp.malloc (length plain) ≡ some back_buf
      → length back_buf ≡ length plain
      → (made : List ℕ) × (aes_256_gcm_encrypt evp
            (some key)
            (some iv)
            iv_size
            aad
            aad_size
            (some plain)
            (length plain)
            (some out)
            (some out_size)
          ≡ some (record {
            rc = no_error;
            out = some made;
            out_size = some (length plain + 16);
            freed = zeros (length plain + 16) ∷ [];
          }))
        × (aes_256_gcm_decrypt evp
              (some key)
              (some iv)
              iv_size
              aad
              aad_size
              (some made)
              (length plain + 16)
              (some back)
              (some back_size)
            ≡ some (record {
              rc = no_error;
              out = some (plain ++ drop (length plain) back);
              out_size = some (length plain);
              freed = zeros (length plain) ∷ [];
            }))
  decrypt-encrypt out out_size buf back back_size back_buf long small fits block room back_fits
        back_block back_room =
      let m : ℕ = length plain in
      let made : List ℕ = sealed evp key iv iv_size aad aad_size gcm plain some_bytes out in
      let cipher : List ℕ = gcm.stream plain in
      let tag : List ℕ = gcm.mac cipher in
      let long_enough : m + 16 ≤ length made = omega (
        arith,
        length-append (cipher ++ tag) (drop (m + 16) out),
        length-append cipher tag,
        gcm.stream_length plain,
        gcm.mac_length cipher,
      ) in
      let right_tag : slice m 16 made ≡ gcm.mac (take m made) =
        sealed-tag out ∙ sym (ap gcm.mac (sealed-cipher out)) in
      let text : gcm.stream (take m made) ≡ plain =
        ap gcm.stream (sealed-cipher out) ∙ gcm.stream_twice plain in
      (
        made,
        encrypt-sealed out out_size buf long small fits block room,
        (aes_256_gcm_decrypt_lem evp key iv iv_size aad aad_size gcm made m some_bytes long_enough
                back back_size back_buf long small back_fits back_block back_room).0
              right_tag
            ∙ rw text refl,
      )
