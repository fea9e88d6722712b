-- ===== src/Crypt/Seal.antt =====
-- An encryption with a library that does AES-GCM, and the decryption of what it made.
use trusty_platform_sand.Base.{
  ℕ, ◌+◌, ◌^◌, ◌<◌, ◌≤◌, ◌≡◌, refl, ◌∙◌, ap, sym, true, pos, Option, List, ◌∷◌, ◌++◌, arith, length,
  take, drop, slice, length-take, length-drop, take_all, drop-append_add, drop-drop,
}
use trusty_platform_sand.Crypt.{
  err_generic, err_auth_failed, Call, encrypt_init, crypt, finish, get_tag, Evp, Work, next, to_int,
  splice, call_storing, copy_out, encrypt_body, start,
}
use trusty_platform_sand.Crypt.Made.{length-splice}
use trusty_platform_sand.Crypt.Gcm.{
  IsGcm, prepared, bind-next, call_storing-next, call_storing-none, copy_out-next, take-splice,
}
use trusty_platform_sand.Crypt.SetUp.{set_up-next}
use trusty_platform_sand.Crypt.Open.{to_int-pos}

-- Two pieces stored one behind the other
pub splice-splice :
    (a b mem : List ℕ) (m : ℕ)
    → length a ≡ m
    → splice m b (splice 0 a mem) ≡ a ++ b ++ drop (m + length b) mem
splice-splice a b mem m e =
    let start_is : take m (splice 0 a mem) ≡ a = take-splice a mem m e in
    let rest : drop (m + length b) (splice 0 a mem) ≡ drop (m + length b) mem =
      ap (λ (k : ℕ). drop (k + length b) (splice 0 a mem)) (sym e)
      ∙ drop-append_add a (drop (0 + length a) mem) (length b)
      ∙ drop-drop (0 + length a) (length b) mem
      ∙ ap (λ (k : ℕ). drop k mem) (omega arith) in
    rw (start_is, rest) refl

module _ (evp : Evp) (key iv : List ℕ) (iv_size : ℕ) (aad : Option (List ℕ)) (aad_size : ℕ)
    (gcm : IsGcm evp key iv iv_size aad aad_size) (plain : List ℕ)
    (some_bytes : 0 < length plain) where
  abbrev cipher : List ℕ
  cipher = gcm.stream plain

  abbrev tag : List ℕ
  tag = gcm.mac cipher

  length-cipher : length cipher ≡ length plain
  length-cipher = gcm.stream_length plain

  length-tag : length tag ≡ 16
  length-tag = gcm.mac_length cipher

  whole : take (length plain) plain ≡ plain
  whole = take_all plain (length plain) refl

  abbrev data_call : Call
  data_call = crypt plain (pos (length plain))

  abbrev before : List Call
  before = prepared (encrypt_init key iv) iv_size aad aad_size

  -- The state after the cipher text was made, and after the tag was
  abbrev with_cipher : List Call → List ℕ → ℕ → List ℕ → Work
  with_cipher calls out out_size buf = record {
    calls = calls;
    out_buf = splice 0 cipher buf;
    out = out;
    out_size = out_size;
  }

  abbrev with_tag : List ℕ → ℕ → List ℕ → Work
  with_tag out out_size buf = record {
    calls = get_tag 16 ∷ finish ∷ data_call ∷ before;
    out_buf = splice 0 tag (splice 0 cipher buf);
    out = splice 0 cipher out;
    out_size = out_size;
  }

  -- The caller's memory with the cipher text and the tag
  abbrev pub sealed : List ℕ → List ℕ
  sealed out = cipher ++ tag ++ drop (length plain + 16) out

  module _ (out : List ℕ) (out_size : ℕ) (buf : List ℕ) (fits : length plain + 16 ≤ length out)
      (room : length buf ≡ length plain + 16) where
    room-cipher : length (splice 0 cipher buf) ≡ length plain + 16
    room-cipher = length-splice 0 cipher buf (omega (arith, length-cipher)) ∙ room

    room-out : length (splice 0 cipher out) ≡ length out
    room-out = length-splice 0 cipher out (omega (arith, length-cipher))

    copy-cipher :
        copy_out evp 0
          (length cipher + 0)
          (with_cipher (finish ∷ data_call ∷ before) out out_size buf)
        ≡ next tt (with_cipher (finish ∷ data_call ∷ before) (splice 0 cipher out) out_size buf)
    copy-cipher =
        copy_out-next evp 0 (length cipher + 0) cipher
          (with_cipher (finish ∷ data_call ∷ before) out out_size buf)
          (take-splice cipher buf (length cipher + 0) (omega arith))
          (gcm.copies (take (length cipher + 0) out) cipher
            (omega (arith, length-take (length cipher + 0) out, length-cipher))
            (omega (arith, length-cipher)))
          (omega (arith, length-cipher)) (omega (arith, length-cipher, room-cipher))

    copy-tag :
        copy_out evp (length cipher + 0) 16 (with_tag out out_size buf)
        ≡ next tt (record (with_tag out out_size buf) {
          out = splice (length cipher + 0) tag (splice 0 cipher out);
        })
    copy-tag =
        copy_out-next evp (length cipher + 0) 16 tag (with_tag out out_size buf)
          (take-splice tag (splice 0 cipher buf) 16 length-tag)
          (gcm.copies (slice (length cipher + 0) 16 (splice 0 cipher out)) tag
            (omega (
              arith,
              length-take 16 (drop (length cipher + 0) (splice 0 cipher out)),
              length-drop (length cipher + 0) (splice 0 cipher out),
              length-cipher,
              length-tag,
              room-out,
            ))
            (omega (arith, length-tag)))
          (omega (arith, length-cipher, room-out))
          (omega (
            arith,
            length-tag,
            room-cipher,
            length-splice 0 tag (splice 0 cipher buf) (omega (arith, length-tag, room-cipher)),
          ))

    pub encrypt_body-sealed :
        length plain < 2 ^ 31
        → encrypt_body evp key iv iv_size aad aad_size plain
            (length plain)
            (start evp out out_size buf)
          ≡ next tt (record (with_tag out out_size buf) {
            out = splice (length cipher + 0) tag (splice 0 cipher out);
            out_size = length cipher + 0 + 16;
          })
    unfolding encrypt_body
    encrypt_body-sealed small =
        let data_len : to_int (length plain) ≡ pos (length plain) =
          to_int-pos (length plain) small in
        let w : Work = record (start evp out out_size buf) { calls = before } in
        let made : evp.stores (data_call ∷ before) ≡ cipher =
          gcm.crypted true plain (length plain) ∙ ap gcm.stream whole in
        let tagged : evp.stores (get_tag 16 ∷ finish ∷ data_call ∷ before) ≡ tag =
          gcm.tag_is plain (length plain) ∙ ap (λ (p : List ℕ). gcm.mac (gcm.stream p)) whole in
        set_up-next evp key iv iv_size aad_size true aad _ out out_size buf gcm
        ∙ rw data_len (
            bind-next (call_storing evp 0 data_call err_generic) _ w
              (with_cipher (data_call ∷ before) out out_size buf) (length cipher)
              (call_storing-next evp 0 data_call err_generic cipher w made
                (omega (arith, length-cipher)) (gcm.crypts true plain (length plain)))
            ∙ bind-next (call_storing evp (length cipher) finish err_generic) _
                (with_cipher (data_call ∷ before) out out_size buf)
                (with_cipher (finish ∷ data_call ∷ before) out out_size buf) 0
                (call_storing-none evp (length cipher) finish err_generic
                  (with_cipher (data_call ∷ before) out out_size buf) (gcm.finished _)
                  (omega (arith, length-cipher, room-cipher)) (gcm.finishes plain (length plain)))
            ∙ bind-next (copy_out evp 0 (length cipher + 0)) _
                (with_cipher (finish ∷ data_call ∷ before) out out_size buf)
                (with_cipher (finish ∷ data_call ∷ before) (splice 0 cipher out) out_size buf) tt
                copy-cipher
            ∙ bind-next (call_storing evp 0 (get_tag 16) err_auth_failed) _
                (with_cipher (finish ∷ data_call ∷ before) (splice 0 cipher out) out_size buf)
                (with_tag out out_size buf) (length tag)
                (call_storing-next evp 0 (get_tag 16) err_auth_failed tag _ tagged
                  (omega (arith, length-tag, room-cipher)) (gcm.gives_tag plain (length plain)))
            ∙ bind-next (copy_out evp (length cipher + 0) 16) _ (with_tag out out_size buf) _ tt
                copy-tag)
