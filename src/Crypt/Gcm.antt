-- ===== src/Crypt/Gcm.antt =====
-- A library that does AES-GCM, and what the two functions compute with it.
use mathlib.Core.List.{append-nil}
use trusty_platform_sand.Base.{
  take-drop, ℕ, ◌+◌, ◌<◌, ◌≤◌, ◌≡◌, ◌≢◌, refl, ◌∙◌, ap, Bool, true, false, pos, Option, some, List,
  [], ◌∷◌, arith, leb, length, take, drop, slice, take-append_all,
}
use trusty_platform_sand.Crypt.{
  Rc, Call, encrypt_init, decrypt_init, set_ivlen, crypt, finish, get_tag, set_tag, Evp, Work, next,
  exit, Op, ◌>>=◌, to_int, splice, call, call_storing, copy_out,
}
use trusty_platform_sand.Crypt.Made.{after_aad}

-- The calls of a direction before its data.
abbrev pub prepared : Call → ℕ → Option (List ℕ) → ℕ → List Call
prepared c iv_size aad aad_size = after_aad aad aad_size (set_ivlen (to_int iv_size) ∷ c ∷ [])

-- The initialisation of an encryption or a decryption
abbrev pub init : List ℕ → List ℕ → Bool → Call
init key iv true = encrypt_init key iv
init key iv false = decrypt_init key iv

-- What the library documents for a key, a vector and additional data: every call of the two
-- directions succeeds, the text is combined with a stream of its length, a tag has 16 bytes and
-- depends on the cipher text, and the final call of a decryption succeeds exactly with that tag.
-- `memcpy_s` of two equal sizes that are not 0 copies the bytes.
pub record IsGcm (evp : Evp) (key iv : List ℕ) (iv_size : ℕ) (aad : Option (List ℕ)) (aad_size : ℕ)
    : Type 0 where
  pub stream : List ℕ → List ℕ
  pub mac : List ℕ → List ℕ
  pub stream_twice : (p : List ℕ) → stream (stream p) ≡ p
  pub stream_length : (p : List ℕ) → length (stream p) ≡ length p
  pub mac_length : (p : List ℕ) → length (mac p) ≡ 16
  pub has_ctx : evp.ctx_new ≡ true
  pub copies : (d s : List ℕ) → length d ≡ length s → 0 < length s → evp.memcpy_s d s ≡ (true, s)
  pub begins : (encrypting : Bool) → evp.succeeds (init key iv encrypting ∷ []) ≡ true
  pub sets_iv :
      (encrypting : Bool)
      → evp.succeeds (set_ivlen (to_int iv_size) ∷ init key iv encrypting ∷ []) ≡ true
  pub takes_aad :
      (encrypting : Bool) (a : List ℕ)
      → aad ≡ some a
      → evp.succeeds (prepared (init key iv encrypting) iv_size aad aad_size) ≡ true
  pub crypts :
      (encrypting : Bool) (text : List ℕ) (m : ℕ)
      → evp.succeeds (crypt text (pos m) ∷ prepared (init key iv encrypting) iv_size aad aad_size)
        ≡ true
  pub crypted :
      (encrypting : Bool) (text : List ℕ) (m : ℕ)
      → evp.stores (crypt text (pos m) ∷ prepared (init key iv encrypting) iv_size aad aad_size)
        ≡ stream (take m text)
  pub finishes :
      (text : List ℕ) (m : ℕ)
      → evp.succeeds
          (finish ∷ crypt text (pos m) ∷ prepared (encrypt_init key iv) iv_size aad aad_size)
        ≡ true
  pub finished : (h : List Call) → evp.stores (finish ∷ h) ≡ []
  pub gives_tag :
      (text : List ℕ) (m : ℕ)
      → evp.succeeds (
          get_tag 16
          ∷ finish
          ∷ crypt text (pos m)
          ∷ prepared (encrypt_init key iv) iv_size aad aad_size)
        ≡ true
  pub tag_is :
      (text : List ℕ) (m : ℕ)
      → evp.stores (
          get_tag 16
          ∷ finish
          ∷ crypt text (pos m)
          ∷ prepared (encrypt_init key iv) iv_size aad aad_size)
        ≡ mac (stream (take m text))
  pub takes_tag :
      (tag text : List ℕ) (m : ℕ)
      → evp.succeeds
          (set_tag tag ∷ crypt text (pos m) ∷ prepared (decrypt_init key iv) iv_size aad aad_size)
        ≡ true
  pub accepts :
      (tag text : List ℕ) (m : ℕ)
      → tag ≡ mac (take m text)
      → evp.succeeds (
          finish
          ∷ set_tag tag
          ∷ crypt text (pos m)
          ∷ prepared (decrypt_init key iv) iv_size aad aad_size)
        ≡ true
  pub rejects :
      (tag text : List ℕ) (m : ℕ)
      → tag ≢ mac (take m text)
      → evp.succeeds (
          finish
          ∷ set_tag tag
          ∷ crypt text (pos m)
          ∷ prepared (decrypt_init key iv) iv_size aad aad_size)
        ≡ false

pub bind-next :
    {A B : Type 0} (m : Op A) (f : A → Op B) (w w' : Work) (a : A)
    → m w ≡ next a w'
    → (m >>= f) w ≡ f a w'
bind-next m f w w' a e = rw (e, ◌>>=◌)

pub bind-exit :
    {A B : Type 0} (m : Op A) (f : A → Op B) (w w' : Work) (rc : Rc)
    → m w ≡ exit rc w'
    → (m >>= f) w ≡ exit rc w'
bind-exit m f w w' rc e = rw (e, ◌>>=◌)

module _ (evp : Evp) where
  abbrev pub called : Call → Work → Work
  called c w = record w { calls = c ∷ w.calls }

  pub call-next :
      (c : Call) (rc : Rc) (w : Work)
      → evp.succeeds (c ∷ w.calls) ≡ true
      → call evp c rc w ≡ next tt (called c w)
  unfolding call
  call-next c rc w e = rw e refl

  pub call_storing-next :
      (offset : ℕ) (c : Call) (rc : Rc) (bytes : List ℕ) (w : Work)
      → evp.stores (c ∷ w.calls) ≡ bytes
      → offset + length bytes ≤ length w.out_buf
      → evp.succeeds (c ∷ w.calls) ≡ true
      → call_storing evp offset c rc w
        ≡ next
            (length bytes)
            (record w { calls = c ∷ w.calls; out_buf = splice offset bytes w.out_buf })
  unfolding call_storing call
  call_storing-next offset c rc bytes w e fits good =
      let inside : leb (offset + length bytes) (length w.out_buf) ≡ true = ground arith in
      rw (e, inside, good, ◌>>=◌, e) refl

  pub call_storing-exit :
      (offset : ℕ) (c : Call) (rc : Rc) (bytes : List ℕ) (w : Work)
      → evp.stores (c ∷ w.calls) ≡ bytes
      → offset + length bytes ≤ length w.out_buf
      → evp.succeeds (c ∷ w.calls) ≡ false
      → call_storing evp offset c rc w
        ≡ exit rc (record w { calls = c ∷ w.calls; out_buf = splice offset bytes w.out_buf })
  unfolding call_storing call
  call_storing-exit offset c rc bytes w e fits bad =
      let inside : leb (offset + length bytes) (length w.out_buf) ≡ true = ground arith in
      rw (e, inside, bad, ◌>>=◌) refl

  pub copy_out-next :
      (offset n : ℕ) (bytes : List ℕ) (w : Work)
      → take n w.out_buf ≡ bytes
      → evp.memcpy_s (slice offset n w.out) bytes ≡ (true, bytes)
      → offset + n ≤ length w.out
      → n ≤ length w.out_buf
      → copy_out evp offset n w ≡ next tt (record w { out = splice offset bytes w.out })
  unfolding copy_out
  copy_out-next offset n bytes w e copied fits room =
      let a : leb (offset + n) (length w.out) ≡ true = ground arith in
      let b : leb n (length w.out_buf) ≡ true = ground arith in rw (e, copied, a, b) refl

splice-nil : (offset : ℕ) (mem : List ℕ) → splice offset [] mem ≡ mem
splice-nil offset mem =
    let same : offset + 0 ≡ offset = omega arith in
    rw (append-nil (take offset mem), same) (take-drop offset mem)

-- The start of memory after bytes were stored there.
pub take-splice :
    (bytes mem : List ℕ) (m : ℕ) → length bytes ≡ m → take m (splice 0 bytes mem) ≡ bytes
take-splice bytes mem m e = take-append_all bytes (drop (0 + length bytes) mem) m e

module _ (evp : Evp) where
  -- A call that stores nothing.
  pub call_storing-none :
      (offset : ℕ) (c : Call) (rc : Rc) (w : Work)
      → evp.stores (c ∷ w.calls) ≡ []
      → offset ≤ length w.out_buf
      → evp.succeeds (c ∷ w.calls) ≡ true
      → call_storing evp offset c rc w ≡ next 0 (called evp c w)
  call_storing-none offset c rc w e fits good =
      call_storing-next evp offset c rc [] w e (omega arith) good
      ∙ ap (λ (b : List ℕ). next 0 (record w { calls = c ∷ w.calls; out_buf = b }))
          (splice-nil offset w.out_buf)

  pub call_storing-none_exit :
      (offset : ℕ) (c : Call) (rc : Rc) (w : Work)
      → evp.stores (c ∷ w.calls) ≡ []
      → offset ≤ length w.out_buf
      → evp.succeeds (c ∷ w.calls) ≡ false
      → call_storing evp offset c rc w ≡ exit rc (called evp c w)
  call_storing-none_exit offset c rc w e fits bad =
      call_storing-exit evp offset c rc [] w e (omega arith) bad
      ∙ ap (λ (b : List ℕ). exit rc (record w { calls = c ∷ w.calls; out_buf = b }))
          (splice-nil offset w.out_buf)
