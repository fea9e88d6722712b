-- ===== src/Crypt/SetUp.antt =====
-- The start of both functions with a library that does AES-GCM.
use trusty_platform_sand.Base.{
  ℕ, ◌≡◌, refl, ◌∙◌, ap, Bool, true, Option, none, some, List, [], ◌∷◌, if◌then◌else◌,
}
use trusty_platform_sand.Crypt.{
  err_generic, Call, Evp, Work, next, exit, Op, ◌>>◌, set_ivlen, add_aad, to_int, call, create_ctx,
  set_aad, start,
}
use trusty_platform_sand.Crypt.Gcm.{IsGcm, init, prepared, bind-next, called, call-next}

module _ (evp : Evp) (key iv : List ℕ) (iv_size aad_size : ℕ) (encrypting : Bool) where
  set_aad-next :
      (aad : Option (List ℕ)) (w : Work)
      → IsGcm evp key iv iv_size aad aad_size
      → w.calls ≡ set_ivlen (to_int iv_size) ∷ init key iv encrypting ∷ []
      → set_aad evp aad aad_size w
        ≡ next tt (record w { calls = prepared (init key iv encrypting) iv_size aad aad_size })
  unfolding set_aad
  set_aad-next none w gcm e = ap (λ (h : List Call). next tt (record w { calls = h })) e
  set_aad-next (some a) w gcm e =
      let c : Call = add_aad a (to_int aad_size) in
      let good : evp.succeeds (c ∷ w.calls) ≡ true = rw e (gcm.takes_aad encrypting a refl) in
      call-next evp c err_generic w good
      ∙ ap (λ (h : List Call). next tt (record w { calls = c ∷ h })) e

  create_ctx-next :
      (aad : Option (List ℕ)) (w : Work) → evp.ctx_new ≡ true → create_ctx evp w ≡ next tt w
  create_ctx-next aad w e = ap (λ (b : Bool). if b then next tt w else exit err_generic w) e

  -- The context is made and gets the key, the vector and the additional data.
  pub set_up-next :
      {B : Type 0} (aad : Option (List ℕ)) (k : Op B) (out : List ℕ) (out_size : ℕ) (buf : List ℕ)
      → IsGcm evp key iv iv_size aad aad_size
      → (do
        create_ctx evp
        call evp (init key iv encrypting) err_generic
        call evp (set_ivlen (to_int iv_size)) err_generic
        set_aad evp aad aad_size
        k)
          (start evp out out_size buf)
        ≡ k (record (start evp out out_size buf) {
          calls = prepared (init key iv encrypting) iv_size aad aad_size;
        })
  set_up-next aad k out out_size buf gcm =
      let w : Work = start evp out out_size buf in
      let c : Call = init key iv encrypting in
      let l : Call = set_ivlen (to_int iv_size) in
      bind-next (create_ctx evp) _ w w tt (create_ctx-next aad w gcm.has_ctx)
      ∙ bind-next (call evp c err_generic) _ w (called evp c w) tt
          (call-next evp c err_generic w (gcm.begins encrypting))
      ∙ bind-next (call evp l err_generic) _ (called evp c w) (called evp l (called evp c w)) tt
          (call-next evp l err_generic (called evp c w) (gcm.sets_iv encrypting))
      ∙ bind-next (set_aad evp aad aad_size) _ (called evp l (called evp c w)) _ tt
          (set_aad-next aad (called evp l (called evp c w)) gcm refl)
