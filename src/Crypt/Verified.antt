-- ===== src/Crypt/Verified.antt =====
-- What a result of the two functions means, whatever the crypto library answers.
use trusty_platform_sand.Base.{
  ℕ, ◌+◌, ◌-◌, ◌^◌, ◌≡◌, refl, true, ℤ, Option, none, some, List, [], ◌∷◌, length,
}
use trusty_platform_sand.Crypt.{
  err_generic, err_auth_failed, Call, encrypt_init, decrypt_init, set_ivlen, crypt, finish, get_tag,
  set_tag, Evp, Work, Op, ◌>>=◌, ◌>>◌, to_int, bytes_at, gcm_tag_size, call, call_storing, copy_out,
  create_ctx, set_aad, set_out_size, pass_tag, encrypt_body, decrypt_body,
}
use trusty_platform_sand.Crypt.Made.{
  Spec, Spec-bind, Failed, Went, MadeOf, WentOf, call-Made, call_storing-Made, copy_out-Went,
  create_ctx-Went, after_aad, set_aad-Went,
}

-- The calls of a decryption before its data.
abbrev pub opened : List ℕ → List ℕ → ℕ → Option (List ℕ) → ℕ → List Call
opened key iv iv_size aad aad_size =
    after_aad aad aad_size (set_ivlen (to_int iv_size) ∷ decrypt_init key iv ∷ [])

-- The tag behind the data was passed, and the final call succeeded.
pub record IsChecked (evp : Evp) (before : List Call) (cipher : List ℕ) (data_len : ℤ)
    : Type 0 where
  pub tag : List ℕ
  pub tag_is : bytes_at data_len gcm_tag_size cipher ≡ some tag
  pub good : evp.succeeds (finish ∷ set_tag tag ∷ crypt cipher data_len ∷ before) ≡ true

module _ (evp : Evp) (out_size n : ℕ) where
  -- A step after one that made a call.
  after_Made :
      {A B : Type 0} (P : B → Work → Type 0) (h : List Call) (m : Op A) (f : A → Op B) (w : Work)
      → Spec (MadeOf evp out_size n h) (Failed out_size n) (m w)
      → ((a : A) (w' : Work) → Went evp out_size n h w' → Spec P (Failed out_size n) (f a w'))
      → Spec P (Failed out_size n) ((m >>= f) w)
  after_Made P h m f w s k =
      Spec-bind (MadeOf evp out_size n h) P (Failed out_size n) m f w s
        λ a w' g. k a w' (record { calls_are = g.calls_are; keeps = g.keeps })

  after_Went :
      {A B : Type 0} (P : B → Work → Type 0) (h : List Call) (m : Op A) (f : A → Op B) (w : Work)
      → Spec (WentOf evp out_size n h) (Failed out_size n) (m w)
      → ((a : A) (w' : Work) → Went evp out_size n h w' → Spec P (Failed out_size n) (f a w'))
      → Spec P (Failed out_size n) ((m >>= f) w)
  after_Went P h m f w s k = Spec-bind (WentOf evp out_size n h) P (Failed out_size n) m f w s k

  -- The context, the key, the vector and the additional data.
  set_up-Went :
      {B : Type 0} (P : B → Work → Type 0) (c : Call) (iv_size : ℕ) (aad : Option (List ℕ))
      (aad_size : ℕ) (k : Op B) (w : Work)
      → Went evp out_size n [] w
      → ((w' : Work)
          → Went evp out_size n (after_aad aad aad_size (set_ivlen (to_int iv_size) ∷ c ∷ [])) w'
          → Spec P (Failed out_size n) (k w'))
      → Spec P (Failed out_size n) (
          (do
            create_ctx evp
            call evp c err_generic
            call evp (set_ivlen (to_int iv_size)) err_generic
            set_aad evp aad aad_size
            k)
            w)
  set_up-Went P c iv_size aad aad_size k w g then_ =
      after_Went P [] (create_ctx evp) _ w (create_ctx-Went evp out_size n [] w g) λ _ w1 g1.
        after_Made P (c ∷ []) (call evp c err_generic) _ w1
          (call-Made evp out_size n c err_generic [] w1 (λ e. absurd cc) g1)
          λ _ w2 g2.
            after_Made P (set_ivlen (to_int iv_size) ∷ c ∷ [])
              (call evp (set_ivlen (to_int iv_size)) err_generic) _ w2
              (call-Made evp out_size n (set_ivlen (to_int iv_size)) err_generic (c ∷ []) w2
                (λ e. absurd cc) g2)
              λ _ w3 g3.
                after_Went P _ (set_aad evp aad aad_size) _ w3
                  (set_aad-Went evp out_size n aad aad_size (set_ivlen (to_int iv_size) ∷ c ∷ []) w3
                    g3)
                  λ _ w4 g4. then_ w4 g4

  -- What a decryption that goes on to its end leaves.
  abbrev pub CheckedEnd : List Call → List ℕ → ℤ → Unit {0} → Work → Type 0
  CheckedEnd before cipher data_len _ w =
      IsChecked evp before cipher data_len × (length w.out_buf ≡ n)

  final-Checked :
      (before : List Call) (cipher : List ℕ) (data_len : ℤ) (out_len : ℕ) (tag : Option (List ℕ))
      (w : Work)
      → bytes_at data_len gcm_tag_size cipher ≡ tag
      → Went evp out_size n (crypt cipher data_len ∷ before) w
      → Spec (CheckedEnd before cipher data_len) (Failed out_size n) (
          (do
            pass_tag evp tag
            m ← call_storing evp 0 finish err_auth_failed
            set_out_size evp out_len)
            w)
  unfolding pass_tag
  final-Checked before cipher data_len out_len none w e g = tt
  final-Checked before cipher data_len out_len (some tag) w e g =
      after_Made _ (set_tag tag ∷ crypt cipher data_len ∷ before)
        (call evp (set_tag tag) err_generic) _ w
        (call-Made evp out_size n (set_tag tag) err_generic _ w (λ e. absurd cc) g)
        λ _ w1 g1.
          Spec-bind (MadeOf evp out_size n (finish ∷ set_tag tag ∷ crypt cipher data_len ∷ before))
            _ (Failed out_size n) (call_storing evp 0 finish err_auth_failed) _ w1
            (call_storing-Made evp out_size n 0 finish err_auth_failed _ w1 (λ e. absurd cc) g1)
            λ m w2 g2. (record { tag = tag; tag_is = e; good = g2.good }, g2.keeps.room_kept)

  pub decrypt_body-Checked :
      (key iv : List ℕ) (iv_size : ℕ) (aad : Option (List ℕ)) (aad_size : ℕ) (cipher : List ℕ)
      (cipher_size : ℕ) (w : Work)
      → Went evp out_size n [] w
      → Spec
          (CheckedEnd
            (opened key iv iv_size aad aad_size)
            cipher
            (to_int (cipher_size + 2 ^ 64 - gcm_tag_size)))
          (Failed out_size n)
          (decrypt_body evp key iv iv_size aad aad_size cipher cipher_size w)
  unfolding decrypt_body
  decrypt_body-Checked key iv iv_size aad aad_size cipher cipher_size w g =
      let data_len : ℤ = to_int (cipher_size + 2 ^ 64 - gcm_tag_size) in
      let before : List Call = opened key iv iv_size aad aad_size in
      set_up-Went _ (decrypt_init key iv) iv_size aad aad_size _ w g λ w4 g4.
        after_Made _ (crypt cipher data_len ∷ before)
          (call_storing evp 0 (crypt cipher data_len) err_generic) _ w4
          (call_storing-Made evp out_size n 0 (crypt cipher data_len) err_generic before w4
            (λ e. absurd cc) g4)
          λ out_len w5 g5.
            after_Went _ _ (copy_out evp 0 out_len) _ w5
              (copy_out-Went evp out_size n 0 out_len _ w5 g5)
              λ _ w6 g6.
                final-Checked before cipher data_len out_len (bytes_at data_len gcm_tag_size cipher)
                  w6 refl g6

  pub encrypt_body-cleared :
      (key iv : List ℕ) (iv_size : ℕ) (aad : Option (List ℕ)) (aad_size : ℕ) (plain : List ℕ)
      (plain_size : ℕ) (w : Work)
      → Went evp out_size n [] w
      → Spec
          (λ _ w'. Unit {0} × (length w'.out_buf ≡ n))
          (Failed out_size n)
          (encrypt_body evp key iv iv_size aad aad_size plain plain_size w)
  unfolding encrypt_body
  encrypt_body-cleared key iv iv_size aad aad_size plain plain_size w g =
      let c : Call = crypt plain (to_int plain_size) in
      set_up-Went _ (encrypt_init key iv) iv_size aad aad_size _ w g λ w4 g4.
        after_Made _ _ (call_storing evp 0 c err_generic) _ w4
          (call_storing-Made evp out_size n 0 c err_generic _ w4 (λ e. absurd cc) g4)
          λ out_len w5 g5.
            after_Made _ _ (call_storing evp out_len finish err_generic) _ w5
              (call_storing-Made evp out_size n out_len finish err_generic _ w5 (λ e. absurd cc) g5)
              λ cur_len w6 g6.
                after_Went _ _ (copy_out evp 0 (out_len + cur_len)) _ w6
                  (copy_out-Went evp out_size n 0 (out_len + cur_len) _ w6 g6)
                  λ _ w7 g7.
                    after_Made _ _ (call_storing evp 0 (get_tag gcm_tag_size) err_auth_failed) _ w7
                      (call_storing-Made evp out_size n 0 (get_tag gcm_tag_size) err_auth_failed _
                        w7 (λ e. absurd cc) g7)
                      λ m w8 g8.
                        after_Went _ _ (copy_out evp (out_len + cur_len) gcm_tag_size) _ w8
                          (copy_out-Went evp out_size n (out_len + cur_len) gcm_tag_size _ w8 g8)
                          λ _ w9 g9. (tt, g9.keeps.room_kept)
