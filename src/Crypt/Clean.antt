-- ===== src/Crypt/Clean.antt =====
-- What the two functions leave in the caller's objects and in the freed blocks, and what a success
-- of a decryption means, whatever the crypto library answers.
use trusty_platform_sand.Base.{
  ℕ, ◌+◌, ◌-◌, ◌^◌, ◌≡◌, ◌⊎◌, inl, inr, refl, ◌∙◌, ap, sym, Option, none, some, List, [], ◌∷◌, ◌++◌,
  length, drop, zeros, Option-cases, ◌==◌, Bool-cases,
}
use mathlib.Core.List.{append-nil}
use trusty_platform_sand.Crypt.{
  no_error, Evp, Work, Step, next, exit, fault, Op, to_int, gcm_tag_size, Result, invalid, run,
  start, with_buffer, aes_256_gcm_encrypt, aes_256_gcm_decrypt,
}
use trusty_platform_sand.Crypt.Made.{Spec, Failed, Went}
use mathlib.Core.Path.{subst}
use trusty_platform_sand.Crypt.Verified.{
  IsChecked, opened, decrypt_body-Checked, encrypt_body-cleared,
}

-- A block has the size asked for.
abbrev pub Allocates : Evp → Type 0
Allocates evp = (n : ℕ) (block : List ℕ) → evp.malloc n ≡ some block → length block ≡ n

-- Whatever block is freed holds zeros only, and a result that is an error leaves the caller's
-- size as it was.
pub record IsClean (out_size : Option ℕ) (r : Result) : Type 0 where
  pub cleared : (r.freed ≡ []) ⊎ ((n : ℕ) × (r.freed ≡ zeros n ∷ []))
  pub size_is : (r.rc ≡ no_error) ⊎ (r.out_size ≡ out_size)

-- `Good` holds of a success.
pub record Ends (Good : Type 0) (out_size : Option ℕ) (r : Result) : Type 0 where
  pub clean : IsClean out_size r
  pub success : r.rc ≡ no_error → Good

abbrev pub EndsIfAny : Type 0 → Option ℕ → Option Result → Type 0
EndsIfAny Good out_size none = Unit {0}
EndsIfAny Good out_size (some r) = Ends Good out_size r

drop-length : (xs : List ℕ) → drop (length xs) xs ≡ []
drop-length [] = refl
drop-length (x ∷ xs) = drop-length xs

pub cleared_by :
    (size : ℕ) (buf : List ℕ)
    → length buf ≡ size
    → (zeros size ++ drop size buf) ∷ [] ≡ zeros size ∷ []
cleared_by size buf e =
    ap (λ (l : List ℕ). (zeros size ++ l) ∷ []) (rw (sym e) (drop-length buf))
    ∙ ap (λ (l : List ℕ). l ∷ []) (append-nil (zeros size))

module _ (evp : Evp) where
  run-Ends :
      (size out_size : ℕ) (Good : Type 0) (s : Step (Unit {0}))
      → Spec (λ _ w. Good × (length w.out_buf ≡ size)) (Failed out_size size) s
      → EndsIfAny Good (some out_size) (run evp size s)
  unfolding run
  run-Ends size out_size Good (next _ w) (good, e) = record {
    clean = record { cleared = inr (size, cleared_by size w.out_buf e); size_is = inl refl };
    success = λ _. good;
  }
  run-Ends size out_size Good (exit rc w) failed = record {
    clean = record {
      cleared = inr (size, cleared_by size w.out_buf failed.kept.room_kept);
      size_is = inr (ap some failed.kept.size_kept);
    };
    success = λ e. absurd (failed.failure e);
  }
  run-Ends size out_size Good fault spec = tt

  invalid-Ends :
      (Good : Type 0) (out : Option (List ℕ)) (out_size : Option ℕ)
      → EndsIfAny Good out_size (invalid evp out out_size)
  invalid-Ends Good out out_size = record {
    clean = record { cleared = inl refl; size_is = inr refl };
    success = λ e. absurd cc;
  }

  with_buffer-Ends :
      (Good : Type 0) (size : ℕ) (out : List ℕ) (out_size : ℕ) (body : Op (Unit {0}))
      → Allocates evp
      → ((w : Work)
          → Went evp out_size size [] w
          → Spec (λ _ w'. Good × (length w'.out_buf ≡ size)) (Failed out_size size) (body w))
      → EndsIfAny Good (some out_size) (with_buffer evp size out out_size body)
  unfolding with_buffer
  with_buffer-Ends Good size out out_size body sized spec = elim (Option-cases (evp.malloc size)) [
    | inl e ↦ rw (with_buffer, e) (invalid-Ends Good (some out) (some out_size))
    | inr (block, e) ↦
        rw (with_buffer, e)
          (run-Ends size out_size Good (body (start evp out out_size block)) (
            spec (start evp out out_size block) (record {
              calls_are = refl;
              keeps = record { size_kept = refl; room_kept = sized size block e };
            })))
  ]

  encrypt-Ends :
      (key iv : List ℕ) (iv_size : ℕ) (aad : Option (List ℕ)) (aad_size : ℕ) (plain : List ℕ)
      (plain_size : ℕ) (out : List ℕ) (out_size : ℕ)
      → Allocates evp
      → EndsIfAny (Unit {0}) (some out_size) (
          aes_256_gcm_encrypt evp
            (some key)
            (some iv)
            iv_size
            aad
            aad_size
            (some plain)
            plain_size
            (some out)
            (some out_size))
  unfolding aes_256_gcm_encrypt
  encrypt-Ends key iv iv_size aad aad_size plain plain_size out out_size sized =
      elim (Bool-cases (iv_size == 0)) [
        | inl e ↦ rw e (invalid-Ends (Unit {0}) (some out) (some out_size))
        | inr e ↦ rw e (
            with_buffer-Ends (Unit {0}) _ out out_size _ sized
              (encrypt_body-cleared evp out_size _ key iv iv_size aad aad_size plain plain_size))
      ]

  decrypt-Ends :
      (key iv : List ℕ) (iv_size : ℕ) (aad : Option (List ℕ)) (aad_size : ℕ) (cipher : List ℕ)
      (cipher_size : ℕ) (out : List ℕ) (out_size : ℕ)
      → Allocates evp
      → EndsIfAny
          (IsChecked evp
            (opened key iv iv_size aad aad_size)
            cipher
            (to_int (cipher_size + 2 ^ 64 - gcm_tag_size)))
          (some out_size)
          (aes_256_gcm_decrypt evp
            (some key)
            (some iv)
            iv_size
            aad
            aad_size
            (some cipher)
            cipher_size
            (some out)
            (some out_size))
  unfolding aes_256_gcm_decrypt
  decrypt-Ends key iv iv_size aad aad_size cipher cipher_size out out_size sized =
      elim (Bool-cases (iv_size == 0)) [
        | inl e ↦ rw e (invalid-Ends _ (some out) (some out_size))
        | inr e ↦ rw e (
            with_buffer-Ends _ _ out out_size _ sized
              (decrypt_body-Checked evp out_size _ key iv iv_size aad aad_size cipher cipher_size))
      ]

  -- When the given pointers are not NULL and a block has the size asked for, a run of either
  -- function that accesses no memory outside its objects frees no block or one that holds zeros
  -- only, and leaves the caller's size as it was unless it returns AES_GCM_NO_ERROR.
  pub aes_256_gcm-IsClean :
      (key iv : List ℕ) (iv_size : ℕ) (aad : Option (List ℕ)) (aad_size : ℕ) (text : List ℕ)
      (text_size : ℕ) (out : List ℕ) (out_size : ℕ) (r : Result)
      → Allocates evp
      → (aes_256_gcm_encrypt evp
            (some key)
            (some iv)
            iv_size
            aad
            aad_size
            (some text)
            text_size
            (some out)
            (some out_size)
          ≡ some r)
        ⊎ (aes_256_gcm_decrypt evp
              (some key)
              (some iv)
              iv_size
              aad
              aad_size
              (some text)
              text_size
              (some out)
              (some out_size)
            ≡ some r)
      → IsClean (some out_size) r
  aes_256_gcm-IsClean key iv iv_size aad aad_size text text_size out out_size r sized (inl e) =
      (subst (EndsIfAny (Unit {0}) (some out_size)) e
        (encrypt-Ends key iv iv_size aad aad_size text text_size out out_size sized)).clean
  aes_256_gcm-IsClean key iv iv_size aad aad_size text text_size out out_size r sized (inr e) =
      (subst (EndsIfAny _ (some out_size)) e
        (decrypt-Ends key iv iv_size aad aad_size text text_size out out_size sized)).clean

  -- When the given pointers are not NULL, a block has the size asked for, and
  -- `aes_256_gcm_decrypt` returns AES_GCM_NO_ERROR, then the final call of the library succeeded
  -- on a context that got the key, the vector and its length, the additional data, the cipher text
  -- and, as the tag, the 16 bytes behind it.
  pub aes_256_gcm_decrypt-IsChecked :
      (key iv : List ℕ) (iv_size : ℕ) (aad : Option (List ℕ)) (aad_size : ℕ) (cipher : List ℕ)
      (cipher_size : ℕ) (out : List ℕ) (out_size : ℕ) (r : Result)
      → Allocates evp
      → aes_256_gcm_decrypt evp
          (some key)
          (some iv)
          iv_size
          aad
          aad_size
          (some cipher)
          cipher_size
          (some out)
          (some out_size)
        ≡ some r
      → r.rc ≡ no_error
      → IsChecked evp
          (opened key iv iv_size aad aad_size)
          cipher
          (to_int (cipher_size + 2 ^ 64 - gcm_tag_size))
  aes_256_gcm_decrypt-IsChecked key iv iv_size aad aad_size cipher cipher_size out out_size r sized
        e good =
      (subst (EndsIfAny _ (some out_size)) e
          (decrypt-Ends key iv iv_size aad aad_size cipher cipher_size out out_size sized)).success
        good
