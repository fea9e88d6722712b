-- ===== src/Crypt/Tests.antt =====
-- A toy library: its stream exchanges 0 and 1, and its tag repeats the length of the text.
use trusty_platform_sand.Base.{
  same, same_self, same-true, ℕ, zero, suc, ◌+◌, ◌-◌, ◌^◌, ◌≡◌, ◌≢◌, inr, refl, ◌∙◌, ap, sym, Bool,
  true, false, pos, none, some, List, [], ◌∷◌, arith, map, length, take, slice, replicate, zeros,
  length-replicate,
}
use mathlib.Core.Option.{some-injective}
use trusty_platform_sand.Crypt.{
  no_error, err_auth_failed, Call, crypt, finish, get_tag, set_tag, Evp, Result, to_int,
  gcm_tag_size, aes_256_gcm_encrypt, aes_256_gcm_decrypt,
}
use trusty_platform_sand.Crypt.Verified.{IsChecked, opened}
use trusty_platform_sand.Crypt.Clean.{
  Allocates, IsClean, aes_256_gcm-IsClean, aes_256_gcm_decrypt-IsChecked,
}
use trusty_platform_sand.Crypt.Gcm.{IsGcm, init}
use trusty_platform_sand.Crypt.Open.{aes_256_gcm_decrypt_lem}
use trusty_platform_sand.Crypt.RoundTrip.{decrypt-encrypt}

abbrev flip : ℕ → ℕ
flip zero = 1
flip (suc zero) = 0
flip (suc (suc n)) = suc (suc n)

flip-flip : (n : ℕ) → flip (flip n) ≡ n
flip-flip zero = refl
flip-flip (suc zero) = refl
flip-flip (suc (suc n)) = refl

flips : (p : List ℕ) → map flip (map flip p) ≡ p
flips [] = refl
flips (x ∷ xs) = rw (flip-flip x, flips xs) refl

length-flips : (p : List ℕ) → length (map flip p) ≡ length p
length-flips [] = refl
length-flips (x ∷ xs) = omega (arith, length-flips xs)

abbrev toy_tag : List ℕ → List ℕ
toy_tag p = replicate 16 (length p)

same-false : (xs ys : List ℕ) → xs ≢ ys → same xs ys ≡ false
same-false xs ys ne = go (same xs ys) refl
  where
    go : (b : Bool) → same xs ys ≡ b → b ≡ false
    go true e = absurd (ne (same-true xs ys e))
    go false e = refl

abbrev toy_succeeds : List Call → Bool
toy_succeeds (finish ∷ set_tag tag ∷ crypt text (pos m) ∷ h) = same tag (toy_tag (take m text))
toy_succeeds _ = true

abbrev toy_stores : List Call → List ℕ
toy_stores (crypt text (pos m) ∷ h) = map flip (take m text)
toy_stores (get_tag n ∷ finish ∷ crypt text (pos m) ∷ h) = toy_tag (map flip (take m text))
toy_stores _ = []

abbrev toy : Evp
toy = record {
  ctx_new = true;
  succeeds = toy_succeeds;
  stores = toy_stores;
  malloc = λ n. some (replicate n 9);
  memcpy_s = λ d s. (true, s);
}

toy-Allocates : Allocates toy
toy-Allocates n block e =
    ap (length {A = ℕ}) (sym (some-injective _ _ e)) ∙ length-replicate {A = ℕ} n 9

abbrev toy_gcm : IsGcm toy [] (1 ∷ []) 12 none 0
toy_gcm = record {
  stream = map flip;
  mac = toy_tag;
  stream_twice = flips;
  stream_length = length-flips;
  mac_length = λ p. refl;
  has_ctx = refl;
  copies = λ d s e h. refl;
  begins = λ b. elim b as (λ k. toy_succeeds (init [] (1 ∷ []) k ∷ []) ≡ true) [
    | true ↦ refl
    | false ↦ refl
  ];
  sets_iv = λ b. refl;
  takes_aad = λ b a e. refl;
  crypts = λ b text m. refl;
  crypted = λ b text m. refl;
  finishes = λ text m. refl;
  finished = λ h. refl;
  gives_tag = λ text m. refl;
  tag_is = λ text m. refl;
  takes_tag = λ tag text m. refl;
  accepts = λ tag text m e. rw e (same_self (toy_tag (take m text)));
  rejects = λ tag text m ne. same-false tag (toy_tag (take m text)) ne;
}

-- Three bytes and a tag with one byte wrong
abbrev forged : List ℕ
forged = 0 ∷ 1 ∷ 7 ∷ 4 ∷ replicate 15 3

forged_is_wrong : slice 3 16 forged ≢ toy_tag (take 3 forged)
forged_is_wrong e = absurd (ground (arith, e))

aes_256_gcm_decrypt_lem_example :
    (slice 3 16 forged ≡ toy_tag (take 3 forged)
      → aes_256_gcm_decrypt toy
          (some [])
          (some (1 ∷ []))
          12
          none
          0
          (some forged)
          19
          (some (zeros 4))
          (some 0)
        ≡ some (record {
          rc = no_error;
          out = some (1 ∷ 0 ∷ 7 ∷ 0 ∷ []);
          out_size = some 3;
          freed = zeros 3 ∷ [];
        }))
    × (slice 3 16 forged ≢ toy_tag (take 3 forged)
        → aes_256_gcm_decrypt toy
            (some [])
            (some (1 ∷ []))
            12
            none
            0
            (some forged)
            19
            (some (zeros 4))
            (some 0)
          ≡ some (record {
            rc = err_auth_failed;
            out = some (1 ∷ 0 ∷ 7 ∷ 0 ∷ []);
            out_size = some 0;
            freed = zeros 3 ∷ [];
          }))
aes_256_gcm_decrypt_lem_example =
    aes_256_gcm_decrypt_lem toy [] (1 ∷ []) 12 none 0 toy_gcm forged 3 (omega arith) (omega arith)
      (zeros 4) 0 (replicate 3 9) (omega arith) (omega arith) (omega arith) refl refl

decrypt-encrypt_example :
    (made : List ℕ) × (aes_256_gcm_encrypt toy
        (some [])
        (some (1 ∷ []))
        12
        none
        0
        (some (0 ∷ 5 ∷ []))
        2
        (some (zeros 20))
        (some 0)
      ≡ some (record { rc = no_error; out = some made; out_size = some 18; freed = zeros 18 ∷ [] }))
    × (aes_256_gcm_decrypt toy
          (some [])
          (some (1 ∷ []))
          12
          none
          0
          (some made)
          18
          (some (zeros 3))
          (some 0)
        ≡ some (record {
          rc = no_error;
          out = some (0 ∷ 5 ∷ 0 ∷ []);
          out_size = some 2;
          freed = zeros 2 ∷ [];
        }))
decrypt-encrypt_example =
    decrypt-encrypt toy [] (1 ∷ []) 12 none 0 toy_gcm (0 ∷ 5 ∷ []) (omega arith) (zeros 20) 0
      (replicate 18 9) (zeros 3) 0 (replicate 2 9) (omega arith) (omega arith) (omega arith) refl
      refl (omega arith) refl refl

-- The result of the decryption of the forged bytes
abbrev refused : Result
refused = record {
  rc = err_auth_failed;
  out = some (1 ∷ 0 ∷ 7 ∷ 0 ∷ []);
  out_size = some 0;
  freed = zeros 3 ∷ [];
}

decrypt_refused :
    aes_256_gcm_decrypt toy
      (some [])
      (some (1 ∷ []))
      12
      none
      0
      (some forged)
      19
      (some (zeros 4))
      (some 0)
    ≡ some refused
unfolding aes_256_gcm_decrypt
decrypt_refused = refl

aes_256_gcm-IsClean_example : IsClean (some 0) refused
aes_256_gcm-IsClean_example =
    aes_256_gcm-IsClean toy [] (1 ∷ []) 12 none 0 forged 19 (zeros 4) 0 refused toy-Allocates
      (inr decrypt_refused)

-- Three bytes with their tag
abbrev genuine : List ℕ
genuine = 0 ∷ 1 ∷ 7 ∷ replicate 16 3

abbrev accepted : Result
accepted = record {
  rc = no_error;
  out = some (1 ∷ 0 ∷ 7 ∷ 0 ∷ []);
  out_size = some 3;
  freed = zeros 3 ∷ [];
}

decrypt_accepted :
    aes_256_gcm_decrypt toy
      (some [])
      (some (1 ∷ []))
      12
      none
      0
      (some genuine)
      19
      (some (zeros 4))
      (some 0)
    ≡ some accepted
unfolding aes_256_gcm_decrypt
decrypt_accepted = refl

aes_256_gcm_decrypt-IsChecked_example :
    IsChecked toy (opened [] (1 ∷ []) 12 none 0) genuine (to_int (19 + 2 ^ 64 - gcm_tag_size))
aes_256_gcm_decrypt-IsChecked_example =
    aes_256_gcm_decrypt-IsChecked toy [] (1 ∷ []) 12 none 0 genuine 19 (zeros 4) 0 accepted
      toy-Allocates decrypt_accepted refl
