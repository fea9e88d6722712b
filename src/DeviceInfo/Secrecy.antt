-- ===== src/DeviceInfo/Secrecy.antt =====
-- Which secrets an application cannot learn from the system call.
use Prim.Native.Nat.{bit_and}
use native.Mathlib.Decide.{ℕ_discrete}
use trusty_platform_sand.Base.{
  ℕ, ◌≡◌, ◌≢◌, ◌⊎◌, inl, inr, refl, ap, sym, ◌∙◌, true, false, not, none, some, [], ◌==◌,
  if◌then◌else◌, Bool-cases, arith,
}
use trusty_platform_sand.Base.Io.{Io, pure, ◌>>=◌}
use trusty_platform_sand.DeviceInfo.{
  DeviceSecInfo, TrustyDeviceInfo, Env, Kernel, Uuid, Reply, ret, panic, Status, err_not_allowed,
  err_no_memory, sizeof_device_sec_info,
}
use trusty_platform_sand.DeviceInfo.Permission.{
  get_none, get_seed, get_rpmb_key, get_attkb_permission, get_ta_permission, same_uuid, hide_seeds,
  hide_rpmb_key, hide_attkb_enc_key, hwcrypto_srv_app_uuid, keymaster_srv_app_uuid,
  secure_storage_server_app_uuid,
}
use trusty_platform_sand.DeviceInfo.Serve.{
  after_memcpy, copy_info, serve, with_block, sys_get_device_info, provide_attkb,
}

-- `memcpy_s` copies all of a source that has the size of the destination.
abbrev pub Copies : Env → Type 0
Copies env =
    (d s : DeviceSecInfo)
    → env.memcpy_s d sizeof_device_sec_info s sizeof_device_sec_info ≡ (true, s)

abbrev pub without_seeds : DeviceSecInfo → DeviceSecInfo
without_seeds s = record s { useed_list = []; dseed_list = []; rpmb_key = [] }

abbrev pub without_attkb_enc_key : DeviceSecInfo → DeviceSecInfo
without_attkb_enc_key s = record s { attkb_enc_key = [] }

-- Only the HWCRYPTO server may have the seeds and the RPMB keys.
permission-seeds :
    (u : Uuid)
    → same_uuid u hwcrypto_srv_app_uuid ≡ false
    → (bit_and (get_ta_permission u) get_seed ≡ 0)
      × (bit_and (get_ta_permission u) get_rpmb_key ≡ 0)
unfolding get_ta_permission
permission-seeds u h =
    look (Bool-cases (same_uuid u keymaster_srv_app_uuid))
      (Bool-cases (same_uuid u secure_storage_server_app_uuid))
  where
    look :
        (same_uuid u keymaster_srv_app_uuid ≡ true) ⊎ (same_uuid u keymaster_srv_app_uuid ≡ false)
        → (same_uuid u secure_storage_server_app_uuid ≡ true)
          ⊎ (same_uuid u secure_storage_server_app_uuid ≡ false)
        → (bit_and (get_ta_permission u) get_seed ≡ 0)
          × (bit_and (get_ta_permission u) get_rpmb_key ≡ 0)
    look (inl k) _ = (rw (h, k) refl, rw (h, k) refl)
    look (inr k) (inl p) = (rw (h, k, p) refl, rw (h, k, p) refl)
    look (inr k) (inr p) = (rw (h, k, p) refl, rw (h, k, p) refl)

-- Only the KEYMASTER server may have the keybox.
pub permission-attkb :
    (u : Uuid)
    → same_uuid u keymaster_srv_app_uuid ≡ false
    → bit_and (get_ta_permission u) get_attkb_permission ≡ 0
unfolding get_ta_permission
permission-attkb u k =
    look (Bool-cases (same_uuid u hwcrypto_srv_app_uuid))
      (Bool-cases (same_uuid u secure_storage_server_app_uuid))
  where
    look :
        (same_uuid u hwcrypto_srv_app_uuid ≡ true) ⊎ (same_uuid u hwcrypto_srv_app_uuid ≡ false)
        → (same_uuid u secure_storage_server_app_uuid ≡ true)
          ⊎ (same_uuid u secure_storage_server_app_uuid ≡ false)
        → bit_and (get_ta_permission u) get_attkb_permission ≡ 0
    look (inl h) _ = rw h refl
    look (inr h) (inl p) = rw (h, k, p) refl
    look (inr h) (inr p) = rw (h, k, p) refl

hide-without_seeds :
    (permission : ℕ) (s : DeviceSecInfo)
    → bit_and permission get_seed ≡ 0
    → bit_and permission get_rpmb_key ≡ 0
    → hide_rpmb_key permission (hide_seeds permission s)
      ≡ hide_rpmb_key permission (hide_seeds permission (without_seeds s))
unfolding hide_rpmb_key hide_seeds
hide-without_seeds permission s a b = rw (a, b) refl

hide-without_attkb_enc_key :
    (permission : ℕ) (s : DeviceSecInfo)
    → hide_attkb_enc_key (hide_rpmb_key permission (hide_seeds permission s))
      ≡ hide_attkb_enc_key
          (hide_rpmb_key permission (hide_seeds permission (without_attkb_enc_key s)))
unfolding hide_rpmb_key hide_seeds hide_attkb_enc_key
hide-without_attkb_enc_key permission s =
    look (Bool-cases (bit_and permission get_seed == 0))
      (Bool-cases (bit_and permission get_rpmb_key == 0))
  where
    look :
        ((bit_and permission get_seed == 0) ≡ true) ⊎ ((bit_and permission get_seed == 0) ≡ false)
        → ((bit_and permission get_rpmb_key == 0) ≡ true)
          ⊎ ((bit_and permission get_rpmb_key == 0) ≡ false)
        → hide_attkb_enc_key (hide_rpmb_key permission (hide_seeds permission s))
          ≡ hide_attkb_enc_key
              (hide_rpmb_key permission (hide_seeds permission (without_attkb_enc_key s)))
    look (inl a) (inl b) = rw (a, b) refl
    look (inl a) (inr b) = rw (a, b) refl
    look (inr a) (inl b) = rw (a, b) refl
    look (inr a) (inr b) = rw (a, b) refl

-- Without the permission for the keybox the size stays what the block held.
pub provide_attkb-hidden :
    (env : Env) (info permission : ℕ) (s : DeviceSecInfo) (old_size : ℕ) (k : Kernel)
    → bit_and permission get_attkb_permission ≡ 0
    → provide_attkb env info permission s old_size k
      ≡ pure (ret (record { sec_info = hide_attkb_enc_key s; attkb_size = old_size }), k)
unfolding provide_attkb
provide_attkb-hidden env info permission s old_size k e = rw e refl

module _ (env : Env) (copies : Copies env) (info : ℕ) (k : Kernel) where
  pub with_block-copied :
      (permission : ℕ) (s : DeviceSecInfo) (d : TrustyDeviceInfo)
      → s.size_of_this_struct ≡ sizeof_device_sec_info
      → with_block env info permission s d k ≡ serve env info permission s d.attkb_size k
  unfolding with_block after_memcpy
  with_block-copied permission s d e =
      ap (λ r. after_memcpy env info permission d.attkb_size r k)
        (ap (λ (n : ℕ). env.memcpy_s d.sec_info sizeof_device_sec_info s n) e ∙ copies d.sec_info s)

  -- The call, when the rest of it is given.
  abbrev guarded : ℕ → (TrustyDeviceInfo → Io (Reply Status × Kernel)) → Io (Reply Status × Kernel)
  guarded size next =
      if not (size == sizeof_device_sec_info)
      then pure (panic, k)
      else if get_ta_permission env.uuid == get_none
      then pure (ret err_not_allowed, k)
      else elim env.malloc [ none ↦ pure (ret err_no_memory, k) | some dev_info ↦ next dev_info ]

  guarded_wrong_size :
      (size : ℕ) (next : TrustyDeviceInfo → Io (Reply Status × Kernel))
      → size ≢ sizeof_device_sec_info
      → guarded size next ≡ pure (panic, k)
  guarded_wrong_size size next wrong = ground arith

  guarded-next :
      (size : ℕ) (next : TrustyDeviceInfo → Io (Reply Status × Kernel)) (d : TrustyDeviceInfo)
      → size ≡ sizeof_device_sec_info
      → get_ta_permission env.uuid ≢ get_none
      → env.malloc ≡ some d
      → guarded size next ≡ next d
  guarded-next size next d full listed room =
      let right : not (size == sizeof_device_sec_info) ≡ false = ground arith in
      let some_permission : (get_ta_permission env.uuid == get_none) ≡ false = ground arith in
      rw (right, some_permission, room) refl

  -- A listed application gets as far as the block from the heap.
  pub sys_get_device_info-next :
      (s : DeviceSecInfo) (d : TrustyDeviceInfo)
      → s.size_of_this_struct ≡ sizeof_device_sec_info
      → get_ta_permission env.uuid ≢ get_none
      → env.malloc ≡ some d
      → sys_get_device_info env s info k
        ≡ serve env info (get_ta_permission env.uuid) s d.attkb_size k
  unfolding sys_get_device_info
  sys_get_device_info-next s d full listed room =
      guarded-next s.size_of_this_struct
        (λ e. with_block env info (get_ta_permission env.uuid) s e k) d full listed room
      ∙ with_block-copied (get_ta_permission env.uuid) s d full

  -- Two structures of the same size, which the application is served alike.
  sys_get_device_info-alike :
      (s s' : DeviceSecInfo)
      → s.size_of_this_struct ≡ s'.size_of_this_struct
      → ((old_size : ℕ)
          → serve env info (get_ta_permission env.uuid) s old_size k
            ≡ serve env info (get_ta_permission env.uuid) s' old_size k)
      → sys_get_device_info env s info k ≡ sys_get_device_info env s' info k
  unfolding sys_get_device_info
  sys_get_device_info-alike s s' same alike =
      let permission : ℕ = get_ta_permission env.uuid in
      elim (ℕ_discrete s.size_of_this_struct sizeof_device_sec_info) [
        | yes e ↦ λ i. guarded (same i) (λ d.
            (with_block-copied permission s d e
                ∙ alike d.attkb_size
                ∙ sym (with_block-copied permission s' d (sym same ∙ e)))
              i)
        | no wrong ↦
            guarded_wrong_size s.size_of_this_struct (λ d. with_block env info permission s d k)
              wrong
            ∙ sym (
                guarded_wrong_size s'.size_of_this_struct
                  (λ d. with_block env info permission s' d k) (λ e. wrong (same ∙ e)))
      ]

  -- When `memcpy_s` copies all of a structure of the full size, an application that is not the
  -- HWCRYPTO server sees the same and leaves the same, whatever the seeds and the RPMB keys are.
  pub sys_get_device_info-seeds :
      (s s' : DeviceSecInfo)
      → same_uuid env.uuid hwcrypto_srv_app_uuid ≡ false
      → without_seeds s ≡ without_seeds s'
      → sys_get_device_info env s info k ≡ sys_get_device_info env s' info k
  unfolding serve
  sys_get_device_info-seeds s s' other same =
      let permission : ℕ = get_ta_permission env.uuid in
      let (no_seed, no_rpmb) = permission-seeds env.uuid other in
      sys_get_device_info-alike s s' (ap (λ x. x.size_of_this_struct) same) λ old_size.
        ap (λ x. provide_attkb env info permission x old_size k >>= copy_info env info)
          (hide-without_seeds permission s no_seed no_rpmb
            ∙ ap (λ x. hide_rpmb_key permission (hide_seeds permission x)) same
            ∙ sym (hide-without_seeds permission s' no_seed no_rpmb))

  -- When `memcpy_s` copies all of a structure of the full size, an application that is not the
  -- KEYMASTER server sees the same and leaves the same, whatever the key is that encrypts the
  -- keybox.
  pub sys_get_device_info-attkb_enc_key :
      (s s' : DeviceSecInfo)
      → same_uuid env.uuid keymaster_srv_app_uuid ≡ false
      → without_attkb_enc_key s ≡ without_attkb_enc_key s'
      → sys_get_device_info env s info k ≡ sys_get_device_info env s' info k
  unfolding serve
  sys_get_device_info-attkb_enc_key s s' other same =
      let permission : ℕ = get_ta_permission env.uuid in
      let hidden : DeviceSecInfo → DeviceSecInfo =
        λ x. hide_rpmb_key permission (hide_seeds permission x) in
      let no_attkb = permission-attkb env.uuid other in
      sys_get_device_info-alike s s' (ap (λ x. x.size_of_this_struct) same) λ old_size.
        ap (λ m. m >>= copy_info env info)
          (provide_attkb-hidden env info permission (hidden s) old_size k no_attkb
            ∙ ap (λ x. pure (ret (record { sec_info = x; attkb_size = old_size }), k))
                (hide-without_attkb_enc_key permission s
                  ∙ ap (λ x. hide_attkb_enc_key (hidden x)) same
                  ∙ sym (hide-without_attkb_enc_key permission s'))
            ∙ sym (provide_attkb-hidden env info permission (hidden s') old_size k no_attkb))
