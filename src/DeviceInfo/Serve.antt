-- ===== src/DeviceInfo/Serve.antt =====
-- syscall_x86.c: `copy_attkb_to_user` and `sys_get_device_info`, with ATTKB_HECI set.
use Prim.Native.Nat.{bit_and}
use trusty_platform_sand.Base.{
  ℕ, ◌+◌, Bool, true, false, not, none, some, List, ◌∷◌, ◌++◌, ltb, ◌==◌, if◌then◌else◌, length,
  take, drop, zeros,
}
use mathlib.Core.Option
use trusty_platform_sand.Base.Io.{Io, pure, out_of_bounds, ◌>>=◌}
use trusty_platform_sand.Heci.Regs.{bits}
use trusty_platform_sand.Heci.Attkb.{get_attkb}
use trusty_platform_sand.Pci.{pci_read32}
use trusty_platform_sand.DeviceInfo.{
  DeviceSecInfo, TrustyDeviceInfo, Env, Kernel, Reply, ret, panic, Status, no_error,
  err_not_allowed, err_no_memory, err_generic, info_at, keybox_at, info_block, keybox_block,
  sizeof_device_sec_info, sizeof_trusty_device_info, seed_list_size, rpmb_key_size,
  attkb_enc_key_size,
}
use trusty_platform_sand.DeviceInfo.Permission.{
  get_none, get_attkb_permission, get_ta_permission, hide_seeds, hide_rpmb_key, hide_attkb_enc_key,
}

-- The block of the information after `secure_memzero`.
abbrev pub wiped : TrustyDeviceInfo
wiped = record {
  sec_info = record {
    size_of_this_struct = 0;
    version = 0;
    platform = 0;
    flags = 0;
    pad1 = 0;
    num_seeds = 0;
    useed_list = zeros seed_list_size;
    dseed_list = zeros seed_list_size;
    rpmb_key = zeros rpmb_key_size;
    attkb_enc_key = zeros attkb_enc_key_size;
    serial = zeros 15;
    pad2 = 0;
  };
  attkb_size = 0;
}

-- HECI1_BUS, HECI1_DEV, HECI1_FUNC, HECI1_REG, and `state.field.manuf_mode`
abbrev pub read_fuse : Env → Io ℕ
read_fuse env = pci_read32 env.ports 0 15 0 0x40

abbrev pub manuf_mode : ℕ → ℕ
manuf_mode data_word = bits data_word 4 1

module _ (env : Env) where
  -- The copy of `size` bytes of the keybox, and the block wiped and freed.
  unfoldable pub copy_keybox : ℕ → ℕ → List ℕ → Kernel → Io (Reply ℕ × Kernel)
  copy_keybox user_attkb size attkb k =
      if ltb (length attkb) size
      then out_of_bounds
      else if env.copy_to_user user_attkb size
      then pure (
        ret size,
        record {
          copied = keybox_at user_attkb (take size attkb) ∷ k.copied;
          freed = keybox_block (zeros size ++ drop size attkb) ∷ k.freed;
        },
      )
      else pure (panic, k)

  unfoldable pub copy_attkb_to_user : ℕ → Kernel → Io (Reply ℕ × Kernel)
  unfolding copy_keybox
  copy_attkb_to_user user_attkb k = elim env.memalign [
    | none ↦ pure (ret 0, k)
    | some block ↦ (do
      keybox ← get_attkb env.exchange env.fuel (some block)
      let (size, left) = keybox
      let attkb = Option.get_or left block
      if size == 0
          then pure (ret 0, record k { freed = keybox_block attkb ∷ k.freed })
          else copy_keybox user_attkb size attkb k)
  ]

  -- The keybox of an application that may have it, else the key that encrypts it is hidden;
  -- `old_size` is what the block holds.
  unfoldable pub provide_attkb :
      ℕ → ℕ → DeviceSecInfo → ℕ → Kernel → Io (Reply TrustyDeviceInfo × Kernel)
  unfolding copy_attkb_to_user hide_attkb_enc_key
  provide_attkb info permission s old_size k =
      if bit_and permission get_attkb_permission == 0
      then pure (ret (record { sec_info = hide_attkb_enc_key s; attkb_size = old_size }), k)
      else do
        state ← read_fuse env
        if not (manuf_mode state == 0)
            then pure (ret (record { sec_info = s; attkb_size = 0 }), k)
            else (do
              answer ← copy_attkb_to_user (info + sizeof_trusty_device_info) k
              let (reply, k') = answer
              elim reply [
                | ret size ↦ pure (ret (record { sec_info = s; attkb_size = size }), k')
                | panic ↦ pure (panic, k')
              ])

  -- The copy of the information, and its block wiped and freed.
  unfoldable pub copy_info : ℕ → Reply TrustyDeviceInfo × Kernel → Io (Reply Status × Kernel)
  copy_info info (panic, k) = pure (panic, k)
  copy_info info (ret dev_info, k) =
      if env.copy_to_user info sizeof_trusty_device_info
      then pure (
        ret no_error,
        record { copied = info_at info dev_info ∷ k.copied; freed = info_block wiped ∷ k.freed },
      )
      else pure (panic, k)

  -- What follows the copy of the information into the block.
  unfoldable pub serve : ℕ → ℕ → DeviceSecInfo → ℕ → Kernel → Io (Reply Status × Kernel)
  unfolding provide_attkb copy_info hide_seeds hide_rpmb_key
  serve info permission s old_size k = do
    answer ←
        provide_attkb info permission (hide_rpmb_key permission (hide_seeds permission s)) old_size
          k
    copy_info info answer

  -- What follows `memcpy_s`, which answered the fourth argument.
  unfoldable pub after_memcpy :
      ℕ → ℕ → ℕ → Bool × DeviceSecInfo → Kernel → Io (Reply Status × Kernel)
  unfolding serve
  after_memcpy info permission old_size (true, s) k = serve info permission s old_size k
  after_memcpy info permission old_size (false, s) k = pure (
    ret err_generic,
    record k { freed = info_block (record { sec_info = s; attkb_size = old_size }) ∷ k.freed },
  )

  unfoldable pub with_block :
      ℕ → ℕ → DeviceSecInfo → TrustyDeviceInfo → Kernel → Io (Reply Status × Kernel)
  unfolding after_memcpy
  with_block info permission g_sec_info dev_info k =
      after_memcpy info permission dev_info.attkb_size
        (env.memcpy_s dev_info.sec_info sizeof_device_sec_info g_sec_info
          g_sec_info.size_of_this_struct)
        k

  unfoldable pub sys_get_device_info : DeviceSecInfo → ℕ → Kernel → Io (Reply Status × Kernel)
  unfolding with_block get_ta_permission
  sys_get_device_info g_sec_info info k =
      if not (g_sec_info.size_of_this_struct == sizeof_device_sec_info)
      then pure (panic, k)
      else if get_ta_permission env.uuid == get_none
      then pure (ret err_not_allowed, k)
      else elim env.malloc [
        | none ↦ pure (ret err_no_memory, k)
        | some dev_info ↦ with_block info (get_ta_permission env.uuid) g_sec_info dev_info k
      ]
