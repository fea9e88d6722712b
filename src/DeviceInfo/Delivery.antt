-- ===== src/DeviceInfo/Delivery.antt =====
-- What the KEYMASTER server receives, and what the block of another application discloses.
use trusty_platform_sand.Base.{
  ℕ, ◌+◌, ◌%◌, ◌^◌, ◌≤◌, ◌<◌, ◌≡◌, ◌≢◌, refl, ap, ◌∙◌, true, false, not, some, List, ◌∷◌, ◌++◌,
  arith, ltb, ◌==◌, length, drop, zeros, take-append-length, drop-append_add, length-append,
}
use trusty_platform_sand.Base.Io.{Trace, done, outp, ◌>>=◌}
use trusty_platform_sand.Base.Io.Spec.{Ends, Ends-bind, Ends-if}
use trusty_platform_sand.Heci.Attkb.{get_attkb}
use trusty_platform_sand.Heci.Attkb.Serves.{Serves}
use trusty_platform_sand.Heci.Attkb.Retrieve.{get_attkb-Serves}
use trusty_platform_sand.Pci.{pci_read32}
use trusty_platform_sand.DeviceInfo.{
  DeviceSecInfo, TrustyDeviceInfo, Env, Kernel, Uuid, ret, no_error, info_at, keybox_at, info_block,
  keybox_block, sizeof_device_sec_info, sizeof_trusty_device_info, seed_list_size, rpmb_key_size,
}
use trusty_platform_sand.DeviceInfo.Permission.{
  get_none, get_attkb_permission, get_ta_permission, same_uuid, keymaster_srv_app_uuid, hide_seeds,
  hide_rpmb_key, hide_attkb_enc_key,
}
use trusty_platform_sand.DeviceInfo.Serve.{
  wiped, read_fuse, manuf_mode, copy_keybox, copy_attkb_to_user, provide_attkb, copy_info, serve,
  sys_get_device_info,
}
use trusty_platform_sand.DeviceInfo.Secrecy.{
  Copies, sys_get_device_info-next, provide_attkb-hidden, permission-attkb,
}

-- Both fields of memory that the call writes are the user's.
abbrev pub IsUsers : Env → ℕ → ℕ → Type 0
IsUsers env info size =
    (env.copy_to_user info sizeof_trusty_device_info ≡ true)
    × (env.copy_to_user (info + sizeof_trusty_device_info) size ≡ true)

-- The device is not in its manufacturing mode.
abbrev pub InField : Env → Type 0
InField env = (t : Trace) → manuf_mode (env.ports t 32 0xCFC % 2 ^ 32) ≡ 0

copy_keybox-Ends :
    (env : Env) (user_attkb : ℕ) (file rest : List ℕ) (k : Kernel) (t : Trace)
    → env.copy_to_user user_attkb (length file) ≡ true
    → copy_keybox env user_attkb (length file) (file ++ rest) k t
      ≡ done
          (
            ret (length file),
            record {
              copied = keybox_at user_attkb file ∷ k.copied;
              freed = keybox_block (zeros (length file) ++ rest) ∷ k.freed;
            },
          )
          t
unfolding copy_keybox
copy_keybox-Ends env user_attkb file rest k t users =
    let shorter : ltb (length (file ++ rest)) (length file) ≡ false =
      ground (arith, length-append file rest) in
    let left : drop (length file) (file ++ rest) ≡ rest =
      ap (λ (n : ℕ). drop n (file ++ rest)) (omega arith) ∙ drop-append_add file rest 0 in
    rw (shorter, users, take-append-length file rest, left) refl

module _ (env : Env) (file block : List ℕ) (serves : Serves env.exchange file) (k : Kernel) where
  -- The kernel after the keybox went to an address.
  abbrev sent : ℕ → Kernel
  sent user_attkb = record {
    copied = keybox_at user_attkb file ∷ k.copied;
    freed = keybox_block (zeros (length file) ++ drop (length file) block) ∷ k.freed;
  }

  copy_attkb_to_user-Ends :
      (user_attkb : ℕ) (t : Trace)
      → env.memalign ≡ some block
      → env.copy_to_user user_attkb (length file) ≡ true
      → 0 < length file
      → length file ≤ length block
      → length file < env.fuel
      → Ends (ret (length file), sent user_attkb) (copy_attkb_to_user env user_attkb k t)
  unfolding copy_attkb_to_user
  copy_attkb_to_user-Ends user_attkb t room users some_bytes fits enough = rw room (
      Ends-bind (get_attkb env.exchange env.fuel (some block)) _ t
        (length file, some (file ++ drop (length file) block)) _
        (get_attkb-Serves env.exchange file block serves env.fuel t some_bytes fits enough)
        λ u.
          Ends-if (length file == 0) _ _ u _ (ground arith)
            (u, copy_keybox-Ends env user_attkb file (drop (length file) block) k u users))

  -- The history after the register is selected.
  abbrev selected : Trace → Trace
  selected t = outp 32 0xCF8 0x80007840 ∷ t

  read_fuse-Ends : (t : Trace) → Ends (env.ports (selected t) 32 0xCFC % 2 ^ 32) (read_fuse env t)
  unfolding pci_read32
  read_fuse-Ends t = (_, refl)

  provide_attkb-Ends :
      (info permission old_size : ℕ) (s : DeviceSecInfo) (t : Trace)
      → permission ≡ get_attkb_permission
      → InField env
      → env.memalign ≡ some block
      → env.copy_to_user (info + sizeof_trusty_device_info) (length file) ≡ true
      → 0 < length file
      → length file ≤ length block
      → length file < env.fuel
      → Ends
          (
            ret (record { sec_info = s; attkb_size = length file }),
            sent (info + sizeof_trusty_device_info),
          )
          (provide_attkb env info permission s old_size k t)
  unfolding provide_attkb
  provide_attkb-Ends info permission old_size s t may field room users some_bytes fits enough =
      rw may (
        Ends-bind (read_fuse env) _ t (env.ports (selected t) 32 0xCFC % 2 ^ 32) _
          (read_fuse-Ends t)
          λ u.
            Ends-if (not (manuf_mode (env.ports (selected t) 32 0xCFC % 2 ^ 32) == 0)) _ _ u _
              (ground (arith, field (selected t)))
              (Ends-bind (copy_attkb_to_user env (info + sizeof_trusty_device_info) k) _ u
                (ret (length file), sent (info + sizeof_trusty_device_info)) _
                (copy_attkb_to_user-Ends (info + sizeof_trusty_device_info) u room users some_bytes
                  fits enough)
                λ v. (v, refl)))

copy_info-users :
    (env : Env) (info : ℕ) (d : TrustyDeviceInfo) (k : Kernel) (t : Trace)
    → env.copy_to_user info sizeof_trusty_device_info ≡ true
    → copy_info env info (ret d, k) t
      ≡ done
          (
            ret no_error,
            record { copied = info_at info d ∷ k.copied; freed = info_block wiped ∷ k.freed },
          )
          t
unfolding copy_info
copy_info-users env info d k t users = rw users refl

keymaster-permission :
    (u : Uuid) → u ≡ keymaster_srv_app_uuid → get_ta_permission u ≡ get_attkb_permission
unfolding get_ta_permission same_uuid
keymaster-permission u e = ap get_ta_permission e

-- For the KEYMASTER server, on a device outside its manufacturing mode, with an engine that
-- serves a keybox which is not empty and fits its buffer, with more fuel than the keybox has bytes,
-- with memory in the heap and places that are the user's, and a structure of the full size that
-- `memcpy_s` copies, the call succeeds: the application receives the keybox behind the
-- information, and the information with the size of the keybox but without seeds and RPMB keys.
-- The blocks are given back without the information and without the keybox.
pub sys_get_device_info-keymaster :
    (env : Env) (g : DeviceSecInfo) (info : ℕ) (k : Kernel) (d : TrustyDeviceInfo)
    (file block : List ℕ) (t : Trace)
    → Serves env.exchange file
    → Copies env
    → InField env
    → IsUsers env info (length file)
    → env.uuid ≡ keymaster_srv_app_uuid
    → g.size_of_this_struct ≡ sizeof_device_sec_info
    → env.malloc ≡ some d
    → env.memalign ≡ some block
    → 0 < length file
    → length file ≤ length block
    → length file < env.fuel
    → Ends
        (
          ret no_error,
          record {
            copied =
                info_at info (record {
                  sec_info = record g {
                    dseed_list = zeros seed_list_size;
                    useed_list = zeros seed_list_size;
                    rpmb_key = zeros rpmb_key_size;
                  };
                  attkb_size = length file;
                })
                ∷ keybox_at (info + sizeof_trusty_device_info) file
                ∷ k.copied;
            freed =
                info_block wiped
                ∷ keybox_block (zeros (length file) ++ drop (length file) block)
                ∷ k.freed;
          },
        )
        (sys_get_device_info env g info k t)
unfolding serve copy_info hide_seeds hide_rpmb_key
sys_get_device_info-keymaster env g info k d file block t serves copies field users who size room
      room' some_bytes fits enough =
    let may : get_ta_permission env.uuid ≡ get_attkb_permission =
      keymaster-permission env.uuid who in
    let all : sys_get_device_info env g info k
        ≡ serve env info get_attkb_permission g d.attkb_size k =
      sys_get_device_info-next env copies info k g d size (ground (arith, may)) room
      ∙ ap (λ p. serve env info p g d.attkb_size k) may in
    let s : DeviceSecInfo = record g {
      dseed_list = zeros seed_list_size;
      useed_list = zeros seed_list_size;
      rpmb_key = zeros rpmb_key_size;
    } in
    let keybox : ℕ = info + sizeof_trusty_device_info in
    let dev_info : TrustyDeviceInfo = record { sec_info = s; attkb_size = length file } in
    let (u, e) =
      Ends-bind (provide_attkb env info get_attkb_permission s d.attkb_size k) (copy_info env info)
        t (ret dev_info, sent env file block serves k keybox) _
        (provide_attkb-Ends env file block serves k info get_attkb_permission d.attkb_size s t refl
          field room' users.1 some_bytes fits enough)
        (λ u.
          (u, copy_info-users env info dev_info (sent env file block serves k keybox) u users.0)) in
    (u, ap (λ m. m t) all ∙ e)

-- An application that is listed, but is not the KEYMASTER server, with a place that is its own,
-- memory in the heap and a structure of the full size that `memcpy_s` copies, receives the
-- structure without what its permission hides, and with it the size field that the block from the
-- heap held before.
pub sys_get_device_info-disclosure :
    (env : Env) (g : DeviceSecInfo) (info : ℕ) (k : Kernel) (d : TrustyDeviceInfo) (t : Trace)
    → Copies env
    → env.copy_to_user info sizeof_trusty_device_info ≡ true
    → get_ta_permission env.uuid ≢ get_none
    → same_uuid env.uuid keymaster_srv_app_uuid ≡ false
    → g.size_of_this_struct ≡ sizeof_device_sec_info
    → env.malloc ≡ some d
    → sys_get_device_info env g info k t
      ≡ done
          (
            ret no_error,
            record {
              copied =
                  info_at info (record {
                    sec_info = hide_attkb_enc_key (
                        hide_rpmb_key
                          (get_ta_permission env.uuid)
                          (hide_seeds (get_ta_permission env.uuid) g));
                    attkb_size = d.attkb_size;
                  })
                  ∷ k.copied;
              freed = info_block wiped ∷ k.freed;
            },
          )
          t
unfolding serve copy_info
sys_get_device_info-disclosure env g info k d t copies users listed other size room =
    let permission : ℕ = get_ta_permission env.uuid in
    let s : DeviceSecInfo = hide_rpmb_key permission (hide_seeds permission g) in
    ap (λ m. m t)
      (sys_get_device_info-next env copies info k g d size listed room
        ∙ ap (λ m. m >>= copy_info env info)
            (provide_attkb-hidden env info permission s d.attkb_size k
              (permission-attkb env.uuid other)))
    ∙ copy_info-users env info
        (record { sec_info = hide_attkb_enc_key s; attkb_size = d.attkb_size }) k t users
