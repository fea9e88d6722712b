-- ===== src/DeviceInfo/Registers.antt =====
-- The whole way of the keybox: from the registers of the security engine to the application.
use mathlib.Core.Path.{subst}
use trusty_platform_sand.Base.{
  ℕ, suc, ◌+◌, ◌≤◌, ◌<◌, ◌≡◌, sym, some, List, ◌∷◌, ◌++◌, zeros, length, drop,
}
use trusty_platform_sand.Base.Io.{Trace}
use trusty_platform_sand.Base.Io.Spec.{Ends}
use trusty_platform_sand.Heci.Receive.{Machine}
use trusty_platform_sand.Heci.Attkb.{heci_exchange}
use trusty_platform_sand.Heci.Attkb.Serves.{Serves}
use trusty_platform_sand.Heci.Attkb.Transport.{IsEngine}
use trusty_platform_sand.Heci.Attkb.Engine.{Responds, heci_exchange-Serves}
use trusty_platform_sand.DeviceInfo.{
  DeviceSecInfo, TrustyDeviceInfo, Env, Kernel, ret, no_error, info_at, keybox_at, info_block,
  keybox_block, seed_list_size, rpmb_key_size, sizeof_device_sec_info, sizeof_trusty_device_info,
}
use trusty_platform_sand.DeviceInfo.Permission.{keymaster_srv_app_uuid}
use trusty_platform_sand.DeviceInfo.Serve.{wiped, sys_get_device_info}
use trusty_platform_sand.DeviceInfo.Secrecy.{Copies}
use trusty_platform_sand.DeviceInfo.Delivery.{InField, IsUsers, sys_get_device_info-keymaster}

module _ (m : Machine) (fuel base : ℕ) (respond : ℕ → ℕ → List ℕ) (file : List ℕ)
    (engine : IsEngine m base respond) (responds : Responds respond file) where
  -- For the KEYMASTER server, on a device outside its manufacturing mode, with a security engine
  -- that answers every request at once with one packet over the registers, whose bodies report the
  -- size of a keybox and give pieces of it; with a keybox that is not empty and fits its buffer,
  -- more fuel than the keybox has bytes, memory in the heap, places that are the user's, and a
  -- structure of the full size that `memcpy_s` copies: the call succeeds, the application receives
  -- the keybox behind the information, and the information with the size of the keybox but without
  -- seeds and RPMB keys. The blocks are given back without the information and without the keybox.
  pub sys_get_device_info-heci_exchange :
      (env : Env) (g : DeviceSecInfo) (info : ℕ) (k : Kernel) (d : TrustyDeviceInfo)
      (block : List ℕ) (t : Trace)
      → env.exchange ≡ heci_exchange m (suc fuel)
      → Copies env
      → InField env
      → IsUsers env info (length file)
      → env.uuid ≡ keymaster_srv_app_uuid
      → g.size_of_this_struct ≡ sizeof_device_sec_info
      → env.malloc ≡ some d
      → env.memalign ≡ some block
      → 0 < length file
      → length file ≤ length block
      → length file < env.fuel
      → Ends
          (
            ret no_error,
            record {
              copied =
                  info_at info (record {
                    sec_info = record g {
                      dseed_list = zeros seed_list_size;
                      useed_list = zeros seed_list_size;
                      rpmb_key = zeros rpmb_key_size;
                    };
                    attkb_size = length file;
                  })
                  ∷ keybox_at (info + sizeof_trusty_device_info) file
                  ∷ k.copied;
              freed =
                  info_block wiped
                  ∷ keybox_block (zeros (length file) ++ drop (length file) block)
                  ∷ k.freed;
            },
          )
          (sys_get_device_info env g info k t)
  sys_get_device_info-heci_exchange env g info k d block t over copies field users who size room
        room' some_bytes fits enough =
      sys_get_device_info-keymaster env g info k d file block t
        (subst (λ x. Serves x file) (sym over)
          (heci_exchange-Serves m fuel base respond file engine responds))
        copies field users who size room room' some_bytes fits enough
