-- ===== src/DeviceInfo/Tests.antt =====
-- The system call for three applications, with the engine of the keybox tests.
use trusty_platform_sand.Base.{ℕ, ◌≡◌, refl, true, some, [], ◌∷◌, arith, leb, zeros}
use trusty_platform_sand.Base.Io.{done}
use trusty_platform_sand.Base.Io.Spec.{Ends}
use trusty_platform_sand.Heci.Attkb.{heci_exchange}
use trusty_platform_sand.Heci.Tests.Engine.{
  machine, base, respond, machine-IsEngine, respond-Responds,
}
use trusty_platform_sand.DeviceInfo.Registers.{sys_get_device_info-heci_exchange}
use trusty_platform_sand.Heci.Tests.Keybox.{engine, file}
use trusty_platform_sand.DeviceInfo.{
  DeviceSecInfo, TrustyDeviceInfo, Env, Kernel, Uuid, ret, no_error, err_not_allowed, info_at,
  keybox_at, info_block, keybox_block, seed_list_size, rpmb_key_size, attkb_enc_key_size,
}
use trusty_platform_sand.DeviceInfo.Permission.{
  get_none, get_ta_permission, hwcrypto_srv_app_uuid, keymaster_srv_app_uuid,
  secure_storage_server_app_uuid, same_uuid, hide_seeds, hide_rpmb_key, hide_attkb_enc_key,
}
use trusty_platform_sand.DeviceInfo.Serve.{wiped, sys_get_device_info}
use trusty_platform_sand.DeviceInfo.Secrecy.{
  Copies, sys_get_device_info-seeds, sys_get_device_info-attkb_enc_key,
}
use trusty_platform_sand.DeviceInfo.Delivery.{InField, sys_get_device_info-disclosure}

-- What the loader left, for a seed and keys of one byte.
abbrev loaded : ℕ → DeviceSecInfo
loaded secret = record {
  size_of_this_struct = 1816;
  version = 0;
  platform = 2;
  flags = 0;
  pad1 = 0;
  num_seeds = 1;
  useed_list = [];
  dseed_list = secret ∷ [];
  rpmb_key = secret ∷ [];
  attkb_enc_key = 5 ∷ [];
  serial = 6 ∷ [];
  pad2 = 0;
}

-- A block from the heap with another number in the place of the size.
abbrev dirty : TrustyDeviceInfo
dirty = record { sec_info = loaded 9; attkb_size = 0xDEAD }

abbrev env : Uuid → Env
env uuid = record {
  uuid = uuid;
  malloc = some dirty;
  memalign = some (1 ∷ 2 ∷ 3 ∷ 4 ∷ []);
  memcpy_s = λ d size s n. (leb n size, s);
  copy_to_user = λ place size. true;
  ports = λ t w a. 0;
  exchange = engine;
  fuel = 4;
}

abbrev kernel : Kernel
kernel = record { copied = []; freed = [] }

env-Copies : (uuid : Uuid) → Copies (env uuid)
env-Copies uuid d s = refl

env-InField : (uuid : Uuid) → InField (env uuid)
env-InField uuid t = refl

not_listed :
    (uuid : Uuid)
    → get_ta_permission uuid ≡ get_none
    → sys_get_device_info (env uuid) (loaded 7) 100 kernel []
      ≡ done (ret err_not_allowed, kernel) []
unfolding sys_get_device_info
not_listed uuid e = rw e refl

sys_get_device_info-seeds_example :
    sys_get_device_info (env keymaster_srv_app_uuid) (loaded 7) 100 kernel
    ≡ sys_get_device_info (env keymaster_srv_app_uuid) (loaded 8) 100 kernel
sys_get_device_info-seeds_example =
    sys_get_device_info-seeds (env keymaster_srv_app_uuid) (env-Copies keymaster_srv_app_uuid) 100
      kernel (loaded 7) (loaded 8) (unfold same_uuid in refl) refl

sys_get_device_info-attkb_enc_key_example :
    sys_get_device_info (env hwcrypto_srv_app_uuid) (loaded 7) 100 kernel
    ≡ sys_get_device_info
        (env hwcrypto_srv_app_uuid)
        (record (loaded 7) { attkb_enc_key = 4 ∷ [] })
        100
        kernel
sys_get_device_info-attkb_enc_key_example =
    sys_get_device_info-attkb_enc_key (env hwcrypto_srv_app_uuid) (env-Copies hwcrypto_srv_app_uuid)
      100 kernel (loaded 7) (record (loaded 7) { attkb_enc_key = 4 ∷ [] })
      (unfold same_uuid in refl) refl

-- The KEYMASTER server, with the engine behind the registers of the transport's tests
abbrev register_env : Env
register_env = record (env keymaster_srv_app_uuid) { exchange = heci_exchange machine 1 }

sys_get_device_info-heci_exchange_example :
    Ends
      (
        ret no_error,
        record {
          copied =
              info_at 100 (record {
                sec_info = record (loaded 7) {
                  dseed_list = zeros seed_list_size;
                  useed_list = zeros seed_list_size;
                  rpmb_key = zeros rpmb_key_size;
                };
                attkb_size = 3;
              })
              ∷ keybox_at 1920 (7 ∷ 8 ∷ 9 ∷ [])
              ∷ [];
          freed = info_block wiped ∷ keybox_block (0 ∷ 0 ∷ 0 ∷ 4 ∷ []) ∷ [];
        },
      )
      (sys_get_device_info register_env (loaded 7) 100 kernel [])
sys_get_device_info-heci_exchange_example =
    sys_get_device_info-heci_exchange machine 0 base respond file machine-IsEngine respond-Responds
      register_env (loaded 7) 100 kernel dirty (1 ∷ 2 ∷ 3 ∷ 4 ∷ []) [] refl
      (env-Copies keymaster_srv_app_uuid) (env-InField keymaster_srv_app_uuid) (refl, refl) refl
      refl refl refl (omega arith) (omega arith) (omega arith)

sys_get_device_info-disclosure_example :
    sys_get_device_info (env secure_storage_server_app_uuid) (loaded 7) 100 kernel []
    ≡ done
        (
          ret no_error,
          record {
            copied =
                info_at 100 (record {
                  sec_info = record (loaded 7) {
                    dseed_list = zeros seed_list_size;
                    useed_list = zeros seed_list_size;
                    rpmb_key = zeros rpmb_key_size;
                    attkb_enc_key = zeros attkb_enc_key_size;
                  };
                  attkb_size = 0xDEAD;
                })
                ∷ [];
            freed = info_block wiped ∷ [];
          },
        )
        []
unfolding get_ta_permission same_uuid hide_seeds hide_rpmb_key hide_attkb_enc_key
sys_get_device_info-disclosure_example =
    sys_get_device_info-disclosure (env secure_storage_server_app_uuid) (loaded 7) 100 kernel dirty
      [] (env-Copies secure_storage_server_app_uuid) refl (omega arith) refl refl refl
