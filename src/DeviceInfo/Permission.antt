-- ===== src/DeviceInfo/Permission.antt =====
-- syscall_x86.c: `get_ta_permission`, the matrix of the permissions, and what is taken out of
-- the information for an application that lacks one.
use Prim.Native.Nat.{bit_and}
use trusty_platform_sand.Base.{
  ℕ, ◌+◌, Bool, true, false, ◌&&◌, List, [], ◌∷◌, ◌==◌, if◌then◌else◌, zeros,
}
use trusty_platform_sand.DeviceInfo.{
  DeviceSecInfo, Uuid, seed_list_size, rpmb_key_size, attkb_enc_key_size,
}

-- GET_NONE, GET_BASIC_INFO, GET_SEED, GET_ATTKB, GET_RPMB_KEY
abbrev pub get_none : ℕ
get_none = 0

abbrev pub get_basic_info : ℕ
get_basic_info = 1

abbrev pub get_seed : ℕ
get_seed = 2

abbrev pub get_attkb_permission : ℕ
get_attkb_permission = 4

abbrev pub get_rpmb_key : ℕ
get_rpmb_key = 8

abbrev pub hwcrypto_srv_app_uuid : Uuid
hwcrypto_srv_app_uuid = record {
  time_low = 0x23fe5938;
  time_mid = 0xccd5;
  time_hi_and_version = 0x4a78;
  clock_seq_and_node = 0x8b ∷ 0xaf ∷ 0x0f ∷ 0x3d ∷ 0x05 ∷ 0xff ∷ 0xc2 ∷ 0xdf ∷ [];
}

abbrev pub keymaster_srv_app_uuid : Uuid
keymaster_srv_app_uuid = record {
  time_low = 0x5f902ace;
  time_mid = 0x5e5c;
  time_hi_and_version = 0x4cd8;
  clock_seq_and_node = 0xae ∷ 0x54 ∷ 0x87 ∷ 0xb8 ∷ 0x8c ∷ 0x22 ∷ 0xdd ∷ 0xaf ∷ [];
}

abbrev pub secure_storage_server_app_uuid : Uuid
secure_storage_server_app_uuid = record {
  time_low = 0xcea8706d;
  time_mid = 0x6cb4;
  time_hi_and_version = 0x49f3;
  clock_seq_and_node = 0xb9 ∷ 0x94 ∷ 0x29 ∷ 0xe0 ∷ 0xe4 ∷ 0x78 ∷ 0xbd ∷ 0x29 ∷ [];
}

same_bytes : List ℕ → List ℕ → Bool
same_bytes [] [] = true
same_bytes [] (y ∷ ys) = false
same_bytes (x ∷ xs) [] = false
same_bytes (x ∷ xs) (y ∷ ys) = x == y && same_bytes xs ys

-- `!memcmp(...)` of two identities
unfoldable pub same_uuid : Uuid → Uuid → Bool
unfolding same_bytes
same_uuid a b =
    a.time_low == b.time_low
    && (a.time_mid == b.time_mid
        && (a.time_hi_and_version == b.time_hi_and_version
            && same_bytes a.clock_seq_and_node b.clock_seq_and_node))

abbrev pub ta_permission_matrix : List (Uuid × ℕ)
ta_permission_matrix =
    (hwcrypto_srv_app_uuid, get_seed + get_rpmb_key)
    ∷ (keymaster_srv_app_uuid, get_attkb_permission)
    ∷ (secure_storage_server_app_uuid, get_basic_info)
    ∷ []

-- The loop over the matrix
permission_in : List (Uuid × ℕ) → Uuid → ℕ
permission_in [] uuid = get_none
permission_in ((listed, permission) ∷ rest) uuid =
    let later = permission_in rest uuid in if same_uuid uuid listed then permission else later

unfoldable pub get_ta_permission : Uuid → ℕ
unfolding permission_in
get_ta_permission uuid = permission_in ta_permission_matrix uuid

-- `secure_memzero` of the fields that the permission does not cover
unfoldable pub hide_seeds : ℕ → DeviceSecInfo → DeviceSecInfo
hide_seeds permission s =
    if bit_and permission get_seed == 0
    then record s { dseed_list = zeros seed_list_size; useed_list = zeros seed_list_size }
    else s

unfoldable pub hide_rpmb_key : ℕ → DeviceSecInfo → DeviceSecInfo
hide_rpmb_key permission s =
    if bit_and permission get_rpmb_key == 0 then record s { rpmb_key = zeros rpmb_key_size } else s

unfoldable pub hide_attkb_enc_key : DeviceSecInfo → DeviceSecInfo
hide_attkb_enc_key s = record s { attkb_enc_key = zeros attkb_enc_key_size }
