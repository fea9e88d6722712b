-- ===== src/DeviceInfo.antt =====
-- lib/syscall/syscall_x86.c: the system call that gives a trusted application the device's
-- information, with the structures of include/shared/trusty_device_info.h and the identities of
-- include/shared/trusty_apps_uuid.h. The heap, the copy to the user's memory and `memcpy_s` are
-- the kernel's; what they do is a parameter.
pub mod Permission
pub mod Serve
pub mod Secrecy
pub mod Delivery
pub mod Registers
mod Tests
use trusty_platform_sand.Base.{ℕ, ◌≡◌, List, Bool, Option}
use trusty_platform_sand.Base.Io.{Device}
use trusty_platform_sand.Heci.Attkb.{Exchange}

-- `device_sec_info_t`; the lists of seeds and the keys are bytes.
pub record DeviceSecInfo : Type 0 where
  pub size_of_this_struct : ℕ
  pub version : ℕ
  pub platform : ℕ
  pub flags : ℕ
  pub pad1 : ℕ
  pub num_seeds : ℕ
  pub useed_list : List ℕ
  pub dseed_list : List ℕ
  pub rpmb_key : List ℕ
  pub attkb_enc_key : List ℕ
  pub serial : List ℕ
  pub pad2 : ℕ

-- `trusty_device_info_t`
pub record TrustyDeviceInfo : Type 0 where
  pub sec_info : DeviceSecInfo
  pub attkb_size : ℕ

-- sizeof(seed_info_t[CSE_SEED_MAX_ENTRIES]), sizeof(rpmb_key), sizeof(attkb_enc_key)
abbrev pub seed_list_size : ℕ
seed_list_size = 680

abbrev pub rpmb_key_size : ℕ
rpmb_key_size = 384

abbrev pub attkb_enc_key_size : ℕ
attkb_enc_key_size = 32

-- sizeof(device_sec_info_t), sizeof(trusty_device_info_t)
abbrev pub sizeof_device_sec_info : ℕ
sizeof_device_sec_info = 1816

abbrev pub sizeof_trusty_device_info : ℕ
sizeof_trusty_device_info = 1820

-- `uuid_t`
pub record Uuid : Type 0 where
  pub time_low : ℕ
  pub time_mid : ℕ
  pub time_hi_and_version : ℕ
  pub clock_seq_and_node : List ℕ

-- What the call leaves outside: the copies to the user's memory and the blocks given back to the
-- heap with what they hold, each the latest first.
pub data Copy : Type 0 where
  info_at : ℕ → TrustyDeviceInfo → Copy
  keybox_at : ℕ → List ℕ → Copy

pub data Block : Type 0 where
  info_block : TrustyDeviceInfo → Block
  keybox_block : List ℕ → Block

pub record Kernel : Type 0 where
  pub copied : List Copy
  pub freed : List Block

-- A call returns, or the kernel stops.
pub data Reply (A : Type 0) : Type 0 where
  ret : A → Reply A
  panic : Reply A

-- NO_ERROR, ERR_NOT_ALLOWED, ERR_NO_MEMORY and ERR_GENERIC
pub data Status : Type 0 where
  no_error err_not_allowed err_no_memory err_generic : Status

-- `uuid` is that of the current application. A block comes with what the memory holds. `memcpy_s`
-- takes the destination with its size and the source with the size to copy; it answers whether it
-- succeeded, with the destination. `copy_to_user` answers whether the range is the user's.
pub record Env : Type 0 where
  pub uuid : Uuid
  pub malloc : Option TrustyDeviceInfo
  pub memalign : Option (List ℕ)
  pub memcpy_s : DeviceSecInfo → ℕ → DeviceSecInfo → ℕ → Bool × DeviceSecInfo
  pub copy_to_user : ℕ → ℕ → Bool
  pub ports : Device
  pub exchange : Exchange
  pub fuel : ℕ
