-- ===== src/Heci/Attkb.antt =====
-- heci.c: `get_attkb_size` and `get_attkb`, which read the attestation keybox in pieces, and the
-- messages of lib/heci/cse_msg.h. The data buffer is a list of 127 words; a request and its
-- response lie over the same words. The keybox buffer is a list of bytes.
pub mod Serves
pub mod Retrieve
pub mod Faults
pub mod Transport
pub mod Engine
use trusty_platform_sand.Base.{
  ℕ, zero, suc, ◌+◌, ◌-◌, ◌*◌, ◌%◌, ◌^◌, min, ℤ, pos, is_negative, not, ◌||◌, Bool, Option, none,
  some, List, [], ◌∷◌, ◌++◌, ltb, leb, ◌==◌, if◌then◌else◌, length, get_or, take, drop, replicate,
}
use mathlib.Core.Option
use trusty_platform_sand.Base.Io.{Io, pure, no_fuel, out_of_bounds, ◌>>=◌}
use trusty_platform_sand.Heci.Regs.{bits}
use trusty_platform_sand.Heci.Receive.{Machine, heci_send_w_ack}

-- MCA_MKHI_BOOTLOADER_READ_ATTKB_GRP_ID, MCA_MKHI_BOOTLOADER_READ_ATTKB_EX_CMD_REQ
abbrev pub read_attkb_grp_id : ℕ
read_attkb_grp_id = 0x0A

abbrev pub read_attkb_ex_cmd_req : ℕ
read_attkb_ex_cmd_req = 0x1A

-- The sizes of the two messages, HECI_MSG_SIZE and ALIGNED_MAX_TRANSFER_BUFFER
abbrev pub request_size : ℕ
request_size = 12

abbrev pub heci_msg_size : ℕ
heci_msg_size = 2 ^ 9 - 1

abbrev pub aligned_max_transfer_buffer : ℕ
aligned_max_transfer_buffer = (heci_msg_size - 12) - (heci_msg_size - 12) % 4

-- BIOS_FIXED_HOST_ADDR, BIOS_SEC_ADDR
abbrev pub bios_fixed_host_addr : ℕ
bios_fixed_host_addr = 0

abbrev pub bios_sec_addr : ℕ
bios_sec_addr = 0x7

-- sizeof(DataBuffer), in both functions
abbrev pub data_buffer_size : ℕ
data_buffer_size = 12 + aligned_max_transfer_buffer

-- A MCA_BOOTLOADER_READ_ATTKB_EX_Request in a cleared buffer: the header, the offset and the size
-- (both 16 bits wide), and the flag that asks for encryption.
unfoldable pub request : ℕ → ℕ → List ℕ
request offset size =
    (read_attkb_grp_id + read_attkb_ex_cmd_req * 2 ^ 8)
    ∷ (offset % 2 ^ 16 + size % 2 ^ 16 * 2 ^ 16)
    ∷ 1
    ∷ replicate 124 0

-- The fields of a MCA_BOOTLOADER_READ_ATTKB_EX_Response in the buffer.
unfoldable pub result : List ℕ → ℕ
result buf = bits (get_or buf 0 0) 24 8

unfoldable pub total_file_size : List ℕ → ℕ
total_file_size buf = bits (get_or buf 1 0) 0 16

unfoldable pub read_size : List ℕ → ℕ
read_size buf = bits (get_or buf 2 0) 0 16

-- The bytes of the words, the low byte first.
unfoldable pub word_bytes : List ℕ → List ℕ
word_bytes [] = []
word_bytes (w ∷ ws) = bits w 0 8 ∷ bits w 8 8 ∷ bits w 16 8 ∷ bits w 24 8 ∷ word_bytes ws

unfoldable pub file_data : List ℕ → List ℕ
unfolding word_bytes
file_data buf = word_bytes (drop 3 buf)

-- The copy of `bytes` to an offset of the keybox buffer.
unfoldable pub copy_bytes : List ℕ → ℕ → List ℕ → Io (List ℕ)
copy_bytes attkb offset bytes =
    if leb (offset + length bytes) (length attkb)
    then pure (take offset attkb ++ (bytes ++ drop (offset + length bytes) attkb))
    else out_of_bounds

-- A keybox: the size that is returned, and the buffer.
abbrev pub Keybox : Type 0
Keybox = ℕ × List ℕ

-- A request and its response in the data buffer, with a status.
abbrev pub Exchange : Type 0
Exchange = List ℕ → Io (ℤ × List ℕ)

module _ (exchange : Exchange) where
  -- `(status < 0) || (Resp->Header.Fields.Result != 0)`
  abbrev pub failed : ℤ → List ℕ → Bool
  failed status buf = is_negative status || not (result buf == 0)

  unfoldable pub get_attkb_size : Io ℕ
  unfolding result total_file_size
  get_attkb_size = do
    answer ← exchange (request 0 0)
    let (status, buf) = answer
    if failed status buf then pure 0 else pure (total_file_size buf)

  module _ (attkb_size : ℕ) where
    -- `while (remaining_attkb_size)`, with as many rounds as the first argument.
    unfoldable pub attkb_loop : ℕ → ℕ → ℕ → List ℕ → Io Keybox
    unfolding result read_size file_data copy_bytes
    attkb_loop zero remaining offset attkb = no_fuel
    attkb_loop (suc rounds) remaining offset attkb =
        if remaining == 0 then pure (attkb_size, attkb) else do
          let req_size = min remaining aligned_max_transfer_buffer % 2 ^ 16
          answer ← exchange (request offset req_size)
          let (status, buf) = answer
          let size = read_size buf
          if failed status buf || (ltb remaining size || ltb req_size size)
              then pure (0, attkb)
              else (do
                attkb' ← copy_bytes attkb offset (take size (file_data buf))
                attkb_loop rounds (remaining - size) (offset + size) attkb')

  unfoldable pub get_attkb : ℕ → Option (List ℕ) → Io (ℕ × Option (List ℕ))
  get_attkb fuel none = pure (0, none)
  get_attkb fuel (some attkb) = do
    attkb_size ← get_attkb_size
    if attkb_size == 0 then pure (0, some attkb) else do
      keybox ← attkb_loop attkb_size fuel attkb_size 0 attkb
      let (size, attkb') = keybox
      pure (size, some attkb')

-- The exchange over the transport; the status is that of HeciSendwACK.
unfoldable pub heci_exchange : Machine → ℕ → Exchange
heci_exchange m fuel buf = do
  r ←
      heci_send_w_ack m fuel (some buf) request_size (some data_buffer_size) bios_fixed_host_addr
        bios_sec_addr
  pure (pos r.status, Option.get_or r.message buf)
