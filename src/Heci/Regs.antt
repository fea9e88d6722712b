-- ===== src/Heci/Regs.antt =====
-- The registers of lib/heci/heci_impl.h: their offsets, and the bit fields of the control and
-- status registers and of the message header, as records beside the words that hold them.
use trusty_platform_sand.Base.{ℕ, ◌+◌, ◌*◌, ◌/◌, ◌%◌, ◌^◌, ◌<◌, ◌≡◌, arith}

-- H_CB_WW, H_CSR, SEC_CB_RW, SEC_CSR_HA
abbrev pub h_cb_ww : ℕ
h_cb_ww = 0x00

abbrev pub h_csr : ℕ
h_csr = 0x04

abbrev pub sec_cb_rw : ℕ
sec_cb_rw = 0x08

abbrev pub sec_csr_ha : ℕ
sec_csr_ha = 0x0C

-- HECI_MBAR0, PCI_COMMAND_OFFSET
abbrev pub heci_mbar0 : ℕ
heci_mbar0 = 0x10

abbrev pub pci_command_offset : ℕ
pci_command_offset = 0x04

-- HECI_EVENT_TIMEOUT, in ms
abbrev pub heci_event_timeout : ℕ
heci_event_timeout = 3000

-- A field of `n` bits from bit `k` on.
abbrev pub bits : ℕ → ℕ → ℕ → ℕ
bits w k n = w / 2 ^ k % 2 ^ n

-- The sum of a 64-bit address and an offset.
abbrev pub address : ℕ → ℕ → ℕ
address base offset = (base + offset) % 2 ^ 64

-- DEV_CTRL_REG; the other fields are not read.
pub record DevCtrl : Type 0 where
  pub sec_rdy_hra : ℕ
  pub sec_cbrp_hra : ℕ
  pub sec_cbwp_hra : ℕ

unfoldable pub dev_ctrl : ℕ → DevCtrl
dev_ctrl w = record {
  sec_rdy_hra = bits w 3 1;
  sec_cbrp_hra = bits w 8 8;
  sec_cbwp_hra = bits w 16 8;
}

-- HOST_CTRL_REG
pub record HostCtrl : Type 0 where
  pub h_ie : ℕ
  pub h_is : ℕ
  pub h_ig : ℕ
  pub h_rdy : ℕ
  pub h_rst : ℕ
  pub reserved : ℕ
  pub h_cbrp : ℕ
  pub h_cbwp : ℕ
  pub h_cbd : ℕ

unfoldable pub host_ctrl : ℕ → HostCtrl
host_ctrl w = record {
  h_ie = bits w 0 1;
  h_is = bits w 1 1;
  h_ig = bits w 2 1;
  h_rdy = bits w 3 1;
  h_rst = bits w 4 1;
  reserved = bits w 5 3;
  h_cbrp = bits w 8 8;
  h_cbwp = bits w 16 8;
  h_cbd = bits w 24 8;
}

unfoldable pub host_ctrl_word : HostCtrl → ℕ
host_ctrl_word r =
    r.h_ie
    + r.h_is * 2
    + r.h_ig * 4
    + r.h_rdy * 8
    + r.h_rst * 16
    + r.reserved * 32
    + r.h_cbrp * 2 ^ 8
    + r.h_cbwp * 2 ^ 16
    + r.h_cbd * 2 ^ 24

-- HECI_MSG_HDR
pub record MsgHdr : Type 0 where
  pub sec_address : ℕ
  pub host_address : ℕ
  pub length : ℕ
  pub reserved : ℕ
  pub message_complete : ℕ

unfoldable pub msg_hdr : ℕ → MsgHdr
msg_hdr w = record {
  sec_address = bits w 0 8;
  host_address = bits w 8 8;
  length = bits w 16 9;
  reserved = bits w 25 6;
  message_complete = bits w 31 1;
}

unfoldable pub msg_hdr_word : MsgHdr → ℕ
msg_hdr_word h =
    h.sec_address
    + h.host_address * 2 ^ 8
    + h.length * 2 ^ 16
    + h.reserved * 2 ^ 25
    + h.message_complete * 2 ^ 31

-- The fields fit their widths.
pub record Fits (h : MsgHdr) : Type 0 where
  pub sec_address : h.sec_address < 2 ^ 8
  pub host_address : h.host_address < 2 ^ 8
  pub length : h.length < 2 ^ 9
  pub reserved : h.reserved < 2 ^ 6
  pub message_complete : h.message_complete < 2

-- A header whose fields fit is read back from its word.
pub msg_hdr-msg_hdr_word : (h : MsgHdr) → Fits h → msg_hdr (msg_hdr_word h) ≡ h
unfolding msg_hdr msg_hdr_word
msg_hdr-msg_hdr_word h f = ground arith

-- A 32-bit word of the control register is written back as it was read.
pub host_ctrl_word-host_ctrl : (w : ℕ) → w < 2 ^ 32 → host_ctrl_word (host_ctrl w) ≡ w
unfolding host_ctrl host_ctrl_word
host_ctrl_word-host_ctrl w h = omega arith
