-- ===== src/Heci/Send.antt =====
-- heci.c: `heci_send_impl`, which splits a message into packets that fit the host's circular
-- buffer. The message is a list of 32-bit words, NULL is `none`, and a read past the list is a
-- fault. Indices stay below 2 ^ 31, so their sums do not wrap.
pub mod Packets
pub mod Message
pub mod Progress
use trusty_platform_sand.Base.{
  ℕ, zero, suc, ◌+◌, ◌-◌, ◌*◌, ◌/◌, ◌%◌, ◌^◌, ℤ, is_negative, is_nonzero, Option, none, some, List,
  [], ◌∷◌, ltb, ◌==◌, if◌then◌else◌, get_elem?,
}
use trusty_platform_sand.Base.Io.{
  Device, Io, pure, no_fuel, out_of_bounds, read, write, ◌>>=◌, ◌>>◌,
}
use trusty_platform_sand.Heci.Regs.{
  address, h_csr, h_cb_ww, heci_event_timeout, HostCtrl, host_ctrl, host_ctrl_word, MsgHdr,
  msg_hdr_word,
}
use trusty_platform_sand.Heci.Wait.{heci_reg_read, wait_event, is_dev_ready, is_interrupt_raised}

-- heci_reg_write
abbrev pub heci_reg_write : ℕ → ℕ → ℕ → Io (Unit {0})
heci_reg_write base offset v = write 32 (address base offset) v

-- The writes of the words of a packet, from an index of the message on.
unfoldable pub send_words : ℕ → ℕ → ℕ → List ℕ → Io (Unit {0})
send_words base zero i msg = pure tt
send_words base (suc n) i msg = elim (get_elem? msg i) [
  | none ↦ out_of_bounds
  | some d ↦ heci_reg_write base h_cb_ww d >> send_words base n (i + 1) msg
]

-- The header of a packet of `size` words, when `left` words come after it.
unfoldable pub packet_header : ℕ → ℕ → ℕ → ℕ → ℕ → ℕ → MsgHdr
packet_header length host_address dev_addr size left written = record {
  sec_address = dev_addr;
  host_address = host_address;
  length =
      if ltb 0 left
      then size * 4 % 2 ^ 9
      else (length + 2 ^ 32 - written * 4 % 2 ^ 32) % 2 ^ 32 % 2 ^ 9;
  reserved = 0;
  message_complete = if ltb 0 left then 0 else 1;
}

-- `MaxBuffer`: the depth of the buffer less the word for the header, as a `uint32_t`.
abbrev pub max_buffer : ℕ → ℕ
max_buffer depth = (depth + 2 ^ 32 - 1) % 2 ^ 32

module _ (dev : Device) (hpet fuel base : ℕ) where
  -- Reads H_CSR, changes its bits and writes it.
  abbrev pub update_h_csr : (HostCtrl → HostCtrl) → Io (Unit {0})
  update_h_csr f = do
    w ← heci_reg_read dev base h_csr
    heci_reg_write base h_csr (host_ctrl_word (f (host_ctrl w)))

  abbrev pub mask_interrupt : HostCtrl → HostCtrl
  mask_interrupt r = record r { h_ie = 0; h_rdy = 1 }

  abbrev pub raise_interrupt : HostCtrl → HostCtrl
  raise_interrupt r = record r { h_ie = 0; h_is = 1; h_ig = 1; h_rdy = 1 }

  -- A packet: the mask, the header, the words and the interrupt.
  unfoldable pub send_packet : List ℕ → ℕ → ℕ → ℕ → ℕ → ℕ → ℕ → Io (Unit {0})
  unfolding send_words packet_header
  send_packet msg length host_address dev_addr size left written = do
    update_h_csr mask_interrupt
    heci_reg_write base h_cb_ww
        (msg_hdr_word (packet_header length host_address dev_addr size left written))
    send_words base size written msg
    update_h_csr raise_interrupt

  -- The wait between two packets: any result but 0 is taken for a timeout.
  unfoldable pub wait_raised : Io ℕ → Io ℕ
  wait_raised next = do
    raised ← wait_event dev hpet fuel heci_event_timeout (some (is_interrupt_raised dev base))
    if is_nonzero raised then pure 1 else next

  module _ (msg : List ℕ) (length host_address dev_addr buffer : ℕ) where
    -- `while (LeftSize > 0)`, with as many rounds as the first argument.
    unfoldable pub send_loop : ℕ → ℕ → ℕ → Io ℕ
    unfolding send_packet wait_raised
    send_loop zero left written = no_fuel
    send_loop (suc rounds) left written = if left == 0 then pure 0 else do
      ready ← wait_event dev hpet fuel heci_event_timeout (some (is_dev_ready dev base))
      if is_negative ready then pure 1 else do
        let size = if ltb buffer left then buffer else left
        send_packet msg length host_address dev_addr size (left - size) written
        let next : Io ℕ = send_loop rounds (left - size) (written + size)
        if ltb 0 (left - size) then wait_raised next else next

  unfoldable pub send_message : List ℕ → ℕ → ℕ → ℕ → Io ℕ
  send_message msg length host_address dev_addr = if length == 0 then pure 1 else do
    w ← heci_reg_read dev base h_csr
    let hcr = host_ctrl w
    heci_reg_write base h_csr (host_ctrl_word (record hcr { h_rdy = 1 }))
    let words = (length + 3) % 2 ^ 32 / 4
    send_loop msg length host_address dev_addr (max_buffer hcr.h_cbd) (suc words) words 0

  -- 0 on success and 1 on failure.
  unfoldable pub heci_send_impl : Option (List ℕ) → ℕ → ℕ → ℕ → Io ℕ
  unfolding send_message
  heci_send_impl none length host_address dev_addr = pure 1
  heci_send_impl (some msg) length host_address dev_addr =
      send_message msg length host_address dev_addr
