-- ===== src/Heci/Receive.antt =====
-- heci.c: `heci_receive_impl`, which stores the words of the packets that the device sends, and
-- `heci_get_base_addr`, `heci_send`, `heci_receive` and `HeciSendwACK` around the transport.
pub mod Bounds
pub mod Overflow
pub mod Packet
use Prim.Native.Nat.{bit_and, bit_or}
use trusty_platform_sand.Base.{
  ℕ, zero, suc, ◌+◌, ◌-◌, ◌*◌, ◌/◌, ◌%◌, ◌^◌, is_negative, Bool, true, false, ◌||◌, Option, none,
  some, List, ltb, leb, ◌==◌, if◌then◌else◌, length, set,
}
use trusty_platform_sand.Base.Io.{
  Trace, Device, Io, pure, no_fuel, out_of_bounds, read, write, ◌>>=◌, ◌>>◌,
}
use trusty_platform_sand.Heci.Regs.{
  address, sec_cb_rw, heci_mbar0, pci_command_offset, heci_event_timeout, msg_hdr,
}
use trusty_platform_sand.Heci.Wait.{heci_reg_read, wait_event, is_dev_data_ready}
use trusty_platform_sand.Heci.Send.{update_h_csr, mask_interrupt, raise_interrupt, heci_send_impl}

-- `Message[index] = value`, where the guard on the size lets it.
unfoldable pub store_word : ℕ → ℕ → ℕ → Option (List ℕ) → Io (Option (List ℕ))
store_word size index value none = pure none
store_word size index value (some msg) =
    if size == 0 || leb (index * 4) size
    then (if ltb index (length msg) then pure (some (set msg index value)) else out_of_bounds)
    else pure (some msg)

-- What a receiver leaves: its status, the message and the length.
pub record Received : Type 0 where
  pub status : ℕ
  pub message : Option (List ℕ)
  pub length : Option ℕ

-- `ReadSize`, which the code never changes.
abbrev pub read_size : ℕ
read_size = 0

-- `*Length` after a packet of `count` words with the length `bytes` in its header.
unfoldable pub packet_length : ℕ → ℕ → Option ℕ → Option ℕ
packet_length count bytes none = none
packet_length count bytes (some _) = some (if ltb bytes (count * 4) then bytes else count * 4)

module _ (dev : Device) (hpet fuel base : ℕ) where
  -- The words of a packet, `left` of them, from an index on; false is a timeout.
  unfoldable pub receive_words : ℕ → ℕ → ℕ → Option (List ℕ) → Io (Bool × Option (List ℕ))
  receive_words size zero index msg = pure (true, msg)
  receive_words size (suc left) index msg = do
    ready ← wait_event dev hpet fuel heci_event_timeout (some (is_dev_data_ready dev base))
    if is_negative ready then pure (false, msg) else do
      value ← heci_reg_read dev base sec_cb_rw
      msg' ← store_word size (index + read_size) value msg
      receive_words size left (index + 1) msg'

  -- The end of a packet: the interrupt to the device, and the end of the message.
  unfoldable pub finish_packet : ℕ → Option (List ℕ) → Option ℕ → Io Received → Io Received
  finish_packet message_complete msg len next = do
    update_h_csr dev hpet fuel base (raise_interrupt dev hpet fuel base)
    if message_complete == 1
        then pure (record { status = 0; message = msg; length = len })
        else next

  -- `while (1)`, with as many packets as the fuel.
  unfoldable pub receive_loop : ℕ → ℕ → Option (List ℕ) → Option ℕ → Io Received
  unfolding finish_packet
  receive_loop size zero msg len = no_fuel
  receive_loop size (suc packets) msg len = do
    update_h_csr dev hpet fuel base (mask_interrupt dev hpet fuel base)
    ready ← wait_event dev hpet fuel heci_event_timeout (some (is_dev_data_ready dev base))
    if is_negative ready then pure (record { status = 1; message = msg; length = len }) else do
      w ← heci_reg_read dev base sec_cb_rw
      let head = msg_hdr w
      let count = (head.length + 3) / 4
      words ← receive_words size count 0 msg
      let (whole, msg') = words
      let len' = packet_length count head.length len
      let next : Io Received = receive_loop size packets msg' len'
      if whole
          then finish_packet head.message_complete msg' len' next
          else pure (record { status = 1; message = msg'; length = len })

  -- `BufSize` is the length given, or 0.
  unfoldable pub heci_receive_impl : Option (List ℕ) → Option ℕ → Io Received
  heci_receive_impl msg none = receive_loop 0 fuel msg none
  heci_receive_impl msg (some len) = receive_loop len fuel msg (some len)

-- The parts of the system outside the library: the device, the address where a physical page is
-- mapped (or the failure), and the addresses that `cse_init` set up.
pub record Machine : Type 0 where
  pub dev : Device
  pub vmm_alloc_physical : Trace → ℕ → Option ℕ
  pub cse_mmio_base_va : ℕ
  pub hpet_mmio_base_va : ℕ

-- EFI_PCI_COMMAND_MEMORY_SPACE | EFI_PCI_COMMAND_BUS_MASTER
abbrev pub command_mask : ℕ
command_mask = 0x06

module _ (m : Machine) (fuel : ℕ) where
  abbrev pub heci_pci_read8 : ℕ → Io ℕ
  heci_pci_read8 reg = read m.dev 8 (address m.cse_mmio_base_va reg)

  abbrev pub heci_pci_read32 : ℕ → Io ℕ
  heci_pci_read32 reg = read m.dev 32 (address m.cse_mmio_base_va reg)

  abbrev pub heci_pci_write32 : ℕ → ℕ → Io (Unit {0})
  heci_pci_write32 reg val = write 32 (address m.cse_mmio_base_va reg) val

  -- `heci_pci_set16`
  unfoldable pub heci_pci_set16 : ℕ → ℕ → Io (Unit {0})
  heci_pci_set16 reg val = do
    v ← read m.dev 16 (address m.cse_mmio_base_va reg)
    write 16 (address m.cse_mmio_base_va reg) (bit_or v val)

  -- The answer 0 is the failure to map the registers.
  unfoldable pub heci_get_base_addr : Io ℕ
  unfolding heci_pci_set16
  heci_get_base_addr = do
    w ← heci_pci_read32 heci_mbar0
    let val = bit_and w 0xFFFFFFF0
    heci_pci_write32 heci_mbar0 0xFFFFFFFF
    heci_pci_read32 heci_mbar0 >>= λ _. pure tt
    heci_pci_write32 heci_mbar0 val
    b ← heci_pci_read32 heci_mbar0
    let heci_base = bit_and b 0xFFFFFFF0
    cmd ← heci_pci_read8 pci_command_offset
    (if bit_and cmd command_mask == command_mask
        then pure tt
        else heci_pci_set16 pci_command_offset (bit_or command_mask 0x100))
    λ t. elim (m.vmm_alloc_physical t heci_base) [ none ↦ pure 0 t | some va ↦ pure va t ]

  unfoldable pub heci_send : Option (List ℕ) → ℕ → ℕ → ℕ → Io ℕ
  heci_send msg length host_address dev_addr = do
    base ← heci_get_base_addr
    if base == 0
        then pure 1
        else heci_send_impl m.dev m.hpet_mmio_base_va fuel base msg length host_address dev_addr

  unfoldable pub heci_receive : Option (List ℕ) → Option ℕ → Io Received
  heci_receive msg len = do
    base ← heci_get_base_addr
    if base == 0
        then pure (record { status = 1; message = msg; length = len })
        else heci_receive_impl m.dev m.hpet_mmio_base_va fuel base msg len

  -- HeciSendwACK; a message that is not sent is left as it is.
  unfoldable pub heci_send_w_ack : Option (List ℕ) → ℕ → Option ℕ → ℕ → ℕ → Io Received
  heci_send_w_ack msg length rec_length host_address sec_address = do
    base ← heci_get_base_addr
    if base == 0 then pure (record { status = 1; message = msg; length = rec_length }) else do
      status ←
          heci_send_impl m.dev m.hpet_mmio_base_va fuel base msg length host_address sec_address
      if status == 0
          then heci_receive_impl m.dev m.hpet_mmio_base_va fuel base msg rec_length
          else pure (record { status = status; message = msg; length = rec_length })
