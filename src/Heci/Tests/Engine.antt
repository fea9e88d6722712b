-- ===== src/Heci/Tests/Engine.antt =====
-- The retrieval of a keybox of three bytes over the registers: the device finds the offset and the
-- size of a request in the words that it was sent last, and answers with one byte.
use trusty_platform_sand.Base.{
  ℕ, zero, suc, ◌+◌, ◌-◌, ◌*◌, ◌/◌, ◌%◌, ◌^◌, ◌≤◌, ◌<◌, ◌≡◌, refl, ap, ◌∙◌, some, List, [], ◌∷◌,
  ◌++◌, arith, ◌==◌, if◌then◌else◌, get_or, length, length-append, take, slice, drop,
  drop-append_add,
}
use trusty_platform_sand.Base.Io.{Trace, Device, done}
use trusty_platform_sand.Base.Io.Writes.{u32}
use trusty_platform_sand.Heci.Regs.{address, sec_cb_rw, msg_hdr_word, host_ctrl}
use trusty_platform_sand.Heci.Taken.{taken}
use trusty_platform_sand.Heci.Send.Packets.{window}
use trusty_platform_sand.Heci.Send.Message.{one_packet}
use trusty_platform_sand.Heci.Receive.{Machine}
use trusty_platform_sand.Heci.Receive.Packet.{Gives, answer_header}
use trusty_platform_sand.Heci.Attkb.{
  request, request_size, bios_fixed_host_addr, bios_sec_addr, result, total_file_size, read_size,
  word_bytes, file_data, heci_exchange, get_attkb,
}
use trusty_platform_sand.Heci.Attkb.Transport.{IsEngine}
use trusty_platform_sand.Heci.Attkb.Engine.{Responds, get_attkb-heci_exchange}
use trusty_platform_sand.Heci.Tests.Keybox.{file}

abbrev hpet : ℕ
hpet = 0xFED00000

abbrev pub base : ℕ
base = 0x10000

-- One byte of the file
abbrev pub respond : ℕ → ℕ → List ℕ
respond offset size = 0 ∷ 3 ∷ 1 ∷ get_or file offset 0 % 2 ^ 8 ∷ []

abbrev packet : ℕ → ℕ → List ℕ
packet offset size = msg_hdr_word (answer_header (respond offset size)) ∷ respond offset size

-- The word with the offset and the size, in the last four words that were written
unfoldable pub asked : List ℕ → ℕ
asked ws = get_or (drop (length ws - 4) ws) 2 0

abbrev given : Trace → ℕ
given t =
    let w : ℕ = asked (window base t) in get_or (packet (w % 2 ^ 16) (w / 2 ^ 16)) (taken base t) 0

-- The other registers show a depth of 32, a write pointer of 1 and a read pointer of 0, and ready.
abbrev device : Device
device t w a = if a == address base sec_cb_rw then given t else 32 * 2 ^ 24 + 2 ^ 16 + 8

abbrev pub machine : Machine
machine = record {
  dev = device;
  vmm_alloc_physical = λ t p. some base;
  cse_mmio_base_va = 0x20000;
  hpet_mmio_base_va = hpet;
}

asked-request :
    (offset size : ℕ) (ws : List ℕ)
    → offset < 2 ^ 16
    → size < 2 ^ 16
    → asked (ws ++ one_packet (request offset size) request_size bios_fixed_host_addr bios_sec_addr)
      ≡ offset + size * 2 ^ 16
unfolding asked request
asked-request offset size ws o s =
    let p : List ℕ =
      one_packet (request offset size) request_size bios_fixed_host_addr bios_sec_addr in
    let at : length (ws ++ p) - 4 ≡ length ws + 0 = omega (arith, length-append ws p) in
    let word : u32 (offset % 2 ^ 16 + size % 2 ^ 16 * 2 ^ 16) ≡ offset + size * 2 ^ 16 =
      omega arith in
    ap (λ k. get_or (drop k (ws ++ p)) 2 0) at
    ∙ ap (λ l. get_or l 2 0) (drop-append_add ws p 0)
    ∙ word

packet_words :
    (offset size k : ℕ)
    → k < 5
    → u32 (get_or (packet offset size) k 0) ≡ get_or (packet offset size) k 0
unfolding msg_hdr_word
packet_words offset size zero h = refl
packet_words offset size (suc zero) h = refl
packet_words offset size (suc (suc zero)) h = refl
packet_words offset size (suc (suc (suc zero))) h = refl
packet_words offset size (suc (suc (suc (suc zero)))) h = omega arith
packet_words offset size (suc (suc (suc (suc (suc k))))) h = absurd (omega arith)

device-Gives :
    (offset size : ℕ) (ws : List ℕ)
    → offset < 2 ^ 16
    → size < 2 ^ 16
    → Gives device base
        (ws ++ one_packet (request offset size) request_size bios_fixed_host_addr bios_sec_addr)
        (packet offset size)
device-Gives offset size ws o s t e h =
    let w : asked (window base t) ≡ offset + size * 2 ^ 16 =
      ap asked e ∙ asked-request offset size ws o s in
    let same : asked (window base t) % 2 ^ 16 ≡ offset = omega (arith, w) in
    ap (λ n. u32 (get_or (packet n 0) (taken base t) 0)) same
    ∙ packet_words offset size (taken base t) h

pub machine-IsEngine : IsEngine machine base respond
machine-IsEngine =
    unfold host_ctrl in
    record {
      mapped = λ t p. refl;
      not_null = omega arith;
      separate = record {
        writes = (omega arith, omega arith);
        config = omega arith;
        counter = omega arith;
      };
      ready = λ t. refl;
      has_data = λ t. omega arith;
      deep = λ t. omega arith;
      short = λ offset size. omega arith;
      answers = λ offset size ws o s. device-Gives offset size ws o s;
    }

respond-piece :
    (offset n : ℕ)
    → 0 < n
    → offset < 3
    → (0 < read_size (respond offset n))
      × (read_size (respond offset n) ≤ n)
      × (read_size (respond offset n) + 12 ≤ 4 * length (respond offset n))
      × (take (read_size (respond offset n)) (file_data (respond offset n))
          ≡ slice offset (read_size (respond offset n)) file)
unfolding read_size file_data word_bytes
respond-piece zero n p h = (omega arith, omega arith, omega arith, refl)
respond-piece (suc zero) n p h = (omega arith, omega arith, omega arith, refl)
respond-piece (suc (suc zero)) n p h = (omega arith, omega arith, omega arith, refl)
respond-piece (suc (suc (suc offset))) n p h = absurd (omega arith)

pub respond-Responds : Responds respond file
unfolding result total_file_size
respond-Responds = record {
  header = λ offset size. omega arith;
  accepted = λ offset size. refl;
  size_is = refl;
  piece = λ offset n p small inside. respond-piece offset n p (omega arith);
}

get_attkb-heci_exchange_example :
    (u : Trace) × (get_attkb (heci_exchange machine 1) 4 (some (1 ∷ 2 ∷ 3 ∷ 4 ∷ [])) []
      ≡ done (3, some (7 ∷ 8 ∷ 9 ∷ 4 ∷ [])) u)
get_attkb-heci_exchange_example =
    get_attkb-heci_exchange machine 0 base respond file machine-IsEngine respond-Responds
      (1 ∷ 2 ∷ 3 ∷ 4 ∷ []) 4 [] (omega arith) (omega arith) (omega arith)
