-- ===== src/Heci/Attkb/Transport.antt =====
-- A device that answers the requests for a keybox over the registers.

use Prim.Native.Nat.{bit_or}
use trusty_platform_sand.Base.{
  ℕ, suc, ◌+◌, ◌*◌, ◌^◌, ◌≤◌, ◌<◌, ◌≡◌, ◌≢◌, refl, ap, ◌∙◌, pos, none, some, List, ◌∷◌, ◌++◌, arith,
  Bool, true, false, length, drop, ◌==◌, if◌then◌else◌,
}
use trusty_platform_sand.Base.Io.{Trace, Io, done, pure, ◌>>=◌}
use trusty_platform_sand.Base.Io.Spec.{EndsIn, EndsIn-bind, EndsIn-if}
use trusty_platform_sand.Heci.Regs.{msg_hdr_word, pci_command_offset}
use trusty_platform_sand.Heci.Taken.{taken}
use trusty_platform_sand.Heci.Send.{max_buffer, heci_send_impl}
use trusty_platform_sand.Heci.Send.Packets.{window}
use trusty_platform_sand.Heci.Send.Message.{one_packet, depth}
use trusty_platform_sand.Heci.Send.Progress.{IsReady, heci_send_impl-NoneTaken}
use trusty_platform_sand.Heci.Receive.{
  command_mask, heci_pci_set16, Machine, Received, heci_get_base_addr, heci_receive_impl,
  heci_send_w_ack,
}
use trusty_platform_sand.Heci.Receive.Overflow.{HasData}
use trusty_platform_sand.Heci.Receive.Packet.{Separate, Gives, answer_header, heci_receive_impl-At}
use trusty_platform_sand.Base.Stored.{stored, stored-append}
use trusty_platform_sand.Heci.Attkb.{
  request, request_size, data_buffer_size, bios_fixed_host_addr, bios_sec_addr, heci_exchange,
}

-- The registers are always mapped at `base`; the device is ready, always has data and takes a
-- request at once; and the words that it gives after a request are a packet with the body that
-- `respond` tells from the request's offset and size.
pub record IsEngine (m : Machine) (base : ℕ) (respond : ℕ → ℕ → List ℕ) : Type 0 where
  pub mapped : (t : Trace) (p : ℕ) → m.vmm_alloc_physical t p ≡ some base
  pub not_null : base ≢ 0
  pub separate : Separate m.hpet_mmio_base_va base
  pub ready : IsReady m.dev base
  pub has_data : HasData m.dev base
  pub deep : (t : Trace) → 3 ≤ max_buffer (depth m.dev base t)
  pub short : (offset size : ℕ) → length (respond offset size) < 128
  pub answers :
      (offset size : ℕ) (ws : List ℕ)
      → offset < 2 ^ 16
      → size < 2 ^ 16
      → Gives m.dev base
          (ws ++ one_packet (request offset size) request_size bios_fixed_host_addr bios_sec_addr)
          (msg_hdr_word (answer_header (respond offset size)) ∷ respond offset size)

module _ (m : Machine) (fuel base : ℕ) (respond : ℕ → ℕ → List ℕ)
    (engine : IsEngine m base respond) where
  set_command :
      (c : Bool) (reg val : ℕ) (t : Trace)
      → EndsIn (λ _. Unit {0}) tt ((if c then pure tt else heci_pci_set16 m (suc fuel) reg val) t)
  unfolding heci_pci_set16
  set_command true reg val t = (t, refl, tt)
  set_command false reg val t = (_, refl, tt)

  -- The last step of `heci_get_base_addr`
  abbrev map_page : ℕ → Io ℕ
  map_page p t = elim (m.vmm_alloc_physical t p) [ none ↦ pure 0 t | some va ↦ pure va t ]

  map_page-Ends : (p : ℕ) (t : Trace) → EndsIn (λ _. Unit {0}) base (map_page p t)
  map_page-Ends p t = (t, rw (engine.mapped t p, map_page) refl, tt)

  map_base :
      (c : Bool) (reg val p : ℕ) (t : Trace)
      → EndsIn
          (λ _. Unit {0})
          base
          (((if c then pure tt else heci_pci_set16 m (suc fuel) reg val) >>= λ _. map_page p) t)
  map_base c reg val p t =
      EndsIn-bind (λ _. Unit {0}) (λ _. Unit {0})
        (if c then pure tt else heci_pci_set16 m (suc fuel) reg val) (λ _. map_page p) t tt base
        (set_command c reg val t) (λ u _. map_page-Ends p u)

  heci_get_base_addr-Ends :
      (t : Trace) → EndsIn (λ _. Unit {0}) base (heci_get_base_addr m (suc fuel) t)
  unfolding heci_get_base_addr
  heci_get_base_addr-Ends t = map_base _ pci_command_offset (bit_or command_mask 0x100) _ _

  -- The buffer after an exchange: the body lies over the request.
  abbrev pub over_request : ℕ → ℕ → List ℕ
  over_request offset size =
      respond offset size ++ drop (length (respond offset size)) (request offset size)

  length-request : (offset size : ℕ) → length (request offset size) ≡ 127
  unfolding request
  length-request offset size = refl

  stored-request :
      (offset size : ℕ)
      → stored (respond offset size) 0 (request offset size) ≡ over_request offset size
  stored-request offset size =
      let n : ℕ = length (respond offset size) in
      let from_zero : 0 + n ≡ n = omega arith in
      stored-append (respond offset size) 0 (request offset size)
        (omega (arith, engine.short offset size, length-request offset size))
      ∙ ap (λ k. respond offset size ++ drop k (request offset size)) from_zero

  abbrev acknowledged : ℕ → ℕ → Received
  acknowledged offset size = record {
    status = 0;
    message = some (stored (respond offset size) 0 (request offset size));
    length = some (length (respond offset size) * 4);
  }

  heci_send_w_ack-Ends :
      (offset size : ℕ) (t : Trace)
      → offset < 2 ^ 16
      → size < 2 ^ 16
      → EndsIn
          (λ _. Unit {0})
          (acknowledged offset size)
          (heci_send_w_ack m
            (suc fuel)
            (some (request offset size))
            request_size
            (some data_buffer_size)
            bios_fixed_host_addr
            bios_sec_addr
            t)
  unfolding heci_send_w_ack
  heci_send_w_ack-Ends offset size t o s =
      let msg : List ℕ = request offset size in
      let receive : Io Received =
        heci_receive_impl m.dev m.hpet_mmio_base_va (suc fuel) base (some msg)
          (some data_buffer_size) in
      let words : List ℕ =
        msg_hdr_word (answer_header (respond offset size)) ∷ respond offset size in
      EndsIn-bind (λ _. Unit {0}) (λ _. Unit {0}) (heci_get_base_addr m (suc fuel)) _ t base
        (acknowledged offset size) (heci_get_base_addr-Ends t)
        λ u _.
          EndsIn-if (λ _. Unit {0}) (base == 0) _ _ u (acknowledged offset size)
            (ground (arith, engine.not_null))
            (EndsIn-bind
              (λ v.
                (window base v
                  ≡ window base u ++ one_packet msg request_size bios_fixed_host_addr bios_sec_addr)
                × (taken base v ≡ 0))
              (λ _. Unit {0})
              (heci_send_impl m.dev m.hpet_mmio_base_va (suc fuel) base (some msg) request_size
                bios_fixed_host_addr bios_sec_addr)
              (λ status.
                if status == 0
                then receive
                else pure (record {
                  status = status;
                  message = some msg;
                  length = some data_buffer_size;
                }))
              u 0 (acknowledged offset size)
              (heci_send_impl-NoneTaken m.dev m.hpet_mmio_base_va fuel base engine.ready msg
                request_size bios_fixed_host_addr bios_sec_addr u engine.separate.writes
                (omega arith) (omega arith) (omega (arith, length-request offset size))
                (engine.deep u))
              λ v q.
                heci_receive_impl-At m.dev m.hpet_mmio_base_va fuel base engine.has_data
                  engine.separate _ words (respond offset size) (engine.short offset size) refl
                  (engine.answers offset size (window base u) o s) data_buffer_size msg v
                  (omega (arith, engine.short offset size, length-request offset size))
                  (omega (arith, engine.short offset size)) (record { written = q.0; read = q.1 }))

  -- The exchange of a request with 16-bit fields ends with the status 0 and the body that the
  -- engine answers, over the request.
  pub heci_exchange-IsEngine :
      (offset size : ℕ) (t : Trace)
      → offset < 2 ^ 16
      → size < 2 ^ 16
      → EndsIn
          (λ _. Unit {0})
          (pos 0, over_request offset size)
          (heci_exchange m (suc fuel) (request offset size) t)
  unfolding heci_exchange
  heci_exchange-IsEngine offset size t o s =
      EndsIn-bind (λ _. Unit {0}) (λ _. Unit {0})
        (heci_send_w_ack m (suc fuel) (some (request offset size)) request_size
          (some data_buffer_size) bios_fixed_host_addr bios_sec_addr)
        _ t (acknowledged offset size) (pos 0, over_request offset size)
        (heci_send_w_ack-Ends offset size t o s)
        (λ u _. (u, ap (λ l. done (pos 0, l) u) (stored-request offset size), tt))
