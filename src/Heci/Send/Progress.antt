-- ===== src/Heci/Send/Progress.antt =====
-- A device that is ready receives every message that fits one packet.
use trusty_platform_sand.Base.{
  ℕ, zero, suc, ◌+◌, ◌-◌, ◌/◌, ◌%◌, ◌^◌, ◌≤◌, ◌<◌, ◌≡◌, refl, ◌∙◌, ◌⊎◌, pos, inl, inr, Option-cases,
  some, none, List, ◌∷◌, ◌++◌, arith, ltb, ◌==◌, if◌then◌else◌, length, get_elem?,
  get_elem?-ne-none,
}
use trusty_platform_sand.Base.Io.{Trace, Device, rd, done, pure, Io}
use trusty_platform_sand.Base.Io.Spec.{Ends, EndsIn, EndsIn-bind, EndsIn-if, Spec-done}
use trusty_platform_sand.Base.Io.Writes.{u32}
use trusty_platform_sand.Heci.Taken.{
  taken, taken-rd_ne, taken-wr_self, taken-wr_ne, csr_ne_write, csr_ne_read,
}
use trusty_platform_sand.Heci.Regs.{HostCtrl, h_csr, address, sec_csr_ha, bits, heci_event_timeout}
use trusty_platform_sand.Heci.Wait.Ready.{wait_event-Ends}
use trusty_platform_sand.Heci.Wait.{wait_event, is_dev_ready}
use trusty_platform_sand.Heci.Send.{
  send_words, send_packet, update_h_csr, raise_interrupt, wait_raised, send_loop, heci_send_impl,
  max_buffer,
}
use trusty_platform_sand.Heci.Send.Packets.{window}
use trusty_platform_sand.Heci.Send.Message.{Apart, one_packet, depth, heci_send_impl-Whole}

-- The device shows SEC_RDY at every read of its status.
abbrev pub IsReady : Device → ℕ → Type 0
IsReady dev base = (t : Trace) → bits (u32 (dev t 32 (address base sec_csr_ha))) 3 1 ≡ 1

module _ (dev : Device) (hpet fuel base : ℕ) (ready : IsReady dev base) where
  is_dev_ready-IsReady : (t : Trace) → Ends (pos 1) (is_dev_ready dev base t)
  unfolding is_dev_ready
  is_dev_ready-IsReady t = (
    rd 32 (address base sec_csr_ha) (u32 (dev t 32 (address base sec_csr_ha))) ∷ t,
    ground (arith, ready t),
  )

  wait_event-IsReady :
      (t : Trace)
      → Ends
          (pos 1)
          (wait_event dev hpet (suc fuel) heci_event_timeout (some (is_dev_ready dev base)) t)
  wait_event-IsReady =
      wait_event-Ends dev hpet fuel heci_event_timeout (is_dev_ready dev base) is_dev_ready-IsReady

-- The device has the words of a message, and has given none of its own since.
abbrev pub NoneTaken : ℕ → Trace → Type 0
NoneTaken base t = taken base t ≡ 0

-- A change of the control register gives and takes no words.
pub update_h_csr-keeps :
    (dev : Device) (hpet fuel base : ℕ) (f : HostCtrl → HostCtrl) (t : Trace) (n : ℕ)
    → taken base t ≡ n
    → EndsIn (λ u. taken base u ≡ n) tt (update_h_csr dev hpet fuel base f t)
update_h_csr-keeps dev hpet fuel base f t n e = (
  _,
  refl,
  taken-wr_ne base 32 (address base h_csr) _ _ (csr_ne_write base)
      ∙ taken-rd_ne base 32 (address base h_csr) _ t (csr_ne_read base)
      ∙ e,
)

send_words-Ends :
    (base n i : ℕ) (msg : List ℕ) (t : Trace)
    → i + n ≤ length msg
    → NoneTaken base t
    → EndsIn (NoneTaken base) tt (send_words base n i msg t)
unfolding send_words
send_words-Ends base zero i msg t fits e = (t, refl, e)
send_words-Ends base (suc n) i msg t fits e =
    next (Option-cases (get_elem? msg i)) (λ u. send_words-Ends base n (i + 1) msg u (omega arith))
  where
    next :
        (get_elem? msg i ≡ none) ⊎ ((d : ℕ) × (get_elem? msg i ≡ some d))
        → ((u : Trace)
            → NoneTaken base u
            → EndsIn (NoneTaken base) tt (send_words base n (i + 1) msg u))
        → EndsIn (NoneTaken base) tt (send_words base (suc n) i msg t)
    next (inl p) ih = absurd (get_elem?-ne-none msg i (omega arith) p)
    next (inr (d, p)) ih = rw (p, send_words) (ih _ (taken-wr_self base 32 _ t))

module _ (dev : Device) (hpet fuel base : ℕ) (ready : IsReady dev base) where
  module _ (msg : List ℕ) (length_ host_address dev_addr : ℕ) where
    send_packet-Ends :
        (size left written : ℕ) (t : Trace)
        → written + size ≤ length msg
        → EndsIn (NoneTaken base) tt (
            send_packet dev hpet
              (suc fuel)
              base
              msg
              length_
              host_address
              dev_addr
              size
              left
              written
              t)
    unfolding send_packet
    send_packet-Ends size left written t fits =
        EndsIn-bind (NoneTaken base) (NoneTaken base) (send_words base size written msg)
          (λ _. update_h_csr dev hpet (suc fuel) base (raise_interrupt dev hpet (suc fuel) base)) _
          tt tt (send_words-Ends base size written msg _ fits (taken-wr_self base 32 _ _))
          λ u e.
            update_h_csr-keeps dev hpet (suc fuel) base (raise_interrupt dev hpet (suc fuel) base) u
              0 e

    wait_ends :
        (t : Trace)
        → EndsIn
            (λ _. Unit {0})
            (pos 1)
            (wait_event dev hpet (suc fuel) heci_event_timeout (some (is_dev_ready dev base)) t)
    wait_ends t = let (u, e) = wait_event-IsReady dev hpet fuel base ready t in (u, e, tt)

    abbrev loop : ℕ → ℕ → ℕ → ℕ → Io ℕ
    loop = send_loop dev hpet (suc fuel) base msg length_ host_address dev_addr

    send_loop-zero :
        (buffer rounds left written : ℕ) (t : Trace)
        → 0 < rounds
        → left ≡ 0
        → NoneTaken base t
        → EndsIn (NoneTaken base) 0 (loop buffer rounds left written t)
    unfolding send_loop
    send_loop-zero buffer zero left written t p e q = absurd (omega arith)
    send_loop-zero buffer (suc rounds) left written t p e q = rw e (t, refl, q)

    send_loop-Ends :
        (buffer rounds left : ℕ) (t : Trace)
        → 0 < rounds
        → 0 < left
        → left ≤ buffer
        → left ≤ length msg
        → EndsIn (NoneTaken base) 0 (loop buffer (suc rounds) left 0 t)
    unfolding send_loop
    send_loop-Ends buffer rounds left t more p one fits =
        let size : ℕ = if ltb buffer left then buffer else left in
        EndsIn-if (NoneTaken base) (left == 0) (pure 0) _ t 0 (ground arith) (
          EndsIn-bind (λ _. Unit {0}) (NoneTaken base)
            (wait_event dev hpet (suc fuel) heci_event_timeout (some (is_dev_ready dev base))) _ t
            (pos 1) 0 (wait_ends t)
            λ u _.
              EndsIn-bind (NoneTaken base) (NoneTaken base)
                (send_packet dev hpet (suc fuel) base msg length_ host_address dev_addr size
                  (left - size) 0)
                _ u tt 0 (send_packet-Ends size (left - size) 0 u (ground arith))
                λ v q.
                  EndsIn-if (NoneTaken base) (ltb 0 (left - size))
                    (wait_raised dev hpet (suc fuel) base
                      (loop buffer rounds (left - size) (0 + size)))
                    (loop buffer rounds (left - size) (0 + size)) v 0 (ground arith)
                    (send_loop-zero buffer rounds (left - size) (0 + size) v more (ground arith) q))

    heci_send_impl-Ends :
        (t : Trace)
        → 0 < length_
        → length_ + 3 < 2 ^ 32
        → (length_ + 3) / 4 ≤ length msg
        → (length_ + 3) / 4 ≤ max_buffer (depth dev base t)
        → EndsIn
            (NoneTaken base)
            0
            (heci_send_impl dev hpet (suc fuel) base (some msg) length_ host_address dev_addr t)
    unfolding heci_send_impl
    heci_send_impl-Ends t pos_length small fits one =
        EndsIn-if (NoneTaken base) (length_ == 0) (pure 1) _ t 0 (ground arith) (
          send_loop-Ends (max_buffer (depth dev base t)) ((length_ + 3) % 2 ^ 32 / 4)
            ((length_ + 3) % 2 ^ 32 / 4) _ (omega arith) (omega arith) (omega arith) (omega arith))

    -- The message was sent, and the device has given nothing since.
    pub heci_send_impl-NoneTaken :
        (t : Trace)
        → Apart hpet base
        → 0 < length_
        → length_ + 3 < 2 ^ 32
        → (length_ + 3) / 4 ≤ length msg
        → (length_ + 3) / 4 ≤ max_buffer (depth dev base t)
        → EndsIn
            (λ u.
              (window base u ≡ window base t ++ one_packet msg length_ host_address dev_addr)
              × NoneTaken base u)
            0
            (heci_send_impl dev hpet (suc fuel) base (some msg) length_ host_address dev_addr t)
    heci_send_impl-NoneTaken t apart pos_length small fits one =
        let (u, e, q) = heci_send_impl-Ends t pos_length small fits one in
        (
          u,
          e,
          (
            (Spec-done ⊥ _ _ 0 u
                (heci_send_impl-Whole dev hpet (suc fuel) base apart msg length_ host_address
                  dev_addr t pos_length small fits)
                e refl).1,
            q,
          ),
        )

    -- With a device that is ready, the timer's registers apart from the write window, fuel for one
    -- poll, and a message that holds the length given (not 0, and no wrap in its rounding) and
    -- fits one packet, `heci_send_impl` ends with 0, and the window has then received one complete
    -- header, with the length modulo 2 ^ 9, and the words of the message.
    pub heci_send_impl_total :
        (t : Trace)
        → Apart hpet base
        → 0 < length_
        → length_ + 3 < 2 ^ 32
        → (length_ + 3) / 4 ≤ length msg
        → (length_ + 3) / 4 ≤ max_buffer (depth dev base t)
        → (u : Trace) × (heci_send_impl dev hpet
              (suc fuel)
              base
              (some msg)
              length_
              host_address
              dev_addr
              t
            ≡ done 0 u)
          × (window base u ≡ window base t ++ one_packet msg length_ host_address dev_addr)
    heci_send_impl_total t apart pos_length small fits one =
        let (u, e, (w, q)) = heci_send_impl-NoneTaken t apart pos_length small fits one in (u, e, w)
