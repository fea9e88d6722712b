-- ===== src/Heci/Send/Message.antt =====
-- Which messages `heci_send_impl` sends, and what the device then has received.
use mathlib.Core.Path.{subst, subst₂}
use native.Mathlib.Decide.{ℕ_discrete}
use trusty_platform_sand.Base.{
  ℕ, zero, suc, ◌+◌, ◌-◌, ◌/◌, ◌%◌, ◌^◌, ◌≤◌, ◌<◌, ◌≡◌, ◌≢◌, refl, ap, sym, ◌∙◌, ℤ, is_negative,
  is_nonzero, ◌⊎◌, inl, inr, some, List, ◌∷◌, ◌++◌, map, arith, ltb, take, ◌==◌, if◌then◌else◌,
  length,
}
use trusty_platform_sand.Base.Io.{Trace, Device, rd, wr, pure, Io}
use trusty_platform_sand.Base.Io.Spec.{IsSafe, Spec-bind, Spec-if, Spec-weaken}
use trusty_platform_sand.Base.Io.Writes.{u32, writes_to-wr_ne, writes_to-rd}
use trusty_platform_sand.Heci.Regs.{
  address, h_cb_ww, h_csr, host_ctrl, host_ctrl_word, heci_event_timeout, msg_hdr_word,
}
use trusty_platform_sand.Heci.Wait.{wait_event, is_dev_ready, is_interrupt_raised}
use trusty_platform_sand.Heci.Wait.Verdict.{
  IsVerdict, wait_event-IsVerdict, is_dev_ready-keeps, is_interrupt_raised-keeps,
}
use trusty_platform_sand.Heci.Send.{
  packet_header, send_packet, wait_raised, send_loop, heci_send_impl, max_buffer,
}
use trusty_platform_sand.Heci.Send.Packets.{Sent-csr, window, Sent, packet_words, send_packet-Sent}

-- The write window is none of the timer's registers.
abbrev pub Apart : ℕ → ℕ → Type 0
Apart hpet base =
    (address hpet 0x108 ≢ address base h_cb_ww) × (address hpet 0x10c ≢ address base h_cb_ww)

module _ (dev : Device) (hpet fuel base : ℕ) (apart : Apart hpet base) where
  -- A wait writes nothing into the window, and does not answer 0.
  wait-quiet :
      (t0 : Trace) (fun : Io ℤ)
      → ((I : Trace → Type 0)
          → ((w a v : ℕ) (t : Trace) → I t → I (rd w a v ∷ t))
          → (t : Trace) → I t
          → IsSafe (λ _ u. I u) (fun t))
      → (t : Trace) → window base t ≡ window base t0
      → IsSafe
          (λ r u. IsVerdict r × (window base u ≡ window base t0))
          (wait_event dev hpet fuel heci_event_timeout (some fun) t)
  wait-quiet t0 fun polls t e =
      wait_event-IsVerdict ⊥ (λ u. window base u ≡ window base t0) reads dev hpet (some fun) fuel
        heci_event_timeout t
        (λ v u p. (writes_to-wr_ne _ 32 _ v u apart.0 ∙ p, writes_to-wr_ne _ 32 _ v u apart.1 ∙ p))
        (polls _ reads) e
    where
      reads :
          (w a v : ℕ) (u : Trace)
          → window base u ≡ window base t0
          → window base (rd w a v ∷ u) ≡ window base t0
      reads w a v u p = writes_to-rd _ w a v u ∙ p

  wait_raised-fails :
      (next : Io ℕ) (t : Trace) → IsSafe (λ r u. r ≡ 1) (wait_raised dev hpet fuel base next t)
  unfolding wait_raised
  wait_raised-fails next t =
      Spec-bind ⊥ (λ r u. IsVerdict r × (window base u ≡ window base t)) (λ r u. r ≡ 1)
        (wait_event dev hpet fuel heci_event_timeout (some (is_interrupt_raised dev base)))
        (λ raised. if is_nonzero raised then pure 1 else next) t
        (wait-quiet t (is_interrupt_raised dev base)
          (λ I reads u i. is_interrupt_raised-keeps ⊥ I reads dev base u i) t refl)
        λ r u v. rw (v.0) refl

  module _ (msg : List ℕ) (length_ host_address dev_addr buffer : ℕ) where
    send_loop-nothing :
        (rounds written : ℕ) (t : Trace)
        → IsSafe
            (λ r u. u ≡ t)
            (send_loop dev hpet fuel base msg length_ host_address dev_addr buffer rounds 0 written
              t)
    unfolding send_loop
    send_loop-nothing zero written t = tt
    send_loop-nothing (suc rounds) written t = refl

    -- The loop answers 0 only for words that fit one packet, which it then has sent.
    abbrev One : ℕ → ℕ → Trace → ℕ → Trace → Type 0
    One left written t r u =
        r ≡ 0
        → (left ≤ buffer)
          × Sent base t
              (packet_words dev hpet fuel base msg length_ host_address dev_addr left 0 written) u

    abbrev loop : ℕ → ℕ → ℕ → Io ℕ
    loop = send_loop dev hpet fuel base msg length_ host_address dev_addr buffer

    abbrev packet : ℕ → ℕ → ℕ → List ℕ
    packet = packet_words dev hpet fuel base msg length_ host_address dev_addr

    after_packet :
        (rounds left written size rest : ℕ) (t u : Trace)
        → size ≡ (if ltb buffer left then buffer else left)
        → rest ≡ left - size
        → Sent base t (packet size rest written) u
        → IsSafe (One left written t) (
            (if ltb 0 rest
                then wait_raised dev hpet fuel base (loop rounds rest (written + size))
                else loop rounds rest (written + size))
              u)
    after_packet rounds left written size rest t u s r sent =
        Spec-if ⊥ (One left written t) (ltb 0 rest)
          (wait_raised dev hpet fuel base (loop rounds rest (written + size)))
          (loop rounds rest (written + size)) u
          (λ _.
            Spec-weaken ⊥ (λ r _. r ≡ 1) (One left written t)
              (wait_raised dev hpet fuel base (loop rounds rest (written + size)) u)
              (wait_raised-fails _ u) (λ _ _ e z. absurd (omega arith)))
          λ last.
            let none_left : rest ≡ 0 = ground arith in
            let whole : size ≡ left = ground arith in
            let all_sent : Sent base t (packet left 0 written) u =
              subst₂ (λ x y. Sent base t (packet x y written) u) whole none_left sent in
            subst (λ k. IsSafe (One left written t) (loop rounds k (written + size) u))
              (sym none_left)
              (Spec-weaken ⊥ (λ _ v. v ≡ u) (One left written t) (loop rounds 0 (written + size) u)
                (send_loop-nothing rounds (written + size) u)
                (λ _ v e _.
                  (ground arith, subst (Sent base t (packet left 0 written)) (sym e) all_sent)))

    send_loop-One :
        (rounds left written : ℕ) (t : Trace)
        → 0 < left
        → written + left ≤ length msg
        → IsSafe (One left written t) (loop rounds left written t)
    unfolding send_loop
    send_loop-One zero left written t pos_left fits = tt
    send_loop-One (suc rounds) left written t pos_left fits =
        let size : ℕ = if ltb buffer left then buffer else left in
        Spec-if ⊥ (One left written t) (left == 0) (pure 0) _ t (λ z. absurd (ground arith))
          λ _.
            Spec-bind ⊥ (λ r u. IsVerdict r × (window base u ≡ window base t)) (One left written t)
              (wait_event dev hpet fuel heci_event_timeout (some (is_dev_ready dev base))) _ t
              (wait-quiet t (is_dev_ready dev base)
                (λ I reads u i. is_dev_ready-keeps ⊥ I reads dev base u i) t refl)
              λ ready u v.
                Spec-if ⊥ (One left written t) (is_negative ready) (pure 1) _ u
                  (λ _ z. absurd (omega arith))
                  λ _.
                    Spec-bind ⊥ (λ _ w. Sent base t (packet size (left - size) written) w)
                      (One left written t)
                      (send_packet dev hpet fuel base msg length_ host_address dev_addr size
                        (left - size) written)
                      _ u
                      (Spec-weaken ⊥ (λ _ w. Sent base u (packet size (left - size) written) w)
                        (λ _ w. Sent base t (packet size (left - size) written) w)
                        (send_packet dev hpet fuel base msg length_ host_address dev_addr size
                          (left - size) written u)
                        (send_packet-Sent dev hpet fuel base msg length_ host_address dev_addr size
                          (left - size) written u (ground arith))
                        (λ _ w e. e ∙ ap (λ l. l ++ packet size (left - size) written) (v.1)))
                      λ _ w sent.
                        after_packet rounds left written size (left - size) t w refl refl sent

-- The words that the device receives for a message sent in one packet.
abbrev pub one_packet : List ℕ → ℕ → ℕ → ℕ → List ℕ
one_packet msg length_ host_address dev_addr =
    u32 (
      msg_hdr_word (record {
        sec_address = dev_addr;
        host_address = host_address;
        length = length_ % 2 ^ 9;
        reserved = 0;
        message_complete = 1;
      }))
    ∷ map u32 (take ((length_ + 3) / 4) msg)

-- The depth of the buffer that H_CSR shows at the first access.
abbrev pub depth : Device → ℕ → Trace → ℕ
depth dev base t = (host_ctrl (u32 (dev t 32 (address base h_csr)))).h_cbd

packet_words-one_packet :
    (dev : Device) (hpet fuel base : ℕ) (msg : List ℕ) (length_ host_address dev_addr : ℕ)
    → length_ + 3 < 2 ^ 32
    → packet_words dev hpet fuel base msg length_ host_address dev_addr ((length_ + 3) / 4) 0 0
      ≡ one_packet msg length_ host_address dev_addr
unfolding packet_header
packet_words-one_packet dev hpet fuel base msg length_ host_address dev_addr small =
    ap
      (λ (n : ℕ).
        u32 (
          msg_hdr_word (record {
            sec_address = dev_addr;
            host_address = host_address;
            length = n;
            reserved = 0;
            message_complete = 1;
          }))
        ∷ map u32 (take ((length_ + 3) / 4) msg))
      (omega arith)

module _ (dev : Device) (hpet fuel base : ℕ) (apart : Apart hpet base) where
  -- The case of the answer 0.
  pub heci_send_impl-Whole :
      (msg : List ℕ) (length_ host_address dev_addr : ℕ) (t : Trace)
      → 0 < length_
      → length_ + 3 < 2 ^ 32
      → (length_ + 3) / 4 ≤ length msg
      → IsSafe
          (λ r u.
            r ≡ 0
            → ((length_ + 3) / 4 ≤ max_buffer (depth dev base t))
              × (window base u ≡ window base t ++ one_packet msg length_ host_address dev_addr))
          (heci_send_impl dev hpet fuel base (some msg) length_ host_address dev_addr t)
  unfolding heci_send_impl
  heci_send_impl-Whole msg length_ host_address dev_addr t pos_length small fits =
      let words : ℕ = (length_ + 3) % 2 ^ 32 / 4 in
      let same : words ≡ (length_ + 3) / 4 = omega arith in
      let w : ℕ = u32 (dev t 32 (address base h_csr)) in
      let v : ℕ = u32 (host_ctrl_word (record (host_ctrl w) { h_rdy = 1 })) in
      let announced : Trace = wr 32 (address base h_csr) v ∷ rd 32 (address base h_csr) w ∷ t in
      let buffer : ℕ = max_buffer (depth dev base t) in
      Spec-if ⊥ Whole (length_ == 0) (pure 1) _ t (λ z. absurd (ground arith))
        λ _.
          Spec-weaken ⊥
            (One dev hpet fuel base apart msg length_ host_address dev_addr buffer words 0
              announced)
            Whole
            (send_loop dev hpet fuel base msg length_ host_address dev_addr buffer (suc words) words
              0 announced)
            (send_loop-One dev hpet fuel base apart msg length_ host_address dev_addr buffer
              (suc words) words 0 announced (omega arith) (omega arith))
            λ r u one z. (
              subst (λ k. k ≤ buffer) same (one z).0,
              Sent-csr base (address base h_csr) v w (one_packet msg length_ host_address dev_addr)
                  t u
                  (subst (λ l. Sent base announced l u)
                    (ap
                        (λ k.
                          packet_words dev hpet fuel base msg length_ host_address dev_addr k 0 0)
                        same
                      ∙ packet_words-one_packet dev hpet fuel base msg length_ host_address dev_addr
                          small)
                    (one z).1),
            )
    where
      Whole : ℕ → Trace → Type 0
      Whole r u =
          r ≡ 0
          → ((length_ + 3) / 4 ≤ max_buffer (depth dev base t))
            × (window base u ≡ window base t ++ one_packet msg length_ host_address dev_addr)

  -- With the timer's registers apart from the write window and a message that holds the length
  -- given (not 0, and no wrap in its rounding), `heci_send_impl` reads nothing outside the
  -- message, and answers 0 only if the whole message fits one packet and the window then has
  -- received one complete header with the length modulo 2 ^ 9 and the words of the message: a
  -- longer message is never sent with success.
  pub heci_send_impl-one_packet :
      (msg : List ℕ) (length_ host_address dev_addr : ℕ) (t : Trace)
      → 0 < length_
      → length_ + 3 < 2 ^ 32
      → (length_ + 3) / 4 ≤ length msg
      → IsSafe
          (λ r u.
            (r ≢ 0)
            ⊎ (((length_ + 3) / 4 ≤ max_buffer (depth dev base t))
                × (window base u ≡ window base t ++ one_packet msg length_ host_address dev_addr)))
          (heci_send_impl dev hpet fuel base (some msg) length_ host_address dev_addr t)
  heci_send_impl-one_packet msg length_ host_address dev_addr t pos_length small fits =
      Spec-weaken ⊥ _ _
        (heci_send_impl dev hpet fuel base (some msg) length_ host_address dev_addr t)
        (heci_send_impl-Whole msg length_ host_address dev_addr t pos_length small fits)
        λ r u whole. elim (ℕ_discrete r 0) [ yes z ↦ inr (whole z) | no failed ↦ inl failed ]
