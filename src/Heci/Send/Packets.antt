-- ===== src/Heci/Send/Packets.antt =====
-- What `heci_send_impl` writes to the device, and which messages it sends.
use mathlib.Core.List.{append_assoc, append-nil}
use trusty_platform_sand.Base.{
  ℕ, zero, suc, ◌+◌, ◌≤◌, ◌<◌, ◌≡◌, ◌≢◌, ap, sym, ◌∙◌, inl, inr, ◌⊎◌, some, none, List, [], ◌∷◌,
  ◌++◌, map, arith, length, get_elem?, slice, drop-get_elem?, get_elem?-ne-none, Option-cases,
}
use trusty_platform_sand.Base.Io.{Trace, Device, rd, wr}
use trusty_platform_sand.Base.Io.Spec.{IsSafe, Spec-bind, Spec-weaken}
use trusty_platform_sand.Base.Io.Writes.{
  u32, writes_to, writes_to-wr_self, writes_to-wr_ne, writes_to-rd,
}
use trusty_platform_sand.Heci.Regs.{address, h_cb_ww, h_csr, msg_hdr_word}
use trusty_platform_sand.Heci.Send.{
  send_words, packet_header, send_packet, update_h_csr, raise_interrupt,
}

-- The words written to the write window of the buffer.
abbrev pub window : ℕ → Trace → List ℕ
window base t = writes_to (address base h_cb_ww) t

-- What a run that writes `ws` into the window has done.
abbrev pub Sent : ℕ → Trace → List ℕ → Trace → Type 0
Sent base t ws u = window base u ≡ window base t ++ ws

Sent-cons :
    (base v : ℕ) (ws : List ℕ) (t u : Trace)
    → Sent base (wr 32 (address base h_cb_ww) v ∷ t) ws u
    → Sent base t (v ∷ ws) u
Sent-cons base v ws t u e = e ∙ rw writes_to-wr_self (append_assoc (window base t) (v ∷ []) ws)

module _ (base : ℕ) (msg : List ℕ) where
  abbrev SendsWords : ℕ → ℕ → Type 0
  SendsWords n i =
      (t : Trace)
      → IsSafe (λ _ u. Sent base t (map u32 (slice i n msg)) u) (send_words base n i msg t)

  send_words-suc : (n i : ℕ) → i < length msg → SendsWords n (i + 1) → SendsWords (suc n) i
  send_words-suc n i fits ih t = next (Option-cases (get_elem? msg i))
    where
      next :
          (get_elem? msg i ≡ none) ⊎ ((d : ℕ) × (get_elem? msg i ≡ some d))
          → IsSafe
              (λ _ u. Sent base t (map u32 (slice i (suc n) msg)) u)
              (send_words base (suc n) i msg t)
      next (inl p) = absurd (get_elem?-ne-none msg i fits p)
      next (inr (d, p)) =
          unfold send_words in
          rw (p, send_words, drop-get_elem? msg i d p)
            (Spec-weaken ⊥ _ _ _ (ih (wr 32 (address base h_cb_ww) (u32 d) ∷ t))
              (λ _ u e. Sent-cons base (u32 d) (map u32 (slice (i + 1) n msg)) t u e))

  -- Inside the message, the loop writes its words and accesses nothing else.
  send_words-Sent : (n i : ℕ) → i + n ≤ length msg → SendsWords n i
  send_words-Sent zero i fits t = unfold send_words in sym (append-nil (window base t))
  send_words-Sent (suc n) i fits t =
      send_words-suc n i (omega arith) (send_words-Sent n (i + 1) (omega arith)) t

-- A write to H_CSR does not reach the window.
csr_ne_window : (base : ℕ) → address base h_csr ≢ address base h_cb_ww
csr_ne_window base = omega arith

pub Sent-csr :
    (base a v x : ℕ) (ws : List ℕ) (t u : Trace)
    → Sent base (wr 32 (address base h_csr) v ∷ rd 32 a x ∷ t) ws u
    → Sent base t ws u
Sent-csr base a v x ws t u e =
    e
    ∙ ap (λ l. l ++ ws) (writes_to-wr_ne _ 32 _ v _ (csr_ne_window base) ∙ writes_to-rd _ 32 a x t)

csr-Sent :
    (base a v x : ℕ) (ws : List ℕ) (t u : Trace)
    → Sent base t ws u
    → Sent base t ws (wr 32 (address base h_csr) v ∷ rd 32 a x ∷ u)
csr-Sent base a v x ws t u e =
    writes_to-wr_ne _ 32 _ v _ (csr_ne_window base) ∙ writes_to-rd _ 32 a x u ∙ e

module _ (dev : Device) (hpet fuel base : ℕ) where
  module _ (msg : List ℕ) (length_ host_address dev_addr size left written : ℕ) where
    -- The words that a packet puts into the window.
    abbrev pub packet_words : List ℕ
    packet_words =
        u32 (msg_hdr_word (packet_header length_ host_address dev_addr size left written))
        ∷ map u32 (slice written size msg)

    -- A packet is its header and its words.
    pub send_packet-Sent :
        (t : Trace)
        → written + size ≤ length msg
        → IsSafe
            (λ _ u. Sent base t packet_words u)
            (send_packet dev hpet fuel base msg length_ host_address dev_addr size left written t)
    unfolding send_packet
    send_packet-Sent t fits =
        Spec-bind ⊥ (λ _ u. Sent base t packet_words u) (λ _ u. Sent base t packet_words u)
          (send_words base size written msg)
          (λ _. update_h_csr dev hpet fuel base (raise_interrupt dev hpet fuel base)) _
          (Spec-weaken ⊥ _ _ _ (send_words-Sent base msg size written fits _)
            (λ _ u e. Sent-csr base _ _ _ packet_words t u (Sent-cons base _ _ _ u e)))
          (λ _ u e. csr-Sent base _ _ _ packet_words t u e)
