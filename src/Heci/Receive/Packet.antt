-- ===== src/Heci/Receive/Packet.antt =====
-- What is received from a device that answers a message with one packet.
use trusty_platform_sand.Base.{
  drop-cons, ℕ, suc, ◌+◌, ◌*◌, ◌/◌, ◌≤◌, ◌<◌, ◌≡◌, ◌≢◌, refl, ap, ◌∙◌, ℤ, pos, is_negative, Bool,
  true, false, Option, some, List, [], ◌∷◌, arith, ltb, if◌then◌else◌, length, set, length-set,
  get_or, drop,
}
use trusty_platform_sand.Base.Io.{Trace, Device, Io, rd, wr, done, pure, ◌>>=◌}
use trusty_platform_sand.Base.Io.Spec.{EndsIn, EndsIn-bind}
use trusty_platform_sand.Base.Io.Writes.{u32, writes_to-rd, writes_to-wr_ne}
use trusty_platform_sand.Heci.Regs.{
  address, h_cb_ww, h_csr, sec_cb_rw, sec_csr_ha, heci_event_timeout, HostCtrl, MsgHdr, msg_hdr,
  msg_hdr_word, msg_hdr-msg_hdr_word,
}
use trusty_platform_sand.Heci.Taken.{
  taken, taken-rd_self, taken-rd_ne, taken-wr_ne, csr_ne_write, csr_ne_read,
}
use trusty_platform_sand.Heci.Wait.{
  wait_event, wait_loop, init_timer, is_dev_data_ready, heci_reg_read,
}
use trusty_platform_sand.Heci.Send.{update_h_csr, mask_interrupt, raise_interrupt}
use trusty_platform_sand.Heci.Send.Packets.{window}
use trusty_platform_sand.Heci.Send.Message.{Apart}
use trusty_platform_sand.Heci.Receive.{
  Received, store_word, read_size, packet_length, receive_words, finish_packet, receive_loop,
  heci_receive_impl,
}
use trusty_platform_sand.Base.Stored.{stored}
use trusty_platform_sand.Heci.Receive.Overflow.{HasData}

-- The timer's registers are apart from both ends of the buffer.
pub record Separate (hpet base : ℕ) : Type 0 where
  pub writes : Apart hpet base
  pub config : address hpet 0x10 ≢ address base sec_cb_rw
  pub counter : address hpet 0xf0 ≢ address base sec_cb_rw

-- The words `ws` were written to the device, and `k` words were read since.
pub record At (base : ℕ) (ws : List ℕ) (k : ℕ) (t : Trace) : Type 0 where
  pub written : window base t ≡ ws
  pub read : taken base t ≡ k

At-rd :
    (base : ℕ) (ws : List ℕ) (k w x v : ℕ) (t : Trace)
    → x ≢ address base sec_cb_rw
    → At base ws k t
    → At base ws k (rd w x v ∷ t)
At-rd base ws k w x v t ne a = record {
  written = writes_to-rd _ w x v t ∙ a.written;
  read = taken-rd_ne base w x v t ne ∙ a.read;
}

At-wr :
    (base : ℕ) (ws : List ℕ) (k w x v : ℕ) (t : Trace)
    → x ≢ address base h_cb_ww
    → At base ws k t
    → At base ws k (wr w x v ∷ t)
At-wr base ws k w x v t ne a = record {
  written = writes_to-wr_ne _ w x v t ne ∙ a.written;
  read = taken-wr_ne base w x v t ne ∙ a.read;
}

-- After the words `ws` were written, the reads of the window give the words in their order.
abbrev pub Gives : Device → ℕ → List ℕ → List ℕ → Type 0
Gives dev base ws words =
    (t : Trace)
    → window base t ≡ ws
    → taken base t < length words
    → u32 (dev t 32 (address base sec_cb_rw)) ≡ get_or words (taken base t) 0

-- A complete header for a body of whole words
abbrev pub answer_header : List ℕ → MsgHdr
answer_header body = record {
  sec_address = 7;
  host_address = 0;
  length = 4 * length body;
  reserved = 0;
  message_complete = 1;
}

module _ (dev : Device) (hpet fuel base : ℕ) (ready : HasData dev base) (apart : Separate hpet base)
    (ws words : List ℕ) where
  update_h_csr-At :
      (f : HostCtrl → HostCtrl) (k : ℕ) (t : Trace)
      → At base ws k t
      → EndsIn (At base ws k) tt (update_h_csr dev hpet (suc fuel) base f t)
  update_h_csr-At f k t a = (
    _,
    refl,
    At-wr base ws k 32 (address base h_csr) _ _ (csr_ne_write base)
        (At-rd base ws k 32 (address base h_csr) _ t (csr_ne_read base) a),
  )

  poll-At :
      (k : ℕ) (t : Trace)
      → At base ws k t
      → EndsIn (At base ws k) (pos 1) (is_dev_data_ready dev base t)
  unfolding is_dev_data_ready
  poll-At k t a = (
    rd 32 (address base sec_csr_ha) (u32 (dev t 32 (address base sec_csr_ha))) ∷ t,
    ground (arith, ready t),
    At-rd base ws k 32 (address base sec_csr_ha) _ t (omega arith) a,
  )

  wait-At :
      (k : ℕ) (t : Trace)
      → At base ws k t
      → EndsIn
          (At base ws k)
          (pos 1)
          (wait_event dev hpet (suc fuel) heci_event_timeout (some (is_dev_data_ready dev base)) t)
  unfolding wait_event init_timer wait_loop
  wait-At k t a =
      EndsIn-bind (At base ws k) (At base ws k) (is_dev_data_ready dev base) _ _ (pos 1) (pos 1)
        (poll-At k _ (
          At-rd base ws k 32 _ _ _ apart.counter (
            At-wr base ws k 32 _ _ _ apart.writes.1 (
              At-rd base ws k 32 _ _ _ apart.config (
                At-wr base ws k 32 _ _ _ apart.writes.1
                  (At-wr base ws k 32 _ _ t apart.writes.0 a))))))
        (λ u b. (u, refl, b))

  module _ (gives : Gives dev base ws words) where
    word-At :
        (k : ℕ) (t : Trace)
        → k < length words
        → At base ws k t
        → EndsIn (At base ws (suc k)) (get_or words k 0) (heci_reg_read dev base sec_cb_rw t)
    word-At k t small a =
        let v : ℕ = u32 (dev t 32 (address base sec_cb_rw)) in
        let u : Trace = rd 32 (address base sec_cb_rw) v ∷ t in
        let value : v ≡ get_or words k 0 =
          gives t a.written (omega (arith, a.read)) ∙ ap (λ i. get_or words i 0) a.read in
        (
          u,
          ap (λ x. done x u) value,
          record {
            written = writes_to-rd _ 32 _ v t ∙ a.written;
            read = taken-rd_self base 32 v t ∙ ap suc a.read;
          },
        )

    store_word_fits :
        (size index value : ℕ) (msg : List ℕ) (t : Trace)
        → index < length msg
        → index * 4 ≤ size
        → store_word size (index + read_size) value (some msg) t
          ≡ done (some (set msg index value)) t
    unfolding store_word
    store_word_fits size index value msg t fits guard =
        let at : index + read_size ≡ index = omega arith in rw at (ground arith)

    -- The words of the packet from an index on are stored in the buffer.
    receive_words-At :
        (size : ℕ) (rest : List ℕ) (index : ℕ) (msg : List ℕ) (t : Trace)
        → drop (suc index) words ≡ rest
        → index + length rest ≤ length msg
        → (index + length rest) * 4 ≤ size
        → At base ws (suc index) t
        → EndsIn
            (At base ws (suc (index + length rest)))
            (true, some (stored rest index msg))
            (receive_words dev hpet (suc fuel) base size (length rest) index (some msg) t)
    unfolding receive_words stored
    receive_words-At size [] index msg t e fits guard a =
        let same : index + 0 ≡ index = omega arith in (t, refl, rw same a)
    receive_words-At size (w ∷ rest) index msg t e fits guard a =
        let (inside, word, later) = drop-cons words (suc index) w 0 rest e in
        let more : suc index ≡ index + 1 = omega arith in
        let total : index + suc (length rest) ≡ index + 1 + length rest = omega arith in
        let P : Trace → Type 0 = At base ws (suc (index + suc (length rest))) in
        let r : Bool × Option (List ℕ) = (true, some (stored rest (index + 1) (set msg index w))) in
        let next : Option (List ℕ) → Io (Bool × Option (List ℕ)) =
          receive_words dev hpet (suc fuel) base size (length rest) (index + 1) in
        let tail : (x : Trace)
            → At base ws (suc (suc index)) x
            → EndsIn P r (next (some (set msg index w)) x) =
          λ x d. rw total (
            receive_words-At size rest (index + 1) (set msg index w) x (rw more at later)
              (omega (arith, length-set msg index w)) (omega arith) (rw more at d)) in
        EndsIn-bind (At base ws (suc index)) P
          (wait_event dev hpet (suc fuel) heci_event_timeout (some (is_dev_data_ready dev base))) _
          t (pos 1) r (wait-At (suc index) t a)
          λ u b.
            EndsIn-bind (At base ws (suc (suc index))) P (heci_reg_read dev base sec_cb_rw)
              (λ value. store_word size (index + read_size) value (some msg) >>= next) u
              (get_or words (suc index) 0) r (word-At (suc index) u inside b)
              λ v c.
                EndsIn-bind (At base ws (suc (suc index))) P
                  (store_word size (index + read_size) (get_or words (suc index) 0) (some msg)) next
                  v (some (set msg index w)) r
                  (v, rw word (store_word_fits size index w msg v (omega arith) (omega arith)), c)
                  tail

  module _ (body : List ℕ) (fits_header : length body < 128)
      (packet : words ≡ msg_hdr_word (answer_header body) ∷ body)
      (gives : Gives dev base ws words) where
    -- The part of a round after the header
    abbrev after_header : ℕ → List ℕ → MsgHdr → Io Received
    after_header len msg head = do
      got ← receive_words dev hpet (suc fuel) base len ((head.length + 3) / 4) 0 (some msg)
      let len' = packet_length ((head.length + 3) / 4) head.length (some len)
      if got.0
          then finish_packet dev hpet (suc fuel) base head.message_complete got.1 len'
              (receive_loop dev hpet (suc fuel) base len fuel got.1 len')
          else pure (record { status = 1; message = got.1; length = some len })

    answered : List ℕ → Received
    answered msg = record {
      status = 0;
      message = some (stored body 0 msg);
      length = some (length body * 4);
    }

    packet_length-body :
        (len : ℕ)
        → packet_length (length body) (4 * length body) (some len) ≡ some (length body * 4)
    unfolding packet_length
    packet_length-body len =
        let same : ltb (4 * length body) (length body * 4) ≡ false = ground arith in rw same refl

    after_header-At :
        (len : ℕ) (msg : List ℕ) (t : Trace)
        → length body ≤ length msg
        → length body * 4 ≤ len
        → At base ws 1 t
        → EndsIn (λ _. Unit {0}) (answered msg) (after_header len msg (answer_header body) t)
    unfolding answered finish_packet
    after_header-At len msg t fits guard a =
        let count : (4 * length body + 3) / 4 ≡ length body = omega arith in
        let start : drop 1 words ≡ body = rw packet refl in
        rw (count, packet_length-body len)
          (EndsIn-bind (At base ws (suc (0 + length body))) (λ _. Unit {0})
            (receive_words dev hpet (suc fuel) base len (length body) 0 (some msg)) _ t
            (true, some (stored body 0 msg)) (answered msg)
            (receive_words-At gives len body 0 msg t start (omega arith) (omega arith) a)
            λ u b.
              EndsIn-bind (At base ws (suc (0 + length body))) (λ _. Unit {0})
                (update_h_csr dev hpet (suc fuel) base (raise_interrupt dev hpet (suc fuel) base))
                (λ _. pure (answered msg)) u tt (answered msg)
                (update_h_csr-At (raise_interrupt dev hpet (suc fuel) base) (suc (0 + length body))
                  u b)
                (λ v _. (v, refl, tt)))

    -- The receiver stores the body and answers its length in bytes.
    pub heci_receive_impl-At :
        (len : ℕ) (msg : List ℕ) (t : Trace)
        → length body ≤ length msg
        → length body * 4 ≤ len
        → At base ws 0 t
        → EndsIn
            (λ _. Unit {0})
            (record {
              status = 0;
              message = some (stored body 0 msg);
              length = some (length body * 4);
            })
            (heci_receive_impl dev hpet (suc fuel) base (some msg) (some len) t)
    unfolding heci_receive_impl receive_loop answered
    heci_receive_impl-At len msg t fits guard a =
        let head : get_or words 0 0 ≡ msg_hdr_word (answer_header body) = rw packet refl in
        let fields : msg_hdr (get_or words 0 0) ≡ answer_header body =
          ap msg_hdr head ∙ msg_hdr-msg_hdr_word (answer_header body) (omega arith) in
        let wait : Io ℤ =
          wait_event dev hpet (suc fuel) heci_event_timeout (some (is_dev_data_ready dev base)) in
        let on_ready : ℤ → Io Received = λ r.
          if is_negative r
          then pure (record { status = 1; message = some msg; length = some len })
          else (heci_reg_read dev base sec_cb_rw >>= λ w. after_header len msg (msg_hdr w)) in
        EndsIn-bind (At base ws 0) (λ _. Unit {0})
          (update_h_csr dev hpet (suc fuel) base (mask_interrupt dev hpet (suc fuel) base))
          (λ _. wait >>= on_ready) t tt (answered msg)
          (update_h_csr-At (mask_interrupt dev hpet (suc fuel) base) 0 t a)
          λ u b.
            EndsIn-bind (At base ws 0) (λ _. Unit {0}) wait on_ready u (pos 1) (answered msg)
              (wait-At 0 u b)
              λ v c.
                EndsIn-bind (At base ws 1) (λ _. Unit {0}) (heci_reg_read dev base sec_cb_rw)
                  (λ w. after_header len msg (msg_hdr w)) v (get_or words 0 0) (answered msg)
                  (word-At gives 0 v (rw packet (omega arith)) c)
                  λ x d. rw fields (after_header-At len msg x fits guard d)
