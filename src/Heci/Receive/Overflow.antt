-- ===== src/Heci/Receive/Overflow.antt =====
-- A packet that is longer than the buffer.
use native.Mathlib.Decide.{dec_lt}
use trusty_platform_sand.Base.{
  ◌∙◌, zero, suc, ◌+◌, ◌*◌, ◌≤◌, ◌<◌, ◌≡◌, ◌≢◌, refl, ℕ, pos, Bool, Option, some, List, ◌∷◌, arith,
  length, set, length-set,
}
use trusty_platform_sand.Base.Io.{rd, fault, done, Trace, Device, Io}
use trusty_platform_sand.Base.Io.Spec.{Ends, fault-bind, bind-done, bind-fault}
use trusty_platform_sand.Base.Io.Writes.{u32}
use trusty_platform_sand.Heci.Regs.{address, sec_cb_rw, sec_csr_ha, bits, heci_event_timeout}
use trusty_platform_sand.Heci.Wait.{wait_event, is_dev_data_ready}
use trusty_platform_sand.Heci.Wait.Ready.{wait_event-Ends}
use trusty_platform_sand.Heci.Receive.{read_size, store_word, receive_words}

-- At every read of its status the device shows words to read.
abbrev pub HasData : Device → ℕ → Type 0
HasData dev base =
    (t : Trace)
    → bits (u32 (dev t 32 (address base sec_csr_ha))) 8 8
      ≢ bits (u32 (dev t 32 (address base sec_csr_ha))) 16 8

-- The store at an index up to the end of a buffer with exactly the words of the size.
store_word_inside :
    (size index value : ℕ) (msg : List ℕ) (t : Trace)
    → size ≡ length msg * 4
    → index < length msg
    → store_word size index value (some msg) t ≡ done (some (set msg index value)) t
unfolding store_word
store_word_inside size index value msg t e i = ground arith

store_word_at_end :
    (size index value : ℕ) (msg : List ℕ) (t : Trace)
    → size ≡ length msg * 4
    → index ≡ length msg
    → store_word size index value (some msg) t ≡ fault
unfolding store_word
store_word_at_end size index value msg t e i = ground arith

module _ (dev : Device) (hpet fuel base : ℕ) (ready : HasData dev base) where
  is_dev_data_ready-HasData : (t : Trace) → Ends (pos 1) (is_dev_data_ready dev base t)
  unfolding is_dev_data_ready
  is_dev_data_ready-HasData t = (
    rd 32 (address base sec_csr_ha) (u32 (dev t 32 (address base sec_csr_ha))) ∷ t,
    ground (arith, ready t),
  )

  receive_words_past_end :
      (left index size : ℕ) (msg : List ℕ) (t : Trace)
      → size ≡ length msg * 4
      → index ≤ length msg
      → length msg < index + left
      → receive_words dev hpet (suc fuel) base size left index (some msg) t ≡ fault
  unfolding receive_words
  receive_words_past_end zero index size msg t e i o = absurd (omega arith)
  receive_words_past_end (suc left) index size msg t e i o =
      fault-bind
        (wait_event dev hpet (suc fuel) heci_event_timeout (some (is_dev_data_ready dev base))) _ t
        (pos 1)
        (wait_event-Ends dev hpet fuel heci_event_timeout (is_dev_data_ready dev base)
          is_dev_data_ready-HasData t)
        λ u.
          let at : ℕ = index + read_size in
          let value : ℕ = u32 (dev u 32 (address base sec_cb_rw)) in
          let v : Trace = rd 32 (address base sec_cb_rw) value ∷ u in
          let next : Option (List ℕ) → Io (Bool × Option (List ℕ)) =
            receive_words dev hpet (suc fuel) base size left (index + 1) in
          elim (dec_lt index (length msg)) [
            | yes below ↦
                bind-done (store_word size at value (some msg)) next v v (some (set msg at value))
                  (store_word_inside size at value msg v e (omega arith))
                ∙ receive_words_past_end left (index + 1) size (set msg at value) v
                    (omega (arith, length-set msg at value))
                    (omega (arith, length-set msg at value))
                    (omega (arith, length-set msg at value))
            | no end ↦
                bind-fault (store_word size at value (some msg)) next v
                  (store_word_at_end size at value msg v e (omega arith))
          ]

  -- For a buffer that has exactly the words of the length given, from a device that always
  -- has data, a packet of more words is stored past the end of the buffer.
  pub receive_words_overflow :
      (left : ℕ) (msg : List ℕ) (t : Trace)
      → length msg < left
      → receive_words dev hpet (suc fuel) base (length msg * 4) left 0 (some msg) t ≡ fault
  receive_words_overflow left msg t o =
      receive_words_past_end left 0 (length msg * 4) msg t refl (omega arith) (omega arith)
