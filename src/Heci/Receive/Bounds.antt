-- ===== src/Heci/Receive/Bounds.antt =====
-- Which memory the receiver writes.
use trusty_platform_sand.Base.{
  ℕ, zero, suc, ◌+◌, ◌*◌, ◌/◌, ◌<◌, ◌≡◌, refl, is_negative, false, Option, some, none, List, arith,
  ltb, leb, ◌==◌, ◌||◌, length, set, length-set, if◌then◌else◌,
}
use trusty_platform_sand.Base.Io.{Trace, Device, Io, pure}
use trusty_platform_sand.Base.Io.Spec.{IsSafe, Spec-bind, Spec-if, Spec-weaken}
use trusty_platform_sand.Heci.Regs.{heci_event_timeout}
use trusty_platform_sand.Heci.Wait.{wait_event, is_dev_data_ready}
use trusty_platform_sand.Heci.Wait.Verdict.{
  wait_event-IsVerdict, is_dev_data_ready-keeps, IsVerdict,
}
use trusty_platform_sand.Heci.Receive.{
  finish_packet, store_word, receive_words, receive_loop, heci_receive_impl, Received,
}

-- A message of the given number of words.
abbrev pub HasLength : ℕ → Option (List ℕ) → Type 0
HasLength n none = ⊥
HasLength n (some msg) = length msg ≡ n

store_word-HasLength :
    (n size index value : ℕ) (msg : Option (List ℕ)) (t : Trace)
    → 0 < size
    → size / 4 < n
    → HasLength n msg
    → IsSafe (λ r _. HasLength n r) (store_word size index value msg t)
unfolding store_word
store_word-HasLength n size index value none t p fits h = elim h [ ]
store_word-HasLength n size index value (some msg) t p fits h =
    Spec-if ⊥ (λ r _. HasLength n r) (size == 0 || leb (index * 4) size)
      (if ltb index (length msg) then pure (some (set msg index value)) else _) _ t
      (λ g.
        Spec-if ⊥ (λ r _. HasLength n r) (ltb index (length msg))
          (pure (some (set msg index value))) _ t (λ _. ground (arith, length-set msg index value))
          (λ q. ground arith))
      (λ _. h)

module _ (dev : Device) (hpet fuel base : ℕ) where
  -- A wait is safe.
  wait-IsSafe :
      (t : Trace)
      → IsSafe
          (λ _ _. Unit {0})
          (wait_event dev hpet fuel heci_event_timeout (some (is_dev_data_ready dev base)) t)
  wait-IsSafe t =
      Spec-weaken ⊥ (λ r _. IsVerdict r × Unit {0}) (λ _ _. Unit {0}) _
        (wait_event-IsVerdict ⊥ (λ _. Unit {0}) (λ _ _ _ _ _. tt) dev hpet
          (some (is_dev_data_ready dev base)) fuel heci_event_timeout t (λ _ _ _. (tt, tt))
          (λ u i. is_dev_data_ready-keeps ⊥ (λ _. Unit {0}) (λ _ _ _ _ _. tt) dev base u i) tt)
        (λ _ _ _. tt)

  module _ (n size : ℕ) (p : 0 < size) (fits : size / 4 < n) where
    receive_words-HasLength :
        (left index : ℕ) (msg : Option (List ℕ)) (t : Trace)
        → HasLength n msg
        → IsSafe (λ r _. HasLength n r.1) (receive_words dev hpet fuel base size left index msg t)
    unfolding receive_words
    receive_words-HasLength zero index msg t h = h
    receive_words-HasLength (suc left) index msg t h =
        Spec-bind ⊥ (λ _ _. Unit {0}) (λ r _. HasLength n r.1)
          (wait_event dev hpet fuel heci_event_timeout (some (is_dev_data_ready dev base))) _ t
          (wait-IsSafe t)
          λ ready u _.
            Spec-if ⊥ (λ r _. HasLength n r.1) (is_negative ready) (pure (false, msg)) _ u (λ _. h)
              λ _.
                Spec-bind ⊥ (λ r _. HasLength n r) (λ r _. HasLength n r.1)
                  (store_word size _ _ msg)
                  (λ msg'. receive_words dev hpet fuel base size left (index + 1) msg') _
                  (store_word-HasLength n size _ _ msg _ p fits h)
                  (λ msg' v h'. receive_words-HasLength left (index + 1) msg' v h')

    abbrev Kept : Received → Trace → Type 0
    Kept r _ = HasLength n r.message

    finish_packet-HasLength :
        (complete : ℕ) (msg : Option (List ℕ)) (len : Option ℕ) (next : Io Received) (t : Trace)
        → HasLength n msg
        → ((u : Trace) → IsSafe Kept (next u))
        → IsSafe Kept (finish_packet dev hpet fuel base complete msg len next t)
    unfolding finish_packet
    finish_packet-HasLength complete msg len next t h k =
        Spec-if ⊥ Kept (complete == 1) (pure (record { status = 0; message = msg; length = len }))
          next _ (λ _. h) (λ _. k _)

    receive_loop-HasLength :
        (packets : ℕ) (msg : Option (List ℕ)) (len : Option ℕ) (t : Trace)
        → HasLength n msg
        → IsSafe Kept (receive_loop dev hpet fuel base size packets msg len t)
    unfolding receive_loop
    receive_loop-HasLength zero msg len t h = tt
    receive_loop-HasLength (suc packets) msg len t h =
        Spec-bind ⊥ (λ _ _. Unit {0}) Kept
          (wait_event dev hpet fuel heci_event_timeout (some (is_dev_data_ready dev base))) _ _
          (wait-IsSafe _)
          λ ready u _.
            Spec-if ⊥ Kept (is_negative ready) _ _ u (λ _. h)
              λ _.
                Spec-bind ⊥ (λ r _. HasLength n r.1) Kept
                  (receive_words dev hpet fuel base size _ 0 msg) _ _
                  (receive_words-HasLength _ 0 msg _ h)
                  λ words v h'.
                    Spec-if ⊥ Kept words.0
                      (finish_packet dev hpet fuel base _ words.1 _
                        (receive_loop dev hpet fuel base size packets words.1 _))
                      (pure (record { status = 1; message = words.1; length = len })) v
                      (λ _.
                        finish_packet-HasLength _ words.1 _ _ v h'
                          (λ u'. receive_loop-HasLength packets words.1 _ u' h'))
                      (λ _. h')

-- A receiver that is given a length which is not 0 and a buffer that holds more words than a
-- quarter of it writes nothing outside the buffer, which keeps its size, whatever the device sends.
pub heci_receive_impl-IsSafe :
    (dev : Device) (hpet fuel base size : ℕ) (msg : List ℕ) (t : Trace)
    → 0 < size
    → size / 4 < length msg
    → IsSafe
        (λ r _. HasLength (length msg) r.message)
        (heci_receive_impl dev hpet fuel base (some msg) (some size) t)
unfolding heci_receive_impl
heci_receive_impl-IsSafe dev hpet fuel base size msg t p fits =
    receive_loop-HasLength dev hpet fuel base (length msg) size p fits fuel (some msg) (some size) t
      refl
