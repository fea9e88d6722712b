-- ===== src/Migration/Accepted.antt =====
-- When a request succeeds.
use native.Mathlib.Decide.{dec_lt, ℕ_discrete}
use trusty_platform_sand.Base.{
  ltb, Bool-cases, ◌⊎◌, inl, inr, ap, ℕ, ◌+◌, ◌%◌, ◌^◌, ◌<◌, ◌≤◌, ◌≡◌, ◌↔◌, true, false, ℤ, pos,
  negsuc, List, ◌∷◌, some, ◌==◌, bit_or, take, arith,
}
use trusty_platform_sand.Migration.{
  Ipc, HwkeyMsg, hwkey_no_error, Info, sent, waited, got, put, was_read, History, is_no_error,
  is_zero, check_response, receive, await, after_send, send_req, check_size,
  hwkey_generate_crypto_context, hwkey_exchange_crypto_context, hwkey_get_ssek,
  hwkey_generate_crypto_ctx, hwkey_exchange_crypto_ctx, hwkey_get_ssek_cmd,
}

-- A header and `size` bytes were read, and they are the success of the command.
pub record IsSuccess (ipc : Ipc) (cmd len size : ℕ) (r : ℤ × HwkeyMsg × List ℕ) : Type 0 where
  pub count : ℕ
  pub read : r.0 ≡ pos count
  pub whole : count % 2 ^ 32 ≡ len
  pub length_is : len ≡ ipc.msg_size + size
  pub response : r.1.cmd ≡ bit_or cmd ipc.resp_bit
  pub status : r.1.status ≡ hwkey_no_error

module _ (ipc : Ipc) (size : ℕ) (small : ipc.msg_size + size < 2 ^ 32) where
  check_response-IsSuccess :
      (cmd len : ℕ) (buf : List ℕ) (r : ℤ × HwkeyMsg × List ℕ) (h : History)
      → ipc.msg_size ≤ len
      → (is_no_error (check_size ipc size (check_response ipc cmd len size buf r h)).rc ≡ true)
        ↔ IsSuccess ipc cmd len size r
  unfolding check_response check_size
  check_response-IsSuccess cmd len buf (negsuc n, msg, stored) h long =
      (λ e. absurd cc, λ s. absurd (ground (arith, s.read)))
  check_response-IsSuccess cmd len buf (pos n, msg, stored) h long = ground arith

  receive-IsSuccess :
      (msg : HwkeyMsg) (buf : List ℕ) (inf : Info) (h : History)
      → (is_no_error (check_size ipc size (receive ipc msg buf size inf h)).rc ≡ true)
        ↔ IsSuccess ipc msg.cmd inf.len size (ipc.read_msg h inf.id size)
  unfolding receive check_size
  receive-IsSuccess msg buf inf h =
      let r : ℤ × HwkeyMsg × List ℕ = ipc.read_msg h inf.id size in
      let after : History = put inf.id ∷ was_read inf.id ∷ h in
      elim (dec_lt (ipc.msg_size + size) inf.len) [
        | yes long ↦ (λ e. absurd (ground arith), λ s. absurd (omega (arith, s.length_is)))
        | no fits ↦ elim (dec_lt inf.len ipc.msg_size) [
          | yes short ↦ (λ e. absurd (ground arith), λ s. absurd (omega (arith, s.length_is)))
          | no whole ↦
              let a : ltb (ipc.msg_size + size) inf.len ≡ false = ground arith in
              let b : ltb inf.len ipc.msg_size ≡ false = ground arith in
              rw (a, b) (check_response-IsSuccess msg.cmd inf.len buf r after (omega arith))
        ]
      ]

  -- The wait and the message came, and the response is the success of the command.
  pub record Came (cmd : ℕ) (h : History) : Type 0 where
    pub waits : is_zero (ipc.wait h) ≡ true
    pub message : is_zero (ipc.get_msg (waited ∷ h)).0 ≡ true
    pub success : IsSuccess ipc cmd (ipc.get_msg (waited ∷ h)).1.len size (
        ipc.read_msg
          (got (ipc.get_msg (waited ∷ h)).1.id ∷ waited ∷ h)
          (ipc.get_msg (waited ∷ h)).1.id
          size)

  await-Came :
      (msg : HwkeyMsg) (buf : List ℕ) (h : History)
      → (is_no_error (check_size ipc size (await ipc msg buf size h)).rc ≡ true) ↔ Came msg.cmd h
  unfolding await check_size
  await-Came msg buf h =
      split (Bool-cases (is_zero (ipc.wait h))) (Bool-cases (is_zero (ipc.get_msg (waited ∷ h)).0))
    where
      inf : Info
      inf = (ipc.get_msg (waited ∷ h)).1

      calls : History
      calls = got inf.id ∷ waited ∷ h

      split :
          (is_zero (ipc.wait h) ≡ true) ⊎ (is_zero (ipc.wait h) ≡ false)
          → (is_zero (ipc.get_msg (waited ∷ h)).0 ≡ true)
            ⊎ (is_zero (ipc.get_msg (waited ∷ h)).0 ≡ false)
          → (is_no_error (check_size ipc size (await ipc msg buf size h)).rc ≡ true)
            ↔ Came msg.cmd h
      split (inr a) _ = (λ e. absurd (ground (arith, a)), λ c. absurd (cc (a, c.waits)))
      split (inl a) (inr b) = (λ e. absurd (ground (arith, a, b)), λ c. absurd (cc (b, c.message)))
      split (inl a) (inl b) =
          let (to, from) = receive-IsSuccess msg buf inf calls in
          (
            λ e. record { waits = a; message = b; success = to (rw (a, b) at e) },
            λ c. rw (a, b) (from c.success),
          )

  after_send-Came :
      (rc : ℤ) (msg : HwkeyMsg) (buf : List ℕ) (h : History)
      → (is_no_error (check_size ipc size (after_send ipc rc msg size buf size h)).rc ≡ true)
        ↔ ((rc ≡ pos (ipc.msg_size + size)) × Came msg.cmd h)
  unfolding after_send check_size
  after_send-Came (negsuc n) msg buf h = (λ e. absurd cc, λ c. absurd (cc (c.0)))
  after_send-Came (pos n) msg buf h = elim (ℕ_discrete n (ipc.msg_size + size)) [
    | yes e ↦
        let all : (n == ipc.msg_size + size) ≡ true = ground arith in
        let (to, from) = await-Came msg buf h in
        (λ r. (ap pos e, to (rw all at r)), λ c. rw all (from c.1))
    | no ne ↦ (λ r. absurd (ground arith), λ c. absurd (ground (arith, c.0)))
  ]

  -- The request of a command for the size, and the calls after it was sent.
  abbrev pub request : ℕ → HwkeyMsg
  request cmd = record { cmd = cmd; status = hwkey_no_error; arg1 = size }

  -- The request is sent whole, and its response is the success of the command with as many bytes
  -- as were asked for.
  abbrev pub Accepted : ℕ → List ℕ → History → Type 0
  Accepted cmd bytes h =
      (ipc.send_msg h (request cmd) (take size bytes) ≡ pos (ipc.msg_size + size))
      × Came cmd (sent (request cmd) (take size bytes) ∷ h)

  -- With buffers given and a size that is not 0 and fits 32 bits with the header, each of the three
  -- requests returns NO_ERROR exactly if the request was sent whole, the wait and the message came
  -- with the length of the header and the size, it was read whole, and its header holds the
  -- response to that command and the status of success.
  pub hwkey_requests-Accepted :
      (src bytes : List ℕ) (h : History)
      → 0 < size
      → ((is_no_error (hwkey_generate_crypto_context ipc (some bytes) size h).rc ≡ true)
          ↔ Accepted (hwkey_generate_crypto_ctx ipc) bytes h)
        × ((is_no_error (hwkey_exchange_crypto_context ipc (some src) (some bytes) size h).rc
              ≡ true)
            ↔ Accepted (hwkey_exchange_crypto_ctx ipc) src h)
        × ((is_no_error (hwkey_get_ssek ipc (some bytes) size h).rc ≡ true)
            ↔ Accepted (hwkey_get_ssek_cmd ipc) bytes h)
  unfolding hwkey_generate_crypto_context hwkey_exchange_crypto_context hwkey_get_ssek send_req
      check_size
  hwkey_requests-Accepted src bytes h some_bytes =
      let more : (size == 0) ≡ false = ground arith in
      let calls : ℕ → List ℕ → History = λ cmd b. sent (request cmd) (take size b) ∷ h in
      let rc : ℕ → List ℕ → ℤ = λ cmd b. ipc.send_msg h (request cmd) (take size b) in
      (
        rw more (
            after_send-Came (rc (hwkey_generate_crypto_ctx ipc) bytes)
              (request (hwkey_generate_crypto_ctx ipc)) bytes
              (calls (hwkey_generate_crypto_ctx ipc) bytes)),
        rw more (
            after_send-Came (rc (hwkey_exchange_crypto_ctx ipc) src)
              (request (hwkey_exchange_crypto_ctx ipc)) bytes
              (calls (hwkey_exchange_crypto_ctx ipc) src)),
        rw more (
            after_send-Came (rc (hwkey_get_ssek_cmd ipc) bytes) (request (hwkey_get_ssek_cmd ipc))
              bytes (calls (hwkey_get_ssek_cmd ipc) bytes)),
      )
