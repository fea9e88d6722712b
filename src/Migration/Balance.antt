-- ===== src/Migration/Balance.antt =====
-- Every message that is got is given back to the kernel once.
use trusty_platform_sand.Base.{
  ℕ, ◌-◌, ◌+◌, ◌≡◌, refl, Option, some, none, List, [], ◌∷◌, ℤ, pos, negsuc, ◌==◌, if◌then◌else◌,
  arith, take, Bool, true, false,
}
use trusty_platform_sand.Migration.{
  Ipc, HwkeyMsg, Info, sent, waited, got, not_got, was_read, put, History, Reply, check_response,
  receive, await, after_send, send_req, check_size, hwkey_generate_crypto_context,
  hwkey_exchange_crypto_context, hwkey_get_ssek, hwkey_no_error, invalid_args,
}

-- How often the message `i` was got and not yet put back.
unfoldable pub held : ℕ → History → ℕ
held i [] = 0
held i (sent m b ∷ h) = held i h
held i (waited ∷ h) = held i h
held i (got id ∷ h) = (if i == id then 1 else 0) + held i h
held i (not_got ∷ h) = held i h
held i (was_read id ∷ h) = held i h
held i (put id ∷ h) = held i h - (if i == id then 1 else 0)

module _ (ipc : Ipc) (i : ℕ) where
  check_response-calls :
      (cmd len size : ℕ) (buf : List ℕ) (r : ℤ × HwkeyMsg × List ℕ) (h : History)
      → (check_response ipc cmd len size buf r h).calls ≡ h
  unfolding check_response
  check_response-calls cmd len size buf (negsuc n, msg, stored) h = refl
  check_response-calls cmd len size buf (pos n, msg, stored) h = ground arith

  receive-held :
      (msg : HwkeyMsg) (buf : List ℕ) (size : ℕ) (inf : Info) (h : History)
      → held i (receive ipc msg buf size inf (got inf.id ∷ h)).calls ≡ held i h
  unfolding receive held
  receive-held msg buf size inf h = ground (
    arith,
    check_response-calls msg.cmd inf.len size buf (ipc.read_msg (got inf.id ∷ h) inf.id size)
        (put inf.id ∷ was_read inf.id ∷ got inf.id ∷ h),
  )

  await-held :
      (msg : HwkeyMsg) (buf : List ℕ) (size : ℕ) (h : History)
      → held i (await ipc msg buf size h).calls ≡ held i h
  unfolding await held
  await-held msg buf size h =
      ground (arith, receive-held msg buf size (ipc.get_msg (waited ∷ h)).1 (waited ∷ h))

  after_send-held :
      (rc : ℤ) (msg : HwkeyMsg) (n : ℕ) (buf : List ℕ) (size : ℕ) (h : History)
      → held i (after_send ipc rc msg n buf size h).calls ≡ held i h
  unfolding after_send
  after_send-held (negsuc m) msg n buf size h = refl
  after_send-held (pos m) msg n buf size h = ground (arith, await-held msg buf size h)

  requested-held :
      (msg : HwkeyMsg) (req buf : List ℕ) (size : ℕ) (h : History)
      → held i (check_size ipc size (send_req ipc msg req size buf size h)).calls ≡ held i h
  unfolding send_req check_size held
  requested-held msg req buf size h =
      let payload : List ℕ = take size req in
      ground (
        arith,
        after_send-held (ipc.send_msg h msg payload) msg size buf size (sent msg payload ∷ h),
      )

  if-held :
      (b : Bool) (r s : Reply) (h : History)
      → held i r.calls ≡ held i h
      → held i s.calls ≡ held i h
      → held i (if b then r else s).calls ≡ held i h
  if-held true r s h p q = p
  if-held false r s h p q = q

  -- A request with the command `cmd`, unless its size is 0.
  guarded-held :
      (cmd : ℕ) (req buf : List ℕ) (size : ℕ) (h : History)
      → held i
          (if size == 0
            then invalid_args ipc buf size h
            else check_size ipc size (
                send_req ipc
                  (record { cmd = cmd; status = hwkey_no_error; arg1 = size })
                  req
                  size
                  buf
                  size
                  h)).calls
        ≡ held i h
  guarded-held cmd req buf size h =
      if-held (size == 0) _ _ h refl
        (requested-held (record { cmd = cmd; status = hwkey_no_error; arg1 = size }) req buf size h)

  -- On every path of the three requests, errors and missing arguments included, a message is put
  -- back as often as it was got.
  pub hwkey_requests-held :
      (src dst : Option (List ℕ)) (size : ℕ) (h : History)
      → (held i (hwkey_generate_crypto_context ipc dst size h).calls ≡ held i h)
        × (held i (hwkey_exchange_crypto_context ipc src dst size h).calls ≡ held i h)
        × (held i (hwkey_get_ssek ipc dst size h).calls ≡ held i h)
  unfolding hwkey_generate_crypto_context hwkey_exchange_crypto_context hwkey_get_ssek
  hwkey_requests-held none none size h = (refl, refl, refl)
  hwkey_requests-held (some src) none size h = (refl, refl, refl)
  hwkey_requests-held none (some dst) size h =
      (guarded-held _ dst dst size h, refl, guarded-held _ dst dst size h)
  hwkey_requests-held (some src) (some dst) size h =
      (guarded-held _ dst dst size h, guarded-held _ src dst size h, guarded-held _ dst dst size h)
