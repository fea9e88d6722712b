-- ===== src/Migration.antt =====
-- lib/hwkey_migration/hwkey_migration.c: the requests of an application to the hwkey server. The
-- calls of trusty_ipc.h are the kernel's: what each answers is a parameter, a function of the calls
-- before it.
pub mod Balance
pub mod Accepted
mod Tests
use trusty_platform_sand.Base.{
  ℕ, zero, suc, ◌+◌, ◌-◌, ◌*◌, ◌%◌, ◌^◌, ℤ, pos, negsuc, Bool, true, false, ◌||◌, not, Option, none,
  some, List, [], ◌∷◌, ltb, ◌==◌, if◌then◌else◌, bit_or, take,
}

-- `enum hwkey_err` of the server's interface; a status on the wire can be any other number.
pub data HwkeyErr : Type 0 where
  hwkey_no_error hwkey_err_generic hwkey_err_not_valid hwkey_err_bad_len : HwkeyErr
  hwkey_err_not_implemented hwkey_err_not_found : HwkeyErr
  unknown : ℕ → HwkeyErr

-- A result: what an IPC call returned, where `code (pos 0)` is NO_ERROR, or an error of the code.
pub data Rc : Type 0 where
  code : ℤ → Rc
  err_io err_too_big err_not_valid err_bad_len err_not_implemented err_not_found err_generic : Rc

abbrev pub no_error : Rc
no_error = code (pos 0)

abbrev pub is_no_error : Rc → Bool
is_no_error (code (pos zero)) = true
is_no_error _ = false

-- `struct hwkey_msg`, the header of a request and of a response; the other fields are zero.
pub record HwkeyMsg : Type 0 where
  pub cmd : ℕ
  pub status : HwkeyErr
  pub arg1 : ℕ

-- The IPC calls that were made: a message sent with its payload, a wait, a message got and its
-- number, its read and its return to the kernel.
pub data Call : Type 0 where
  sent : HwkeyMsg → List ℕ → Call
  waited : Call
  got : ℕ → Call
  not_got : Call
  was_read : ℕ → Call
  put : ℕ → Call

-- The latest call first
abbrev pub History : Type 0
History = List Call

-- `ipc_msg_info_t`
pub record Info : Type 0 where
  pub id : ℕ
  pub len : ℕ

-- `read_msg` takes the number and the size of the buffer for the payload, and answers with the
-- header and the bytes that it stored. `msg_size` is the size of the header.
pub record Ipc : Type 0 where
  pub send_msg : History → HwkeyMsg → List ℕ → ℤ
  pub wait : History → ℤ
  pub get_msg : History → ℤ × Info
  pub read_msg : History → ℕ → ℕ → ℤ × HwkeyMsg × List ℕ
  pub msg_size : ℕ
  pub resp_bit : ℕ
  pub req_shift : ℕ

-- What a request leaves: its result, the bytes of the response, their number and the calls.
pub record Reply : Type 0 where
  pub rc : Rc
  pub rsp_buf : List ℕ
  pub rsp_buf_len : ℕ
  pub calls : History

unfoldable pub hwkey_err_to_tipc_err : HwkeyErr → Rc
hwkey_err_to_tipc_err hwkey_no_error = no_error
hwkey_err_to_tipc_err hwkey_err_not_valid = err_not_valid
hwkey_err_to_tipc_err hwkey_err_bad_len = err_bad_len
hwkey_err_to_tipc_err hwkey_err_not_implemented = err_not_implemented
hwkey_err_to_tipc_err hwkey_err_not_found = err_not_found
hwkey_err_to_tipc_err hwkey_err_generic = err_generic
hwkey_err_to_tipc_err (unknown n) = err_generic

abbrev pub is_zero : ℤ → Bool
is_zero (pos zero) = true
is_zero _ = false

module _ (ipc : Ipc) where
  -- The return of the message with an error, `err_get_fail`
  abbrev pub refuse : Rc → List ℕ → ℕ → ℕ → History → Reply
  refuse rc rsp_buf rsp_buf_len id h = record {
    rc = rc;
    rsp_buf = rsp_buf;
    rsp_buf_len = rsp_buf_len;
    calls = put id ∷ h;
  }

  -- The checks of a response that `read_msg` answered; `h` ends with its return to the kernel.
  unfoldable pub check_response : ℕ → ℕ → ℕ → List ℕ → ℤ × HwkeyMsg × List ℕ → History → Reply
  unfolding hwkey_err_to_tipc_err
  check_response cmd_sent len rsp_buf_len rsp_buf (negsuc n, msg, stored) h = record {
    rc = code (negsuc n);
    rsp_buf = stored;
    rsp_buf_len = rsp_buf_len;
    calls = h;
  }
  check_response cmd_sent len rsp_buf_len rsp_buf (pos n, msg, stored) h =
      let read_len = n % 2 ^ 32 in
      if not (read_len == len)
      then record { rc = err_io; rsp_buf = stored; rsp_buf_len = rsp_buf_len; calls = h }
      else if not (msg.cmd == bit_or cmd_sent ipc.resp_bit)
      then record { rc = err_not_valid; rsp_buf = stored; rsp_buf_len = rsp_buf_len; calls = h }
      else record {
        rc = hwkey_err_to_tipc_err msg.status;
        rsp_buf = stored;
        rsp_buf_len = (read_len + 2 ^ 32 - ipc.msg_size) % 2 ^ 32;
        calls = h;
      }

  -- A message that was got: the checks of its length, then the read.
  unfoldable pub receive : HwkeyMsg → List ℕ → ℕ → Info → History → Reply
  unfolding check_response
  receive msg rsp_buf rsp_buf_len inf h =
      if ltb (ipc.msg_size + rsp_buf_len) inf.len
      then refuse err_too_big rsp_buf rsp_buf_len inf.id h
      else if ltb inf.len ipc.msg_size
      then refuse err_not_valid rsp_buf rsp_buf_len inf.id h
      else check_response msg.cmd inf.len rsp_buf_len rsp_buf (ipc.read_msg h inf.id rsp_buf_len)
          (put inf.id ∷ was_read inf.id ∷ h)

  -- The wait for a response and its number.
  unfoldable pub await : HwkeyMsg → List ℕ → ℕ → History → Reply
  unfolding receive
  await msg rsp_buf rsp_buf_len h =
      let rc = ipc.wait h in
      let (rc', inf) = ipc.get_msg (waited ∷ h) in
      if not (is_zero rc)
      then record { rc = code rc; rsp_buf = rsp_buf; rsp_buf_len = rsp_buf_len; calls = waited ∷ h }
      else if not (is_zero rc')
      then record {
        rc = code rc';
        rsp_buf = rsp_buf;
        rsp_buf_len = rsp_buf_len;
        calls = not_got ∷ waited ∷ h;
      }
      else receive msg rsp_buf rsp_buf_len inf (got inf.id ∷ waited ∷ h)

  -- What follows a `send_msg` that answered the first argument.
  unfoldable pub after_send : ℤ → HwkeyMsg → ℕ → List ℕ → ℕ → History → Reply
  unfolding await
  after_send (negsuc n) msg req_buf_len rsp_buf rsp_buf_len h = record {
    rc = code (negsuc n);
    rsp_buf = rsp_buf;
    rsp_buf_len = rsp_buf_len;
    calls = h;
  }
  after_send (pos n) msg req_buf_len rsp_buf rsp_buf_len h =
      if not (n == ipc.msg_size + req_buf_len)
      then record { rc = err_io; rsp_buf = rsp_buf; rsp_buf_len = rsp_buf_len; calls = h }
      else await msg rsp_buf rsp_buf_len h

  unfoldable pub send_req : HwkeyMsg → List ℕ → ℕ → List ℕ → ℕ → History → Reply
  unfolding after_send
  send_req msg req_buf req_buf_len rsp_buf rsp_buf_len h =
      after_send (ipc.send_msg h msg (take req_buf_len req_buf)) msg req_buf_len rsp_buf rsp_buf_len
        (sent msg (take req_buf_len req_buf) ∷ h)

  -- HWKEY_GENERATE_CRYPTO_CTX, HWKEY_EXCHANGE_CRYPTO_CTX, HWKEY_GET_SSEK
  abbrev pub hwkey_generate_crypto_ctx : ℕ
  hwkey_generate_crypto_ctx = 127 * 2 ^ ipc.req_shift

  abbrev pub hwkey_exchange_crypto_ctx : ℕ
  hwkey_exchange_crypto_ctx = 126 * 2 ^ ipc.req_shift

  abbrev pub hwkey_get_ssek_cmd : ℕ
  hwkey_get_ssek_cmd = 125 * 2 ^ ipc.req_shift

  -- The check of the size of the response, in all three requests.
  unfoldable pub check_size : ℕ → Reply → Reply
  check_size stored_size r =
      if not (is_no_error r.rc)
      then r
      else if not (stored_size == r.rsp_buf_len)
      then record r { rc = err_bad_len }
      else r

  abbrev pub invalid_args : List ℕ → ℕ → History → Reply
  invalid_args buf size h = record {
    rc = err_not_valid;
    rsp_buf = buf;
    rsp_buf_len = size;
    calls = h;
  }

  unfoldable pub hwkey_generate_crypto_context : Option (List ℕ) → ℕ → History → Reply
  unfolding send_req check_size
  hwkey_generate_crypto_context none data_size h = invalid_args [] data_size h
  hwkey_generate_crypto_context (some bytes) data_size h =
      if data_size == 0
      then invalid_args bytes data_size h
      else check_size data_size (
          send_req
            (record { cmd = hwkey_generate_crypto_ctx; status = hwkey_no_error; arg1 = data_size })
            bytes data_size bytes data_size h)

  unfoldable pub hwkey_exchange_crypto_context :
      Option (List ℕ) → Option (List ℕ) → ℕ → History → Reply
  unfolding send_req check_size
  hwkey_exchange_crypto_context none none dst_size h = invalid_args [] dst_size h
  hwkey_exchange_crypto_context none (some dst) dst_size h = invalid_args dst dst_size h
  hwkey_exchange_crypto_context (some src) none dst_size h = invalid_args [] dst_size h
  hwkey_exchange_crypto_context (some src) (some dst) dst_size h =
      if dst_size == 0
      then invalid_args dst dst_size h
      else check_size dst_size (
          send_req
            (record { cmd = hwkey_exchange_crypto_ctx; status = hwkey_no_error; arg1 = dst_size })
            src dst_size dst dst_size h)

  unfoldable pub hwkey_get_ssek : Option (List ℕ) → ℕ → History → Reply
  unfolding send_req check_size
  hwkey_get_ssek none ssek_size h = invalid_args [] ssek_size h
  hwkey_get_ssek (some ssek) ssek_size h =
      if ssek_size == 0
      then invalid_args ssek ssek_size h
      else check_size ssek_size (
          send_req (record { cmd = hwkey_get_ssek_cmd; status = hwkey_no_error; arg1 = ssek_size })
            ssek ssek_size ssek ssek_size h)
