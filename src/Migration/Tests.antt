-- ===== src/Migration/Tests.antt =====
-- A server that answers a request for two bytes with a header of 20 bytes and the bytes 5 and 6.
use trusty_platform_sand.Base.{◌*◌, ◌≡◌, ◌↔◌, refl, pos, true, some, [], ◌∷◌, bit_or, arith}
use trusty_platform_sand.Migration.{
  Ipc, hwkey_no_error, is_no_error, hwkey_generate_crypto_context, hwkey_exchange_crypto_context,
  hwkey_get_ssek, hwkey_generate_crypto_ctx, hwkey_exchange_crypto_ctx, hwkey_get_ssek_cmd,
}
use trusty_platform_sand.Migration.Balance.{held, hwkey_requests-held}
use trusty_platform_sand.Migration.Accepted.{Accepted, hwkey_requests-Accepted}

abbrev server : Ipc
server = record {
  send_msg = λ h msg payload. pos 22;
  wait = λ h. pos 0;
  get_msg = λ h. (pos 0, record { id = 9; len = 22 });
  read_msg = λ h id size.
      (pos 22, record { cmd = bit_or (125 * 2) 1; status = hwkey_no_error; arg1 = 2 }, 5 ∷ 6 ∷ []);
  msg_size = 20;
  resp_bit = 1;
  req_shift = 1;
}

-- The server answers the command HWKEY_GET_SSEK.
get_ssek_succeeds : (hwkey_get_ssek server (some (0 ∷ 0 ∷ [])) 2 []).rsp_buf ≡ 5 ∷ 6 ∷ []
unfolding hwkey_get_ssek
get_ssek_succeeds = refl

hwkey_requests-Accepted_example :
    ((is_no_error (hwkey_generate_crypto_context server (some (0 ∷ 0 ∷ [])) 2 []).rc ≡ true)
      ↔ Accepted server 2 (omega arith) (hwkey_generate_crypto_ctx server) (0 ∷ 0 ∷ []) [])
    × ((is_no_error
            (hwkey_exchange_crypto_context server (some (1 ∷ 2 ∷ [])) (some (0 ∷ 0 ∷ [])) 2 []).rc
          ≡ true)
        ↔ Accepted server 2 (omega arith) (hwkey_exchange_crypto_ctx server) (1 ∷ 2 ∷ []) [])
    × ((is_no_error (hwkey_get_ssek server (some (0 ∷ 0 ∷ [])) 2 []).rc ≡ true)
        ↔ Accepted server 2 (omega arith) (hwkey_get_ssek_cmd server) (0 ∷ 0 ∷ []) [])
hwkey_requests-Accepted_example =
    hwkey_requests-Accepted server 2 (omega arith) (1 ∷ 2 ∷ []) (0 ∷ 0 ∷ []) [] (omega arith)

hwkey_requests-held_example :
    (held 9 (hwkey_generate_crypto_context server (some (0 ∷ 0 ∷ [])) 2 []).calls ≡ 0)
    × (held 9 (hwkey_exchange_crypto_context server (some (1 ∷ [])) (some (0 ∷ 0 ∷ [])) 2 []).calls
        ≡ 0)
    × (held 9 (hwkey_get_ssek server (some (0 ∷ 0 ∷ [])) 2 []).calls ≡ 0)
unfolding held
hwkey_requests-held_example = hwkey_requests-held server 9 (some (1 ∷ [])) (some (0 ∷ 0 ∷ [])) 2 []
