-- ===== src/Heci/Tests.antt =====
-- The transport and the keybox on concrete devices and engines.
pub mod Keybox
pub mod Engine
use trusty_platform_sand.Base.{
  ℕ, ◌+◌, ◌*◌, ◌/◌, ◌%◌, ◌^◌, ◌≤◌, ◌≡◌, ◌≢◌, ◌⊎◌, refl, some, List, [], ◌∷◌, ◌++◌, arith, length,
}
use trusty_platform_sand.Base.Io.{Device, Trace, done, fault}
use trusty_platform_sand.Base.Io.Spec.{IsSafe}
use trusty_platform_sand.Heci.Regs.{
  host_ctrl, MsgHdr, Fits, msg_hdr, msg_hdr_word, msg_hdr-msg_hdr_word,
}
use trusty_platform_sand.Heci.Send.{heci_send_impl, max_buffer}
use trusty_platform_sand.Heci.Send.Packets.{window}
use trusty_platform_sand.Heci.Send.Message.{Apart, one_packet, depth, heci_send_impl-one_packet}
use trusty_platform_sand.Heci.Send.Progress.{IsReady, heci_send_impl_total}
use trusty_platform_sand.Heci.Receive.{heci_receive_impl, receive_words}
use trusty_platform_sand.Heci.Receive.Bounds.{HasLength, heci_receive_impl-IsSafe}
use trusty_platform_sand.Heci.Receive.Overflow.{HasData, receive_words_overflow}

-- Every register reads as a depth of 32, a write pointer of 1 and a read pointer of 0, and ready.
abbrev ready_device : Device
ready_device t w a = 32 * 2 ^ 24 + 2 ^ 16 + 8

abbrev hpet : ℕ
hpet = 0xFED00000

abbrev base : ℕ
base = 0x10000

-- Three bytes and a fourth in the next word
abbrev message : List ℕ
message = 0x1A0A ∷ 7 ∷ []

hpet-Apart : Apart hpet base
hpet-Apart = (omega arith, omega arith)

ready_device-IsReady : IsReady ready_device base
ready_device-IsReady t = refl

ready_device-HasData : HasData ready_device base
ready_device-HasData t = omega arith

heci_send_impl_total_example :
    (u : Trace) × (heci_send_impl ready_device hpet 1 base (some message) 7 0 7 [] ≡ done 0 u)
    × (window base u ≡ window base [] ++ one_packet message 7 0 7)
heci_send_impl_total_example =
    heci_send_impl_total ready_device hpet 0 base ready_device-IsReady message 7 0 7 [] hpet-Apart
      (omega arith) (omega arith) (omega arith) (unfold host_ctrl in omega arith)

heci_send_impl-one_packet_example :
    IsSafe
      (λ r u.
        (r ≢ 0)
        ⊎ ((2 ≤ max_buffer (depth ready_device base []))
            × (window base u ≡ window base [] ++ one_packet message 7 0 7)))
      (heci_send_impl ready_device hpet 1 base (some message) 7 0 7 [])
heci_send_impl-one_packet_example =
    heci_send_impl-one_packet ready_device hpet 1 base hpet-Apart message 7 0 7 [] (omega arith)
      (omega arith) (omega arith)

heci_receive_impl-IsSafe_example :
    IsSafe
      (λ r _. HasLength 2 r.message)
      (heci_receive_impl ready_device hpet 3 base (some message) (some 7) [])
heci_receive_impl-IsSafe_example =
    heci_receive_impl-IsSafe ready_device hpet 3 base 7 message [] (omega arith) (omega arith)

receive_words_overflow_example :
    receive_words ready_device hpet 1 base 8 3 0 (some message) [] ≡ fault
receive_words_overflow_example =
    receive_words_overflow ready_device hpet 0 base ready_device-HasData 3 message [] (omega arith)

abbrev header : MsgHdr
header = record {
  sec_address = 7;
  host_address = 0;
  length = 12;
  reserved = 0;
  message_complete = 1;
}

header-Fits : Fits header
header-Fits = omega arith

msg_hdr-msg_hdr_word_example : msg_hdr (msg_hdr_word header) ≡ header
msg_hdr-msg_hdr_word_example = msg_hdr-msg_hdr_word header header-Fits
