-- ===== src/Hid/Kept.antt =====
-- What receiving and finishing an exchange leave unchanged.
use ctap2_test_tool.Base.{Bool, Bytes, arith, get_or, length, refl, suc, ℕ, ◌+◌, ◌≡◌}
use ctap2_test_tool.Hid.Device.{HidDevice, Received, Wire, received, refused}
use ctap2_test_tool.Hid.Exchange.{answered, finish_exchange, observe_prompt}
use ctap2_test_tool.Hid.Frame.{Frame, init_data}
use ctap2_test_tool.Hid.Receive.{first_frame, receive_command, receive_payload}
use ctap2_test_tool.Hid.Status.{byte_to_status}

-- Receiving changes neither what was sent nor how often the user was prompted.
abbrev pub KeepsSent : HidDevice → HidDevice → Type 0
KeepsSent d e = (e.sent ≡ d.sent) × (e.prompts ≡ d.prompts)

byte_to_status-KeepsSent : (b : ℕ) (d : HidDevice) → KeepsSent d (byte_to_status b d).1
unfolding byte_to_status
byte_to_status-KeepsSent b d = ground arith

receive_payload-KeepsSent :
    (f : Frame) (cmd end_time : ℕ) (d : HidDevice)
    → KeepsSent d (receive_payload f cmd end_time d).1
unfolding receive_payload
receive_payload-KeepsSent f cmd end_time d =
    ground (arith, byte_to_status-KeepsSent (get_or (init_data f) 0 0) d)

pub receive_command-KeepsSent :
    (timeout cmd : ℕ) (d : HidDevice) → KeepsSent d (receive_command timeout cmd d).1
unfolding receive_command
receive_command-KeepsSent timeout cmd d =
    split (first_frame (suc (length d.wire.reads)) d.channel (d.wire.now + timeout) d.wire) refl
  where
    split :
        (p : Received × Wire)
        → first_frame (suc (length d.wire.reads)) d.channel (d.wire.now + timeout) d.wire ≡ p
        → KeepsSent d (receive_command timeout cmd d).1
    split (refused s, w) e = rw (e, receive_command) (refl, refl)
    split (received f, w) e =
        rw (e, receive_command)
          (receive_payload-KeepsSent f cmd (d.wire.now + timeout) (record d { wire = _ }))

pub finish-KeepsSent :
    (expect : Bool) (acc bytes : Bytes) (sent_prompt : Bool) (cmd : ℕ) (d : HidDevice)
    → KeepsSent d (finish_exchange expect acc (answered cmd bytes sent_prompt, d)).2
unfolding finish_exchange observe_prompt
finish-KeepsSent expect acc bytes sent_prompt cmd d =
    ground
      (arith, byte_to_status-KeepsSent (get_or bytes 0 0) (observe_prompt sent_prompt expect d))
