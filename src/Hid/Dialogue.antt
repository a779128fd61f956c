-- ===== src/Hid/Dialogue.antt =====
-- `ExchangeCbor` as a dialogue with a device.
use ctap2_test_tool.Base.{
  Bool, Bytes, [], arith, false, length, ltb, map, refl, suc, ℕ, ◌++◌, ◌+◌, ◌<◌, ◌==◌, ◌^◌, ◌∙◌,
  ◌∷◌, ◌≡◌, ◌≢◌,
}
use ctap2_test_tool.Constants.Codes.{Command, command_byte, err_none, status_byte, status_eq}
use ctap2_test_tool.Hid.Device.{HidDevice}
use ctap2_test_tool.Hid.Exchange.{
  answered, exchange_cbor, finish_exchange, keepalive_loop, observe_prompt,
}
use ctap2_test_tool.Hid.Frame.{ctap_hid_cbor, ctap_hid_keepalive, max_data_size, receive_timeout}
use ctap2_test_tool.Hid.Kept.{finish-KeepsSent, receive_command-KeepsSent}
use ctap2_test_tool.Hid.Message.{receive_command-Delivers}
use ctap2_test_tool.Hid.Packets.{packets, report, send_command-packets}
use ctap2_test_tool.Hid.Receive.{receive_command}
use ctap2_test_tool.Hid.RoundTrip.{Delivers, duration}
use ctap2_test_tool.Hid.Send.{send_command}
use ctap2_test_tool.Hid.Status.{byte_to_status}

-- The status that a byte is translated to does not depend on the state.
byte_to_status_any : (b : ℕ) (d e : HidDevice) → (byte_to_status b d).0 ≡ (byte_to_status b e).0
unfolding byte_to_status
byte_to_status_any b d e = ground arith

keepalive_loop_done :
    (n cmd : ℕ) (bytes : Bytes) (p : Bool) (d : HidDevice)
    → cmd ≢ ctap_hid_keepalive
    → keepalive_loop (suc n) cmd bytes p d ≡ (answered cmd bytes p, d)
unfolding keepalive_loop
keepalive_loop_done n cmd bytes p d ne =
    let e : (cmd == ctap_hid_keepalive) ≡ false = ground arith in rw (e, keepalive_loop) refl

exchange_cbor_steps :
    (command : Command) (payload : Bytes) (expect : Bool) (acc bytes : Bytes) (d d' d'' : HidDevice)
    → length payload < max_data_size
    → send_command ctap_hid_cbor (command_byte command ∷ payload) d ≡ (err_none, d')
    → receive_command receive_timeout ctap_hid_cbor d'
      ≡ (record { status = err_none; cmd = ctap_hid_cbor; bytes = bytes }, d'')
    → exchange_cbor command payload expect acc d
      ≡ finish_exchange expect acc (answered ctap_hid_cbor bytes false, d'')
unfolding exchange_cbor status_eq status_byte
exchange_cbor_steps command payload expect acc bytes d d' d'' h s q =
    let e : ltb max_data_size (1 + length payload) ≡ false = ground arith in
    rw
      (
        e,
        s,
        q,
        keepalive_loop_done (length d''.wire.reads) ctap_hid_cbor bytes false d'' (omega arith),
      )
      refl

-- A command that fits, every write accepted, and the frames of an answer delivered in time on the
-- same 32-bit channel, with frames of other channels in between: `ExchangeCbor` has written exactly
-- the frames of the command byte and the payload, appends what follows the first byte of the
-- answer to the response, returns what that byte means as a status, and has not prompted.
pub exchange_cbor_answered :
    (command : Command) (payload : Bytes) (expect : Bool) (acc : Bytes) (b : ℕ) (body : Bytes)
    (d : HidDevice)
    → length payload < max_data_size
    → length body < max_data_size
    → d.channel < 2 ^ 32
    → d.writes ≡ []
    → (dl : Delivers d.channel (packets d.channel ctap_hid_cbor (b ∷ body)) d.wire.reads)
    → duration dl < receive_timeout
    → let r = exchange_cbor command payload expect acc d in
      (r.0 ≡ (byte_to_status b d).0)
      × (r.1 ≡ acc ++ body)
      × (r.2.sent
          ≡ d.sent ++ map report (packets d.channel ctap_hid_cbor (command_byte command ∷ payload)))
      × (r.2.prompts ≡ d.prompts)
unfolding finish_exchange
exchange_cbor_answered command payload expect acc b body d h k c w dl t =
    let cmd_bytes = command_byte command ∷ payload in
    let d' : HidDevice = record d {
      sent = d.sent ++ map report (packets d.channel ctap_hid_cbor cmd_bytes);
      writes = [];
    } in
    let r = receive_command receive_timeout ctap_hid_cbor d' in
    let reply : r.0 ≡ record { status = err_none; cmd = ctap_hid_cbor; bytes = b ∷ body } =
      receive_command-Delivers ctap_hid_cbor ctap_hid_cbor receive_timeout (b ∷ body) d'
        (omega arith) (omega arith) (omega arith) (omega arith) c dl t in
    let steps =
      exchange_cbor_steps command payload expect acc (b ∷ body) d d' r.1 h
        (send_command-packets ctap_hid_cbor cmd_bytes d w) (λ i. (reply i, r.1)) in
    let kept = receive_command-KeepsSent receive_timeout ctap_hid_cbor d' in
    let left = finish-KeepsSent expect acc (b ∷ body) false ctap_hid_cbor r.1 in
    rw steps (
      byte_to_status_any b (observe_prompt false expect r.1) d,
      refl,
      left.0 ∙ kept.0,
      left.1 ∙ kept.1,
    )
