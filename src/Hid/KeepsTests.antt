-- ===== src/Hid/KeepsTests.antt =====
-- The messages of a device leave the log of tests as it was, src/hid/hid_device.cc.
-- Only the tracker's observations and capabilities change.
use ctap2_test_tool.Base.{
  Bool, Bytes, arith, drop, false, get_or, length, refl, suc, take, true, zero, ℕ, ◌%◌, ◌+◌, ◌∷◌,
  ◌≡◌,
}
use ctap2_test_tool.Constants.Codes.{Command, command_byte}
use ctap2_test_tool.Hid.Device.{HidDevice, Received, Wire, received, refused, send_frame}
use ctap2_test_tool.Hid.Exchange.{
  Answer, answered, exchange_cbor, failed, finish_exchange, keepalive_loop, observe_prompt,
  prompt_once,
}
use ctap2_test_tool.Hid.Frame.{
  Frame, cont_frame, cont_size, ctap_hid_cbor, ctap_hid_init, id_broadcast, init_data, init_frame,
  init_nonce_size, receive_timeout,
}
use ctap2_test_tool.Hid.Init.{HidEnvironment, adopt_answer, draw_nonce, init, init_channel}
use ctap2_test_tool.Hid.Receive.{first_frame, receive_command, receive_payload}
use ctap2_test_tool.Hid.Send.{send_command, send_frames}
use ctap2_test_tool.Hid.Status.{byte_to_status}
use ctap2_test_tool.Tracker.{add_observation, is_touch_prompt_ignored, set_capabilities}

abbrev pub KeepsTests : HidDevice → HidDevice → Type 0
KeepsTests d e = e.tracker.tests ≡ d.tracker.tests

byte_to_status-KeepsTests : (b : ℕ) (d : HidDevice) → KeepsTests d (byte_to_status b d).1
unfolding byte_to_status add_observation
byte_to_status-KeepsTests b d = ground arith

receive_payload-KeepsTests :
    (f : Frame) (cmd end_time : ℕ) (d : HidDevice)
    → KeepsTests d (receive_payload f cmd end_time d).1
unfolding receive_payload
receive_payload-KeepsTests f cmd end_time d =
    ground (arith, byte_to_status-KeepsTests (get_or (init_data f) 0 0) d)

receive_command-KeepsTests :
    (timeout cmd : ℕ) (d : HidDevice) → KeepsTests d (receive_command timeout cmd d).1
unfolding receive_command
receive_command-KeepsTests timeout cmd d =
    split (first_frame (suc (length d.wire.reads)) d.channel (d.wire.now + timeout) d.wire) refl
  where
    split :
        (p : Received × Wire)
        → first_frame (suc (length d.wire.reads)) d.channel (d.wire.now + timeout) d.wire ≡ p
        → KeepsTests d (receive_command timeout cmd d).1
    split (refused s, w) e = rw (e, receive_command) refl
    split (received f, w) e =
        rw (e, receive_command)
          (receive_payload-KeepsTests f cmd (d.wire.now + timeout) (record d { wire = _ }))

prompt_once-KeepsTests : (p : Bool) (d : HidDevice) → KeepsTests d (prompt_once p d)
unfolding prompt_once is_touch_prompt_ignored
prompt_once-KeepsTests p d = ground arith

keepalive_loop-KeepsTests :
    (n cmd : ℕ) (bytes : Bytes) (p : Bool) (d : HidDevice)
    → KeepsTests d (keepalive_loop n cmd bytes p d).1
unfolding keepalive_loop
keepalive_loop-KeepsTests zero cmd bytes p d = refl
keepalive_loop-KeepsTests (suc n) cmd bytes p d =
    let r = receive_command receive_timeout cmd d in
    let u = receive_command receive_timeout cmd (prompt_once p d) in
    ground (
      arith,
      prompt_once-KeepsTests p d,
      receive_command-KeepsTests receive_timeout cmd d,
      receive_command-KeepsTests receive_timeout cmd (prompt_once p d),
      keepalive_loop-KeepsTests n r.0.cmd r.0.bytes p r.1,
      keepalive_loop-KeepsTests n u.0.cmd u.0.bytes true u.1,
    )

pub send_frame-KeepsTests : (f : Frame) (d : HidDevice) → KeepsTests d (send_frame f d).1
unfolding send_frame
send_frame-KeepsTests f d = ground arith

send_frames-KeepsTests :
    (n : ℕ) (f : Frame) (rest : Bytes) (seq : ℕ) (d : HidDevice)
    → KeepsTests d (send_frames n f rest seq d).1
unfolding send_frames
send_frames-KeepsTests zero f rest seq d = refl
send_frames-KeepsTests (suc n) f rest seq d = ground (
  arith,
  send_frame-KeepsTests f d,
  send_frames-KeepsTests n (cont_frame d.channel seq (take cont_size rest)) (drop cont_size rest)
      ((seq + 1) % 256) (send_frame f d).1,
)

finish_exchange-KeepsTests :
    (expect : Bool) (acc : Bytes) (a : Answer) (d : HidDevice)
    → KeepsTests d (finish_exchange expect acc (a, d)).2
unfolding finish_exchange observe_prompt add_observation
finish_exchange-KeepsTests expect acc (failed s) d = refl
finish_exchange-KeepsTests expect acc (answered cmd bytes p) d =
    ground (arith, byte_to_status-KeepsTests (get_or bytes 0 0) (observe_prompt p expect d))

pub exchange_cbor-KeepsTests :
    (command : Command) (payload : Bytes) (expect : Bool) (acc : Bytes) (d : HidDevice)
    → KeepsTests d (exchange_cbor command payload expect acc d).2
unfolding exchange_cbor
exchange_cbor-KeepsTests command payload expect acc d =
    let q = send_command ctap_hid_cbor (command_byte command ∷ payload) d in
    let r = receive_command receive_timeout ctap_hid_cbor q.1 in
    let a = keepalive_loop (suc (length r.1.wire.reads)) r.0.cmd r.0.bytes false r.1 in
    let s : KeepsTests d q.1 = unfold send_command in send_frames-KeepsTests _ _ _ 0 d in
    let k = receive_command-KeepsTests receive_timeout ctap_hid_cbor q.1 in
    let l = keepalive_loop-KeepsTests (suc (length r.1.wire.reads)) r.0.cmd r.0.bytes false r.1 in
    ground (arith, s, k, l, finish_exchange-KeepsTests expect acc a.0 a.1)

pub init_channel-KeepsTests :
    (env : HidEnvironment) (d : HidDevice) → KeepsTests d (init_channel env d).1
unfolding init_channel adopt_answer set_capabilities
init_channel-KeepsTests env d =
    let (nonce, seed) = draw_nonce env.rand_r init_nonce_size d.seed in
    let challenge = init_frame id_broadcast ctap_hid_init init_nonce_size nonce in
    ground (arith, send_frame-KeepsTests challenge (record d { opened = true; seed = seed }))

pub init-KeepsTests : (env : HidEnvironment) (d : HidDevice) → KeepsTests d (init env d).1
unfolding init
init-KeepsTests env d = ground (arith, init_channel-KeepsTests env (record d { opened = false }))
