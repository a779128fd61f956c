-- ===== src/Hid/Prompts.antt =====
-- How often an exchange prompts the user.
use ctap2_test_tool.Base.{
  Bool, Bytes, arith, drop, false, if◌then◌else◌, length, ltb, not, refl, suc, take, true, zero, ℕ,
  ◌%◌, ◌+◌, ◌∷◌, ◌≡◌, ◌≤◌,
}
use ctap2_test_tool.Constants.Codes.{
  Command, Status, command_byte, err_invalid_length, err_none, status_eq,
}
use ctap2_test_tool.Hid.Device.{HidDevice, send_frame}
use ctap2_test_tool.Hid.Exchange.{
  Answer, answered, exchange_cbor, failed, finish_exchange, keepalive_loop, prompt_once,
}
use ctap2_test_tool.Hid.Frame.{
  Frame, cont_frame, cont_size, ctap_hid_cbor, max_data_size, receive_timeout,
}
use ctap2_test_tool.Hid.Kept.{finish-KeepsSent, receive_command-KeepsSent}
use ctap2_test_tool.Hid.Receive.{receive_command}
use ctap2_test_tool.Hid.Send.{send_command, send_frames}
use ctap2_test_tool.Tracker.{is_touch_prompt_ignored}

prompt_once-prompts :
    (p : Bool) (d : HidDevice) → (prompt_once p d).prompts ≤ d.prompts + (if p then 0 else 1)
unfolding prompt_once is_touch_prompt_ignored
prompt_once-prompts p d = ground arith

keepalive_loop-prompts :
    (n cmd : ℕ) (bytes : Bytes) (p : Bool) (d : HidDevice)
    → (keepalive_loop n cmd bytes p d).1.prompts ≤ d.prompts + (if p then 0 else 1)
unfolding keepalive_loop
keepalive_loop-prompts zero cmd bytes p d = ground arith
keepalive_loop-prompts (suc n) cmd bytes p d =
    let r = receive_command receive_timeout cmd d in
    let u = receive_command receive_timeout cmd (prompt_once p d) in
    ground (
      arith,
      prompt_once-prompts p d,
      receive_command-KeepsSent receive_timeout cmd d,
      receive_command-KeepsSent receive_timeout cmd (prompt_once p d),
      keepalive_loop-prompts n r.0.cmd r.0.bytes p r.1,
      keepalive_loop-prompts n u.0.cmd u.0.bytes true u.1,
    )

send_frame-prompts : (f : Frame) (d : HidDevice) → (send_frame f d).1.prompts ≡ d.prompts
unfolding send_frame
send_frame-prompts f d = ground arith

send_frames-prompts :
    (n : ℕ) (f : Frame) (rest : Bytes) (seq : ℕ) (d : HidDevice)
    → (send_frames n f rest seq d).1.prompts ≡ d.prompts
unfolding send_frames
send_frames-prompts zero f rest seq d = refl
send_frames-prompts (suc n) f rest seq d = ground (
  arith,
  send_frame-prompts f d,
  send_frames-prompts n (cont_frame d.channel seq (take cont_size rest)) (drop cont_size rest)
      ((seq + 1) % 256) (send_frame f d).1,
)

finish-prompts :
    (expect : Bool) (acc : Bytes) (a : Answer) (d : HidDevice)
    → (finish_exchange expect acc (a, d)).2.prompts ≡ d.prompts
unfolding finish_exchange
finish-prompts expect acc (failed s) d = refl
finish-prompts expect acc (answered cmd bytes p) d = (finish-KeepsSent expect acc bytes p cmd d).1

answer_prompts :
    (large bad_send bad_receive : Bool) (e s r : Status × Bytes × HidDevice)
    (last : Status × Bytes × HidDevice) (n : ℕ)
    → e.2.prompts ≤ n
    → s.2.prompts ≤ n
    → r.2.prompts ≤ n
    → last.2.prompts ≤ n
    → (if large then e else if bad_send then s else if bad_receive then r else last).2.prompts ≤ n
answer_prompts true bad_send bad_receive e s r last n a b c d = a
answer_prompts false true bad_receive e s r last n a b c d = b
answer_prompts false false true e s r last n a b c d = c
answer_prompts false false false e s r last n a b c d = d

-- However many keepalive messages the device sends, and whatever else happens, one exchange
-- prompts the user at most once.
pub exchange_cbor_prompts_once :
    (command : Command) (payload : Bytes) (expect : Bool) (acc : Bytes) (d : HidDevice)
    → (exchange_cbor command payload expect acc d).2.prompts ≤ d.prompts + 1
unfolding exchange_cbor
exchange_cbor_prompts_once command payload expect acc d =
    let q = send_command ctap_hid_cbor (command_byte command ∷ payload) d in
    let d' = q.1 in
    let r = receive_command receive_timeout ctap_hid_cbor d' in
    let a = keepalive_loop (suc (length r.1.wire.reads)) r.0.cmd r.0.bytes false r.1 in
    let s : d'.prompts ≡ d.prompts = unfold send_command in send_frames-prompts _ _ _ 0 d in
    let k = receive_command-KeepsSent receive_timeout ctap_hid_cbor d' in
    let l = keepalive_loop-prompts (suc (length r.1.wire.reads)) r.0.cmd r.0.bytes false r.1 in
    let f = finish-prompts expect acc a.0 a.1 in
    answer_prompts (ltb max_data_size (1 + length payload)) (not (status_eq q.0 err_none))
      (not (status_eq r.0.status err_none)) (err_invalid_length, acc, d) (q.0, acc, d')
      (r.0.status, acc, r.1) (finish_exchange expect acc a) (d.prompts + 1) (omega arith)
      (omega (arith, s)) (omega (arith, s, k.1)) (omega (arith, s, k.1, l, f))
