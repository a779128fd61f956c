-- ===== src/Hid/Bounds.antt =====
-- How many reports an exchange writes, src/hid/hid_device.cc.
use ctap2_test_tool.Base.{
  Bool, Bytes, [], arith, bit_or, drop, false, if◌then◌else◌, length, length-append, length-drop,
  ltb, not, refl, subst, suc, sym, take, true, zero, ℕ, ◌%◌, ◌*◌, ◌+◌, ◌∙◌, ◌∷◌, ◌≡◌, ◌≤◌,
}
use ctap2_test_tool.Constants.Codes.{
  Command, Status, command_byte, err_invalid_length, err_none, status_eq,
}
use ctap2_test_tool.Hid.Device.{HidDevice, send_frame}
use ctap2_test_tool.Hid.Exchange.{
  Answer, answered, exchange_cbor, failed, finish_exchange, keepalive_loop, prompt_once,
}
use ctap2_test_tool.Hid.Frame.{
  Frame, cont_frame, cont_size, ctap_hid_cbor, init_frame, init_size, max_data_size,
  receive_timeout, to_wire,
}
use ctap2_test_tool.Hid.Kept.{finish-KeepsSent, receive_command-KeepsSent}
use ctap2_test_tool.Hid.Receive.{receive_command}
use ctap2_test_tool.Hid.Send.{send_command, send_frames}
use ctap2_test_tool.Tracker.{is_touch_prompt_ignored}

prompt_once-sent : (p : Bool) (d : HidDevice) → (prompt_once p d).sent ≡ d.sent
unfolding prompt_once is_touch_prompt_ignored
prompt_once-sent p d = ground arith

keepalive_loop-sent :
    (n cmd : ℕ) (bytes : Bytes) (p : Bool) (d : HidDevice)
    → (keepalive_loop n cmd bytes p d).1.sent ≡ d.sent
unfolding keepalive_loop
keepalive_loop-sent zero cmd bytes p d = refl
keepalive_loop-sent (suc n) cmd bytes p d =
    let r = receive_command receive_timeout cmd d in
    let u = receive_command receive_timeout cmd (prompt_once p d) in
    ground (
      arith,
      prompt_once-sent p d,
      receive_command-KeepsSent receive_timeout cmd d,
      receive_command-KeepsSent receive_timeout cmd (prompt_once p d),
      keepalive_loop-sent n r.0.cmd r.0.bytes p r.1,
      keepalive_loop-sent n u.0.cmd u.0.bytes true u.1,
    )

send_frame-sent : (f : Frame) (d : HidDevice) → length (send_frame f d).1.sent ≤ length d.sent + 1
unfolding send_frame
send_frame-sent f d = ground (arith, length-append d.sent ((0 ∷ to_wire f) ∷ []))

-- A frame, and at most `q` further ones for `59 q` bytes.
send_frames-sent :
    (n : ℕ) (f : Frame) (rest : Bytes) (seq : ℕ) (d : HidDevice) (q : ℕ)
    → length rest ≤ cont_size * q
    → length (send_frames n f rest seq d).1.sent ≤ length d.sent + 1 + q
unfolding send_frames
send_frames-sent zero f rest seq d q h = omega arith
send_frames-sent (suc n) f [] seq d q h = ground (arith, send_frame-sent f d)
send_frames-sent (suc n) f (b ∷ bs) seq d zero h = absurd (omega arith)
send_frames-sent (suc n) f (b ∷ bs) seq d (suc q) h =
    let rest : Bytes = b ∷ bs in
    let shorter : length (drop cont_size rest) ≤ cont_size * q =
      omega (arith, length-drop cont_size rest, h) in
    ground (
      arith,
      send_frame-sent f d,
      send_frames-sent n (cont_frame d.channel seq (take cont_size rest)) (drop cont_size rest)
          ((seq + 1) % 256) (send_frame f d).1 q shorter,
    )

send_command-sent :
    (cmd : ℕ) (bytes : Bytes) (d : HidDevice)
    → length bytes ≤ max_data_size
    → length (send_command cmd bytes d).1.sent ≤ length d.sent + 129
unfolding send_command
send_command-sent cmd bytes d h =
    let few : length (drop init_size bytes) ≤ cont_size * 128 =
      omega (arith, length-drop init_size bytes, h) in
    omega (
      arith,
      send_frames-sent (suc (length bytes))
          (init_frame d.channel (bit_or 0x80 cmd) (length bytes) (take init_size bytes))
          (drop init_size bytes) 0 d 128 few,
    )

-- The four ways out of an exchange.
on_each_way :
    {A : Type 0} (P : A → Type 0) (large bad_send bad_receive : Bool) (e s r last : A)
    → P e
    → (large ≡ false → P s × P r × P last)
    → P (if large then e else if bad_send then s else if bad_receive then r else last)
on_each_way P true bad_send bad_receive e s r last p q = p
on_each_way P false true bad_receive e s r last p q = (q refl).0
on_each_way P false false true e s r last p q = (q refl).1
on_each_way P false false false e s r last p q = (q refl).2

finish-sent :
    (expect : Bool) (acc : Bytes) (a : Answer) (d : HidDevice)
    → (finish_exchange expect acc (a, d)).2.sent ≡ d.sent
unfolding finish_exchange
finish-sent expect acc (failed s) d = refl
finish-sent expect acc (answered cmd bytes p) d = (finish-KeepsSent expect acc bytes p cmd d).0

-- Whatever the command, the payload, the writes and the answers are, one exchange writes at most 129
-- reports: the initialization frame and the 128 sequence numbers that continuation frames have.
pub exchange_cbor_reports :
    (command : Command) (payload : Bytes) (expect : Bool) (acc : Bytes) (d : HidDevice)
    → length (exchange_cbor command payload expect acc d).2.sent ≤ length d.sent + 129
unfolding exchange_cbor
exchange_cbor_reports command payload expect acc d =
    let q = send_command ctap_hid_cbor (command_byte command ∷ payload) d in
    let r = receive_command receive_timeout ctap_hid_cbor q.1 in
    let a = keepalive_loop (suc (length r.1.wire.reads)) r.0.cmd r.0.bytes false r.1 in
    let Few : Status × Bytes × HidDevice → Type 0 = λ x. length x.2.sent ≤ length d.sent + 129 in
    let k : r.1.sent ≡ q.1.sent = (receive_command-KeepsSent receive_timeout ctap_hid_cbor q.1).0 in
    let l =
      finish-sent expect acc a.0 a.1
      ∙ (keepalive_loop-sent (suc (length r.1.wire.reads)) r.0.cmd r.0.bytes false r.1 ∙ k) in
    on_each_way Few (ltb max_data_size (1 + length payload)) (not (status_eq q.0 err_none))
      (not (status_eq r.0.status err_none)) (err_invalid_length, acc, d) (q.0, acc, q.1)
      (r.0.status, acc, r.1) (finish_exchange expect acc a) (omega arith)
      (λ fits.
        let b : length q.1.sent ≤ length d.sent + 129 =
          send_command-sent ctap_hid_cbor (command_byte command ∷ payload) d
            (ground (arith, fits)) in
        (
          b,
          subst (λ x. length x ≤ length d.sent + 129) (sym k) b,
          subst (λ x. length x ≤ length d.sent + 129) (sym l) b,
        ))
