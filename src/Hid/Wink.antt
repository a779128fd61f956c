-- ===== src/Hid/Wink.antt =====
-- `Wink` and error messages.
use ctap2_test_tool.Base.{
  List, [], arith, find_by, get_or, length, map, refl, subst, suc, sym, true, ℕ, ◌++◌, ◌+◌, ◌-◌,
  ◌<◌, ◌^◌, ◌∷◌, ◌≡◌,
}
use ctap2_test_tool.Constants.Codes.{err_none, status_byte, status_eq}
use ctap2_test_tool.Hid.Device.{HidDevice, ReadEvent, read_bytes, received}
use ctap2_test_tool.Hid.Exchange.{wink}
use ctap2_test_tool.Hid.Frame.{
  Frame, ctap_hid_error, ctap_hid_wink, frame_size, frame_type, init_data, is_init_type,
  receive_timeout, to_wire,
}
use ctap2_test_tool.Hid.Message.{receive_command_after}
use ctap2_test_tool.Hid.Packets.{packets, report, send_command-packets}
use ctap2_test_tool.Hid.Receive.{first_frame, receive_command, receive_payload}
use ctap2_test_tool.Hid.RoundTrip.{first_frame_own, receive_frame-delivered}
use ctap2_test_tool.Hid.Status.{byte_to_status, is_known_status_byte, status_cast}

-- A frame on the own channel is the first that arrives: it is what the loop returns.
first_frame_first :
    (n channel end_time : ℕ) (f : Frame) (e : ReadEvent) (es : List ReadEvent) (now : ℕ)
    → now < end_time
    → f.cid ≡ channel
    → channel < 2 ^ 32
    → is_init_type f ≡ true
    → length (to_wire f) ≡ frame_size
    → e.outcome ≡ read_bytes (to_wire f)
    → first_frame (suc n) channel end_time (record { reads = e ∷ es; now = now })
      ≡ (received f, record { reads = es; now = now + e.elapsed })
first_frame_first n channel end_time f e es now t c b i l o =
    first_frame_own channel end_time n _ _ f
      (receive_frame-delivered (end_time - now) f e es now (omega arith) (rw c b) o l) c i

receive_error_frame :
    (f : Frame) (cmd end_time : ℕ) (d : HidDevice)
    → frame_type f ≡ ctap_hid_error
    → get_or (init_data f) 0 0 ≡ 0
    → (receive_payload f cmd end_time d).0 ≡ record { status = err_none; cmd = cmd; bytes = [] }
unfolding receive_payload byte_to_status is_known_status_byte status_cast find_by status_byte
receive_error_frame f cmd end_time d e z = rw (e, z) refl

-- The winking device answers with an error message: `Wink` reports success when the error code is
-- zero, although no wink was confirmed.
pub wink_accepts_error_zero :
    (d : HidDevice) (f : Frame) (e : ReadEvent) (es : List ReadEvent)
    → d.writes ≡ []
    → d.channel < 2 ^ 32
    → d.wire.reads ≡ e ∷ es
    → e.outcome ≡ read_bytes (to_wire f)
    → length (to_wire f) ≡ frame_size
    → f.cid ≡ d.channel
    → frame_type f ≡ ctap_hid_error
    → get_or (init_data f) 0 0 ≡ 0
    → (wink d).0 ≡ err_none
unfolding wink status_eq status_byte
wink_accepts_error_zero d f e es w c r o l q ty z =
    let d' : HidDevice = record d {
      sent = d.sent ++ map report (packets d.channel ctap_hid_wink []);
      writes = [];
    } in
    let kind : is_init_type f ≡ true = unfold is_init_type in rw ty refl in
    let first : first_frame (suc (length d.wire.reads)) d.channel (d.wire.now + receive_timeout)
          d.wire
        ≡ (received f, record { reads = es; now = d.wire.now + e.elapsed }) =
      subst
        (λ (l : List ReadEvent).
          first_frame (suc (length l)) d.channel (d.wire.now + receive_timeout)
            (record { reads = l; now = d.wire.now })
          ≡ (received f, record { reads = es; now = d.wire.now + e.elapsed }))
        (sym r)
        (first_frame_first (length (e ∷ es)) d.channel (d.wire.now + receive_timeout) f e es
          d.wire.now (omega arith) q c kind l o) in
    let reply : (receive_command receive_timeout ctap_hid_wink d').0
        ≡ record { status = err_none; cmd = ctap_hid_wink; bytes = [] } =
      receive_command_after receive_timeout ctap_hid_wink d' f _ _ first
        (receive_error_frame f ctap_hid_wink (d.wire.now + receive_timeout) _ ty z) in
    rw (send_command-packets ctap_hid_wink [] d w, reply) refl
