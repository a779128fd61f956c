-- ===== src/Examples/Protocol.antt =====
-- A message exchange on channel 1, with a frame of another channel in between.
use ctap2_test_tool.Base.{
  Bytes, List, [], arith, false, length, load_big_endian, map, refl, replicate, true, ◌+◌, ◌∷◌, ◌≡◌,
  ◌≢◌, ◌≤◌, ◌⊎◌,
}
use ctap2_test_tool.Constants.Codes.{
  Status, authenticator_get_info, authenticator_reset, command_byte, err_none, err_other,
  status_byte,
}
use ctap2_test_tool.Hid.Bounds.{exchange_cbor_reports}
use ctap2_test_tool.Hid.Deadline.{ReadsBefore, receive_command-ReadsBefore, receive_command_reads}
use ctap2_test_tool.Hid.Device.{HidDevice, ReadEvent, read_bytes}
use ctap2_test_tool.Hid.Dialogue.{exchange_cbor_answered}
use ctap2_test_tool.Hid.Exchange.{exchange_cbor, wink}
use ctap2_test_tool.Hid.Frame.{Frame, ctap_hid_cbor, ctap_hid_wink, from_wire, init_frame, to_wire}
use ctap2_test_tool.Hid.Message.{receive_command-send_command}
use ctap2_test_tool.Hid.Packets.{cont_frames, packets, report, send_command-packets}
use ctap2_test_tool.Hid.Prompts.{exchange_cbor_prompts_once}
use ctap2_test_tool.Hid.Receive.{receive_command}
use ctap2_test_tool.Hid.RoundTrip.{Delivers, arrives, duration, foreign, no_more}
use ctap2_test_tool.Hid.Send.{send_command}
use ctap2_test_tool.Hid.Status.{byte_to_status, byte_to_status_cases, unknown_status_observation}
use ctap2_test_tool.Hid.Wink.{wink_accepts_error_zero}
use ctap2_test_tool.Tracker.{add_observation, new_device_tracker}

abbrev pub read_of : Frame → ReadEvent
read_of f = record { elapsed = 10; outcome = read_bytes (to_wire f) }

abbrev other_frame : Bytes
other_frame = replicate 64 7

abbrev pub sample_device : List ReadEvent → HidDevice
sample_device reads = record {
  wire = record { reads = reads; now = 0 };
  writes = [];
  sent = [];
  opened = true;
  channel = 1;
  seed = 0;
  prompts = 0;
  tracker = new_device_tracker;
}

-- An answer with status 0 and one more byte, behind a frame of another channel.
abbrev reply : Bytes
reply = 0 ∷ 0xa0 ∷ []

abbrev reply_frame : Frame
reply_frame = init_frame 1 0x90 2 reply

abbrev pub sample_reads : List ReadEvent
sample_reads = record { elapsed = 5; outcome = read_bytes other_frame } ∷ read_of reply_frame ∷ []

delivered : Delivers 1 (packets 1 ctap_hid_cbor reply) sample_reads
unfolding packets cont_frames init_frame to_wire from_wire load_big_endian
delivered = foreign other_frame refl refl (λ e. ground (arith, e)) (arrives refl (no_more []))

receive_command-send_command_example :
    ((send_command ctap_hid_cbor reply (sample_device [])).0 ≡ err_none)
    × ((send_command ctap_hid_cbor reply (sample_device [])).1.sent
        ≡ map report (packets 1 ctap_hid_cbor reply))
    × ((receive_command 100 ctap_hid_cbor (sample_device sample_reads)).0
        ≡ record { status = err_none; cmd = ctap_hid_cbor; bytes = reply })
unfolding delivered duration
receive_command-send_command_example =
    receive_command-send_command ctap_hid_cbor ctap_hid_cbor 100 reply (sample_device [])
      (sample_device sample_reads) (omega arith) (omega arith) (λ e. ground (arith, e))
      (omega arith) (omega arith) refl refl delivered (omega arith)

exchange_cbor_answered_example :
    let r = exchange_cbor authenticator_get_info [] false [] (sample_device sample_reads) in
    (r.0 ≡ (byte_to_status 0 (sample_device sample_reads)).0)
    × (r.1 ≡ 0xa0 ∷ [])
    × (r.2.sent ≡ map report (packets 1 ctap_hid_cbor (4 ∷ [])))
    × (r.2.prompts ≡ 0)
unfolding delivered duration command_byte
exchange_cbor_answered_example =
    exchange_cbor_answered authenticator_get_info [] false [] 0 (0xa0 ∷ [])
      (sample_device sample_reads) (omega arith) (omega arith) (omega arith) refl delivered
      (omega arith)

send_command-packets_example :
    send_command ctap_hid_wink [] (sample_device [])
    ≡ (err_none, record (sample_device []) { sent = map report (packets 1 ctap_hid_wink []) })
send_command-packets_example = send_command-packets ctap_hid_wink [] (sample_device []) refl

exchange_cbor_prompts_once_example :
    (exchange_cbor authenticator_reset [] true [] (sample_device sample_reads)).2.prompts ≤ 1
exchange_cbor_prompts_once_example =
    exchange_cbor_prompts_once authenticator_reset [] true [] (sample_device sample_reads)

byte_to_status_cases_example :
    ((s : Status) × (status_byte s ≡ 0x7e)
      × (byte_to_status 0x7e (sample_device []) ≡ (s, sample_device [])))
    ⊎ (((s : Status) → status_byte s ≢ 0x7e)
        × (byte_to_status 0x7e (sample_device []) ≡ (
          err_other,
          record (sample_device []) {
            tracker = add_observation (unknown_status_observation 0x7e) new_device_tracker;
          },
        )))
byte_to_status_cases_example = byte_to_status_cases 0x7e (sample_device [])

-- An error message whose code is zero.
abbrev error_frame : Frame
error_frame = init_frame 1 0xbf 1 (0 ∷ [])

wink_accepts_error_zero_example : (wink (sample_device (read_of error_frame ∷ []))).0 ≡ err_none
unfolding init_frame to_wire
wink_accepts_error_zero_example =
    wink_accepts_error_zero (sample_device (read_of error_frame ∷ [])) error_frame
      (read_of error_frame) [] refl (omega arith) refl refl refl refl refl refl

receive_command-ReadsBefore_example :
    ReadsBefore
      ((sample_device sample_reads).wire.now + 100)
      (sample_device sample_reads).wire
      (receive_command 100 0x90 (sample_device sample_reads)).1.wire
receive_command-ReadsBefore_example =
    receive_command-ReadsBefore 100 0x90 (sample_device sample_reads)

exchange_cbor_reports_example :
    length
      (exchange_cbor authenticator_reset
        (replicate 7608 0)
        true
        []
        (sample_device sample_reads)).2.sent
    ≤ length (sample_device sample_reads).sent + 129
exchange_cbor_reports_example =
    exchange_cbor_reports authenticator_reset (replicate 7608 0) true []
      (sample_device sample_reads)

receive_command_reads_example :
    length (sample_device sample_reads).wire.reads
    ≤ length (receive_command 100 0x90 (sample_device sample_reads)).1.wire.reads + 100
receive_command_reads_example =
    receive_command_reads 100 0x90 (sample_device sample_reads) (omega arith, (omega arith, tt))
