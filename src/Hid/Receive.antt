-- ===== src/Hid/Receive.antt =====
-- `ReceiveCommand`: waiting for an initialization frame of the own channel, then collecting the
-- continuation frames. Frames of other channels are passed over.
-- The loop before the first frame. Each round takes one event off the list of reads, and an empty
-- list gives a timeout, so a number of rounds above the length of the list is enough.
use ctap2_test_tool.Base.{
  Bytes, [], false, get_or, if◌then◌else◌, length, ltb, min, not, suc, take, true, zero, ℕ, ◌%◌,
  ◌&&◌, ◌++◌, ◌+◌, ◌-◌, ◌==◌, ◌||◌,
}
use ctap2_test_tool.Constants.Codes.{
  Status, err_invalid_length, err_invalid_seq, err_none, err_timeout,
}
use ctap2_test_tool.Hid.Device.{HidDevice, Received, Wire, receive_frame, received, refused}
use ctap2_test_tool.Hid.Frame.{
  Frame, cont_data, cont_size, ctap_hid_error, frame_type, init_data, init_size, is_init_type,
  masked_seq, max_data_size, payload_length,
}
use ctap2_test_tool.Hid.Status.{byte_to_status}

unfoldable pub first_frame : ℕ → ℕ → ℕ → Wire → Received × Wire
first_frame zero channel end_time w = (refused err_timeout, w)
first_frame (suc fuel) channel end_time w =
    let (r, w') = receive_frame (end_time - w.now) w in
    elim r [
      | refused s ↦ (refused s, w')
      | received f ↦ elim ((f.cid == channel) && is_init_type f) [
        | true ↦ (received f, w')
        | false ↦ first_frame fuel channel end_time w'
      ]
    ]

-- The loop over the continuation frames, with the bytes that are missing, the next sequence
-- number and the bytes collected. The rounds are counted as above.
unfoldable pub rest_frames : ℕ → ℕ → ℕ → ℕ → ℕ → Bytes → Wire → Status × Bytes × Wire
rest_frames zero channel end_time total_len seq bytes w = (err_timeout, bytes, w)
rest_frames (suc fuel) channel end_time total_len seq bytes w = elim (total_len == 0) [
  | true ↦ (err_none, bytes, w)
  | false ↦
      let (r, w') = receive_frame (end_time - w.now) w in
      elim r [
        | refused s ↦ (s, bytes, w')
        | received f ↦ elim (f.cid == channel) [
          | false ↦ rest_frames fuel channel end_time total_len seq bytes w'
          | true ↦ elim (is_init_type f || not (masked_seq f == seq)) [
            | true ↦ (err_invalid_seq, bytes, w')
            | false ↦
                rest_frames fuel channel end_time (total_len - min cont_size total_len)
                  ((seq + 1) % 256) (bytes ++ take (min cont_size total_len) (cont_data f)) w'
          ]
        ]
      ]
]

-- What a call leaves in its return value and its two output parameters.
pub record Reply : Type 0 where
  pub status : Status
  pub cmd : ℕ
  pub bytes : Bytes

-- What follows the first frame.
unfoldable pub receive_payload : Frame → ℕ → ℕ → HidDevice → Reply × HidDevice
receive_payload f cmd end_time d =
    let (s, d') = byte_to_status (get_or (init_data f) 0 0) d in
    let total_len = payload_length f in
    let frame_len = min init_size total_len in
    let (s', bytes, w) =
      rest_frames (suc (length d.wire.reads)) d.channel end_time (total_len - frame_len) 0
        (take frame_len (init_data f)) d.wire in
    if frame_type f == ctap_hid_error
    then (record { status = s; cmd = cmd; bytes = [] }, d')
    else if ltb max_data_size total_len
    then (record { status = err_invalid_length; cmd = frame_type f; bytes = [] }, d)
    else (record { status = s'; cmd = frame_type f; bytes = bytes }, record d { wire = w })

unfoldable pub receive_command : ℕ → ℕ → HidDevice → Reply × HidDevice
receive_command timeout cmd d =
    let end_time = d.wire.now + timeout in
    let (r, w) = first_frame (suc (length d.wire.reads)) d.channel end_time d.wire in
    elim r [
      | refused s ↦ (record { status = s; cmd = cmd; bytes = [] }, record d { wire = w })
      | received f ↦ receive_payload f cmd end_time (record d { wire = w })
    ]
