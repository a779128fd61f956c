-- ===== src/Hid/Send.antt =====
-- `SendCommand`: a message cut into one initialization frame and continuation frames.
-- The loop: the frame to send, the bytes behind it, the next sequence number. One round for each
-- byte that is left is enough, since every further frame takes at least one.
use ctap2_test_tool.Base.{
  Bytes, bit_or, drop, if◌then◌else◌, is_empty, length, not, suc, take, zero, ℕ, ◌%◌, ◌+◌,
}
use ctap2_test_tool.Constants.Codes.{Status, err_none, status_eq}
use ctap2_test_tool.Hid.Device.{HidDevice, send_frame}
use ctap2_test_tool.Hid.Frame.{Frame, cont_frame, cont_size, init_frame, init_size}

unfoldable pub send_frames : ℕ → Frame → Bytes → ℕ → HidDevice → Status × HidDevice
send_frames zero frame rest seq d = (err_none, d)
send_frames (suc fuel) frame rest seq d =
    let (s, d') = send_frame frame d in
    let next = cont_frame d.channel seq (take cont_size rest) in
    let later = send_frames fuel next (drop cont_size rest) ((seq + 1) % 256) d' in
    if not (status_eq s err_none) then (s, d') else if is_empty rest then (err_none, d') else later

unfoldable pub send_command : ℕ → Bytes → HidDevice → Status × HidDevice
send_command cmd bytes d =
    send_frames (suc (length bytes))
      (init_frame d.channel (bit_or 0x80 cmd) (length bytes) (take init_size bytes))
      (drop init_size bytes) 0 d
