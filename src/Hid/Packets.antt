-- ===== src/Hid/Packets.antt =====
-- The frames of one message, what the sender writes, and one step of the receiver's loops.
use ctap2_test_tool.Base.{
  Bytes, List, [], ap, append_assoc, arith, bit_or, drop, false, is_empty, length, length-drop, map,
  refl, suc, take, true, zero, ℕ, ◌%◌, ◌++◌, ◌+◌, ◌∙◌, ◌∷◌, ◌≡◌, ◌≤◌,
}
use ctap2_test_tool.Constants.Codes.{err_none, status_byte, status_eq}
use ctap2_test_tool.Hid.Device.{HidDevice, send_frame}
use ctap2_test_tool.Hid.Frame.{Frame, cont_frame, cont_size, init_frame, init_size, to_wire}
use ctap2_test_tool.Hid.Send.{send_command, send_frames}

-- The continuation frames that carry the bytes.
unfoldable pub cont_frames : ℕ → ℕ → Bytes → ℕ → List Frame
cont_frames zero channel rest seq = []
cont_frames (suc fuel) channel rest seq = elim (is_empty rest) [
  | true ↦ []
  | false ↦
      cont_frame channel seq (take cont_size rest)
      ∷ cont_frames fuel channel (drop cont_size rest) ((seq + 1) % 256)
]

-- A message as frames on a channel.
unfoldable pub packets : ℕ → ℕ → Bytes → List Frame
packets channel cmd bytes =
    init_frame channel (bit_or 0x80 cmd) (length bytes) (take init_size bytes)
    ∷ cont_frames (length bytes) channel (drop init_size bytes) 0

-- The report that `hid_write` is given for a frame.
abbrev pub report : Frame → Bytes
report f = 0 ∷ to_wire f

send_frame-writes :
    (f : Frame) (d : HidDevice)
    → d.writes ≡ []
    → send_frame f d ≡ (err_none, record d { sent = d.sent ++ report f ∷ []; writes = [] })
unfolding send_frame
send_frame-writes f d e = rw e refl

send_frames_last :
    (fuel : ℕ) (frame : Frame) (seq : ℕ) (d d' : HidDevice)
    → send_frame frame d ≡ (err_none, d')
    → send_frames (suc fuel) frame [] seq d ≡ (err_none, d')
unfolding send_frames status_eq status_byte
send_frames_last fuel frame seq d d' e = rw e refl

send_frames_more :
    (fuel : ℕ) (frame : Frame) (rest : Bytes) (seq : ℕ) (d d' : HidDevice)
    → send_frame frame d ≡ (err_none, d')
    → is_empty rest ≡ false
    → send_frames (suc fuel) frame rest seq d
      ≡ send_frames fuel
          (cont_frame d.channel seq (take cont_size rest))
          (drop cont_size rest)
          ((seq + 1) % 256)
          d'
unfolding send_frames status_eq status_byte
send_frames_more fuel frame rest seq d d' e n = rw (e, n) refl

pub cont_frames_more :
    (fuel channel : ℕ) (rest : Bytes) (seq : ℕ)
    → is_empty rest ≡ false
    → cont_frames (suc fuel) channel rest seq
      ≡ cont_frame channel seq (take cont_size rest)
        ∷ cont_frames fuel channel (drop cont_size rest) ((seq + 1) % 256)
unfolding cont_frames
cont_frames_more fuel channel rest seq n = rw (n, cont_frames) refl

pub cont_frames-nil : (fuel channel seq : ℕ) → cont_frames fuel channel [] seq ≡ []
unfolding cont_frames
cont_frames-nil zero channel seq = refl
cont_frames-nil (suc fuel) channel seq = refl

-- The sender writes the frames of the message, in order, and reports success.
send_frames-packets :
    (fuel : ℕ) (frame : Frame) (rest : Bytes) (seq : ℕ) (d : HidDevice)
    → d.writes ≡ []
    → length rest ≤ fuel
    → send_frames (suc fuel) frame rest seq d ≡ (
      err_none,
      record d {
        sent = d.sent ++ map report (frame ∷ cont_frames fuel d.channel rest seq);
        writes = [];
      },
    )
send_frames-packets fuel frame [] seq d e h =
    rw (cont_frames-nil fuel d.channel seq)
      (send_frames_last fuel frame seq d _ (send_frame-writes frame d e))
send_frames-packets zero frame (b ∷ bs) seq d e h = absurd (omega arith)
send_frames-packets (suc fuel) frame (b ∷ bs) seq d e h =
    rw (cont_frames_more fuel d.channel (b ∷ bs) seq refl) (
      send_frames_more (suc fuel) frame (b ∷ bs) seq d _ (send_frame-writes frame d e) refl
      ∙ (send_frames-packets fuel _ (drop cont_size (b ∷ bs)) _ _ refl
            (omega (arith, length-drop cont_size (b ∷ bs)))
          ∙ ap (λ (l : List Bytes). (err_none, record d { sent = l; writes = [] }))
              (append_assoc d.sent (report frame ∷ []) _)))

-- When every write is accepted, `SendCommand` reports success and has written exactly the frames
-- of the message after the earlier reports, and it changes nothing else.
pub send_command-packets :
    (cmd : ℕ) (bytes : Bytes) (d : HidDevice)
    → d.writes ≡ []
    → send_command cmd bytes d ≡ (
      err_none,
      record d { sent = d.sent ++ map report (packets d.channel cmd bytes); writes = [] },
    )
unfolding send_command packets
send_command-packets cmd bytes d e =
    send_frames-packets (length bytes) _ (drop init_size bytes) 0 d e
      (omega (arith, length-drop init_size bytes))
