-- ===== src/Hid/Message.antt =====
-- A whole message: `SendCommand` on one side and `ReceiveCommand` on the other.
use ctap2_test_tool.Base.{
  Bytes, List, [], ap, arith, bit_or, drop, false, high_byte, length, length-drop, length-take, ltb,
  map, min, refl, subst, suc, take, take-append-drop, true, zero, ℕ, ◌++◌, ◌+◌, ◌-◌, ◌<◌, ◌==◌, ◌^◌,
  ◌∙◌, ◌∷◌, ◌≡◌, ◌≢◌, ◌≤◌,
}
use ctap2_test_tool.Constants.Codes.{Status, err_none}
use ctap2_test_tool.Hid.Device.{HidDevice, ReadEvent, Received, Wire, read_bytes, received}
use ctap2_test_tool.Hid.Frame.{
  Frame, ctap_hid_error, frame_size, frame_type, from_wire, init_data, init_frame, init_size,
  is_init_type, length-padded, length-to_wire, max_data_size, padded, payload_length, take-padded,
  to_wire,
}
use ctap2_test_tool.Hid.Packets.{cont_frames, packets, report, send_command-packets}
use ctap2_test_tool.Hid.Receive.{Reply, first_frame, receive_command, receive_payload, rest_frames}
use ctap2_test_tool.Hid.RoundTrip.{
  Delivers, arrives, duration, first_frame_foreign, first_frame_own, foreign, no_more,
  receive_frame-delivered, receive_frame-read, rest_frames-Delivers,
}
use ctap2_test_tool.Hid.Send.{send_command}

-- Where the loop for the first frame stops: the frames `fs` are still to be delivered.
abbrev Starts : (channel end_time n : ℕ) → Frame → List Frame → List ReadEvent → ℕ → ℕ → Type 0
Starts channel end_time n f fs es now later =
    (fs' : List Frame) × (es' : List ReadEvent) × (dl : Delivers channel fs' es') × (now' : ℕ)
    × (fs' ≡ fs)
    × (now' + duration dl ≡ later)
    × (first_frame n channel end_time (record { reads = es; now = now })
        ≡ (received f, record { reads = es'; now = now' }))

first_frame-Delivers :
    (channel end_time : ℕ) {gs : List Frame} {es : List ReadEvent} (dl : Delivers channel gs es)
    (f : Frame) (fs : List Frame) (n now : ℕ)
    → gs ≡ f ∷ fs
    → f.cid ≡ channel
    → channel < 2 ^ 32
    → is_init_type f ≡ true
    → length (to_wire f) ≡ frame_size
    → length es < n
    → now + duration dl < end_time
    → Starts channel end_time n f fs es now (now + duration dl)
unfolding duration
first_frame-Delivers channel end_time dl f fs zero now eq c b i l ln t = absurd (omega arith)
first_frame-Delivers channel end_time (no_more es) f fs (suc n) now eq c b i l ln t = cc
first_frame-Delivers channel end_time (arrives {f = g} {fs = hs} {e = e} {es = es} o dl) f fs
      (suc n) now eq c b i l ln t =
    let ef : g ≡ f = cc in
    let o' : e.outcome ≡ read_bytes (to_wire f) = rw (← ef) o in
    (
      hs,
      es,
      dl,
      now + e.elapsed,
      cc,
      omega arith,
      first_frame_own channel end_time n _ _ f
          (receive_frame-delivered (end_time - now) f e es now (omega arith) (rw c b) o' l) c i,
    )
first_frame-Delivers channel end_time (foreign b' {e = e} {es = es} o lb ne dl) f fs (suc n) now eq
      c b i l ln t =
    let (fs', es', dl', now', p, q, r) =
      first_frame-Delivers channel end_time dl f fs n (now + e.elapsed) eq c b i l (omega arith)
        (omega arith) in
    (
      fs',
      es',
      dl',
      now',
      p,
      omega arith,
      first_frame_foreign channel end_time n _ _ (from_wire b')
            (receive_frame-read (end_time - now) b' e es now (omega arith) o lb) ne
          ∙ r,
    )

-- What the receiver reads off the initialization frame of a message.
record IsStart (channel cmd : ℕ) (bytes : Bytes) (f : Frame) : Type 0 where
  cid : f.cid ≡ channel
  size : length (to_wire f) ≡ frame_size
  kind : is_init_type f ≡ true
  command : frame_type f ≡ cmd
  total : payload_length f ≡ length bytes
  payload : take (min init_size (length bytes)) (init_data f) ≡ take init_size bytes

init_frame-IsStart :
    (channel cmd : ℕ) (bytes : Bytes)
    → 128 ≤ cmd
    → cmd < 256
    → length bytes ≤ max_data_size
    → IsStart channel cmd bytes
        (init_frame channel (bit_or 0x80 cmd) (length bytes) (take init_size bytes))
unfolding init_frame is_init_type payload_length
init_frame-IsStart channel cmd bytes lo hi max =
    let part = take init_size bytes in
    let len : length part ≡ min init_size (length bytes) = length-take init_size bytes in
    record {
      cid = refl;
      size = omega (
        arith,
        length-to_wire (init_frame channel (bit_or 0x80 cmd) (length bytes) part),
        length-padded init_size part (omega arith),
      );
      kind = rw ((high_byte cmd lo hi).0, (high_byte cmd lo hi).1) refl;
      command = (high_byte cmd lo hi).0;
      total = omega arith;
      payload =
          subst (λ (k : ℕ). take k (padded init_size part) ≡ part) len (take-padded init_size part);
    }

receive_payload-rest :
    (f : Frame) (cmd cmd' end_time : ℕ) (bytes : Bytes) (e : HidDevice)
    → IsStart e.channel cmd bytes f
    → cmd ≢ ctap_hid_error
    → length bytes ≤ max_data_size
    → let r =
        rest_frames
          (suc (length e.wire.reads))
          e.channel
          end_time
          (length bytes - min init_size (length bytes))
          0
          (take init_size bytes)
          e.wire in
      r.0 ≡ err_none
      → r.1 ≡ bytes
      → (receive_payload f cmd' end_time e).0
        ≡ record { status = err_none; cmd = cmd; bytes = bytes }
unfolding receive_payload
receive_payload-rest f cmd cmd' end_time bytes e s ne max r0 r1 =
    let ef : (frame_type f == ctap_hid_error) ≡ false = ground (arith, s.command) in
    let sm : ltb max_data_size (length bytes) ≡ false = ground arith in
    rw (ef, s.total, sm, s.payload, r0, r1, s.command) refl

pub receive_command_after :
    (timeout cmd' : ℕ) (e : HidDevice) (f : Frame) (w : Wire) (r : Reply)
    → first_frame (suc (length e.wire.reads)) e.channel (e.wire.now + timeout) e.wire
      ≡ (received f, w)
    → (receive_payload f cmd' (e.wire.now + timeout) (record e { wire = w })).0 ≡ r
    → (receive_command timeout cmd' e).0 ≡ r
unfolding receive_command
receive_command_after timeout cmd' e f w r first rest =
    rw (first, receive_command)
      (ap
          (λ (x : Received × Wire).
            (receive_payload f cmd' (e.wire.now + timeout) (record e { wire = x.1 })).0)
          first
        ∙ rest)

pub receive_command-Delivers :
    (cmd cmd' timeout : ℕ) (bytes : Bytes) (e : HidDevice)
    → 128 ≤ cmd
    → cmd < 256
    → cmd ≢ ctap_hid_error
    → length bytes ≤ max_data_size
    → e.channel < 2 ^ 32
    → (dl : Delivers e.channel (packets e.channel cmd bytes) e.wire.reads) → duration dl < timeout
    → (receive_command timeout cmd' e).0 ≡ record { status = err_none; cmd = cmd; bytes = bytes }
unfolding packets
receive_command-Delivers cmd cmd' timeout bytes e lo hi ne max c dl t =
    let f = init_frame e.channel (bit_or 0x80 cmd) (length bytes) (take init_size bytes) in
    let s : IsStart e.channel cmd bytes f = init_frame-IsStart e.channel cmd bytes lo hi max in
    let (fs', es', dl', now', p, q, r) =
      first_frame-Delivers e.channel (e.wire.now + timeout) dl f
        (cont_frames (length bytes) e.channel (drop init_size bytes) 0) (suc (length e.wire.reads))
        e.wire.now refl s.cid c s.kind s.size (omega arith) (omega arith) in
    let rest =
      rest_frames-Delivers e.channel (e.wire.now + timeout) dl' (length bytes) (suc (length es')) 0
        (drop init_size bytes) (take init_size bytes) now' c p
        (omega (arith, length-drop init_size bytes)) (omega (arith, length-drop init_size bytes))
        (omega arith) (omega arith) in
    let left : length (drop init_size bytes) ≡ length bytes - min init_size (length bytes) =
      omega (arith, length-drop init_size bytes) in
    receive_command_after timeout cmd' e f (record { reads = es'; now = now' }) _ r
      (receive_payload-rest f cmd cmd' (e.wire.now + timeout) bytes
        (record e { wire = record { reads = es'; now = now' } }) s ne max (rw (← left) rest.0)
        (rw (← left) (rest.1 ∙ take-append-drop init_size bytes)))

-- A message of at most kMaxDataSize bytes, sent under a command byte with its top bit set that is
-- not the error command, when every write is accepted: the sender reports success, and a receiver
-- on the same 32-bit channel to which the written frames are delivered before its deadline, in
-- order but with frames of other channels anywhere between them, returns success with the same
-- command and the same bytes.
pub receive_command-send_command :
    (cmd cmd' timeout : ℕ) (bytes : Bytes) (d e : HidDevice)
    → 128 ≤ cmd
    → cmd < 256
    → cmd ≢ ctap_hid_error
    → length bytes ≤ max_data_size
    → e.channel < 2 ^ 32
    → d.writes ≡ []
    → d.channel ≡ e.channel
    → (dl : Delivers e.channel (packets e.channel cmd bytes) e.wire.reads) → duration dl < timeout
    → ((send_command cmd bytes d).0 ≡ err_none)
      × ((send_command cmd bytes d).1.sent ≡ d.sent ++ map report (packets e.channel cmd bytes))
      × ((receive_command timeout cmd' e).0
          ≡ record { status = err_none; cmd = cmd; bytes = bytes })
receive_command-send_command cmd cmd' timeout bytes d e lo hi ne max c w ch dl t =
    let sent = send_command-packets cmd bytes d w in
    (
      ap (λ (x : Status × HidDevice). x.0) sent,
      ap (λ (x : Status × HidDevice). x.1.sent) sent
          ∙ ap (λ (k : ℕ). d.sent ++ map report (packets k cmd bytes)) ch,
      receive_command-Delivers cmd cmd' timeout bytes e lo hi ne max c dl t,
    )
