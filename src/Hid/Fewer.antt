-- ===== src/Hid/Fewer.antt =====
-- How many reads the receiving functions of src/hid/hid_device.cc leave.
use ctap2_test_tool.Base.{
  Bool-cases, Bytes, List, [], ap, arith, false, get_or, inl, inr, length, min, not, refl, subst,
  suc, take, true, zero, ℕ, ◌&&◌, ◌+◌, ◌-◌, ◌<◌, ◌==◌, ◌||◌, ◌∷◌, ◌≡◌, ◌≤◌,
}
use ctap2_test_tool.Constants.Codes.{err_none, status_byte, status_eq}
use ctap2_test_tool.Hid.Device.{
  HidDevice, ReadEvent, ReadOutcome, Received, Wire, read_bytes, read_failed, read_result,
  receive_event, receive_frame, received, refused,
}
use ctap2_test_tool.Hid.Frame.{
  Frame, frame_size, init_data, init_size, is_init_type, masked_seq, payload_length,
}
use ctap2_test_tool.Hid.Receive.{first_frame, receive_command, receive_payload, rest_frames}
use ctap2_test_tool.Hid.Rounds.{receive-cases, receive_frame-shrinks}
use ctap2_test_tool.Hid.Status.{byte_to_status}

receive_event-fewer :
    (timeout : ℕ) (es : List ReadEvent) (now : ℕ)
    → length (receive_event timeout es now).1.reads ≤ length es
unfolding receive_event
receive_event-fewer timeout [] now = ground arith
receive_event-fewer timeout (e ∷ es) now = ground arith

receive_frame-fewer :
    (timeout : ℕ) (w : Wire) → length (receive_frame timeout w).1.reads ≤ length w.reads
unfolding receive_frame
receive_frame-fewer timeout w = ground (arith, receive_event-fewer timeout w.reads w.now)

first_frame-fewer :
    (n channel end_time : ℕ) (w w' : Wire) (f : Frame)
    → first_frame n channel end_time w ≡ (received f, w')
    → length w'.reads < length w.reads
unfolding first_frame
first_frame-fewer zero channel end_time w w' f e = ground arith
first_frame-fewer (suc n) channel end_time w w' f e =
    elim (receive-cases (receive_frame (end_time - w.now) w)) [
      | inl (s, r) ↦ ground (arith, r)
      | inr (g, r) ↦
          let less =
            receive_frame-shrinks (end_time - w.now) w.reads w.now g
              (receive_frame (end_time - w.now) w).1 r in
          ground (
            arith,
            less,
            r,
            first_frame-fewer n channel end_time (receive_frame (end_time - w.now) w).1 w' f,
          )
    ]

rest_frames_bound :
    (n channel end_time total seq : ℕ) (acc : Bytes) (w : Wire) (bound : ℕ)
    → length w.reads ≤ bound
    → (let w' = (receive_frame (end_time - w.now) w).1 in length w'.reads ≤ bound)
    → ((total' seq' : ℕ) (acc' : Bytes)
        → let w' = (receive_frame (end_time - w.now) w).1 in
          length (rest_frames n channel end_time total' seq' acc' w').2.reads ≤ bound)
    → length (rest_frames (suc n) channel end_time total seq acc w).2.reads ≤ bound
unfolding rest_frames
rest_frames_bound n channel end_time total seq acc w bound h h' ih =
    elim (Bool-cases (total == 0)) [
      | inl z ↦ rw (z, rest_frames) h
      | inr z ↦ elim (receive-cases (receive_frame (end_time - w.now) w)) [
        | inl (s, e) ↦ rw (z, rest_frames, e) h'
        | inr (f, e) ↦
            let e0 : (receive_frame (end_time - w.now) w).0 ≡ received f =
              ap (λ (p : Received × Wire). p.0) e in
            elim (Bool-cases (f.cid == channel)) [
              | inr q ↦ rw (z, rest_frames, e0, q) (ih total seq acc)
              | inl q ↦ elim (Bool-cases (is_init_type f || not (masked_seq f == seq))) [
                | inl v ↦ rw (z, rest_frames, e0, q, v) h'
                | inr v ↦ rw (z, rest_frames, e0, q, v) (ih _ _ _)
              ]
            ]
      ]
    ]

rest_frames-fewer :
    (n channel end_time total seq : ℕ) (acc : Bytes) (w : Wire)
    → length (rest_frames n channel end_time total seq acc w).2.reads ≤ length w.reads
unfolding rest_frames
rest_frames-fewer zero channel end_time total seq acc w = ground arith
rest_frames-fewer (suc n) channel end_time total seq acc w =
    let w' : Wire = (receive_frame (end_time - w.now) w).1 in
    let less : length w'.reads ≤ length w.reads = receive_frame-fewer (end_time - w.now) w in
    rest_frames_bound n channel end_time total seq acc w (length w.reads) (omega arith) less
      (λ t s a.
        let ih : length (rest_frames n channel end_time t s a w').2.reads ≤ length w'.reads =
          rest_frames-fewer n channel end_time t s a w' in
        omega (arith, ih, less))

byte_to_status-wire : (b : ℕ) (d : HidDevice) → (byte_to_status b d).1.wire ≡ d.wire
unfolding byte_to_status
byte_to_status-wire b d = ground arith

receive_payload-fewer :
    (f : Frame) (cmd end_time : ℕ) (d : HidDevice)
    → length (receive_payload f cmd end_time d).1.wire.reads ≤ length d.wire.reads
unfolding receive_payload
receive_payload-fewer f cmd end_time d =
    let total_len = payload_length f in
    let frame_len = min init_size total_len in
    ground (
      arith,
      byte_to_status-wire (get_or (init_data f) 0 0) d,
      rest_frames-fewer (suc (length d.wire.reads)) d.channel end_time (total_len - frame_len) 0
          (take frame_len (init_data f)) d.wire,
    )

-- No frame is refused with success.
abbrev pub RefusesWith : Received → Type 0
RefusesWith (received f) = Unit
RefusesWith (refused s) = status_eq s err_none ≡ false

receive_event-RefusesWith :
    (timeout : ℕ) (es : List ReadEvent) (now : ℕ) → RefusesWith (receive_event timeout es now).0
unfolding receive_event read_result status_eq status_byte
receive_event-RefusesWith timeout [] now = refl
receive_event-RefusesWith timeout (e ∷ es) now = outcome e.outcome
  where
    outcome : (o : ReadOutcome) → RefusesWith (read_result o)
    outcome read_failed = refl
    outcome (read_bytes b) = elim (Bool-cases (length b == frame_size)) [
      | inl y ↦ rw (y, read_result) tt
      | inr y ↦ rw (y, read_result) refl
    ]

pub receive_frame-RefusesWith : (timeout : ℕ) (w : Wire) → RefusesWith (receive_frame timeout w).0
unfolding receive_frame status_eq status_byte
receive_frame-RefusesWith timeout w = elim (Bool-cases (timeout == 0)) [
  | inl y ↦ rw y refl
  | inr y ↦ rw y (receive_event-RefusesWith timeout w.reads w.now)
]

first_frame-RefusesWith :
    (n channel end_time : ℕ) (w : Wire) → RefusesWith (first_frame n channel end_time w).0
unfolding first_frame status_eq status_byte
first_frame-RefusesWith zero channel end_time w = refl
first_frame-RefusesWith (suc n) channel end_time w =
    let kept = receive_frame-RefusesWith (end_time - w.now) w in
    elim (receive-cases (receive_frame (end_time - w.now) w)) [
      | inl (s, e) ↦ rw (e, first_frame) (subst RefusesWith e kept)
      | inr (f, e) ↦
          let e0 : (receive_frame (end_time - w.now) w).0 ≡ received f =
            ap (λ (p : Received × Wire). p.0) e in
          elim (Bool-cases ((f.cid == channel) && is_init_type f)) [
            | inl y ↦ rw (e0, first_frame, y) tt
            | inr y ↦ rw (e0, first_frame, y) (first_frame-RefusesWith n channel end_time _)
          ]
    ]

-- A message that is received takes a read.
pub receive_command-fewer :
    (timeout cmd : ℕ) (d : HidDevice)
    → status_eq (receive_command timeout cmd d).0.status err_none ≡ true
    → length (receive_command timeout cmd d).1.wire.reads < length d.wire.reads
unfolding receive_command
receive_command-fewer timeout cmd d =
    let n = suc (length d.wire.reads) in
    let first = first_frame n d.channel (d.wire.now + timeout) d.wire in
    let kept = first_frame-RefusesWith n d.channel (d.wire.now + timeout) d.wire in
    elim (receive-cases first) [
      | inl (s, e) ↦
          let bad : status_eq s err_none ≡ false = subst RefusesWith e kept in
          rw (e, receive_command) (λ ok. ground (arith, ok, bad))
      | inr (f, e) ↦
          let fewer : length first.1.reads < length d.wire.reads =
            first_frame-fewer n d.channel (d.wire.now + timeout) d.wire first.1 f e in
          let less =
            receive_payload-fewer f cmd (d.wire.now + timeout) (record d { wire = first.1 }) in
          let e0 : first.0 ≡ received f = ap (λ (p : Received × Wire). p.0) e in
          rw (e0, receive_command) (λ ok. omega (arith, fewer, less))
    ]
