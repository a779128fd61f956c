-- ===== src/Hid/Deadline.antt =====
-- When `ReceiveCommand` reads and when it stops, src/hid/hid_device.cc.
-- The reads between two states of the wire, each begun before the deadline. When nothing arrives,
-- the last of them waits until the deadline and no longer.
use ctap2_test_tool.Base.{
  Bool-cases, Bytes, List, [], ap, arith, get_or, inl, inr, length, ltb, min, not, subst, suc, sym,
  take, zero, ℕ, ◌&&◌, ◌+◌, ◌-◌, ◌<◌, ◌==◌, ◌||◌, ◌∷◌, ◌≡◌, ◌≤◌,
}
use ctap2_test_tool.Hid.Device.{HidDevice, ReadEvent, Received, Wire, receive_event, receive_frame}
use ctap2_test_tool.Hid.Frame.{
  Frame, ctap_hid_error, frame_type, init_data, init_size, is_init_type, masked_seq, max_data_size,
  payload_length,
}
use ctap2_test_tool.Hid.Receive.{first_frame, receive_command, receive_payload, rest_frames}
use ctap2_test_tool.Hid.Rounds.{receive-cases}
use ctap2_test_tool.Hid.Status.{byte_to_status}

pub data ReadsBefore (end_time : ℕ) : Wire → Wire → Type 0 where
  no_read : (w : Wire) → ReadsBefore end_time w w
  one_read :
      (e : ReadEvent) (es : List ReadEvent) (now : ℕ) (w' : Wire)
      → now < end_time
      → ReadsBefore end_time (record { reads = es; now = now + e.elapsed }) w'
      → ReadsBefore end_time (record { reads = e ∷ es; now = now }) w'
  silence :
      (now : ℕ) (w' : Wire)
      → now < end_time
      → ReadsBefore end_time (record { reads = []; now = end_time }) w'
      → ReadsBefore end_time (record { reads = []; now = now }) w'

module _ (end_time : ℕ) where
  reads_then :
      {w w' w'' : Wire}
      → ReadsBefore end_time w w'
      → ReadsBefore end_time w' w''
      → ReadsBefore end_time w w''
  reads_then (no_read w) k = k
  reads_then (one_read e es now w' h r) k = one_read e es now _ h (reads_then r k)
  reads_then (silence now w' h r) k = silence now _ h (reads_then r k)

  receive_event-ReadsBefore :
      (es : List ReadEvent) (now : ℕ)
      → now < end_time
      → ReadsBefore end_time
          (record { reads = es; now = now })
          (receive_event (end_time - now) es now).1
  unfolding receive_event
  receive_event-ReadsBefore [] now h =
      let due : end_time ≡ now + (end_time - now) = omega (arith, h) in
      silence now _ h (
        subst
          (λ t.
            ReadsBefore end_time (record { reads = []; now = end_time })
              (record { reads = []; now = t }))
          due (no_read (record { reads = []; now = end_time })))
  receive_event-ReadsBefore (e ∷ es) now h =
      one_read e es now _ h (no_read (record { reads = es; now = now + e.elapsed }))

  receive_frame-ReadsBefore :
      (w : Wire) → ReadsBefore end_time w (receive_frame (end_time - w.now) w).1
  unfolding receive_frame
  receive_frame-ReadsBefore w = elim (Bool-cases (end_time - w.now == 0)) [
    | inl z ↦ rw (z, receive_frame) (no_read w)
    | inr z ↦ rw (z, receive_frame) (receive_event-ReadsBefore w.reads w.now (ground (arith, z)))
  ]

  first_frame-ReadsBefore :
      (n channel : ℕ) (w : Wire) → ReadsBefore end_time w (first_frame n channel end_time w).1
  unfolding first_frame
  first_frame-ReadsBefore zero channel w = no_read w
  first_frame-ReadsBefore (suc n) channel w =
      let w' : Wire = (receive_frame (end_time - w.now) w).1 in
      let one : ReadsBefore end_time w w' = receive_frame-ReadsBefore w in
      elim (receive-cases (receive_frame (end_time - w.now) w)) [
        | inl (s, e) ↦ rw (e, first_frame) one
        | inr (f, e) ↦
            let e' = ap (λ (p : Received × Wire). p.0) e in
            elim (Bool-cases ((f.cid == channel) && is_init_type f)) [
              | inl y ↦ rw (e', first_frame, y) one
              | inr y ↦
                  rw (e', first_frame, y) (reads_then one (first_frame-ReadsBefore n channel w'))
            ]
      ]

  rest_frames-ReadsBefore :
      (n channel total seq : ℕ) (acc : Bytes) (w : Wire)
      → ReadsBefore end_time w (rest_frames n channel end_time total seq acc w).2
  unfolding rest_frames
  rest_frames-ReadsBefore zero channel total seq acc w = no_read w
  rest_frames-ReadsBefore (suc n) channel total seq acc w =
      let w' : Wire = (receive_frame (end_time - w.now) w).1 in
      let one : ReadsBefore end_time w w' = receive_frame-ReadsBefore w in
      let more : (t q : ℕ) (a : Bytes)
          → ReadsBefore end_time w (rest_frames n channel end_time t q a w').2 =
        λ t q a. reads_then one (rest_frames-ReadsBefore n channel t q a w') in
      elim (Bool-cases (total == 0)) [
        | inl z ↦ rw (z, rest_frames) (no_read w)
        | inr z ↦ elim (receive-cases (receive_frame (end_time - w.now) w)) [
          | inl (s, e) ↦ rw (z, rest_frames, e) one
          | inr (f, e) ↦
              let e' = ap (λ (p : Received × Wire). p.0) e in
              elim (Bool-cases (f.cid == channel)) [
                | inr c ↦ rw (z, rest_frames, e', c) (more total seq acc)
                | inl c ↦ elim (Bool-cases (is_init_type f || not (masked_seq f == seq))) [
                  | inl v ↦ rw (z, rest_frames, e', c, v) one
                  | inr v ↦ rw (z, rest_frames, e', c, v) (more _ _ _)
                ]
              ]
        ]
      ]

byte_to_status-wire : (b : ℕ) (d : HidDevice) → (byte_to_status b d).1.wire ≡ d.wire
unfolding byte_to_status
byte_to_status-wire b d = ground arith

receive_payload-ReadsBefore :
    (f : Frame) (cmd end_time : ℕ) (d : HidDevice)
    → ReadsBefore end_time d.wire (receive_payload f cmd end_time d).1.wire
unfolding receive_payload
receive_payload-ReadsBefore f cmd end_time d = elim (Bool-cases (frame_type f == ctap_hid_error)) [
  | inl y ↦
      rw (y, receive_payload)
        (subst (λ x. ReadsBefore end_time d.wire x)
          (sym (byte_to_status-wire (get_or (init_data f) 0 0) d)) (no_read d.wire))
  | inr y ↦ elim (Bool-cases (ltb max_data_size (payload_length f))) [
    | inl z ↦ rw (y, z, receive_payload) (no_read d.wire)
    | inr z ↦
        rw (y, z, receive_payload)
          (rest_frames-ReadsBefore end_time (suc (length d.wire.reads)) d.channel
            (payload_length f - min init_size (payload_length f)) 0
            (take (min init_size (payload_length f)) (init_data f)) d.wire)
  ]
]

-- `ReceiveCommand` has one deadline for all frames of a message: whatever arrives, on its own channel
-- or on others, every read begins before the timeout has passed since the call, and a read to which
-- nothing arrives ends with it.
pub receive_command-ReadsBefore :
    (timeout cmd : ℕ) (d : HidDevice)
    → ReadsBefore (d.wire.now + timeout) d.wire (receive_command timeout cmd d).1.wire
unfolding receive_command
receive_command-ReadsBefore timeout cmd d =
    let end_time : ℕ = d.wire.now + timeout in
    let p : Received × Wire = first_frame (suc (length d.wire.reads)) d.channel end_time d.wire in
    let one : ReadsBefore end_time d.wire p.1 =
      first_frame-ReadsBefore end_time _ d.channel d.wire in
    elim (receive-cases p) [
      | inl (s, e) ↦ rw (e, receive_command) one
      | inr (f, e) ↦
          rw (ap (λ (q : Received × Wire). q.0) e, receive_command)
            (reads_then end_time one
              (receive_payload-ReadsBefore f cmd end_time (record d { wire = p.1 })))
    ]

-- Every read takes at least a millisecond.
abbrev pub TakesTime : List ReadEvent → Type 0
TakesTime [] = Unit {0}
TakesTime (e ∷ es) = (1 ≤ e.elapsed) × TakesTime es

ReadsBefore-length :
    (end_time : ℕ) {w w' : Wire}
    → ReadsBefore end_time w w'
    → TakesTime w.reads
    → length w.reads ≤ length w'.reads + (end_time - w.now)
ReadsBefore-length end_time (no_read w) t = omega arith
ReadsBefore-length end_time (one_read e es now w' h r) (one, t) =
    omega (arith, h, one, ReadsBefore-length end_time r t)
ReadsBefore-length end_time (silence now w' h r) t = omega arith

-- When every read takes at least a millisecond, `ReceiveCommand` uses up at most as many of the
-- coming reads as its timeout has milliseconds, however many frames of its own channel or of others
-- would still come.
pub receive_command_reads :
    (timeout cmd : ℕ) (d : HidDevice)
    → TakesTime d.wire.reads
    → length d.wire.reads ≤ length (receive_command timeout cmd d).1.wire.reads + timeout
receive_command_reads timeout cmd d t =
    omega (
      arith,
      ReadsBefore-length (d.wire.now + timeout) (receive_command-ReadsBefore timeout cmd d) t,
    )
