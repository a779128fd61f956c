-- ===== src/Hid/RoundTrip.antt =====
-- Frames on their way from `SendCommand` to `ReceiveCommand`.
use ctap2_test_tool.Base.{
  Bytes, List, [], ap, append-nil, append_assoc, arith, drop, false, length, length-drop,
  length-take, low_byte, min, refl, subst, suc, sym, take, take-append-drop, true, zero, ℕ, ◌%◌,
  ◌*◌, ◌++◌, ◌+◌, ◌-◌, ◌<◌, ◌==◌, ◌^◌, ◌∙◌, ◌∷◌, ◌≡◌, ◌≢◌, ◌≤◌,
}
use ctap2_test_tool.Constants.Codes.{err_none}
use ctap2_test_tool.Hid.Device.{
  ReadEvent, Received, Wire, read_bytes, read_result, receive_frame, received,
}
use ctap2_test_tool.Hid.Frame.{
  Frame, cont_data, cont_frame, cont_size, frame_size, from_wire, from_wire-to_wire, is_init_type,
  length-padded, length-to_wire, masked_seq, take-padded, to_wire,
}
use ctap2_test_tool.Hid.Packets.{cont_frames, cont_frames-nil, cont_frames_more}
use ctap2_test_tool.Hid.Receive.{first_frame, rest_frames}

-- The reads deliver the frames in order, each as the 64 bytes that were written, with frames of
-- other channels in between; whatever comes after the last one is free.
pub data Delivers (channel : ℕ) : List Frame → List ReadEvent → Type 0 where
  no_more : (es : List ReadEvent) → Delivers channel [] es
  arrives :
      {f : Frame} {fs : List Frame} {e : ReadEvent} {es : List ReadEvent}
      → e.outcome ≡ read_bytes (to_wire f)
      → Delivers channel fs es
      → Delivers channel (f ∷ fs) (e ∷ es)
  foreign :
      (b : Bytes) {fs : List Frame} {e : ReadEvent} {es : List ReadEvent}
      → e.outcome ≡ read_bytes b
      → length b ≡ frame_size
      → (from_wire b).cid ≢ channel
      → Delivers channel fs es
      → Delivers channel fs (e ∷ es)

-- The time that all reads take together.
abbrev pub total_elapsed : List ReadEvent → ℕ
total_elapsed [] = 0
total_elapsed (e ∷ es) = e.elapsed + total_elapsed es

pub receive_frame-read :
    (timeout : ℕ) (b : Bytes) (e : ReadEvent) (es : List ReadEvent) (now : ℕ)
    → 0 < timeout
    → e.outcome ≡ read_bytes b
    → length b ≡ frame_size
    → receive_frame timeout (record { reads = e ∷ es; now = now })
      ≡ (received (from_wire b), record { reads = es; now = now + e.elapsed })
unfolding receive_frame read_result
receive_frame-read timeout b e es now t o l = rw o (ground arith)

module _ (channel end_time : ℕ) where
  rest_frames_foreign :
      (n total seq : ℕ) (acc : Bytes) (w w' : Wire) (f : Frame)
      → 0 < total
      → receive_frame (end_time - w.now) w ≡ (received f, w')
      → f.cid ≢ channel
      → rest_frames (suc n) channel end_time total seq acc w
        ≡ rest_frames n channel end_time total seq acc w'
  unfolding rest_frames
  rest_frames_foreign n total seq acc w w' f t r c =
      let z : (total == 0) ≡ false = ground arith in
      let q : (f.cid == channel) ≡ false = ground arith in
      rw (z, rest_frames, r, q)
        (ap (λ (p : Received × Wire). rest_frames n channel end_time total seq acc p.1) r)

  rest_frames_own :
      (n total seq : ℕ) (acc : Bytes) (w w' : Wire) (f : Frame)
      → 0 < total
      → receive_frame (end_time - w.now) w ≡ (received f, w')
      → f.cid ≡ channel
      → is_init_type f ≡ false
      → masked_seq f ≡ seq
      → rest_frames (suc n) channel end_time total seq acc w
        ≡ rest_frames n channel end_time
            (total - min cont_size total)
            ((seq + 1) % 256)
            (acc ++ take (min cont_size total) (cont_data f))
            w'
  unfolding rest_frames
  rest_frames_own n total seq acc w w' f t r c i m =
      let z : (total == 0) ≡ false = ground arith in
      let q : (f.cid == channel) ≡ true = ground arith in
      let v : (masked_seq f == seq) ≡ true = ground arith in
      rw (z, rest_frames, r, q, i, v)
        (ap
          (λ (p : Received × Wire).
            rest_frames n channel end_time (total - min cont_size total) ((seq + 1) % 256)
              (acc ++ take (min cont_size total) (cont_data f)) p.1)
          r)

  pub first_frame_foreign :
      (n : ℕ) (w w' : Wire) (f : Frame)
      → receive_frame (end_time - w.now) w ≡ (received f, w')
      → f.cid ≢ channel
      → first_frame (suc n) channel end_time w ≡ first_frame n channel end_time w'
  unfolding first_frame
  first_frame_foreign n w w' f r c =
      let q : (f.cid == channel) ≡ false = ground arith in
      rw (r, first_frame, q) (ap (λ (p : Received × Wire). first_frame n channel end_time p.1) r)

  pub first_frame_own :
      (n : ℕ) (w w' : Wire) (f : Frame)
      → receive_frame (end_time - w.now) w ≡ (received f, w')
      → f.cid ≡ channel
      → is_init_type f ≡ true
      → first_frame (suc n) channel end_time w ≡ (received f, w')
  unfolding first_frame
  first_frame_own n w w' f r c i =
      let q : (f.cid == channel) ≡ true = ground arith in
      rw (r, first_frame, q, i)
        (ap (λ (p : Received × Wire). let x : Received × Wire = (received f, p.1) in x) r)

-- How long the delivery takes.
unfoldable pub duration :
    {channel : ℕ} {fs : List Frame} {es : List ReadEvent} → Delivers channel fs es → ℕ
duration (no_more es) = 0
duration (arrives {e = e} o d) = e.elapsed + duration d
duration (foreign b {e = e} o l c d) = e.elapsed + duration d

-- A frame that carries a part of a message on a channel.
record IsCont (channel seq : ℕ) (part : Bytes) (f : Frame) : Type 0 where
  cid : f.cid ≡ channel
  size : length (to_wire f) ≡ frame_size
  kind : is_init_type f ≡ false
  number : masked_seq f ≡ seq
  payload : take (length part) (cont_data f) ≡ part

cont_frame-IsCont :
    (channel seq : ℕ) (part : Bytes)
    → length part ≤ cont_size
    → seq < 128
    → IsCont channel seq part (cont_frame channel seq part)
unfolding cont_frame is_init_type masked_seq
cont_frame-IsCont channel seq part h s = record {
  cid = refl;
  size =
      omega (arith, length-to_wire (cont_frame channel seq part), length-padded cont_size part h);
  kind = rw (low_byte seq s).0 refl;
  number = (low_byte seq s).1;
  payload = take-padded cont_size part;
}

pub receive_frame-delivered :
    (timeout : ℕ) (f : Frame) (e : ReadEvent) (es : List ReadEvent) (now : ℕ)
    → 0 < timeout
    → f.cid < 2 ^ 32
    → e.outcome ≡ read_bytes (to_wire f)
    → length (to_wire f) ≡ frame_size
    → receive_frame timeout (record { reads = e ∷ es; now = now })
      ≡ (received f, record { reads = es; now = now + e.elapsed })
receive_frame-delivered timeout f e es now t c o l =
    subst
      (λ (g : Frame).
        receive_frame timeout (record { reads = e ∷ es; now = now })
        ≡ (received g, record { reads = es; now = now + e.elapsed }))
      (from_wire-to_wire f c) (receive_frame-read timeout (to_wire f) e es now t o l)

-- One continuation frame that arrives is taken off the missing bytes.
rest_frames_arrives :
    (channel end_time n seq : ℕ) (rest acc : Bytes) (f : Frame) (e : ReadEvent)
    (es : List ReadEvent) (now : ℕ)
    → channel < 2 ^ 32
    → now < end_time
    → 0 < length rest
    → IsCont channel seq (take cont_size rest) f
    → e.outcome ≡ read_bytes (to_wire f)
    → rest_frames
        (suc n)
        channel
        end_time
        (length rest)
        seq
        acc
        (record { reads = e ∷ es; now = now })
      ≡ rest_frames n channel end_time
          (length (drop cont_size rest))
          ((seq + 1) % 256)
          (acc ++ take cont_size rest)
          (record { reads = es; now = now + e.elapsed })
rest_frames_arrives channel end_time n seq rest acc f e es now c t z i o =
    let small : f.cid < 2 ^ 32 = omega (arith, i.cid) in
    let len : length (take cont_size rest) ≡ min cont_size (length rest) =
      length-take cont_size rest in
    let left : length rest - min cont_size (length rest) ≡ length (drop cont_size rest) =
      omega (arith, length-drop cont_size rest) in
    let part : take (min cont_size (length rest)) (cont_data f) ≡ take cont_size rest =
      rw len at i.payload in
    let step =
      rest_frames_own channel end_time n (length rest) seq acc _ _ f z
        (receive_frame-delivered (end_time - now) f e es now (omega arith) small o i.size) i.cid
        i.kind i.number in
    rw part at (rw left at step)

pub rest_frames-Delivers :
    (channel end_time : ℕ) {fs : List Frame} {es : List ReadEvent} (dl : Delivers channel fs es)
    (fuel n seq : ℕ) (rest acc : Bytes) (now : ℕ)
    → channel < 2 ^ 32
    → fs ≡ cont_frames fuel channel rest seq
    → length rest ≤ fuel
    → length rest + seq * cont_size ≤ 128 * cont_size
    → length es < n
    → now + duration dl < end_time
    → let r =
        rest_frames n channel end_time (length rest) seq acc (record { reads = es; now = now }) in
      (r.0 ≡ err_none) × (r.1 ≡ acc ++ rest)
unfolding duration
rest_frames-Delivers channel end_time dl fuel zero seq rest acc now c eq lf ls ln t =
    absurd (omega arith)
rest_frames-Delivers channel end_time (no_more es) fuel (suc n) seq [] acc now c eq lf ls ln t =
    unfold rest_frames in (refl, sym (append-nil acc))
rest_frames-Delivers channel end_time (no_more es) zero (suc n) seq (b ∷ bs) acc now c eq lf ls ln
      t =
    absurd (omega arith)
rest_frames-Delivers channel end_time (no_more es) (suc fuel) (suc n) seq (b ∷ bs) acc now c eq lf
      ls ln t =
    cc (eq, cont_frames_more fuel channel (b ∷ bs) seq refl)
rest_frames-Delivers channel end_time (arrives o dl) fuel (suc n) seq [] acc now c eq lf ls ln t =
    cc (eq, cont_frames-nil fuel channel seq)
rest_frames-Delivers channel end_time (arrives o dl) zero (suc n) seq (b ∷ bs) acc now c eq lf ls ln
      t =
    absurd (omega arith)
rest_frames-Delivers channel end_time (arrives {f} {fs} {e} {es} o dl) (suc fuel) (suc n) seq
      (b ∷ bs) acc now c eq lf ls ln t =
    let eqs : f ∷ fs
        ≡ cont_frame channel seq (take cont_size (b ∷ bs))
          ∷ cont_frames fuel channel (drop cont_size (b ∷ bs)) ((seq + 1) % 256) =
      eq ∙ cont_frames_more fuel channel (b ∷ bs) seq refl in
    let ef : f ≡ cont_frame channel seq (take cont_size (b ∷ bs)) = cc eqs in
    let efs : fs ≡ cont_frames fuel channel (drop cont_size (b ∷ bs)) ((seq + 1) % 256) = cc eqs in
    let short : length (take cont_size (b ∷ bs)) ≤ cont_size =
      omega (arith, length-take cont_size (b ∷ bs)) in
    let own : IsCont channel seq (take cont_size (b ∷ bs)) f =
      rw ef (cont_frame-IsCont channel seq (take cont_size (b ∷ bs)) short (omega arith)) in
    rw
      (rest_frames_arrives channel end_time n seq (b ∷ bs) acc f e es now c (omega arith)
        (omega arith) own o)
      (let ih =
          rest_frames-Delivers channel end_time dl fuel n ((seq + 1) % 256)
            (drop cont_size (b ∷ bs)) (acc ++ take cont_size (b ∷ bs)) (now + e.elapsed) c efs
            (omega (arith, length-drop cont_size (b ∷ bs)))
            (omega (arith, length-drop cont_size (b ∷ bs))) (omega arith) (omega arith) in
        (
          ih.0,
          ih.1
              ∙ (append_assoc acc (take cont_size (b ∷ bs)) (drop cont_size (b ∷ bs))
                  ∙ ap (◌++◌ acc) (take-append-drop cont_size (b ∷ bs))),
        ))
rest_frames-Delivers channel end_time (foreign b' {e = e} {es = es} o l ne dl) fuel (suc n) seq []
      acc now c eq lf ls ln t =
    unfold rest_frames in (refl, sym (append-nil acc))
rest_frames-Delivers channel end_time (foreign b' {e = e} {es = es} o l ne dl) fuel (suc n) seq
      (b ∷ bs) acc now c eq lf ls ln t =
    rw
      (rest_frames_foreign channel end_time n (length (b ∷ bs)) seq acc _ _ (from_wire b')
        (omega arith) (receive_frame-read (end_time - now) b' e es now (omega arith) o l) ne)
      (rest_frames-Delivers channel end_time dl fuel n seq (b ∷ bs) acc (now + e.elapsed) c eq lf ls
        (omega arith) (omega arith))
