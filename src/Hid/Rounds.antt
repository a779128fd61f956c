-- ===== src/Hid/Rounds.antt =====
-- The number of rounds that the receiver's loops are given, src/hid/hid_device.cc.
use ctap2_test_tool.Base.{
  Bool, Bool-cases, Bytes, List, [], ap, arith, false, inl, inr, length, not, refl, suc, true, zero,
  ℕ, ◌&&◌, ◌-◌, ◌<◌, ◌==◌, ◌||◌, ◌∷◌, ◌≡◌, ◌⊎◌,
}
use ctap2_test_tool.Constants.Codes.{Status}
use ctap2_test_tool.Hid.Device.{ReadEvent, Received, Wire, receive_frame, received, refused}
use ctap2_test_tool.Hid.Frame.{Frame, is_init_type, masked_seq}
use ctap2_test_tool.Hid.Receive.{first_frame, rest_frames}

-- A frame that is received takes one read.
pub receive_frame-shrinks :
    (timeout : ℕ) (es : List ReadEvent) (now : ℕ) (f : Frame) (w' : Wire)
    → receive_frame timeout (record { reads = es; now = now }) ≡ (received f, w')
    → suc (length w'.reads) ≡ length es
unfolding receive_frame
receive_frame-shrinks timeout [] now f w' e = ground arith
receive_frame-shrinks timeout (x ∷ es) now f w' e = ground arith

pub receive-cases :
    (p : Received × Wire)
    → ((s : Status) × (p.0 ≡ refused s)) ⊎ ((f : Frame) × (p ≡ (received f, p.1)))
receive-cases (received f, w) = inr (f, refl)
receive-cases (refused s, w) = inl (s, refl)

module _ (channel end_time : ℕ) where
  first_frame_refused :
      (n m : ℕ) (w : Wire) (s : Status)
      → (receive_frame (end_time - w.now) w).0 ≡ refused s
      → first_frame (suc n) channel end_time w ≡ first_frame (suc m) channel end_time w
  unfolding first_frame
  first_frame_refused n m w s e = rw (e, first_frame) refl

  first_frame_congr :
      (n m : ℕ) (w : Wire) (f : Frame)
      → (receive_frame (end_time - w.now) w).0 ≡ received f
      → (let w' = (receive_frame (end_time - w.now) w).1 in
          first_frame n channel end_time w' ≡ first_frame m channel end_time w')
      → first_frame (suc n) channel end_time w ≡ first_frame (suc m) channel end_time w
  unfolding first_frame
  first_frame_congr n m w f e ih =
      rw (e, first_frame) (split ((f.cid == channel) && is_init_type f))
    where
      split :
          (b : Bool)
          → let w' = (receive_frame (end_time - w.now) w).1 in
            ◌≡◌ {A = Received × Wire}
              (elim b [ true ↦ (received f, w') | false ↦ first_frame n channel end_time w' ])
              (elim b [ true ↦ (received f, w') | false ↦ first_frame m channel end_time w' ])
      split true = refl
      split false = ih

  -- The loop for the first frame gives one result for every number of rounds above the number of
  -- reads that are left.
  pub first_frame-rounds :
      (n m : ℕ) (w : Wire)
      → length w.reads < n
      → length w.reads < m
      → first_frame n channel end_time w ≡ first_frame m channel end_time w
  first_frame-rounds zero m w h k = absurd (omega arith)
  first_frame-rounds (suc n) zero w h k = absurd (omega arith)
  first_frame-rounds (suc n) (suc m) w h k =
      elim (receive-cases (receive_frame (end_time - w.now) w)) [
        | inl (s, e) ↦ first_frame_refused n m w s e
        | inr (f, e) ↦
            let w' : Wire = (receive_frame (end_time - w.now) w).1 in
            let less : suc (length w'.reads) ≡ length w.reads =
              receive_frame-shrinks (end_time - w.now) w.reads w.now f w' e in
            first_frame_congr n m w f (ap (λ (p : Received × Wire). p.0) e)
              (first_frame-rounds n m w' (omega arith) (omega arith))
      ]

  rest_frames_refused :
      (n m total seq : ℕ) (acc : Bytes) (w : Wire) (s : Status)
      → (receive_frame (end_time - w.now) w).0 ≡ refused s
      → rest_frames (suc n) channel end_time total seq acc w
        ≡ rest_frames (suc m) channel end_time total seq acc w
  unfolding rest_frames
  rest_frames_refused n m total seq acc w s e = elim (Bool-cases (total == 0)) [
    | inl z ↦ rw (z, rest_frames) refl
    | inr z ↦ rw (z, rest_frames, e) refl
  ]

  rest_frames_congr :
      (n m total seq : ℕ) (acc : Bytes) (w : Wire) (f : Frame)
      → (receive_frame (end_time - w.now) w).0 ≡ received f
      → ((total' seq' : ℕ) (acc' : Bytes)
          → let w' = (receive_frame (end_time - w.now) w).1 in
            rest_frames n channel end_time total' seq' acc' w'
            ≡ rest_frames m channel end_time total' seq' acc' w')
      → rest_frames (suc n) channel end_time total seq acc w
        ≡ rest_frames (suc m) channel end_time total seq acc w
  unfolding rest_frames
  rest_frames_congr n m total seq acc w f e ih = elim (Bool-cases (total == 0)) [
    | inl z ↦ rw (z, rest_frames) refl
    | inr z ↦ elim (Bool-cases (f.cid == channel)) [
      | inr q ↦ rw (z, rest_frames, e, q) (ih total seq acc)
      | inl q ↦ elim (Bool-cases (is_init_type f || not (masked_seq f == seq))) [
        | inl v ↦ rw (z, rest_frames, e, q, v) refl
        | inr v ↦ rw (z, rest_frames, e, q, v) (ih _ _ _)
      ]
    ]
  ]

  -- The loop over the continuation frames gives one result for every number of rounds above the
  -- number of reads that are left.
  pub rest_frames-rounds :
      (n m total seq : ℕ) (acc : Bytes) (w : Wire)
      → length w.reads < n
      → length w.reads < m
      → rest_frames n channel end_time total seq acc w
        ≡ rest_frames m channel end_time total seq acc w
  rest_frames-rounds zero m total seq acc w h k = absurd (omega arith)
  rest_frames-rounds (suc n) zero total seq acc w h k = absurd (omega arith)
  rest_frames-rounds (suc n) (suc m) total seq acc w h k =
      elim (receive-cases (receive_frame (end_time - w.now) w)) [
        | inl (s, e) ↦ rest_frames_refused n m total seq acc w s e
        | inr (f, e) ↦
            let w' : Wire = (receive_frame (end_time - w.now) w).1 in
            let less : suc (length w'.reads) ≡ length w.reads =
              receive_frame-shrinks (end_time - w.now) w.reads w.now f w' e in
            rest_frames_congr n m total seq acc w f (ap (λ (p : Received × Wire). p.0) e)
              (λ t s a. rest_frames-rounds n m t s a w' (omega arith) (omega arith))
      ]
