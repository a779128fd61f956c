-- ===== src/Hid/Adopts.antt =====
-- What the channel of a device is taken from, src/hid/hid_device.cc.
use ctap2_test_tool.Base.{
  Bool, Bool-cases, List, [], ap, arith, done, drop, false, if◌then◌else◌, inl, inr, length,
  load_big_endian, not, refl, subst, suc, true, zero, ℕ, ◌+◌, ◌∙◌, ◌∷◌, ◌≡◌, ◌⊎◌,
}
use ctap2_test_tool.Constants.Codes.{Status, err_none, status_byte, status_eq}
use ctap2_test_tool.Hid.Device.{
  HidDevice, ReadEvent, Received, Wire, read_result, receive_event, receive_frame, received,
  refused, send_frame,
}
use ctap2_test_tool.Hid.Fewer.{RefusesWith, receive_frame-RefusesWith}
use ctap2_test_tool.Hid.Frame.{
  Frame, ctap_hid_init, id_broadcast, init_data, init_frame, init_nonce_size, receive_timeout,
}
use ctap2_test_tool.Hid.Init.{
  HidEnvironment, adopt_answer, answers, await_answer, draw_nonce, init, init_channel,
}
use ctap2_test_tool.Hid.Rounds.{receive-cases}

-- A frame that a read delivered.
abbrev pub Arrived : List ReadEvent → Frame → Type 0
Arrived [] f = ⊥
Arrived (e ∷ es) f = (read_result e.outcome ≡ received f) ⊎ Arrived es f

adopted :
    (n : ℕ) (challenge f g : Frame) (x : ReadEvent) (es : List ReadEvent) (w w' : Wire) (b : Bool)
    → read_result x.outcome ≡ received g
    → answers challenge g ≡ b
    → (await_answer n challenge w ≡ (received f, w') → (answers challenge f ≡ true) × Arrived es f)
    → ◌≡◌ {A = Received × Wire}
        (elim b [ true ↦ (received g, w) | false ↦ await_answer n challenge w ])
        (received f, w')
    → (answers challenge f ≡ true) × Arrived (x ∷ es) f
adopted n challenge f g x es w w' true q y ih e =
    let same : g ≡ f = ground (arith, e) in
    (subst (λ (h : Frame). answers challenge h ≡ true) same y, inl (q ∙ ap received same))
adopted n challenge f g x es w w' false q y ih e = ((ih e).0, inr (ih e).1)

await_answer-answers :
    (n : ℕ) (challenge f : Frame) (es : List ReadEvent) (now : ℕ) (w' : Wire)
    → await_answer n challenge (record { reads = es; now = now }) ≡ (received f, w')
    → (answers challenge f ≡ true) × Arrived es f
unfolding await_answer receive_frame receive_event
await_answer-answers zero challenge f es now w' e = ground arith
await_answer-answers (suc n) challenge f [] now w' e = ground arith
await_answer-answers (suc n) challenge f (x ∷ es) now w' e =
    step (read_result x.outcome) refl (await_answer-answers n challenge f es (now + x.elapsed) w') e
  where
    step :
        (r : Received)
        → read_result x.outcome ≡ r
        → (await_answer n challenge (record { reads = es; now = now + x.elapsed })
              ≡ (received f, w')
            → (answers challenge f ≡ true) × Arrived es f)
        → ◌≡◌ {A = Received × Wire}
            (elim r [
              | refused s ↦ (refused s, record { reads = es; now = now + x.elapsed })
              | received g ↦ elim (answers challenge g) [
                | true ↦ (received g, record { reads = es; now = now + x.elapsed })
                | false ↦ await_answer n challenge (record { reads = es; now = now + x.elapsed })
              ]
            ])
            (received f, w')
        → (answers challenge f ≡ true) × Arrived (x ∷ es) f
    step (refused s) q ih e = ground (arith, e)
    step (received g) q ih e =
        adopted n challenge f g x es (record { reads = es; now = now + x.elapsed }) w'
          (answers challenge g) q refl ih e

-- The challenge of an initialization.
abbrev pub challenge_of : HidEnvironment → HidDevice → Frame
challenge_of env d =
    init_frame id_broadcast ctap_hid_init init_nonce_size
      (draw_nonce env.rand_r init_nonce_size d.seed).0

await_answer-RefusesWith :
    (n : ℕ) (challenge : Frame) (w : Wire) → RefusesWith (await_answer n challenge w).0
unfolding await_answer status_eq status_byte
await_answer-RefusesWith zero challenge w = refl
await_answer-RefusesWith (suc n) challenge w =
    let kept = receive_frame-RefusesWith receive_timeout w in
    elim (receive-cases (receive_frame receive_timeout w)) [
      | inl (s, e) ↦ rw (e, await_answer) (subst RefusesWith e kept)
      | inr (f, e) ↦
          let e0 : (receive_frame receive_timeout w).0 ≡ received f =
            ap (λ (p : Received × Wire). p.0) e in
          elim (Bool-cases (answers challenge f)) [
            | inl y ↦ rw (e0, await_answer, y) tt
            | inr y ↦ rw (e0, await_answer, y) (await_answer-RefusesWith n challenge _)
          ]
    ]

-- What `init_channel` makes of the result of the loop.
abbrev channel_result : Status × HidDevice → Received × Wire → Status × HidDevice
channel_result (s, d') (r, w) = if not (status_eq s err_none) then (s, d') else elim r [
  | refused s' ↦ (s', record d' { wire = w })
  | received f ↦ (err_none, adopt_answer f (record d' { wire = w }))
]

success_eq : status_eq err_none err_none ≡ true
unfolding status_eq status_byte
success_eq = refl

channel_result_done :
    (challenge : Frame) (d1 d' : HidDevice) (s : Status) (r : Received) (w : Wire)
    → RefusesWith r
    → channel_result (s, d1) (r, w) ≡ (err_none, d')
    → (f : Frame) × (r ≡ received f) × (d'.channel ≡ load_big_endian (drop 8 (init_data f)))
unfolding adopt_answer
channel_result_done challenge d1 d' s (refused s') w bad e = ground (arith, e, bad, success_eq)
channel_result_done challenge d1 d' s (received f) w bad e =
    (f, refl, ground (arith, e, success_eq))

init_channel_adopts :
    (env : HidEnvironment) (d d' : HidDevice)
    → init_channel env d ≡ (err_none, d')
    → (f : Frame) × Arrived d.wire.reads f
      × (answers (challenge_of env d) f ≡ true)
      × (d'.channel ≡ load_big_endian (drop 8 (init_data f)))
unfolding init_channel send_frame
init_channel_adopts env d d' e =
    let challenge = challenge_of env d in
    let seed = (draw_nonce env.rand_r init_nonce_size d.seed).1 in
    let sent = send_frame challenge (record d { opened = true; seed = seed }) in
    let n = suc (length sent.1.wire.reads) in
    let answer = await_answer n challenge sent.1.wire in
    let (f, r, c) =
      channel_result_done challenge sent.1 d' sent.0 answer.0 answer.1
        (await_answer-RefusesWith n challenge sent.1.wire) e in
    let same : sent.1.wire ≡ d.wire = ground arith in
    let (y, a) =
      await_answer-answers n challenge f sent.1.wire.reads sent.1.wire.now answer.1
        (λ i. (r i, answer.1)) in
    (f, subst (λ (w : Wire). Arrived w.reads f) same a, y, c)

-- `Init` succeeds only with an answer that a read delivered: a frame on the channel and of the type
-- of the challenge, with 17 bytes of payload that begin with the nonce of the challenge. The
-- channel of the device is the number behind the nonce.
pub init_adopts :
    (env : HidEnvironment) (d d' : HidDevice)
    → init env d ≡ (done err_none, d')
    → (f : Frame) × Arrived d.wire.reads f
      × (answers (challenge_of env d) f ≡ true)
      × (d'.channel ≡ load_big_endian (drop 8 (init_data f)))
unfolding init init_channel adopt_answer
init_adopts env d d' e =
    let opened_done : init_channel env (record d { opened = false }) ≡ (err_none, d') =
      ground (arith, e) in
    init_channel_adopts env (record d { opened = false }) d' opened_done
