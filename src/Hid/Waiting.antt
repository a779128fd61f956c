-- ===== src/Hid/Waiting.antt =====
-- The number of rounds of the loops that wait for an answer, src/hid/hid_device.cc.
use ctap2_test_tool.Base.{
  Bool, Bool-cases, Bytes, ap, arith, false, inl, inr, length, refl, suc, true, zero, ℕ, ◌<◌, ◌==◌,
  ◌≡◌,
}
use ctap2_test_tool.Constants.Codes.{
  KeepaliveStatus, Status, err_none, err_other, status_eq, status_error, status_processing,
  status_up_needed,
}
use ctap2_test_tool.Hid.Device.{HidDevice, Received, Wire, receive_frame, received, refused}
use ctap2_test_tool.Hid.Exchange.{Answer, failed, keepalive_loop, process_keepalive, prompt_once}
use ctap2_test_tool.Hid.Fewer.{receive_command-fewer}
use ctap2_test_tool.Hid.Frame.{Frame, ctap_hid_keepalive, receive_timeout}
use ctap2_test_tool.Hid.Init.{answers, await_answer}
use ctap2_test_tool.Hid.Receive.{Reply, receive_command}
use ctap2_test_tool.Hid.Rounds.{receive-cases, receive_frame-shrinks}
use ctap2_test_tool.Tracker.{is_touch_prompt_ignored}

await_answer_refused :
    (n m : ℕ) (challenge : Frame) (w : Wire) (s : Status)
    → (receive_frame receive_timeout w).0 ≡ refused s
    → await_answer (suc n) challenge w ≡ await_answer (suc m) challenge w
unfolding await_answer
await_answer_refused n m challenge w s e = rw (e, await_answer) refl

await_answer_congr :
    (n m : ℕ) (challenge : Frame) (w : Wire) (f : Frame)
    → (receive_frame receive_timeout w).0 ≡ received f
    → (let w' = (receive_frame receive_timeout w).1 in
        await_answer n challenge w' ≡ await_answer m challenge w')
    → await_answer (suc n) challenge w ≡ await_answer (suc m) challenge w
unfolding await_answer
await_answer_congr n m challenge w f e ih = elim (Bool-cases (answers challenge f)) [
  | inl y ↦ rw (e, await_answer, y) refl
  | inr y ↦ rw (e, await_answer, y) ih
]

-- The loop that waits for the answer of a challenge gives one result for every number of rounds
-- above the number of reads that are left.
pub await_answer-rounds :
    (n m : ℕ) (challenge : Frame) (w : Wire)
    → length w.reads < n
    → length w.reads < m
    → await_answer n challenge w ≡ await_answer m challenge w
await_answer-rounds zero m challenge w h k = absurd (omega arith)
await_answer-rounds (suc n) zero challenge w h k = absurd (omega arith)
await_answer-rounds (suc n) (suc m) challenge w h k =
    elim (receive-cases (receive_frame receive_timeout w)) [
      | inl (s, e) ↦ await_answer_refused n m challenge w s e
      | inr (f, e) ↦
          let w' : Wire = (receive_frame receive_timeout w).1 in
          let less : suc (length w'.reads) ≡ length w.reads =
            receive_frame-shrinks receive_timeout w.reads w.now f w' e in
          await_answer_congr n m challenge w f (ap (λ (p : Received × Wire). p.0) e)
            (await_answer-rounds n m challenge w' (omega arith) (omega arith))
    ]

prompt_once-wire : (p : Bool) (d : HidDevice) → (prompt_once p d).wire ≡ d.wire
unfolding prompt_once is_touch_prompt_ignored
prompt_once-wire p d = ground arith

-- What the loop does with a message that arrived, and with a keepalive status.
abbrev go_on : ℕ → Bool → Reply × HidDevice → Answer × HidDevice
go_on n p (r, d) = elim (status_eq r.status err_none) [
  | false ↦ (failed r.status, d)
  | true ↦ keepalive_loop n r.cmd r.bytes p d
]

abbrev wait_on : ℕ → ℕ → Bool → HidDevice → KeepaliveStatus → Answer × HidDevice
wait_on n cmd p d status_error = (failed err_other, d)
wait_on n cmd p d status_processing = go_on n p (receive_command receive_timeout cmd d)
wait_on n cmd p d status_up_needed =
    go_on n true (receive_command receive_timeout cmd (prompt_once p d))

go_on_congr :
    (n m : ℕ) (p : Bool) (r : Reply × HidDevice)
    → (status_eq r.0.status err_none ≡ true
        → keepalive_loop n r.0.cmd r.0.bytes p r.1 ≡ keepalive_loop m r.0.cmd r.0.bytes p r.1)
    → go_on n p r ≡ go_on m p r
go_on_congr n m p r ih = elim (Bool-cases (status_eq r.0.status err_none)) [
  | inl y ↦ rw (y, go_on) (ih y)
  | inr y ↦ rw (y, go_on) refl
]

wait_on_congr :
    (n m cmd : ℕ) (p : Bool) (d : HidDevice) (k : KeepaliveStatus)
    → ((p' : Bool) (d' : HidDevice)
        → d'.wire ≡ d.wire
        → let r = receive_command receive_timeout cmd d' in go_on n p' r ≡ go_on m p' r)
    → wait_on n cmd p d k ≡ wait_on m cmd p d k
wait_on_congr n m cmd p d status_error ih = refl
wait_on_congr n m cmd p d status_processing ih = ih p d refl
wait_on_congr n m cmd p d status_up_needed ih = ih true (prompt_once p d) (prompt_once-wire p d)

keepalive_loop_congr :
    (n m cmd : ℕ) (bytes : Bytes) (p : Bool) (d : HidDevice)
    → wait_on n cmd p d (process_keepalive bytes) ≡ wait_on m cmd p d (process_keepalive bytes)
    → keepalive_loop (suc n) cmd bytes p d ≡ keepalive_loop (suc m) cmd bytes p d
unfolding keepalive_loop
keepalive_loop_congr n m cmd bytes p d ih = elim (Bool-cases (cmd == ctap_hid_keepalive)) [
  | inr y ↦ rw (y, keepalive_loop) refl
  | inl y ↦ rw (y, keepalive_loop) ih
]

-- The loop over keepalive messages gives one result for every number of rounds above the number of
-- reads that are left.
pub keepalive_loop-rounds :
    (n m cmd : ℕ) (bytes : Bytes) (p : Bool) (d : HidDevice)
    → length d.wire.reads < n
    → length d.wire.reads < m
    → keepalive_loop n cmd bytes p d ≡ keepalive_loop m cmd bytes p d
keepalive_loop-rounds zero m cmd bytes p d h k = absurd (omega arith)
keepalive_loop-rounds (suc n) zero cmd bytes p d h k = absurd (omega arith)
keepalive_loop-rounds (suc n) (suc m) cmd bytes p d h k = keepalive_loop_congr n m cmd bytes p d (
    wait_on_congr n m cmd p d (process_keepalive bytes) (λ p' d' w.
      let r : Reply × HidDevice = receive_command receive_timeout cmd d' in
      go_on_congr n m p' r (λ y.
        let less : length r.1.wire.reads < length d'.wire.reads =
          receive_command-fewer receive_timeout cmd d' y in
        let same : length d'.wire.reads ≡ length d.wire.reads =
          ap (λ (x : Wire). length x.reads) w in
        keepalive_loop-rounds n m r.0.cmd r.0.bytes p' r.1 (omega (arith, less, same, h))
          (omega (arith, less, same, k)))))
