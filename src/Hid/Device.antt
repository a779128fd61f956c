-- ===== src/Hid/Device.antt =====
-- The state of a `HidDevice` and the two calls at the bottom of it, `SendFrame` and
-- `ReceiveFrame`. hidapi and the clock are the environment: a list of what each `hid_read_timeout`
-- will return and how long it takes, a list of what each `hid_write` will return, and the time.
use ctap2_test_tool.Base.{
  Bool, Bytes, List, [], if◌then◌else◌, length, true, ℕ, ◌++◌, ◌+◌, ◌==◌, ◌∷◌,
}
use ctap2_test_tool.Constants.Codes.{Status, err_none, err_other, err_timeout}
use ctap2_test_tool.Hid.Frame.{Frame, frame_size, from_wire, to_wire}
use ctap2_test_tool.Tracker.{DeviceTracker}

-- The bytes that a read returned (its status is their number), or the status -1.
pub data ReadOutcome : Type 0 where
  read_bytes : Bytes → ReadOutcome
  read_failed : ReadOutcome

pub record ReadEvent : Type 0 where
  pub elapsed : ℕ
  pub outcome : ReadOutcome

-- What is still to be read, and the clock in milliseconds. When nothing is left to be read the
-- device stays silent.
pub record Wire : Type 0 where
  pub reads : List ReadEvent
  pub now : ℕ

pub record HidDevice : Type 0 where
  pub wire : Wire
  -- Whether each coming `hid_write` accepts the whole report; all later ones do.
  pub writes : List Bool
  -- The reports written so far.
  pub sent : List Bytes
  -- `dev_ != nullptr`.
  pub opened : Bool
  pub channel : ℕ
  pub seed : ℕ
  -- How often `PromptUser` was called.
  pub prompts : ℕ
  pub tracker : DeviceTracker

abbrev pub next_write : List Bool → Bool
next_write [] = true
next_write (b ∷ bs) = b

abbrev pub later_writes : List Bool → List Bool
later_writes [] = []
later_writes (b ∷ bs) = bs

-- `SendFrame`: an un-numbered report, and the frame.
unfoldable pub send_frame : Frame → HidDevice → Status × HidDevice
send_frame f d =
    let d' = record d { writes = later_writes d.writes } in
    if next_write d.writes
    then (err_none, record d' { sent = d.sent ++ (0 ∷ to_wire f) ∷ [] })
    else (err_other, d')

pub data Received : Type 0 where
  received : Frame → Received
  refused : Status → Received

unfoldable pub read_result : ReadOutcome → Received
read_result (read_bytes b) =
    if length b == frame_size then received (from_wire b) else refused err_timeout
read_result read_failed = refused err_other

-- `ReceiveFrame`. The timeout is what is left until the deadline, 0 where the source's signed
-- duration is 0 or below.
unfoldable pub receive_event : ℕ → List ReadEvent → ℕ → Received × Wire
receive_event timeout [] now = (refused err_timeout, record { reads = []; now = now + timeout })
receive_event timeout (e ∷ es) now =
    (read_result e.outcome, record { reads = es; now = now + e.elapsed })

unfoldable pub receive_frame : ℕ → Wire → Received × Wire
unfolding receive_event
receive_frame timeout w =
    if timeout == 0 then (refused err_timeout, w) else receive_event timeout w.reads w.now
