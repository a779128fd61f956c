-- ===== src/Hid/Init.antt =====
-- The constructor of `HidDevice`, `Init`, and the search for a device path. hidapi's enumeration,
-- `hid_open_path` and `rand_r` are the environment.
use ctap2_test_tool.Base.{
  Bool, Bytes, List, Option, Outcome, [], bit_and, bytes_eq, check_failed, codes, done, drop, false,
  get_or, if◌then◌else◌, is_empty, length, load_big_endian, none, not, some, suc, take, true,
  undefined, zero, ℕ, ◌%◌, ◌&&◌, ◌++◌, ◌==◌, ◌∷◌,
}
use ctap2_test_tool.Constants.Codes.{Status, err_none, err_timeout, status_eq}
use ctap2_test_tool.Hid.Device.{
  HidDevice, Received, Wire, receive_frame, received, refused, send_frame,
}
use ctap2_test_tool.Hid.Frame.{
  Frame, ctap_hid_init, frame_type, id_broadcast, init_data, init_frame, init_nonce_size,
  init_resp_size, payload_length, receive_timeout,
}
use ctap2_test_tool.Tracker.{
  DeviceIdentifiers, DeviceTracker, set_capabilities, set_device_identifiers,
}

pub record HidDeviceInfo : Type 0 where
  pub path : Bytes
  pub usage_page : ℕ
  pub identifiers : DeviceIdentifiers

pub record HidEnvironment : Type 0 where
  -- What each coming `hid_enumerate` for the own vendor and product ID returns.
  pub enumerations : List (List HidDeviceInfo)
  -- Whether `hid_open_path` opens a path.
  pub opens : Bytes → Bool
  -- The number that `rand_r` returns, and the new seed.
  pub rand_r : ℕ → ℕ × ℕ

-- The loop over all devices in `ReadDeviceIdentifiers`.
unfoldable pub find_path : Bytes → List HidDeviceInfo → Option HidDeviceInfo
find_path pathname [] = none
find_path pathname (dev ∷ devs) =
    if bytes_eq dev.path pathname then some dev else find_path pathname devs

unfoldable pub read_device_identifiers : Bytes → List HidDeviceInfo → Outcome DeviceIdentifiers
read_device_identifiers pathname devs = elim (find_path pathname devs) [
  | none ↦ check_failed (codes "There was no device at path: " ++ pathname)
  | some dev ↦
      if not (dev.identifiers.vendor_id == 0) && not (dev.identifiers.product_id == 0)
      then done dev.identifiers
      else check_failed (codes "The device needs a non-zero vendor and product ID.")
]

-- The loop over the devices until one has the FIDO usage page.
unfoldable pub fido_device : List HidDeviceInfo → Option HidDeviceInfo
fido_device [] = none
fido_device (dev ∷ devs) = if dev.usage_page == 0xf1d0 then some dev else fido_device devs

unfoldable pub find_first_fido_device_path : List HidDeviceInfo → Bytes
find_first_fido_device_path devs = elim (fido_device devs) [ none ↦ [] | some dev ↦ dev.path ]

-- At most the given number of calls, until one returns a device. No answer is the null pointer.
unfoldable pub enumerate_retries : ℕ → List (List HidDeviceInfo) → List HidDeviceInfo
enumerate_retries zero es = []
enumerate_retries (suc n) [] = []
enumerate_retries (suc n) (devs ∷ es) = if is_empty devs then enumerate_retries n es else devs

abbrev pub hid_device_retries : ℕ
hid_device_retries = 10

unfoldable pub find_device_path : HidEnvironment → Outcome Bytes
find_device_path env = elim (fido_device (enumerate_retries hid_device_retries env.enumerations)) [
  | none ↦ check_failed (codes "The key with the expected vendor & product ID was not found.")
  | some dev ↦
      if is_empty dev.path
      then check_failed (codes "No path found for this device.")
      else done dev.path
]

unfoldable pub new_hid_device :
    Bytes → List HidDeviceInfo → Wire → List Bool → DeviceTracker → Outcome HidDevice
new_hid_device pathname devs wire writes tracker = elim (read_device_identifiers pathname devs) [
  | check_failed message ↦ check_failed message
  | undefined ↦ undefined
  | done ids ↦ done (record {
    wire = wire;
    writes = writes;
    sent = [];
    opened = false;
    channel = 0;
    seed = 0;
    prompts = 0;
    tracker = set_device_identifiers ids tracker;
  })
]

-- The nonce of the challenge: bytes drawn one after the other, and the seed behind them.
unfoldable pub draw_nonce : (ℕ → ℕ × ℕ) → ℕ → ℕ → Bytes × ℕ
draw_nonce rand_r zero seed = ([], seed)
draw_nonce rand_r (suc n) seed =
    let (r, seed') = rand_r seed in
    let (bytes, seed'') = draw_nonce rand_r n seed' in (r % 256 ∷ bytes, seed'')

-- Whether a frame answers the challenge.
unfoldable pub answers : Frame → Frame → Bool
answers challenge response =
    (response.cid == challenge.cid)
    && ((frame_type response == frame_type challenge)
        && ((payload_length response == init_resp_size)
            && bytes_eq (take init_nonce_size (init_data response))
                (take init_nonce_size (init_data challenge))))

-- The loop that waits for the answer, by rounds as in `first_frame`. Every round may wait for the
-- whole timeout.
unfoldable pub await_answer : ℕ → Frame → Wire → Received × Wire
await_answer zero challenge w = (refused err_timeout, w)
await_answer (suc fuel) challenge w =
    let (r, w') = receive_frame receive_timeout w in
    elim r [
      | refused s ↦ (refused s, w')
      | received f ↦ elim (answers challenge f) [
        | true ↦ (received f, w')
        | false ↦ await_answer fuel challenge w'
      ]
    ]

-- The channel id and the capability flags of the answer.
unfoldable pub adopt_answer : Frame → HidDevice → HidDevice
adopt_answer f d =
    let flags = get_or (init_data f) 16 0 in
    record d {
      channel = load_big_endian (drop 8 (init_data f));
      tracker =
          set_capabilities (not (bit_and flags 0x01 == 0)) (not (bit_and flags 0x04 == 0))
            (bit_and flags 0x08 == 0) d.tracker;
    }

-- `Init` behind the `CHECK`s: the challenge, and the wait for its answer.
unfoldable pub init_channel : HidEnvironment → HidDevice → Status × HidDevice
init_channel env d =
    let (nonce, seed) = draw_nonce env.rand_r init_nonce_size d.seed in
    let challenge = init_frame id_broadcast ctap_hid_init init_nonce_size nonce in
    let (s, d') = send_frame challenge (record d { opened = true; seed = seed }) in
    let (r, w) = await_answer (suc (length d'.wire.reads)) challenge d'.wire in
    if not (status_eq s err_none) then (s, d') else elim r [
      | refused s' ↦ (s', record d' { wire = w })
      | received f ↦ (err_none, adopt_answer f (record d' { wire = w }))
    ]

unfoldable pub init : HidEnvironment → HidDevice → Outcome Status × HidDevice
init env d =
    let closed = record d { opened = false } in
    let (s, d') = init_channel env closed in
    elim (find_device_path env) [
      | check_failed message ↦ (check_failed message, closed)
      | undefined ↦ (undefined, closed)
      | done path ↦
          if env.opens path
          then (done s, d')
          else (check_failed (codes "Unable to open the device at the path: " ++ path), closed)
    ]
