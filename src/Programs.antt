-- ===== src/Programs.antt =====
-- src/fido2_conformance_main.cc and src/corpus_test_main.cc: the two programs, from the flags of the
-- command line to the document with the results. Without a token path they list the devices and
-- end. The conformance program has no monitor; the one of its session is not used.
use ctap2_test_tool.Base.{
  Action, Bool, Bytes, List, Option, Outcome, [], bytes_eq, check, check_failed, codes, done, false,
  gets, if◌then◌else◌, is_empty, ltb, negsuc, none, pos, pure, some, true, undefined, ℕ, ℤ, ◌&&◌,
  ◌++◌, ◌>>=◌, ◌>>◌,
}
use ctap2_test_tool.Cbor.{Cbor}
use ctap2_test_tool.CommandState.Setup.{init_next, new_command_state, reset}
use ctap2_test_tool.Constants.Codes.{err_none, status_eq}
use ctap2_test_tool.Crypto.{Library}
use ctap2_test_tool.Hid.Device.{HidDevice, Wire}
use ctap2_test_tool.Hid.Exchange.{wink}
use ctap2_test_tool.Hid.Init.{
  HidDeviceInfo, HidEnvironment, find_first_fido_device_path, new_hid_device,
}
use ctap2_test_tool.Monitors.{
  Monitor, MonitorKind, Session, blackbox, cortexm4_gdb, gdb, on_command_state,
}
use ctap2_test_tool.Monitors.Watch.{attach}
use ctap2_test_tool.Rsp.Connection.{SocketCalls}
use ctap2_test_tool.Rsp.Socket.{RemoteSerialProtocol}
use ctap2_test_tool.Tests.{on_hid, track}
use ctap2_test_tool.Tests.Catalogue.{get_tests}
use ctap2_test_tool.Tests.Corpus.{Surroundings, get_corpus_tests}
use ctap2_test_tool.Tests.Series.{run_tests}
use ctap2_test_tool.Tracker.{DeviceTracker, assert_condition, has_option, new_device_tracker}
use ctap2_test_tool.Tracker.Results.{ResultsJson, generate_results_json, report_counts}

-- `ValidatePort` and `ValidateMonitor`.
unfoldable pub validate_port : ℤ → Bool
validate_port (pos n) = ltb 0 n && ltb n 65535
validate_port (negsuc n) = false

unfoldable pub monitor_kind : Bytes → Option MonitorKind
unfolding bytes_eq
monitor_kind name =
    if bytes_eq name (codes "blackbox")
    then some blackbox
    else if bytes_eq name (codes "cortexm4_gdb")
    then some cortexm4_gdb
    else if bytes_eq name (codes "gdb")
    then some gdb
    else none

-- What a program finds: the devices that are listed at its start, what each `Init` meets, the
-- traffic on the wire, the connection to a GDB server, and commit and time for the document.
pub record Host : Type 0 where
  pub devices : List HidDeviceInfo
  pub environments : List HidEnvironment
  pub wire : Wire
  pub writes : List Bool
  pub calls : SocketCalls
  pub rsp_client : RemoteSerialProtocol
  pub commit_hash : Bytes
  pub time_string : Bytes

abbrev pub new_monitor : MonitorKind → ℕ → RemoteSerialProtocol → Monitor
new_monitor kind port rsp_client = record {
  kind = kind;
  port = port;
  initial_pin_token = [];
  rsp_client = rsp_client;
  stop_message = [];
  printed = [];
  saved = [];
}

-- The magic value `_` stands for the first device.
unfoldable pub chosen_path : Bytes → List HidDeviceInfo → Bytes
unfolding bytes_eq find_first_fido_device_path
chosen_path token_path devices =
    if bytes_eq token_path (codes "_") then find_first_fido_device_path devices else token_path

module _ (cbor : Cbor) (library : Library) where
  abbrev pub initial_session : HidDevice → List HidEnvironment → Monitor → Session cbor
  initial_session device environments monitor = record {
    command_state = record {
      device = device;
      environments = environments;
      platform_cose_key = cbor.empty_map;
      shared_secret = [];
      pin_utf8 = [];
      auth_token = [];
      keys_generated = 0;
    };
    monitor = monitor;
  }

  -- The first initialization, and the wink.
  unfoldable pub connect_device : Action (Session cbor) (Unit {0})
  unfolding on_command_state init_next status_eq on_hid wink
  connect_device = do
    status ← on_command_state (init_next cbor library)
    check (status_eq err_none status) (codes "CTAPHID initialization failed")
    on_hid cbor library (λ d. let (s, d') = wink d in (done s, d'))
    pure tt

  unfoldable pub require_feature : (DeviceTracker → Bool) → Bytes → Action (Session cbor) (Unit {0})
  unfolding track assert_condition
  require_feature feature message = track cbor library (λ t. assert_condition (feature t) message t)

  -- The counts that are printed, and the document.
  unfoldable pub results : Host → Action (Session cbor) ((ℕ × ℕ) × ResultsJson)
  unfolding report_counts generate_results_json
  results host s =
      let t = s.command_state.device.tracker in
      (done (report_counts t, generate_results_json host.commit_hash host.time_string t), s)

  unfoldable pub conformance_run : Host → Action (Session cbor) ((ℕ × ℕ) × ResultsJson)
  unfolding connect_device on_command_state new_command_state require_feature has_option run_tests
      get_tests reset results
  conformance_run host = do
    connect_device
    on_command_state (new_command_state cbor library)
    require_feature (has_option (codes "rk")) (codes "Resident key support expected.")
    require_feature (has_option (codes "up")) (codes "User presence support expected.")
    require_feature (λ t. t.has_cbor_capability) (codes "CBOR support expected.")
    run_tests cbor library (get_tests cbor library)
    on_command_state (reset cbor library)
    results host

  -- The directory of the corpus, below that of the environment variable where it is set.
  unfoldable pub corpus_directory : Option Bytes → Bytes → Bytes
  corpus_directory none corpus_path = corpus_path
  corpus_directory (some env_dir) corpus_path = env_dir ++ codes "/" ++ corpus_path

  unfoldable pub corpus_run :
      Host → Surroundings → Bytes → Action (Session cbor) ((ℕ × ℕ) × ResultsJson)
  unfolding connect_device attach on_command_state new_command_state run_tests get_corpus_tests
      corpus_directory results
  corpus_run host around corpus_path = do
    connect_device
    attached ← gets (λ (s : Session cbor). attach host.calls s.monitor)
    check attached (codes "Monitor failed to attach!")
    on_command_state (new_command_state cbor library)
    run_tests cbor library
        (get_corpus_tests cbor library around (corpus_directory around.env_dir corpus_path))
    results host

  -- A program from its start: none when only the devices are listed.
  unfoldable pub run_program :
      {A : Type 0} → Bytes → Host → Monitor → Action (Session cbor) A → Outcome (Option A)
  unfolding chosen_path new_hid_device
  run_program token_path host monitor body = elim (is_empty token_path) [
    | true ↦ done none
    | false ↦
        elim (new_hid_device (chosen_path token_path host.devices) host.devices host.wire
          host.writes new_device_tracker) [
            | check_failed message ↦ check_failed message
            | undefined ↦ undefined
            | done device ↦ elim (body (initial_session device host.environments monitor)).0 [
              | check_failed message ↦ check_failed message
              | undefined ↦ undefined
              | done a ↦ done (some a)
            ]
          ]
  ]

  unfoldable pub conformance_main : Bytes → Host → Outcome (Option ((ℕ × ℕ) × ResultsJson))
  unfolding run_program conformance_run
  conformance_main token_path host =
      run_program token_path host (new_monitor blackbox 0 host.rsp_client) (conformance_run host)

  unfoldable pub corpus_main :
      Bytes
      → Bytes
      → MonitorKind
      → ℕ
      → Host
      → Surroundings
      → Outcome (Option ((ℕ × ℕ) × ResultsJson))
  unfolding run_program corpus_run
  corpus_main token_path corpus_path kind port host around =
      run_program token_path host (new_monitor kind port host.rsp_client)
        (corpus_run host around corpus_path)
