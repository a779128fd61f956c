-- ===== src/Tracker/StatusChecks.antt =====
-- `CheckStatus` with an expected status.
use ctap2_test_tool.Base.{Bytes, List, arith, bool_eq, codes, if◌then◌else◌, push_new, ◌++◌, ◌≡◌}
use ctap2_test_tool.Cbor.{Cbor}
use ctap2_test_tool.Constants.Codes.{Status, err_none, status_eq, status_eq_iff, status_to_string}
use ctap2_test_tool.Tracker.{DeviceTracker, add_observation, check_expected_status, check_status}
use ctap2_test_tool.Tracker.Initialize.{initialize}

abbrev pub status_message : Status → Status → Bytes
status_message expected returned =
    if status_eq expected err_none
    then codes "The failing error code is `" ++ (status_to_string returned ++ codes "`.")
    else codes "Expected error code `"
      ++ (status_to_string expected
          ++ (codes "`, got `" ++ (status_to_string returned ++ codes "`.")))

-- The result says whether both statuses are errors or both are success. An observation is added
-- exactly when they differ, so also when an error was expected and success was returned.
pub check_expected_status_lem :
    (expected returned : Status) (t : DeviceTracker)
    → ((check_expected_status expected returned t).0
        ≡ bool_eq (status_eq expected err_none) (status_eq returned err_none))
      × ((check_expected_status expected returned t).1.observations ≡ (
          if status_eq expected returned
          then t.observations
          else push_new (status_message expected returned) t.observations))
unfolding check_expected_status check_status add_observation
check_expected_status_lem expected returned t = ground (
  arith,
  status_eq_iff expected err_none,
  status_eq_iff returned err_none,
  status_eq_iff expected returned,
)

-- Only the first answer to GetInfo sets the capabilities.
pub initialize_once :
    (cbor : Cbor) (versions extensions versions' extensions' : List cbor.Value)
    (options options' : cbor.MapValue) (t : DeviceTracker)
    → initialize cbor versions' extensions' options' (initialize cbor versions extensions options t)
      ≡ initialize cbor versions extensions options t
unfolding initialize
initialize_once cbor versions extensions versions' extensions' options options' t = ground arith
