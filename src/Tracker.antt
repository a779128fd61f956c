-- ===== src/Tracker.antt =====
-- src/device_tracker.h and src/device_tracker.cc. Printing is not modelled; `SaveResultsToFile`
-- is the document that it writes.
pub mod Initialize
pub mod Capabilities
pub mod Results
pub mod Observations
pub mod StatusChecks
use ctap2_test_tool.Base.{
  Action, Bool, Bytes, List, Option, [], check, codes, false, if◌then◌else◌, member, not, push_new,
  true, ℕ, ◌++◌, ◌∷◌,
}
use ctap2_test_tool.Constants.Codes.{Status, err_none, status_eq, status_to_string}
use ctap2_test_tool.ParameterCheck.{CounterChecker, KeyChecker, new_counter_checker}

-- `struct DeviceIdentifiers` of src/device_interface.h.
pub record DeviceIdentifiers : Type 0 where
  pub manufacturer : Bytes
  pub product_name : Bytes
  pub serial_number : Bytes
  pub vendor_id : ℕ
  pub product_id : ℕ

pub record TestResult : Type 0 where
  pub test_id : Bytes
  pub test_description : Bytes
  pub error_message : Option Bytes
  pub observations : List Bytes
  pub tags : List Bytes

pub record DeviceTracker : Type 0 where
  pub key_checker : KeyChecker
  pub counter_checker : CounterChecker
  pub device_identifiers : DeviceIdentifiers
  pub aaguid : Bytes
  pub ignores_touch_prompt : Bool
  pub observations : List Bytes
  pub tests : List TestResult
  pub versions : List Bytes
  pub extensions : List Bytes
  pub options : List Bytes
  pub is_initialized : Bool
  pub has_wink_capability : Bool
  pub has_cbor_capability : Bool
  pub has_msg_capability : Bool

abbrev pub new_device_tracker : DeviceTracker
new_device_tracker = record {
  key_checker = record { key_set = [] };
  counter_checker = new_counter_checker;
  device_identifiers = record {
    manufacturer = [];
    product_name = [];
    serial_number = [];
    vendor_id = 0;
    product_id = 0;
  };
  aaguid = [];
  ignores_touch_prompt = false;
  observations = [];
  tests = [];
  versions = [];
  extensions = [];
  options = [];
  is_initialized = false;
  has_wink_capability = false;
  has_cbor_capability = false;
  has_msg_capability = false;
}

unfoldable pub has_version : Bytes → DeviceTracker → Bool
has_version name t = member name t.versions

unfoldable pub has_extension : Bytes → DeviceTracker → Bool
has_extension name t = member name t.extensions

unfoldable pub has_option : Bytes → DeviceTracker → Bool
has_option name t = member name t.options

unfoldable pub set_capabilities : Bool → Bool → Bool → DeviceTracker → DeviceTracker
set_capabilities has_wink cbor msg t = record t {
  has_wink_capability = has_wink;
  has_cbor_capability = cbor;
  has_msg_capability = msg;
}

unfoldable pub set_device_identifiers : DeviceIdentifiers → DeviceTracker → DeviceTracker
set_device_identifiers ids t = record t { device_identifiers = ids }

unfoldable pub set_aaguid : Bytes → DeviceTracker → DeviceTracker
set_aaguid a t = record t { aaguid = a }

unfoldable pub ignore_next_touch_prompt : DeviceTracker → DeviceTracker
ignore_next_touch_prompt t = record t { ignores_touch_prompt = true }

unfoldable pub is_touch_prompt_ignored : DeviceTracker → Bool × DeviceTracker
is_touch_prompt_ignored t = (t.ignores_touch_prompt, record t { ignores_touch_prompt = false })

unfoldable pub add_observation : Bytes → DeviceTracker → DeviceTracker
add_observation observation t = record t { observations = push_new observation t.observations }

-- The overload of `CheckStatus` with one argument.
unfoldable pub check_status : Status → DeviceTracker → Bool × DeviceTracker
check_status status t =
    let ok = status_eq status err_none in
    (
      ok,
      if not ok
          then add_observation
              (codes "The failing error code is `" ++ (status_to_string status ++ codes "`.")) t
          else t,
    )

-- The overload with an expected and a returned status.
unfoldable pub check_expected_status : Status → Status → DeviceTracker → Bool × DeviceTracker
check_expected_status expected returned t =
    if status_eq expected err_none then check_status returned t else (
      not (status_eq returned err_none),
      if not (status_eq expected returned)
          then add_observation
              (codes "Expected error code `"
                ++ (status_to_string expected
                    ++ (codes "`, got `" ++ (status_to_string returned ++ codes "`."))))
              t
          else t,
    )

-- `absl::variant<cbor::Value, Status>`.
pub data Response (V : Type 0) : Type 0 where
  answer : V → Response V
  failure : Status → Response V

abbrev pub status_of_response : {V : Type 0} → Response V → Status
status_of_response (answer v) = err_none
status_of_response (failure s) = s

unfoldable pub check_response : {V : Type 0} → Response V → DeviceTracker → Bool × DeviceTracker
unfolding check_status
check_response r t = check_status (status_of_response r) t

unfoldable pub assert_condition : Bool → Bytes → Action DeviceTracker (Unit {0})
assert_condition condition message =
    check condition (codes "Failed critical condition: " ++ message)

unfoldable pub assert_status : Status → Bytes → Action DeviceTracker (Unit {0})
unfolding assert_condition check_status
assert_status s message t =
    let (ok, t') = check_status s t in
    assert_condition ok (message ++ (codes " - returned status code " ++ status_to_string s)) t'

unfoldable pub assert_response : {V : Type 0} → Response V → Bytes → Action DeviceTracker (Unit {0})
unfolding assert_condition check_response
assert_response r message t = let (ok, t') = check_response r t in assert_condition ok message t'

unfoldable pub log_test : Bytes → Bytes → Option Bytes → List Bytes → DeviceTracker → DeviceTracker
log_test test_id test_description error_message tags t = record t {
  observations = [];
  tests =
      t.tests
      ++ record {
        test_id = test_id;
        test_description = test_description;
        error_message = error_message;
        observations = t.observations;
        tags = tags;
      }
        ∷ [];
}
