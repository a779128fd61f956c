-- ===== src/Tests/Steps.antt =====
-- The body of a test, `Execute`: steps on a session, each of which may end the test with an error
-- message. `ensure` is `if (!condition) return message;`.
use ctap2_test_tool.Base.{
  Action, Bool, Bytes, List, Option, check_failed, done, false, gets, none, some, true, undefined,
}
use ctap2_test_tool.Cbor.{Cbor}
use ctap2_test_tool.CommandState.{CommandState}
use ctap2_test_tool.CommandState.Setup.{make_test_credential, response_value}
use ctap2_test_tool.Constants.Codes.{Status}
use ctap2_test_tool.Crypto.{Library}
use ctap2_test_tool.Hid.Device.{HidDevice}
use ctap2_test_tool.Monitors.{Session, on_command_state}
use ctap2_test_tool.Tests.{BaseTest, Tag, base_setup, on_hid, rp_id_of, track}
use ctap2_test_tool.Tracker.{
  DeviceTracker, Response, check_expected_status, check_response, check_status,
}

pub data Verdict (A : Type 0) : Type 0 where
  passed : A → Verdict A
  stopped : Bytes → Verdict A

abbrev pub Test : Cbor → Type 0 → Type 0
Test cbor A = Action (Session cbor) (Verdict A)

infixl 5 ◌>>=◌ ◌>>◌
abbrev pub ◌>>=◌ : {cbor : Cbor} {A B : Type 0} → Test cbor A → (A → Test cbor B) → Test cbor B
◌>>=◌ m f s =
    let (r, s') = m s in
    elim r [
      | done v ↦ elim v [ passed a ↦ f a s' | stopped message ↦ (done (stopped message), s') ]
      | check_failed message ↦ (check_failed message, s')
      | undefined ↦ (undefined, s')
    ]

abbrev pub ◌>>◌ : {cbor : Cbor} {A B : Type 0} → Test cbor A → Test cbor B → Test cbor B
m >> k = m >>= λ _. k

abbrev pub proceed : {cbor : Cbor} {A : Type 0} → A → Test cbor A
proceed a s = (done (passed a), s)

abbrev pub ensure : {cbor : Cbor} → Bool → Bytes → Test cbor (Unit {0})
ensure true message s = (done (passed tt), s)
ensure false message s = (done (stopped message), s)

abbrev pub perform : {cbor : Cbor} {A : Type 0} → Action (Session cbor) A → Test cbor A
perform action s =
    let (r, s') = action s in
    elim r [
      | done a ↦ (done (passed a), s')
      | check_failed message ↦ (check_failed message, s')
      | undefined ↦ (undefined, s')
    ]

-- What `Execute` returns.
abbrev pub error_message_of : Verdict (Unit {0}) → Option Bytes
error_message_of (passed _) = none
error_message_of (stopped message) = some message

unfoldable pub as_execute :
    {cbor : Cbor} → Test cbor (Unit {0}) → Action (Session cbor) (Option Bytes)
as_execute test s =
    let (r, s') = test s in
    elim r [
      | done v ↦ (done (error_message_of v), s')
      | check_failed message ↦ (check_failed message, s')
      | undefined ↦ (undefined, s')
    ]

module _ (cbor : Cbor) (library : Library) where
  open cbor use {Value}

  unfoldable pub state_step : {A : Type 0} → Action (CommandState cbor) A → Test cbor A
  unfolding on_command_state
  state_step action = perform (on_command_state action)

  unfoldable pub device_step : {A : Type 0} → Action HidDevice A → Test cbor A
  unfolding on_hid
  device_step action = perform (on_hid cbor library action)

  unfoldable pub tracker_step : {A : Type 0} → (DeviceTracker → A × DeviceTracker) → Test cbor A
  unfolding track
  tracker_step action = perform (track cbor library (λ t. let (a, t') = action t in (done a, t')))

  -- `if (!device_tracker->CheckStatus(...)) return message;` for the three overloads.
  unfoldable pub ensure_success : Status → Bytes → Test cbor (Unit {0})
  unfolding tracker_step check_status
  ensure_success returned message = do ok ← tracker_step (check_status returned); ensure ok message

  unfoldable pub ensure_status : Status → Status → Bytes → Test cbor (Unit {0})
  unfolding tracker_step check_expected_status
  ensure_status expected returned message = do
    ok ← tracker_step (check_expected_status expected returned)
    ensure ok message

  unfoldable pub ensure_response : Response Value → Bytes → Test cbor (Unit {0})
  unfolding tracker_step check_response
  ensure_response response message = do
    ok ← tracker_step (check_response response)
    ensure ok message

  -- `absl::get<cbor::Value>`.
  unfoldable pub value_of_response : Response Value → Test cbor Value
  unfolding state_step response_value
  value_of_response response = state_step (response_value cbor library response)

  unfoldable pub make_test :
      Bytes → Bytes → Bool → List Tag → (Bytes → Test cbor (Unit {0})) → BaseTest cbor
  unfolding base_setup as_execute rp_id_of
  make_test test_id test_description with_pin tags body = record {
    id = test_id;
    description = test_description;
    tags = tags;
    setup = base_setup cbor library with_pin;
    execute = as_execute (body (rp_id_of test_id));
  }

  -- The test credential and the token of the command state.
  unfoldable pub test_credential : Bytes → Bool → Test cbor (Response Value)
  unfolding state_step make_test_credential
  test_credential rp_id use_resident_key =
      state_step (make_test_credential cbor library rp_id use_resident_key)

  unfoldable pub current_auth_token : Test cbor Bytes
  unfolding state_step
  current_auth_token = state_step (gets (λ (s : CommandState cbor). s.auth_token))
