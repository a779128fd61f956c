-- ===== src/Tests/Reset.antt =====
-- src/tests/reset.cc: what a reset deletes, and when it is allowed. The wait for the timeout of ten
-- seconds is left out.
use ctap2_test_tool.Base.{Bytes, [], codes, false, int_eq, true, ◌∷◌}
use ctap2_test_tool.Cbor.{Cbor}
use ctap2_test_tool.CborBuilders.{get_cbor}
use ctap2_test_tool.CborBuilders.GetAssertion.{add_required_fields, set_allow_list_credential}
use ctap2_test_tool.CborBuilders.MakeCredential.{
  add_defaults_for_required_fields, set_default_pin_uv_auth_param, set_default_pin_uv_auth_protocol,
}
use ctap2_test_tool.CommandState.Pin.{default_pin, set_pin}
use ctap2_test_tool.CommandState.Setup.{reset}
use ctap2_test_tool.CommandState.Token.{attempt_get_auth_token}
use ctap2_test_tool.Commands.GetAssertion.{get_assertion_positive_test}
use ctap2_test_tool.Commands.Negative.{
  get_assertion_negative_test, make_credential_negative_test, reset_negative_test,
}
use ctap2_test_tool.Constants.Codes.{
  err_no_credentials, err_not_allowed, err_pin_auth_invalid, err_pin_invalid,
  err_user_action_timeout,
}
use ctap2_test_tool.Crypto.{Library}
use ctap2_test_tool.Tests.{BaseTest, tag_client_pin, tag_fido2_point1}
use ctap2_test_tool.Tests.Helpers.{bad_pin, extract_credential_id, get_pin_retries_of_device}
use ctap2_test_tool.Tests.Steps.{
  Test, current_auth_token, device_step, ensure, ensure_response, ensure_status, ensure_success,
  make_test, state_step, test_credential, tracker_step, value_of_response, ◌>>=◌, ◌>>◌,
}
use ctap2_test_tool.Tracker.{ignore_next_touch_prompt}

module _ (cbor : Cbor) (library : Library) where
  open cbor use {Value, none_value, empty_map}

  abbrev pub get_assertion_request : Bytes → cbor.MapValue
  get_assertion_request rp_id = add_required_fields cbor rp_id empty_map

  unfoldable pub refused_assertion : cbor.MapValue → Bytes → Test cbor (Unit {0})
  unfolding device_step get_assertion_negative_test get_cbor ensure_status
  refused_assertion request message = do
    returned_status ←
        device_step cbor library (get_assertion_negative_test cbor (get_cbor cbor request) false)
    ensure_status cbor library err_no_credentials returned_status message

  unfoldable pub accepted_assertion : cbor.MapValue → Bytes → Test cbor (Unit {0})
  unfolding device_step get_assertion_positive_test get_cbor ensure_response
  accepted_assertion request message = do
    response ←
        device_step cbor library (get_assertion_positive_test cbor library (get_cbor cbor request))
    ensure_response cbor library response message

  -- A resident and another credential; the response for the second.
  unfoldable pub two_credentials : Bytes → Test cbor Value
  unfolding test_credential ensure_response value_of_response
  two_credentials rp_id = do
    resident ← test_credential cbor library rp_id true
    ensure_response cbor library resident (codes "Cannot make credential for further tests.")
    response ← test_credential cbor library rp_id false
    ensure_response cbor library response (codes "Cannot make credential for further tests.")
    value_of_response cbor library response

  unfoldable pub delete_credentials : Bytes → Test cbor (Unit {0})
  unfolding two_credentials accepted_assertion refused_assertion state_step reset
      extract_credential_id set_allow_list_credential add_required_fields
  delete_credentials rp_id = do
    credential_response ← two_credentials rp_id
    accepted_assertion (get_assertion_request rp_id)
        (codes "The created credential was already unusable before reset.")
    state_step cbor library (reset cbor library)
    refused_assertion (get_assertion_request rp_id)
        (codes "A resident key was still usable after reset.")
    credential_id ← extract_credential_id cbor credential_response
    refused_assertion (set_allow_list_credential cbor credential_id (get_assertion_request rp_id))
        (codes "A non-resident key was still usable after reset.")

  -- A wrong PIN must be refused.
  unfoldable pub wrong_pin_refused : Test cbor (Unit {0})
  unfolding state_step attempt_get_auth_token ensure_status
  wrong_pin_refused = do
    returned_status ← state_step cbor library (attempt_get_auth_token cbor library bad_pin true)
    ensure_status cbor library err_pin_invalid returned_status
        (codes "GetAuthToken did not fail with the wrong PIN.")

  -- A request with an old token as its authentication.
  unfoldable pub old_token_request : Bytes → Bytes → Value
  unfolding get_cbor set_default_pin_uv_auth_param set_default_pin_uv_auth_protocol
      add_defaults_for_required_fields
  old_token_request rp_id old_auth_token = get_cbor cbor (
      set_default_pin_uv_auth_protocol cbor (
        set_default_pin_uv_auth_param cbor library old_auth_token
          (add_defaults_for_required_fields cbor rp_id empty_map)))

  unfoldable pub delete_pin : Bytes → Test cbor (Unit {0})
  unfolding get_pin_retries_of_device wrong_pin_refused current_auth_token state_step reset
      test_credential ensure_response set_pin ensure_success device_step
      make_credential_negative_test old_token_request ensure_status
  delete_pin rp_id = do
    initial_counter ← get_pin_retries_of_device cbor library
    wrong_pin_refused
    old_auth_token ← current_auth_token cbor library
    state_step cbor library (reset cbor library)
    response ← test_credential cbor library rp_id false
    ensure_response cbor library response
        (codes "MakeCredential failed without UV after resetting the PIN.")
    set ← state_step cbor library (set_pin cbor library default_pin)
    ensure_success cbor library set (codes "Failed to set PIN for further tests.")
    new_counter ← get_pin_retries_of_device cbor library
    ensure (int_eq initial_counter new_counter) (codes "PIN retries were not reset.")
    returned_status ←
        device_step cbor library
          (make_credential_negative_test cbor (old_token_request rp_id old_auth_token) false)
    ensure_status cbor library err_pin_auth_invalid returned_status
        (codes "The auth token still worked after a reset.")

  unfoldable pub reset_physical_presence : Bytes → Test cbor (Unit {0})
  unfolding tracker_step ignore_next_touch_prompt device_step reset_negative_test ensure_status
  reset_physical_presence rp_id = do
    tracker_step cbor library (λ t. (tt, ignore_next_touch_prompt t))
    untouched ← device_step cbor library (reset_negative_test cbor none_value true)
    ensure_status cbor library err_user_action_timeout untouched
        (codes "Reset was allowed without touch.")
    returned_status ← device_step cbor library (reset_negative_test cbor none_value false)
    ensure_status cbor library err_not_allowed returned_status
        (codes "Reset was allowed 10 seconds after plugging in.")

  unfoldable pub delete_credentials_test : BaseTest cbor
  unfolding make_test delete_credentials
  delete_credentials_test =
      make_test cbor library (codes "delete_credential")
        (codes "Tests if Reset actually deletes credentials.") false [] delete_credentials

  unfoldable pub delete_pin_test : BaseTest cbor
  unfolding make_test delete_pin
  delete_pin_test =
      make_test cbor library (codes "delete_pin") (codes "Tests if Reset actually deletes the PIN.")
        true (tag_client_pin ∷ []) delete_pin

  unfoldable pub reset_physical_presence_test : BaseTest cbor
  unfolding make_test reset_physical_presence
  reset_physical_presence_test =
      make_test cbor library (codes "reset_physical_presence")
        (codes "Tests if Reset requirements are enforced.") false (tag_fido2_point1 ∷ [])
        reset_physical_presence
