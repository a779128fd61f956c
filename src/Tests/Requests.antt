-- ===== src/Tests/Requests.antt =====
-- The steps that the tests of src/tests/make_credential.cc and src/tests/get_assertion.cc repeat: a
-- request that must be accepted or refused, and the credential made first.
use ctap2_test_tool.Base.{Bool, Bytes, codes}
use ctap2_test_tool.Cbor.{Cbor}
use ctap2_test_tool.CborBuilders.{get_cbor}
use ctap2_test_tool.CommandState.Setup.{reset}
use ctap2_test_tool.Commands.GetAssertion.{get_assertion_positive_test}
use ctap2_test_tool.Commands.MakeCredential.{make_credential_positive_test}
use ctap2_test_tool.Commands.Negative.{get_assertion_negative_test, make_credential_negative_test}
use ctap2_test_tool.Constants.Codes.{Status}
use ctap2_test_tool.Crypto.{Library}
use ctap2_test_tool.Tests.Helpers.{extract_credential_id}
use ctap2_test_tool.Tests.Steps.{
  Test, device_step, ensure_response, ensure_status, proceed, state_step, test_credential,
  tracker_step, value_of_response, ◌>>=◌, ◌>>◌,
}
use ctap2_test_tool.Tracker.{Response, add_observation, ignore_next_touch_prompt}

module _ (cbor : Cbor) (library : Library) where
  open cbor use {Value, MapValue}

  unfoldable pub credential_accepted : MapValue → Bytes → Test cbor (Response Value)
  unfolding device_step make_credential_positive_test get_cbor ensure_response
  credential_accepted builder message = do
    response ←
        device_step cbor library
          (make_credential_positive_test cbor library (get_cbor cbor builder))
    ensure_response cbor library response message
    proceed response

  unfoldable pub credential_refused : Status → MapValue → Bool → Bytes → Test cbor (Unit {0})
  unfolding device_step make_credential_negative_test get_cbor ensure_status
  credential_refused expected builder expect_up_check message = do
    returned_status ←
        device_step cbor library
          (make_credential_negative_test cbor (get_cbor cbor builder) expect_up_check)
    ensure_status cbor library expected returned_status message

  unfoldable pub assertion_accepted : MapValue → Bytes → Test cbor (Response Value)
  unfolding device_step get_assertion_positive_test get_cbor ensure_response
  assertion_accepted builder message = do
    response ←
        device_step cbor library (get_assertion_positive_test cbor library (get_cbor cbor builder))
    ensure_response cbor library response message
    proceed response

  unfoldable pub assertion_refused : Status → MapValue → Bool → Bytes → Test cbor (Unit {0})
  unfolding device_step get_assertion_negative_test get_cbor ensure_status
  assertion_refused expected builder expect_up_check message = do
    returned_status ←
        device_step cbor library
          (get_assertion_negative_test cbor (get_cbor cbor builder) expect_up_check)
    ensure_status cbor library expected returned_status message

  -- `MakeTestCredential`, which must succeed.
  unfoldable pub credential_made : Bytes → Bool → Test cbor (Response Value)
  unfolding test_credential ensure_response
  credential_made rp_id use_resident_key = do
    response ← test_credential cbor library rp_id use_resident_key
    ensure_response cbor library response (codes "Cannot make credential for further tests.")
    proceed response

  unfoldable pub credential_id_in : Response Value → Test cbor Bytes
  unfolding value_of_response extract_credential_id
  credential_id_in response = value_of_response cbor library response >>= extract_credential_id cbor

  unfoldable pub credential_id_made : Bytes → Bool → Test cbor Bytes
  unfolding credential_made credential_id_in
  credential_id_made rp_id use_resident_key =
      credential_made rp_id use_resident_key >>= credential_id_in

  unfoldable pub ignore_touch_prompt : Test cbor (Unit {0})
  unfolding tracker_step ignore_next_touch_prompt
  ignore_touch_prompt = tracker_step cbor library (λ t. (tt, ignore_next_touch_prompt t))

  unfoldable pub observe_in_test : Bytes → Test cbor (Unit {0})
  unfolding tracker_step add_observation
  observe_in_test message = tracker_step cbor library (λ t. (tt, add_observation message t))

  unfoldable pub reset_in_test : Test cbor (Unit {0})
  unfolding state_step reset
  reset_in_test = state_step cbor library (reset cbor library)
