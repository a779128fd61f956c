-- ===== src/Tests/AssertionAuth.antt =====
-- src/tests/get_assertion.cc: the tests of the GetAssertion command that concern the PIN, the touch
-- and the user.
use ctap2_test_tool.Base.{
  Bool, Bytes, [], check_some, codes, false, is_some, not, pos, replicate, true,
}
use ctap2_test_tool.Cbor.{Cbor}
use ctap2_test_tool.CborBuilders.Entries.{remove_assertion_entry, set_assertion_entry}
use ctap2_test_tool.CborBuilders.GetAssertion.{
  add_required_fields, set_allow_list_credential, set_auth_param, set_default_auth_param,
  set_default_auth_protocol,
}
use ctap2_test_tool.CborBuilders.MakeCredential.{
  add_defaults_for_required_fields, set_public_key_credential_user_entity,
}
use ctap2_test_tool.Commands.{find_key}
use ctap2_test_tool.Constants.Codes.{
  Status, err_missing_parameter, err_pin_auth_invalid, err_pin_invalid, err_pin_not_set,
  err_user_action_timeout,
}
use ctap2_test_tool.Constants.Keys.{
  GetAssertionParameters, GetAssertionResponse, get_assertion_response_key,
}
use ctap2_test_tool.Crypto.{Library}
use ctap2_test_tool.Tests.Requests.{
  assertion_accepted, assertion_refused, credential_accepted, credential_id_in, credential_made,
  ignore_touch_prompt, reset_in_test,
}
use ctap2_test_tool.Tests.Steps.{
  Test, current_auth_token, ensure, perform, proceed, value_of_response, ◌>>=◌, ◌>>◌,
}

module _ (cbor : Cbor) (library : Library) where
  open cbor use {Value, MapValue, of_int, empty_map, as_map}

  abbrev fields : Bytes → MapValue
  fields rp_id = add_required_fields cbor rp_id empty_map

  -- The request with a PIN authentication that is given.
  abbrev with_auth_param : Bytes → Bytes → MapValue
  with_auth_param auth_param rp_id =
      set_default_auth_protocol cbor (set_auth_param cbor auth_param (fields rp_id))

  -- A credential is made, and the request is refused.
  unfoldable pub auth_param_refused :
      Status → MapValue → Bool → Bytes → Bytes → Test cbor (Unit {0})
  unfolding credential_made assertion_refused
  auth_param_refused expected builder expect_up_check message rp_id = do
    credential_made cbor library rp_id true
    assertion_refused cbor library expected builder expect_up_check message

  unfoldable pub assertion_pin_auth_empty : Bytes → Test cbor (Unit {0})
  unfolding auth_param_refused set_default_auth_protocol set_auth_param add_required_fields
  assertion_pin_auth_empty rp_id =
      auth_param_refused err_pin_not_set (with_auth_param [] rp_id) true
        (codes "A zero length PIN auth param is not rejected.") rp_id

  unfoldable pub assertion_pin_auth_protocol : Bytes → Test cbor (Unit {0})
  unfolding auth_param_refused set_assertion_entry set_auth_param add_required_fields
  assertion_pin_auth_protocol rp_id =
      auth_param_refused err_pin_auth_invalid
        (set_assertion_entry cbor GetAssertionParameters.pin_uv_auth_protocol (of_int (pos 123456))
          (set_auth_param cbor (replicate 16 0x9a) (fields rp_id)))
        false (codes "Unsupported PIN protocol is not rejected.") rp_id

  unfoldable pub assertion_pin_auth_no_pin : Bytes → Test cbor (Unit {0})
  unfolding auth_param_refused set_default_auth_protocol set_auth_param add_required_fields
  assertion_pin_auth_no_pin rp_id =
      auth_param_refused err_pin_not_set (with_auth_param (replicate 16 0x9a) rp_id) false
        (codes "PIN auth not rejected without a PIN.") rp_id

  unfoldable pub assertion_pin_auth_empty_with_pin : Bytes → Test cbor (Unit {0})
  unfolding auth_param_refused set_default_auth_protocol set_auth_param add_required_fields
  assertion_pin_auth_empty_with_pin rp_id =
      auth_param_refused err_pin_invalid (with_auth_param [] rp_id) true
        (codes "A zero length PIN auth param is not rejected with a PIN set.") rp_id

  unfoldable pub assertion_pin_auth : Bytes → Test cbor (Unit {0})
  unfolding credential_made add_required_fields current_auth_token set_default_auth_param
      set_default_auth_protocol assertion_accepted set_auth_param assertion_refused
  assertion_pin_auth rp_id = do
    credential_made cbor library rp_id true
    token ← current_auth_token cbor library
    builder ←
        proceed (
          set_default_auth_protocol cbor (set_default_auth_param cbor library token (fields rp_id)))
    assertion_accepted cbor library builder (codes "Falsely rejected valid PIN auth.")
    assertion_refused cbor library err_pin_auth_invalid
        (set_auth_param cbor (replicate 16 0x9a) builder) false (codes "Accepted wrong PIN auth.")

  unfoldable pub assertion_pin_auth_missing : Bytes → Test cbor (Unit {0})
  unfolding credential_made add_required_fields current_auth_token set_default_auth_param
      set_default_auth_protocol assertion_accepted remove_assertion_entry assertion_refused
      reset_in_test
  assertion_pin_auth_missing rp_id = do
    credential_made cbor library rp_id true
    builder ← proceed (set_default_auth_protocol cbor (fields rp_id))
    assertion_accepted cbor library builder
        (codes "GetAssertion failed with PIN protocol, but without a token when PIN is set.")
    token ← current_auth_token cbor library
    assertion_refused cbor library err_missing_parameter
        (remove_assertion_entry cbor GetAssertionParameters.pin_uv_auth_protocol
          (set_default_auth_param cbor library token builder))
        false (codes "Missing PIN protocol was not rejected when PIN is set.")
    reset_in_test cbor library

  unfoldable pub assertion_physical_presence : Bytes → Test cbor (Unit {0})
  unfolding credential_made ignore_touch_prompt add_required_fields assertion_refused
  assertion_physical_presence rp_id = do
    credential_made cbor library rp_id true
    ignore_touch_prompt cbor library
    assertion_refused cbor library err_user_action_timeout (fields rp_id) true
        (codes "A credential was asserted without user presence.")

  unfoldable pub empty_user_id : Bytes → Test cbor (Unit {0})
  unfolding add_defaults_for_required_fields set_public_key_credential_user_entity
      credential_accepted credential_id_in set_allow_list_credential add_required_fields
      assertion_accepted value_of_response find_key get_assertion_response_key
  empty_user_id rp_id = do
    response ←
        credential_accepted cbor library
          (set_public_key_credential_user_entity cbor [] (codes "Emma")
            (add_defaults_for_required_fields cbor rp_id empty_map))
          (codes "Cannot make credential with an empty user ID.")
    credential_id ← credential_id_in cbor library response
    assertion ←
        assertion_accepted cbor library
          (set_allow_list_credential cbor credential_id (fields rp_id))
          (codes "Unable to assert a credential with empty user ID.")
    assertion_response ← value_of_response cbor library assertion
    decoded_map ← perform (check_some (as_map assertion_response) (codes "Check failed: is_map()"))
    ensure
        (not (
          is_some
            (find_key cbor (get_assertion_response_key GetAssertionResponse.user) decoded_map)))
        (codes
          "The response includes user with an empty ID. This behaviour has known interoperability hurdles.")
