-- ===== src/Commands/GetAssertion.antt =====
-- `GetAssertionPositiveTest`, `GetNextAssertionPositiveTest` and `ResetPositiveTest`.
use ctap2_test_tool.Base.{
  Action, Bool, Bytes, Option, [], bool_eq, check, check_some, codes, decimal, deref, drop, get_or,
  is_empty, is_some, length, ltb, none, not, pure, some, true, ◌++◌, ◌-◌, ◌>>=◌, ◌>>◌, ◌||◌,
}
use ctap2_test_tool.Cbor.{Cbor}
use ctap2_test_tool.Commands.{
  check_extensions, check_optional, decode_map, encode_request, exchange, find_key, find_name,
  has_flag, observe_keys, on_counter_checker, on_success,
}
use ctap2_test_tool.Commands.KeyCheck.{
  bytes_entry, check_rp_id_hash, check_verification_flag, read_signature_counter,
}
use ctap2_test_tool.Commands.Requests.{
  extract_rp_id_from_get_assertion_request, extract_unique_credential_from_allow_list,
  extract_up_option_from_get_assertion_request, is_key_in_request,
}
use ctap2_test_tool.Constants.Codes.{authenticator_get_assertion, authenticator_reset}
use ctap2_test_tool.Constants.Keys.{
  GetAssertionParameters, GetAssertionResponse, get_assertion_parameters_key,
  get_assertion_response_contains, get_assertion_response_key,
}
use ctap2_test_tool.Crypto.{Library}
use ctap2_test_tool.Hid.Device.{HidDevice}
use ctap2_test_tool.ParameterCheck.{check_counter}
use ctap2_test_tool.Tracker.{Response, answer}

module _ (cbor : Cbor) (library : Library) where
  open cbor use {Value, MapValue, as_map, as_string, as_unsigned, as_bytestring, entries}

  -- Without the credential in the response, the allow list of the request has to name it. The
  -- source compares an iterator of the inner map with the end of the outer map, so a descriptor
  -- without "id" is dereferenced all the same.
  unfoldable pub response_credential : Value → MapValue → Action HidDevice Bytes
  unfolding find_key find_name extract_unique_credential_from_allow_list get_assertion_response_key
  response_credential request decoded_map =
      elim (find_key cbor (get_assertion_response_key GetAssertionResponse.credential)
        decoded_map) [
          | none ↦ extract_unique_credential_from_allow_list cbor request
          | some value ↦ (do
            cred_descriptor ←
                check_some (as_map value) (codes "PublicKeyCredentialDescriptor is not a map")
            id ← deref (find_name cbor (codes "id") cred_descriptor)
            check_some (as_bytestring id)
                (codes "\"id\" in PublicKeyCredentialDescriptor is not a bytestring"))
        ]

  unfoldable pub check_assertion_data : Value → Bool → Bytes → Bytes → Action HidDevice (Unit {0})
  unfolding check_rp_id_hash extract_rp_id_from_get_assertion_request has_flag is_key_in_request
      check_verification_flag read_signature_counter on_counter_checker check_counter
      check_extensions get_assertion_parameters_key
  check_assertion_data request requires_up credential_id auth_data = do
    check_rp_id_hash library auth_data (extract_rp_id_from_get_assertion_request cbor request)
    flags ← pure (get_or auth_data 32 0)
    check (has_flag flags 0x05 || not requires_up) (codes "silent assertion not requested")
    has_token ←
        is_key_in_request cbor request
          (get_assertion_parameters_key GetAssertionParameters.pin_uv_auth_param)
    check_verification_flag has_token flags
    counter ← read_signature_counter auth_data
    on_counter_checker (check_counter credential_id counter)
    check (bool_eq (has_flag flags 0x80) (ltb 0 (length auth_data - 37)))
        (codes "extension flag not matching response")
    check_extensions cbor (drop 37 auth_data)

  unfoldable pub check_user : Option Value → Action HidDevice (Unit {0})
  unfolding find_name check_optional
  check_user none = pure tt
  check_user (some value) = do
    user ← check_some (as_map value) (codes "user entry is not a map")
    id ←
        check_some (find_name cbor (codes "id") user)
          (codes "public key credential user entity does not contain key \"id\"")
    check (is_some (as_bytestring id)) (codes "\"id\" in user entity is not a bytestring")
    check_optional (find_name cbor (codes "name") user) as_string
        (codes "\"name\" in user entity is not a string")
    check_optional (find_name cbor (codes "displayName") user) as_string
        (codes "\"displayName\" in user entity is not a string")
    check_optional (find_name cbor (codes "icon") user) as_string
        (codes "\"icon\" in user entity is not a string")

  unfoldable pub read_get_assertion_response :
      Value → Bool → Bytes → Action HidDevice (Response Value)
  unfolding decode_map find_key bytes_entry response_credential check_assertion_data check_user
      check_optional observe_keys get_assertion_response_key get_assertion_response_contains
  read_get_assertion_response request requires_up resp_cbor = do
    (decoded_response, decoded_map) ← decode_map cbor resp_cbor
    credential_id ← response_credential request decoded_map
    auth_data ←
        bytes_entry cbor (get_assertion_response_key GetAssertionResponse.auth_data) decoded_map
          (codes "no authData (key 2) in GetAssertion response")
          (codes "authData entry is not a bytestring")
    check_assertion_data request requires_up credential_id auth_data
    bytes_entry cbor (get_assertion_response_key GetAssertionResponse.signature) decoded_map
        (codes "no signature (key 3) in GetAssertion response")
        (codes "signature entry is not a bytestring")
    check_user (find_key cbor (get_assertion_response_key GetAssertionResponse.user) decoded_map)
    check_optional
        (find_key cbor (get_assertion_response_key GetAssertionResponse.number_of_credentials)
          decoded_map)
        as_unsigned (codes "number of credentials entry is not an unsigned")
    observe_keys cbor get_assertion_response_contains
        (λ map_key.
          codes "Received unspecified GetAssertion map key " ++ decimal map_key ++ codes ".")
        (codes "Some GetAssertion map keys are not unsigned.") (entries decoded_map)
    pure (answer decoded_response)

  unfoldable pub get_assertion_positive_test : Value → Action HidDevice (Response Value)
  unfolding encode_request exchange on_success extract_up_option_from_get_assertion_request
      read_get_assertion_response
  get_assertion_positive_test request = do
    encoded_request ← encode_request cbor request
    requires_up ← extract_up_option_from_get_assertion_request cbor request
    exchange authenticator_get_assertion encoded_request requires_up
        >>= on_success (read_get_assertion_response request requires_up)

  unfoldable pub get_next_assertion_positive_test : Value → Action HidDevice (Response Value)
  get_next_assertion_positive_test request = pure (answer cbor.none_value)

  unfoldable pub reset_positive_test : Action HidDevice (Response Value)
  unfolding exchange on_success
  reset_positive_test =
      exchange authenticator_reset [] true
      >>= on_success (λ resp_cbor.
        check (is_empty resp_cbor) (codes "CBOR response not empty")
        >> pure (answer cbor.none_value))
