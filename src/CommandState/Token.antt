-- ===== src/CommandState/Token.antt =====
-- The PIN token.
use ctap2_test_tool.Base.{
  Action, Bool, Bytes, [], check_some, codes, deref, false, gets, if◌then◌else◌, modify, pure,
  ◌>>=◌, ◌>>◌,
}
use ctap2_test_tool.Cbor.{Cbor}
use ctap2_test_tool.CborBuilders.{get_cbor}
use ctap2_test_tool.CborBuilders.ClientPin.{add_defaults_for_get_pin_uv_auth_token_using_pin}
use ctap2_test_tool.CommandState.{
  CommandState, fail_again, note, ok_or_return, on_device, pin_hash_encrypted,
}
use ctap2_test_tool.CommandState.Pin.{default_pin, set_pin}
use ctap2_test_tool.Commands.ClientPin.{authenticator_client_pin_positive_test, response_entry}
use ctap2_test_tool.Commands.Negative.{authenticator_client_pin_negative_test}
use ctap2_test_tool.Constants.Codes.{Status, err_none}
use ctap2_test_tool.Constants.Keys.{ClientPinResponse}
use ctap2_test_tool.Crypto.{Library, aes256_cbc}
use ctap2_test_tool.Tracker.{Response, answer, failure}

module _ (cbor : Cbor) (library : Library) where
  open cbor use {Value, MapValue, as_map, as_bytestring, empty_map}

  unfoldable pub token_request : Bytes → Action (CommandState cbor) Value
  unfolding pin_hash_encrypted get_cbor add_defaults_for_get_pin_uv_auth_token_using_pin
  token_request pin = do
    pin_hash_enc ← pin_hash_encrypted cbor library pin
    platform_key ← gets (λ (s : CommandState cbor). s.platform_cose_key)
    pure (
        get_cbor cbor (
          add_defaults_for_get_pin_uv_auth_token_using_pin cbor platform_key pin_hash_enc
            empty_map))

  unfoldable pub store_token : Bool → Response Value → Action (CommandState cbor) Status
  unfolding note fail_again response_entry aes256_cbc
  store_token set_pin_if_necessary (failure status) = do
    (if set_pin_if_necessary then note cbor library (codes "GetAuthToken failed.") else pure tt)
    modify (λ (s : CommandState cbor). record s { auth_token = [] })
    fail_again cbor library status
  store_token set_pin_if_necessary (answer value) = do
    pin_token_map ← check_some (as_map value) (codes "Check failed: is_map()")
    entry ← deref (response_entry cbor ClientPinResponse.pin_uv_auth_token pin_token_map)
    encrypted_token ← check_some (as_bytestring entry) (codes "Check failed: is_bytestring()")
    secret ← gets (λ (s : CommandState cbor). s.shared_secret)
    token ← aes256_cbc library secret encrypted_token false
    modify (λ (s : CommandState cbor). record s { auth_token = token })
    pure err_none

  unfoldable pub request_token : Bool → Action (CommandState cbor) Status
  unfolding token_request on_device store_token authenticator_client_pin_positive_test
  request_token set_pin_if_necessary = do
    pin ← gets (λ (s : CommandState cbor). s.pin_utf8)
    request ← token_request pin
    response ← on_device cbor library (authenticator_client_pin_positive_test cbor request)
    store_token set_pin_if_necessary response

  unfoldable pub get_auth_token : Bool → Action (CommandState cbor) Status
  unfolding ok_or_return set_pin request_token
  get_auth_token set_pin_if_necessary =
      if set_pin_if_necessary
      then ok_or_return (set_pin cbor library default_pin) (request_token set_pin_if_necessary)
      else request_token set_pin_if_necessary

  unfoldable pub attempt_get_auth_token : Bytes → Bool → Action (CommandState cbor) Status
  unfolding ok_or_return set_pin token_request on_device fail_again
      authenticator_client_pin_negative_test
  attempt_get_auth_token pin redo_key_agreement =
      ok_or_return (set_pin cbor library default_pin) (do
        request ← token_request pin
        returned_status ←
            on_device cbor library (authenticator_client_pin_negative_test cbor request false)
        (if redo_key_agreement
            then fail_again cbor library returned_status
            else pure returned_status))
