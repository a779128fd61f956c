-- ===== src/Commands/ClientPin.antt =====
-- `AuthenticatorClientPinPositiveTest`. A subcommand is its number, since the value of a request
-- is cast to `PinSubCommand` unchecked; a number that names none has no case in the switch.
use ctap2_test_tool.Base.{
  Action, Bool, Bytes, List, Option, [], check, check_some, codes, decimal, false, if◌then◌else◌,
  is_empty, not, pure, true, ℕ, ◌&&◌, ◌++◌, ◌==◌, ◌>>=◌, ◌>>◌, ◌||◌, ◌∷◌,
}
use ctap2_test_tool.Cbor.{Cbor}
use ctap2_test_tool.Commands.{
  check_optional, decode_map, encode_request, exchange, find_key, observe_keys, on_success,
}
use ctap2_test_tool.Commands.Requests.{extract_sub_command_from_client_pin_request}
use ctap2_test_tool.Constants.Codes.{authenticator_client_pin}
use ctap2_test_tool.Constants.Keys.{
  ClientPinResponse, client_pin_response_key, get_assertion_response_contains,
}
use ctap2_test_tool.Constants.Numbers.{
  PinSubCommand, change_pin, get_key_agreement, get_pin_retries, get_pin_uv_auth_token_using_pin,
  get_pin_uv_auth_token_using_uv, get_uv_retries, pin_sub_command_number, set_pin,
}
use ctap2_test_tool.Crypto.{check_ecdh_cose_key}
use ctap2_test_tool.Hid.Device.{HidDevice}
use ctap2_test_tool.Tracker.{Response, answer}

unfoldable pub is_sub_command : PinSubCommand → ℕ → Bool
unfolding pin_sub_command_number
is_sub_command name sub_command = sub_command == pin_sub_command_number name

unfoldable pub allowed_map_keys : ℕ → List ClientPinResponse
unfolding is_sub_command
allowed_map_keys sub_command =
    if is_sub_command get_pin_retries sub_command
    then ClientPinResponse.pin_retries ∷ ClientPinResponse.power_cycle_state ∷ []
    else if is_sub_command get_key_agreement sub_command
    then ClientPinResponse.key_agreement ∷ []
    else if is_sub_command get_pin_uv_auth_token_using_pin sub_command
        || is_sub_command get_pin_uv_auth_token_using_uv sub_command
    then ClientPinResponse.pin_uv_auth_token ∷ []
    else if is_sub_command get_uv_retries sub_command
    then ClientPinResponse.power_cycle_state ∷ ClientPinResponse.uv_retries ∷ []
    else []

unfoldable pub contains_key : List ClientPinResponse → ℕ → Bool
unfolding client_pin_response_key
contains_key [] key = false
contains_key (k ∷ ks) key = (client_pin_response_key k == key) || contains_key ks key

-- The test of the last loop. The source asks `GetAssertionResponseContains` here.
unfoldable pub is_expected_key : ℕ → ℕ → Bool
unfolding get_assertion_response_contains contains_key allowed_map_keys
is_expected_key sub_command map_key =
    get_assertion_response_contains map_key && contains_key (allowed_map_keys sub_command) map_key

unfoldable pub has_response : ℕ → Bool
unfolding is_sub_command
has_response sub_command =
    not (is_sub_command set_pin sub_command) && not (is_sub_command change_pin sub_command)

module _ (cbor : Cbor) where
  open cbor use {Value, MapValue, as_map, as_bool, as_unsigned, as_bytestring, entries}

  unfoldable pub response_entry : ClientPinResponse → MapValue → Option Value
  unfolding find_key client_pin_response_key
  response_entry key m = find_key cbor (client_pin_response_key key) m

  -- The required entry of the response that has the view.
  unfoldable pub required :
      {S A : Type 0} → Option Value → (Value → Option A) → Bytes → Bytes → Action S A
  required entry view missing wrong = do
    value ← check_some entry missing
    check_some (view value) wrong

  unfoldable pub check_pin_retries : {S : Type 0} → MapValue → Action S (Unit {0})
  unfolding required response_entry check_optional
  check_pin_retries m = do
    required (response_entry ClientPinResponse.pin_retries m) as_unsigned
        (codes "no PIN retries (key 3) included in PIN protocol response")
        (codes "PIN retries entry is not an unsigned")
    check_optional (response_entry ClientPinResponse.power_cycle_state m) as_bool
        (codes "powerCycleState entry is not a boolean")

  unfoldable pub check_key_agreement : {S : Type 0} → MapValue → Action S (Unit {0})
  unfolding required response_entry check_ecdh_cose_key
  check_key_agreement m = do
    cose_key ←
        required (response_entry ClientPinResponse.key_agreement m) as_map
          (codes "no KeyAgreement (key 1) in PIN protocol response")
          (codes "KeyAgreement entry is not a map")
    check_ecdh_cose_key cbor cose_key

  unfoldable pub check_pin_uv_auth_token : {S : Type 0} → MapValue → Action S (Unit {0})
  unfolding required response_entry
  check_pin_uv_auth_token m = do
    required (response_entry ClientPinResponse.pin_uv_auth_token m) as_bytestring
        (codes "no pinUvAuthToken (key 2) in PIN protocol response")
        (codes "pinUvAuthToken entry is not a bytestring")
    pure tt

  unfoldable pub check_uv_retries : {S : Type 0} → MapValue → Action S (Unit {0})
  unfolding required response_entry check_optional
  check_uv_retries m = do
    check_optional (response_entry ClientPinResponse.power_cycle_state m) as_bool
        (codes "powerCycleState entry is not a boolean")
    required (response_entry ClientPinResponse.uv_retries m) as_unsigned
        (codes "no UV retries (key 5) included in PIN protocol response")
        (codes "UV retries entry is not an unsigned")
    pure tt

  -- The checks of the switch, and the keys that it allows.
  unfoldable pub check_sub_command : {S : Type 0} → ℕ → MapValue → Action S (Unit {0})
  unfolding is_sub_command check_pin_retries check_key_agreement check_pin_uv_auth_token
      check_uv_retries
  check_sub_command sub_command m =
      if is_sub_command get_pin_retries sub_command
      then check_pin_retries m
      else if is_sub_command get_key_agreement sub_command
      then check_key_agreement m
      else if is_sub_command get_pin_uv_auth_token_using_pin sub_command
          || is_sub_command get_pin_uv_auth_token_using_uv sub_command
      then check_pin_uv_auth_token m
      else if is_sub_command get_uv_retries sub_command
      then check_uv_retries m
      else pure tt

  unfoldable pub read_client_pin_response : Value → Bytes → Action HidDevice (Response Value)
  unfolding extract_sub_command_from_client_pin_request has_response decode_map check_sub_command
      observe_keys is_expected_key
  read_client_pin_response request resp_cbor = do
    sub_command ← extract_sub_command_from_client_pin_request cbor request
    elim (has_response sub_command) [
      | false ↦ (do
        check (is_empty resp_cbor) (codes "CBOR response not empty")
        check_sub_command sub_command cbor.empty_map
        pure (answer cbor.none_value))
      | true ↦ (do
        (decoded_response, decoded_map) ← decode_map cbor resp_cbor
        check_sub_command sub_command decoded_map
        observe_keys cbor (is_expected_key sub_command)
            (λ map_key.
              codes "Received unspecified ClientPin map key " ++ decimal map_key ++ codes ".")
            (codes "Some ClientPin map keys are not unsigned.") (entries decoded_map)
        pure (answer decoded_response))
    ]

  unfoldable pub authenticator_client_pin_positive_test : Value → Action HidDevice (Response Value)
  unfolding encode_request exchange on_success read_client_pin_response
  authenticator_client_pin_positive_test request = do
    encoded_request ← encode_request cbor request
    exchange authenticator_client_pin encoded_request false
        >>= on_success (read_client_pin_response request)
