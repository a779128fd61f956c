-- ===== src/Commands/Requests.antt =====
-- What the commands read from their own requests.
use ctap2_test_tool.Base.{
  Action, Bool, Bytes, check, check_some, codes, deref, get_elem?, is_some, length, none, pure,
  some, true, ℕ, ◌%◌, ◌==◌, ◌>>=◌, ◌>>◌,
}
use ctap2_test_tool.Cbor.{Cbor}
use ctap2_test_tool.Commands.{find_key, find_name}
use ctap2_test_tool.Constants.Keys.{
  ClientPinParameters, GetAssertionParameters, MakeCredentialParameters, client_pin_parameters_key,
  get_assertion_parameters_key, make_credential_parameters_key,
}
use ctap2_test_tool.Hid.Device.{HidDevice}

module _ (cbor : Cbor) where
  open cbor use {Value, MapValue, as_map, as_string, as_array, as_bool, as_unsigned, as_bytestring}

  unfoldable pub request_map : Value → Action HidDevice MapValue
  request_map request = check_some (as_map request) (codes "request is not a map - TEST SUITE BUG")

  unfoldable pub is_key_in_request : Value → ℕ → Action HidDevice Bool
  unfolding request_map find_key
  is_key_in_request request map_key = do
    m ← request_map request
    pure (is_some (find_key cbor map_key m))

  unfoldable pub extract_rp_id_from_make_credential_request : Value → Action HidDevice Bytes
  unfolding request_map find_key find_name make_credential_parameters_key
  extract_rp_id_from_make_credential_request request = do
    m ← request_map request
    entity ←
        check_some (find_key cbor (make_credential_parameters_key MakeCredentialParameters.rp) m)
          (codes "RP not in request - TEST SUITE BUG")
    inner_map ← check_some (as_map entity) (codes "RP is not a map - TEST SUITE BUG")
    id ←
        check_some (find_name cbor (codes "id") inner_map)
          (codes "\"id\" not in relying party identity map - TEST SUITE BUG")
    check_some (as_string id) (codes "\"id\" is not a string - TEST SUITE BUG")

  unfoldable pub extract_rp_id_from_get_assertion_request : Value → Action HidDevice Bytes
  unfolding request_map find_key get_assertion_parameters_key
  extract_rp_id_from_get_assertion_request request = do
    m ← request_map request
    id ←
        check_some (find_key cbor (get_assertion_parameters_key GetAssertionParameters.rp_id) m)
          (codes "RP ID not in request - TEST SUITE BUG")
    check_some (as_string id) (codes "RP ID is not a string - TEST SUITE BUG")

  -- The cast to `PinSubCommand` keeps the low byte.
  unfoldable pub extract_sub_command_from_client_pin_request : Value → Action HidDevice ℕ
  unfolding request_map find_key client_pin_parameters_key
  extract_sub_command_from_client_pin_request request = do
    m ← request_map request
    entry ←
        check_some (find_key cbor (client_pin_parameters_key ClientPinParameters.sub_command) m)
          (codes "subcommand not in request - TEST SUITE BUG")
    number ← check_some (as_unsigned entry) (codes "subcommand is not an unsigned - TEST SUITE BUG")
    pure (number % 256)

  unfoldable pub extract_unique_credential_from_allow_list : Value → Action HidDevice Bytes
  unfolding request_map find_key find_name get_assertion_parameters_key
  extract_unique_credential_from_allow_list request = do
    m ← request_map request
    entry ←
        check_some
          (find_key cbor (get_assertion_parameters_key GetAssertionParameters.allow_list) m)
          (codes "allow list not in request - TEST SUITE BUG")
    allow_list ← check_some (as_array entry) (codes "allow list is not an array - TEST SUITE BUG")
    check (length allow_list == 1) (codes "allow list length is not 1")
    first ← deref (get_elem? allow_list 0)
    cred_descriptor ←
        check_some (as_map first) (codes "credential descriptor is not a map - TEST SUITE BUG")
    id ←
        check_some (find_name cbor (codes "id") cred_descriptor)
          (codes "id not in credential descriptor - TEST SUITE BUG")
    check_some (as_bytestring id) (codes "credential ID is not a bytestring - TEST SUITE BUG")

  -- The default is true.
  unfoldable pub extract_up_option_from_get_assertion_request : Value → Action HidDevice Bool
  unfolding request_map find_key find_name get_assertion_parameters_key
  extract_up_option_from_get_assertion_request request = do
    m ← request_map request
    elim (find_key cbor (get_assertion_parameters_key GetAssertionParameters.options) m) [
      | none ↦ pure true
      | some entry ↦ (do
        inner_map ← check_some (as_map entry) (codes "options are not a map - TEST SUITE BUG")
        elim (find_name cbor (codes "up") inner_map) [
          | none ↦ pure true
          | some up ↦
              check_some (as_bool up) (codes "option \"up\" is not a boolean - TEST SUITE BUG")
        ])
    ]
