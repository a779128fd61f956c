-- ===== src/Tests/Helpers.antt =====
-- src/tests/test_helpers.cc: the values that stand for each CBOR type, the identifier of a
-- credential, and the PIN retries.
use ctap2_test_tool.Base.{
  Bool, Bytes, List, [], check, check_some, codes, deref, drop, false, get_elem?, leb, length,
  negsuc, none, pos, some, take, to_int32, true, ℕ, ℤ, ◌*◌, ◌++◌, ◌+◌, ◌∷◌,
}
use ctap2_test_tool.Cbor.{Cbor}
use ctap2_test_tool.CborBuilders.{get_cbor}
use ctap2_test_tool.CborBuilders.ClientPin.{add_defaults_for_get_pin_retries}
use ctap2_test_tool.Commands.{find_key, has_flag}
use ctap2_test_tool.Commands.ClientPin.{authenticator_client_pin_positive_test, response_entry}
use ctap2_test_tool.Constants.Codes.{err_pin_blocked, status_eq}
use ctap2_test_tool.Constants.Keys.{ClientPinResponse, client_pin_response_key}
use ctap2_test_tool.Crypto.{Library}
use ctap2_test_tool.Rsp.Packet.{decimal_int}
use ctap2_test_tool.Tests.Steps.{
  Test, device_step, ensure_response, perform, proceed, tracker_step, value_of_response, ◌>>=◌,
  ◌>>◌,
}
use ctap2_test_tool.Tracker.{Response, add_observation, answer, failure, has_version}

-- The types of `cbor::Value::Type` in the order of the table of examples.
pub data CborType : Type 0 where
  type_unsigned type_negative type_byte_string type_string type_array type_map : CborType
  type_simple_value : CborType

unfoldable pub cbor_type_to_string : CborType → Bytes
cbor_type_to_string type_unsigned = codes "unsigned"
cbor_type_to_string type_negative = codes "negative"
cbor_type_to_string type_byte_string = codes "byte string"
cbor_type_to_string type_string = codes "text string"
cbor_type_to_string type_array = codes "array"
cbor_type_to_string type_map = codes "map"
cbor_type_to_string type_simple_value = codes "simple value"

abbrev pub bad_pin : Bytes
bad_pin = 0x66 ∷ 0x61 ∷ 0x6B ∷ 0x65 ∷ []

abbrev pub length_offset : ℕ
length_offset = 53

module _ (cbor : Cbor) where
  open cbor use {
    Value, of_int, of_string, of_bytes, of_bool, of_array, of_map, as_integer, as_string,
    as_bytestring, as_map, assign, empty_map,
  }

  unfoldable pub type_examples : List (CborType × Value)
  type_examples =
      (type_unsigned, of_int (pos 42))
      ∷ (type_negative, of_int (negsuc 41))
      ∷ (type_byte_string, of_bytes (0x42 ∷ []))
      ∷ (type_string, of_string (codes "42"))
      ∷ (type_array, of_array (of_int (pos 42) ∷ []))
      ∷ (type_map, of_map (assign empty_map (of_int (pos 42)) (of_int (pos 42))))
      ∷ (type_simple_value, of_bool true)
      ∷ []

  -- A key as text: integers and strings are quoted, other values left out.
  unfoldable pub cbor_to_string : Bytes → Value → Bytes
  unfolding decimal_int
  cbor_to_string name_prefix cbor_value = elim (as_integer cbor_value) [
    | some i ↦ name_prefix ++ codes " \"" ++ decimal_int i ++ codes "\""
    | none ↦ elim (as_string cbor_value) [
      | some text ↦ name_prefix ++ codes " \"" ++ text ++ codes "\""
      | none ↦ name_prefix
    ]
  ]

  -- The retries, converted to an `int`.
  unfoldable pub extract_pin_retries : Value → Test cbor ℤ
  unfolding client_pin_response_key response_entry
  extract_pin_retries response = do
    decoded_map ← perform (check_some (as_map response) (codes "Check failed: is_map()"))
    entry ← perform (
        check_some (response_entry cbor ClientPinResponse.pin_retries decoded_map)
          (codes "key 3 for pinRetries is not contained"))
    retries ← perform (check_some (as_integer entry) (codes "pinRetries entry is not an integer"))
    proceed (to_int32 retries)

  -- The bytes of the identifier, after its length in two bytes.
  unfoldable pub credential_id_of : Bytes → Test cbor Bytes
  unfolding has_flag
  credential_id_of auth_data = do
    perform (
        check (leb (length_offset + 2) (length auth_data))
          (codes "authData does not fit the attested credential data length"))
    flags ← perform (deref (get_elem? auth_data 32))
    perform (
        check (has_flag flags 0x40)
          (codes "flags not indicating that attested credential data is included"))
    high ← perform (deref (get_elem? auth_data length_offset))
    low ← perform (deref (get_elem? auth_data (length_offset + 1)))
    credential_id_length ← proceed (256 * high + low)
    perform (
        check (leb (length_offset + 2 + credential_id_length) (length auth_data))
          (codes "authData does not fit the attested credential ID"))
    proceed (take credential_id_length (drop (length_offset + 2) auth_data))

  unfoldable pub extract_credential_id : Value → Test cbor Bytes
  unfolding credential_id_of find_key
  extract_credential_id response = do
    decoded_map ← perform (check_some (as_map response) (codes "Check failed: is_map()"))
    entry ←
        perform
          (check_some (find_key cbor 2 decoded_map) (codes "key 2 for authData is not contained"))
    auth_data ←
        perform (check_some (as_bytestring entry) (codes "authData entry is not a bytestring"))
    credential_id_of auth_data

module _ (cbor : Cbor) (library : Library) where
  open cbor use {Value, empty_map}

  unfoldable pub get_pin_retries_response : Test cbor (Response Value)
  unfolding device_step authenticator_client_pin_positive_test get_cbor
      add_defaults_for_get_pin_retries
  get_pin_retries_response = device_step cbor library (
      authenticator_client_pin_positive_test cbor
        (get_cbor cbor (add_defaults_for_get_pin_retries cbor empty_map)))

  -- Whether a response is the status that the PIN is blocked.
  abbrev pub is_pin_blocked : Response Value → Bool
  is_pin_blocked (answer value) = false
  is_pin_blocked (failure status) = status_eq status err_pin_blocked

  -- `GetPinRetries`. Its error message ends the test in every caller.
  unfoldable pub get_pin_retries_of_device : Test cbor ℤ
  unfolding get_pin_retries_response tracker_step add_observation ensure_response value_of_response
      extract_pin_retries
  get_pin_retries_of_device = do
    response ← get_pin_retries_response
    elim (is_pin_blocked response) [
      | true ↦
          tracker_step cbor library (λ t. (
            tt,
            add_observation
                (codes
                  "GetPinRetries was blocked instead of returning 0. The specification does not explicitly disallow this.")
                t,
          ))
          >> proceed (pos 0)
      | false ↦
          ensure_response cbor library response (codes "Cannot get PIN retries for further tests.")
          >> (value_of_response cbor library response >>= extract_pin_retries cbor)
    ]

  unfoldable pub is_fido2_point1_complicant : Test cbor Bool
  unfolding tracker_step has_version
  is_fido2_point1_complicant =
      tracker_step cbor library (λ t. (has_version (codes "FIDO_2_1_PRE") t, t))
