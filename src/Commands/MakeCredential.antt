-- ===== src/Commands/MakeCredential.antt =====
-- `MakeCredentialPositiveTest`.
use ctap2_test_tool.Base.{
  Action, Bytes, bool_eq, bytes_eq, check, check_some, codes, decimal, deref, drop, false, get_or,
  if◌then◌else◌, int_eq, leb, length, ltb, pure, take, true, ℕ, ◌*◌, ◌++◌, ◌+◌, ◌>>=◌, ◌>>◌,
}
use ctap2_test_tool.Cbor.{Cbor}
use ctap2_test_tool.Commands.{
  check_extensions, decode_map, encode_request, exchange, find_key, find_name, has_flag,
  observe_keys, on_counter_checker, on_key_checker, on_success,
}
use ctap2_test_tool.Commands.KeyCheck.{
  bytes_entry, check_rp_id_hash, check_verification_flag, pub_key_duplicate_check,
  read_signature_counter,
}
use ctap2_test_tool.Commands.Requests.{
  extract_rp_id_from_make_credential_request, is_key_in_request,
}
use ctap2_test_tool.Constants.Codes.{authenticator_make_credential}
use ctap2_test_tool.Constants.Keys.{
  MakeCredentialParameters, MakeCredentialResponse, make_credential_parameters_key,
  make_credential_response_contains, make_credential_response_key,
}
use ctap2_test_tool.Constants.Numbers.{algorithm_number, es256}
use ctap2_test_tool.Crypto.{Library, extract_ecdsa_signature_r}
use ctap2_test_tool.Hid.Device.{HidDevice}
use ctap2_test_tool.ParameterCheck.{check_key, register_counter}
use ctap2_test_tool.Tracker.{Response, answer}

module _ (cbor : Cbor) (library : Library) where
  open cbor use {Value, MapValue, as_map, as_string, as_integer, as_bytestring, entries}

  -- The attested credential data after the counter: the identifier is registered with the
  -- counter, and the public key behind it must be fresh.
  unfoldable pub check_attested_data : Bytes → ℕ → ℕ → Action HidDevice (Unit {0})
  unfolding has_flag on_counter_checker register_counter pub_key_duplicate_check check_extensions
  check_attested_data auth_data flags counter = do
    check (has_flag flags 0x40) (codes "attested credential data flag was not set")
    check (leb 55 (length auth_data))
        (codes "authData does not fit the attested credential data length")
    credential_id_length ← pure (256 * get_or auth_data 53 0 + get_or auth_data 54 0)
    check (leb (55 + credential_id_length) (length auth_data))
        (codes "authData does not fit the attested credential ID")
    on_counter_checker (register_counter (take credential_id_length (drop 55 auth_data)) counter)
    cose_key ← pure (drop (55 + credential_id_length) auth_data)
    cose_key_size ← pub_key_duplicate_check cbor cose_key
    check (bool_eq (has_flag flags 0x80) (ltb cose_key_size (length cose_key)))
        (codes "extension flag not matching response")
    check_extensions cbor (drop cose_key_size cose_key)

  -- The statement of format "packed". The source compares an iterator of this inner map with the
  -- end of the outer map, so a key that is missing is dereferenced all the same.
  unfoldable pub check_packed_statement : Value → Action HidDevice (Unit {0})
  unfolding find_name on_key_checker check_key extract_ecdsa_signature_r algorithm_number
  check_packed_statement value = do
    att_stmt ← check_some (as_map value) (codes "attStmt for fmt \"packed\" is not a map")
    alg_value ← deref (find_name cbor (codes "alg") att_stmt)
    alg ←
        check_some (as_integer alg_value)
          (codes "\"alg\" in attStmt for fmt \"packed\" is not an integer")
    sig_value ← deref (find_name cbor (codes "sig") att_stmt)
    sig ←
        check_some (as_bytestring sig_value)
          (codes "\"sig\" in attStmt for fmt \"packed\" is not a bytestring")
    elim (int_eq alg (algorithm_number es256)) [
      | false ↦ pure tt
      | true ↦ extract_ecdsa_signature_r library sig >>= λ r. on_key_checker (check_key r)
    ]

  unfoldable pub check_authenticator_data : Value → Bytes → Action HidDevice (Unit {0})
  unfolding check_rp_id_hash extract_rp_id_from_make_credential_request has_flag is_key_in_request
      check_verification_flag read_signature_counter check_attested_data
      make_credential_parameters_key
  check_authenticator_data request auth_data = do
    check_rp_id_hash library auth_data (extract_rp_id_from_make_credential_request cbor request)
    flags ← pure (get_or auth_data 32 0)
    check (has_flag flags 0x01) (codes "user presence flag was not set")
    has_token ←
        is_key_in_request cbor request
          (make_credential_parameters_key MakeCredentialParameters.pin_uv_auth_param)
    check_verification_flag has_token flags
    counter ← read_signature_counter auth_data
    check_attested_data auth_data flags counter

  unfoldable pub read_make_credential_response : Value → Bytes → Action HidDevice (Response Value)
  unfolding decode_map find_key bytes_entry check_authenticator_data check_packed_statement
      observe_keys make_credential_response_key make_credential_response_contains
  read_make_credential_response request response_cbor = do
    (decoded_response, decoded_map) ← decode_map cbor response_cbor
    fmt_value ←
        check_some
          (find_key cbor (make_credential_response_key MakeCredentialResponse.fmt) decoded_map)
          (codes "no fmt (key 1) in MakeCredential response")
    fmt ← check_some (as_string fmt_value) (codes "fmt is not a string")
    auth_data ←
        bytes_entry cbor (make_credential_response_key MakeCredentialResponse.auth_data) decoded_map
          (codes "no authData (key 2) in MakeCredential response")
          (codes "authData entry is not a bytestring")
    check_authenticator_data request auth_data
    att_stmt ←
        check_some
          (find_key cbor (make_credential_response_key MakeCredentialResponse.att_stmt) decoded_map)
          (codes "no attStmt (key 3) in MakeCredential response")
    (if bytes_eq fmt (codes "packed") then check_packed_statement att_stmt else pure tt)
    observe_keys cbor make_credential_response_contains
        (λ map_key.
          codes "Received unspecified MakeCredential map key " ++ decimal map_key ++ codes ".")
        (codes "Some MakeCredential map keys are not unsigned.") (entries decoded_map)
    pure (answer decoded_response)

  unfoldable pub make_credential_positive_test : Value → Action HidDevice (Response Value)
  unfolding encode_request exchange on_success read_make_credential_response
  make_credential_positive_test request = do
    encoded_request ← encode_request cbor request
    exchange authenticator_make_credential encoded_request true
        >>= on_success (read_make_credential_response request)
