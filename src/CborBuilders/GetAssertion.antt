-- ===== src/CborBuilders/GetAssertion.antt =====
-- `GetAssertionCborBuilder`.
use ctap2_test_tool.Base.{Bool, Bytes, [], codes, pos, ◌∷◌}
use ctap2_test_tool.Cbor.{Cbor}
use ctap2_test_tool.CborBuilders.{default_client_data_hash, set_arbitrary_map_entry, unless_entry}
use ctap2_test_tool.Constants.Keys.{GetAssertionParameters, get_assertion_parameters_key}
use ctap2_test_tool.Crypto.{Library, left_hmac_sha256}

module _ (cbor : Cbor) where
  open cbor use {
    Value, MapValue, of_int, of_string, of_bytes, of_bool, of_array, of_map, assign, empty_map,
  }

  unfoldable pub set_relying_party : Bytes → MapValue → MapValue
  unfolding set_arbitrary_map_entry get_assertion_parameters_key
  set_relying_party rp_id =
      set_arbitrary_map_entry cbor (get_assertion_parameters_key GetAssertionParameters.rp_id)
        (of_string rp_id)

  unfoldable pub set_client_data_hash : MapValue → MapValue
  unfolding set_arbitrary_map_entry get_assertion_parameters_key
  set_client_data_hash =
      set_arbitrary_map_entry cbor
        (get_assertion_parameters_key GetAssertionParameters.client_data_hash)
        (of_bytes default_client_data_hash)

  unfoldable pub set_allow_list_credential : Bytes → MapValue → MapValue
  unfolding set_arbitrary_map_entry get_assertion_parameters_key
  set_allow_list_credential cred_descriptor_id =
      set_arbitrary_map_entry cbor (get_assertion_parameters_key GetAssertionParameters.allow_list)
        (of_array (
          of_map (
            assign (assign empty_map (of_string (codes "type")) (of_string (codes "public-key")))
              (of_string (codes "id")) (of_bytes cred_descriptor_id))
          ∷ []))

  unfoldable pub set_presence_options : Bool → MapValue → MapValue
  unfolding set_arbitrary_map_entry get_assertion_parameters_key
  set_presence_options is_active =
      set_arbitrary_map_entry cbor (get_assertion_parameters_key GetAssertionParameters.options)
        (of_map (assign empty_map (of_string (codes "up")) (of_bool is_active)))

  unfoldable pub set_verification_options : Bool → MapValue → MapValue
  unfolding set_arbitrary_map_entry get_assertion_parameters_key
  set_verification_options is_active =
      set_arbitrary_map_entry cbor (get_assertion_parameters_key GetAssertionParameters.options)
        (of_map (assign empty_map (of_string (codes "uv")) (of_bool is_active)))

  unfoldable pub set_auth_param : Bytes → MapValue → MapValue
  unfolding set_arbitrary_map_entry get_assertion_parameters_key
  set_auth_param auth_param =
      set_arbitrary_map_entry cbor
        (get_assertion_parameters_key GetAssertionParameters.pin_uv_auth_param)
        (of_bytes auth_param)

  unfoldable pub set_default_auth_param : Library → Bytes → MapValue → MapValue
  unfolding set_auth_param
  set_default_auth_param library pin_token =
      set_auth_param (left_hmac_sha256 library pin_token default_client_data_hash)

  unfoldable pub set_default_auth_protocol : MapValue → MapValue
  unfolding set_arbitrary_map_entry get_assertion_parameters_key
  set_default_auth_protocol =
      set_arbitrary_map_entry cbor
        (get_assertion_parameters_key GetAssertionParameters.pin_uv_auth_protocol) (of_int (pos 1))

  unfoldable pub add_required_fields : Bytes → MapValue → MapValue
  unfolding unless_entry
  add_required_fields rp_id request =
      unless_entry cbor 2 set_client_data_hash
        (unless_entry cbor 1 (set_relying_party rp_id) request)
