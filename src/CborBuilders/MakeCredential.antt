-- ===== src/CborBuilders/MakeCredential.antt =====
-- `MakeCredentialCborBuilder`.
use ctap2_test_tool.Base.{Bool, Bytes, [], codes, pos, replicate, ◌∷◌}
use ctap2_test_tool.Cbor.{Cbor}
use ctap2_test_tool.CborBuilders.{default_client_data_hash, set_arbitrary_map_entry, unless_entry}
use ctap2_test_tool.Constants.Keys.{MakeCredentialParameters, make_credential_parameters_key}
use ctap2_test_tool.Constants.Numbers.{algorithm_number, es256, rs256}
use ctap2_test_tool.Crypto.{Library, left_hmac_sha256}

module _ (cbor : Cbor) where
  open cbor use {
    Value, MapValue, of_int, of_string, of_bytes, of_bool, of_array, of_map, assign, empty_map,
  }

  unfoldable pub set_default_client_data_hash : MapValue → MapValue
  unfolding set_arbitrary_map_entry make_credential_parameters_key
  set_default_client_data_hash =
      set_arbitrary_map_entry cbor
        (make_credential_parameters_key MakeCredentialParameters.client_data_hash)
        (of_bytes default_client_data_hash)

  unfoldable pub set_default_public_key_credential_rp_entity : Bytes → MapValue → MapValue
  unfolding set_arbitrary_map_entry make_credential_parameters_key
  set_default_public_key_credential_rp_entity rp_id =
      set_arbitrary_map_entry cbor (make_credential_parameters_key MakeCredentialParameters.rp)
        (of_map (assign empty_map (of_string (codes "id")) (of_string rp_id)))

  unfoldable pub set_public_key_credential_user_entity : Bytes → Bytes → MapValue → MapValue
  unfolding set_arbitrary_map_entry make_credential_parameters_key
  set_public_key_credential_user_entity user_id user_name =
      set_arbitrary_map_entry cbor (make_credential_parameters_key MakeCredentialParameters.user) (
        of_map (
          assign (assign empty_map (of_string (codes "id")) (of_bytes user_id))
            (of_string (codes "name")) (of_string user_name)))

  unfoldable pub set_default_public_key_credential_user_entity : MapValue → MapValue
  unfolding set_public_key_credential_user_entity
  set_default_public_key_credential_user_entity =
      set_public_key_credential_user_entity (replicate 32 0x1D) (codes "Adam")

  unfoldable pub set_es256_credential_parameters : MapValue → MapValue
  unfolding set_arbitrary_map_entry make_credential_parameters_key algorithm_number
  set_es256_credential_parameters =
      set_arbitrary_map_entry cbor
        (make_credential_parameters_key MakeCredentialParameters.pub_key_cred_params)
        (of_array (
          of_map (
            assign (assign empty_map (of_string (codes "alg")) (of_int (algorithm_number es256)))
              (of_string (codes "type")) (of_string (codes "public-key")))
          ∷ []))

  unfoldable pub set_rs256_credential_parameters : MapValue → MapValue
  unfolding set_arbitrary_map_entry make_credential_parameters_key algorithm_number
  set_rs256_credential_parameters =
      set_arbitrary_map_entry cbor
        (make_credential_parameters_key MakeCredentialParameters.pub_key_cred_params)
        (of_array (
          of_map (
            assign (assign empty_map (of_string (codes "alg")) (of_int (algorithm_number rs256)))
              (of_string (codes "type")) (of_string (codes "public-key")))
          ∷ []))

  unfoldable pub set_exclude_list_credential : Bytes → MapValue → MapValue
  unfolding set_arbitrary_map_entry make_credential_parameters_key
  set_exclude_list_credential cred_descriptor_id =
      set_arbitrary_map_entry cbor
        (make_credential_parameters_key MakeCredentialParameters.exclude_list)
        (of_array (
          of_map (
            assign (assign empty_map (of_string (codes "type")) (of_string (codes "public-key")))
              (of_string (codes "id")) (of_bytes cred_descriptor_id))
          ∷ []))

  unfoldable pub set_resident_key_options : Bool → MapValue → MapValue
  unfolding set_arbitrary_map_entry make_credential_parameters_key
  set_resident_key_options is_active =
      set_arbitrary_map_entry cbor (make_credential_parameters_key MakeCredentialParameters.options)
        (of_map (assign empty_map (of_string (codes "rk")) (of_bool is_active)))

  unfoldable pub set_user_presence_options : Bool → MapValue → MapValue
  unfolding set_arbitrary_map_entry make_credential_parameters_key
  set_user_presence_options is_active =
      set_arbitrary_map_entry cbor (make_credential_parameters_key MakeCredentialParameters.options)
        (of_map (assign empty_map (of_string (codes "up")) (of_bool is_active)))

  unfoldable pub set_user_verification_options : Bool → MapValue → MapValue
  unfolding set_arbitrary_map_entry make_credential_parameters_key
  set_user_verification_options is_active =
      set_arbitrary_map_entry cbor (make_credential_parameters_key MakeCredentialParameters.options)
        (of_map (assign empty_map (of_string (codes "uv")) (of_bool is_active)))

  unfoldable pub set_pin_uv_auth_param : Bytes → MapValue → MapValue
  unfolding set_arbitrary_map_entry make_credential_parameters_key
  set_pin_uv_auth_param auth_param =
      set_arbitrary_map_entry cbor
        (make_credential_parameters_key MakeCredentialParameters.pin_uv_auth_param)
        (of_bytes auth_param)

  unfoldable pub set_default_pin_uv_auth_param : Library → Bytes → MapValue → MapValue
  unfolding set_pin_uv_auth_param
  set_default_pin_uv_auth_param library pin_token =
      set_pin_uv_auth_param (left_hmac_sha256 library pin_token default_client_data_hash)

  unfoldable pub set_default_pin_uv_auth_protocol : MapValue → MapValue
  unfolding set_arbitrary_map_entry make_credential_parameters_key
  set_default_pin_uv_auth_protocol =
      set_arbitrary_map_entry cbor
        (make_credential_parameters_key MakeCredentialParameters.pin_uv_auth_protocol)
        (of_int (pos 1))

  unfoldable pub add_defaults_for_required_fields : Bytes → MapValue → MapValue
  unfolding unless_entry
  add_defaults_for_required_fields rp_id request =
      unless_entry cbor 4 set_es256_credential_parameters (
        unless_entry cbor 3 set_default_public_key_credential_user_entity (
          unless_entry cbor 2 (set_default_public_key_credential_rp_entity rp_id)
            (unless_entry cbor 1 set_default_client_data_hash request)))
