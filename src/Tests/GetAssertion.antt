-- ===== src/Tests/GetAssertion.antt =====
-- src/tests/get_assertion.cc: the tests of the GetAssertion command.
use ctap2_test_tool.Base.{Bytes, [], codes, false, length, pos, replicate, true, ◌∷◌}
use ctap2_test_tool.Cbor.{Cbor}
use ctap2_test_tool.CborBuilders.Entries.{assign_texts, set_assertion_entry}
use ctap2_test_tool.CborBuilders.GetAssertion.{
  add_required_fields, set_allow_list_credential, set_default_auth_param, set_default_auth_protocol,
  set_presence_options, set_verification_options,
}
use ctap2_test_tool.Constants.Codes.{
  Command, authenticator_get_assertion, err_invalid_option, err_no_credentials,
}
use ctap2_test_tool.Constants.Keys.{GetAssertionParameters}
use ctap2_test_tool.Crypto.{Library}
use ctap2_test_tool.Tests.BadTypes.{test_bad_parameter_types}
use ctap2_test_tool.Tests.Missing.{
  test_credential_descriptors_array_for_cbor_depth, test_missing_parameters,
}
use ctap2_test_tool.Tests.Requests.{
  assertion_accepted, assertion_refused, credential_id_made, credential_made,
}
use ctap2_test_tool.Tests.Steps.{Test, current_auth_token, proceed, ◌>>=◌, ◌>>◌}

module _ (cbor : Cbor) (library : Library) where
  open cbor use {
    Value, MapValue, of_int, of_string, of_bytes, of_bool, of_array, of_map, empty_map, as_map,
    assign,
  }

  abbrev required_fields : Bytes → MapValue
  required_fields rp_id = add_required_fields cbor rp_id empty_map

  abbrev command_number : Command
  command_number = authenticator_get_assertion

  unfoldable pub assertion_bad_types : Bytes → Test cbor (Unit {0})
  unfolding credential_id_made add_required_fields set_allow_list_credential set_assertion_entry
      set_default_auth_param set_default_auth_protocol test_bad_parameter_types
  assertion_bad_types rp_id = do
    credential_id ← credential_id_made cbor library rp_id false
    listed ← proceed (set_allow_list_credential cbor credential_id (required_fields rp_id))
    extended ←
        proceed
          (set_assertion_entry cbor GetAssertionParameters.extensions (of_map empty_map) listed)
    optional ← proceed (
        set_assertion_entry cbor GetAssertionParameters.options
          (of_map (
            assign_texts cbor ((codes "up", of_bool false) ∷ (codes "uv", of_bool false) ∷ [])
              empty_map))
          extended)
    test_bad_parameter_types cbor library command_number
        (set_default_auth_protocol cbor (set_default_auth_param cbor library [] optional))
    proceed tt

  unfoldable pub assertion_missing : Bytes → Test cbor (Unit {0})
  unfolding credential_made add_required_fields test_missing_parameters
  assertion_missing rp_id = do
    credential_made cbor library rp_id true
    test_missing_parameters cbor library command_number (required_fields rp_id)
    proceed tt

  unfoldable pub allow_list_depth : Bytes → Test cbor (Unit {0})
  unfolding credential_made add_required_fields test_credential_descriptors_array_for_cbor_depth
  allow_list_depth rp_id = do
    credential_made cbor library rp_id true
    test_credential_descriptors_array_for_cbor_depth cbor library command_number
        (required_fields rp_id) (pos 3)
    proceed tt

  unfoldable pub allow_list_descriptor : Bytes → Test cbor (Unit {0})
  unfolding credential_id_made add_required_fields set_assertion_entry assertion_accepted
  allow_list_descriptor rp_id = do
    credential_id ← credential_id_made cbor library rp_id true
    descriptor ← proceed (
        of_map (
          assign_texts cbor
            ((codes "type", of_string (codes "public-key"))
              ∷ (codes "id", of_bytes credential_id)
              ∷ [])
            empty_map))
    assertion_accepted cbor library
        (set_assertion_entry cbor GetAssertionParameters.allow_list (of_array (descriptor ∷ []))
          (required_fields rp_id))
        (codes "Failure to accept a valid credential descriptor.")
    proceed tt

  unfoldable pub assertion_extensions : Bytes → Test cbor (Unit {0})
  unfolding credential_id_made add_required_fields set_allow_list_credential set_assertion_entry
      assertion_accepted
  assertion_extensions rp_id = do
    credential_id ← credential_id_made cbor library rp_id false
    extensions_map ← proceed (
        of_map (
          assign empty_map (of_string (codes "test_extension"))
            (of_string (codes "extension CBOR"))))
    assertion_accepted cbor library
        (set_assertion_entry cbor GetAssertionParameters.extensions extensions_map
          (set_allow_list_credential cbor credential_id (required_fields rp_id)))
        (codes "Failure to accept a valid extension.")
    proceed tt

  unfoldable pub assertion_option_rk : Bytes → Test cbor (Unit {0})
  unfolding credential_made add_required_fields set_assertion_entry assertion_refused
  assertion_option_rk rp_id = do
    credential_made cbor library rp_id true
    with_false ← proceed (assign empty_map (of_string (codes "rk")) (of_bool false))
    builder ← proceed (
        set_assertion_entry cbor GetAssertionParameters.options (of_map with_false)
          (required_fields rp_id))
    assertion_refused cbor library err_invalid_option builder false
        (codes "The resident key option (false) was not rejected.")
    with_true ← proceed (assign with_false (of_string (codes "rk")) (of_bool true))
    assertion_refused cbor library err_invalid_option
        (set_assertion_entry cbor GetAssertionParameters.options (of_map with_true) builder) false
        (codes "The resident key option (true) was not rejected.")

  unfoldable pub assertion_option_up : Bytes → Test cbor (Unit {0})
  unfolding credential_made add_required_fields set_presence_options assertion_accepted
  assertion_option_up rp_id = do
    credential_made cbor library rp_id true
    assertion_accepted cbor library (set_presence_options cbor false (required_fields rp_id))
        (codes "The user presence option (false) was not accepted.")
    assertion_accepted cbor library
        (set_presence_options cbor true (set_presence_options cbor false (required_fields rp_id)))
        (codes "The user presence option (true) was not accepted.")
    proceed tt

  unfoldable pub assertion_option_uv_false : Bytes → Test cbor (Unit {0})
  unfolding credential_made add_required_fields set_verification_options assertion_accepted
  assertion_option_uv_false rp_id = do
    credential_made cbor library rp_id true
    assertion_accepted cbor library (set_verification_options cbor false (required_fields rp_id))
        (codes "The user verification option (false) was not accepted.")
    proceed tt

  unfoldable pub assertion_option_uv_true : Bytes → Test cbor (Unit {0})
  unfolding credential_made add_required_fields set_verification_options current_auth_token
      set_default_auth_param set_default_auth_protocol assertion_accepted
  assertion_option_uv_true rp_id = do
    credential_made cbor library rp_id true
    token ← current_auth_token cbor library
    assertion_accepted cbor library
        (set_default_auth_protocol cbor (
          set_default_auth_param cbor library token
            (set_verification_options cbor true (required_fields rp_id))))
        (codes "The user verification option (true) was not accepted.")
    proceed tt

  unfoldable pub assertion_option_unknown : Bytes → Test cbor (Unit {0})
  unfolding credential_made add_required_fields set_assertion_entry assertion_accepted
  assertion_option_unknown rp_id = do
    credential_made cbor library rp_id true
    assertion_accepted cbor library
        (set_assertion_entry cbor GetAssertionParameters.options
          (of_map (assign empty_map (of_string (codes "unknown_option")) (of_bool false)))
          (required_fields rp_id))
        (codes "Falsely rejected unknown option.")
    proceed tt

  unfoldable pub assertion_resident_key : Bytes → Test cbor (Unit {0})
  unfolding credential_made add_required_fields assertion_refused assertion_accepted
  assertion_resident_key rp_id = do
    assertion_refused cbor library err_no_credentials (required_fields rp_id) false
        (codes "There should be no credentials for this relying party.")
    credential_made cbor library rp_id true
    assertion_accepted cbor library (required_fields rp_id)
        (codes "GetAssertion failed for for resident key.")
    proceed tt

  unfoldable pub assertion_non_resident_key : Bytes → Test cbor (Unit {0})
  unfolding credential_id_made add_required_fields assertion_refused assertion_accepted
      set_allow_list_credential
  assertion_non_resident_key rp_id = do
    assertion_refused cbor library err_no_credentials (required_fields rp_id) false
        (codes "There should be no credentials for this relying party.")
    credential_id ← credential_id_made cbor library rp_id false
    listed ← proceed (set_allow_list_credential cbor credential_id (required_fields rp_id))
    assertion_accepted cbor library listed (codes "GetAssertion failed for non-resident key.")
    assertion_refused cbor library err_no_credentials
        (set_allow_list_credential cbor (replicate (length credential_id) 0xFA) listed) false
        (codes "A fake credential ID was not rejected.")
