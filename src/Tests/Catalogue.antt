-- ===== src/Tests/Catalogue.antt =====
-- src/tests/test_series.cc: `GetTests`, all conformance tests in the order in which they run.
use ctap2_test_tool.Base.{List, [], ◌++◌, ◌∷◌}
use ctap2_test_tool.Cbor.{Cbor}
use ctap2_test_tool.Crypto.{Library}
use ctap2_test_tool.Tests.{BaseTest}
use ctap2_test_tool.Tests.AssertionTests.{
  get_assertion_allow_list_credential_descriptor_test, get_assertion_allow_list_depth_test,
  get_assertion_bad_parameter_types_test, get_assertion_empty_user_id_test,
  get_assertion_extensions_test, get_assertion_missing_parameter_test,
  get_assertion_non_resident_key_test, get_assertion_option_rk_test,
  get_assertion_option_unknown_test, get_assertion_option_up_test,
  get_assertion_option_uv_false_test, get_assertion_option_uv_true_test,
  get_assertion_physical_presence_test, get_assertion_pin_auth_empty_test,
  get_assertion_pin_auth_empty_with_pin_test, get_assertion_pin_auth_missing_parameter_test,
  get_assertion_pin_auth_no_pin_test, get_assertion_pin_auth_protocol_test,
  get_assertion_pin_auth_test, get_assertion_resident_key_test,
}
use ctap2_test_tool.Tests.ClientPin.{
  change_pin_bad_parameter_types_test, change_pin_missing_parameter_test,
  client_pin_auth_block_pin_retries_test, client_pin_block_pin_retries_test,
  client_pin_general_pin_retries_test, client_pin_new_requirements_change_pin_test,
  client_pin_new_requirements_set_pin_test, client_pin_old_key_material_test,
  client_pin_requirements_change_pin_test, client_pin_requirements_set_pin_test,
  get_key_agreement_bad_parameter_types_test, get_key_agreement_missing_parameter_test,
  get_pin_retries_bad_parameter_types_test, get_pin_retries_missing_parameter_test,
  get_pin_uv_auth_token_using_pin_bad_parameter_types_test,
  get_pin_uv_auth_token_using_pin_missing_parameter_test,
  get_pin_uv_auth_token_using_uv_bad_parameter_types_test,
  get_pin_uv_auth_token_using_uv_missing_parameter_test, get_uv_retries_bad_parameter_types_test,
  get_uv_retries_missing_parameter_test, set_pin_bad_parameter_types_test,
  set_pin_missing_parameter_test,
}
use ctap2_test_tool.Tests.CredentialTests.{
  make_credential_bad_parameter_types_test, make_credential_cred_params_test,
  make_credential_duplicate_test, make_credential_exclude_list_credential_descriptor_test,
  make_credential_exclude_list_depth_test, make_credential_exclude_list_test,
  make_credential_extensions_test, make_credential_full_store_test,
  make_credential_hmac_secret_test, make_credential_missing_parameter_test,
  make_credential_non_ascii_display_name_test, make_credential_option_rk_test,
  make_credential_option_unknown_test, make_credential_option_up_false_test,
  make_credential_option_uv_false_test, make_credential_option_uv_true_test,
  make_credential_physical_presence_test, make_credential_pin_auth_empty_test,
  make_credential_pin_auth_empty_with_pin_test, make_credential_pin_auth_missing_parameter_test,
  make_credential_pin_auth_no_pin_test, make_credential_pin_auth_protocol_test,
  make_credential_pin_auth_test, make_credential_relying_party_entity_test,
  make_credential_user_entity_test, make_credential_utf8_display_name_test,
}
use ctap2_test_tool.Tests.General.{
  get_info_test, persistent_credentials_test, persistent_pin_retries_test,
  regenerates_pin_auth_test, wink_test,
}
use ctap2_test_tool.Tests.Reset.{
  delete_credentials_test, delete_pin_test, reset_physical_presence_test,
}

module _ (cbor : Cbor) (library : Library) where
  unfoldable pub make_credential_tests : List (BaseTest cbor)
  unfolding make_credential_bad_parameter_types_test make_credential_missing_parameter_test
      make_credential_relying_party_entity_test make_credential_user_entity_test
      make_credential_exclude_list_depth_test
      make_credential_exclude_list_credential_descriptor_test make_credential_extensions_test
      make_credential_exclude_list_test make_credential_cred_params_test
      make_credential_option_rk_test make_credential_option_up_false_test
      make_credential_option_uv_false_test make_credential_option_uv_true_test
      make_credential_option_unknown_test make_credential_pin_auth_empty_test
      make_credential_pin_auth_protocol_test make_credential_pin_auth_no_pin_test
      make_credential_pin_auth_empty_with_pin_test make_credential_pin_auth_test
      make_credential_pin_auth_missing_parameter_test make_credential_duplicate_test
      make_credential_full_store_test make_credential_physical_presence_test
      make_credential_non_ascii_display_name_test make_credential_utf8_display_name_test
      make_credential_hmac_secret_test
  make_credential_tests =
      make_credential_bad_parameter_types_test cbor library
      ∷ make_credential_missing_parameter_test cbor library
      ∷ make_credential_relying_party_entity_test cbor library
      ∷ make_credential_user_entity_test cbor library
      ∷ make_credential_exclude_list_depth_test cbor library
      ∷ make_credential_exclude_list_credential_descriptor_test cbor library
      ∷ make_credential_extensions_test cbor library
      ∷ make_credential_exclude_list_test cbor library
      ∷ make_credential_cred_params_test cbor library
      ∷ make_credential_option_rk_test cbor library
      ∷ make_credential_option_up_false_test cbor library
      ∷ make_credential_option_uv_false_test cbor library
      ∷ make_credential_option_uv_true_test cbor library
      ∷ make_credential_option_unknown_test cbor library
      ∷ make_credential_pin_auth_empty_test cbor library
      ∷ make_credential_pin_auth_protocol_test cbor library
      ∷ make_credential_pin_auth_no_pin_test cbor library
      ∷ make_credential_pin_auth_empty_with_pin_test cbor library
      ∷ make_credential_pin_auth_test cbor library
      ∷ make_credential_pin_auth_missing_parameter_test cbor library
      ∷ make_credential_duplicate_test cbor library
      ∷ make_credential_full_store_test cbor library
      ∷ make_credential_physical_presence_test cbor library
      ∷ make_credential_non_ascii_display_name_test cbor library
      ∷ make_credential_utf8_display_name_test cbor library
      ∷ make_credential_hmac_secret_test cbor library
      ∷ []

  unfoldable pub get_assertion_tests : List (BaseTest cbor)
  unfolding get_assertion_bad_parameter_types_test get_assertion_missing_parameter_test
      get_assertion_allow_list_depth_test get_assertion_allow_list_credential_descriptor_test
      get_assertion_extensions_test get_assertion_option_rk_test get_assertion_option_up_test
      get_assertion_option_uv_false_test get_assertion_option_uv_true_test
      get_assertion_option_unknown_test get_assertion_resident_key_test
      get_assertion_non_resident_key_test get_assertion_pin_auth_empty_test
      get_assertion_pin_auth_protocol_test get_assertion_pin_auth_no_pin_test
      get_assertion_pin_auth_empty_with_pin_test get_assertion_pin_auth_test
      get_assertion_pin_auth_missing_parameter_test get_assertion_physical_presence_test
      get_assertion_empty_user_id_test
  get_assertion_tests =
      get_assertion_bad_parameter_types_test cbor library
      ∷ get_assertion_missing_parameter_test cbor library
      ∷ get_assertion_allow_list_depth_test cbor library
      ∷ get_assertion_allow_list_credential_descriptor_test cbor library
      ∷ get_assertion_extensions_test cbor library
      ∷ get_assertion_option_rk_test cbor library
      ∷ get_assertion_option_up_test cbor library
      ∷ get_assertion_option_uv_false_test cbor library
      ∷ get_assertion_option_uv_true_test cbor library
      ∷ get_assertion_option_unknown_test cbor library
      ∷ get_assertion_resident_key_test cbor library
      ∷ get_assertion_non_resident_key_test cbor library
      ∷ get_assertion_pin_auth_empty_test cbor library
      ∷ get_assertion_pin_auth_protocol_test cbor library
      ∷ get_assertion_pin_auth_no_pin_test cbor library
      ∷ get_assertion_pin_auth_empty_with_pin_test cbor library
      ∷ get_assertion_pin_auth_test cbor library
      ∷ get_assertion_pin_auth_missing_parameter_test cbor library
      ∷ get_assertion_physical_presence_test cbor library
      ∷ get_assertion_empty_user_id_test cbor library
      ∷ []

  unfoldable pub client_pin_tests : List (BaseTest cbor)
  unfolding get_pin_retries_bad_parameter_types_test get_pin_retries_missing_parameter_test
      get_key_agreement_bad_parameter_types_test get_key_agreement_missing_parameter_test
      set_pin_bad_parameter_types_test set_pin_missing_parameter_test
      change_pin_bad_parameter_types_test change_pin_missing_parameter_test
      get_pin_uv_auth_token_using_pin_bad_parameter_types_test
      get_pin_uv_auth_token_using_pin_missing_parameter_test
      get_pin_uv_auth_token_using_uv_bad_parameter_types_test
      get_pin_uv_auth_token_using_uv_missing_parameter_test get_uv_retries_bad_parameter_types_test
      get_uv_retries_missing_parameter_test client_pin_requirements_set_pin_test
      client_pin_requirements_change_pin_test client_pin_new_requirements_set_pin_test
      client_pin_new_requirements_change_pin_test client_pin_old_key_material_test
      client_pin_general_pin_retries_test client_pin_auth_block_pin_retries_test
      client_pin_block_pin_retries_test
  client_pin_tests =
      get_pin_retries_bad_parameter_types_test cbor library
      ∷ get_pin_retries_missing_parameter_test cbor library
      ∷ get_key_agreement_bad_parameter_types_test cbor library
      ∷ get_key_agreement_missing_parameter_test cbor library
      ∷ set_pin_bad_parameter_types_test cbor library
      ∷ set_pin_missing_parameter_test cbor library
      ∷ change_pin_bad_parameter_types_test cbor library
      ∷ change_pin_missing_parameter_test cbor library
      ∷ get_pin_uv_auth_token_using_pin_bad_parameter_types_test cbor library
      ∷ get_pin_uv_auth_token_using_pin_missing_parameter_test cbor library
      ∷ get_pin_uv_auth_token_using_uv_bad_parameter_types_test cbor library
      ∷ get_pin_uv_auth_token_using_uv_missing_parameter_test cbor library
      ∷ get_uv_retries_bad_parameter_types_test cbor library
      ∷ get_uv_retries_missing_parameter_test cbor library
      ∷ client_pin_requirements_set_pin_test cbor library
      ∷ client_pin_requirements_change_pin_test cbor library
      ∷ client_pin_new_requirements_set_pin_test cbor library
      ∷ client_pin_new_requirements_change_pin_test cbor library
      ∷ client_pin_old_key_material_test cbor library
      ∷ client_pin_general_pin_retries_test cbor library
      ∷ client_pin_auth_block_pin_retries_test cbor library
      ∷ client_pin_block_pin_retries_test cbor library
      ∷ []

  unfoldable pub general_tests : List (BaseTest cbor)
  unfolding get_info_test persistent_credentials_test persistent_pin_retries_test
      regenerates_pin_auth_test wink_test delete_credentials_test delete_pin_test
      reset_physical_presence_test
  general_tests =
      get_info_test cbor library
      ∷ persistent_credentials_test cbor library
      ∷ persistent_pin_retries_test cbor library
      ∷ regenerates_pin_auth_test cbor library
      ∷ wink_test cbor library
      ∷ delete_credentials_test cbor library
      ∷ delete_pin_test cbor library
      ∷ reset_physical_presence_test cbor library
      ∷ []

  unfoldable pub get_tests : List (BaseTest cbor)
  unfolding make_credential_tests get_assertion_tests client_pin_tests general_tests
  get_tests = make_credential_tests ++ get_assertion_tests ++ client_pin_tests ++ general_tests
