-- ===== src/Tests/CredentialTests.antt =====
-- src/tests/make_credential.cc: the names of the tests, their preconditions and their tags.
use ctap2_test_tool.Base.{[], codes, false, true, ◌∷◌}
use ctap2_test_tool.Cbor.{Cbor}
use ctap2_test_tool.Crypto.{Library}
use ctap2_test_tool.Tests.{BaseTest, tag_client_pin, tag_fido2_point1, tag_hmac_secret}
use ctap2_test_tool.Tests.CredentialOptions.{
  credential_option_rk, credential_option_unknown, credential_option_up_false,
  credential_option_uv_false, credential_option_uv_true, credential_pin_auth,
  credential_pin_auth_empty, credential_pin_auth_empty_with_pin, credential_pin_auth_missing,
  credential_pin_auth_no_pin, credential_pin_auth_protocol,
}
use ctap2_test_tool.Tests.CredentialStore.{
  credential_duplicate, credential_physical_presence, full_store, hmac_secret,
  non_ascii_display_name, utf8_display_name,
}
use ctap2_test_tool.Tests.MakeCredential.{
  cred_params, credential_bad_types, credential_extensions, credential_missing, exclude_list,
  exclude_list_depth, exclude_list_descriptor, relying_party_entity, user_entity,
}
use ctap2_test_tool.Tests.Steps.{make_test}

module _ (cbor : Cbor) (library : Library) where
  unfoldable pub make_credential_bad_parameter_types_test : BaseTest cbor
  unfolding make_test credential_bad_types
  make_credential_bad_parameter_types_test =
      make_test cbor library (codes "make_credential_bad_parameter_types")
        (codes "Tests if MakeCredential works with parameters of the wrong type.") false []
        (credential_bad_types cbor library)

  unfoldable pub make_credential_missing_parameter_test : BaseTest cbor
  unfolding make_test credential_missing
  make_credential_missing_parameter_test =
      make_test cbor library (codes "make_credential_missing_parameter")
        (codes "Tests if MakeCredential works with missing parameters.") false []
        (credential_missing cbor library)

  unfoldable pub make_credential_relying_party_entity_test : BaseTest cbor
  unfolding make_test relying_party_entity
  make_credential_relying_party_entity_test =
      make_test cbor library (codes "make_credential_relying_party_entity")
        (codes "Tests bad parameters in RP entity parameter of MakeCredential.") false []
        (relying_party_entity cbor library)

  unfoldable pub make_credential_user_entity_test : BaseTest cbor
  unfolding make_test user_entity
  make_credential_user_entity_test =
      make_test cbor library (codes "make_credential_user_entity")
        (codes "Tests bad parameters in user parameter of MakeCredential.") false []
        (user_entity cbor library)

  unfoldable pub make_credential_exclude_list_depth_test : BaseTest cbor
  unfolding make_test exclude_list_depth
  make_credential_exclude_list_depth_test =
      make_test cbor library (codes "make_credential_exclude_list_depth")
        (codes "Tests nested CBOR in the exclude list of MakeCredential.") false []
        (exclude_list_depth cbor library)

  unfoldable pub make_credential_exclude_list_credential_descriptor_test : BaseTest cbor
  unfolding make_test exclude_list_descriptor
  make_credential_exclude_list_credential_descriptor_test =
      make_test cbor library (codes "make_credential_exclude_list_credential_descriptor")
        (codes "Tests credential descriptors in the exclude list of MakeCredential.") false []
        (exclude_list_descriptor cbor library)

  unfoldable pub make_credential_extensions_test : BaseTest cbor
  unfolding make_test credential_extensions
  make_credential_extensions_test =
      make_test cbor library (codes "make_credential_extensions")
        (codes "Tests if unknown extensions are ignored in MakeCredential.") false []
        (credential_extensions cbor library)

  unfoldable pub make_credential_exclude_list_test : BaseTest cbor
  unfolding make_test exclude_list
  make_credential_exclude_list_test =
      make_test cbor library (codes "make_credential_exclude_list")
        (codes "Tests if the exclude list is used correctly.") false [] (exclude_list cbor library)

  unfoldable pub make_credential_cred_params_test : BaseTest cbor
  unfolding make_test cred_params
  make_credential_cred_params_test =
      make_test cbor library (codes "make_credential_cred_params")
        (codes "Tests entries in the credential parameters list.") false []
        (cred_params cbor library)

  unfoldable pub make_credential_option_rk_test : BaseTest cbor
  unfolding make_test credential_option_rk
  make_credential_option_rk_test =
      make_test cbor library (codes "make_credential_option_rk")
        (codes "Tests if the resident key option is supported in MakeCredential.") false []
        (credential_option_rk cbor library)

  unfoldable pub make_credential_option_up_false_test : BaseTest cbor
  unfolding make_test credential_option_up_false
  make_credential_option_up_false_test =
      make_test cbor library (codes "make_credential_option_up_false")
        (codes "Tests if user presence set to false is rejected in MakeCredential.") false []
        (credential_option_up_false cbor library)

  unfoldable pub make_credential_option_uv_false_test : BaseTest cbor
  unfolding make_test credential_option_uv_false
  make_credential_option_uv_false_test =
      make_test cbor library (codes "make_credential_option_uv_false")
        (codes "Tests if user verification set to false is accepted in MakeCredential.") false []
        (credential_option_uv_false cbor library)

  unfoldable pub make_credential_option_uv_true_test : BaseTest cbor
  unfolding make_test credential_option_uv_true
  make_credential_option_uv_true_test =
      make_test cbor library (codes "make_credential_option_uv_true")
        (codes "Tests is user verification set to true is accepted in MakeCredential.") true
        (tag_client_pin ∷ []) (credential_option_uv_true cbor library)

  unfoldable pub make_credential_option_unknown_test : BaseTest cbor
  unfolding make_test credential_option_unknown
  make_credential_option_unknown_test =
      make_test cbor library (codes "make_credential_option_unknown")
        (codes "Tests if unknown options are ignored in MakeCredential.") false []
        (credential_option_unknown cbor library)

  unfoldable pub make_credential_pin_auth_empty_test : BaseTest cbor
  unfolding make_test credential_pin_auth_empty
  make_credential_pin_auth_empty_test =
      make_test cbor library (codes "make_credential_pin_auth_empty")
        (codes "Tests the response on an empty PIN auth without a PIN in MakeCredential.") false
        (tag_client_pin ∷ []) (credential_pin_auth_empty cbor library)

  unfoldable pub make_credential_pin_auth_protocol_test : BaseTest cbor
  unfolding make_test credential_pin_auth_protocol
  make_credential_pin_auth_protocol_test =
      make_test cbor library (codes "make_credential_pin_auth_protocol")
        (codes "Tests if the PIN protocol parameter is checked in MakeCredential.") false
        (tag_client_pin ∷ []) (credential_pin_auth_protocol cbor library)

  unfoldable pub make_credential_pin_auth_no_pin_test : BaseTest cbor
  unfolding make_test credential_pin_auth_no_pin
  make_credential_pin_auth_no_pin_test =
      make_test cbor library (codes "make_credential_pin_auth_no_pin")
        (codes "Tests if a PIN auth is rejected without a PIN set in MakeCredential.") false
        (tag_client_pin ∷ []) (credential_pin_auth_no_pin cbor library)

  unfoldable pub make_credential_pin_auth_empty_with_pin_test : BaseTest cbor
  unfolding make_test credential_pin_auth_empty_with_pin
  make_credential_pin_auth_empty_with_pin_test =
      make_test cbor library (codes "make_credential_pin_auth_empty_with_pin")
        (codes "Tests the response on an empty PIN auth with a PIN in MakeCredential.") true
        (tag_client_pin ∷ []) (credential_pin_auth_empty_with_pin cbor library)

  unfoldable pub make_credential_pin_auth_test : BaseTest cbor
  unfolding make_test credential_pin_auth
  make_credential_pin_auth_test =
      make_test cbor library (codes "make_credential_pin_auth")
        (codes "Tests if the PIN auth is correctly checked with a PIN set in MakeCredential.") true
        (tag_client_pin ∷ []) (credential_pin_auth cbor library)

  unfoldable pub make_credential_pin_auth_missing_parameter_test : BaseTest cbor
  unfolding make_test credential_pin_auth_missing
  make_credential_pin_auth_missing_parameter_test =
      make_test cbor library (codes "make_credential_pin_auth_missing_parameter")
        (codes "Tests if client PIN fails with missing parameters in MakeCredential.") true
        (tag_client_pin ∷ []) (credential_pin_auth_missing cbor library)

  unfoldable pub make_credential_duplicate_test : BaseTest cbor
  unfolding make_test credential_duplicate
  make_credential_duplicate_test =
      make_test cbor library (codes "make_credential_duplicate")
        (codes "Tests if two credentials have the same ID.") false []
        (credential_duplicate cbor library)

  unfoldable pub make_credential_full_store_test : BaseTest cbor
  unfolding make_test full_store
  make_credential_full_store_test =
      make_test cbor library (codes "make_credential_full_store")
        (codes "Tests if storing lots of credentials is handled gracefully.") false []
        (full_store cbor library)

  unfoldable pub make_credential_physical_presence_test : BaseTest cbor
  unfolding make_test credential_physical_presence
  make_credential_physical_presence_test =
      make_test cbor library (codes "make_credential_physical_presence")
        (codes "Tests if user touch is required for MakeCredential.") false []
        (credential_physical_presence cbor library)

  unfoldable pub make_credential_non_ascii_display_name_test : BaseTest cbor
  unfolding make_test non_ascii_display_name
  make_credential_non_ascii_display_name_test =
      make_test cbor library (codes "make_credential_non_ascii_display_name")
        (codes "Tests if non-ASCII display name are accepted.") false []
        (non_ascii_display_name cbor library)

  unfoldable pub make_credential_utf8_display_name_test : BaseTest cbor
  unfolding make_test utf8_display_name
  make_credential_utf8_display_name_test =
      make_test cbor library (codes "make_credential_utf8_display_name")
        (codes "Tests if invalid UTF8 is caught in displayName.") false (tag_fido2_point1 ∷ [])
        (utf8_display_name cbor library)

  unfoldable pub make_credential_hmac_secret_test : BaseTest cbor
  unfolding make_test hmac_secret
  make_credential_hmac_secret_test =
      make_test cbor library (codes "make_credential_hmac_secret")
        (codes "Tests the HMAC secret extension with MakeCredential.") false (tag_hmac_secret ∷ [])
        (hmac_secret cbor library)
