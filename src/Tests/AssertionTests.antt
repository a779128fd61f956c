-- ===== src/Tests/AssertionTests.antt =====
-- src/tests/get_assertion.cc: the names of the tests, their preconditions and their tags.
use ctap2_test_tool.Base.{[], codes, false, true, ◌∷◌}
use ctap2_test_tool.Cbor.{Cbor}
use ctap2_test_tool.Crypto.{Library}
use ctap2_test_tool.Tests.{BaseTest, tag_client_pin}
use ctap2_test_tool.Tests.AssertionAuth.{
  assertion_physical_presence, assertion_pin_auth, assertion_pin_auth_empty,
  assertion_pin_auth_empty_with_pin, assertion_pin_auth_missing, assertion_pin_auth_no_pin,
  assertion_pin_auth_protocol, empty_user_id,
}
use ctap2_test_tool.Tests.GetAssertion.{
  allow_list_depth, allow_list_descriptor, assertion_bad_types, assertion_extensions,
  assertion_missing, assertion_non_resident_key, assertion_option_rk, assertion_option_unknown,
  assertion_option_up, assertion_option_uv_false, assertion_option_uv_true, assertion_resident_key,
}
use ctap2_test_tool.Tests.Steps.{make_test}

module _ (cbor : Cbor) (library : Library) where
  unfoldable pub get_assertion_bad_parameter_types_test : BaseTest cbor
  unfolding make_test assertion_bad_types
  get_assertion_bad_parameter_types_test =
      make_test cbor library (codes "get_assertion_bad_parameter_types")
        (codes "Tests if GetAssertion works with parameters of the wrong type.") false []
        (assertion_bad_types cbor library)

  unfoldable pub get_assertion_missing_parameter_test : BaseTest cbor
  unfolding make_test assertion_missing
  get_assertion_missing_parameter_test =
      make_test cbor library (codes "get_assertion_missing_parameter")
        (codes "Tests if GetAssertion works with missing parameters.") false []
        (assertion_missing cbor library)

  unfoldable pub get_assertion_allow_list_depth_test : BaseTest cbor
  unfolding make_test allow_list_depth
  get_assertion_allow_list_depth_test =
      make_test cbor library (codes "get_assertion_allow_list_depth")
        (codes "Tests nested CBOR in the allow list of GetAssertion.") false []
        (allow_list_depth cbor library)

  unfoldable pub get_assertion_allow_list_credential_descriptor_test : BaseTest cbor
  unfolding make_test allow_list_descriptor
  get_assertion_allow_list_credential_descriptor_test =
      make_test cbor library (codes "get_assertion_allow_list_credential_descriptor")
        (codes "Tests credential descriptors in the allow list of GetAssertion.") false []
        (allow_list_descriptor cbor library)

  unfoldable pub get_assertion_extensions_test : BaseTest cbor
  unfolding make_test assertion_extensions
  get_assertion_extensions_test =
      make_test cbor library (codes "get_assertion_extensions")
        (codes "Tests if unknown extensions are ignored in GetAssertion.") false []
        (assertion_extensions cbor library)

  unfoldable pub get_assertion_option_rk_test : BaseTest cbor
  unfolding make_test assertion_option_rk
  get_assertion_option_rk_test =
      make_test cbor library (codes "get_assertion_option_rk")
        (codes "Tests if the resident key option is rejected in GetAssertion.") false []
        (assertion_option_rk cbor library)

  unfoldable pub get_assertion_option_up_test : BaseTest cbor
  unfolding make_test assertion_option_up
  get_assertion_option_up_test =
      make_test cbor library (codes "get_assertion_option_up")
        (codes "Tests if the user presence option is supported in GetAssertion.") false []
        (assertion_option_up cbor library)

  unfoldable pub get_assertion_option_uv_false_test : BaseTest cbor
  unfolding make_test assertion_option_uv_false
  get_assertion_option_uv_false_test =
      make_test cbor library (codes "get_assertion_option_uv_false")
        (codes "Tests if user verification set to false is accepted in GetAssertion.") false []
        (assertion_option_uv_false cbor library)

  unfoldable pub get_assertion_option_uv_true_test : BaseTest cbor
  unfolding make_test assertion_option_uv_true
  get_assertion_option_uv_true_test =
      make_test cbor library (codes "get_assertion_option_uv_true")
        (codes "Tests is user verification set to true is accepted in GetAssertion.") true
        (tag_client_pin ∷ []) (assertion_option_uv_true cbor library)

  unfoldable pub get_assertion_option_unknown_test : BaseTest cbor
  unfolding make_test assertion_option_unknown
  get_assertion_option_unknown_test =
      make_test cbor library (codes "get_assertion_option_unknown")
        (codes "Tests if unknown options are ignored in GetAssertion.") false []
        (assertion_option_unknown cbor library)

  unfoldable pub get_assertion_resident_key_test : BaseTest cbor
  unfolding make_test assertion_resident_key
  get_assertion_resident_key_test =
      make_test cbor library (codes "get_assertion_resident_key")
        (codes "Tests if assertions with resident keys work.") false []
        (assertion_resident_key cbor library)

  unfoldable pub get_assertion_non_resident_key_test : BaseTest cbor
  unfolding make_test assertion_non_resident_key
  get_assertion_non_resident_key_test =
      make_test cbor library (codes "get_assertion_non_resident_key")
        (codes "Tests if assertions with non-resident keys work.") false []
        (assertion_non_resident_key cbor library)

  unfoldable pub get_assertion_pin_auth_empty_test : BaseTest cbor
  unfolding make_test assertion_pin_auth_empty
  get_assertion_pin_auth_empty_test =
      make_test cbor library (codes "get_assertion_pin_auth_empty")
        (codes "Tests the response on an empty PIN auth without a PIN in GetAssertion.") false
        (tag_client_pin ∷ []) (assertion_pin_auth_empty cbor library)

  unfoldable pub get_assertion_pin_auth_protocol_test : BaseTest cbor
  unfolding make_test assertion_pin_auth_protocol
  get_assertion_pin_auth_protocol_test =
      make_test cbor library (codes "get_assertion_pin_auth_protocol")
        (codes "Tests if the PIN protocol parameter is checked in GetAssertion.") false
        (tag_client_pin ∷ []) (assertion_pin_auth_protocol cbor library)

  unfoldable pub get_assertion_pin_auth_no_pin_test : BaseTest cbor
  unfolding make_test assertion_pin_auth_no_pin
  get_assertion_pin_auth_no_pin_test =
      make_test cbor library (codes "get_assertion_pin_auth_no_pin")
        (codes "Tests if a PIN auth is rejected without a PIN set in GetAssertion.") false
        (tag_client_pin ∷ []) (assertion_pin_auth_no_pin cbor library)

  unfoldable pub get_assertion_pin_auth_empty_with_pin_test : BaseTest cbor
  unfolding make_test assertion_pin_auth_empty_with_pin
  get_assertion_pin_auth_empty_with_pin_test =
      make_test cbor library (codes "get_assertion_pin_auth_empty_with_pin")
        (codes "Tests the response on an empty PIN auth with a PIN in GetAssertion.") true
        (tag_client_pin ∷ []) (assertion_pin_auth_empty_with_pin cbor library)

  unfoldable pub get_assertion_pin_auth_test : BaseTest cbor
  unfolding make_test assertion_pin_auth
  get_assertion_pin_auth_test =
      make_test cbor library (codes "get_assertion_pin_auth")
        (codes "Tests if the PIN auth is correctly checked with a PIN set in GetAssertion.") true
        (tag_client_pin ∷ []) (assertion_pin_auth cbor library)

  unfoldable pub get_assertion_pin_auth_missing_parameter_test : BaseTest cbor
  unfolding make_test assertion_pin_auth_missing
  get_assertion_pin_auth_missing_parameter_test =
      make_test cbor library (codes "get_assertion_pin_auth_missing_parameter")
        (codes "Tests if client PIN fails with missing parameters in GetAssertion.") true
        (tag_client_pin ∷ []) (assertion_pin_auth_missing cbor library)

  unfoldable pub get_assertion_physical_presence_test : BaseTest cbor
  unfolding make_test assertion_physical_presence
  get_assertion_physical_presence_test =
      make_test cbor library (codes "get_assertion_physical_presence")
        (codes "Tests if user touch is required for GetAssertion.") false []
        (assertion_physical_presence cbor library)

  unfoldable pub get_assertion_empty_user_id_test : BaseTest cbor
  unfolding make_test empty_user_id
  get_assertion_empty_user_id_test =
      make_test cbor library (codes "get_assertion_empty_user_id")
        (codes "Tests if empty user IDs are omitted in the response.") false []
        (empty_user_id cbor library)
