-- ===== src/Tests/ClientPin.antt =====
-- src/tests/client_pin.cc: the tests of the ClientPIN command.
use ctap2_test_tool.Base.{Bytes, [], codes, false, true, ◌∷◌}
use ctap2_test_tool.Cbor.{Cbor}
use ctap2_test_tool.CborBuilders.ClientPin.{
  add_defaults_for_change_pin, add_defaults_for_get_key_agreement, add_defaults_for_get_pin_retries,
  add_defaults_for_get_pin_uv_auth_token_using_pin, add_defaults_for_get_pin_uv_auth_token_using_uv,
  add_defaults_for_get_uv_retries, add_defaults_for_set_pin,
}
use ctap2_test_tool.Constants.Codes.{authenticator_client_pin}
use ctap2_test_tool.Crypto.{Library, generate_example_ecdh_cose_key}
use ctap2_test_tool.Tests.{BaseTest, tag_client_pin, tag_fido2_point1}
use ctap2_test_tool.Tests.BadTypes.{test_bad_parameter_types}
use ctap2_test_tool.Tests.Missing.{test_missing_parameters}
use ctap2_test_tool.Tests.PinRetries.{
  auth_block_pin_retries, block_pin_retries, general_pin_retries, new_requirements_change_pin,
  new_requirements_set_pin, old_key_material, requirements_change_pin, requirements_set_pin,
}
use ctap2_test_tool.Tests.Steps.{Test, make_test, proceed, ◌>>◌}

module _ (cbor : Cbor) where
  -- `kCoseKeyExample`.
  abbrev example_key : cbor.MapValue
  example_key = generate_example_ecdh_cose_key cbor

module _ (cbor : Cbor) (library : Library) where
  open cbor use {empty_map}

  unfoldable pub bad_types_body : cbor.MapValue → Bytes → Test cbor (Unit {0})
  unfolding test_bad_parameter_types
  bad_types_body pin_builder rp_id =
      test_bad_parameter_types cbor library authenticator_client_pin pin_builder >> proceed tt

  unfoldable pub missing_body : cbor.MapValue → Bytes → Test cbor (Unit {0})
  unfolding test_missing_parameters
  missing_body pin_builder rp_id =
      test_missing_parameters cbor library authenticator_client_pin pin_builder >> proceed tt

  unfoldable pub get_pin_retries_bad_parameter_types_test : BaseTest cbor
  unfolding make_test bad_types_body add_defaults_for_get_pin_retries
  get_pin_retries_bad_parameter_types_test =
      make_test cbor library (codes "client_pin_get_pin_retries_bad_parameter_types")
        (codes "Tests if GetPinRetries works with parameters of the wrong type.") false
        (tag_client_pin ∷ []) (bad_types_body (add_defaults_for_get_pin_retries cbor empty_map))

  unfoldable pub get_pin_retries_missing_parameter_test : BaseTest cbor
  unfolding make_test missing_body add_defaults_for_get_pin_retries
  get_pin_retries_missing_parameter_test =
      make_test cbor library (codes "client_pin_get_pin_retries_missing_parameter")
        (codes "Tests if GetPinRetries works with missing parameters.") false (tag_client_pin ∷ [])
        (missing_body (add_defaults_for_get_pin_retries cbor empty_map))

  unfoldable pub get_key_agreement_bad_parameter_types_test : BaseTest cbor
  unfolding make_test bad_types_body add_defaults_for_get_key_agreement
  get_key_agreement_bad_parameter_types_test =
      make_test cbor library (codes "client_pin_get_key_agreement_bad_parameter_types")
        (codes "Tests if GetKeyAgreement works with parameters of the wrong type.") false
        (tag_client_pin ∷ []) (bad_types_body (add_defaults_for_get_key_agreement cbor empty_map))

  unfoldable pub get_key_agreement_missing_parameter_test : BaseTest cbor
  unfolding make_test missing_body add_defaults_for_get_key_agreement
  get_key_agreement_missing_parameter_test =
      make_test cbor library (codes "client_pin_get_key_agreement_missing_parameter")
        (codes "Tests if GetKeyAgreement works with missing parameters.") false
        (tag_client_pin ∷ []) (missing_body (add_defaults_for_get_key_agreement cbor empty_map))

  unfoldable pub set_pin_bad_parameter_types_test : BaseTest cbor
  unfolding make_test bad_types_body add_defaults_for_set_pin
  set_pin_bad_parameter_types_test =
      make_test cbor library (codes "client_pin_set_pin_bad_parameter_types")
        (codes "Tests if SetPin works with parameters of the wrong type.") false
        (tag_client_pin ∷ [])
        (bad_types_body (add_defaults_for_set_pin cbor (example_key cbor) [] [] empty_map))

  unfoldable pub set_pin_missing_parameter_test : BaseTest cbor
  unfolding make_test missing_body add_defaults_for_set_pin
  set_pin_missing_parameter_test =
      make_test cbor library (codes "client_pin_set_pin_missing_parameter")
        (codes "Tests if SetPin works with missing parameters.") false (tag_client_pin ∷ [])
        (missing_body (add_defaults_for_set_pin cbor (example_key cbor) [] [] empty_map))

  unfoldable pub change_pin_bad_parameter_types_test : BaseTest cbor
  unfolding make_test bad_types_body add_defaults_for_change_pin
  change_pin_bad_parameter_types_test =
      make_test cbor library (codes "client_pin_change_pin_bad_parameter_types")
        (codes "Tests if ChangePin works with parameters of the wrong type.") false
        (tag_client_pin ∷ [])
        (bad_types_body (add_defaults_for_change_pin cbor (example_key cbor) [] [] [] empty_map))

  unfoldable pub change_pin_missing_parameter_test : BaseTest cbor
  unfolding make_test missing_body add_defaults_for_change_pin
  change_pin_missing_parameter_test =
      make_test cbor library (codes "client_pin_change_pin_missing_parameter")
        (codes "Tests if ChangePin works with missing parameters.") false (tag_client_pin ∷ [])
        (missing_body (add_defaults_for_change_pin cbor (example_key cbor) [] [] [] empty_map))

  unfoldable pub get_pin_uv_auth_token_using_pin_bad_parameter_types_test : BaseTest cbor
  unfolding make_test bad_types_body add_defaults_for_get_pin_uv_auth_token_using_pin
  get_pin_uv_auth_token_using_pin_bad_parameter_types_test =
      make_test cbor library
        (codes "client_pin_get_pin_uv_auth_token_using_pin_bad_parameter_types")
        (codes "Tests if GetPinUvAuthTokenUsingPin works with parameters of the wrong type.") false
        (tag_client_pin ∷ [])
        (bad_types_body
          (add_defaults_for_get_pin_uv_auth_token_using_pin cbor (example_key cbor) [] empty_map))

  unfoldable pub get_pin_uv_auth_token_using_pin_missing_parameter_test : BaseTest cbor
  unfolding make_test missing_body add_defaults_for_get_pin_uv_auth_token_using_pin
  get_pin_uv_auth_token_using_pin_missing_parameter_test =
      make_test cbor library (codes "client_pin_get_pin_uv_auth_token_using_pin_missing_parameter")
        (codes "Tests if GetPinUvAuthTokenUsingPin works with missing parameters.") false
        (tag_client_pin ∷ [])
        (missing_body
          (add_defaults_for_get_pin_uv_auth_token_using_pin cbor (example_key cbor) [] empty_map))

  unfoldable pub get_pin_uv_auth_token_using_uv_bad_parameter_types_test : BaseTest cbor
  unfolding make_test bad_types_body add_defaults_for_get_pin_uv_auth_token_using_uv
  get_pin_uv_auth_token_using_uv_bad_parameter_types_test =
      make_test cbor library (codes "client_pin_get_pin_uv_auth_token_using_uv_bad_parameter_types")
        (codes "Tests if GetPinUvAuthTokenUsingUv works with parameters of the wrong type.") false
        (tag_client_pin ∷ tag_fido2_point1 ∷ [])
        (bad_types_body
          (add_defaults_for_get_pin_uv_auth_token_using_uv cbor (example_key cbor) empty_map))

  unfoldable pub get_pin_uv_auth_token_using_uv_missing_parameter_test : BaseTest cbor
  unfolding make_test missing_body add_defaults_for_get_pin_uv_auth_token_using_uv
  get_pin_uv_auth_token_using_uv_missing_parameter_test =
      make_test cbor library (codes "client_pin_get_pin_uv_auth_token_using_uv_missing_parameter")
        (codes "Tests if GetPinUvAuthTokenUsingUv works with missing parameters.") false
        (tag_client_pin ∷ tag_fido2_point1 ∷ [])
        (missing_body
          (add_defaults_for_get_pin_uv_auth_token_using_uv cbor (example_key cbor) empty_map))

  unfoldable pub get_uv_retries_bad_parameter_types_test : BaseTest cbor
  unfolding make_test bad_types_body add_defaults_for_get_uv_retries
  get_uv_retries_bad_parameter_types_test =
      make_test cbor library (codes "client_pin_get_uv_retries_bad_parameter_types")
        (codes "Tests if GetUVRetries works with parameters of the wrong type.") false
        (tag_client_pin ∷ tag_fido2_point1 ∷ [])
        (bad_types_body (add_defaults_for_get_uv_retries cbor empty_map))

  unfoldable pub get_uv_retries_missing_parameter_test : BaseTest cbor
  unfolding make_test missing_body add_defaults_for_get_uv_retries
  get_uv_retries_missing_parameter_test =
      make_test cbor library (codes "client_pin_get_uv_retries_missing_parameter")
        (codes "Tests if GetUVRetries works with missing parameters.") false
        (tag_client_pin ∷ tag_fido2_point1 ∷ [])
        (missing_body (add_defaults_for_get_uv_retries cbor empty_map))

  unfoldable pub client_pin_requirements_set_pin_test : BaseTest cbor
  unfolding make_test requirements_set_pin
  client_pin_requirements_set_pin_test =
      make_test cbor library (codes "client_pin_requirements_set_pin")
        (codes "Tests if PIN requirement are enforced in SetPin.") false (tag_client_pin ∷ [])
        (requirements_set_pin cbor library)

  unfoldable pub client_pin_requirements_change_pin_test : BaseTest cbor
  unfolding make_test requirements_change_pin
  client_pin_requirements_change_pin_test =
      make_test cbor library (codes "client_pin_requirements_change_pin")
        (codes "Tests if PIN requirement are enforced in ChangePin.") true (tag_client_pin ∷ [])
        (requirements_change_pin cbor library)

  unfoldable pub client_pin_new_requirements_set_pin_test : BaseTest cbor
  unfolding make_test new_requirements_set_pin
  client_pin_new_requirements_set_pin_test =
      make_test cbor library (codes "client_pin_new_requirements_set_pin")
        (codes "Tests if new PIN requirement are enforced in SetPin.") false
        (tag_client_pin ∷ tag_fido2_point1 ∷ []) (new_requirements_set_pin cbor library)

  unfoldable pub client_pin_new_requirements_change_pin_test : BaseTest cbor
  unfolding make_test new_requirements_change_pin
  client_pin_new_requirements_change_pin_test =
      make_test cbor library (codes "client_pin_new_requirements_change_pin")
        (codes "Tests if new PIN requirement are enforced in ChangePin.") true
        (tag_client_pin ∷ tag_fido2_point1 ∷ []) (new_requirements_change_pin cbor library)

  unfoldable pub client_pin_old_key_material_test : BaseTest cbor
  unfolding make_test old_key_material
  client_pin_old_key_material_test =
      make_test cbor library (codes "client_pin_old_key_material")
        (codes "Tests if key material is regenerated correctly.") true (tag_client_pin ∷ [])
        (old_key_material cbor library)

  unfoldable pub client_pin_general_pin_retries_test : BaseTest cbor
  unfolding make_test general_pin_retries
  client_pin_general_pin_retries_test =
      make_test cbor library (codes "client_pin_general_pin_retries")
        (codes "Tests if PIN retries are decreased and reset.") true (tag_client_pin ∷ [])
        (general_pin_retries cbor library)

  unfoldable pub client_pin_auth_block_pin_retries_test : BaseTest cbor
  unfolding make_test auth_block_pin_retries
  client_pin_auth_block_pin_retries_test =
      make_test cbor library (codes "client_pin_auth_block_pin_retries")
        (codes "Tests if PIN auth attempts are blocked correctly.") true (tag_client_pin ∷ [])
        (auth_block_pin_retries cbor library)

  unfoldable pub client_pin_block_pin_retries_test : BaseTest cbor
  unfolding make_test block_pin_retries
  client_pin_block_pin_retries_test =
      make_test cbor library (codes "client_pin_block_pin_retries")
        (codes "Tests if PINs are blocked correctly.") true (tag_client_pin ∷ [])
        (block_pin_retries cbor library)
