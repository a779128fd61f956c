-- ===== src/Tests/MakeCredential.antt =====
-- src/tests/make_credential.cc: the tests of the MakeCredential command, on its parameters.
use ctap2_test_tool.Base.{
  Bool, Bytes, List, [], codes, false, map, negsuc, pos, replicate, true, ℤ, ◌∷◌,
}
use ctap2_test_tool.Cbor.{Cbor}
use ctap2_test_tool.CborBuilders.Entries.{assign_texts, set_credential_entry}
use ctap2_test_tool.CborBuilders.GetAssertion.{add_required_fields}
use ctap2_test_tool.CborBuilders.MakeCredential.{
  add_defaults_for_required_fields, set_default_pin_uv_auth_param, set_default_pin_uv_auth_protocol,
  set_default_public_key_credential_rp_entity, set_exclude_list_credential,
  set_public_key_credential_user_entity, set_resident_key_options,
}
use ctap2_test_tool.Constants.Codes.{
  authenticator_make_credential, err_credential_excluded, err_unsupported_algorithm,
}
use ctap2_test_tool.Constants.Keys.{MakeCredentialParameters}
use ctap2_test_tool.Constants.Numbers.{algorithm_number, es256}
use ctap2_test_tool.Crypto.{Library}
use ctap2_test_tool.Tests.BadTypes.{test_bad_parameter_types}
use ctap2_test_tool.Tests.Helpers.{is_fido2_point1_complicant}
use ctap2_test_tool.Tests.Missing.{
  test_credential_descriptors_array_for_cbor_depth, test_missing_parameters,
}
use ctap2_test_tool.Tests.Requests.{
  assertion_accepted, credential_accepted, credential_id_made, credential_refused,
}
use ctap2_test_tool.Tests.Steps.{Test, proceed, ◌>>=◌, ◌>>◌}

module _ (cbor : Cbor) (library : Library) where
  open cbor use {
    Value, MapValue, of_int, of_string, of_bytes, of_bool, of_array, of_map, empty_map, assign,
  }

  abbrev pub credential_fields : Bytes → MapValue
  credential_fields rp_id = add_defaults_for_required_fields cbor rp_id empty_map

  abbrev pub texts : List (Bytes × Value) → MapValue
  texts pairs = assign_texts cbor pairs empty_map

  abbrev rp_field : List (Bytes × Value) → MapValue → MapValue
  rp_field pairs = set_credential_entry cbor MakeCredentialParameters.rp (of_map (texts pairs))

  abbrev user_field : List (Bytes × Value) → MapValue → MapValue
  user_field pairs = set_credential_entry cbor MakeCredentialParameters.user (of_map (texts pairs))

  abbrev pub user_id_field : Value
  user_id_field = of_bytes (replicate 32 0x1D)

  abbrev icon : Value
  icon = of_string (codes "http://icon.png")

  -- The options, with "up" where the device has version 2.1.
  abbrev all_options : Bool → List (Bytes × Value)
  all_options true =
      (codes "rk", of_bool false) ∷ (codes "up", of_bool true) ∷ (codes "uv", of_bool false) ∷ []
  all_options false = (codes "rk", of_bool false) ∷ (codes "uv", of_bool false) ∷ []

  unfoldable pub credential_bad_types : Bytes → Test cbor (Unit {0})
  unfolding add_defaults_for_required_fields set_credential_entry set_exclude_list_credential
      is_fido2_point1_complicant set_default_pin_uv_auth_param set_default_pin_uv_auth_protocol
      test_bad_parameter_types
  credential_bad_types rp_id = do
    with_rp ← proceed (
        rp_field
          ((codes "id", of_string rp_id)
            ∷ (codes "name", of_string (codes "example"))
            ∷ (codes "icon", icon)
            ∷ [])
          (credential_fields rp_id))
    with_user ← proceed (
        user_field
          ((codes "id", user_id_field)
            ∷ (codes "name", of_string (codes "John Doe"))
            ∷ (codes "icon", icon)
            ∷ (codes "displayName", of_string (codes "JD"))
            ∷ [])
          with_rp)
    extended ← proceed (
        set_credential_entry cbor MakeCredentialParameters.extensions (of_map empty_map)
          (set_exclude_list_credential cbor [] with_user))
    is_new ← is_fido2_point1_complicant cbor library
    optional ← proceed (
        set_credential_entry cbor MakeCredentialParameters.options
          (of_map (texts (all_options is_new))) extended)
    test_bad_parameter_types cbor library authenticator_make_credential (
        set_default_pin_uv_auth_protocol cbor
          (set_default_pin_uv_auth_param cbor library [] optional))
    proceed tt

  unfoldable pub credential_missing : Bytes → Test cbor (Unit {0})
  unfolding add_defaults_for_required_fields test_missing_parameters
  credential_missing rp_id =
      test_missing_parameters cbor library authenticator_make_credential (credential_fields rp_id)
      >> proceed tt

  unfoldable pub relying_party_entity : Bytes → Test cbor (Unit {0})
  unfolding add_defaults_for_required_fields set_credential_entry credential_accepted
  relying_party_entity rp_id = do
    named ← proceed (
        rp_field ((codes "id", of_string rp_id) ∷ (codes "name", of_string (codes "example")) ∷ [])
          (credential_fields rp_id))
    credential_accepted cbor library named (codes "Optional entry name not recognized.")
    credential_accepted cbor library
        (rp_field ((codes "id", of_string rp_id) ∷ (codes "icon", icon) ∷ []) named)
        (codes "Optional entry icon not recognized.")
    proceed tt

  unfoldable pub user_entity : Bytes → Test cbor (Unit {0})
  unfolding add_defaults_for_required_fields set_credential_entry credential_accepted
  user_entity rp_id = do
    named ← proceed (
        user_field ((codes "id", user_id_field) ∷ (codes "name", of_string (codes "Adam")) ∷ [])
          (credential_fields rp_id))
    credential_accepted cbor library named (codes "Optional entry name not recognized.")
    with_icon ← proceed (user_field ((codes "id", user_id_field) ∷ (codes "icon", icon) ∷ []) named)
    credential_accepted cbor library with_icon (codes "Optional entry icon not recognized.")
    credential_accepted cbor library
        (user_field
          ((codes "id", user_id_field) ∷ (codes "displayName", of_string (codes "A L")) ∷ [])
          with_icon)
        (codes "Optional entry displayName not recognized.")
    proceed tt

  unfoldable pub exclude_list_depth : Bytes → Test cbor (Unit {0})
  unfolding add_defaults_for_required_fields test_credential_descriptors_array_for_cbor_depth
  exclude_list_depth rp_id =
      test_credential_descriptors_array_for_cbor_depth cbor library authenticator_make_credential
        (credential_fields rp_id) (pos 5)
      >> proceed tt

  unfoldable pub exclude_list_descriptor : Bytes → Test cbor (Unit {0})
  unfolding add_defaults_for_required_fields set_credential_entry credential_accepted
  exclude_list_descriptor rp_id = do
    descriptor ← proceed (
        texts (
          (codes "type", of_string (codes "public-key"))
          ∷ (codes "id", of_bytes (replicate 32 0xce))
          ∷ []))
    credential_accepted cbor library
        (set_credential_entry cbor MakeCredentialParameters.exclude_list
          (of_array (of_map descriptor ∷ [])) (credential_fields rp_id))
        (codes "Failure to accept a valid credential descriptor.")
    proceed tt

  unfoldable pub credential_extensions : Bytes → Test cbor (Unit {0})
  unfolding add_defaults_for_required_fields set_credential_entry credential_accepted
  credential_extensions rp_id = do
    credential_accepted cbor library
        (set_credential_entry cbor MakeCredentialParameters.extensions
          (of_map (texts ((codes "test_extension", of_string (codes "extension CBOR")) ∷ [])))
          (credential_fields rp_id))
        (codes "Failure to accept a valid extension.")
    proceed tt

  unfoldable pub exclude_list : Bytes → Test cbor (Unit {0})
  unfolding credential_id_made add_required_fields assertion_accepted
      add_defaults_for_required_fields set_resident_key_options
      set_public_key_credential_user_entity set_exclude_list_credential credential_refused
      set_default_public_key_credential_rp_entity credential_accepted
  exclude_list rp_id = do
    cred_descriptor_id ← credential_id_made cbor library rp_id true
    assertion_accepted cbor library (add_required_fields cbor rp_id empty_map)
        (codes "GetAssertion on recently created credential failed.")
    builder ← proceed (
        set_exclude_list_credential cbor cred_descriptor_id (
          set_public_key_credential_user_entity cbor (replicate 32 0x02) (codes "Bob")
            (set_resident_key_options cbor true (credential_fields rp_id))))
    credential_refused cbor library err_credential_excluded builder true
        (codes "MakeCredential succeeded despite known exclude list entry.")
    credential_accepted cbor library
        (set_default_public_key_credential_rp_entity cbor (codes "another.exclude.example.com")
          builder)
        (codes "MakeCredential failed for an unrelated relying party.")
    proceed tt

  -- A parameter that a map, changed in place, holds after the assignments to both keys.
  abbrev cred_param : ℤ → Bytes → MapValue → MapValue
  cred_param algorithm name =
      assign_texts cbor ((codes "alg", of_int algorithm) ∷ (codes "type", of_string name) ∷ [])

  abbrev params_field : List MapValue → MapValue → MapValue
  params_field params =
      set_credential_entry cbor MakeCredentialParameters.pub_key_cred_params
        (of_array (map of_map params))

  unfoldable pub cred_params : Bytes → Test cbor (Unit {0})
  unfolding add_defaults_for_required_fields set_credential_entry credential_refused
      credential_accepted algorithm_number
  cred_params rp_id = do
    builder0 ← proceed (params_field [] (credential_fields rp_id))
    credential_refused cbor library err_unsupported_algorithm builder0 false
        (codes "Accepted empty credential parameters list.")
    param1 ← proceed (cred_param (negsuc 0) (codes "public-key") empty_map)
    builder1 ← proceed (params_field (param1 ∷ []) builder0)
    credential_refused cbor library err_unsupported_algorithm builder1 false
        (codes "Accepted unsupported algorithm in credential parameters list.")
    param2 ← proceed (cred_param (algorithm_number es256) (codes "non-existing type") param1)
    builder2 ← proceed (params_field (param2 ∷ []) builder1)
    credential_refused cbor library err_unsupported_algorithm builder2 false
        (codes "Accepted unsupported type in credential parameters list.")
    param3 ← proceed (cred_param (algorithm_number es256) (codes "public-key") param2)
    param4 ← proceed (cred_param (negsuc 0) (codes "non-existing type") param3)
    credential_accepted cbor library (params_field (param3 ∷ param4 ∷ []) builder2)
        (codes "Falsely rejected cred params list with 1 good and 1 bad element.")
    proceed tt
