-- ===== src/Tests/CredentialOptions.antt =====
-- src/tests/make_credential.cc: the tests of options and of the PIN authentication.
use ctap2_test_tool.Base.{Bytes, [], codes, false, pos, replicate, true, ◌∷◌}
use ctap2_test_tool.Cbor.{Cbor}
use ctap2_test_tool.CborBuilders.Entries.{remove_credential_entry, set_credential_entry}
use ctap2_test_tool.CborBuilders.MakeCredential.{
  add_defaults_for_required_fields, set_default_pin_uv_auth_param, set_default_pin_uv_auth_protocol,
  set_pin_uv_auth_param, set_resident_key_options, set_user_presence_options,
  set_user_verification_options,
}
use ctap2_test_tool.Constants.Codes.{
  err_invalid_option, err_missing_parameter, err_pin_auth_invalid, err_pin_invalid, err_pin_not_set,
  err_pin_required,
}
use ctap2_test_tool.Constants.Keys.{MakeCredentialParameters}
use ctap2_test_tool.Crypto.{Library}
use ctap2_test_tool.Tests.MakeCredential.{credential_fields, texts}
use ctap2_test_tool.Tests.Requests.{credential_accepted, credential_refused}
use ctap2_test_tool.Tests.Steps.{Test, current_auth_token, proceed, ◌>>=◌, ◌>>◌}

module _ (cbor : Cbor) (library : Library) where
  open cbor use {MapValue, of_int, of_bool, of_map}

  abbrev default_fields : Bytes → MapValue
  default_fields rp_id = credential_fields cbor library rp_id

  unfoldable pub credential_option_rk : Bytes → Test cbor (Unit {0})
  unfolding add_defaults_for_required_fields set_resident_key_options credential_accepted
  credential_option_rk rp_id = do
    builder ← proceed (set_resident_key_options cbor false (default_fields rp_id))
    credential_accepted cbor library builder
        (codes "The resident key option (false) was not accepted.")
    credential_accepted cbor library (set_resident_key_options cbor true builder)
        (codes "The resident key option (true) was not accepted.")
    proceed tt

  unfoldable pub credential_option_up_false : Bytes → Test cbor (Unit {0})
  unfolding add_defaults_for_required_fields set_user_presence_options credential_refused
  credential_option_up_false rp_id =
      credential_refused cbor library err_invalid_option
        (set_user_presence_options cbor false (default_fields rp_id)) false
        (codes "Accepted option user presence set to false.")

  unfoldable pub credential_option_uv_false : Bytes → Test cbor (Unit {0})
  unfolding add_defaults_for_required_fields set_user_verification_options credential_accepted
  credential_option_uv_false rp_id =
      credential_accepted cbor library
        (set_user_verification_options cbor false (default_fields rp_id))
        (codes "The user verification option (false) was not accepted.")
      >> proceed tt

  unfoldable pub credential_option_uv_true : Bytes → Test cbor (Unit {0})
  unfolding add_defaults_for_required_fields set_user_verification_options current_auth_token
      set_default_pin_uv_auth_param set_default_pin_uv_auth_protocol credential_accepted
  credential_option_uv_true rp_id = do
    token ← current_auth_token cbor library
    credential_accepted cbor library
        (set_default_pin_uv_auth_protocol cbor (
          set_default_pin_uv_auth_param cbor library token
            (set_user_verification_options cbor true (default_fields rp_id))))
        (codes "The user verification option (true) was not accepted.")
    proceed tt

  unfoldable pub credential_option_unknown : Bytes → Test cbor (Unit {0})
  unfolding add_defaults_for_required_fields set_credential_entry credential_accepted
  credential_option_unknown rp_id =
      credential_accepted cbor library
        (set_credential_entry cbor MakeCredentialParameters.options
          (of_map (texts cbor library ((codes "unknown_option", of_bool false) ∷ [])))
          (default_fields rp_id))
        (codes "Falsely rejected unknown option.")
      >> proceed tt

  -- The request with a PIN authentication that is given.
  abbrev fields_with_auth_param : Bytes → Bytes → MapValue
  fields_with_auth_param auth_param rp_id =
      set_default_pin_uv_auth_protocol cbor
        (set_pin_uv_auth_param cbor auth_param (default_fields rp_id))

  unfoldable pub credential_pin_auth_empty : Bytes → Test cbor (Unit {0})
  unfolding add_defaults_for_required_fields set_pin_uv_auth_param set_default_pin_uv_auth_protocol
      credential_refused
  credential_pin_auth_empty rp_id =
      credential_refused cbor library err_pin_not_set (fields_with_auth_param [] rp_id) true
        (codes "A zero length PIN auth param is not rejected.")

  unfoldable pub credential_pin_auth_protocol : Bytes → Test cbor (Unit {0})
  unfolding add_defaults_for_required_fields set_pin_uv_auth_param set_credential_entry
      credential_refused
  credential_pin_auth_protocol rp_id =
      credential_refused cbor library err_pin_auth_invalid
        (set_credential_entry cbor MakeCredentialParameters.pin_uv_auth_protocol
          (of_int (pos 123456))
          (set_pin_uv_auth_param cbor (replicate 16 0x9a) (default_fields rp_id)))
        false (codes "Unsupported PIN protocol is not rejected.")

  unfoldable pub credential_pin_auth_no_pin : Bytes → Test cbor (Unit {0})
  unfolding add_defaults_for_required_fields set_pin_uv_auth_param set_default_pin_uv_auth_protocol
      credential_refused
  credential_pin_auth_no_pin rp_id =
      credential_refused cbor library err_pin_not_set
        (fields_with_auth_param (replicate 16 0x9a) rp_id) false
        (codes "PIN auth not rejected without a PIN.")

  unfoldable pub credential_pin_auth_empty_with_pin : Bytes → Test cbor (Unit {0})
  unfolding add_defaults_for_required_fields set_pin_uv_auth_param set_default_pin_uv_auth_protocol
      credential_refused
  credential_pin_auth_empty_with_pin rp_id =
      credential_refused cbor library err_pin_invalid (fields_with_auth_param [] rp_id) true
        (codes "A zero length PIN auth param is not rejected with a PIN set.")

  unfoldable pub credential_pin_auth : Bytes → Test cbor (Unit {0})
  unfolding add_defaults_for_required_fields current_auth_token set_default_pin_uv_auth_param
      set_default_pin_uv_auth_protocol credential_accepted set_pin_uv_auth_param credential_refused
  credential_pin_auth rp_id = do
    token ← current_auth_token cbor library
    builder ← proceed (
        set_default_pin_uv_auth_protocol cbor
          (set_default_pin_uv_auth_param cbor library token (default_fields rp_id)))
    credential_accepted cbor library builder (codes "Falsely rejected valid PIN auth.")
    credential_refused cbor library err_pin_auth_invalid
        (set_pin_uv_auth_param cbor (replicate 16 0x9a) builder) false
        (codes "Accepted wrong PIN auth.")

  unfoldable pub credential_pin_auth_missing : Bytes → Test cbor (Unit {0})
  unfolding add_defaults_for_required_fields credential_refused set_default_pin_uv_auth_protocol
      remove_credential_entry current_auth_token set_default_pin_uv_auth_param
  credential_pin_auth_missing rp_id = do
    credential_refused cbor library err_pin_required (default_fields rp_id) false
        (codes "Missing PIN parameters were not rejected when PIN is set.")
    builder ← proceed (set_default_pin_uv_auth_protocol cbor (default_fields rp_id))
    credential_refused cbor library err_pin_required builder false
        (codes "Missing PIN auth was not rejected when PIN is set.")
    token ← current_auth_token cbor library
    credential_refused cbor library err_missing_parameter
        (set_default_pin_uv_auth_param cbor library token
          (remove_credential_entry cbor MakeCredentialParameters.pin_uv_auth_protocol builder))
        false (codes "Missing PIN protocol was not rejected when PIN is set.")
