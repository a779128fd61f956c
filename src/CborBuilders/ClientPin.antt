-- ===== src/CborBuilders/ClientPin.antt =====
-- `AuthenticatorClientPinCborBuilder`.
use ctap2_test_tool.Base.{Bytes, pos}
use ctap2_test_tool.Cbor.{Cbor}
use ctap2_test_tool.CborBuilders.{set_arbitrary_map_entry, unless_entry}
use ctap2_test_tool.Constants.Keys.{ClientPinParameters, client_pin_parameters_key}
use ctap2_test_tool.Constants.Numbers.{
  PinSubCommand, change_pin, get_key_agreement, get_pin_retries, get_pin_uv_auth_token_using_pin,
  get_pin_uv_auth_token_using_uv, get_uv_retries, pin_sub_command_number, set_pin,
}

module _ (cbor : Cbor) where
  open cbor use {
    Value, MapValue, of_int, of_string, of_bytes, of_bool, of_array, of_map, assign, empty_map,
  }

  unfoldable pub set_default_pin_protocol : MapValue → MapValue
  unfolding set_arbitrary_map_entry client_pin_parameters_key
  set_default_pin_protocol =
      set_arbitrary_map_entry cbor
        (client_pin_parameters_key ClientPinParameters.pin_uv_auth_protocol) (of_int (pos 1))

  unfoldable pub set_sub_command : PinSubCommand → MapValue → MapValue
  unfolding set_arbitrary_map_entry client_pin_parameters_key pin_sub_command_number
  set_sub_command sub_command =
      set_arbitrary_map_entry cbor (client_pin_parameters_key ClientPinParameters.sub_command)
        (of_int (pos (pin_sub_command_number sub_command)))

  unfoldable pub set_key_agreement : MapValue → MapValue → MapValue
  unfolding set_arbitrary_map_entry client_pin_parameters_key
  set_key_agreement cose_key =
      set_arbitrary_map_entry cbor (client_pin_parameters_key ClientPinParameters.key_agreement)
        (of_map cose_key)

  unfoldable pub set_pin_auth : Bytes → MapValue → MapValue
  unfolding set_arbitrary_map_entry client_pin_parameters_key
  set_pin_auth bytes =
      set_arbitrary_map_entry cbor (client_pin_parameters_key ClientPinParameters.pin_uv_auth_param)
        (of_bytes bytes)

  unfoldable pub set_new_pin_enc : Bytes → MapValue → MapValue
  unfolding set_arbitrary_map_entry client_pin_parameters_key
  set_new_pin_enc bytes =
      set_arbitrary_map_entry cbor (client_pin_parameters_key ClientPinParameters.new_pin_enc)
        (of_bytes bytes)

  unfoldable pub set_pin_hash_enc : Bytes → MapValue → MapValue
  unfolding set_arbitrary_map_entry client_pin_parameters_key
  set_pin_hash_enc bytes =
      set_arbitrary_map_entry cbor (client_pin_parameters_key ClientPinParameters.pin_hash_enc)
        (of_bytes bytes)

  unfoldable pub add_defaults_for_get_pin_retries : MapValue → MapValue
  unfolding unless_entry
  add_defaults_for_get_pin_retries request =
      unless_entry cbor 2 (set_sub_command get_pin_retries)
        (unless_entry cbor 1 set_default_pin_protocol request)

  unfoldable pub add_defaults_for_get_key_agreement : MapValue → MapValue
  unfolding unless_entry
  add_defaults_for_get_key_agreement request =
      unless_entry cbor 2 (set_sub_command get_key_agreement)
        (unless_entry cbor 1 set_default_pin_protocol request)

  unfoldable pub add_defaults_for_set_pin : MapValue → Bytes → Bytes → MapValue → MapValue
  unfolding unless_entry
  add_defaults_for_set_pin cose_key pin_auth new_pin_enc request =
      unless_entry cbor 5 (set_new_pin_enc new_pin_enc) (
        unless_entry cbor 4 (set_pin_auth pin_auth) (
          unless_entry cbor 3 (set_key_agreement cose_key) (
            unless_entry cbor 2 (set_sub_command set_pin)
              (unless_entry cbor 1 set_default_pin_protocol request))))

  unfoldable pub add_defaults_for_change_pin :
      MapValue → Bytes → Bytes → Bytes → MapValue → MapValue
  unfolding unless_entry
  add_defaults_for_change_pin cose_key pin_auth new_pin_enc pin_hash_enc request =
      unless_entry cbor 6 (set_pin_hash_enc pin_hash_enc) (
        unless_entry cbor 5 (set_new_pin_enc new_pin_enc) (
          unless_entry cbor 4 (set_pin_auth pin_auth) (
            unless_entry cbor 3 (set_key_agreement cose_key) (
              unless_entry cbor 2 (set_sub_command change_pin)
                (unless_entry cbor 1 set_default_pin_protocol request)))))

  unfoldable pub add_defaults_for_get_pin_uv_auth_token_using_pin :
      MapValue → Bytes → MapValue → MapValue
  unfolding unless_entry
  add_defaults_for_get_pin_uv_auth_token_using_pin cose_key pin_hash_enc request =
      unless_entry cbor 6 (set_pin_hash_enc pin_hash_enc) (
        unless_entry cbor 3 (set_key_agreement cose_key) (
          unless_entry cbor 2 (set_sub_command get_pin_uv_auth_token_using_pin)
            (unless_entry cbor 1 set_default_pin_protocol request)))

  unfoldable pub add_defaults_for_get_pin_uv_auth_token_using_uv : MapValue → MapValue → MapValue
  unfolding unless_entry
  add_defaults_for_get_pin_uv_auth_token_using_uv cose_key request =
      unless_entry cbor 3 (set_key_agreement cose_key) (
        unless_entry cbor 2 (set_sub_command get_pin_uv_auth_token_using_uv)
          (unless_entry cbor 1 set_default_pin_protocol request))

  unfoldable pub add_defaults_for_get_uv_retries : MapValue → MapValue
  unfolding unless_entry
  add_defaults_for_get_uv_retries request =
      unless_entry cbor 2 (set_sub_command get_uv_retries)
        (unless_entry cbor 1 set_default_pin_protocol request)
