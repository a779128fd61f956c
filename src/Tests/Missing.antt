-- ===== src/Tests/Missing.antt =====
-- src/tests/test_helpers.cc: requests with a missing parameter, and with values nested too deep.
use ctap2_test_tool.Base.{Bool, List, [], codes, false, replicate, true, ℤ, ◌++◌, ◌∷◌}
use ctap2_test_tool.Cbor.{Cbor}
use ctap2_test_tool.CborBuilders.{get_cbor, remove_map_entry_at, set_map_entry_at}
use ctap2_test_tool.Constants.Codes.{
  Command, command_to_string, err_invalid_cbor, err_missing_parameter,
}
use ctap2_test_tool.Crypto.{Library}
use ctap2_test_tool.Rsp.Packet.{decimal_int}
use ctap2_test_tool.Tests.BadTypes.{expect_refusal}
use ctap2_test_tool.Tests.Helpers.{
  CborType, cbor_to_string, cbor_type_to_string, type_array, type_examples, type_map,
}
use ctap2_test_tool.Tests.Steps.{Test, proceed, ◌>>=◌, ◌>>◌}

module _ (cbor : Cbor) (library : Library) where
  open cbor use {
    Value, MapValue, of_int, of_map, of_array, of_string, of_bytes, entries, assign, empty_map,
  }

  unfoldable pub missing_entries : Command → List (Value × Value) → MapValue → Test cbor MapValue
  unfolding expect_refusal remove_map_entry_at get_cbor cbor_to_string set_map_entry_at
      command_to_string
  missing_entries command [] builder = proceed builder
  missing_entries command ((map_key, map_value) ∷ rest) builder = do
    builder' ← proceed (remove_map_entry_at cbor map_key builder)
    expect_refusal cbor library command err_missing_parameter (get_cbor cbor builder') (
        codes "Missing "
        ++ cbor_to_string cbor (codes "key") map_key
        ++ codes " for command "
        ++ command_to_string command
        ++ codes ".")
    missing_entries command rest (set_map_entry_at cbor map_key map_value builder')

  unfoldable pub test_missing_parameters : Command → MapValue → Test cbor MapValue
  unfolding missing_entries
  test_missing_parameters command builder = missing_entries command (entries builder) builder

  -- A descriptor with a nested value among its transports.
  unfoldable pub nested_descriptor : Value → Value
  nested_descriptor example = of_map (
      assign
        (assign (assign empty_map (of_string (codes "type")) (of_string (codes "public-key")))
          (of_string (codes "id")) (of_bytes (replicate 32 0xce)))
        (of_string (codes "transports")) (of_array (of_string (codes "usb") ∷ example ∷ [])))

  abbrev pub is_nested : CborType → Bool
  is_nested type_array = true
  is_nested type_map = true
  is_nested _ = false

  unfoldable pub nested_descriptors :
      Command → ℤ → List (CborType × Value) → MapValue → Test cbor MapValue
  unfolding nested_descriptor expect_refusal set_map_entry_at get_cbor cbor_type_to_string
      decimal_int command_to_string
  nested_descriptors command map_key [] builder = proceed builder
  nested_descriptors command map_key ((cbor_type, example) ∷ rest) builder =
      elim (is_nested cbor_type) [
        | false ↦ nested_descriptors command map_key rest builder
        | true ↦
            let builder' =
              set_map_entry_at cbor (of_int map_key) (of_array (nested_descriptor example ∷ []))
                builder in
            expect_refusal cbor library command err_invalid_cbor (get_cbor cbor builder') (
              codes "Maximum CBOR nesting depth exceeded with "
              ++ cbor_type_to_string cbor_type
              ++ codes " in credential descriptor transport list item in "
              ++ command_to_string command
              ++ codes " for key "
              ++ decimal_int map_key
              ++ codes ".")
            >> nested_descriptors command map_key rest builder'
      ]

  unfoldable pub test_credential_descriptors_array_for_cbor_depth :
      Command → MapValue → ℤ → Test cbor MapValue
  unfolding nested_descriptors type_examples
  test_credential_descriptors_array_for_cbor_depth command builder map_key =
      nested_descriptors command map_key (type_examples cbor) builder
