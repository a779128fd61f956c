-- ===== src/Tests/BadTypes.antt =====
-- src/tests/test_helpers.cc: requests with parameters of a wrong type. The
-- builder is passed through, as the source changes it and undoes the changes.
use ctap2_test_tool.Base.{
  Bool, Bytes, List, Option, [], check_some, codes, deref, false, get_elem?, if◌then◌else◌, is_some,
  none, not, pos, some, to_int32, true, ℤ, ◌&&◌, ◌++◌, ◌∷◌,
}
use ctap2_test_tool.Cbor.{Cbor}
use ctap2_test_tool.CborBuilders.{get_cbor, set_map_entry_at}
use ctap2_test_tool.Commands.Negative.{generic_negative_test}
use ctap2_test_tool.Constants.Codes.{Command, Status, command_to_string, err_cbor_unexpected_type}
use ctap2_test_tool.Crypto.{Library}
use ctap2_test_tool.Rsp.Packet.{decimal_int}
use ctap2_test_tool.Tests.Helpers.{
  CborType, cbor_to_string, cbor_type_to_string, type_examples, type_map,
}
use ctap2_test_tool.Tests.Steps.{Test, device_step, ensure_status, perform, proceed, ◌>>=◌, ◌>>◌}

module _ (cbor : Cbor) (library : Library) where
  open cbor use {
    Value, MapValue, of_int, of_map, of_array, as_integer, as_unsigned, as_map, as_array, same_type,
    entries, assign, empty_map,
  }

  -- A request that the command is expected to refuse with a status.
  unfoldable pub expect_refusal : Command → Status → Value → Bytes → Test cbor (Unit {0})
  unfolding device_step generic_negative_test ensure_status
  expect_refusal command expected request message = do
    returned_status ← device_step cbor library (generic_negative_test cbor request command false)
    ensure_status cbor library expected returned_status message

  -- Whether an example has another type than a value; integers count as one type.
  unfoldable pub is_wrong_type : Value → Value → Bool
  is_wrong_type value example =
      if is_some (as_integer example) && is_some (as_integer value)
      then false
      else not (same_type value example)

  abbrev pub bad_type : CborType → Command → Bytes
  bad_type cbor_type command =
      codes "Bad type "
      ++ cbor_type_to_string cbor_type
      ++ codes " in "
      ++ command_to_string command

  -- The examples instead of the whole request. A map is not a wrong type there.
  unfoldable pub bad_requests : Command → List (CborType × Value) → Test cbor (Unit {0})
  unfolding expect_refusal
  bad_requests command [] = proceed tt
  bad_requests command ((type_map, example) ∷ rest) = bad_requests command rest
  bad_requests command ((cbor_type, example) ∷ rest) = do
    expect_refusal command err_cbor_unexpected_type example
        (bad_type cbor_type command ++ codes ".")
    bad_requests command rest

  -- The examples instead of the entry at a key.
  unfoldable pub bad_entries :
      Command → ℤ → Value → List (CborType × Value) → MapValue → Test cbor MapValue
  unfolding is_wrong_type expect_refusal set_map_entry_at get_cbor decimal_int
  bad_entries command map_key map_value [] builder = proceed builder
  bad_entries command map_key map_value ((cbor_type, example) ∷ rest) builder =
      elim (is_wrong_type map_value example) [
        | false ↦ bad_entries command map_key map_value rest builder
        | true ↦
            let builder' = set_map_entry_at cbor (of_int map_key) example builder in
            expect_refusal command err_cbor_unexpected_type (get_cbor cbor builder')
              (bad_type cbor_type command ++ codes " for key " ++ decimal_int map_key ++ codes ".")
            >> bad_entries command map_key map_value rest builder'
      ]

  -- The value under the outer key: the map, in an array of one element where it came from one.
  abbrev pub wrapped : Bool → MapValue → Value
  wrapped true test_map = of_array (of_map test_map ∷ [])
  wrapped false test_map = of_map test_map

  unfoldable pub bad_inner_entry :
      Command
      → ℤ
      → Bool
      → Value
      → Value
      → List (CborType × Value)
      → MapValue
      → MapValue
      → Test cbor (MapValue × MapValue)
  unfolding is_wrong_type expect_refusal set_map_entry_at get_cbor cbor_to_string decimal_int
  bad_inner_entry command outer has_array inner_key inner_value [] test_map builder =
      proceed (test_map, builder)
  bad_inner_entry command outer has_array inner_key inner_value ((cbor_type, example) ∷ rest)
        test_map builder =
      elim (is_wrong_type inner_value example) [
        | false ↦
            bad_inner_entry command outer has_array inner_key inner_value rest test_map builder
        | true ↦
            let test_map' = assign test_map inner_key example in
            let builder' =
              set_map_entry_at cbor (of_int outer) (wrapped has_array test_map') builder in
            expect_refusal command err_cbor_unexpected_type (get_cbor cbor builder') (
              bad_type cbor_type command
              ++ codes " in "
              ++ cbor_to_string cbor (codes "inner key") inner_key
              ++ codes " in array at map key "
              ++ decimal_int outer
              ++ codes ".")
            >> bad_inner_entry command outer has_array inner_key inner_value rest test_map' builder'
      ]

  unfoldable pub bad_inner_entries :
      Command → ℤ → Bool → List (Value × Value) → MapValue → MapValue → Test cbor MapValue
  unfolding bad_inner_entry type_examples
  bad_inner_entries command outer has_array [] test_map builder = proceed builder
  bad_inner_entries command outer has_array ((inner_key, inner_value) ∷ rest) test_map builder = do
    (test_map', builder') ←
        bad_inner_entry command outer has_array inner_key inner_value (type_examples cbor) test_map
          builder
    bad_inner_entries command outer has_array rest (assign test_map' inner_key inner_value) builder'

  unfoldable pub copy_entries : List (Value × Value) → MapValue → MapValue
  copy_entries [] m = m
  copy_entries ((key, value) ∷ rest) m = copy_entries rest (assign m key value)

  unfoldable pub test_bad_parameters_in_inner_map :
      Command → MapValue → ℤ → MapValue → Bool → Test cbor MapValue
  unfolding bad_inner_entries copy_entries
  test_bad_parameters_in_inner_map command builder outer_map_key inner_map has_wrapping_array =
      bad_inner_entries command outer_map_key has_wrapping_array (entries inner_map)
        (copy_entries (entries inner_map) empty_map) builder

  -- An array of the element and an example of another type.
  unfoldable pub bad_elements :
      Command → ℤ → Value → List (CborType × Value) → MapValue → Test cbor MapValue
  unfolding is_wrong_type expect_refusal set_map_entry_at get_cbor decimal_int
  bad_elements command outer element [] builder = proceed builder
  bad_elements command outer element ((cbor_type, example) ∷ rest) builder =
      elim (is_wrong_type element example) [
        | false ↦ bad_elements command outer element rest builder
        | true ↦
            let builder' =
              set_map_entry_at cbor (of_int outer) (of_array (element ∷ example ∷ [])) builder in
            expect_refusal command err_cbor_unexpected_type (get_cbor cbor builder') (
              bad_type cbor_type command
              ++ codes " in array element at map key "
              ++ decimal_int outer
              ++ codes ".")
            >> bad_elements command outer element rest builder'
      ]

  unfoldable pub test_bad_parameters_in_inner_array :
      Command → MapValue → ℤ → Value → Test cbor MapValue
  unfolding bad_elements type_examples
  test_bad_parameters_in_inner_array command builder outer_map_key array_element =
      bad_elements command outer_map_key array_element (type_examples cbor) builder

  -- The tests inside of a map, and of the first element of an array.
  unfoldable pub bad_map_inside :
      Command → ℤ → Option MapValue → Bool → MapValue → Test cbor MapValue
  unfolding test_bad_parameters_in_inner_map
  bad_map_inside command map_key none has_array builder = proceed builder
  bad_map_inside command map_key (some inner) has_array builder =
      test_bad_parameters_in_inner_map command builder map_key inner has_array

  unfoldable pub bad_array_inside :
      Command → ℤ → Option (List Value) → MapValue → Test cbor MapValue
  unfolding bad_map_inside test_bad_parameters_in_inner_array
  bad_array_inside command map_key none builder = proceed builder
  bad_array_inside command map_key (some elements) builder = do
    element ← perform (deref (get_elem? elements 0))
    builder' ← test_bad_parameters_in_inner_array command builder map_key element
    bad_map_inside command map_key (as_map element) true builder'

  unfoldable pub bad_map_entries : Command → List (Value × Value) → MapValue → Test cbor MapValue
  unfolding bad_entries type_examples bad_map_inside bad_array_inside set_map_entry_at
  bad_map_entries command [] builder = proceed builder
  bad_map_entries command ((map_key, map_value) ∷ rest) builder = do
    key ← perform (check_some (as_unsigned map_key) (codes "map key not integer - TEST SUITE BUG"))
    map_number ← proceed (to_int32 (pos key))
    builder1 ← bad_entries command map_number map_value (type_examples cbor) builder
    builder2 ← bad_map_inside command map_number (as_map map_value) false builder1
    builder3 ← bad_array_inside command map_number (as_array map_value) builder2
    bad_map_entries command rest (set_map_entry_at cbor map_key map_value builder3)

  unfoldable pub test_bad_parameter_types : Command → MapValue → Test cbor MapValue
  unfolding bad_requests type_examples bad_map_entries
  test_bad_parameter_types command builder = do
    bad_requests command (type_examples cbor)
    bad_map_entries command (entries builder) builder
