-- ===== src/CborBuilders/Entries.antt =====
-- `SetMapEntry` and `RemoveMapEntry` of the builders for MakeCredential and GetAssertion.
use ctap2_test_tool.Base.{Bytes, List, [], ◌∷◌}
use ctap2_test_tool.Cbor.{Cbor}
use ctap2_test_tool.CborBuilders.{remove_arbitrary_map_entry, set_arbitrary_map_entry}
use ctap2_test_tool.Constants.Keys.{
  GetAssertionParameters, MakeCredentialParameters, get_assertion_parameters_key,
  make_credential_parameters_key,
}

module _ (cbor : Cbor) where
  open cbor use {Value, MapValue, of_string, assign}

  unfoldable pub set_credential_entry : MakeCredentialParameters → Value → MapValue → MapValue
  unfolding set_arbitrary_map_entry make_credential_parameters_key
  set_credential_entry key = set_arbitrary_map_entry cbor (make_credential_parameters_key key)

  unfoldable pub remove_credential_entry : MakeCredentialParameters → MapValue → MapValue
  unfolding remove_arbitrary_map_entry make_credential_parameters_key
  remove_credential_entry key = remove_arbitrary_map_entry cbor (make_credential_parameters_key key)

  unfoldable pub set_assertion_entry : GetAssertionParameters → Value → MapValue → MapValue
  unfolding set_arbitrary_map_entry get_assertion_parameters_key
  set_assertion_entry key = set_arbitrary_map_entry cbor (get_assertion_parameters_key key)

  unfoldable pub remove_assertion_entry : GetAssertionParameters → MapValue → MapValue
  unfolding remove_arbitrary_map_entry get_assertion_parameters_key
  remove_assertion_entry key = remove_arbitrary_map_entry cbor (get_assertion_parameters_key key)

  -- Assignments to keys that are texts, one after the other.
  abbrev pub assign_texts : List (Bytes × Value) → MapValue → MapValue
  assign_texts [] m = m
  assign_texts ((key, value) ∷ rest) m = assign_texts rest (assign m (of_string key) value)
