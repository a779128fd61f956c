-- ===== src/CborBuilders.antt =====
-- src/cbor_builders.h and src/cbor_builders.cc. A builder is the map that it fills, `request_map_`.
-- The keys of the three builders are the numbers of their parameter enumerations.
pub mod MakeCredential
pub mod GetAssertion
pub mod ClientPin
pub mod Entries
pub mod Defaults
use ctap2_test_tool.Base.{Bool, Bytes, if◌then◌else◌, is_some, pos, replicate, ℕ}
use ctap2_test_tool.Cbor.{Cbor}

module _ (cbor : Cbor) where
  open cbor use {Value, MapValue, of_int, of_map, find, assign, erase}

  unfoldable pub has_entry : ℕ → MapValue → Bool
  has_entry key request = is_some (find request (of_int (pos key)))

  unfoldable pub set_arbitrary_map_entry : ℕ → Value → MapValue → MapValue
  set_arbitrary_map_entry key value request = assign request (of_int (pos key)) value

  unfoldable pub set_map_entry_at : Value → Value → MapValue → MapValue
  set_map_entry_at key value request = assign request key value

  unfoldable pub remove_arbitrary_map_entry : ℕ → MapValue → MapValue
  remove_arbitrary_map_entry key request = erase request (of_int (pos key))

  unfoldable pub remove_map_entry_at : Value → MapValue → MapValue
  remove_map_entry_at key request = erase request key

  unfoldable pub get_cbor : MapValue → Value
  get_cbor request = of_map request

  -- `if (!HasEntry(key)) ...`, with the step that follows.
  unfoldable pub unless_entry : ℕ → (MapValue → MapValue) → MapValue → MapValue
  unfolding has_entry
  unless_entry key step request = if has_entry key request then request else step request

abbrev pub default_client_data_hash : Bytes
default_client_data_hash = replicate 32 0xcd
