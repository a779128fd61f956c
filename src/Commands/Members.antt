-- ===== src/Commands/Members.antt =====
-- The members of a GetInfo response, each with the checks of its kind.
use ctap2_test_tool.Base.{
  Action, Bytes, List, Option, [], bytes_eq, check, check_some, codes, is_some, leb, member,
  member_int, none, not, pure, set_insert, some, to_int32, ℕ, ℤ, ◌>>=◌, ◌>>◌, ◌∷◌,
}
use ctap2_test_tool.Cbor.{Cbor}
use ctap2_test_tool.Commands.{find_key, find_name}
use ctap2_test_tool.Constants.Keys.{InfoMember, info_member_key}

module _ (cbor : Cbor) where
  open cbor use {
    Value, MapValue, as_map, as_string, as_array, as_bool, as_integer, as_unsigned, entries,
  }

  unfoldable pub member_entry : InfoMember → MapValue → Option Value
  unfolding find_key info_member_key
  member_entry key m = find_key cbor (info_member_key key) m

  -- The loop over an array of strings that must not repeat; it returns the set of them.
  unfoldable pub distinct_strings :
      {S : Type 0} → Bytes → Bytes → List Value → List Bytes → Action S (List Bytes)
  distinct_strings not_string duplicate [] seen = pure seen
  distinct_strings not_string duplicate (v ∷ vs) seen = do
    s ← check_some (as_string v) not_string
    check (not (member s seen)) duplicate
    distinct_strings not_string duplicate vs (set_insert s seen)

  unfoldable pub check_unsigned_elements : {S : Type 0} → Bytes → List Value → Action S (Unit {0})
  check_unsigned_elements message [] = pure tt
  check_unsigned_elements message (v ∷ vs) = do
    check (is_some (as_unsigned v)) message
    check_unsigned_elements message vs

  -- An array that may be missing, with the checks of its elements; it returns the elements.
  unfoldable pub optional_array :
      {S : Type 0}
      → Option Value
      → Bytes
      → (List Value → Action S (Unit {0}))
      → Action S (List Value)
  optional_array none not_array check_elements = pure []
  optional_array (some value) not_array check_elements = do
    elements ← check_some (as_array value) not_array
    check_elements elements
    pure elements

  -- An unsigned number that may be missing, with its least value.
  unfoldable pub check_at_least :
      {S : Type 0} → Option Value → ℕ → Bytes → Bytes → Action S (Unit {0})
  check_at_least none bound not_unsigned too_small = pure tt
  check_at_least (some value) bound not_unsigned too_small = do
    n ← check_some (as_unsigned value) not_unsigned
    check (leb bound n) too_small

  unfoldable pub check_versions : {S : Type 0} → MapValue → Action S (List Value)
  unfolding distinct_strings member_entry
  check_versions m = do
    value ←
        check_some (member_entry InfoMember.versions m)
          (codes "no versions (key 1) included in GetInfo response")
    versions ← check_some (as_array value) (codes "versions entry is not an array")
    versions_set ←
        distinct_strings (codes "versions elements are not strings")
          (codes "duplicate version in info") versions []
    check (member (codes "FIDO_2_0") versions_set) (codes "versions does not contain \"FIDO_2_0\"")
    pure versions

  unfoldable pub check_option_entries : {S : Type 0} → List (Value × Value) → Action S (Unit {0})
  check_option_entries [] = pure tt
  check_option_entries ((name, value) ∷ rest) = do
    check (is_some (as_string name)) (codes "option name is not a string")
    check (is_some (as_bool value)) (codes "option value is not a boolean")
    check_option_entries rest

  unfoldable pub check_options : {S : Type 0} → Option Value → Action S MapValue
  unfolding check_option_entries
  check_options none = pure cbor.empty_map
  check_options (some value) = do
    options ← check_some (as_map value) (codes "options entry is not a map")
    check_option_entries (entries options)
    pure options

  unfoldable pub check_algorithm : {S : Type 0} → Value → List ℤ → Action S (List ℤ)
  unfolding find_name
  check_algorithm algorithm seen = do
    m ← check_some (as_map algorithm) (codes "algorithms elements are not maps")
    kind ←
        check_some (find_name cbor (codes "type") m)
          (codes "algorithm did not contain key \"type\"")
    kind_name ← check_some (as_string kind) (codes "\"type\" in algorithm is not a string")
    check (bytes_eq kind_name (codes "public-key"))
        (codes "\"type\" in algorithm is not \"public-key\"")
    alg ←
        check_some (find_name cbor (codes "alg") m) (codes "algorithm did not contain key \"alg\"")
    number ← check_some (as_integer alg) (codes "\"alg\" in algorithm is not an integer")
    check (not (member_int (to_int32 number) seen)) (codes "duplicate algorithm in info")
    pure (to_int32 number ∷ seen)

  unfoldable pub check_algorithms : {S : Type 0} → List Value → List ℤ → Action S (Unit {0})
  unfolding check_algorithm
  check_algorithms [] seen = pure tt
  check_algorithms (algorithm ∷ rest) seen = do
    seen' ← check_algorithm algorithm seen
    check_algorithms rest seen'
