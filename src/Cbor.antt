-- ===== src/Cbor.antt =====
-- The CBOR library of third_party/chromium_components_cbor, as its callers see it. It is the code
-- of another project and stays a parameter: a type of values, a type of maps, and the calls that
-- the tool makes. `is_string()` followed by `GetString()` is one view into `Option`, and likewise
-- for the other kinds of value.
pub mod Sample
use ctap2_test_tool.Base.{Bool, Bytes, List, Option, some, ℕ, ℤ, ◌≡◌, ◌≢◌}

pub record Cbor : Type 1 where
  pub Value : Type 0
  pub MapValue : Type 0
  -- The constructors of `cbor::Value`.
  pub none_value : Value
  pub of_int : ℤ → Value
  pub of_string : Bytes → Value
  pub of_bytes : Bytes → Value
  pub of_bool : Bool → Value
  pub of_array : List Value → Value
  pub of_map : MapValue → Value
  -- The views: `GetUnsigned`, `GetInteger` and so on, where the `is_` test holds.
  pub is_none : Value → Bool
  pub as_unsigned : Value → Option ℕ
  pub as_integer : Value → Option ℤ
  pub as_string : Value → Option Bytes
  pub as_bytestring : Value → Option Bytes
  pub as_bool : Value → Option Bool
  pub as_array : Value → Option (List Value)
  pub as_map : Value → Option MapValue
  -- Whether two values have the same `type()`.
  pub same_type : Value → Value → Bool
  -- `cbor::Value::MapValue`: a map ordered by key.
  pub empty_map : MapValue
  pub find : MapValue → Value → Option Value
  pub assign : MapValue → Value → Value → MapValue
  pub erase : MapValue → Value → MapValue
  pub entries : MapValue → List (Value × Value)
  -- `cbor::Reader::Read`, alone and with the number of bytes consumed, and `cbor::Writer::Write`.
  pub read : Bytes → Option Value
  pub read_consumed : Bytes → Option (Value × ℕ)
  pub write : Value → Option Bytes

-- What the callers rely on: an assignment to a map changes the entry at its key and no other, for
-- keys that are integers.
pub record CborLaws (cbor : Cbor) : Type 1 where
  pub find-assign_self :
      (m : cbor.MapValue) (k : ℤ) (v : cbor.Value)
      → cbor.find (cbor.assign m (cbor.of_int k) v) (cbor.of_int k) ≡ some v
  pub find-assign_ne :
      (m : cbor.MapValue) (k j : ℤ) (v : cbor.Value)
      → k ≢ j
      → cbor.find (cbor.assign m (cbor.of_int k) v) (cbor.of_int j) ≡ cbor.find m (cbor.of_int j)
