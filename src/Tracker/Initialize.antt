-- ===== src/Tracker/Initialize.antt =====
-- `DeviceTracker::Initialize`, which reads the answer to GetInfo.
use ctap2_test_tool.Base.{
  Bool, Bytes, List, Option, [], codes, if◌then◌else◌, member, none, set_insert, some, true, ◌||◌,
  ◌∷◌,
}
use ctap2_test_tool.Cbor.{Cbor}
use ctap2_test_tool.Tracker.{DeviceTracker}

abbrev pub mutable_options : List Bytes
mutable_options = codes "clientPin" ∷ codes "uv" ∷ codes "bioEnroll" ∷ []

module _ (cbor : Cbor) where
  open cbor use {Value, MapValue, as_string, as_bool, entries}

  -- The loops over versions and over extensions: strings are added, other values skipped.
  unfoldable pub insert_strings : List Value → List Bytes → List Bytes
  insert_strings [] set = set
  insert_strings (v ∷ vs) set =
      insert_strings vs (elim (as_string v) [ none ↦ set | some s ↦ set_insert s set ])

  unfoldable pub insert_option : Bytes → Bool → List Bytes → List Bytes
  insert_option name on set = if member name mutable_options || on then set_insert name set else set

  unfoldable pub insert_entry : Option Bytes → Option Bool → List Bytes → List Bytes
  unfolding insert_option
  insert_entry (some name) (some on) set = insert_option name on set
  insert_entry (some name) none set = set
  insert_entry none on set = set

  unfoldable pub insert_options : List (Value × Value) → List Bytes → List Bytes
  unfolding insert_entry
  insert_options [] set = set
  insert_options ((k, v) ∷ es) set = insert_options es (insert_entry (as_string k) (as_bool v) set)

  unfoldable pub initialize : List Value → List Value → MapValue → DeviceTracker → DeviceTracker
  initialize versions extensions options t = if t.is_initialized then t else record t {
    is_initialized = true;
    versions = insert_strings versions t.versions;
    extensions = insert_strings extensions t.extensions;
    options = insert_options (entries options) t.options;
  }
