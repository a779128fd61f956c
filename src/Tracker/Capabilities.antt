-- ===== src/Tracker/Capabilities.antt =====
-- What the tracker knows after the first answer to GetInfo, src/device_tracker.cc.
use ctap2_test_tool.Base.{
  Bool, Bytes, List, Option, Option-cases, [], arith, bytes_eq, false, inl, inr, member,
  member-set_insert, none, refl, set_insert, some, ◌&&◌, ◌||◌, ◌∷◌, ◌≡◌,
}
use ctap2_test_tool.Cbor.{Cbor}
use ctap2_test_tool.Tracker.{DeviceTracker, has_extension, has_option, has_version}
use ctap2_test_tool.Tracker.Initialize.{
  initialize, insert_entry, insert_option, insert_options, insert_strings, mutable_options,
}

module _ (cbor : Cbor) where
  open cbor use {Value, MapValue, as_string, as_bool, entries}

  abbrev is_text : Bytes → Option Bytes → Bool
  is_text name none = false
  is_text name (some text) = bytes_eq text name

  -- Whether an array has a string among its elements.
  abbrev pub lists : Bytes → List Value → Bool
  lists name [] = false
  lists name (v ∷ vs) = is_text name (as_string v) || lists name vs

  abbrev is_offer : Bytes → Option Bytes → Option Bool → Bool
  is_offer name (some text) (some on) = bytes_eq text name && (member text mutable_options || on)
  is_offer name (some text) none = false
  is_offer name none on = false

  -- Whether a map has an option under this name that is on, or that may be switched on later.
  abbrev pub offers : Bytes → List (Value × Value) → Bool
  offers name [] = false
  offers name ((k, v) ∷ es) = is_offer name (as_string k) (as_bool v) || offers name es

  insert_strings-member :
      (name : Bytes) (vs : List Value) (set : List Bytes)
      → member name (insert_strings cbor vs set) ≡ (lists name vs || member name set)
  unfolding insert_strings
  insert_strings-member name [] set = refl
  insert_strings-member name (v ∷ vs) set = elim (Option-cases (as_string v)) [
    | inl e ↦ rw (e, insert_strings) (insert_strings-member name vs set)
    | inr (text, e) ↦
        rw (e, insert_strings)
          (ground (
            arith,
            insert_strings-member name vs (set_insert text set),
            member-set_insert text name set,
          ))
  ]

  insert_entry-member :
      (name : Bytes) (k : Option Bytes) (v : Option Bool) (set : List Bytes)
      → member name (insert_entry cbor k v set) ≡ (is_offer name k v || member name set)
  unfolding insert_entry insert_option
  insert_entry-member name (some text) (some on) set =
      ground (arith, member-set_insert text name set)
  insert_entry-member name (some text) none set = refl
  insert_entry-member name none on set = refl

  insert_options-member :
      (name : Bytes) (es : List (Value × Value)) (set : List Bytes)
      → member name (insert_options cbor es set) ≡ (offers name es || member name set)
  unfolding insert_options
  insert_options-member name [] set = refl
  insert_options-member name ((k, v) ∷ es) set = ground (
    arith,
    insert_options-member name es (insert_entry cbor (as_string k) (as_bool v) set),
    insert_entry-member name (as_string k) (as_bool v) set,
  )

  -- The first answer to GetInfo adds to the tracker exactly the versions and the extensions that are
  -- strings of their arrays, and exactly the options with a name and a Boolean that are on or that
  -- may change; what the tracker had before it keeps.
  pub initialize-capabilities :
      (versions extensions : List Value) (options : MapValue) (t : DeviceTracker) (name : Bytes)
      → t.is_initialized ≡ false
      → let t' = initialize cbor versions extensions options t in
        (has_version name t' ≡ (lists name versions || has_version name t))
        × (has_extension name t' ≡ (lists name extensions || has_extension name t))
        × (has_option name t' ≡ (offers name (entries options) || has_option name t))
  unfolding initialize has_version has_extension has_option
  initialize-capabilities versions extensions options t name e =
      rw (e, initialize)
        (
          insert_strings-member name versions t.versions,
          insert_strings-member name extensions t.extensions,
          insert_options-member name (entries options) t.options,
        )
