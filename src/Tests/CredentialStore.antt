-- ===== src/Tests/CredentialStore.antt =====
-- src/tests/make_credential.cc: the tests of stored credentials and of the names of users.
use ctap2_test_tool.Base.{
  Bool, Bytes, List, Option, [], bytes_eq, check_some, codes, false, if◌then◌else◌, none, not,
  replicate, some, suc, true, zero, ℕ, ◌&&◌, ◌++◌, ◌+◌, ◌==◌, ◌∷◌,
}
use ctap2_test_tool.Cbor.{Cbor}
use ctap2_test_tool.CborBuilders.{get_cbor}
use ctap2_test_tool.CborBuilders.Entries.{assign_texts, set_credential_entry}
use ctap2_test_tool.CborBuilders.GetAssertion.{add_required_fields}
use ctap2_test_tool.CborBuilders.MakeCredential.{
  add_defaults_for_required_fields, set_public_key_credential_user_entity, set_resident_key_options,
}
use ctap2_test_tool.Commands.Negative.{make_credential_negative_test, non_cbor_negative_test}
use ctap2_test_tool.Constants.Codes.{
  Status, authenticator_make_credential, err_invalid_cbor, err_key_store_full, err_no_credentials,
  err_none, err_user_action_timeout, status_eq,
}
use ctap2_test_tool.Constants.Keys.{MakeCredentialParameters}
use ctap2_test_tool.Crypto.{Library}
use ctap2_test_tool.Tests.Helpers.{extract_credential_id}
use ctap2_test_tool.Tests.MakeCredential.{credential_fields, texts, user_id_field}
use ctap2_test_tool.Tests.Requests.{
  assertion_refused, credential_accepted, credential_made, credential_refused, ignore_touch_prompt,
  observe_in_test, reset_in_test,
}
use ctap2_test_tool.Tests.Steps.{
  Test, device_step, ensure, ensure_status, perform, proceed, value_of_response, ◌>>=◌, ◌>>◌,
}

abbrev num_credentials : ℕ
num_credentials = 50

-- The names in UTF-8: three letters, and 100 times a letter of three bytes.
abbrev short_name : Bytes
short_name = 0xE3 ∷ 0x83 ∷ 0x86 ∷ 0xE3 ∷ 0x82 ∷ 0xB9 ∷ 0xE3 ∷ 0x83 ∷ 0x88 ∷ []

unfoldable repeated : ℕ → Bytes
repeated zero = []
repeated (suc n) = 0xE7 ∷ 0x8C ∷ 0xAB ∷ repeated n

unfoldable pub display_names : List Bytes
unfolding repeated
display_names =
    short_name ∷ repeated 100 ∷ (codes "0" ++ repeated 100) ∷ (codes "01" ++ repeated 100) ∷ []

abbrev starts_with : Bytes → Bytes → Bool
starts_with [] bytes = true
starts_with (p ∷ pattern_rest) [] = false
starts_with (p ∷ pattern_rest) (b ∷ bytes) = (p == b) && starts_with pattern_rest bytes

-- `std::search` for a pattern, and the assignment of 0x80 to the first byte found.
unfoldable pub spoil_first : Bytes → Bytes → Option Bytes
spoil_first text [] = none
spoil_first text (b ∷ bytes) =
    let rest = spoil_first text bytes in
    if starts_with text (b ∷ bytes)
    then some (0x80 ∷ bytes)
    else elim rest [ none ↦ none | some spoiled ↦ some (b ∷ spoiled) ]

module _ (cbor : Cbor) (library : Library) where
  open cbor use {Value, MapValue, of_string, of_bool, of_map, empty_map, write}

  abbrev resident_fields : Bytes → MapValue
  resident_fields rp_id = set_resident_key_options cbor true (credential_fields cbor library rp_id)

  unfoldable pub credential_duplicate : Bytes → Test cbor (Unit {0})
  unfolding credential_made value_of_response extract_credential_id bytes_eq
  credential_duplicate rp_id = do
    first ← credential_made cbor library rp_id true
    first_response ← value_of_response cbor library first
    second ← credential_made cbor library rp_id true
    second_response ← value_of_response cbor library second
    first_credential_id ← extract_credential_id cbor first_response
    second_credential_id ← extract_credential_id cbor second_response
    ensure (not (bytes_eq first_credential_id second_credential_id))
        (codes "The same credential was created twice.")

  -- The loop until a credential is refused, with the rounds that are left and the last status.
  unfoldable pub fill_store : ℕ → ℕ → MapValue → Test cbor Status
  unfolding set_public_key_credential_user_entity device_step make_credential_negative_test get_cbor
      status_eq
  fill_store zero counter builder = proceed err_none
  fill_store (suc n) counter builder = do
    builder' ← proceed (
        set_public_key_credential_user_entity cbor (replicate 32 (counter + 1))
          (codes "Greedy Greg") builder)
    returned_status ←
        device_step cbor library (make_credential_negative_test cbor (get_cbor cbor builder') true)
    elim (status_eq returned_status err_none) [
      | true ↦ fill_store n (counter + 1) builder'
      | false ↦ proceed returned_status
    ]

  unfoldable pub full_store : Bytes → Test cbor (Unit {0})
  unfolding add_defaults_for_required_fields set_resident_key_options fill_store observe_in_test
      reset_in_test status_eq
  full_store rp_id = do
    returned_status ← fill_store num_credentials 0 (resident_fields rp_id)
    elim (status_eq returned_status err_none) [
      | false ↦
          ensure (status_eq returned_status err_key_store_full)
            (codes "Filling the key store failed with an unexpected error.")
      | true ↦ observe_in_test cbor library (
          codes
            "The test for full store errors was aborted after 50 credentials were successfully created.")
    ]
    reset_in_test cbor library

  unfoldable pub credential_physical_presence : Bytes → Test cbor (Unit {0})
  unfolding ignore_touch_prompt add_defaults_for_required_fields set_resident_key_options
      credential_refused add_required_fields assertion_refused
  credential_physical_presence rp_id = do
    ignore_touch_prompt cbor library
    credential_refused cbor library err_user_action_timeout (resident_fields rp_id) true
        (codes "A credential was created without user presence.")
    assertion_refused cbor library err_no_credentials (add_required_fields cbor rp_id empty_map)
        false (codes "The asserted credential shouldn't exist.")

  -- The user with a display name, in a map that keeps the other entries.
  abbrev named_user : Bytes → MapValue
  named_user display_name = texts cbor library (
      (codes "id", user_id_field cbor library)
      ∷ (codes "name", of_string (codes "Adam"))
      ∷ (codes "displayName", of_string display_name)
      ∷ [])

  abbrev name_field : MapValue → MapValue → MapValue
  name_field user = set_credential_entry cbor MakeCredentialParameters.user (of_map user)

  unfoldable pub accept_names : List Bytes → MapValue → MapValue → Test cbor (Unit {0})
  unfolding set_credential_entry credential_accepted
  accept_names [] user builder = proceed tt
  accept_names (display_name ∷ rest) user builder = do
    user' ← proceed (assign_texts cbor ((codes "displayName", of_string display_name) ∷ []) user)
    builder' ← proceed (name_field user' builder)
    credential_accepted cbor library builder'
        (codes "Failed on displayName with non-ASCII characters.")
    accept_names rest user' builder'

  unfoldable pub non_ascii_display_name : Bytes → Test cbor (Unit {0})
  unfolding add_defaults_for_required_fields set_resident_key_options accept_names display_names
  non_ascii_display_name rp_id =
      accept_names display_names
        (texts cbor library (
          (codes "id", user_id_field cbor library) ∷ (codes "name", of_string (codes "Adam")) ∷ []))
        (resident_fields rp_id)

  unfoldable pub utf8_display_name : Bytes → Test cbor (Unit {0})
  unfolding add_defaults_for_required_fields set_resident_key_options set_credential_entry get_cbor
      spoil_first device_step non_cbor_negative_test ensure_status
  utf8_display_name rp_id = do
    req_cbor ← perform (
        check_some
          (write (get_cbor cbor (name_field (named_user short_name) (resident_fields rp_id))))
          (codes "encoding went wrong - TEST SUITE BUG"))
    spoiled ←
        perform
          (check_some (spoil_first short_name req_cbor) (codes "encoding problem - TEST SUITE BUG"))
    returned_status ←
        device_step cbor library
          (non_cbor_negative_test spoiled authenticator_make_credential false)
    ensure_status cbor library err_invalid_cbor returned_status
        (codes "UTF-8 correctness is not checked.")

  unfoldable pub hmac_secret : Bytes → Test cbor (Unit {0})
  unfolding add_defaults_for_required_fields set_resident_key_options set_credential_entry
      credential_accepted
  hmac_secret rp_id =
      credential_accepted cbor library
        (set_credential_entry cbor MakeCredentialParameters.extensions
          (of_map (texts cbor library ((codes "hmac-secret", of_bool true) ∷ [])))
          (resident_fields rp_id))
        (codes "The command failed when using the extension.")
      >> proceed tt
