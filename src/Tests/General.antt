-- ===== src/Tests/General.antt =====
-- src/tests/general.cc: wink, GetInfo, and what a device keeps or forgets over a replug.
use ctap2_test_tool.Base.{
  Bool, Bytes, List, Option, [], bool_eq, bytes_eq, check_some, codes, done, false, int_eq, none,
  not, some, true, ◌==◌, ◌||◌, ◌∷◌,
}
use ctap2_test_tool.Cbor.{Cbor}
use ctap2_test_tool.CborBuilders.GetAssertion.{add_required_fields, set_allow_list_credential}
use ctap2_test_tool.CommandState.Setup.{prompt_replug_and_init}
use ctap2_test_tool.CommandState.Token.{get_auth_token}
use ctap2_test_tool.Commands.GetInfo.{get_info_positive_test}
use ctap2_test_tool.Commands.Members.{member_entry}
use ctap2_test_tool.Constants.Codes.{err_none, status_eq}
use ctap2_test_tool.Constants.Keys.{InfoMember}
use ctap2_test_tool.Crypto.{Library}
use ctap2_test_tool.Hid.Exchange.{wink}
use ctap2_test_tool.Tests.{BaseTest, tag_client_pin}
use ctap2_test_tool.Tests.Helpers.{extract_credential_id, get_pin_retries_of_device}
use ctap2_test_tool.Tests.Reset.{
  accepted_assertion, get_assertion_request, two_credentials, wrong_pin_refused,
}
use ctap2_test_tool.Tests.Steps.{
  Test, current_auth_token, device_step, ensure, ensure_response, ensure_success, make_test,
  perform, proceed, state_step, tracker_step, value_of_response, ◌>>=◌, ◌>>◌,
}

module _ (cbor : Cbor) (library : Library) where
  open cbor use {Value, as_map, as_array, as_unsigned}

  unfoldable pub wink_body : Bytes → Test cbor (Unit {0})
  unfolding device_step wink status_eq tracker_step
  wink_body rp_id = do
    status ← device_step cbor library (λ d. let (s, d') = wink d in (done s, d'))
    has_wink ← tracker_step cbor library (λ t. (t.has_wink_capability, t))
    ensure (bool_eq (status_eq status err_none) has_wink)
        (codes "The reported WINK capability did not match the observed response.")

  -- Whether the number 1 is among the protocols, all of which must be unsigned.
  unfoldable pub has_protocol_1 : List Value → Bool → Test cbor Bool
  has_protocol_1 [] has_pin_protocol_1 = proceed has_pin_protocol_1
  has_protocol_1 (pin_protocol ∷ rest) has_pin_protocol_1 = do
    number ← perform (check_some (as_unsigned pin_protocol) (codes "Check failed: is_unsigned()"))
    has_protocol_1 rest (number == 1 || has_pin_protocol_1)

  unfoldable pub supports_protocol_1 : Option Value → Test cbor Bool
  unfolding has_protocol_1
  supports_protocol_1 none = proceed false
  supports_protocol_1 (some entry) = do
    protocols ← perform (check_some (as_array entry) (codes "Check failed: is_array()"))
    has_protocol_1 protocols false

  unfoldable pub get_info_body : Bytes → Test cbor (Unit {0})
  unfolding device_step get_info_positive_test ensure_response value_of_response supports_protocol_1
      member_entry
  get_info_body rp_id = do
    response ← device_step cbor library (get_info_positive_test cbor)
    ensure_response cbor library response (codes "Failed to parse GetInfo response.")
    value ← value_of_response cbor library response
    decoded_map ← perform (check_some (as_map value) (codes "Check failed: is_map()"))
    has_pin_protocol_1 ←
        supports_protocol_1 (member_entry cbor InfoMember.pin_uv_auth_protocols decoded_map)
    ensure has_pin_protocol_1 (codes "PIN protocol version 1 is not supported.")

  unfoldable pub persistent_credentials : Bytes → Test cbor (Unit {0})
  unfolding two_credentials state_step prompt_replug_and_init accepted_assertion
      extract_credential_id set_allow_list_credential add_required_fields
  persistent_credentials rp_id = do
    credential_response ← two_credentials cbor library rp_id
    state_step cbor library (prompt_replug_and_init cbor library)
    accepted_assertion cbor library (get_assertion_request cbor library rp_id)
        (codes "A resident key did not persist after replug.")
    credential_id ← extract_credential_id cbor credential_response
    accepted_assertion cbor library
        (set_allow_list_credential cbor credential_id (get_assertion_request cbor library rp_id))
        (codes "A non-resident key did not persist after replug.")

  unfoldable pub persistent_pin_retries : Bytes → Test cbor (Unit {0})
  unfolding wrong_pin_refused get_pin_retries_of_device state_step prompt_replug_and_init
  persistent_pin_retries rp_id = do
    wrong_pin_refused cbor library
    reduced_counter ← get_pin_retries_of_device cbor library
    state_step cbor library (prompt_replug_and_init cbor library)
    new_counter ← get_pin_retries_of_device cbor library
    ensure (int_eq reduced_counter new_counter) (codes "PIN retries changed after replug.")

  unfoldable pub regenerates_pin_auth : Bytes → Test cbor (Unit {0})
  unfolding current_auth_token state_step prompt_replug_and_init get_auth_token ensure_success
      bytes_eq
  regenerates_pin_auth rp_id = do
    old_auth_token ← current_auth_token cbor library
    state_step cbor library (prompt_replug_and_init cbor library)
    status ← state_step cbor library (get_auth_token cbor library true)
    ensure_success cbor library status (codes "Getting the auth token failed unexpectedly.")
    new_auth_token ← current_auth_token cbor library
    ensure (not (bytes_eq new_auth_token old_auth_token))
        (codes "Auth token was not regenerated after replug.")

  unfoldable pub wink_test : BaseTest cbor
  unfolding make_test wink_body
  wink_test =
      make_test cbor library (codes "wink")
        (codes "Tests if the Wink response matches the capability bit.") false [] wink_body

  unfoldable pub get_info_test : BaseTest cbor
  unfolding make_test get_info_body
  get_info_test =
      make_test cbor library (codes "get_info") (codes "Tests the return values of GetInfo.") false
        (tag_client_pin ∷ []) get_info_body

  unfoldable pub persistent_credentials_test : BaseTest cbor
  unfolding make_test persistent_credentials
  persistent_credentials_test =
      make_test cbor library (codes "persistent_credentials")
        (codes "Tests whether credentials persist after replug.") false [] persistent_credentials

  unfoldable pub persistent_pin_retries_test : BaseTest cbor
  unfolding make_test persistent_pin_retries
  persistent_pin_retries_test =
      make_test cbor library (codes "persistent_pin_retries")
        (codes "Tests whether PIN retries persist after replug.") true (tag_client_pin ∷ [])
        persistent_pin_retries

  unfoldable pub regenerates_pin_auth_test : BaseTest cbor
  unfolding make_test regenerates_pin_auth
  regenerates_pin_auth_test =
      make_test cbor library (codes "regenerates_pin_auth")
        (codes "Tests whether the PIN auth token regenerates after replug.") true
        (tag_client_pin ∷ []) regenerates_pin_auth
