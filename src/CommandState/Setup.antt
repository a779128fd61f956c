-- ===== src/CommandState/Setup.antt =====
-- Resetting the device, and the steps before a test.
use ctap2_test_tool.Base.{
  Action, Bool, Bytes, Option, [], abort, check, check_some, codes, done, false, gets, hex2,
  if◌then◌else◌, is_empty, modify, none, not, pure, some, suc, true, zero, ℕ, ◌++◌, ◌>>=◌, ◌>>◌,
  ◌∷◌,
}
use ctap2_test_tool.Cbor.{Cbor}
use ctap2_test_tool.CborBuilders.{get_cbor}
use ctap2_test_tool.CborBuilders.MakeCredential.{
  add_defaults_for_required_fields, set_default_pin_uv_auth_param, set_default_pin_uv_auth_protocol,
  set_resident_key_options,
}
use ctap2_test_tool.CommandState.{CommandState, on_device}
use ctap2_test_tool.CommandState.Token.{get_auth_token}
use ctap2_test_tool.Commands.{on_tracker}
use ctap2_test_tool.Commands.GetAssertion.{reset_positive_test}
use ctap2_test_tool.Commands.GetInfo.{get_info_positive_test}
use ctap2_test_tool.Commands.MakeCredential.{make_credential_positive_test}
use ctap2_test_tool.Commands.Members.{member_entry}
use ctap2_test_tool.Constants.Codes.{Status, err_none, status_eq}
use ctap2_test_tool.Constants.Keys.{InfoMember}
use ctap2_test_tool.Crypto.{Library}
use ctap2_test_tool.Hid.Init.{init}
use ctap2_test_tool.Tracker.{Response, answer, assert_response, check_response, failure, set_aaguid}

abbrev pub reset_retries : ℕ
reset_retries = 3

module _ (cbor : Cbor) (library : Library) where
  open cbor use {Value, MapValue, as_map, as_bytestring, empty_map}

  -- `device_->Init()` in the next environment. Without one, no device is found.
  unfoldable pub init_next : Action (CommandState cbor) Status
  unfolding on_device init
  init_next s = elim s.environments [
    | [] ↦ abort (codes "The key with the expected vendor & product ID was not found.") s
    | env ∷ rest ↦ on_device cbor library (init env) (record s { environments = rest })
  ]

  unfoldable pub prompt_replug_and_init : Action (CommandState cbor) (Unit {0})
  unfolding init_next status_eq
  prompt_replug_and_init = do
    status ← init_next
    check (status_eq err_none status) (codes "CTAPHID initialization failed")
    modify (λ (s : CommandState cbor). record s {
      platform_cose_key = empty_map;
      shared_secret = [];
      auth_token = [];
    })

  unfoldable pub device_check_response : Response Value → Action (CommandState cbor) Bool
  unfolding on_device on_tracker check_response
  device_check_response response =
      on_device cbor library
        (on_tracker (λ t. let (ok, t') = check_response response t in (done ok, t')))

  -- The loop over the attempts to reset, with the response of the last one.
  unfoldable pub reset_rounds : ℕ → Response Value → Action (CommandState cbor) (Response Value)
  unfolding on_device reset_positive_test device_check_response
  reset_rounds zero response = pure response
  reset_rounds (suc n) response = do
    next ← on_device cbor library (reset_positive_test cbor library)
    ok ← device_check_response next
    elim ok [ true ↦ pure next | false ↦ reset_rounds n next ]

  unfoldable pub require_response : Response Value → Bytes → Action (CommandState cbor) (Unit {0})
  unfolding on_device on_tracker assert_response
  require_response response message =
      on_device cbor library (on_tracker (assert_response response message))

  unfoldable pub reset : Action (CommandState cbor) (Unit {0})
  unfolding prompt_replug_and_init reset_rounds require_response
  reset = do
    prompt_replug_and_init
    response ← reset_rounds reset_retries (answer cbor.none_value)
    require_response response (codes "Reset")
    modify (λ (s : CommandState cbor). record s {
      platform_cose_key = empty_map;
      shared_secret = [];
      pin_utf8 = [];
      auth_token = [];
    })

  unfoldable pub hex_string : Bytes → Bytes
  unfolding hex2
  hex_string [] = []
  hex_string (b ∷ bs) = hex2 b ++ hex_string bs

  -- The AAGUID, where the map has one.
  unfoldable pub store_aaguid : Option Value → Action (CommandState cbor) (Unit {0})
  unfolding on_device on_tracker hex_string set_aaguid
  store_aaguid none = pure tt
  store_aaguid (some value) = do
    aaguid_bytes ← check_some (as_bytestring value) (codes "Check failed: is_bytestring()")
    on_device cbor library (on_tracker (modify (set_aaguid (hex_string aaguid_bytes))))

  -- `absl::get<cbor::Value>` of the response, which was asserted before.
  unfoldable pub response_value : Response Value → Action (CommandState cbor) Value
  response_value (answer value) = pure value
  response_value (failure status) = abort (codes "bad variant access")

  unfoldable pub new_command_state : Action (CommandState cbor) (Unit {0})
  unfolding reset on_device get_info_positive_test require_response response_value member_entry
      store_aaguid
  new_command_state = do
    reset
    response ← on_device cbor library (get_info_positive_test cbor)
    require_response response (codes "GetInfo")
    value ← response_value response
    decoded_map ← check_some (as_map value) (codes "Check failed: is_map()")
    store_aaguid (member_entry cbor InfoMember.aaguid decoded_map)

  unfoldable pub has_pin : Action (CommandState cbor) Bool
  has_pin s = pure (not (is_empty s.pin_utf8)) s

  unfoldable pub prepare : Bool → Action (CommandState cbor) (Unit {0})
  unfolding get_auth_token require_response has_pin reset
  prepare set_uv = elim set_uv [
    | true ↦ get_auth_token cbor library true >>= λ status.
        require_response (failure status) (codes "refresh auth token")
    | false ↦ has_pin >>= λ known. elim known [ true ↦ reset | false ↦ pure tt ]
  ]

  -- The entries for a PIN token, where there is one.
  unfoldable pub with_token : Bytes → MapValue → MapValue
  unfolding set_default_pin_uv_auth_param set_default_pin_uv_auth_protocol
  with_token token m =
      if is_empty token
      then m
      else set_default_pin_uv_auth_protocol cbor
          (set_default_pin_uv_auth_param cbor library token m)

  unfoldable pub make_test_credential : Bytes → Bool → Action (CommandState cbor) (Response Value)
  unfolding with_token set_resident_key_options add_defaults_for_required_fields on_device
      make_credential_positive_test get_cbor
  make_test_credential rp_id use_resident_key = do
    token ← gets (λ (s : CommandState cbor). s.auth_token)
    on_device cbor library (
        make_credential_positive_test cbor library (
          get_cbor cbor (
            with_token token (
              set_resident_key_options cbor use_resident_key
                (add_defaults_for_required_fields cbor rp_id empty_map)))))
