-- ===== src/CommandState/Pin.antt =====
-- Setting and changing the PIN.
use ctap2_test_tool.Base.{
  Action, Bytes, [], check, codes, false, gets, if◌then◌else◌, is_empty, leb, length, modify, pure,
  replicate, ◌&&◌, ◌++◌, ◌-◌, ◌>>=◌, ◌>>◌, ◌∷◌,
}
use ctap2_test_tool.Cbor.{Cbor}
use ctap2_test_tool.CborBuilders.{get_cbor}
use ctap2_test_tool.CborBuilders.ClientPin.{add_defaults_for_change_pin, add_defaults_for_set_pin}
use ctap2_test_tool.CommandState.{
  CommandState, encrypt, ensure_shared_secret, fail_again, note, ok_or_return, on_device,
  pin_byte_length, pin_hash_encrypted,
}
use ctap2_test_tool.Commands.ClientPin.{authenticator_client_pin_positive_test}
use ctap2_test_tool.Commands.Negative.{authenticator_client_pin_negative_test}
use ctap2_test_tool.Constants.Codes.{Status, err_none}
use ctap2_test_tool.Crypto.{Library, left_hmac_sha256}
use ctap2_test_tool.Tracker.{Response, answer, failure}

abbrev pub default_pin : Bytes
default_pin = 0x31 ∷ 0x32 ∷ 0x33 ∷ 0x34 ∷ []

-- The PIN in front of zeros, 64 bytes in all.
unfoldable pub padded_pin : Bytes → Bytes
padded_pin pin = pin ++ replicate (pin_byte_length - length pin) 0

unfoldable pub check_pin_length : {S : Type 0} → Bytes → Action S (Unit {0})
check_pin_length pin =
    check (leb 4 (length pin) && leb (length pin) 63)
      (codes "PIN requirements not fulfilled - TEST SUITE BUG")

module _ (cbor : Cbor) (library : Library) where
  open cbor use {Value, MapValue, empty_map}

  -- The request that sets a padded PIN.
  unfoldable pub set_pin_request : Bytes → Action (CommandState cbor) Value
  unfolding encrypt left_hmac_sha256 get_cbor add_defaults_for_set_pin
  set_pin_request new_padded_pin = do
    new_pin_enc ← encrypt cbor library new_padded_pin
    secret ← gets (λ (s : CommandState cbor). s.shared_secret)
    platform_key ← gets (λ (s : CommandState cbor). s.platform_cose_key)
    pure (
        get_cbor cbor (
          add_defaults_for_set_pin cbor platform_key (left_hmac_sha256 library secret new_pin_enc)
            new_pin_enc empty_map))

  -- What follows a command that sets the PIN: the PIN is kept when the command succeeded.
  unfoldable pub store_pin : Bytes → Bytes → Response Value → Action (CommandState cbor) Status
  unfolding note fail_again
  store_pin message new_pin_utf8 (failure status) =
      note cbor library message >> fail_again cbor library status
  store_pin message new_pin_utf8 (answer value) =
      modify (λ (s : CommandState cbor). record s { pin_utf8 = new_pin_utf8 }) >> pure err_none

  unfoldable pub set_new_pin : Bytes → Action (CommandState cbor) Status
  unfolding check_pin_length set_pin_request padded_pin on_device store_pin
      authenticator_client_pin_positive_test
  set_new_pin new_pin_utf8 = do
    check_pin_length new_pin_utf8
    request ← set_pin_request (padded_pin new_pin_utf8)
    response ← on_device cbor library (authenticator_client_pin_positive_test cbor request)
    store_pin (codes "SetPin failed.") new_pin_utf8 response

  unfoldable pub unless_pin : Action (CommandState cbor) Status → Action (CommandState cbor) Status
  unless_pin step s = if is_empty s.pin_utf8 then step s else pure err_none s

  unfoldable pub set_pin : Bytes → Action (CommandState cbor) Status
  unfolding ok_or_return ensure_shared_secret unless_pin set_new_pin
  set_pin new_pin_utf8 =
      ok_or_return (ensure_shared_secret cbor library) (unless_pin (set_new_pin new_pin_utf8))

  unfoldable pub attempt_set_pin : Bytes → Action (CommandState cbor) Status
  unfolding ok_or_return ensure_shared_secret set_pin_request on_device
      authenticator_client_pin_negative_test
  attempt_set_pin new_padded_pin = ok_or_return (ensure_shared_secret cbor library) (
      set_pin_request new_padded_pin >>= λ request.
      on_device cbor library (authenticator_client_pin_negative_test cbor request false))

  -- The request that changes the PIN to a padded one.
  unfoldable pub change_pin_request : Bytes → Action (CommandState cbor) Value
  unfolding pin_hash_encrypted encrypt left_hmac_sha256 get_cbor add_defaults_for_change_pin
  change_pin_request new_padded_pin = do
    pin ← gets (λ (s : CommandState cbor). s.pin_utf8)
    pin_hash_enc ← pin_hash_encrypted cbor library pin
    new_pin_enc ← encrypt cbor library new_padded_pin
    secret ← gets (λ (s : CommandState cbor). s.shared_secret)
    platform_key ← gets (λ (s : CommandState cbor). s.platform_cose_key)
    pure (
        get_cbor cbor (
          add_defaults_for_change_pin cbor platform_key
            (left_hmac_sha256 library secret (new_pin_enc ++ pin_hash_enc)) new_pin_enc pin_hash_enc
            empty_map))

  unfoldable pub change_existing_pin : Bytes → Action (CommandState cbor) Status
  unfolding check_pin_length change_pin_request padded_pin on_device store_pin
      authenticator_client_pin_positive_test
  change_existing_pin new_pin_utf8 = do
    check_pin_length new_pin_utf8
    request ← change_pin_request (padded_pin new_pin_utf8)
    response ← on_device cbor library (authenticator_client_pin_positive_test cbor request)
    store_pin (codes "ChangePin failed.") new_pin_utf8 response

  unfoldable pub change_pin_to : Bytes → Action (CommandState cbor) Status
  unfolding ok_or_return set_pin change_existing_pin
  change_pin_to new_pin_utf8 = ok_or_return (set_pin default_pin) (change_existing_pin new_pin_utf8)

  unfoldable pub attempt_change_pin : Bytes → Action (CommandState cbor) Status
  unfolding ok_or_return set_pin change_pin_request on_device fail_again
      authenticator_client_pin_negative_test
  attempt_change_pin new_padded_pin = ok_or_return (set_pin default_pin) (do
    request ← change_pin_request new_padded_pin
    returned_status ←
        on_device cbor library (authenticator_client_pin_negative_test cbor request false)
    fail_again cbor library returned_status)
