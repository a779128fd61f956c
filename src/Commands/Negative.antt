-- ===== src/Commands/Negative.antt =====
-- The negative tests, which send a request and return the status.
use ctap2_test_tool.Base.{Action, Bool, Bytes, [], false, pure, true, ◌>>=◌}
use ctap2_test_tool.Cbor.{Cbor}
use ctap2_test_tool.Commands.{encode_request, exchange}
use ctap2_test_tool.Constants.Codes.{
  Command, Status, authenticator_client_pin, authenticator_get_assertion, authenticator_get_info,
  authenticator_get_next_assertion, authenticator_make_credential, authenticator_reset,
}
use ctap2_test_tool.Hid.Device.{HidDevice}

unfoldable pub non_cbor_negative_test : Bytes → Command → Bool → Action HidDevice Status
unfolding exchange
non_cbor_negative_test request_bytes command expect_up_check = do
  (s, response) ← exchange command request_bytes expect_up_check
  pure s

module _ (cbor : Cbor) where
  open cbor use {Value, is_none}

  unfoldable pub generic_negative_test : Value → Command → Bool → Action HidDevice Status
  unfolding non_cbor_negative_test encode_request
  generic_negative_test request command expect_up_check = elim (is_none request) [
    | true ↦ non_cbor_negative_test [] command expect_up_check
    | false ↦ encode_request cbor request >>= λ req_cbor.
        non_cbor_negative_test req_cbor command expect_up_check
  ]

  unfoldable pub make_credential_negative_test : Value → Bool → Action HidDevice Status
  unfolding generic_negative_test
  make_credential_negative_test request =
      generic_negative_test request authenticator_make_credential

  unfoldable pub get_assertion_negative_test : Value → Bool → Action HidDevice Status
  unfolding generic_negative_test
  get_assertion_negative_test request = generic_negative_test request authenticator_get_assertion

  unfoldable pub get_next_assertion_negative_test : Value → Bool → Action HidDevice Status
  unfolding generic_negative_test
  get_next_assertion_negative_test request =
      generic_negative_test request authenticator_get_next_assertion

  unfoldable pub get_info_negative_test : Value → Bool → Action HidDevice Status
  unfolding generic_negative_test
  get_info_negative_test request = generic_negative_test request authenticator_get_info

  unfoldable pub authenticator_client_pin_negative_test : Value → Bool → Action HidDevice Status
  unfolding generic_negative_test
  authenticator_client_pin_negative_test request =
      generic_negative_test request authenticator_client_pin

  unfoldable pub reset_negative_test : Value → Bool → Action HidDevice Status
  unfolding generic_negative_test
  reset_negative_test request = generic_negative_test request authenticator_reset
