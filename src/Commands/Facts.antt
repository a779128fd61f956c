-- ===== src/Commands/Facts.antt =====
-- What the checks of the responses accept.
use ctap2_test_tool.Base.{arith, ℕ, ◌&&◌, ◌≡◌}
use ctap2_test_tool.Commands.ClientPin.{allowed_map_keys, contains_key, is_expected_key}
use ctap2_test_tool.Constants.Keys.{
  client_pin_response_contains, client_pin_response_key, get_assertion_response_contains,
}

-- The loop over the keys of a ClientPin response asks `GetAssertionResponseContains`. It accepts
-- the same keys for every subcommand as it would with `ClientPinResponseContains`.
pub is_expected_key-contains :
    (sub_command map_key : ℕ)
    → is_expected_key sub_command map_key ≡ (
        client_pin_response_contains map_key && contains_key (allowed_map_keys sub_command) map_key)
unfolding is_expected_key client_pin_response_contains get_assertion_response_contains contains_key
    allowed_map_keys client_pin_response_key
is_expected_key-contains sub_command map_key = ground arith
