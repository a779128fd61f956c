-- ===== src/Examples/Waits.antt =====
-- Waiting for answers, initialization and the PIN at concrete inputs.
use ctap2_test_tool.Base.{
  [], big_endian, bytes_eq, decimal, drop, false, find_by, hex2, hex_digit, is_empty,
  load_big_endian, member, push_new, refl, true, ◌∷◌, ◌≡◌,
}
use ctap2_test_tool.CborBuilders.{get_cbor, has_entry, set_arbitrary_map_entry, unless_entry}
use ctap2_test_tool.CborBuilders.ClientPin.{
  add_defaults_for_get_key_agreement, add_defaults_for_set_pin, set_default_pin_protocol,
  set_key_agreement, set_new_pin_enc, set_pin_auth, set_sub_command,
}
use ctap2_test_tool.CommandState.{
  CommandState, compute_shared_secret, encrypt, ensure_shared_secret, fail_again, note,
  ok_or_return, on_device,
}
use ctap2_test_tool.CommandState.Pin.{
  check_pin_length, default_pin, padded_pin, set_new_pin, set_pin, set_pin_request, store_pin,
  unless_pin,
}
use ctap2_test_tool.CommandState.Success.{set_pin-has_pin}
use ctap2_test_tool.Commands.{
  check_optional, decode_map, encode_request, exchange, find_key, observe, observe_keys, on_success,
  on_tracker,
}
use ctap2_test_tool.Commands.ClientPin.{
  allowed_map_keys, authenticator_client_pin_positive_test, check_key_agreement, check_pin_retries,
  check_pin_uv_auth_token, check_sub_command, check_uv_retries, contains_key, has_response,
  is_expected_key, is_sub_command, read_client_pin_response, required, response_entry,
}
use ctap2_test_tool.Commands.Requests.{extract_sub_command_from_client_pin_request, request_map}
use ctap2_test_tool.Constants.Codes.{command_byte, keepalive_byte, status_byte, status_eq}
use ctap2_test_tool.Constants.Keys.{
  client_pin_parameters_key, client_pin_response_key, get_assertion_response_contains,
}
use ctap2_test_tool.Constants.Numbers.{algorithm_number, pin_sub_command_number}
use ctap2_test_tool.Crypto.{
  aes256_cbc, check_cose_entries, check_cose_entry, check_cose_keys, check_ecdh_cose_key,
  complete_ecdh_handshake, cose_coordinate, generate_example_ecdh_cose_key, integers_agree,
  left_hmac_sha256, write_public_key_to_cose_map,
}
use ctap2_test_tool.Examples.Protocol.{read_of, sample_device}
use ctap2_test_tool.Examples.State.{cbor, environment, init_answer, library, state}
use ctap2_test_tool.Hid.Adopts.{Arrived, challenge_of, init_adopts}
use ctap2_test_tool.Hid.Device.{HidDevice, read_result, receive_event, receive_frame, send_frame}
use ctap2_test_tool.Hid.Exchange.{
  exchange_cbor, finish_exchange, keepalive_loop, observe_prompt, process_keepalive, prompt_once,
}
use ctap2_test_tool.Hid.Frame.{
  Frame, cont_frame, from_wire, init_data, init_frame, is_init_type, masked_seq, padded,
  payload_length, to_wire,
}
use ctap2_test_tool.Hid.Init.{
  adopt_answer, answers, await_answer, draw_nonce, enumerate_retries, fido_device, find_device_path,
  init, init_channel,
}
use ctap2_test_tool.Hid.Receive.{first_frame, receive_command, receive_payload, rest_frames}
use ctap2_test_tool.Hid.Send.{send_command, send_frames}
use ctap2_test_tool.Hid.Status.{
  byte_to_status, error_code_type, is_known_status_byte, status_cast, unknown_status_observation,
}
use ctap2_test_tool.Tracker.{add_observation, is_touch_prompt_ignored, set_capabilities}

abbrev waiting : HidDevice
waiting = sample_device (read_of init_answer ∷ [])

abbrev initialized : HidDevice
initialized = (init environment waiting).1

init_adopts_example :
    (f : Frame) × Arrived waiting.wire.reads f
    × (answers (challenge_of environment waiting) f ≡ true)
    × (initialized.channel ≡ load_big_endian (drop 8 (init_data f)))
unfolding adopt_answer answers await_answer big_endian bytes_eq draw_nonce enumerate_retries
    fido_device find_device_path from_wire init init_channel init_frame load_big_endian padded
    payload_length read_result receive_event receive_frame send_frame set_capabilities status_byte
    status_eq to_wire
init_adopts_example = init_adopts environment waiting initialized refl

-- The key agreement is done, and the device confirms the new PIN.
abbrev without_pin : CommandState cbor
without_pin = record (state [] (read_of (init_frame 1 0x90 1 (0 ∷ [])) ∷ [])) { pin_utf8 = [] }

abbrev with_new_pin : CommandState cbor
with_new_pin = (set_pin cbor library default_pin without_pin).1

set_pin-has_pin_example : is_empty with_new_pin.pin_utf8 ≡ false
unfolding add_defaults_for_get_key_agreement add_defaults_for_set_pin add_observation aes256_cbc
    algorithm_number allowed_map_keys authenticator_client_pin_positive_test big_endian
    byte_to_status bytes_eq check_cose_entries check_cose_entry check_cose_keys check_ecdh_cose_key
    check_key_agreement check_optional check_pin_length check_pin_retries check_pin_uv_auth_token
    check_sub_command check_uv_retries client_pin_parameters_key client_pin_response_key
    command_byte complete_ecdh_handshake compute_shared_secret cont_frame contains_key
    cose_coordinate decimal decode_map encode_request encrypt ensure_shared_secret error_code_type
    exchange exchange_cbor extract_sub_command_from_client_pin_request fail_again find_by find_key
    finish_exchange first_frame from_wire generate_example_ecdh_cose_key
    get_assertion_response_contains get_cbor has_entry has_response hex2 hex_digit init_frame
    integers_agree is_expected_key is_init_type is_known_status_byte is_sub_command
    is_touch_prompt_ignored keepalive_byte keepalive_loop left_hmac_sha256 load_big_endian
    masked_seq member note observe observe_keys observe_prompt ok_or_return on_device on_success
    on_tracker padded padded_pin payload_length pin_sub_command_number process_keepalive prompt_once
    push_new read_client_pin_response read_result receive_command receive_event receive_frame
    receive_payload request_map required response_entry rest_frames send_command send_frame
    send_frames set_arbitrary_map_entry set_default_pin_protocol set_key_agreement set_new_pin
    set_new_pin_enc set_pin set_pin_auth set_pin_request set_sub_command status_byte status_cast
    status_eq store_pin to_wire unknown_status_observation unless_entry unless_pin
    write_public_key_to_cose_map
set_pin-has_pin_example = set_pin-has_pin cbor library default_pin without_pin with_new_pin refl
