-- ===== src/Examples/State.antt =====
-- The state of the PIN protocol at concrete inputs.
use ctap2_test_tool.Base.{
  List, [], big_endian, bytes_eq, codes, find_by, load_big_endian, member, pos, push_new, refl,
  replicate, some, true, ◌++◌, ◌∷◌, ◌≡◌,
}
use ctap2_test_tool.Cbor.{Cbor}
use ctap2_test_tool.Cbor.Sample.{integer_item, no_rows, nothing_item, row_more, sample_cbor}
use ctap2_test_tool.CommandState.{CommandState, on_device}
use ctap2_test_tool.CommandState.Facts.{reset_lem}
use ctap2_test_tool.CommandState.Pin.{default_pin}
use ctap2_test_tool.CommandState.Setup.{
  device_check_response, init_next, prompt_replug_and_init, require_response, reset, reset_rounds,
}
use ctap2_test_tool.Commands.{exchange, on_success, on_tracker}
use ctap2_test_tool.Commands.GetAssertion.{reset_positive_test}
use ctap2_test_tool.Constants.Codes.{command_byte, status_byte, status_eq}
use ctap2_test_tool.Crypto.{Library}
use ctap2_test_tool.Examples.Protocol.{read_of, sample_device}
use ctap2_test_tool.Hid.Device.{ReadEvent, read_result, receive_event, receive_frame, send_frame}
use ctap2_test_tool.Hid.Exchange.{exchange_cbor, finish_exchange, keepalive_loop, observe_prompt}
use ctap2_test_tool.Hid.Frame.{
  Frame, from_wire, init_frame, is_init_type, masked_seq, padded, payload_length, to_wire,
}
use ctap2_test_tool.Hid.Init.{
  HidEnvironment, adopt_answer, answers, await_answer, draw_nonce, enumerate_retries, fido_device,
  find_device_path, init, init_channel,
}
use ctap2_test_tool.Hid.Receive.{first_frame, receive_command, receive_payload, rest_frames}
use ctap2_test_tool.Hid.Send.{send_command, send_frames}
use ctap2_test_tool.Hid.Status.{byte_to_status, is_known_status_byte, status_cast}
use ctap2_test_tool.Tracker.{
  add_observation, assert_condition, assert_response, check_response, check_status,
  new_device_tracker, set_capabilities,
}

abbrev pub cbor : Cbor
cbor = sample_cbor nothing_item

abbrev pub library : Library
library = record {
  sha256 = λ m. replicate 32 0;
  hmac_sha256 = λ k m. replicate 32 0;
  ecdsa_signature_r = λ s. some s;
  aes_cbc_encrypt = λ k m. m;
  aes_cbc_decrypt = λ k m. m;
  ecdh = λ n x y. some (x, y, x);
}

abbrev pub state : List HidEnvironment → List ReadEvent → CommandState cbor
state environments reads = record {
  device = sample_device reads;
  environments = environments;
  platform_cose_key = row_more (integer_item (pos 1)) (integer_item (pos 2)) no_rows;
  shared_secret = replicate 32 1;
  pin_utf8 = default_pin;
  auth_token = replicate 16 3;
  keys_generated = 1;
}

-- A device that is found, allocates channel 1 and confirms the reset.
abbrev pub environment : HidEnvironment
environment = record {
  enumerations =
      (record {
        path = codes "/dev/hidraw0";
        usage_page = 0xf1d0;
        identifiers = new_device_tracker.device_identifiers;
      }
        ∷ [])
      ∷ [];
  opens = λ path. true;
  rand_r = λ seed. (7, seed);
}

abbrev pub init_answer : Frame
init_answer =
    init_frame 0xFFFFFFFF 0x86 17 (replicate 8 7 ++ (0 ∷ 0 ∷ 0 ∷ 1 ∷ 2 ∷ 1 ∷ 0 ∷ 0 ∷ 0x0c ∷ []))

abbrev pub before : CommandState cbor
before =
    state (environment ∷ []) (read_of init_answer ∷ read_of (init_frame 1 0x90 1 (0 ∷ [])) ∷ [])

abbrev after : CommandState cbor
after = (reset cbor library before).1

reset_lem_example :
    (after.platform_cose_key ≡ no_rows)
    × (after.shared_secret ≡ [])
    × (after.pin_utf8 ≡ [])
    × (after.auth_token ≡ [])
unfolding reset prompt_replug_and_init init_next on_device init find_device_path fido_device
    enumerate_retries init_channel draw_nonce await_answer answers adopt_answer reset_rounds
    reset_positive_test device_check_response require_response check_response check_status
    assert_response assert_condition on_tracker exchange exchange_cbor send_command send_frames
    send_frame receive_command first_frame receive_frame read_result receive_event from_wire to_wire
    init_frame is_init_type receive_payload payload_length rest_frames keepalive_loop
    finish_exchange observe_prompt byte_to_status is_known_status_byte status_cast find_by
    status_byte status_eq command_byte on_success load_big_endian big_endian member bytes_eq padded
    add_observation push_new masked_seq set_capabilities
reset_lem_example = reset_lem cbor library before after refl
