-- ===== src/Examples/Runs.antt =====
-- Runs of tests, and what they read, at concrete inputs.
use ctap2_test_tool.Base.{
  Bytes, Perm, [], arith, big_endian, bytes_eq, codes, done, find_by, hex2, hex_digit,
  load_big_endian, map, member, none, pure, push_new, refl, replicate, some, true, undefined, ◌*◌,
  ◌++◌, ◌+◌, ◌∷◌, ◌≡◌, ◌≢◌,
}
use ctap2_test_tool.CommandState.{CommandState, on_device}
use ctap2_test_tool.CommandState.Setup.{
  device_check_response, init_next, prompt_replug_and_init, require_response, reset, reset_rounds,
}
use ctap2_test_tool.Commands.{exchange, has_flag, on_success, on_tracker}
use ctap2_test_tool.Commands.GetAssertion.{reset_positive_test}
use ctap2_test_tool.Constants.Codes.{
  command_byte, keepalive_byte, status_byte, status_eq, status_to_string,
}
use ctap2_test_tool.Examples.State.{before, cbor, library}
use ctap2_test_tool.Fuzzing.{cbor_make_credential_parameter, input_type_to_directory_name}
use ctap2_test_tool.Fuzzing.Corpus.{join_path, metadata_of, sort_metadata}
use ctap2_test_tool.Fuzzing.Order.{IsOrdered}
use ctap2_test_tool.Hid.Device.{read_result, receive_event, receive_frame, send_frame}
use ctap2_test_tool.Hid.Exchange.{
  exchange_cbor, finish_exchange, keepalive_loop, observe_prompt, process_keepalive, prompt_once,
}
use ctap2_test_tool.Hid.Frame.{
  cont_frame, from_wire, init_frame, is_init_type, masked_seq, padded, payload_length, to_wire,
}
use ctap2_test_tool.Hid.Init.{
  adopt_answer, answers, await_answer, draw_nonce, enumerate_retries, fido_device, find_device_path,
  init, init_channel,
}
use ctap2_test_tool.Hid.Receive.{first_frame, receive_command, receive_payload, rest_frames}
use ctap2_test_tool.Hid.Send.{send_command, send_frames}
use ctap2_test_tool.Hid.Status.{
  byte_to_status, error_code_type, is_known_status_byte, status_cast, unknown_status_observation,
}
use ctap2_test_tool.Monitors.{Session, blackbox, on_command_state}
use ctap2_test_tool.Monitors.Decoding.{
  register_value-error_reply, register_value-little_endian, word_text,
}
use ctap2_test_tool.Monitors.Registers.{htonl, register_value}
use ctap2_test_tool.Tests.{
  BaseTest, has_tag, in_tags, list_tags, on_hid, tag_client_pin, tag_to_string, track,
}
use ctap2_test_tool.Tests.Corpus.{Surroundings, execute_corpus}
use ctap2_test_tool.Tests.Credentials.{credential_id_of-defined, credential_id_of-encoded}
use ctap2_test_tool.Tests.Helpers.{credential_id_of}
use ctap2_test_tool.Tests.Logged.{run_test-clean}
use ctap2_test_tool.Tests.Refinement.{execute_corpus_refines, run_entries}
use ctap2_test_tool.Tests.Series.{run_test}
use ctap2_test_tool.Tests.Steps.{passed}
use ctap2_test_tool.Tracker.{
  add_observation, assert_condition, assert_response, check_response, check_status,
  is_touch_prompt_ignored, log_test, set_capabilities,
}

abbrev pub session : CommandState cbor → Session cbor
session s = record {
  command_state = s;
  monitor = record {
    kind = blackbox;
    port = 0;
    initial_pin_token = [];
    rsp_client = record { residue = λ n text. text; sent = []; send_results = []; arrivals = [] };
    stop_message = [];
    printed = [];
    saved = [];
  };
}

-- A test that fails, after which the device is reset.
abbrev failing_test : BaseTest cbor
failing_test = record {
  id = codes "failing";
  description = codes "A test that fails.";
  tags = tag_client_pin ∷ [];
  setup = pure tt;
  execute = pure (some (codes "It failed."));
}

abbrev after_test : Session cbor
after_test = (run_test cbor library failing_test (session before)).1

run_test-clean_example :
    (after_test.command_state.pin_utf8 ≡ []) × (after_test.command_state.auth_token ≡ [])
unfolding add_observation adopt_answer answers assert_condition assert_response await_answer
    big_endian byte_to_status bytes_eq check_response check_status command_byte cont_frame
    device_check_response draw_nonce enumerate_retries error_code_type exchange exchange_cbor
    fido_device find_by find_device_path finish_exchange first_frame from_wire has_tag hex2
    hex_digit in_tags init init_channel init_frame init_next is_init_type is_known_status_byte
    is_touch_prompt_ignored keepalive_byte keepalive_loop list_tags load_big_endian log_test
    masked_seq member observe_prompt on_command_state on_device on_hid on_success on_tracker padded
    payload_length process_keepalive prompt_once prompt_replug_and_init push_new read_result
    receive_command receive_event receive_frame receive_payload require_response reset
    reset_positive_test reset_rounds rest_frames run_test send_command send_frame send_frames
    set_capabilities status_byte status_cast status_eq status_to_string tag_to_string to_wire track
    unknown_status_observation
run_test-clean_example =
    run_test-clean cbor library failing_test (some (codes "It failed.")) (session before)
      (session before) (session before) after_test refl refl refl refl

-- Two files, of which the directory lists the longer one first.
abbrev around : Surroundings
around = record {
  files = record {
    directory = λ path. (3, codes "b") ∷ (1, codes "a") ∷ [];
    contents = λ path. some (1 ∷ []);
  };
  env_dir = none;
  can_open = λ path. true;
}

abbrev corpus_path : Bytes
corpus_path =
    join_path (codes "corpus") (input_type_to_directory_name cbor_make_credential_parameter)

execute_corpus_refines_example :
    (execute_corpus cbor library around cbor_make_credential_parameter
        (codes "corpus")
        (session before)
      ≡ run_entries cbor library around cbor_make_credential_parameter corpus_path
          (sort_metadata (map metadata_of (around.files.directory corpus_path)))
          0
          (session before))
    × IsOrdered (sort_metadata (map metadata_of (around.files.directory corpus_path)))
    × Perm
        (sort_metadata (map metadata_of (around.files.directory corpus_path)))
        (map metadata_of (around.files.directory corpus_path))
execute_corpus_refines_example =
    execute_corpus_refines cbor library around cbor_make_credential_parameter (codes "corpus")
      (session before)

-- The word 0x08001234 in memory.
register_value-little_endian_example :
    register_value (word_text 0x34 0x12 0x00 0x08)
    ≡ some (0x34 + 256 * 0x12 + 65536 * 0x00 + 16777216 * 0x08)
register_value-little_endian_example =
    register_value-little_endian 0x34 0x12 0x00 0x08 (omega arith) (omega arith) (omega arith)
      (omega arith)

register_value-error_reply_example :
    register_value (69 ∷ (48 + 0) ∷ (48 + 1) ∷ []) ≡ some (htonl (14 * 256 + 0 * 16 + 1))
register_value-error_reply_example = register_value-error_reply 0 1 (omega arith) (omega arith)

credential_id_of-defined_example :
    (credential_id_of cbor (replicate 60 0x40) (session before)).0 ≢ undefined
credential_id_of-defined_example =
    credential_id_of-defined cbor (replicate 60 0x40) (session before)

abbrev data_header : Bytes
data_header = replicate 53 0x40 ++ 0 ∷ 2 ∷ []

credential_id_of-encoded_example :
    credential_id_of cbor (data_header ++ ((7 ∷ 8 ∷ []) ++ (9 ∷ []))) (session before)
    ≡ (done (passed (7 ∷ 8 ∷ [])), session before)
unfolding has_flag
credential_id_of-encoded_example =
    credential_id_of-encoded cbor data_header (7 ∷ 8 ∷ []) (9 ∷ []) 0x40 0 2 (session before) refl
      refl refl refl refl refl
