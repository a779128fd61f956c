-- ===== src/Hid/Exchange.antt =====
-- `ProcessKeepalive`, `ExchangeCbor` and `Wink`. `PromptUser` only prints; its calls are counted.
use ctap2_test_tool.Base.{
  Bool, Bytes, [], codes, drop, false, get_or, if◌then◌else◌, is_empty, length, ltb, not, suc, true,
  zero, ℕ, ◌&&◌, ◌++◌, ◌+◌, ◌==◌, ◌∷◌,
}
use ctap2_test_tool.Constants.Codes.{
  Command, KeepaliveStatus, Status, command_byte, err_invalid_command, err_invalid_length, err_none,
  err_other, err_timeout, keepalive_byte, status_eq, status_error, status_processing,
  status_up_needed,
}
use ctap2_test_tool.Hid.Device.{HidDevice}
use ctap2_test_tool.Hid.Frame.{
  ctap_hid_cbor, ctap_hid_keepalive, ctap_hid_wink, max_data_size, receive_timeout,
}
use ctap2_test_tool.Hid.Receive.{receive_command}
use ctap2_test_tool.Hid.Send.{send_command}
use ctap2_test_tool.Hid.Status.{byte_to_status}
use ctap2_test_tool.Tracker.{add_observation, is_touch_prompt_ignored}

unfoldable pub process_keepalive : Bytes → KeepaliveStatus
unfolding keepalive_byte
process_keepalive bytes =
    if not (length bytes == 1)
    then status_error
    else if get_or bytes 0 0 == keepalive_byte status_processing
    then status_processing
    else if get_or bytes 0 0 == keepalive_byte status_up_needed
    then status_up_needed
    else status_error

-- The first request for user presence prompts the user, unless the tracker ignores the prompt.
unfoldable pub prompt_once : Bool → HidDevice → HidDevice
prompt_once has_sent_prompt d =
    if has_sent_prompt
    then d
    else let (ignored, t) = is_touch_prompt_ignored d.tracker in
      if ignored
      then record d { tracker = t }
      else record d { tracker = t; prompts = d.prompts + 1 }

-- How the loop over keepalive messages ends: with a status that `ExchangeCbor` returns, or with
-- the answer to the command.
pub data Answer : Type 0 where
  failed : Status → Answer
  answered : ℕ → Bytes → Bool → Answer

-- The loop. Every further message takes at least one read, so the rounds above the number of
-- reads are never used.
unfoldable pub keepalive_loop : ℕ → ℕ → Bytes → Bool → HidDevice → Answer × HidDevice
keepalive_loop zero cmd bytes has_sent_prompt d = (failed err_timeout, d)
keepalive_loop (suc fuel) cmd bytes has_sent_prompt d = elim (cmd == ctap_hid_keepalive) [
  | false ↦ (answered cmd bytes has_sent_prompt, d)
  | true ↦ elim (process_keepalive bytes) [
    | status_error ↦ (failed err_other, d)
    | status_processing ↦
        let (r, d') = receive_command receive_timeout cmd d in
        elim (status_eq r.status err_none) [
          | false ↦ (failed r.status, d')
          | true ↦ keepalive_loop fuel r.cmd r.bytes has_sent_prompt d'
        ]
    | status_up_needed ↦
        let (r, d') = receive_command receive_timeout cmd (prompt_once has_sent_prompt d) in
        elim (status_eq r.status err_none) [
          | false ↦ (failed r.status, d')
          | true ↦ keepalive_loop fuel r.cmd r.bytes true d'
        ]
  ]
]

-- The observations on a prompt that differs from what was expected.
unfoldable pub observe_prompt : Bool → Bool → HidDevice → HidDevice
observe_prompt has_sent_prompt expect_up_check d =
    if has_sent_prompt && not expect_up_check
    then record d { tracker = add_observation (codes "A prompt was sent unexpectedly.") d.tracker }
    else if not has_sent_prompt && expect_up_check
    then record d {
      tracker =
          add_observation
            (codes
              "A prompt was expected, but not performed. Sometimes it is just not recognized if performed too fast.")
            d.tracker;
    }
    else d

-- What follows the loop: the response is appended, and the first byte is the status.
unfoldable pub finish_exchange : Bool → Bytes → Answer × HidDevice → Status × Bytes × HidDevice
finish_exchange expect_up_check response (failed s, d) = (s, response, d)
finish_exchange expect_up_check response (answered cmd bytes has_sent_prompt, d) =
    let (s, d') =
      byte_to_status (get_or bytes 0 0) (observe_prompt has_sent_prompt expect_up_check d) in
    if not (cmd == ctap_hid_cbor)
    then (err_invalid_command, response, d)
    else if is_empty bytes
    then (err_invalid_length, response, d)
    else (s, response ++ drop 1 bytes, d')

unfoldable pub exchange_cbor :
    Command → Bytes → Bool → Bytes → HidDevice → Status × Bytes × HidDevice
unfolding finish_exchange
exchange_cbor command payload expect_up_check response d =
    let (s, d') = send_command ctap_hid_cbor (command_byte command ∷ payload) d in
    let (r, d'') = receive_command receive_timeout ctap_hid_cbor d' in
    let answer = keepalive_loop (suc (length d''.wire.reads)) r.cmd r.bytes false d'' in
    if ltb max_data_size (1 + length payload)
    then (err_invalid_length, response, d)
    else if not (status_eq s err_none)
    then (s, response, d')
    else if not (status_eq r.status err_none)
    then (r.status, response, d'')
    else finish_exchange expect_up_check response answer

unfoldable pub wink : HidDevice → Status × HidDevice
wink d =
    let (s, d') = send_command ctap_hid_wink [] d in
    let (r, d'') = receive_command receive_timeout ctap_hid_wink d' in
    if not (status_eq s err_none)
    then (s, d')
    else if not (r.cmd == ctap_hid_wink)
    then (err_invalid_command, d'')
    else if not (is_empty r.bytes)
    then (err_invalid_length, d'')
    else (r.status, d'')
