-- ===== src/Examples/Checks.antt =====
-- The checks of keys, counters, responses and requests at concrete inputs.
use ctap2_test_tool.Base.{
  Bytes, List, [], bool_eq, bytes_eq, check_failed, codes, done, false, if◌then◌else◌, insert,
  length, lookup, none, pos, push_new, refl, replicate, some, true, ℕ, ◌&&◌, ◌++◌, ◌+◌, ◌||◌, ◌↔◌,
  ◌∷◌, ◌≡◌, ◌≤◌,
}
use ctap2_test_tool.Cbor.{Cbor}
use ctap2_test_tool.Cbor.Sample.{
  Table, array_item, bytes_item, integer_item, item_more, no_items, no_rows, nothing_item, row_more,
  sample_cbor, sample_laws, text_item,
}
use ctap2_test_tool.CborBuilders.ClientPin.{add_defaults_for_change_pin}
use ctap2_test_tool.CborBuilders.Defaults.{
  add_defaults_for_change_pin_lem, add_defaults_for_required_fields_lem, add_required_fields_lem,
}
use ctap2_test_tool.CborBuilders.GetAssertion.{add_required_fields}
use ctap2_test_tool.CborBuilders.MakeCredential.{add_defaults_for_required_fields}
use ctap2_test_tool.Commands.ClientPin.{allowed_map_keys, contains_key, is_expected_key}
use ctap2_test_tool.Commands.Facts.{is_expected_key-contains}
use ctap2_test_tool.Commands.Members.{check_versions}
use ctap2_test_tool.Commands.Versions.{HasVersions, check_versions_iff, is_done}
use ctap2_test_tool.Constants.Codes.{err_none, err_pin_invalid, status_eq}
use ctap2_test_tool.Constants.Keys.{client_pin_response_contains}
use ctap2_test_tool.ParameterCheck.{
  check_counter, compare_counter, register_counter, report_findings,
}
use ctap2_test_tool.ParameterCheck.Counters.{
  CounterCall, checks, counter_call, counter_calls, every, is_increasing, is_successor, is_zero,
  registers,
}
use ctap2_test_tool.ParameterCheck.Keys.{AreFresh, check_keys, check_keys_iff}
use ctap2_test_tool.ParameterCheck.Report.{
  IsRun, after_run, are_words, counter_flags_of_history, is_positive,
  report_increments_are_increasing,
}
use ctap2_test_tool.Rsp.Laws.{found, get_packetdata-to_string, send_packet_attempts}
use ctap2_test_tool.Rsp.Packet.{
  RspPacket, data_to_string, get_packetdata, read_from_memory, to_string,
}
use ctap2_test_tool.Rsp.Socket.{RemoteSerialProtocol, available, send_packet}
use ctap2_test_tool.Tracker.{
  check_expected_status, has_extension, has_option, has_version, new_device_tracker,
}
use ctap2_test_tool.Tracker.Capabilities.{initialize-capabilities, lists, offers}
use ctap2_test_tool.Tracker.Initialize.{initialize}
use ctap2_test_tool.Tracker.Observations.{
  TrackerCall, logged, logs, observes, tests_own_observations, tracker_calls,
}
use ctap2_test_tool.Tracker.Results.{
  count_result, generate_results_json, report_counts, results_counts_agree,
}
use ctap2_test_tool.Tracker.StatusChecks.{
  check_expected_status_lem, initialize_once, status_message,
}

abbrev some_calls : List CounterCall
some_calls =
    registers (1 ∷ []) 3 ∷ checks (1 ∷ []) 4 ∷ registers (2 ∷ []) 1 ∷ checks (1 ∷ []) 5 ∷ []

some_calls-IsRun : IsRun some_calls
unfolding counter_calls counter_call register_counter check_counter compare_counter insert lookup
    bytes_eq
some_calls-IsRun = refl

counter_flags_of_history_example :
    ((after_run some_calls).could_be_zero ≡ every is_zero [] some_calls)
    × ((after_run some_calls).could_be_global ≡ every is_increasing [] some_calls)
    × ((after_run some_calls).could_be_individual ≡ every is_successor [] some_calls)
counter_flags_of_history_example = counter_flags_of_history some_calls some_calls-IsRun

report_increments_are_increasing_example : every is_increasing [] some_calls ≡ true
unfolding counter_calls counter_call register_counter check_counter compare_counter insert lookup
    bytes_eq every is_positive are_words report_findings
report_increments_are_increasing_example =
    report_increments_are_increasing some_calls some_calls-IsRun refl refl refl

abbrev tracker_run : List TrackerCall
tracker_run = observes (codes "late") ∷ logs (codes "id") (codes "test") none [] ∷ []

tests_own_observations_example :
    (tracker_calls tracker_run new_device_tracker).tests ≡ logged [] tracker_run
tests_own_observations_example = tests_own_observations tracker_run

results_counts_agree_example :
    let t = tracker_calls tracker_run new_device_tracker in
    let doc = generate_results_json [] [] t in
    (doc.passed_test_count ≡ count_result (codes "pass") doc.tests)
    × (doc.total_test_count
        ≡ count_result (codes "pass") doc.tests + count_result (codes "fail") doc.tests)
    × (report_counts t ≡ (doc.passed_test_count, doc.total_test_count))
results_counts_agree_example =
    results_counts_agree [] [] (tracker_calls tracker_run new_device_tracker)

check_expected_status_lem_example :
    ((check_expected_status err_pin_invalid err_none new_device_tracker).0
      ≡ bool_eq (status_eq err_pin_invalid err_none) (status_eq err_none err_none))
    × ((check_expected_status err_pin_invalid err_none new_device_tracker).1.observations ≡ (
        if status_eq err_pin_invalid err_none
        then []
        else push_new (status_message err_pin_invalid err_none) []))
check_expected_status_lem_example =
    check_expected_status_lem err_pin_invalid err_none new_device_tracker

abbrev packet : RspPacket
packet = record { data_ = read_from_memory; address = codes "e000ed28"; param = pos 4 }

get_packetdata-to_string_example : get_packetdata (to_string packet) ≡ data_to_string packet
get_packetdata-to_string_example = get_packetdata-to_string packet

abbrev socket : RemoteSerialProtocol
socket = record {
  residue = λ n text. text;
  sent = [];
  send_results = pos 16 ∷ pos 16 ∷ [];
  arrivals = available (codes "-") ∷ available (codes "+") ∷ [];
}

send_packet_attempts_example :
    let (ok, e) = send_packet packet 3 socket in
    (k : ℕ) × (e.sent
      ≡ socket.sent ++ found socket.residue (to_string packet) (length socket.sent) k)
    × (k ≤ 3)
    × (ok ≡ true → 1 ≤ k)
    × (ok ≡ false → k ≡ 3)
send_packet_attempts_example = send_packet_attempts packet 3 socket

abbrev keys : List Bytes
keys = (1 ∷ []) ∷ (2 ∷ []) ∷ []

check_keys_iff_example :
    (((check_keys keys (record { key_set = [] })).0 ≡ done tt) ↔ AreFresh [] keys)
    × (¬ AreFresh [] keys
        → (check_keys keys (record { key_set = [] })).0
          ≡ check_failed (codes "key is either a duplicate or too common"))
check_keys_iff_example = check_keys_iff keys (record { key_set = [] })

is_expected_key-contains_example :
    is_expected_key 1 6 ≡ (client_pin_response_contains 6 && contains_key (allowed_map_keys 1) 6)
is_expected_key-contains_example = is_expected_key-contains 1 6

abbrev cbor : Cbor
cbor = sample_cbor nothing_item

initialize_once_example :
    initialize cbor [] [] no_rows
      (initialize cbor (text_item (codes "FIDO_2_0") ∷ []) [] no_rows new_device_tracker)
    ≡ initialize cbor (text_item (codes "FIDO_2_0") ∷ []) [] no_rows new_device_tracker
initialize_once_example =
    initialize_once cbor (text_item (codes "FIDO_2_0") ∷ []) [] [] [] no_rows no_rows
      new_device_tracker

-- A request that already has a client data hash.
abbrev request : Table
request = row_more (integer_item (pos 1)) (bytes_item (9 ∷ [])) no_rows

add_defaults_for_required_fields_lem_example :
    cbor.find
      (add_defaults_for_required_fields cbor (codes "example.com") request)
      (integer_item (pos 1))
    ≡ some (bytes_item (9 ∷ []))
add_defaults_for_required_fields_lem_example =
    add_defaults_for_required_fields_lem cbor (sample_laws nothing_item) (codes "example.com")
      request 1

add_required_fields_lem_example :
    cbor.find (add_required_fields cbor (codes "example.com") request) (integer_item (pos 2))
    ≡ some (bytes_item (replicate 32 0xcd))
add_required_fields_lem_example =
    add_required_fields_lem cbor (sample_laws nothing_item) (codes "example.com") request 2

add_defaults_for_change_pin_lem_example :
    cbor.find
      (add_defaults_for_change_pin cbor no_rows [] [] (3 ∷ []) request)
      (integer_item (pos 6))
    ≡ some (bytes_item (3 ∷ []))
add_defaults_for_change_pin_lem_example =
    add_defaults_for_change_pin_lem cbor (sample_laws nothing_item) no_rows [] [] (3 ∷ []) request 6

-- The members of a response to GetInfo with one version.
abbrev members : Table
members =
    row_more (integer_item (pos 1)) (array_item (item_more (text_item (codes "FIDO_2_0")) no_items))
      no_rows

check_versions_iff_example :
    (is_done (check_versions cbor members tt).0 ≡ true) ↔ HasVersions cbor members
check_versions_iff_example = check_versions_iff cbor members tt

initialize-capabilities_example :
    let t = initialize cbor (text_item (codes "FIDO_2_0") ∷ []) [] no_rows new_device_tracker in
    (has_version (codes "FIDO_2_0") t ≡ (
      lists cbor (codes "FIDO_2_0") (text_item (codes "FIDO_2_0") ∷ [])
      || has_version (codes "FIDO_2_0") new_device_tracker))
    × (has_extension (codes "FIDO_2_0") t
        ≡ (lists cbor (codes "FIDO_2_0") [] || has_extension (codes "FIDO_2_0") new_device_tracker))
    × (has_option (codes "FIDO_2_0") t ≡ (
        offers cbor (codes "FIDO_2_0") (cbor.entries no_rows)
        || has_option (codes "FIDO_2_0") new_device_tracker))
initialize-capabilities_example =
    initialize-capabilities cbor (text_item (codes "FIDO_2_0") ∷ []) [] no_rows new_device_tracker
      (codes "FIDO_2_0") refl
