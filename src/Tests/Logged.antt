-- ===== src/Tests/Logged.antt =====
-- What the run of one test leaves, src/tests/test_series.cc.
use ctap2_test_tool.Base.{
  Action, Bytes, List, Option, [], arith, bind_done, done, if◌then◌else◌, is_some, modify, pure,
  true, ◌&&◌, ◌>>◌, ◌≡◌,
}
use ctap2_test_tool.Cbor.{Cbor}
use ctap2_test_tool.CommandState.{on_device}
use ctap2_test_tool.CommandState.Facts.{reset_lem}
use ctap2_test_tool.CommandState.Setup.{reset}
use ctap2_test_tool.Commands.{on_tracker}
use ctap2_test_tool.Crypto.{Library}
use ctap2_test_tool.Monitors.{Session, on_command_state}
use ctap2_test_tool.Tests.{BaseTest, has_tag, list_tags, on_hid, tag_client_pin, track}
use ctap2_test_tool.Tests.Series.{run_test}
use ctap2_test_tool.Tracker.{DeviceTracker, TestResult, log_test}

module _ (cbor : Cbor) (library : Library) where
  -- The entry for a test, with the observations made since the last entry.
  abbrev pub entry_of : BaseTest cbor → Option Bytes → List Bytes → TestResult
  entry_of test error observed = record {
    test_id = test.id;
    test_description = test.description;
    error_message = error;
    observations = observed;
    tags = list_tags test;
  }

  abbrev pub tracker_of : Session cbor → DeviceTracker
  tracker_of s = s.command_state.device.tracker

  -- The part of `RunTests` behind `Execute`.
  abbrev finish_test : BaseTest cbor → Option Bytes → Action (Session cbor) (Unit {0})
  finish_test test error =
      (if is_some error && has_tag tag_client_pin test
        then on_command_state (reset cbor library)
        else pure tt)
      >> track cbor library (modify (log_test test.id test.description error (list_tags test)))

  finish_test-clean :
      (test : BaseTest cbor) (error : Option Bytes) (s s' : Session cbor)
      → finish_test test error s ≡ (done tt, s')
      → (is_some error && has_tag tag_client_pin test) ≡ true
      → (s'.command_state.pin_utf8 ≡ []) × (s'.command_state.auth_token ≡ [])
  unfolding track on_hid on_command_state on_device on_tracker log_test
  finish_test-clean test error s s' e h =
      let clear =
        if is_some error && has_tag tag_client_pin test
        then on_command_state (reset cbor library)
        else pure tt in
      let log =
        track cbor library (modify (log_test test.id test.description error (list_tags test))) in
      let (a, r, e') = bind_done clear (λ _. log) s s' tt e in
      let was_reset : (reset cbor library s.command_state).0 ≡ done tt = ground (arith, r, h) in
      let x =
        reset_lem cbor library s.command_state (reset cbor library s.command_state).1
          (λ i. (was_reset i, (reset cbor library s.command_state).1)) in
      ground (arith, e', h, x)

  finish_of :
      (test : BaseTest cbor) (error : Option Bytes) (s s1 s2 s' : Session cbor)
      → test.setup s ≡ (done tt, s1)
      → test.execute s1 ≡ (done error, s2)
      → run_test cbor library test s ≡ (done tt, s')
      → finish_test test error s2 ≡ (done tt, s')
  unfolding run_test
  finish_of test error s s1 s2 s' e1 e2 e = ground (arith, e, e1, e2)

  -- After a test that failed and uses the PIN, the command state knows no PIN and no token.
  pub run_test-clean :
      (test : BaseTest cbor) (error : Option Bytes) (s s1 s2 s' : Session cbor)
      → test.setup s ≡ (done tt, s1)
      → test.execute s1 ≡ (done error, s2)
      → run_test cbor library test s ≡ (done tt, s')
      → (is_some error && has_tag tag_client_pin test) ≡ true
      → (s'.command_state.pin_utf8 ≡ []) × (s'.command_state.auth_token ≡ [])
  run_test-clean test error s s1 s2 s' e1 e2 e =
      finish_test-clean test error s2 s' (finish_of test error s s1 s2 s' e1 e2 e)
