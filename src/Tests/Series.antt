-- ===== src/Tests/Series.antt =====
-- `RunTests` of src/tests/test_series.cc.
use ctap2_test_tool.Base.{
  Action, Bool, List, [], codes, false, gets, if◌then◌else◌, is_some, modify, not, pure, ◌&&◌,
  ◌>>=◌, ◌>>◌, ◌∷◌,
}
use ctap2_test_tool.Cbor.{Cbor}
use ctap2_test_tool.CommandState.Setup.{reset}
use ctap2_test_tool.Crypto.{Library}
use ctap2_test_tool.Monitors.{Session, on_command_state}
use ctap2_test_tool.Tests.{
  BaseTest, has_tag, list_tags, tag_client_pin, tag_fido2_point1, tag_hmac_secret, track,
}
use ctap2_test_tool.Tracker.{DeviceTracker, has_extension, has_option, has_version, log_test}

module _ (cbor : Cbor) (library : Library) where
  -- Whether the device supports what the tags of a test ask for.
  unfoldable pub is_applicable : BaseTest cbor → DeviceTracker → Bool
  unfolding has_tag has_option has_extension has_version
  is_applicable test t =
      if has_tag tag_client_pin test && not (has_option (codes "clientPin") t)
      then false
      else if has_tag tag_hmac_secret test && not (has_extension (codes "hmac-secret") t)
      then false
      else not (has_tag tag_fido2_point1 test && not (has_version (codes "FIDO_2_1_PRE") t))

  unfoldable pub run_test : BaseTest cbor → Action (Session cbor) (Unit {0})
  unfolding has_tag on_command_state reset track log_test list_tags
  run_test test = do
    test.setup
    error_message ← test.execute
    (if is_some error_message && has_tag tag_client_pin test
        then on_command_state (reset cbor library)
        else pure tt)
    track cbor library (modify (log_test test.id test.description error_message (list_tags test)))

  unfoldable pub run_tests : List (BaseTest cbor) → Action (Session cbor) (Unit {0})
  unfolding is_applicable run_test
  run_tests [] = pure tt
  run_tests (test ∷ tests) = do
    t ← gets (λ (s : Session cbor). s.command_state.device.tracker)
    (if is_applicable test t then run_test test else pure tt)
    run_tests tests
