-- ===== src/Examples/Series.antt =====
-- A series of tests, src/tests/test_series.cc, at a concrete input.
-- A test for an extension that the device does not have.
use ctap2_test_tool.Base.{
  List, [], bytes_eq, codes, member, modify, none, pure, push_new, refl, some, ◌++◌, ◌>>=◌, ◌∷◌,
  ◌≡◌,
}
use ctap2_test_tool.CommandState.{on_device}
use ctap2_test_tool.Commands.{on_tracker}
use ctap2_test_tool.Examples.Runs.{session}
use ctap2_test_tool.Examples.State.{before, cbor, library}
use ctap2_test_tool.Monitors.{Session, on_command_state}
use ctap2_test_tool.Tests.{
  BaseTest, has_tag, in_tags, list_tags, on_hid, tag_hmac_secret, tag_to_string, track,
}
use ctap2_test_tool.Tests.Series.{is_applicable, run_test, run_tests}
use ctap2_test_tool.Tests.SeriesLog.{Ran, log_of, run_tests_log}
use ctap2_test_tool.Tracker.{TestResult, add_observation, has_extension, log_test}

abbrev extension_test : BaseTest cbor
extension_test = record {
  id = codes "extension";
  description = codes "A test of an extension.";
  tags = tag_hmac_secret ∷ [];
  setup = pure tt;
  execute = pure none;
}

-- A test that notes an observation and fails, without the PIN.
abbrev observing_test : BaseTest cbor
observing_test = record {
  id = codes "observing";
  description = codes "A test with an observation.";
  tags = [];
  setup = pure tt;
  execute = track cbor library (modify (add_observation (codes "Seen."))) >>= λ _.
      pure (some (codes "Not passed."));
}

abbrev series : List (BaseTest cbor)
series = extension_test ∷ observing_test ∷ []

abbrev after_series : Session cbor
after_series = (run_tests cbor library series (session before)).1

run_tests_log_example :
    (entries : List TestResult) × (log_of cbor library after_series
      ≡ log_of cbor library (session before) ++ entries)
    × Ran cbor library series (session before) after_series entries
unfolding has_extension is_applicable run_tests has_tag in_tags list_tags tag_to_string member
    bytes_eq add_observation push_new log_test on_command_state on_device on_hid on_tracker run_test
    track
run_tests_log_example =
    run_tests_log cbor library series (session before) after_series
      (((λ s. refl), (λ s. refl)), (((λ s. refl), (λ s. refl)), tt)) refl
