-- ===== src/Tests/Corpus.antt =====
-- src/tests/fuzzing_corpus.cc: the files of a corpus are sent one after the other until the monitor
-- sees a crash.
use ctap2_test_tool.Base.{
  Action, Bool, Bytes, List, Option, Outcome, [], check, codes, decimal, done, false, if◌then◌else◌,
  length, modify, none, pure, some, suc, true, zero, ℕ, ◌++◌, ◌+◌, ◌>>=◌, ◌>>◌, ◌∷◌,
}
use ctap2_test_tool.Cbor.{Cbor}
use ctap2_test_tool.Crypto.{Library}
use ctap2_test_tool.Fuzzing.{
  InputType, cbor_client_pin_parameter, cbor_get_assertion_parameter,
  cbor_make_credential_parameter, send_input,
}
use ctap2_test_tool.Fuzzing.Corpus.{
  CorpusController, FileSystem, get_next_input, has_next_input, new_corpus_controller,
}
use ctap2_test_tool.Monitors.{Session, on_monitor, save_crash_file}
use ctap2_test_tool.Monitors.Watch.{device_crashed, prepare_monitor, print_crash_report}
use ctap2_test_tool.Tests.{BaseTest, base_setup, on_hid, tag_fuzzing, track}
use ctap2_test_tool.Tracker.{DeviceTracker, add_observation}

abbrev pub crash_retries : ℕ
crash_retries = 3

-- The file system, the environment variable, and where files can be created.
pub record Surroundings : Type 0 where
  pub files : FileSystem
  pub env_dir : Option Bytes
  pub can_open : Bytes → Bool

abbrev pub from_outcome : {S A : Type 0} → Outcome A → Action S A
from_outcome o s = (o, s)

module _ (cbor : Cbor) (library : Library) where
  unfoldable pub add_observations : Bytes → List Bytes → DeviceTracker → DeviceTracker
  unfolding add_observation
  add_observations input_name [] t = t
  add_observations input_name (observation ∷ rest) t =
      add_observations input_name rest
        (add_observation (codes "In file " ++ input_name ++ codes " " ++ observation) t)

  unfoldable pub report_crash :
      Surroundings → InputType → Bytes → Bytes → ℕ → Action (Session cbor) (Option Bytes)
  unfolding on_monitor print_crash_report save_crash_file decimal
  report_crash around input_type input_data input_name passed_test_files = do
    on_monitor print_crash_report
    save_path ←
        on_monitor (save_crash_file around.env_dir around.can_open input_type input_data input_name)
    pure (
        some (
          codes "Saved crash input to "
          ++ save_path
          ++ codes ". Ran a total of "
          ++ decimal passed_test_files
          ++ codes " files."))

  -- One file: the message when the device crashed.
  unfoldable pub run_input :
      Surroundings → InputType → Bytes → Bytes → ℕ → Action (Session cbor) (Option Bytes)
  unfolding on_hid send_input device_crashed track add_observations report_crash
  run_input around input_type input_data input_name passed_test_files = do
    on_hid cbor library (λ d. let (s, d') = send_input input_type input_data d in (done s, d'))
    (crashed, observed) ← device_crashed cbor library crash_retries
    track cbor library (modify (add_observations input_name observed))
    (if crashed
        then report_crash around input_type input_data input_name passed_test_files
        else pure none)

  -- The loop. The index grows with every round, so as many rounds as there are entries are enough.
  unfoldable pub corpus_loop :
      Surroundings → InputType → ℕ → CorpusController → ℕ → Action (Session cbor) (Option Bytes)
  unfolding has_next_input get_next_input run_input
  corpus_loop around input_type zero c passed_test_files = pure none
  corpus_loop around input_type (suc fuel) c passed_test_files = elim (has_next_input c) [
    | false ↦ pure none
    | true ↦
        let (input, c') = get_next_input around.files c in
        from_outcome input >>= λ (input_data, input_name).
        run_input around input_type input_data input_name passed_test_files >>= λ stop. elim stop [
          | some message ↦ pure (some message)
          | none ↦ corpus_loop around input_type fuel c' (passed_test_files + 1)
        ]
  ]

  unfoldable pub execute_corpus :
      Surroundings → InputType → Bytes → Action (Session cbor) (Option Bytes)
  unfolding new_corpus_controller corpus_loop
  execute_corpus around input_type base_corpus_path =
      let c = new_corpus_controller around.files input_type base_corpus_path in
      corpus_loop around input_type (length c.corpus_metadata) c 0

  unfoldable pub setup_corpus : Action (Session cbor) (Unit {0})
  unfolding base_setup prepare_monitor
  setup_corpus = do
    base_setup cbor library false
    ok ← prepare_monitor cbor library
    check ok (codes "Monitor preparation failed!")

  unfoldable pub corpus_test : Surroundings → InputType → Bytes → Bytes → Bytes → BaseTest cbor
  unfolding setup_corpus execute_corpus
  corpus_test around input_type base_corpus_path test_id test_description = record {
    id = test_id;
    description = test_description;
    tags = tag_fuzzing ∷ [];
    setup = setup_corpus;
    execute = execute_corpus around input_type base_corpus_path;
  }

  -- `GetCorpusTests`.
  unfoldable pub get_corpus_tests : Surroundings → Bytes → List (BaseTest cbor)
  unfolding corpus_test
  get_corpus_tests around path =
      corpus_test around cbor_make_credential_parameter path (codes "make_credential_corpus")
        (codes "Tests the corpus of CTAP MakeCredential commands.")
      ∷ corpus_test around cbor_get_assertion_parameter path (codes "get_assertion_corpus")
          (codes "Tests the corpus of CTAP GetAssertion commands.")
      ∷ corpus_test around cbor_client_pin_parameter path (codes "client_pin_corpus")
          (codes "Tests the corpus of CTAP ClientPIN commands.")
      ∷ []
