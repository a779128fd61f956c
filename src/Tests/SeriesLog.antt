-- ===== src/Tests/SeriesLog.antt =====
-- What a whole series leaves in the log, `RunTests` of src/tests/test_series.cc.
use ctap2_test_tool.Base.{
  Action, Bool-cases, Bytes, List, Option, Outcome, [], ap, append-nil, append_assoc, arith,
  bind_done, done, false, if◌then◌else◌, inl, inr, is_some, modify, pure, refl, subst, sym, true,
  ◌&&◌, ◌++◌, ◌>>=◌, ◌∙◌, ◌∷◌, ◌≡◌,
}
use ctap2_test_tool.Cbor.{Cbor}
use ctap2_test_tool.CommandState.{on_device}
use ctap2_test_tool.CommandState.KeepsTests.{Keeps, reset-KeepsTests}
use ctap2_test_tool.CommandState.Setup.{reset}
use ctap2_test_tool.Commands.{on_tracker}
use ctap2_test_tool.Crypto.{Library}
use ctap2_test_tool.Monitors.{Session, on_command_state}
use ctap2_test_tool.Tests.{BaseTest, has_tag, list_tags, on_hid, tag_client_pin, track}
use ctap2_test_tool.Tests.Logged.{entry_of}
use ctap2_test_tool.Tests.Series.{is_applicable, run_test, run_tests}
use ctap2_test_tool.Tracker.{TestResult, log_test}

-- A series from one session to another, with the entries of the tests that were run, each with the
-- message that `Execute` returned: a test is run exactly when it applies to the device as its
-- tracker knows it when the test is due.
pub data Ran (cbor : Cbor) (library : Library)
    : List (BaseTest cbor) → Session cbor → Session cbor → List TestResult → Type 0 where
  ran_none : (s : Session cbor) → Ran cbor library [] s s []
  ran_skipped :
      (test : BaseTest cbor) (tests : List (BaseTest cbor)) (s s' : Session cbor)
      (entries : List TestResult)
      → is_applicable cbor library test s.command_state.device.tracker ≡ false
      → Ran cbor library tests s s' entries
      → Ran cbor library (test ∷ tests) s s' entries
  ran_test :
      (test : BaseTest cbor) (tests : List (BaseTest cbor)) (s s1 s' : Session cbor)
      (entries : List TestResult) (error : Option Bytes) (observed : List Bytes)
      → is_applicable cbor library test s.command_state.device.tracker ≡ true
      → run_test cbor library test s ≡ (done tt, s1)
      → (test.execute (test.setup s).1).0 ≡ done error
      → Ran cbor library tests s1 s' entries
      → Ran cbor library (test ∷ tests) s s' (entry_of cbor library test error observed ∷ entries)

module _ (cbor : Cbor) (library : Library) where
  abbrev pub log_of : Session cbor → List TestResult
  log_of s = s.command_state.device.tracker.tests

  -- A test whose two virtual functions write no entry of their own.
  abbrev pub LogsNothing : BaseTest cbor → Type 0
  LogsNothing test = Keeps log_of test.setup × Keeps log_of test.execute

  -- Every test of a series is such.
  abbrev pub AllLogNothing : List (BaseTest cbor) → Type 0
  AllLogNothing [] = Unit {0}
  AllLogNothing (test ∷ tests) = LogsNothing test × AllLogNothing tests

  abbrev clear_after : BaseTest cbor → Option Bytes → Action (Session cbor) (Unit {0})
  clear_after test error =
      if is_some error && has_tag tag_client_pin test
      then on_command_state (reset cbor library)
      else pure tt

  clear_after-Keeps :
      (test : BaseTest cbor) (error : Option Bytes) → Keeps log_of (clear_after test error)
  unfolding on_command_state
  clear_after-Keeps test error s = ground (arith, reset-KeepsTests cbor library s.command_state)

  abbrev log_step : BaseTest cbor → Option Bytes → Action (Session cbor) (Unit {0})
  log_step test error =
      track cbor library (modify (log_test test.id test.description error (list_tags test)))

  log_step_log :
      (test : BaseTest cbor) (error : Option Bytes) (s s' : Session cbor)
      → log_step test error s ≡ (done tt, s')
      → (observed : List Bytes) × (log_of s'
          ≡ log_of s ++ entry_of cbor library test error observed ∷ [])
  unfolding track on_hid on_command_state on_device on_tracker log_test
  log_step_log test error s s' e = (s.command_state.device.tracker.observations, ground (arith, e))

  -- A completed test adds its own entry to the log and nothing else.
  run_test_log :
      (test : BaseTest cbor) (s s' : Session cbor)
      → LogsNothing test
      → run_test cbor library test s ≡ (done tt, s')
      → (error : Option Bytes) × (observed : List Bytes) × ((test.execute (test.setup s).1).0
          ≡ done error)
        × (log_of s' ≡ log_of s ++ entry_of cbor library test error observed ∷ [])
  unfolding run_test
  run_test_log test s s' (k, l) e =
      let finish : Option Bytes → Action (Session cbor) (Unit {0}) =
        λ error. clear_after test error >>= λ _. log_step test error in
      let (a, e1, f1) = bind_done test.setup (λ _. test.execute >>= finish) s s' tt e in
      let s1 : Session cbor = (test.setup s).1 in
      let (error, e2, f2) = bind_done test.execute finish s1 s' tt f1 in
      let s2 : Session cbor = (test.execute s1).1 in
      let (b, e3, f3) = bind_done (clear_after test error) (λ _. log_step test error) s2 s' tt f2 in
      let (observed, same) = log_step_log test error (clear_after test error s2).1 s' f3 in
      let kept : log_of (clear_after test error s2).1 ≡ log_of s =
        clear_after-Keeps test error s2 ∙ (l s1 ∙ k s) in
      (
        error,
        observed,
        e2,
        same ∙ ap (λ x. x ++ entry_of cbor library test error observed ∷ []) kept,
      )

  -- What a series adds to the log.
  abbrev Adds : List (BaseTest cbor) → Session cbor → Session cbor → Type 0
  Adds tests s s' =
      (entries : List TestResult) × (log_of s' ≡ log_of s ++ entries)
      × Ran cbor library tests s s' entries

  skip-Adds :
      (test : BaseTest cbor) (tests : List (BaseTest cbor)) (s s' : Session cbor)
      → is_applicable cbor library test s.command_state.device.tracker ≡ false
      → Adds tests s s'
      → Adds (test ∷ tests) s s'
  skip-Adds test tests s s' h (entries, same, ran) =
      (entries, same, ran_skipped test tests s s' entries h ran)

  run-Adds :
      (test : BaseTest cbor) (tests : List (BaseTest cbor)) (s s1 s' : Session cbor)
      → LogsNothing test
      → is_applicable cbor library test s.command_state.device.tracker ≡ true
      → run_test cbor library test s ≡ (done tt, s1)
      → Adds tests s1 s'
      → Adds (test ∷ tests) s s'
  run-Adds test tests s s1 s' l h e (entries, same, ran) =
      let (error, observed, returned, first) = run_test_log test s s1 l e in
      let entry : TestResult = entry_of cbor library test error observed in
      (
        entry ∷ entries,
        same ∙ (ap (λ x. x ++ entries) first ∙ append_assoc (log_of s) (entry ∷ []) entries),
        ran_test test tests s s1 s' entries error observed h e returned ran,
      )

  pub run_tests_skipped :
      (test : BaseTest cbor) (tests : List (BaseTest cbor)) (s : Session cbor)
      → is_applicable cbor library test s.command_state.device.tracker ≡ false
      → run_tests cbor library (test ∷ tests) s ≡ run_tests cbor library tests s
  unfolding run_tests
  run_tests_skipped test tests s h = rw (h, run_tests) refl

  run_tests_applied :
      (test : BaseTest cbor) (tests : List (BaseTest cbor)) (s : Session cbor)
      → is_applicable cbor library test s.command_state.device.tracker ≡ true
      → run_tests cbor library (test ∷ tests) s
        ≡ (run_test cbor library test >>= λ _. run_tests cbor library tests) s
  unfolding run_tests
  run_tests_applied test tests s h = rw (h, run_tests) refl

  run_tests_run :
      (test : BaseTest cbor) (tests : List (BaseTest cbor)) (s s' : Session cbor)
      → is_applicable cbor library test s.command_state.device.tracker ≡ true
      → run_tests cbor library (test ∷ tests) s ≡ (done tt, s')
      → let s1 = (run_test cbor library test s).1 in
        (run_test cbor library test s ≡ (done tt, s1))
        × (run_tests cbor library tests s1 ≡ (done tt, s'))
  run_tests_run test tests s s' h e =
      let rest : Unit {0} → Action (Session cbor) (Unit {0}) = λ _. run_tests cbor library tests in
      let (a, e1, e2) =
        bind_done (run_test cbor library test) rest s s' tt
          (sym (run_tests_applied test tests s h) ∙ e) in
      ((λ i. (e1 i, (run_test cbor library test s).1)), e2)

  -- When no test of the series writes to the log itself, a completed series has run exactly the tests
  -- that applied when they were due, and has added one entry for each of them behind all earlier
  -- ones, in the order of the series, with the name of the test and the message that it returned.
  pub run_tests_log :
      (tests : List (BaseTest cbor)) (s s' : Session cbor)
      → AllLogNothing tests
      → run_tests cbor library tests s ≡ (done tt, s')
      → (entries : List TestResult) × (log_of s' ≡ log_of s ++ entries)
        × Ran cbor library tests s s' entries
  unfolding run_tests
  run_tests_log [] s s' l e = by_end (ap (λ (p : Outcome (Unit {0}) × Session cbor). p.1) e)
    where
      by_end : s ≡ s' → Adds [] s s'
      by_end same = subst (λ x. Adds [] s x) same ([], sym (append-nil (log_of s)), ran_none s)
  run_tests_log (test ∷ tests) s s' (l, ls) e =
      elim (Bool-cases (is_applicable cbor library test s.command_state.device.tracker)) [
        | inr h ↦
            skip-Adds test tests s s' h
              (run_tests_log tests s s' ls (sym (run_tests_skipped test tests s h) ∙ e))
        | inl h ↦
            let (ran, rest) = run_tests_run test tests s s' h e in
            run-Adds test tests s (run_test cbor library test s).1 s' l h ran
              (run_tests_log tests (run_test cbor library test s).1 s' ls rest)
      ]
