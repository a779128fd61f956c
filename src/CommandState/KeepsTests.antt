-- ===== src/CommandState/KeepsTests.antt =====
-- `CommandState::Reset` leaves the log of tests as it was, src/command_state.cc.
use ctap2_test_tool.Base.{
  Action, Bool, Bytes, List, Outcome, [], arith, check, check_failed, codes, done, false, is_empty,
  modify, pure, refl, suc, true, undefined, zero, ℕ, ◌>>=◌, ◌∙◌, ◌∷◌, ◌≡◌,
}
use ctap2_test_tool.Cbor.{Cbor}
use ctap2_test_tool.CommandState.{CommandState, on_device}
use ctap2_test_tool.CommandState.Setup.{
  device_check_response, init_next, prompt_replug_and_init, require_response, reset, reset_retries,
  reset_rounds,
}
use ctap2_test_tool.Commands.{exchange, on_success, on_tracker}
use ctap2_test_tool.Commands.GetAssertion.{reset_positive_test}
use ctap2_test_tool.Constants.Codes.{Command, Status, authenticator_reset}
use ctap2_test_tool.Crypto.{Library}
use ctap2_test_tool.Hid.Device.{HidDevice}
use ctap2_test_tool.Hid.Init.{HidEnvironment, init}
use ctap2_test_tool.Hid.KeepsTests.{exchange_cbor-KeepsTests, init-KeepsTests}
use ctap2_test_tool.Tracker.{
  DeviceTracker, Response, TestResult, add_observation, answer, assert_condition, assert_response,
  check_response, check_status,
}

abbrev pub tests_of : {cbor : Cbor} → CommandState cbor → List TestResult
tests_of s = s.device.tracker.tests

-- A procedure that leaves a part of the state as it was, however it ends.
abbrev pub Keeps : {S A B : Type 0} → (S → B) → Action S A → Type 0
Keeps {S} part m = (s : S) → part (m s).1 ≡ part s

bind_step-Keeps :
    {S A B C : Type 0} (part : S → C) (r : Outcome A) (t : S) (f : A → Action S B)
    → ((a : A) → Keeps part (f a))
    → (s : S) → part (((λ (_ : S). (r, t)) >>= f) s).1 ≡ part t
bind_step-Keeps part (done a) t f h s = h a t
bind_step-Keeps part (check_failed message) t f h s = refl
bind_step-Keeps part undefined t f h s = refl

pub bind-Keeps :
    {S A B C : Type 0} (part : S → C) (m : Action S A) (f : A → Action S B)
    → Keeps part m
    → ((a : A) → Keeps part (f a))
    → Keeps part (m >>= f)
bind-Keeps part m f k h s = bind_step-Keeps part (m s).0 (m s).1 f h s ∙ k s

check-Keeps :
    {S C : Type 0} (part : S → C) (condition : Bool) (message : Bytes)
    → Keeps part (check condition message)
check-Keeps part true message s = refl
check-Keeps part false message s = refl

abbrev device_tests : HidDevice → List TestResult
device_tests d = d.tracker.tests

module _ (cbor : Cbor) (library : Library) where
  abbrev KeepsTests : {A : Type 0} → Action (CommandState cbor) A → Type 0
  KeepsTests m = Keeps (λ (s : CommandState cbor). s.device.tracker.tests) m

  abbrev DeviceKeepsTests : {A : Type 0} → Action HidDevice A → Type 0
  DeviceKeepsTests m = Keeps device_tests m

  on_device-KeepsTests :
      {A : Type 0} (m : Action HidDevice A)
      → DeviceKeepsTests m
      → KeepsTests (on_device cbor library m)
  unfolding on_device
  on_device-KeepsTests m h s = h s.device

  init_next-KeepsTests : KeepsTests (init_next cbor library)
  unfolding init_next
  init_next-KeepsTests s = by_environments s.environments refl
    where
      by_environments :
          (es : List HidEnvironment)
          → s.environments ≡ es
          → tests_of (init_next cbor library s).1 ≡ tests_of s
      by_environments [] e = rw (e, init_next) refl
      by_environments (env ∷ rest) e =
          rw (e, init_next)
            (on_device-KeepsTests (init env) (init-KeepsTests env)
              (record s { environments = rest }))

  prompt_replug_and_init-KeepsTests : KeepsTests (prompt_replug_and_init cbor library)
  unfolding prompt_replug_and_init
  prompt_replug_and_init-KeepsTests s = ground (arith, init_next-KeepsTests s)

  check_response-KeepsTests :
      (r : Response cbor.Value) (t : DeviceTracker) → (check_response r t).1.tests ≡ t.tests
  unfolding check_response check_status add_observation
  check_response-KeepsTests r t = ground arith

  assert_response-KeepsTests :
      (r : Response cbor.Value) (message : Bytes) (t : DeviceTracker)
      → (assert_response r message t).1.tests ≡ t.tests
  unfolding assert_response assert_condition
  assert_response-KeepsTests r message t =
      check-Keeps (λ (x : DeviceTracker). x.tests) (check_response r t).0 _ (check_response r t).1
      ∙ check_response-KeepsTests r t

  exchange-KeepsTests :
      (command : Command) (payload : Bytes) (expect : Bool)
      → DeviceKeepsTests (exchange command payload expect)
  unfolding exchange
  exchange-KeepsTests command payload expect d =
      exchange_cbor-KeepsTests command payload expect [] d

  on_success-KeepsTests :
      (next : Bytes → Action HidDevice (Response cbor.Value))
      → ((bytes : Bytes) → DeviceKeepsTests (next bytes))
      → (result : Status × Bytes) → DeviceKeepsTests (on_success next result)
  unfolding on_success
  on_success-KeepsTests next h (s, bytes) d = ground (arith, h bytes d)

  reset_positive_test-KeepsTests : DeviceKeepsTests (reset_positive_test cbor library)
  unfolding reset_positive_test
  reset_positive_test-KeepsTests =
      let next : Bytes → Action HidDevice (Response cbor.Value) = λ resp_cbor.
        check (is_empty resp_cbor) (codes "CBOR response not empty") >>= λ _.
        pure (answer cbor.none_value) in
      bind-Keeps device_tests (exchange authenticator_reset [] true) (on_success next)
        (exchange-KeepsTests authenticator_reset [] true)
        (on_success-KeepsTests next (λ resp_cbor.
          bind-Keeps device_tests (check (is_empty resp_cbor) (codes "CBOR response not empty"))
            (λ _. pure (answer cbor.none_value)) (check-Keeps device_tests (is_empty resp_cbor) _)
            (λ _ s. refl)))

  device_check_response-KeepsTests :
      (r : Response cbor.Value) → KeepsTests (device_check_response cbor library r)
  unfolding device_check_response on_device on_tracker
  device_check_response-KeepsTests r s = check_response-KeepsTests r s.device.tracker

  require_response-KeepsTests :
      (r : Response cbor.Value) (message : Bytes)
      → KeepsTests (require_response cbor library r message)
  unfolding require_response on_device on_tracker
  require_response-KeepsTests r message s = assert_response-KeepsTests r message s.device.tracker

  again-KeepsTests :
      (n : ℕ) (next : Response cbor.Value)
      → KeepsTests (reset_rounds cbor library n next)
      → (ok : Bool)
      → KeepsTests (elim ok [ true ↦ pure next | false ↦ reset_rounds cbor library n next ])
  again-KeepsTests n next h true s = refl
  again-KeepsTests n next h false s = h s

  reset_rounds-KeepsTests :
      (n : ℕ) (r : Response cbor.Value) → KeepsTests (reset_rounds cbor library n r)
  unfolding reset_rounds
  reset_rounds-KeepsTests zero r = λ s. refl
  reset_rounds-KeepsTests (suc n) r =
      let first = on_device cbor library (reset_positive_test cbor library) in
      let again : Response cbor.Value → Bool → Action (CommandState cbor) (Response cbor.Value) =
        λ next ok. elim ok [ true ↦ pure next | false ↦ reset_rounds cbor library n next ] in
      bind-Keeps tests_of first (λ next. device_check_response cbor library next >>= again next)
        (on_device-KeepsTests (reset_positive_test cbor library) reset_positive_test-KeepsTests)
        (λ next.
          bind-Keeps tests_of (device_check_response cbor library next) (again next)
            (device_check_response-KeepsTests next)
            (again-KeepsTests n next (reset_rounds-KeepsTests n next)))

  pub reset-KeepsTests : KeepsTests (reset cbor library)
  unfolding reset
  reset-KeepsTests =
      let clear : Action (CommandState cbor) (Unit {0}) = modify (λ (s : CommandState cbor).
        record s {
          platform_cose_key = cbor.empty_map;
          shared_secret = [];
          pin_utf8 = [];
          auth_token = [];
        }) in
      let require : Response cbor.Value → Action (CommandState cbor) (Unit {0}) =
        λ response. require_response cbor library response (codes "Reset") in
      let rounds = reset_rounds cbor library reset_retries (answer cbor.none_value) in
      bind-Keeps tests_of (prompt_replug_and_init cbor library)
        (λ _. rounds >>= λ response. require response >>= λ _. clear)
        prompt_replug_and_init-KeepsTests
        (λ _.
          bind-Keeps tests_of rounds (λ response. require response >>= λ _. clear)
            (reset_rounds-KeepsTests reset_retries (answer cbor.none_value))
            (λ response.
              bind-Keeps tests_of (require response) (λ _. clear)
                (require_response-KeepsTests response (codes "Reset")) (λ _ s. refl)))
