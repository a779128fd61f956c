-- ===== src/Tests/PinRetries.antt =====
-- src/tests/client_pin.cc: which PINs are accepted, and the PIN retries.
use ctap2_test_tool.Base.{
  Bool, Bytes, [], codes, false, int_eq, ltb, negsuc, not, pos, replicate, suc, true, zero, ℕ, ℤ,
  ◌%◌, ◌++◌, ◌+◌, ◌-◌, ◌==◌, ◌∷◌,
}
use ctap2_test_tool.Cbor.{Cbor}
use ctap2_test_tool.CborBuilders.MakeCredential.{add_defaults_for_required_fields}
use ctap2_test_tool.CommandState.Pin.{
  attempt_change_pin, attempt_set_pin, change_pin_to, default_pin, set_pin,
}
use ctap2_test_tool.CommandState.Setup.{prompt_replug_and_init}
use ctap2_test_tool.CommandState.Token.{attempt_get_auth_token, get_auth_token}
use ctap2_test_tool.Constants.Codes.{
  Status, err_pin_auth_blocked, err_pin_blocked, err_pin_invalid, err_pin_policy_violation,
}
use ctap2_test_tool.Crypto.{Library}
use ctap2_test_tool.Rsp.Packet.{decimal_int}
use ctap2_test_tool.Tests.Helpers.{bad_pin, get_pin_retries_of_device}
use ctap2_test_tool.Tests.Requests.{credential_accepted, observe_in_test, reset_in_test}
use ctap2_test_tool.Tests.Steps.{
  Test, ensure, ensure_status, ensure_success, proceed, state_step, ◌>>=◌, ◌>>◌,
}

abbrev pub wrong_pins_before_power_cycle : ℕ
wrong_pins_before_power_cycle = 3

-- The PINs of the tests, padded with zeros.
abbrev pub too_short_padded_pin : Bytes
too_short_padded_pin = (0x31 ∷ 0x32 ∷ 0x33 ∷ []) ++ replicate 61 0

abbrev pub too_long_padded_pin : Bytes
too_long_padded_pin = replicate 64 0x30

abbrev pub maximum_pin_utf8 : Bytes
maximum_pin_utf8 = replicate 63 0x30

abbrev pub too_short_padding : Bytes
too_short_padding = default_pin ++ replicate 28 0

abbrev pub too_long_padding : Bytes
too_long_padding = default_pin ++ replicate 124 0

-- `number > bound` for an `int`, and the number where it is not negative.
abbrev is_above : ℤ → ℕ → Bool
is_above (pos n) bound = ltb bound n
is_above (negsuc n) bound = false

abbrev non_negative : ℤ → ℕ
non_negative (pos n) = n
non_negative (negsuc n) = 0

module _ (cbor : Cbor) (library : Library) where
  open cbor use {Value, MapValue, empty_map}

  unfoldable pub check_pin_absence_by_make_credential : Test cbor (Unit {0})
  unfolding credential_accepted add_defaults_for_required_fields
  check_pin_absence_by_make_credential = do
    credential_accepted cbor library
        (add_defaults_for_required_fields cbor (codes "pin_absence.example.com") empty_map)
        (codes "MakeCredential failed, potentially because an undesired PIN exists.")
    proceed tt

  unfoldable pub check_pin_by_get_auth_token : Test cbor (Unit {0})
  unfolding state_step get_auth_token ensure_success
  check_pin_by_get_auth_token = do
    status ← state_step cbor library (get_auth_token cbor library false)
    ensure_success cbor library status
        (codes "GetAuthToken failed, potentially because the assumed PIN does not exist.")

  -- A PIN that must be refused when it is set, or when it replaces the PIN.
  unfoldable pub set_pin_refused : Bytes → Bytes → Test cbor (Unit {0})
  unfolding state_step attempt_set_pin ensure_status
  set_pin_refused new_padded_pin message = do
    returned_status ← state_step cbor library (attempt_set_pin cbor library new_padded_pin)
    ensure_status cbor library err_pin_policy_violation returned_status message

  unfoldable pub change_pin_refused : Bytes → Bytes → Test cbor (Unit {0})
  unfolding state_step attempt_change_pin ensure_status
  change_pin_refused new_padded_pin message = do
    returned_status ← state_step cbor library (attempt_change_pin cbor library new_padded_pin)
    ensure_status cbor library err_pin_policy_violation returned_status message

  unfoldable pub requirements_set_pin : Bytes → Test cbor (Unit {0})
  unfolding set_pin_refused check_pin_absence_by_make_credential state_step set_pin ensure_success
      check_pin_by_get_auth_token
  requirements_set_pin rp_id = do
    set_pin_refused too_short_padded_pin (codes "Accepted a PIN with length < 4.")
    check_pin_absence_by_make_credential
    set_pin_refused too_long_padded_pin (codes "Accepted a PIN with length > 63.")
    check_pin_absence_by_make_credential
    status ← state_step cbor library (set_pin cbor library maximum_pin_utf8)
    ensure_success cbor library status (codes "Falsely rejected PIN with length 63.")
    check_pin_by_get_auth_token

  unfoldable pub requirements_change_pin : Bytes → Test cbor (Unit {0})
  unfolding change_pin_refused check_pin_by_get_auth_token state_step change_pin_to ensure_success
  requirements_change_pin rp_id = do
    change_pin_refused too_short_padded_pin (codes "Accepted a PIN with length < 4.")
    check_pin_by_get_auth_token
    change_pin_refused too_long_padded_pin (codes "Accepted a PIN with length > 63.")
    check_pin_by_get_auth_token
    status ← state_step cbor library (change_pin_to cbor library maximum_pin_utf8)
    ensure_success cbor library status (codes "Falsely rejected PIN with length 63.")
    check_pin_by_get_auth_token

  unfoldable pub new_requirements_set_pin : Bytes → Test cbor (Unit {0})
  unfolding set_pin_refused check_pin_absence_by_make_credential
  new_requirements_set_pin rp_id = do
    set_pin_refused too_short_padding (codes "Accepted a PIN with padding of length 32.")
    check_pin_absence_by_make_credential
    set_pin_refused too_long_padding (codes "Accepted a PIN with padding of length 128.")
    check_pin_absence_by_make_credential

  unfoldable pub new_requirements_change_pin : Bytes → Test cbor (Unit {0})
  unfolding change_pin_refused check_pin_by_get_auth_token
  new_requirements_change_pin rp_id = do
    change_pin_refused too_short_padding (codes "Accepted a PIN with padding of length 32.")
    check_pin_by_get_auth_token
    change_pin_refused too_long_padding (codes "Accepted a PIN with padding of length 128.")
    check_pin_by_get_auth_token

  -- `AttemptGetAuthToken`, which must return a status.
  unfoldable pub token_refused : Bytes → Bool → Status → Bytes → Test cbor (Unit {0})
  unfolding state_step attempt_get_auth_token ensure_status
  token_refused pin redo_key_agreement expected message = do
    returned_status ←
        state_step cbor library (attempt_get_auth_token cbor library pin redo_key_agreement)
    ensure_status cbor library expected returned_status message

  unfoldable pub token_granted : Bytes → Test cbor (Unit {0})
  unfolding state_step get_auth_token ensure_success
  token_granted message = do
    status ← state_step cbor library (get_auth_token cbor library true)
    ensure_success cbor library status message

  unfoldable pub retries_are : ℤ → Bytes → Test cbor (Unit {0})
  unfolding get_pin_retries_of_device
  retries_are expected message = do
    new_counter ← get_pin_retries_of_device cbor library
    ensure (int_eq new_counter expected) message

  unfoldable pub old_key_material : Bytes → Test cbor (Unit {0})
  unfolding token_refused
  old_key_material rp_id = do
    token_refused bad_pin false err_pin_invalid (codes "A wrong PIN was not rejected.")
    token_refused default_pin true err_pin_invalid
        (codes "The correct PIN with an old shared secret was not rejected.")

  unfoldable pub general_pin_retries : Bytes → Test cbor (Unit {0})
  unfolding token_granted get_pin_retries_of_device retries_are token_refused
  general_pin_retries rp_id = do
    token_granted (codes "Getting the auth token failed unexpectedly.")
    max_retries ← get_pin_retries_of_device cbor library
    ensure (not (is_above max_retries 8)) (codes "Maximum PIN retries exceed the upper limit of 8.")
    ensure (is_above max_retries 0) (codes "Maximum PIN retries is not a positive number.")
    retries_are max_retries (codes "PIN retries changed between subsequent calls.")
    token_refused bad_pin true err_pin_invalid (codes "A wrong PIN was not rejected.")
    retries_are (pos (non_negative max_retries - 1))
        (codes "PIN retries did not decrement after a failed attempt.")
    token_granted (codes "Getting the auth token failed unexpectedly.")
    retries_are max_retries (codes "PIN retries did not reset after entering the correct PIN.")

  -- The attempts with a wrong PIN before the one that is blocked.
  unfoldable pub wrong_attempts : ℕ → Test cbor (Unit {0})
  unfolding token_refused
  wrong_attempts zero = proceed tt
  wrong_attempts (suc n) =
      token_refused bad_pin true err_pin_invalid (codes "A wrong PIN was not rejected.")
      >> wrong_attempts n

  unfoldable pub auth_blocked : ℤ → Test cbor (Unit {0})
  unfolding wrong_attempts token_refused retries_are state_step prompt_replug_and_init token_granted
  auth_blocked max_retries = do
    wrong_attempts (wrong_pins_before_power_cycle - 1)
    token_refused bad_pin true err_pin_auth_blocked (codes "A wrong PIN was not blocked.")
    retries_are (pos (non_negative max_retries - wrong_pins_before_power_cycle))
        (codes "PIN retries did not decrement before auth was block.")
    token_refused default_pin true err_pin_auth_blocked
        (codes "The correct PIN is not blocked when auth is blocked.")
    retries_are (pos (non_negative max_retries - wrong_pins_before_power_cycle))
        (codes "PIN retries decremented on a blocked attempt.")
    state_step cbor library (prompt_replug_and_init cbor library)
    token_granted (codes "Getting the auth token failed after replugging an auth block.")
    retries_are max_retries (codes "PIN retries did not reset after entering the correct PIN.")

  unfoldable pub auth_block_pin_retries : Bytes → Test cbor (Unit {0})
  unfolding token_granted get_pin_retries_of_device observe_in_test auth_blocked decimal_int
  auth_block_pin_retries rp_id = do
    token_granted (codes "Getting the auth token failed unexpectedly.")
    max_retries ← get_pin_retries_of_device cbor library
    elim (is_above max_retries wrong_pins_before_power_cycle) [
      | true ↦ auth_blocked max_retries
      | false ↦ observe_in_test cbor library (
          codes "PIN auth block replugging untested, since only "
          ++ decimal_int max_retries
          ++ codes " are allowed.")
    ]

  -- One attempt with a wrong PIN, and a replug where the authentication is blocked.
  unfoldable pub blocking_attempt : ℕ → Test cbor (Unit {0})
  unfolding token_refused state_step prompt_replug_and_init
  blocking_attempt attempts = elim (attempts % wrong_pins_before_power_cycle == 0) [
    | false ↦ token_refused bad_pin true err_pin_invalid (codes "A wrong PIN was not rejected.")
    | true ↦
        token_refused bad_pin true err_pin_auth_blocked (codes "A wrong PIN was not blocked.")
        >> state_step cbor library (prompt_replug_and_init cbor library)
  ]

  -- The loop over the attempts, with how many are left.
  unfoldable pub blocking_attempts : ℕ → ℕ → ℕ → Test cbor (Unit {0})
  unfolding blocking_attempt retries_are
  blocking_attempts zero attempts max_retries = proceed tt
  blocking_attempts (suc n) attempts max_retries = do
    blocking_attempt attempts
    retries_are (pos (max_retries - attempts)) (codes "PIN retries did not decrement correctly.")
    blocking_attempts n (attempts + 1) max_retries

  unfoldable pub block_pin_retries : Bytes → Test cbor (Unit {0})
  unfolding token_granted get_pin_retries_of_device blocking_attempts token_refused retries_are
      reset_in_test
  block_pin_retries rp_id = do
    token_granted (codes "Getting the auth token failed unexpectedly.")
    max_retries ← get_pin_retries_of_device cbor library
    blocking_attempts (non_negative max_retries - 1) 1 (non_negative max_retries)
    token_refused bad_pin true err_pin_blocked
        (codes "The PIN is not blocked after the counter reached 0.")
    retries_are (pos 0) (codes "PIN retries did not decrement to 0.")
    token_refused default_pin true err_pin_blocked
        (codes "The correct PIN is not blocked after using up all retries.")
    reset_in_test cbor library
