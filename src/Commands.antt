-- ===== src/Commands.antt =====
-- src/fido2_commands.h and src/fido2_commands.cc: the CTAP2 commands and the checks of their
-- responses. The source passes the device and its tracker as two pointers, but the device holds
-- the same tracker; here it is the `tracker` of the `HidDevice`. A `CHECK` that a map has a key,
-- followed by the use of the entry, is one `check_some`. A message of a failed `CHECK` is kept up
-- to the first number that the source streams into it.
pub mod Requests
pub mod KeyCheck
pub mod MakeCredential
pub mod GetAssertion
pub mod Members
pub mod GetInfo
pub mod ClientPin
pub mod Negative
pub mod Facts
pub mod Versions
use ctap2_test_tool.Base.{
  Action, Bool, Bytes, List, Option, [], bit_and, check, check_some, codes, done, false,
  if◌then◌else◌, is_empty, is_some, modify, none, not, pos, pure, some, true, ℕ, ◌==◌, ◌>>=◌, ◌>>◌,
  ◌∷◌,
}
use ctap2_test_tool.Cbor.{Cbor}
use ctap2_test_tool.Constants.Codes.{Command, Status, err_none, status_eq}
use ctap2_test_tool.Hid.Device.{HidDevice}
use ctap2_test_tool.Hid.Exchange.{exchange_cbor}
use ctap2_test_tool.ParameterCheck.{CounterChecker, KeyChecker}
use ctap2_test_tool.Tracker.{DeviceTracker, Response, add_observation, failure}

-- A step on the tracker that the device holds.
unfoldable pub on_tracker : {A : Type 0} → Action DeviceTracker A → Action HidDevice A
on_tracker step d = let (r, t) = step d.tracker in (r, record d { tracker = t })

unfoldable pub on_key_checker : {A : Type 0} → Action KeyChecker A → Action HidDevice A
unfolding on_tracker
on_key_checker step =
    on_tracker (λ t. let (r, c) = step t.key_checker in (r, record t { key_checker = c }))

unfoldable pub on_counter_checker : {A : Type 0} → Action CounterChecker A → Action HidDevice A
unfolding on_tracker
on_counter_checker step =
    on_tracker (λ t. let (r, c) = step t.counter_checker in (r, record t { counter_checker = c }))

unfoldable pub observe : Bytes → Action HidDevice (Unit {0})
unfolding on_tracker
observe message = on_tracker (modify (add_observation message))

-- `device->ExchangeCbor`, which fills an empty response.
unfoldable pub exchange : Command → Bytes → Bool → Action HidDevice (Status × Bytes)
exchange command payload expect_up_check d =
    let (s, response, d') = exchange_cbor command payload expect_up_check [] d in
    (done (s, response), d')

-- `flags & mask` as a condition.
unfoldable pub has_flag : ℕ → ℕ → Bool
has_flag flags mask = not (bit_and flags mask == 0)

-- An entry that may be missing passes; one that is there has the view.
unfoldable pub check_optional :
    {S V A : Type 0} → Option V → (V → Option A) → Bytes → Action S (Unit {0})
check_optional none view message = pure tt
check_optional (some v) view message = check (is_some (view v)) message

-- What follows an exchange: another status than success is the result, else the response is read.
unfoldable pub on_success :
    {V : Type 0}
    → (Bytes → Action HidDevice (Response V))
    → Status × Bytes
    → Action HidDevice (Response V)
on_success read_response (s, response) = elim (status_eq s err_none) [
  | false ↦ pure (failure s)
  | true ↦ read_response response
]

module _ (cbor : Cbor) where
  open cbor use {Value, MapValue, of_int, of_string, as_map, as_unsigned, find, entries}

  unfoldable pub find_key : ℕ → MapValue → Option Value
  find_key key m = find m (of_int (pos key))

  unfoldable pub find_name : Bytes → MapValue → Option Value
  find_name name m = find m (of_string name)

  unfoldable pub decode_map : Bytes → Action HidDevice (Value × MapValue)
  decode_map response_cbor = do
    decoded_response ← check_some (cbor.read response_cbor) (codes "CBOR decoding failed")
    decoded_map ← check_some (as_map decoded_response) (codes "CBOR response is not a map")
    pure (decoded_response, decoded_map)

  unfoldable pub encode_request : Value → Action HidDevice Bytes
  encode_request request =
      check_some (cbor.write request) (codes "encoding went wrong - TEST SUITE BUG")

  unfoldable pub check_extensions : Bytes → Action HidDevice (Unit {0})
  check_extensions extension_data = elim (is_empty extension_data) [
    | true ↦ pure tt
    | false ↦ (do
      extensions ←
          check_some (cbor.read extension_data) (codes "CBOR decoding of extensions failed")
      check (is_some (as_map extensions)) (codes "extensions response is not a map"))
  ]

  -- The last loop of each command: an observation for every key of the response that is not known.
  unfoldable pub observe_keys :
      (ℕ → Bool) → (ℕ → Bytes) → Bytes → List (Value × Value) → Action HidDevice (Unit {0})
  unfolding observe
  observe_keys contains unspecified not_unsigned [] = pure tt
  observe_keys contains unspecified not_unsigned ((key, value) ∷ rest) = do
    elim (as_unsigned key) [
      | none ↦ observe not_unsigned
      | some map_key ↦ (if contains map_key then pure tt else observe (unspecified map_key))
    ]
    observe_keys contains unspecified not_unsigned rest
