-- ===== src/CommandState.antt =====
-- src/command_state.h and src/command_state.cc: the state of the PIN protocol, over the commands
-- and the request builders. The device and the tracker are the ones of `HidDevice`.
pub mod Pin
pub mod Token
pub mod Setup
pub mod Facts
pub mod KeepsTests
pub mod Success
use ctap2_test_tool.Base.{
  Action, Bytes, List, check_some, codes, deref, false, gets, if◌then◌else◌, is_empty, modify, pure,
  true, ℕ, ◌+◌, ◌>>=◌, ◌>>◌, ◌||◌,
}
use ctap2_test_tool.Cbor.{Cbor}
use ctap2_test_tool.CborBuilders.{get_cbor}
use ctap2_test_tool.CborBuilders.ClientPin.{add_defaults_for_get_key_agreement}
use ctap2_test_tool.Commands.{observe}
use ctap2_test_tool.Commands.ClientPin.{authenticator_client_pin_positive_test, response_entry}
use ctap2_test_tool.Constants.Codes.{Status, err_none, status_eq}
use ctap2_test_tool.Constants.Keys.{ClientPinResponse}
use ctap2_test_tool.Crypto.{Library, aes256_cbc, complete_ecdh_handshake, left_sha256_hash}
use ctap2_test_tool.Hid.Device.{HidDevice}
use ctap2_test_tool.Hid.Init.{HidEnvironment}
use ctap2_test_tool.Tracker.{answer, failure}

pub record CommandState (cbor : Cbor) : Type 0 where
  pub device : HidDevice
  -- What each coming `Init` finds.
  pub environments : List HidEnvironment
  pub platform_cose_key : cbor.MapValue
  pub shared_secret : Bytes
  pub pin_utf8 : Bytes
  pub auth_token : Bytes
  -- How many key pairs were generated.
  pub keys_generated : ℕ

-- `OK_OR_RETURN(first)`, and what follows it.
unfoldable pub ok_or_return : {S : Type 0} → Action S Status → Action S Status → Action S Status
ok_or_return first next =
    first >>= λ s. elim (status_eq s err_none) [ false ↦ pure s | true ↦ next ]

abbrev pub pin_byte_length : ℕ
pin_byte_length = 64

module _ (cbor : Cbor) (library : Library) where
  open cbor use {Value, MapValue, as_map, empty_map, entries}

  unfoldable pub on_device : {A : Type 0} → Action HidDevice A → Action (CommandState cbor) A
  on_device step s = let (r, d) = step s.device in (r, record s { device = d })

  unfoldable pub note : Bytes → Action (CommandState cbor) (Unit {0})
  unfolding on_device observe
  note message = on_device (observe message)

  unfoldable pub compute_shared_secret : Action (CommandState cbor) Status
  unfolding on_device note authenticator_client_pin_positive_test get_cbor
      add_defaults_for_get_key_agreement response_entry complete_ecdh_handshake
  compute_shared_secret = do
    key_response ← on_device (
        authenticator_client_pin_positive_test cbor
          (get_cbor cbor (add_defaults_for_get_key_agreement cbor empty_map)))
    elim key_response [
      | failure status ↦ note (codes "GetKeyAgreement failed") >> pure status
      | answer value ↦ (do
        key_agreement_map ← check_some (as_map value) (codes "Check failed: is_map()")
        entry ← deref (response_entry cbor ClientPinResponse.key_agreement key_agreement_map)
        public_key ← check_some (as_map entry) (codes "Check failed: is_map()")
        key_out ← gets (λ (s : CommandState cbor). s.platform_cose_key)
        number ← gets (λ (s : CommandState cbor). s.keys_generated)
        (secret, platform_key) ← complete_ecdh_handshake cbor library number public_key key_out
        modify (λ (s : CommandState cbor). record s {
          shared_secret = secret;
          platform_cose_key = platform_key;
          keys_generated = s.keys_generated + 1;
        })
        pure err_none)
    ]

  -- Key agreement, where it is not done yet.
  unfoldable pub ensure_shared_secret : Action (CommandState cbor) Status
  unfolding compute_shared_secret
  ensure_shared_secret s =
      if is_empty (entries s.platform_cose_key) || is_empty s.shared_secret
      then compute_shared_secret s
      else pure err_none s

  -- A failed command, after which the key agreement is done again.
  unfoldable pub fail_again : Status → Action (CommandState cbor) Status
  unfolding ok_or_return compute_shared_secret
  fail_again status = ok_or_return compute_shared_secret (pure status)

  unfoldable pub encrypt : Bytes → Action (CommandState cbor) Bytes
  unfolding aes256_cbc
  encrypt message s = aes256_cbc library s.shared_secret message true s

  unfoldable pub pin_hash_encrypted : Bytes → Action (CommandState cbor) Bytes
  unfolding encrypt left_sha256_hash
  pin_hash_encrypted pin = encrypt (left_sha256_hash library pin)
