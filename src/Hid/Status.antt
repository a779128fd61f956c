-- ===== src/Hid/Status.antt =====
-- `ByteToStatus` and `IsKnownStatusByte`.
use ctap2_test_tool.Base.{
  Bool, Bytes, List, Option-cases, [], ap, codes, find_by, hex2, if◌then◌else◌, inl, inr, is_some,
  leb, none, refl, some, ℕ, ◌&&◌, ◌++◌, ◌==◌, ◌||◌, ◌∷◌, ◌≡◌, ◌≢◌, ◌⊎◌,
}
use ctap2_test_tool.Constants.Codes.{
  Status, err_action_timeout, err_cbor_unexpected_type, err_channel_busy, err_credential_excluded,
  err_invalid_cbor, err_invalid_channel, err_invalid_command, err_invalid_credential,
  err_invalid_length, err_invalid_option, err_invalid_parameter, err_invalid_seq,
  err_keepalive_cancel, err_key_store_full, err_limit_exceeded, err_lock_required,
  err_missing_parameter, err_no_credentials, err_no_operation_pending, err_no_operations, err_none,
  err_not_allowed, err_operation_denied, err_operation_pending, err_other, err_pin_auth_blocked,
  err_pin_auth_invalid, err_pin_blocked, err_pin_invalid, err_pin_not_set, err_pin_policy_violation,
  err_pin_required, err_pin_token_expired, err_processing, err_request_too_large, err_timeout,
  err_unsupported_algorithm, err_unsupported_extension, err_unsupported_option, err_up_required,
  err_user_action_pending, err_user_action_timeout, err_uv_blocked, find_by-status_byte,
  status_byte, status_byte-find_by, statuses,
}
use ctap2_test_tool.Hid.Device.{HidDevice}
use ctap2_test_tool.Tracker.{add_observation}

-- The labels of the switch in `IsKnownStatusByte`.
abbrev pub known_statuses : List Status
known_statuses =
    err_none ∷ err_invalid_command ∷ err_invalid_parameter ∷ err_invalid_length ∷ err_invalid_seq
    ∷ err_timeout ∷ err_channel_busy ∷ err_lock_required ∷ err_invalid_channel
    ∷ err_cbor_unexpected_type ∷ err_invalid_cbor ∷ err_missing_parameter ∷ err_limit_exceeded
    ∷ err_unsupported_extension ∷ err_credential_excluded ∷ err_processing ∷ err_invalid_credential
    ∷ err_user_action_pending ∷ err_operation_pending ∷ err_no_operations
    ∷ err_unsupported_algorithm ∷ err_operation_denied ∷ err_key_store_full
    ∷ err_no_operation_pending ∷ err_unsupported_option ∷ err_invalid_option ∷ err_keepalive_cancel
    ∷ err_no_credentials ∷ err_user_action_timeout ∷ err_not_allowed ∷ err_pin_invalid
    ∷ err_pin_blocked ∷ err_pin_auth_invalid ∷ err_pin_auth_blocked ∷ err_pin_not_set
    ∷ err_pin_required ∷ err_pin_policy_violation ∷ err_pin_token_expired ∷ err_request_too_large
    ∷ err_action_timeout ∷ err_up_required ∷ err_uv_blocked ∷ err_other ∷ []

unfoldable pub is_known_status_byte : ℕ → Bool
is_known_status_byte b = is_some (find_by status_byte b known_statuses)

-- The cast `Status(b)`: the enumerator with the value `b`. The source casts known bytes only, so
-- the result for a byte that no enumerator has is not used.
unfoldable pub status_cast : ℕ → Status
status_cast b = elim (find_by status_byte b statuses) [ some s ↦ s | none ↦ err_other ]

unfoldable pub error_code_type : ℕ → Bytes
error_code_type b =
    if (b == 0x10) || (b == 0x13)
    then codes "deprecated"
    else if leb 0xE0 b && leb b 0xEF
    then codes "extension specific"
    else if leb 0xF0 b && leb b 0xF8
    then codes "vendor specific"
    else codes "unknown"

unfoldable pub unknown_status_observation : ℕ → Bytes
unfolding error_code_type hex2
unknown_status_observation b =
    codes "Received " ++ (error_code_type b ++ (codes " error code `0x" ++ (hex2 b ++ codes "`")))

unfoldable pub byte_to_status : ℕ → HidDevice → Status × HidDevice
byte_to_status b d = if is_known_status_byte b then (status_cast b, d) else (
  err_other,
  record d { tracker = add_observation (unknown_status_observation b) d.tracker },
)

is_known_status_byte_lem :
    (b : ℕ) → is_known_status_byte b ≡ is_some (find_by status_byte b statuses)
unfolding is_known_status_byte
is_known_status_byte_lem b = refl

status_cast-known :
    (b : ℕ) (s : Status) → find_by status_byte b statuses ≡ some s → status_cast b ≡ s
unfolding status_cast
status_cast-known b s e = rw (e, status_cast)

-- A byte that is the value of a status is translated to that status and nothing is reported; any
-- other byte is translated to kErrOther, and the observation on it is added.
pub byte_to_status_cases :
    (b : ℕ) (d : HidDevice)
    → ((s : Status) × (status_byte s ≡ b) × (byte_to_status b d ≡ (s, d)))
      ⊎ (((s : Status) → status_byte s ≢ b)
          × (byte_to_status b d ≡ (
            err_other,
            record d { tracker = add_observation (unknown_status_observation b) d.tracker },
          )))
unfolding byte_to_status
byte_to_status_cases b d = elim (Option-cases (find_by status_byte b statuses)) [
  | inl e ↦ inr (
    λ s h. cc (e, ap (λ x. find_by status_byte x statuses) h, find_by-status_byte s),
    rw (is_known_status_byte_lem b, e) refl,
  )
  | inr (s, e) ↦
      inl (
        s,
        status_byte-find_by b e,
        rw (is_known_status_byte_lem b, e, status_cast-known b s e) refl,
      )
]
