-- ===== src/Constants/Codes.antt =====
-- The enums `Status` and `Command` of src/constants.h with their byte values, and their names in
-- src/constants.cc. The `default` branches of the two switches are dead code and have no clause.
use ctap2_test_tool.Base.{
  Bool, Bytes, List, [], ap, arith, codes, find_by, find_by_sound, refl, some, true, ℕ, ◌==◌, ◌↔◌,
  ◌∷◌, ◌≡◌,
}

pub data Status : Type 0 where
  err_none err_invalid_command err_invalid_parameter err_invalid_length err_invalid_seq err_timeout
        err_channel_busy err_lock_required err_invalid_channel err_cbor_unexpected_type
        err_invalid_cbor err_missing_parameter err_limit_exceeded err_unsupported_extension
        err_credential_excluded err_processing err_invalid_credential err_user_action_pending
        err_operation_pending err_no_operations err_unsupported_algorithm err_operation_denied
        err_key_store_full err_no_operation_pending err_unsupported_option err_invalid_option
        err_keepalive_cancel err_no_credentials err_user_action_timeout err_not_allowed
        err_pin_invalid err_pin_blocked err_pin_auth_invalid err_pin_auth_blocked err_pin_not_set
        err_pin_required err_pin_policy_violation err_pin_token_expired err_request_too_large
        err_action_timeout err_up_required err_uv_blocked err_other :
      Status

unfoldable pub status_byte : Status → ℕ
status_byte err_none = 0x00
status_byte err_invalid_command = 0x01
status_byte err_invalid_parameter = 0x02
status_byte err_invalid_length = 0x03
status_byte err_invalid_seq = 0x04
status_byte err_timeout = 0x05
status_byte err_channel_busy = 0x06
status_byte err_lock_required = 0x0A
status_byte err_invalid_channel = 0x0B
status_byte err_cbor_unexpected_type = 0x11
status_byte err_invalid_cbor = 0x12
status_byte err_missing_parameter = 0x14
status_byte err_limit_exceeded = 0x15
status_byte err_unsupported_extension = 0x16
status_byte err_credential_excluded = 0x19
status_byte err_processing = 0x21
status_byte err_invalid_credential = 0x22
status_byte err_user_action_pending = 0x23
status_byte err_operation_pending = 0x24
status_byte err_no_operations = 0x25
status_byte err_unsupported_algorithm = 0x26
status_byte err_operation_denied = 0x27
status_byte err_key_store_full = 0x28
status_byte err_no_operation_pending = 0x2A
status_byte err_unsupported_option = 0x2B
status_byte err_invalid_option = 0x2C
status_byte err_keepalive_cancel = 0x2D
status_byte err_no_credentials = 0x2E
status_byte err_user_action_timeout = 0x2F
status_byte err_not_allowed = 0x30
status_byte err_pin_invalid = 0x31
status_byte err_pin_blocked = 0x32
status_byte err_pin_auth_invalid = 0x33
status_byte err_pin_auth_blocked = 0x34
status_byte err_pin_not_set = 0x35
status_byte err_pin_required = 0x36
status_byte err_pin_policy_violation = 0x37
status_byte err_pin_token_expired = 0x38
status_byte err_request_too_large = 0x39
status_byte err_action_timeout = 0x3A
status_byte err_up_required = 0x3B
status_byte err_uv_blocked = 0x3C
status_byte err_other = 0x7F

-- `operator==` of the enum.
unfoldable pub status_eq : Status → Status → Bool
unfolding status_byte
status_eq s t = status_byte s == status_byte t

abbrev pub statuses : List Status
statuses =
    err_none ∷ err_invalid_command ∷ err_invalid_parameter ∷ err_invalid_length ∷ err_invalid_seq
    ∷ err_timeout ∷ err_channel_busy ∷ err_lock_required ∷ err_invalid_channel
    ∷ err_cbor_unexpected_type ∷ err_invalid_cbor ∷ err_missing_parameter ∷ err_limit_exceeded
    ∷ err_unsupported_extension ∷ err_credential_excluded ∷ err_processing ∷ err_invalid_credential
    ∷ err_user_action_pending ∷ err_operation_pending ∷ err_no_operations
    ∷ err_unsupported_algorithm ∷ err_operation_denied ∷ err_key_store_full
    ∷ err_no_operation_pending ∷ err_unsupported_option ∷ err_invalid_option ∷ err_keepalive_cancel
    ∷ err_no_credentials ∷ err_user_action_timeout ∷ err_not_allowed ∷ err_pin_invalid
    ∷ err_pin_blocked ∷ err_pin_auth_invalid ∷ err_pin_auth_blocked ∷ err_pin_not_set
    ∷ err_pin_required ∷ err_pin_policy_violation ∷ err_pin_token_expired ∷ err_request_too_large
    ∷ err_action_timeout ∷ err_up_required ∷ err_uv_blocked ∷ err_other ∷ []

unfoldable pub status_to_string : Status → Bytes
status_to_string err_none = codes "CTAP2_OK"
status_to_string err_invalid_command = codes "CTAP1_ERR_INVALID_COMMAND"
status_to_string err_invalid_parameter = codes "CTAP1_ERR_INVALID_PARAMETER"
status_to_string err_invalid_length = codes "CTAP1_ERR_INVALID_LENGTH"
status_to_string err_invalid_seq = codes "CTAP1_ERR_INVALID_SEQ"
status_to_string err_timeout = codes "CTAP1_ERR_TIMEOUT"
status_to_string err_channel_busy = codes "CTAP1_ERR_CHANNEL_BUSY"
status_to_string err_lock_required = codes "CTAP1_ERR_LOCK_REQUIRED"
status_to_string err_invalid_channel = codes "CTAP1_ERR_INVALID_CHANNEL"
status_to_string err_cbor_unexpected_type = codes "CTAP2_ERR_CBOR_UNEXPECTED_TYPE"
status_to_string err_invalid_cbor = codes "CTAP2_ERR_INVALID_CBOR"
status_to_string err_missing_parameter = codes "CTAP2_ERR_MISSING_PARAMETER"
status_to_string err_limit_exceeded = codes "CTAP2_ERR_LIMIT_EXCEEDED"
status_to_string err_unsupported_extension = codes "CTAP2_ERR_UNSUPPORTED_EXTENSION"
status_to_string err_credential_excluded = codes "CTAP2_ERR_CREDENTIAL_EXCLUDED"
status_to_string err_processing = codes "CTAP2_ERR_PROCESSING"
status_to_string err_invalid_credential = codes "CTAP2_ERR_INVALID_CREDENTIAL"
status_to_string err_user_action_pending = codes "CTAP2_ERR_USER_ACTION_PENDING"
status_to_string err_operation_pending = codes "CTAP2_ERR_OPERATION_PENDING"
status_to_string err_no_operations = codes "CTAP2_ERR_NO_OPERATIONS"
status_to_string err_unsupported_algorithm = codes "CTAP2_ERR_UNSUPPORTED_ALGORITHM"
status_to_string err_operation_denied = codes "CTAP2_ERR_OPERATION_DENIED"
status_to_string err_key_store_full = codes "CTAP2_ERR_KEY_STORE_FULL"
status_to_string err_no_operation_pending = codes "CTAP2_ERR_NO_OPERATION_PENDING"
status_to_string err_unsupported_option = codes "CTAP2_ERR_UNSUPPORTED_OPTION"
status_to_string err_invalid_option = codes "CTAP2_ERR_INVALID_OPTION"
status_to_string err_keepalive_cancel = codes "CTAP2_ERR_KEEPALIVE_CANCEL"
status_to_string err_no_credentials = codes "CTAP2_ERR_NO_CREDENTIALS"
status_to_string err_user_action_timeout = codes "CTAP2_ERR_USER_ACTION_TIMEOUT"
status_to_string err_not_allowed = codes "CTAP2_ERR_NOT_ALLOWED"
status_to_string err_pin_invalid = codes "CTAP2_ERR_PIN_INVALID"
status_to_string err_pin_blocked = codes "CTAP2_ERR_PIN_BLOCKED"
status_to_string err_pin_auth_invalid = codes "CTAP2_ERR_PIN_AUTH_INVALID"
status_to_string err_pin_auth_blocked = codes "CTAP2_ERR_PIN_AUTH_BLOCKED"
status_to_string err_pin_not_set = codes "CTAP2_ERR_PIN_NOT_SET"
status_to_string err_pin_required = codes "CTAP2_ERR_PIN_REQUIRED"
status_to_string err_pin_policy_violation = codes "CTAP2_ERR_PIN_POLICY_VIOLATION"
status_to_string err_pin_token_expired = codes "CTAP2_ERR_PIN_TOKEN_EXPIRED"
status_to_string err_request_too_large = codes "CTAP2_ERR_REQUEST_TOO_LARGE"
status_to_string err_action_timeout = codes "CTAP2_ERR_ACTION_TIMEOUT"
status_to_string err_up_required = codes "CTAP2_ERR_UP_REQUIRED"
status_to_string err_uv_blocked = codes "CTAP2_ERR_UV_BLOCKED"
status_to_string err_other = codes "CTAP1_ERR_OTHER"

pub data Command : Type 0 where
  authenticator_make_credential authenticator_get_assertion authenticator_get_info
        authenticator_client_pin authenticator_reset authenticator_get_next_assertion :
      Command

unfoldable pub command_byte : Command → ℕ
command_byte authenticator_make_credential = 0x01
command_byte authenticator_get_assertion = 0x02
command_byte authenticator_get_info = 0x04
command_byte authenticator_client_pin = 0x06
command_byte authenticator_reset = 0x07
command_byte authenticator_get_next_assertion = 0x08

unfoldable pub command_to_string : Command → Bytes
command_to_string authenticator_make_credential = codes "make credential command"
command_to_string authenticator_get_assertion = codes "get assertion command"
command_to_string authenticator_get_info = codes "get info command"
command_to_string authenticator_client_pin = codes "client PIN command"
command_to_string authenticator_reset = codes "reset command"
command_to_string authenticator_get_next_assertion = codes "get next assertion command"

pub data KeepaliveStatus : Type 0 where
  status_processing status_up_needed status_error : KeepaliveStatus

-- The enumerators that `ProcessKeepalive` casts to bytes; `kStatusError` counts on from 2.
unfoldable pub keepalive_byte : KeepaliveStatus → ℕ
keepalive_byte status_processing = 0x01
keepalive_byte status_up_needed = 0x02
keepalive_byte status_error = 0x03

-- The cast to a byte loses nothing: each enumerator is found again under its value.
pub find_by-status_byte : (s : Status) → find_by status_byte (status_byte s) statuses ≡ some s
unfolding status_byte find_by
find_by-status_byte err_none = refl
find_by-status_byte err_invalid_command = refl
find_by-status_byte err_invalid_parameter = refl
find_by-status_byte err_invalid_length = refl
find_by-status_byte err_invalid_seq = refl
find_by-status_byte err_timeout = refl
find_by-status_byte err_channel_busy = refl
find_by-status_byte err_lock_required = refl
find_by-status_byte err_invalid_channel = refl
find_by-status_byte err_cbor_unexpected_type = refl
find_by-status_byte err_invalid_cbor = refl
find_by-status_byte err_missing_parameter = refl
find_by-status_byte err_limit_exceeded = refl
find_by-status_byte err_unsupported_extension = refl
find_by-status_byte err_credential_excluded = refl
find_by-status_byte err_processing = refl
find_by-status_byte err_invalid_credential = refl
find_by-status_byte err_user_action_pending = refl
find_by-status_byte err_operation_pending = refl
find_by-status_byte err_no_operations = refl
find_by-status_byte err_unsupported_algorithm = refl
find_by-status_byte err_operation_denied = refl
find_by-status_byte err_key_store_full = refl
find_by-status_byte err_no_operation_pending = refl
find_by-status_byte err_unsupported_option = refl
find_by-status_byte err_invalid_option = refl
find_by-status_byte err_keepalive_cancel = refl
find_by-status_byte err_no_credentials = refl
find_by-status_byte err_user_action_timeout = refl
find_by-status_byte err_not_allowed = refl
find_by-status_byte err_pin_invalid = refl
find_by-status_byte err_pin_blocked = refl
find_by-status_byte err_pin_auth_invalid = refl
find_by-status_byte err_pin_auth_blocked = refl
find_by-status_byte err_pin_not_set = refl
find_by-status_byte err_pin_required = refl
find_by-status_byte err_pin_policy_violation = refl
find_by-status_byte err_pin_token_expired = refl
find_by-status_byte err_request_too_large = refl
find_by-status_byte err_action_timeout = refl
find_by-status_byte err_up_required = refl
find_by-status_byte err_uv_blocked = refl
find_by-status_byte err_other = refl

-- Only a byte that is the value of an enumerator is cast to it.
pub status_byte-find_by :
    (b : ℕ) {s : Status} → find_by status_byte b statuses ≡ some s → status_byte s ≡ b
status_byte-find_by b e = find_by_sound status_byte b statuses e

-- So `==` on statuses decides equality.
pub status_eq_iff : (s t : Status) → (status_eq s t ≡ true) ↔ (s ≡ t)
unfolding status_eq
status_eq_iff s t = ground (
  arith,
  find_by-status_byte s,
  find_by-status_byte t,
  ap (λ b. find_by status_byte b statuses) {x = status_byte s} {y = status_byte t},
)
