-- ===== src/Constants/Keys.antt =====
-- The map keys of requests and responses (src/constants.h), and the tests whether a response key
-- is known. Keys are the non-negative values that `GetUnsigned` returns.
use ctap2_test_tool.Base.{Bool, leb, ℕ, ◌&&◌}

pub data MakeCredentialParameters : Type 0 where
  client_data_hash rp user pub_key_cred_params exclude_list extensions options pin_uv_auth_param
        pin_uv_auth_protocol enterprise_attestation :
      MakeCredentialParameters

unfoldable pub make_credential_parameters_key : MakeCredentialParameters → ℕ
make_credential_parameters_key MakeCredentialParameters.client_data_hash = 0x01
make_credential_parameters_key MakeCredentialParameters.rp = 0x02
make_credential_parameters_key MakeCredentialParameters.user = 0x03
make_credential_parameters_key MakeCredentialParameters.pub_key_cred_params = 0x04
make_credential_parameters_key MakeCredentialParameters.exclude_list = 0x05
make_credential_parameters_key MakeCredentialParameters.extensions = 0x06
make_credential_parameters_key MakeCredentialParameters.options = 0x07
make_credential_parameters_key MakeCredentialParameters.pin_uv_auth_param = 0x08
make_credential_parameters_key MakeCredentialParameters.pin_uv_auth_protocol = 0x09
make_credential_parameters_key MakeCredentialParameters.enterprise_attestation = 0x0A

pub data GetAssertionParameters : Type 0 where
  rp_id client_data_hash allow_list extensions options pin_uv_auth_param pin_uv_auth_protocol :
      GetAssertionParameters

unfoldable pub get_assertion_parameters_key : GetAssertionParameters → ℕ
get_assertion_parameters_key GetAssertionParameters.rp_id = 0x01
get_assertion_parameters_key GetAssertionParameters.client_data_hash = 0x02
get_assertion_parameters_key GetAssertionParameters.allow_list = 0x03
get_assertion_parameters_key GetAssertionParameters.extensions = 0x04
get_assertion_parameters_key GetAssertionParameters.options = 0x05
get_assertion_parameters_key GetAssertionParameters.pin_uv_auth_param = 0x06
get_assertion_parameters_key GetAssertionParameters.pin_uv_auth_protocol = 0x07

pub data ClientPinParameters : Type 0 where
  pin_uv_auth_protocol sub_command key_agreement pin_uv_auth_param new_pin_enc pin_hash_enc
        min_pin_length min_pin_length_rp_ids permissions permissions_rp_id :
      ClientPinParameters

unfoldable pub client_pin_parameters_key : ClientPinParameters → ℕ
client_pin_parameters_key ClientPinParameters.pin_uv_auth_protocol = 0x01
client_pin_parameters_key ClientPinParameters.sub_command = 0x02
client_pin_parameters_key ClientPinParameters.key_agreement = 0x03
client_pin_parameters_key ClientPinParameters.pin_uv_auth_param = 0x04
client_pin_parameters_key ClientPinParameters.new_pin_enc = 0x05
client_pin_parameters_key ClientPinParameters.pin_hash_enc = 0x06
client_pin_parameters_key ClientPinParameters.min_pin_length = 0x07
client_pin_parameters_key ClientPinParameters.min_pin_length_rp_ids = 0x08
client_pin_parameters_key ClientPinParameters.permissions = 0x09
client_pin_parameters_key ClientPinParameters.permissions_rp_id = 0x0A

pub data MakeCredentialResponse : Type 0 where
  fmt auth_data att_stmt ep_att large_blob_key : MakeCredentialResponse

unfoldable pub make_credential_response_key : MakeCredentialResponse → ℕ
make_credential_response_key MakeCredentialResponse.fmt = 0x01
make_credential_response_key MakeCredentialResponse.auth_data = 0x02
make_credential_response_key MakeCredentialResponse.att_stmt = 0x03
make_credential_response_key MakeCredentialResponse.ep_att = 0x04
make_credential_response_key MakeCredentialResponse.large_blob_key = 0x05

pub data GetAssertionResponse : Type 0 where
  credential auth_data signature user number_of_credentials user_selected large_blob_key :
      GetAssertionResponse

unfoldable pub get_assertion_response_key : GetAssertionResponse → ℕ
get_assertion_response_key GetAssertionResponse.credential = 0x01
get_assertion_response_key GetAssertionResponse.auth_data = 0x02
get_assertion_response_key GetAssertionResponse.signature = 0x03
get_assertion_response_key GetAssertionResponse.user = 0x04
get_assertion_response_key GetAssertionResponse.number_of_credentials = 0x05
get_assertion_response_key GetAssertionResponse.user_selected = 0x06
get_assertion_response_key GetAssertionResponse.large_blob_key = 0x07

pub data InfoMember : Type 0 where
  versions extensions aaguid options max_msg_size pin_uv_auth_protocols max_credential_count_in_list
        max_credential_id_length transports algorithms max_serialized_large_blob_array
        force_pin_change min_pin_length firmware_version max_cred_blob_length
        max_rp_ids_for_set_min_pin_length preferred_platform_uv_attempts uv_modality certifications
        remaining_discoverable_credentials vendor_prototype_config_commands :
      InfoMember

unfoldable pub info_member_key : InfoMember → ℕ
info_member_key InfoMember.versions = 0x01
info_member_key InfoMember.extensions = 0x02
info_member_key InfoMember.aaguid = 0x03
info_member_key InfoMember.options = 0x04
info_member_key InfoMember.max_msg_size = 0x05
info_member_key InfoMember.pin_uv_auth_protocols = 0x06
info_member_key InfoMember.max_credential_count_in_list = 0x07
info_member_key InfoMember.max_credential_id_length = 0x08
info_member_key InfoMember.transports = 0x09
info_member_key InfoMember.algorithms = 0x0A
info_member_key InfoMember.max_serialized_large_blob_array = 0x0B
info_member_key InfoMember.force_pin_change = 0x0C
info_member_key InfoMember.min_pin_length = 0x0D
info_member_key InfoMember.firmware_version = 0x0E
info_member_key InfoMember.max_cred_blob_length = 0x0F
info_member_key InfoMember.max_rp_ids_for_set_min_pin_length = 0x10
info_member_key InfoMember.preferred_platform_uv_attempts = 0x11
info_member_key InfoMember.uv_modality = 0x12
info_member_key InfoMember.certifications = 0x13
info_member_key InfoMember.remaining_discoverable_credentials = 0x14
info_member_key InfoMember.vendor_prototype_config_commands = 0x15

pub data ClientPinResponse : Type 0 where
  key_agreement pin_uv_auth_token pin_retries power_cycle_state uv_retries : ClientPinResponse

unfoldable pub client_pin_response_key : ClientPinResponse → ℕ
client_pin_response_key ClientPinResponse.key_agreement = 0x01
client_pin_response_key ClientPinResponse.pin_uv_auth_token = 0x02
client_pin_response_key ClientPinResponse.pin_retries = 0x03
client_pin_response_key ClientPinResponse.power_cycle_state = 0x04
client_pin_response_key ClientPinResponse.uv_retries = 0x05

unfoldable pub make_credential_response_contains : ℕ → Bool
make_credential_response_contains key = leb 0x01 key && leb key 0x05

unfoldable pub get_assertion_response_contains : ℕ → Bool
get_assertion_response_contains key = leb 0x01 key && leb key 0x07

unfoldable pub info_member_contains : ℕ → Bool
info_member_contains key = leb 0x01 key && leb key 0x15

unfoldable pub client_pin_response_contains : ℕ → Bool
client_pin_response_contains key = leb 0x01 key && leb key 0x05
