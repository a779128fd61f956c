-- ===== src/Fuzzing.antt =====
-- src/fuzzing/fuzzing_helpers.{h,cc} and src/fuzzing/corpus_controller.{h,cc}: the corpus of input
-- files, and how an input is sent.
pub mod Corpus
pub mod Order
use ctap2_test_tool.Base.{Bytes, Option, [], codes, false, none, some}
use ctap2_test_tool.Constants.Codes.{
  Command, Status, authenticator_client_pin, authenticator_get_assertion,
  authenticator_make_credential, err_other,
}
use ctap2_test_tool.Hid.Device.{HidDevice}
use ctap2_test_tool.Hid.Exchange.{exchange_cbor}

pub data InputType : Type 0 where
  cbor_make_credential_parameter cbor_get_assertion_parameter cbor_client_pin_parameter cbor_raw
        raw_data :
      InputType

unfoldable pub input_type_to_directory_name : InputType → Bytes
input_type_to_directory_name cbor_make_credential_parameter = codes "Cbor_MakeCredentialParameters"
input_type_to_directory_name cbor_get_assertion_parameter = codes "Cbor_GetAssertionParameters"
input_type_to_directory_name cbor_client_pin_parameter = codes "Cbor_ClientPinParameters"
input_type_to_directory_name cbor_raw = codes "Cbor_Raw"
input_type_to_directory_name raw_data = codes "CtapHidRawData"

unfoldable pub input_command : InputType → Option Command
input_command cbor_make_credential_parameter = some authenticator_make_credential
input_command cbor_get_assertion_parameter = some authenticator_get_assertion
input_command cbor_client_pin_parameter = some authenticator_client_pin
input_command cbor_raw = none
input_command raw_data = none

-- The status alone is returned; the response is dropped.
unfoldable pub send_input : InputType → Bytes → HidDevice → Status × HidDevice
unfolding input_command
send_input input_type input d = elim (input_command input_type) [
  | none ↦ (err_other, d)
  | some command ↦ (let (s, response, d') = exchange_cbor command input false [] d in (s, d'))
]
