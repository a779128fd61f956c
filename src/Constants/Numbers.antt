-- ===== src/Constants/Numbers.antt =====
-- `Algorithm` and `PinSubCommand` of src/constants.h, with their numbers.
use ctap2_test_tool.Base.{negsuc, ℕ, ℤ}

pub data Algorithm : Type 0 where
  es256 ecdh_es_hkdf256 rs256 : Algorithm

unfoldable pub algorithm_number : Algorithm → ℤ
algorithm_number es256 = negsuc 6
algorithm_number ecdh_es_hkdf256 = negsuc 24
algorithm_number rs256 = negsuc 256

-- `kGetPinToken` is another name of `kGetPinUvAuthTokenUsingPin`.
pub data PinSubCommand : Type 0 where
  get_pin_retries get_key_agreement set_pin change_pin get_pin_uv_auth_token_using_pin
        get_pin_uv_auth_token_using_uv get_uv_retries :
      PinSubCommand

unfoldable pub pin_sub_command_number : PinSubCommand → ℕ
pin_sub_command_number get_pin_retries = 0x01
pin_sub_command_number get_key_agreement = 0x02
pin_sub_command_number set_pin = 0x03
pin_sub_command_number change_pin = 0x04
pin_sub_command_number get_pin_uv_auth_token_using_pin = 0x05
pin_sub_command_number get_pin_uv_auth_token_using_uv = 0x06
pin_sub_command_number get_uv_retries = 0x07
